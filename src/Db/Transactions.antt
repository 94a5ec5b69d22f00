-- ===== src/Db/Transactions.antt =====
-- The statements on transactions, of internal/repositories/transactionrepo/gen/queries.sql.go.
-- The schema has no UNIQUE constraint on this table. A foreign key is checked against the tables
-- that the model has; that a chain is in supported_chains is left to the database.
pub mod Deletion
pub mod Stats
use mathlib.Core.List.{reverse, List}
use tucanbit_tvs.Prelude.{
  take, drop, ℕ, String, Bool, Option, none, some, if◌then◌else◌, true, false, ◌==◌, any,
  find_first, update_where, ◌&&◌, not, ◌∷◌, keep, ◌||◌,
}
use tucanbit_tvs.Prelude.Int.{leb_ℤ, pos}
use tucanbit_tvs.Db.Rows.{
  TransactionRow, Db, Stamp, Result, ok, err, coalesce, one_row, plain_error, newest_first,
}
use tucanbit_tvs.Domain.Transaction.{VerificationStatus, ProcessorType, TransactionType}
use tucanbit_tvs.Db.Sessions.{has_session_id}
use tucanbit_tvs.Db.Withdrawals.{has_withdrawal_id}

abbrev pub is_verification_status : VerificationStatus → Bool
is_verification_status VerificationStatus.unset = false
is_verification_status _ = true

abbrev pub is_processor : ProcessorType → Bool
is_processor ProcessorType.unset = false
is_processor _ = true

abbrev pub is_transaction_type : TransactionType → Bool
is_transaction_type TransactionType.unset = false
is_transaction_type _ = true

-- The NOT NULL and CHECK constraints of the table.
abbrev pub transaction_fits : TransactionRow → Bool
transaction_fits r =
    not (r.network == "")
    && not (r.crypto_currency == "")
    && not (r.tx_hash == "")
    && not (r.from_address == "")
    && not (r.to_address == "")
    && is_verification_status r.status
    && leb_ℤ (pos 0) r.confirmations
    && is_processor r.processor
    && is_transaction_type r.transaction_type

-- REFERENCES deposit_sessions(session_id) and REFERENCES withdrawals(withdrawal_id)
abbrev pub session_exists : Option String → Db → Bool
session_exists none db = true
session_exists (some s) db = any (has_session_id s) db.sessions

abbrev pub withdrawal_exists : Option String → Db → Bool
withdrawal_exists none db = true
withdrawal_exists (some s) db = any (has_withdrawal_id s) db.withdrawals

-- The constraints on a row that is inserted or changed.
unfoldable pub can_store : TransactionRow → Db → Bool
can_store row db =
    transaction_fits row
    && session_exists row.deposit_session_id db
    && withdrawal_exists row.withdrawal_id db

-- `CreateTransaction`: the row is given without its id, which the database makes.
unfoldable pub create_transaction : TransactionRow → Stamp → Db → Result Db
create_transaction row stamp db =
    if can_store row db
    then ok (record db { transactions = record row { id = stamp.uuid } ∷ db.transactions })
    else err (plain_error "new row for relation \"transactions\" violates a constraint")

-- `GetTransactionByHash`
unfoldable pub get_transaction_by_hash : String → String → Db → Result TransactionRow
get_transaction_by_hash chain_id tx_hash db =
    one_row (find_first (λ r. r.chain_id == chain_id && r.tx_hash == tx_hash) db.transactions)

-- `GetTransactionByID`
unfoldable pub get_transaction_by_id : String → Db → Result TransactionRow
get_transaction_by_id id db = one_row (find_first (λ r. r.id == id) db.transactions)

-- `column = $1`: a null is no match.
abbrev pub equals : Option String → String → Bool
equals none s = false
equals (some t) s = t == s

-- `GetTransactionByDepositSessionID`
unfoldable pub get_transaction_by_deposit_session_id : String → Db → Result TransactionRow
get_transaction_by_deposit_session_id session_id db =
    one_row (find_first (λ r. equals r.deposit_session_id session_id) db.transactions)

-- `GetTransactionByWithdrawalID`
unfoldable pub get_transaction_by_withdrawal_id : String → Db → Result TransactionRow
get_transaction_by_withdrawal_id withdrawal_id db =
    one_row (find_first (λ r. equals r.withdrawal_id withdrawal_id) db.transactions)

-- `UpdateTransaction`: every column but id and created_at is written from the parameters.
unfoldable pub update_transaction : TransactionRow → Db → Result Db
update_transaction row db =
    if any (λ r. r.id == row.id) db.transactions
      && not (
          transaction_fits row
          && session_exists row.deposit_session_id db
          && withdrawal_exists row.withdrawal_id db)
    then err (plain_error "new row for relation \"transactions\" violates a constraint")
    else ok (record db {
      transactions =
          update_where (λ r. r.id == row.id) (λ r. record row { created_at = r.created_at })
            db.transactions;
    })

-- `UpdateTransactionStatus`
unfoldable pub update_transaction_status :
    String → VerificationStatus → Option ℕ → Option String → Stamp → Db → Result Db
update_transaction_status id status verified_at metadata stamp db =
    if any (λ r. r.id == id) db.transactions && not (is_verification_status status)
    then err (plain_error "new row for relation \"transactions\" violates a constraint")
    else ok (record db {
      transactions =
          update_where (λ r. r.id == id)
            (λ r. record r {
              status = status;
              verified_at = verified_at;
              metadata = coalesce metadata r.metadata;
              updated_at = some stamp.now;
            })
            db.transactions;
    })

abbrev pub same_status : VerificationStatus → VerificationStatus → Bool
same_status VerificationStatus.unset VerificationStatus.unset = true
same_status VerificationStatus.pending VerificationStatus.pending = true
same_status VerificationStatus.verified VerificationStatus.verified = true
same_status VerificationStatus.failed VerificationStatus.failed = true
same_status VerificationStatus.processing VerificationStatus.processing = true
same_status _ _ = false

-- `GetTransactionsByAddress`
unfoldable pub get_transactions_by_address : String → String → ℕ → ℕ → Db → List TransactionRow
get_transactions_by_address chain_id address limit offset db = take limit (
    drop offset (
      newest_first (λ r. r.timestamp)
        (keep
          (λ r. r.chain_id == chain_id && (r.from_address == address || r.to_address == address))
          db.transactions)))

-- `GetPendingTransactions`: the oldest first, the nulls last.
unfoldable pub get_pending_transactions : ℕ → Db → List TransactionRow
get_pending_transactions limit db = take limit (
    reverse (
      newest_first (λ r. r.created_at)
        (keep
          (λ r.
            same_status r.status VerificationStatus.pending
            || same_status r.status VerificationStatus.processing)
          db.transactions)))

-- `GetTransactionsByStatus`
unfoldable pub get_transactions_by_status : VerificationStatus → ℕ → ℕ → Db → List TransactionRow
get_transactions_by_status status limit offset db = take limit (
    drop offset
      (newest_first (λ r. r.created_at) (keep (λ r. same_status r.status status) db.transactions)))
