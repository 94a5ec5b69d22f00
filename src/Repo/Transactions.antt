-- ===== src/Repo/Transactions.antt =====
-- internal/repositories/transactionrepo/transaction_repo_impl.go
pub mod Status
use tucanbit_tvs.Effects.{Action, ◌>>=◌, pure, crash, raise, wrap, attempt, Try, done, error}
use tucanbit_tvs.Effects.Calls.{query, execute, time_now, must_parse_uuid}
use tucanbit_tvs.Repo.Sessions.{null_string}
use tucanbit_tvs.Db.Transactions
use tucanbit_tvs.Prelude.{◌∷◌, [], ℕ, String, Option, if◌then◌else◌, none, some, List, eqb, map}
use tucanbit_tvs.Prelude.Int.{ℤ, eqb_ℤ, leb_ℤ, pos, wrap32}
use tucanbit_tvs.Domain.Transaction.{
  Transaction, VerificationStatus, empty_transaction, ProcessorType, TransactionType,
}
use tucanbit_tvs.Db.Rows.{Sentinel, TransactionRow, get_or, plain_error, ok, GoError}

-- `sql.NullInt64{Int64: n, Valid: n != 0}`
abbrev null_zero : ℤ → Option ℤ
null_zero n = if eqb_ℤ n (pos 0) then none else some n

-- `sql.NullTime{Time: t, Valid: !t.IsZero()}`
abbrev null_time : ℕ → Option ℕ
null_time t = if eqb t 0 then none else some t

-- The parameters of `Create`: the times of creation and update are not among those that it sets.
unfoldable pub create_params : Transaction → TransactionRow
create_params tx = record {
  id = "";
  deposit_session_id = null_string tx.deposit_session_id;
  withdrawal_id = null_string tx.withdrawal_id;
  chain_id = tx.chain_id;
  network = tx.network;
  crypto_currency = tx.crypto_currency;
  tx_hash = tx.tx_hash;
  from_address = tx.from_address;
  to_address = tx.to_address;
  amount = tx.amount;
  usd_amount_cents = if leb_ℤ (pos 0) tx.usd_amount_cents then some tx.usd_amount_cents else none;
  exchange_rate = null_string tx.exchange_rate;
  fee = null_string tx.fee;
  block_number = null_zero tx.block_number;
  block_hash = null_string tx.block_hash;
  status = tx.status;
  confirmations = wrap32 tx.confirmations;
  timestamp = null_time tx.timestamp;
  verified_at = null_time tx.verified_at;
  processor = tx.processor;
  transaction_type = tx.transaction_type;
  metadata = tx.metadata;
  created_at = none;
  updated_at = none;
}

-- `Create`
unfoldable pub create : Transaction → Action (Unit {0})
create tx = execute (Transactions.create_transaction (create_params tx))

-- `mapToDomainTransaction`: the columns that it leaves out keep their zero values, the ids of the
-- session and the withdrawal among them.
unfoldable pub map_to_domain_transaction : TransactionRow → Transaction
map_to_domain_transaction row = record empty_transaction {
  id = row.id;
  chain_id = row.chain_id;
  crypto_currency = row.crypto_currency;
  tx_hash = row.tx_hash;
  from_address = row.from_address;
  to_address = row.to_address;
  amount = row.amount;
  fee = get_or "" row.fee;
  block_number = get_or (pos 0) row.block_number;
  block_hash = get_or "" row.block_hash;
  status = row.status;
  confirmations = row.confirmations;
  timestamp = get_or 0 row.timestamp;
  verified_at = get_or 0 row.verified_at;
  metadata = row.metadata;
  created_at = get_or 0 row.created_at;
  updated_at = get_or 0 row.updated_at;
}

abbrev pub missing : Sentinel → GoError → Action Transaction
missing Sentinel.pgx_no_rows e = pure empty_transaction
missing _ e = raise e

-- `if err == pgx.ErrNoRows { return Transaction{}, nil }`
unfoldable pub or_empty : Try TransactionRow → Action Transaction
unfolding map_to_domain_transaction
or_empty (done row) = pure (map_to_domain_transaction row)
or_empty (error e) = missing e.sentinel e

-- `GetByHash`
unfoldable pub get_by_hash : String → String → Action Transaction
get_by_hash chain_id tx_hash = do
  found ← attempt (query (Transactions.get_transaction_by_hash chain_id tx_hash))
  or_empty found

-- `GetByID`
unfoldable pub get_by_id : String → Action Transaction
get_by_id id = do
  uuid ← must_parse_uuid id
  found ← attempt (query (Transactions.get_transaction_by_id uuid))
  or_empty found

-- The parameters of `Update`: what it does not set is null or empty.
unfoldable pub update_params : Transaction → String → TransactionRow
unfolding create_params
update_params tx id = record (create_params tx) {
  id = id;
  deposit_session_id = none;
  withdrawal_id = none;
  network = "";
  usd_amount_cents = none;
  exchange_rate = none;
  processor = ProcessorType.unset;
  transaction_type = TransactionType.unset;
}

-- `Update`
unfoldable pub update : Transaction → Action (Unit {0})
update tx = do
  id ← must_parse_uuid tx.id
  wrap ("failed to update transaction: " ∷ [])
      (execute (λ stamp. Transactions.update_transaction (update_params tx id)))

-- `json.Marshal` of the metadata: nil, a value that has no JSON text, or the text.
abbrev marshalled : Option (Option String) → Action (Option String)
marshalled none = pure none
marshalled (some none) = raise (plain_error "failed to marshal metadata: ")
marshalled (some (some text)) = pure (some text)

-- `verifiedAt` is set for the verified status alone, and `*verifiedAt` is read for every status.
abbrev pub verified_time : VerificationStatus → Action ℕ
verified_time VerificationStatus.verified = time_now
verified_time _ = crash "invalid memory address or nil pointer dereference"

-- `UpdateStatus`
unfoldable pub update_status :
    String → VerificationStatus → Option (Option String) → Action (Unit {0})
update_status id status metadata = do
  text ← marshalled metadata
  uuid ← must_parse_uuid id
  verified_at ← verified_time status
  execute (Transactions.update_transaction_status uuid status (some verified_at) text)

-- `GetByAddress`
unfoldable pub get_by_address : String → String → ℕ → ℕ → Action (List Transaction)
unfolding map_to_domain_transaction
get_by_address chain_id address limit offset = do
  rows ←
      query (λ db. ok (Transactions.get_transactions_by_address chain_id address limit offset db))
  pure (map map_to_domain_transaction rows)

-- `GetPendingTransactions`
unfoldable pub get_pending_transactions : ℕ → Action (List Transaction)
unfolding map_to_domain_transaction
get_pending_transactions limit = do
  rows ← query (λ db. ok (Transactions.get_pending_transactions limit db))
  pure (map map_to_domain_transaction rows)

-- `GetTransactionsByStatus`
unfoldable pub get_transactions_by_status : VerificationStatus → ℕ → ℕ → Action (List Transaction)
unfolding map_to_domain_transaction
get_transactions_by_status status limit offset = do
  rows ← query (λ db. ok (Transactions.get_transactions_by_status status limit offset db))
  pure (map map_to_domain_transaction rows)

-- `GetByDepositSessionID`
unfoldable pub get_by_deposit_session_id : String → Action Transaction
unfolding map_to_domain_transaction
get_by_deposit_session_id session_id = do
  row ← query (Transactions.get_transaction_by_deposit_session_id session_id)
  pure (map_to_domain_transaction row)

-- `GetByWithdrawalID`
unfoldable pub get_by_withdrawal_id : String → Action Transaction
unfolding map_to_domain_transaction
get_by_withdrawal_id withdrawal_id = do
  row ← query (Transactions.get_transaction_by_withdrawal_id withdrawal_id)
  pure (map_to_domain_transaction row)
