-- ===== src/Db/Transactions/Stats.antt =====
-- `GetTransactionStats` of internal/repositories/transactionrepo/gen/queries.sql.go.
use tucanbit_tvs.Db.Transactions.{is_verification_status, same_status}
use tucanbit_tvs.Db.Rows.{TransactionRow, Db}
use tucanbit_tvs.Domain.Transaction.{VerificationStatus}
use tucanbit_tvs.Prelude.{
  ℕ, String, true, if◌then◌else◌, ◌==◌, keep, length, List, ◌∷◌, [], ◌≡◌, ◌+◌, All, All-keep, arith,
  refl, ap, ◌∙◌, suc,
}
use tucanbit_tvs.Prelude.Int.{ℤ}
use mathlib.Core.List.{map}

-- `GetTransactionStatsRow`
pub record TransactionStats : Type 0 where
  pub total_transactions : ℕ
  pub verified_count : ℕ
  pub pending_count : ℕ
  pub failed_count : ℕ
  pub processing_count : ℕ
  pub total_amount : String
  pub avg_confirmations : String

-- `COUNT(CASE WHEN status = '...' THEN 1 END)`
abbrev pub count_status : VerificationStatus → List TransactionRow → ℕ
count_status status rows = length (keep (λ r. same_status r.status status) rows)

-- The counts of the rows; `sum` and `avg` are the database's SUM and AVG with their COALESCE.
unfoldable pub stats_of :
    (List String → String) → (List ℤ → String) → List TransactionRow → TransactionStats
stats_of sum avg rows = record {
  total_transactions = length rows;
  verified_count = count_status VerificationStatus.verified rows;
  pending_count = count_status VerificationStatus.pending rows;
  failed_count = count_status VerificationStatus.failed rows;
  processing_count = count_status VerificationStatus.processing rows;
  total_amount = sum (map (λ r. r.amount) rows);
  avg_confirmations = avg (map (λ r. r.confirmations) rows);
}

-- `GetTransactionStats`
unfoldable pub get_transaction_stats :
    (List String → String) → (List ℤ → String) → String → Db → TransactionStats
unfolding stats_of
get_transaction_stats sum avg chain_id db =
    stats_of sum avg (keep (λ r. r.chain_id == chain_id) db.transactions)

-- A row with one of the four statuses is counted once.
count_one :
    (status : VerificationStatus) (row : TransactionRow) (vs ps fs qs : List TransactionRow)
    → is_verification_status status ≡ true
    → length (if same_status status VerificationStatus.verified then row ∷ vs else vs)
        + length (if same_status status VerificationStatus.pending then row ∷ ps else ps)
        + length (if same_status status VerificationStatus.failed then row ∷ fs else fs)
        + length (if same_status status VerificationStatus.processing then row ∷ qs else qs)
      ≡ suc (length vs + length ps + length fs + length qs)
count_one VerificationStatus.unset row vs ps fs qs h = absurd (cc h)
count_one VerificationStatus.pending row vs ps fs qs h = omega arith
count_one VerificationStatus.verified row vs ps fs qs h = omega arith
count_one VerificationStatus.failed row vs ps fs qs h = omega arith
count_one VerificationStatus.processing row vs ps fs qs h = omega arith

abbrev FitsStatus : TransactionRow → Type 0
FitsStatus r = is_verification_status r.status ≡ true

count_status-total :
    (rows : List TransactionRow)
    → All FitsStatus rows
    → count_status VerificationStatus.verified rows
        + count_status VerificationStatus.pending rows
        + count_status VerificationStatus.failed rows
        + count_status VerificationStatus.processing rows
      ≡ length rows
count_status-total [] h = refl
count_status-total (r ∷ rows) (here, rest) =
    count_one r.status r _ _ _ _ here ∙ ap suc (count_status-total rows rest)

-- If every transaction has a status that the table's CHECK allows, the four counts of
-- `GetTransactionStats` add up to its total.
pub get_transaction_stats-total :
    (sum : List String → String) (avg : List ℤ → String) (chain_id : String) (db : Db)
    → All (λ r. is_verification_status r.status ≡ true) db.transactions
    → (let stats = get_transaction_stats sum avg chain_id db in
        stats.verified_count + stats.pending_count + stats.failed_count + stats.processing_count
        ≡ stats.total_transactions)
unfolding get_transaction_stats stats_of
get_transaction_stats-total sum avg chain_id db h =
    count_status-total (keep (λ r. r.chain_id == chain_id) db.transactions)
      (All-keep FitsStatus (λ r. r.chain_id == chain_id) db.transactions h)
