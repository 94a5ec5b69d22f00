-- ===== src/Db/Rows.antt =====
-- The rows of internal/repositories/*/gen/models.go, the database, and the outcome of a statement.
use tucanbit_tvs.Prelude.{
  ℕ, String, Bool, List, Option, none, some, if◌then◌else◌, true, false, leb, [], ◌∷◌,
}
use tucanbit_tvs.Prelude.Int.{ℤ}
use tucanbit_tvs.Domain.Session.{SessionStatus}
use tucanbit_tvs.Domain.Withdrawal.{WithdrawalStatus}
use tucanbit_tvs.Domain.Transaction.{VerificationStatus, ProcessorType, TransactionType}

pub record SessionRow : Type 0 where
  pub id : String
  pub session_id : String
  pub user_id : String
  pub chain_id : String
  pub network : String
  pub wallet_address : Option String
  pub amount : String
  pub crypto_currency : String
  pub status : SessionStatus
  pub qr_code_data : Option String
  pub payment_link : Option String
  pub metadata : Option String
  pub error_message : Option String
  pub created_at : Option ℕ
  pub updated_at : Option ℕ

pub record WithdrawalRow : Type 0 where
  pub id : String
  pub user_id : String
  pub admin_id : Option String
  pub withdrawal_id : String
  pub chain_id : String
  pub network : String
  pub crypto_currency : String
  pub usd_amount_cents : ℤ
  pub crypto_amount : String
  pub exchange_rate : String
  pub fee_cents : ℤ
  pub to_address : String
  pub tx_hash : Option String
  pub status : WithdrawalStatus
  pub requires_admin_review : Bool
  pub admin_review_deadline : Option ℕ
  pub processed_by_system : Option Bool
  pub source_wallet_address : String
  pub amount_reserved_cents : ℤ
  pub reservation_released : Option Bool
  pub reservation_released_at : Option ℕ
  pub metadata : Option String
  pub error_message : Option String
  pub created_at : Option ℕ
  pub updated_at : Option ℕ

pub record BalanceRow : Type 0 where
  pub id : String
  pub user_id : String
  pub currency_code : String
  pub amount_cents : Option ℤ
  pub amount_units : Option String
  pub reserved_cents : Option ℤ
  pub reserved_units : Option String
  pub updated_at : Option ℕ

pub record BalanceLogRow : Type 0 where
  pub id : String
  pub user_id : String
  pub component : String
  pub currency_code : String
  pub change_cents : ℤ
  pub change_units : String
  pub description : Option String
  pub timestamp : Option ℕ
  pub balance_after_cents : Option ℤ
  pub balance_after_units : Option String
  pub transaction_id : Option String
  pub status : Option String

pub record TransactionRow : Type 0 where
  pub id : String
  pub deposit_session_id : Option String
  pub withdrawal_id : Option String
  pub chain_id : String
  pub network : String
  pub crypto_currency : String
  pub tx_hash : String
  pub from_address : String
  pub to_address : String
  pub amount : String
  pub usd_amount_cents : Option ℤ
  pub exchange_rate : Option String
  pub fee : Option String
  pub block_number : Option ℤ
  pub block_hash : Option String
  pub status : VerificationStatus
  pub confirmations : ℤ
  pub timestamp : Option ℕ
  pub verified_at : Option ℕ
  pub processor : ProcessorType
  pub transaction_type : TransactionType
  pub metadata : Option String
  pub created_at : Option ℕ
  pub updated_at : Option ℕ

-- A row of users, with the columns that the code reads.
pub record UserRow : Type 0 where
  pub id : String
  pub username : String
  pub kyc_status : Option String
  pub email : Option String
  pub phone_number : String
  pub user_type : Option String
  pub status : Option String
  pub created_at : Option ℕ
  pub updated_at : Option ℕ

-- A row of user_sessions; an address is the text of `pqtype.Inet`.
pub record UserSessionRow : Type 0 where
  pub id : String
  pub user_id : Option String
  pub token : String
  pub expires_at : ℕ
  pub ip_address : Option String
  pub user_agent : Option String
  pub refresh_token : Option String
  pub refresh_token_expires_at : Option ℕ
  pub created_at : Option ℕ

pub record Db : Type 0 where
  pub sessions : List SessionRow
  pub withdrawals : List WithdrawalRow
  pub balances : List BalanceRow
  pub balance_logs : List BalanceLogRow
  pub transactions : List TransactionRow
  pub users : List UserRow
  pub user_sessions : List UserSessionRow

-- The values of CURRENT_TIMESTAMP and gen_random_uuid() in one statement.
pub record Stamp : Type 0 where
  pub now : ℕ
  pub uuid : String
  -- the time that a column of type TIMESTAMPTZ keeps of a given one: it has whole microseconds
  pub timestamptz : ℕ → ℕ

-- `sql.ErrNoRows` of database/sql, the driver's sentinel, and `pgx.ErrNoRows` are different values.
pub data Sentinel : Type 0 where
  plain sql_no_rows pgx_no_rows : Sentinel

-- A Go error: its text, what its methods Timeout and Temporary answer (false where it has none),
-- and the sentinel that it is.
pub record GoError : Type 0 where
  pub message : String
  pub timeout : Bool
  pub temporary : Bool
  pub sentinel : Sentinel

-- A call returns, returns an error, or panics with a text.
pub data Result {ℓ} (A : Type ℓ) : Type ℓ where
  ok : A → Result A
  err : GoError → Result A
  panic : String → Result A

-- COALESCE($1, column)
abbrev pub coalesce {ℓ} : {A : Type ℓ} → Option A → Option A → Option A
coalesce none column = column
coalesce (some v) column = some v

-- sql.NullString{String: s, Valid: s != ""}
abbrev pub null_if : Bool → String → Option String
null_if empty s = if empty then none else some s

abbrev pub get_or {ℓ} : {A : Type ℓ} → A → Option A → A
get_or d none = d
get_or d (some v) = v

-- An error of `errors.New` or `fmt.Errorf`, which has neither Timeout nor Temporary.
abbrev pub plain_error : String → GoError
plain_error message = record {
  message = message;
  timeout = false;
  temporary = false;
  sentinel = Sentinel.plain;
}

abbrev pub sql_no_rows_error : GoError
sql_no_rows_error = record (plain_error "sql: no rows in result set") {
  sentinel = Sentinel.sql_no_rows;
}

-- `QueryRow(...).Scan(...)`: the first row, or `sql.ErrNoRows`.
abbrev pub one_row {ℓ} : {A : Type ℓ} → Option A → Result A
one_row none = err sql_no_rows_error
one_row (some r) = ok r

-- `ORDER BY <key> DESC`: descending, the nulls first; equal keys keep the table's order.
abbrev pub newer : Option ℕ → Option ℕ → Bool
newer none b = true
newer (some a) none = false
newer (some a) (some b) = leb b a

module _ {ℓ} {A : Type ℓ} (key : A → Option ℕ) where
  unfoldable pub insert_newest : A → List A → List A
  insert_newest r [] = r ∷ []
  insert_newest r (s ∷ rows) =
      let rest = insert_newest r rows in if newer (key r) (key s) then r ∷ s ∷ rows else s ∷ rest

  unfoldable pub newest_first : List A → List A
  unfolding insert_newest
  newest_first [] = []
  newest_first (r ∷ rows) = insert_newest r (newest_first rows)
