-- ===== src/Domain/Withdrawal.antt =====
-- internal/domain/withdrawal.go
use tucanbit_tvs.Prelude.{ℕ, String, Bool, Option, eqb}
use tucanbit_tvs.Prelude.Int.{ℤ}

-- `unset` is the empty string, the zero value of the Go type; no database row holds it.
pub data WithdrawalStatus : Type 0 where
  unset pending processing completed failed cancelled awaiting_admin_review : WithdrawalStatus

abbrev status_code : WithdrawalStatus → ℕ
status_code WithdrawalStatus.unset = 0
status_code WithdrawalStatus.pending = 1
status_code WithdrawalStatus.processing = 2
status_code WithdrawalStatus.completed = 3
status_code WithdrawalStatus.failed = 4
status_code WithdrawalStatus.cancelled = 5
status_code WithdrawalStatus.awaiting_admin_review = 6

-- `a == b`
abbrev pub same_withdrawal_status : WithdrawalStatus → WithdrawalStatus → Bool
same_withdrawal_status a b = eqb (status_code a) (status_code b)

pub record Withdrawal : Type 0 where
  pub id : String
  pub user_id : String
  pub admin_id : String
  pub withdrawal_id : String
  pub chain_id : String
  pub network : String
  pub crypto_currency : String
  pub usd_amount_cents : ℤ
  pub crypto_amount : String
  pub exchange_rate : String
  pub fee_cents : ℤ
  pub to_address : String
  pub tx_hash : String
  pub status : WithdrawalStatus
  pub requires_admin_review : Bool
  pub admin_review_deadline : ℕ
  pub processed_by_system : Bool
  pub source_wallet_address : String
  pub amount_reserved_cents : ℤ
  pub reservation_released : Bool
  pub reservation_released_at : ℕ
  pub metadata : Option String
  pub created_at : ℕ
  pub updated_at : ℕ
