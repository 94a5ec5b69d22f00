-- ===== src/Domain/Session.antt =====
-- internal/domain/session.go
use tucanbit_tvs.Prelude.{ℕ, String, Bool, Option, none, eqb}
use tucanbit_tvs.Prelude.Int.{pos}
use tucanbit_tvs.Float.{Float, of_int}

-- `unset` is the empty string, the zero value of the Go type; no database row holds it.
pub data SessionStatus : Type 0 where
  unset pending processing completed failed cancelled expired : SessionStatus

abbrev status_code : SessionStatus → ℕ
status_code SessionStatus.unset = 0
status_code SessionStatus.pending = 1
status_code SessionStatus.processing = 2
status_code SessionStatus.completed = 3
status_code SessionStatus.failed = 4
status_code SessionStatus.cancelled = 5
status_code SessionStatus.expired = 6

-- `a == b`
abbrev pub same_session_status : SessionStatus → SessionStatus → Bool
same_session_status a b = eqb (status_code a) (status_code b)

pub record DepositSession : Type 0 where
  pub id : String
  pub session_id : String
  pub user_id : String
  pub chain_id : String
  pub network : String
  pub wallet_address : String
  pub amount : Float
  pub crypto_currency : String
  pub status : SessionStatus
  pub qr_code_data : String
  pub payment_link : String
  pub metadata : Option String
  pub error_message : String
  pub created_at : ℕ
  pub updated_at : ℕ

-- `DepositSession{}`
abbrev pub empty_session : DepositSession
empty_session = record {
  id = "";
  session_id = "";
  user_id = "";
  chain_id = "";
  network = "";
  wallet_address = "";
  amount = of_int (pos 0);
  crypto_currency = "";
  status = SessionStatus.unset;
  qr_code_data = "";
  payment_link = "";
  metadata = none;
  error_message = "";
  created_at = 0;
  updated_at = 0;
}
