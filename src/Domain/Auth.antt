-- ===== src/Domain/Auth.antt =====
-- internal/domain/auth.go. A uuid is its text; a time is 0 where Go has the zero time.
use tucanbit_tvs.Prelude.{String, ℕ, Bool}

pub record User : Type 0 where
  pub id : String
  pub username : String
  pub kyc_status : String
  pub email : String
  pub phone_number : String
  pub user_type : String
  pub status : String
  pub created_at : ℕ
  pub updated_at : ℕ

pub record UserSession : Type 0 where
  pub id : String
  pub user_id : String
  pub token : String
  pub expires_at : ℕ
  pub ip_address : String
  pub user_agent : String
  pub refresh_token : String
  pub refresh_token_expires_at : ℕ
  pub created_at : ℕ

-- `Claim`, with the fields of `jwt.StandardClaims` that the code sets; the times are in seconds.
pub record Claim : Type 0 where
  pub user_id : String
  pub is_verified : Bool
  pub email_verified : Bool
  pub phone_verified : Bool
  pub expires_at : ℕ
  pub issued_at : ℕ
  pub issuer : String
  pub subject : String
