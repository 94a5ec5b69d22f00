-- ===== src/Auth.antt =====
-- internal/application/auth/auth_service_impl.go. The token library github.com/dgrijalva/jwt-go is a
-- parameter.
pub mod Tokens
pub mod Unsaved
use tucanbit_tvs.Repo.Auth.{IpAddress, nil_uuid}
use tucanbit_tvs.Repo
use tucanbit_tvs.Domain.Auth.{Claim}
use tucanbit_tvs.Effects.{◌>>=◌, ◌>>◌, Action, raise, asks, wrap, lift, pure}
use tucanbit_tvs.Exchange.{second}
use tucanbit_tvs.Prelude.{
  ◌∷◌, [], Bool, String, ℕ, Option, ◌/◌, if◌then◌else◌, ltb, ◌==◌, some, not, ◌+◌, none, ◌*◌, ◌-◌,
}
use tucanbit_tvs.Domain.Auth.{UserSession}
use tucanbit_tvs.Db.Rows.{Result, ok, plain_error, err}
use tucanbit_tvs.Effects.Calls.{time_now, new_uuid}

-- What `jwt.ParseWithClaims` returns: `token.Valid`, and `token.Claims` where it is a
-- `*domain.Claim`.
pub record Token : Type 0 where
  pub valid : Bool
  pub claims : Option Claim

-- The calls of the libraries: `parse_with_claims` gets the text of the token, the key function,
-- which is told whether the token's method is HMAC, and the seconds on the clock; `signed_string`
-- gets the key and the claims.
pub record AuthLibrary : Type 0 where
  pub parse_with_claims : String → (Bool → Result String) → ℕ → Result Token
  pub signed_string : String → Claim → Result String
  pub parse_ip : String → Option IpAddress

-- The seconds from Go's zero time to the Unix epoch.
abbrev pub epoch : ℕ
epoch = 62135596800

-- `t.Unix()`, for a time after the epoch.
abbrev pub unix : ℕ → ℕ
unix t = t / second - epoch

-- The key function: only an HMAC method gets the secret.
abbrev pub key_function : String → Bool → Result String
key_function secret is_hmac =
    if is_hmac then ok secret else err (plain_error "unexpected signing method")

-- `claims, ok := token.Claims.(*domain.Claim)`
abbrev pub claims_of : Option Claim → Action Claim
claims_of none = raise (plain_error "invalid claims format")
claims_of (some claims) = pure claims

-- The checks of the claims.
unfoldable pub check_claims : Claim → Action Claim
check_claims claims = do
  now ← time_now
  if ltb claims.expires_at (unix now)
      then raise (plain_error "token expired")
      else if not (claims.issuer == "tucanbit")
      then raise (plain_error "invalid issuer")
      else pure claims

abbrev pub issuer_name : String
issuer_name = "tucanbit"

-- The claims that `GenerateJWTWithVerification` signs.
abbrev pub new_claim : String → Bool → Bool → Bool → ℕ → ℕ → Claim
new_claim user_id is_verified email_verified phone_verified expiration_time now = record {
  user_id = user_id;
  is_verified = is_verified;
  email_verified = email_verified;
  phone_verified = phone_verified;
  expires_at = unix expiration_time;
  issued_at = unix now;
  issuer = issuer_name;
  subject = user_id;
}

-- `VerifyAPIKey`
unfoldable pub verify_api_key : String → Result (Unit {0})
verify_api_key api_key = if api_key == "" then err (plain_error "invalid API key") else ok tt

module _ (library : AuthLibrary) where
  -- The part behind the look at the secret.
  unfoldable pub verify_with : String → String → Action Claim
  unfolding check_claims
  verify_with token_string secret = do
    now ← time_now
    token ←
        wrap ("failed to parse token: " ∷ [])
          (lift (library.parse_with_claims token_string (key_function secret) (unix now)))
    if not token.valid
        then raise (plain_error "invalid token")
        else (do claims ← claims_of token.claims; check_claims claims)

  -- `VerifyToken`
  unfoldable pub verify_token : String → Action Claim
  unfolding verify_with
  verify_token token_string = do
    secret ← asks (λ env. env.config.jwt_secret)
    if secret == ""
        then raise (plain_error "JWT secret not configured")
        else verify_with token_string secret

  -- `SaveUserSession`
  unfoldable pub save_session : UserSession → Action (Unit {0})
  save_session session =
      wrap ("failed to save user session: " ∷ [])
        (Repo.Auth.save_user_session library.parse_ip session)

  -- The session of a signed token.
  unfoldable pub store_token : String → ℕ → String → Action String
  unfolding save_session
  store_token user_id expiration_time token = do
    id ← new_uuid
    now ← time_now
    save_session (record {
      id = id;
      user_id = user_id;
      token = token;
      expires_at = expiration_time;
      ip_address = "";
      user_agent = "";
      refresh_token = "";
      refresh_token_expires_at = 0;
      created_at = now;
    })
    pure token

  -- The part behind the look at the secret.
  unfoldable pub sign_with : String → Bool → Bool → Bool → String → Action String
  unfolding store_token
  sign_with user_id is_verified email_verified phone_verified secret = do
    started ← time_now
    issued ← time_now
    token ← wrap ("failed to sign token: " ∷ []) (
        lift (
          library.signed_string secret (
            new_claim user_id is_verified email_verified phone_verified
              (started + 3600 * second * 24) issued)))
    store_token user_id (started + 3600 * second * 24) token

  -- `GenerateJWTWithVerification`
  unfoldable pub generate_jwt_with_verification : String → Bool → Bool → Bool → Action String
  unfolding sign_with
  generate_jwt_with_verification user_id is_verified email_verified phone_verified = do
    secret ← asks (λ env. env.config.jwt_secret)
    if secret == ""
        then raise (plain_error "JWT secret not configured")
        else sign_with user_id is_verified email_verified phone_verified secret
