-- ===== src/Auth/Tokens.antt =====
-- What `VerifyToken` ensures, and when it returns claims.
use tucanbit_tvs.Auth.{
  AuthLibrary, Token, check_claims, verify_token, claims_of, key_function, unix, verify_with, ltb,
  not, some, Option, raise, pure, lift,
}
use tucanbit_tvs.Effects.Calls.{time_now}
use tucanbit_tvs.Domain.Auth.{Claim}
use tucanbit_tvs.Prelude.{
  refl, ◌≡◌, ◌≤◌, ◌==◌, true, false, arith, eq_of_==, subst, ap, suc, ◌∷◌, [], String, ℕ, Bool,
  if◌then◌else◌, none, ◌↔◌,
}
use tucanbit_tvs.Effects.{◌>>=◌, Env, World, wrap}
use tucanbit_tvs.Db.Rows.{GoError, Result, ok, err, panic}

-- The claims name the service as their issuer, and their expiry is not past at the time.
abbrev pub AreCurrent : ℕ → Claim → Type 0
AreCurrent now claims = (claims.issuer ≡ "tucanbit") × (unix now ≤ claims.expires_at)

not_below : (a b : ℕ) → ltb a b ≡ false → b ≤ a
not_below a b h = ground arith

at_most : (a b : ℕ) → b ≤ a → ltb a b ≡ false
at_most a b h = ground arith

module _ (env : Env) where
  -- Two refusals in a row were both passed.
  passed :
      (b c : Bool) (claims found : Claim) (e e' : GoError) (w : World)
      → ((if b then raise e else if c then raise e' else pure claims) env w).0 ≡ ok found
      → ((b ≡ false) × (c ≡ false)) × (claims ≡ found)
  passed true c claims found e e' w h = absurd (cc h)
  passed false true claims found e e' w h = absurd (cc h)
  passed false false claims found e e' w h = ((refl, refl), cc h)

  check_claims_inv :
      (claims found : Claim) (w : World)
      → (check_claims claims env w).0 ≡ ok found
      → (claims ≡ found) × AreCurrent (env.clock w.tick) found
  unfolding check_claims ◌>>=◌ time_now
  check_claims_inv claims found w h =
      let ((fresh, issued), same) =
        passed (ltb claims.expires_at (unix (env.clock w.tick))) (not (claims.issuer == "tucanbit"))
          claims found _ _ _ h in
      (
        same,
        subst (AreCurrent (env.clock w.tick)) same
            (eq_of_== claims.issuer "tucanbit" (ground (arith, issued)), not_below _ _ fresh),
      )

  check_claims-accepts :
      (claims : Claim) (w : World)
      → AreCurrent (env.clock w.tick) claims
      → (check_claims claims env w).0 ≡ ok claims
  unfolding check_claims ◌>>=◌ time_now
  check_claims-accepts claims w (issued, fresh) = rw (at_most _ _ fresh, issued) refl

  read_inv :
      (valid : Bool) (claims : Option Claim) (found : Claim) (w : World) (e : GoError)
      → ((if not valid then raise e else (claims_of claims >>= check_claims)) env w).0 ≡ ok found
      → ((valid ≡ true) × (claims ≡ some found)) × AreCurrent (env.clock w.tick) found
  unfolding ◌>>=◌
  read_inv false claims found w e h = absurd (cc h)
  read_inv true none found w e h = absurd (cc h)
  read_inv true (some claims) found w e h =
      let (same, current) = check_claims_inv claims found w h in ((refl, ap some same), current)

  -- The part of `VerifyToken` behind the library's answer.
  parsed_inv :
      (r : Result Token) (found : Claim) (w : World) (e : GoError)
      → ((wrap ("failed to parse token: " ∷ []) (lift r) >>= λ token.
            if not token.valid then raise e else (claims_of token.claims >>= check_claims))
          env w).0
        ≡ ok found
      → ((token : Token) × (r ≡ ok token) × (token.valid ≡ true) × (token.claims ≡ some found))
        × AreCurrent (env.clock w.tick) found
  unfolding ◌>>=◌ wrap
  parsed_inv (ok token) found w e h =
      let ((valid, claims), current) = read_inv token.valid token.claims found w e h in
      ((token, refl, valid, claims), current)
  parsed_inv (err e') found w e h = absurd (cc h)
  parsed_inv (panic text) found w e h = absurd (cc h)

  configured :
      (b : Bool) (claims : Claim) (m : Env → World → Result Claim × World) (e : GoError) (w : World)
      → ((if b then raise e else m) env w).0 ≡ ok claims
      → (b ≡ false) × ((m env w).0 ≡ ok claims)
  configured true claims m e w h = absurd (cc h)
  configured false claims m e w h = (refl, h)

module _ (library : AuthLibrary) where
  -- At the time, the library accepts the token under the configured secret, with the claims.
  abbrev pub IsSigned : Env → ℕ → String → Claim → Type 0
  IsSigned env now token claims =
      (parsed : Token) × (library.parse_with_claims token (key_function env.config.jwt_secret)
          (unix now)
        ≡ ok parsed)
      × (parsed.valid ≡ true)
      × (parsed.claims ≡ some claims)

  -- The token is good when a call in the world reads the clock, once to parse the token and once to
  -- compare the expiry.
  abbrev pub IsGood : Env → World → String → Claim → Type 0
  IsGood env w token claims =
      IsSigned env (env.clock w.tick) token claims × AreCurrent (env.clock (suc w.tick)) claims

  verify_token_inv :
      (env : Env) (w : World) (token : String) (claims : Claim)
      → (verify_token library token env w).0 ≡ ok claims
      → ((env.config.jwt_secret == "") ≡ false) × IsGood env w token claims
  unfolding verify_token verify_with ◌>>=◌ time_now
  verify_token_inv env w token claims h =
      let (set, g) = configured env (env.config.jwt_secret == "") claims _ _ w h in
      (set, parsed_inv env _ claims _ _ g)

  verify_token-accepts :
      (env : Env) (w : World) (token : String) (claims : Claim)
      → (env.config.jwt_secret == "") ≡ false
      → IsGood env w token claims
      → (verify_token library token env w).0 ≡ ok claims
  unfolding verify_token verify_with ◌>>=◌ time_now wrap
  verify_token-accepts env w token claims set ((parsed, e, valid, found), current) =
      rw (set, e, valid, found)
        (check_claims-accepts env claims (record w { tick = suc w.tick }) current)

  -- `VerifyToken` returns claims exactly if a secret is configured, the library parses the token as
  -- valid with these claims under that secret at the call's first reading of the clock, the claims
  -- have the service as their issuer, and their expiry is not past at the call's second reading.
  pub verify_token-IsGood :
      (env : Env) (w : World) (token : String) (claims : Claim)
      → ((verify_token library token env w).0 ≡ ok claims)
        ↔ (((env.config.jwt_secret == "") ≡ false) × IsGood env w token claims)
  verify_token-IsGood env w token claims = (
    verify_token_inv env w token claims,
    λ (set, good). verify_token-accepts env w token claims set good,
  )
