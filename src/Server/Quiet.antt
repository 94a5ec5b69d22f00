-- ===== src/Server/Quiet.antt =====
-- Calls of the server that hand no message to the hub, and what follows them.
use tucanbit_tvs.Auth.{AuthLibrary, verify_token, verify_with, check_claims, claims_of, unix}
use tucanbit_tvs.Domain.Auth.{Claim}
use tucanbit_tvs.Hub.Message.{WsMessage}
use tucanbit_tvs.Effects.{
  ◌>>=◌, Env, World, Action, attempt, wrap, lift, continue, raise, pure, asks,
}
use tucanbit_tvs.Effects.Calls.{parse_uuid, time_now, new_uuid}
use tucanbit_tvs.Prelude.{
  String, List, Bool, true, false, ◌∷◌, ◌≡◌, refl, inl, ◌⊎◌, some, none, Option, subst, ◌∙◌,
  if◌then◌else◌, ltb, ◌==◌, not,
}
use tucanbit_tvs.Db.Rows.{GoError, Result, ok, err, panic}

-- Nothing was handed to the hub after `before`, or one message for which `P` holds.
abbrev pub AtMost : (WsMessage → Type 0) → List WsMessage → World → Type 0
AtMost P before w = (w.sent ≡ before) ⊎ ((m : WsMessage) × (w.sent ≡ m ∷ before) × P m)

-- The action hands nothing to the hub.
pub record Quiet {A : Type 0} (env : Env) (m : Action A) : Type 0 where
  pub at : (w : World) → (m env w).1.sent ≡ w.sent

module _ {A : Type 0} {B : Type 0} (env : Env) where
  Quiet-continue :
      (r : Result A) (w : World) (f : A → Action B)
      → ((a : A) → Quiet env (f a))
      → (continue r f env w).1.sent ≡ w.sent
  Quiet-continue (ok a) w f k = (k a).at w
  Quiet-continue (err e) w f k = refl
  Quiet-continue (panic text) w f k = refl

  pub Quiet-bind :
      (m : Action A) (f : A → Action B)
      → Quiet env m
      → ((a : A) → Quiet env (f a))
      → Quiet env (m >>= f)
  unfolding ◌>>=◌
  Quiet-bind m f km kf = record {
    at = λ w. let (r, w') = m env w in Quiet-continue r w' f kf ∙ km.at w;
  }

  AtMost-continue :
      (P : WsMessage → Type 0) (r : Result A) (before : List WsMessage) (w : World)
      (f : A → Action B)
      → w.sent ≡ before
      → ((a : A) → r ≡ ok a → AtMost P w.sent (f a env w).1)
      → AtMost P before (continue r f env w).1
  AtMost-continue P (ok a) before w f e k = subst (λ s. AtMost P s (f a env w).1) e (k a refl)
  AtMost-continue P (err e') before w f e k = inl e
  AtMost-continue P (panic text) before w f e k = inl e

  -- A quiet action, and what follows its result.
  pub AtMost-bind :
      (P : WsMessage → Type 0) (m : Action A) (f : A → Action B) (w : World)
      → Quiet env m
      → ((a : A) (v : World) → (m env w).0 ≡ ok a → AtMost P v.sent (f a env v).1)
      → AtMost P w.sent ((m >>= f) env w).1
  unfolding ◌>>=◌
  AtMost-bind P m f w q k =
      let (r, w') = m env w in AtMost-continue P r w.sent w' f (q.at w) (λ a e. k a w' e)

module _ {A : Type 0} {env : Env} where
  pub Quiet-pure : (a : A) → Quiet env (pure a)
  Quiet-pure a = record { at = λ w. refl }

  pub Quiet-raise : (e : GoError) → Quiet env (raise {A = A} e)
  Quiet-raise e = record { at = λ w. refl }

  pub Quiet-lift : (r : Result A) → Quiet env (lift r)
  Quiet-lift r = record { at = λ w. refl }

  pub Quiet-asks : (f : Env → A) → Quiet env (asks f)
  Quiet-asks f = record { at = λ w. refl }

  pub Quiet-attempt : (m : Action A) → Quiet env m → Quiet env (attempt m)
  unfolding attempt
  Quiet-attempt m q = record { at = λ w. q.at w }

  pub Quiet-wrap : (prefix : List String) (m : Action A) → Quiet env m → Quiet env (wrap prefix m)
  unfolding wrap
  Quiet-wrap prefix m q = record { at = λ w. q.at w }

  pub Quiet-if :
      (b : Bool) (m n : Action A) → Quiet env m → Quiet env n → Quiet env (if b then m else n)
  Quiet-if true m n km kn = km
  Quiet-if false m n km kn = kn

pub Quiet-time_now : {env : Env} → Quiet env time_now
unfolding time_now
Quiet-time_now = record { at = λ w. refl }

pub Quiet-new_uuid : {env : Env} → Quiet env new_uuid
unfolding new_uuid
Quiet-new_uuid = record { at = λ w. refl }

pub Quiet-parse_uuid : {env : Env} (s : String) → Quiet env (parse_uuid s)
unfolding parse_uuid
Quiet-parse_uuid s = record { at = λ w. refl }

Quiet-claims_of : {env : Env} (claims : Option Claim) → Quiet env (claims_of claims)
Quiet-claims_of none = Quiet-raise _
Quiet-claims_of (some c) = Quiet-pure c

Quiet-check_claims : {env : Env} (claims : Claim) → Quiet env (check_claims claims)
unfolding check_claims
Quiet-check_claims {env} claims = Quiet-bind env _ _ Quiet-time_now (λ now.
    Quiet-if (ltb claims.expires_at (unix now)) _ _ (Quiet-raise _)
      (Quiet-if (not (claims.issuer == "tucanbit")) _ _ (Quiet-raise _) (Quiet-pure claims)))

pub Quiet-verify_token :
    {env : Env} (library : AuthLibrary) (token : String) → Quiet env (verify_token library token)
unfolding verify_token verify_with
Quiet-verify_token {env} library token = Quiet-bind env _ _ (Quiet-asks _) (λ secret.
    Quiet-if (secret == "") _ _ (Quiet-raise _) (
      Quiet-bind env _ _ Quiet-time_now (λ now.
        Quiet-bind env _ _ (Quiet-wrap _ _ (Quiet-lift _)) (λ parsed.
          Quiet-if (not parsed.valid) _ _ (Quiet-raise _)
            (Quiet-bind env _ _ (Quiet-claims_of parsed.claims) Quiet-check_claims)))))
