-- ===== src/Effects/Returns.antt =====
-- What an action ensures of the value that it returns.
use tucanbit_tvs.Effects.{
  Env, World, Action, pure, raise, lift, asks, ◌>>=◌, attempt, wrap, continue, Try, done, error,
  GoError, Result, String, List, wrapped, tried, crash,
}
use tucanbit_tvs.Db.Rows.{ok, err, panic}
use tucanbit_tvs.Prelude.{◌≡◌, refl, Bool, true, false, if◌then◌else◌, ◌≢◌, subst}

module _ {ℓ} {A : Type ℓ} where
  pub ok_injective : (a b : A) → ok a ≡ ok b → a ≡ b
  ok_injective a b h = cc

  err_is_not_ok : (e : GoError) (a : A) → err e ≢ ok a
  err_is_not_ok e a h = cc

  panic_is_not_ok : (text : String) (a : A) → panic text ≢ ok a
  panic_is_not_ok text a h = cc

  wrapped_inv : (prefix : List String) (r : Result A) (a : A) → wrapped prefix r ≡ ok a → r ≡ ok a
  wrapped_inv prefix (ok b) a h = h
  wrapped_inv prefix (err e) a h = cc
  wrapped_inv prefix (panic text) a h = cc

  pub tried_inv :
      {Q : A → Type 0} (R : Try A → Type 0) (r : Result A) (found : Try A)
      → ((a : A) → r ≡ ok a → Q a)
      → ((a : A) → Q a → R (done a))
      → ((e : GoError) → R (error e))
      → tried r ≡ ok found
      → R found
  tried_inv R (ok a) found k kd ke h = subst R (cc h) (kd a (k a refl))
  tried_inv R (err e) found k kd ke h = subst R (cc h) (ke e)
  tried_inv R (panic text) found k kd ke h = cc

-- What an action returns satisfies `Q`, from every world.
pub record Returns {ℓ} {A : Type ℓ} (env : Env) (m : Action A) (Q : A → Type 0) : Type ℓ where
  pub at : (w : World) (a : A) → (m env w).0 ≡ ok a → Q a

module _ {ℓ} {A : Type ℓ} {env : Env} {Q : A → Type 0} where
  pub Returns-pure : (a : A) → Q a → Returns env (pure a) Q
  Returns-pure a q = record { at = λ w b e. subst Q (ok_injective a b e) q }

  pub Returns-asks : (f : Env → A) → Q (f env) → Returns env (asks f) Q
  Returns-asks f q = record { at = λ w b e. subst Q (ok_injective (f env) b e) q }

  pub Returns-raise : (e : GoError) → Returns env (raise {A = A} e) Q
  Returns-raise e = record { at = λ w b h. absurd (err_is_not_ok e b h) }

  pub Returns-crash : (text : String) → Returns env (crash {A = A} text) Q
  Returns-crash text = record { at = λ w b h. absurd (panic_is_not_ok text b h) }

  pub Returns-lift : (r : Result A) → ((a : A) → r ≡ ok a → Q a) → Returns env (lift r) Q
  Returns-lift r k = record { at = λ w a e. k a e }

  pub Returns-if :
      (b : Bool) (m n : Action A)
      → (b ≡ true → Returns env m Q)
      → (b ≡ false → Returns env n Q)
      → Returns env (if b then m else n) Q
  Returns-if true m n km kn = km refl
  Returns-if false m n km kn = kn refl

  pub Returns-attempt :
      {R : Try A → Type 0} (m : Action A)
      → Returns env m Q
      → ((a : A) → Q a → R (done a))
      → ((e : GoError) → R (error e))
      → Returns env (attempt m) R
  unfolding attempt
  Returns-attempt {R = R} m k kd ke = record {
    at = λ w found h. tried_inv R (m env w).0 found (k.at w) kd ke h;
  }

  pub Returns-wrap :
      (prefix : List String) (m : Action A) → Returns env m Q → Returns env (wrap prefix m) Q
  unfolding wrap
  Returns-wrap prefix m k = record { at = λ w a h. k.at w a (wrapped_inv prefix (m env w).0 a h) }

module _ {ℓ κ} {A : Type ℓ} {B : Type κ} {env : Env} {Q : A → Type 0} {R : B → Type 0} where
  returns_continue :
      (r : Result A) (w : World) (f : A → Action B) (b : B)
      → ((a : A) → r ≡ ok a → Q a)
      → ((a : A) → Q a → Returns env (f a) R)
      → (continue r f env w).0 ≡ ok b
      → R b
  returns_continue (ok a) w f b k kf h = (kf a (k a refl)).at w b h
  returns_continue (err e) w f b k kf h = absurd (err_is_not_ok e b h)
  returns_continue (panic text) w f b k kf h = absurd (panic_is_not_ok text b h)

  pub Returns-bind :
      (m : Action A) (f : A → Action B)
      → Returns env m Q
      → ((a : A) → Q a → Returns env (f a) R)
      → Returns env (m >>= f) R
  unfolding ◌>>=◌
  Returns-bind m f km kf = record {
    at = λ w b h. let (r, w') = m env w in returns_continue r w' f b (λ a e. km.at w a e) kf h;
  }

pub Returns-any {ℓ} : {A : Type ℓ} {env : Env} (m : Action A) → Returns env m (λ a. Unit)
Returns-any m = record { at = λ w a e. tt }

-- What an action returns from one world satisfies `Q`.
abbrev pub Ensures {ℓ} : {A : Type ℓ} → Env → World → Action A → (A → Type 0) → Type ℓ
Ensures {A = A} env w m Q = (a : A) → (m env w).0 ≡ ok a → Q a

module _ {ℓ} {A : Type ℓ} {env : Env} {w : World} {Q : A → Type 0} where
  pub Ensures-if :
      (b : Bool) (m n : Action A)
      → Ensures env w m Q
      → Ensures env w n Q
      → Ensures env w (if b then m else n) Q
  Ensures-if true m n km kn = km
  Ensures-if false m n km kn = kn

  -- The second part is judged from every world, the first from this one.
  pub Ensures-bind {κ} :
      {B : Type κ} {R : B → Type 0} (m : Action A) (f : A → Action B)
      → Ensures env w m Q
      → ((a : A) → Q a → Returns env (f a) R)
      → Ensures env w (m >>= f) R
  unfolding ◌>>=◌
  Ensures-bind m f km kf b h = let (r, w') = m env w in returns_continue r w' f b km kf h
