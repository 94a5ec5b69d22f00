-- ===== src/Effects/Bounded.antt =====
-- Actions that end after a bounded number of calls to the outside, without a panic.
use tucanbit_tvs.Effects.{
  Env, World, Action, Result, ℕ, ◌>>=◌, ok, pure, GoError, asks, String, raise, continue,
}
use tucanbit_tvs.Effects.Calls.{sleep, exchange_request}
use tucanbit_tvs.Db.Rows.{ok, err, panic}
use tucanbit_tvs.Prelude.{◌≤◌, ◌+◌, arith}

-- The call returned or returned an error, without a panic.
unfoldable pub Ended {ℓ} : {A : Type ℓ} → Result A → Type 0
Ended (ok a) = Unit
Ended (err e) = Unit
Ended (panic text) = ⊥

abbrev pub EndsBy {ℓ} : {A : Type ℓ} → World → ℕ → Result A × World → Type 0
EndsBy w n (r, w') = Ended r × (w'.tick ≤ w.tick + n)

-- From every world the action ends, after at most `n` calls.
pub record Bounded {ℓ} {A : Type ℓ} (env : Env) (n : ℕ) (m : Action A) : Type 0 where
  pub at : (w : World) → EndsBy w n (m env w)

module _ {ℓ} {A : Type ℓ} {env : Env} where
  pub Bounded-pure : (n : ℕ) (a : A) → Bounded env n (pure a)
  unfolding Ended
  Bounded-pure n a = record { at = λ w. (tt, omega arith) }

  pub Bounded-raise : (n : ℕ) (e : GoError) → Bounded env n (raise {A = A} e)
  unfolding Ended
  Bounded-raise n e = record { at = λ w. (tt, omega arith) }

  pub Bounded-asks : (n : ℕ) (f : Env → A) → Bounded env n (asks f)
  unfolding Ended
  Bounded-asks n f = record { at = λ w. (tt, omega arith) }

  pub Bounded-weaken : (n k : ℕ) (m : Action A) → n ≤ k → Bounded env n m → Bounded env k m
  Bounded-weaken n k m l b = record { at = λ w. ((b.at w).0, omega (arith, (b.at w).1)) }

module _ {ℓ κ} {A : Type ℓ} {B : Type κ} {env : Env} where
  Bounded-continue :
      (n k : ℕ) (r : Result A) (w w' : World) (f : A → Action B)
      → EndsBy w n (r, w')
      → ((a : A) → Bounded env k (f a))
      → EndsBy w (n + k) (continue r f env w')
  unfolding Ended
  Bounded-continue n k (ok a) w w' f h b = (((b a).at w').0, omega (arith, h.1, ((b a).at w').1))
  Bounded-continue n k (err e) w w' f h b = (tt, omega (arith, h.1))
  Bounded-continue n k (panic text) w w' f h b = absurd h.0

  pub Bounded-bind :
      (n k : ℕ) (m : Action A) (f : A → Action B)
      → Bounded env n m
      → ((a : A) → Bounded env k (f a))
      → Bounded env (n + k) (m >>= f)
  unfolding ◌>>=◌
  Bounded-bind n k m f b c = record {
    at = λ w. Bounded-continue n k (m env w).0 w (m env w).1 f (b.at w) c;
  }

module _ {env : Env} where
  pub Bounded-sleep : (d : ℕ) → Bounded env 1 (sleep d)
  unfolding sleep Ended
  Bounded-sleep d = record { at = λ w. (tt, omega arith) }

  pub Bounded-exchange_request : (url : String) → Bounded env 1 (exchange_request url)
  unfolding exchange_request Ended
  Bounded-exchange_request url = record { at = λ w. (tt, omega arith) }
