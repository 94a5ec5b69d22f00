-- ===== src/Effects/Keeps.antt =====
-- Invariants of the database along an action: one rule for each way to build an action.
use tucanbit_tvs.Effects.{
  Env, World, Action, pure, raise, crash, lift, asks, ◌>>=◌, attempt, wrap, ignore_error, continue,
  Db, GoError, String, Result, List, ℕ, WsMessage, Option,
}
use tucanbit_tvs.Effects.Calls.{
  Tx, time_now, new_uuid, parse_uuid, must_parse_uuid, sleep, send, query, execute, begin_tx,
  query_tx, execute_tx, helius_request, exchange_request, stored,
}
use tucanbit_tvs.Db.Rows.{Stamp, ok, err, panic}
use tucanbit_tvs.Prelude.{Bool, ◌≡◌, if◌then◌else◌, true, false, some, none, refl}

-- `m` keeps `P`, whether it returns, returns an error or panics.
pub record Keeps {ℓ} {A : Type ℓ} (env : Env) (P : Db → Type 0) (m : Action A) : Type 0 where
  pub at : (w : World) → P w.db → P (m env w).1.db

-- A statement that succeeds keeps `P`.
pub record Writes (P : Db → Type 0) (write : Stamp → Db → Result Db) : Type 0 where
  pub at : (stamp : Stamp) (db db' : Db) → P db → write stamp db ≡ ok db' → P db'

module _ {ℓ} {A : Type ℓ} {env : Env} {P : Db → Type 0} where
  pub Keeps-pure : (a : A) → Keeps env P (pure a)
  Keeps-pure a = record { at = λ w h. h }

  pub Keeps-raise : (e : GoError) → Keeps env P (raise {A = A} e)
  Keeps-raise e = record { at = λ w h. h }

  pub Keeps-crash : (text : String) → Keeps env P (crash {A = A} text)
  Keeps-crash text = record { at = λ w h. h }

  pub Keeps-lift : (r : Result A) → Keeps env P (lift r)
  Keeps-lift r = record { at = λ w h. h }

  pub Keeps-asks : (f : Env → A) → Keeps env P (asks f)
  Keeps-asks f = record { at = λ w h. h }

  pub Keeps-if :
      (b : Bool) (m n : Action A) → Keeps env P m → Keeps env P n → Keeps env P (if b then m else n)
  Keeps-if true m n km kn = km
  Keeps-if false m n km kn = kn

  pub Keeps-query : (read : Db → Result A) → Keeps env P (query read)
  unfolding query
  Keeps-query read = record { at = λ w h. h }

  pub Keeps-query_tx : (read : Db → Result A) (tx : Tx) → Keeps env P (query_tx read tx)
  unfolding query_tx
  Keeps-query_tx read tx = record { at = λ w h. h }

  pub Keeps-attempt : (m : Action A) → Keeps env P m → Keeps env P (attempt m)
  unfolding attempt
  Keeps-attempt m k = record { at = k.at }

  pub Keeps-wrap :
      (prefix : List String) (m : Action A) → Keeps env P m → Keeps env P (wrap prefix m)
  unfolding wrap
  Keeps-wrap prefix m k = record { at = k.at }

module _ {ℓ κ} {A : Type ℓ} {B : Type κ} {env : Env} {P : Db → Type 0} where
  Keeps-continue :
      (r : Result A) (f : A → Action B) → ((a : A) → Keeps env P (f a)) → Keeps env P (continue r f)
  Keeps-continue (ok a) f kf = kf a
  Keeps-continue (err e) f kf = record { at = λ w h. h }
  Keeps-continue (panic text) f kf = record { at = λ w h. h }

  pub Keeps-bind :
      (m : Action A) (f : A → Action B)
      → Keeps env P m
      → ((a : A) → Keeps env P (f a))
      → Keeps env P (m >>= f)
  unfolding ◌>>=◌
  Keeps-bind m f km kf = record {
    at = λ w h. let (r, w') = m env w in (Keeps-continue r f kf).at w' (km.at w h);
  }

stored_keeps :
    {P : Db → Type 0} (fault : Option GoError) (r : Result Db) (w : World)
    → P w.db
    → ((db : Db) → r ≡ ok db → P db)
    → P (stored fault r w).1.db
stored_keeps (some e) r w h k = h
stored_keeps none (ok db) w h k = k db refl
stored_keeps none (err e) w h k = h
stored_keeps none (panic text) w h k = h

module _ {env : Env} {P : Db → Type 0} where
  pub Keeps-time_now : Keeps env P time_now
  unfolding time_now
  Keeps-time_now = record { at = λ w h. h }

  pub Keeps-new_uuid : Keeps env P new_uuid
  unfolding new_uuid
  Keeps-new_uuid = record { at = λ w h. h }

  pub Keeps-parse_uuid : (s : String) → Keeps env P (parse_uuid s)
  unfolding parse_uuid
  Keeps-parse_uuid s = record { at = λ w h. h }

  pub Keeps-must_parse_uuid : (s : String) → Keeps env P (must_parse_uuid s)
  unfolding must_parse_uuid
  Keeps-must_parse_uuid s = record { at = λ w h. h }

  pub Keeps-sleep : (d : ℕ) → Keeps env P (sleep d)
  unfolding sleep
  Keeps-sleep d = record { at = λ w h. h }

  pub Keeps-send : (message : WsMessage) → Keeps env P (send message)
  unfolding send
  Keeps-send message = record { at = λ w h. h }

  pub Keeps-begin_tx : Keeps env P begin_tx
  unfolding begin_tx
  Keeps-begin_tx = record { at = λ w h. h }

  pub Keeps-helius_request : (url body : String) → Keeps env P (helius_request url body)
  unfolding helius_request
  Keeps-helius_request url body = record { at = λ w h. h }

  pub Keeps-exchange_request : (url : String) → Keeps env P (exchange_request url)
  unfolding exchange_request
  Keeps-exchange_request url = record { at = λ w h. h }

  pub Keeps-execute_tx :
      (write : Stamp → Db → Result Db) (tx : Tx) → Keeps env P (execute_tx write tx)
  unfolding execute_tx
  Keeps-execute_tx write tx = record { at = λ w h. h }

  pub Keeps-ignore_error : (m : Action (Unit {0})) → Keeps env P m → Keeps env P (ignore_error m)
  unfolding ignore_error
  Keeps-ignore_error m k =
      Keeps-bind (attempt m) (λ _. pure tt) (Keeps-attempt m k) (λ a. Keeps-pure tt)

  pub Keeps-execute :
      (write : Stamp → Db → Result Db) → Writes P write → Keeps env P (execute write)
  unfolding execute
  Keeps-execute write wr = record {
    at = λ w h.
        let stamp : Stamp = record {
          now = env.clock w.tick;
          uuid = env.fresh_uuid w.tick;
          timestamptz = env.timestamptz;
        } in
        stored_keeps {P = P} (env.db_fault w.tick) (write stamp w.db) w h
          (λ db e. wr.at stamp w.db db h e);
  }

pub ruleset keeps_rules = (
  Keeps-pure, Keeps-raise, Keeps-crash, Keeps-lift, Keeps-asks, Keeps-if, Keeps-query,
  Keeps-query_tx, Keeps-attempt, Keeps-wrap, Keeps-bind, Keeps-time_now, Keeps-new_uuid,
  Keeps-parse_uuid, Keeps-must_parse_uuid, Keeps-sleep, Keeps-send, Keeps-begin_tx,
  Keeps-helius_request, Keeps-exchange_request, Keeps-execute_tx, Keeps-ignore_error, Keeps-execute,
)
