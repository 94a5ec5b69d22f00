-- ===== src/Effects/Triple.antt =====
-- Conditions before and after an action: what a return ensures, where an end without a return leaves
-- the condition of the start in place.
use tucanbit_tvs.Effects.{
  Env, World, Action, pure, raise, lift, asks, ◌>>=◌, attempt, wrap, continue, Try, done, error, Db,
  GoError, Result, String, List, wrapped, tried, Option,
}
use tucanbit_tvs.Effects.Keeps.{Keeps}
use tucanbit_tvs.Db.Rows.{ok, err, panic, Stamp}
use tucanbit_tvs.Prelude.{◌≡◌, refl, Bool, true, false, if◌then◌else◌, some, none}
use tucanbit_tvs.Effects.Calls.{execute, begin_tx, execute_tx, commit_tx, stored, answered, Tx}

abbrev pub Post {ℓ} : {A : Type ℓ} → (Db → Type 0) → (A → Db → Type 0) → Result A → Db → Type 0
Post P Q (ok a) db = Q a db
Post P Q (err e) db = P db
Post P Q (panic text) db = P db

-- From `P`, a return of `a` has `Q a`, and an error or a panic has `P`.
pub record Triple {ℓ} {A : Type ℓ} (env : Env) (P : Db → Type 0) (m : Action A)
    (Q : A → Db → Type 0) : Type 0 where
  pub at : (w : World) → P w.db → Post P Q (m env w).0 (m env w).1.db

abbrev pub OnTry {ℓ} : {A : Type ℓ} → (Db → Type 0) → (A → Db → Type 0) → Try A → Db → Type 0
OnTry P Q (done a) db = Q a db
OnTry P Q (error e) db = P db

module _ {ℓ} {A : Type ℓ} (P : Db → Type 0) (Q : A → Db → Type 0) where
  Post-lift : (r : Result A) (db : Db) → ((a : A) → r ≡ ok a → P db → Q a db) → P db → Post P Q r db
  Post-lift (ok a) db k h = k a refl h
  Post-lift (err e) db k h = h
  Post-lift (panic text) db k h = h

  Post-keeps : (r : Result A) (db : Db) → ((a : A) → P db → Q a db) → P db → Post P Q r db
  Post-keeps (ok a) db k h = k a h
  Post-keeps (err e) db k h = h
  Post-keeps (panic text) db k h = h

  keeps_post : (r : Result A) (db : Db) → ((a : A) → Q a db → P db) → Post P Q r db → P db
  keeps_post (ok a) db k h = k a h
  keeps_post (err e) db k h = h
  keeps_post (panic text) db k h = h

  Post-wrapped :
      (prefix : List String) (r : Result A) (db : Db)
      → Post P Q r db
      → Post P Q (wrapped prefix r) db
  Post-wrapped prefix (ok a) db h = h
  Post-wrapped prefix (err e) db h = h
  Post-wrapped prefix (panic text) db h = h

  Post-tried : (r : Result A) (db : Db) → Post P Q r db → Post P (OnTry P Q) (tried r) db
  Post-tried (ok a) db h = h
  Post-tried (err e) db h = h
  Post-tried (panic text) db h = h

weaken {ℓ} :
    {B : Type ℓ} (P P' : Db → Type 0) (R : B → Db → Type 0) (r : Result B) (db : Db)
    → (P' db → P db)
    → Post P' R r db
    → Post P R r db
weaken P P' R (ok b) db k h = h
weaken P P' R (err e) db k h = k h
weaken P P' R (panic text) db k h = k h

module _ {ℓ} {A : Type ℓ} {env : Env} {P : Db → Type 0} {Q : A → Db → Type 0} where
  pub Triple-pure : (a : A) → ((db : Db) → P db → Q a db) → Triple env P (pure a) Q
  Triple-pure a k = record { at = λ w h. k w.db h }

  pub Triple-asks : (f : Env → A) → ((db : Db) → P db → Q (f env) db) → Triple env P (asks f) Q
  Triple-asks f k = record { at = λ w h. k w.db h }

  pub Triple-raise : (e : GoError) → Triple env P (raise {A = A} e) Q
  Triple-raise e = record { at = λ w h. h }

  pub Triple-lift :
      (r : Result A) → ((a : A) (db : Db) → r ≡ ok a → P db → Q a db) → Triple env P (lift r) Q
  Triple-lift r k = record { at = λ w h. Post-lift P Q r w.db (λ a. k a w.db) h }

  -- An action that keeps the condition, where nothing is asked of what it returns.
  pub Triple-Keeps :
      (m : Action A) → Keeps env P m → ((a : A) (db : Db) → P db → Q a db) → Triple env P m Q
  Triple-Keeps m km k = record {
    at = λ w h. Post-keeps P Q (m env w).0 (m env w).1.db (λ a. k a (m env w).1.db) (km.at w h);
  }

  pub Keeps-Triple :
      (m : Action A) → Triple env P m Q → ((a : A) (db : Db) → Q a db → P db) → Keeps env P m
  Keeps-Triple m t k = record {
    at = λ w h. keeps_post P Q (m env w).0 (m env w).1.db (λ a. k a (m env w).1.db) (t.at w h);
  }

  pub Triple-wrap :
      (prefix : List String) (m : Action A) → Triple env P m Q → Triple env P (wrap prefix m) Q
  unfolding wrap
  Triple-wrap prefix m t = record {
    at = λ w h. Post-wrapped P Q prefix (m env w).0 (m env w).1.db (t.at w h);
  }

  pub Triple-attempt : (m : Action A) → Triple env P m Q → Triple env P (attempt m) (OnTry P Q)
  unfolding attempt
  Triple-attempt m t = record { at = λ w h. Post-tried P Q (m env w).0 (m env w).1.db (t.at w h) }

  pub Triple-if :
      (b : Bool) (m n : Action A)
      → (b ≡ true → Triple env P m Q)
      → (b ≡ false → Triple env P n Q)
      → Triple env P (if b then m else n) Q
  Triple-if true m n km kn = km refl
  Triple-if false m n km kn = kn refl

module _ {ℓ κ} {A : Type ℓ} {B : Type κ} {env : Env} {P : Db → Type 0} {Q : A → Db → Type 0}
    {R : B → Db → Type 0} where
  triple_continue :
      (r : Result A) (w : World) (f : A → Action B)
      → ((a : A) → Triple env (Q a) (f a) R)
      → ((a : A) (db : Db) → Q a db → P db)
      → Post P Q r w.db
      → Post P R (continue r f env w).0 (continue r f env w).1.db
  triple_continue (ok a) w f tf k h =
      weaken P (Q a) R (f a env w).0 (f a env w).1.db (k a (f a env w).1.db) ((tf a).at w h)
  triple_continue (err e) w f tf k h = h
  triple_continue (panic text) w f tf k h = h

  pub Triple-bind :
      (m : Action A) (f : A → Action B)
      → Triple env P m Q
      → ((a : A) → Triple env (Q a) (f a) R)
      → ((a : A) (db : Db) → Q a db → P db)
      → Triple env P (m >>= f) R
  unfolding ◌>>=◌
  Triple-bind m f tm tf k = record {
    at = λ w h. let (r, w') = m env w in triple_continue r w' f tf k (tm.at w h);
  }

Post-stored :
    (P : Db → Type 0) (Q : Unit {0} → Db → Type 0) (fault : Option GoError) (r : Result Db)
    (w : World)
    → P w.db
    → ((db : Db) → r ≡ ok db → Q tt db)
    → Post P Q (stored fault r w).0 (stored fault r w).1.db
Post-stored P Q (some e) r w h k = h
Post-stored P Q none (ok db) w h k = k db refl
Post-stored P Q none (err e) w h k = h
Post-stored P Q none (panic text) w h k = h

pub Triple-execute :
    {env : Env} {P : Db → Type 0} {Q : Unit {0} → Db → Type 0} (write : Stamp → Db → Result Db)
    → ((stamp : Stamp) (db db' : Db) → P db → write stamp db ≡ ok db' → Q tt db')
    → Triple env P (execute write) Q
unfolding execute
Triple-execute {env = env} {P = P} {Q = Q} write k = record {
  at = λ w h.
      let stamp : Stamp = record {
        now = env.clock w.tick;
        uuid = env.fresh_uuid w.tick;
        timestamptz = env.timestamptz;
      } in
      Post-stored P Q (env.db_fault w.tick) (write stamp w.db) w h (λ db e. k stamp w.db db h e);
}

begun :
    (P : Db → Type 0) (fault : Option GoError) (db : Db)
    → P db
    → Post P (λ tx db'. P tx × P db') (answered fault (ok db)) db
begun P none db h = (h, h)
begun P (some e) db h = h

executed :
    (P Q : Db → Type 0) (fault : Option GoError) (r : Result Db) (db : Db)
    → P db
    → ((tx : Db) → r ≡ ok tx → Q tx)
    → Post P (λ tx db'. Q tx × P db') (answered fault r) db
executed P Q none (ok tx) db h k = (k tx refl, h)
executed P Q none (err e) db h k = h
executed P Q none (panic text) db h k = h
executed P Q (some e) r db h k = h

committed :
    (P : Db → Type 0) (fault : Option GoError) (tx : Db) (w : World)
    → P tx
    → P w.db
    → P (stored fault (ok tx) w).1.db
committed P none tx w h g = h
committed P (some e) tx w h g = g

-- `BEGIN`: the transaction starts as the database is.
pub Triple-begin_tx : {env : Env} {P : Db → Type 0} → Triple env P begin_tx (λ tx db. P tx × P db)
unfolding begin_tx
Triple-begin_tx {env = env} {P = P} = record { at = λ w h. begun P (env.db_fault w.tick) w.db h }

-- A statement of a transaction: the transaction after it, while the database stays.
pub Triple-execute_tx :
    {env : Env} {P : Db → Type 0} {Q : Db → Type 0} (write : Stamp → Db → Result Db) (tx : Tx)
    → ((stamp : Stamp) (tx' : Db) → write stamp tx ≡ ok tx' → Q tx')
    → Triple env P (execute_tx write tx) (λ tx' db. Q tx' × P db)
unfolding execute_tx
Triple-execute_tx {env = env} {P = P} {Q = Q} write tx k = record {
  at = λ w h.
      let stamp : Stamp = record {
        now = env.clock w.tick;
        uuid = env.fresh_uuid w.tick;
        timestamptz = env.timestamptz;
      } in
      executed P Q (env.db_fault w.tick) (write stamp tx) w.db h (k stamp);
}

-- `COMMIT` of a transaction that has `P`.
pub Keeps-commit_tx : {env : Env} {P : Db → Type 0} (tx : Tx) → P tx → Keeps env P (commit_tx tx)
unfolding commit_tx
Keeps-commit_tx {env = env} {P = P} tx h = record {
  at = λ w g. committed P (env.db_fault w.tick) tx w h g;
}

-- A fact that does not mention the database can be taken as a hypothesis.
pub Triple-fact {ℓ} :
    {A : Type ℓ} {env : Env} {F : Type 0} {P : Db → Type 0} {Q : A → Db → Type 0} (m : Action A)
    → (F → Triple env P m Q)
    → Triple env (λ db. F × P db) m Q
Triple-fact {F = F} {P = P} {Q = Q} m t = record {
  at = λ w h. weaken (λ db. F × P db) P Q _ _ (λ p. (h.0, p)) ((t h.0).at w h.1);
}
