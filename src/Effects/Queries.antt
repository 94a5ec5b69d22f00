-- ===== src/Effects/Queries.antt =====
-- Conditions on what a statement reads.
use tucanbit_tvs.Effects.{Env, Result, Db, Option, GoError, ok, err}
use tucanbit_tvs.Effects.Triple.{Triple, Post}
use tucanbit_tvs.Effects.Calls.{query, answered}
use tucanbit_tvs.Prelude.{refl, ◌≡◌, some, none}
use tucanbit_tvs.Db.Rows.{err, panic}

Post-answered {ℓ} :
    {A : Type ℓ} (P : Db → Type 0) (Q : A → Db → Type 0) (fault : Option GoError) (r : Result A)
    (db : Db)
    → P db
    → ((a : A) → r ≡ ok a → Q a db)
    → Post P Q (answered fault r) db
Post-answered P Q (some e) r db h k = h
Post-answered P Q none (ok a) db h k = k a refl
Post-answered P Q none (err e) db h k = h
Post-answered P Q none (panic text) db h k = h

pub Triple-query {ℓ} :
    {A : Type ℓ} {env : Env} {P : Db → Type 0} {Q : A → Db → Type 0} (read : Db → Result A)
    → ((a : A) (db : Db) → P db → read db ≡ ok a → Q a db)
    → Triple env P (query read) Q
unfolding query
Triple-query {env = env} {P = P} {Q = Q} read k = record {
  at = λ w h. Post-answered P Q (env.db_fault w.tick) (read w.db) w.db h (λ a e. k a w.db h e);
}
