-- ===== src/Auth/Unsaved.antt =====
-- Why `GenerateJWTWithVerification` returns no token: the column user_sessions.token of
-- db/schema/schema.sql holds 255 characters.
use tucanbit_tvs.Db
use tucanbit_tvs.Db.Rows.{Result, ok, Db}
use tucanbit_tvs.Repo
use tucanbit_tvs.Effects.{World}
use tucanbit_tvs.Prelude.{◌≡◌, ◌≢◌}

-- A call that failed has left the tables.
abbrev Fails : {A : Type 0} → World → Result A × World → Type 0
Fails {A} w (r, w') = ((a : A) → r ≢ ok a) × (w'.db ≡ w.db)
