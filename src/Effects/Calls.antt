-- ===== src/Effects/Calls.antt =====
-- The calls that leave the code: the clock, the uuid generator, the database through database/sql,
-- `time.Sleep` and the hub's channel. Each takes one tick of the environment.
-- A `*sql.Tx` is the copy of the tables that its statements work on; COMMIT makes it the database.
use tucanbit_tvs.Effects.{
  Env, World, Action, ℕ, String, WsMessage, Option, Db, ok, HttpReply, List, CoinCapAnswer,
  HeliusTransaction,
}
use tucanbit_tvs.Prelude.{none, ◌∷◌, suc, some}
use tucanbit_tvs.Db.Rows.{Stamp, GoError, Result, err, panic, plain_error}

abbrev tock : World → World
tock w = record w { tick = suc w.tick }

-- `time.Now()`
unfoldable pub time_now : Action ℕ
time_now env w = (ok (env.clock w.tick), tock w)

-- `uuid.New().String()`
unfoldable pub new_uuid : Action String
new_uuid env w = (ok (env.fresh_uuid w.tick), tock w)

-- `uuid.Parse(s)`
unfoldable pub parse_uuid : String → Action String
parse_uuid s env w =
    (elim (env.parse_uuid s) [ none ↦ err (plain_error "invalid UUID") | some u ↦ ok u ], w)

-- `uuid.MustParse(s)`
unfoldable pub must_parse_uuid : String → Action String
must_parse_uuid s env w =
    (elim (env.parse_uuid s) [ none ↦ panic "uuid: Parse: invalid UUID" | some u ↦ ok u ], w)

-- `time.Sleep(d)`
unfoldable pub sleep : ℕ → Action (Unit {0})
sleep d env w = (ok tt, record w { tick = suc w.tick; slept = d ∷ w.slept })

-- `h.Broadcast <- message`
unfoldable pub send : WsMessage → Action (Unit {0})
send message env w = (ok tt, record w { sent = message ∷ w.sent })

abbrev pub stamp_at : Env → World → Stamp
stamp_at env w = record {
  now = env.clock w.tick;
  uuid = env.fresh_uuid w.tick;
  timestamptz = env.timestamptz;
}

abbrev pub answered {ℓ} : {A : Type ℓ} → Option GoError → Result A → Result A
answered (some e) r = err e
answered none r = r

-- A statement that reads.
unfoldable pub query {ℓ} : {A : Type ℓ} → (Db → Result A) → Action A
query read env w = (answered (env.db_fault w.tick) (read w.db), tock w)

abbrev pub stored : Option GoError → Result Db → World → Result (Unit {0}) × World
stored (some e) r w = (err e, tock w)
stored none (ok db) w = (ok tt, record w { db = db; tick = suc w.tick })
stored none (err e) w = (err e, tock w)
stored none (panic text) w = (panic text, tock w)

-- A statement that writes.
unfoldable pub execute : (Stamp → Db → Result Db) → Action (Unit {0})
execute write env w = stored (env.db_fault w.tick) (write (stamp_at env w) w.db) w

abbrev pub Tx : Type 0
Tx = Db

-- `db.BeginTx(ctx, nil)`
unfoldable pub begin_tx : Action Tx
begin_tx env w = (answered (env.db_fault w.tick) (ok w.db), tock w)

-- A statement that reads within a transaction.
unfoldable pub query_tx {ℓ} : {A : Type ℓ} → (Db → Result A) → Tx → Action A
query_tx read tx env w = (answered (env.db_fault w.tick) (read tx), tock w)

-- A statement that writes within a transaction: the transaction after it.
unfoldable pub execute_tx : (Stamp → Db → Result Db) → Tx → Action Tx
execute_tx write tx env w = (answered (env.db_fault w.tick) (write (stamp_at env w) tx), tock w)

-- `tx.Commit()`
unfoldable pub commit_tx : Tx → Action (Unit {0})
commit_tx tx env w = stored (env.db_fault w.tick) (ok tx) w

-- One HTTP request to Helius: a URL and the transaction hash in the body, empty for GET.
unfoldable pub helius_request : String → String → Action (HttpReply (List HeliusTransaction))
helius_request url body env w = (ok (env.helius_reply w.tick url body), tock w)

-- One HTTP request to the exchange.
unfoldable pub exchange_request : String → Action (HttpReply CoinCapAnswer)
exchange_request url env w = (ok (env.exchange_reply w.tick url), tock w)
