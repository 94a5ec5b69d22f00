-- ===== src/Effects.antt =====
-- How the stateful code is modelled: an action takes the environment and the world, and returns a
-- result and the next world. The environment is what the code does not decide: at the n-th call to
-- the outside it says whether the database fails, what the clock and the uuid generator show and
-- what a server answers. A database call that fails has had no effect. One action runs at a time.
pub mod Calls
pub mod Keeps
pub mod Triple
pub mod Queries
pub mod Returns
pub mod Bounded
use tucanbit_tvs.Prelude.{ℕ, String, List, concat, Option, ◌++◌, ◌∷◌, []}
use tucanbit_tvs.Db.Rows.{Db, GoError, Result, ok, err, panic, plain_error}
use tucanbit_tvs.Hub.Message.{WsMessage}
use tucanbit_tvs.Domain.Solana.{HeliusTransaction}
use tucanbit_tvs.Float.{FloatOps}
use tucanbit_tvs.Config.{Config}
use tucanbit_tvs.Prelude.Int.{ℤ}

-- The ends of an HTTP exchange whose body is a JSON value of type `A`: the request cannot be built,
-- it is not answered, the status is not 200, the body cannot be read, or is not such a value.
pub data HttpReply (A : Type 0) : Type 0 where
  no_request : GoError → HttpReply A
  no_response : GoError → HttpReply A
  bad_status : ℕ → String → String → HttpReply A
  no_body : GoError → HttpReply A
  bad_json : GoError → HttpReply A
  answer : A → HttpReply A

-- What the code reads of a CoinCap answer (internal/domain/exchange_api.go); the asset's other
-- fields are decoded and not used.
pub record CoinCapAnswer : Type 0 where
  pub price_usd : String
  pub change_percent_24hr : String
  pub timestamp : ℤ

pub record Env : Type 0 where
  pub ops : FloatOps
  pub config : Config
  pub db_fault : ℕ → Option GoError
  pub clock : ℕ → ℕ
  pub fresh_uuid : ℕ → String
  -- `uuid.Parse(s)` followed by `String()`
  pub parse_uuid : String → Option String
  -- `json.Marshal` of a transaction, or its error
  pub marshal : HeliusTransaction → Option String
  -- the answer to the n-th call, for a URL and the hash in the body (empty for GET)
  pub helius_reply : ℕ → String → String → HttpReply (List HeliusTransaction)
  -- `url.Parse(base)` with its path replaced, and `String()`; none if the base is no URL
  pub asset_url : String → String → Option String
  pub exchange_reply : ℕ → String → HttpReply CoinCapAnswer
  -- the field `error` of a body that is such a JSON object
  pub error_field : String → Option String
  -- `time.Unix(s, 0).Format(time.RFC3339)`
  pub format_time : ℤ → String
  -- what the driver and a column of type TIMESTAMPTZ keep of a time, which is in nanoseconds
  pub timestamptz : ℕ → ℕ

pub record World : Type 0 where
  pub db : Db
  -- what was sent to the hub, the latest first
  pub sent : List WsMessage
  -- the durations that the code slept, the latest first
  pub slept : List ℕ
  -- how many calls to the outside were made
  pub tick : ℕ

abbrev pub Action {ℓ} : Type ℓ → Type ℓ
Action A = Env → World → Result A × World

module _ {ℓ} {A : Type ℓ} where
  abbrev pub pure : A → Action A
  pure a env w = (ok a, w)

  -- `return err`
  abbrev pub raise : GoError → Action A
  raise e env w = (err e, w)

  abbrev pub crash : String → Action A
  crash text env w = (panic text, w)

  abbrev pub lift : Result A → Action A
  lift r env w = (r, w)

  abbrev pub asks : (Env → A) → Action A
  asks f env w = (ok (f env), w)

module _ {ℓ κ} {A : Type ℓ} {B : Type κ} where
  abbrev pub continue : Result A → (A → Action B) → Action B
  continue (ok a) f env w = f a env w
  continue (err e) f env w = (err e, w)
  continue (panic text) f env w = (panic text, w)

  infixl 5 ◌>>=◌
  unfoldable pub ◌>>=◌ : Action A → (A → Action B) → Action B
  ◌>>=◌ m f env w = let (r, w') = m env w in continue r f env w'

infixl 5 ◌>>◌
abbrev pub ◌>>◌ {ℓ} : {B : Type ℓ} → Action (Unit {0}) → Action B → Action B
m >> n = m >>= λ _. n

-- `a, err := f()` where the code goes on in both cases.
pub data Try {ℓ} (A : Type ℓ) : Type ℓ where
  done : A → Try A
  error : GoError → Try A

abbrev pub tried {ℓ} : {A : Type ℓ} → Result A → Result (Try A)
tried (ok a) = ok (done a)
tried (err e) = ok (error e)
tried (panic text) = panic text

unfoldable pub attempt {ℓ} : {A : Type ℓ} → Action A → Action (Try A)
attempt m env w = let (r, w') = m env w in (tried r, w')

-- `if err != nil { return fmt.Errorf("<prefix>%w", ..., err) }`
abbrev pub wrapped {ℓ} : {A : Type ℓ} → List String → Result A → Result A
wrapped prefix (ok a) = ok a
wrapped prefix (err e) = err (plain_error (concat (prefix ++ e.message ∷ [])))
wrapped prefix (panic text) = panic text

unfoldable pub wrap {ℓ} : {A : Type ℓ} → List String → Action A → Action A
wrap prefix m env w = let (r, w') = m env w in (wrapped prefix r, w')

-- `if err != nil { log }`: an error is dropped.
unfoldable pub ignore_error : Action (Unit {0}) → Action (Unit {0})
unfolding attempt ◌>>=◌
ignore_error m = attempt m >>= λ _. pure tt
