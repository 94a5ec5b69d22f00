-- ===== src/Repo/Balances.antt =====
-- internal/repositories/balancerepo/balance_repo_impl.go
use tucanbit_tvs.Effects.{Action, ◌>>=◌, pure, wrap, asks}
use tucanbit_tvs.Effects.Calls.{query, execute, parse_uuid, must_parse_uuid}
use tucanbit_tvs.Prelude.{◌∷◌, [], String, List, Bool, eqb, map, if◌then◌else◌, none, some}
use tucanbit_tvs.Db.Balances
use tucanbit_tvs.Db.Rows.{BalanceRow, BalanceLogRow, get_or, ok}
use tucanbit_tvs.Float.{Float, FloatOps, magnitude}
use tucanbit_tvs.Domain.Balance.{BalanceLog, Balance}
use tucanbit_tvs.Prelude.Int.{ℤ, pos, eqb_ℤ}
use tucanbit_tvs.Repo.Sessions.{null_string}

-- The `domain.Balance` of a row, with the defaults for its nulls.
unfoldable pub to_balance : BalanceRow → Balance
to_balance row = record {
  id = row.id;
  user_id = row.user_id;
  currency_code = row.currency_code;
  amount_cents = get_or (pos 0) row.amount_cents;
  amount_units = get_or "" row.amount_units;
  reserved_cents = get_or (pos 0) row.reserved_cents;
  reserved_units = get_or "0" row.reserved_units;
  updated_at = get_or 0 row.updated_at;
}

-- The `uuid.Parse` that every method begins with.
unfoldable pub parse_user_id : String → Action String
parse_user_id user_id = wrap ("invalid user_id format: " ∷ []) (parse_uuid user_id)

-- `GetUserBalances`
unfoldable pub get_user_balances : String → Action (List Balance)
unfolding to_balance
get_user_balances user_id = do
  user ← parse_user_id user_id
  rows ←
      wrap ("failed to query balances: " ∷ [])
        (query (λ db. ok (Balances.get_user_balances user db)))
  pure (map to_balance rows)

-- `GetBalance`
unfoldable pub get_balance : String → Action Balance
unfolding to_balance
get_balance user_id = do
  user ← parse_user_id user_id
  row ← wrap ("failed to get balance: " ∷ []) (query (Balances.get_balance user "USD"))
  pure (record (to_balance row) { currency_code = "USD" })

-- `ReserveBalance`
unfoldable pub reserve_balance : String → String → ℤ → Action (Unit {0})
reserve_balance user_id currency_code amount_cents = do
  user ← parse_user_id user_id
  wrap ("failed to reserve balance: " ∷ [])
      (execute (Balances.reserve_balance user currency_code amount_cents))

-- `UpdateBalance`
unfoldable pub update_balance : String → String → ℤ → String → Action (Unit {0})
update_balance user_id currency_code amount_cents amount_units = do
  user ← parse_user_id user_id
  wrap ("failed to update balance: " ∷ [])
      (execute (Balances.update_balance user currency_code amount_cents amount_units))

-- `ReleaseReservedBalance`
unfoldable pub release_reserved_balance : String → String → ℤ → Action (Unit {0})
release_reserved_balance user_id currency_code amount_cents = do
  user ← parse_user_id user_id
  wrap ("failed to release reserved balance: " ∷ [])
      (execute (Balances.release_reserved_balance user currency_code amount_cents))

abbrev is_zero_float : Float → Bool
is_zero_float x = eqb (magnitude x.mantissa) 0

-- The parameters of the insertion, where an empty value is null.
unfoldable pub log_row : FloatOps → BalanceLog → String → String → BalanceLogRow
log_row ops log id user_id = record {
  id = id;
  user_id = user_id;
  component = log.component;
  currency_code = log.currency_code;
  change_cents = log.change_cents;
  change_units = ops.format 18 log.change_units;
  description = null_string log.description;
  timestamp = if eqb log.timestamp 0 then none else some log.timestamp;
  balance_after_cents =
      if eqb_ℤ log.balance_after_cents (pos 0) then none else some log.balance_after_cents;
  balance_after_units =
      if is_zero_float log.balance_after_units
      then none
      else some (ops.format 18 log.balance_after_units);
  transaction_id = null_string log.transaction_id;
  status = null_string log.status;
}

-- `LogBalanceChange`
unfoldable pub log_balance_change : BalanceLog → Action (Unit {0})
log_balance_change log = do
  id ← must_parse_uuid log.id
  user_id ← must_parse_uuid log.user_id
  ops ← asks (λ env. env.ops)
  wrap ("failed to log balance change: " ∷ [])
      (execute (λ stamp. Balances.log_balance_change (log_row ops log id user_id)))
