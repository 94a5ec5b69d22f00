-- ===== src/Db/Balances.antt =====
-- The statements on balances and balance_logs, of internal/repositories/balancerepo/gen/queries.sql.go.
-- Of the CHECK constraints those on whole cents are modelled; a violation of one on a DECIMAL text is
-- a failure of the database, which any statement can have.
pub mod Totals
use tucanbit_tvs.Prelude.{
  String, Bool, List, Option, none, some, if◌then◌else◌, true, false, ◌==◌, any, keep, find_first,
  update_where, ◌&&◌, ◌||◌, not, ◌∷◌, ◌≡◌, Bool-cases, inl, inr,
}
use tucanbit_tvs.Float.{in_int64}
use tucanbit_tvs.Db.Rows.{
  BalanceRow, BalanceLogRow, Db, Stamp, Result, ok, err, one_row, plain_error, GoError,
}
use tucanbit_tvs.Prelude.Int.{ℤ, pos, ◌+ℤ◌, ◌-ℤ◌, leb_ℤ}

-- `CHECK (amount_cents >= 0)` and the range of BIGINT, for a nullable column.
abbrev pub is_cents : Option ℤ → Bool
is_cents none = true
is_cents (some c) = leb_ℤ (pos 0) c && in_int64 c

abbrev pub balance_fits : BalanceRow → Bool
balance_fits r = is_cents r.amount_cents && is_cents r.reserved_cents

abbrev pub of_user : String → String → BalanceRow → Bool
of_user user_id currency_code r = r.user_id == user_id && r.currency_code == currency_code

-- `SET column = column + $3` and `- $3`: a null stays null.
abbrev pub plus : Option ℤ → ℤ → Option ℤ
plus none d = none
plus (some c) d = some (c +ℤ d)

abbrev pub minus : Option ℤ → ℤ → Option ℤ
minus none d = none
minus (some c) d = some (c -ℤ d)

-- `column >= $3`: a null is no match.
abbrev pub at_least : Option ℤ → ℤ → Bool
at_least none d = false
at_least (some c) d = leb_ℤ d c

abbrev pub check_error : GoError
check_error = plain_error "new row for relation \"balances\" violates check constraint"

-- An UPDATE of the rows that match, refused as a whole if a new row breaks a constraint.
unfoldable pub update_balances : (BalanceRow → Bool) → (BalanceRow → BalanceRow) → Db → Result Db
update_balances matches change db =
    if any (λ r. matches r && not (balance_fits (change r))) db.balances
    then err check_error
    else ok (record db { balances = update_where matches change db.balances })

-- What an UPDATE that succeeds has done.
pub update_balances_inv :
    (matches : BalanceRow → Bool) (change : BalanceRow → BalanceRow) (db db' : Db)
    → update_balances matches change db ≡ ok db'
    → db' ≡ record db { balances = update_where matches change db.balances }
unfolding update_balances
update_balances_inv matches change db db' e =
    elim (Bool-cases (any (λ r. matches r && not (balance_fits (change r))) db.balances)) [
      | inl refused ↦ cc (rw refused at e)
      | inr fits ↦ cc (rw fits at e)
    ]

-- `GetUserBalances`
unfoldable pub get_user_balances : String → Db → List BalanceRow
get_user_balances user_id db = keep (λ r. r.user_id == user_id) db.balances

-- `GetBalance`
unfoldable pub get_balance : String → String → Db → Result BalanceRow
get_balance user_id currency_code db =
    one_row (find_first (of_user user_id currency_code) db.balances)

-- `ReserveBalance`
unfoldable pub reserve_balance : String → String → ℤ → Stamp → Db → Result Db
reserve_balance user_id currency_code cents stamp db =
    update_balances (λ r. of_user user_id currency_code r && at_least r.amount_cents cents)
      (λ r. record r {
        reserved_cents = plus r.reserved_cents cents;
        amount_cents = minus r.amount_cents cents;
        updated_at = some stamp.now;
      })
      db

-- `UpdateBalance`
unfoldable pub update_balance : String → String → ℤ → String → Stamp → Db → Result Db
update_balance user_id currency_code cents units stamp db =
    update_balances (of_user user_id currency_code)
      (λ r. record r {
        amount_cents = some cents;
        amount_units = some units;
        updated_at = some stamp.now;
      })
      db

-- `ReleaseReservedBalance`
unfoldable pub release_reserved_balance : String → String → ℤ → Stamp → Db → Result Db
release_reserved_balance user_id currency_code cents stamp db =
    update_balances (λ r. of_user user_id currency_code r && at_least r.reserved_cents cents)
      (λ r. record r {
        reserved_cents = minus r.reserved_cents cents;
        amount_cents = plus r.amount_cents cents;
        updated_at = some stamp.now;
      })
      db

-- The enum type `components` of the schema.
abbrev pub is_component : String → Bool
is_component s = s == "real_money" || s == "bonus_money" || s == "points"

-- `LogBalanceChange`
unfoldable pub log_balance_change : BalanceLogRow → Db → Result Db
log_balance_change row db =
    if is_component row.component
    then ok (record db { balance_logs = row ∷ db.balance_logs })
    else err (plain_error "invalid input value for enum components")
