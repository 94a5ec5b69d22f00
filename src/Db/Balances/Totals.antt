-- ===== src/Db/Balances/Totals.antt =====
-- The cents of each balance, available and reserved together, under the statements of
-- internal/repositories/balancerepo/gen/queries.sql.go.
use tucanbit_tvs.Db.Balances.{
  plus, minus, at_least, of_user, release_reserved_balance, Option, BalanceRow, Db, String, ℤ, List,
  Bool, some, ◌+ℤ◌, update_balances_inv, update_balances, ok,
}
use tucanbit_tvs.Prelude.{
  sym, subst, true, false, All, All-update_where, update_where, Bool-cases, inl, inr, ◌∷◌, [],
  split, refl, map, ◌≡◌, ◌∙◌, none,
}
use tucanbit_tvs.Effects.Keeps.{Writes}
use tucanbit_tvs.Prelude.Int.{int_laws, pos}

-- A null is read as zero, as `GetBalance` of internal/repositories/balancerepo does.
abbrev pub cents_of : Option ℤ → ℤ
cents_of none = pos 0
cents_of (some c) = c

-- Available and reserved cents together.
abbrev pub row_total : BalanceRow → ℤ
row_total r = cents_of r.amount_cents +ℤ cents_of r.reserved_cents

abbrev pub is_given : Option ℤ → Bool
is_given none = false
is_given (some c) = true

-- The amount of the balance is not null.
abbrev pub HasAmount : BalanceRow → Type 0
HasAmount r = is_given r.amount_cents ≡ true

-- The totals of all balances, in the order of the table.
abbrev pub totals : Db → List ℤ
totals db = map row_total db.balances

-- No balance has a null for its amount, and the totals are these.
abbrev pub HasTotals : List ℤ → Db → Type 0
HasTotals k db = All HasAmount db.balances × (totals db ≡ k)

-- A release takes the cents from the reserve, which covers them and so is no null.
release-total :
    (a r : Option ℤ) (c : ℤ)
    → is_given a ≡ true
    → at_least r c ≡ true
    → cents_of (plus a c) +ℤ cents_of (minus r c) ≡ cents_of a +ℤ cents_of r
release-total none r c g h = absurd (cc g)
release-total (some a) none c g h = absurd (cc h)
release-total (some a) (some r) c g h = omega int_laws

plus-given : (a : Option ℤ) (c : ℤ) → is_given a ≡ true → is_given (plus a c) ≡ true
plus-given none c g = g
plus-given (some a) c g = refl

-- A change of the rows that match, if it keeps their totals and their amounts' presence.
map-changed :
    (p : BalanceRow → Bool) (f : BalanceRow → BalanceRow) (rows : List BalanceRow)
    → ((r : BalanceRow) → p r ≡ true → HasAmount r → row_total (f r) ≡ row_total r)
    → All HasAmount rows
    → map row_total (update_where p f rows) ≡ map row_total rows
map-changed p f [] h given = refl
map-changed p f (r ∷ rows) h (here, given) = elim (Bool-cases (p r)) [
  | inl e ↦ rw e (cc (h r e here, map-changed p f rows h given))
  | inr e ↦ rw e (cc (map-changed p f rows h given))
]

update_balances-HasTotals :
    (p : BalanceRow → Bool) (f : BalanceRow → BalanceRow) (k : List ℤ) (db db' : Db)
    → ((r : BalanceRow) → p r ≡ true → HasAmount r → HasAmount (f r))
    → ((r : BalanceRow) → p r ≡ true → HasAmount r → row_total (f r) ≡ row_total r)
    → HasTotals k db
    → update_balances p f db ≡ ok db'
    → HasTotals k db'
update_balances-HasTotals p f k db db' keeps h (given, total) e =
    subst (HasTotals k) (sym (update_balances_inv p f db db' e)) (
      All-update_where p f db.balances keeps (λ r g. g) given,
      map-changed p f db.balances h given ∙ total,
    )

-- `ReleaseReservedBalance` moves cents and changes no total where no amount is a null.
pub release_reserved_balance-HasTotals :
    (user currency : String) (cents : ℤ) (k : List ℤ)
    → Writes (HasTotals k) (release_reserved_balance user currency cents)
unfolding release_reserved_balance
release_reserved_balance-HasTotals user currency cents k = record {
  at = λ stamp db db' h e.
      update_balances-HasTotals _ _ k db db' (λ r p g. plus-given r.amount_cents cents g)
        (λ r p g.
          release-total r.amount_cents r.reserved_cents cents g
            (split (of_user user currency r) (at_least r.reserved_cents cents) p).1)
        h e;
}
