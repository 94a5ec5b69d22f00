-- ===== src/Service/Deposit/Credit.antt =====
-- The arithmetic of the balances in processVerifiedDeposit and processVerifiedWithdrawal.
use tucanbit_tvs.Service.Deposit.{credited, FloatOps, ℤ, DepositSession, Balance, Float}
use tucanbit_tvs.Service.Withdrawal.{debited}
use tucanbit_tvs.Prelude.{
  refl, Bool, String, if◌then◌else◌, ◌||◌, ◌≡◌, false, ap, sym, true, ◌∙◌, arith, ◌↔◌, ◌<◌, ◌≤◌,
}
use tucanbit_tvs.Domain.Withdrawal.{Withdrawal}
use tucanbit_tvs.Db.Rows.{GoError, err, ok, Result, get_or}
use tucanbit_tvs.Float.{of_int, ltb_float}
use tucanbit_tvs.Prelude.Int.{
  InInt64, ◌+ℤ◌, ◌-ℤ◌, pos, ◌≤ℤ◌, ltb_ℤ, wrap64_id, wrap64, pos_part, neg_part, two63, two64,
}

abbrev guarded : Bool → Bool → ℤ × String → GoError → Result (ℤ × String)
guarded b c updated e = if b || c then err e else ok updated

guarded_inv :
    (b c : Bool) (x y : ℤ × String) (e : GoError)
    → guarded b c x e ≡ ok y
    → (b ≡ false) × (c ≡ false) × (x ≡ y)
guarded_inv true c x y e h = cc
guarded_inv false true x y e h = cc
guarded_inv false false x y e h = (refl, refl, cc h)

-- The exact cents are what an int64 that is not negative holds, the units are not negative, and
-- the new balance has both.
abbrev pub IsExact : ℤ → Float → (Float → String) → ℤ → String → Type 0
IsExact exact exact_units format cents units =
    (pos 0 ≤ℤ exact)
    × (pos_part exact < two63)
    × (cents ≡ exact)
    × (ltb_float exact_units (of_int (pos 0)) ≡ false)
    × (units ≡ format exact_units)

-- A number above an int64 that wraps around once becomes negative.
not_wrapped :
    (z : ℤ)
    → pos_part z < two64
    → neg_part z ≤ two63
    → ltb_ℤ (wrap64 z) (pos 0) ≡ false
    → (pos 0 ≤ℤ z) × (pos_part z < two63)
unfolding wrap64
not_wrapped z h k l = ground arith

nonneg_fits : (z : ℤ) → pos 0 ≤ℤ z → pos_part z < two63 → InInt64 z
nonneg_fits z h k = ground arith

not_negative : (z : ℤ) → pos 0 ≤ℤ z → ltb_ℤ z (pos 0) ≡ false
not_negative z h = ground arith

guarded-IsExact :
    (exact : ℤ) (exact_units : Float) (format : Float → String) (e : GoError) (c : ℤ)
    (units : String)
    → pos_part exact < two64
    → neg_part exact ≤ two63
    → (guarded
          (ltb_ℤ (wrap64 exact) (pos 0))
          (ltb_float exact_units (of_int (pos 0)))
          (wrap64 exact, format exact_units)
          e
        ≡ ok (c, units))
      ↔ IsExact exact exact_units format c units
guarded-IsExact exact exact_units format e c units above below = (
  λ h.
      let (l, u, same) = guarded_inv _ _ _ (c, units) e h in
      let (lo, hi) = not_wrapped exact above below l in
      (
        lo,
        hi,
        sym (ap (λ p. p.0) same) ∙ wrap64_id exact (nonneg_fits exact lo hi),
        u,
        sym (ap (λ p. p.1) same),
      ),
  λ (lo, hi, cents, u, text).
      rw (wrap64_id exact (nonneg_fits exact lo hi), not_negative exact lo, u, cents, text) refl,
)

-- The units of the balance as the code reads them.
abbrev pub units_of : FloatOps → Balance → Float
units_of ops balance = get_or (of_int (pos 0)) (ops.parse_float balance.amount_units)

sum_bounds :
    (a b : ℤ)
    → pos 0 ≤ℤ a
    → InInt64 a
    → InInt64 b
    → (pos_part (a +ℤ b) < two64) × (neg_part (a +ℤ b) ≤ two63)
unfolding ◌+ℤ◌
sum_bounds a b h i j = ground arith

difference_bounds :
    (a b : ℤ)
    → pos 0 ≤ℤ a
    → InInt64 a
    → InInt64 b
    → (pos_part (a -ℤ b) < two64) × (neg_part (a -ℤ b) ≤ two63)
unfolding ◌-ℤ◌
difference_bounds a b h i j = ground arith

-- For int64 amounts, the balance's one not negative, a deposit is credited exactly if the sum of the
-- balance's cents and the deposit's is not negative and fits in an int64, and the sum of the units is
-- not negative; the new balance is these sums. So a sum that would wrap around is refused.
pub credited-IsExact :
    (ops : FloatOps) (session : DepositSession) (balance : Balance) (amount rate : Float)
    (cents new_cents : ℤ) (new_units : String)
    → pos 0 ≤ℤ balance.amount_cents
    → InInt64 balance.amount_cents
    → InInt64 cents
    → (credited ops session balance amount rate cents ≡ ok (new_cents, new_units))
      ↔ IsExact
          (balance.amount_cents +ℤ cents)
          (ops.add (units_of ops balance) (ops.mul amount rate))
          (ops.format 18)
          new_cents
          new_units
unfolding credited
credited-IsExact ops session balance amount rate cents new_cents new_units h i j =
    let (above, below) = sum_bounds balance.amount_cents cents h i j in
    guarded-IsExact (balance.amount_cents +ℤ cents) _ (ops.format 18) _ new_cents new_units above
      below

-- For int64 amounts, the balance's one not negative, a withdrawal is charged exactly if the
-- balance's cents less the withdrawal's are not negative and fit in an int64, and the same difference
-- of the units is not negative; the new balance is these differences.
pub debited-IsExact :
    (ops : FloatOps) (withdrawal : Withdrawal) (balance : Balance) (amount rate : Float)
    (new_cents : ℤ) (new_units : String)
    → pos 0 ≤ℤ balance.amount_cents
    → InInt64 balance.amount_cents
    → InInt64 withdrawal.usd_amount_cents
    → (debited ops withdrawal balance amount rate ≡ ok (new_cents, new_units))
      ↔ IsExact
          (balance.amount_cents -ℤ withdrawal.usd_amount_cents)
          (ops.sub (units_of ops balance) (ops.mul amount rate))
          (ops.format 18)
          new_cents
          new_units
unfolding debited
debited-IsExact ops withdrawal balance amount rate new_cents new_units h i j =
    let (above, below) = difference_bounds balance.amount_cents withdrawal.usd_amount_cents h i j in
    guarded-IsExact (balance.amount_cents -ℤ withdrawal.usd_amount_cents) _ (ops.format 18) _
      new_cents new_units above below
