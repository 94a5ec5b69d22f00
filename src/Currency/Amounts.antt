-- ===== src/Currency/Amounts.antt =====
-- What `BankersRound` of pkg/currency/utils.go makes of an amount in dollars, whose product with 100
-- is rounded to a float64 first.
use tucanbit_tvs.Prelude.{
  ℕ, ◌+◌, ◌*◌, ◌/◌, ◌^◌, ◌≤◌, ◌<◌, ◌≡◌, arith, ap, ◌⊎◌, ◌≢◌, inl, inr, eqb, Bool-cases,
}
use tucanbit_tvs.Prelude.Int.{pos, two63}
use tucanbit_tvs.Float.{FloatOps}
use tucanbit_tvs.Currency.{bankers_round, hundred}
use tucanbit_tvs.Currency.Rounding.{IsBankersRounding, bankers_round-IsBankersRounding, pow_pos}

-- `2 ^ 53`: the relative error of one rounding to a float64 is at most its inverse.
abbrev pub two53 : ℕ
two53 = 9007199254740992

-- `a / p` is `c / q` up to a relative error of 2 ^ -53.
pub record IsRoundedFrom (a p c q : ℕ) : Type 0 where
  pub above : two53 * (a * q) ≤ (two53 + 1) * (c * p)
  pub below : two53 * (c * p) ≤ two53 * (a * q) + c * p

-- `r` is half a unit away from `c / q` at most, and a part of 2 ^ -53 of it.
pub record IsNear (c q r : ℕ) : Type 0 where
  pub above : 2 * (two53 * (r * q)) ≤ two53 * q + 2 * ((two53 + 1) * c)
  pub below : 2 * (two53 * c) ≤ two53 * q + 2 * (two53 * (r * q)) + 2 * c

cancel_le : (p x y : ℕ) → 0 < p → p * x ≤ p * y → x ≤ y
cancel_le p x y h k = grind arith

cancel_eq : (p x y : ℕ) → 0 < p → p * x ≡ p * y → x ≡ y
cancel_eq p x y h k = grind arith

scale_le : (q x y : ℕ) → x ≤ y → q * x ≤ q * y
scale_le q x y h = grind arith

near : (a p c q r : ℕ) → 0 < p → IsRoundedFrom a p c q → IsBankersRounding a p r → IsNear c q r
near a p c q r h k b = record {
  above = cancel_le p _ _ h (omega (arith, scale_le (two53 * q) _ _ b.not_above, k.above));
  below = cancel_le p _ _ h (omega (arith, scale_le (two53 * q) _ _ b.not_below, k.below));
}

exact :
    (a p c q r : ℕ)
    → 0 < p
    → 0 < q
    → a * q ≡ c * p
    → IsBankersRounding a p r
    → IsBankersRounding c q r
exact a p c q r h i e b = record {
  not_above = cancel_le p _ _ h (omega (arith, scale_le q _ _ b.not_above, e));
  not_below = cancel_le p _ _ h (omega (arith, scale_le q _ _ b.not_below, e));
  even_above = λ t. b.even_above (cancel_eq q _ _ i (omega (arith, ap (λ x. p * x) t, e)));
  even_below = λ t. b.even_below (cancel_eq q _ _ i (omega (arith, ap (λ x. p * x) t, e)));
}

-- The rounding of the product is the banker's rounding of the amount, unless the product was rounded.
exact_or_rounded :
    (a p c q r : ℕ)
    → 0 < p
    → 0 < q
    → IsBankersRounding a p r
    → (a * q ≢ c * p) ⊎ IsBankersRounding c q r
exact_or_rounded a p c q r h i b = elim (Bool-cases (eqb (a * q) (c * p))) [
  | inl e ↦ inr (exact a p c q r h i (ground (arith, e)) b)
  | inr e ↦ inl (λ same. ground (arith, e, same))
]

-- For an amount of m / 2^e dollars that is not negative, whose product with 100 the float64
-- multiplication rounds with a relative error of 2^-53 at most and whose cents fit in an int64,
-- `BankersRound` returns cents that are half a cent and a part of 2^-53 of the amount away from it at
-- most. They are the nearest cents to the amount, with ties to the even ones, unless the product was
-- not exact.
pub bankers_round-IsNear :
    (ops : FloatOps) (m e a k : ℕ)
    → ops.mul (record { mantissa = pos m; exponent = e }) hundred
      ≡ record { mantissa = pos a; exponent = k }
    → IsRoundedFrom a (2 ^ k) (100 * m) (2 ^ e)
    → (2 * a + 2 ^ k) / (2 * 2 ^ k) < two63
    → (r : ℕ) × (bankers_round ops (record { mantissa = pos m; exponent = e }) ≡ pos r)
      × IsNear (100 * m) (2 ^ e) r
      × ((a * 2 ^ e ≢ 100 * m * 2 ^ k) ⊎ IsBankersRounding (100 * m) (2 ^ e) r)
bankers_round-IsNear ops m e a k product rounded fits =
    let (r, returned, nearest) = bankers_round-IsBankersRounding ops _ a k product fits in
    (
      r,
      returned,
      near a (2 ^ k) (100 * m) (2 ^ e) r (pow_pos k) rounded nearest,
      exact_or_rounded a (2 ^ k) (100 * m) (2 ^ e) r (pow_pos k) (pow_pos e) nearest,
    )
