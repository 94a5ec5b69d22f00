-- ===== src/Currency/Rounding.antt =====
-- What `BankersRound` of pkg/currency/utils.go computes from the float64 number of cents.
use native.Mathlib.Nat.{pow-suc}
use tucanbit_tvs.Prelude.{
  ℕ, zero, suc, ◌+◌, ◌*◌, ◌/◌, ◌%◌, ◌^◌, ◌≤◌, ◌<◌, ◌≡◌, ap, ◌∙◌, arith, ◌≢◌, ◌⊎◌, if◌then◌else◌,
  ◌-◌, Bool-cases, inr, inl,
}
use tucanbit_tvs.Prelude.Int.{pos, wrap64, ◌-ℤ◌, ◌*ℤ◌, two63, negsuc}
use tucanbit_tvs.Float.{Float, FloatOps, distance}
use tucanbit_tvs.Currency.{round_cents, bankers_round, hundred, eqb}

-- `r` is a nearest integer to `a / p`, and the even one where two are equally near.
pub record IsBankersRounding (a p r : ℕ) : Type 0 where
  pub not_above : 2 * (p * r) ≤ 2 * a + p
  pub not_below : 2 * a ≤ 2 * (p * r) + p
  pub even_above : 2 * (p * r) ≡ 2 * a + p → r % 2 ≡ 0
  pub even_below : 2 * a ≡ 2 * (p * r) + p → r % 2 ≡ 0

-- Rounding half up, by integer division.
abbrev half_up : ℕ → ℕ → ℕ
half_up a p = (2 * a + p) / (2 * p)

half_up_bounds :
    (a p : ℕ)
    → 0 < p
    → (2 * (p * half_up a p) ≤ 2 * a + p) × (2 * a + p < 2 * (p * half_up a p) + 2 * p)
half_up_bounds a p h = (omega arith, omega arith)

-- The distance of `a / p` from its rounding, in both directions of the rounding.
distance_half_up :
    (a e q : ℕ)
    → (distance (record { mantissa = pos a; exponent = e }) (pos q) + a ≡ 2 ^ e * q)
      ⊎ (distance (record { mantissa = pos a; exponent = e }) (pos q) + 2 ^ e * q ≡ a)
unfolding distance ◌-ℤ◌ ◌*ℤ◌
distance_half_up a e q = ground arith

pub pow_pos : (e : ℕ) → 0 < 2 ^ e
pow_pos zero = omega arith
pow_pos (suc e) = rw pow-suc (omega (arith, pow_pos e))

-- The rounding of a number of cents that is not negative, with `math.Round` and the conversions
-- carried out.
round_cents_pos :
    (ops : FloatOps) (a e : ℕ)
    → half_up a (2 ^ e) < two63
    → round_cents ops (record { mantissa = pos a; exponent = e }) ≡ (
        if eqb
          (2 * distance (record { mantissa = pos a; exponent = e }) (pos (half_up a (2 ^ e))))
          (2 ^ e)
        then (if eqb (half_up a (2 ^ e) % 2) 0
            then pos (half_up a (2 ^ e))
            else wrap64 (pos (half_up a (2 ^ e)) -ℤ pos 1))
        else pos (half_up a (2 ^ e)))
unfolding round_cents
round_cents_pos ops a e fits = ground arith

pred_int64 : (q : ℕ) → q < two63 → 0 < q → wrap64 (pos q -ℤ pos 1) ≡ pos (q - 1)
unfolding ◌-ℤ◌ wrap64
pred_int64 q fits h = ground arith

-- The whole number that the code's two branches choose.
choose : ℕ → ℕ → ℕ → ℕ
choose q d p = if eqb (2 * d) p then (if eqb (q % 2) 0 then q else q - 1) else q

mul_pred : (p q : ℕ) → q % 2 ≢ 0 → p * (q - 1) + p ≡ p * q
mul_pred p zero h = absurd (omega arith)
mul_pred p (suc q) h = let e : suc q - 1 ≡ q = omega arith in rw e (omega arith)

choose-IsBankersRounding :
    (a p q d : ℕ)
    → 0 < p
    → (2 * (p * q) ≤ 2 * a + p) × (2 * a + p < 2 * (p * q) + 2 * p)
    → (d + a ≡ p * q) ⊎ (d + p * q ≡ a)
    → IsBankersRounding a p (choose q d p)
unfolding choose
choose-IsBankersRounding a p q d h b s = elim (Bool-cases (eqb (2 * d) p)) [
  | inr far ↦ rw far (ground arith)
  | inl tie ↦ elim (Bool-cases (eqb (q % 2) 0)) [
    | inl even ↦ rw (tie, even) (ground arith)
    | inr odd ↦ rw (tie, odd) (ground (arith, mul_pred p q))
  ]
]

-- `choose` at the rounding of `a / 2 ^ e`.
half_even : ℕ → ℕ → ℕ
half_even a e =
    choose (half_up a (2 ^ e))
      (distance (record { mantissa = pos a; exponent = e }) (pos (half_up a (2 ^ e)))) (2 ^ e)

round_cents-half_even :
    (ops : FloatOps) (a e : ℕ)
    → half_up a (2 ^ e) < two63
    → round_cents ops (record { mantissa = pos a; exponent = e }) ≡ pos (half_even a e)
unfolding half_even choose
round_cents-half_even ops a e fits =
    rw (round_cents_pos ops a e fits) (ground (arith, pred_int64 (half_up a (2 ^ e)) fits))

half_even-IsBankersRounding : (a e : ℕ) → IsBankersRounding a (2 ^ e) (half_even a e)
unfolding half_even
half_even-IsBankersRounding a e =
    choose-IsBankersRounding a (2 ^ e) (half_up a (2 ^ e))
      (distance (record { mantissa = pos a; exponent = e }) (pos (half_up a (2 ^ e)))) (pow_pos e)
      (half_up_bounds a (2 ^ e) (pow_pos e)) (distance_half_up a e (half_up a (2 ^ e)))

-- For a number of cents that is not negative and rounds to an int64, the result is the nearest
-- integer, with ties to the even one.
pub bankers_round-IsBankersRounding :
    (ops : FloatOps) (value : Float) (a e : ℕ)
    → ops.mul value hundred ≡ record { mantissa = pos a; exponent = e }
    → (2 * a + 2 ^ e) / (2 * 2 ^ e) < two63
    → (r : ℕ) × (bankers_round ops value ≡ pos r) × IsBankersRounding a (2 ^ e) r
unfolding bankers_round
bankers_round-IsBankersRounding ops value a e h fits = (
  half_even a e,
  ap (round_cents ops) h ∙ round_cents-half_even ops a e fits,
  half_even-IsBankersRounding a e,
)

round_cents_negative_tie :
    (ops : FloatOps) (k : ℕ)
    → k < 1000000000000000000
    → round_cents ops (record { mantissa = negsuc (4 * k); exponent = 1 }) ≡ negsuc (2 * k + 1)
unfolding round_cents ◌-ℤ◌ ◌*ℤ◌ wrap64
round_cents_negative_tie ops k fits = ground arith

-- A negative tie that `math.Round` takes to an odd number is moved away from zero once more: for
-- -(2k + 1/2) cents the result is -(2k + 2), three halves of a cent off, where the nearest even
-- number is -2k.
pub bankers_round-negative_tie :
    (ops : FloatOps) (value : Float) (k : ℕ)
    → ops.mul value hundred ≡ record { mantissa = negsuc (4 * k); exponent = 1 }
    → k < 1000000000000000000
    → bankers_round ops value ≡ negsuc (2 * k + 1)
unfolding bankers_round
bankers_round-negative_tie ops value k h fits =
    ap (round_cents ops) h ∙ round_cents_negative_tie ops k fits
