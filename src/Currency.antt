-- ===== src/Currency.antt =====
-- pkg/currency/utils.go: amounts of crypto to cents of a dollar.
pub mod Rounding
pub mod Amounts
use tucanbit_tvs.Prelude.{ℕ, ◌*◌, ◌%◌, Bool, String, concat, [], ◌∷◌, eqb, if◌then◌else◌}
use tucanbit_tvs.Prelude.Int.{ℤ, pos, ◌-ℤ◌, wrap64}
use tucanbit_tvs.Float.{
  Float, FloatOps, of_int, denominator, magnitude, math_round, distance, to_int64,
}

abbrev pub hundred : Float
hundred = of_int (pos 100)

-- `math.Abs(cents-rounded) == 0.5`; the difference of a float64 and its rounding is exact.
is_tie : Float → ℤ → Bool
unfolding distance
is_tie cents rounded = eqb (2 * distance cents rounded) (denominator cents)

-- The rounding of a float64 that already counts cents.
round_cents : FloatOps → Float → ℤ
unfolding is_tie math_round to_int64
round_cents ops cents =
    let rounded = math_round cents in
    let whole = to_int64 ops (of_int rounded) in
    if is_tie cents rounded
    then (if eqb (magnitude whole % 2) 0 then whole else wrap64 (whole -ℤ pos 1))
    else to_int64 ops (of_int (math_round cents))

-- `BankersRound`
unfoldable pub bankers_round : FloatOps → Float → ℤ
unfolding round_cents
bankers_round ops value = round_cents ops (ops.mul value hundred)

-- `CryptoToUSDCents`
unfoldable pub crypto_to_usd_cents : FloatOps → Float → Float → ℤ
crypto_to_usd_cents ops crypto_amount exchange_rate =
    bankers_round ops (ops.mul crypto_amount exchange_rate)

-- `CentsToDollars`
unfoldable pub cents_to_dollars : FloatOps → ℤ → Float
cents_to_dollars ops cents = ops.div (ops.of_int64 cents) hundred

-- `FormatUSD`
unfoldable pub format_usd : FloatOps → ℤ → String
unfolding cents_to_dollars
format_usd ops cents = concat ("$" ∷ ops.format 2 (cents_to_dollars ops cents) ∷ [])
