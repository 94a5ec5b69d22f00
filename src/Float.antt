-- ===== src/Float.antt =====
-- Go's `float64`, as far as the service uses it (pkg/currency/utils.go,
-- internal/application/verificationservice and internal/infrastructure/rpc).
-- Every finite float64 is mantissa / 2 ^ exponent. Comparison, `math.Round`, `math.Abs` of a
-- difference with an integer and the conversion to int64 are exact on such numbers and are defined
-- here; the operations that round (+, -, *, /) and the texts of strconv and fmt are `FloatOps`, a
-- parameter. NaN and the infinities are left out.
use tucanbit_tvs.Prelude.{
  ℕ, ◌+◌, ◌*◌, ◌/◌, ◌^◌, String, Bool, Option, ◌&&◌, ltb, leb, if◌then◌else◌, ◌-◌,
}
use tucanbit_tvs.Prelude.Int.{
  ℤ, pos, negsuc, pos_part, neg_part, sub_ℕ, leb_ℤ, ltb_ℤ, ◌-ℤ◌, ◌*ℤ◌, two63,
}

pub record Float : Type 0 where
  pub mantissa : ℤ
  pub exponent : ℕ

-- The integers that a float64 holds exactly.
abbrev pub of_int : ℤ → Float
of_int z = record { mantissa = z; exponent = 0 }

abbrev pub denominator : Float → ℕ
denominator x = 2 ^ x.exponent

-- `x <= y`, which is `y >= x`
abbrev pub leb_float : Float → Float → Bool
leb_float x y = leb_ℤ (x.mantissa *ℤ pos (denominator y)) (y.mantissa *ℤ pos (denominator x))

-- `x < y`
abbrev pub ltb_float : Float → Float → Bool
ltb_float x y = ltb_ℤ (x.mantissa *ℤ pos (denominator y)) (y.mantissa *ℤ pos (denominator x))

abbrev pub magnitude : ℤ → ℕ
magnitude z = pos_part z + neg_part z

-- The integer with the sign of the first argument and the given magnitude.
abbrev pub with_sign : ℤ → ℕ → ℤ
with_sign (pos _) n = pos n
with_sign (negsuc _) n = sub_ℕ 0 n

-- `math.Round`: the nearest integer, a half away from zero.
unfoldable pub math_round : Float → ℤ
math_round x =
    with_sign x.mantissa ((2 * magnitude x.mantissa + denominator x) / (2 * denominator x))

-- The numerator, over the denominator of `x`, of |x - z|.
unfoldable pub distance : Float → ℤ → ℕ
distance x z = magnitude (x.mantissa -ℤ z *ℤ pos (denominator x))

-- What the code takes from the machine's floating point and from strconv and fmt.
pub record FloatOps : Type 0 where
  pub add : Float → Float → Float
  pub sub : Float → Float → Float
  pub mul : Float → Float → Float
  pub div : Float → Float → Float
  pub of_int64 : ℤ → Float
  -- `int64(x)` where the truncated value is no int64, which Go leaves to the implementation
  pub out_of_range : Float → ℤ
  -- `strconv.ParseFloat(s, 64)`
  pub parse_float : String → Option Float
  -- `fmt.Sprintf("%.<n>f", x)`
  pub format : ℕ → Float → String
  -- `fmt.Sprintf("%d", n)`
  pub format_int : ℤ → String

abbrev pub in_int64 : ℤ → Bool
in_int64 z = ltb (pos_part z) two63 && leb (neg_part z) two63

-- The integer part of `x`, towards zero.
abbrev pub truncate : Float → ℤ
truncate x = with_sign x.mantissa (magnitude x.mantissa / denominator x)

-- `int64(x)`
unfoldable pub to_int64 : FloatOps → Float → ℤ
to_int64 ops x = if in_int64 (truncate x) then truncate x else ops.out_of_range x

-- `time.Unix(s, 0)` as nanoseconds since the zero time, 62135596800 seconds earlier; before it, 0.
abbrev pub unix_time : ℤ → ℕ
unix_time s = (62135596800 + pos_part s - neg_part s) * 1000000000
