-- ===== src/Exchange/Backoff.antt =====
-- The delays between the calls to the exchange, of `calculateBackoff` in
-- internal/infrastructure/clients/exchange_client.go.
use tucanbit_tvs.Exchange.{
  calculate_backoff, base_or_two, second, ℕ, pos, ◌*◌, ℤ, if◌then◌else◌, ltb_ℤ, wrap64,
}
use tucanbit_tvs.Prelude.Int.{◌≤ℤ◌, wrap64_id}
use tucanbit_tvs.Prelude.{arith, ◌≤◌, ◌≡◌, ◌↔◌, refl, zero, suc, ◌+◌, ◌/◌, ◌%◌, sym, ap}
use Prim.Native.Nat.{bit_xor, digits, differ, bit_xor-bitwise}

-- The binary digits of the exclusive or, the recursion that the native operation stands for.
abbrev xor_digits : ℕ → ℕ → ℕ → ℕ
xor_digits n a b = digits (λ b. b) differ n a b

differ_le : (x y : ℕ) → differ x y ≤ x + y
differ_le zero y = omega arith
differ_le (suc x) zero = omega arith
differ_le (suc x) (suc y) = omega (arith, differ_le x y)

differ_self : (x : ℕ) → differ x x ≡ 0
differ_self zero = refl
differ_self (suc x) = differ_self x

differ_zero : (x y : ℕ) → differ x y ≡ 0 → x ≡ y
differ_zero zero y h = sym h
differ_zero (suc x) zero h = absurd (omega (arith, h))
differ_zero (suc x) (suc y) h = ap suc (differ_zero x y h)

xor_digits_le : (n a b : ℕ) → xor_digits n a b ≤ a + b
xor_digits_le zero a b = omega arith
xor_digits_le (suc n) zero b = omega arith
xor_digits_le (suc n) (suc a) b =
    omega (arith, xor_digits_le n (suc a / 2) (b / 2), differ_le (suc a % 2) (b % 2))

xor_digits_self : (n a : ℕ) → a ≤ n → xor_digits n a a ≡ 0
xor_digits_self zero a h = omega (arith, h)
xor_digits_self (suc n) zero h = refl
xor_digits_self (suc n) (suc a) h =
    omega (arith, xor_digits_self n (suc a / 2) (omega (arith, h)), differ_self (suc a % 2))

xor_digits_zero : (n a b : ℕ) → a ≤ n → xor_digits n a b ≡ 0 → a ≡ b
xor_digits_zero zero a b h e = omega (arith, h, e)
xor_digits_zero (suc n) zero b h e = sym e
xor_digits_zero (suc n) (suc a) b h e = omega (
  arith,
  xor_digits_zero n (suc a / 2) (b / 2) (omega (arith, h)) (omega (arith, e)),
  differ_zero (suc a % 2) (b % 2) (omega (arith, e)),
)

xor_le : (a b : ℕ) → bit_xor a b ≤ a + b
xor_le a b = omega (arith, bit_xor-bitwise a b, xor_digits_le a a b)

xor_self : (a : ℕ) → bit_xor a a ≡ 0
xor_self a = omega (arith, bit_xor-bitwise a a, xor_digits_self a a (omega arith))

xor_zero : (a b : ℕ) → bit_xor a b ≡ 0 → a ≡ b
xor_zero a b e = xor_digits_zero a a b (omega arith) (omega (arith, bit_xor-bitwise a b, e))

-- The delay of a number of seconds whose nanoseconds fit in an int64.
delay_of : ℕ → ℤ
delay_of x =
    let backoff = wrap64 (pos (x * second)) in
    if ltb_ℤ (pos (30 * second)) backoff then pos (30 * second) else backoff

-- The same without a wrap.
exact_delay : ℕ → ℤ
exact_delay x =
    if ltb_ℤ (pos (30 * second)) (pos (x * second)) then pos (30 * second) else pos (x * second)

delay_of-exact : (x : ℕ) → x ≤ 9000000000 → delay_of x ≡ exact_delay x
unfolding delay_of exact_delay
delay_of-exact x h = rw (wrap64_id (pos (x * second)) (omega (arith, h), omega arith)) refl

exact_delay_range :
    (x : ℕ)
    → (pos 0 ≤ℤ exact_delay x)
      × (exact_delay x ≤ℤ pos (30 * second))
      × ((exact_delay x ≡ pos 0) ↔ (x ≡ 0))
unfolding exact_delay
exact_delay_range x = (ground arith, ground arith, (λ e. ground arith, λ e. rw e refl))

delay_range :
    (x : ℕ)
    → x ≤ 9000000000
    → (pos 0 ≤ℤ delay_of x) × (delay_of x ≤ℤ pos (30 * second)) × ((delay_of x ≡ pos 0) ↔ (x ≡ 0))
delay_range x h = rw (delay_of-exact x h) (exact_delay_range x)

-- While the base and the number of the attempt are below nine thousand millions together, the delay
-- is not negative and at most 30 seconds, and the retry is made without any delay exactly if its
-- number is the base, 2 standing for a base that is not positive.
pub calculate_backoff-range :
    (attempt : ℕ) (base : ℤ)
    → base_or_two base + attempt ≤ 9000000000
    → (pos 0 ≤ℤ calculate_backoff attempt base)
      × (calculate_backoff attempt base ≤ℤ pos (30 * second))
      × ((calculate_backoff attempt base ≡ pos 0) ↔ (base_or_two base ≡ attempt))
unfolding calculate_backoff delay_of
calculate_backoff-range attempt base h =
    let (lo, hi, at_zero) =
      delay_range (bit_xor (base_or_two base) attempt)
        (omega (arith, xor_le (base_or_two base) attempt, h)) in
    (
      lo,
      hi,
      (
        λ e. xor_zero (base_or_two base) attempt (at_zero.0 e),
        λ e. at_zero.1 (rw e (xor_self attempt)),
      ),
    )
