-- ===== src/Common/Bits.antt =====
-- `|` and `&` of disjoint fields and low masks as arithmetic.
use Prim.Native.Nat.{
  ℕ, zero, suc, ◌+◌, ◌-◌, ◌*◌, ◌/◌, ◌%◌, ◌^◌, ◌≤◌, ◌<◌, min, max, bit_and, bit_or, digits,
  bit_and-bitwise, bit_or-bitwise,
}
use mathlib.Core.Path.{◌≡◌, refl, sym, ap, ◌∙◌}
use native.Mathlib.Nat.{pow-suc, one-le-pow}
use native.Mathlib.Omega.{arith}

module _ (rest : ℕ → ℕ) (op : ℕ → ℕ → ℕ) where
  -- Any two counts of rounds that are enough for the first operand give the same.
  digits_of_enough : (r r' x y : ℕ) → x ≤ min r r' → digits rest op r x y ≡ digits rest op r' x y
  digits_of_enough r r' zero y h = of_zero r ∙ sym (of_zero r')
    where
      of_zero : (n : ℕ) → digits rest op n 0 y ≡ rest y
      of_zero zero = refl
      of_zero (suc n) = refl
  digits_of_enough zero r' (suc x) y h = absurd (omega arith)
  digits_of_enough (suc r) zero (suc x) y h = absurd (omega arith)
  digits_of_enough (suc r) (suc r') (suc x) y h =
      omega (arith, digits_of_enough r r' (suc x / 2) (y / 2) (omega arith))

  -- One digit of a number that is not zero.
  digits_step :
      (x y : ℕ)
      → digits rest op (suc x) (suc x) y
        ≡ digits rest op (suc x / 2) (suc x / 2) (y / 2) * 2 + op (suc x % 2) (y % 2)
  digits_step x y = omega (arith, digits_of_enough x (suc x / 2) (suc x / 2) (y / 2) (omega arith))

pub zero-bit_or : (y : ℕ) → bit_or 0 y ≡ y
zero-bit_or y = bit_or-bitwise 0 y

pub zero-bit_and : (y : ℕ) → bit_and 0 y ≡ 0
zero-bit_and y = bit_and-bitwise 0 y

pub bit_or_step : (x y : ℕ) → bit_or x y ≡ bit_or (x / 2) (y / 2) * 2 + max (x % 2) (y % 2)
bit_or_step zero y = omega (zero-bit_or (y / 2), arith, zero-bit_or y)
bit_or_step (suc x) y = omega (
  digits_step (λ d. d) max x y,
  bit_or-bitwise (suc x / 2) (y / 2),
  bit_or-bitwise (suc x) y,
  arith,
)

pub bit_and_step : (x y : ℕ) → bit_and x y ≡ bit_and (x / 2) (y / 2) * 2 + min (x % 2) (y % 2)
bit_and_step zero y = omega (zero-bit_and (y / 2), arith, zero-bit_and y)
bit_and_step (suc x) y = omega (
  digits_step (λ d. 0) min x y,
  bit_and-bitwise (suc x / 2) (y / 2),
  bit_and-bitwise (suc x) y,
  arith,
)

-- Zero as the second operand; the first is halved at most `n` times.
bit_or-zero_within : (n x : ℕ) → x ≤ n → bit_or x 0 ≡ x
bit_or-zero_within zero zero h = zero-bit_or 0
bit_or-zero_within zero (suc x) h = absurd (omega arith)
bit_or-zero_within (suc n) zero h = zero-bit_or 0
bit_or-zero_within (suc n) (suc x) h =
    omega (bit_or-zero_within n (suc x / 2) (omega arith), bit_or_step (suc x) 0, arith)

bit_and-zero_within : (n x : ℕ) → x ≤ n → bit_and x 0 ≡ 0
bit_and-zero_within zero zero h = zero-bit_and 0
bit_and-zero_within zero (suc x) h = absurd (omega arith)
bit_and-zero_within (suc n) zero h = zero-bit_and 0
bit_and-zero_within (suc n) (suc x) h =
    omega (bit_and-zero_within n (suc x / 2) (omega arith), bit_and_step (suc x) 0, arith)

two_times_shifted : (high k : ℕ) → high * 2 ^ suc k ≡ 2 * (high * 2 ^ k)
two_times_shifted high k = omega (ap (λ (power : ℕ). high * power) (pow-suc 2 k), arith)

-- `(high << k) | low` adds, when `low` fits in `k` bits.
pub bit_or_fields : (k high low : ℕ) → low < 2 ^ k → bit_or (high * 2 ^ k) low ≡ high * 2 ^ k + low
bit_or_fields zero high low fits = ground (bit_or-zero_within high high, arith)
bit_or_fields (suc k) high low fits =
    let halves = bit_or_fields k high (low / 2) (omega arith) in
    ground (halves, two_times_shifted high k, bit_or_step (high * 2 ^ suc k) low, arith)

-- `((high << k) + low) & ((1 << k) - 1)` is `low`.
low_mask : (k high low : ℕ) → low < 2 ^ k → bit_and (high * 2 ^ k + low) (2 ^ k - 1) ≡ low
low_mask zero high low fits =
    ground (bit_and-zero_within (high * 2 ^ 0 + low) (high * 2 ^ 0 + low), arith)
low_mask (suc k) high low fits =
    let halves = low_mask k high (low / 2) (omega arith) in
    ground (
      halves,
      two_times_shifted high k,
      pow-suc 2 k,
      one-le-pow k 2,
      bit_and_step (high * 2 ^ suc k + low) (2 ^ suc k - 1),
      arith,
    )

-- A mask of `k` low ones takes the remainder.
pub bit_and_mask : (k x : ℕ) → bit_and x (2 ^ k - 1) ≡ x % 2 ^ k
bit_and_mask k x = ground (low_mask k (x / 2 ^ k) (x % 2 ^ k), one-le-pow k 2, arith)
