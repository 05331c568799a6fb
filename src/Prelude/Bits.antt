-- ===== src/Prelude/Bits.antt =====
-- `|` of disjoint fields as a sum and `&` with a mask of low ones as a remainder, at every width;
-- both from the digit recursion behind the native operations.
use Prim.Native.Nat.{
  ℕ, zero, suc, ◌+◌, ◌*◌, ◌/◌, ◌%◌, ◌^◌, ◌≤◌, ◌<◌, min, max, bit_and, bit_or, ◌-◌,
}
use Prim.Native.Nat.{digits, bit_and-bitwise, bit_or-bitwise}
use mathlib.Core.Path.{◌≡◌, refl, ap, sym, ◌∙◌}
use native.Mathlib.Nat.{pow-suc, one-le-pow}
use native.Mathlib.Omega.{arith}

module _ (z : ℕ → ℕ) (f : ℕ → ℕ → ℕ) where
  no_digits : (s y : ℕ) → digits z f s 0 y ≡ z y
  no_digits zero y = refl
  no_digits (suc s) y = refl

  -- The fuel of `digits` does not matter from the first operand on.
  spare_fuel : (x y s t : ℕ) → x ≤ s → x ≤ t → digits z f s x y ≡ digits z f t x y
  spare_fuel zero y s t hs ht = no_digits s y ∙ sym (no_digits t y)
  spare_fuel (suc x) y zero t hs ht = absurd (omega arith)
  spare_fuel (suc x) y (suc s) zero hs ht = absurd (omega arith)
  spare_fuel (suc x) y (suc s) (suc t) hs ht =
      omega (arith, spare_fuel (suc x / 2) (y / 2) s t (omega arith) (omega arith))

  -- One digit of a native operation.
  module _ (op : ℕ → ℕ → ℕ) (law : (x y : ℕ) → op x y ≡ digits z f x x y)
      (none_left : (y : ℕ) → z y ≡ z (y / 2) * 2 + f 0 (y % 2)) where
    op_digit : (x y : ℕ) → op x y ≡ op (x / 2) (y / 2) * 2 + f (x % 2) (y % 2)
    op_digit zero y = omega (arith, law 0 y, law 0 (y / 2), none_left y)
    op_digit (suc x) y = omega (
      arith,
      law (suc x) y,
      law (suc x / 2) (y / 2),
      spare_fuel (suc x / 2) (y / 2) x (suc x / 2) (omega arith) (omega arith),
    )

zero-bit_or : (y : ℕ) → bit_or 0 y ≡ y
zero-bit_or = bit_or-bitwise 0

zero-bit_and : (y : ℕ) → bit_and 0 y ≡ 0
zero-bit_and = bit_and-bitwise 0

pub bit_or_digit : (x y : ℕ) → bit_or x y ≡ bit_or (x / 2) (y / 2) * 2 + max (x % 2) (y % 2)
bit_or_digit = op_digit (λ y. y) max bit_or bit_or-bitwise (λ y. omega arith)

pub bit_and_digit : (x y : ℕ) → bit_and x y ≡ bit_and (x / 2) (y / 2) * 2 + min (x % 2) (y % 2)
bit_and_digit = op_digit (λ y. 0) min bit_and bit_and-bitwise (λ y. omega arith)

bit_or-zero_below : (n a : ℕ) → a ≤ n → bit_or a 0 ≡ a
bit_or-zero_below zero a h = ground (arith, zero-bit_or 0)
bit_or-zero_below (suc n) a h =
    ground (arith, bit_or_digit a 0, zero-bit_or 0, bit_or-zero_below n (a / 2))

pub bit_or-zero : (a : ℕ) → bit_or a 0 ≡ a
bit_or-zero a = bit_or-zero_below a a (omega arith)

bit_and-zero_below : (n a : ℕ) → a ≤ n → bit_and a 0 ≡ 0
bit_and-zero_below zero a h = ground (arith, zero-bit_and 0)
bit_and-zero_below (suc n) a h =
    ground (arith, bit_and_digit a 0, zero-bit_and 0, bit_and-zero_below n (a / 2))

mod_twice : (a m : ℕ) → 0 < m → a / 2 % m * 2 + a % 2 ≡ a % (m * 2)
mod_twice a m h = grind arith

-- `a & (2^k - 1)`
pub bit_and_low : (k a : ℕ) → bit_and a (2 ^ k - 1) ≡ a % 2 ^ k
bit_and_low zero a = omega (arith, bit_and-zero_below a a (omega arith))
bit_and_low (suc k) a = rw (pow-suc 2 k) (
    ground (
      arith,
      one-le-pow k 2,
      bit_and_digit a (2 ^ k * 2 - 1),
      bit_and_low k (a / 2),
      mod_twice a (2 ^ k),
    ))

shift_suc : (a k : ℕ) → a * 2 ^ suc k ≡ 2 * (a * 2 ^ k)
shift_suc a k = omega (arith, ap (λ (t : ℕ). a * t) (pow-suc 2 k))

-- `(a << k) | b` where `b` has at most `k` bits.
pub bit_or-high : (k a b : ℕ) → b < 2 ^ k → bit_or (a * 2 ^ k) b ≡ a * 2 ^ k + b
bit_or-high zero a b h = ground (arith, bit_or-zero a)
bit_or-high (suc k) a b h =
    ground
      (arith, bit_or_digit (a * 2 ^ suc k) b, shift_suc a k, pow-suc 2 k, bit_or-high k a (b / 2))

-- `b | (a << k)` where `b` has at most `k` bits.
pub bit_or-low : (k a b : ℕ) → b < 2 ^ k → bit_or b (a * 2 ^ k) ≡ b + a * 2 ^ k
bit_or-low zero a b h = ground (arith, zero-bit_or a)
bit_or-low (suc k) a b h =
    ground
      (arith, bit_or_digit b (a * 2 ^ suc k), shift_suc a k, pow-suc 2 k, bit_or-low k a (b / 2))
