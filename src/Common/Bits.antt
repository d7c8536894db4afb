-- ===== src/Common/Bits.antt =====
-- Single bits of `bit_and` and `bit_or`, at variables.
use Prim.Native.Nat.{
  ℕ, zero, suc, ◌+◌, ◌*◌, ◌/◌, ◌%◌, ◌≤◌, min, max, bit_and, bit_or, digits, bit_and-bitwise,
  bit_or-bitwise,
}
use mathlib.Core.Path.{◌≡◌, refl, ap, ◌∙◌}
use mathlib.Core.Bool.{Bool, false, ◌&&◌, ◌||◌}
use native.Mathlib.Omega.{arith}
use galaxy_s9plus_mainline_l.Common.Tests.{◌==◌}

-- Bit `k` of a number.
abbrev pub has : ℕ → ℕ → Bool
has zero v = v % 2 == 1
has (suc k) v = has k (v / 2)

has-zero : (k : ℕ) → has k 0 ≡ false
has-zero zero = refl
has-zero (suc k) = has-zero k

both_zero : (k b : ℕ) → has k 0 ≡ has k 0 && has k b
both_zero k b = rw (has-zero k) refl

either_zero : (k b : ℕ) → has k b ≡ has k 0 || has k b
either_zero k b = rw (has-zero k) refl

-- The lowest digit of a number that is built from one, and the rest.
low_and : (d x y : ℕ) → ((d * 2 + min (x % 2) (y % 2)) % 2 == 1) ≡ ((x % 2 == 1) && (y % 2 == 1))
low_and d x y = ground arith

low_or : (d x y : ℕ) → ((d * 2 + max (x % 2) (y % 2)) % 2 == 1) ≡ ((x % 2 == 1) || (y % 2 == 1))
low_or d x y = ground arith

has-and_digits : (k n a b : ℕ) → a ≤ n → has k (digits (λ b. zero) min n a b) ≡ has k a && has k b
has-and_digits k zero zero b h = both_zero k b
has-and_digits k zero (suc a) b h = absurd (omega arith)
has-and_digits k (suc n) zero b h = both_zero k b
has-and_digits zero (suc n) (suc a) b h =
    low_and (digits (λ b. zero) min n (suc a / 2) (b / 2)) (suc a) b
has-and_digits (suc k) (suc n) (suc a) b h =
    let d = digits (λ b. zero) min n (suc a / 2) (b / 2) in
    let e : (d * 2 + min (suc a % 2) (b % 2)) / 2 ≡ d = omega arith in
    ap (has k) e ∙ has-and_digits k n (suc a / 2) (b / 2) (omega arith)

has-or_digits : (k n a b : ℕ) → a ≤ n → has k (digits (λ b. b) max n a b) ≡ has k a || has k b
has-or_digits k zero zero b h = either_zero k b
has-or_digits k zero (suc a) b h = absurd (omega arith)
has-or_digits k (suc n) zero b h = either_zero k b
has-or_digits zero (suc n) (suc a) b h =
    low_or (digits (λ b. b) max n (suc a / 2) (b / 2)) (suc a) b
has-or_digits (suc k) (suc n) (suc a) b h =
    let d = digits (λ b. b) max n (suc a / 2) (b / 2) in
    let e : (d * 2 + max (suc a % 2) (b % 2)) / 2 ≡ d = omega arith in
    ap (has k) e ∙ has-or_digits k n (suc a / 2) (b / 2) (omega arith)

pub has-bit_and : (k a b : ℕ) → has k (bit_and a b) ≡ has k a && has k b
has-bit_and k a b = ap (has k) (bit_and-bitwise a b) ∙ has-and_digits k a a b (omega arith)

pub has-bit_or : (k a b : ℕ) → has k (bit_or a b) ≡ has k a || has k b
has-bit_or k a b = ap (has k) (bit_or-bitwise a b) ∙ has-or_digits k a a b (omega arith)
