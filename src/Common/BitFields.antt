-- ===== src/Common/BitFields.antt =====
-- `|` of two disjoint bit fields is their sum.
use Prim.Native.Nat.{
  ℕ, zero, suc, ◌+◌, ◌*◌, ◌/◌, ◌%◌, ◌^◌, ◌≤◌, ◌<◌, max, min, bit_or, bit_and, digits,
  bit_or-bitwise, bit_and-bitwise,
}
use mathlib.Core.Path.{◌≡◌, refl, ap}
use native.Mathlib.Nat.{pow-suc}
use native.Mathlib.Omega.{arith}

-- What `bit_or` stands for: the digits of `a` and `b`, with fuel for those of `a`.
abbrev or_digits : ℕ → ℕ → ℕ → ℕ
or_digits fuel a b = digits (λ rest. rest) max fuel a b

-- Fuel beyond `a` makes no difference.
or_digits_fuel : (fuel a b : ℕ) → a ≤ fuel → or_digits fuel a b ≡ or_digits a a b
or_digits_fuel fuel a b h = enough fuel a a b h (omega arith)
  where
    enough : (m n a b : ℕ) → a ≤ m → a ≤ n → or_digits m a b ≡ or_digits n a b
    enough zero n (suc a) b p q = absurd (omega arith)
    enough m zero (suc a) b p q = absurd (omega arith)
    enough zero zero zero b p q = refl
    enough zero (suc n) zero b p q = refl
    enough (suc m) zero zero b p q = refl
    enough (suc m) (suc n) zero b p q = refl
    enough (suc m) (suc n) (suc a) b p q =
        omega (arith, enough m n (suc a / 2) (b / 2) (omega arith) (omega arith))

zero-bit_or : (b : ℕ) → bit_or 0 b ≡ b
zero-bit_or b = bit_or-bitwise 0 b

bit_or_step : (a b : ℕ) → bit_or a b ≡ bit_or (a / 2) (b / 2) * 2 + max (a % 2) (b % 2)
bit_or_step zero b = omega (arith, zero-bit_or b, zero-bit_or (b / 2))
bit_or_step (suc a) b = omega (
  arith,
  bit_or-bitwise (suc a) b,
  bit_or-bitwise (suc a / 2) (b / 2),
  or_digits_fuel a (suc a / 2) (b / 2) (omega arith),
)

bit_or-zero : (bound a : ℕ) → a ≤ bound → bit_or a 0 ≡ a
bit_or-zero bound zero h = refl
bit_or-zero zero (suc a) h = absurd (omega arith)
bit_or-zero (suc bound) (suc a) h =
    omega (arith, bit_or_step (suc a) 0, bit_or-zero bound (suc a / 2) (omega arith))

pub bit_or_fields : (k hi lo : ℕ) → lo < 2 ^ k → bit_or (hi * 2 ^ k) lo ≡ hi * 2 ^ k + lo
bit_or_fields zero hi lo h = ground (arith, bit_or-zero hi hi (omega arith))
bit_or_fields (suc k) hi lo h = ground (
  arith,
  pow-suc 2 k,
  ap (λ (t : ℕ). hi * t) (pow-suc 2 k),
  bit_or_step (hi * 2 ^ suc k) lo,
  bit_or_fields k hi (lo / 2) (omega (arith, pow-suc 2 k)),
)

-- The digits of `bit_and` are below those of its right side.
and_digits_le : (fuel a b : ℕ) → digits (λ rest. zero) min fuel a b ≤ b
and_digits_le zero a b = omega arith
and_digits_le (suc fuel) zero b = omega arith
and_digits_le (suc fuel) (suc a) b = omega (arith, and_digits_le fuel (suc a / 2) (b / 2))

pub bit_and_le : (a b : ℕ) → bit_and a b ≤ b
bit_and_le a b = omega (arith, bit_and-bitwise a b, and_digits_le a a b)

-- The lowest two bits, as digits.
pub bit_and_low : (a : ℕ) → bit_and a 1 ≡ a % 2
bit_and_low zero = bit_and-bitwise 0 1
bit_and_low (suc a) = omega (arith, bit_and-bitwise (suc a) 1, and_digits_le a (suc a / 2) 0)

pub bit_and_second : (a : ℕ) → bit_and a 2 ≡ a / 2 % 2 * 2
bit_and_second zero = bit_and-bitwise 0 2
bit_and_second (suc zero) = bit_and-bitwise 1 2
bit_and_second (suc (suc a)) =
    omega (arith, bit_and-bitwise (suc (suc a)) 2, and_digits (suc (suc a) / 2) (omega arith))
  where
    and_digits : (n : ℕ) → 0 < n → digits (λ rest. zero) min (suc a) n 1 ≡ n % 2
    and_digits zero h = absurd (omega arith)
    and_digits (suc n) h = omega (arith, and_digits_le a (suc n / 2) 0)
