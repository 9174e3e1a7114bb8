-- ===== src/Common/Bytes.antt =====
-- Facts about bytes, checked at every value.
use Prim.Native.Nat.{ℕ, zero, suc, ◌%◌, ◌<◌, bit_and}
use mathlib.Core.Path.{◌≡◌, refl}
use mathlib.Core.Bool.{Bool, true, false}
use native.Mathlib.Decide.{dec_lt}
use native.Mathlib.Omega.{arith}
use esp32_ad_blocker_reborn.Common.Tests.{◌==◌, ==_iff, if◌then◌else◌}

-- Two functions agree at every number below `n`.
unfoldable pub agree_below : (ℕ → ℕ) → (ℕ → ℕ) → ℕ → Bool
agree_below f g zero = true
agree_below f g (suc n) = if agree_below f g n then f n == g n else false

pub agree_below_sound : (f g : ℕ → ℕ) (n x : ℕ) → agree_below f g n ≡ true → x < n → f x ≡ g x
unfolding agree_below
agree_below_sound f g zero x table h = elim h [ ]
agree_below_sound f g (suc n) x table h = elim (dec_lt x n) [
  | yes p ↦ agree_below_sound f g n x (ground arith) p
  | no p ↦ last n (ground arith) x (omega arith)
]
  where
    last : (n : ℕ) → (f n == g n) ≡ true → (x : ℕ) → x ≡ n → f x ≡ g x
    last n e x same = ground (arith, ==_iff (f n) (g n))

pub bit_and_one : (x : ℕ) → x < 256 → bit_and x 1 ≡ x % 2
unfolding agree_below
bit_and_one x h = agree_below_sound (λ x. bit_and x 1) (λ x. x % 2) 256 x refl h
