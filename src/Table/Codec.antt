-- ===== src/Table/Codec.antt =====
-- The 5-byte records and 3-byte entries: round trip, and `memcmp` as the order of the numbers.
use native.Mathlib.Decide.{dec_lt}
use esp32_ad_blocker_reborn.Common.{
  ℕ, ◌+◌, ◌*◌, ◌/◌, ◌%◌, ◌^◌, ◌<◌, ◌≡◌, arith, ◌∙◌, ap₂, List, [], ◌∷◌, compare, bit_or_fields, u8,
  ◌>>>◌, compare_lt, compare_gt, compare_self,
}
use esp32_ad_blocker_reborn.Table.{memcmp, bl_rec_put, bl_rec_get, entry}

-- Reading a record back gives the hash that was stored, for every 40-bit hash.
pub bl_rec_get-bl_rec_put : (h : ℕ) → h < 2 ^ 40 → bl_rec_get (bl_rec_put h) ≡ h
unfolding bl_rec_get bl_rec_put
bl_rec_get-bl_rec_put h small = ground (
  arith,
  bit_or_fields 8 (h / 2 ^ 8 % 256) (h % 256),
  bit_or_fields 16 (h / 2 ^ 16 % 256) (h % 2 ^ 16),
  bit_or_fields 24 (h / 2 ^ 24 % 256) (h % 2 ^ 24),
  bit_or_fields 32 (h / 2 ^ 32 % 256) (h % 2 ^ 32),
)

-- `memcmp` where the first bytes are the high digits of two numbers in base `w`.
memcmp_digit :
    (w x y x' y' : ℕ) (xs ys : List ℕ)
    → x' < w
    → y' < w
    → memcmp xs ys ≡ compare x' y'
    → memcmp (x ∷ xs) (y ∷ ys) ≡ compare (x * w + x') (y * w + y')
memcmp_digit w x y x' y' xs ys hx hy h = elim (dec_lt x y) [
  | yes p ↦ rw (memcmp, compare_lt x y p, compare_lt (x * w + x') (y * w + y') (grind arith))
  | no p ↦ elim (dec_lt y x) [
    | yes q ↦ rw (memcmp, compare_gt x y q, compare_gt (x * w + x') (y * w + y') (grind arith))
    | no q ↦ same x y (omega arith)
  ]
]
  where
    same : (x y : ℕ) → x ≡ y → memcmp (x ∷ xs) (y ∷ ys) ≡ compare (x * w + x') (y * w + y')
    same x y e = rw (e, memcmp, compare_self y) (h ∙ shift (y * w) x' y')
      where
        shift : (k m n : ℕ) → compare m n ≡ compare (k + m) (k + n)
        shift k m n = ground arith

-- The bytes of a number below 2 ^ 24 and of one below 2 ^ 40, as digits in base 256.
abbrev three : ℕ → ℕ → ℕ → ℕ
three b2 b1 b0 = b2 * 2 ^ 16 + (b1 * 2 ^ 8 + b0)

memcmp-three :
    (x2 x1 x0 y2 y1 y0 : ℕ)
    → x1 < 256
    → x0 < 256
    → y1 < 256
    → y0 < 256
    → memcmp (x2 ∷ x1 ∷ x0 ∷ []) (y2 ∷ y1 ∷ y0 ∷ []) ≡ compare (three x2 x1 x0) (three y2 y1 y0)
memcmp-three x2 x1 x0 y2 y1 y0 hx1 hx0 hy1 hy0 =
    memcmp_digit (2 ^ 16) x2 y2 (x1 * 2 ^ 8 + x0) (y1 * 2 ^ 8 + y0) (x1 ∷ x0 ∷ []) (y1 ∷ y0 ∷ [])
      (omega arith) (omega arith)
      (memcmp_digit (2 ^ 8) x1 y1 x0 y0 (x0 ∷ []) (y0 ∷ []) hx0 hy0 (last x0 y0))
  where
    last : (x y : ℕ) → memcmp (x ∷ []) (y ∷ []) ≡ compare x y
    last x y = ground arith

-- The order of two entries is that of the 24 low bits of the hashes.
pub memcmp-entry : (a b : ℕ) → memcmp (entry a) (entry b) ≡ compare (a % 2 ^ 24) (b % 2 ^ 24)
unfolding entry
memcmp-entry a b =
    rw (low a, low b)
      (memcmp-three (u8 (a >>> 16)) (u8 (a >>> 8)) (u8 a) (u8 (b >>> 16)) (u8 (b >>> 8)) (u8 b)
        (omega arith) (omega arith) (omega arith) (omega arith))
  where
    low : (a : ℕ) → a % 2 ^ 24 ≡ three (u8 (a >>> 16)) (u8 (a >>> 8)) (u8 a)
    low a = omega arith

-- The order of two records is that of the hashes.
pub memcmp-bl_rec_put :
    (a b : ℕ) → a < 2 ^ 40 → b < 2 ^ 40 → memcmp (bl_rec_put a) (bl_rec_put b) ≡ compare a b
unfolding bl_rec_put entry
memcmp-bl_rec_put a b ha hb =
    memcmp_digit (2 ^ 32) (u8 (a >>> 32)) (u8 (b >>> 32)) (a % 2 ^ 32) (b % 2 ^ 32)
      (u8 (a >>> 24) ∷ entry a) (u8 (b >>> 24) ∷ entry b) (omega arith) (omega arith)
      (memcmp_digit (2 ^ 24) (u8 (a >>> 24)) (u8 (b >>> 24)) (a % 2 ^ 24) (b % 2 ^ 24) (entry a)
          (entry b) (omega arith) (omega arith) (memcmp-entry a b)
        ∙ ap₂ compare (top24 a) (top24 b))
    ∙ ap₂ compare (top32 a ha) (top32 b hb)
  where
    top24 : (a : ℕ) → u8 (a >>> 24) * 2 ^ 24 + a % 2 ^ 24 ≡ a % 2 ^ 32
    top24 a = omega arith

    top32 : (a : ℕ) → a < 2 ^ 40 → u8 (a >>> 32) * 2 ^ 32 + a % 2 ^ 32 ≡ a
    top32 a h = omega arith
