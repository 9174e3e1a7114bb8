-- ===== src/Table.antt =====
-- main/bl_table.c: the 40-bit bucket-split table, on memory as lists.
-- An array of 5-byte records, or of 3-byte entries, is a list of byte lists. A read beyond the end
-- of a list is a fault.
pub mod Codec
pub mod Search
pub mod Build
pub mod Lookup
pub mod Validate
mod Examples
use esp32_ad_blocker_reborn.Common.{
  ℕ, zero, suc, ◌+◌, ◌-◌, ◌*◌, ◌/◌, ◌%◌, ◌^◌, Bool, true, false, not, ◌&&◌, ◌||◌, Option, none,
  some, List, [], ◌∷◌, compare, Ordering, bit_and, bit_or, bit_xor, ltb, leb, ◌==◌, if◌then◌else◌,
  length, set, u8, u32, u64, ◌<<<◌, ◌>>>◌, Run, done, fault, out_of_fuel, ◌>>=◌, load,
}

abbrev pub bl_hash_bits : ℕ
bl_hash_bits = 40

abbrev pub bl_bucket_bits : ℕ
bl_bucket_bits = 16

abbrev pub bl_bucket_count : ℕ
bl_bucket_count = 2 ^ 16

abbrev pub bl_idx_words : ℕ
bl_idx_words = 2 ^ 16 + 1

-- `memcmp` of two byte strings of one length.
abbrev pub memcmp : List ℕ → List ℕ → Ordering
memcmp (x ∷ xs) (y ∷ ys) = elim (compare x y) [
  | Ordering.lt ↦ Ordering.lt
  | Ordering.gt ↦ Ordering.gt
  | Ordering.eq ↦ memcmp xs ys
]
memcmp _ _ = Ordering.eq

-- k ^= k >> 33 and the two multiplications, on 64 bits.
unfoldable pub fmix64 : ℕ → ℕ
fmix64 k0 =
    let k1 = bit_xor k0 (k0 >>> 33) in
    let k2 = u64 (k1 * 0xff51afd7ed558ccd) in
    let k3 = bit_xor k2 (k2 >>> 33) in
    let k4 = u64 (k3 * 0xc4ceb9fe1a85ec53) in bit_xor k4 (k4 >>> 33)

-- The FNV-1a loop over the bytes of a name.
unfoldable pub fnv1a : ℕ → List ℕ → ℕ
fnv1a h [] = h
fnv1a h (c ∷ cs) = fnv1a (u64 (bit_xor h c * 0x100000001b3)) cs

unfoldable pub bl_hash40 : List ℕ → ℕ
unfolding fmix64 fnv1a
bl_hash40 name = fmix64 (fnv1a 0xcbf29ce484222325 name) >>> (64 - bl_hash_bits)

unfoldable pub bl_rec_put : ℕ → List ℕ
bl_rec_put h40 = u8 (h40 >>> 32) ∷ u8 (h40 >>> 24) ∷ u8 (h40 >>> 16) ∷ u8 (h40 >>> 8) ∷ u8 h40 ∷ []

unfoldable pub bl_rec_get : List ℕ → ℕ
bl_rec_get (b0 ∷ b1 ∷ b2 ∷ b3 ∷ b4 ∷ []) =
    bit_or (b0 <<< 32) (bit_or (b1 <<< 24) (bit_or (b2 <<< 16) (bit_or (b3 <<< 8) b4)))
bl_rec_get _ = 0

-- The binary search that `bl_records_find` and `bl_image_contains` both write out.
pub search : ℕ → List (List ℕ) → List ℕ → ℕ → ℕ → Run (Option ℕ)
search zero recs key lo hi = out_of_fuel
search (suc fuel) recs key lo hi = elim (ltb lo hi) [
  | false ↦ done none
  | true ↦
      let mid = u32 (lo + (hi - lo) / 2) in
      load recs mid >>= λ r. elim (memcmp r key) [
        | Ordering.lt ↦ search fuel recs key (u32 (mid + 1)) hi
        | Ordering.gt ↦ search fuel recs key lo mid
        | Ordering.eq ↦ done (some mid)
      ]
]

-- `none` is the -1 of the source.
unfoldable pub bl_records_find : List (List ℕ) → ℕ → ℕ → Run (Option ℕ)
unfolding search bl_rec_put
bl_records_find recs n h40 = if n == 0 then done none else search (suc n) recs (bl_rec_put h40) 0 n

abbrev pub is_some : Option ℕ → Bool
is_some none = false
is_some (some i) = true

unfoldable pub bl_records_contain : List (List ℕ) → ℕ → ℕ → Run Bool
unfolding bl_records_find
bl_records_contain recs n h40 = bl_records_find recs n h40 >>= λ o. done (is_some o)

-- The live image: the words of the index, and the 3-byte entries behind them.
pub record Image : Type 0 where
  pub idx : List ℕ
  pub ent : List (List ℕ)

-- The 3 stored bytes of a hash.
pub entry : ℕ → List ℕ
entry h = u8 (h >>> 16) ∷ u8 (h >>> 8) ∷ u8 h ∷ []

pub bucket : ℕ → ℕ
bucket h = h >>> (bl_hash_bits - bl_bucket_bits)

-- `idx[cursor++] = v`, as often as there are rounds.
pub fill : ℕ → ℕ → ℕ → List ℕ → List ℕ
fill zero v cursor idx = idx
fill (suc rounds) v cursor idx = fill rounds v (cursor + 1) (set idx cursor v)

-- The pass over the records from `i` on, with the rounds that are left.
pub build_loop : ℕ → ℕ → ℕ → List (List ℕ) → Image → Run (ℕ × Image)
build_loop zero i cursor recs image = done (cursor, image)
build_loop (suc left) i cursor recs image = load recs i >>= λ r.
    let h = bl_rec_get r in
    let b = bucket h in
    build_loop left (i + 1) (if leb cursor b then b + 1 else cursor) recs
      (record { idx = fill (b + 1 - cursor) i cursor image.idx; ent = set image.ent i (entry h) })

unfoldable pub bl_build_image : List (List ℕ) → ℕ → Image → Run Image
unfolding build_loop fill entry bucket bl_rec_get
bl_build_image sorted n image = build_loop n 0 0 sorted image >>= λ (cursor, built).
    done (record built { idx = fill (bl_idx_words - cursor) n cursor built.idx })

unfoldable pub bl_image_count : Image → Run ℕ
bl_image_count image = load image.idx bl_bucket_count

unfoldable pub bl_image_contains : Image → ℕ → Run Bool
unfolding search entry bucket
bl_image_contains image h40 =
    let b = bucket h40 in
    load image.idx b >>= λ lo. load image.idx (b + 1) >>= λ hi.
    search (suc (hi - lo)) image.ent (entry h40) lo hi >>= λ o. done (is_some o)

-- The loop over the buckets from `b` on.
pub valid_loop : ℕ → ℕ → ℕ → List ℕ → Run Bool
valid_loop zero b count idx = done true
valid_loop (suc left) b count idx =
    let rest = valid_loop left (b + 1) count idx in
    load idx b >>= λ lo.
    load idx (b + 1) >>= λ hi. if ltb hi lo || ltb count hi then done false else rest

unfoldable pub bl_image_valid : Image → ℕ → Run Bool
bl_image_valid image count =
    let rest = valid_loop bl_bucket_count 0 count image.idx >>= λ ordered.
    if ordered then (load image.idx bl_bucket_count >>= λ v. done (v == count)) else done false in
    load image.idx 0 >>= λ first. if first == 0 then rest else done false
