-- ===== src/Table/Build.antt =====
-- `bl_build_image`: each index word cuts the records at its bucket, each entry keeps its hash.
use native.Mathlib.Decide.{dec_lt}
use esp32_ad_blocker_reborn.Common.{
  ℕ, zero, suc, ◌+◌, ◌-◌, ◌^◌, ◌≤◌, ◌<◌, ◌≡◌, refl, ◌∙◌, subst, arith, some, List, leb,
  if◌then◌else◌, length, get_elem?, set, length-set, get_elem?-set_self, get_elem?-set_ne, ◌>>=◌,
  load-some, Returns, Returns-bind,
}
use esp32_ad_blocker_reborn.Table.{
  Image, bl_rec_put, bucket, entry, fill, build_loop, bl_build_image, bl_idx_words,
}
use esp32_ad_blocker_reborn.Table.Codec.{bl_rec_get-bl_rec_put}

length-fill : (rounds v c : ℕ) (idx : List ℕ) → length (fill rounds v c idx) ≡ length idx
unfolding fill
length-fill zero v c idx = refl
length-fill (suc rounds) v c idx = length-fill rounds v (c + 1) (set idx c v) ∙ length-set idx c v

fill_below :
    (rounds v c k : ℕ) (idx : List ℕ) → k < c → get_elem? (fill rounds v c idx) k ≡ get_elem? idx k
unfolding fill
fill_below zero v c k idx h = refl
fill_below (suc rounds) v c k idx h =
    fill_below rounds v (c + 1) k (set idx c v) (omega arith)
    ∙ get_elem?-set_ne idx c k v (omega arith)

fill_within :
    (rounds v c k : ℕ) (idx : List ℕ)
    → c ≤ k
    → k < c + rounds
    → k < length idx
    → get_elem? (fill rounds v c idx) k ≡ some v
unfolding fill
fill_within zero v c k idx h h' lt = absurd (omega arith)
fill_within (suc rounds) v c k idx h h' lt = elim (dec_lt c k) [
  | yes p ↦
      fill_within rounds v (c + 1) k (set idx c v) (omega arith) (omega arith)
        (omega (arith, length-set idx c v))
  | no p ↦ at c k (omega arith) lt
]
  where
    at :
        (c k : ℕ)
        → c ≡ k
        → k < length idx
        → get_elem? (fill rounds v (c + 1) (set idx c v)) k ≡ some v
    at c k e lt =
        fill_below rounds v (c + 1) k (set idx c v) (omega arith)
        ∙ rw e (get_elem?-set_self idx k v lt)

-- The first `n` records hold the 40-bit hashes `num 0 ≤ num 1 ≤ …`.
pub record IsTable (recs : List (List ℕ)) (n : ℕ) (num : ℕ → ℕ) : Type 0 where
  pub stored : (j : ℕ) → j < n → get_elem? recs j ≡ some (bl_rec_put (num j))
  pub small : (j : ℕ) → j < n → num j < 2 ^ 40
  pub ascending : (i j : ℕ) → i ≤ j → j < n → num i ≤ num j
  pub fits : n < 2 ^ 32

-- `v` is the number of records whose bucket is below `k`: they stand in front.
abbrev pub Cuts : (ℕ → ℕ) → ℕ → ℕ → ℕ → Type 0
Cuts num n k v =
    (v ≤ n)
    × ((j : ℕ) → j < v → bucket (num j) < k)
    × ((j : ℕ) → v ≤ j → j < n → k ≤ bucket (num j))

-- What holds before record `i`, with the index words below the cursor written.
record IsPartial (num : ℕ → ℕ) (n i cursor : ℕ) (image : Image) : Type 0 where
  words : length image.idx ≡ bl_idx_words
  room : n ≤ length image.ent
  cursor_small : cursor ≤ 2 ^ 16
  passed : (j : ℕ) → j < i → bucket (num j) < cursor
  cuts : (k : ℕ) → k < cursor → (v : ℕ) × (get_elem? image.idx k ≡ some v) × Cuts num n k v
  entries : (j : ℕ) → j < i → get_elem? image.ent j ≡ some (entry (num j))

pub bucket_mono : (a b : ℕ) → a ≤ b → bucket a ≤ bucket b
unfolding bucket
bucket_mono a b h = omega arith

pub bucket-lt : (a : ℕ) → a < 2 ^ 40 → bucket a < 2 ^ 16
unfolding bucket
bucket-lt a h = omega arith

module _ (recs : List (List ℕ)) (num : ℕ → ℕ) (n : ℕ) (table : IsTable recs n num) where
  -- A word written at record `i` cuts there, if every earlier bucket is below it.
  Cuts-here :
      (i cursor k : ℕ)
      → i ≤ n
      → cursor ≤ k
      → ((j : ℕ) → j < i → bucket (num j) < cursor)
      → ((j : ℕ) → i ≤ j → j < n → k ≤ bucket (num j))
      → Cuts num n k i
  Cuts-here i cursor k p q before after = (p, λ j h. omega (arith, before j h), after)

  -- The words that `fill` writes, beside those that it keeps.
  fill-Cuts :
      (i cursor top : ℕ) (idx : List ℕ)
      → i ≤ n
      → top ≤ length idx
      → ((j : ℕ) → j < i → bucket (num j) < cursor)
      → ((k j : ℕ) → k < top → i ≤ j → j < n → k ≤ bucket (num j))
      → ((k : ℕ) → k < cursor → (v : ℕ) × (get_elem? idx k ≡ some v) × Cuts num n k v)
      → (k : ℕ) → k < cursor + (top - cursor)
      → (v : ℕ) × (get_elem? (fill (top - cursor) i cursor idx) k ≡ some v) × Cuts num n k v
  fill-Cuts i cursor top idx p room before after old k h = elim (dec_lt k cursor) [
    | yes q ↦ let (v, e, c) = old k q in (v, fill_below (top - cursor) i cursor k idx q ∙ e, c)
    | no q ↦ (
      i,
      fill_within (top - cursor) i cursor k idx (omega arith) h (omega arith),
      Cuts-here i cursor k p (omega arith) before (λ j a b. after k j (omega arith) a b),
    )
  ]

  after_record :
      (i : ℕ) → i < n → (k j : ℕ) → k < bucket (num i) + 1 → i ≤ j → j < n → k ≤ bucket (num j)
  after_record i lt k j h a b = omega (arith, bucket_mono (num i) (num j) (table.ascending i j a b))

  -- One record keeps the invariant.
  IsPartial-next :
      (i cursor : ℕ) (image : Image)
      → i < n
      → IsPartial num n i cursor image
      → let b = bucket (num i) in
        IsPartial num n (i + 1) (if leb cursor b then b + 1 else cursor) (record {
          idx = fill (b + 1 - cursor) i cursor image.idx;
          ent = set image.ent i (entry (num i));
        })
  IsPartial-next i cursor image lt inv = record {
    words = length-fill (b + 1 - cursor) i cursor image.idx ∙ inv.words;
    room = omega (arith, inv.room, length-set image.ent i (entry (num i)));
    cursor_small = ground (arith, inv.cursor_small, bucket-lt (num i) (table.small i lt));
    passed = λ j h. elim (dec_lt j i) [
      | yes q ↦ ground (arith, inv.passed j q)
      | no q ↦ here j (omega arith)
    ];
    cuts = λ k h.
        fill-Cuts i cursor (b + 1) image.idx (omega arith)
          (omega (arith, inv.words, bucket-lt (num i) (table.small i lt))) inv.passed
          (after_record i lt) inv.cuts k (ground (arith, h));
    entries = λ j h. elim (dec_lt j i) [
      | yes q ↦ get_elem?-set_ne image.ent i j (entry (num i)) (omega arith) ∙ inv.entries j q
      | no q ↦ stored_here j (omega arith)
    ];
  }
    where
      b : ℕ
      b = bucket (num i)

      here : (j : ℕ) → j ≡ i → bucket (num j) < (if leb cursor b then b + 1 else cursor)
      here j e = rw e (ground arith)

      stored_here :
          (j : ℕ) → j ≡ i → get_elem? (set image.ent i (entry (num i))) j ≡ some (entry (num j))
      stored_here j e =
          rw e (get_elem?-set_self image.ent i (entry (num i)) (omega (arith, inv.room)))

  build_loop-IsPartial :
      (left i cursor : ℕ) (image : Image)
      → i + left ≡ n
      → IsPartial num n i cursor image
      → Returns (build_loop left i cursor recs image) (λ r. IsPartial num n n r.0 r.1)
  unfolding build_loop
  build_loop-IsPartial zero i cursor image e inv =
      let same : i ≡ n = omega arith in subst (λ (m : ℕ). IsPartial num n m cursor image) same inv
  build_loop-IsPartial (suc left) i cursor image e inv =
      let lt : i < n = omega arith in
      rw
        (
          build_loop,
          load-some recs i (table.stored i lt),
          ◌>>=◌,
          bl_rec_get-bl_rec_put (num i) (table.small i lt),
        )
        (build_loop-IsPartial left (i + 1) _ _ (omega arith) (IsPartial-next i cursor image lt inv))

-- A finished image: every index word cuts, and every entry holds the low bytes of its hash.
pub record IsBuilt (num : ℕ → ℕ) (n : ℕ) (image : Image) : Type 0 where
  pub room : n ≤ length image.ent
  pub cuts :
      (k : ℕ) → k < bl_idx_words → (v : ℕ) × (get_elem? image.idx k ≡ some v) × Cuts num n k v
  pub entries : (j : ℕ) → j < n → get_elem? image.ent j ≡ some (entry (num j))

IsPartial-empty :
    (num : ℕ → ℕ) (n : ℕ) (image : Image)
    → length image.idx ≡ bl_idx_words
    → n ≤ length image.ent
    → IsPartial num n 0 0 image
IsPartial-empty num n image words room = record {
  words = words;
  room = room;
  cursor_small = omega arith;
  passed = λ j h. absurd (omega arith);
  cuts = λ k h. absurd (omega arith);
  entries = λ j h. absurd (omega arith);
}

-- The build returns: it reads no record beyond the `n` that it is given.
pub bl_build_image-IsBuilt :
    (recs : List (List ℕ)) (num : ℕ → ℕ) (n : ℕ) (image : Image)
    → IsTable recs n num
    → length image.idx ≡ bl_idx_words
    → n ≤ length image.ent
    → Returns (bl_build_image recs n image) (IsBuilt num n)
unfolding bl_build_image
bl_build_image-IsBuilt recs num n image table words room =
    Returns-bind (build_loop n 0 0 recs image) _ (IsBuilt num n)
      (build_loop-IsPartial recs num n table n 0 0 image (omega arith)
        (IsPartial-empty num n image words room))
      (λ r inv. finish r.0 r.1 inv)
  where
    finish :
        (cursor : ℕ) (built : Image)
        → IsPartial num n n cursor built
        → IsBuilt num n (record built { idx = fill (bl_idx_words - cursor) n cursor built.idx })
    finish cursor built inv = record {
      room = inv.room;
      cuts = λ k h.
          fill-Cuts recs num n table n cursor bl_idx_words built.idx (omega arith)
            (omega (arith, inv.words)) inv.passed (λ k j a b c. absurd (omega arith)) inv.cuts k
            (omega (arith, inv.cursor_small));
      entries = inv.entries;
    }
