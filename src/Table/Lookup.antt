-- ===== src/Table/Lookup.antt =====
-- `bl_image_contains`: a built image answers for exactly the hashes that it was built from, and a
-- validated image is never read out of bounds.
use native.Mathlib.Decide.{dec_le, dec_lt}
use esp32_ad_blocker_reborn.Common.{
  ℕ, zero, suc, ◌+◌, ◌-◌, ◌%◌, ◌^◌, ◌≤◌, ◌<◌, ◌≡◌, ◌↔◌, refl, sym, ◌∙◌, ap, subst, arith, true,
  false, Option, none, some, List, ◌==◌, length, get_elem?_lt, some_inj, ◌>>=◌, load-some, compare,
  Returns, Returns-bind,
}
use esp32_ad_blocker_reborn.Table.{
  Image, memcmp, bucket, entry, search, is_some, bl_records_find, bl_image_contains, bl_build_image,
  bl_idx_words, bl_rec_put,
}
use esp32_ad_blocker_reborn.Table.Codec.{memcmp-entry, memcmp-bl_rec_put}
use esp32_ad_blocker_reborn.Table.Search.{IsOrdered, Located, search-Located}
use esp32_ad_blocker_reborn.Table.Build.{IsTable, IsBuilt, Cuts, bucket-lt, bl_build_image-IsBuilt}

-- One of the first `n` numbers is the hash.
abbrev pub Holds : (ℕ → ℕ) → ℕ → ℕ → Type 0
Holds num n h = (j : ℕ) × (j < n) × (num j ≡ h)

bucket_parts : (a b : ℕ) → bucket a ≡ bucket b → a % 2 ^ 24 ≡ b % 2 ^ 24 → a ≡ b
unfolding bucket
bucket_parts a b p q = omega arith

low_mono : (a b : ℕ) → bucket a ≡ bucket b → a ≤ b → a % 2 ^ 24 ≤ b % 2 ^ 24
unfolding bucket
low_mono a b p q = omega arith

module _ (recs : List (List ℕ)) (num : ℕ → ℕ) (n : ℕ) (table : IsTable recs n num) (image : Image)
    (built : IsBuilt num n image) (h lo hi : ℕ) (low : Cuts num n (bucket h) lo)
    (high : Cuts num n (bucket h + 1) hi) where
  -- Between the two cuts stand the records of one bucket.
  same_bucket : (j : ℕ) → lo ≤ j → j < hi → bucket (num j) ≡ bucket h
  same_bucket j p q = omega (arith, low.2 j p (omega (arith, high.0)), high.1 j q)

  bucket-IsOrdered : IsOrdered image.ent (entry h) (λ j. num j % 2 ^ 24) (h % 2 ^ 24) lo hi
  bucket-IsOrdered = record {
    inside = omega (arith, built.room, high.0);
    small = omega (arith, table.fits, high.0);
    ascending = λ i j a b c.
        low_mono (num i) (num j)
          (same_bucket i a (omega arith) ∙ sym (same_bucket j (omega arith) c))
          (table.ascending i j b (omega (arith, high.0)));
    compares = λ j r a b e.
        subst (λ (t : List ℕ). memcmp t (entry h) ≡ compare (num j % 2 ^ 24) (h % 2 ^ 24))
          (some_inj (sym (built.entries j (omega (arith, high.0))) ∙ e)) (memcmp-entry (num j) h);
  }

  after_low : (j : ℕ) → bucket (num j) ≡ bucket h → lo ≤ j
  after_low j e = elim (dec_le lo j) [
    | yes p ↦ p
    | no p ↦ absurd (omega (arith, low.1 j (omega arith)))
  ]

  before_high : (j : ℕ) → j < n → bucket (num j) ≡ bucket h → j < hi
  before_high j lt e = elim (dec_lt j hi) [
    | yes p ↦ p
    | no p ↦ absurd (omega (arith, high.2 j (omega arith) lt))
  ]

  Located-Holds :
      (o : Option ℕ)
      → Located (λ j. num j % 2 ^ 24) (h % 2 ^ 24) lo hi o
      → (is_some o ≡ true) ↔ Holds num n h
  Located-Holds none l = (
    λ e. cc,
    λ (j, lt, e).
        let same : bucket (num j) ≡ bucket h = ap bucket e in
        absurd (l j (after_low j same) (before_high j lt same) (ap (λ (t : ℕ). t % 2 ^ 24) e)),
  )
  Located-Holds (some m) (p, q, e) =
      (λ _. (m, omega (arith, high.0), bucket_parts (num m) h (same_bucket m p q) e), λ _. refl)

-- A built image is read without a fault, and answers `true` for exactly the hashes in it.
pub bl_image_contains-Holds :
    (recs : List (List ℕ)) (num : ℕ → ℕ) (n : ℕ) (image : Image) (h : ℕ)
    → IsTable recs n num
    → IsBuilt num n image
    → h < 2 ^ 40
    → Returns (bl_image_contains image h) (λ b. (b ≡ true) ↔ Holds num n h)
unfolding bl_image_contains
bl_image_contains-Holds recs num n image h table built small =
    let b_small : bucket h < 2 ^ 16 = bucket-lt h small in
    let (lo, lo_at, low) = built.cuts (bucket h) (omega arith) in
    let (hi, hi_at, high) = built.cuts (bucket h + 1) (omega arith) in
    rw
      (
        bl_image_contains,
        load-some image.idx (bucket h) lo_at,
        ◌>>=◌,
        load-some image.idx (bucket h + 1) hi_at,
        ◌>>=◌,
      )
      (Returns-bind (search (suc (hi - lo)) image.ent (entry h) lo hi) _
        (λ b. (b ≡ true) ↔ Holds num n h)
        (search-Located image.ent (entry h) (λ j. num j % 2 ^ 24) (h % 2 ^ 24) (suc (hi - lo)) lo hi
          (omega arith) (bucket-IsOrdered recs num n table image built h lo hi low high))
        (λ o l. Located-Holds recs num n table image built h lo hi low high o l))

-- The image built from `n` records in ascending order, with room for `n` entries, answers a lookup
-- of a 40-bit hash with `true` exactly when one of the records holds that hash; neither the build
-- nor the lookup reads out of bounds.
pub bl_image_contains-bl_build_image :
    (recs : List (List ℕ)) (num : ℕ → ℕ) (n : ℕ) (image : Image) (h : ℕ)
    → IsTable recs n num
    → length image.idx ≡ bl_idx_words
    → n ≤ length image.ent
    → h < 2 ^ 40
    → Returns
        (bl_build_image recs n image >>= λ built. bl_image_contains built h)
        (λ b. (b ≡ true) ↔ Holds num n h)
bl_image_contains-bl_build_image recs num n image h table words room small =
    Returns-bind (bl_build_image recs n image) _ (λ b. (b ≡ true) ↔ Holds num n h)
      (bl_build_image-IsBuilt recs num n image table words room)
      (λ built is_built. bl_image_contains-Holds recs num n built h table is_built small)

-- On `n` records in ascending order `bl_records_find` returns an index below `n` whose record holds
-- the hash, or -1, and then no record holds it; it does not read out of bounds.
pub bl_records_find-Located :
    (recs : List (List ℕ)) (num : ℕ → ℕ) (n h : ℕ)
    → IsTable recs n num
    → h < 2 ^ 40
    → Returns (bl_records_find recs n h) (Located num h 0 n)
unfolding bl_records_find
bl_records_find-Located recs num zero h table small = λ j a b. absurd (omega arith)
bl_records_find-Located recs num (suc n) h table small =
    rw (bl_records_find, nonzero n)
      (search-Located recs (bl_rec_put h) num h (suc (suc n)) 0 (suc n) (omega arith) (record {
        inside = get_elem?_lt recs n (table.stored n (omega arith));
        small = table.fits;
        ascending = λ i j a b c. table.ascending i j b c;
        compares = λ j r a b e.
            subst (λ (t : List ℕ). memcmp t (bl_rec_put h) ≡ compare (num j) h)
              (some_inj (sym (table.stored j b) ∙ e))
              (memcmp-bl_rec_put (num j) h (table.small j b) small);
      }))
  where
    nonzero : (n : ℕ) → (suc n == 0) ≡ false
    nonzero n = ground arith
