-- ===== src/Table/Validate.antt =====
-- `bl_image_valid`: it accepts what was built, and what it accepts is never read out of bounds.
use native.Mathlib.Decide.{dec_le, dec_lt}
use esp32_ad_blocker_reborn.Common.{
  ℕ, zero, suc, ◌+◌, ◌-◌, ◌/◌, ◌^◌, ◌≤◌, ◌<◌, ◌≡◌, ◌||◌, refl, ◌∙◌, ap, subst, arith, Bool, true,
  false, Option, none, some, List, ltb, ◌==◌, if◌then◌else◌, length, get_elem?, get_elem?_total,
  u32, Run, done, ◌>>=◌, load, load-some, >>=-eq-done, load-eq-done, Ordering, ltb→lt, Returns,
  Returns_mono, Bool-cases, inl, inr,
}
use esp32_ad_blocker_reborn.Table.{
  Image, memcmp, bucket, entry, search, is_some, bl_image_contains, bl_build_image, bl_idx_words,
  bl_image_valid, valid_loop, bl_bucket_count,
}
use esp32_ad_blocker_reborn.Table.Build.{IsTable, Cuts, bucket-lt, bl_build_image-IsBuilt}

-- Two neighbouring index words, in order and within the count.
abbrev pub Steps : List ℕ → ℕ → ℕ → Type 0
Steps idx count k =
    (lo : ℕ) × (hi : ℕ) × (get_elem? idx k ≡ some lo)
    × (get_elem? idx (k + 1) ≡ some hi)
    × (lo ≤ hi)
    × (hi ≤ count)

valid_loop-done :
    (left b count : ℕ) (idx : List ℕ)
    → ((k : ℕ) → b ≤ k → k < b + left → Steps idx count k)
    → valid_loop left b count idx ≡ done true
unfolding valid_loop
valid_loop-done zero b count idx steps = refl
valid_loop-done (suc left) b count idx steps =
    let (lo, hi, elo, ehi, p, q) = steps b (omega arith) (omega arith) in
    rw (valid_loop, load-some idx b elo, ◌>>=◌, load-some idx (b + 1) ehi, ◌>>=◌)
      (ground (
        arith,
        valid_loop-done left (b + 1) count idx (λ k a c. steps k (omega arith) (omega arith)),
      ))

valid_loop-Steps :
    (left b count : ℕ) (idx : List ℕ)
    → valid_loop left b count idx ≡ done true
    → (k : ℕ) → b ≤ k
    → k < b + left
    → Steps idx count k
unfolding valid_loop
valid_loop-Steps zero b count idx e k p q = absurd (omega arith)
valid_loop-Steps (suc left) b count idx e k p q =
    let (lo, elo, e1) = >>=-eq-done (load idx b) _ e in
    let (hi, ehi, e2) = >>=-eq-done (load idx (b + 1)) _ e1 in
    let (x, y, rest) = valid_step lo hi count (valid_loop left (b + 1) count idx) e2 in
    elim (dec_lt b k) [
      | yes t ↦ valid_loop-Steps left (b + 1) count idx rest k (omega arith) (omega arith)
      | no t ↦
          subst (λ (m : ℕ). Steps idx count m) (same b k p t)
            (lo, hi, load-eq-done idx b elo, load-eq-done idx (b + 1) ehi, x, y)
    ]
  where
    same : (b k : ℕ) → b ≤ k → ¬ (b < k) → b ≡ k
    same b k p t = omega arith

    valid_step :
        (lo hi count : ℕ) (rest : Run Bool)
        → (if ltb hi lo || ltb count hi then done false else rest) ≡ done true
        → (lo ≤ hi) × (hi ≤ count) × (rest ≡ done true)
    valid_step lo hi count rest h = ground arith

-- `bl_image_valid` accepts an index that starts at 0, ends at the count and steps up to it.
bl_image_valid-done :
    (image : Image) (count : ℕ)
    → get_elem? image.idx 0 ≡ some 0
    → ((k : ℕ) → k < bl_bucket_count → Steps image.idx count k)
    → get_elem? image.idx bl_bucket_count ≡ some count
    → bl_image_valid image count ≡ done true
unfolding bl_image_valid
bl_image_valid-done image count first steps last =
    rw
      (
        bl_image_valid,
        load-some image.idx 0 first,
        ◌>>=◌,
        valid_loop-done bl_bucket_count 0 count image.idx (λ k a b. steps k (omega arith)),
        ◌>>=◌,
      )
      (rw (load-some image.idx bl_bucket_count last, ◌>>=◌) (ground arith))

-- What the lookup needs of an accepted image.
bl_image_valid-Steps :
    (image : Image) (count : ℕ)
    → bl_image_valid image count ≡ done true
    → (k : ℕ) → k < bl_bucket_count
    → Steps image.idx count k
unfolding bl_image_valid
bl_image_valid-Steps image count e k h =
    let (first, _, e1) = >>=-eq-done (load image.idx 0) _ e in
    let (_, e2) = both (first == 0) _ e1 in
    let (ordered, e3, e4) = >>=-eq-done (valid_loop bl_bucket_count 0 count image.idx) _ e2 in
    let (yes_ordered, _) = both ordered _ e4 in
    valid_loop-Steps bl_bucket_count 0 count image.idx (e3 ∙ ap done yes_ordered) k (omega arith)
      (omega arith)
  where
    both :
        (c : Bool) (x : Run Bool)
        → (if c then x else done false) ≡ done true
        → (c ≡ true) × (x ≡ done true)
    both true x h = (refl, h)
    both false x h = cc

mid_inside : (lo hi : ℕ) → lo < hi → hi < 2 ^ 32 → u32 (lo + (hi - lo) / 2) ≡ (lo + hi) / 2
mid_inside lo hi p q = omega arith

-- The search ends and stays inside the array, whatever bytes stand there.
search_total :
    (fuel : ℕ) (recs : List (List ℕ)) (key : List ℕ) (lo hi : ℕ)
    → hi - lo < fuel
    → hi ≤ length recs
    → hi < 2 ^ 32
    → (o : Option ℕ) × (search fuel recs key lo hi ≡ done o)
unfolding search
search_total zero recs key lo hi h inside small = absurd (omega arith)
search_total (suc fuel) recs key lo hi h inside small = elim (Bool-cases (ltb lo hi)) [
  | inr e ↦ (none, rw (search, e))
  | inl e ↦
      let lt : lo < hi = ltb→lt lo hi e in
      let m : ℕ = (lo + hi) / 2 in
      let (r, er) = get_elem?_total recs m (omega arith) in
      let mid : u32 (lo + (hi - lo) / 2) ≡ m = mid_inside lo hi lt small in
      let next : u32 (m + 1) ≡ m + 1 = omega arith in
      rw (search, e, mid, load-some recs m er, ◌>>=◌)
        (by_order fuel recs key lo hi (u32 (lo + (hi - lo) / 2)) (memcmp r key)
          (rw (mid, next) (search_total fuel recs key (m + 1) hi (omega arith) inside small))
          (rw mid (search_total fuel recs key lo m (omega arith) (omega arith) (omega arith))))
]
  where
    by_order :
        (fuel : ℕ) (recs : List (List ℕ)) (key : List ℕ) (lo hi mid : ℕ) (c : Ordering)
        → (o : Option ℕ) × (search fuel recs key (u32 (mid + 1)) hi ≡ done o)
        → (o : Option ℕ) × (search fuel recs key lo mid ≡ done o)
        → (o : Option ℕ) × (elim c as (λ _. Run (Option ℕ)) [
          | Ordering.lt ↦ search fuel recs key (u32 (mid + 1)) hi
          | Ordering.gt ↦ search fuel recs key lo mid
          | Ordering.eq ↦ done (some mid)
        ]
            ≡ done o)
    by_order fuel recs key lo hi mid Ordering.lt x y = x
    by_order fuel recs key lo hi mid Ordering.gt x y = y
    by_order fuel recs key lo hi mid Ordering.eq x y = (some mid, refl)

-- An image of untrusted bytes that `bl_image_valid` accepts, with as many entries as the count says,
-- is looked up in without a read out of bounds, for every 40-bit hash.
pub bl_image_contains_safe :
    (image : Image) (count h : ℕ)
    → bl_image_valid image count ≡ done true
    → count ≤ length image.ent
    → count < 2 ^ 32
    → h < 2 ^ 40
    → (b : Bool) × (bl_image_contains image h ≡ done b)
unfolding bl_image_contains
bl_image_contains_safe image count h valid room small h_small =
    let (lo, hi, elo, ehi, p, q) =
      bl_image_valid-Steps image count valid (bucket h) (bucket-lt h h_small) in
    let (o, e) =
      search_total (suc (hi - lo)) image.ent (entry h) lo hi (omega arith) (omega arith)
        (omega arith) in
    (
      is_some o,
      rw (
        bl_image_contains,
        load-some image.idx (bucket h) elo,
        ◌>>=◌,
        load-some image.idx (bucket h + 1) ehi,
        ◌>>=◌,
        e,
      ),
    )

module _ (num : ℕ → ℕ) (n : ℕ) where
  Cuts-mono : (k lo hi : ℕ) → Cuts num n k lo → Cuts num n (k + 1) hi → lo ≤ hi
  Cuts-mono k lo hi (a, low, _) (b, _, high) = elim (dec_le lo hi) [
    | yes p ↦ p
    | no p ↦ absurd (omega (arith, low hi (omega arith), high hi (omega arith) (omega arith)))
  ]

  Cuts-first : (v : ℕ) → Cuts num n 0 v → v ≡ 0
  Cuts-first zero c = refl
  Cuts-first (suc v) (_, low, _) = absurd (omega (arith, low 0 (omega arith)))

  Cuts-last : (v : ℕ) → ((j : ℕ) → j < n → num j < 2 ^ 40) → Cuts num n (2 ^ 16) v → v ≡ n
  Cuts-last v small (a, _, high) = elim (dec_lt v n) [
    | yes p ↦ absurd (omega (arith, high v (omega arith) p, bucket-lt (num v) (small v p)))
    | no p ↦ omega arith
  ]

-- What is built from records in ascending order passes the check with its own count.
pub bl_image_valid-bl_build_image :
    (recs : List (List ℕ)) (num : ℕ → ℕ) (n : ℕ) (image : Image)
    → IsTable recs n num
    → length image.idx ≡ bl_idx_words
    → n ≤ length image.ent
    → Returns (bl_build_image recs n image) (λ built. bl_image_valid built n ≡ done true)
bl_image_valid-bl_build_image recs num n image table words room =
    Returns_mono (bl_build_image recs n image)
      (bl_build_image-IsBuilt recs num n image table words room)
      (λ built is_built.
        let (first, efirst, cfirst) = is_built.cuts 0 (omega arith) in
        let (last, elast, clast) = is_built.cuts bl_bucket_count (omega arith) in
        bl_image_valid-done built n (efirst ∙ ap some (Cuts-first num n first cfirst))
          (λ k lt.
            let (lo, elo, low) = is_built.cuts k (omega arith) in
            let (hi, ehi, high) = is_built.cuts (k + 1) (omega arith) in
            (lo, hi, elo, ehi, Cuts-mono num n k lo hi low high, high.0))
          (elast ∙ ap some (Cuts-last num n last table.small clast)))
