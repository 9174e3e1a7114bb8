-- ===== src/Table/Search.antt =====
-- The binary search: it ends, stays inside the array, and finds a key of a sorted range.
use native.Mathlib.Decide.{dec_lt, dec_le}
use esp32_ad_blocker_reborn.Common.{
  ℕ, zero, suc, ◌+◌, ◌-◌, ◌/◌, ◌^◌, ◌≤◌, ◌<◌, ◌≡◌, ◌≢◌, arith, Option, none, some, List, compare,
  ltb, ltb→lt, ltb→le, length, get_elem?, get_elem?_total, u32, ◌>>=◌, load-some, Returns,
  Returns_mono, Bool-cases, inl, inr, compare_lt, compare_gt, compare_eq,
}
use esp32_ad_blocker_reborn.Table.{memcmp, search}

mid_exact : (lo hi : ℕ) → lo < hi → hi < 2 ^ 32 → u32 (lo + (hi - lo) / 2) ≡ (lo + hi) / 2
mid_exact lo hi p q = omega arith

-- What the search says of the numbers that the entries stand for.
abbrev pub Located : (ℕ → ℕ) → ℕ → ℕ → ℕ → Option ℕ → Type 0
Located num k lo hi none = (j : ℕ) → lo ≤ j → j < hi → num j ≢ k
Located num k lo hi (some m) = (lo ≤ m) × (m < hi) × (num m ≡ k)

-- Between two bounds the entries stand for numbers in order, and `memcmp` with the key compares.
pub record IsOrdered (recs : List (List ℕ)) (key : List ℕ) (num : ℕ → ℕ) (k lo hi : ℕ)
    : Type 0 where
  pub inside : hi ≤ length recs
  pub small : hi < 2 ^ 32
  pub ascending : (i j : ℕ) → lo ≤ i → i ≤ j → j < hi → num i ≤ num j
  pub compares :
      (j : ℕ) (r : List ℕ)
      → lo ≤ j
      → j < hi
      → get_elem? recs j ≡ some r
      → memcmp r key ≡ compare (num j) k

module _ (recs : List (List ℕ)) (key : List ℕ) (num : ℕ → ℕ) (k : ℕ) where
  Located-above :
      (lo hi m : ℕ) (o : Option ℕ)
      → IsOrdered recs key num k lo hi
      → lo ≤ m
      → m < hi
      → num m < k
      → Located num k (m + 1) hi o
      → Located num k lo hi o
  Located-above lo hi m none ord p q below l = λ j lj jh e. elim (dec_le j m) [
    | yes t ↦ absurd (omega (arith, ord.ascending j m lj t q))
    | no t ↦ l j (omega arith) jh e
  ]
  Located-above lo hi m (some x) ord p q below l = (omega arith, l.1, l.2)

  Located-below :
      (lo hi m : ℕ) (o : Option ℕ)
      → IsOrdered recs key num k lo hi
      → lo ≤ m
      → m < hi
      → k < num m
      → Located num k lo m o
      → Located num k lo hi o
  Located-below lo hi m none ord p q above l = λ j lj jh e. elim (dec_lt j m) [
    | yes t ↦ l j lj t e
    | no t ↦ absurd (omega (arith, ord.ascending m j p (omega arith) jh))
  ]
  Located-below lo hi m (some x) ord p q above l = (l.0, omega arith, l.2)

  IsOrdered-narrow :
      (lo hi lo' hi' : ℕ)
      → lo ≤ lo'
      → hi' ≤ hi
      → IsOrdered recs key num k lo hi
      → IsOrdered recs key num k lo' hi'
  IsOrdered-narrow lo hi lo' hi' p q ord = record {
    inside = omega (arith, ord.inside);
    small = omega (arith, ord.small);
    ascending = λ i j a b c. ord.ascending i j (omega arith) b (omega arith);
    compares = λ j r a b e. ord.compares j r (omega arith) (omega arith) e;
  }

  -- The search ends inside the array, at an entry that stands for the key, or there is none.
  pub search-Located :
      (fuel lo hi : ℕ)
      → hi - lo < fuel
      → IsOrdered recs key num k lo hi
      → Returns (search fuel recs key lo hi) (Located num k lo hi)
  unfolding search
  search-Located zero lo hi h ord = absurd (omega arith)
  search-Located (suc fuel) lo hi h ord = elim (Bool-cases (ltb lo hi)) [
    | inr e ↦ rw (search, e) (λ j a b. absurd (omega (arith, ltb→le lo hi e)))
    | inl e ↦
        let lt : lo < hi = ltb→lt lo hi e in
        let m : ℕ = (lo + hi) / 2 in
        let (r, er) = get_elem?_total recs m (omega (arith, ord.inside)) in
        let mid : u32 (lo + (hi - lo) / 2) ≡ m = mid_exact lo hi lt ord.small in
        let next : u32 (m + 1) ≡ m + 1 = omega (arith, ord.small) in
        let order : memcmp r key ≡ compare (num m) k =
          ord.compares m r (omega arith) (omega arith) er in
        rw (search, e, mid, load-some recs m er, ◌>>=◌, order)
          (elim (dec_lt (num m) k) [
            | yes t ↦
                rw (compare_lt (num m) k t, mid, next)
                  (Returns_mono (search fuel recs key (m + 1) hi)
                    (search-Located fuel (m + 1) hi (omega arith)
                      (IsOrdered-narrow lo hi (m + 1) hi (omega arith) (omega arith) ord))
                    (λ o. Located-above lo hi m o ord (omega arith) (omega arith) t))
            | no t ↦ elim (dec_lt k (num m)) [
              | yes u ↦
                  rw (compare_gt (num m) k u, mid)
                    (Returns_mono (search fuel recs key lo m)
                      (search-Located fuel lo m (omega arith)
                        (IsOrdered-narrow lo hi lo m (omega arith) (omega arith) ord))
                      (λ o. Located-below lo hi m o ord (omega arith) (omega arith) u))
              | no u ↦
                  let same : num m ≡ k = omega arith in
                  rw (compare_eq (num m) k same, mid) (omega arith, omega arith, same)
            ]
          ])
  ]
