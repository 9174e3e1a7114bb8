-- ===== src/Cache/Picks.antt =====
-- What the loop over the ways of a set picks, by the code's own measure of use.
use mathlib.Core.Option.{none-ne-some}
use esp32_ad_blocker_reborn.Common.{
  ℕ, suc, ◌+◌, ◌-◌, ◌*◌, ◌^◌, ◌≤◌, ◌<◌, ◌≡◌, ◌⊎◌, refl, ◌∙◌, sym, ap, subst, arith, Bool, true,
  false, not, ◌&&◌, Option, none, some, List, [], ◌∷◌, ltb, ltb→lt, ltb→le, if◌then◌else◌, some_inj,
  get_elem?, get_elem?_total, u64, Run, done, ◌>>=◌, load, load-some, Returns, Returns-bind,
  Bool-cases, inl, inr,
}
use esp32_ad_blocker_reborn.Cache.{
  CacheEntry, Key, has_key, useful_until, victim_loop, cache_victim, cache_key_eq,
}
use esp32_ad_blocker_reborn.Cache.Entries.{IsEntry, matches, cache_key_eq-matches}
use esp32_ad_blocker_reborn.Cache.Keys.{IsWays}

-- The entry holds something for the key.
abbrev pub is_own : Key → CacheEntry → Bool
is_own k e = e.valid && matches k e

pub has_key-is_own : (k : Key) (e : CacheEntry) → IsEntry e → has_key k e ≡ done (is_own k e)
unfolding has_key
has_key-is_own k e inv = at e.valid
  where
    at : (b : Bool) → (if b then cache_key_eq k e else done false) ≡ done (b && matches k e)
    at true = cache_key_eq-matches k e inv
    at false = refl

useful_until_le : (e : CacheEntry) → useful_until e ≤ 2 ^ 64 - 1
unfolding useful_until
useful_until_le e = at (not e.valid) (e.ttl_deadline_ms + (if e.blocked then 0 else 86400 * 1000))
  where
    at : (b : Bool) (n : ℕ) → (if b then 0 else u64 n) ≤ 2 ^ 64 - 1
    at true n = omega arith
    at false n = omega arith

-- What the loop answers: the key's own way, or one that is of use no longer than any other.
abbrev pub Chosen : Key → List CacheEntry → ℕ × Option ℕ → Type 0
Chosen k ways (w, none) = (e : CacheEntry) × (get_elem? ways w ≡ some e) × (is_own k e ≡ true)
Chosen k ways (w, some t) =
    ((i : ℕ) (e : CacheEntry)
      → get_elem? ways i ≡ some e
      → (is_own k e ≡ false) × (t ≤ useful_until e))
    × ((m : CacheEntry) × (get_elem? ways w ≡ some m) × (useful_until m ≤ t))

victim_loop_lem :
    (k : Key) (all es : List CacheEntry) (w victim end : ℕ) (m : CacheEntry)
    → ((i : ℕ) (e : CacheEntry) → get_elem? all i ≡ some e → IsEntry e)
    → ((j : ℕ) → get_elem? all (w + j) ≡ get_elem? es j)
    → ((i : ℕ) (e : CacheEntry)
        → i < w
        → get_elem? all i ≡ some e
        → (is_own k e ≡ false) × (end ≤ useful_until e))
    → get_elem? all victim ≡ some m
    → useful_until m ≤ end
    → Returns (victim_loop k w victim end es) (λ r. Chosen k all r)
unfolding victim_loop
victim_loop_lem k all [] w victim end m good rest below at least =
    ((λ i e h. below i e (inside i e h (Bool-cases (ltb i w))) h), (m, at, least))
  where
    inside :
        (i : ℕ) (e : CacheEntry)
        → get_elem? all i ≡ some e
        → (ltb i w ≡ true) ⊎ (ltb i w ≡ false)
        → i < w
    inside i e h (inl t) = ltb→lt i w t
    inside i e h (inr t) =
        let index : w + (i - w) ≡ i = omega (arith, ltb→le i w t) in
        absurd (none-ne-some _ (sym (rest (i - w)) ∙ ap (λ (j : ℕ). get_elem? all j) index ∙ h))
victim_loop_lem k all (x ∷ xs) w victim end m good rest below at least =
    rw (has_key-is_own k x (good w x here)) (
      on (is_own k x) refl
        (λ v e m' b g l. victim_loop_lem k all xs (w + 1) v e m' good next b g l))
  where
    here : get_elem? all w ≡ some x
    here = ap (λ (j : ℕ). get_elem? all j) (omega arith) ∙ rest 0

    next : (j : ℕ) → get_elem? all (w + 1 + j) ≡ get_elem? xs j
    next j = ap (λ (t : ℕ). get_elem? all t) (index j) ∙ rest (suc j)
      where
        index : (j : ℕ) → w + 1 + j ≡ w + suc j
        index j = omega arith

    Below : ℕ → ℕ → Type 0
    Below v end' =
        (i : ℕ) (e : CacheEntry)
        → i < v
        → get_elem? all i ≡ some e
        → (is_own k e ≡ false) × (end' ≤ useful_until e)

    Again : Type 0
    Again =
        (v end' : ℕ) (m' : CacheEntry)
        → Below (w + 1) end'
        → get_elem? all v ≡ some m'
        → useful_until m' ≤ end'
        → Returns (victim_loop k (w + 1) v end' xs) (λ r. Chosen k all r)

    extended :
        (end' : ℕ) → end' ≤ end → is_own k x ≡ false → end' ≤ useful_until x → Below (w + 1) end'
    extended end' le miss lx i e lt h = pick (Bool-cases (ltb i w))
      where
        pick : (ltb i w ≡ true) ⊎ (ltb i w ≡ false) → (is_own k e ≡ false) × (end' ≤ useful_until e)
        pick (inl t) = let (a, b) = below i e (ltb→lt i w t) h in (a, omega (arith, le, b))
        pick (inr t) =
            let same : w ≡ i = omega (arith, ltb→le i w t, lt) in
            let equal : x ≡ e = some_inj (sym here ∙ ap (λ (j : ℕ). get_elem? all j) same ∙ h) in
            (
              ap (is_own k) (sym equal) ∙ miss,
              subst (λ (t : CacheEntry). end' ≤ useful_until t) equal lx,
            )

    step :
        (b : Bool)
        → ltb (useful_until x) end ≡ b
        → is_own k x ≡ false
        → Again
        → Returns
            (victim_loop k (w + 1) (if b then w else victim) (if b then useful_until x else end) xs)
            (λ r. Chosen k all r)
    step true t miss again =
        again w (useful_until x) x
          (extended (useful_until x) (omega (arith, ltb→lt (useful_until x) end t)) miss
            (omega arith))
          here (omega arith)
    step false t miss again =
        again victim end m (extended end (omega arith) miss (ltb→le (useful_until x) end t)) at
          least

    on :
        (b : Bool)
        → is_own k x ≡ b
        → Again
        → Returns
            (elim b as (λ y. Run (ℕ × Option ℕ)) [
              | true ↦ done (w, none)
              | false ↦
                  victim_loop k
                    (w + 1)
                    (if ltb (useful_until x) end then w else victim)
                    (if ltb (useful_until x) end then useful_until x else end)
                    xs
            ])
            (λ r. Chosen k all r)
    on true hit again = (x, here, hit)
    on false miss again = step (ltb (useful_until x) end) refl miss again

-- The way that is written.
pub data Picked (k : Key) (now_ms : ℕ) (ways : List CacheEntry) : ℕ × Bool → Type 0 where
  own :
      (w : ℕ) (e : CacheEntry)
      → get_elem? ways w ≡ some e
      → is_own k e ≡ true
      → Picked k now_ms ways (w, false)
  other :
      (w : ℕ) (m : CacheEntry)
      → get_elem? ways w ≡ some m
      → ((i : ℕ) (e : CacheEntry)
          → get_elem? ways i ≡ some e
          → (is_own k e ≡ false) × (useful_until m ≤ useful_until e))
      → Picked k now_ms ways (w, m.valid && ltb now_ms (useful_until m))

pub cache_victim-Picked :
    (k : Key) (now_ms : ℕ) (ways : List CacheEntry)
    → IsWays ways
    → Returns (cache_victim k now_ms ways) (λ r. Picked k now_ms ways r)
unfolding cache_victim
cache_victim-Picked k now_ms ways inv =
    Returns-bind (victim_loop k 0 0 (2 ^ 64 - 1) ways) _ (λ r. Picked k now_ms ways r)
      (started (get_elem?_total ways 0 (omega (arith, inv.size))))
      (λ r chosen. ended r.0 r.1 chosen)
  where
    started :
        (m : CacheEntry) × (get_elem? ways 0 ≡ some m)
        → Returns (victim_loop k 0 0 (2 ^ 64 - 1) ways) (λ r. Chosen k ways r)
    started (m, at) =
        victim_loop_lem k ways ways 0 0 (2 ^ 64 - 1) m inv.entries
          (λ j. ap (λ (t : ℕ). get_elem? ways t) (none_added j))
          (λ i e lt h. absurd (omega (arith, lt))) at (useful_until_le m)
      where
        none_added : (j : ℕ) → 0 + j ≡ j
        none_added j = omega arith

    ended :
        (w : ℕ) (end : Option ℕ)
        → Chosen k ways (w, end)
        → Returns
            (elim end as (λ y. Run (ℕ × Bool)) [
              | none ↦ done (w, false)
              | some t ↦ load ways w >>= λ e. done (w, e.valid && ltb now_ms t)
            ])
            (λ r. Picked k now_ms ways r)
    ended w none (e, at, hit) = Picked.own w e at hit
    ended w (some t) (all, (m, at, le)) =
        let same : t ≡ useful_until m = omega (arith, (all w m at).1, le) in
        rw (load-some ways w at, same)
          (Picked.other w m at (λ i e h. ((all i e h).0, omega (arith, (all i e h).1, same))))
