-- ===== src/Cache/Ways.antt =====
-- Which way a store writes.
use esp32_ad_blocker_reborn.Common.{
  ℕ, ◌+◌, ◌*◌, ◌≤◌, ◌<◌, ◌≡◌, ◌↔◌, refl, ◌∙◌, sym, subst, arith, Bool, true, false, not, ◌&&◌, some,
  List, ltb, ltb→lt, lt→ltb, if◌then◌else◌, both_true, get_elem?, u64, Returns, Returns_mono,
}
use esp32_ad_blocker_reborn.Cache.{CacheEntry, Key, useful_until, cache_victim}
use esp32_ad_blocker_reborn.Cache.Entries.{
  entry_key, SameKey, matches, matches_sound, matches_complete,
}
use esp32_ad_blocker_reborn.Cache.Keys.{IsWays}
use esp32_ad_blocker_reborn.Cache.Picks.{is_own, Picked, cache_victim-Picked}

-- How long an entry is of use: one that is not valid never, a blocked one until its deadline, an
-- allowed one for a day more, in the arithmetic of 64 bits.
pub data UsefulUntil (e : CacheEntry) : ℕ → Type 0 where
  invalid : e.valid ≡ false → UsefulUntil e 0
  blocked : e.valid ≡ true → e.blocked ≡ true → UsefulUntil e (u64 e.ttl_deadline_ms)
  allowed : e.valid ≡ true → e.blocked ≡ false → UsefulUntil e (u64 (e.ttl_deadline_ms + 86400000))

-- The code's measure is that time, and no other is.
useful_until-UsefulUntil : (e : CacheEntry) → UsefulUntil e (useful_until e)
unfolding useful_until
useful_until-UsefulUntil e = on e.valid e.blocked refl refl
  where
    on :
        (v b : Bool)
        → e.valid ≡ v
        → e.blocked ≡ b
        → UsefulUntil e
            (if not v then 0 else u64 (e.ttl_deadline_ms + (if b then 0 else 86400 * 1000)))
    on false b p q = UsefulUntil.invalid p
    on true true p q =
        let none_more : e.ttl_deadline_ms + 0 ≡ e.ttl_deadline_ms = omega arith in
        subst (λ (t : ℕ). UsefulUntil e (u64 t)) (sym none_more) (UsefulUntil.blocked p q)
    on true false p q = UsefulUntil.allowed p q

UsefulUntil-unique : (e : CacheEntry) (t : ℕ) → UsefulUntil e t → t ≡ useful_until e
unfolding useful_until
UsefulUntil-unique e _ (UsefulUntil.invalid p) = rw (p) refl
UsefulUntil-unique e _ (UsefulUntil.blocked p q) = rw (p, q) (omega arith)
UsefulUntil-unique e _ (UsefulUntil.allowed p q) = rw (p, q) refl

UsefulUntil-valid : (e : CacheEntry) (now_ms t : ℕ) → UsefulUntil e t → now_ms < t → e.valid ≡ true
UsefulUntil-valid e now_ms _ (UsefulUntil.invalid p) h = absurd (omega (arith, h))
UsefulUntil-valid e now_ms _ (UsefulUntil.blocked p q) h = p
UsefulUntil-valid e now_ms _ (UsefulUntil.allowed p q) h = p

-- The way that is written: the key's own, or, without one, a way that is of use no longer than any
-- other; writing it is an eviction exactly if it is of use still.
pub data IsVictim (k : Key) (now_ms : ℕ) (ways : List CacheEntry) : ℕ × Bool → Type 0 where
  own :
      (w : ℕ) (e : CacheEntry)
      → get_elem? ways w ≡ some e
      → e.valid ≡ true
      → SameKey (entry_key e) k
      → IsVictim k now_ms ways (w, false)
  other :
      (w : ℕ) (m : CacheEntry) (t : ℕ) (evicts : Bool)
      → get_elem? ways w ≡ some m
      → UsefulUntil m t
      → ((i s : ℕ) (e : CacheEntry) → get_elem? ways i ≡ some e → UsefulUntil e s → t ≤ s)
      → ((i : ℕ) (e : CacheEntry)
          → get_elem? ways i ≡ some e
          → e.valid ≡ true
          → ¬ SameKey (entry_key e) k)
      → ((evicts ≡ true) ↔ (now_ms < t))
      → IsVictim k now_ms ways (w, evicts)

Picked-IsVictim :
    (k : Key) (now_ms : ℕ) (ways : List CacheEntry) (r : ℕ × Bool)
    → IsWays ways
    → Picked k now_ms ways r
    → IsVictim k now_ms ways r
Picked-IsVictim k now_ms ways _ inv (Picked.own w e at hit) =
    let (valid, same) = both_true e.valid (matches k e) hit in
    IsVictim.own w e at valid (matches_sound k e same)
Picked-IsVictim k now_ms ways _ inv (Picked.other w m at all) =
    IsVictim.other w m (useful_until m) (m.valid && ltb now_ms (useful_until m)) at
      (useful_until-UsefulUntil m) (λ i s e h until. least i s e h until)
      (λ i e h valid same. foreign i e h valid same)
      ((λ h. ltb→lt now_ms (useful_until m) (both_true m.valid _ h).1), (λ h. evicted h))
  where
    least :
        (i s : ℕ) (e : CacheEntry)
        → get_elem? ways i ≡ some e
        → UsefulUntil e s
        → useful_until m ≤ s
    least i s e h until = omega (arith, (all i e h).1, UsefulUntil-unique e s until)

    both : (a b : Bool) → a ≡ true → b ≡ true → (a && b) ≡ true
    both a b p q = rw (p, q) refl

    foreign :
        (i : ℕ) (e : CacheEntry)
        → get_elem? ways i ≡ some e
        → e.valid ≡ true
        → ¬ SameKey (entry_key e) k
    foreign i e h valid same =
        let hit : is_own k e ≡ true =
          both e.valid (matches k e) valid (matches_complete k e (inv.entries i e h) same) in
        let wrong : true ≡ false = sym hit ∙ (all i e h).0 in absurd (cc)

    evicted : now_ms < useful_until m → (m.valid && ltb now_ms (useful_until m)) ≡ true
    evicted h =
        both m.valid (ltb now_ms (useful_until m))
          (UsefulUntil-valid m now_ms (useful_until m) (useful_until-UsefulUntil m) h)
          (lt→ltb now_ms (useful_until m) h)

-- In a set in good order `cache_victim` returns the way of the valid entry with the key, if there
-- is one. Otherwise it returns a way that is of use no longer than any other, where an entry
-- that is not valid is of no use, a blocked one is of use until its deadline and an allowed one for
-- a day more, and it reports an eviction exactly if that way is of use after now.
pub cache_victim-IsVictim :
    (k : Key) (now_ms : ℕ) (ways : List CacheEntry)
    → IsWays ways
    → Returns (cache_victim k now_ms ways) (λ r. IsVictim k now_ms ways r)
cache_victim-IsVictim k now_ms ways inv =
    Returns_mono (cache_victim k now_ms ways) (cache_victim-Picked k now_ms ways inv)
      (λ r picked. Picked-IsVictim k now_ms ways r inv picked)
