-- ===== src/Cache/Searches.antt =====
-- The two lookups of the forward cache as searches by a test.
use esp32_ad_blocker_reborn.Common.{
  ℕ, ◌+◌, ◌≡◌, refl, ap, Bool, true, false, ◌&&◌, Option, none, some, List, ◌==◌, ltb, leb,
  if◌then◌else◌, not, u64, both_true, get_elem?, Run, done, ◌>>=◌, load-some, Returns,
}
use esp32_ad_blocker_reborn.Cache.{
  CacheEntry, Key, Cache, cache_set, is_fresh, is_stale, cache_key_eq, stale_max_ms,
  cache_lookup_stale, cache_lookup,
}
use esp32_ad_blocker_reborn.Cache.Entries.{
  IsEntry, entry_key, SameKey, matches, cache_key_eq-matches, matches_sound,
}
use esp32_ad_blocker_reborn.Cache.Keys.{IsWays, Found, scan-Found}

-- The test of `cache_lookup` on an entry in good order.
abbrev pub fresh_test : Key → ℕ → ℕ → CacheEntry → Bool
fresh_test k now_ms gen e =
    e.valid && (matches k e && (ltb now_ms e.ttl_deadline_ms && e.load_gen == gen))

is_fresh-fresh_test :
    (k : Key) (now_ms gen : ℕ) (e : CacheEntry)
    → IsEntry e
    → is_fresh k now_ms gen e ≡ done (fresh_test k now_ms gen e)
unfolding is_fresh
is_fresh-fresh_test k now_ms gen e inv = at e.valid
  where
    rest : Bool
    rest = ltb now_ms e.ttl_deadline_ms && e.load_gen == gen

    at :
        (b : Bool)
        → (if b then (cache_key_eq k e >>= λ same. done (same && rest)) else done false)
          ≡ done (b && (matches k e && rest))
    at true =
        ap (λ (r : Run Bool). r >>= λ same. done (same && rest)) (cache_key_eq-matches k e inv)
    at false = refl

-- The entry in a way of the key's set.
abbrev pub way_at : Key → ℕ → Cache → Option CacheEntry
way_at k w c = elim (get_elem? c.sets (cache_set k)) [ none ↦ none | some ways ↦ get_elem? ways w ]

pub cache_lookup-Found :
    (k : Key) (now_ms gen : ℕ) (c : Cache) (ways : List CacheEntry)
    → IsWays ways
    → get_elem? c.sets (cache_set k) ≡ some ways
    → Returns (cache_lookup k now_ms gen c) (λ r. Found (fresh_test k now_ms gen) ways r)
unfolding cache_lookup
cache_lookup-Found k now_ms gen c ways inv there = rw (load-some c.sets (cache_set k) there) (
    scan-Found (is_fresh k now_ms gen) (fresh_test k now_ms gen) ways
      (λ i e h. is_fresh-fresh_test k now_ms gen e (inv.entries i e h)))

-- What a fresh entry of a set has.
pub fresh_parts :
    (k : Key) (now_ms gen : ℕ) (e : CacheEntry)
    → fresh_test k now_ms gen e ≡ true
    → (e.valid ≡ true) × SameKey (entry_key e) k
fresh_parts k now_ms gen e h =
    let (a, rest) = both_true e.valid _ h in
    (a, matches_sound k e (both_true (matches k e) _ rest).0)

-- The test of `cache_lookup_stale` on an entry in good order.
abbrev pub stale_test : Key → ℕ → ℕ → CacheEntry → Bool
stale_test k now_ms gen e =
    (e.valid && (not e.blocked && ltb 0 e.resp_len))
    && (matches k e
        && (leb e.ttl_deadline_ms now_ms
            && (ltb now_ms (u64 (e.ttl_deadline_ms + stale_max_ms)) && e.load_gen == gen)))

is_stale-stale_test :
    (k : Key) (now_ms gen : ℕ) (e : CacheEntry)
    → IsEntry e
    → is_stale k now_ms gen e ≡ done (stale_test k now_ms gen e)
unfolding is_stale
is_stale-stale_test k now_ms gen e inv = at (e.valid && (not e.blocked && ltb 0 e.resp_len))
  where
    rest : Bool
    rest =
        leb e.ttl_deadline_ms now_ms
        && (ltb now_ms (u64 (e.ttl_deadline_ms + stale_max_ms)) && e.load_gen == gen)

    at :
        (b : Bool)
        → (if b then (cache_key_eq k e >>= λ same. done (same && rest)) else done false)
          ≡ done (b && (matches k e && rest))
    at true =
        ap (λ (r : Run Bool). r >>= λ same. done (same && rest)) (cache_key_eq-matches k e inv)
    at false = refl

pub cache_lookup_stale-Found :
    (k : Key) (now_ms gen : ℕ) (c : Cache) (ways : List CacheEntry)
    → IsWays ways
    → get_elem? c.sets (cache_set k) ≡ some ways
    → Returns (cache_lookup_stale k now_ms gen c) (λ r. Found (stale_test k now_ms gen) ways r)
unfolding cache_lookup_stale
cache_lookup_stale-Found k now_ms gen c ways inv there = rw (load-some c.sets (cache_set k) there) (
    scan-Found (is_stale k now_ms gen) (stale_test k now_ms gen) ways
      (λ i e h. is_stale-stale_test k now_ms gen e (inv.entries i e h)))

pub stale_parts :
    (k : Key) (now_ms gen : ℕ) (e : CacheEntry)
    → stale_test k now_ms gen e ≡ true
    → (e.valid ≡ true) × SameKey (entry_key e) k
stale_parts k now_ms gen e h =
    let (a, rest) = both_true (e.valid && (not e.blocked && ltb 0 e.resp_len)) _ h in
    ((both_true e.valid _ a).0, matches_sound k e (both_true (matches k e) _ rest).0)

-- A lookup: it finds a way of the key's set by a test that only valid entries of the key pass.
pub record Search (l : Key) : Type 0 where
  pub run : Cache → Run (Option ℕ)
  pub test : CacheEntry → Bool
  pub finds :
      (c : Cache) (ways : List CacheEntry)
      → IsWays ways
      → get_elem? c.sets (cache_set l) ≡ some ways
      → Returns (run c) (λ r. Found test ways r)
  pub parts : (e : CacheEntry) → test e ≡ true → (e.valid ≡ true) × SameKey (entry_key e) l

abbrev pub fresh_search : (l : Key) → ℕ → ℕ → Search l
fresh_search l now_ms gen = record {
  run = cache_lookup l now_ms gen;
  test = fresh_test l now_ms gen;
  finds = cache_lookup-Found l now_ms gen;
  parts = fresh_parts l now_ms gen;
}

abbrev pub stale_search : (l : Key) → ℕ → ℕ → Search l
stale_search l now_ms gen = record {
  run = cache_lookup_stale l now_ms gen;
  test = stale_test l now_ms gen;
  finds = cache_lookup_stale-Found l now_ms gen;
  parts = stale_parts l now_ms gen;
}
