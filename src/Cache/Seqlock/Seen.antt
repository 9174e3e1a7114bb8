-- ===== src/Cache/Seqlock/Seen.antt =====
-- What the receive task sees of a set, and what an answer of it has to be.
use mathlib.Core.Option.{none-ne-some}
use esp32_ad_blocker_reborn.Common.{
  ℕ, zero, suc, ◌%◌, ◌≤◌, ◌<◌, ◌≡◌, ◌≢◌, ◌⊎◌, refl, ◌∙◌, sym, ap, arith, Bool, true, false, not,
  ◌&&◌, ◌||◌, Option, none, some, List, [], ◌∷◌, ◌==◌, ==_iff, ltb, ltb→lt, leb, if◌then◌else◌,
  both_true, some_inj, length, take, get_elem?, get_elem?_total, u32,
}
use esp32_ad_blocker_reborn.Cache.{CacheEntry, Key, Cache, cache_set, fwd_resp_max}
use esp32_ad_blocker_reborn.Cache.Entries.{entry_key, SameKey, matches, matches_sound}
use esp32_ad_blocker_reborn.Cache.Keys.{IsWays, IsCache, zero_entry-IsEntry}
use esp32_ad_blocker_reborn.Cache.Stored.{cache_set_lt}
use esp32_ad_blocker_reborn.Cache.Searches.{way_at}
use esp32_ad_blocker_reborn.Cache.Seqlock.{Shared, entry_in, torn_entry, seen_ways}
use esp32_ad_blocker_reborn.Cache.Seqlock.Reader.{
  torn_entry_same, torn_size, HasLayout, servable_test,
}

-- The bytes are the whole reply of an entry that the key's set has in `c`: it is allowed, it is for
-- the question that is asked, its time to live and its generation are good, and it fits.
pub record Replays (k : Key) (now_ms gen out_cap : ℕ) (c : Cache) (bytes : List ℕ) : Type 0 where
  pub way : ℕ
  pub entry : CacheEntry
  pub stored : way_at k way c ≡ some entry
  pub valid : entry.valid ≡ true
  pub allowed : entry.blocked ≡ false
  pub asked : SameKey (entry_key entry) k
  pub early : now_ms < entry.ttl_deadline_ms
  pub current : entry.load_gen ≡ gen
  pub fits : leb entry.resp_len out_cap ≡ true
  pub inside : entry.resp_len ≤ fwd_resp_max
  pub whole : bytes ≡ take entry.resp_len entry.resp

-- Without an answer a store was under way at the first load of the counter, the counter was another
-- one at the last load, or no way of the key's set passes the test.
abbrev pub OptionReplays : Key → ℕ → ℕ → ℕ → Shared → Shared → Option (List ℕ) → Type 0
OptionReplays k now_ms gen out_cap first last none =
    (u32 first.ticks % 2 ≡ 1)
    ⊎ ((u32 last.ticks ≢ u32 first.ticks)
        ⊎ ((w : ℕ) (e : CacheEntry)
            → way_at k w first.cache ≡ some e
            → servable_test k now_ms gen out_cap e ≡ false))
OptionReplays k now_ms gen out_cap first last (some bytes) =
    Replays k now_ms gen out_cap first.cache bytes

-- What is in a way of the key's set.
pub way_at-some :
    (k : Key) (w : ℕ) (c : Cache) (ways : List CacheEntry) (e : CacheEntry)
    → get_elem? c.sets (cache_set k) ≡ some ways
    → way_at k w c ≡ some e
    → get_elem? ways w ≡ some e
way_at-some k w c ways e there at =
    sym (
      ap
        (λ (o : Option (List CacheEntry)). elim o as (λ y. Option CacheEntry) [
          | none ↦ none
          | some ways ↦ get_elem? ways w
        ])
        there)
    ∙ at

-- A cache in good order lies in the memory as it should.
pub IsCache-HasLayout : (c : Cache) → IsCache c → HasLayout c
unfolding entry_in
IsCache-HasLayout c inv = record { size = λ k w. each k w }
  where
    each : (k : Key) (w : ℕ) → length (entry_in k w c).resp ≡ 512
    each k w =
        found (get_elem?_total c.sets (cache_set k) (omega (arith, inv.size, cache_set_lt k)))
      where
        found :
            (ways : List CacheEntry) × (get_elem? c.sets (cache_set k) ≡ some ways)
            → length (entry_in k w c).resp ≡ 512
        found (ways, there) = at (get_elem? ways w) refl
          where
            at : (o : Option CacheEntry) → get_elem? ways w ≡ o → length (entry_in k w c).resp ≡ 512
            at none e = rw (entry_in, there, e) zero_entry-IsEntry.size
            at (some x) e =
                rw (entry_in, there, e) ((inv.each (cache_set k) ways there).entries w x e).size

pub four_ways :
    (s0 s1 s2 s3 : CacheEntry) (ways : List CacheEntry)
    → length ways ≡ 4
    → ((e : CacheEntry) → get_elem? ways 0 ≡ some e → s0 ≡ e)
    → ((e : CacheEntry) → get_elem? ways 1 ≡ some e → s1 ≡ e)
    → ((e : CacheEntry) → get_elem? ways 2 ≡ some e → s2 ≡ e)
    → ((e : CacheEntry) → get_elem? ways 3 ≡ some e → s3 ≡ e)
    → s0 ∷ s1 ∷ s2 ∷ s3 ∷ [] ≡ ways
four_ways s0 s1 s2 s3 [] h a b c d = absurd (omega (arith, h))
four_ways s0 s1 s2 s3 (x ∷ []) h a b c d = absurd (omega (arith, h))
four_ways s0 s1 s2 s3 (x ∷ y ∷ []) h a b c d = absurd (omega (arith, h))
four_ways s0 s1 s2 s3 (x ∷ y ∷ z ∷ []) h a b c d = absurd (omega (arith, h))
four_ways s0 s1 s2 s3 (x ∷ y ∷ z ∷ w ∷ []) h a b c d =
    rw (a x refl, b y refl, c z refl, d w refl) refl
four_ways s0 s1 s2 s3 (x ∷ y ∷ z ∷ w ∷ v ∷ vs) h a b c d = absurd (omega (arith, h))

pub entry_in-some :
    (k : Key) (w : ℕ) (c : Cache) (ways : List CacheEntry) (e : CacheEntry)
    → get_elem? c.sets (cache_set k) ≡ some ways
    → get_elem? ways w ≡ some e
    → entry_in k w c ≡ e
unfolding entry_in
entry_in-some k w c ways e there at = rw (entry_in, there, at) refl

-- When nothing is stored in between, the ways are seen as they are.
pub seen_ways_same :
    (k : Key) (views : ℕ → ℕ → Shared) (c : Cache) (ways : List CacheEntry)
    → IsWays ways
    → get_elem? c.sets (cache_set k) ≡ some ways
    → ((w j : ℕ) → (views w j).cache ≡ c)
    → seen_ways k views ≡ ways
unfolding seen_ways
seen_ways_same k views c ways inv there same =
    four_ways _ _ _ _ ways inv.size (at 0) (at 1) (at 2) (at 3)
  where
    at :
        (w : ℕ) (e : CacheEntry)
        → get_elem? ways w ≡ some e
        → torn_entry (λ j. entry_in k w (views w j).cache) ≡ e
    at w e h =
        torn_entry_same (λ j. entry_in k w (views w j).cache) e
          (λ j. ap (entry_in k w) (same w j) ∙ entry_in-some k w c ways e there h)
          (inv.entries w e h)

-- What is seen has the size of the memory.
pub seen_ways_size :
    (k : Key) (views : ℕ → ℕ → Shared)
    → ((w j : ℕ) → HasLayout (views w j).cache)
    → (i : ℕ) (e : CacheEntry) → get_elem? (seen_ways k views) i ≡ some e
    → length e.resp ≡ 512
unfolding seen_ways
seen_ways_size k views layout i e h = at i h
  where
    torn : (w : ℕ) → length (torn_entry (λ j. entry_in k w (views w j).cache)).resp ≡ 512
    torn w = torn_size (λ j. entry_in k w (views w j).cache) (λ j. (layout w j).size k w)

    is_it :
        (w : ℕ)
        → some (torn_entry (λ j. entry_in k w (views w j).cache)) ≡ some e
        → length e.resp ≡ 512
    is_it w p = ap (λ (t : CacheEntry). length t.resp) (sym (some_inj p)) ∙ torn w

    at :
        (i : ℕ)
        → get_elem?
            (torn_entry (λ j. entry_in k 0 (views 0 j).cache)
              ∷ torn_entry (λ j. entry_in k 1 (views 1 j).cache)
              ∷ torn_entry (λ j. entry_in k 2 (views 2 j).cache)
              ∷ torn_entry (λ j. entry_in k 3 (views 3 j).cache)
              ∷ [])
            i
          ≡ some e
        → length e.resp ≡ 512
    at zero p = is_it 0 p
    at (suc zero) p = is_it 1 p
    at (suc (suc zero)) p = is_it 2 p
    at (suc (suc (suc zero))) p = is_it 3 p
    at (suc (suc (suc (suc i)))) p = absurd (none-ne-some _ p)

pub inside_test :
    (k : Key) (now_ms gen out_cap : ℕ) (e : CacheEntry)
    → servable_test k now_ms gen out_cap e ≡ true
    → e.resp_len ≤ 512
inside_test k now_ms gen out_cap e h = on (not e.valid || e.blocked) h
  where
    on :
        (b : Bool)
        → (if b
            then false
            else (matches k e
                && (ltb now_ms e.ttl_deadline_ms
                    && (e.load_gen == gen
                        && (ltb 0 e.resp_len && (leb e.resp_len out_cap && leb e.resp_len 512))))))
          ≡ true
        → e.resp_len ≤ 512
    on true h = absurd (cc)
    on false h =
        let (_, r1) = both_true (matches k e) _ h in
        let (_, r2) = both_true (ltb now_ms e.ttl_deadline_ms) _ r1 in
        let (_, r3) = both_true (e.load_gen == gen) _ r2 in
        let (_, r4) = both_true (ltb 0 e.resp_len) _ r3 in
        let fits : leb e.resp_len 512 ≡ true = (both_true (leb e.resp_len out_cap) _ r4).1 in
        ground (arith, fits)

pub replays_lem :
    (k : Key) (now_ms gen out_cap : ℕ) (c : Cache) (ways : List CacheEntry) (w : ℕ) (e : CacheEntry)
    → get_elem? c.sets (cache_set k) ≡ some ways
    → get_elem? ways w ≡ some e
    → servable_test k now_ms gen out_cap e ≡ true
    → Replays k now_ms gen out_cap c (take e.resp_len e.resp)
replays_lem k now_ms gen out_cap c ways w e there at h0 = on e.valid e.blocked refl refl h0
  where
    rest : Bool
    rest =
        ltb now_ms e.ttl_deadline_ms
        && (e.load_gen == gen
            && (ltb 0 e.resp_len && (leb e.resp_len out_cap && leb e.resp_len 512)))

    on :
        (v b : Bool)
        → e.valid ≡ v
        → e.blocked ≡ b
        → (if not v || b then false else (matches k e && rest)) ≡ true
        → Replays k now_ms gen out_cap c (take e.resp_len e.resp)
    on false b ev eb h = absurd (cc)
    on true true ev eb h = absurd (cc)
    on true false ev eb h =
        let (m, r1) = both_true (matches k e) rest h in
        let (d, r2) = both_true (ltb now_ms e.ttl_deadline_ms) _ r1 in
        let (g, r3) = both_true (e.load_gen == gen) _ r2 in
        let (_, r4) = both_true (ltb 0 e.resp_len) _ r3 in
        record {
          way = w;
          entry = e;
          stored =
              ap
                (λ (o : Option (List CacheEntry)). elim o as (λ y. Option CacheEntry) [
                  | none ↦ none
                  | some ways ↦ get_elem? ways w
                ])
                there
              ∙ at;
          valid = ev;
          allowed = eb;
          asked = matches_sound k e m;
          early = ltb→lt now_ms e.ttl_deadline_ms d;
          current = (==_iff e.load_gen gen).0 g;
          fits = (both_true (leb e.resp_len out_cap) (leb e.resp_len 512) r4).0;
          inside = inside_test k now_ms gen out_cap e h0;
          whole = refl;
        }
