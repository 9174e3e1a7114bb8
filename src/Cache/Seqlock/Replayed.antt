-- ===== src/Cache/Seqlock/Replayed.antt =====
-- The answer of the receive task, whatever a store does meanwhile.
use esp32_ad_blocker_reborn.Common.{
  ℕ, ◌+◌, ◌%◌, ◌^◌, ◌≤◌, ◌<◌, ◌≡◌, ◌≢◌, refl, ◌∙◌, sym, ap, subst, arith, Bool, true, false, Option,
  none, some, List, ◌==◌, ==_iff, if◌then◌else◌, length, take, get_elem?, get_elem?_total, u32, Run,
  done, ◌>>=◌, load, load-some, Returns, Returns-bind, inl, inr,
}
use esp32_ad_blocker_reborn.Cache.{CacheEntry, Key, cache_set, scan, fwd_resp_max}
use esp32_ad_blocker_reborn.Cache.Keys.{IsWays, IsCache, Found, scan-Found}
use esp32_ad_blocker_reborn.Cache.Stored.{cache_set_lt}
use esp32_ad_blocker_reborn.Cache.Seqlock.{
  Shared, Steps, entry_in, torn_bytes, seen_ways, copied, is_servable, dns_cache_l2_get,
}
use esp32_ad_blocker_reborn.Cache.Seqlock.Counter.{Steps-between}
use esp32_ad_blocker_reborn.Cache.Seqlock.Reader.{
  torn_bytes_same, HasLayout, servable_test, is_servable-servable_test, is_servable_returns,
  scan_returns,
}
use esp32_ad_blocker_reborn.Cache.Seqlock.Seen.{
  Replays, OptionReplays, way_at-some, entry_in-some, seen_ways_same, seen_ways_size, inside_test,
  replays_lem,
}

module _ (k : Key) (now_ms gen out_cap : ℕ) (first last : Shared) (views : ℕ → ℕ → Shared)
    (sound : IsCache first.cache) (before : (w j : ℕ) → Steps first (views w j))
    (behind : (w j : ℕ) → Steps (views w j) last) (layout : (w j : ℕ) → HasLayout (views w j).cache)
    (small : 12 + length k.name ≤ fwd_resp_max) (few : last.ticks < first.ticks + 2 ^ 32) where
  -- The answer after the way that the loop stops at.
  answer_of : List CacheEntry → Bool → Option ℕ → Run (Option (List ℕ))
  answer_of ways b r = elim r as (λ x. Run (Option (List ℕ))) [
    | none ↦ done none
    | some w ↦ load ways w >>= λ e.
        done (if b then some (torn_bytes (copied k views w) 0 e.resp_len) else none)
  ]

  changed :
      u32 last.ticks ≢ u32 first.ticks
      → Returns
          (scan (is_servable k now_ms gen out_cap) (seen_ways k views)
            >>= answer_of (seen_ways k views) false)
          (λ r. OptionReplays k now_ms gen out_cap first last r)
  unfolding answer_of
  changed moved =
      Returns-bind (scan (is_servable k now_ms gen out_cap) (seen_ways k views))
        (answer_of (seen_ways k views) false) _
        (scan_returns (is_servable k now_ms gen out_cap) (seen_ways k views) (λ i e h.
          is_servable_returns k now_ms gen out_cap e (seen_ways_size k views layout i e h) small))
        (λ r h. at r h)
    where
      at :
          (r : Option ℕ)
          → ((i : ℕ) → r ≡ some i → i < length (seen_ways k views))
          → Returns
              (answer_of (seen_ways k views) false r)
              (λ x. OptionReplays k now_ms gen out_cap first last x)
      at none h = inr (inl moved)
      at (some w) h =
          let (e, there) = get_elem?_total (seen_ways k views) w (h w refl) in
          rw (load-some (seen_ways k views) w there) (inr (inl moved))

  unchanged :
      u32 first.ticks % 2 ≡ 0
      → u32 last.ticks ≡ u32 first.ticks
      → Returns
          (scan (is_servable k now_ms gen out_cap) (seen_ways k views)
            >>= answer_of (seen_ways k views) true)
          (λ r. OptionReplays k now_ms gen out_cap first last r)
  unfolding answer_of copied
  unchanged even same = rw (seen) (
      Returns-bind (scan (is_servable k now_ms gen out_cap) ways) (answer_of ways true) _
        (scan-Found (is_servable k now_ms gen out_cap) (servable_test k now_ms gen out_cap) ways
          (λ i e h. is_servable-servable_test k now_ms gen out_cap e (set.entries i e h)))
        (λ r found. at r found))
    where
      of_set : (ways : List CacheEntry) × (get_elem? first.cache.sets (cache_set k) ≡ some ways)
      of_set =
          get_elem?_total first.cache.sets (cache_set k) (omega (arith, sound.size, cache_set_lt k))

      ways : List CacheEntry
      ways = of_set.0

      set : IsWays ways
      set = sound.each (cache_set k) ways of_set.1

      seen : seen_ways k views ≡ ways
      seen =
          seen_ways_same k views first.cache ways set of_set.1
            (λ w j. Steps-between first (views w j) last (before w j) (behind w j) even same few)

      whole :
          (w : ℕ) (e : CacheEntry)
          → get_elem? ways w ≡ some e
          → e.resp_len ≤ 512
          → torn_bytes (copied k views w) 0 e.resp_len ≡ take e.resp_len e.resp
      whole w e there size =
          torn_bytes_same (copied k views w) e.resp (λ i. one i) e.resp_len 0
            (omega (arith, size, (set.entries w e there).size))
        where
          one : (i : ℕ) → copied k views w i ≡ e.resp
          one i =
              ap (λ (t : CacheEntry). t.resp)
                (ap (entry_in k w) (
                    Steps-between first (views w (521 + i)) last (before w (521 + i))
                      (behind w (521 + i)) even same few)
                  ∙ entry_in-some k w first.cache ways e of_set.1 there)

      at :
          (r : Option ℕ)
          → Found (servable_test k now_ms gen out_cap) ways r
          → Returns (answer_of ways true r) (λ x. OptionReplays k now_ms gen out_cap first last x)
      at none h =
          inr (inr (λ w e stored. h w e (way_at-some k w first.cache ways e of_set.1 stored)))
      at (some w) (e, there, hit) =
          let replays : Replays k now_ms gen out_cap first.cache (take e.resp_len e.resp) =
            replays_lem k now_ms gen out_cap first.cache ways w e of_set.1 there hit in
          rw (load-some ways w there) (
            subst (λ (t : List ℕ). Replays k now_ms gen out_cap first.cache t)
              (sym (whole w e there (inside_test k now_ms gen out_cap e hit))) replays)

  -- The receive task may read each field of an entry and each byte of a reply at another moment,
  -- while stores go on beside it; the cache is sound at its first load of the counter, the question
  -- leaves room for a header in 512 bytes, and the counter is counted up fewer than 2^32 times. Then
  -- it reads nothing out of bounds, and what it replays, if it replays, is the whole reply of a valid,
  -- allowed entry for the question's hash, type and name, unexpired, of the asked generation and
  -- within the buffer. If it replays nothing, then a store was under way at the first load, the
  -- counter was another one at the last, or no way of the question's set passes the test of the loop.
  pub dns_cache_l2_get-Replays :
      Returns
        (dns_cache_l2_get k now_ms gen out_cap first views last)
        (λ r. OptionReplays k now_ms gen out_cap first last r)
  unfolding dns_cache_l2_get answer_of
  dns_cache_l2_get-Replays =
      at (u32 first.ticks % 2 == 1) (u32 last.ticks == u32 first.ticks) refl refl
    where
      at :
          (odd same : Bool)
          → (u32 first.ticks % 2 == 1) ≡ odd
          → (u32 last.ticks == u32 first.ticks) ≡ same
          → Returns
              (if odd
                then done none
                else (scan (is_servable k now_ms gen out_cap) (seen_ways k views)
                    >>= answer_of (seen_ways k views) same))
              (λ r. OptionReplays k now_ms gen out_cap first last r)
      at true same o s = inl ((==_iff (u32 first.ticks % 2) 1).0 o)
      at false false o s = changed (ground (arith, s))
      at false true o s =
          unchanged (ground (arith, o)) ((==_iff (u32 last.ticks) (u32 first.ticks)).0 s)
