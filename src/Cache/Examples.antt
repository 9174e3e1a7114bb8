-- ===== src/Cache/Examples.antt =====
-- The forward cache on one reply, for the question "aDs.io", type A, class IN.
use esp32_ad_blocker_reborn.Common.{
  ℕ, ◌≡◌, refl, arith, false, none, some, List, ◌∷◌, ◌++◌, [], codes, take, replicate, length, Run,
  done, fault, out_of_fuel, ◌>>=◌, Returns,
}
use esp32_ad_blocker_reborn.Domain.{dns_qname_wire_len, fold_case}
use esp32_ad_blocker_reborn.Cache.{
  CacheEntry, Key, Cache, cache_init, cache_ways, zero_entry, reply_key, cache_lookup,
  cache_lookup_stale, cache_victim, cache_store_blocked, cache_store_resp,
}
use esp32_ad_blocker_reborn.Cache.Entries.{SameKey}
use esp32_ad_blocker_reborn.Cache.Keys.{IsCache, cache_init-IsCache, zero_set-IsWays}
use esp32_ad_blocker_reborn.Cache.Ways.{IsVictim, cache_victim-IsVictim}
use esp32_ad_blocker_reborn.Cache.Searches.{way_at}
use esp32_ad_blocker_reborn.Cache.Answers.{WasThere}
use esp32_ad_blocker_reborn.Cache.Replies.{cache_store_resp-cache_lookup, cache_store_resp-WasThere}
use esp32_ad_blocker_reborn.Cache.Sound.{cache_store-IsCache}
use esp32_ad_blocker_reborn.Cache.Stale.{cache_store_resp-cache_lookup_stale}
use esp32_ad_blocker_reborn.Cache.Seqlock.{Shared, Steps, dns_cache_l2_get}
use esp32_ad_blocker_reborn.Cache.Seqlock.Seen.{OptionReplays, IsCache-HasLayout}
use esp32_ad_blocker_reborn.Cache.Seqlock.Replayed.{dns_cache_l2_get-Replays}

abbrev reply : List ℕ
reply =
    0x12 ∷ 0x34 ∷ 0x81 ∷ 0x80 ∷ 0 ∷ 1 ∷ 0 ∷ 0 ∷ 0 ∷ 0 ∷ 0 ∷ 0 ∷ 3 ∷ codes "aDs"
    ++ 2 ∷ codes "io"
    ++ 0 ∷ 0 ∷ 1 ∷ 0 ∷ 1 ∷ []

abbrev asked : Key
asked = record { hash = 77; qtype = 1; name = 3 ∷ codes "ADS" ++ 2 ∷ codes "io" ++ 0 ∷ [] }

abbrev other_type : Key
other_type = record { hash = 77; qtype = 28; name = 3 ∷ codes "ads" ++ 2 ∷ codes "io" ++ 0 ∷ [] }

reply_named : dns_qname_wire_len reply (length reply) 12 ≡ done (some 8)
unfolding dns_qname_wire_len
reply_named = refl

reply-SameKey : SameKey (reply_key 77 1 reply 8) asked
unfolding reply_key fold_case
reply-SameKey = (refl, refl, refl)

cache_store_resp-cache_lookup_example :
    Returns
      (cache_store_resp 77 1 reply 60 1000 3 cache_init >>= λ after.
        cache_lookup asked 60999 3 after >>= λ r. done (after, r))
      (λ (after, r).
        IsCache after
        × ((w : ℕ) × (e : CacheEntry) × (r ≡ some w)
            × (way_at asked w after ≡ some e)
            × ((e.blocked ≡ false) × (take e.resp_len e.resp ≡ reply))))
cache_store_resp-cache_lookup_example =
    cache_store_resp-cache_lookup 77 1 reply 8 60 1000 3 cache_init cache_init-IsCache (omega arith)
      reply_named asked 60999 reply-SameKey (omega arith)

cache_store_resp-WasThere_example :
    Returns
      (cache_store_resp 77 1 reply 60 1000 3 cache_init >>= λ after.
        cache_lookup other_type 2000 3 after >>= λ r. done (after, r))
      (λ (after, r). WasThere other_type cache_init after r)
unfolding reply_key
cache_store_resp-WasThere_example =
    cache_store_resp-WasThere 77 1 reply 8 60 1000 3 cache_init cache_init-IsCache (omega arith)
      reply_named other_type 2000 3 (λ (_, q, _). absurd (omega (arith, q)))

cache_store-IsCache_example :
    Returns (cache_store_blocked asked 60 1000 3 cache_init) (λ after. IsCache after)
    × Returns (cache_store_resp 77 1 reply 60 1000 3 cache_init) (λ after. IsCache after)
cache_store-IsCache_example =
    cache_store-IsCache asked 77 1 reply 60 1000 3 cache_init cache_init-IsCache

cache_victim-IsVictim_example :
    Returns
      (cache_victim asked 1000 (replicate cache_ways zero_entry))
      (λ r. IsVictim asked 1000 (replicate cache_ways zero_entry) r)
cache_victim-IsVictim_example =
    cache_victim-IsVictim asked 1000 (replicate cache_ways zero_entry) zero_set-IsWays

-- What a store leaves, of which it is known that it returns.
kept : (r : Run Cache) → Returns r (λ c. IsCache c) → (c : Cache) × IsCache c
kept (done c) h = (c, h)
kept fault h = absurd h
kept out_of_fuel h = absurd h

stored : (c : Cache) × IsCache c
stored =
    kept (cache_store_resp 77 1 reply 60 1000 3 cache_init)
      (cache_store-IsCache asked 77 1 reply 60 1000 3 cache_init cache_init-IsCache).1

abbrev resting : Shared
resting = record { ticks = 2; cache = stored.0 }

dns_cache_l2_get-Replays_example :
    Returns
      (dns_cache_l2_get asked 2000 3 1500 resting (λ w j. resting) resting)
      (λ r. OptionReplays asked 2000 3 1500 resting resting r)
dns_cache_l2_get-Replays_example =
    dns_cache_l2_get-Replays asked 2000 3 1500 resting resting (λ w j. resting) stored.1
      (λ w j. Steps.stay) (λ w j. Steps.stay) (λ w j. IsCache-HasLayout stored.0 stored.1)
      (omega arith) (omega arith)

cache_store_resp-cache_lookup_stale_example :
    Returns
      (cache_store_resp 77 1 reply 60 1000 3 cache_init >>= λ after.
        cache_lookup asked 61000 3 after >>= λ r.
        cache_lookup_stale asked 61000 3 after >>= λ q. done (after, r, q))
      (λ (after, r, q).
        (r ≡ none)
        × ((w : ℕ) × (e : CacheEntry) × (q ≡ some w)
            × (way_at asked w after ≡ some e)
            × ((e.blocked ≡ false) × (take e.resp_len e.resp ≡ reply))))
cache_store_resp-cache_lookup_stale_example =
    cache_store_resp-cache_lookup_stale 77 1 reply 8 60 1000 3 cache_init cache_init-IsCache
      (omega arith) reply_named asked 61000 reply-SameKey (omega arith) (omega arith)
