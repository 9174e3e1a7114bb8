-- ===== src/Cache/Stale.antt =====
-- The stale answers of the forward cache.
use esp32_ad_blocker_reborn.Common.{
  ℕ, ◌+◌, ◌*◌, ◌≤◌, ◌<◌, ◌≡◌, refl, arith, Bool, true, false, ◌&&◌, none, some, List, ◌==◌, ==_iff,
  ltb, leb, lt→ltb, length, take, drop, u64, done, ◌>>=◌, Returns, Returns-bind,
}
use esp32_ad_blocker_reborn.Domain.{dns_qname_wire_len}
use esp32_ad_blocker_reborn.Domain.WireLength.{dns_qname_wire_len_inside}
use esp32_ad_blocker_reborn.Cache.{
  CacheEntry, Key, Cache, header_size, fwd_resp_max, stale_max_ms, write_way, cache_lookup,
  cache_lookup_stale, copy_at, resp_entry, reply_key, cache_store_resp,
}
use esp32_ad_blocker_reborn.Cache.Entries.{
  IsEntry, entry_key, SameKey, SameKey-trans, matches, matches_complete,
}
use esp32_ad_blocker_reborn.Cache.Keys.{IsCache}
use esp32_ad_blocker_reborn.Cache.Stored.{write_way-Wrote}
use esp32_ad_blocker_reborn.Cache.Copies.{take-append_front}
use esp32_ad_blocker_reborn.Cache.Searches.{Search, fresh_search, stale_search, way_at}
use esp32_ad_blocker_reborn.Cache.Answers.{lookup_hit, lookup_miss}
use esp32_ad_blocker_reborn.Cache.Replies.{old-IsEntry, reply_keeps, cache_store_resp-write_way}

-- A conjunction with one part that fails, and one with parts that hold.
third_fails : (a b c d : Bool) → c ≡ false → (a && (b && (c && d))) ≡ false
third_fails true true c d h = rw (h) refl
third_fails true false c d h = refl
third_fails false b c d h = refl

five_hold :
    (a b c d e : Bool)
    → a ≡ true
    → b ≡ true
    → c ≡ true
    → d ≡ true
    → e ≡ true
    → ((true && (true && a)) && (b && (c && (d && e)))) ≡ true
five_hold a b c d e p q r s t = rw (p, q, r, s, t) refl

module _ (k : Key) (now_ms : ℕ) (write : CacheEntry → CacheEntry)
    (keeps : (e : CacheEntry) → IsEntry e → IsEntry (write e) × SameKey (entry_key (write e)) k)
    (c : Cache) (inv : IsCache c) where
  -- A write, then a search that the entry written fails and one that it passes.
  write_way-searches :
      (l : Key) (s t : Search l) (P : CacheEntry → Type 0)
      → SameKey k l
      → ((e : CacheEntry)
          → IsEntry e
          → ((write e).valid ≡ true)
            × (s.test (write e) ≡ false)
            × (t.test (write e) ≡ true)
            × P (write e))
      → Returns
          (write_way k now_ms write c >>= λ after.
            s.run after >>= λ r. t.run after >>= λ q. done (after, r, q))
          (λ (after, r, q).
            (r ≡ none)
            × ((w : ℕ) × (e : CacheEntry) × (q ≡ some w) × (way_at l w after ≡ some e) × P e))
  write_way-searches l s t P kl new =
      Returns-bind (write_way k now_ms write c) _ _ (write_way-Wrote k now_ms write c inv)
        (λ after w.
          let old : IsEntry w.old = old-IsEntry k now_ms write keeps c inv after w in
          let (good, key) = keeps w.old old in
          let (valid, fails, passes, p) = new w.old old in
          Returns-bind (s.run after) _ _
            (lookup_miss k now_ms write c after inv w good key l s kl valid fails)
            (λ r miss.
              Returns-bind (t.run after) (λ q. done (after, r, q)) _
                (lookup_hit k now_ms write c after inv w good key l t kl passes)
                (λ q hit. (miss, (w.way, write w.old, hit.0, hit.1, p)))))

-- An upstream reply of at most 512 bytes that is stored in a sound cache and whose time to live is
-- over: a lookup for its question finds nothing any more, and for a day from then on, in the
-- arithmetic of 64 bits, the stale lookup, under the generation it was stored with, finds an entry
-- that is not blocked and holds exactly the reply.
pub cache_store_resp-cache_lookup_stale :
    (h qtype : ℕ) (resp : List ℕ) (n ttl_s now_ms gen : ℕ) (c : Cache)
    → IsCache c
    → length resp ≤ fwd_resp_max
    → dns_qname_wire_len resp (length resp) header_size ≡ done (some n)
    → (l : Key) (now' : ℕ) → SameKey (reply_key h qtype resp n) l
    → u64 (now_ms + ttl_s * 1000) ≤ now'
    → now' < u64 (u64 (now_ms + ttl_s * 1000) + stale_max_ms)
    → Returns
        (cache_store_resp h qtype resp ttl_s now_ms gen c >>= λ after.
          cache_lookup l now' gen after >>= λ r.
          cache_lookup_stale l now' gen after >>= λ q. done (after, r, q))
        (λ (after, r, q).
          (r ≡ none)
          × ((w : ℕ) × (e : CacheEntry) × (q ≡ some w)
              × (way_at l w after ≡ some e)
              × ((e.blocked ≡ false) × (take e.resp_len e.resp ≡ resp))))
unfolding resp_entry copy_at
cache_store_resp-cache_lookup_stale h qtype resp n ttl_s now_ms gen c inv small named l now' same
      late soon =
    rw (cache_store_resp-write_way h qtype resp n ttl_s now_ms gen c small named) (
      write_way-searches k now_ms (resp_entry k resp (u64 (now_ms + ttl_s * 1000)) gen)
        (reply_keeps h qtype resp n ttl_s now_ms gen c inv small named) c inv l
        (fresh_search l now' gen) (stale_search l now' gen)
        (λ e. (e.blocked ≡ false) × (take e.resp_len e.resp ≡ resp)) same
        (λ e good.
          let v : CacheEntry = resp_entry k resp (u64 (now_ms + ttl_s * 1000)) gen e in
          let (entry, key) = reply_keeps h qtype resp n ttl_s now_ms gen c inv small named e good in
          let over : ltb now' v.ttl_deadline_ms ≡ false = ground (arith, late) in
          let past : leb v.ttl_deadline_ms now' ≡ true = ground (arith, late) in
          let filled : 0 < length resp =
            omega (arith, dns_qname_wire_len_inside resp (length resp) 12 n named) in
          (
            refl,
            third_fails true (matches l v) (ltb now' v.ttl_deadline_ms) (v.load_gen == gen) over,
            five_hold (ltb 0 v.resp_len) (matches l v) (leb v.ttl_deadline_ms now')
                (ltb now' (u64 (v.ttl_deadline_ms + stale_max_ms))) (v.load_gen == gen)
                (lt→ltb 0 (length resp) filled)
                (matches_complete l v entry (SameKey-trans (entry_key v) k l key same)) past
                (lt→ltb now' (u64 (v.ttl_deadline_ms + stale_max_ms)) soon)
                ((==_iff gen gen).1 refl),
            (refl, take-append_front resp (drop (0 + length resp) e.resp)),
          )))
  where
    k : Key
    k = reply_key h qtype resp n
