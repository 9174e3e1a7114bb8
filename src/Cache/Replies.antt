-- ===== src/Cache/Replies.antt =====
-- The two stores of the forward cache.
use esp32_ad_blocker_reborn.Common.{
  ℕ, ◌+◌, ◌*◌, ◌≤◌, ◌<◌, ◌≡◌, refl, arith, Bool, true, false, ◌&&◌, some, List, ◌==◌, ==_iff, ltb,
  lt→ltb, length, take, drop, u64, done, ◌>>=◌, Returns, Returns-bind, Returns_mono,
}
use esp32_ad_blocker_reborn.Domain.{dns_qname_wire_len}
use esp32_ad_blocker_reborn.Domain.WireLength.{dns_qname_wire_len_inside}
use esp32_ad_blocker_reborn.Cache.{
  CacheEntry, Key, Cache, cache_set, header_size, fwd_resp_max, qname_wire_max, write_way,
  cache_lookup, copy_at, blocked_entry, resp_entry, reply_key, cache_store_blocked,
  cache_store_resp,
}
use esp32_ad_blocker_reborn.Cache.Entries.{
  IsEntry, entry_key, SameKey, SameKey-trans, matches, matches_complete,
}
use esp32_ad_blocker_reborn.Cache.Keys.{IsCache}
use esp32_ad_blocker_reborn.Cache.Stored.{Wrote, write_way-Wrote, Wrote-IsCache}
use esp32_ad_blocker_reborn.Cache.Copies.{
  blocked_entry-IsEntry, resp_entry-IsEntry, take-append_front,
}
use esp32_ad_blocker_reborn.Cache.Searches.{fresh_search, Search, way_at}
use esp32_ad_blocker_reborn.Cache.Answers.{WasThere, lookup_hit, lookup_other}

module _ (k : Key) (now_ms : ℕ) (write : CacheEntry → CacheEntry)
    (keeps : (e : CacheEntry) → IsEntry e → IsEntry (write e) × SameKey (entry_key (write e)) k)
    (c : Cache) (inv : IsCache c) where
  pub old-IsEntry : (after : Cache) (w : Wrote k now_ms write c after) → IsEntry w.old
  old-IsEntry after w = (inv.each (cache_set k) w.ways w.there).entries w.way w.old w.at

  pub write_way-IsCache : Returns (write_way k now_ms write c) (λ after. IsCache after)
  write_way-IsCache =
      Returns_mono (write_way k now_ms write c) (write_way-Wrote k now_ms write c inv) (λ after w.
        Wrote-IsCache k now_ms write c after inv w (keeps w.old (old-IsEntry after w)).0
          (keeps w.old (old-IsEntry after w)).1)

  -- A write and then a lookup for its key: what is written is found if it is fresh.
  write_way-lookup :
      (l : Key) (s : Search l) (P : CacheEntry → Type 0)
      → SameKey k l
      → ((e : CacheEntry) → IsEntry e → (s.test (write e) ≡ true) × P (write e))
      → Returns
          (write_way k now_ms write c >>= λ after. s.run after >>= λ r. done (after, r))
          (λ (after, r).
            IsCache after
            × ((w : ℕ) × (e : CacheEntry) × (r ≡ some w) × (way_at l w after ≡ some e) × P e))
  write_way-lookup l s P kl new =
      Returns-bind (write_way k now_ms write c) _ _ (write_way-Wrote k now_ms write c inv)
        (λ after w.
          let good = keeps w.old (old-IsEntry after w) in
          let fresh = new w.old (old-IsEntry after w) in
          Returns-bind (s.run after) (λ r. done (after, r)) _
            (lookup_hit k now_ms write c after inv w good.0 good.1 l s kl fresh.0)
            (λ r hit. (
              Wrote-IsCache k now_ms write c after inv w good.0 good.1,
              (w.way, write w.old, hit.0, hit.1, fresh.1),
            )))

  -- A write and then a lookup for another key.
  write_way-other :
      (l : Key) (s : Search l)
      → ¬ SameKey k l
      → Returns
          (write_way k now_ms write c >>= λ after. s.run after >>= λ r. done (after, r))
          (λ (after, r). WasThere l c after r)
  write_way-other l s ne =
      Returns-bind (write_way k now_ms write c) _ _ (write_way-Wrote k now_ms write c inv)
        (λ after w.
          let good = keeps w.old (old-IsEntry after w) in
          Returns-bind (s.run after) (λ r. done (after, r)) _
            (lookup_other k now_ms write c after inv w good.0 good.1 l s ne) (λ r was. was))

-- A reply that is accepted is written.
pub cache_store_resp-write_way :
    (h qtype : ℕ) (resp : List ℕ) (n ttl_s now_ms gen : ℕ) (c : Cache)
    → length resp ≤ fwd_resp_max
    → dns_qname_wire_len resp (length resp) header_size ≡ done (some n)
    → cache_store_resp h qtype resp ttl_s now_ms gen c
      ≡ write_way
          (reply_key h qtype resp n)
          now_ms
          (resp_entry (reply_key h qtype resp n) resp (u64 (now_ms + ttl_s * 1000)) gen)
          c
unfolding cache_store_resp
cache_store_resp-write_way h qtype resp n ttl_s now_ms gen c small named =
    let filled : (length resp == 0) ≡ false =
      ground (arith, dns_qname_wire_len_inside resp (length resp) 12 n named) in
    let fits : ltb 512 (length resp) ≡ false = ground (arith, small) in
    rw (filled, fits, named) refl

pub fresh_all :
    (a b c d : Bool) → a ≡ true → b ≡ true → c ≡ true → d ≡ true → (a && (b && (c && d))) ≡ true
fresh_all a b c d p q r s = rw (p, q, r, s) refl

module _ (h qtype : ℕ) (resp : List ℕ) (n ttl_s now_ms gen : ℕ) (c : Cache) (inv : IsCache c)
    (small : length resp ≤ fwd_resp_max)
    (named : dns_qname_wire_len resp (length resp) header_size ≡ done (some n)) where
  pub reply_keeps :
      (e : CacheEntry)
      → IsEntry e
      → IsEntry (resp_entry (reply_key h qtype resp n) resp (u64 (now_ms + ttl_s * 1000)) gen e)
        × SameKey
            (entry_key
              (resp_entry (reply_key h qtype resp n) resp (u64 (now_ms + ttl_s * 1000)) gen e))
            (reply_key h qtype resp n)
  reply_keeps e good =
      resp_entry-IsEntry h qtype resp n (u64 (now_ms + ttl_s * 1000)) gen e good small
        (dns_qname_wire_len_inside resp (length resp) 12 n named)

  -- An upstream reply of at most 512 bytes that is stored in a sound cache leaves a sound cache. Until
  -- the time to live is over, a lookup for its type and name, in any case, under the generation it was
  -- stored with, finds an entry that is not blocked and holds exactly the reply.
  pub cache_store_resp-cache_lookup :
      (l : Key) (now' : ℕ)
      → SameKey (reply_key h qtype resp n) l
      → now' < u64 (now_ms + ttl_s * 1000)
      → Returns
          (cache_store_resp h qtype resp ttl_s now_ms gen c >>= λ after.
            cache_lookup l now' gen after >>= λ r. done (after, r))
          (λ (after, r).
            IsCache after
            × ((w : ℕ) × (e : CacheEntry) × (r ≡ some w)
                × (way_at l w after ≡ some e)
                × ((e.blocked ≡ false) × (take e.resp_len e.resp ≡ resp))))
  unfolding resp_entry copy_at
  cache_store_resp-cache_lookup l now' same early =
      rw (cache_store_resp-write_way h qtype resp n ttl_s now_ms gen c small named) (
        write_way-lookup (reply_key h qtype resp n) now_ms
          (resp_entry (reply_key h qtype resp n) resp (u64 (now_ms + ttl_s * 1000)) gen) reply_keeps
          c inv l (fresh_search l now' gen)
          (λ e. (e.blocked ≡ false) × (take e.resp_len e.resp ≡ resp)) same
          (λ e good.
            let v : CacheEntry =
              resp_entry (reply_key h qtype resp n) resp (u64 (now_ms + ttl_s * 1000)) gen e in
            let (entry, key) = reply_keeps e good in
            (
              fresh_all true (matches l v) (ltb now' v.ttl_deadline_ms) (v.load_gen == gen) refl
                  (matches_complete l v entry
                    (SameKey-trans (entry_key v) (reply_key h qtype resp n) l key same))
                  (lt→ltb now' v.ttl_deadline_ms early) ((==_iff gen gen).1 refl),
              (refl, take-append_front resp (drop (0 + length resp) e.resp)),
            )))

  -- Storing a reply never makes an answer for another question: what a lookup for a key with
  -- another hash, type or name finds after the store was in the same way before it.
  pub cache_store_resp-WasThere :
      (l : Key) (now' gen' : ℕ)
      → ¬ SameKey (reply_key h qtype resp n) l
      → Returns
          (cache_store_resp h qtype resp ttl_s now_ms gen c >>= λ after.
            cache_lookup l now' gen' after >>= λ r. done (after, r))
          (λ (after, r). WasThere l c after r)
  cache_store_resp-WasThere l now' gen' ne =
      rw (cache_store_resp-write_way h qtype resp n ttl_s now_ms gen c small named) (
        write_way-other (reply_key h qtype resp n) now_ms
          (resp_entry (reply_key h qtype resp n) resp (u64 (now_ms + ttl_s * 1000)) gen) reply_keeps
          c inv l (fresh_search l now' gen') ne)

pub blocked_keeps :
    (k : Key) (deadline gen : ℕ)
    → length k.name ≤ qname_wire_max
    → (e : CacheEntry) → IsEntry e
    → IsEntry (blocked_entry k deadline gen e)
      × SameKey (entry_key (blocked_entry k deadline gen e)) k
blocked_keeps k deadline gen small e good = blocked_entry-IsEntry k deadline gen e good small

-- A verdict that is stored for a name of 1 to 257 wire bytes, in a sound cache, leaves a sound cache.
-- Until its time to live is over, a lookup for the key, the name in any case, under the generation of
-- the verdict finds a blocked entry.
pub cache_store_blocked-cache_lookup :
    (k l : Key) (ttl_s now_ms gen now' : ℕ) (c : Cache)
    → IsCache c
    → 0 < length k.name
    → length k.name ≤ qname_wire_max
    → SameKey k l
    → now' < u64 (now_ms + ttl_s * 1000)
    → Returns
        (cache_store_blocked k ttl_s now_ms gen c >>= λ after.
          cache_lookup l now' gen after >>= λ r. done (after, r))
        (λ (after, r).
          IsCache after
          × ((w : ℕ) × (e : CacheEntry) × (r ≡ some w)
              × (way_at l w after ≡ some e)
              × (e.blocked ≡ true)))
unfolding cache_store_blocked blocked_entry
cache_store_blocked-cache_lookup k l ttl_s now_ms gen now' c inv filled small same early =
    let named : (length k.name == 0) ≡ false = ground (arith, filled) in
    let fits : ltb 257 (length k.name) ≡ false = ground (arith, small) in
    rw (named, fits)
      (write_way-lookup k now_ms (blocked_entry k (u64 (now_ms + ttl_s * 1000)) gen)
        (blocked_keeps k (u64 (now_ms + ttl_s * 1000)) gen small) c inv l (fresh_search l now' gen)
        (λ e. e.blocked ≡ true) same
        (λ e good.
          let v : CacheEntry = blocked_entry k (u64 (now_ms + ttl_s * 1000)) gen e in
          let (entry, key) = blocked_keeps k (u64 (now_ms + ttl_s * 1000)) gen small e good in
          (
            fresh_all true (matches l v) (ltb now' v.ttl_deadline_ms) (v.load_gen == gen) refl
                (matches_complete l v entry (SameKey-trans (entry_key v) k l key same))
                (lt→ltb now' v.ttl_deadline_ms early) ((==_iff gen gen).1 refl),
            refl,
          )))
