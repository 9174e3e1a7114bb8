-- ===== src/Cache/Sound.antt =====
-- That the stores leave the cache in good order.
use esp32_ad_blocker_reborn.Common.{
  ℕ, ◌+◌, ◌*◌, ◌≤◌, ◌≡◌, refl, Bool, true, false, ◌||◌, Option, none, some, List, ◌==◌, ltb, ltb→le,
  if◌then◌else◌, length, u32, u64, Run, done, fault, out_of_fuel, ◌>>=◌, Returns,
}
use esp32_ad_blocker_reborn.Domain.{dns_qname_wire_len}
use esp32_ad_blocker_reborn.Domain.WireLength.{dns_qname_wire_len-returns}
use esp32_ad_blocker_reborn.Cache.{
  Key, Cache, write_way, blocked_entry, resp_entry, reply_key, cache_store_blocked,
  cache_store_resp,
}
use esp32_ad_blocker_reborn.Cache.Keys.{IsCache}
use esp32_ad_blocker_reborn.Cache.Replies.{write_way-IsCache, blocked_keeps, reply_keeps}

-- Every store keeps the cache sound, whatever the name or the reply is: it returns, without an
-- access out of bounds, a cache of 512 sets of four ways, in which no two ways hold one key.
pub cache_store-IsCache :
    (k : Key) (h qtype : ℕ) (resp : List ℕ) (ttl_s now_ms gen : ℕ) (c : Cache)
    → IsCache c
    → Returns (cache_store_blocked k ttl_s now_ms gen c) (λ after. IsCache after)
      × Returns (cache_store_resp h qtype resp ttl_s now_ms gen c) (λ after. IsCache after)
unfolding cache_store_blocked cache_store_resp
cache_store-IsCache k h qtype resp ttl_s now_ms gen c inv = (
  verdict (length k.name == 0) (ltb 257 (length k.name)) refl,
  reply (length resp == 0) (ltb 512 (length resp)) refl,
)
  where
    verdict :
        (a b : Bool)
        → ltb 257 (length k.name) ≡ b
        → Returns
            (if a || b
              then done c
              else write_way k now_ms (blocked_entry k (u64 (now_ms + ttl_s * 1000)) gen) c)
            (λ after. IsCache after)
    verdict true b e = inv
    verdict false true e = inv
    verdict false false e =
        write_way-IsCache k now_ms (blocked_entry k (u64 (now_ms + ttl_s * 1000)) gen)
          (blocked_keeps k (u64 (now_ms + ttl_s * 1000)) gen (ltb→le 257 (length k.name) e)) c inv

    named :
        length resp ≤ 512
        → (r : Option ℕ) → dns_qname_wire_len resp (length resp) 12 ≡ done r
        → Returns
            (elim r as (λ x. Run Cache) [
              | none ↦ done c
              | some n ↦
                  write_way
                    (reply_key h qtype resp n)
                    now_ms
                    (resp_entry (reply_key h qtype resp n) resp (u64 (now_ms + ttl_s * 1000)) gen)
                    c
            ])
            (λ after. IsCache after)
    named small none e = inv
    named small (some n) e =
        write_way-IsCache (reply_key h qtype resp n) now_ms
          (resp_entry (reply_key h qtype resp n) resp (u64 (now_ms + ttl_s * 1000)) gen)
          (reply_keeps h qtype resp n ttl_s now_ms gen c inv small e) c inv

    looked :
        length resp ≤ 512
        → (run : Run (Option ℕ)) → dns_qname_wire_len resp (length resp) 12 ≡ run
        → Returns run (λ r. Unit)
        → Returns
            (run >>= λ r. elim r as (λ x. Run Cache) [
              | none ↦ done c
              | some n ↦
                  write_way
                    (reply_key h qtype resp n)
                    now_ms
                    (resp_entry (reply_key h qtype resp n) resp (u64 (now_ms + ttl_s * 1000)) gen)
                    c
            ])
            (λ after. IsCache after)
    looked small (done r) e h = named small r e
    looked small fault e h = absurd h
    looked small out_of_fuel e h = absurd h

    reply :
        (a b : Bool)
        → ltb 512 (length resp) ≡ b
        → Returns
            (if a
              then done c
              else (if b
                  then done (record c { too_big = u32 (c.too_big + 1) })
                  else (dns_qname_wire_len resp (length resp) 12 >>= λ r.
                      elim r as (λ x. Run Cache) [
                        | none ↦ done c
                        | some n ↦
                            write_way
                              (reply_key h qtype resp n)
                              now_ms
                              (resp_entry
                                (reply_key h qtype resp n)
                                resp
                                (u64 (now_ms + ttl_s * 1000))
                                gen)
                              c
                      ])))
            (λ after. IsCache after)
    reply true b e = inv
    reply false true e = record { size = inv.size; each = inv.each }
    reply false false e =
        looked (ltb→le 512 (length resp) e) (dns_qname_wire_len resp (length resp) 12) refl
          (dns_qname_wire_len-returns resp 12)
