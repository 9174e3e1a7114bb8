-- ===== src/Cache.antt =====
-- main/dns_server.cpp: the forward cache, of 512 sets with four ways each.
-- The clock's readings and the generation of the blocklist are arguments. A question name is the
-- list of its wire bytes; a reply is the list of its bytes.
pub mod Entries
pub mod Keys
pub mod Picks
pub mod Ways
pub mod Stored
pub mod Copies
pub mod Searches
pub mod Answers
pub mod Replies
pub mod Sound
pub mod Stale
pub mod Seqlock
mod Examples
use mathlib.Core.Option
use esp32_ad_blocker_reborn.Common.{
  ℕ, zero, suc, ◌+◌, ◌-◌, ◌*◌, ◌%◌, ◌^◌, Bool, true, false, not, ◌&&◌, ◌||◌, Option, none, some,
  List, [], ◌∷◌, ◌++◌, bit_and, bit_xor, ◌==◌, ltb, leb, if◌then◌else◌, length, replicate, set,
  take, drop, u32, u64, ◌<<<◌, Run, done, ◌>>=◌, load,
}
use esp32_ad_blocker_reborn.Domain.{dns_qname_wire_eq, dns_qname_wire_len}

abbrev pub cache_ways : ℕ
cache_ways = 4

abbrev pub cache_sets : ℕ
cache_sets = 512

abbrev pub fwd_resp_max : ℕ
fwd_resp_max = 512

abbrev pub qname_wire_max : ℕ
qname_wire_max = 257

abbrev pub header_size : ℕ
header_size = 12

-- STALE_MAX_S in milliseconds.
abbrev pub stale_max_ms : ℕ
stale_max_ms = 86400 * 1000

pub record CacheEntry : Type 0 where
  pub key_hash : ℕ
  pub ttl_deadline_ms : ℕ
  pub valid : Bool
  pub blocked : Bool
  pub qtype : ℕ
  pub resp_len : ℕ
  pub qn_len : ℕ
  pub refresh_after_ms : ℕ
  pub load_gen : ℕ
  pub resp : List ℕ

-- What a lookup asks for: the hash, the type and the name of the question.
pub record Key : Type 0 where
  pub hash : ℕ
  pub qtype : ℕ
  pub name : List ℕ

-- The array, as its sets, with the two counters.
pub record Cache : Type 0 where
  pub sets : List (List CacheEntry)
  pub evicted : ℕ
  pub too_big : ℕ

pub zero_entry : CacheEntry
zero_entry = record {
  key_hash = 0;
  ttl_deadline_ms = 0;
  valid = false;
  blocked = false;
  qtype = 0;
  resp_len = 0;
  qn_len = 0;
  refresh_after_ms = 0;
  load_gen = 0;
  resp = replicate fwd_resp_max 0;
}

-- The cache after `cache_init`, when the memory is had.
unfoldable pub cache_init : Cache
unfolding zero_entry
cache_init = record {
  sets = replicate cache_sets (replicate cache_ways zero_entry);
  evicted = 0;
  too_big = 0;
}

-- The number of the set.
pub cache_set : Key → ℕ
cache_set k = bit_and (bit_xor k.hash (u32 (k.qtype <<< 1))) (cache_sets - 1)

pub cache_key_eq : Key → CacheEntry → Run Bool
cache_key_eq k e =
    if e.key_hash == k.hash && (e.qtype == k.qtype && e.qn_len == length k.name)
    then dns_qname_wire_eq (drop header_size e.resp) k.name (length k.name)
    else done false

-- The first way of a set that passes a test.
pub scan : (CacheEntry → Run Bool) → List CacheEntry → Run (Option ℕ)
scan test [] = done none
scan test (e ∷ es) = test e >>= λ hit. elim (hit) [
  | true ↦ done (some 0)
  | false ↦ scan test es >>= λ r. done (Option.map suc r)
]

-- The condition of `cache_lookup`.
pub is_fresh : Key → ℕ → ℕ → CacheEntry → Run Bool
unfolding cache_key_eq
is_fresh k now_ms gen e =
    if e.valid
    then (cache_key_eq k e >>= λ same.
        done (same && (ltb now_ms e.ttl_deadline_ms && e.load_gen == gen)))
    else done false

-- The way of the key's set, if one has the answer.
unfoldable pub cache_lookup : Key → ℕ → ℕ → Cache → Run (Option ℕ)
unfolding cache_set scan is_fresh
cache_lookup k now_ms gen c =
    load c.sets (cache_set k) >>= λ ways. scan (is_fresh k now_ms gen) ways

-- The condition of `cache_lookup_stale`.
pub is_stale : Key → ℕ → ℕ → CacheEntry → Run Bool
unfolding cache_key_eq
is_stale k now_ms gen e =
    if e.valid && (not e.blocked && ltb 0 e.resp_len)
    then (cache_key_eq k e >>= λ same. done (
        same
        && (leb e.ttl_deadline_ms now_ms
            && (ltb now_ms (u64 (e.ttl_deadline_ms + stale_max_ms)) && e.load_gen == gen))))
    else done false

unfoldable pub cache_lookup_stale : Key → ℕ → ℕ → Cache → Run (Option ℕ)
unfolding cache_set scan is_stale
cache_lookup_stale k now_ms gen c =
    load c.sets (cache_set k) >>= λ ways. scan (is_stale k now_ms gen) ways

-- The time from which a way is of no use.
pub useful_until : CacheEntry → ℕ
useful_until e =
    if not e.valid then 0 else u64 (e.ttl_deadline_ms + (if e.blocked then 0 else stale_max_ms))

pub has_key : Key → CacheEntry → Run Bool
unfolding cache_key_eq
has_key k e = if e.valid then cache_key_eq k e else done false

-- The loop of `cache_victim` from way `w` on: the way, and the time it was of use until if it is not
-- the key's own.
pub victim_loop : Key → ℕ → ℕ → ℕ → List CacheEntry → Run (ℕ × Option ℕ)
unfolding has_key useful_until
victim_loop k w victim victim_end [] = done (victim, some victim_end)
victim_loop k w victim victim_end (e ∷ es) = has_key k e >>= λ own. elim (own) [
  | true ↦ done (w, none)
  | false ↦
      let sooner = ltb (useful_until e) victim_end in
      victim_loop k (w + 1) (if sooner then w else victim)
        (if sooner then useful_until e else victim_end) es
]

-- The way to write, and whether an entry of use is evicted.
pub cache_victim : Key → ℕ → List CacheEntry → Run (ℕ × Bool)
unfolding victim_loop
cache_victim k now_ms ways = victim_loop k 0 0 (2 ^ 64 - 1) ways >>= λ (victim, end). elim end [
  | none ↦ done (victim, false)
  | some t ↦ load ways victim >>= λ e. done (victim, e.valid && ltb now_ms t)
]

-- `memcpy` into a buffer at an offset.
pub copy_at : ℕ → List ℕ → List ℕ → List ℕ
copy_at off bytes buf = take off buf ++ (bytes ++ drop (off + length bytes) buf)

pub blocked_entry : Key → ℕ → ℕ → CacheEntry → CacheEntry
unfolding copy_at
blocked_entry k deadline gen e = record e {
  key_hash = k.hash;
  qtype = k.qtype;
  blocked = true;
  valid = true;
  resp_len = 0;
  resp = copy_at header_size k.name e.resp;
  qn_len = length k.name;
  ttl_deadline_ms = deadline;
  load_gen = gen;
}

pub resp_entry : Key → List ℕ → ℕ → ℕ → CacheEntry → CacheEntry
unfolding copy_at
resp_entry k resp deadline gen e = record e {
  key_hash = k.hash;
  qtype = k.qtype;
  blocked = false;
  valid = true;
  resp_len = length resp;
  resp = copy_at 0 resp e.resp;
  qn_len = length k.name;
  ttl_deadline_ms = deadline;
  refresh_after_ms = 0;
  load_gen = gen;
}

-- The writing of the victim's way by `write`.
pub write_way : Key → ℕ → (CacheEntry → CacheEntry) → Cache → Run Cache
unfolding cache_set cache_victim
write_way k now_ms write c = load c.sets (cache_set k) >>= λ ways.
    cache_victim k now_ms ways >>= λ (w, evicts). load ways w >>= λ e. done (record c {
      sets = set c.sets (cache_set k) (set ways w (write e));
      evicted = if evicts then u32 (c.evicted + 1) else c.evicted;
    })

unfoldable pub cache_store_blocked : Key → ℕ → ℕ → ℕ → Cache → Run Cache
unfolding write_way blocked_entry
cache_store_blocked k ttl_s now_ms load_gen c =
    if length k.name == 0 || ltb qname_wire_max (length k.name)
    then done c
    else write_way k now_ms (blocked_entry k (u64 (now_ms + ttl_s * 1000)) load_gen) c

-- The key of a reply: its hash and type are the caller's, the name is the reply's own.
pub reply_key : ℕ → ℕ → List ℕ → ℕ → Key
reply_key h qtype resp qn_len = record {
  hash = h;
  qtype = qtype;
  name = take qn_len (drop header_size resp);
}

unfoldable pub cache_store_resp : ℕ → ℕ → List ℕ → ℕ → ℕ → ℕ → Cache → Run Cache
unfolding write_way resp_entry reply_key
cache_store_resp h qtype resp ttl_s now_ms load_gen c =
    if length resp == 0
    then done c
    else (if ltb fwd_resp_max (length resp)
        then done (record c { too_big = u32 (c.too_big + 1) })
        else (dns_qname_wire_len resp (length resp) header_size >>= λ r. elim r [
          | none ↦ done c
          | some qn_len ↦
              let k = reply_key h qtype resp qn_len in
              write_way k now_ms (resp_entry k resp (u64 (now_ms + ttl_s * 1000)) load_gen) c
        ]))
