-- ===== src/Cache/Seqlock.antt =====
-- main/dns_server.cpp: the read of the cache from the receive task, beside a store.
-- The sequence counter is the number of its increments; the code's is that number on 32 bits. The
-- reader loads each field of an entry, each byte of its name and each byte of the copied reply at a
-- moment of its own; the fences keep the loads between the two loads of the counter.
pub mod Counter
pub mod Reader
pub mod Seen
pub mod Replayed
use esp32_ad_blocker_reborn.Common.{
  ℕ, zero, suc, ◌+◌, ◌%◌, ◌^◌, Bool, true, false, not, ◌&&◌, ◌||◌, Option, none, some, List, [],
  ◌∷◌, ◌==◌, ltb, leb, if◌then◌else◌, get_elem?, u32, Run, done, ◌>>=◌, load, ◌≡◌,
}
use esp32_ad_blocker_reborn.Cache.{
  CacheEntry, Key, Cache, cache_set, cache_key_eq, scan, zero_entry, fwd_resp_max,
}

-- What the two tasks share.
pub record Shared : Type 0 where
  pub ticks : ℕ
  pub cache : Cache

-- What the task that stores does: `cache_write_begin`, the writes in between, `cache_write_end`.
pub data Step : Shared → Shared → Type 0 where
  begin :
      (n : ℕ) (c : Cache)
      → n % 2 ≡ 0
      → Step (record { ticks = n; cache = c }) (record { ticks = n + 1; cache = c })
  write :
      (n : ℕ) (c d : Cache)
      → n % 2 ≡ 1
      → Step (record { ticks = n; cache = c }) (record { ticks = n; cache = d })
  end :
      (n : ℕ) (c : Cache)
      → n % 2 ≡ 1
      → Step (record { ticks = n; cache = c }) (record { ticks = n + 1; cache = c })

pub data Steps : Shared → Shared → Type 0 where
  stay : {a : Shared} → Steps a a
  then_step : {a b c : Shared} → Steps a b → Step b c → Steps a c

-- The entry in a way of the key's set, at one moment.
pub entry_in : Key → ℕ → Cache → CacheEntry
unfolding cache_set zero_entry
entry_in k w c = elim (get_elem? c.sets (cache_set k)) [
  | none ↦ zero_entry
  | some ways ↦ elim (get_elem? ways w) [ none ↦ zero_entry | some e ↦ e ]
]

-- The bytes of `memcpy` from `i` on, each of its own moment.
pub torn_bytes : (ℕ → List ℕ) → ℕ → ℕ → List ℕ
torn_bytes v i zero = []
torn_bytes v i (suc n) =
    let rest = torn_bytes v (i + 1) n in elim (get_elem? (v i) i) [ none ↦ [] | some b ↦ b ∷ rest ]

-- An entry as it is read: the fields of the moments 0 to 8, the reply's bytes of those from 9 on.
pub torn_entry : (ℕ → CacheEntry) → CacheEntry
unfolding torn_bytes
torn_entry v = record {
  valid = (v 0).valid;
  blocked = (v 1).blocked;
  key_hash = (v 2).key_hash;
  qtype = (v 3).qtype;
  qn_len = (v 4).qn_len;
  ttl_deadline_ms = (v 5).ttl_deadline_ms;
  load_gen = (v 6).load_gen;
  resp_len = (v 7).resp_len;
  refresh_after_ms = (v 8).refresh_after_ms;
  resp = torn_bytes (λ i. (v (9 + i)).resp) 0 fwd_resp_max;
}

-- The set as it is read: `views w j` is the state at the moment `j` of way `w`.
pub seen_ways : Key → (ℕ → ℕ → Shared) → List CacheEntry
unfolding torn_entry entry_in
seen_ways k views =
    torn_entry (λ j. entry_in k 0 (views 0 j).cache)
    ∷ torn_entry (λ j. entry_in k 1 (views 1 j).cache)
    ∷ torn_entry (λ j. entry_in k 2 (views 2 j).cache)
    ∷ torn_entry (λ j. entry_in k 3 (views 3 j).cache)
    ∷ []

-- The bytes of way `w` as the copy of the reply reads them, after the comparison of the name.
pub copied : Key → (ℕ → ℕ → Shared) → ℕ → ℕ → List ℕ
unfolding entry_in
copied k views w i = (entry_in k w (views w (9 + fwd_resp_max + i)).cache).resp

-- The conditions of the loop over the ways.
pub is_servable : Key → ℕ → ℕ → ℕ → CacheEntry → Run Bool
unfolding cache_key_eq
is_servable k now_ms gen out_cap e =
    if not e.valid || e.blocked
    then done false
    else (cache_key_eq k e >>= λ same. done (
        same
        && (ltb now_ms e.ttl_deadline_ms
            && (e.load_gen == gen
                && (ltb 0 e.resp_len && (leb e.resp_len out_cap && leb e.resp_len fwd_resp_max))))))

-- The reply, if the answer is not -1, for a cache that was allocated and a caller with a buffer;
-- `first` and `last` are the states at the two loads of the counter.
unfoldable pub dns_cache_l2_get :
    Key → ℕ → ℕ → ℕ → Shared → (ℕ → ℕ → Shared) → Shared → Run (Option (List ℕ))
unfolding seen_ways scan is_servable torn_bytes copied
dns_cache_l2_get k now_ms gen out_cap first views last =
    let s1 = u32 first.ticks in
    if s1 % 2 == 1
    then done none
    else (scan (is_servable k now_ms gen out_cap) (seen_ways k views) >>= λ r. elim r [
      | none ↦ done none
      | some w ↦ load (seen_ways k views) w >>= λ e.
          done (
            if u32 last.ticks == s1
            then some (torn_bytes (copied k views w) 0 e.resp_len)
            else none)
    ])
