-- ===== src/Cache/Stored.antt =====
-- What a store leaves: a cache in good order, the answer for its key, and no answer for another.
use esp32_ad_blocker_reborn.Common.{
  ℕ, ◌+◌, ◌*◌, ◌^◌, ◌<◌, ◌≡◌, ◌≢◌, ◌⊎◌, refl, ◌∙◌, sym, ap, subst, arith, Bool, true, some, List,
  if◌then◌else◌, length, length-set, set, get_elem?, get_elem?_total, u32, done, ◌>>=◌, load,
  load-some, get_set, Returns, Returns-bind, bit_and_le, bit_xor, inl, inr,
}
use esp32_ad_blocker_reborn.Cache.{CacheEntry, Key, Cache, cache_set, cache_victim, write_way}
use esp32_ad_blocker_reborn.Cache.Entries.{IsEntry, entry_key, SameKey, SameKey-sym, SameKey-trans}
use esp32_ad_blocker_reborn.Cache.Keys.{IsWays, IsCache, set-IsWays}
use esp32_ad_blocker_reborn.Cache.Ways.{IsVictim, cache_victim-IsVictim}

pub cache_set_lt : (k : Key) → cache_set k < 512
unfolding cache_set
cache_set_lt k = omega (arith, bit_and_le (bit_xor k.hash (u32 (k.qtype * 2 ^ 1))) 511)

pub cache_set_same : (k l : Key) → SameKey k l → cache_set k ≡ cache_set l
unfolding cache_set
cache_set_same k l (a, b, c) = rw (a, b) refl

-- What `write_way` does: `e` is what the way held before.
pub record Wrote (k : Key) (now_ms : ℕ) (write : CacheEntry → CacheEntry) (c after : Cache)
    : Type 0 where
  pub ways : List CacheEntry
  pub way : ℕ
  pub old : CacheEntry
  pub evicts : Bool
  pub there : get_elem? c.sets (cache_set k) ≡ some ways
  pub at : get_elem? ways way ≡ some old
  pub victim : IsVictim k now_ms ways (way, evicts)
  pub sets : after.sets ≡ set c.sets (cache_set k) (set ways way (write old))

way_of :
    (k : Key) (now_ms : ℕ) (ways : List CacheEntry) (r : ℕ × Bool)
    → IsVictim k now_ms ways r
    → (e : CacheEntry) × (get_elem? ways r.0 ≡ some e)
way_of k now_ms ways _ (IsVictim.own w e at valid same) = (e, at)
way_of k now_ms ways _ (IsVictim.other w m t evicts at until least foreign counts) = (m, at)

pub write_way-Wrote :
    (k : Key) (now_ms : ℕ) (write : CacheEntry → CacheEntry) (c : Cache)
    → IsCache c
    → Returns (write_way k now_ms write c) (λ after. Wrote k now_ms write c after)
unfolding write_way
write_way-Wrote k now_ms write c inv =
    on (get_elem?_total c.sets (cache_set k) (omega (arith, inv.size, cache_set_lt k)))
  where
    after_of : List CacheEntry → ℕ × Bool → CacheEntry → Cache
    after_of ways r e = record c {
      sets = set c.sets (cache_set k) (set ways r.0 (write e));
      evicted = if r.1 then u32 (c.evicted + 1) else c.evicted;
    }

    write_at :
        (ways : List CacheEntry)
        → get_elem? c.sets (cache_set k) ≡ some ways
        → (r : ℕ × Bool) → IsVictim k now_ms ways r
        → Returns
            (load ways r.0 >>= λ e. done (after_of ways r e))
            (λ after. Wrote k now_ms write c after)
    write_at ways there r victim =
        let (e, at) = way_of k now_ms ways r victim in
        rw (load-some ways r.0 at) (record {
          ways = ways;
          way = r.0;
          old = e;
          evicts = r.1;
          there = there;
          at = at;
          victim = victim;
          sets = refl;
        })

    on :
        (ways : List CacheEntry) × (get_elem? c.sets (cache_set k) ≡ some ways)
        → Returns
            (load c.sets (cache_set k) >>= λ ways. cache_victim k now_ms ways >>= λ (w, evicts).
              load ways w >>= λ e. done (after_of ways (w, evicts) e))
            (λ after. Wrote k now_ms write c after)
    on (ways, there) = rw (load-some c.sets (cache_set k) there) (
        Returns-bind (cache_victim k now_ms ways) _ (λ after. Wrote k now_ms write c after)
          (cache_victim-IsVictim k now_ms ways (inv.each (cache_set k) ways there))
          (λ r victim. write_at ways there r victim))

-- No other way of the set has the key.
victim_alone :
    (k : Key) (now_ms : ℕ) (ways : List CacheEntry) (r : ℕ × Bool)
    → IsWays ways
    → IsVictim k now_ms ways r
    → (j : ℕ) (f : CacheEntry) → r.0 ≢ j
    → get_elem? ways j ≡ some f
    → f.valid ≡ true
    → ¬ SameKey (entry_key f) k
victim_alone k now_ms ways _ inv (IsVictim.own w e at ve key) j f ne h valid = λ same. ne (
    inv.distinct w j e f at h ve valid
      (SameKey-trans (entry_key e) k (entry_key f) key (SameKey-sym (entry_key f) k same)))
victim_alone k now_ms ways _ inv (IsVictim.other w m t evicts at until least foreign counts) j f ne
      h valid =
    foreign j f h valid

pub Wrote-IsCache :
    (k : Key) (now_ms : ℕ) (write : CacheEntry → CacheEntry) (c after : Cache)
    → IsCache c
    → (w : Wrote k now_ms write c after) → IsEntry (write w.old)
    → SameKey (entry_key (write w.old)) k
    → IsCache after
Wrote-IsCache k now_ms write c after inv w good same = record {
  size =
      ap length w.sets
      ∙ length-set c.sets (cache_set k) (set w.ways w.way (write w.old))
      ∙ inv.size;
  each = λ i ways h. each i ways (
      get_set c.sets (cache_set k) i (set w.ways w.way (write w.old)) ways
        (sym (ap (λ (t : List (List CacheEntry)). get_elem? t i) w.sets) ∙ h));
}
  where
    set_inv : IsWays w.ways
    set_inv = inv.each (cache_set k) w.ways w.there

    written : IsWays (set w.ways w.way (write w.old))
    written = set-IsWays w.ways w.way (write w.old) set_inv good (λ j f ne h valid also.
        victim_alone k now_ms w.ways (w.way, w.evicts) set_inv w.victim j f ne h valid
          (SameKey-trans (entry_key f) (entry_key (write w.old)) k also same))

    each :
        (i : ℕ) (ways : List CacheEntry)
        → ((cache_set k ≡ i) × (set w.ways w.way (write w.old) ≡ ways))
          ⊎ ((cache_set k ≢ i) × (get_elem? c.sets i ≡ some ways))
        → IsWays ways
    each i ways (inl (_, e)) = subst IsWays e written
    each i ways (inr (_, h)) = inv.each i ways h
