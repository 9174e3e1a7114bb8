-- ===== src/Cache/Answers.antt =====
-- What a lookup answers after a store.
use esp32_ad_blocker_reborn.Common.{
  ℕ, ◌≡◌, ◌≢◌, ◌⊎◌, refl, ◌∙◌, sym, ap, subst, arith, true, false, Option, none, some, List,
  some_inj, set, get_elem?, get_elem?_total, get_elem?_lt, get_set, get_elem?-set_self, Returns,
  Returns_mono, inl, inr,
}
use esp32_ad_blocker_reborn.Cache.{CacheEntry, Key, Cache, cache_set}
use esp32_ad_blocker_reborn.Cache.Entries.{IsEntry, entry_key, SameKey, SameKey-sym, SameKey-trans}
use esp32_ad_blocker_reborn.Cache.Keys.{IsCache, Found}
use esp32_ad_blocker_reborn.Cache.Stored.{Wrote, Wrote-IsCache, cache_set_same, cache_set_lt}
use esp32_ad_blocker_reborn.Cache.Searches.{Search, way_at}

-- An answer after a store is the entry that the same way had before it.
abbrev pub WasThere : Key → Cache → Cache → Option ℕ → Type 0
WasThere l c after none = Unit
WasThere l c after (some j) =
    (e : CacheEntry) × (way_at l j after ≡ some e) × (way_at l j c ≡ some e)

module _ (k : Key) (now_ms : ℕ) (write : CacheEntry → CacheEntry) (c after : Cache)
    (inv : IsCache c) (w : Wrote k now_ms write c after) (good : IsEntry (write w.old))
    (same : SameKey (entry_key (write w.old)) k) where
  sound : IsCache after
  sound = Wrote-IsCache k now_ms write c after inv w good same

  there :
      (l : Key)
      → SameKey k l
      → get_elem? after.sets (cache_set l) ≡ some (set w.ways w.way (write w.old))
  there l kl =
      ap (λ (t : List (List CacheEntry)). get_elem? t (cache_set l)) w.sets
      ∙ ap (λ (i : ℕ). get_elem? (set c.sets (cache_set k) (set w.ways w.way (write w.old))) i)
          (sym (cache_set_same k l kl))
      ∙ get_elem?-set_self c.sets (cache_set k) (set w.ways w.way (write w.old))
          (get_elem?_lt c.sets (cache_set k) w.there)

  placed : get_elem? (set w.ways w.way (write w.old)) w.way ≡ some (write w.old)
  placed = get_elem?-set_self w.ways w.way (write w.old) (get_elem?_lt w.ways w.way w.at)

  -- A lookup for the key finds the way that was written, if it is fresh.
  pub lookup_hit :
      (l : Key) (s : Search l)
      → SameKey k l
      → s.test (write w.old) ≡ true
      → Returns (s.run after) (λ r. (r ≡ some w.way) × (way_at l w.way after ≡ some (write w.old)))
  lookup_hit l s kl hit =
      Returns_mono (s.run after)
        (s.finds after (set w.ways w.way (write w.old))
          (sound.each (cache_set l) (set w.ways w.way (write w.old)) (there l kl)) (there l kl))
        (λ r found. only r found)
    where
      at_way : way_at l w.way after ≡ some (write w.old)
      at_way =
          ap
            (λ (o : Option (List CacheEntry)). elim o as (λ y. Option CacheEntry) [
              | none ↦ none
              | some ways ↦ get_elem? ways w.way
            ])
            (there l kl)
          ∙ placed

      only :
          (r : Option ℕ)
          → Found (s.test) (set w.ways w.way (write w.old)) r
          → (r ≡ some w.way) × (way_at l w.way after ≡ some (write w.old))
      only none miss =
          let wrong : true ≡ false = sym hit ∙ miss w.way (write w.old) placed in absurd (cc)
      only (some j) (e, at, fresh) =
          let (ve, ke) = s.parts e fresh in
          let (vv, kv) = s.parts (write w.old) hit in
          let index : j ≡ w.way =
            (sound.each (cache_set l) (set w.ways w.way (write w.old)) (there l kl)).distinct j
              w.way e (write w.old) at placed ve vv
              (SameKey-trans (entry_key e) l (entry_key (write w.old)) ke
                (SameKey-sym (entry_key (write w.old)) l kv)) in
          (ap some index, at_way)

  -- A search whose test the entry written does not pass finds nothing for its key.
  pub lookup_miss :
      (l : Key) (s : Search l)
      → SameKey k l
      → (write w.old).valid ≡ true
      → s.test (write w.old) ≡ false
      → Returns (s.run after) (λ r. r ≡ none)
  lookup_miss l s kl valid fails =
      Returns_mono (s.run after)
        (s.finds after (set w.ways w.way (write w.old))
          (sound.each (cache_set l) (set w.ways w.way (write w.old)) (there l kl)) (there l kl))
        (λ r found. only r found)
    where
      only : (r : Option ℕ) → Found s.test (set w.ways w.way (write w.old)) r → r ≡ none
      only none miss = refl
      only (some j) (e, at, passes) =
          let (ve, ke) = s.parts e passes in
          let index : j ≡ w.way =
            (sound.each (cache_set l) (set w.ways w.way (write w.old)) (there l kl)).distinct j
              w.way e (write w.old) at placed ve valid
              (SameKey-trans (entry_key e) l (entry_key (write w.old)) ke (
                SameKey-trans l k (entry_key (write w.old)) (SameKey-sym k l kl)
                  (SameKey-sym (entry_key (write w.old)) k same))) in
          let here : some e ≡ some (write w.old) =
            sym at ∙ ap (λ (t : ℕ). get_elem? (set w.ways w.way (write w.old)) t) index ∙ placed in
          let wrong : true ≡ false = sym passes ∙ ap s.test (some_inj here) ∙ fails in absurd (cc)

  -- A lookup for another key finds only what was there.
  pub lookup_other :
      (l : Key) (s : Search l) → ¬ SameKey k l → Returns (s.run after) (λ r. WasThere l c after r)
  lookup_other l s ne =
      at (get_elem?_total after.sets (cache_set l) (omega (arith, sound.size, cache_set_lt l)))
    where
      through :
          (d : Cache) (ways : List CacheEntry) (j : ℕ) (e : CacheEntry)
          → get_elem? d.sets (cache_set l) ≡ some ways
          → get_elem? ways j ≡ some e
          → way_at l j d ≡ some e
      through d ways j e p q =
          ap
            (λ (o : Option (List CacheEntry)). elim o as (λ y. Option CacheEntry) [
              | none ↦ none
              | some ways ↦ get_elem? ways j
            ])
            p
          ∙ q

      in_old :
          (ways : List CacheEntry) (j : ℕ) (e : CacheEntry)
          → get_elem? ways j ≡ some e
          → SameKey (entry_key e) l
          → ((cache_set k ≡ cache_set l) × (set w.ways w.way (write w.old) ≡ ways))
            ⊎ ((cache_set k ≢ cache_set l) × (get_elem? c.sets (cache_set l) ≡ some ways))
          → way_at l j c ≡ some e
      in_old ways j e at el (inr (_, p)) = through c ways j e p at
      in_old ways j e at el (inl (index, p)) =
          elim (get_set w.ways w.way j (write w.old) e
            (ap (λ (t : List CacheEntry). get_elem? t j) p ∙ at)) [
              | inl (_, equal) ↦ absurd (
                  ne (
                    SameKey-trans k (entry_key (write w.old)) l
                      (SameKey-sym (entry_key (write w.old)) k same)
                      (subst (λ (t : CacheEntry). SameKey (entry_key t) l) (sym equal) el)))
              | inr (_, before) ↦
                  through c w.ways j e (ap (λ (i : ℕ). get_elem? c.sets i) (sym index) ∙ w.there)
                    before
            ]

      of_found :
          (ways : List CacheEntry)
          → get_elem? after.sets (cache_set l) ≡ some ways
          → (r : Option ℕ) → Found (s.test) ways r
          → WasThere l c after r
      of_found ways p none miss = tt
      of_found ways p (some j) (e, at, fresh) = (
        e,
        through after ways j e p at,
        in_old ways j e at (s.parts e fresh).1 (
            get_set c.sets (cache_set k) (cache_set l) (set w.ways w.way (write w.old)) ways
              (sym (ap (λ (t : List (List CacheEntry)). get_elem? t (cache_set l)) w.sets) ∙ p)),
      )

      at :
          (ways : List CacheEntry) × (get_elem? after.sets (cache_set l) ≡ some ways)
          → Returns (s.run after) (λ r. WasThere l c after r)
      at (ways, p) =
          Returns_mono (s.run after) (s.finds after ways (sound.each (cache_set l) ways p) p)
            (λ r found. of_found ways p r found)
