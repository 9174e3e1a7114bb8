-- ===== src/Cache/Keys.antt =====
-- Sets in good order: at most one way for each key; and what the loops over a set find.
use mathlib.Core.Option
use mathlib.Core.Option.{none-ne-some}
use esp32_ad_blocker_reborn.Common.{
  ℕ, zero, suc, ◌≡◌, ◌≢◌, ◌⊎◌, refl, ◌∙◌, sym, ap, subst, arith, Bool, true, false, Option, none,
  some, List, [], ◌∷◌, some_inj, length, length-set, length-replicate, replicate, set, get_elem?,
  get_set, get-replicate, Run, done, ◌>>=◌, Returns, Returns-bind, inl, inr,
}
use esp32_ad_blocker_reborn.Cache.{
  CacheEntry, Cache, cache_ways, cache_sets, cache_init, zero_entry, scan,
}
use esp32_ad_blocker_reborn.Cache.Entries.{IsEntry, entry_key, SameKey}

-- A set of the cache.
pub record IsWays (ways : List CacheEntry) : Type 0 where
  pub size : length ways ≡ cache_ways
  pub entries : (i : ℕ) (e : CacheEntry) → get_elem? ways i ≡ some e → IsEntry e
  pub distinct :
      (i j : ℕ) (e f : CacheEntry)
      → get_elem? ways i ≡ some e
      → get_elem? ways j ≡ some f
      → e.valid ≡ true
      → f.valid ≡ true
      → SameKey (entry_key e) (entry_key f)
      → i ≡ j

pub record IsCache (c : Cache) : Type 0 where
  pub size : length c.sets ≡ cache_sets
  pub each : (i : ℕ) (ways : List CacheEntry) → get_elem? c.sets i ≡ some ways → IsWays ways

-- What a scan of a set finds by a test.
abbrev pub Found : (CacheEntry → Bool) → List CacheEntry → Option ℕ → Type 0
Found q es none = (i : ℕ) (e : CacheEntry) → get_elem? es i ≡ some e → q e ≡ false
Found q es (some i) = (e : CacheEntry) × (get_elem? es i ≡ some e) × (q e ≡ true)

pub scan-Found :
    (test : CacheEntry → Run Bool) (q : CacheEntry → Bool) (es : List CacheEntry)
    → ((i : ℕ) (e : CacheEntry) → get_elem? es i ≡ some e → test e ≡ done (q e))
    → Returns (scan test es) (λ r. Found q es r)
unfolding scan
scan-Found test q [] total = λ i e h. absurd (none-ne-some _ h)
scan-Found test q (x ∷ xs) total =
    rw (total 0 x refl) (at (q x) refl (scan-Found test q xs (λ i e h. total (suc i) e h)))
  where
    later : q x ≡ false → (r : Option ℕ) → Found q xs r → Found q (x ∷ xs) (Option.map suc r)
    later miss (some i) h = h
    later miss none h = λ i e at. each i e at
      where
        each : (i : ℕ) (e : CacheEntry) → get_elem? (x ∷ xs) i ≡ some e → q e ≡ false
        each zero e at = ap q (sym (some_inj at)) ∙ miss
        each (suc i) e at = h i e at

    at :
        (b : Bool)
        → q x ≡ b
        → Returns (scan test xs) (λ r. Found q xs r)
        → Returns
            (elim b as (λ y. Run (Option ℕ)) [
              | true ↦ done (some 0)
              | false ↦ scan test xs >>= λ r. done (Option.map suc r)
            ])
            (λ r. Found q (x ∷ xs) r)
    at true hit h = (x, refl, hit)
    at false miss h =
        Returns-bind (scan test xs) (λ r. done (Option.map suc r)) (λ r. Found q (x ∷ xs) r) h
          (λ r found. later miss r found)

-- Writing an entry whose key no other way has.
pub set-IsWays :
    (ways : List CacheEntry) (w : ℕ) (v : CacheEntry)
    → IsWays ways
    → IsEntry v
    → ((j : ℕ) (f : CacheEntry)
        → w ≢ j
        → get_elem? ways j ≡ some f
        → f.valid ≡ true
        → ¬ SameKey (entry_key f) (entry_key v))
    → IsWays (set ways w v)
set-IsWays ways w v inv good free = record {
  size = length-set ways w v ∙ inv.size;
  entries = λ i e h. entry i e (get_set ways w i v e h);
  distinct = λ i j e f hi hj ve vf same.
      pair i j e f ve vf same (get_set ways w i v e hi) (get_set ways w j v f hj);
}
  where
    entry :
        (i : ℕ) (e : CacheEntry)
        → ((w ≡ i) × (v ≡ e)) ⊎ ((w ≢ i) × (get_elem? ways i ≡ some e))
        → IsEntry e
    entry i e (inl (_, same)) = subst IsEntry same good
    entry i e (inr (_, at)) = inv.entries i e at

    back :
        (e f : CacheEntry)
        → SameKey (entry_key e) (entry_key f)
        → SameKey (entry_key f) (entry_key e)
    back e f (a, b, c) = (sym a, sym b, sym c)

    pair :
        (i j : ℕ) (e f : CacheEntry)
        → e.valid ≡ true
        → f.valid ≡ true
        → SameKey (entry_key e) (entry_key f)
        → ((w ≡ i) × (v ≡ e)) ⊎ ((w ≢ i) × (get_elem? ways i ≡ some e))
        → ((w ≡ j) × (v ≡ f)) ⊎ ((w ≢ j) × (get_elem? ways j ≡ some f))
        → i ≡ j
    pair i j e f ve vf same (inl (a, _)) (inl (b, _)) = sym a ∙ b
    pair i j e f ve vf same (inl (a, p)) (inr (b, at)) = absurd (
        free j f b at vf (
          back (v) f
            (subst (λ (t : CacheEntry). SameKey (entry_key t) (entry_key f)) (sym p) same)))
    pair i j e f ve vf same (inr (a, at)) (inl (b, p)) = absurd (
        free i e a at ve
          (subst (λ (t : CacheEntry). SameKey (entry_key e) (entry_key t)) (sym p) same))
    pair i j e f ve vf same (inr (a, at)) (inr (b, bt)) = inv.distinct i j e f at bt ve vf same

pub zero_entry-IsEntry : IsEntry zero_entry
unfolding zero_entry
zero_entry-IsEntry = record { size = length-replicate {A = ℕ} 512 0; name = omega arith }

pub zero_set-IsWays : IsWays (replicate cache_ways zero_entry)
unfolding zero_entry
zero_set-IsWays = record {
  size = refl;
  entries = λ i e h. subst IsEntry (get-replicate cache_ways zero_entry e i h) zero_entry-IsEntry;
  distinct = λ i j e f hi hj ve vf same.
      (let wrong : false ≡ true =
          ap (λ (t : CacheEntry). t.valid) (get-replicate cache_ways zero_entry e i hi) ∙ ve in
        absurd (cc));
}

-- The empty cache is in good order.
pub cache_init-IsCache : IsCache cache_init
unfolding cache_init
cache_init-IsCache = record {
  size = length-replicate cache_sets (replicate cache_ways zero_entry);
  each = λ i ways h.
      subst IsWays (get-replicate cache_sets (replicate cache_ways zero_entry) ways i h)
        zero_set-IsWays;
}
