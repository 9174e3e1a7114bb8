-- ===== src/Cache/Seqlock/Reader.antt =====
-- What the receive task replays beside a store is a reply that was stored whole.
use mathlib.Core.Option
use mathlib.Core.Option.{none-ne-some}
use esp32_ad_blocker_reborn.Common.{
  ℕ, zero, suc, ◌+◌, ◌≤◌, ◌<◌, ◌≡◌, refl, ◌∙◌, ap, arith, Bool, true, false, not, ◌&&◌, ◌||◌,
  Option, none, some, List, [], ◌∷◌, ◌==◌, ltb, leb, if◌then◌else◌, some_inj, length, take,
  take-all, drop, drop-at, get_elem?, get_elem?_total, Run, done, ◌>>=◌, Returns, Returns-bind,
}
use esp32_ad_blocker_reborn.Cache.{CacheEntry, Key, Cache, cache_key_eq, scan}
use esp32_ad_blocker_reborn.Cache.Entries.{
  IsEntry, matches, cache_key_eq-matches, cache_key_eq_returns,
}
use esp32_ad_blocker_reborn.Cache.Seqlock.{entry_in, torn_bytes, torn_entry, is_servable}

pub torn_bytes_same :
    (v : ℕ → List ℕ) (xs : List ℕ)
    → ((i : ℕ) → v i ≡ xs)
    → (n i : ℕ) → i + n ≤ length xs
    → torn_bytes v i n ≡ take n (drop i xs)
unfolding torn_bytes
torn_bytes_same v xs same zero i h = refl
torn_bytes_same v xs same (suc n) i h =
    let (x, at) = get_elem?_total xs i (omega arith) in
    let next : i + 1 ≡ suc i = omega arith in
    let got : get_elem? (v i) i ≡ some x = ap (λ (t : List ℕ). get_elem? t i) (same i) ∙ at in
    rw (torn_bytes, got, drop-at xs i x at)
      (ap (λ (t : List ℕ). x ∷ t)
        (torn_bytes_same v xs same n (i + 1) (omega arith)
          ∙ ap (λ (j : ℕ). take n (drop j xs)) next))

pub torn_entry_same :
    (v : ℕ → CacheEntry) (e : CacheEntry) → ((i : ℕ) → v i ≡ e) → IsEntry e → torn_entry v ≡ e
unfolding torn_entry
torn_entry_same v e same good =
    rw
      (
        same 0,
        same 1,
        same 2,
        same 3,
        same 4,
        same 5,
        same 6,
        same 7,
        same 8,
        torn_bytes_same (λ i. (v (9 + i)).resp) e.resp
            (λ i. ap (λ (t : CacheEntry). t.resp) (same (9 + i))) 512 0 (omega (arith, good.size)),
        take-all 512 e.resp (omega (arith, good.size)),
      )
      refl

pub length-torn_bytes :
    (v : ℕ → List ℕ) (size : ℕ)
    → ((i : ℕ) → length (v i) ≡ size)
    → (n i : ℕ) → i + n ≤ size
    → length (torn_bytes v i n) ≡ n
unfolding torn_bytes
length-torn_bytes v size same zero i h = refl
length-torn_bytes v size same (suc n) i h =
    let (x, at) = get_elem?_total (v i) i (omega (arith, same i)) in
    rw (torn_bytes, at) (ap suc (length-torn_bytes v size same n (i + 1) (omega arith)))

pub torn_size :
    (v : ℕ → CacheEntry) → ((i : ℕ) → length (v i).resp ≡ 512) → length (torn_entry v).resp ≡ 512
unfolding torn_entry
torn_size v same =
    length-torn_bytes (λ i. (v (9 + i)).resp) 512 (λ i. same (9 + i)) 512 0 (omega arith)

-- The memory of the cache: every entry's buffer has its size.
pub record HasLayout (c : Cache) : Type 0 where
  pub size : (k : Key) (w : ℕ) → length (entry_in k w c).resp ≡ 512

-- The test of the loop on an entry in good order.
abbrev pub servable_test : Key → ℕ → ℕ → ℕ → CacheEntry → Bool
servable_test k now_ms gen out_cap e =
    if not e.valid || e.blocked
    then false
    else (matches k e
        && (ltb now_ms e.ttl_deadline_ms
            && (e.load_gen == gen
                && (ltb 0 e.resp_len && (leb e.resp_len out_cap && leb e.resp_len 512)))))

pub is_servable-servable_test :
    (k : Key) (now_ms gen out_cap : ℕ) (e : CacheEntry)
    → IsEntry e
    → is_servable k now_ms gen out_cap e ≡ done (servable_test k now_ms gen out_cap e)
unfolding is_servable
is_servable-servable_test k now_ms gen out_cap e good = at (not e.valid || e.blocked)
  where
    rest : Bool
    rest =
        ltb now_ms e.ttl_deadline_ms
        && (e.load_gen == gen
            && (ltb 0 e.resp_len && (leb e.resp_len out_cap && leb e.resp_len 512)))

    at :
        (b : Bool)
        → (if b then done false else (cache_key_eq k e >>= λ same. done (same && rest)))
          ≡ done (if b then false else (matches k e && rest))
    at true = refl
    at false =
        ap (λ (r : Run Bool). r >>= λ same. done (same && rest)) (cache_key_eq-matches k e good)

-- On any entry of the memory the test returns.
pub is_servable_returns :
    (k : Key) (now_ms gen out_cap : ℕ) (e : CacheEntry)
    → length e.resp ≡ 512
    → 12 + length k.name ≤ 512
    → Returns (is_servable k now_ms gen out_cap e) (λ b. Unit)
unfolding is_servable
is_servable_returns k now_ms gen out_cap e size small = at (not e.valid || e.blocked)
  where
    rest : Bool
    rest =
        ltb now_ms e.ttl_deadline_ms
        && (e.load_gen == gen
            && (ltb 0 e.resp_len && (leb e.resp_len out_cap && leb e.resp_len 512)))

    at :
        (b : Bool)
        → Returns
            (if b then done false else (cache_key_eq k e >>= λ same. done (same && rest)))
            (λ b. Unit)
    at true = tt
    at false =
        Returns-bind (cache_key_eq k e) (λ same. done (same && rest)) (λ b. Unit)
          (cache_key_eq_returns k e size small) (λ b _. tt)

pub scan_returns :
    (test : CacheEntry → Run Bool) (es : List CacheEntry)
    → ((i : ℕ) (e : CacheEntry) → get_elem? es i ≡ some e → Returns (test e) (λ b. Unit))
    → Returns (scan test es) (λ r. (i : ℕ) → r ≡ some i → i < length es)
unfolding scan
scan_returns test [] total = λ i e. absurd (none-ne-some _ e)
scan_returns test (x ∷ xs) total =
    Returns-bind (test x) _ (λ r. (i : ℕ) → r ≡ some i → i < suc (length xs)) (total 0 x refl)
      (λ b _. at b (scan_returns test xs (λ i e h. total (suc i) e h)))
  where
    later :
        (r : Option ℕ)
        → ((i : ℕ) → r ≡ some i → i < length xs)
        → (i : ℕ) → Option.map suc r ≡ some i
        → i < suc (length xs)
    later none h i e = absurd (none-ne-some _ e)
    later (some j) h i e = omega (arith, h j refl, some_inj e)

    at :
        (b : Bool)
        → Returns (scan test xs) (λ r. (i : ℕ) → r ≡ some i → i < length xs)
        → Returns
            (elim b as (λ y. Run (Option ℕ)) [
              | true ↦ done (some 0)
              | false ↦ scan test xs >>= λ r. done (Option.map suc r)
            ])
            (λ r. (i : ℕ) → r ≡ some i → i < suc (length xs))
    at true h = λ i e. omega (arith, some_inj e)
    at false h = Returns-bind (scan test xs) (λ r. done (Option.map suc r)) _ h (λ r k. later r k)
