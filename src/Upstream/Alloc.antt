-- ===== src/Upstream/Alloc.antt =====
-- What taking an entry for a new query does.
use mathlib.Core.Option.{none-ne-some}
use esp32_ad_blocker_reborn.Common.{
  ℕ, zero, suc, ◌+◌, ◌%◌, ◌^◌, ◌<◌, ◌≡◌, ◌≢◌, refl, ◌∙◌, sym, ap, subst, arith, Bool, true, false,
  not, ◌||◌, Option, none, some, List, [], ◌∷◌, ◌==◌, ==_iff, if◌then◌else◌, some_inj, set,
  get_elem?, get_elem?_lt, get_elem?-set_self, get_elem?-set_ne, Run, done, ◌>>=◌, load, load-some,
  Returns, Returns-bind,
}
use esp32_ad_blocker_reborn.Upstream.{
  UpstreamEntry, Upstream, find_entry, has_txid, txid_in_use, roll, taken_entry, upstream_alloc,
  upstream_find, inflight_loop, upstream_inflight,
}
use esp32_ad_blocker_reborn.Upstream.Slots.{First, find_entry-First, txid_in_use_sound}
use esp32_ad_blocker_reborn.Upstream.Table.{
  HasRoom, IsUpstream, has_txid_own, set-IsUpstream, upstream_find_used,
}

-- A number that is rolled: not 0, and no query in flight has it.
pub record IsFreshTxid (t : ℕ) (es : List UpstreamEntry) : Type 0 where
  pub real : t ≢ 0
  pub free : txid_in_use t es ≡ false

roll-IsFreshTxid :
    (fuel k : ℕ) (random : ℕ → ℕ) (i : ℕ) (es : List UpstreamEntry)
    → k < fuel
    → IsFreshTxid (random (i + k) % 2 ^ 16) es
    → Returns (roll fuel random i es) (λ t. IsFreshTxid t es)
unfolding roll
roll-IsFreshTxid zero k random i es h good = absurd (omega arith)
roll-IsFreshTxid (suc fuel) k random i es h good =
    at k (random i % 2 ^ 16 == 0) (txid_in_use (random i % 2 ^ 16) es) refl refl h good
      (λ k less fine. roll-IsFreshTxid fuel k random (i + 1) es less fine)
  where
    here : IsFreshTxid (random (i + 0) % 2 ^ 16) es → IsFreshTxid (random i % 2 ^ 16) es
    here g = subst (λ (j : ℕ). IsFreshTxid (random j % 2 ^ 16) es) (omega arith) g

    there :
        (k : ℕ)
        → IsFreshTxid (random (i + suc k) % 2 ^ 16) es
        → IsFreshTxid (random (i + 1 + k) % 2 ^ 16) es
    there k g = subst (λ (j : ℕ). IsFreshTxid (random j % 2 ^ 16) es) (omega arith) g

    at :
        (k : ℕ) (a b : Bool)
        → (random i % 2 ^ 16 == 0) ≡ a
        → txid_in_use (random i % 2 ^ 16) es ≡ b
        → k < suc fuel
        → IsFreshTxid (random (i + k) % 2 ^ 16) es
        → ((k : ℕ)
            → k < fuel
            → IsFreshTxid (random (i + 1 + k) % 2 ^ 16) es
            → Returns (roll fuel random (i + 1) es) (λ t. IsFreshTxid t es))
        → Returns
            (if a || b then roll fuel random (i + 1) es else done (random i % 2 ^ 16))
            (λ t. IsFreshTxid t es)
    at k false false p q h g later = record { real = ground (arith, p); free = q }
    at zero true b p q h g later = absurd ((here g).real ((==_iff (random i % 2 ^ 16) 0).0 p))
    at zero false true p q h g later =
        let wrong : true ≡ false = sym q ∙ (here g).free in absurd (cc)
    at (suc k) true b p q h g later = later k (omega (arith, h)) (there k g)
    at (suc k) false true p q h g later = later k (omega (arith, h)) (there k g)

-- An entry without anything of the query that had it before.
pub record IsClean (e : UpstreamEntry) : Type 0 where
  pub by_udp : e.via_tcp ≡ false
  pub answered : e.refresh_only ≡ false
  pub cached : e.no_cache ≡ false
  pub not_paused : e.paused ≡ false
  pub not_exempt : e.exempt ≡ false
  pub alone : e.n_wait ≡ 0
  pub not_hedged :
      (e.hedged ≡ false) × (e.hedge_local ≡ false) × (e.hedge_qlen ≡ 0) × (e.hedge_deadline_ms ≡ 0)

-- What `upstream_alloc` leaves when it takes the entry `slot` for the identifier `t`.
pub record Allocated (u : Upstream) (slot t : ℕ) (after : Upstream) : Type 0 where
  pub sound : IsUpstream after
  pub fresh : IsFreshTxid t u.entries
  pub found : upstream_find t after ≡ some slot
  pub entry : UpstreamEntry
  pub taken : get_elem? after.entries slot ≡ some entry
  pub clean : IsClean entry
  pub others : (j : ℕ) → slot ≢ j → get_elem? after.entries j ≡ get_elem? u.entries j
  pub counted : upstream_inflight after ≡ suc (upstream_inflight u)

abbrev pub OptionAllocated : Upstream → Option (ℕ × ℕ) × Upstream → Type 0
OptionAllocated u (none, after) =
    (after ≡ u) × ((i : ℕ) (e : UpstreamEntry) → get_elem? u.entries i ≡ some e → e.in_use ≡ true)
OptionAllocated u (some (slot, t), after) = Allocated u slot t after

inflight_loop-set :
    (es : List UpstreamEntry) (i : ℕ) (e v : UpstreamEntry)
    → get_elem? es i ≡ some e
    → e.in_use ≡ false
    → v.in_use ≡ true
    → inflight_loop (set es i v) ≡ suc (inflight_loop es)
unfolding inflight_loop
inflight_loop-set [] i e v h a b = absurd (none-ne-some _ h)
inflight_loop-set (x ∷ xs) zero e v h a b =
    let idle : x.in_use ≡ false = ap (λ (t : UpstreamEntry). t.in_use) (some_inj h) ∙ a in
    rw (b, idle) (omega arith)
inflight_loop-set (x ∷ xs) (suc i) e v h a b = omega (arith, inflight_loop-set xs i e v h a b)

not-true : (b : Bool) → not b ≡ true → b ≡ false
not-true true h = absurd (cc)
not-true false h = refl

not-false : (b : Bool) → not b ≡ false → b ≡ true
not-false true h = refl
not-false false h = absurd (cc)

module _ (u : Upstream) (inv : IsUpstream u) where
  allocated :
      (slot t : ℕ) (e : UpstreamEntry)
      → get_elem? u.entries slot ≡ some e
      → e.in_use ≡ false
      → IsFreshTxid t u.entries
      → Allocated u slot t (record u { entries = set u.entries slot (taken_entry t e) })
  unfolding taken_entry upstream_inflight
  allocated slot t e at idle fresh = record {
    sound = sound;
    fresh = fresh;
    found = upstream_find_used after sound slot (taken_entry t e) placed refl;
    entry = taken_entry t e;
    taken = placed;
    clean = record {
      by_udp = refl;
      answered = refl;
      cached = refl;
      not_paused = refl;
      not_exempt = refl;
      alone = refl;
      not_hedged = (refl, refl, refl, refl);
    };
    others = λ j ne. get_elem?-set_ne u.entries slot j (taken_entry t e) ne;
    counted = inflight_loop-set u.entries slot e (taken_entry t e) at idle refl;
  }
    where
      after : Upstream
      after = record u { entries = set u.entries slot (taken_entry t e) }

      placed : get_elem? after.entries slot ≡ some (taken_entry t e)
      placed = get_elem?-set_self u.entries slot (taken_entry t e) (get_elem?_lt u.entries slot at)

      room : HasRoom (taken_entry t e)
      room = record { waiting = omega arith; size = (inv.room slot e at).size }

      sound : IsUpstream after
      sound =
          set-IsUpstream u after slot (taken_entry t e) inv refl room (λ _. fresh.real)
            (λ _ j f ne there busy same.
              let miss : has_txid t f ≡ false =
                txid_in_use_sound t u.entries fresh.free j f there in
              let hit : has_txid t f ≡ true =
                subst (λ (x : ℕ). has_txid x f ≡ true) same (has_txid_own f busy) in
              let wrong : true ≡ false = sym hit ∙ miss in absurd (cc))

  -- On a table in good order, and if one of the next `fuel` random numbers has low 16 bits that are not
  -- 0 and that no query in flight has, taking an entry ends. If all entries are in use, it takes
  -- none and changes nothing. Otherwise the table stays in good order; the identifier is not 0,
  -- belonged to no query in flight and is now found at the entry taken; the entry has no waiter, no
  -- hedge and no mark of the query before it; the other entries are as they were; and one
  -- more query is in flight.
  pub upstream_alloc-Allocated :
      (fuel k : ℕ) (random : ℕ → ℕ) (i : ℕ)
      → k < fuel
      → IsFreshTxid (random (i + k) % 2 ^ 16) u.entries
      → Returns (upstream_alloc fuel random i u) (λ r. OptionAllocated u r)
  unfolding upstream_alloc
  upstream_alloc-Allocated fuel k random i h good =
      at (find_entry (λ e. not e.in_use) u.entries) (find_entry-First (λ e. not e.in_use) u.entries)
    where
      rolled : Returns (roll fuel random i u.entries) (λ t. IsFreshTxid t u.entries)
      rolled = roll-IsFreshTxid fuel k random i u.entries h good

      at :
          (r : Option ℕ)
          → First (λ e. not e.in_use) u.entries r
          → Returns
              (elim r as (λ x. Run (Option (ℕ × ℕ) × Upstream)) [
                | none ↦ done (none, u)
                | some slot ↦ roll fuel random i u.entries >>= λ t. load u.entries slot >>= λ e.
                    done
                      (some (slot, t), record u { entries = set u.entries slot (taken_entry t e) })
              ])
              (λ r. OptionAllocated u r)
      at none full = (refl, λ i e place. not-false e.in_use (full i e place))
      at (some slot) (e, place, idle, _) =
          Returns-bind (roll fuel random i u.entries) _ (λ r. OptionAllocated u r) rolled
            (λ t fresh.
              rw (load-some u.entries slot place)
                (allocated slot t e place (not-true e.in_use idle) fresh))
