-- ===== src/Upstream/Evict.antt =====
-- What throwing out the queries that got no answer does.
use mathlib.Core.Option.{none-ne-some}
use esp32_ad_blocker_reborn.Common.{
  ℕ, zero, suc, ◌+◌, ◌≤◌, ◌≡◌, refl, ◌∙◌, sym, ap, subst, arith, Bool, true, false, some, List, [],
  ◌∷◌, map, ltb, ltb→le, if◌then◌else◌, both_true, some_inj, length, length-map, get_elem?, u32,
}
use esp32_ad_blocker_reborn.Upstream.{
  UpstreamEntry, Upstream, upstream_timeout_ms, age_ms, is_expired, evict_loop,
  upstream_evict_expired, upstream_find, inflight_loop, upstream_inflight,
}
use esp32_ad_blocker_reborn.Upstream.Table.{HasRoom, IsUpstream, upstream_find_used}

-- An entry after the loop.
swept : ℕ → UpstreamEntry → UpstreamEntry
swept now_ms e = if is_expired now_ms e then record e { in_use = false } else e

evict_loop-map :
    (now_ms : ℕ) (es : List UpstreamEntry) (n : ℕ)
    → (evict_loop now_ms es n).0 ≡ map (swept now_ms) es
unfolding evict_loop swept
evict_loop-map now_ms [] n = refl
evict_loop-map now_ms (x ∷ xs) n =
    ap (λ (t : List UpstreamEntry). swept now_ms x ∷ t)
      (evict_loop-map now_ms xs (if is_expired now_ms x then u32 (n + 1) else n))

is_expired_used : (now_ms : ℕ) (e : UpstreamEntry) → is_expired now_ms e ≡ true → e.in_use ≡ true
unfolding is_expired
is_expired_used now_ms e h = (both_true e.in_use _ h).0

is_expired_old :
    (now_ms : ℕ) (e : UpstreamEntry)
    → e.in_use ≡ true
    → is_expired now_ms e ≡ ltb upstream_timeout_ms (age_ms now_ms e)
unfolding is_expired
is_expired_old now_ms e used = rw (used) refl

-- The entries thrown out are counted, and no longer in flight.
evict_loop-inflight_loop :
    (now_ms : ℕ) (es : List UpstreamEntry) (n : ℕ)
    → (gone : ℕ) × (u32 (evict_loop now_ms es n).1 ≡ u32 (n + gone))
      × (inflight_loop (evict_loop now_ms es n).0 + gone ≡ inflight_loop es)
unfolding evict_loop inflight_loop
evict_loop-inflight_loop now_ms [] n = (0, omega arith, omega arith)
evict_loop-inflight_loop now_ms (x ∷ xs) n =
    at (is_expired now_ms x) refl (λ m. evict_loop-inflight_loop now_ms xs m)
  where
    at :
        (b : Bool)
        → is_expired now_ms x ≡ b
        → ((m : ℕ)
            → (gone : ℕ) × (u32 (evict_loop now_ms xs m).1 ≡ u32 (m + gone))
              × (inflight_loop (evict_loop now_ms xs m).0 + gone ≡ inflight_loop xs))
        → (gone : ℕ) × (u32 (evict_loop now_ms xs (if b then u32 (n + 1) else n)).1
            ≡ u32 (n + gone))
          × ((if (if b then record x { in_use = false } else x).in_use then 1 else 0)
                + inflight_loop (evict_loop now_ms xs (if b then u32 (n + 1) else n)).0
                + gone
              ≡ (if x.in_use then 1 else 0) + inflight_loop xs)
    at true hit later =
        let (gone, a, b) = later (u32 (n + 1)) in
        (suc gone, omega (arith, a), rw (is_expired_used now_ms x hit) (omega (arith, b)))
    at false miss later = let (gone, a, b) = later n in (gone, a, omega (arith, b))

get-map :
    (f : UpstreamEntry → UpstreamEntry) (es : List UpstreamEntry) (i : ℕ) (e : UpstreamEntry)
    → get_elem? es i ≡ some e
    → get_elem? (map f es) i ≡ some (f e)
get-map f [] i e h = absurd (none-ne-some _ h)
get-map f (x ∷ xs) zero e h = ap (λ (t : UpstreamEntry). some (f t)) (some_inj h)
get-map f (x ∷ xs) (suc i) e h = get-map f xs i e h

get-map_back :
    (f : UpstreamEntry → UpstreamEntry) (es : List UpstreamEntry) (i : ℕ) (g : UpstreamEntry)
    → get_elem? (map f es) i ≡ some g
    → (e : UpstreamEntry) × (get_elem? es i ≡ some e) × (f e ≡ g)
get-map_back f [] i g h = absurd (none-ne-some _ h)
get-map_back f (x ∷ xs) zero g h = (x, refl, some_inj h)
get-map_back f (x ∷ xs) (suc i) g h = get-map_back f xs i g h

-- An entry after the loop: the one before it, with `in_use` only if it had that and is young.
record Swept (now_ms : ℕ) (e g : UpstreamEntry) : Type 0 where
  txid : g.our_txid ≡ e.our_txid
  room : HasRoom e → HasRoom g
  used : g.in_use ≡ true → (e.in_use ≡ true) × (age_ms now_ms e ≤ upstream_timeout_ms)

swept-Swept : (now_ms : ℕ) (e : UpstreamEntry) → Swept now_ms e (swept now_ms e)
unfolding swept
swept-Swept now_ms e = at (is_expired now_ms e) refl
  where
    at :
        (b : Bool)
        → is_expired now_ms e ≡ b
        → Swept now_ms e (if b then record e { in_use = false } else e)
    at true hit = record {
      txid = refl;
      room = λ r. record { waiting = r.waiting; size = r.size };
      used = λ h. absurd (cc);
    }
    at false miss = record {
      txid = refl;
      room = λ r. r;
      used = λ h. (
        h,
        ltb→le upstream_timeout_ms (age_ms now_ms e) (sym (is_expired_old now_ms e h) ∙ miss),
      );
    }

swept_young :
    (now_ms : ℕ) (e : UpstreamEntry)
    → e.in_use ≡ true
    → age_ms now_ms e ≤ upstream_timeout_ms
    → swept now_ms e ≡ e
unfolding swept
swept_young now_ms e used young =
    let old : ltb 3000 (age_ms now_ms e) ≡ false = ground (arith, young) in
    let stays : is_expired now_ms e ≡ false = is_expired_old now_ms e used ∙ old in rw (stays) refl

-- What `upstream_evict_expired` leaves.
pub record Evicted (now_ms : ℕ) (u after : Upstream) : Type 0 where
  pub sound : IsUpstream after
  pub kept :
      (i : ℕ) (e : UpstreamEntry)
      → get_elem? u.entries i ≡ some e
      → e.in_use ≡ true
      → age_ms now_ms e ≤ upstream_timeout_ms
      → (get_elem? after.entries i ≡ some e) × (upstream_find e.our_txid after ≡ some i)
  pub young :
      (i : ℕ) (g : UpstreamEntry)
      → get_elem? after.entries i ≡ some g
      → g.in_use ≡ true
      → (e : UpstreamEntry) × (get_elem? u.entries i ≡ some e)
        × (e.in_use ≡ true)
        × (age_ms now_ms e ≤ upstream_timeout_ms)
  pub gone : ℕ
  pub counted : u32 after.timeouts ≡ u32 (u.timeouts + gone)
  pub fewer : upstream_inflight after + gone ≡ upstream_inflight u

-- On a table in good order, throwing out leaves a table in good order in which every query that was
-- sent at most 3000 ms ago, by the clock of 32 bits, is still there and found by its identifier, and no
-- older one is in flight; the queries thrown out are the ones by which fewer are in flight, and the
-- counter of the timeouts goes up by their number.
pub upstream_evict_expired-Evicted :
    (now_ms : ℕ) (u : Upstream) → IsUpstream u → Evicted now_ms u (upstream_evict_expired now_ms u)
unfolding upstream_evict_expired upstream_inflight
upstream_evict_expired-Evicted now_ms u inv = record {
  sound = sound;
  kept = λ i e at used young. kept i e at used young;
  young = λ i g at used.
      (let (e, there, s) = back i g at in
        let (busy, fresh) = s.used used in (e, there, busy, fresh));
  gone = counts.0;
  counted = counts.1;
  fewer = counts.2;
}
  where
    after : Upstream
    after = upstream_evict_expired now_ms u

    entries : after.entries ≡ map (swept now_ms) u.entries
    entries = evict_loop-map now_ms u.entries u.timeouts

    counts :
        (gone : ℕ) × (u32 (evict_loop now_ms u.entries u.timeouts).1 ≡ u32 (u.timeouts + gone))
        × (inflight_loop (evict_loop now_ms u.entries u.timeouts).0 + gone
            ≡ inflight_loop u.entries)
    counts = evict_loop-inflight_loop now_ms u.entries u.timeouts

    back :
        (i : ℕ) (g : UpstreamEntry)
        → get_elem? after.entries i ≡ some g
        → (e : UpstreamEntry) × (get_elem? u.entries i ≡ some e) × Swept now_ms e g
    back i g h =
        let (e, there, same) =
          get-map_back (swept now_ms) u.entries i g
            (sym (ap (λ (t : List UpstreamEntry). get_elem? t i) entries) ∙ h) in
        (e, there, subst (Swept now_ms e) same (swept-Swept now_ms e))

    sound : IsUpstream after
    sound = record {
      size = ap length entries ∙ length-map (swept now_ms) u.entries ∙ inv.size;
      room = λ i g h. (let (e, there, s) = back i g h in s.room (inv.room i e there));
      named = λ i g h used.
          (let (e, there, s) = back i g h in
            λ zero_txid. inv.named i e there (s.used used).0 (sym s.txid ∙ zero_txid));
      distinct = λ i j g k hg hk vg vk same.
          (let (e, at_e, s) = back i g hg in
            let (f, at_f, t) = back j k hk in
            inv.distinct i j e f at_e at_f (s.used vg).0 (t.used vk).0
              (sym s.txid ∙ same ∙ t.txid));
    }

    kept :
        (i : ℕ) (e : UpstreamEntry)
        → get_elem? u.entries i ≡ some e
        → e.in_use ≡ true
        → age_ms now_ms e ≤ upstream_timeout_ms
        → (get_elem? after.entries i ≡ some e) × (upstream_find e.our_txid after ≡ some i)
    kept i e at used young =
        let place : get_elem? after.entries i ≡ some e =
          ap (λ (t : List UpstreamEntry). get_elem? t i) entries
          ∙ get-map (swept now_ms) u.entries i e at
          ∙ ap some (swept_young now_ms e used young) in
        (place, upstream_find_used after sound i e place used)
