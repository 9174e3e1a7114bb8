-- ===== src/Upstream/Join.antt =====
-- Riding a query in flight: the search for one, and the requester that is added to it.
use esp32_ad_blocker_reborn.Common.{
  ℕ, suc, ◌+◌, ◌<◌, ◌≡◌, ◌≢◌, refl, ◌∙◌, sym, ap, arith, Bool, true, false, not, Option, none, some,
  List, ◌==◌, ==_iff, ltb, ltb→lt, leb, both_true, length, length-set, set, get_elem?, get_elem?_lt,
  get_elem?-set_self, get_elem?-set_ne, u8, u32, Run, done, ◌>>=◌, load-some, store, store-Returns,
  Returns, Returns-bind,
}
use esp32_ad_blocker_reborn.Upstream.{
  UpstreamWaiter, UpstreamEntry, Upstream, waiters_max, join_max_age_ms, find_entry, age_ms,
  is_joinable, new_waiter, upstream_find_joinable, upstream_join,
}
use esp32_ad_blocker_reborn.Upstream.Slots.{First, find_entry-First}
use esp32_ad_blocker_reborn.Upstream.Table.{HasRoom, IsUpstream, set-IsUpstream}

-- The query in flight asks the question in the same envelope, is answered and may be cached, is
-- younger than 250 ms and has room for one more requester.
pub record IsJoinable (qhash qkey qtype env_hash now_ms : ℕ) (e : UpstreamEntry) : Type 0 where
  pub used : e.in_use ≡ true
  pub answered : e.refresh_only ≡ false
  pub cached : e.no_cache ≡ false
  pub asked : (e.qhash ≡ qhash) × (e.qkey ≡ qkey) × (e.qtype ≡ qtype)
  pub envelope : e.env_hash ≡ env_hash
  pub room : e.n_wait < waiters_max
  pub young : age_ms now_ms e < join_max_age_ms

is_joinable_sound :
    (qhash qkey qtype env_hash now_ms : ℕ) (e : UpstreamEntry)
    → is_joinable qhash qkey qtype env_hash now_ms e ≡ true
    → IsJoinable qhash qkey qtype env_hash now_ms e
unfolding is_joinable
is_joinable_sound qhash qkey qtype env_hash now_ms e h =
    let (a, r1) = both_true e.in_use _ h in
    let (b, r2) = both_true (not e.refresh_only) _ r1 in
    let (c, r3) = both_true (not e.no_cache) _ r2 in
    let (d, r4) = both_true (e.qhash == qhash) _ r3 in
    let (f, r5) = both_true (e.qkey == qkey) _ r4 in
    let (g, r6) = both_true (e.qtype == qtype) _ r5 in
    let (i, r7) = both_true (e.env_hash == env_hash) _ r6 in
    let (j, k) = both_true (ltb e.n_wait waiters_max) _ r7 in
    record {
      used = a;
      answered = not-true e.refresh_only b;
      cached = not-true e.no_cache c;
      asked = ((==_iff e.qhash qhash).0 d, (==_iff e.qkey qkey).0 f, (==_iff e.qtype qtype).0 g);
      envelope = (==_iff e.env_hash env_hash).0 i;
      room = ltb→lt e.n_wait waiters_max j;
      young = ltb→lt (age_ms now_ms e) join_max_age_ms k;
    }
  where
    not-true : (b : Bool) → not b ≡ true → b ≡ false
    not-true true h = absurd (cc)
    not-true false h = refl

-- The requester `w` is the last one that waits on the entry, behind those of before.
pub record Waits (w : UpstreamWaiter) (old new : UpstreamEntry) : Type 0 where
  pub more : new.n_wait ≡ suc old.n_wait
  pub last : get_elem? new.waiters old.n_wait ≡ some w
  pub before : (j : ℕ) → j < old.n_wait → get_elem? new.waiters j ≡ get_elem? old.waiters j
  pub same : (new.our_txid ≡ old.our_txid) × (new.in_use ≡ old.in_use) × (new.sent_ms ≡ old.sent_ms)

-- What `upstream_join` leaves.
pub record Joined (u : Upstream) (slot : ℕ) (w : UpstreamWaiter) (old : UpstreamEntry)
    (after : Upstream) : Type 0 where
  pub sound : IsUpstream after
  pub entry : UpstreamEntry
  pub place : get_elem? after.entries slot ≡ some entry
  pub waits : Waits w old entry
  pub others : (j : ℕ) → slot ≢ j → get_elem? after.entries j ≡ get_elem? u.entries j

-- The riding of the query that the search finds.
abbrev pub ride :
    Option ℕ → ℕ → Option (List ℕ) → ℕ → Bool → ℕ → Upstream → Run (Option (ℕ × Bool) × Upstream)
ride none client_txid client_addr recv_us via_tcp tcp_gen u = done (none, u)
ride (some slot) client_txid client_addr recv_us via_tcp tcp_gen u =
    upstream_join slot client_txid client_addr recv_us via_tcp tcp_gen u >>= λ (ok, after).
    done (some (slot, ok), after)

abbrev pub Rides :
    ℕ → ℕ → ℕ → ℕ → ℕ → UpstreamWaiter → Upstream → Option (ℕ × Bool) × Upstream → Type 0
Rides qhash qkey qtype env_hash now_ms w u (none, after) =
    (after ≡ u)
    × ((i : ℕ) (e : UpstreamEntry)
        → get_elem? u.entries i ≡ some e
        → is_joinable qhash qkey qtype env_hash now_ms e ≡ false)
Rides qhash qkey qtype env_hash now_ms w u (some (slot, ok), after) =
    (ok ≡ true)
    × ((old : UpstreamEntry) × (get_elem? u.entries slot ≡ some old)
        × IsJoinable qhash qkey qtype env_hash now_ms old
        × Joined u slot w old after)

module _ (u : Upstream) (inv : IsUpstream u) (client_txid : ℕ) (client_addr : Option (List ℕ))
    (recv_us : ℕ) (via_tcp : Bool) (tcp_gen : ℕ) where
  abbrev requester : UpstreamWaiter
  requester = new_waiter client_txid client_addr recv_us via_tcp tcp_gen

  -- With room for one more, joining succeeds.
  upstream_join-Joined :
      (slot : ℕ) (e : UpstreamEntry)
      → get_elem? u.entries slot ≡ some e
      → e.n_wait < waiters_max
      → Returns
          (upstream_join slot client_txid client_addr recv_us via_tcp tcp_gen u)
          (λ (ok, after). (ok ≡ true) × Joined u slot requester e after)
  unfolding upstream_join
  upstream_join-Joined slot e at room =
      rw (load-some u.entries slot at, not_full)
        (Returns-bind (store e.waiters e.n_wait requester) _ _
          (store-Returns e.waiters e.n_wait requester
            (omega (arith, (inv.room slot e at).size, room)))
          (λ ws same. (refl, joined ws same)))
    where
      not_full : leb 4 e.n_wait ≡ false
      not_full = ground (arith, room)

      next : u8 (e.n_wait + 1) ≡ suc e.n_wait
      next = omega (arith, room)

      joined :
          (ws : List UpstreamWaiter)
          → ws ≡ set e.waiters e.n_wait requester
          → Joined u slot requester e (record u {
            entries = set u.entries slot (record e { waiters = ws; n_wait = u8 (e.n_wait + 1) });
            coalesced = u32 (u.coalesced + 1);
          })
      joined ws same = record {
        sound =
            set-IsUpstream u after slot new inv refl fits (λ used. inv.named slot e at used)
              (λ used j f ne there busy eq.
                ne (inv.distinct slot j e f at there used busy (sym eq)));
        entry = new;
        place = get_elem?-set_self u.entries slot new (get_elem?_lt u.entries slot at);
        waits = record {
          more = next;
          last =
              ap (λ (t : List UpstreamWaiter). get_elem? t e.n_wait) same
              ∙ get_elem?-set_self e.waiters e.n_wait requester inside;
          before = λ j less.
              ap (λ (t : List UpstreamWaiter). get_elem? t j) same
              ∙ get_elem?-set_ne e.waiters e.n_wait j requester (λ eq. omega (arith, eq, less));
          same = (refl, refl, refl);
        };
        others = λ j ne. get_elem?-set_ne u.entries slot j new ne;
      }
        where
          new : UpstreamEntry
          new = record e { waiters = ws; n_wait = u8 (e.n_wait + 1) }

          after : Upstream
          after = record u { entries = set u.entries slot new; coalesced = u32 (u.coalesced + 1) }

          inside : e.n_wait < length e.waiters
          inside = omega (arith, (inv.room slot e at).size, room)

          fits : HasRoom new
          fits = record {
            waiting = omega (arith, next, room);
            size =
                ap length same
                ∙ length-set e.waiters e.n_wait requester
                ∙ (inv.room slot e at).size;
          }

  -- A duplicate of a query looks for a query in flight to ride. On a table in good order, if it
  -- finds one, that is answered and cached, asks for the same hash, secret hash and type in the same
  -- envelope and was sent less than 250 ms ago, and joining it always succeeds: the requester stands
  -- behind those that waited before, and the table stays in good order with all other entries as they
  -- were. If it finds none, no entry passes the test and nothing changes.
  pub upstream_find_joinable-upstream_join :
      (qhash qkey qtype env_hash now_ms : ℕ)
      → Returns
          (ride
            (upstream_find_joinable qhash qkey qtype env_hash now_ms u)
            client_txid
            client_addr
            recv_us
            via_tcp
            tcp_gen
            u)
          (λ r. Rides qhash qkey qtype env_hash now_ms requester u r)
  unfolding upstream_find_joinable
  upstream_find_joinable-upstream_join qhash qkey qtype env_hash now_ms =
      at (find_entry (is_joinable qhash qkey qtype env_hash now_ms) u.entries)
        (find_entry-First (is_joinable qhash qkey qtype env_hash now_ms) u.entries)
    where
      at :
          (r : Option ℕ)
          → First (is_joinable qhash qkey qtype env_hash now_ms) u.entries r
          → Returns
              (ride r client_txid client_addr recv_us via_tcp tcp_gen u)
              (λ r. Rides qhash qkey qtype env_hash now_ms requester u r)
      at none miss = (refl, miss)
      at (some slot) (e, place, hit, _) =
          let good : IsJoinable qhash qkey qtype env_hash now_ms e =
            is_joinable_sound qhash qkey qtype env_hash now_ms e hit in
          Returns-bind (upstream_join slot client_txid client_addr recv_us via_tcp tcp_gen u) _
            (λ r. Rides qhash qkey qtype env_hash now_ms requester u r)
            (upstream_join-Joined slot e place good.room)
            (λ (ok, after) (t, j). (t, (e, place, good, j)))
