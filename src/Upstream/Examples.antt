-- ===== src/Upstream/Examples.antt =====
-- The table with one query in flight, taken at the second roll of the generator.
use esp32_ad_blocker_reborn.Common.{
  ℕ, ◌+◌, ◌*◌, ◌%◌, ◌^◌, ◌≡◌, refl, sym, subst, arith, true, Option, none, some, Run, done, fault,
  out_of_fuel, Returns,
}
use esp32_ad_blocker_reborn.Upstream.{
  Upstream, txid_in_use, upstream_alloc, upstream_init, upstream_find, upstream_find_joinable,
  upstream_evict_expired, upstream_inflight, new_waiter, unused_entry,
}
use esp32_ad_blocker_reborn.Upstream.Table.{IsUpstream, upstream_init-IsUpstream}
use esp32_ad_blocker_reborn.Upstream.Alloc.{IsFreshTxid, OptionAllocated, upstream_alloc-Allocated}
use esp32_ad_blocker_reborn.Upstream.Join.{ride, Rides, upstream_find_joinable-upstream_join}
use esp32_ad_blocker_reborn.Upstream.Evict.{Evicted, upstream_evict_expired-Evicted}

-- The first number has the low bits 0, which is rolled again.
abbrev random : ℕ → ℕ
random i = 65537 * i

random-IsFreshTxid : IsFreshTxid (random (0 + 1) % 2 ^ 16) upstream_init.entries
unfolding upstream_init txid_in_use unused_entry
random-IsFreshTxid = record { real = omega arith; free = refl }

upstream_alloc-Allocated_example :
    Returns (upstream_alloc 8 random 0 upstream_init) (λ r. OptionAllocated upstream_init r)
upstream_alloc-Allocated_example =
    upstream_alloc-Allocated upstream_init upstream_init-IsUpstream 8 1 random 0 (omega arith)
      random-IsFreshTxid

-- The table that it leaves.
kept :
    (r : Run (Option (ℕ × ℕ) × Upstream))
    → Returns r (λ r. OptionAllocated upstream_init r)
    → (u : Upstream) × IsUpstream u
kept (done (none, u)) (same, _) = (u, subst IsUpstream (sym same) upstream_init-IsUpstream)
kept (done (some (slot, t), u)) h = (u, h.sound)
kept fault h = absurd h
kept out_of_fuel h = absurd h

one : (u : Upstream) × IsUpstream u
one = kept (upstream_alloc 8 random 0 upstream_init) (
    upstream_alloc-Allocated upstream_init upstream_init-IsUpstream 8 1 random 0 (omega arith)
      random-IsFreshTxid)

one_found : upstream_find 1 one.0 ≡ some 0
unfolding one kept upstream_alloc upstream_init upstream_find unused_entry
one_found = refl

one_inflight : upstream_inflight one.0 ≡ 1
unfolding one kept upstream_alloc upstream_init upstream_inflight unused_entry
one_inflight = refl

one_joinable : upstream_find_joinable 0 0 0 0 100 one.0 ≡ some 0
unfolding one kept upstream_alloc upstream_init upstream_find_joinable unused_entry
one_joinable = refl

upstream_find_joinable-upstream_join_example :
    Returns
      (ride (upstream_find_joinable 0 0 0 0 100 one.0) 7 none 5000 true 2 one.0)
      (λ r. Rides 0 0 0 0 100 (new_waiter 7 none 5000 true 2) one.0 r)
upstream_find_joinable-upstream_join_example =
    upstream_find_joinable-upstream_join one.0 one.1 7 none 5000 true 2 0 0 0 0 100

upstream_evict_expired-Evicted_example : Evicted 3001 one.0 (upstream_evict_expired 3001 one.0)
upstream_evict_expired-Evicted_example = upstream_evict_expired-Evicted 3001 one.0 one.1

one_evicted : upstream_find 1 (upstream_evict_expired 3001 one.0) ≡ none
unfolding one kept upstream_alloc upstream_init upstream_evict_expired upstream_find unused_entry
one_evicted = refl
