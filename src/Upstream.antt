-- ===== src/Upstream.antt =====
-- main/dns_server.cpp: the table of the queries in flight to the upstream resolver.
-- The numbers that esp_random gives are a stream, read from an index on; an address is the list of
-- the bytes of its struct.
pub mod Slots
pub mod Table
pub mod Alloc
pub mod Join
pub mod Evict
mod Examples
use mathlib.Core.Option
use esp32_ad_blocker_reborn.Common.{
  ℕ, zero, suc, ◌+◌, ◌-◌, ◌%◌, ◌^◌, Bool, true, false, not, ◌&&◌, ◌||◌, Option, none, some, List,
  [], ◌∷◌, ◌==◌, ltb, leb, if◌then◌else◌, replicate, set, u8, u32, Run, done, out_of_fuel, ◌>>=◌,
  load, store,
}

abbrev pub waiters_max : ℕ
waiters_max = 4

abbrev pub table_size : ℕ
table_size = 64

-- UPSTREAM_JOIN_MAX_AGE_MS.
abbrev pub join_max_age_ms : ℕ
join_max_age_ms = 250

abbrev pub upstream_timeout_ms : ℕ
upstream_timeout_ms = 3000

pub record UpstreamWaiter : Type 0 where
  pub client_addr : List ℕ
  pub recv_us : ℕ
  pub tcp_gen : ℕ
  pub client_txid : ℕ
  pub via_tcp : Bool

pub record UpstreamEntry : Type 0 where
  pub our_txid : ℕ
  pub client_txid : ℕ
  pub client_addr : List ℕ
  pub sent_ms : ℕ
  pub recv_us : ℕ
  pub upstream_us : ℕ
  pub qhash : ℕ
  pub qkey : ℕ
  pub case_hash : ℕ
  pub load_gen : ℕ
  pub qtype : ℕ
  pub in_use : Bool
  pub via_tcp : Bool
  pub refresh_only : Bool
  pub no_cache : Bool
  pub paused : Bool
  pub exempt : Bool
  pub n_wait : ℕ
  pub hedged : Bool
  pub hedge_local : Bool
  pub hedge_qlen : ℕ
  pub hedge_deadline_ms : ℕ
  pub env_hash : ℕ
  pub tcp_gen : ℕ
  pub waiters : List UpstreamWaiter

-- The table and its two counters.
pub record Upstream : Type 0 where
  pub entries : List UpstreamEntry
  pub timeouts : ℕ
  pub coalesced : ℕ

-- The memory before its first use.
pub zero_addr : List ℕ
zero_addr = replicate 16 0

pub unused_waiter : UpstreamWaiter
unfolding zero_addr
unused_waiter = record {
  client_addr = zero_addr;
  recv_us = 0;
  tcp_gen = 0;
  client_txid = 0;
  via_tcp = false;
}

pub unused_entry : UpstreamEntry
unfolding zero_addr unused_waiter
unused_entry = record {
  our_txid = 0;
  client_txid = 0;
  client_addr = zero_addr;
  sent_ms = 0;
  recv_us = 0;
  upstream_us = 0;
  qhash = 0;
  qkey = 0;
  case_hash = 0;
  load_gen = 0;
  qtype = 0;
  in_use = false;
  via_tcp = false;
  refresh_only = false;
  no_cache = false;
  paused = false;
  exempt = false;
  n_wait = 0;
  hedged = false;
  hedge_local = false;
  hedge_qlen = 0;
  hedge_deadline_ms = 0;
  env_hash = 0;
  tcp_gen = 0;
  waiters = replicate waiters_max unused_waiter;
}

unfoldable pub upstream_init : Upstream
unfolding unused_entry
upstream_init = record { entries = replicate table_size unused_entry; timeouts = 0; coalesced = 0 }

-- The first entry that passes a test.
pub find_entry : (UpstreamEntry → Bool) → List UpstreamEntry → Option ℕ
find_entry test [] = none
find_entry test (e ∷ es) =
    let rest = find_entry test es in if test e then some 0 else Option.map suc rest

abbrev pub has_txid : ℕ → UpstreamEntry → Bool
has_txid t e = e.in_use && e.our_txid == t

pub txid_in_use : ℕ → List UpstreamEntry → Bool
txid_in_use t [] = false
txid_in_use t (e ∷ es) = has_txid t e || txid_in_use t es

-- The loop that rolls a number: from the index `i` of the stream on.
pub roll : ℕ → (ℕ → ℕ) → ℕ → List UpstreamEntry → Run ℕ
unfolding txid_in_use
roll zero random i es = out_of_fuel
roll (suc fuel) random i es =
    let rest = roll fuel random (i + 1) es in
    let t = random i % 2 ^ 16 in if t == 0 || txid_in_use t es then rest else done t

-- The writes to the entry that is taken.
pub taken_entry : ℕ → UpstreamEntry → UpstreamEntry
taken_entry t e = record e {
  in_use = true;
  our_txid = t;
  via_tcp = false;
  refresh_only = false;
  no_cache = false;
  paused = false;
  exempt = false;
  n_wait = 0;
  hedged = false;
  hedge_qlen = 0;
  hedge_deadline_ms = 0;
  hedge_local = false;
}

-- The index of the entry and its identifier, if an entry is free.
unfoldable pub upstream_alloc : ℕ → (ℕ → ℕ) → ℕ → Upstream → Run (Option (ℕ × ℕ) × Upstream)
unfolding find_entry roll taken_entry
upstream_alloc fuel random i u = elim (find_entry (λ e. not e.in_use) u.entries) [
  | none ↦ done (none, u)
  | some slot ↦ roll fuel random i u.entries >>= λ t. load u.entries slot >>= λ e.
      done (some (slot, t), record u { entries = set u.entries slot (taken_entry t e) })
]

unfoldable pub upstream_find : ℕ → Upstream → Option ℕ
unfolding find_entry
upstream_find t u = find_entry (has_txid t) u.entries

-- The condition of `upstream_find_inflight`.
abbrev pub is_inflight : ℕ → ℕ → ℕ → UpstreamEntry → Bool
is_inflight qhash qkey qtype e =
    e.in_use && (not e.refresh_only && (e.qhash == qhash && (e.qkey == qkey && e.qtype == qtype)))

unfoldable pub upstream_find_inflight : ℕ → ℕ → ℕ → Upstream → Option ℕ
unfolding find_entry
upstream_find_inflight qhash qkey qtype u = find_entry (is_inflight qhash qkey qtype) u.entries

-- The time since an entry was sent, on 32 bits.
pub age_ms : ℕ → UpstreamEntry → ℕ
age_ms now_ms e = u32 (now_ms + (2 ^ 32 - u32 e.sent_ms))

-- The condition of `upstream_find_joinable`.
pub is_joinable : ℕ → ℕ → ℕ → ℕ → ℕ → UpstreamEntry → Bool
unfolding age_ms
is_joinable qhash qkey qtype env_hash now_ms e =
    e.in_use
    && (not e.refresh_only
        && (not e.no_cache
            && (e.qhash == qhash
                && (e.qkey == qkey
                    && (e.qtype == qtype
                        && (e.env_hash == env_hash
                            && (ltb e.n_wait waiters_max
                                && ltb (age_ms now_ms e) join_max_age_ms)))))))

unfoldable pub upstream_find_joinable : ℕ → ℕ → ℕ → ℕ → ℕ → Upstream → Option ℕ
unfolding find_entry is_joinable
upstream_find_joinable qhash qkey qtype env_hash now_ms u =
    find_entry (is_joinable qhash qkey qtype env_hash now_ms) u.entries

-- The waiter that is written; without an address its bytes are zeros.
pub new_waiter : ℕ → Option (List ℕ) → ℕ → Bool → ℕ → UpstreamWaiter
unfolding zero_addr
new_waiter client_txid client_addr recv_us via_tcp tcp_gen = record {
  client_addr = elim client_addr [ none ↦ zero_addr | some a ↦ a ];
  recv_us = recv_us;
  tcp_gen = tcp_gen;
  client_txid = client_txid;
  via_tcp = via_tcp;
}

-- A requester added to the entry at an index.
unfoldable pub upstream_join :
    ℕ → ℕ → Option (List ℕ) → ℕ → Bool → ℕ → Upstream → Run (Bool × Upstream)
unfolding new_waiter
upstream_join slot client_txid client_addr recv_us via_tcp tcp_gen u = load u.entries slot >>= λ e.
    if leb waiters_max e.n_wait
    then done (false, u)
    else (store e.waiters e.n_wait (new_waiter client_txid client_addr recv_us via_tcp tcp_gen)
        >>= λ ws. done (
          true,
          record u {
            entries = set u.entries slot (record e { waiters = ws; n_wait = u8 (e.n_wait + 1) });
            coalesced = u32 (u.coalesced + 1);
          },
        ))

pub is_expired : ℕ → UpstreamEntry → Bool
unfolding age_ms
is_expired now_ms e = e.in_use && ltb upstream_timeout_ms (age_ms now_ms e)

-- The loop of `upstream_evict_expired`, with the counter of the timeouts.
pub evict_loop : ℕ → List UpstreamEntry → ℕ → List UpstreamEntry × ℕ
unfolding is_expired
evict_loop now_ms [] timeouts = ([], timeouts)
evict_loop now_ms (e ∷ es) timeouts =
    let gone = is_expired now_ms e in
    let (rest, total) = evict_loop now_ms es (if gone then u32 (timeouts + 1) else timeouts) in
    ((if gone then record e { in_use = false } else e) ∷ rest, total)

unfoldable pub upstream_evict_expired : ℕ → Upstream → Upstream
unfolding evict_loop
upstream_evict_expired now_ms u =
    let (entries, timeouts) = evict_loop now_ms u.entries u.timeouts in
    record u { entries = entries; timeouts = timeouts }

pub inflight_loop : List UpstreamEntry → ℕ
inflight_loop [] = 0
inflight_loop (e ∷ es) = (if e.in_use then 1 else 0) + inflight_loop es

unfoldable pub upstream_inflight : Upstream → ℕ
unfolding inflight_loop
upstream_inflight u = inflight_loop u.entries
