-- ===== src/Census.antt =====
-- main/census.c: the table of the clients that were seen on the network, by MAC address.
-- The clock's readings, the allocator's answers and whether the mutex is free are arguments.
pub mod Sightings
pub mod Table
pub mod Kept
mod Examples
use mathlib.Core.Option
use esp32_ad_blocker_reborn.Common.{
  ℕ, zero, suc, ◌+◌, ◌/◌, ◌%◌, ◌^◌, Bool, true, false, not, ◌&&◌, ◌||◌, Option, none, some, List,
  [], ◌∷◌, ◌++◌, ◌==◌, ltb, if◌then◌else◌, length, set, get_elem?, take, eq_bytes, u32,
}

abbrev pub census_max : ℕ
census_max = 64

abbrev pub seen_arp : ℕ
seen_arp = 0

abbrev pub seen_dhcp : ℕ
seen_dhcp = 1

abbrev pub seen_query : ℕ
seen_query = 2

pub record CensusClient : Type 0 where
  pub mac : List ℕ
  pub ip : ℕ
  pub hostname : List ℕ
  pub first_seen_s : ℕ
  pub last_seen_s : ℕ
  pub arp_count : ℕ
  pub dhcp_count : ℕ
  pub query_count : ℕ

-- The file's statics; `clients` are the first `s_count` entries of the table.
pub record Census : Type 0 where
  pub has_table : Bool
  pub has_mutex : Bool
  pub clients : List CensusClient

-- The bytes before the terminator that is written.
pub census_copy_hostname : Option (List ℕ) → List ℕ
census_copy_hostname none = []
census_copy_hostname (some src) = take (if ltb (length src) 31 then length src else 31) src

-- The statics after `census_init`, which runs once, with its answer.
unfoldable pub census_init : Bool → Bool → Census × Bool
census_init table mutex =
    (record { has_table = table; has_mutex = table && mutex; clients = [] }, table && mutex)

-- The loop that looks for the entry of an address.
pub find_mac : List ℕ → List CensusClient → Option ℕ
find_mac mac [] = none
find_mac mac (c ∷ cs) =
    let rest = find_mac mac cs in if eq_bytes c.mac mac then some 0 else Option.map suc rest

-- The loop that looks for the entry seen least recently.
pub oldest_loop : ℕ → ℕ → ℕ → List CensusClient → ℕ
oldest_loop i min_i min_ls [] = min_i
oldest_loop i min_i min_ls (c ∷ cs) =
    oldest_loop (i + 1) (if ltb c.last_seen_s min_ls then i else min_i)
      (if ltb c.last_seen_s min_ls then c.last_seen_s else min_ls) cs

pub oldest : List CensusClient → ℕ
unfolding oldest_loop
oldest [] = 0
oldest (c ∷ cs) = oldest_loop 1 0 c.last_seen_s cs

-- A cleared entry with the address and the time of the first sighting.
pub fresh : List ℕ → ℕ → CensusClient
fresh mac now_s = record {
  mac = mac;
  ip = 0;
  hostname = [];
  first_seen_s = now_s;
  last_seen_s = 0;
  arp_count = 0;
  dhcp_count = 0;
  query_count = 0;
}

-- The table with an entry for the address, and the entry's index.
pub place : List ℕ → ℕ → List CensusClient → List CensusClient × ℕ
unfolding find_mac oldest fresh
place mac now_s cs = elim (find_mac mac cs) [
  | some i ↦ (cs, i)
  | none ↦
      if ltb (length cs) census_max
      then (cs ++ (fresh mac now_s ∷ []), length cs)
      else (set cs (oldest cs) (fresh mac now_s), oldest cs)
]

pub count_kind : ℕ → CensusClient → CensusClient
count_kind kind c =
    if kind == seen_arp
    then record c { arp_count = u32 (c.arp_count + 1) }
    else (if kind == seen_dhcp
        then record c { dhcp_count = u32 (c.dhcp_count + 1) }
        else (if kind == seen_query then record c { query_count = u32 (c.query_count + 1) } else c))

-- What a sighting writes into the client's entry.
pub sighted : ℕ → ℕ → Option (List ℕ) → ℕ → CensusClient → CensusClient
unfolding count_kind census_copy_hostname
sighted ip kind hostname now_s c =
    let name : List ℕ = elim hostname [
      | none ↦ c.hostname
      | some h ↦ if ltb 0 (length h) then census_copy_hostname (some h) else c.hostname
    ] in
    count_kind kind
      (record c { last_seen_s = now_s; ip = if ip == 0 then c.ip else ip; hostname = name })

pub write_entry : (CensusClient → CensusClient) → List CensusClient × ℕ → List CensusClient
write_entry f (cs, i) = elim (get_elem? cs i) [ none ↦ cs | some c ↦ set cs i (f c) ]

-- What is done under the mutex.
pub observe : List ℕ → ℕ → ℕ → Option (List ℕ) → ℕ → List CensusClient → List CensusClient
unfolding place sighted write_entry
observe mac ip kind hostname now_s cs =
    write_entry (sighted ip kind hostname now_s) (place mac now_s cs)

-- `taken` says whether the mutex is had within its time; the bytes at `hostname` are its
-- `hostname_len`, and a null pointer is `none`.
unfoldable pub census_observe : List ℕ → ℕ → ℕ → Option (List ℕ) → ℕ → Bool → Census → Census
unfolding observe
census_observe mac ip kind hostname now_us taken t =
    if not t.has_table || not t.has_mutex
    then t
    else (if not taken
        then t
        else record t { clients = observe mac ip kind hostname (u32 (now_us / 1000000)) t.clients })

unfoldable pub census_snapshot : ℕ → Census → List CensusClient
census_snapshot cap t =
    if not t.has_table || not t.has_mutex
    then []
    else take (if ltb (length t.clients) cap then length t.clients else cap) t.clients
