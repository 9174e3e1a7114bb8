-- ===== src/Census/Examples.antt =====
-- The census of two clients.
use esp32_ad_blocker_reborn.Common.{
  ℕ, ◌≡◌, ◌/◌, refl, arith, true, false, some, none, List, [], ◌∷◌, codes, u32,
}
use mathlib.Core.Option.{none-ne-some}
use esp32_ad_blocker_reborn.Census.{
  CensusClient, Census, seen_arp, seen_dhcp, seen_query, sighted, fresh, census_observe,
  census_snapshot,
}
use esp32_ad_blocker_reborn.Census.Sightings.{Sighted, IsFresh}
use esp32_ad_blocker_reborn.Census.Table.{Observed, census_observe-Observed}
use esp32_ad_blocker_reborn.Census.Kept.{IsCensus}

abbrev empty : Census
empty = record { has_table = true; has_mutex = true; clients = [] }

abbrev mac_a : List ℕ
mac_a = 2 ∷ 0 ∷ 0 ∷ 0 ∷ 0 ∷ 1 ∷ []

abbrev mac_b : List ℕ
mac_b = 2 ∷ 0 ∷ 0 ∷ 0 ∷ 0 ∷ 2 ∷ []

abbrev one : Census
one = census_observe mac_a 0 seen_dhcp (some (codes "printer")) 5000000 true empty

abbrev two : Census
two = census_observe mac_b 3232235778 seen_arp none 6000000 true one

empty-IsCensus : IsCensus []
empty-IsCensus = record {
  bound = omega arith;
  distinct = λ i j c d h k e. absurd (none-ne-some _ h);
}

census_observe-Observed_example :
    Observed mac_a
      (u32 (9000000 / 1000000))
      (sighted 3232235777 seen_query none (u32 (9000000 / 1000000)))
      two.clients
      (census_observe mac_a 3232235777 seen_query none 9000000 true two).clients
    × ((c : CensusClient)
        → Sighted 3232235777 seen_query none
            (u32 (9000000 / 1000000))
            c
            (sighted 3232235777 seen_query none (u32 (9000000 / 1000000)) c))
    × IsFresh mac_a (u32 (9000000 / 1000000)) (fresh mac_a (u32 (9000000 / 1000000)))
    × (census_observe mac_a 3232235777 seen_query none 9000000 false two ≡ two)
unfolding census_observe
census_observe-Observed_example =
    census_observe-Observed mac_a 3232235777 seen_query none 9000000 two refl refl

hostnames : List CensusClient → List (List ℕ)
hostnames [] = []
hostnames (c ∷ cs) = c.hostname ∷ hostnames cs

snapshot_test : hostnames (census_snapshot 8 two) ≡ codes "printer" ∷ [] ∷ []
unfolding hostnames census_snapshot census_observe
snapshot_test = refl
