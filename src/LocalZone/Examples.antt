-- ===== src/LocalZone/Examples.antt =====
-- The local zones of the default list.
use esp32_ad_blocker_reborn.Common.{
  ℕ, ◌≡◌, ◌⊎◌, ◌↔◌, refl, true, false, some, List, [], ◌∷◌, codes, Run, done, Returns, ◌>>=◌,
}
use esp32_ad_blocker_reborn.LocalZone.{
  ZoneTable, LocalZones, localzone_match, localzone_get, parse_into, publish,
}
use esp32_ad_blocker_reborn.LocalZone.Match.{HasDot, AnyUnder, localzone_match-IsLocal}
use esp32_ad_blocker_reborn.LocalZone.Parse.{Published, publish-Published}

abbrev cleared : ZoneTable
cleared = record { suffix = []; text = [] }

abbrev at_home : ZoneTable
at_home = record { suffix = codes "lan" ∷ codes "home.arpa" ∷ []; text = codes "lan,home.arpa" }

abbrev zones : LocalZones
zones = record { tab0 = at_home; tab1 = cleared; live = some false }

localzone_match-IsLocal_example :
    (localzone_match (codes "nas.lan") zones ≡ true)
    ↔ ((¬ HasDot (codes "nas.lan")) ⊎ AnyUnder (codes "nas.lan") at_home.suffix)
localzone_match-IsLocal_example = localzone_match-IsLocal 110 (codes "as.lan") zones at_home refl

publish-Published_example :
    Returns (publish (codes " .Lan,,home.arpa.") zones) (λ after. Published zones after)
publish-Published_example = publish-Published (codes " .Lan,,home.arpa.") zones

match_test : localzone_match (codes "nas.lan") zones ≡ true
unfolding localzone_match
match_test = refl

no_match_test : localzone_match (codes "nas.wlan") zones ≡ false
unfolding localzone_match
no_match_test = refl

shown : Run LocalZones → Run (List ℕ)
shown r = r >>= λ s. done (localzone_get 64 s)

publish_test : shown (publish (codes " .Lan,,home.arpa.") zones) ≡ done (codes "lan,home.arpa")
unfolding shown publish parse_into localzone_get
publish_test = refl
