-- ===== src/Rewrite/Examples.antt =====
-- Tests of the rewrites, and the theorems at a concrete table.
use esp32_ad_blocker_reborn.Common.{◌≡◌, refl, arith, true, false, some, [], ◌∷◌, codes}
use esp32_ad_blocker_reborn.Rewrite.{
  RewriteTable, rewrite_lookup, rewrite_lookup_nb, rewrite_set, rewrite_list, Probe,
}
use esp32_ad_blocker_reborn.Rewrite.Match.{Answers, rewrite_lookup-Answers}
use esp32_ad_blocker_reborn.Rewrite.Rules.{rule_for}
use esp32_ad_blocker_reborn.Rewrite.Set.{IsSound, Sets, rewrite_set-Sets}

abbrev table : RewriteTable
table = record {
  ready = true;
  rules =
      record { domain = codes "lan"; ipv4_hbo = 0x0a00_0001 }
      ∷ record { domain = codes "nas.lan"; ipv4_hbo = 0x0a00_0002 }
      ∷ [];
}

table-IsSound : IsSound table
unfolding rule_for
table-IsSound = record {
  fits = omega arith;
  rules = (
    omega arith,
    (λ h. absurd (omega (arith, h))),
    refl,
    (omega arith, (λ h. absurd (omega (arith, h))), refl, tt),
  );
}

exact : rewrite_lookup true (some (codes "lan")) table ≡ 0x0a00_0001
unfolding rewrite_lookup
exact = refl

-- The first rule that matches answers, also before a longer one.
below : rewrite_lookup true (some (codes "nas.lan")) table ≡ 0x0a00_0001
unfolding rewrite_lookup
below = refl

no_dot : rewrite_lookup true (some (codes "wlan")) table ≡ 0
unfolding rewrite_lookup
no_dot = refl

busy : rewrite_lookup_nb false (some (codes "lan")) table ≡ Probe.busy
unfolding rewrite_lookup_nb
busy = refl

changed : rewrite_list 1 (rewrite_set (some (codes "lan")) 7 table).0 ≡ (codes "lan", 7) ∷ []
unfolding rewrite_list rewrite_set
changed = refl

rewrite_lookup-Answers_example :
    Answers (codes "tv.lan") table.rules (rewrite_lookup true (some (codes "tv.lan")) table)
rewrite_lookup-Answers_example = rewrite_lookup-Answers (codes "tv.lan") table

rewrite_set-Sets_example :
    Sets (codes "tv.lan") 0x0a00_0003 table (rewrite_set (some (codes "tv.lan")) 0x0a00_0003 table)
rewrite_set-Sets_example =
    rewrite_set-Sets (codes "tv.lan") 0x0a00_0003 table (omega arith) table-IsSound
