-- ===== src/Dedup/Examples.antt =====
-- Dropping the repeats of short tables.
use esp32_ad_blocker_reborn.Common.{
  ℕ, ◌≡◌, refl, List, [], ◌∷◌, length, done, Returns, Run, ◌>>=◌, take,
}
use esp32_ad_blocker_reborn.Gate.{rule_exact, rule_important}
use esp32_ad_blocker_reborn.Dedup.{Exception, bl_dedup_exceptions}
use esp32_ad_blocker_reborn.Dedup.Merged.{Collapsed, bl_dedup_exceptions-Collapsed}

abbrev rec_a : List ℕ
rec_a = 0 ∷ 0 ∷ 0 ∷ 0 ∷ 1 ∷ []

abbrev rec_b : List ℕ
rec_b = 0 ∷ 0 ∷ 0 ∷ 1 ∷ 0 ∷ []

abbrev rest : List (List ℕ)
rest = rec_a ∷ rec_b ∷ rec_b ∷ []

abbrev exact_a : Exception
exact_a = record { rec = rec_a; flags = rule_exact }

abbrev important_a : Exception
important_a = record { rec = rec_a; flags = rule_important }

abbrev exact_b : Exception
exact_b = record { rec = rec_b; flags = rule_exact }

abbrev exceptions : List Exception
exceptions = important_a ∷ exact_b ∷ []

bl_dedup_exceptions-Collapsed_example :
    Returns
      (bl_dedup_exceptions (exact_a ∷ exceptions) (length (exact_a ∷ exceptions)))
      (λ (after, u).
        (length after ≡ length (exact_a ∷ exceptions))
        × Collapsed (exact_a ∷ exceptions) (take u after))
bl_dedup_exceptions-Collapsed_example = bl_dedup_exceptions-Collapsed (exact_a ∷ exceptions)

kept : Run (List Exception × ℕ) → Run (List Exception)
kept r = r >>= λ (es, u). done (take u es)

merged_test :
    kept (bl_dedup_exceptions (exact_a ∷ exceptions) (length (exact_a ∷ exceptions)))
    ≡ done (important_a ∷ exact_b ∷ [])
unfolding kept bl_dedup_exceptions
merged_test = refl
