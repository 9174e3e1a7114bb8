-- ===== src/Rank/Attribution.antt =====
-- `bl_rank_resolve`: the source and the depth that a verdict names did give its rank.
use esp32_ad_blocker_reborn.Common.{ℕ, ◌+◌, ◌≡◌, true, false, Option, none, some, List, get_elem?}
use esp32_ad_blocker_reborn.Domain.{domain_is_bare_tld}
use esp32_ad_blocker_reborn.Rank.{RankSource, Walk}
use esp32_ad_blocker_reborn.Rank.Reference.{suffixes}

-- The source at an index gave the rank at the suffix of a depth, which is not a bare TLD.
abbrev pub Gave : List RankSource → List ℕ → ℕ → ℕ → ℕ → Type 0
Gave srcs name src depth r =
    (s : RankSource) × (p : List ℕ) × (get_elem? srcs src ≡ some s)
    × (get_elem? (suffixes name) depth ≡ some p)
    × (domain_is_bare_tld p ≡ false)
    × (s.probe p depth ≡ some r)

abbrev Won : List RankSource → List ℕ → Walk → Type 0
Won srcs name w = w.found ≡ true → Gave srcs name w.src w.depth w.best

-- The sources at the index `i` and after it.
abbrev From : List RankSource → ℕ → List RankSource → Type 0
From srcs i ss = (j : ℕ) → get_elem? srcs (i + j) ≡ get_elem? ss j

-- The walk, if it ends, ends in such a state.
abbrev Ends : (Walk → Type 0) → Option Walk → Type 0
Ends P none = Unit {0}
Ends P (some w) = P w

-- The suffixes of the name from a depth on are those of `p`.
abbrev At : List ℕ → ℕ → List ℕ → Type 0
At name depth p = (j : ℕ) → get_elem? (suffixes name) (depth + j) ≡ get_elem? (suffixes p) j
