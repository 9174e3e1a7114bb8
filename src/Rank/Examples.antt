-- ===== src/Rank/Examples.antt =====
-- Tests of the resolver, and the theorems at a concrete name.
use esp32_ad_blocker_reborn.Common.{
  ℕ, ◌≡◌, arith, none, some, List, [], ◌∷◌, if◌then◌else◌, codes, eq_bytes,
}
use esp32_ad_blocker_reborn.Rank.{RankSource, BlVerdict, allow, bl_rank_resolve}
use esp32_ad_blocker_reborn.Rank.Reference.{best_rank, AtMost}
use esp32_ad_blocker_reborn.Rank.Precedence.{
  AllHonest, state_of, rank_of, bl_rank_resolve-best_rank,
}

-- A source that knows one name.
abbrev single : List ℕ → ℕ → RankSource
single name rank = record {
  probe = λ p depth. if eq_bytes p name then some rank else none;
  max_rank = rank;
}

abbrev ads : List ℕ
ads = codes "ads.example.com"

-- The feed blocks the full name; an exception allows its parent.
abbrev feed_and_exception : List RankSource
feed_and_exception = single ads 0 ∷ single (codes "example.com") 1 ∷ []

abbrev allowed : BlVerdict
allowed = record { state = allow; rank = 1; unproven = 0; src = 1; depth = 1 }

single_honest :
    (name : List ℕ) (rank : ℕ) (p : List ℕ)
    → AtMost rank (if eq_bytes p name then some rank else none)
single_honest name rank p = ground arith

feed_and_exception-AllHonest : AllHonest feed_and_exception
feed_and_exception-AllHonest = (
  (omega arith, λ p depth. single_honest ads 0 p),
  ((omega arith, λ p depth. single_honest (codes "example.com") 1 p), tt),
)

bl_rank_resolve-best_rank_example :
    (v : BlVerdict) × (bl_rank_resolve ads feed_and_exception ≡ some v)
    × (v.state ≡ state_of (best_rank feed_and_exception ads))
    × (v.rank ≡ rank_of (best_rank feed_and_exception ads))
bl_rank_resolve-best_rank_example =
    bl_rank_resolve-best_rank ads feed_and_exception feed_and_exception-AllHonest
