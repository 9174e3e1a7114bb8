-- ===== src/Rank.antt =====
-- main/bl_rank.c and main/bl_rank.h: the verdict resolver.
-- A name is the list of its bytes, so a pointer into it, with the length that remains, is a suffix.
pub mod Reference
pub mod Precedence
pub mod Attribution
mod Examples
use esp32_ad_blocker_reborn.Common.{
  ℕ, zero, suc, ◌+◌, ◌%◌, ◌^◌, Bool, true, false, not, ◌&&◌, ◌||◌, Option, none, some, List, [],
  ◌∷◌, bit_and, ltb, leb, ◌==◌, if◌then◌else◌, length, u8,
}
use esp32_ad_blocker_reborn.Domain.{domain_is_bare_tld}

-- `rank_source_t`: the probe with its context, and the highest rank that it can give.
pub record RankSource : Type 0 where
  pub probe : List ℕ → ℕ → Option ℕ
  pub max_rank : ℕ

pub data BlState : Type 0 where
  no_match allow block : BlState

-- `bl_verdict_t`
pub record BlVerdict : Type 0 where
  pub state : BlState
  pub rank : ℕ
  pub unproven : ℕ
  pub src : ℕ
  pub depth : ℕ

-- The locals of `bl_rank_resolve` that the loops change: `found`, `best`, `v.src` and `v.depth`.
pub record Walk : Type 0 where
  pub found : Bool
  pub best : ℕ
  pub src : ℕ
  pub depth : ℕ

-- The loop that derives the best rank any source can give.
pub max_rank_present : ℕ → List RankSource → ℕ
max_rank_present acc [] = acc
max_rank_present acc (s ∷ ss) = max_rank_present (if ltb acc s.max_rank then s.max_rank else acc) ss

-- One call of a probe, and what is done with its answer.
pub visit : RankSource → List ℕ → ℕ → ℕ → Walk → Walk
visit s p depth i w = elim (s.probe p depth) [
  | none ↦ w
  | some r ↦
      if not w.found || ltb w.best r
      then record { found = true; best = r; src = u8 i; depth = depth }
      else w
]

-- `found && best >= bound`
pub reached : ℕ → Walk → Bool
reached bound w = w.found && leb bound w.best

-- The loop over the sources at one suffix; `true` is `goto done`.
pub probe_level : ℕ → List ℕ → ℕ → ℕ → List RankSource → Walk → Walk × Bool
probe_level bound p depth i [] w = (w, false)
probe_level bound p depth i (s ∷ ss) w =
    let rest =
      probe_level bound p depth (i + 1) ss
        (if reached s.max_rank w then w else visit s p depth i w) in
    if reached bound w then (w, true) else rest

-- What one pass of the outer loop does before it looks for the next dot.
pub level : ℕ → List RankSource → List ℕ → ℕ → Walk → Walk × Bool
level bound srcs p depth w =
    if domain_is_bare_tld p
    then (w, false)
    else (let (w', stop) = probe_level bound p depth 0 srcs w in (w', stop || reached bound w'))

-- `memchr(p, '.', remaining)`, and the suffix behind the dot.
unfoldable pub after_dot : List ℕ → Option (List ℕ)
after_dot [] = none
after_dot (c ∷ cs) = if c == b'.' then some cs else after_dot cs

-- The outer loop; `none` means that the fuel ran out.
pub walk : ℕ → ℕ → List RankSource → List ℕ → ℕ → Walk → Option Walk
walk zero bound srcs p depth w = none
walk (suc fuel) bound srcs [] depth w = some w
walk (suc fuel) bound srcs (c ∷ cs) depth w =
    let (w', stop) = level bound srcs (c ∷ cs) depth w in
    elim stop [
      | true ↦ some w'
      | false ↦ elim (after_dot (c ∷ cs)) [
        | none ↦ some w'
        | some q ↦ walk fuel bound srcs q (u8 (depth + 1)) w'
      ]
    ]

-- What stands behind the label `done`.
pub verdict_of : Walk → BlVerdict
verdict_of w =
    if w.found
    then record {
      state = if bit_and w.best 1 == 1 then allow else block;
      rank = w.best;
      unproven = 0;
      src = w.src;
      depth = w.depth;
    }
    else record { state = no_match; rank = 0; unproven = 0; src = w.src; depth = w.depth }

abbrev pub start : Walk
start = record { found = false; best = 0; src = 0xff; depth = 0 }

unfoldable pub bl_rank_resolve : List ℕ → List RankSource → Option BlVerdict
unfolding walk verdict_of max_rank_present level probe_level visit reached
bl_rank_resolve name srcs =
    elim (walk (suc (length name)) (max_rank_present 0 srcs) srcs name 0 start) [
      | none ↦ none
      | some w ↦ some (verdict_of w)
    ]
