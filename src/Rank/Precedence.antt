-- ===== src/Rank/Precedence.antt =====
-- `bl_rank_resolve` against the reference: rank decides, whatever the depth or the source.
use esp32_ad_blocker_reborn.Common.{
  ℕ, zero, suc, ◌+◌, ◌%◌, ◌≤◌, ◌<◌, ◌≡◌, refl, sym, ◌∙◌, ap, arith, Bool, true, Option, none, some,
  List, [], ◌∷◌, ltb, ◌==◌, if◌then◌else◌, length, u8, Bool-cases, inl, inr, subst, bit_and,
  bit_and_one,
}
use esp32_ad_blocker_reborn.Domain.{domain_is_bare_tld}
use esp32_ad_blocker_reborn.Rank.{
  RankSource, BlVerdict, BlState, no_match, allow, block, Walk, after_dot, verdict_of,
  bl_rank_resolve, visit, reached, probe_level, level, walk, max_rank_present, start,
}
use esp32_ad_blocker_reborn.Rank.Reference.{
  higher, best_of_sources, later_suffixes, suffixes, best_of_suffixes, best_rank, AtMost,
  higher-AtMost, higher_assoc, higher-none, after_dot-suffixes, after_dot-none, after_dot-length,
}

-- The best answer seen so far.
abbrev pub answer : Walk → Option ℕ
answer w = if w.found then some w.best else none

-- The contract of a source: no answer is above its `max_rank`, and that is at most the bound.
abbrev pub Within : ℕ → RankSource → Type 0
Within bound s =
    (s.max_rank ≤ bound) × ((p : List ℕ) (depth : ℕ) → AtMost s.max_rank (s.probe p depth))

abbrev pub AllWithin : ℕ → List RankSource → Type 0
AllWithin bound [] = Unit {0}
AllWithin bound (s ∷ ss) = Within bound s × AllWithin bound ss

AtMost-mono : (a b : ℕ) (x : Option ℕ) → a ≤ b → AtMost a x → AtMost b x
AtMost-mono a b none h k = k
AtMost-mono a b (some x) h k = omega arith

best_of_sources-AtMost :
    (b : ℕ) (srcs : List RankSource) (p : List ℕ) (depth : ℕ)
    → AllWithin b srcs
    → AtMost b (best_of_sources srcs p depth)
unfolding best_of_sources
best_of_sources-AtMost b [] p depth h = tt
best_of_sources-AtMost b (s ∷ ss) p depth ((le, k), rest) =
    higher-AtMost b (s.probe p depth) (best_of_sources ss p depth)
      (AtMost-mono s.max_rank b (s.probe p depth) le (k p depth))
      (best_of_sources-AtMost b ss p depth rest)

best_of_suffixes-AtMost :
    (b : ℕ) (srcs : List RankSource) (depth : ℕ) (ps : List (List ℕ))
    → AllWithin b srcs
    → AtMost b (best_of_suffixes srcs depth ps)
unfolding best_of_suffixes
best_of_suffixes-AtMost b srcs depth [] h = tt
best_of_suffixes-AtMost b srcs depth (p ∷ ps) h =
    higher-AtMost b (if domain_is_bare_tld p then none else best_of_sources srcs p depth)
      (best_of_suffixes srcs (u8 (depth + 1)) ps)
      (elim (Bool-cases (domain_is_bare_tld p)) [
        | inl e ↦ rw e tt
        | inr e ↦ rw e (best_of_sources-AtMost b srcs p depth h)
      ])
      (best_of_suffixes-AtMost b srcs (u8 (depth + 1)) ps h)

answer-visit :
    (s : RankSource) (p : List ℕ) (depth i : ℕ) (w : Walk)
    → answer (visit s p depth i w) ≡ higher (answer w) (s.probe p depth)
unfolding visit
answer-visit s p depth i w = ground arith

higher_chain :
    (w x y : Option ℕ) {l r : Option ℕ}
    → l ≡ higher w x
    → r ≡ higher l y
    → r ≡ higher w (higher x y)
higher_chain w x y e k = k ∙ ap (λ t. higher t y) e ∙ higher_assoc w x y

-- A walk that has reached a bound is at that bound for every answer within it.
reached_absorb :
    (b : ℕ) (w : Walk) (x : Option ℕ)
    → reached b w ≡ true
    → AtMost b x
    → higher (answer w) x ≡ answer w
unfolding reached
reached_absorb b w none h k = ground arith
reached_absorb b w (some x) h k = ground arith

-- A source that cannot raise the answer is skipped.
skip_answer :
    (s : RankSource) (p : List ℕ) (depth i : ℕ) (w : Walk)
    → AtMost s.max_rank (s.probe p depth)
    → answer (if reached s.max_rank w then w else visit s p depth i w)
      ≡ higher (answer w) (s.probe p depth)
skip_answer s p depth i w h = elim (Bool-cases (reached s.max_rank w)) [
  | inl e ↦ rw e (sym (reached_absorb s.max_rank w (s.probe p depth) e h))
  | inr e ↦ rw e (answer-visit s p depth i w)
]

-- The loop over the sources adds the highest of their answers, also where it leaves early.
answer-probe_level :
    (b : ℕ) (p : List ℕ) (depth i : ℕ) (ss : List RankSource) (w : Walk)
    → AllWithin b ss
    → answer (probe_level b p depth i ss w).0 ≡ higher (answer w) (best_of_sources ss p depth)
unfolding probe_level best_of_sources
answer-probe_level b p depth i [] w h = sym (higher-none (answer w))
answer-probe_level b p depth i (s ∷ ss) w h = elim (Bool-cases (reached b w)) [
  | inl e ↦ rw e (
      sym (
        reached_absorb b w (best_of_sources (s ∷ ss) p depth) e
          (best_of_sources-AtMost b (s ∷ ss) p depth h)))
  | inr e ↦ rw e (
      answer-probe_level b p depth (i + 1) ss
        (if reached s.max_rank w then w else visit s p depth i w) h.1
      ∙ ap (λ x. higher x (best_of_sources ss p depth)) (skip_answer s p depth i w (h.0.1 p depth))
      ∙ higher_assoc (answer w) (s.probe p depth) (best_of_sources ss p depth))
]

answer-level :
    (b : ℕ) (srcs : List RankSource) (p : List ℕ) (depth : ℕ) (w : Walk)
    → AllWithin b srcs
    → answer (level b srcs p depth w).0
      ≡ higher (answer w) (if domain_is_bare_tld p then none else best_of_sources srcs p depth)
unfolding level
answer-level b srcs p depth w h = elim (Bool-cases (domain_is_bare_tld p)) [
  | inl e ↦ rw e (sym (higher-none (answer w)))
  | inr e ↦ rw e (answer-probe_level b p depth 0 srcs w h)
]

probe_level_stop :
    (b : ℕ) (p : List ℕ) (depth i : ℕ) (ss : List RankSource) (w : Walk)
    → (probe_level b p depth i ss w).1 ≡ true
    → reached b (probe_level b p depth i ss w).0 ≡ true
unfolding probe_level
probe_level_stop b p depth i [] w h = cc
probe_level_stop b p depth i (s ∷ ss) w h = elim (Bool-cases (reached b w)) [
  | inl e ↦ rw e e
  | inr e ↦ rw e (
      probe_level_stop b p depth (i + 1) ss
        (if reached s.max_rank w then w else visit s p depth i w) (rw e at h))
]

-- The outer loop is left early only at the bound.
level_stop :
    (b : ℕ) (srcs : List RankSource) (p : List ℕ) (depth : ℕ) (w : Walk)
    → (level b srcs p depth w).1 ≡ true
    → reached b (level b srcs p depth w).0 ≡ true
unfolding level
level_stop b srcs p depth w h = ground (arith, probe_level_stop b p depth 0 srcs w)

-- Where the walk stands behind one suffix, with the rest of the name still to come.
abbrev Continues : ℕ → List RankSource → ℕ → List ℕ → Walk → Option Walk → Type 0
Continues b srcs depth p w o =
    (w' : Walk) × (o ≡ some w')
    × (answer w' ≡ higher (answer w) (best_of_suffixes srcs depth (later_suffixes p)))

-- The two ways on from a suffix: no dot is left, or the walk goes on behind the next one.
next_suffix :
    (fuel b : ℕ) (srcs : List RankSource) (p : List ℕ) (depth : ℕ) (w : Walk)
    → length p < suc fuel
    → ((q : List ℕ)
        → length q < fuel
        → (w' : Walk) × (walk fuel b srcs q depth w ≡ some w')
          × (answer w' ≡ higher (answer w) (best_of_suffixes srcs depth (suffixes q))))
    → (o : Option (List ℕ)) → after_dot p ≡ o
    → Continues b srcs depth p w (elim o [ none ↦ some w | some q ↦ walk fuel b srcs q depth w ])
unfolding best_of_suffixes
next_suffix fuel b srcs p depth w lt ih none e =
    (w, refl, rw (after_dot-none p e) (sym (higher-none (answer w))))
next_suffix fuel b srcs p depth w lt ih (some q) e =
    rw (after_dot-suffixes p e) (ih q (omega (arith, after_dot-length p e)))

-- The walk ends, with the highest of the answer so far and those at all suffixes that are left.
walk-answer :
    (fuel b : ℕ) (srcs : List RankSource) (p : List ℕ) (depth : ℕ) (w : Walk)
    → AllWithin b srcs
    → length p < fuel
    → (w' : Walk) × (walk fuel b srcs p depth w ≡ some w')
      × (answer w' ≡ higher (answer w) (best_of_suffixes srcs depth (suffixes p)))
unfolding walk suffixes best_of_suffixes
walk-answer zero b srcs p depth w h lt = absurd (omega arith)
walk-answer (suc fuel) b srcs [] depth w h lt = (w, refl, sym (higher-none (answer w)))
walk-answer (suc fuel) b srcs (c ∷ cs) depth w h lt =
    let p : List ℕ = c ∷ cs in
    let l : Walk × Bool = level b srcs p depth w in
    let x : Option ℕ = if domain_is_bare_tld p then none else best_of_sources srcs p depth in
    let rest : Option ℕ = best_of_suffixes srcs (u8 (depth + 1)) (later_suffixes p) in
    let step : answer l.0 ≡ higher (answer w) x = answer-level b srcs p depth w h in
    elim (Bool-cases l.1) [
      | inl e ↦ (
        l.0,
        rw (walk, e),
        higher_chain (answer w) x rest step (
            sym (
              reached_absorb b l.0 rest (level_stop b srcs p depth w e)
                (best_of_suffixes-AtMost b srcs (u8 (depth + 1)) (later_suffixes p) h))),
      )
      | inr e ↦
          let (w', done, k) =
            next_suffix fuel b srcs p (u8 (depth + 1)) l.0 lt
              (λ q lt'. walk-answer fuel b srcs q (u8 (depth + 1)) l.0 h lt') (after_dot p) refl in
          (w', rw (walk, e) done, higher_chain (answer w) x rest step k)
    ]

-- What a source promises: its ranks are bytes, and no answer is above its `max_rank`.
abbrev pub IsHonest : RankSource → Type 0
IsHonest s = (s.max_rank < 256) × ((p : List ℕ) (depth : ℕ) → AtMost s.max_rank (s.probe p depth))

abbrev pub AllHonest : List RankSource → Type 0
AllHonest [] = Unit {0}
AllHonest (s ∷ ss) = IsHonest s × AllHonest ss

max_rank_present_grows : (acc : ℕ) (ss : List RankSource) → acc ≤ max_rank_present acc ss
unfolding max_rank_present
max_rank_present_grows acc [] = omega arith
max_rank_present_grows acc (s ∷ ss) =
    ground (arith, max_rank_present_grows (if ltb acc s.max_rank then s.max_rank else acc) ss)

max_rank_present-AllWithin :
    (acc : ℕ) (ss : List RankSource) → AllHonest ss → AllWithin (max_rank_present acc ss) ss
unfolding max_rank_present
max_rank_present-AllWithin acc [] h = tt
max_rank_present-AllWithin acc (s ∷ ss) ((_, k), rest) =
    let acc' : ℕ = if ltb acc s.max_rank then s.max_rank else acc in
    ((ground (arith, max_rank_present_grows acc' ss), k), max_rank_present-AllWithin acc' ss rest)

best_of_sources_byte :
    (srcs : List RankSource) (p : List ℕ) (depth : ℕ)
    → AllHonest srcs
    → AtMost 255 (best_of_sources srcs p depth)
unfolding best_of_sources
best_of_sources_byte [] p depth h = tt
best_of_sources_byte (s ∷ ss) p depth ((small, k), rest) =
    higher-AtMost 255 (s.probe p depth) (best_of_sources ss p depth)
      (AtMost-mono s.max_rank 255 (s.probe p depth) (omega arith) (k p depth))
      (best_of_sources_byte ss p depth rest)

best_of_suffixes_byte :
    (srcs : List RankSource) (depth : ℕ) (ps : List (List ℕ))
    → AllHonest srcs
    → AtMost 255 (best_of_suffixes srcs depth ps)
unfolding best_of_suffixes
best_of_suffixes_byte srcs depth [] h = tt
best_of_suffixes_byte srcs depth (p ∷ ps) h =
    higher-AtMost 255 (if domain_is_bare_tld p then none else best_of_sources srcs p depth)
      (best_of_suffixes srcs (u8 (depth + 1)) ps)
      (elim (Bool-cases (domain_is_bare_tld p)) [
        | inl e ↦ rw e tt
        | inr e ↦ rw e (best_of_sources_byte srcs p depth h)
      ])
      (best_of_suffixes_byte srcs (u8 (depth + 1)) ps h)

-- The verdict that an answer stands for: an odd rank allows, an even one blocks.
abbrev pub state_of : Option ℕ → BlState
state_of none = no_match
state_of (some r) = if r % 2 == 1 then allow else block

abbrev pub rank_of : Option ℕ → ℕ
rank_of none = 0
rank_of (some r) = r

verdict_of-answer :
    (w : Walk)
    → AtMost 255 (answer w)
    → ((verdict_of w).state ≡ state_of (answer w)) × ((verdict_of w).rank ≡ rank_of (answer w))
unfolding verdict_of
verdict_of-answer w h = elim (Bool-cases w.found) [
  | inl e ↦ rw e (verdict_at w (rw e at h))
  | inr e ↦ rw e (refl, refl)
]
  where
    verdict_at :
        (w : Walk)
        → w.best ≤ 255
        → ((if bit_and w.best 1 == 1 then allow else block)
            ≡ (if w.best % 2 == 1 then allow else block))
          × (w.best ≡ w.best)
    verdict_at w h = (rw (bit_and_one w.best (omega arith)) refl, refl)

-- For sources that keep to their `max_rank`, `bl_rank_resolve` returns: the rank is the highest
-- that any source gives at any suffix of the name that is not a bare TLD, an odd one allows and an
-- even one blocks, and there is no match exactly when no source answers.
pub bl_rank_resolve-best_rank :
    (name : List ℕ) (srcs : List RankSource)
    → AllHonest srcs
    → (v : BlVerdict) × (bl_rank_resolve name srcs ≡ some v)
      × (v.state ≡ state_of (best_rank srcs name))
      × (v.rank ≡ rank_of (best_rank srcs name))
unfolding bl_rank_resolve best_rank
bl_rank_resolve-best_rank name srcs honest =
    let bound : ℕ = max_rank_present 0 srcs in
    let (w, done, k) =
      walk-answer (suc (length name)) bound srcs name 0 start
        (max_rank_present-AllWithin 0 srcs honest) (omega arith) in
    let (s, r) =
      verdict_of-answer w
        (subst (λ t. AtMost 255 t) (sym k) (best_of_suffixes_byte srcs 0 (suffixes name) honest)) in
    (verdict_of w, rw (bl_rank_resolve, done), s ∙ ap state_of k, r ∙ ap rank_of k)
