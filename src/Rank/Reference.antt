-- ===== src/Rank/Reference.antt =====
-- The reference: the highest answer of all sources at all suffixes, with no early stop.
use esp32_ad_blocker_reborn.Common.{
  ℕ, ◌+◌, ◌≤◌, ◌<◌, ◌≡◌, refl, arith, Bool, true, false, ◌&&◌, Option, none, some, List, [], ◌∷◌,
  ltb, ◌==◌, if◌then◌else◌, length, u8, Bool-cases, inl, inr, subst, some_inj,
}
use esp32_ad_blocker_reborn.Domain.{domain_is_bare_tld}
use esp32_ad_blocker_reborn.Rank.{RankSource, after_dot}

-- The higher of two answers.
abbrev pub higher : Option ℕ → Option ℕ → Option ℕ
higher none b = b
higher (some x) none = some x
higher (some x) (some y) = if ltb x y then some y else some x

unfoldable pub best_of_sources : List RankSource → List ℕ → ℕ → Option ℕ
best_of_sources [] p depth = none
best_of_sources (s ∷ ss) p depth = higher (s.probe p depth) (best_of_sources ss p depth)

abbrev pub is_nonempty : List ℕ → Bool
is_nonempty [] = false
is_nonempty (c ∷ cs) = true

-- The proper suffixes that begin behind a dot, longest first.
unfoldable pub later_suffixes : List ℕ → List (List ℕ)
later_suffixes [] = []
later_suffixes (c ∷ cs) =
    let rest = later_suffixes cs in if c == b'.' && is_nonempty cs then cs ∷ rest else rest

unfoldable pub suffixes : List ℕ → List (List ℕ)
suffixes [] = []
suffixes (c ∷ cs) = (c ∷ cs) ∷ later_suffixes (c ∷ cs)

-- The highest answer at the suffixes, the first of which stands at the depth given.
unfoldable pub best_of_suffixes : List RankSource → ℕ → List (List ℕ) → Option ℕ
unfolding best_of_sources
best_of_suffixes srcs depth [] = none
best_of_suffixes srcs depth (p ∷ ps) =
    higher (if domain_is_bare_tld p then none else best_of_sources srcs p depth)
      (best_of_suffixes srcs (u8 (depth + 1)) ps)

unfoldable pub best_rank : List RankSource → List ℕ → Option ℕ
unfolding best_of_suffixes suffixes later_suffixes
best_rank srcs name = best_of_suffixes srcs 0 (suffixes name)

-- An answer is at most a bound.
abbrev pub AtMost : ℕ → Option ℕ → Type 0
AtMost b none = Unit {0}
AtMost b (some r) = r ≤ b

pub higher-AtMost : (b : ℕ) (x y : Option ℕ) → AtMost b x → AtMost b y → AtMost b (higher x y)
higher-AtMost b none y h k = k
higher-AtMost b (some x) none h k = h
higher-AtMost b (some x) (some y) h k = ground arith

pub higher_assoc : (x y z : Option ℕ) → higher (higher x y) z ≡ higher x (higher y z)
higher_assoc none y z = refl
higher_assoc (some x) none z = refl
higher_assoc (some x) (some y) none = ground arith
higher_assoc (some x) (some y) (some z) = ground arith

pub higher-none : (x : Option ℕ) → higher x none ≡ x
higher-none none = refl
higher-none (some x) = refl

-- An answer at the bound is not raised.
pub higher_absorb : (b r : ℕ) (y : Option ℕ) → b ≤ r → AtMost b y → higher (some r) y ≡ some r
higher_absorb b r none h k = refl
higher_absorb b r (some y) h k = ground arith

pub after_dot-suffixes :
    (p : List ℕ) {q : List ℕ} → after_dot p ≡ some q → later_suffixes p ≡ suffixes q
unfolding after_dot suffixes later_suffixes
after_dot-suffixes [] h = cc
after_dot-suffixes (c ∷ []) {q} h = elim (Bool-cases (c == b'.')) [
  | inl e ↦ rw e (subst (λ z. [] ≡ suffixes z) (some_inj (rw e at h)) refl)
  | inr e ↦ cc (rw e at h)
]
after_dot-suffixes (c ∷ d ∷ cs) {q} h = elim (Bool-cases (c == b'.')) [
  | inl e ↦ rw e (subst (λ z. suffixes (d ∷ cs) ≡ suffixes z) (some_inj (rw e at h)) refl)
  | inr e ↦ rw e (after_dot-suffixes (d ∷ cs) (rw e at h))
]

pub after_dot-none : (p : List ℕ) → after_dot p ≡ none → later_suffixes p ≡ []
unfolding after_dot later_suffixes
after_dot-none [] h = refl
after_dot-none (c ∷ cs) h = ground (arith, after_dot-none cs)

pub after_dot-length : (p : List ℕ) {q : List ℕ} → after_dot p ≡ some q → length q < length p
unfolding after_dot
after_dot-length [] h = cc
after_dot-length (c ∷ cs) {q} h = ground (arith, after_dot-length cs {q = q})
