-- ===== src/Rule/Slices.antt =====
-- The scanning steps of the rule parser: what each keeps stands in the line.
use esp32_ad_blocker_reborn.Common.{
  ℕ, ◌-◌, ◌≡◌, inl, inr, refl, ap, subst, arith, Bool, true, false, Option, none, some, List, [],
  ◌∷◌, ◌++◌, ◌==◌, if◌then◌else◌, length, Bool-cases, IsSlice, IsSlice-refl, IsSlice-trans,
  IsSlice-front, take-IsSlice, drop-IsSlice,
}
use esp32_ad_blocker_reborn.Token.{is_blank}
use esp32_ad_blocker_reborn.Rule.{
  split_dollar, take_until, trim_blanks, strip_scheme, strip_slash, pattern_of,
}

-- The list starts with these bytes.
abbrev pub IsPrefix : List ℕ → List ℕ → Type 0
IsPrefix xs ys = (back : List ℕ) × (ys ≡ xs ++ back)

IsPrefix-cons : (x : ℕ) (xs ys : List ℕ) → IsPrefix xs ys → IsPrefix (x ∷ xs) (x ∷ ys)
IsPrefix-cons x xs ys (back, e) = (back, ap (λ (t : List ℕ). x ∷ t) e)

take_until-IsPrefix : (b : ℕ) (xs : List ℕ) → IsPrefix (take_until b xs) xs
unfolding take_until
take_until-IsPrefix b [] = ([], refl)
take_until-IsPrefix b (c ∷ cs) = elim (Bool-cases (c == b)) [
  | inl e ↦ rw (take_until, e) (c ∷ cs, refl)
  | inr e ↦ rw (take_until, e) (IsPrefix-cons c (take_until b cs) cs (take_until-IsPrefix b cs))
]

trim_blanks-IsPrefix : (xs : List ℕ) → IsPrefix (trim_blanks xs) xs
unfolding trim_blanks
trim_blanks-IsPrefix [] = ([], refl)
trim_blanks-IsPrefix (c ∷ cs) = one c cs (trim_blanks cs) (trim_blanks-IsPrefix cs)
  where
    one :
        (c : ℕ) (cs kept : List ℕ)
        → IsPrefix kept cs
        → IsPrefix
            (elim kept as (λ _. List ℕ) [
              | [] ↦ if is_blank c then [] else c ∷ []
              | d ∷ ds ↦ c ∷ d ∷ ds
            ])
            (c ∷ cs)
    one c cs [] p = elim (Bool-cases (is_blank c)) [
      | inl e ↦ rw e (c ∷ cs, refl)
      | inr e ↦ rw e (cs, refl)
    ]
    one c cs (d ∷ ds) p = IsPrefix-cons c (d ∷ ds) cs p

pub pattern_of-IsSlice : (anchored : Bool) (xs : List ℕ) → IsSlice (pattern_of anchored xs) xs
unfolding pattern_of
pattern_of-IsSlice true xs =
    let (back, e) = trim_blanks-IsPrefix (take_until b'^' xs) in
    let (back', e') = take_until-IsPrefix b'^' xs in
    IsSlice-trans (IsSlice-front (trim_blanks (take_until b'^' xs)) back e)
      (IsSlice-front (take_until b'^' xs) back' e')
pattern_of-IsSlice false xs =
    let (back, e) = trim_blanks-IsPrefix xs in IsSlice-front (trim_blanks xs) back e

pub split_dollar-IsPrefix :
    (xs : List ℕ) (before behind : List ℕ)
    → split_dollar xs ≡ some (before, behind)
    → IsPrefix before xs
unfolding split_dollar
split_dollar-IsPrefix [] before behind h = absurd (cc)
split_dollar-IsPrefix (c ∷ cs) before behind h =
    one (split_dollar cs) (λ b a e. split_dollar-IsPrefix cs b a e) before behind h
  where
    one :
        (o : Option (List ℕ × List ℕ))
        → ((b a : List ℕ) → o ≡ some (b, a) → IsPrefix b cs)
        → (before behind : List ℕ)
        → elim o as (λ _. Option (List ℕ × List ℕ)) [
          | some (b, a) ↦ some (c ∷ b, a)
          | none ↦ if c == b'$' then some ([], cs) else none
        ]
          ≡ some (before, behind)
        → IsPrefix before (c ∷ cs)
    one (some (b, a)) f before behind h =
        let e : c ∷ b ≡ before = cc in
        subst (λ (t : List ℕ). IsPrefix t (c ∷ cs)) e (IsPrefix-cons c b cs (f b a refl))
    one none f before behind h =
        let e : [] ≡ before = ground arith in
        subst (λ (t : List ℕ). IsPrefix t (c ∷ cs)) e (c ∷ cs, refl)

pub strip_scheme-IsSlice : (ss : List (List ℕ)) (tok : List ℕ) → IsSlice (strip_scheme ss tok) tok
unfolding strip_scheme
strip_scheme-IsSlice [] tok = IsSlice-refl tok
strip_scheme-IsSlice (s ∷ ss) tok =
    ground (arith, drop-IsSlice (length s) tok, strip_scheme-IsSlice ss tok)

pub strip_slash-IsSlice : (tok : List ℕ) → IsSlice (strip_slash tok) tok
unfolding strip_slash
strip_slash-IsSlice tok = ground (arith, IsSlice-refl tok, take-IsSlice (length tok - 1) tok)
