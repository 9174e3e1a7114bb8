-- ===== src/WebParse/Search.antt =====
-- The search for a key: it ends, and what it finds is an occurrence that is placed right.
use mathlib.Core.Option
use esp32_ad_blocker_reborn.Common.{
  ℕ, zero, suc, ◌<◌, ◌≡◌, refl, ◌∙◌, sym, ap, subst, arith, Bool, true, false, Option, none, some,
  List, [], ◌∷◌, ◌++◌, append_assoc, ◌==◌, ==_iff, if◌then◌else◌, some_inj, length, length-append,
  done, Returns, Bool-cases, inl, inr,
}
use esp32_ad_blocker_reborn.WebParse.{after_prefix, strstr, last_byte, occurrence_loop}

after_prefix_sound :
    (key s : List ℕ) {rest : List ℕ} → after_prefix key s ≡ some rest → s ≡ key ++ rest
unfolding after_prefix
after_prefix_sound [] s h = some_inj h
after_prefix_sound (k ∷ ks) [] h = absurd (cc)
after_prefix_sound (k ∷ ks) (c ∷ cs) {rest} h = elim (Bool-cases (k == c)) [
  | inl e ↦
      let tail : after_prefix ks cs ≡ some rest = sym (taken true e) ∙ h in
      let same : k ≡ c = (==_iff k c).0 e in
      let more : cs ≡ ks ++ rest = after_prefix_sound ks cs tail in
      cons_both c k cs (ks ++ rest) (sym same) more
  | inr e ↦ let no : none ≡ some rest = sym (taken false e) ∙ h in absurd (cc)
]
  where
    taken :
        (b : Bool)
        → (k == c) ≡ b
        → (if k == c then after_prefix ks cs else none) ≡ (if b then after_prefix ks cs else none)
    taken b e = ap (λ (t : Bool). if t then after_prefix ks cs else none) e

    cons_both : (x y : ℕ) (xs ys : List ℕ) → x ≡ y → xs ≡ ys → x ∷ xs ≡ y ∷ ys
    cons_both x y xs ys p q = cc

-- What `strstr` answers: the text before an occurrence and the text behind it.
abbrev pub Occurs : List ℕ → List ℕ → Option (List ℕ × List ℕ) → Type 0
Occurs key s none = Unit
Occurs key s (some (before, rest)) = s ≡ before ++ (key ++ rest)

pub strstr-Occurs : (key s : List ℕ) → Occurs key s (strstr key s)
unfolding strstr
strstr-Occurs key [] = at (after_prefix key []) refl
  where
    at :
        (r : Option (List ℕ))
        → after_prefix key [] ≡ r
        → Occurs key [] (Option.map (λ rest. ([], rest)) r)
    at none e = tt
    at (some rest) e = after_prefix_sound key [] e
strstr-Occurs key (c ∷ cs) =
    at (after_prefix key (c ∷ cs)) refl (strstr key cs) (strstr-Occurs key cs)
  where
    later :
        (r : Option (List ℕ × List ℕ))
        → Occurs key cs r
        → Occurs key (c ∷ cs) (Option.map (λ (before, rest). (c ∷ before, rest)) r)
    later none h = tt
    later (some (before, rest)) h = ap (λ (t : List ℕ). c ∷ t) h

    at :
        (r : Option (List ℕ))
        → after_prefix key (c ∷ cs) ≡ r
        → (t : Option (List ℕ × List ℕ)) → Occurs key cs t
        → Occurs key (c ∷ cs) (elim r [
          | some rest ↦ some ([], rest)
          | none ↦ Option.map (λ (before, rest). (c ∷ before, rest)) t
        ])
    at (some rest) e t h = after_prefix_sound key (c ∷ cs) e
    at none e t h = later t h

last_byte-append :
    (prev : Option ℕ) (xs ys : List ℕ)
    → last_byte prev (xs ++ ys) ≡ last_byte (last_byte prev xs) ys
unfolding last_byte
last_byte-append prev [] ys = refl
last_byte-append prev (x ∷ xs) ys = last_byte-append (some x) xs ys

-- `s` has the key in it where it is `placed`, with `rest` behind it.
pub record Placed (placed : Option ℕ → List ℕ → Bool) (key s rest : List ℕ) : Type 0 where
  pub before : List ℕ
  pub split : s ≡ before ++ (key ++ rest)
  pub right : placed (last_byte none before) rest ≡ true

abbrev pub OptionPlaced : (Option ℕ → List ℕ → Bool) → List ℕ → List ℕ → Option (List ℕ) → Type 0
OptionPlaced placed key s none = Unit
OptionPlaced placed key s (some rest) = Placed placed key s rest

occurrence_loop_lem :
    (placed : Option ℕ → List ℕ → Bool) (key all : List ℕ)
    → 0 < length key
    → (fuel : ℕ) (passed s : List ℕ) → all ≡ passed ++ s
    → length s < fuel
    → Returns
        (occurrence_loop fuel placed key (last_byte none passed) s)
        (OptionPlaced placed key all)
unfolding occurrence_loop
occurrence_loop_lem placed key all k zero passed s split h = absurd (omega arith)
occurrence_loop_lem placed key all k (suc fuel) passed s split h =
    at (strstr key s) (strstr-Occurs key s)
      (λ passed' s' e l. occurrence_loop_lem placed key all k fuel passed' s' e l)
  where
    Again : Type 0
    Again =
        (passed' s' : List ℕ)
        → all ≡ passed' ++ s'
        → length s' < fuel
        → Returns (occurrence_loop fuel placed key (last_byte none passed') s')
            (OptionPlaced placed key all)

    round :
        (before rest : List ℕ)
        → s ≡ before ++ (key ++ rest)
        → Again
        → (b : Bool) → placed (last_byte (last_byte none passed) before) rest ≡ b
        → Returns
            (if b
              then done (some rest)
              else occurrence_loop fuel placed key
                  (last_byte (last_byte (last_byte none passed) before) key)
                  rest)
            (OptionPlaced placed key all)
    round before rest e again true right = record {
      before = passed ++ before;
      split =
          split
          ∙ ap (λ (t : List ℕ). passed ++ t) e
          ∙ sym (append_assoc passed before (key ++ rest));
      right = ap (λ (t : Option ℕ). placed t rest) (last_byte-append none passed before) ∙ right;
    }
    round before rest e again false right =
        subst
          (λ (t : Option ℕ).
            Returns (occurrence_loop fuel placed key t rest) (OptionPlaced placed key all))
          (last_byte-append none (passed ++ before) key
            ∙ ap (λ (t : Option ℕ). last_byte t key) (last_byte-append none passed before))
          (again ((passed ++ before) ++ key) rest
            (split
              ∙ ap (λ (t : List ℕ). passed ++ t) e
              ∙ sym (append_assoc passed before (key ++ rest))
              ∙ sym (append_assoc (passed ++ before) key rest))
            (omega (
              arith,
              h,
              k,
              ap length e,
              length-append before (key ++ rest),
              length-append key rest,
            )))

    at :
        (r : Option (List ℕ × List ℕ))
        → Occurs key s r
        → Again
        → Returns
            (elim r [
              | none ↦ done none
              | some (before, rest) ↦
                  if placed (last_byte (last_byte none passed) before) rest
                  then done (some rest)
                  else occurrence_loop fuel placed key
                      (last_byte (last_byte (last_byte none passed) before) key)
                      rest
            ])
            (OptionPlaced placed key all)
    at none e again = tt
    at (some (before, rest)) e again =
        round before rest e again (placed (last_byte (last_byte none passed) before) rest) refl

-- The loop ends, and what it finds is an occurrence placed right.
pub occurrence_loop-Returns :
    (placed : Option ℕ → List ℕ → Bool) (key s : List ℕ)
    → 0 < length key
    → Returns (occurrence_loop (suc (length s)) placed key none s) (OptionPlaced placed key s)
unfolding last_byte
occurrence_loop-Returns placed key s k =
    occurrence_loop_lem placed key s k (suc (length s)) [] s refl (omega arith)

-- A text that is not empty has a last byte.
pub last_byte-cons :
    (prev : Option ℕ) (c : ℕ) (cs : List ℕ)
    → (front : List ℕ) × (d : ℕ) × (c ∷ cs ≡ front ++ (d ∷ [])) × (last_byte prev (c ∷ cs) ≡ some d)
unfolding last_byte
last_byte-cons prev c [] = ([], c, refl, refl)
last_byte-cons prev c (x ∷ xs) =
    let (front, d, split, same) = last_byte-cons (some c) x xs in
    (c ∷ front, d, ap (λ (t : List ℕ). c ∷ t) split, same)
