-- ===== src/Token/Scan.antt =====
-- The scanning steps that the parsers share: what each keeps stands in the line.
use esp32_ad_blocker_reborn.Common.{
  ℕ, ◌≤◌, ◌≡◌, inl, inr, refl, sym, ap, arith, false, List, [], ◌∷◌, ◌++◌, length, length-append,
  Bool-cases, append-nil, ◌∙◌, IsSlice, IsSlice-refl, IsSlice-cons, IsSlice-front,
}
use esp32_ad_blocker_reborn.Token.{is_blank, skip_blanks, span_word}

pub skip_blanks-IsSlice : (xs : List ℕ) → IsSlice (skip_blanks xs) xs
unfolding skip_blanks
skip_blanks-IsSlice [] = IsSlice-refl []
skip_blanks-IsSlice (c ∷ cs) =
    ground (arith, IsSlice-refl (c ∷ cs), IsSlice-cons c (skip_blanks-IsSlice cs))

pub length-skip_blanks : (xs : List ℕ) → length (skip_blanks xs) ≤ length xs
unfolding skip_blanks
length-skip_blanks [] = omega arith
length-skip_blanks (c ∷ cs) = ground (arith, length-skip_blanks cs)

pub skip_blanks-head :
    (xs : List ℕ) (c : ℕ) (cs : List ℕ) → skip_blanks xs ≡ c ∷ cs → is_blank c ≡ false
unfolding skip_blanks is_blank
skip_blanks-head [] c cs h = absurd (cc)
skip_blanks-head (x ∷ xs) c cs h = ground (arith, skip_blanks-head xs c cs)

pub span_word-append : (xs : List ℕ) → xs ≡ (span_word xs).0 ++ (span_word xs).1
unfolding span_word
span_word-append [] = refl
span_word-append (c ∷ cs) = elim (Bool-cases (is_blank c)) [
  | inl e ↦ rw (span_word, e) refl
  | inr e ↦ rw (span_word, e) (ap (λ (t : List ℕ). c ∷ t) (span_word-append cs))
]

pub length-span_word : (xs : List ℕ) → length (span_word xs).1 ≤ length xs
length-span_word xs =
    omega (arith, ap length (span_word-append xs), length-append (span_word xs).0 (span_word xs).1)

pub length-span_word_lt :
    (c : ℕ) (cs : List ℕ) → is_blank c ≡ false → length (span_word (c ∷ cs)).1 ≤ length cs
unfolding span_word
length-span_word_lt c cs h = rw (span_word, h) (length-span_word cs)

pub span_word-IsSlice : (xs : List ℕ) → IsSlice (span_word xs).0 xs
span_word-IsSlice xs = IsSlice-front (span_word xs).0 (span_word xs).1 (span_word-append xs)

pub span_word-rest-IsSlice : (xs : List ℕ) → IsSlice (span_word xs).1 xs
span_word-rest-IsSlice xs = record {
  front = (span_word xs).0;
  back = [];
  split =
      span_word-append xs
      ∙ ap (λ (t : List ℕ). (span_word xs).0 ++ t) (sym (append-nil (span_word xs).1));
}
