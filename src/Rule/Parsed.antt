-- ===== src/Rule/Parsed.antt =====
-- `rule_parse_next`: what it emits is a name of the line, and the cursor moves on to the line's end.
use esp32_ad_blocker_reborn.Common.{
  ℕ, zero, suc, ◌-◌, ◌≤◌, ◌<◌, ◌≡◌, ◌≢◌, inl, inr, refl, ap, arith, Bool, true, false, ◌&&◌, Option,
  none, some, List, [], ◌∷◌, ltb, leb, ◌==◌, if◌then◌else◌, length, drop, leb→le, Bool-cases,
  IsSlice, IsSlice-trans, IsSlice-front, drop-IsSlice,
}
use esp32_ad_blocker_reborn.Token.{
  tok_is_address, has_byte, has_cosmetic, starts_with, skip_blanks, span_word,
}
use esp32_ad_blocker_reborn.Gate.{
  RuleKind, RejectReason, Rule, byte_at, reject_rule, finish_token, blank_rule,
}
use esp32_ad_blocker_reborn.Gate.Accepted.{Outcome, reject_rule-Outcome, finish_token-Outcome}
use esp32_ad_blocker_reborn.Rule.{
  hosts_token_next, split_dollar, parse_modifiers, schemes, strip_scheme, strip_slash, pattern_rule,
  pattern_of, flags_of, modified_rule, bare_rule, anchored_rule, first_rule, is_comment,
  rule_parse_next,
}
use esp32_ad_blocker_reborn.Token.Scan.{
  skip_blanks-IsSlice, length-skip_blanks, skip_blanks-head, length-span_word_lt, span_word-IsSlice,
}
use esp32_ad_blocker_reborn.Rule.Slices.{
  pattern_of-IsSlice, split_dollar-IsPrefix, strip_scheme-IsSlice, strip_slash-IsSlice,
}

-- One call from a cursor: a rule with its outcome and a cursor further on, within the line; or no
-- rule, and a cursor from which no call emits one.
abbrev pub Emitted : List ℕ → ℕ → Option Rule × ℕ → Type 0
Emitted line cursor (none, next) = length line ≤ next
Emitted line cursor (some r, next) = (cursor < next) × (next ≤ length line) × Outcome line r

pattern_rule-Outcome :
    (line tok : List ℕ) (kind : RuleKind) (flags n : ℕ)
    → kind ≢ RuleKind.reject
    → flags < 4
    → IsSlice tok line
    → Outcome line (pattern_rule kind flags tok n).0
unfolding pattern_rule
pattern_rule-Outcome line tok kind flags n k f s =
    let plain = strip_slash (strip_scheme schemes tok) in
    let inside =
      IsSlice-trans (strip_slash-IsSlice (strip_scheme schemes tok))
        (IsSlice-trans (strip_scheme-IsSlice schemes tok) s) in
    elim (Bool-cases
      (leb 2 (length tok) && byte_at tok 0 b'/' && byte_at tok (length tok - 1) b'/')) [
        | inl e ↦ rw (pattern_rule, e) (reject_rule-Outcome line n RejectReason.regex (λ p. cc))
        | inr e ↦ elim (Bool-cases (has_byte b'/' plain)) [
          | inl d ↦
              rw (pattern_rule, e, d) (reject_rule-Outcome line n RejectReason.malformed (λ p. cc))
          | inr d ↦
              rw (pattern_rule, e, d) (finish_token-Outcome line plain kind flags 0 n k f inside)
        ]
      ]

flags_of-lt : (exact important : Bool) → flags_of exact important < 4
unfolding flags_of
flags_of-lt true true = omega arith
flags_of-lt true false = omega arith
flags_of-lt false true = omega arith
flags_of-lt false false = omega arith

pattern_rule-cursor :
    (kind : RuleKind) (flags : ℕ) (tok : List ℕ) (n : ℕ) → (pattern_rule kind flags tok n).1 ≡ n
unfolding pattern_rule reject_rule
pattern_rule-cursor kind flags tok n = ground arith

-- A rule that ends the line.
abbrev EndsLine : List ℕ → Rule × ℕ → Type 0
EndsLine line (r, next) = (next ≡ length line) × Outcome line r

rejected :
    (line : List ℕ) (reason : RejectReason)
    → reason ≢ RejectReason.unset
    → EndsLine line (reject_rule (length line) reason)
unfolding reject_rule
rejected line reason h = (refl, reject_rule-Outcome line (length line) reason h)

modified_rule-EndsLine :
    (line p : List ℕ) (kind : RuleKind) (anchored exact : Bool)
    → kind ≢ RuleKind.reject
    → IsSlice p line
    → EndsLine line (modified_rule kind anchored exact p (length line))
unfolding modified_rule
modified_rule-EndsLine line p kind anchored exact k s = split (split_dollar p) refl
  where
    pattern :
        (important : Bool) (q : List ℕ)
        → IsSlice q line
        → EndsLine line
            (pattern_rule kind (flags_of exact important) (pattern_of anchored q) (length line))
    pattern important q inside = (
      pattern_rule-cursor kind (flags_of exact important) (pattern_of anchored q) (length line),
      pattern_rule-Outcome line (pattern_of anchored q) kind (flags_of exact important)
          (length line) k (flags_of-lt exact important)
          (IsSlice-trans (pattern_of-IsSlice anchored q) inside),
    )

    split :
        (o : Option (List ℕ × List ℕ))
        → split_dollar p ≡ o
        → EndsLine line (elim o as (λ _. Rule × ℕ) [
          | none ↦ pattern_rule kind (flags_of exact false) (pattern_of anchored p) (length line)
          | some (before, behind) ↦
              if parse_modifiers behind
              then pattern_rule kind
                  (flags_of exact true)
                  (pattern_of anchored before)
                  (length line)
              else reject_rule (length line) RejectReason.modifier
        ])
    split none e = pattern false p s
    split (some (before, behind)) e =
        let (back, cut) = split_dollar-IsPrefix p before behind e in
        elim (Bool-cases (parse_modifiers behind)) [
          | inl m ↦ rw m (pattern true before (IsSlice-trans (IsSlice-front before back cut) s))
          | inr m ↦ rw m (rejected line RejectReason.modifier (λ q. cc))
        ]

-- A rule that ends a line is emitted at the line's start.
EndsLine-Emitted :
    (line : List ℕ) (r : Rule × ℕ)
    → 0 < length line
    → EndsLine line r
    → Emitted line 0 (some r.0, r.1)
EndsLine-Emitted line r h (e, o) = (omega (arith, e), omega (arith, e), o)

length-drop : (n : ℕ) (xs : List ℕ) → length (drop n xs) ≡ length xs - n
length-drop zero xs = omega arith
length-drop (suc n) [] = omega arith
length-drop (suc n) (x ∷ xs) = omega (arith, length-drop n xs)

hosts_token_next-Emitted :
    (line : List ℕ) (cursor : ℕ)
    → cursor < length line
    → Emitted line cursor (hosts_token_next line cursor)
unfolding hosts_token_next
hosts_token_next-Emitted line cursor h = token (skip_blanks (drop cursor line)) refl
  where
    token :
        (p : List ℕ)
        → skip_blanks (drop cursor line) ≡ p
        → Emitted line cursor (elim p as (λ _. Option Rule × ℕ) [
          | [] ↦ (none, length line)
          | c ∷ cs ↦
              let (r, _, _) =
                finish_token
                  (span_word (skip_blanks (drop cursor line))).0
                  (blank_rule RuleKind.block 0)
                  cursor
                  (length line) in
              (some r, length line - length (span_word (skip_blanks (drop cursor line))).1)
        ])
    token [] e = omega arith
    token (c ∷ cs) e =
        let p = skip_blanks (drop cursor line) in
        let shorter : length (span_word p).1 ≤ length cs =
          rw e (length-span_word_lt c cs (skip_blanks-head (drop cursor line) c cs e)) in
        let word =
          IsSlice-trans (span_word-IsSlice p)
            (IsSlice-trans (skip_blanks-IsSlice (drop cursor line)) (drop-IsSlice cursor line)) in
        let left : suc (length cs) ≤ length line - cursor =
          omega
            (arith, ap length e, length-skip_blanks (drop cursor line), length-drop cursor line) in
        (
          omega arith,
          omega arith,
          finish_token-Outcome line (span_word p).0 RuleKind.block 0 cursor (length line) (λ q. cc)
              (omega arith) word,
        )

Emitted-from :
    (line : List ℕ) (cursor : ℕ) (r : Option Rule × ℕ) → Emitted line cursor r → Emitted line 0 r
Emitted-from line cursor (none, next) e = e
Emitted-from line cursor (some r, next) (a, b, o) = (omega arith, b, o)

bare_rule-Emitted :
    (line p : List ℕ) → 0 < length line → IsSlice p line → Emitted line 0 (bare_rule line p)
unfolding bare_rule
bare_rule-Emitted line p h s =
    let (word, rest) = span_word p in
    elim (Bool-cases (tok_is_address word && ltb 0 (length rest))) [
      | inl e ↦ elim (Bool-cases (has_byte b'$' rest)) [
        | inl d ↦
            rw (bare_rule, e, d)
              (EndsLine-Emitted line (reject_rule (length line) RejectReason.modifier) h
                (rejected line RejectReason.modifier (λ q. cc)))
        | inr d ↦
            rw (bare_rule, e, d)
              (Emitted-from line (length line - length rest)
                (hosts_token_next line (length line - length rest))
                (hosts_token_next-Emitted line (length line - length rest) (ground arith)))
      ]
      | inr e ↦
          rw (bare_rule, e)
            (EndsLine-Emitted line (modified_rule RuleKind.block false false p (length line)) h
              (modified_rule-EndsLine line p RuleKind.block false false (λ q. cc) s))
    ]

anchored_rule-Emitted :
    (line p : List ℕ) (kind : RuleKind)
    → kind ≢ RuleKind.reject
    → 0 < length line
    → IsSlice p line
    → Emitted line 0 (anchored_rule kind line p)
unfolding anchored_rule
anchored_rule-Emitted line p kind k h s = elim (Bool-cases (starts_with b'|' b'|' p)) [
  | inl e ↦
      rw (anchored_rule, e)
        (modified kind true false (drop 2 p) k (IsSlice-trans (drop-IsSlice 2 p) s))
  | inr e ↦ elim (Bool-cases (byte_at p 0 b'|')) [
    | inl d ↦
        rw (anchored_rule, e, d)
          (modified kind true true (drop 1 p) k (IsSlice-trans (drop-IsSlice 1 p) s))
    | inr d ↦ rw (anchored_rule, e, d) (plain kind k)
  ]
]
  where
    modified :
        (kind : RuleKind) (anchored exact : Bool) (q : List ℕ)
        → kind ≢ RuleKind.reject
        → IsSlice q line
        → Emitted line 0
            (let (r, c) = modified_rule kind anchored exact q (length line) in (some r, c))
    modified kind anchored exact q k inside =
        EndsLine-Emitted line (modified_rule kind anchored exact q (length line)) h
          (modified_rule-EndsLine line q kind anchored exact k inside)

    plain :
        (kind : RuleKind)
        → kind ≢ RuleKind.reject
        → Emitted line 0 (elim kind as (λ _. Option Rule × ℕ) [
          | RuleKind.block ↦ bare_rule line p
          | other ↦ let (r, c) = modified_rule other false true p (length line) in (some r, c)
        ])
    plain RuleKind.block k = bare_rule-Emitted line p h s
    plain RuleKind.allow k = modified RuleKind.allow false true p k s
    plain RuleKind.reject k = absurd (k refl)

first_rule-Emitted : (line : List ℕ) → 0 < length line → Emitted line 0 (first_rule line)
unfolding first_rule
first_rule-Emitted line h =
    let p = skip_blanks line in
    elim (Bool-cases (has_cosmetic line)) [
      | inl e ↦
          rw (first_rule, e)
            (EndsLine-Emitted line (reject_rule (length line) RejectReason.cosmetic) h
              (rejected line RejectReason.cosmetic (λ q. cc)))
      | inr e ↦ elim (Bool-cases (starts_with b'@' b'@' p)) [
        | inl d ↦
            rw (first_rule, e, d)
              (anchored_rule-Emitted line (drop 2 p) RuleKind.allow (λ q. cc) h
                (IsSlice-trans (drop-IsSlice 2 p) (skip_blanks-IsSlice line)))
        | inr d ↦
            rw (first_rule, e, d)
              (anchored_rule-Emitted line p RuleKind.block (λ q. cc) h (skip_blanks-IsSlice line))
      ]
    ]

-- Every call of `rule_parse_next` at a cursor of 0 or further on either emits a rule and moves the
-- cursor on within the line, or emits none and leaves a cursor at the line's end, from which no call
-- emits one. A rule that is rejected has no token, no flags and a reason. One that is not has no
-- reason, only the two flags, and a token that stands in the line, of 3 to 253 letters, digits, dots,
-- underscores and hyphens, not all of them digits and dots.
pub rule_parse_next-Emitted :
    (line : List ℕ) (cursor : ℕ) → Emitted line cursor (rule_parse_next line cursor)
unfolding rule_parse_next
rule_parse_next-Emitted [] cursor = omega arith
rule_parse_next-Emitted (x ∷ xs) cursor = by_cursor (x ∷ xs) cursor (omega arith)
  where
    by_cursor :
        (line : List ℕ) (cursor : ℕ)
        → 0 < length line
        → Emitted line cursor (rule_parse_next line cursor)
    by_cursor line zero h =
        let full : (length line == 0) ≡ false = ground arith in
        elim (Bool-cases (is_comment line)) [
          | inl e ↦ rw (rule_parse_next, full, e) (omega arith)
          | inr e ↦ rw (rule_parse_next, full, e) (first_rule-Emitted line h)
        ]
    by_cursor line (suc n) h =
        let full : (length line == 0) ≡ false = ground arith in
        let later : (suc n == 0) ≡ false = ground arith in
        elim (Bool-cases (leb (length line) (suc n))) [
          | inl e ↦ rw (rule_parse_next, full, later, e) (leb→le (length line) (suc n) e)
          | inr e ↦
              rw (rule_parse_next, full, later, e)
                (hosts_token_next-Emitted line (suc n) (ground arith))
        ]
