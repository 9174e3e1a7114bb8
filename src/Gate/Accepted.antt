-- ===== src/Gate/Accepted.antt =====
-- What passes `finish_token` is a name, and stands in the token that it was given.
use esp32_ad_blocker_reborn.Common.{
  ℕ, ◌-◌, ◌≤◌, ◌<◌, ◌≡◌, ◌≢◌, ◌⊎◌, inl, inr, refl, ◌∙◌, lt→ltb, arith, Bool, true, false, ◌&&◌,
  ◌||◌, Option, none, some, List, [], ◌∷◌, leb, ◌==◌, length, take, drop, Bool-cases, IsSlice,
  IsSlice-refl, IsSlice-trans, take-IsSlice, drop-IsSlice,
}
use esp32_ad_blocker_reborn.Token.{address_loop, tok_char_ok, tok_is_address, has_byte}
use esp32_ad_blocker_reborn.Domain.{strip_dots}
use esp32_ad_blocker_reborn.Gate.{
  RuleKind, RejectReason, Rule, strip_port, strip_brackets, is_too_wide, all_ok, reject_rule,
  without_star, trimmed_token, gate, finish_token, blank_rule,
}

abbrev IsDigit : ℕ → Type 0
IsDigit c = (b'0' ≤ c) × (c ≤ b'9')

-- A letter, a digit, or one of three other bytes.
abbrev pub IsNameByte : ℕ → Type 0
IsNameByte c =
    ((b'a' ≤ c) × (c ≤ b'z'))
    ⊎ ((b'A' ≤ c) × (c ≤ b'Z'))
    ⊎ IsDigit c
    ⊎ (c ≡ b'.')
    ⊎ (c ≡ b'_')
    ⊎ (c ≡ b'-')

abbrev pub All : (ℕ → Type 0) → List ℕ → Type 0
All P [] = Unit {0}
All P (c ∷ cs) = P c × All P cs

abbrev pub Some : (ℕ → Type 0) → List ℕ → Type 0
Some P [] = ⊥
Some P (c ∷ cs) = P c ⊎ Some P cs

-- Neither a digit nor a dot: an IPv4 address has none.
abbrev pub IsNoAddressByte : ℕ → Type 0
IsNoAddressByte c = ((c < b'0') ⊎ (b'9' < c)) × (c ≢ b'.')

pub record IsName (tok : List ℕ) : Type 0 where
  pub long : 3 ≤ length tok
  pub short : length tok ≤ 253
  pub bytes : All IsNameByte tok
  pub no_address : Some IsNoAddressByte tok

tok_char_ok-IsNameByte : (c : ℕ) → tok_char_ok c ≡ true → IsNameByte c
unfolding tok_char_ok
tok_char_ok-IsNameByte c h = ground arith

all_ok-All : (tok : List ℕ) → all_ok tok ≡ true → All IsNameByte tok
unfolding all_ok
all_ok-All [] h = tt
all_ok-All (c ∷ cs) h = (tok_char_ok-IsNameByte c (ground arith), all_ok-All cs (ground arith))

address_loop-Some : (tok : List ℕ) → address_loop true tok ≡ false → Some IsNoAddressByte tok
unfolding address_loop
address_loop-Some [] h = absurd (cc)
address_loop-Some (c ∷ cs) h = elim (Bool-cases ((leb b'0' c && leb c b'9') || c == b'.')) [
  | inl e ↦ inr (address_loop-Some cs (ground arith))
  | inr e ↦ inl (ground arith, ground arith)
]

tok_is_address-Some :
    (tok : List ℕ) → 0 < length tok → tok_is_address tok ≡ false → Some IsNoAddressByte tok
unfolding tok_is_address
tok_is_address-Some tok h e = address_loop-Some tok (loop tok h ∙ e)
  where
    loop : (tok : List ℕ) → 0 < length tok → address_loop true tok ≡ tok_is_address tok
    loop tok h = rw (tok_is_address, lt→ltb 0 (length tok) h) refl

gate-IsName : (tok : List ℕ) → gate tok ≡ none → IsName tok
unfolding gate is_too_wide
gate-IsName tok h = record {
  long = ground arith;
  short = ground arith;
  bytes = all_ok-All tok (ground arith);
  no_address = tok_is_address-Some tok (ground arith) (ground arith);
}

strip_brackets-IsSlice : (tok : List ℕ) → IsSlice (strip_brackets tok) tok
unfolding strip_brackets
strip_brackets-IsSlice tok = ground (
  arith,
  IsSlice-refl tok,
  IsSlice-trans (take-IsSlice (length tok - 2) (drop 1 tok)) (drop-IsSlice 1 tok),
)

trimmed_token-IsSlice : (tok : List ℕ) → IsSlice (trimmed_token tok) tok
unfolding trimmed_token
trimmed_token-IsSlice tok =
    let ported = take (strip_port tok) tok in
    let bare = strip_brackets ported in
    IsSlice-trans (take-IsSlice (strip_dots bare (length bare)) bare)
      (IsSlice-trans (strip_brackets-IsSlice ported) (take-IsSlice (strip_port tok) tok))

without_star-IsSlice : (tok : List ℕ) → IsSlice (without_star tok) tok
unfolding without_star
without_star-IsSlice tok = ground (arith, IsSlice-refl tok, drop-IsSlice 2 tok)

-- A rejected rule carries nothing but its reason; an accepted one carries a name of the line.
abbrev pub Outcome : List ℕ → Rule → Type 0
Outcome line r =
    ((r.kind ≡ RuleKind.reject)
      × (r.tok ≡ [])
      × (r.flags ≡ 0)
      × (r.reject_reason ≢ RejectReason.unset))
    ⊎ ((r.kind ≢ RuleKind.reject)
        × IsName r.tok
        × IsSlice r.tok line
        × (r.flags < 4)
        × (r.reject_reason ≡ RejectReason.unset))

pub reject_rule-Outcome :
    (line : List ℕ) (n : ℕ) (reason : RejectReason)
    → reason ≢ RejectReason.unset
    → Outcome line (reject_rule n reason).0
unfolding reject_rule
reject_rule-Outcome line n reason h = inl (refl, refl, refl, h)

gate_reason :
    (tok : List ℕ) {reason : RejectReason} → gate tok ≡ some reason → reason ≢ RejectReason.unset
unfolding gate
gate_reason tok h e = ground arith

pub finish_token-Outcome :
    (line tok : List ℕ) (kind : RuleKind) (flags cursor line_len : ℕ)
    → kind ≢ RuleKind.reject
    → flags < 4
    → IsSlice tok line
    → Outcome line (finish_token tok (blank_rule kind flags) cursor line_len).0
unfolding finish_token blank_rule
finish_token-Outcome line tok kind flags cursor line_len k f s =
    let bare = without_star tok in
    elim (Bool-cases (has_byte b'*' bare)) [
      | inl e ↦
          rw (finish_token, e) (reject_rule-Outcome line line_len RejectReason.wildcard (λ p. cc))
      | inr e ↦ rw (finish_token, e) (gated (gate (trimmed_token bare)) refl)
    ]
  where
    gated :
        (o : Option RejectReason)
        → gate (trimmed_token (without_star tok)) ≡ o
        → Outcome line (
            (elim o as (λ _. Rule × ℕ × Bool) [
              | some reason ↦ let (r, c) = reject_rule line_len reason in (r, c, false)
              | none ↦ (
                record (blank_rule kind flags) {
                  tok = trimmed_token (without_star tok);
                  reject_reason = RejectReason.unset;
                },
                cursor,
                true,
              )
            ]).0)
    gated (some reason) e = reject_rule-Outcome line line_len reason (gate_reason _ e)
    gated none e = inr (
      k,
      gate-IsName _ e,
      IsSlice-trans (trimmed_token-IsSlice (without_star tok))
          (IsSlice-trans (without_star-IsSlice tok) s),
      f,
      refl,
    )
