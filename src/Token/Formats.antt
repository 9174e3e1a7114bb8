-- ===== src/Token/Formats.antt =====
-- `domain_extract_token`: the formats of a blocklist line.
use esp32_ad_blocker_reborn.Common.{
  ℕ, suc, ◌≡◌, refl, ◌∙◌, ap, arith, Bool, true, false, some, List, [], ◌∷◌, ◌++◌, append-nil,
  subst, ◌==◌, length, Bool-cases, ==_iff, inl, inr,
}
use esp32_ad_blocker_reborn.Token.{
  tok_char_ok, is_blank, tok_is_address, has_byte, has_cosmetic, skip_blanks, span_word,
  starts_with, token_loop, plain_token, hosts_token, domain_extract_token,
}

-- Bytes that a token may have.
abbrev pub AllOk : List ℕ → Type 0
AllOk [] = Unit {0}
AllOk (c ∷ cs) = (tok_char_ok c ≡ true) × AllOk cs

-- Such a byte is none that the parser looks for.
plain_byte :
    (c : ℕ)
    → tok_char_ok c ≡ true
    → (is_blank c ≡ false)
      × ((c == b'#') ≡ false)
      × ((c == b'^') ≡ false)
      × ((c == b'/') ≡ false)
      × ((c == b'$') ≡ false)
      × ((c == b'@') ≡ false)
      × ((c == b'|') ≡ false)
      × ((c == b'*') ≡ false)
unfolding tok_char_ok is_blank
plain_byte c h = ground arith

-- The loop reads such bytes up to the end, or to a terminator.
token_loop-append :
    (anchored : Bool) (tok rest : List ℕ)
    → AllOk tok
    → token_loop anchored rest ≡ some []
    → token_loop anchored (tok ++ rest) ≡ some tok
unfolding token_loop
token_loop-append anchored [] rest ok h = h
token_loop-append anchored (c ∷ cs) rest ok h =
    ground (arith, plain_byte c ok.0, token_loop-append anchored cs rest ok.1 h)

has_byte-append :
    (b : ℕ) (tok rest : List ℕ)
    → AllOk tok
    → tok_char_ok b ≡ false
    → has_byte b (tok ++ rest) ≡ has_byte b rest
unfolding has_byte
has_byte-append b [] rest ok h = refl
has_byte-append b (c ∷ cs) rest ok h =
    let ne : (c == b) ≡ false = apart c b ok.0 h in ground (arith, has_byte-append b cs rest ok.1 h)
  where
    differ : (c b : ℕ) → tok_char_ok c ≡ true → tok_char_ok b ≡ false → c ≡ b → ⊥
    differ c b p q e = cc

    apart : (c b : ℕ) → tok_char_ok c ≡ true → tok_char_ok b ≡ false → (c == b) ≡ false
    apart c b p q = elim (Bool-cases (c == b)) [
      | inl e ↦ absurd (differ c b p q ((==_iff c b).0 e))
      | inr e ↦ e
    ]

has_cosmetic-false : (xs : List ℕ) → has_byte b'#' xs ≡ false → has_cosmetic xs ≡ false
unfolding has_byte has_cosmetic
has_cosmetic-false [] h = refl
has_cosmetic-false (c ∷ []) h = refl
has_cosmetic-false (c ∷ d ∷ cs) h = ground (arith, has_cosmetic-false (d ∷ cs))

span_word-append_ok :
    (tok rest : List ℕ)
    → AllOk tok
    → span_word (b' ' ∷ rest) ≡ ([], b' ' ∷ rest)
    → span_word (tok ++ (b' ' ∷ rest)) ≡ (tok, b' ' ∷ rest)
unfolding span_word
span_word-append_ok [] rest ok h = h
span_word-append_ok (c ∷ cs) rest ok h =
    rw (span_word, (plain_byte c ok.0).0, span_word-append_ok cs rest ok.1 h) refl

plain_token-some :
    (anchored : Bool) (c : ℕ) (cs rest : List ℕ)
    → AllOk (c ∷ cs)
    → token_loop anchored rest ≡ some []
    → plain_token anchored (c ∷ (cs ++ rest)) ≡ some (c ∷ cs)
unfolding plain_token
plain_token-some anchored c cs rest ok h =
    rw (plain_token, no_star c (cs ++ rest) ok.0, token_loop-append anchored (c ∷ cs) rest ok h)
      refl
  where
    no_star : (c : ℕ) (xs : List ℕ) → tok_char_ok c ≡ true → starts_with b'*' b'.' (c ∷ xs) ≡ false
    no_star c [] h = refl
    no_star c (x ∷ xs) h = ground (arith, plain_byte c h)

-- The line has none of the marks that make it mean something else.
IsPlain : List ℕ → Type 0
IsPlain line =
    (has_byte b'/' line ≡ false) × (has_byte b'$' line ≡ false) × (has_cosmetic line ≡ false)

append-IsPlain :
    (tok rest : List ℕ)
    → AllOk tok
    → has_byte b'#' rest ≡ false
    → IsPlain rest
    → IsPlain (tok ++ rest)
unfolding IsPlain tok_char_ok
append-IsPlain tok rest ok h (slash, dollar, _) = (
  has_byte-append b'/' tok rest ok refl ∙ slash,
  has_byte-append b'$' tok rest ok refl ∙ dollar,
  has_cosmetic-false (tok ++ rest) (has_byte-append b'#' tok rest ok refl ∙ h),
)

anchored_step :
    (line q : List ℕ)
    → IsPlain line
    → skip_blanks line ≡ b'|' ∷ b'|' ∷ q
    → domain_extract_token line ≡ plain_token true q
unfolding domain_extract_token IsPlain
anchored_step line q (slash, dollar, cosmetic) e =
    rw (domain_extract_token, slash, dollar, cosmetic, e) refl

hosts_step :
    (line p : List ℕ)
    → IsPlain line
    → skip_blanks line ≡ p
    → starts_with b'@' b'@' p ≡ false
    → starts_with b'|' b'|' p ≡ false
    → domain_extract_token line ≡ hosts_token p
unfolding domain_extract_token IsPlain
hosts_step line p (slash, dollar, cosmetic) e at bars =
    rw (domain_extract_token, slash, dollar, cosmetic, e, at, bars) refl

skip_blanks_ok : (c : ℕ) (rest : List ℕ) → is_blank c ≡ false → skip_blanks (c ∷ rest) ≡ c ∷ rest
unfolding skip_blanks
skip_blanks_ok c rest h = rw (skip_blanks, h) refl

skip_blanks_blank :
    (c : ℕ) (rest : List ℕ) → is_blank c ≡ false → skip_blanks (b' ' ∷ c ∷ rest) ≡ c ∷ rest
unfolding skip_blanks is_blank
skip_blanks_blank c rest h = skip_blanks_ok c rest h

hosts_token_address :
    (p word rest : List ℕ)
    → span_word p ≡ (word, rest)
    → tok_is_address word ≡ true
    → (length rest == 0) ≡ false
    → hosts_token p ≡ plain_token false (skip_blanks rest)
unfolding hosts_token
hosts_token_address p word rest e address h = rw (hosts_token, e, address, h) refl

address_step :
    (p word : List ℕ) (c : ℕ) (rest : List ℕ)
    → span_word p ≡ (word, b' ' ∷ c ∷ rest)
    → tok_is_address word ≡ true
    → is_blank c ≡ false
    → hosts_token p ≡ plain_token false (c ∷ rest)
address_step p word c rest e address h =
    hosts_token_address p word (b' ' ∷ c ∷ rest) e address (nonzero (suc (length rest)))
    ∙ ap (plain_token false) (skip_blanks_blank c rest h)
  where
    nonzero : (n : ℕ) → (suc n == 0) ≡ false
    nonzero n = ground arith

name_step :
    (p : List ℕ) → tok_is_address (span_word p).0 ≡ false → hosts_token p ≡ plain_token false p
unfolding hosts_token
name_step p h = rw (hosts_token, h) refl

-- A byte of a token starts neither a blank nor an exception nor an anchor.
starts_with_ok : (a b c : ℕ) (cs : List ℕ) → (c == a) ≡ false → starts_with a b (c ∷ cs) ≡ false
unfolding starts_with
starts_with_ok a b c [] h = refl
starts_with_ok a b c (d ∷ cs) h = ground arith

plain_line_step :
    (c : ℕ) (line : List ℕ)
    → tok_char_ok c ≡ true
    → IsPlain (c ∷ line)
    → domain_extract_token (c ∷ line) ≡ hosts_token (c ∷ line)
plain_line_step c line ok plain =
    let (blank, _, _, _, _, at, bar, _) = plain_byte c ok in
    hosts_step (c ∷ line) (c ∷ line) plain (skip_blanks_ok c line blank)
      (starts_with_ok b'@' b'@' c line at) (starts_with_ok b'|' b'|' c line bar)

token_end : token_loop false [] ≡ some []
unfolding token_loop
token_end = refl

span_word-all : (tok : List ℕ) → AllOk tok → span_word tok ≡ (tok, [])
unfolding span_word
span_word-all [] ok = refl
span_word-all (c ∷ cs) ok = rw (span_word, (plain_byte c ok.0).0, span_word-all cs ok.1) refl

all-IsPlain : (tok : List ℕ) → AllOk tok → IsPlain tok
unfolding IsPlain has_byte has_cosmetic
all-IsPlain tok ok =
    subst IsPlain (append-nil tok) (append-IsPlain tok [] ok refl (refl, refl, refl))

hash_free : (tok : List ℕ) → AllOk tok → has_byte b'#' (b' ' ∷ tok) ≡ false
unfolding has_byte tok_char_ok
hash_free tok ok =
    subst (λ (t : List ℕ). has_byte b'#' t ≡ false) (append-nil tok)
      (has_byte-append b'#' tok [] ok refl)

blank-IsPlain : (tok : List ℕ) → IsPlain tok → IsPlain (b' ' ∷ tok)
unfolding IsPlain has_byte has_cosmetic
blank-IsPlain [] plain = plain
blank-IsPlain (c ∷ cs) plain = plain

-- One name of allowed bytes that does not read as an address, and one address of such bytes.
module _ (c : ℕ) (cs : List ℕ) (ok : AllOk (c ∷ cs)) (name : tok_is_address (c ∷ cs) ≡ false) where
  word_at_end : plain_token false (c ∷ cs) ≡ some (c ∷ cs)
  word_at_end =
      subst (λ (t : List ℕ). plain_token false (c ∷ t) ≡ some (c ∷ cs)) (append-nil cs)
        (plain_token-some false c cs [] ok token_end)

  bare_line : domain_extract_token (c ∷ cs) ≡ some (c ∷ cs)
  bare_line =
      plain_line_step c cs ok.0 (all-IsPlain (c ∷ cs) ok)
      ∙ name_step (c ∷ cs) (rw (span_word-all (c ∷ cs) ok) name)
      ∙ word_at_end

  hosts_line :
      (a : ℕ) (ds : List ℕ)
      → AllOk (a ∷ ds)
      → tok_is_address (a ∷ ds) ≡ true
      → domain_extract_token (a ∷ (ds ++ (b' ' ∷ c ∷ cs))) ≡ some (c ∷ cs)
  unfolding IsPlain has_byte is_blank span_word
  hosts_line a ds ok_a address =
      plain_line_step a (ds ++ (b' ' ∷ c ∷ cs)) ok_a.0 (
        append-IsPlain (a ∷ ds) (b' ' ∷ c ∷ cs) ok_a (hash_free (c ∷ cs) ok)
          (blank-IsPlain (c ∷ cs) (all-IsPlain (c ∷ cs) ok)))
      ∙ address_step (a ∷ (ds ++ (b' ' ∷ c ∷ cs))) (a ∷ ds) c cs
          (span_word-append_ok (a ∷ ds) (c ∷ cs) ok_a refl) address (plain_byte c ok.0).0
      ∙ word_at_end

  anchored_line : domain_extract_token (b'|' ∷ b'|' ∷ c ∷ (cs ++ (b'^' ∷ []))) ≡ some (c ∷ cs)
  unfolding IsPlain has_byte has_cosmetic skip_blanks is_blank token_loop
  anchored_line =
      let (slash, dollar, cosmetic) =
        append-IsPlain (c ∷ cs) (b'^' ∷ []) ok refl (refl, refl, refl) in
      anchored_step (b'|' ∷ b'|' ∷ c ∷ (cs ++ (b'^' ∷ []))) (c ∷ (cs ++ (b'^' ∷ [])))
        (slash, dollar, cosmetic) refl
      ∙ plain_token-some true c cs (b'^' ∷ []) ok refl

-- A name of allowed bytes that does not read as an address is the token of the bare line, of the
-- hosts line behind any address of digits and dots, and of the anchored line.
pub domain_extract_token-formats :
    (c : ℕ) (cs : List ℕ) (a : ℕ) (ds : List ℕ)
    → AllOk (c ∷ cs)
    → tok_is_address (c ∷ cs) ≡ false
    → AllOk (a ∷ ds)
    → tok_is_address (a ∷ ds) ≡ true
    → (domain_extract_token (c ∷ cs) ≡ some (c ∷ cs))
      × (domain_extract_token (a ∷ (ds ++ (b' ' ∷ c ∷ cs))) ≡ some (c ∷ cs))
      × (domain_extract_token (b'|' ∷ b'|' ∷ c ∷ (cs ++ (b'^' ∷ []))) ≡ some (c ∷ cs))
domain_extract_token-formats c cs a ds ok name ok_a address =
    (bare_line c cs ok name, hosts_line c cs ok name a ds ok_a address, anchored_line c cs ok name)
