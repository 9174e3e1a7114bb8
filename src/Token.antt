-- ===== src/Token.antt =====
-- main/domain.c: the domain token of one line of a blocklist, `domain_extract_token`.
-- A pointer into the line, with the line's end, is the list of the bytes from there on.
pub mod Scan
pub mod Formats
pub mod Sound
mod Examples
use esp32_ad_blocker_reborn.Common.{
  ℕ, Bool, true, false, not, ◌&&◌, ◌||◌, Option, none, some, List, [], ◌∷◌, ◌==◌, ltb, leb,
  if◌then◌else◌, length, drop,
}

-- `tok_char_ok`: a letter, a digit, a dot, an underscore or a hyphen.
unfoldable pub tok_char_ok : ℕ → Bool
tok_char_ok c =
    (leb b'a' c && leb c b'z')
    || (leb b'A' c && leb c b'Z')
    || (leb b'0' c && leb c b'9')
    || c == b'.'
    || c == b'_'
    || c == b'-'

unfoldable pub is_blank : ℕ → Bool
is_blank c = c == b' ' || c == b'\t'

-- The loop of `tok_is_address`.
unfoldable pub address_loop : Bool → List ℕ → Bool
address_loop ipv4 [] = ipv4
address_loop ipv4 (c ∷ cs) =
    let rest = address_loop (ipv4 && ((leb b'0' c && leb c b'9') || c == b'.')) cs in
    if c == b':' then true else rest

unfoldable pub tok_is_address : List ℕ → Bool
unfolding address_loop
tok_is_address tok = address_loop (ltb 0 (length tok)) tok

-- The byte is there.
unfoldable pub has_byte : ℕ → List ℕ → Bool
has_byte b [] = false
has_byte b (c ∷ cs) = c == b || has_byte b cs

-- `##`, anywhere.
unfoldable pub has_cosmetic : List ℕ → Bool
has_cosmetic [] = false
has_cosmetic (c ∷ []) = false
has_cosmetic (c ∷ d ∷ cs) = (c == b'#' && d == b'#') || has_cosmetic (d ∷ cs)

unfoldable pub skip_blanks : List ℕ → List ℕ
unfolding is_blank
skip_blanks [] = []
skip_blanks (c ∷ cs) = if is_blank c then skip_blanks cs else c ∷ cs

-- The bytes before the first blank, and those from it on.
unfoldable pub span_word : List ℕ → List ℕ × List ℕ
unfolding is_blank
span_word [] = ([], [])
span_word (c ∷ cs) =
    let (word, rest) = span_word cs in if is_blank c then ([], c ∷ cs) else (c ∷ word, rest)

-- `end - p >= 2 && p[0] == a && p[1] == b`
unfoldable pub starts_with : ℕ → ℕ → List ℕ → Bool
starts_with a b (c ∷ d ∷ cs) = c == a && d == b
starts_with a b _ = false

-- The last loop of `domain_extract_token`: the token, if every byte of it is allowed.
unfoldable pub token_loop : Bool → List ℕ → Option (List ℕ)
token_loop anchored [] = some []
token_loop anchored (c ∷ cs) =
    let rest = token_loop anchored cs in
    if is_blank c || c == b'#' || (anchored && c == b'^')
    then some []
    else (if not (tok_char_ok c)
        then none
        else elim rest [ none ↦ none | some tok ↦ some (c ∷ tok) ])

-- What follows the hosts-format step: `*.` is dropped, and an empty token is none.
unfoldable pub plain_token : Bool → List ℕ → Option (List ℕ)
unfolding token_loop is_blank tok_char_ok starts_with
plain_token anchored p =
    let start = if starts_with b'*' b'.' p then drop 2 p else p in
    elim (token_loop anchored start) [
      | none ↦ none
      | some [] ↦ none
      | some (c ∷ cs) ↦ some (c ∷ cs)
    ]

-- Hosts format: a leading address is skipped, and must have something behind it.
pub hosts_token : List ℕ → Option (List ℕ)
unfolding plain_token tok_is_address span_word skip_blanks
hosts_token p =
    let (word, rest) = span_word p in
    if tok_is_address word
    then (if length rest == 0 then none else plain_token false (skip_blanks rest))
    else plain_token false p

-- `none` is the 0 of the source; the pointers are not null.
unfoldable pub domain_extract_token : List ℕ → Option (List ℕ)
unfolding hosts_token plain_token has_byte has_cosmetic skip_blanks starts_with
domain_extract_token line =
    let p = skip_blanks line in
    if has_byte b'/' line || has_byte b'$' line || has_cosmetic line
    then none
    else (if starts_with b'@' b'@' p
        then none
        else (if starts_with b'|' b'|' p then plain_token true (drop 2 p) else hosts_token p))
