-- ===== src/Gate.antt =====
-- main/domain.c: what makes a token of a rule a domain, `finish_token` and what it calls.
-- A pointer with a length is the list of the bytes there.
pub mod Accepted
use esp32_ad_blocker_reborn.Common.{
  ℕ, ◌+◌, ◌-◌, Bool, true, false, not, ◌&&◌, ◌||◌, Option, none, some, List, [], ◌∷◌, ◌==◌, ltb,
  leb, if◌then◌else◌, length, map, eq_bytes, take, drop, get_elem?, bit_and, bit_or, u8, codes,
}
use esp32_ad_blocker_reborn.Domain.{tolower, strip_dots}
use esp32_ad_blocker_reborn.Token.{
  tok_char_ok, is_blank, tok_is_address, has_byte, has_cosmetic, skip_blanks, span_word,
  starts_with,
}

pub data RuleKind : Type 0 where
  block allow reject : RuleKind

-- `unset` is the 0 of an accepted rule.
pub data RejectReason : Type 0 where
  unset regex wildcard modifier cosmetic cidr : RejectReason
  too_wide malformed important_block_unsupported : RejectReason

abbrev pub rule_exact : ℕ
rule_exact = 1

abbrev pub rule_important : ℕ
rule_important = 2

-- `rule_t`; the token's pointer and length are the token.
pub record Rule : Type 0 where
  pub tok : List ℕ
  pub kind : RuleKind
  pub flags : ℕ
  pub reject_reason : RejectReason

-- The byte at an index is there and is `b`.
unfoldable pub byte_at : List ℕ → ℕ → ℕ → Bool
byte_at tok i b = elim (get_elem? tok i) [ none ↦ false | some c ↦ c == b ]

pub all_digits : List ℕ → Bool
all_digits [] = true
all_digits (c ∷ cs) = (leb b'0' c && leb c b'9') && all_digits cs

pub is_all_digits : List ℕ → Bool
unfolding all_digits
is_all_digits tok = ltb 0 (length tok) && all_digits tok

-- The loop of `strip_port`: the place of the last colon, and the number of colons.
pub colon_loop : ℕ → ℕ → ℕ → List ℕ → ℕ × ℕ
colon_loop i colon colons [] = (colon, colons)
colon_loop i colon colons (c ∷ cs) =
    colon_loop (i + 1) (if c == b':' then i else colon) (if c == b':' then colons + 1 else colons)
      cs

-- The length without a port.
pub strip_port : List ℕ → ℕ
unfolding colon_loop is_all_digits byte_at
strip_port tok =
    let toklen = length tok in
    let (colon, colons) = colon_loop 0 toklen 0 tok in
    let plen = toklen - colon - 1 in
    if toklen == 0 || colon == toklen
    then toklen
    else (if plen == 0 || ltb 5 plen || not (is_all_digits (drop (colon + 1) tok))
        then toklen
        else (if (ltb 0 colon && byte_at tok (colon - 1) b']') || colons == 1
            then colon
            else toklen))

pub strip_brackets : List ℕ → List ℕ
unfolding byte_at
strip_brackets tok =
    let n = length tok in
    if leb 2 n && byte_at tok 0 b'[' && byte_at tok (n - 1) b']'
    then take (n - 2) (drop 1 tok)
    else tok

pub only_dots_stars : List ℕ → Bool
only_dots_stars [] = true
only_dots_stars (c ∷ cs) = (c == b'.' || c == b'*') && only_dots_stars cs

pub is_too_wide : List ℕ → Bool
unfolding only_dots_stars
is_too_wide tok = ltb (length tok) 3 || only_dots_stars tok

unfoldable pub all_ok : List ℕ → Bool
all_ok [] = true
all_ok (c ∷ cs) = tok_char_ok c && all_ok cs

-- `reject`: the rule, and the cursor behind the line.
unfoldable pub reject_rule : ℕ → RejectReason → Rule × ℕ
reject_rule line_len reason =
    (record { tok = []; kind = RuleKind.reject; flags = 0; reject_reason = reason }, line_len)

-- What `finish_token` does before its gates: the wildcard prefix is dropped.
unfoldable pub without_star : List ℕ → List ℕ
unfolding starts_with
without_star tok = if starts_with b'*' b'.' tok then drop 2 tok else tok

-- The port, the brackets and the trailing dots are dropped.
unfoldable pub trimmed_token : List ℕ → List ℕ
unfolding strip_port strip_brackets strip_dots
trimmed_token tok =
    let bare = strip_brackets (take (strip_port tok) tok) in
    take (strip_dots bare (length bare)) bare

-- The gates: the reason to reject, or none.
unfoldable pub gate : List ℕ → Option RejectReason
unfolding is_too_wide all_ok
gate tok =
    if length tok == 0
    then some RejectReason.malformed
    else (if tok_is_address tok
        then some RejectReason.cidr
        else (if is_too_wide tok
            then some RejectReason.too_wide
            else (if not (all_ok tok) || ltb 253 (length tok)
                then some RejectReason.malformed
                else none)))

-- `finish_token`: the rule, the cursor and the result.
unfoldable pub finish_token : List ℕ → Rule → ℕ → ℕ → Rule × ℕ × Bool
unfolding without_star has_byte
finish_token tstart out cursor line_len =
    let tok = without_star tstart in
    if has_byte b'*' tok
    then (let (r, c) = reject_rule line_len RejectReason.wildcard in (r, c, false))
    else elim (gate (trimmed_token tok)) [
      | some reason ↦ let (r, c) = reject_rule line_len reason in (r, c, false)
      | none ↦
          (record out { tok = trimmed_token tok; reject_reason = RejectReason.unset }, cursor, true)
    ]

-- An accepted rule's kind and flags are set before its token is.
unfoldable pub blank_rule : RuleKind → ℕ → Rule
blank_rule kind flags = record {
  tok = [];
  kind = kind;
  flags = flags;
  reject_reason = RejectReason.unset;
}
