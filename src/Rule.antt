-- ===== src/Rule.antt =====
-- main/domain.c: the rule grammar, `rule_parse_next` and `rule_apply_feed_policy`.
-- A pointer into the line, with its end, is the list of the bytes between them.
pub mod Slices
pub mod Parsed
pub mod Feed
mod Examples
use esp32_ad_blocker_reborn.Common.{
  ℕ, zero, suc, ◌+◌, ◌-◌, Bool, true, false, not, ◌&&◌, ◌||◌, Option, none, some, List, [], ◌∷◌,
  ◌==◌, ltb, leb, if◌then◌else◌, length, map, eq_bytes, take, drop, get_elem?, bit_and, bit_or, u8,
  codes,
}
use esp32_ad_blocker_reborn.Domain.{tolower, strip_dots}
use esp32_ad_blocker_reborn.Token.{
  tok_char_ok, is_blank, tok_is_address, has_byte, has_cosmetic, skip_blanks, span_word,
  starts_with,
}
use esp32_ad_blocker_reborn.Gate.{
  RuleKind, RejectReason, rule_exact, rule_important, Rule, byte_at, reject_rule, finish_token,
  blank_rule,
}

-- `hosts_token_next`: the rule, if it returns true, and the cursor.
pub hosts_token_next : List ℕ → ℕ → Option Rule × ℕ
unfolding span_word skip_blanks finish_token blank_rule
hosts_token_next line cursor =
    let (word, rest) = span_word (skip_blanks (drop cursor line)) in
    elim (skip_blanks (drop cursor line)) [
      | [] ↦ (none, length line)
      | c ∷ cs ↦
          let (r, _, _) = finish_token word (blank_rule RuleKind.block 0) cursor (length line) in
          (some r, length line - length rest)
    ]

-- The bytes before the last `$`, and those behind it.
pub split_dollar : List ℕ → Option (List ℕ × List ℕ)
split_dollar [] = none
split_dollar (c ∷ cs) = elim (split_dollar cs) [
  | some (before, behind) ↦ some (c ∷ before, behind)
  | none ↦ if c == b'$' then some ([], cs) else none
]

-- The segments between commas, as `memchr` finds them one after the other.
pub comma_segments : List ℕ → List (List ℕ)
comma_segments [] = [] ∷ []
comma_segments (c ∷ cs) = elim (comma_segments cs) [
  | [] ↦ []
  | s ∷ ss ↦ if c == b',' then [] ∷ s ∷ ss else (c ∷ s) ∷ ss
]

-- The loop of `parse_modifiers` over the segments.
pub modifier_loop : Bool → List (List ℕ) → Bool
modifier_loop seen [] = seen
modifier_loop seen (s ∷ ss) =
    let rest = modifier_loop true ss in
    if not (eq_bytes s (codes "important")) then false else (if seen then false else rest)

-- Where it returns true, `*important_out` is true.
pub parse_modifiers : List ℕ → Bool
unfolding comma_segments modifier_loop
parse_modifiers m = if length m == 0 then false else modifier_loop false (comma_segments m)

pub take_until : ℕ → List ℕ → List ℕ
take_until b [] = []
take_until b (c ∷ cs) = if c == b then [] else c ∷ take_until b cs

-- The loop that drops blanks at the end.
pub trim_blanks : List ℕ → List ℕ
trim_blanks [] = []
trim_blanks (c ∷ cs) = elim (trim_blanks cs) [
  | [] ↦ if is_blank c then [] else c ∷ []
  | d ∷ ds ↦ c ∷ d ∷ ds
]

-- `toklen >= sl && strncasecmp(tstart, scheme, sl) == 0`
pub has_prefix : List ℕ → List ℕ → Bool
has_prefix [] tok = true
has_prefix (s ∷ ss) [] = false
has_prefix (s ∷ ss) (c ∷ cs) = tolower c == tolower s && has_prefix ss cs

abbrev pub schemes : List (List ℕ)
schemes = codes "https://" ∷ codes "http://" ∷ codes "://" ∷ codes "//" ∷ []

-- The first scheme that fits is dropped.
pub strip_scheme : List (List ℕ) → List ℕ → List ℕ
strip_scheme [] tok = tok
strip_scheme (s ∷ ss) tok =
    let rest = strip_scheme ss tok in if has_prefix s tok then drop (length s) tok else rest

pub strip_slash : List ℕ → List ℕ
unfolding byte_at
strip_slash tok =
    let n = length tok in if ltb 0 n && byte_at tok (n - 1) b'/' then take (n - 1) tok else tok

-- From the regex test on.
pub pattern_rule : RuleKind → ℕ → List ℕ → ℕ → Rule × ℕ
unfolding strip_scheme has_prefix strip_slash byte_at finish_token blank_rule
pattern_rule kind flags tok line_len =
    let n = length tok in
    let plain = strip_slash (strip_scheme schemes tok) in
    if leb 2 n && byte_at tok 0 b'/' && byte_at tok (n - 1) b'/'
    then reject_rule line_len RejectReason.regex
    else (if has_byte b'/' plain
        then reject_rule line_len RejectReason.malformed
        else (let (r, _, _) = finish_token plain (blank_rule kind flags) 0 line_len in
            (r, line_len)))

-- The pattern between the anchors, without the blanks at its end.
pub pattern_of : Bool → List ℕ → List ℕ
unfolding take_until trim_blanks
pattern_of anchored tok = trim_blanks (if anchored then take_until b'^' tok else tok)

pub flags_of : Bool → Bool → ℕ
flags_of exact important =
    bit_or (if exact then rule_exact else 0) (if important then rule_important else 0)

-- What is not hosts format: the modifiers stand behind the last `$`.
pub modified_rule : RuleKind → Bool → Bool → List ℕ → ℕ → Rule × ℕ
unfolding split_dollar parse_modifiers pattern_of flags_of pattern_rule
modified_rule kind anchored exact p line_len = elim (split_dollar p) [
  | none ↦ pattern_rule kind (flags_of exact false) (pattern_of anchored p) line_len
  | some (before, behind) ↦
      if parse_modifiers behind
      then pattern_rule kind (flags_of exact true) (pattern_of anchored before) line_len
      else reject_rule line_len RejectReason.modifier
]

-- A bare block line whose first token is an address, with something behind it.
pub bare_rule : List ℕ → List ℕ → Option Rule × ℕ
unfolding span_word hosts_token_next modified_rule
bare_rule line p =
    let (word, rest) = span_word p in
    if tok_is_address word && ltb 0 (length rest)
    then (if has_byte b'$' rest
        then (let (r, c) = reject_rule (length line) RejectReason.modifier in (some r, c))
        else hosts_token_next line (length line - length rest))
    else (let (r, c) = modified_rule RuleKind.block false false p (length line) in (some r, c))

-- The anchors: `||`, or `|` for an exact rule; without one an exception is exact.
pub anchored_rule : RuleKind → List ℕ → List ℕ → Option Rule × ℕ
unfolding starts_with byte_at modified_rule bare_rule
anchored_rule kind line p =
    if starts_with b'|' b'|' p
    then (let (r, c) = modified_rule kind true false (drop 2 p) (length line) in (some r, c))
    else (if byte_at p 0 b'|'
        then (let (r, c) = modified_rule kind true true (drop 1 p) (length line) in (some r, c))
        else elim kind [
          | RuleKind.block ↦ bare_rule line p
          | other ↦ let (r, c) = modified_rule other false true p (length line) in (some r, c)
        ])

-- The first call for a line, behind its comments.
pub first_rule : List ℕ → Option Rule × ℕ
unfolding skip_blanks starts_with anchored_rule
first_rule line =
    let p = skip_blanks line in
    if has_cosmetic line
    then (let (r, c) = reject_rule (length line) RejectReason.cosmetic in (some r, c))
    else (if starts_with b'@' b'@' p
        then anchored_rule RuleKind.allow line (drop 2 p)
        else anchored_rule RuleKind.block line p)

-- `!`, or `#` without a second one behind it.
pub is_comment : List ℕ → Bool
unfolding byte_at
is_comment line =
    byte_at line 0 b'!'
    || (byte_at line 0 b'#' && (ltb (length line) 2 || not (byte_at line 1 b'#')))

-- The rule, if it returns true, and the cursor; the pointers are not null.
unfoldable pub rule_parse_next : List ℕ → ℕ → Option Rule × ℕ
unfolding hosts_token_next is_comment first_rule has_cosmetic
rule_parse_next line cursor =
    if length line == 0
    then (none, cursor)
    else (if not (cursor == 0)
        then (if leb (length line) cursor then (none, cursor) else hosts_token_next line cursor)
        else (if is_comment line then (none, length line) else first_rule line))

-- `rule_apply_feed_policy`
unfoldable pub rule_apply_feed_policy : Rule → Rule
rule_apply_feed_policy r = elim r.kind [
  | RuleKind.block ↦
      if not (bit_and r.flags rule_important == 0)
      then record r {
        kind = RuleKind.reject;
        flags = 0;
        reject_reason = RejectReason.important_block_unsupported;
      }
      else record r { flags = bit_and r.flags (255 - rule_exact) }
  | _ ↦ r
]

-- The loop `while (rule_parse_next(line, len, &cursor, &r))`; `none` means that the fuel ran out.
pub rules_of : ℕ → List ℕ → ℕ → Option (List Rule)
rules_of zero line cursor = none
rules_of (suc fuel) line cursor =
    let (emitted, next) = rule_parse_next line cursor in
    elim emitted [
      | none ↦ some []
      | some r ↦ elim (rules_of fuel line next) [ none ↦ none | some rs ↦ some (r ∷ rs) ]
    ]
