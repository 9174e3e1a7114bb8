-- ===== src/WebParse.antt =====
-- main/web_parse.c: the parsers of what a browser sends before it is logged in.
-- A C string is the list of its bytes; what a function leaves in a buffer is the list of the
-- bytes before the terminator that it writes.
pub mod Coding
pub mod Search
pub mod Origin
pub mod Cookie
mod Examples
use mathlib.Core.Option
use esp32_ad_blocker_reborn.Common.{
  ℕ, zero, suc, ◌+◌, ◌-◌, ◌*◌, ◌%◌, ◌^◌, Bool, true, false, not, ◌&&◌, ◌||◌, Option, none, some,
  List, [], ◌∷◌, ◌++◌, ◌==◌, ltb, leb, if◌then◌else◌, length, drop, codes, Run, done, out_of_fuel,
  ◌>>=◌,
}
use esp32_ad_blocker_reborn.Domain.{tolower}

-- The entity of a byte, if it has one.
abbrev pub entity : ℕ → Option (List ℕ)
entity c =
    if c == 60
    then some (codes "&lt;")
    else (if c == 62
        then some (codes "&gt;")
        else (if c == 38
            then some (codes "&amp;")
            else (if c == 34
                then some (codes "&quot;")
                else (if c == 39 then some (codes "&#39;") else none))))

-- What the loop writes from `dst + d` on.
pub escape_loop : ℕ → ℕ → List ℕ → List ℕ
escape_loop cap d [] = []
escape_loop cap d (c ∷ cs) = elim (ltb (d + 1) cap) [
  | false ↦ []
  | true ↦ elim (entity c) [
    | some ent ↦ if leb cap (d + length ent) then [] else ent ++ escape_loop cap (d + length ent) cs
    | none ↦ c ∷ escape_loop cap (d + 1) cs
  ]
]

unfoldable pub web_html_escape : ℕ → List ℕ → List ℕ
unfolding escape_loop
web_html_escape cap src = escape_loop cap 0 src

-- A hexadecimal digit's value.
pub hex_value : ℕ → Option ℕ
hex_value c =
    if leb 48 c && leb c 57
    then some (c - 48)
    else (if leb 97 c && leb c 102
        then some (c - 87)
        else (if leb 65 c && leb c 70 then some (c - 55) else none))

pub is_space : ℕ → Bool
is_space c = c == 32 || leb 9 c && leb c 13

-- `strtoul` of two bytes in base 16, as a `char`, when it takes both: two digits, or a digit behind a
-- space or a sign. In `0x` it takes the zero only.
pub strtoul_pair : ℕ → ℕ → Option ℕ
unfolding hex_value is_space
strtoul_pair a b = elim (hex_value b) [
  | none ↦ none
  | some lo ↦ elim (hex_value a) [
    | some hi ↦ some (hi * 16 + lo)
    | none ↦
        if is_space a || a == 43
        then some lo
        else (if a == 45 then some ((2 ^ 32 - lo) % 256) else none)
  ]
]

pub percent : ℕ → ℕ → ℕ → Option ℕ
unfolding strtoul_pair
percent c a b = if c == 37 then strtoul_pair a b else none

pub plain : ℕ → ℕ
plain c = if c == 43 then 32 else c

-- What the loop writes from `dst + d` on; `src` are the bytes up to `src_len`.
pub decode_loop : ℕ → ℕ → List ℕ → List ℕ
unfolding percent plain
decode_loop cap d [] = []
decode_loop cap d (c ∷ []) = if ltb (d + 1) cap then plain c ∷ [] else []
decode_loop cap d (c ∷ a ∷ []) =
    if ltb (d + 1) cap then plain c ∷ decode_loop cap (d + 1) (a ∷ []) else []
decode_loop cap d (c ∷ a ∷ b ∷ cs) = elim (ltb (d + 1) cap) [
  | false ↦ []
  | true ↦ elim (percent c a b) [
    | some v ↦ v ∷ decode_loop cap (d + 1) cs
    | none ↦ plain c ∷ decode_loop cap (d + 1) (a ∷ b ∷ cs)
  ]
]

unfoldable pub web_url_decode : ℕ → List ℕ → List ℕ
unfolding decode_loop
web_url_decode cap src = decode_loop cap 0 src

-- The first `key` starts the list; what is behind it.
pub after_prefix : List ℕ → List ℕ → Option (List ℕ)
after_prefix [] s = some s
after_prefix (k ∷ ks) [] = none
after_prefix (k ∷ ks) (c ∷ cs) = if k == c then after_prefix ks cs else none

-- `strstr`: the first occurrence of `key`, as what is before it and what is behind it.
pub strstr : List ℕ → List ℕ → Option (List ℕ × List ℕ)
unfolding after_prefix
strstr key [] = Option.map (λ rest. ([], rest)) (after_prefix key [])
strstr key (c ∷ cs) = elim (after_prefix key (c ∷ cs)) [
  | some rest ↦ some ([], rest)
  | none ↦ Option.map (λ (before, rest). (c ∷ before, rest)) (strstr key cs)
]

-- The byte before the position, after the bytes `passed`.
pub last_byte : Option ℕ → List ℕ → Option ℕ
last_byte prev [] = prev
last_byte prev (c ∷ cs) = last_byte (some c) cs

-- The loop over the occurrences of `key`: the bytes behind the first one that is `placed`, by the
-- byte before it and by what follows. Each round moves behind an occurrence.
pub occurrence_loop :
    ℕ → (Option ℕ → List ℕ → Bool) → List ℕ → Option ℕ → List ℕ → Run (Option (List ℕ))
unfolding strstr last_byte
occurrence_loop zero placed key prev s = out_of_fuel
occurrence_loop (suc fuel) placed key prev s = elim (strstr key s) [
  | none ↦ done none
  | some (before, rest) ↦
      if placed (last_byte prev before) rest
      then done (some rest)
      else occurrence_loop fuel placed key (last_byte (last_byte prev before) key) rest
]

pub starts_with : ℕ → List ℕ → Bool
starts_with b [] = false
starts_with b (c ∷ cs) = c == b

-- A field's key: at the start or after `&`, and before `=`.
pub field_placed : Option ℕ → List ℕ → Bool
unfolding starts_with
field_placed none rest = starts_with 61 rest
field_placed (some p) rest = p == 38 && starts_with 61 rest

-- The bytes of a value, up to `&` or the line's end.
pub value_of : List ℕ → List ℕ
value_of [] = []
value_of (c ∷ cs) = let rest = value_of cs in if c == 38 || c == 13 || c == 10 then [] else c ∷ rest

-- The answer and what is left in `dst`.
unfoldable pub web_form_field : List ℕ → List ℕ → ℕ → Run (Bool × List ℕ)
unfolding occurrence_loop field_placed value_of
web_form_field body key cap =
    occurrence_loop (suc (length body)) field_placed key none body >>= λ r. done (elim r [
      | none ↦ (false, [])
      | some rest ↦ (true, web_url_decode cap (value_of (drop 1 rest)))
    ])

-- `strcspn (host, ":")`, as the bytes before the colon.
pub host_name : List ℕ → List ℕ
host_name [] = []
host_name (c ∷ cs) = let rest = host_name cs in if c == 58 then [] else c ∷ rest

-- `strncasecmp` over the host's name: what follows the name, if it is there.
pub after_host : List ℕ → List ℕ → Option (List ℕ)
after_host [] p = some p
after_host (h ∷ hs) [] = none
after_host (h ∷ hs) (c ∷ cs) = if tolower h == tolower c then after_host hs cs else none

pub ends_host : List ℕ → Bool
ends_host [] = true
ends_host (c ∷ cs) = c == 47 || c == 58

abbrev pub scheme_end : List ℕ
scheme_end = codes "://"

unfoldable pub web_origin_host_matches : List ℕ → List ℕ → Bool
unfolding strstr host_name after_host ends_host
web_origin_host_matches url [] = false
web_origin_host_matches url (h ∷ hs) = elim (strstr scheme_end url) [
  | none ↦ false
  | some (before, p) ↦ elim (after_host (host_name (h ∷ hs)) p) [
    | none ↦ false
    | some after ↦ ends_host after
  ]
]

abbrev pub sid_key : List ℕ
sid_key = codes "sid="

pub cookie_placed : Option ℕ → List ℕ → Bool
cookie_placed none rest = true
cookie_placed (some p) rest = p == 32 || p == 59

-- The bytes up to `;`, at most `sid_len`, and what follows them.
pub span_sid : ℕ → List ℕ → List ℕ × List ℕ
span_sid zero p = ([], p)
span_sid (suc n) [] = ([], [])
span_sid (suc n) (c ∷ cs) =
    let (sid, rest) = span_sid n cs in if c == 59 then ([], c ∷ cs) else (c ∷ sid, rest)

pub ends_sid : List ℕ → Bool
ends_sid [] = true
ends_sid (c ∷ cs) = c == 59

-- The value, if the answer is `true`.
unfoldable pub web_cookie_sid : List ℕ → ℕ → Run (Option (List ℕ))
unfolding occurrence_loop cookie_placed span_sid ends_sid
web_cookie_sid cookie sid_len =
    occurrence_loop (suc (length cookie)) cookie_placed sid_key none cookie >>= λ r. done (elim r [
      | none ↦ none
      | some p ↦
          let (sid, rest) = span_sid sid_len p in
          if length sid == sid_len && ends_sid rest then some sid else none
    ])
