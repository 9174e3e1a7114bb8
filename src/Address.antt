-- ===== src/Address.antt =====
-- Dotted quads: `acl_parse_ip4` of main/acl.c, with what `sscanf` does for it, and the text that
-- `snprintf` writes for an address.
pub mod RoundTrip
use esp32_ad_blocker_reborn.Common.{
  ℕ, ◌+◌, ◌-◌, ◌*◌, ◌/◌, ◌%◌, ◌^◌, Bool, true, false, ◌&&◌, ◌||◌, Option, none, some, List, [], ◌∷◌,
  ◌++◌, ◌==◌, ltb, leb, if◌then◌else◌, bit_or, u8, u32, ◌<<<◌, ◌>>>◌,
}

pub is_digit : ℕ → Bool
is_digit c = leb b'0' c && leb c b'9'

-- `isspace`, which `%u` skips.
pub skip_space : List ℕ → List ℕ
skip_space [] = []
skip_space (c ∷ cs) = if c == b' ' || (leb 9 c && leb c 13) then skip_space cs else c ∷ cs

-- The digits that stand next, as a number, and what follows.
pub scan_digits : ℕ → List ℕ → ℕ × List ℕ
scan_digits acc [] = (acc, [])
scan_digits acc (c ∷ cs) =
    let more = scan_digits (acc * 10 + (c - b'0')) cs in if is_digit c then more else (acc, c ∷ cs)

-- `%u` takes a sign, too.
pub scan_sign : List ℕ → Bool × List ℕ
scan_sign [] = (false, [])
scan_sign (c ∷ cs) =
    if c == b'-' then (true, cs) else (if c == b'+' then (false, cs) else (false, c ∷ cs))

-- The largest value where the digits say more, negated modulo 2 ^ 32 behind a minus.
pub signed_value : Bool → ℕ → ℕ
signed_value neg v =
    let w = if ltb v (2 ^ 32) then v else 2 ^ 32 - 1 in if neg then u32 (2 ^ 32 - w) else w

-- One `%u`.
pub scan_u : List ℕ → Option (ℕ × List ℕ)
scan_u s =
    let (neg, p) = scan_sign (skip_space s) in
    elim p [
      | [] ↦ none
      | c ∷ cs ↦
          let (v, rest) = scan_digits 0 (c ∷ cs) in
          if is_digit c then some (signed_value neg v, rest) else none
    ]

-- `%u.`
pub scan_u_dot : List ℕ → Option (ℕ × List ℕ)
scan_u_dot s = elim (scan_u s) [
  | none ↦ none
  | some (v, rest) ↦ elim rest [ [] ↦ none | c ∷ cs ↦ if c == b'.' then some (v, cs) else none ]
]

-- `%u.%u.%u.%u%c`, with four conversions: the `%c` must find nothing.
pub scan_quad : List ℕ → Option (ℕ × ℕ × ℕ × ℕ)
scan_quad s = elim (scan_u_dot s) [
  | none ↦ none
  | some (b0, s1) ↦ elim (scan_u_dot s1) [
    | none ↦ none
    | some (b1, s2) ↦ elim (scan_u_dot s2) [
      | none ↦ none
      | some (b2, s3) ↦ elim (scan_u s3) [
        | none ↦ none
        | some (b3, tail) ↦ elim tail [ [] ↦ some (b0, b1, b2, b3) | c ∷ cs ↦ none ]
      ]
    ]
  ]
]

-- The four octets as a number.
pub quad_value : ℕ → ℕ → ℕ → ℕ → ℕ
quad_value b0 b1 b2 b3 = bit_or (b0 <<< 24) (bit_or (b1 <<< 16) (bit_or (b2 <<< 8) b3))

unfoldable pub acl_parse_ip4 : List ℕ → ℕ
acl_parse_ip4 s = elim (scan_quad s) [
  | none ↦ 0
  | some (b0, b1, b2, b3) ↦
      if ltb 255 b0 || ltb 255 b1 || ltb 255 b2 || ltb 255 b3 then 0 else quad_value b0 b1 b2 b3
]

-- `%u` of a byte: one to three digits.
pub print_u8 : ℕ → List ℕ
print_u8 n =
    if ltb n 10
    then (b'0' + n) ∷ []
    else (if ltb n 100
        then (b'0' + n / 10) ∷ (b'0' + n % 10) ∷ []
        else (b'0' + n / 100) ∷ (b'0' + n / 10 % 10) ∷ (b'0' + n % 10) ∷ [])

-- `snprintf(val, sizeof(val), "%u.%u.%u.%u", …)`
unfoldable pub print_ip4 : ℕ → List ℕ
print_ip4 ip =
    print_u8 (u8 (ip >>> 24))
    ++ b'.'
      ∷ (print_u8 (u8 (ip >>> 16)) ++ b'.' ∷ (print_u8 (u8 (ip >>> 8)) ++ b'.' ∷ print_u8 (u8 ip)))
