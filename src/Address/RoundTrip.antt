-- ===== src/Address/RoundTrip.antt =====
-- An address that was printed is read back.
use esp32_ad_blocker_reborn.Common.{
  ℕ, ◌+◌, ◌-◌, ◌*◌, ◌/◌, ◌%◌, ◌^◌, ◌<◌, ◌≡◌, refl, ◌∙◌, ap, subst, append-nil, Bool-cases, inl, inr,
  arith, Bool, true, false, ◌||◌, Option, none, some, List, [], ◌∷◌, ◌++◌, ltb, if◌then◌else◌,
  bit_or, bit_or_fields, u8, ◌>>>◌,
}
use esp32_ad_blocker_reborn.Address.{
  is_digit, skip_space, scan_digits, scan_sign, signed_value, scan_u, scan_u_dot, scan_quad,
  quad_value, acl_parse_ip4, print_u8, print_ip4,
}

-- What the digits before it do not run into.
abbrev Stops : List ℕ → Type 0
Stops rest = (acc : ℕ) → scan_digits acc rest ≡ (acc, rest)

scan_digits_digit :
    (acc d : ℕ) (xs : List ℕ)
    → d < 10
    → scan_digits acc ((b'0' + d) ∷ xs) ≡ scan_digits (acc * 10 + d) xs
unfolding scan_digits is_digit
scan_digits_digit acc d xs h =
    let value : acc * 10 + (b'0' + d - b'0') ≡ acc * 10 + d = omega arith in
    let digit : is_digit (b'0' + d) ≡ true = ground arith in rw (scan_digits, digit, value) refl

scan_u_parts :
    (s : List ℕ) (neg : Bool) (c v : ℕ) (cs rest : List ℕ)
    → scan_sign (skip_space s) ≡ (neg, c ∷ cs)
    → is_digit c ≡ true
    → scan_digits 0 (c ∷ cs) ≡ (v, rest)
    → scan_u s ≡ some (signed_value neg v, rest)
unfolding scan_u
scan_u_parts s neg c v cs rest e digit d =
    rw (scan_u, e, digit, d) (ap (λ (p : Bool × List ℕ). some (signed_value p.0 v, rest)) e)

unsigned : (v : ℕ) → v < 256 → signed_value false v ≡ v
unfolding signed_value
unsigned v h = ground arith

no_sign :
    (d : ℕ) (xs : List ℕ)
    → d < 10
    → scan_sign (skip_space ((b'0' + d) ∷ xs)) ≡ (false, (b'0' + d) ∷ xs)
unfolding scan_sign skip_space
no_sign d xs h = ground arith

scan_u_digit :
    (d v : ℕ) (xs rest : List ℕ)
    → d < 10
    → scan_digits d xs ≡ (v, rest)
    → v < 256
    → scan_u ((b'0' + d) ∷ xs) ≡ some (v, rest)
unfolding is_digit
scan_u_digit d v xs rest h e small =
    let digit : is_digit (b'0' + d) ≡ true = ground arith in
    scan_u_parts ((b'0' + d) ∷ xs) false (b'0' + d) v xs rest (no_sign d xs h) digit
      (scan_digits_digit 0 d xs h ∙ ap (λ (t : ℕ). scan_digits t xs) (zero_first d) ∙ e)
    ∙ ap (λ (n : ℕ). some (n, rest)) (unsigned v small)
  where
    zero_first : (d : ℕ) → 0 * 10 + d ≡ d
    zero_first d = omega arith

-- One byte that was printed.
scan_u-print_u8 :
    (n : ℕ) (rest : List ℕ) → n < 256 → Stops rest → scan_u (print_u8 n ++ rest) ≡ some (n, rest)
unfolding print_u8
scan_u-print_u8 n rest h stop = elim (Bool-cases (ltb n 10)) [
  | inl one ↦ rw (print_u8, one) (scan_u_digit n n rest rest (ground arith) (stop n) h)
  | inr many ↦ elim (Bool-cases (ltb n 100)) [
    | inl two ↦
        let whole : n / 10 * 10 + n % 10 ≡ n = omega arith in
        rw (print_u8, many, two)
          (scan_u_digit (n / 10) n ((b'0' + n % 10) ∷ rest) rest (ground arith)
            (scan_digits_digit (n / 10) (n % 10) rest (omega arith)
              ∙ stop (n / 10 * 10 + n % 10)
              ∙ ap (λ (t : ℕ). (t, rest)) whole)
            h)
    | inr three ↦
        let whole : (n / 100 * 10 + n / 10 % 10) * 10 + n % 10 ≡ n = omega arith in
        rw (print_u8, many, three)
          (scan_u_digit (n / 100) n ((b'0' + n / 10 % 10) ∷ (b'0' + n % 10) ∷ rest) rest
            (omega arith)
            (scan_digits_digit (n / 100) (n / 10 % 10) ((b'0' + n % 10) ∷ rest) (omega arith)
              ∙ scan_digits_digit (n / 100 * 10 + n / 10 % 10) (n % 10) rest (omega arith)
              ∙ stop ((n / 100 * 10 + n / 10 % 10) * 10 + n % 10)
              ∙ ap (λ (t : ℕ). (t, rest)) whole)
            h)
  ]
]

Stops-nil : Stops []
unfolding scan_digits
Stops-nil acc = refl

Stops-dot : (rest : List ℕ) → Stops (b'.' ∷ rest)
unfolding scan_digits is_digit
Stops-dot rest acc = refl

scan_u_dot-print_u8 :
    (n : ℕ) (rest : List ℕ) → n < 256 → scan_u_dot (print_u8 n ++ (b'.' ∷ rest)) ≡ some (n, rest)
unfolding scan_u_dot
scan_u_dot-print_u8 n rest h =
    rw (scan_u_dot, scan_u-print_u8 n (b'.' ∷ rest) h (Stops-dot rest)) refl

scan_u-end : (n : ℕ) → n < 256 → scan_u (print_u8 n) ≡ some (n, [])
scan_u-end n h =
    subst (λ (t : List ℕ). scan_u t ≡ some (n, [])) (append-nil (print_u8 n))
      (scan_u-print_u8 n [] h Stops-nil)

scan_quad-print :
    (b0 b1 b2 b3 : ℕ)
    → b0 < 256
    → b1 < 256
    → b2 < 256
    → b3 < 256
    → scan_quad (print_u8 b0 ++ b'.' ∷ (print_u8 b1 ++ b'.' ∷ (print_u8 b2 ++ b'.' ∷ print_u8 b3)))
      ≡ some (b0, b1, b2, b3)
unfolding scan_quad
scan_quad-print b0 b1 b2 b3 h0 h1 h2 h3 =
    rw
      (
        scan_quad,
        scan_u_dot-print_u8 b0 (print_u8 b1 ++ b'.' ∷ (print_u8 b2 ++ b'.' ∷ print_u8 b3)) h0,
        scan_u_dot-print_u8 b1 (print_u8 b2 ++ b'.' ∷ print_u8 b3) h1,
        scan_u_dot-print_u8 b2 (print_u8 b3) h2,
        scan_u-end b3 h3,
      )
      refl

quad_value-bytes :
    (ip : ℕ)
    → ip < 2 ^ 32
    → quad_value (u8 (ip >>> 24)) (u8 (ip >>> 16)) (u8 (ip >>> 8)) (u8 ip) ≡ ip
unfolding quad_value
quad_value-bytes ip h =
    let b0 = u8 (ip >>> 24) in
    let b1 = u8 (ip >>> 16) in
    let b2 = u8 (ip >>> 8) in
    let b3 = u8 ip in
    let low = bit_or_fields 8 b2 b3 (omega arith) in
    let mid = bit_or_fields 16 b1 (b2 * 2 ^ 8 + b3) (omega arith) in
    let high = bit_or_fields 24 b0 (b1 * 2 ^ 16 + (b2 * 2 ^ 8 + b3)) (omega arith) in
    ap (λ (t : ℕ). bit_or (b0 * 2 ^ 24) (bit_or (b1 * 2 ^ 16) t)) low
    ∙ ap (λ (t : ℕ). bit_or (b0 * 2 ^ 24) t) mid
    ∙ high
    ∙ omega arith

-- Every 32-bit address that is printed as a dotted quad is parsed back to itself.
pub acl_parse_ip4-print_ip4 : (ip : ℕ) → ip < 2 ^ 32 → acl_parse_ip4 (print_ip4 ip) ≡ ip
unfolding acl_parse_ip4 print_ip4
acl_parse_ip4-print_ip4 ip h =
    rw
      (
        acl_parse_ip4,
        scan_quad-print (u8 (ip >>> 24)) (u8 (ip >>> 16)) (u8 (ip >>> 8)) (u8 ip) (omega arith)
            (omega arith) (omega arith) (omega arith),
        is_byte (ip >>> 24),
        is_byte (ip >>> 16),
        is_byte (ip >>> 8),
        is_byte ip,
      )
      (quad_value-bytes ip h)
  where
    is_byte : (n : ℕ) → ltb 255 (u8 n) ≡ false
    is_byte n = ground arith

quad_value-lt :
    (b0 b1 b2 b3 : ℕ) → b0 < 256 → b1 < 256 → b2 < 256 → b3 < 256 → quad_value b0 b1 b2 b3 < 2 ^ 32
unfolding quad_value
quad_value-lt b0 b1 b2 b3 h0 h1 h2 h3 =
    let low = bit_or_fields 8 b2 b3 (omega arith) in
    let mid = bit_or_fields 16 b1 (b2 * 2 ^ 8 + b3) (omega arith) in
    let high = bit_or_fields 24 b0 (b1 * 2 ^ 16 + (b2 * 2 ^ 8 + b3)) (omega arith) in
    let sum =
      ap (λ (t : ℕ). bit_or (b0 * 2 ^ 24) (bit_or (b1 * 2 ^ 16) t)) low
      ∙ ap (λ (t : ℕ). bit_or (b0 * 2 ^ 24) t) mid
      ∙ high in
    rw sum (omega arith)

-- What is parsed has 32 bits.
pub acl_parse_ip4-lt : (s : List ℕ) → acl_parse_ip4 s < 2 ^ 32
unfolding acl_parse_ip4
acl_parse_ip4-lt s = one (scan_quad s)
  where
    one :
        (o : Option (ℕ × ℕ × ℕ × ℕ))
        → elim o as (λ _. ℕ) [
          | none ↦ 0
          | some (b0, b1, b2, b3) ↦
              if ltb 255 b0 || ltb 255 b1 || ltb 255 b2 || ltb 255 b3
              then 0
              else quad_value b0 b1 b2 b3
        ]
          < 2 ^ 32
    one none = omega arith
    one (some (b0, b1, b2, b3)) =
        elim (Bool-cases (ltb 255 b0 || ltb 255 b1 || ltb 255 b2 || ltb 255 b3)) [
          | inl e ↦ rw e (omega arith)
          | inr e ↦ rw e (
              quad_value-lt b0 b1 b2 b3 (ground arith) (ground arith) (ground arith) (ground arith))
        ]
