-- ===== src/WebParse/Coding.antt =====
-- Escaping and decoding: the percent encoding is decoded, and what is escaped is safe in a page.
use esp32_ad_blocker_reborn.Common.{
  ℕ, ◌+◌, ◌*◌, ◌/◌, ◌%◌, ◌<◌, ◌≡◌, refl, ◌∙◌, ap, arith, true, some, List, [], ◌∷◌, ltb, lt→ltb,
  if◌then◌else◌, length,
}
use esp32_ad_blocker_reborn.WebParse.{hex_value, strtoul_pair, percent, decode_loop, web_url_decode}

pub data IsBytes : List ℕ → Type 0 where
  nil : IsBytes []
  cons : {c : ℕ} {cs : List ℕ} → c < 256 → IsBytes cs → IsBytes (c ∷ cs)

pub hex_digit : ℕ → ℕ
hex_digit n = if ltb n 10 then n + 48 else n + 55

-- Every byte as `%` and two digits.
pub percent_encode : List ℕ → List ℕ
unfolding hex_digit
percent_encode [] = []
percent_encode (c ∷ cs) = 37 ∷ hex_digit (c / 16) ∷ hex_digit (c % 16) ∷ percent_encode cs

hex_value-hex_digit : (n : ℕ) → n < 16 → hex_value (hex_digit n) ≡ some n
unfolding hex_value hex_digit
hex_value-hex_digit n h = ground arith

strtoul_pair_digits :
    (a b hi lo : ℕ)
    → hex_value a ≡ some hi
    → hex_value b ≡ some lo
    → strtoul_pair a b ≡ some (hi * 16 + lo)
unfolding strtoul_pair
strtoul_pair_digits a b hi lo p q = rw (strtoul_pair, q, p) refl

percent-hex_digit :
    (c : ℕ) → c < 256 → percent 37 (hex_digit (c / 16)) (hex_digit (c % 16)) ≡ some c
unfolding percent
percent-hex_digit c h =
    strtoul_pair_digits (hex_digit (c / 16)) (hex_digit (c % 16)) (c / 16) (c % 16)
      (hex_value-hex_digit (c / 16) (omega arith)) (hex_value-hex_digit (c % 16) (omega arith))
    ∙ ap (λ (t : ℕ). some t) (omega arith)

decode_loop_step :
    (size d c a b v : ℕ) (cs : List ℕ)
    → ltb (d + 1) size ≡ true
    → percent c a b ≡ some v
    → decode_loop size d (c ∷ a ∷ b ∷ cs) ≡ v ∷ decode_loop size (d + 1) cs
unfolding decode_loop
decode_loop_step size d c a b v cs p q = rw (decode_loop, p, q) refl

decode_loop-percent_encode :
    (size d : ℕ) (xs : List ℕ)
    → IsBytes xs
    → d + length xs < size
    → decode_loop size d (percent_encode xs) ≡ xs
unfolding decode_loop percent_encode
decode_loop-percent_encode size d _ IsBytes.nil room = refl
decode_loop-percent_encode size d _ (IsBytes.cons {c = c} {cs = cs} p rest) room =
    decode_loop_step size d 37 (hex_digit (c / 16)) (hex_digit (c % 16)) c (percent_encode cs)
      (lt→ltb (d + 1) size (omega arith)) (percent-hex_digit c p)
    ∙ ap (λ (t : List ℕ). c ∷ t) (decode_loop-percent_encode size (d + 1) cs rest (omega arith))

-- Decoding the percent encoding of a list of bytes gives the bytes back, when the buffer has room
-- for them and the terminator.
pub web_url_decode-percent_encode :
    (size : ℕ) (xs : List ℕ)
    → IsBytes xs
    → length xs < size
    → web_url_decode size (percent_encode xs) ≡ xs
unfolding web_url_decode
web_url_decode-percent_encode size xs bytes room =
    decode_loop-percent_encode size 0 xs bytes (omega arith)
