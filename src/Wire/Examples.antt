-- ===== src/Wire/Examples.antt =====
-- Tests of the name decoder, and the theorems at a concrete packet.
use esp32_ad_blocker_reborn.Common.{
  ℕ, ◌≡◌, refl, arith, true, false, none, List, [], ◌∷◌, ◌++◌, codes, done, Returns,
}
use esp32_ad_blocker_reborn.Wire.{dns_skip_name, dns_decompress_name}
use esp32_ad_blocker_reborn.Wire.Decompress.{Decoded, dns_decompress_name-Decoded}

-- "io" at 0, and at 4 "ads" with a pointer to it.
abbrev packet : List ℕ
packet = 2 ∷ codes "io" ++ 0 ∷ 3 ∷ codes "ads" ++ 0xc0 ∷ 0 ∷ 1 ∷ 1 ∷ []

dns_skip_name-packet : dns_skip_name packet 12 4 ≡ done (true, 10)
unfolding dns_skip_name
dns_skip_name-packet = refl

-- A pointer to itself does not loop: the name is refused, with the offset moved.
dns_decompress_name-cycle : dns_decompress_name (0xc0 ∷ 0 ∷ []) 2 0 256 ≡ done (none, 2)
unfolding dns_decompress_name
dns_decompress_name-cycle = refl

dns_decompress_name-Decoded_example :
    Returns (dns_decompress_name packet 12 4 256) (Decoded packet 12 256 4 false 4)
dns_decompress_name-Decoded_example = dns_decompress_name-Decoded packet 12 4 256 (omega arith)
