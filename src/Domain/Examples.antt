-- ===== src/Domain/Examples.antt =====
-- Tests of the name code, and the theorem at a concrete packet.
use esp32_ad_blocker_reborn.Common.{
  ℕ, ◌≡◌, refl, arith, none, some, List, [], ◌∷◌, ◌++◌, codes, done, Returns,
}
use esp32_ad_blocker_reborn.Domain.{domain_normalize, dns_extract_qname, dns_qname_wire_len}
use esp32_ad_blocker_reborn.Domain.Question.{Extracts, dns_extract_qname-Extracts}

-- The question "aDs.io", type A, class IN.
abbrev question : List ℕ
question = 3 ∷ codes "aDs" ++ 2 ∷ codes "io" ++ 0 ∷ 0 ∷ 1 ∷ 0 ∷ 1 ∷ []

dns_extract_qname-question : dns_extract_qname question 12 0 256 ≡ done (some (codes "ads.io", 12))
unfolding dns_extract_qname domain_normalize
dns_extract_qname-question = refl

dns_qname_wire_len-question : dns_qname_wire_len question 12 0 ≡ done (some 8)
unfolding dns_qname_wire_len
dns_qname_wire_len-question = refl

-- A compression pointer is refused.
dns_extract_qname-pointer : dns_extract_qname (0xc0 ∷ 0x0c ∷ question) 14 0 256 ≡ done none
unfolding dns_extract_qname
dns_extract_qname-pointer = refl

dns_extract_qname-Extracts_example :
    Returns (dns_extract_qname question 12 0 256) (Extracts question 12 0 256)
dns_extract_qname-Extracts_example = dns_extract_qname-Extracts question 12 0 256 (omega arith)
