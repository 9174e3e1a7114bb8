-- ===== src/Ttl/Examples.antt =====
-- Tests of the TTL functions, and the theorems at a concrete response.
use esp32_ad_blocker_reborn.Common.{
  ◌≡◌, refl, arith, List, ℕ, [], ◌∷◌, ◌++◌, codes, store, done, Returns,
}
use esp32_ad_blocker_reborn.Wire.{dns_skip_name}
use esp32_ad_blocker_reborn.Ttl.{dns_resp_min_ttl, dns_rewrite_answer_ttls}
use esp32_ad_blocker_reborn.Ttl.Safety.{IsTtl, dns_resp_min_ttl-IsTtl}
use esp32_ad_blocker_reborn.Ttl.Rewriting.{Keeps, records_from, dns_rewrite_answer_ttls-Keeps}

abbrev header : List ℕ
header = 0 ∷ 1 ∷ 0x81 ∷ 0x80 ∷ 0 ∷ 1 ∷ 0 ∷ 1 ∷ 0 ∷ 0 ∷ 0 ∷ 0 ∷ []

abbrev question : List ℕ
question = 2 ∷ codes "io" ++ 0 ∷ 0 ∷ 1 ∷ 0 ∷ 1 ∷ []

-- A pointer to the question's name, then type, class, the TTL, and an address.
abbrev answer : ℕ → List ℕ
answer ttl = 0xc0 ∷ 12 ∷ 0 ∷ 1 ∷ 0 ∷ 1 ∷ 0 ∷ 0 ∷ 0 ∷ ttl ∷ 0 ∷ 4 ∷ 1 ∷ 2 ∷ 3 ∷ 4 ∷ []

abbrev response : ℕ → List ℕ
response ttl = header ++ question ++ answer ttl

least : dns_resp_min_ttl (response 77) 36 300 10 3600 ≡ done 77
unfolding dns_resp_min_ttl dns_skip_name
least = refl

raised : dns_resp_min_ttl (response 5) 36 300 10 3600 ≡ done 10
unfolding dns_resp_min_ttl dns_skip_name
raised = refl

rewritten : dns_rewrite_answer_ttls (response 77) 36 5 ≡ done (response 5)
unfolding dns_rewrite_answer_ttls dns_skip_name store
rewritten = refl

dns_resp_min_ttl-IsTtl_example :
    Returns (dns_resp_min_ttl (response 77) 36 300 10 3600) (IsTtl 300 10 3600)
dns_resp_min_ttl-IsTtl_example =
    dns_resp_min_ttl-IsTtl (response 77) 36 300 10 3600 (omega arith) (omega arith)

dns_rewrite_answer_ttls-Keeps_example : Returns (dns_skip_name (response 77) 36 12) (λ r.
    Returns
      (dns_rewrite_answer_ttls (response 77) 36 5)
      (Keeps (records_from 36 r) 36 (response 77)))
dns_rewrite_answer_ttls-Keeps_example =
    dns_rewrite_answer_ttls-Keeps (response 77) 36 5 (omega arith)
