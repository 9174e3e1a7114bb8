-- ===== src/Reply/Examples.antt =====
-- The name "aDs.io" on the way out and back, and an answer that points to it by a CNAME.
use esp32_ad_blocker_reborn.Common.{
  ℕ, ◌-◌, ◌≤◌, ◌≡◌, refl, arith, Bool, List, [], ◌∷◌, ◌++◌, codes, eq_bytes, store, done, ◌>>=◌,
  Returns,
}
use esp32_ad_blocker_reborn.Ttl.{load16}
use esp32_ad_blocker_reborn.Reply.{
  randomize_qname_case, normalize_qname_case, cname_chain_is_blocked,
}
use esp32_ad_blocker_reborn.Reply.Case.{Recased, IsPacket-all}
use esp32_ad_blocker_reborn.Reply.Normal.{Lowercased, normalize_qname_case-randomize_qname_case}
use esp32_ad_blocker_reborn.Reply.Chain.{Decides, IsCloaked}
use esp32_ad_blocker_reborn.Reply.Cloaked.{cname_chain_is_blocked-Decides}

abbrev header : List ℕ
header = 0x12 ∷ 0x34 ∷ 0x81 ∷ 0x80 ∷ 0 ∷ 1 ∷ 0 ∷ 1 ∷ 0 ∷ 0 ∷ 0 ∷ 0 ∷ []

-- A question that ends at 24.
abbrev query : List ℕ
query = header ++ 3 ∷ codes "aDs" ++ 2 ∷ codes "io" ++ 0 ∷ 0 ∷ 1 ∷ 0 ∷ 1 ∷ []

abbrev sent : List ℕ
sent = header ++ 3 ∷ codes "AdS" ++ 2 ∷ codes "io" ++ 0 ∷ 0 ∷ 1 ∷ 0 ∷ 1 ∷ []

randomize_qname_case-query : randomize_qname_case (λ i. 7) 24 query ≡ done sent
unfolding randomize_qname_case store
randomize_qname_case-query = refl

normalize_qname_case-randomize_qname_case_example :
    Returns
      (randomize_qname_case (λ i. 7) 24 query >>= λ out. normalize_qname_case 24 out >>= λ back.
        normalize_qname_case 24 query >>= λ plain. done (out, back, plain))
      (λ (out, back, plain).
        Recased 12 (24 - 16) query out × ((back ≡ plain) × Lowercased 12 (24 - 16) query plain))
normalize_qname_case-randomize_qname_case_example =
    normalize_qname_case-randomize_qname_case (λ i. 7) 24 query (IsPacket-all query refl)
      (omega arith) (omega arith)

-- The answer is a CNAME of the question's name to "t.io".
abbrev reply : List ℕ
reply =
    query ++ 0xc0 ∷ 0x0c ∷ 0 ∷ 5 ∷ 0 ∷ 1 ∷ 0 ∷ 0 ∷ 0 ∷ 60 ∷ 0 ∷ 4 ∷ 1 ∷ codes "t" ++ 0xc0 ∷ 16 ∷ []

abbrev is_tracker : List ℕ → Bool
is_tracker name = eq_bytes name (codes "t.io")

cname_chain_is_blocked-Decides_example :
    Returns (cname_chain_is_blocked is_tracker reply 40 24) (λ b. Decides b (
      (12 ≤ 40)
      × (ancount : ℕ) × (load16 reply 6 ≡ done ancount)
      × IsCloaked is_tracker reply 40 ancount 24))
cname_chain_is_blocked-Decides_example =
    cname_chain_is_blocked-Decides is_tracker reply 40 (omega arith) 24
