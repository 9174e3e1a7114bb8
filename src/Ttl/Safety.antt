-- ===== src/Ttl/Safety.antt =====
-- The TTL functions on untrusted packets: no access out of bounds, and what they leave as it was.
use esp32_ad_blocker_reborn.Common.{
  ℕ, zero, suc, ◌+◌, ◌≤◌, ◌<◌, ◌≡◌, ◌⊎◌, inl, inr, refl, arith, Bool, true, false, not, ◌&&◌, ◌||◌,
  List, ◌==◌, ltb, leb, length, get_elem?_total, done, ◌>>=◌, load-some, Bool-cases, Returns,
  Returns-bind,
}
use esp32_ad_blocker_reborn.Wire.{dns_skip_name}
use esp32_ad_blocker_reborn.Wire.Skip.{dns_skip_name-Skipped}
use esp32_ad_blocker_reborn.Ttl.{
  load16, load32, answers_loop, soa_ttl, authority_loop, clamp_ttl, least_ttl, dns_resp_min_ttl,
}

-- A run that returns, whatever its result.
abbrev Anything : ℕ → Type 0
Anything n = Unit {0}

pub load16-Returns : (pkt : List ℕ) (i : ℕ) → i + 1 < length pkt → Returns (load16 pkt i) Anything
unfolding load16
load16-Returns pkt i h =
    let (hi, e) = get_elem?_total pkt i (omega arith) in
    let (lo, e') = get_elem?_total pkt (i + 1) (omega arith) in
    rw (load16, load-some pkt i e, ◌>>=◌, load-some pkt (i + 1) e') tt

load32-Returns : (pkt : List ℕ) (i : ℕ) → i + 3 < length pkt → Returns (load32 pkt i) Anything
unfolding load32
load32-Returns pkt i h =
    let (b0, e0) = get_elem?_total pkt i (omega arith) in
    let (b1, e1) = get_elem?_total pkt (i + 1) (omega arith) in
    let (b2, e2) = get_elem?_total pkt (i + 2) (omega arith) in
    let (b3, e3) = get_elem?_total pkt (i + 3) (omega arith) in
    rw
      (
        load32,
        load-some pkt i e0,
        ◌>>=◌,
        load-some pkt (i + 1) e1,
        ◌>>=◌,
        load-some pkt (i + 2) e2,
        ◌>>=◌,
        load-some pkt (i + 3) e3,
      )
      tt

module _ (pkt : List ℕ) (len : ℕ) (inside : len ≤ length pkt) where
  answers_loop-Returns :
      (left off minttl : ℕ) → Returns (answers_loop left pkt len off minttl) Anything
  unfolding answers_loop
  answers_loop-Returns zero off minttl = tt
  answers_loop-Returns (suc left) off minttl =
      Returns-bind (dns_skip_name pkt len off) _ Anything (dns_skip_name-Skipped pkt len off inside)
        (λ r _. elim (Bool-cases (not r.0 || ltb len (r.1 + 10))) [
          | inl e ↦ rw e tt
          | inr e ↦ rw e (
              Returns-bind (load32 pkt (r.1 + 4)) _ Anything
                (load32-Returns pkt (r.1 + 4) (ground arith))
                (λ ttl _.
                  Returns-bind (load16 pkt (r.1 + 8)) _ Anything
                    (load16-Returns pkt (r.1 + 8) (ground arith))
                    (λ rdlen _. answers_loop-Returns left _ _)))
        ])

  soa_ttl-Returns :
      (off rdlen rttl minttl : ℕ) → Returns (soa_ttl pkt len off rdlen rttl minttl) Anything
  unfolding soa_ttl
  soa_ttl-Returns off rdlen rttl minttl =
      Returns-bind (dns_skip_name pkt len off) _ Anything (dns_skip_name-Skipped pkt len off inside)
        (λ r _. elim (Bool-cases r.0) [
          | inr e ↦ rw e tt
          | inl e ↦ rw e (
              Returns-bind (dns_skip_name pkt len r.1) _ Anything
                (dns_skip_name-Skipped pkt len r.1 inside)
                (λ q _.
                  elim (Bool-cases (q.0 && (leb (q.1 + 20) (off + rdlen) && leb (q.1 + 20) len))) [
                    | inr e ↦ rw e tt
                    | inl e ↦ rw e (
                        Returns-bind (load32 pkt (q.1 + 16)) _ Anything
                          (load32-Returns pkt (q.1 + 16) (ground arith)) (λ v _. tt))
                  ]))
        ])

  -- One record of the authority section, with the loop's rest given.
  record_next :
      (left : ℕ)
      → ((off least : ℕ) → Returns (authority_loop left pkt len off least) Anything)
      → (off rdlen rtype rttl minttl : ℕ)
      → Returns
          (elim (rtype == 6 && leb 20 rdlen) [
            | false ↦ authority_loop left pkt len (off + rdlen) minttl
            | true ↦ soa_ttl pkt len off rdlen rttl minttl >>= λ least.
                authority_loop left pkt len (off + rdlen) least
          ])
          Anything
  record_next left rest off rdlen rtype rttl minttl =
      elim (Bool-cases (rtype == 6 && leb 20 rdlen)) [
        | inr e ↦ rw e (rest _ _)
        | inl e ↦ rw e (
            Returns-bind (soa_ttl pkt len off rdlen rttl minttl) _ Anything
              (soa_ttl-Returns off rdlen rttl minttl) (λ least _. rest _ _))
      ]

  authority_loop-Returns :
      (left off minttl : ℕ) → Returns (authority_loop left pkt len off minttl) Anything
  unfolding authority_loop
  authority_loop-Returns zero off minttl = tt
  authority_loop-Returns (suc left) off minttl =
      Returns-bind (dns_skip_name pkt len off) _ Anything (dns_skip_name-Skipped pkt len off inside)
        (λ r _. elim (Bool-cases (not r.0 || ltb len (r.1 + 10))) [
          | inl e ↦ rw e tt
          | inr e ↦ rw e (
              Returns-bind (load16 pkt r.1) _ Anything (load16-Returns pkt r.1 (ground arith))
                (λ rtype _.
                  Returns-bind (load32 pkt (r.1 + 4)) _ Anything
                    (load32-Returns pkt (r.1 + 4) (ground arith))
                    (λ rttl _.
                      Returns-bind (load16 pkt (r.1 + 8)) _ Anything
                        (load16-Returns pkt (r.1 + 8) (ground arith))
                        (λ rdlen _.
                          record_next left (authority_loop-Returns left) (r.1 + 10) rdlen rtype rttl
                            minttl))))
        ])

  least_ttl-Returns :
      (ancount nscount off : ℕ) → Returns (least_ttl ancount nscount pkt len off) Anything
  unfolding least_ttl
  least_ttl-Returns ancount nscount off = elim (Bool-cases (ltb 0 ancount)) [
    | inl e ↦ rw (least_ttl, e) (answers_loop-Returns ancount off _)
    | inr e ↦ rw (least_ttl, e) (authority_loop-Returns nscount off _)
  ]

-- The default, or a value within the limits.
abbrev pub IsTtl : ℕ → ℕ → ℕ → ℕ → Type 0
IsTtl deflt ttl_min ttl_max r = (r ≡ deflt) ⊎ ((ttl_min ≤ r) × (r ≤ ttl_max))

clamp_ttl-IsTtl :
    (deflt ttl_min ttl_max minttl : ℕ)
    → ttl_min ≤ ttl_max
    → IsTtl deflt ttl_min ttl_max (clamp_ttl deflt ttl_min ttl_max minttl)
unfolding clamp_ttl
clamp_ttl-IsTtl deflt ttl_min ttl_max minttl h = ground arith

-- On a packet whose bytes are there, whatever they are, `dns_resp_min_ttl` returns without a read
-- beyond the packet, and its result is the default or lies between the two limits.
pub dns_resp_min_ttl-IsTtl :
    (pkt : List ℕ) (len deflt ttl_min ttl_max : ℕ)
    → len ≤ length pkt
    → ttl_min ≤ ttl_max
    → Returns (dns_resp_min_ttl pkt len deflt ttl_min ttl_max) (IsTtl deflt ttl_min ttl_max)
unfolding dns_resp_min_ttl
dns_resp_min_ttl-IsTtl pkt len deflt ttl_min ttl_max inside limits =
    elim (Bool-cases (ltb len 12)) [
      | inl e ↦ rw (dns_resp_min_ttl, e) (inl refl)
      | inr e ↦
          rw (dns_resp_min_ttl, e)
            (Returns-bind (load16 pkt 6) _ Q (load16-Returns pkt 6 (ground arith)) (λ ancount _.
              Returns-bind (load16 pkt 8) _ Q (load16-Returns pkt 8 (ground arith)) (λ nscount _.
                Returns-bind (dns_skip_name pkt len 12) _ Q
                  (dns_skip_name-Skipped pkt len 12 inside)
                  (λ r _. after_question ancount nscount r.0 r.1))))
    ]
  where
    Q : ℕ → Type 0
    Q = IsTtl deflt ttl_min ttl_max

    after_question :
        (ancount nscount : ℕ) (ok : Bool) (off : ℕ)
        → Returns
            (elim (not ok || ltb len (off + 4)) [
              | true ↦ done deflt
              | false ↦ least_ttl ancount nscount pkt len (off + 4) >>= λ minttl.
                  done (clamp_ttl deflt ttl_min ttl_max minttl)
            ])
            (IsTtl deflt ttl_min ttl_max)
    after_question ancount nscount ok off = elim (Bool-cases (not ok || ltb len (off + 4))) [
      | inl e ↦ rw e (inl refl)
      | inr e ↦ rw e (
          Returns-bind (least_ttl ancount nscount pkt len (off + 4)) _ (IsTtl deflt ttl_min ttl_max)
            (least_ttl-Returns pkt len inside ancount nscount (off + 4))
            (λ minttl _. clamp_ttl-IsTtl deflt ttl_min ttl_max minttl limits))
    ]
