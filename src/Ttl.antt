-- ===== src/Ttl.antt =====
-- main/dns_wire.c: the TTLs of a response. Integers of the packet are big-endian.
pub mod Safety
pub mod Rewriting
mod Examples
use esp32_ad_blocker_reborn.Common.{
  ℕ, zero, suc, ◌+◌, ◌*◌, ◌/◌, ◌%◌, ◌^◌, Bool, true, false, not, ◌&&◌, ◌||◌, List, bit_or, ◌==◌,
  ltb, leb, if◌then◌else◌, Run, done, ◌>>=◌, load, store, ◌<<<◌, ◌>>>◌, u8,
}
use esp32_ad_blocker_reborn.Wire.{dns_skip_name}

-- `(pkt[i] << 8) | pkt[i + 1]`
pub load16 : List ℕ → ℕ → Run ℕ
load16 pkt i = load pkt i >>= λ hi. load pkt (i + 1) >>= λ lo. done (bit_or (hi <<< 8) lo)

pub load32 : List ℕ → ℕ → Run ℕ
load32 pkt i = load pkt i >>= λ b0. load pkt (i + 1) >>= λ b1. load pkt (i + 2) >>= λ b2.
    load pkt (i + 3) >>= λ b3. done (bit_or (b0 <<< 24) (bit_or (b1 <<< 16) (bit_or (b2 <<< 8) b3)))

-- `if (ttl < minttl) minttl = ttl`
pub lower : ℕ → ℕ → ℕ
lower ttl minttl = if ltb ttl minttl then ttl else minttl

-- The loop over the answers, with the number that is left.
pub answers_loop : ℕ → List ℕ → ℕ → ℕ → ℕ → Run ℕ
answers_loop zero pkt len off minttl = done minttl
answers_loop (suc left) pkt len off minttl = dns_skip_name pkt len off >>= λ (ok, off1).
    elim (not ok || ltb len (off1 + 10)) [
      | true ↦ done minttl
      | false ↦ load32 pkt (off1 + 4) >>= λ ttl. load16 pkt (off1 + 8) >>= λ rdlen.
          answers_loop left pkt len (off1 + 10 + rdlen) (lower ttl minttl)
    ]

-- What an SOA with its data at `off` makes of the least TTL.
pub soa_ttl : List ℕ → ℕ → ℕ → ℕ → ℕ → ℕ → Run ℕ
soa_ttl pkt len off rdlen rttl minttl = dns_skip_name pkt len off >>= λ (ok1, roff1). elim ok1 [
  | false ↦ done minttl
  | true ↦ dns_skip_name pkt len roff1 >>= λ (ok2, roff).
      elim (ok2 && (leb (roff + 20) (off + rdlen) && leb (roff + 20) len)) [
        | false ↦ done minttl
        | true ↦ load32 pkt (roff + 16) >>= λ soa_min. done (lower (lower rttl soa_min) minttl)
      ]
]

-- The loop over the authority section.
pub authority_loop : ℕ → List ℕ → ℕ → ℕ → ℕ → Run ℕ
authority_loop zero pkt len off minttl = done minttl
authority_loop (suc left) pkt len off minttl = dns_skip_name pkt len off >>= λ (ok, off1).
    elim (not ok || ltb len (off1 + 10)) [
      | true ↦ done minttl
      | false ↦ load16 pkt off1 >>= λ rtype. load32 pkt (off1 + 4) >>= λ rttl.
          load16 pkt (off1 + 8) >>= λ rdlen. elim (rtype == 6 && leb 20 rdlen) [
            | false ↦ authority_loop left pkt len (off1 + 10 + rdlen) minttl
            | true ↦ soa_ttl pkt len (off1 + 10) rdlen rttl minttl >>= λ least.
                authority_loop left pkt len (off1 + 10 + rdlen) least
          ]
    ]

abbrev pub no_ttl : ℕ
no_ttl = 0xffff_ffff

-- What is returned for the least TTL found.
pub clamp_ttl : ℕ → ℕ → ℕ → ℕ → ℕ
clamp_ttl deflt ttl_min ttl_max minttl =
    let raised = if ltb minttl ttl_min then ttl_min else minttl in
    if minttl == no_ttl then deflt else (if ltb ttl_max raised then ttl_max else raised)

-- The section that is read: the answers if there are any, or else the authority section.
pub least_ttl : ℕ → ℕ → List ℕ → ℕ → ℕ → Run ℕ
least_ttl ancount nscount pkt len off = elim (ltb 0 ancount) [
  | true ↦ answers_loop ancount pkt len off no_ttl
  | false ↦ authority_loop nscount pkt len off no_ttl
]

unfoldable pub dns_resp_min_ttl : List ℕ → ℕ → ℕ → ℕ → ℕ → Run ℕ
unfolding load16 load32 lower answers_loop soa_ttl authority_loop clamp_ttl least_ttl
dns_resp_min_ttl pkt len deflt ttl_min ttl_max = elim (ltb len 12) [
  | true ↦ done deflt
  | false ↦ load16 pkt 6 >>= λ ancount. load16 pkt 8 >>= λ nscount.
      dns_skip_name pkt len 12 >>= λ (ok, off). elim (not ok || ltb len (off + 4)) [
        | true ↦ done deflt
        | false ↦ least_ttl ancount nscount pkt len (off + 4) >>= λ minttl.
            done (clamp_ttl deflt ttl_min ttl_max minttl)
      ]
]

-- The four stores of a TTL.
pub store32 : List ℕ → ℕ → ℕ → Run (List ℕ)
store32 pkt i v = store pkt i (u8 (v >>> 24)) >>= λ p1. store p1 (i + 1) (u8 (v >>> 16)) >>= λ p2.
    store p2 (i + 2) (u8 (v >>> 8)) >>= λ p3. store p3 (i + 3) (u8 v)

-- The loop over the records of all sections: the packet after it.
pub rewrite_loop : ℕ → List ℕ → ℕ → ℕ → ℕ → Run (List ℕ)
rewrite_loop zero pkt len off ttl_s = done pkt
rewrite_loop (suc left) pkt len off ttl_s = elim (ltb len off) [
  | true ↦ done pkt
  | false ↦ dns_skip_name pkt len off >>= λ (ok, off1). elim (not ok || ltb len (off1 + 10)) [
    | true ↦ done pkt
    | false ↦ store32 pkt (off1 + 4) ttl_s >>= λ written. load16 written (off1 + 8) >>= λ rdlen.
        rewrite_loop left written len (off1 + 10 + rdlen) ttl_s
  ]
]

unfoldable pub dns_rewrite_answer_ttls : List ℕ → ℕ → ℕ → Run (List ℕ)
unfolding load16 store32 rewrite_loop
dns_rewrite_answer_ttls pkt len ttl_s = elim (ltb len 12) [
  | true ↦ done pkt
  | false ↦ load16 pkt 6 >>= λ an. load16 pkt 8 >>= λ ns. load16 pkt 10 >>= λ ar.
      dns_skip_name pkt len 12 >>= λ (ok, off). elim ok [
        | false ↦ done pkt
        | true ↦ rewrite_loop (an + ns + ar) pkt len (off + 4) ttl_s
      ]
]
