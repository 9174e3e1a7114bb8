-- ===== src/Reply.antt =====
-- main/dns_server.cpp: the case of the question's name on the way to the resolver and back, and the
-- search of an answer's names for a blocked one.
-- The numbers that esp_random gives are a stream; whether a name is blocked is an argument.
pub mod Case
pub mod Normal
pub mod Chain
pub mod Cloaked
mod Examples
use esp32_ad_blocker_reborn.Common.{
  ℕ, zero, suc, ◌+◌, ◌-◌, ◌*◌, ◌/◌, Bool, true, false, not, ◌||◌, Option, none, some, List, ◌==◌,
  ltb, bit_and, bit_or, bit_xor, if◌then◌else◌, u8, u32, Run, done, ◌>>=◌, load, store,
}
use esp32_ad_blocker_reborn.Wire.{dns_decompress_name}
use esp32_ad_blocker_reborn.Ttl.{load16}

-- An ASCII letter, by the test of both loops.
pub is_letter : ℕ → Bool
is_letter c = not (ltb (bit_or c 0x20) b'a' || ltb b'z' (bit_or c 0x20))

-- The random bits that are left, and the index of the next number of the stream.
pub record Bits : Type 0 where
  pub bits : ℕ
  pub n_bits : ℕ
  pub next : ℕ

pub refill : (ℕ → ℕ) → Bits → Bits
refill random b =
    if b.n_bits == 0
    then record { bits = u32 (random b.next); n_bits = 32; next = b.next + 1 }
    else b

pub spend : Bits → Bits
spend b = record b { bits = b.bits / 2; n_bits = b.n_bits - 1 }

-- The loop of `randomize_qname_case` from the byte `i` on.
pub randomize_loop : (ℕ → ℕ) → ℕ → ℕ → Bits → List ℕ → Run (List ℕ)
unfolding is_letter refill spend
randomize_loop random zero i b pkt = done pkt
randomize_loop random (suc left) i b pkt = load pkt i >>= λ c. elim (is_letter c) [
  | false ↦ randomize_loop random left (i + 1) b pkt
  | true ↦
      let full = refill random b in
      (if bit_and full.bits 1 == 0 then done pkt else store pkt i (u8 (bit_xor c 0x20))) >>= λ p.
      randomize_loop random left (i + 1) (spend full) p
]

-- The name's bytes are those from 12 on up to the type and the class, which end at `qend`.
unfoldable pub randomize_qname_case : (ℕ → ℕ) → ℕ → List ℕ → Run (List ℕ)
unfolding randomize_loop
randomize_qname_case random qend pkt =
    randomize_loop random (qend - 16) 12 (record { bits = 0; n_bits = 0; next = 0 }) pkt

pub normalize_loop : ℕ → ℕ → List ℕ → Run (List ℕ)
unfolding is_letter
normalize_loop zero i pkt = done pkt
normalize_loop (suc left) i pkt = load pkt i >>= λ c. elim (is_letter c) [
  | false ↦ normalize_loop left (i + 1) pkt
  | true ↦ store pkt i (u8 (bit_or c 0x20)) >>= λ p. normalize_loop left (i + 1) p
]

unfoldable pub normalize_qname_case : ℕ → List ℕ → Run (List ℕ)
unfolding normalize_loop
normalize_qname_case qend pkt = normalize_loop (qend - 16) 12 pkt

-- Whether the name that a CNAME points to, at `off`, is blocked.
pub target_is_blocked : (List ℕ → Bool) → List ℕ → ℕ → ℕ → Run Bool
target_is_blocked blocked pkt len off = dns_decompress_name pkt len off 256 >>= λ (r, _). elim r [
  | none ↦ done false
  | some target ↦ done (blocked target)
]

-- A record of an answer: its owner's name, its type, where its data are and where the next one is.
pub record Answer : Type 0 where
  pub name : List ℕ
  pub rtype : ℕ
  pub rdata : ℕ
  pub next : ℕ

-- The record at an offset, if it is whole.
pub read_answer : List ℕ → ℕ → ℕ → Run (Option Answer)
read_answer pkt len off = dns_decompress_name pkt len off 256 >>= λ (r, at). elim r [
  | none ↦ done none
  | some name ↦
      if ltb len (at + 10)
      then done none
      else (load16 pkt at >>= λ rtype. load16 pkt (at + 8) >>= λ rdlen. done (
          if ltb len (at + 10 + rdlen)
          then none
          else some
              (record { name = name; rtype = rtype; rdata = at + 10; next = at + 10 + rdlen })))
]

-- The loop over the answers from `off` on, with the number of them that is left.
pub chain_loop : (List ℕ → Bool) → ℕ → List ℕ → ℕ → ℕ → Run Bool
unfolding target_is_blocked read_answer
chain_loop blocked zero pkt len off = done false
chain_loop blocked (suc left) pkt len off = read_answer pkt len off >>= λ r. elim r [
  | none ↦ done false
  | some a ↦ elim (blocked a.name) [
    | true ↦ done true
    | false ↦
        (if a.rtype == 5 then target_is_blocked blocked pkt len a.rdata else done false) >>= λ hit.
        elim hit [ true ↦ done true | false ↦ chain_loop blocked left pkt len a.next ]
  ]
]

unfoldable pub cname_chain_is_blocked : (List ℕ → Bool) → List ℕ → ℕ → ℕ → Run Bool
unfolding chain_loop
cname_chain_is_blocked blocked pkt len qend =
    if ltb len 12
    then done false
    else (load16 pkt 6 >>= λ ancount. chain_loop blocked ancount pkt len qend)
