-- ===== src/Wire.antt =====
-- main/dns_wire.c: names in answer sections. A packet is the list of its bytes.
pub mod Skip
pub mod Decompress
mod Examples
use esp32_ad_blocker_reborn.Common.{
  ℕ, zero, suc, ◌+◌, ◌*◌, ◌-◌, ◌^◌, Bool, true, false, not, ◌||◌, Option, none, some, List, [],
  bit_and, bit_or, ◌==◌, ltb, leb, if◌then◌else◌, length, Run, done, fault, out_of_fuel, ◌>>=◌,
  load, ◌<<<◌,
}
use esp32_ad_blocker_reborn.Domain.{label_refused, copy_label, domain_normalize}

-- `(b & 0xC0) == 0xC0`
pub is_pointer : ℕ → Bool
is_pointer b = bit_and b 0xc0 == 0xc0

-- `(b & 0xC0) != 0`
pub has_type_bits : ℕ → Bool
has_type_bits b = not (bit_and b 0xc0 == 0)

-- The loop of `dns_skip_name`: what it returns, with the offset it leaves in `*off`.
pub skip_loop : ℕ → List ℕ → ℕ → ℕ → Run (Bool × ℕ)
skip_loop zero pkt len off = out_of_fuel
skip_loop (suc fuel) pkt len off = elim (ltb off len) [
  | false ↦ done (false, off)
  | true ↦ load pkt off >>= λ b. elim (b == 0) [
    | true ↦ done (true, off + 1)
    | false ↦ elim (is_pointer b) [
      | true ↦ if leb len (off + 1) then done (false, off) else done (true, off + 2)
      | false ↦ elim (has_type_bits b) [
        | true ↦ done (false, off)
        | false ↦ skip_loop fuel pkt len (off + 1 + b)
      ]
    ]
  ]
]

unfoldable pub dns_skip_name : List ℕ → ℕ → ℕ → Run (Bool × ℕ)
unfolding skip_loop is_pointer has_type_bits
dns_skip_name pkt len off = skip_loop (suc len) pkt len off

-- What stands at a 2-byte pointer: the offset that it names.
pub pointer_target : ℕ → ℕ → ℕ
pointer_target b low = bit_or (bit_and b 0x3f <<< 8) low

-- The terminator: the decoded bytes are normalized; `off` moves if no pointer has moved it.
pub finish_name : ℕ → ℕ → List ℕ → Bool → ℕ → Option (List ℕ) × ℕ
finish_name name_cap read_off raw advanced off =
    (domain_normalize name_cap raw, if advanced then off else read_off + 1)

-- The loop of `dns_decompress_name`: the name, if it returns true, and the offset left in `*off`.
pub decompress_loop : ℕ → List ℕ → ℕ → ℕ → ℕ → List ℕ → Bool → ℕ → ℕ → Run (Option (List ℕ) × ℕ)
decompress_loop zero pkt len name_cap read_off raw advanced off jumps = out_of_fuel
decompress_loop (suc fuel) pkt len name_cap read_off raw advanced off jumps =
    elim (ltb read_off len) [
      | false ↦ done (none, off)
      | true ↦ load pkt read_off >>= λ b. elim (b == 0) [
        | true ↦ done (finish_name name_cap read_off raw advanced off)
        | false ↦ elim (is_pointer b) [
          | true ↦ elim (leb len (read_off + 1)) [
            | true ↦ done (none, off)
            | false ↦ load pkt (read_off + 1) >>= λ low.
                let off' = if advanced then off else read_off + 2 in
                elim (leb read_off (pointer_target b low) || ltb 20 (jumps + 1)) [
                  | true ↦ done (none, off')
                  | false ↦
                      decompress_loop fuel pkt len name_cap (pointer_target b low) raw true off'
                        (jumps + 1)
                ]
          ]
          | false ↦ elim (label_refused b len read_off (length raw)) [
            | true ↦ done (none, off)
            | false ↦ copy_label pkt read_off b raw >>= λ longer.
                decompress_loop fuel pkt len name_cap (read_off + 1 + b) longer advanced off jumps
          ]
        ]
      ]
    ]

-- At most 20 jumps, and at most `len` steps between two of them.
unfoldable pub dns_decompress_name : List ℕ → ℕ → ℕ → ℕ → Run (Option (List ℕ) × ℕ)
unfolding decompress_loop is_pointer has_type_bits pointer_target finish_name
dns_decompress_name pkt len off name_cap =
    decompress_loop (21 * (len + 1)) pkt len name_cap off [] false off 0
