-- ===== src/Domain.antt =====
-- main/domain.c: names as lists of bytes, and the walks over a question name in a packet.
-- A packet is its list of bytes; a read beyond the list is a fault.
pub mod Question
pub mod Compare
pub mod WireLength
mod Examples
use esp32_ad_blocker_reborn.Common.{
  ℕ, zero, suc, ◌+◌, ◌-◌, ◌%◌, ◌^◌, Bool, true, false, not, ◌&&◌, ◌||◌, Option, none, some, List,
  [], ◌∷◌, ◌++◌, map, bit_and, bit_or, ◌==◌, ltb, leb, if◌then◌else◌, length, get_elem?, take, u8,
  Run, done, fault, out_of_fuel, ◌>>=◌, load, load_range,
}

-- No dot: a single label.
unfoldable pub domain_is_bare_tld : List ℕ → Bool
domain_is_bare_tld [] = true
domain_is_bare_tld (c ∷ cs) = if c == b'.' then false else domain_is_bare_tld cs

-- `tolower` in the C locale.
abbrev pub tolower : ℕ → ℕ
tolower c = if leb b'A' c && leb c b'Z' then c + 32 else c

-- The loop that strips trailing dots: the length that is left.
unfoldable pub strip_dots : List ℕ → ℕ → ℕ
strip_dots src zero = 0
strip_dots src (suc n) =
    let shorter = strip_dots src n in
    elim (get_elem? src n) [ none ↦ suc n | some c ↦ if c == b'.' then shorter else suc n ]

-- `none` is the 0 of the source; the arguments are not null.
unfoldable pub domain_normalize : ℕ → List ℕ → Option (List ℕ)
unfolding strip_dots
domain_normalize buf_size src =
    let n = strip_dots src (length src) in
    if ltb buf_size 2 || n == 0 || leb buf_size n then none else some (map tolower (take n src))

-- `char raw[256]`
abbrev pub raw_size : ℕ
raw_size = 256

-- A copy to the end of `raw`: beyond its size it is a fault.
pub raw_append : List ℕ → List ℕ → Run (List ℕ)
raw_append raw bytes =
    if ltb raw_size (length raw + length bytes) then fault else done (raw ++ bytes)

-- The tests that make both walks return -1: a reserved label type or a pointer, a label that runs
-- past the packet, a name that is too long.
pub label_refused : ℕ → ℕ → ℕ → ℕ → Bool
label_refused label_len pkt_len offset raw_len =
    not (bit_and label_len 0xc0 == 0)
    || ltb pkt_len (offset + 1 + label_len)
    || leb raw_size (raw_len + label_len + 1)

-- The dot between labels, and the `memcpy` of the label behind it.
pub copy_label : List ℕ → ℕ → ℕ → List ℕ → Run (List ℕ)
unfolding raw_append
copy_label pkt offset label_len raw = do
  dotted ← raw_append raw (if ltb 0 (length raw) then b'.' ∷ [] else [])
  label ← load_range pkt (offset + 1) label_len
  raw_append dotted label

-- The loop of `dns_extract_qname`; `none` is its `return -1`.
pub qname_loop : ℕ → List ℕ → ℕ → ℕ → List ℕ → Run (Option (ℕ × List ℕ))
qname_loop zero pkt pkt_len offset raw = out_of_fuel
qname_loop (suc fuel) pkt pkt_len offset raw = elim (ltb offset pkt_len) [
  | false ↦ done (some (offset, raw))
  | true ↦ load pkt offset >>= λ label_len. elim (label_len == 0) [
    | true ↦ done (some (offset, raw))
    | false ↦ elim (label_refused label_len pkt_len offset (length raw)) [
      | true ↦ done none
      | false ↦ copy_label pkt offset label_len raw >>= λ longer.
          qname_loop fuel pkt pkt_len (offset + 1 + label_len) longer
    ]
  ]
]

-- `some (name, end)` is the name with the offset behind QTYPE and QCLASS; `none` is -1.
unfoldable pub dns_extract_qname : List ℕ → ℕ → ℕ → ℕ → Run (Option (List ℕ × ℕ))
unfolding qname_loop copy_label label_refused load_range
dns_extract_qname pkt pkt_len offset name_cap =
    qname_loop (suc pkt_len) pkt pkt_len offset [] >>= λ o. elim o [
      | none ↦ done none
      | some (at, raw) ↦
          if leb pkt_len at || ltb pkt_len (at + 1 + 4)
          then done none
          else (elim (domain_normalize name_cap raw) [
            | none ↦ done none
            | some name ↦ done (some (name, at + 1 + 4))
          ])
    ]

-- The loop of `dns_qname_wire_len`: the offset and the dotted length at its end.
pub wire_loop : ℕ → List ℕ → ℕ → ℕ → ℕ → Run (Option (ℕ × ℕ))
wire_loop zero pkt pkt_len offset raw_len = out_of_fuel
wire_loop (suc fuel) pkt pkt_len offset raw_len = elim (ltb offset pkt_len) [
  | false ↦ done (some (offset, raw_len))
  | true ↦ load pkt offset >>= λ label_len. elim (label_len == 0) [
    | true ↦ done (some (offset, raw_len))
    | false ↦ elim (label_refused label_len pkt_len offset raw_len) [
      | true ↦ done none
      | false ↦
          wire_loop fuel pkt pkt_len (offset + 1 + label_len)
            ((if ltb 0 raw_len then raw_len + 1 else raw_len) + label_len)
    ]
  ]
]

unfoldable pub dns_qname_wire_len : List ℕ → ℕ → ℕ → Run (Option ℕ)
unfolding wire_loop label_refused
dns_qname_wire_len pkt pkt_len offset = wire_loop (suc pkt_len) pkt pkt_len offset 0 >>= λ o.
    elim o [
      | none ↦ done none
      | some (at, raw_len) ↦
          if leb pkt_len at || raw_len == 0 then done none else done (some (at + 1 - offset))
    ]

-- `if ((uint8_t)(x - 'A') < 26) x |= 0x20`
unfoldable pub fold_case : ℕ → ℕ
fold_case x = if ltb (u8 (x + 256 - b'A')) 26 then bit_or x 0x20 else x

-- The loop over `n` bytes of both names; a read beyond a buffer is a fault.
unfoldable pub dns_qname_wire_eq : List ℕ → List ℕ → ℕ → Run Bool
unfolding fold_case
dns_qname_wire_eq a b zero = done true
dns_qname_wire_eq (x ∷ a) (y ∷ b) (suc n) =
    let rest = dns_qname_wire_eq a b n in
    if not (fold_case x == fold_case y) then done false else rest
dns_qname_wire_eq _ _ (suc n) = fault
