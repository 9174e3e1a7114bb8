-- ===== src/Wire/Skip.antt =====
-- `dns_skip_name`: it ends, and stays inside the packet.
use esp32_ad_blocker_reborn.Common.{
  ℕ, zero, suc, ◌+◌, ◌-◌, ◌≤◌, ◌<◌, ◌≡◌, arith, Bool, true, false, some, List, ◌==◌, ltb, leb,
  if◌then◌else◌, length, get_elem?, get_elem?_total, done, ◌>>=◌, load-some, Bool-cases, inl, inr,
  ltb→lt, Returns, Returns_mono,
}
use esp32_ad_blocker_reborn.Wire.{is_pointer, has_type_bits, skip_loop, dns_skip_name}

-- A name that is skipped lies inside the packet, and the offset moves on.
abbrev pub Skipped : ℕ → ℕ → Bool × ℕ → Type 0
Skipped len off (ok, end) = ok ≡ true → (off < end) × (end ≤ len)

pub skip_loop-Skipped :
    (fuel : ℕ) (pkt : List ℕ) (len off : ℕ)
    → len ≤ length pkt
    → len - off < fuel
    → Returns (skip_loop fuel pkt len off) (Skipped len off)
unfolding skip_loop
skip_loop-Skipped zero pkt len off inside h = absurd (omega arith)
skip_loop-Skipped (suc fuel) pkt len off inside h = elim (Bool-cases (ltb off len)) [
  | inr e ↦ rw (skip_loop, e) (λ k. cc)
  | inl e ↦
      let lt : off < len = ltb→lt off len e in
      let (b, eb) = get_elem?_total pkt off (omega arith) in
      rw (skip_loop, e, load-some pkt off eb, ◌>>=◌)
        (elim (Bool-cases (b == 0)) [
          | inl z ↦ rw z (λ k. omega arith)
          | inr nz ↦ elim (Bool-cases (is_pointer b)) [
            | inl p ↦ rw (nz, p) (pointer_end lt)
            | inr np ↦ elim (Bool-cases (has_type_bits b)) [
              | inl t ↦ rw (nz, np, t) (λ k. cc)
              | inr nt ↦
                  rw (nz, np, nt)
                    (Returns_mono (skip_loop fuel pkt len (off + 1 + b))
                      (skip_loop-Skipped fuel pkt len (off + 1 + b) inside (omega arith))
                      (λ r k ok. (omega (arith, (k ok).0), (k ok).1)))
            ]
          ]
        ])
]
  where
    pointer_end :
        off < len
        → Returns
            (if leb len (off + 1) then done (false, off) else done (true, off + 2))
            (Skipped len off)
    pointer_end lt = elim (Bool-cases (leb len (off + 1))) [
      | inl c ↦ rw c (λ k. cc)
      | inr c ↦ rw c (λ k. ground arith)
    ]

-- On a packet whose bytes are there `dns_skip_name` returns without a read beyond the packet, and
-- where it returns true the offset has moved forward and is at most the length.
pub dns_skip_name-Skipped :
    (pkt : List ℕ) (len off : ℕ)
    → len ≤ length pkt
    → Returns (dns_skip_name pkt len off) (Skipped len off)
unfolding dns_skip_name
dns_skip_name-Skipped pkt len off inside =
    skip_loop-Skipped (suc len) pkt len off inside (omega arith)

-- Fuel beyond what is left of the packet makes no difference.
pub skip_loop_fuel :
    (f g : ℕ) (pkt : List ℕ) (len off : ℕ)
    → len ≤ length pkt
    → len - off < f
    → len - off < g
    → skip_loop f pkt len off ≡ skip_loop g pkt len off
unfolding skip_loop
skip_loop_fuel zero g pkt len off inside p q = absurd (omega arith)
skip_loop_fuel (suc f) zero pkt len off inside p q = absurd (omega arith)
skip_loop_fuel (suc f) (suc g) pkt len off inside p q = elim (Bool-cases (ltb off len)) [
  | inr e ↦ rw (skip_loop, e)
  | inl e ↦
      let lt : off < len = ltb→lt off len e in
      let (b, eb) = get_elem?_total pkt off (omega arith) in
      rw (skip_loop, e, load-some pkt off eb, ◌>>=◌)
        (elim (Bool-cases (b == 0)) [
          | inl z ↦ rw z
          | inr nz ↦ elim (Bool-cases (is_pointer b)) [
            | inl t ↦ rw (nz, t)
            | inr np ↦ elim (Bool-cases (has_type_bits b)) [
              | inl t ↦ rw (nz, np, t)
              | inr nt ↦
                  rw (nz, np, nt)
                    (skip_loop_fuel f g pkt len (off + 1 + b) inside (omega arith) (omega arith))
            ]
          ]
        ])
]

-- The three ways through one byte of a name.
module _ (pkt : List ℕ) (len off b : ℕ) (inside : len ≤ length pkt) (lt : off < len)
    (here : get_elem? pkt off ≡ some b) where
  within : ltb off len ≡ true
  within = ground arith

  pub dns_skip_name-end : (b == 0) ≡ true → dns_skip_name pkt len off ≡ done (true, off + 1)
  unfolding dns_skip_name skip_loop
  dns_skip_name-end z = rw (dns_skip_name, skip_loop, within, load-some pkt off here, ◌>>=◌, z)

  pub dns_skip_name-pointer :
      (b == 0) ≡ false
      → is_pointer b ≡ true
      → leb len (off + 1) ≡ false
      → dns_skip_name pkt len off ≡ done (true, off + 2)
  unfolding dns_skip_name skip_loop
  dns_skip_name-pointer nz p room =
      rw (dns_skip_name, skip_loop, within, load-some pkt off here, ◌>>=◌, nz, p, room)

  pub dns_skip_name-label :
      (b == 0) ≡ false
      → is_pointer b ≡ false
      → has_type_bits b ≡ false
      → dns_skip_name pkt len off ≡ dns_skip_name pkt len (off + 1 + b)
  unfolding dns_skip_name skip_loop
  dns_skip_name-label nz np nt =
      rw (dns_skip_name, skip_loop, within, load-some pkt off here, ◌>>=◌, nz, np, nt)
        (skip_loop_fuel len (suc len) pkt len (off + 1 + b) inside (omega arith) (omega arith))
