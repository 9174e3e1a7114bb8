-- ===== src/Domain/Question.antt =====
-- The two walks over a question name agree, end, and stay inside the packet and inside `raw`.
use esp32_ad_blocker_reborn.Common.{
  ℕ, zero, suc, ◌+◌, ◌-◌, ◌≤◌, ◌<◌, ◌≡◌, refl, sym, subst, ◌∙◌, ap, arith, Bool, false, not, ◌||◌,
  Option, none, some, List, [], ◌∷◌, ◌++◌, map, bit_and, ◌==◌, ltb, leb, if◌then◌else◌, length,
  length-append, length-map, get_elem?_total, take, Run, done, ◌>>=◌, load-some, load_range-total,
  Bool-cases, inl, inr, ltb→lt, Returns,
}
use esp32_ad_blocker_reborn.Domain.{
  raw_size, raw_append, strip_dots, tolower, label_refused, copy_label, qname_loop,
  dns_extract_qname, wire_loop, dns_qname_wire_len, domain_normalize,
}

-- How the two loops end: together, and then at one offset, not before `lo`, with one length.
abbrev Agree : ℕ → Run (Option (ℕ × List ℕ)) → Run (Option (ℕ × ℕ)) → Type 0
Agree lo (done none) (done none) = Unit {0}
Agree lo (done (some (at, raw))) (done (some (at', n))) =
    (lo ≤ at) × (at ≡ at') × (length raw ≡ n) × (length raw < raw_size)
Agree lo _ _ = ⊥

Agree-mono :
    (lo lo' : ℕ) (x : Run (Option (ℕ × List ℕ))) (y : Run (Option (ℕ × ℕ)))
    → lo ≤ lo'
    → Agree lo' x y
    → Agree lo x y
Agree-mono lo lo' (done none) (done none) h k = tt
Agree-mono lo lo' (done (some (at, raw))) (done (some (at', n))) h k = (omega arith, k.1, k.2, k.3)
Agree-mono lo lo' _ _ h k = absurd k

raw_append-done :
    (raw bytes : List ℕ)
    → length raw + length bytes ≤ raw_size
    → raw_append raw bytes ≡ done (raw ++ bytes)
unfolding raw_append
raw_append-done raw bytes h = ground arith

abbrev dot : List ℕ → List ℕ
dot raw = if ltb 0 (length raw) then b'.' ∷ [] else []

length-dot : (raw : List ℕ) → length (dot raw) ≤ 1
length-dot raw = ground arith

length-dotted :
    (raw label : List ℕ) (n : ℕ)
    → length label ≡ n
    → length ((raw ++ dot raw) ++ label)
      ≡ (if ltb 0 (length raw) then length raw + 1 else length raw) + n
length-dotted raw label n e =
    ground (arith, length-append (raw ++ dot raw) label, length-append raw (dot raw))

-- A label that is not refused is copied, and fits `raw`.
pub copy_label-done :
    (pkt : List ℕ) (pkt_len offset b : ℕ) (raw : List ℕ)
    → pkt_len ≤ length pkt
    → label_refused b pkt_len offset (length raw) ≡ false
    → (longer : List ℕ) × (copy_label pkt offset b raw ≡ done longer)
      × (length longer ≡ (if ltb 0 (length raw) then length raw + 1 else length raw) + b)
      × (length longer < raw_size)
      × (offset + 1 + b ≤ pkt_len)
unfolding copy_label label_refused
copy_label-done pkt pkt_len offset b raw inside ok =
    let (fits, room) =
      accepted (not (bit_and b 0xc0 == 0)) pkt_len (offset + 1 + b) raw_size (length raw + b + 1)
        ok in
    let (label, e, l) = load_range-total pkt (offset + 1) b (omega arith) in
    let total = length-dotted raw label b l in
    (
      (raw ++ dot raw) ++ label,
      rw (
        copy_label,
        raw_append-done raw (dot raw) (omega (arith, length-dot raw)),
        ◌>>=◌,
        e,
        ◌>>=◌,
        raw_append-done (raw ++ dot raw) label
            (omega (arith, length-append raw (dot raw), length-dot raw, l)),
      ),
      total,
      omega (
        arith,
        length-append (raw ++ dot raw) label,
        length-append raw (dot raw),
        length-dot raw,
        l,
      ),
      fits,
    )
  where
    accepted :
        (flag : Bool) (a b c d : ℕ) → (flag || ltb a b || leb c d) ≡ false → (b ≤ a) × (d < c)
    accepted flag a b c d h = ground arith

pub label_refused-bits :
    (b pkt_len offset raw_len : ℕ)
    → label_refused b pkt_len offset raw_len ≡ false
    → not (bit_and b 0xc0 == 0) ≡ false
unfolding label_refused
label_refused-bits b pkt_len offset raw_len h =
    first (not (bit_and b 0xc0 == 0)) (ltb pkt_len (offset + 1 + b))
      (leb raw_size (raw_len + b + 1)) h
  where
    first : (x y z : Bool) → (x || y || z) ≡ false → x ≡ false
    first x y z h = ground arith

qname_loop-Agree :
    (fuel : ℕ) (pkt : List ℕ) (pkt_len offset : ℕ) (raw : List ℕ)
    → pkt_len ≤ length pkt
    → pkt_len - offset < fuel
    → length raw < raw_size
    → Agree offset
        (qname_loop fuel pkt pkt_len offset raw)
        (wire_loop fuel pkt pkt_len offset (length raw))
unfolding qname_loop wire_loop
qname_loop-Agree zero pkt pkt_len offset raw inside enough small = absurd (omega arith)
qname_loop-Agree (suc fuel) pkt pkt_len offset raw inside enough small =
    elim (Bool-cases (ltb offset pkt_len)) [
      | inr e ↦ rw (qname_loop, wire_loop, e) (omega arith, refl, refl, small)
      | inl e ↦
          let lt : offset < pkt_len = ltb→lt offset pkt_len e in
          let (b, eb) = get_elem?_total pkt offset (omega arith) in
          rw (qname_loop, wire_loop, e, load-some pkt offset eb, ◌>>=◌)
            (elim (Bool-cases (b == 0)) [
              | inl z ↦ rw z (omega arith, refl, refl, small)
              | inr nz ↦ elim (Bool-cases (label_refused b pkt_len offset (length raw))) [
                | inl bad ↦ rw (nz, bad) tt
                | inr ok ↦
                    let (longer, copied, l, short, fits) =
                      copy_label-done pkt pkt_len offset b raw inside ok in
                    rw (nz, ok, copied, ◌>>=◌, ← l)
                      (Agree-mono offset (offset + 1 + b) _ _ (omega arith) (
                        qname_loop-Agree fuel pkt pkt_len (offset + 1 + b) longer inside
                          (omega arith) short))
              ]
            ])
    ]

strip_dots-le : (src : List ℕ) (n : ℕ) → strip_dots src n ≤ n
unfolding strip_dots
strip_dots-le src zero = omega arith
strip_dots-le src (suc n) = ground (arith, strip_dots-le src n)

length-take : (xs : List ℕ) (n : ℕ) → n ≤ length xs → length (take n xs) ≡ n
length-take xs zero h = refl
length-take [] (suc n) h = absurd (omega arith)
length-take (x ∷ xs) (suc n) h = ap suc (length-take xs n (omega arith))

-- A normalized name is not empty, fits its buffer, and comes from bytes.
pub domain_normalize-some :
    (cap : ℕ) (raw : List ℕ) {name : List ℕ}
    → domain_normalize cap raw ≡ some name
    → (0 < length name) × (length name < cap) × (0 < length raw)
unfolding domain_normalize
domain_normalize-some cap raw {name} h =
    let n : ℕ = strip_dots raw (length raw) in
    let (positive, fits, same) = tests n cap (map tolower (take n raw)) h in
    let l : length name ≡ n =
      ap (λ (t : List ℕ). length t) (sym same)
      ∙ length-map tolower (take n raw)
      ∙ length-take raw n (strip_dots-le raw (length raw)) in
    (omega arith, omega arith, omega (arith, strip_dots-le raw (length raw)))
  where
    tests :
        (n cap : ℕ) (lower : List ℕ)
        → (if ltb cap 2 || n == 0 || leb cap n then none else some lower) ≡ some name
        → (0 < n) × (n < cap) × (lower ≡ name)
    tests n cap lower h = ground arith

-- What the caller of `dns_extract_qname` may rely on.
abbrev pub Extracts : List ℕ → ℕ → ℕ → ℕ → Option (List ℕ × ℕ) → Type 0
Extracts pkt pkt_len offset cap none = Unit {0}
Extracts pkt pkt_len offset cap (some (name, end)) =
    (0 < length name)
    × (length name < cap)
    × (end ≤ pkt_len)
    × (w : ℕ) × (dns_qname_wire_len pkt pkt_len offset ≡ done (some w))
    × (offset + w + 4 ≡ end)

-- On a packet whose bytes are there, whatever they are, `dns_extract_qname` returns without a read
-- beyond the packet or a write beyond its buffer `raw`. A name that it returns is not empty and fits
-- the caller's buffer, the question ends inside the packet, and `dns_qname_wire_len` accepts the
-- same name, with a wire length that leads to the same end.
pub dns_extract_qname-Extracts :
    (pkt : List ℕ) (pkt_len offset cap : ℕ)
    → pkt_len ≤ length pkt
    → Returns (dns_extract_qname pkt pkt_len offset cap) (Extracts pkt pkt_len offset cap)
unfolding dns_extract_qname dns_qname_wire_len
dns_extract_qname-Extracts pkt pkt_len offset cap inside =
    go (qname_loop (suc pkt_len) pkt pkt_len offset [])
      (wire_loop (suc pkt_len) pkt pkt_len offset 0) refl refl
      (qname_loop-Agree (suc pkt_len) pkt pkt_len offset [] inside (omega arith) (omega arith))
  where
    wire_accepts :
        (at n : ℕ)
        → (leb pkt_len at || ltb pkt_len (at + 1 + 4)) ≡ false
        → 0 < n
        → (leb pkt_len at || n == 0) ≡ false
    wire_accepts at n h pos = ground arith

    inside_end :
        (at : ℕ) → (leb pkt_len at || ltb pkt_len (at + 1 + 4)) ≡ false → at + 1 + 4 ≤ pkt_len
    inside_end at h = ground arith

    named :
        (at : ℕ) (raw : List ℕ) (n : ℕ)
        → offset ≤ at
        → length raw ≡ n
        → wire_loop (suc pkt_len) pkt pkt_len offset 0 ≡ done (some (at, n))
        → (leb pkt_len at || ltb pkt_len (at + 1 + 4)) ≡ false
        → (o : Option (List ℕ)) → domain_normalize cap raw ≡ o
        → Returns
            (elim o as (λ _. Run (Option (List ℕ × ℕ))) [
              | none ↦ done none
              | some name ↦ done (some (name, at + 1 + 4))
            ])
            (Extracts pkt pkt_len offset cap)
    named at raw n after l ey fits none e = tt
    named at raw n after l ey fits (some name) e =
        let (positive, short, raw_positive) = domain_normalize-some cap raw e in
        (
          positive,
          short,
          inside_end at fits,
          at + 1 - offset,
          rw (dns_qname_wire_len, ey, ◌>>=◌, wire_accepts at n fits (omega arith)),
          omega arith,
        )

    go :
        (x : Run (Option (ℕ × List ℕ))) (y : Run (Option (ℕ × ℕ)))
        → qname_loop (suc pkt_len) pkt pkt_len offset [] ≡ x
        → wire_loop (suc pkt_len) pkt pkt_len offset 0 ≡ y
        → Agree offset x y
        → Returns (dns_extract_qname pkt pkt_len offset cap) (Extracts pkt pkt_len offset cap)
    go (done none) (done none) ex ey k = rw (dns_extract_qname, ex, ◌>>=◌) tt
    go (done (some (at, raw))) (done (some (at', n))) ex ey (after, same, l, short) =
        rw (dns_extract_qname, ex, ◌>>=◌)
          (elim (Bool-cases (leb pkt_len at || ltb pkt_len (at + 1 + 4))) [
            | inl cut ↦ rw cut tt
            | inr fits ↦ rw fits (
                named at raw n after l
                  (subst
                    (λ (z : ℕ). wire_loop (suc pkt_len) pkt pkt_len offset 0 ≡ done (some (z, n)))
                    (sym same) ey)
                  fits (domain_normalize cap raw) refl)
          ])
    go _ _ ex ey k = absurd k
