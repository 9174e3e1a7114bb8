-- ===== src/Wire/Decompress.antt =====
-- `dns_decompress_name`: it ends on every packet, and moves the offset as `dns_skip_name` does.
use esp32_ad_blocker_reborn.Common.{
  ℕ, zero, suc, ◌+◌, ◌*◌, ◌-◌, ◌≤◌, ◌<◌, ◌≡◌, refl, sym, ap, ◌∙◌, arith, Bool, true, false, ◌||◌,
  Option, none, some, List, [], ◌==◌, ltb, leb, if◌then◌else◌, length, get_elem?_total, Run, done,
  ◌>>=◌, load-some, Bool-cases, inl, inr, ltb→lt, Returns, Returns_mono,
}
use esp32_ad_blocker_reborn.Domain.{label_refused, domain_normalize, raw_size}
use esp32_ad_blocker_reborn.Domain.Question.{
  copy_label-done, domain_normalize-some, label_refused-bits,
}
use esp32_ad_blocker_reborn.Wire.{
  is_pointer, has_type_bits, dns_skip_name, pointer_target, finish_name, decompress_loop,
  dns_decompress_name,
}
use esp32_ad_blocker_reborn.Wire.Skip.{
  dns_skip_name-end, dns_skip_name-pointer, dns_skip_name-label,
}

-- Where the caller's offset goes: it has moved already, or it goes where the skip goes.
abbrev pub Moves : List ℕ → ℕ → ℕ → Bool → ℕ → ℕ → Type 0
Moves pkt len read_off true off end = end ≡ off
Moves pkt len read_off false off end = dns_skip_name pkt len read_off ≡ done (true, end)

abbrev pub Decoded : List ℕ → ℕ → ℕ → ℕ → Bool → ℕ → Option (List ℕ) × ℕ → Type 0
Decoded pkt len cap read_off advanced off (none, end) = Unit {0}
Decoded pkt len cap read_off advanced off (some name, end) =
    (0 < length name) × (length name < cap) × Moves pkt len read_off advanced off end

Decoded-move :
    (pkt : List ℕ) (len cap r r' : ℕ) (a a' : Bool) (off off' : ℕ) (x : Option (List ℕ) × ℕ)
    → ((end : ℕ) → Moves pkt len r' a' off' end → Moves pkt len r a off end)
    → Decoded pkt len cap r' a' off' x
    → Decoded pkt len cap r a off x
Decoded-move pkt len cap r r' a a' off off' (none, end) f h = tt
Decoded-move pkt len cap r r' a a' off off' (some name, end) f h = (h.0, h.1, f end h.2)

finish_name-Decoded :
    (pkt : List ℕ) (len cap r : ℕ) (raw : List ℕ) (a : Bool) (off : ℕ)
    → dns_skip_name pkt len r ≡ done (true, r + 1)
    → Decoded pkt len cap r a off (finish_name cap r raw a off)
unfolding finish_name
finish_name-Decoded pkt len cap r raw a off skip = go (domain_normalize cap raw) refl
  where
    moved : (a : Bool) → Moves pkt len r a off (if a then off else r + 1)
    moved true = refl
    moved false = skip

    go :
        (o : Option (List ℕ))
        → domain_normalize cap raw ≡ o
        → Decoded pkt len cap r a off (o, if a then off else r + 1)
    go none e = tt
    go (some name) e =
        let (pos, short, _) = domain_normalize-some cap raw e in (pos, short, moved a)

-- Past a label the skip goes on to the same end.
Decoded-step :
    (pkt : List ℕ) (len cap r r' : ℕ) (a : Bool) (off : ℕ)
    → dns_skip_name pkt len r ≡ dns_skip_name pkt len r'
    → (x : Option (List ℕ) × ℕ) → Decoded pkt len cap r' a off x
    → Decoded pkt len cap r a off x
Decoded-step pkt len cap r r' a off e x = Decoded-move pkt len cap r r' a a off off x (moved a)
  where
    moved : (a : Bool) (end : ℕ) → Moves pkt len r' a off end → Moves pkt len r a off end
    moved true end h = h
    moved false end h = e ∙ h

-- A pointer ends the skip, and the first one moves the caller's offset.
Decoded-jump :
    (pkt : List ℕ) (len cap r r' : ℕ) (a : Bool) (off : ℕ)
    → dns_skip_name pkt len r ≡ done (true, r + 2)
    → (run : Run (Option (List ℕ) × ℕ))
    → Returns run (Decoded pkt len cap r' true (if a then off else r + 2))
    → Returns run (Decoded pkt len cap r a off)
Decoded-jump pkt len cap r r' a off skip run h =
    Returns_mono run h
      (λ x. Decoded-move pkt len cap r r' a true off (if a then off else r + 2) x (moved a))
  where
    moved : (a : Bool) (end : ℕ) → end ≡ (if a then off else r + 2) → Moves pkt len r a off end
    moved true end e = e
    moved false end e = skip ∙ ap (λ (t : ℕ). done (true, t)) (sym e)

room : (pkt : List ℕ) (len r : ℕ) → len ≤ length pkt → leb len (r + 1) ≡ false → r + 1 < length pkt
room pkt len r h c = ground arith

jump_allowed :
    (r target jumps : ℕ)
    → (leb r target || ltb 20 (jumps + 1)) ≡ false
    → (target < r) × (jumps + 1 ≤ 20)
jump_allowed r target jumps h = ground arith

typeless : (b len r raw_len : ℕ) → label_refused b len r raw_len ≡ false → has_type_bits b ≡ false
unfolding has_type_bits
typeless b len r raw_len h = label_refused-bits b len r raw_len h

decompress_loop-Decoded :
    (fuel : ℕ) (pkt : List ℕ) (len cap r : ℕ) (raw : List ℕ) (a : Bool) (off k jumps : ℕ)
    → len ≤ length pkt
    → length raw < raw_size
    → k + jumps ≡ 20
    → k * (len + 1) + (len - r) < fuel
    → Returns (decompress_loop fuel pkt len cap r raw a off jumps) (Decoded pkt len cap r a off)
unfolding decompress_loop
decompress_loop-Decoded zero pkt len cap r raw a off k jumps inside short left enough =
    absurd (omega arith)
decompress_loop-Decoded (suc fuel) pkt len cap r raw a off k jumps inside short left enough =
    elim (Bool-cases (ltb r len)) [
      | inr e ↦ rw (decompress_loop, e) tt
      | inl e ↦
          let lt : r < len = ltb→lt r len e in
          let (b, eb) = get_elem?_total pkt r (omega arith) in
          rw (decompress_loop, e, load-some pkt r eb, ◌>>=◌)
            (elim (Bool-cases (b == 0)) [
              | inl z ↦ rw z (
                  finish_name-Decoded pkt len cap r raw a off
                    (dns_skip_name-end pkt len r b inside lt eb z))
              | inr nz ↦ elim (Bool-cases (is_pointer b)) [
                | inl p ↦
                    rw (nz, p)
                      (elim (Bool-cases (leb len (r + 1))) [
                        | inl c ↦ rw c tt
                        | inr c ↦
                            let (low, el) = get_elem?_total pkt (r + 1) (room pkt len r inside c) in
                            let skip : dns_skip_name pkt len r ≡ done (true, r + 2) =
                              dns_skip_name-pointer pkt len r b inside lt eb nz p c in
                            rw (c, load-some pkt (r + 1) el, ◌>>=◌)
                              (elim (Bool-cases
                                (leb r (pointer_target b low) || ltb 20 (jumps + 1))) [
                                  | inl bad ↦ rw bad tt
                                  | inr ok ↦
                                      let (back, more) =
                                        jump_allowed r (pointer_target b low) jumps ok in
                                      let fewer : k * (len + 1) ≡ suc (k - 1) * (len + 1) =
                                        ap (λ (t : ℕ). t * (len + 1)) (omega arith) in
                                      rw ok (
                                        Decoded-jump pkt len cap r (pointer_target b low) a off skip
                                          (decompress_loop fuel pkt len cap (pointer_target b low)
                                            raw true (if a then off else r + 2) (jumps + 1))
                                          (decompress_loop-Decoded fuel pkt len cap
                                            (pointer_target b low) raw true
                                            (if a then off else r + 2) (k - 1) (jumps + 1) inside
                                            short (omega arith) (omega arith)))
                                ])
                      ])
                | inr np ↦
                    rw (nz, np)
                      (elim (Bool-cases (label_refused b len r (length raw))) [
                        | inl bad ↦ rw bad tt
                        | inr ok ↦
                            let (longer, copied, _, short', fits) =
                              copy_label-done pkt len r b raw inside ok in
                            let skip : dns_skip_name pkt len r ≡ dns_skip_name pkt len (r + 1 + b) =
                              dns_skip_name-label pkt len r b inside lt eb nz np
                                (typeless b len r (length raw) ok) in
                            rw (ok, copied, ◌>>=◌)
                              (Returns_mono
                                (decompress_loop fuel pkt len cap (r + 1 + b) longer a off jumps)
                                (decompress_loop-Decoded fuel pkt len cap (r + 1 + b) longer a off k
                                  jumps inside short' left (omega arith))
                                (Decoded-step pkt len cap r (r + 1 + b) a off skip))
                      ])
              ]
            ])
    ]

-- On a packet whose bytes are there, whatever they are, `dns_decompress_name` returns, within its
-- 20 jumps and without a read beyond the packet or a write beyond its buffer. A name that it returns
-- is not empty and fits the caller's buffer, and the offset is then left where `dns_skip_name` from
-- the same place leaves it, however many pointers were followed.
pub dns_decompress_name-Decoded :
    (pkt : List ℕ) (len off cap : ℕ)
    → len ≤ length pkt
    → Returns (dns_decompress_name pkt len off cap) (Decoded pkt len cap off false off)
unfolding dns_decompress_name
dns_decompress_name-Decoded pkt len off cap inside =
    decompress_loop-Decoded (21 * (len + 1)) pkt len cap off [] false off 20 0 inside (omega arith)
      (omega arith) (omega arith)
