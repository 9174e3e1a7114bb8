-- ===== src/Domain/WireLength.antt =====
-- `dns_qname_wire_len`: a length that it returns lies inside the packet.
use esp32_ad_blocker_reborn.Common.{
  ℕ, zero, suc, ◌+◌, ◌-◌, ◌≤◌, ◌<◌, ◌≡◌, refl, ap, arith, Bool, true, false, ◌||◌, Option, none,
  some, List, ◌==◌, leb, ltb, ltb→lt, if◌then◌else◌, length, get_elem?_total, load-some, Returns,
  Returns-bind, Run, done, ◌>>=◌, >>=-eq-done, load, some_inj,
}
use esp32_ad_blocker_reborn.Domain.{label_refused, wire_loop, dns_qname_wire_len}

done_inj : {A : Type 0} {x y : A} → done x ≡ done y → x ≡ y
done_inj h = cc

-- The loop never goes back.
wire_loop_le :
    (fuel : ℕ) (pkt : List ℕ) (len offset raw at raw' : ℕ)
    → wire_loop fuel pkt len offset raw ≡ done (some (at, raw'))
    → offset ≤ at
unfolding wire_loop
wire_loop_le zero pkt len offset raw at raw' h = absurd (cc)
wire_loop_le (suc fuel) pkt len offset raw at raw' h =
    on (ltb offset len) h (λ o r k. wire_loop_le fuel pkt len o r at raw' k)
  where
    Again : Type 0
    Again = (o r : ℕ) → wire_loop fuel pkt len o r ≡ done (some (at, raw')) → o ≤ at

    stop :
        ◌≡◌ {A = Run (Option (ℕ × ℕ))} (done (some (offset, raw))) (done (some (at, raw')))
        → offset ≤ at
    stop h =
        let e : offset ≡ at = ap (λ (p : ℕ × ℕ). p.0) (some_inj (done_inj h)) in omega (arith, e)

    label :
        (b : Bool) (n r : ℕ)
        → elim b as (λ x. Run (Option (ℕ × ℕ))) [
          | true ↦ done none
          | false ↦ wire_loop fuel pkt len (offset + 1 + n) r
        ]
          ≡ done (some (at, raw'))
        → Again
        → offset ≤ at
    label true n r h again = absurd (cc)
    label false n r h again = omega (arith, again (offset + 1 + n) r h)

    root :
        (b : Bool) (n : ℕ)
        → elim b as (λ x. Run (Option (ℕ × ℕ))) [
          | true ↦ done (some (offset, raw))
          | false ↦ elim (label_refused n len offset raw) as (λ x. Run (Option (ℕ × ℕ))) [
            | true ↦ done none
            | false ↦
                wire_loop fuel pkt len (offset + 1 + n) ((if ltb 0 raw then raw + 1 else raw) + n)
          ]
        ]
          ≡ done (some (at, raw'))
        → Again
        → offset ≤ at
    root true n h again = stop h
    root false n h again =
        label (label_refused n len offset raw) n ((if ltb 0 raw then raw + 1 else raw) + n) h again

    on :
        (b : Bool)
        → elim b as (λ x. Run (Option (ℕ × ℕ))) [
          | false ↦ done (some (offset, raw))
          | true ↦ load pkt offset >>= λ n. elim (n == 0) as (λ x. Run (Option (ℕ × ℕ))) [
            | true ↦ done (some (offset, raw))
            | false ↦ elim (label_refused n len offset raw) as (λ x. Run (Option (ℕ × ℕ))) [
              | true ↦ done none
              | false ↦
                  wire_loop fuel pkt len (offset + 1 + n) ((if ltb 0 raw then raw + 1 else raw) + n)
            ]
          ]
        ]
          ≡ done (some (at, raw'))
        → Again
        → offset ≤ at
    on false h again = stop h
    on true h again = let (n, _, k) = >>=-eq-done (load pkt offset) _ h in root (n == 0) n k again

pub dns_qname_wire_len_inside :
    (pkt : List ℕ) (len offset w : ℕ)
    → dns_qname_wire_len pkt len offset ≡ done (some w)
    → offset + w ≤ len
unfolding dns_qname_wire_len
dns_qname_wire_len_inside pkt len offset w h =
    let (o, e, k) = >>=-eq-done (wire_loop (suc len) pkt len offset 0) _ h in on o e k
  where
    final :
        (at raw : ℕ)
        → offset ≤ at
        → (b : Bool) → (leb len at || raw == 0) ≡ b
        → (if b then done none else done (some (at + 1 - offset))) ≡ done (some w)
        → offset + w ≤ len
    final at raw le true e h = absurd (cc)
    final at raw le false e h =
        let same : at + 1 - offset ≡ w = some_inj (done_inj h) in
        let inside : leb len at ≡ false = left (leb len at) (raw == 0) e in
        ground (arith, same, inside)
      where
        left : (a b : Bool) → (a || b) ≡ false → a ≡ false
        left true b h = absurd (cc)
        left false b h = refl

    on :
        (o : Option (ℕ × ℕ))
        → wire_loop (suc len) pkt len offset 0 ≡ done o
        → elim o as (λ x. Run (Option ℕ)) [
          | none ↦ done none
          | some (at, raw) ↦
              if leb len at || raw == 0 then done none else done (some (at + 1 - offset))
        ]
          ≡ done (some w)
        → offset + w ≤ len
    on none e h = absurd (cc)
    on (some (at, raw)) e h =
        final at raw (wire_loop_le (suc len) pkt len offset 0 at raw e) (leb len at || raw == 0)
          refl h

-- Inside the packet the loop ends.
wire_loop_returns :
    (fuel : ℕ) (pkt : List ℕ) (len offset raw : ℕ)
    → len ≤ length pkt
    → len < offset + fuel
    → 0 < fuel
    → Returns (wire_loop fuel pkt len offset raw) (λ r. Unit)
unfolding wire_loop
wire_loop_returns zero pkt len offset raw inside room more = absurd (omega (arith, more))
wire_loop_returns (suc fuel) pkt len offset raw inside room more =
    on (ltb offset len) refl (λ o r k m. wire_loop_returns fuel pkt len o r inside k m)
  where
    Again : Type 0
    Again = (o r : ℕ) → len < o + fuel → 0 < fuel → Returns (wire_loop fuel pkt len o r) (λ r. Unit)

    on :
        (b : Bool)
        → ltb offset len ≡ b
        → Again
        → Returns
            (elim b as (λ x. Run (Option (ℕ × ℕ))) [
              | false ↦ done (some (offset, raw))
              | true ↦ load pkt offset >>= λ n. elim (n == 0) as (λ x. Run (Option (ℕ × ℕ))) [
                | true ↦ done (some (offset, raw))
                | false ↦ elim (label_refused n len offset raw) as (λ x. Run (Option (ℕ × ℕ))) [
                  | true ↦ done none
                  | false ↦
                      wire_loop fuel pkt len
                        (offset + 1 + n)
                        ((if ltb 0 raw then raw + 1 else raw) + n)
                ]
              ]
            ])
            (λ r. Unit)
    on false e again = tt
    on true e again =
        let (n, at) = get_elem?_total pkt offset (omega (arith, ltb→lt offset len e, inside)) in
        rw (load-some pkt offset at) (root n (n == 0) again)
      where
        label :
            (n r : ℕ) (b : Bool)
            → Again
            → Returns
                (elim b as (λ x. Run (Option (ℕ × ℕ))) [
                  | true ↦ done none
                  | false ↦ wire_loop fuel pkt len (offset + 1 + n) r
                ])
                (λ r. Unit)
        label n r true again = tt
        label n r false again =
            again (offset + 1 + n) r (omega (arith, room))
              (omega (arith, room, ltb→lt offset len e))

        root :
            (n : ℕ) (b : Bool)
            → Again
            → Returns
                (elim b as (λ x. Run (Option (ℕ × ℕ))) [
                  | true ↦ done (some (offset, raw))
                  | false ↦ elim (label_refused n len offset raw) as (λ x. Run (Option (ℕ × ℕ))) [
                    | true ↦ done none
                    | false ↦
                        wire_loop fuel pkt len
                          (offset + 1 + n)
                          ((if ltb 0 raw then raw + 1 else raw) + n)
                  ]
                ])
                (λ r. Unit)
        root n true again = tt
        root n false again =
            label n ((if ltb 0 raw then raw + 1 else raw) + n) (label_refused n len offset raw)
              again

pub dns_qname_wire_len-returns :
    (pkt : List ℕ) (offset : ℕ) → Returns (dns_qname_wire_len pkt (length pkt) offset) (λ r. Unit)
unfolding dns_qname_wire_len
dns_qname_wire_len-returns pkt offset =
    Returns-bind (wire_loop (suc (length pkt)) pkt (length pkt) offset 0) _ (λ r. Unit)
      (wire_loop_returns (suc (length pkt)) pkt (length pkt) offset 0 (omega arith) (omega arith)
        (omega arith))
      (λ o _. ended o)
  where
    ended :
        (o : Option (ℕ × ℕ))
        → Returns
            (elim o as (λ x. Run (Option ℕ)) [
              | none ↦ done none
              | some (at, raw) ↦
                  if leb (length pkt) at || raw == 0
                  then done none
                  else done (some (at + 1 - offset))
            ])
            (λ r. Unit)
    ended none = tt
    ended (some (at, raw)) = chosen (leb (length pkt) at || raw == 0)
      where
        chosen :
            (b : Bool)
            → Returns (if b then done none else done (some (at + 1 - offset))) (λ r. Unit)
        chosen true = tt
        chosen false = tt
