-- ===== src/Reply/Normal.antt =====
-- The name folded back: what is left of the random case.
use mathlib.Core.Option
use mathlib.Core.Option.{none-ne-some}
use esp32_ad_blocker_reborn.Common.{
  ℕ, zero, suc, ◌+◌, ◌-◌, ◌≤◌, ◌<◌, ◌≡◌, ◌≢◌, refl, ◌∙◌, sym, ap, subst, arith, Bool, true, false,
  ◌&&◌, Option, some, List, [], ◌∷◌, ◌==◌, ==_iff, ltb, leb, bit_or, some_inj, length, get_elem?,
  get_elem?_lt, get_elem?_total, get_elem?-set_self, get_elem?-set_ne, u8, Run, done, ◌>>=◌,
  load-some, store, store-Returns, Returns, Returns-bind, Returns_mono,
}
use esp32_ad_blocker_reborn.Domain.{fold_case}
use esp32_ad_blocker_reborn.Reply.{
  is_letter, Bits, randomize_loop, randomize_qname_case, normalize_loop, normalize_qname_case,
}
use esp32_ad_blocker_reborn.Reply.Case.{
  IsPacket, letter_lowered, Recased, Recased-set, randomize_loop-Recased, fold_case_twice,
}

list_ext : (xs ys : List ℕ) → ((j : ℕ) → get_elem? xs j ≡ get_elem? ys j) → xs ≡ ys
list_ext [] [] h = refl
list_ext [] (y ∷ ys) h = absurd (none-ne-some _ (h 0))
list_ext (x ∷ xs) [] h = absurd (none-ne-some _ (sym (h 0)))
list_ext (x ∷ xs) (y ∷ ys) h =
    let head : x ≡ y = some_inj (h 0) in
    rw (head) (ap (λ (t : List ℕ). y ∷ t) (list_ext xs ys (λ j. h (suc j))))

-- In lower case from `i` on in `n` places, and the same elsewhere.
pub record Lowercased (i n : ℕ) (xs ys : List ℕ) : Type 0 where
  pub inside :
      (j : ℕ)
      → (leb i j && ltb j (i + n)) ≡ true
      → get_elem? ys j ≡ Option.map fold_case (get_elem? xs j)
  pub outside : (j : ℕ) → (leb i j && ltb j (i + n)) ≡ false → get_elem? ys j ≡ get_elem? xs j

-- The step to the next byte.
Lowercased-cons :
    (i n : ℕ) (xs ys zs : List ℕ)
    → ((j : ℕ) → i ≢ j → get_elem? ys j ≡ get_elem? xs j)
    → get_elem? ys i ≡ Option.map fold_case (get_elem? xs i)
    → Lowercased (i + 1) n ys zs
    → Lowercased i (suc n) xs zs
Lowercased-cons i n xs ys zs apart here rest = record {
  inside = λ j h. inside j h (i == j) refl;
  outside = λ j h. rest.outside j (ground (arith, h)) ∙ apart j (λ e. out j e h);
}
  where
    out : (j : ℕ) → i ≡ j → (leb i j && ltb j (i + suc n)) ≡ false → ⊥
    out j e h = ground (arith, e, h)

    inside :
        (j : ℕ)
        → (leb i j && ltb j (i + suc n)) ≡ true
        → (b : Bool) → (i == j) ≡ b
        → get_elem? zs j ≡ Option.map fold_case (get_elem? xs j)
    inside j h true e =
        let eq : i ≡ j = (==_iff i j).0 e in
        let below : (leb (i + 1) i && ltb i (i + 1 + n)) ≡ false = ground arith in
        subst (λ (k : ℕ). get_elem? zs k ≡ Option.map fold_case (get_elem? xs k)) eq
          (rest.outside i below ∙ here)
    inside j h false e =
        let ne : i ≢ j =
          (λ same. (let wrong : true ≡ false = sym ((==_iff i j).1 same) ∙ e in absurd (cc))) in
        let above : (leb (i + 1) j && ltb j (i + 1 + n)) ≡ true = ground (arith, h, ne) in
        rest.inside j above ∙ ap (λ (o : Option ℕ). Option.map fold_case o) (apart j ne)

normalize_loop-Lowercased :
    (n i : ℕ) (pkt : List ℕ)
    → IsPacket pkt
    → i + n ≤ length pkt
    → Returns (normalize_loop n i pkt) (λ p. Lowercased i n pkt p)
unfolding normalize_loop
normalize_loop-Lowercased zero i pkt packet h = record {
  inside = λ j h. absurd (empty j h);
  outside = λ j _. refl;
}
  where
    empty : (j : ℕ) → (leb i j && ltb j (i + 0)) ≡ true → ⊥
    empty j h = ground (arith, h)
normalize_loop-Lowercased (suc n) i pkt packet h =
    let (c, place) = get_elem?_total pkt i (omega arith) in
    rw (load-some pkt i place) (
      at c place (is_letter c) refl
        (λ p fine enough. normalize_loop-Lowercased n (i + 1) p fine enough))
  where
    Again : Type 0
    Again =
        (p : List ℕ)
        → IsPacket p
        → i + 1 + n ≤ length p
        → Returns (normalize_loop n (i + 1) p) (λ q. Lowercased (i + 1) n p q)

    own :
        (c v : ℕ)
        → get_elem? pkt i ≡ some c
        → v ≡ fold_case c
        → some v ≡ Option.map fold_case (get_elem? pkt i)
    own c v place e = ap some e ∙ sym (ap (λ (o : Option ℕ). Option.map fold_case o) place)

    at :
        (c : ℕ)
        → get_elem? pkt i ≡ some c
        → (letter : Bool) → is_letter c ≡ letter
        → Again
        → Returns
            (elim letter as (λ x. Run (List ℕ)) [
              | false ↦ normalize_loop n (i + 1) pkt
              | true ↦ store pkt i (u8 (bit_or c 0x20)) >>= λ p. normalize_loop n (i + 1) p
            ])
            (λ q. Lowercased i (suc n) pkt q)
    at c place false e again =
        let stays : c ≡ fold_case c = letter_lowered c false e (packet.bytes i c place) in
        Returns_mono (normalize_loop n (i + 1) pkt) (again pkt packet (omega arith))
          (λ q rest. Lowercased-cons i n pkt pkt q (λ j _. refl) (place ∙ own c c place stays) rest)
    at c place true e again =
        let low : u8 (bit_or c 0x20) ≡ fold_case c =
          letter_lowered c true e (packet.bytes i c place) in
        let small : u8 (bit_or c 0x20) < 256 = omega arith in
        Returns-bind (store pkt i (u8 (bit_or c 0x20))) (λ p. normalize_loop n (i + 1) p)
          (λ q. Lowercased i (suc n) pkt q) (store-Returns pkt i (u8 (bit_or c 0x20)) (omega arith))
          (λ p same.
            let set_one : Recased i 1 pkt p =
              subst (λ (t : List ℕ). Recased i 1 pkt t) (sym same)
                (Recased-set pkt i c (u8 (bit_or c 0x20)) packet place small
                  (ap fold_case low ∙ fold_case_twice c (packet.bytes i c place))) in
            Returns_mono (normalize_loop n (i + 1) p)
              (again p set_one.packet (omega (arith, h, set_one.size)))
              (λ q rest.
                Lowercased-cons i n pkt p q
                  (λ j ne.
                    ap (λ (t : List ℕ). get_elem? t j) same
                    ∙ get_elem?-set_ne pkt i j (u8 (bit_or c 0x20)) ne)
                  (ap (λ (t : List ℕ). get_elem? t i) same
                    ∙ get_elem?-set_self pkt i (u8 (bit_or c 0x20)) (get_elem?_lt pkt i place)
                    ∙ own c (u8 (bit_or c 0x20)) place low)
                  rest))

-- Folding back gives the same packet, whatever the case was.
Lowercased-same :
    (i n : ℕ) (xs ys back plain : List ℕ)
    → Recased i n xs ys
    → Lowercased i n ys back
    → Lowercased i n xs plain
    → back ≡ plain
Lowercased-same i n xs ys back plain r b p =
    list_ext back plain (λ j. at j (leb i j && ltb j (i + n)) refl)
  where
    at : (j : ℕ) (t : Bool) → (leb i j && ltb j (i + n)) ≡ t → get_elem? back j ≡ get_elem? plain j
    at j true h = b.inside j h ∙ r.folded j ∙ sym (p.inside j h)
    at j false h = b.outside j h ∙ r.outside j h ∙ sym (p.outside j h)

-- A question that ends at `qend`, in a packet of bytes. Randomizing changes nothing but the case of
-- letters of the name, whatever the random numbers are; normalizing what was sent gives the same
-- packet as normalizing the question itself, and that is the question with the name in lower case.
-- Neither reads or writes out of bounds.
pub normalize_qname_case-randomize_qname_case :
    (random : ℕ → ℕ) (qend : ℕ) (pkt : List ℕ)
    → IsPacket pkt
    → 12 ≤ length pkt
    → qend ≤ length pkt
    → Returns
        (randomize_qname_case random qend pkt >>= λ sent. normalize_qname_case qend sent >>= λ back.
          normalize_qname_case qend pkt >>= λ plain. done (sent, back, plain))
        (λ (sent, back, plain).
          Recased 12 (qend - 16) pkt sent × ((back ≡ plain) × Lowercased 12 (qend - 16) pkt plain))
unfolding randomize_qname_case normalize_qname_case
normalize_qname_case-randomize_qname_case random qend pkt packet header inside =
    Returns-bind (randomize_loop random (qend - 16) 12 none_left pkt) _ _
      (randomize_loop-Recased random (qend - 16) 12 none_left pkt packet (omega arith))
      (λ sent r.
        Returns-bind (normalize_loop (qend - 16) 12 sent) _ _
          (normalize_loop-Lowercased (qend - 16) 12 sent r.packet
            (omega (arith, r.size, header, inside)))
          (λ back b.
            Returns-bind (normalize_loop (qend - 16) 12 pkt) _ _
              (normalize_loop-Lowercased (qend - 16) 12 pkt packet (omega arith))
              (λ plain p. (r, (Lowercased-same 12 (qend - 16) pkt sent back plain r b p, p)))))
  where
    none_left : Bits
    none_left = record { bits = 0; n_bits = 0; next = 0 }
