-- ===== src/Reply/Case.antt =====
-- What the two loops over the name do to its letters.
use mathlib.Core.Option
use mathlib.Core.Option.{none-ne-some}
use esp32_ad_blocker_reborn.Common.{
  ℕ, zero, suc, ◌+◌, ◌≤◌, ◌<◌, ◌≡◌, refl, ◌∙◌, sym, ap, subst, arith, Bool, true, false, ◌&&◌,
  Option, some, List, [], ◌∷◌, ◌==◌, ==_iff, ltb, ltb→lt, leb, both_true, bit_and, bit_or, bit_xor,
  agree_below, agree_below_sound, if◌then◌else◌, some_inj, length, length-set, set, get_elem?,
  get_elem?_lt, get_elem?_total, get_elem?-set_self, get_elem?-set_ne, u8, Run, done, ◌>>=◌,
  load-some, store, store-Returns, Returns, Returns-bind, Returns_mono,
}
use esp32_ad_blocker_reborn.Domain.{fold_case}
use esp32_ad_blocker_reborn.Reply.{is_letter, Bits, refill, spend, randomize_loop}

-- Every element is a byte.
pub record IsPacket (pkt : List ℕ) : Type 0 where
  pub bytes : (i x : ℕ) → get_elem? pkt i ≡ some x → x < 256

-- Bytes by a test.
abbrev pub all_bytes : List ℕ → Bool
all_bytes [] = true
all_bytes (x ∷ xs) = ltb x 256 && all_bytes xs

pub IsPacket-all : (pkt : List ℕ) → all_bytes pkt ≡ true → IsPacket pkt
IsPacket-all pkt h = record { bytes = each pkt h }
  where
    each : (xs : List ℕ) → all_bytes xs ≡ true → (i x : ℕ) → get_elem? xs i ≡ some x → x < 256
    each [] h i x at = absurd (none-ne-some _ at)
    each (y ∷ ys) h zero x at =
        omega (arith, ltb→lt y 256 (both_true (ltb y 256) _ h).0, some_inj at)
    each (y ∷ ys) h (suc i) x at = each ys (both_true (ltb y 256) _ h).1 i x at

-- The three facts of the letters, at every byte.
flipped : ℕ → ℕ
flipped c = if is_letter c then u8 (bit_xor c 0x20) else c

lowered : ℕ → ℕ
lowered c = if is_letter c then u8 (bit_or c 0x20) else c

fold_case-flipped : (c : ℕ) → c < 256 → fold_case (flipped c) ≡ fold_case c
unfolding agree_below fold_case flipped is_letter
fold_case-flipped c h = agree_below_sound (λ x. fold_case (flipped x)) fold_case 256 c refl h

lowered_fold : (c : ℕ) → c < 256 → lowered c ≡ fold_case c
unfolding agree_below fold_case lowered is_letter
lowered_fold c h = agree_below_sound lowered fold_case 256 c refl h

pub letter_lowered :
    (c : ℕ) (b : Bool)
    → is_letter c ≡ b
    → c < 256
    → (if b then u8 (bit_or c 0x20) else c) ≡ fold_case c
unfolding lowered
letter_lowered c b e h =
    ap (λ (t : Bool). if t then u8 (bit_or c 0x20) else c) (sym e) ∙ lowered_fold c h

pub fold_case_twice : (c : ℕ) → c < 256 → fold_case (fold_case c) ≡ fold_case c
unfolding agree_below fold_case
fold_case_twice c h = agree_below_sound (λ x. fold_case (fold_case x)) fold_case 256 c refl h

same_letter : (c : ℕ) → is_letter c ≡ true → c < 256 → fold_case (u8 (bit_xor c 0x20)) ≡ fold_case c
unfolding flipped
same_letter c letter h =
    ap (λ (b : Bool). fold_case (if b then u8 (bit_xor c 0x20) else c)) (sym letter)
    ∙ fold_case-flipped c h

-- The same but for the case of letters from `i` on in `n` places.
pub record Recased (i n : ℕ) (xs ys : List ℕ) : Type 0 where
  pub size : length ys ≡ length xs
  pub folded :
      (j : ℕ) → Option.map fold_case (get_elem? ys j) ≡ Option.map fold_case (get_elem? xs j)
  pub outside : (j : ℕ) → (leb i j && ltb j (i + n)) ≡ false → get_elem? ys j ≡ get_elem? xs j
  pub packet : IsPacket ys

pub Recased-refl : (i n : ℕ) (xs : List ℕ) → IsPacket xs → Recased i n xs xs
Recased-refl i n xs p = record {
  size = refl;
  folded = λ j. refl;
  outside = λ j _. refl;
  packet = p;
}

Recased-trans :
    (i n : ℕ) (xs ys zs : List ℕ)
    → Recased i 1 xs ys
    → Recased (i + 1) n ys zs
    → Recased i (suc n) xs zs
Recased-trans i n xs ys zs a b = record {
  size = b.size ∙ a.size;
  folded = λ j. b.folded j ∙ a.folded j;
  outside = λ j h. b.outside j (ground (arith, h)) ∙ a.outside j (ground (arith, h));
  packet = b.packet;
}

-- One letter written.
pub Recased-set :
    (xs : List ℕ) (i c v : ℕ)
    → IsPacket xs
    → get_elem? xs i ≡ some c
    → v < 256
    → fold_case v ≡ fold_case c
    → Recased i 1 xs (set xs i v)
Recased-set xs i c v p at small same = record {
  size = length-set xs i v;
  folded = λ j. folded j (i == j) refl;
  outside = λ j h. get_elem?-set_ne xs i j v (λ e. apart j e h);
  packet = record { bytes = λ j x h. byte j x h (i == j) refl };
}
  where
    placed : get_elem? (set xs i v) i ≡ some v
    placed = get_elem?-set_self xs i v (get_elem?_lt xs i at)

    apart : (j : ℕ) → i ≡ j → (leb i j && ltb j (i + 1)) ≡ false → ⊥
    apart j e h = ground (arith, e, h)

    folded :
        (j : ℕ) (b : Bool)
        → (i == j) ≡ b
        → Option.map fold_case (get_elem? (set xs i v) j) ≡ Option.map fold_case (get_elem? xs j)
    folded j true e =
        subst
          (λ (k : ℕ).
            Option.map fold_case (get_elem? (set xs i v) k) ≡ Option.map fold_case (get_elem? xs k))
          ((==_iff i j).0 e)
          (ap (λ (o : Option ℕ). Option.map fold_case o) placed
            ∙ ap some same
            ∙ sym (ap (λ (o : Option ℕ). Option.map fold_case o) at))
    folded j false e =
        ap (λ (o : Option ℕ). Option.map fold_case o)
          (get_elem?-set_ne xs i j v
            (λ same. (let no_way : true ≡ false = sym ((==_iff i j).1 same) ∙ e in absurd (cc))))

    byte : (j x : ℕ) → get_elem? (set xs i v) j ≡ some x → (b : Bool) → (i == j) ≡ b → x < 256
    byte j x h true e =
        let eq : i ≡ j = (==_iff i j).0 e in
        let here : v ≡ x =
          some_inj (sym placed ∙ ap (λ (k : ℕ). get_elem? (set xs i v) k) eq ∙ h) in
        omega (arith, small, here)
    byte j x h false e = p.bytes j x (
        sym (
          get_elem?-set_ne xs i j v
            (λ same. (let no_way : true ≡ false = sym ((==_iff i j).1 same) ∙ e in absurd (cc))))
        ∙ h)

pub randomize_loop-Recased :
    (random : ℕ → ℕ) (n i : ℕ) (b : Bits) (pkt : List ℕ)
    → IsPacket pkt
    → i + n ≤ length pkt
    → Returns (randomize_loop random n i b pkt) (λ p. Recased i n pkt p)
unfolding randomize_loop
randomize_loop-Recased random zero i b pkt packet h = Recased-refl i 0 pkt packet
randomize_loop-Recased random (suc n) i b pkt packet h =
    let (c, place) = get_elem?_total pkt i (omega arith) in
    rw (load-some pkt i place) (
      at c place (is_letter c) refl
        (λ b p fine enough. randomize_loop-Recased random n (i + 1) b p fine enough))
  where
    Again : Type 0
    Again =
        (b : Bits) (p : List ℕ)
        → IsPacket p
        → i + 1 + n ≤ length p
        → Returns (randomize_loop random n (i + 1) b p) (λ q. Recased (i + 1) n p q)

    after :
        (p : List ℕ) (next : Bits)
        → Recased i 1 pkt p
        → Again
        → Returns (randomize_loop random n (i + 1) next p) (λ q. Recased i (suc n) pkt q)
    after p next one again =
        Returns_mono (randomize_loop random n (i + 1) next p)
          (again next p one.packet (omega (arith, h, one.size)))
          (λ q rest. Recased-trans i n pkt p q one rest)

    toss :
        (c : ℕ)
        → get_elem? pkt i ≡ some c
        → is_letter c ≡ true
        → (keep : Bool)
        → Returns
            (if keep then done pkt else store pkt i (u8 (bit_xor c 0x20)))
            (λ p. Recased i 1 pkt p)
    toss c place letter true = Recased-refl i 1 pkt packet
    toss c place letter false =
        Returns_mono (store pkt i (u8 (bit_xor c 0x20)))
          (store-Returns pkt i (u8 (bit_xor c 0x20)) (omega arith))
          (λ p same.
            subst (λ (t : List ℕ). Recased i 1 pkt t) (sym same)
              (Recased-set pkt i c (u8 (bit_xor c 0x20)) packet place (omega arith)
                (same_letter c letter (packet.bytes i c place))))

    at :
        (c : ℕ)
        → get_elem? pkt i ≡ some c
        → (letter : Bool) → is_letter c ≡ letter
        → Again
        → Returns
            (elim letter as (λ x. Run (List ℕ)) [
              | false ↦ randomize_loop random n (i + 1) b pkt
              | true ↦
                  (if bit_and (refill random b).bits 1 == 0
                    then done pkt
                    else store pkt i (u8 (bit_xor c 0x20)))
                  >>= λ p. randomize_loop random n (i + 1) (spend (refill random b)) p
            ])
            (λ q. Recased i (suc n) pkt q)
    at c place false e again = after pkt b (Recased-refl i 1 pkt packet) again
    at c place true e again =
        Returns-bind _ _ (λ q. Recased i (suc n) pkt q)
          (toss c place e (bit_and (refill random b).bits 1 == 0))
          (λ p one. after p (spend (refill random b)) one again)
