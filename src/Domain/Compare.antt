-- ===== src/Domain/Compare.antt =====
-- `dns_qname_wire_eq`: equal up to the case of ASCII letters.
use esp32_ad_blocker_reborn.Common.{
  ℕ, zero, suc, ◌≤◌, ◌<◌, ◌≡◌, ◌↔◌, refl, ◌∙◌, sym, arith, true, false, List, [], ◌∷◌, map, ◌==◌,
  length, take, Returns, Returns_mono, Bool-cases, inl, inr, ==_iff, agree_below_sound, agree_below,
}
use esp32_ad_blocker_reborn.Domain.{tolower, fold_case, dns_qname_wire_eq}

fold_case-tolower : (x : ℕ) → x < 256 → fold_case x ≡ tolower x
unfolding agree_below fold_case
fold_case-tolower x h = agree_below_sound fold_case tolower 256 x refl h

abbrev pub AreBytes : List ℕ → Type 0
AreBytes [] = Unit {0}
AreBytes (x ∷ xs) = (x < 256) × AreBytes xs

cons_inj : {x y : ℕ} {xs ys : List ℕ} → x ∷ xs ≡ y ∷ ys → (x ≡ y) × (xs ≡ ys)
cons_inj h = (cc, cc)

-- Inside both buffers `dns_qname_wire_eq` returns, and returns true exactly when the first `n` bytes
-- of the two are the same in lower case.
pub dns_qname_wire_eq-tolower :
    (a b : List ℕ) (n : ℕ)
    → AreBytes a
    → AreBytes b
    → n ≤ length a
    → n ≤ length b
    → Returns
        (dns_qname_wire_eq a b n)
        (λ r. (r ≡ true) ↔ (map tolower (take n a) ≡ map tolower (take n b)))
unfolding dns_qname_wire_eq
dns_qname_wire_eq-tolower a b zero p q h k = (λ _. refl, λ _. refl)
dns_qname_wire_eq-tolower [] b (suc n) p q h k = absurd (omega arith)
dns_qname_wire_eq-tolower (x ∷ a) [] (suc n) p q h k = absurd (omega arith)
dns_qname_wire_eq-tolower (x ∷ a) (y ∷ b) (suc n) p q h k =
    let ex = fold_case-tolower x p.0 in
    let ey = fold_case-tolower y q.0 in
    elim (Bool-cases (fold_case x == fold_case y)) [
      | inl e ↦
          let same : tolower x ≡ tolower y =
            sym ex ∙ (==_iff (fold_case x) (fold_case y)).0 e ∙ ey in
          rw (dns_qname_wire_eq, e)
            (Returns_mono (dns_qname_wire_eq a b n)
              (dns_qname_wire_eq-tolower a b n p.1 q.1 (omega arith) (omega arith))
              (λ r both. (λ t. cons_eq same (both.0 t), λ t. both.1 (cons_inj t).1)))
      | inr e ↦
          rw (dns_qname_wire_eq, e)
            (
              λ t. cc,
              λ t. absurd (differ (fold_case x) (fold_case y) e (ex ∙ (cons_inj t).0 ∙ sym ey)),
            )
    ]
  where
    cons_eq : {u v : ℕ} {us vs : List ℕ} → u ≡ v → us ≡ vs → u ∷ us ≡ v ∷ vs
    cons_eq p q = cc

    differ : (u v : ℕ) → (u == v) ≡ false → u ≡ v → ⊥
    differ u v h e = ground arith
