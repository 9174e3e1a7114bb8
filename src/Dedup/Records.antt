-- ===== src/Dedup/Records.antt =====
-- Dropping equal neighbours in place agrees with dropping them from a list.
use esp32_ad_blocker_reborn.Common.{
  ℕ, zero, suc, ◌+◌, ◌-◌, ◌≤◌, ◌<◌, ◌≡◌, refl, ◌∙◌, sym, ap, ap₂, subst, arith, Bool, true, false,
  some, List, [], ◌∷◌, ◌++◌, append_assoc, append-nil, if◌then◌else◌, length, length-set, set,
  get_elem?, get_elem?_total, get_elem?-set_self, take, drop, drop-at, eq_bytes, Run, done,
  load-some, Returns,
}
use esp32_ad_blocker_reborn.Dedup.{dedup_loop, bl_dedup_records}

module _ {ℓ} {A : Type ℓ} where
  pub take-set_before : (xs : List A) (i j : ℕ) (v : A) → i ≤ j → take i (set xs j v) ≡ take i xs
  take-set_before xs zero j v h = refl
  take-set_before [] (suc i) j v h = refl
  take-set_before (x ∷ xs) (suc i) zero v h = absurd (omega arith)
  take-set_before (x ∷ xs) (suc i) (suc j) v h =
      ap (λ (t : List A). x ∷ t) (take-set_before xs i j v (omega arith))

  pub drop-set_behind : (xs : List A) (i j : ℕ) (v : A) → j < i → drop i (set xs j v) ≡ drop i xs
  drop-set_behind xs zero j v h = absurd (omega arith)
  drop-set_behind [] (suc i) j v h = refl
  drop-set_behind (x ∷ xs) (suc i) zero v h = refl
  drop-set_behind (x ∷ xs) (suc i) (suc j) v h = drop-set_behind xs i j v (omega arith)

  pub take-suc :
      (xs : List A) (i : ℕ) (v : A)
      → get_elem? xs i ≡ some v
      → take (suc i) xs ≡ take i xs ++ (v ∷ [])
  take-suc [] i v h = absurd (cc)
  take-suc (x ∷ xs) zero v h = cc
  take-suc (x ∷ xs) (suc i) v h = ap (λ (t : List A). x ∷ t) (take-suc xs i v h)

  pub drop-all : (n : ℕ) (xs : List A) → length xs ≤ n → drop n xs ≡ []
  drop-all zero [] h = refl
  drop-all zero (x ∷ xs) h = absurd (omega arith)
  drop-all (suc n) [] h = refl
  drop-all (suc n) (x ∷ xs) h = drop-all n xs (omega arith)

-- The records behind `last`, without those that are the same as the one before.
pub unique_from : List ℕ → List (List ℕ) → List (List ℕ)
unique_from last [] = []
unique_from last (x ∷ xs) = elim (eq_bytes x last) [
  | true ↦ unique_from last xs
  | false ↦ x ∷ unique_from x xs
]

-- The array has the records `kept` at its start, and its length is as before.
abbrev pub Left {ℓ} : {A : Type ℓ} → ℕ → List A → List A × ℕ → Type ℓ
Left n kept (after, u) = (take u after ≡ kept) × (length after ≡ n)

dedup_loop_step :
    (left i u : ℕ) (recs : List (List ℕ)) (cur last : List ℕ) (same : Bool)
    → get_elem? recs i ≡ some cur
    → get_elem? recs (u - 1) ≡ some last
    → eq_bytes cur last ≡ same
    → dedup_loop (suc left) i u recs
      ≡ dedup_loop left (i + 1) (if same then u else u + 1) (if same then recs else set recs u cur)
unfolding dedup_loop
dedup_loop_step left i u recs cur last same a b e =
    rw (load-some recs i a, load-some recs (u - 1) b, e) refl

unique_from-cons :
    (last cur : List ℕ) (xs : List (List ℕ)) (same : Bool)
    → eq_bytes cur last ≡ same
    → unique_from last (cur ∷ xs) ≡ elim same as (λ x. List (List ℕ)) [
      | true ↦ unique_from last xs
      | false ↦ cur ∷ unique_from cur xs
    ]
unfolding unique_from
unique_from-cons last cur xs same e = rw (unique_from, e) refl

dedup_loop_zero : (i u : ℕ) (recs : List (List ℕ)) → dedup_loop 0 i u recs ≡ done (recs, u)
unfolding dedup_loop
dedup_loop_zero i u recs = refl

dedup_loop_lem :
    (n left i u : ℕ) (recs : List (List ℕ)) (last : List ℕ)
    → length recs ≡ n
    → n ≡ i + left
    → 0 < u
    → u ≤ i
    → get_elem? recs (u - 1) ≡ some last
    → Returns (dedup_loop left i u recs) (Left n (take u recs ++ unique_from last (drop i recs)))
unfolding unique_from
dedup_loop_lem n zero i u recs last size count pos le at =
    rw (dedup_loop_zero i u recs) (rest (drop i recs) (drop-all i recs (omega arith)), size)
  where
    rest : (ds : List (List ℕ)) → ds ≡ [] → take u recs ≡ take u recs ++ unique_from last ds
    rest ds e =
        sym (append-nil (take u recs))
        ∙ ap (λ (t : List (List ℕ)). take u recs ++ unique_from last t) (sym e)
dedup_loop_lem n (suc left) i u recs last size count pos le at =
    step (get_elem?_total recs i (omega arith)).0 (get_elem?_total recs i (omega arith)).1
      (λ u' recs' last' a b c d. dedup_loop_lem n left (i + 1) u' recs' last' a (omega arith) b c d)
  where
    Again : Type 0
    Again =
        (u' : ℕ) (recs' : List (List ℕ)) (last' : List ℕ)
        → length recs' ≡ n
        → 0 < u'
        → u' ≤ i + 1
        → get_elem? recs' (u' - 1) ≡ some last'
        → Returns (dedup_loop left (i + 1) u' recs')
            (Left n (take u' recs' ++ unique_from last' (drop (i + 1) recs')))

    Goal : Type 0
    Goal =
        Returns (dedup_loop (suc left) i u recs)
          (Left n (take u recs ++ unique_from last (drop i recs)))

    next : i + 1 ≡ suc i
    next = omega arith

    up : u + 1 ≡ suc u
    up = omega arith

    back : u + 1 - 1 ≡ u
    back = omega arith

    by :
        (r : Run (List (List ℕ) × ℕ)) (kept : List (List ℕ))
        → dedup_loop (suc left) i u recs ≡ r
        → kept ≡ take u recs ++ unique_from last (drop i recs)
        → Returns r (Left n kept)
        → Goal
    by r kept p q h =
        subst
          (λ (r : Run (List (List ℕ) × ℕ)).
            Returns r (Left n (take u recs ++ unique_from last (drop i recs))))
          (sym p) (subst (λ (k : List (List ℕ)). Returns r (Left n k)) q h)

    split : (cur : List ℕ) → get_elem? recs i ≡ some cur → drop i recs ≡ cur ∷ drop (i + 1) recs
    split cur got = drop-at recs i cur got ∙ ap (λ (j : ℕ). cur ∷ drop j recs) (sym next)

    at_test :
        (cur : List ℕ)
        → get_elem? recs i ≡ some cur
        → Again
        → (same : Bool) → eq_bytes cur last ≡ same
        → Goal
    at_test cur got again true e =
        by _ _ (dedup_loop_step left i u recs cur last true got at e)
          (ap (λ (t : List (List ℕ)). take u recs ++ t)
            (sym (
              ap (unique_from last) (split cur got)
              ∙ unique_from-cons last cur (drop (i + 1) recs) true e)))
          (again u recs last size pos (omega arith) at)
    at_test cur got again false e =
        by _ _ (dedup_loop_step left i u recs cur last false got at e)
          (ap₂ (λ (a b : List (List ℕ)). a ++ unique_from cur b) front
              (drop-set_behind recs (i + 1) u cur (omega arith))
            ∙ append_assoc (take u recs) (cur ∷ []) (unique_from cur (drop (i + 1) recs))
            ∙ ap (λ (t : List (List ℕ)). take u recs ++ t)
                (sym (
                  ap (unique_from last) (split cur got)
                  ∙ unique_from-cons last cur (drop (i + 1) recs) false e)))
          (again (u + 1) (set recs u cur) cur (length-set recs u cur ∙ size) (omega arith)
            (omega arith) (ap (get_elem? (set recs u cur)) back ∙ placed))
      where
        placed : get_elem? (set recs u cur) u ≡ some cur
        placed = get_elem?-set_self recs u cur (omega arith)

        front : take (u + 1) (set recs u cur) ≡ take u recs ++ (cur ∷ [])
        front =
            ap (λ (j : ℕ). take j (set recs u cur)) up
            ∙ take-suc (set recs u cur) u cur placed
            ∙ ap (λ (t : List (List ℕ)). t ++ (cur ∷ []))
                (take-set_before recs u u cur (omega arith))

    step : (cur : List ℕ) → get_elem? recs i ≡ some cur → Again → Goal
    step cur got again = at_test cur got again (eq_bytes cur last) refl

-- `bl_dedup_records` over a whole array returns without an access out of bounds: the array has its
-- length, and the records kept at its start are its records without those that are the same as the
-- one before.
pub bl_dedup_records-unique_from :
    (x : List ℕ) (xs : List (List ℕ))
    → Returns
        (bl_dedup_records (x ∷ xs) (length (x ∷ xs)))
        (Left (length (x ∷ xs)) (x ∷ unique_from x xs))
unfolding bl_dedup_records
bl_dedup_records-unique_from x xs =
    dedup_loop_lem (suc (length xs)) (length xs) 1 1 (x ∷ xs) x refl (omega arith) (omega arith)
      (omega arith) refl
