-- ===== src/Dedup/Exceptions.antt =====
-- Merging the exceptions of one name, in place, agrees with merging them in a list.
use esp32_ad_blocker_reborn.Common.{
  ℕ, zero, suc, ◌+◌, ◌-◌, ◌≤◌, ◌<◌, ◌≡◌, refl, ◌∙◌, sym, ap, ap₂, subst, arith, Bool, true, false,
  some, List, [], ◌∷◌, ◌++◌, append_assoc, ◌==◌, ==_iff, if◌then◌else◌, length, length-set, set,
  get_elem?, get_elem?_total, get_elem?-set_self, take, drop, drop-at, eq_bytes, Run, done,
  load-some, Returns,
}
use esp32_ad_blocker_reborn.Dedup.{merge_flags, Exception, exceptions_loop, bl_dedup_exceptions}
use esp32_ad_blocker_reborn.Dedup.Records.{
  take-set_before, drop-set_behind, take-suc, drop-all, Left,
}

-- The exception with the flags of a second rule for its name.
pub merged : Exception → Exception → Exception
merged last cur = record last { flags = merge_flags last.flags cur.flags }

-- `last` and the exceptions behind it, with those of one name after another as one.
pub merge_from : Exception → List Exception → List Exception
unfolding merged
merge_from last [] = last ∷ []
merge_from last (x ∷ xs) = elim (eq_bytes x.rec last.rec) [
  | true ↦ merge_from (merged last x) xs
  | false ↦ last ∷ merge_from x xs
]

pub merge_from-nil : (last : Exception) → merge_from last [] ≡ last ∷ []
unfolding merge_from
merge_from-nil last = refl

pub merged_flags :
    (last cur : Exception)
    → merged last cur ≡ record last { flags = merge_flags last.flags cur.flags }
unfolding merged
merged_flags last cur = refl

pub merge_from-cons :
    (last cur : Exception) (xs : List Exception) (same : Bool)
    → eq_bytes cur.rec last.rec ≡ same
    → merge_from last (cur ∷ xs) ≡ elim same as (λ x. List Exception) [
      | true ↦ merge_from (merged last cur) xs
      | false ↦ last ∷ merge_from cur xs
    ]
unfolding merge_from
merge_from-cons last cur xs same e = rw (merge_from, e) refl

exceptions_loop_zero : (i u : ℕ) (es : List Exception) → exceptions_loop 0 i u es ≡ done (es, u)
unfolding exceptions_loop
exceptions_loop_zero i u es = refl

-- What the loop writes for one exception.
written : Bool → ℕ → ℕ → Exception → Exception → List Exception → List Exception
unfolding merged
written same i u last cur es =
    if same then set es (u - 1) (merged last cur) else (if u == i then es else set es u cur)

exceptions_loop_step :
    (left i u : ℕ) (es : List Exception) (cur last : Exception) (same : Bool)
    → get_elem? es i ≡ some cur
    → get_elem? es (u - 1) ≡ some last
    → eq_bytes cur.rec last.rec ≡ same
    → exceptions_loop (suc left) i u es
      ≡ exceptions_loop left (i + 1) (if same then u else u + 1) (written same i u last cur es)
unfolding exceptions_loop written merged
exceptions_loop_step left i u es cur last same a b e =
    rw (load-some es i a, load-some es (u - 1) b, e) refl

-- Moving an exception down to `u`, which may be its own place.
moved_lem :
    (es : List Exception) (i u : ℕ) (last cur : Exception)
    → get_elem? es i ≡ some cur
    → u ≤ i
    → u < length es
    → let after = written false i u last cur es in
      (length after ≡ length es)
      × (get_elem? after u ≡ some cur)
      × (take u after ≡ take u es)
      × (drop (i + 1) after ≡ drop (i + 1) es)
unfolding written
moved_lem es i u last cur at le there = on (u == i) refl
  where
    on :
        (b : Bool)
        → (u == i) ≡ b
        → let after = if b then es else set es u cur in
          (length after ≡ length es)
          × (get_elem? after u ≡ some cur)
          × (take u after ≡ take u es)
          × (drop (i + 1) after ≡ drop (i + 1) es)
    on true e = (refl, ap (get_elem? es) ((==_iff u i).0 e) ∙ at, refl, refl)
    on false e = (
      length-set es u cur,
      get_elem?-set_self es u cur there,
      take-set_before es u u cur (omega arith),
      drop-set_behind es (i + 1) u cur (omega arith),
    )

exceptions_loop_lem :
    (n left i u : ℕ) (es : List Exception) (last : Exception)
    → length es ≡ n
    → n ≡ i + left
    → 0 < u
    → u ≤ i
    → get_elem? es (u - 1) ≡ some last
    → Returns
        (exceptions_loop left i u es)
        (Left n (take (u - 1) es ++ merge_from last (drop i es)))
unfolding merge_from written
exceptions_loop_lem n zero i u es last size count pos le at =
    rw (exceptions_loop_zero i u es) (rest (drop i es) (drop-all i es (omega arith)), size)
  where
    whole : suc (u - 1) ≡ u
    whole = omega (arith, pos)

    rest : (ds : List Exception) → ds ≡ [] → take u es ≡ take (u - 1) es ++ merge_from last ds
    rest ds e =
        ap (λ (j : ℕ). take j es) (sym whole)
        ∙ take-suc es (u - 1) last at
        ∙ ap (λ (t : List Exception). take (u - 1) es ++ merge_from last t) (sym e)
exceptions_loop_lem n (suc left) i u es last size count pos le at =
    step (get_elem?_total es i (omega arith)).0 (get_elem?_total es i (omega arith)).1
      (λ u' es' last' a b c d.
        exceptions_loop_lem n left (i + 1) u' es' last' a (omega arith) b c d)
  where
    Again : Type 0
    Again =
        (u' : ℕ) (es' : List Exception) (last' : Exception)
        → length es' ≡ n
        → 0 < u'
        → u' ≤ i + 1
        → get_elem? es' (u' - 1) ≡ some last'
        → Returns (exceptions_loop left (i + 1) u' es')
            (Left n (take (u' - 1) es' ++ merge_from last' (drop (i + 1) es')))

    Goal : Type 0
    Goal =
        Returns (exceptions_loop (suc left) i u es)
          (Left n (take (u - 1) es ++ merge_from last (drop i es)))

    next : i + 1 ≡ suc i
    next = omega arith

    back : u + 1 - 1 ≡ u
    back = omega arith

    whole : suc (u - 1) ≡ u
    whole = omega (arith, pos)

    by :
        (r : Run (List Exception × ℕ)) (kept : List Exception)
        → exceptions_loop (suc left) i u es ≡ r
        → kept ≡ take (u - 1) es ++ merge_from last (drop i es)
        → Returns r (Left n kept)
        → Goal
    by r kept p q h =
        subst
          (λ (r : Run (List Exception × ℕ)).
            Returns r (Left n (take (u - 1) es ++ merge_from last (drop i es))))
          (sym p) (subst (λ (k : List Exception). Returns r (Left n k)) q h)

    split : (cur : Exception) → get_elem? es i ≡ some cur → drop i es ≡ cur ∷ drop (i + 1) es
    split cur got = drop-at es i cur got ∙ ap (λ (j : ℕ). cur ∷ drop j es) (sym next)

    at_test :
        (cur : Exception)
        → get_elem? es i ≡ some cur
        → Again
        → (same : Bool) → eq_bytes cur.rec last.rec ≡ same
        → Goal
    at_test cur got again true e =
        by _ _ (exceptions_loop_step left i u es cur last true got at e)
          (ap₂ (λ (a b : List Exception). a ++ merge_from (merged last cur) b)
              (take-set_before es (u - 1) (u - 1) (merged last cur) (omega arith))
              (drop-set_behind es (i + 1) (u - 1) (merged last cur) (omega arith))
            ∙ ap (λ (t : List Exception). take (u - 1) es ++ t)
                (sym (
                  ap (merge_from last) (split cur got)
                  ∙ merge_from-cons last cur (drop (i + 1) es) true e)))
          (again u (set es (u - 1) (merged last cur)) (merged last cur)
            (length-set es (u - 1) (merged last cur) ∙ size) pos (omega arith)
            (get_elem?-set_self es (u - 1) (merged last cur) (omega arith)))
    at_test cur got again false e =
        let (kept_size, there, front, behind) = moved_lem es i u last cur got le (omega arith) in
        by _ _ (exceptions_loop_step left i u es cur last false got at e)
          (ap₂ (λ (a b : List Exception). a ++ merge_from cur b)
              (ap (λ (j : ℕ). take j (written false i u last cur es)) back
                ∙ front
                ∙ ap (λ (j : ℕ). take j es) (sym whole)
                ∙ take-suc es (u - 1) last at)
              behind
            ∙ append_assoc (take (u - 1) es) (last ∷ []) (merge_from cur (drop (i + 1) es))
            ∙ ap (λ (t : List Exception). take (u - 1) es ++ t)
                (sym (
                  ap (merge_from last) (split cur got)
                  ∙ merge_from-cons last cur (drop (i + 1) es) false e)))
          (again (u + 1) (written false i u last cur es) cur (kept_size ∙ size) (omega arith)
            (omega arith) (ap (get_elem? (written false i u last cur es)) back ∙ there))

    step : (cur : Exception) → get_elem? es i ≡ some cur → Again → Goal
    step cur got again = at_test cur got again (eq_bytes cur.rec last.rec) refl

-- `bl_dedup_exceptions` over a whole array returns without an access out of bounds: the array has
-- its length, and at its start each run of exceptions with one hash is left as a single one, with
-- the flags of the run merged.
pub bl_dedup_exceptions-merge_from :
    (x : Exception) (xs : List Exception)
    → Returns
        (bl_dedup_exceptions (x ∷ xs) (length (x ∷ xs)))
        (Left (length (x ∷ xs)) (merge_from x xs))
unfolding bl_dedup_exceptions
bl_dedup_exceptions-merge_from x xs =
    exceptions_loop_lem (suc (length xs)) (length xs) 1 1 (x ∷ xs) x refl (omega arith)
      (omega arith) (omega arith) refl

pub bl_dedup_exceptions-nil : bl_dedup_exceptions [] 0 ≡ done ([], 0)
unfolding bl_dedup_exceptions
bl_dedup_exceptions-nil = refl
