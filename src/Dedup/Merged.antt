-- ===== src/Dedup/Merged.antt =====
-- Dropping the repeats of the exception table, against a description by runs of one hash.
use mathlib.Core.Option.{none-ne-some}
use esp32_ad_blocker_reborn.Common.{
  ℕ, zero, suc, ◌≡◌, ◌≢◌, refl, ◌∙◌, sym, ap, subst, Bool, true, false, some, List, [], ◌∷◌, ◌++◌,
  append_assoc, length, get_elem?, take, some_inj, eq_bytes, eq_bytes_self, eq_bytes_sound, Run,
  Returns, Returns_mono,
}
use esp32_ad_blocker_reborn.Dedup.{Exception, bl_dedup_exceptions}
use esp32_ad_blocker_reborn.Dedup.Exceptions.{
  merged, merge_from, merge_from-nil, merge_from-cons, merged_flags, bl_dedup_exceptions-merge_from,
  bl_dedup_exceptions-nil,
}
use esp32_ad_blocker_reborn.Dedup.Flags.{flags_of, flags_of-append}

abbrev pub HaveRec : List ℕ → List Exception → Type 0
HaveRec rec es = (i : ℕ) (e : Exception) → get_elem? es i ≡ some e → e.rec ≡ rec

-- The next run has another record.
abbrev pub StartsOther : List ℕ → List Exception → Type 0
StartsOther rec [] = Unit
StartsOther rec (y ∷ ys) = y.rec ≢ rec

-- The second list has one exception for each longest run of one record in the first.
pub data Collapsed : List Exception → List Exception → Type 0 where
  empty : Collapsed [] []
  run :
      (x : Exception) (same rest out : List Exception)
      → HaveRec x.rec same
      → StartsOther x.rec rest
      → Collapsed rest out
      → Collapsed (x ∷ (same ++ rest)) (record x { flags = flags_of x same } ∷ out)

HaveRec-append :
    (rec : List ℕ) (es : List Exception) (y : Exception)
    → HaveRec rec es
    → y.rec ≡ rec
    → HaveRec rec (es ++ (y ∷ []))
HaveRec-append rec [] y h same zero e at = ap (λ (t : Exception). t.rec) (sym (some_inj at)) ∙ same
HaveRec-append rec [] y h same (suc i) e at = absurd (none-ne-some _ at)
HaveRec-append rec (x ∷ xs) y h same zero e at = h zero e at
HaveRec-append rec (x ∷ xs) y h same (suc i) e at =
    HaveRec-append rec xs y (λ i e p. h (suc i) e p) same i e at

-- The exception that stands for a run so far.
standing : Exception → List Exception → Exception
standing x same = record x { flags = flags_of x same }

merge_from-Collapsed :
    (xs : List Exception) (x : Exception) (same : List Exception)
    → HaveRec x.rec same
    → Collapsed (x ∷ (same ++ xs)) (merge_from (standing x same) xs)
unfolding standing
merge_from-Collapsed [] x same h =
    subst (λ (t : List Exception). Collapsed (x ∷ (same ++ [])) t)
      (sym (merge_from-nil (standing x same))) (Collapsed.run x same [] [] h tt Collapsed.empty)
merge_from-Collapsed (y ∷ ys) x same h =
    at (eq_bytes y.rec x.rec) refl (λ longer. merge_from-Collapsed ys x (same ++ (y ∷ [])) longer)
      (merge_from-Collapsed ys y [] (λ i e p. absurd (none-ne-some _ p)))
  where
    from : List Exception → Type 0
    from t = Collapsed (x ∷ (same ++ (y ∷ ys))) t

    joined : merged (standing x same) y ≡ standing x (same ++ (y ∷ []))
    joined =
        merged_flags (standing x same) y
        ∙ ap (λ (f : ℕ). record x { flags = f }) (flags_of-append x same y)

    at :
        (b : Bool)
        → eq_bytes y.rec x.rec ≡ b
        → (HaveRec x.rec (same ++ (y ∷ []))
            → Collapsed
                (x ∷ ((same ++ (y ∷ [])) ++ ys))
                (merge_from (standing x (same ++ (y ∷ []))) ys))
        → Collapsed (y ∷ ys) (merge_from (standing y []) ys)
        → from (merge_from (standing x same) (y ∷ ys))
    at true e longer other =
        let equal : y.rec ≡ x.rec = eq_bytes_sound y.rec x.rec e in
        subst from
          (ap (λ (t : Exception). merge_from t ys) (sym joined)
            ∙ sym (merge_from-cons (standing x same) y ys true e))
          (subst
            (λ (t : List Exception).
              Collapsed (x ∷ t) (merge_from (standing x (same ++ (y ∷ []))) ys))
            (append_assoc same (y ∷ []) ys) (longer (HaveRec-append x.rec same y h equal)))
    at false e longer other =
        let differ : y.rec ≢ x.rec = (λ equal.
          let wrong : true ≡ false =
            sym (eq_bytes_self x.rec) ∙ ap (λ (t : List ℕ). eq_bytes t x.rec) (sym equal) ∙ e in
          absurd (cc)) in
        subst from (sym (merge_from-cons (standing x same) y ys false e))
          (Collapsed.run x same (y ∷ ys) (merge_from y ys) h differ other)

-- `bl_dedup_exceptions` over a whole array of exceptions, none or more, returns without an access
-- out of bounds. The array keeps its length. What it counts at the start is one exception for each
-- longest run of equal records, in their order: with the flags of the exception, if it stood alone,
-- and otherwise important if one of the run is, exact if all of it are, and with no other flag.
pub bl_dedup_exceptions-Collapsed :
    (es : List Exception)
    → Returns
        (bl_dedup_exceptions es (length es))
        (λ (after, u). (length after ≡ length es) × Collapsed es (take u after))
unfolding standing
bl_dedup_exceptions-Collapsed [] =
    subst
      (λ (r : Run (List Exception × ℕ)).
        Returns r (λ (after, u). (length after ≡ 0) × Collapsed [] (take u after)))
      (sym bl_dedup_exceptions-nil) (refl, Collapsed.empty)
bl_dedup_exceptions-Collapsed (x ∷ xs) =
    Returns_mono (bl_dedup_exceptions (x ∷ xs) (length (x ∷ xs)))
      (bl_dedup_exceptions-merge_from x xs)
      (λ (after, u) (kept, size). (
        size,
        subst (λ (t : List Exception). Collapsed (x ∷ xs) t) (sym kept)
            (merge_from-Collapsed xs x [] (λ i e p. absurd (none-ne-some _ p))),
      ))
