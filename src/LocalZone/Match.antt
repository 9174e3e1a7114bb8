-- ===== src/LocalZone/Match.antt =====
-- Which names are local.
use esp32_ad_blocker_reborn.Common.{
  ℕ, suc, ◌+◌, ◌-◌, ◌<◌, ◌≡◌, ◌⊎◌, ◌↔◌, refl, ◌∙◌, sym, ap, subst, arith, Bool, true, false, not,
  ◌&&◌, ◌||◌, Option, none, some, List, [], ◌∷◌, ◌++◌, ◌==◌, ==_iff, ltb, ltb→lt, lt→ltb,
  if◌then◌else◌, length, length-append, get_elem?, get_elem?-append, take, drop, drop-append,
  take-drop_split, eq_bytes, eq_bytes_self, eq_bytes_sound, both_true, either_true, inl, inr,
}
use esp32_ad_blocker_reborn.LocalZone.{
  ZoneTable, LocalZones, live_table, ends_below, match_loop, has_dot, localzone_match,
}

-- The name is the zone, or ends with it behind a dot.
pub data IsUnder (name z : List ℕ) : Type 0 where
  same : name ≡ z → IsUnder name z
  below : (front : List ℕ) → name ≡ front ++ (46 ∷ z) → IsUnder name z

pub data AnyUnder (name : List ℕ) : List (List ℕ) → Type 0 where
  here : {z : List ℕ} {zs : List (List ℕ)} → IsUnder name z → AnyUnder name (z ∷ zs)
  later : {z : List ℕ} {zs : List (List ℕ)} → AnyUnder name zs → AnyUnder name (z ∷ zs)

pub data HasDot : List ℕ → Type 0 where
  here : {cs : List ℕ} → HasDot (46 ∷ cs)
  later : {c : ℕ} {cs : List ℕ} → HasDot cs → HasDot (c ∷ cs)

ends_below_sound : (name z : List ℕ) → ends_below name z ≡ true → IsUnder name z
unfolding ends_below
ends_below_sound name z h =
    let (lt, rest) = both_true (ltb (length z) (length name)) _ h in
    at (get_elem? name (length name - length z - 1)) refl rest (ltb→lt (length z) (length name) lt)
  where
    at :
        (r : Option ℕ)
        → get_elem? name (length name - length z - 1) ≡ r
        → (elim r as (λ x. Bool) [ none ↦ false | some c ↦ c == 46 ]
            && eq_bytes (drop (length name - length z) name) z)
          ≡ true
        → length z < length name
        → IsUnder name z
    at none e t lt = absurd (cc)
    at (some c) e t lt =
        let (dot, tail) = both_true (c == 46) (eq_bytes (drop (length name - length z) name) z) t in
        let index : suc (length name - length z - 1) ≡ length name - length z = omega arith in
        let parts : name
            ≡ take (length name - length z - 1) name
              ++ (c ∷ drop (suc (length name - length z - 1)) name) =
          take-drop_split name (length name - length z - 1) c e in
        let back : drop (suc (length name - length z - 1)) name ≡ z =
          ap (λ (i : ℕ). drop i name) index
          ∙ eq_bytes_sound (drop (length name - length z) name) z tail in
        IsUnder.below (take (length name - length z - 1) name) (
          parts
          ∙ ap (λ (t : List ℕ). take (length name - length z - 1) name ++ (c ∷ t)) back
          ∙ ap (λ (d : ℕ). take (length name - length z - 1) name ++ (d ∷ z)) ((==_iff c 46).0 dot))

ends_below_complete : (front z : List ℕ) → ends_below (front ++ (46 ∷ z)) z ≡ true
unfolding ends_below
ends_below_complete front z =
    rw
      (
        lt→ltb (length z) (length (front ++ (46 ∷ z))) (omega (arith, size)),
        index,
        get_elem?-append front z 46,
        start,
        drop-append front z 46,
        eq_bytes_self z,
      )
      refl
  where
    size : length (front ++ (46 ∷ z)) ≡ length front + suc (length z)
    size = length-append front (46 ∷ z)

    index : length (front ++ (46 ∷ z)) - length z - 1 ≡ length front
    index = omega (arith, size)

    start : length (front ++ (46 ∷ z)) - length z ≡ suc (length front)
    start = omega (arith, size)

has_dot_sound : (name : List ℕ) → has_dot name ≡ true → HasDot name
unfolding has_dot
has_dot_sound [] h = absurd (cc)
has_dot_sound (c ∷ cs) h = elim (either_true (c == 46) (has_dot cs) h) [
  | inl e ↦ subst (λ (d : ℕ). HasDot (d ∷ cs)) (sym ((==_iff c 46).0 e)) HasDot.here
  | inr e ↦ HasDot.later (has_dot_sound cs e)
]

or_right : (a b : Bool) → b ≡ true → (a || b) ≡ true
or_right true b h = refl
or_right false b h = h

has_dot_complete : (name : List ℕ) → HasDot name → has_dot name ≡ true
unfolding has_dot
has_dot_complete _ HasDot.here = refl
has_dot_complete _ (HasDot.later {c = c} {cs = cs} h) =
    or_right (c == 46) (has_dot cs) (has_dot_complete cs h)

match_loop_sound :
    (name : List ℕ) (zs : List (List ℕ)) → match_loop name zs ≡ true → AnyUnder name zs
unfolding match_loop
match_loop_sound name [] h = absurd (cc)
match_loop_sound name (z ∷ zs) h = elim (either_true (ends_below name z) _ h) [
  | inl e ↦ AnyUnder.here (ends_below_sound name z e)
  | inr e ↦ elim (either_true (length name == length z && eq_bytes name z) (match_loop name zs) e) [
    | inl f ↦ AnyUnder.here (
        IsUnder.same
          (eq_bytes_sound name z (both_true (length name == length z) (eq_bytes name z) f).1))
    | inr f ↦ AnyUnder.later (match_loop_sound name zs f)
  ]
]

or_left : (a b : Bool) → a ≡ true → (a || b) ≡ true
or_left a b h = rw h refl

and_both : (a b : Bool) → a ≡ true → b ≡ true → (a && b) ≡ true
and_both a b h k = rw (h, k) refl

match_loop_complete :
    (name : List ℕ) (zs : List (List ℕ)) → AnyUnder name zs → match_loop name zs ≡ true
unfolding match_loop
match_loop_complete name _ (AnyUnder.here {z = z} {zs = zs} (IsUnder.same e)) =
    or_right (ends_below name z) _ (
      or_left (length name == length z && eq_bytes name z) (match_loop name zs) (
        and_both (length name == length z) (eq_bytes name z)
          ((==_iff (length name) (length z)).1 (ap length e))
          (ap (eq_bytes name) (sym e) ∙ eq_bytes_self name)))
match_loop_complete name _ (AnyUnder.here {z = z} {zs = zs} (IsUnder.below front e)) =
    or_left (ends_below name z) _
      (ap (λ (t : List ℕ). ends_below t z) e ∙ ends_below_complete front z)
match_loop_complete name _ (AnyUnder.later {z = z} {zs = zs} h) = or_right (ends_below name z) _ (
    or_right (length name == length z && eq_bytes name z) (match_loop name zs)
      (match_loop_complete name zs h))

-- A name that is not empty is matched exactly when it has no dot, or is one of the zones of the live
-- table, or ends with one behind a dot.
pub localzone_match-IsLocal :
    (c : ℕ) (cs : List ℕ) (s : LocalZones) (t : ZoneTable)
    → live_table s ≡ some t
    → (localzone_match (c ∷ cs) s ≡ true) ↔ ((¬ HasDot (c ∷ cs)) ⊎ AnyUnder (c ∷ cs) t.suffix)
unfolding localzone_match
localzone_match-IsLocal c cs s t live =
    ((λ h. sound (has_dot (c ∷ cs)) refl h), (λ h. complete (has_dot (c ∷ cs)) refl h))
  where
    name : List ℕ
    name = c ∷ cs

    answer : Bool → Bool
    answer dot =
        if not dot
        then true
        else elim (live_table s) [ none ↦ false | some t ↦ match_loop name t.suffix ]

    at_live : answer true ≡ match_loop name t.suffix
    at_live =
        ap
          (λ (r : Option ZoneTable). elim r as (λ x. Bool) [
            | none ↦ false
            | some t ↦ match_loop name t.suffix
          ])
          live

    sound :
        (dot : Bool)
        → has_dot name ≡ dot
        → answer dot ≡ true
        → (¬ HasDot name) ⊎ AnyUnder name t.suffix
    sound true e h = inr (match_loop_sound name t.suffix (sym at_live ∙ h))
    sound false e h =
        inl (λ d. let wrong : true ≡ false = sym (has_dot_complete name d) ∙ e in absurd (cc))

    complete :
        (dot : Bool)
        → has_dot name ≡ dot
        → (¬ HasDot name) ⊎ AnyUnder name t.suffix
        → answer dot ≡ true
    complete false e h = refl
    complete true e (inl dotless) = absurd (dotless (has_dot_sound name e))
    complete true e (inr any) = at_live ∙ match_loop_complete name t.suffix any
