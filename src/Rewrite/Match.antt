-- ===== src/Rewrite/Match.antt =====
-- Which names a rule is for, and which rule answers for a name.
use esp32_ad_blocker_reborn.Common.{
  ℕ, ◌+◌, ◌-◌, ◌<◌, ◌≡◌, ◌⊎◌, inl, inr, ◌↔◌, refl, ◌∙◌, sym, ap, subst, arith, Bool, true, false,
  ◌&&◌, Option, none, some, List, [], ◌∷◌, ◌++◌, ltb, eq_bytes, length, get_elem?, take, drop,
  eq_bytes_self, eq_bytes_sound, length-take, length-append, take-drop_split, get_elem?-append,
  drop-append, Bool-cases, zero, suc,
}
use esp32_ad_blocker_reborn.Rewrite.{
  RewriteEntry, RewriteTable, dot_at, rule_matches, lookup_loop, rewrite_lookup, rewrite_lookup_nb,
  Probe,
}

-- The name is the rule, or it is the rule behind something and a dot.
abbrev pub IsUnder : List ℕ → List ℕ → Type 0
IsUnder domain rule =
    (domain ≡ rule) ⊎ ((front : List ℕ) × (0 < length front) × (domain ≡ front ++ (b'.' ∷ rule)))

dot_at-some : (domain : List ℕ) (i : ℕ) → dot_at domain i ≡ true → get_elem? domain i ≡ some b'.'
unfolding dot_at
dot_at-some [] i h = cc
dot_at-some (c ∷ cs) zero h = ap some (ground arith)
dot_at-some (c ∷ cs) (suc i) h = dot_at-some cs i h

dot_at-intro : (domain : List ℕ) (i : ℕ) → get_elem? domain i ≡ some b'.' → dot_at domain i ≡ true
unfolding dot_at
dot_at-intro domain i h = rw (dot_at, h) refl

-- The second test of a lookup.
dotted : List ℕ → List ℕ → Bool
unfolding dot_at
dotted domain rule =
    let dlen = length domain in
    let rlen = length rule in
    ltb (rlen + 1) dlen
    && (dot_at domain (dlen - rlen - 1) && eq_bytes (drop (dlen - rlen) domain) rule)

dotted-IsUnder : (domain rule : List ℕ) → dotted domain rule ≡ true → IsUnder domain rule
unfolding dotted
dotted-IsUnder domain rule h =
    let i = length domain - length rule - 1 in
    let far : length rule + 1 < length domain = ground arith in
    let dot : dot_at domain i ≡ true = ground arith in
    let same : eq_bytes (drop (length domain - length rule) domain) rule ≡ true = ground arith in
    let split = take-drop_split domain i b'.' (dot_at-some domain i dot) in
    let next : suc i ≡ length domain - length rule = omega arith in
    let tail : drop (suc i) domain ≡ rule =
      ap (λ (k : ℕ). drop k domain) next
      ∙ eq_bytes_sound (drop (length domain - length rule) domain) rule same in
    inr (
      take i domain,
      omega (arith, length-take i domain (omega arith)),
      split ∙ ap (λ (t : List ℕ). take i domain ++ (b'.' ∷ t)) tail,
    )

dotted_of_front :
    (front rule : List ℕ) → 0 < length front → dotted (front ++ (b'.' ∷ rule)) rule ≡ true
unfolding dotted
dotted_of_front front rule h =
    let domain = front ++ (b'.' ∷ rule) in
    let total : length domain ≡ length front + (length rule + 1) =
      omega (arith, length-append front (b'.' ∷ rule)) in
    let at : length domain - length rule - 1 ≡ length front = omega arith in
    let behind : length domain - length rule ≡ suc (length front) = omega arith in
    let far : length rule + 1 < length domain = omega arith in
    let tail : eq_bytes (drop (suc (length front)) domain) rule ≡ true =
      rw (drop-append front rule b'.') (eq_bytes_self rule) in
    let dot = dot_at-intro domain (length front) (get_elem?-append front rule b'.') in
    rw (at, behind, dot, tail) (ground arith)

-- The two tests together.
pub rule_matches-IsUnder :
    (domain rule : List ℕ) → (rule_matches domain rule ≡ true) ↔ IsUnder domain rule
unfolding rule_matches dotted
rule_matches-IsUnder domain rule = (to, from)
  where
    to : rule_matches domain rule ≡ true → IsUnder domain rule
    to h = elim (Bool-cases (eq_bytes domain rule)) [
      | inl e ↦ inl (eq_bytes_sound domain rule e)
      | inr e ↦ dotted-IsUnder domain rule (ground arith)
    ]

    from : IsUnder domain rule → rule_matches domain rule ≡ true
    from (inl e) =
        subst (λ (r : List ℕ). rule_matches domain r ≡ true) e
          (ground (arith, eq_bytes_self domain))
    from (inr (front, h, e)) =
        subst (λ (d : List ℕ). rule_matches d rule ≡ true) (sym e)
          (ground (arith, dotted_of_front front rule h))

-- The first rule for the name answers, and 0 where there is none.
pub data Answers (domain : List ℕ) : List RewriteEntry → ℕ → Type 0 where
  nowhere : Answers domain [] 0
  here :
      (e : RewriteEntry) (es : List RewriteEntry)
      → IsUnder domain e.domain
      → Answers domain (e ∷ es) e.ipv4_hbo
  there :
      (e : RewriteEntry) (es : List RewriteEntry) (ip : ℕ)
      → ¬ IsUnder domain e.domain
      → Answers domain es ip
      → Answers domain (e ∷ es) ip

abbrev address : Option ℕ → ℕ
address none = 0
address (some ip) = ip

lookup_loop-Answers :
    (domain : List ℕ) (rules : List RewriteEntry)
    → Answers domain rules (address (lookup_loop domain rules))
unfolding lookup_loop
lookup_loop-Answers domain [] = nowhere
lookup_loop-Answers domain (e ∷ es) =
    let spec = rule_matches-IsUnder domain e.domain in
    elim (Bool-cases (rule_matches domain e.domain)) [
      | inl m ↦ rw (lookup_loop, m) (here e es (spec.0 m))
      | inr m ↦
          rw (lookup_loop, m)
            (there e es _ (λ u. absurd (apart m (spec.1 u))) (lookup_loop-Answers domain es))
    ]
  where
    apart : {b : Bool} → b ≡ false → b ≡ true → ⊥
    apart p q = cc

lookup_loop-none :
    (domain : List ℕ) (rules : List RewriteEntry)
    → length rules ≡ 0
    → lookup_loop domain rules ≡ none
unfolding lookup_loop
lookup_loop-none domain [] h = refl
lookup_loop-none domain (e ∷ es) h = absurd (omega arith)

-- Both ways of a lookup, in terms of the loop that they share.
rewrite_lookup-address :
    (domain : List ℕ) (t : RewriteTable)
    → rewrite_lookup true (some domain) t ≡ address (lookup_loop domain t.rules)
unfolding rewrite_lookup
rewrite_lookup-address domain t = ground (arith, lookup_loop-none domain t.rules)

rewrite_lookup-none :
    (taken : Bool) (domain : List ℕ) (t : RewriteTable)
    → lookup_loop domain t.rules ≡ none
    → rewrite_lookup taken (some domain) t ≡ 0
unfolding rewrite_lookup
rewrite_lookup-none taken domain t h = ground arith

abbrev probed : Option ℕ → Probe
probed none = Probe.absent
probed (some ip) = Probe.found ip

rewrite_lookup_nb-cases :
    (taken : Bool) (domain : List ℕ) (t : RewriteTable)
    → (rewrite_lookup_nb taken (some domain) t ≡ Probe.busy)
      ⊎ (rewrite_lookup_nb taken (some domain) t ≡ probed (lookup_loop domain t.rules))
unfolding rewrite_lookup_nb
rewrite_lookup_nb-cases taken domain t = ground (arith, lookup_loop-none domain t.rules)

-- With the mutex, `rewrite_lookup` answers with the address of the first rule that is the name, or
-- that the name ends with behind a dot and something before it, and with 0 if there is no such rule.
pub rewrite_lookup-Answers :
    (domain : List ℕ) (t : RewriteTable)
    → Answers domain t.rules (rewrite_lookup true (some domain) t)
rewrite_lookup-Answers domain t =
    subst (λ (ip : ℕ). Answers domain t.rules ip) (sym (rewrite_lookup-address domain t))
      (lookup_loop-Answers domain t.rules)

-- What the answer of the fast path promises of the other lookup.
abbrev pub Agrees : Probe → Bool → Option (List ℕ) → RewriteTable → Type 0
Agrees Probe.absent taken name t = rewrite_lookup taken name t ≡ 0
Agrees Probe.busy taken name t = Unit {0}
Agrees (Probe.found ip) taken name t = rewrite_lookup true name t ≡ ip

-- If `rewrite_lookup_nb` says that there is no rule, `rewrite_lookup` answers 0 whether it gets the
-- mutex or not; if it finds an address, `rewrite_lookup` with the mutex answers with the same.
pub rewrite_lookup_nb-Agrees :
    (taken taken' : Bool) (name : Option (List ℕ)) (t : RewriteTable)
    → Agrees (rewrite_lookup_nb taken name t) taken' name t
unfolding rewrite_lookup rewrite_lookup_nb
rewrite_lookup_nb-Agrees taken taken' none t = refl
rewrite_lookup_nb-Agrees taken taken' (some domain) t =
    elim (rewrite_lookup_nb-cases taken domain t) [
      | inl busy ↦ subst (λ (p : Probe). Agrees p taken' (some domain) t) (sym busy) tt
      | inr e ↦
          subst (λ (p : Probe). Agrees p taken' (some domain) t) (sym e)
            (by_loop (lookup_loop domain t.rules) refl)
    ]
  where
    by_loop :
        (o : Option ℕ) → lookup_loop domain t.rules ≡ o → Agrees (probed o) taken' (some domain) t
    by_loop none h = rewrite_lookup-none taken' domain t h
    by_loop (some ip) h = rewrite_lookup-address domain t ∙ ap address h
