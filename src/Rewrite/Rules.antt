-- ===== src/Rewrite/Rules.antt =====
-- The rules as a map from names to addresses: what the loops of `rewrite_set` keep and change.
use esp32_ad_blocker_reborn.Common.{
  ℕ, ◌≤◌, ◌<◌, ◌≡◌, ◌≢◌, refl, ◌∙◌, sym, ap, subst, arith, true, false, Option, none, some, List,
  [], ◌∷◌, ◌++◌, if◌then◌else◌, eq_bytes, length, eq_bytes_self, eq_bytes_sound, Bool-cases, inl,
  inr,
}
use esp32_ad_blocker_reborn.Rewrite.{RewriteEntry, delete_rule, update_rule}

-- The address of the rule with exactly this name.
unfoldable pub rule_for : List ℕ → List RewriteEntry → Option ℕ
rule_for domain [] = none
rule_for domain (e ∷ es) =
    let rest = rule_for domain es in if eq_bytes e.domain domain then some e.ipv4_hbo else rest

-- Names that fit their arrays, addresses that are not 0, and no name twice.
abbrev pub IsRules : List RewriteEntry → Type 0
IsRules [] = Unit {0}
IsRules (e ∷ es) =
    (length e.domain < 64) × (e.ipv4_hbo ≢ 0) × (rule_for e.domain es ≡ none) × IsRules es

eq_bytes_ne : (xs ys : List ℕ) → xs ≢ ys → eq_bytes xs ys ≡ false
eq_bytes_ne xs ys ne = elim (Bool-cases (eq_bytes xs ys)) [
  | inl e ↦ absurd (ne (eq_bytes_sound xs ys e))
  | inr e ↦ e
]

eq_bytes_other : (x d d' : List ℕ) → d' ≢ d → eq_bytes x d ≡ true → eq_bytes x d' ≡ false
eq_bytes_other x d d' ne e = eq_bytes_ne x d' (λ p. ne (sym p ∙ eq_bytes_sound x d e))

rule_for_same :
    (x d : List ℕ) (es : List RewriteEntry) → eq_bytes x d ≡ true → rule_for x es ≡ rule_for d es
rule_for_same x d es e = ap (λ (t : List ℕ). rule_for t es) (eq_bytes_sound x d e)

module _ (d : List ℕ) where
  pub rule_for-delete_rule_other :
      (d' : List ℕ) (es : List RewriteEntry)
      → d' ≢ d
      → rule_for d' (delete_rule d es).0 ≡ rule_for d' es
  unfolding rule_for delete_rule
  rule_for-delete_rule_other d' [] ne = refl
  rule_for-delete_rule_other d' (e ∷ es) ne =
      ground (arith, rule_for-delete_rule_other d' es ne, eq_bytes_other e.domain d d' ne)

  pub rule_for-delete_rule :
      (es : List RewriteEntry) → IsRules es → rule_for d (delete_rule d es).0 ≡ none
  unfolding rule_for delete_rule
  rule_for-delete_rule [] rules = refl
  rule_for-delete_rule (e ∷ es) (a, b, fresh, rules) =
      ground (arith, fresh, rule_for-delete_rule es rules, rule_for_same e.domain d es)

  rule_for-delete_rule_fresh :
      (x : List ℕ) (es : List RewriteEntry)
      → rule_for x es ≡ none
      → rule_for x (delete_rule d es).0 ≡ none
  unfolding rule_for delete_rule
  rule_for-delete_rule_fresh x [] h = refl
  rule_for-delete_rule_fresh x (e ∷ es) h = ground (arith, rule_for-delete_rule_fresh x es)

  pub delete_rule-IsRules : (es : List RewriteEntry) → IsRules es → IsRules (delete_rule d es).0
  unfolding delete_rule
  delete_rule-IsRules [] rules = tt
  delete_rule-IsRules (e ∷ es) (a, b, fresh, rules) = ground (
    arith,
    a,
    b,
    fresh,
    rules,
    delete_rule-IsRules es rules,
    rule_for-delete_rule_fresh e.domain es fresh,
  )

  pub delete_rule-same :
      (es : List RewriteEntry) → (delete_rule d es).1 ≡ false → (delete_rule d es).0 ≡ es
  unfolding delete_rule
  delete_rule-same [] h = refl
  delete_rule-same (e ∷ es) h = ground (arith, delete_rule-same es)

  pub length-delete_rule : (es : List RewriteEntry) → length (delete_rule d es).0 ≤ length es
  unfolding delete_rule
  length-delete_rule [] = omega arith
  length-delete_rule (e ∷ es) = ground (arith, length-delete_rule es)

module _ (d : List ℕ) (ip : ℕ) where
  pub rule_for-update_rule_other :
      (d' : List ℕ) (es : List RewriteEntry)
      → d' ≢ d
      → rule_for d' (update_rule d ip es).0 ≡ rule_for d' es
  unfolding rule_for update_rule
  rule_for-update_rule_other d' [] ne = refl
  rule_for-update_rule_other d' (e ∷ es) ne =
      ground (arith, rule_for-update_rule_other d' es ne, eq_bytes_other e.domain d d' ne)

  pub rule_for-update_rule :
      (es : List RewriteEntry)
      → (update_rule d ip es).1 ≡ true
      → rule_for d (update_rule d ip es).0 ≡ some ip
  unfolding rule_for update_rule
  rule_for-update_rule [] h = absurd (cc)
  rule_for-update_rule (e ∷ es) h = ground (arith, rule_for-update_rule es)

  pub rule_for-none :
      (es : List RewriteEntry) → (update_rule d ip es).1 ≡ false → rule_for d es ≡ none
  unfolding rule_for update_rule
  rule_for-none [] h = refl
  rule_for-none (e ∷ es) h = ground (arith, rule_for-none es)

  rule_for-update_rule_fresh :
      (x : List ℕ) (es : List RewriteEntry)
      → rule_for x es ≡ none
      → rule_for x (update_rule d ip es).0 ≡ none
  unfolding rule_for update_rule
  rule_for-update_rule_fresh x [] h = refl
  rule_for-update_rule_fresh x (e ∷ es) h = ground (arith, rule_for-update_rule_fresh x es)

  pub update_rule-IsRules :
      (es : List RewriteEntry) → ip ≢ 0 → IsRules es → IsRules (update_rule d ip es).0
  unfolding update_rule
  update_rule-IsRules [] ne rules = tt
  update_rule-IsRules (e ∷ es) ne (a, b, fresh, rules) = ground (
    arith,
    ne,
    a,
    b,
    fresh,
    rules,
    update_rule-IsRules es ne rules,
    rule_for-update_rule_fresh e.domain es fresh,
  )

  pub length-update_rule : (es : List RewriteEntry) → length (update_rule d ip es).0 ≡ length es
  unfolding update_rule
  length-update_rule [] = refl
  length-update_rule (e ∷ es) = ground (arith, length-update_rule es)

module _ (n : RewriteEntry) where
  pub rule_for-append_other :
      (d' : List ℕ) (es : List RewriteEntry)
      → d' ≢ n.domain
      → rule_for d' (es ++ (n ∷ [])) ≡ rule_for d' es
  unfolding rule_for
  rule_for-append_other d' [] ne =
      ground (arith, eq_bytes_other n.domain n.domain d' ne (eq_bytes_self n.domain))
  rule_for-append_other d' (e ∷ es) ne = ground (arith, rule_for-append_other d' es ne)

  pub rule_for-append :
      (es : List RewriteEntry)
      → rule_for n.domain es ≡ none
      → rule_for n.domain (es ++ (n ∷ [])) ≡ some n.ipv4_hbo
  unfolding rule_for
  rule_for-append [] h = ground (arith, eq_bytes_self n.domain)
  rule_for-append (e ∷ es) h = ground (arith, rule_for-append es)

  pub append-IsRules :
      (es : List RewriteEntry)
      → length n.domain < 64
      → n.ipv4_hbo ≢ 0
      → rule_for n.domain es ≡ none
      → IsRules es
      → IsRules (es ++ (n ∷ []))
  unfolding rule_for
  append-IsRules [] short ne h rules = (short, ne, refl, tt)
  append-IsRules (e ∷ es) short ne h (a, b, fresh, rules) = (
    a,
    b,
    rule_for-append_other e.domain es differs ∙ fresh,
    append-IsRules es short ne (ground arith) rules,
  )
    where
      differs : e.domain ≢ n.domain
      differs p =
          ground (
            arith,
            h,
            subst (λ (t : List ℕ). eq_bytes e.domain t ≡ true) p (eq_bytes_self e.domain),
          )
