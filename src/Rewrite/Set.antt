-- ===== src/Rewrite/Set.antt =====
-- `rewrite_set`: it changes the address of one name, and keeps the table sound.
use esp32_ad_blocker_reborn.Common.{
  ℕ, ◌≤◌, ◌<◌, ◌≡◌, ◌≢◌, ◌⊎◌, inl, inr, refl, ◌∙◌, subst, arith, Bool, true, false, none, some,
  List, [], ◌∷◌, ◌++◌, leb, ◌==◌, if◌then◌else◌, length, length-append, take-all, Bool-cases,
}
use esp32_ad_blocker_reborn.Rewrite.{
  RewriteTable, delete_rule, update_rule, new_rule, rewrite_set, rewrite_max,
}
use esp32_ad_blocker_reborn.Rewrite.Rules.{
  rule_for, IsRules, rule_for-delete_rule_other, rule_for-delete_rule, delete_rule-IsRules,
  delete_rule-same, length-delete_rule, rule_for-update_rule_other, rule_for-update_rule,
  rule_for-none, update_rule-IsRules, length-update_rule, rule_for-append_other, rule_for-append,
  append-IsRules,
}

pub record IsSound (t : RewriteTable) : Type 0 where
  pub fits : length t.rules ≤ rewrite_max
  pub rules : IsRules t.rules

-- What the result says of the name: it has the address, or the table was full without it.
abbrev pub Outcome : Bool → List ℕ → ℕ → RewriteTable → RewriteTable → Type 0
Outcome true d ip t t' = rule_for d t'.rules ≡ (if ip == 0 then none else some ip)
Outcome false d ip t t' =
    (t' ≡ t) × (length t.rules ≡ rewrite_max) × (rule_for d t.rules ≡ none) × (ip ≢ 0)

-- What `rewrite_set` leaves: the table, the result, and whether the rules are saved.
pub record Sets (d : List ℕ) (ip : ℕ) (t : RewriteTable) (r : RewriteTable × Bool × Bool)
    : Type 0 where
  pub sound : IsSound r.0
  pub outcome : Outcome r.1 d ip t r.0
  pub others : (d' : List ℕ) → d' ≢ d → rule_for d' r.0.rules ≡ rule_for d' t.rules
  pub saved : (r.2 ≡ true) ⊎ (r.0.rules ≡ t.rules)

module _ (d : List ℕ) (ip : ℕ) (t : RewriteTable) (short : length d < 64) (sound : IsSound t) where
  Sets-deleted :
      ip ≡ 0
      → Sets d ip t
          (record t { rules = (delete_rule d t.rules).0 }, true, (delete_rule d t.rules).1)
  Sets-deleted zero_ip = record {
    sound = record {
      fits = omega (arith, length-delete_rule d t.rules, sound.fits);
      rules = delete_rule-IsRules d t.rules sound.rules;
    };
    outcome = rw zero_ip (rule_for-delete_rule d t.rules sound.rules);
    others = λ d' ne. rule_for-delete_rule_other d d' t.rules ne;
    saved = elim (Bool-cases (delete_rule d t.rules).1) [
      | inl e ↦ inl e
      | inr e ↦ inr (delete_rule-same d t.rules e)
    ];
  }

  Sets-updated :
      ip ≢ 0
      → (update_rule d ip t.rules).1 ≡ true
      → Sets d ip t (record t { rules = (update_rule d ip t.rules).0 }, true, true)
  Sets-updated ne updated = record {
    sound = record {
      fits = omega (arith, length-update_rule d ip t.rules, sound.fits);
      rules = update_rule-IsRules d ip t.rules ne sound.rules;
    };
    outcome = ground (arith, ne, rule_for-update_rule d ip t.rules updated);
    others = λ d' ne. rule_for-update_rule_other d ip d' t.rules ne;
    saved = inl refl;
  }

  Sets-refused :
      ip ≢ 0
      → (update_rule d ip t.rules).1 ≡ false
      → rewrite_max ≤ length t.rules
      → Sets d ip t (t, false, false)
  Sets-refused ne missing full = record {
    sound = sound;
    outcome = (refl, omega (arith, sound.fits), rule_for-none d ip t.rules missing, ne);
    others = λ d' ne. refl;
    saved = inr refl;
  }

  Sets-added :
      ip ≢ 0
      → (update_rule d ip t.rules).1 ≡ false
      → length t.rules < rewrite_max
      → Sets d ip t (record t { rules = t.rules ++ (new_rule d ip ∷ []) }, true, true)
  unfolding new_rule
  Sets-added ne missing room =
      let e = new_rule d ip in
      let whole : e.domain ≡ d = take-all 63 d (omega arith) in
      let free : rule_for e.domain t.rules ≡ none = rw whole (rule_for-none d ip t.rules missing) in
      record {
        sound = record {
          fits = omega (arith, length-append t.rules (e ∷ []));
          rules = append-IsRules e t.rules (rw whole short) ne free sound.rules;
        };
        outcome =
            subst
              (λ (k : List ℕ).
                rule_for k (t.rules ++ (e ∷ [])) ≡ (if ip == 0 then none else some ip))
              whole (ground (arith, ne, rule_for-append e t.rules free));
        others = λ d' ne. rule_for-append_other e d' t.rules (λ p. ne (p ∙ whole));
        saved = inl refl;
      }

-- For a name of fewer than 64 bytes, `rewrite_set` on a sound table leaves a sound table: at most 48
-- rules, no name twice. If it returns true, the rule of the name has the address, or is gone if the
-- address is 0; if it returns false, nothing changed, the table was full and the name had no rule.
-- No other name's rule changes, and the rules are saved unless they are as before.
pub rewrite_set-Sets :
    (d : List ℕ) (ip : ℕ) (t : RewriteTable)
    → length d < 64
    → IsSound t
    → Sets d ip t (rewrite_set (some d) ip t)
unfolding rewrite_set
rewrite_set-Sets d ip t short sound = elim (Bool-cases (ip == 0)) [
  | inl z ↦ rw (rewrite_set, long, z) (Sets-deleted d ip t short sound (ground arith))
  | inr z ↦ elim (Bool-cases (update_rule d ip t.rules).1) [
    | inl u ↦ rw (rewrite_set, long, z, u) (Sets-updated d ip t short sound (ground arith) u)
    | inr u ↦ elim (Bool-cases (leb rewrite_max (length t.rules))) [
      | inl f ↦
          rw (rewrite_set, long, z, u, f)
            (Sets-refused d ip t short sound (ground arith) u (ground arith))
      | inr f ↦
          rw (rewrite_set, long, z, u, f)
            (Sets-added d ip t short sound (ground arith) u (ground arith))
    ]
  ]
]
  where
    long : leb 64 (length d) ≡ false
    long = ground arith
