-- ===== src/Rule/Feed.antt =====
-- The rules of a line, one call after the other, and what a feed makes of them.
use esp32_ad_blocker_reborn.Common.{
  ℕ, zero, suc, ◌-◌, ◌≤◌, ◌<◌, ◌≡◌, ◌≢◌, ◌⊎◌, inl, inr, refl, subst, arith, Option, none, some,
  List, [], ◌∷◌, length,
}
use esp32_ad_blocker_reborn.Gate.{RuleKind, RejectReason, Rule}
use esp32_ad_blocker_reborn.Gate.Accepted.{Outcome}
use esp32_ad_blocker_reborn.Rule.{rule_parse_next, rule_apply_feed_policy, rules_of}
use esp32_ad_blocker_reborn.Rule.Parsed.{Emitted, rule_parse_next-Emitted}

abbrev pub Each : (Rule → Type 0) → List Rule → Type 0
Each P [] = Unit {0}
Each P (r ∷ rs) = P r × Each P rs

-- The loop ended by itself, with rules that all hold, and no more of them than bytes left.
abbrev pub Listed : List ℕ → ℕ → Option (List Rule) → Type 0
Listed line left none = ⊥
Listed line left (some rs) = (length rs ≤ left) × Each (Outcome line) rs

rules_of-Listed :
    (fuel : ℕ) (line : List ℕ) (cursor : ℕ)
    → length line - cursor < fuel
    → Listed line (length line - cursor) (rules_of fuel line cursor)
unfolding rules_of
rules_of-Listed zero line cursor h = absurd (omega arith)
rules_of-Listed (suc fuel) line cursor h =
    one (rule_parse_next line cursor) (rule_parse_next-Emitted line cursor)
      (λ next p. rules_of-Listed fuel line next p)
  where
    more :
        (o : Option (List Rule)) (r : Rule) (a b : ℕ)
        → b < a
        → Outcome line r
        → Listed line b o
        → Listed line a
            (elim o as (λ _. Option (List Rule)) [ none ↦ none | some rs ↦ some (r ∷ rs) ])
    more none r a b lt out l = absurd l
    more (some rs) r a b lt out (n, each) = (omega arith, (out, each))

    one :
        (e : Option Rule × ℕ)
        → Emitted line cursor e
        → ((next : ℕ)
            → length line - next < fuel
            → Listed line (length line - next) (rules_of fuel line next))
        → Listed line (length line - cursor) (elim e.0 as (λ _. Option (List Rule)) [
          | none ↦ some []
          | some r ↦ elim (rules_of fuel line e.1) as (λ _. Option (List Rule)) [
            | none ↦ none
            | some rs ↦ some (r ∷ rs)
          ]
        ])
    one (none, next) e rest = (omega arith, tt)
    one (some r, next) (a, b, out) rest =
        more (rules_of fuel line next) r (length line - cursor) (length line - next) (omega arith)
          out (rest next (omega arith))

-- The loop over one line ends: it emits at most as many rules as the line has bytes, and each is a
-- rejection with its reason or a rule whose token is a name that stands in the line.
pub rules_of-Each :
    (line : List ℕ) → Listed line (length line) (rules_of (suc (length line)) line 0)
rules_of-Each line =
    let all : length line - 0 ≡ length line = omega arith in
    subst (λ (n : ℕ). Listed line n (rules_of (suc (length line)) line 0)) all
      (rules_of-Listed (suc (length line)) line 0 (omega arith))

-- What a feed makes of a rule: a block rule that is important is rejected, any other block rule loses
-- its flags, and no other rule changes.
abbrev pub Fed : Rule → Rule → Type 0
Fed r r' =
    ((r.kind ≢ RuleKind.block) × (r' ≡ r))
    ⊎ ((r.kind ≡ RuleKind.block)
        × (2 ≤ r.flags)
        × (r'.kind ≡ RuleKind.reject)
        × (r'.flags ≡ 0)
        × (r'.reject_reason ≡ RejectReason.important_block_unsupported))
    ⊎ ((r.kind ≡ RuleKind.block) × (r.flags < 2) × (r' ≡ record r { flags = 0 }))

flag_cases : (n : ℕ) → n < 4 → (n ≡ 0) ⊎ (n ≡ 1) ⊎ (n ≡ 2) ⊎ (n ≡ 3)
flag_cases n h = ground arith

fed :
    (tok : List ℕ) (kind : RuleKind) (flags : ℕ) (reason : RejectReason)
    → flags < 4
    → let r : Rule = record { tok = tok; kind = kind; flags = flags; reject_reason = reason } in
      Fed r (rule_apply_feed_policy r)
unfolding rule_apply_feed_policy
fed tok RuleKind.allow flags reason h = inl (λ p. cc, refl)
fed tok RuleKind.reject flags reason h = inl (λ p. cc, refl)
fed tok RuleKind.block flags reason h = elim (flag_cases flags h) [
  | inl e ↦ rw e (inr (inr (refl, omega arith, refl)))
  | inr (inl e) ↦ rw e (inr (inr (refl, omega arith, refl)))
  | inr (inr (inl e)) ↦ rw e (inr (inl (refl, omega arith, refl, refl, refl)))
  | inr (inr (inr e)) ↦ rw e (inr (inl (refl, omega arith, refl, refl, refl)))
]

-- `rule_apply_feed_policy` on a rule with no flags but the two: an important block rule becomes a
-- rejection with the reason for it, any other block rule is left without a flag, and a rule that
-- does not block is left as it was.
pub rule_apply_feed_policy-Fed : (r : Rule) → r.flags < 4 → Fed r (rule_apply_feed_policy r)
rule_apply_feed_policy-Fed r h = fed r.tok r.kind r.flags r.reject_reason h
