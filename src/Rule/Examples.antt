-- ===== src/Rule/Examples.antt =====
-- Tests of the rule parser, and the theorems at concrete lines.
use esp32_ad_blocker_reborn.Common.{ℕ, List, ◌≡◌, refl, arith, some, none, codes}
use esp32_ad_blocker_reborn.Token.{tok_is_address, tok_char_ok}
use esp32_ad_blocker_reborn.Gate.{Rule, RuleKind, RejectReason, gate, trimmed_token, reject_rule}
use esp32_ad_blocker_reborn.Rule.{rule_parse_next, rules_of, rule_apply_feed_policy}
use esp32_ad_blocker_reborn.Rule.Parsed.{Emitted, rule_parse_next-Emitted}
use esp32_ad_blocker_reborn.Rule.Feed.{Listed, rules_of-Each, Fed, rule_apply_feed_policy-Fed}

abbrev accepted : RuleKind → ℕ → List ℕ → Rule
accepted kind flags tok = record {
  tok = tok;
  kind = kind;
  flags = flags;
  reject_reason = RejectReason.unset;
}

abbrev rejected : RejectReason → Rule
rejected reason = record {
  tok = codes "";
  kind = RuleKind.reject;
  flags = 0;
  reject_reason = reason;
}

anchored :
    rule_parse_next (codes "||ads.example.com^$important") 0
    ≡ (some (accepted RuleKind.block 2 (codes "ads.example.com")), 28)
unfolding rule_parse_next gate trimmed_token tok_is_address tok_char_ok reject_rule
anchored = refl

exception :
    rule_parse_next (codes "@@https://Example.com:443/") 0
    ≡ (some (accepted RuleKind.allow 1 (codes "Example.com")), 26)
unfolding rule_parse_next gate trimmed_token tok_is_address tok_char_ok reject_rule
exception = refl

hosts :
    rule_parse_next (codes "0.0.0.0 a.com x b.org") 0
    ≡ (some (accepted RuleKind.block 0 (codes "a.com")), 13)
unfolding rule_parse_next gate trimmed_token tok_is_address tok_char_ok reject_rule
hosts = refl

-- A bad token does not cut the rest of the line off.
hosts_bad :
    rule_parse_next (codes "0.0.0.0 a.com x b.org") 13 ≡ (some (rejected RejectReason.too_wide), 15)
unfolding rule_parse_next gate trimmed_token tok_is_address tok_char_ok reject_rule
hosts_bad = refl

wildcard : rule_parse_next (codes "ex*.com") 0 ≡ (some (rejected RejectReason.wildcard), 7)
unfolding rule_parse_next gate trimmed_token tok_is_address tok_char_ok reject_rule
wildcard = refl

regex : rule_parse_next (codes "/ads[0-9]/") 0 ≡ (some (rejected RejectReason.regex), 10)
unfolding rule_parse_next gate trimmed_token tok_is_address tok_char_ok reject_rule
regex = refl

twice :
    rule_parse_next (codes "||a.com^$important,important") 0
    ≡ (some (rejected RejectReason.modifier), 28)
unfolding rule_parse_next gate trimmed_token tok_is_address tok_char_ok reject_rule
twice = refl

comment : rule_parse_next (codes "! ads") 0 ≡ (none, 5)
unfolding rule_parse_next gate trimmed_token tok_is_address tok_char_ok reject_rule
comment = refl

rule_parse_next-Emitted_example :
    Emitted (codes "0.0.0.0 a.com x b.org") 13 (rule_parse_next (codes "0.0.0.0 a.com x b.org") 13)
rule_parse_next-Emitted_example = rule_parse_next-Emitted (codes "0.0.0.0 a.com x b.org") 13

rules_of-Each_example : Listed (codes "||a.com^") 8 (rules_of 9 (codes "||a.com^") 0)
rules_of-Each_example = rules_of-Each (codes "||a.com^")

abbrev exact_rule : Rule
exact_rule = accepted RuleKind.block 1 (codes "a.com")

rule_apply_feed_policy-Fed_example : Fed exact_rule (rule_apply_feed_policy exact_rule)
rule_apply_feed_policy-Fed_example = rule_apply_feed_policy-Fed exact_rule (omega arith)
