-- ===== src/Rewrite.antt =====
-- main/rewrite.c: the table of local rewrites, in memory.
-- A name is a C string, the list of its bytes; `none` in its place is a null pointer.
pub mod Match
pub mod Rules
pub mod Set
mod Examples
use esp32_ad_blocker_reborn.Common.{
  ℕ, ◌+◌, ◌-◌, Bool, true, false, not, ◌&&◌, ◌||◌, Option, none, some, List, [], ◌∷◌, ◌++◌, map,
  ltb, leb, ◌==◌, if◌then◌else◌, eq_bytes, length, get_elem?, take, drop,
}

abbrev pub rewrite_max : ℕ
rewrite_max = 48

pub record RewriteEntry : Type 0 where
  pub domain : List ℕ
  pub ipv4_hbo : ℕ

-- The file's statics: `ready` says that the mutex exists, the rules are the first `s_count` ones.
pub record RewriteTable : Type 0 where
  pub ready : Bool
  pub rules : List RewriteEntry

-- `domain[i] == '.'`
pub dot_at : List ℕ → ℕ → Bool
dot_at domain i = elim (get_elem? domain i) [ none ↦ false | some c ↦ c == b'.' ]

-- The two tests of a lookup: the same name, or a name that ends with a dot and the rule.
pub rule_matches : List ℕ → List ℕ → Bool
unfolding dot_at
rule_matches domain rule =
    let dlen = length domain in
    let rlen = length rule in
    (dlen == rlen && eq_bytes domain rule)
    || (ltb (rlen + 1) dlen
        && (dot_at domain (dlen - rlen - 1) && eq_bytes (drop (dlen - rlen) domain) rule))

-- The loop of a lookup: the address of the first rule that matches.
pub lookup_loop : List ℕ → List RewriteEntry → Option ℕ
lookup_loop domain [] = none
lookup_loop domain (e ∷ es) =
    let rest = lookup_loop domain es in
    if rule_matches domain e.domain then some e.ipv4_hbo else rest

-- `taken` says whether the mutex was got in time.
unfoldable pub rewrite_lookup : Bool → Option (List ℕ) → RewriteTable → ℕ
unfolding lookup_loop rule_matches dot_at
rewrite_lookup taken none t = 0
rewrite_lookup taken (some domain) t =
    if length t.rules == 0 || not taken
    then 0
    else elim (lookup_loop domain t.rules) [ none ↦ 0 | some ip ↦ ip ]

-- What `rewrite_lookup_nb` returns: 0, -1, or 1 with the address in `*out_ip`.
pub data Probe : Type 0 where
  absent busy : Probe
  found : ℕ → Probe

-- The length that the caller passes is that of the name, and `out_ip` is not null.
unfoldable pub rewrite_lookup_nb : Bool → Option (List ℕ) → RewriteTable → Probe
unfolding lookup_loop rule_matches dot_at
rewrite_lookup_nb taken none t = absent
rewrite_lookup_nb taken (some domain) t =
    if length t.rules == 0
    then absent
    else (if not t.ready || not taken
        then busy
        else elim (lookup_loop domain t.rules) [ none ↦ absent | some ip ↦ found ip ])

-- The first loop of `rewrite_set`: the rules without that of a name, and whether there was one.
pub delete_rule : List ℕ → List RewriteEntry → List RewriteEntry × Bool
delete_rule domain [] = ([], false)
delete_rule domain (e ∷ es) =
    let (rest, dirty) = delete_rule domain es in
    if eq_bytes e.domain domain then (es, true) else (e ∷ rest, dirty)

-- The second loop: the rules with the address of a name changed, and whether there was one.
pub update_rule : List ℕ → ℕ → List RewriteEntry → List RewriteEntry × Bool
update_rule domain ip [] = ([], false)
update_rule domain ip (e ∷ es) =
    let (rest, updated) = update_rule domain ip es in
    if eq_bytes e.domain domain
    then (record e { ipv4_hbo = ip } ∷ es, true)
    else (e ∷ rest, updated)

-- `snprintf(s_rules[s_count].domain, 64, "%s", domain)` keeps 63 bytes.
pub new_rule : List ℕ → ℕ → RewriteEntry
new_rule domain ip = record { domain = take 63 domain; ipv4_hbo = ip }

-- The table, the result, and whether the rules are to be saved.
unfoldable pub rewrite_set : Option (List ℕ) → ℕ → RewriteTable → RewriteTable × Bool × Bool
unfolding delete_rule update_rule new_rule
rewrite_set none ip t = (t, false, false)
rewrite_set (some domain) ip t =
    let (kept, dirty) = delete_rule domain t.rules in
    let (changed, updated) = update_rule domain ip t.rules in
    if leb 64 (length domain)
    then (t, false, false)
    else (if ip == 0
        then (record t { rules = kept }, true, dirty)
        else (if updated
            then (record t { rules = changed }, true, true)
            else (if leb rewrite_max (length t.rules)
                then (t, false, false)
                else (record t { rules = t.rules ++ (new_rule domain ip ∷ []) }, true, true))))

-- What `rewrite_list` writes for one rule.
pub listed : RewriteEntry → List ℕ × ℕ
listed e = (take 63 e.domain, e.ipv4_hbo)

unfoldable pub rewrite_list : ℕ → RewriteTable → List (List ℕ × ℕ)
unfolding listed
rewrite_list cap t =
    let n = if ltb (length t.rules) cap then length t.rules else cap in map listed (take n t.rules)

unfoldable pub rewrite_count : RewriteTable → ℕ
rewrite_count t = length t.rules
