-- ===== src/WebParse/Origin.antt =====
-- The origin of a request: one that is accepted names this host.
use esp32_ad_blocker_reborn.Common.{
  ℕ, ◌≡◌, ◌⊎◌, refl, ◌∙◌, sym, ap, ap₂, Bool, true, false, Option, none, some, List, [], ◌∷◌, ◌++◌,
  map, ◌==◌, ==_iff, if◌then◌else◌, some_inj, either_true, inl, inr,
}
use esp32_ad_blocker_reborn.Domain.{tolower}
use esp32_ad_blocker_reborn.WebParse.{
  strstr, host_name, after_host, ends_host, scheme_end, web_origin_host_matches,
}
use esp32_ad_blocker_reborn.WebParse.Search.{Occurs, strstr-Occurs}

-- Behind `://` the URL has the host's name, in any case, and there it ends or goes on with a port
-- or a path.
pub record OriginOf (url host : List ℕ) : Type 0 where
  pub before : List ℕ
  pub name : List ℕ
  pub after : List ℕ
  pub split : url ≡ before ++ (scheme_end ++ (name ++ after))
  pub same : map tolower name ≡ map tolower (host_name host)
  pub ends : (after ≡ []) ⊎ ((c : ℕ) × (cs : List ℕ) × (after ≡ c ∷ cs) × ((c ≡ 47) ⊎ (c ≡ 58)))

after_host_sound :
    (host p : List ℕ) {after : List ℕ}
    → after_host host p ≡ some after
    → (name : List ℕ) × (p ≡ name ++ after) × (map tolower name ≡ map tolower host)
unfolding after_host
after_host_sound [] p h = ([], some_inj h, refl)
after_host_sound (x ∷ xs) [] h = absurd (cc)
after_host_sound (x ∷ xs) (c ∷ cs) {after} h =
    at (tolower x == tolower c) refl h (λ k. after_host_sound xs cs k)
  where
    at :
        (b : Bool)
        → (tolower x == tolower c) ≡ b
        → (if b then after_host xs cs else none) ≡ some after
        → (after_host xs cs ≡ some after
            → (name : List ℕ) × (cs ≡ name ++ after) × (map tolower name ≡ map tolower xs))
        → (name : List ℕ) × (c ∷ cs ≡ name ++ after) × (map tolower name ≡ map tolower (x ∷ xs))
    at true e h more =
        let (name, split, same) = more h in
        (
          c ∷ name,
          ap (λ (t : List ℕ). c ∷ t) split,
          ap₂ (λ (a : ℕ) (t : List ℕ). a ∷ t) (sym ((==_iff (tolower x) (tolower c)).0 e)) same,
        )
    at false e h more = absurd (cc)

ends_lem :
    (after : List ℕ)
    → ends_host after ≡ true
    → (after ≡ []) ⊎ ((c : ℕ) × (cs : List ℕ) × (after ≡ c ∷ cs) × ((c ≡ 47) ⊎ (c ≡ 58)))
unfolding ends_host
ends_lem [] h = inl refl
ends_lem (c ∷ cs) h = inr (
  c,
  cs,
  refl,
  elim (either_true (c == 47) (c == 58) h) [
    | inl e ↦ inl ((==_iff c 47).0 e)
    | inr e ↦ inr ((==_iff c 58).0 e)
  ],
)

-- An origin that `web_origin_host_matches` accepts has the name of the host right behind a `://`,
-- in any case, and ends there or goes on with a port or a path.
pub web_origin_host_matches-OriginOf :
    (url host : List ℕ) → web_origin_host_matches url host ≡ true → OriginOf url host
unfolding web_origin_host_matches
web_origin_host_matches-OriginOf url [] h = absurd (cc)
web_origin_host_matches-OriginOf url (x ∷ xs) h =
    at (strstr scheme_end url) (strstr-Occurs scheme_end url) h
  where
    host : List ℕ
    host = x ∷ xs

    matched :
        (before p : List ℕ)
        → url ≡ before ++ (scheme_end ++ p)
        → (r : Option (List ℕ)) → after_host (host_name host) p ≡ r
        → elim r as (λ y. Bool) [ none ↦ false | some after ↦ ends_host after ] ≡ true
        → OriginOf url host
    matched before p split none e h = absurd (cc)
    matched before p split (some after) e h =
        let (name, tail, same) = after_host_sound (host_name host) p e in
        record {
          before = before;
          name = name;
          after = after;
          split = split ∙ ap (λ (t : List ℕ). before ++ (scheme_end ++ t)) tail;
          same = same;
          ends = ends_lem after h;
        }

    at :
        (r : Option (List ℕ × List ℕ))
        → Occurs scheme_end url r
        → elim r as (λ y. Bool) [
          | none ↦ false
          | some (before, p) ↦ elim (after_host (host_name host) p) [
            | none ↦ false
            | some after ↦ ends_host after
          ]
        ]
          ≡ true
        → OriginOf url host
    at none o h = absurd (cc)
    at (some (before, p)) o h = matched before p o (after_host (host_name host) p) refl h
