-- ===== src/LocalZone/Parse.antt =====
-- Reading a list of zones ends, and the table it fills keeps to its bounds.
use mathlib.Core.Option.{none-ne-some}
use esp32_ad_blocker_reborn.Common.{
  ℕ, zero, suc, ◌≤◌, ◌<◌, ◌≡◌, ◌⊎◌, refl, ◌∙◌, sym, ap, subst, arith, Bool, true, false, ◌||◌,
  Option, none, some, List, [], ◌∷◌, ◌++◌, map, ◌==◌, leb, if◌then◌else◌, length, length-append,
  length-take_le, take, Run, done, Returns, Returns-bind, ◌>>=◌, Bool-cases, inl, inr,
}
use esp32_ad_blocker_reborn.Domain.{tolower}
use esp32_ad_blocker_reborn.LocalZone.{
  ZoneTable, LocalZones, live_table, max_zones, list_cap, localzone_default, skip_separators,
  span_zone, trim_dots, zone_name, joined, add_zone, parse_loop, parse_into, install, publish,
}

-- The zones are not empty and fit their 40 bytes.
pub data AreZones : List (List ℕ) → Type 0 where
  nil : AreZones []
  cons :
      {z : List ℕ} {zs : List (List ℕ)}
      → 0 < length z
      → length z ≤ 39
      → AreZones zs
      → AreZones (z ∷ zs)

-- The table keeps to its sizes.
pub record IsTable (t : ZoneTable) : Type 0 where
  pub count : length t.suffix ≤ max_zones
  pub zones : AreZones t.suffix
  pub size : length t.text < list_cap

AreZones-append :
    (zs : List (List ℕ)) (z : List ℕ)
    → AreZones zs
    → 0 < length z
    → length z ≤ 39
    → AreZones (zs ++ (z ∷ []))
AreZones-append _ z AreZones.nil p q = AreZones.cons p q AreZones.nil
AreZones-append _ z (AreZones.cons {zs = zs} a b r) p q =
    AreZones.cons a b (AreZones-append zs z r p q)

length-skip_separators : (p : List ℕ) → length (skip_separators p) ≤ length p
unfolding skip_separators
length-skip_separators [] = omega arith
length-skip_separators (c ∷ cs) = ground (arith, length-skip_separators cs)

skip_separators-head :
    (p : List ℕ) (c : ℕ) (cs : List ℕ) → skip_separators p ≡ c ∷ cs → (c == 44 || c == 32) ≡ false
unfolding skip_separators
skip_separators-head [] c cs h = absurd (cc)
skip_separators-head (x ∷ xs) c cs h = ground (arith, skip_separators-head xs c cs)

length-span_zone : (p : List ℕ) → length (span_zone p).1 ≤ length p
unfolding span_zone
length-span_zone [] = omega arith
length-span_zone (c ∷ cs) = ground (arith, length-span_zone cs)

length-span_zone_lt :
    (c : ℕ) (cs : List ℕ) → (c == 44 || c == 32) ≡ false → length (span_zone (c ∷ cs)).1 ≤ length cs
unfolding span_zone
length-span_zone_lt c cs h = rw h (length-span_zone cs)

length-trim_dots : (z : List ℕ) → length (trim_dots z) ≤ length z
unfolding trim_dots
length-trim_dots [] = omega arith
length-trim_dots (c ∷ cs) = at (trim_dots cs) (length-trim_dots cs) (Bool-cases (c == 46))
  where
    at :
        (r : List ℕ)
        → length r ≤ length cs
        → (c == 46 ≡ true) ⊎ (c == 46 ≡ false)
        → length
            (elim r as (λ x. List ℕ) [ [] ↦ if c == 46 then [] else c ∷ [] | d ∷ ds ↦ c ∷ d ∷ ds ])
          ≤ suc (length cs)
    at [] h (inl e) = rw e (omega arith)
    at [] h (inr e) = rw e (omega arith)
    at (d ∷ ds) h e = omega arith

length-zone_name : (word : List ℕ) → length (zone_name word) ≤ 39
unfolding zone_name
length-zone_name word =
    omega
      (arith, length-trim_dots (take 39 (map tolower word)), length-take_le 39 (map tolower word))

add_zone-IsTable :
    (z : List ℕ) (t : ZoneTable) → length z ≤ 39 → IsTable t → IsTable (add_zone z t).1
unfolding add_zone
add_zone-IsTable z t l inv = elim (Bool-cases (length z == 0)) [
  | inl e ↦ rw e inv
  | inr e ↦ elim (Bool-cases (leb 16 (length t.suffix))) [
    | inl f ↦ rw (e, f) inv
    | inr f ↦ elim (Bool-cases (leb 256 (length (joined t.text z)))) [
      | inl g ↦
          rw (e, f, g)
            (record {
              count = more f;
              zones = AreZones-append t.suffix z inv.zones (filled e) l;
              size = omega (arith, length-take_le 255 (joined t.text z));
            })
      | inr g ↦
          rw (e, f, g)
            (record {
              count = more f;
              zones = AreZones-append t.suffix z inv.zones (filled e) l;
              size = ground (arith, g);
            })
    ]
  ]
]
  where
    filled : (length z == 0) ≡ false → 0 < length z
    filled e = ground (arith, e)

    more : leb 16 (length t.suffix) ≡ false → length (t.suffix ++ (z ∷ [])) ≤ 16
    more f =
        let room : length t.suffix < 16 = ground (arith, f) in
        omega (arith, length-append t.suffix (z ∷ []))

parse_loop_lem :
    (fuel : ℕ) (t : ZoneTable) (p : List ℕ)
    → length p < fuel
    → IsTable t
    → Returns (parse_loop fuel t p) (λ r. IsTable r.1)
unfolding parse_loop
parse_loop_lem zero t p h inv = absurd (omega arith)
parse_loop_lem (suc fuel) t p h inv =
    at (skip_separators p) refl (λ t' p' l i. parse_loop_lem fuel t' p' l i)
  where
    Again : Type 0
    Again =
        (t' : ZoneTable) (p' : List ℕ)
        → length p' < fuel
        → IsTable t'
        → Returns (parse_loop fuel t' p') (λ r. IsTable r.1)

    went :
        (rest : List ℕ) (next : ZoneTable)
        → length rest < fuel
        → IsTable next
        → Again
        → (ok : Bool)
        → Returns
            (elim ok as (λ x. Run (Bool × ZoneTable)) [
              | true ↦ parse_loop fuel next rest
              | false ↦ done (false, next)
            ])
            (λ r. IsTable r.1)
    went rest next l i again true = again next rest l i
    went rest next l i again false = i

    at :
        (r : List ℕ)
        → skip_separators p ≡ r
        → Again
        → Returns
            (elim r as (λ x. Run (Bool × ZoneTable)) [
              | [] ↦ done (true, t)
              | c ∷ cs ↦
                  let (word, rest) = span_zone (c ∷ cs) in
                  let (ok, next) = add_zone (zone_name word) t in
                  elim ok as (λ x. Run (Bool × ZoneTable)) [
                    | true ↦ parse_loop fuel next rest
                    | false ↦ done (false, next)
                  ]
            ])
            (λ r. IsTable r.1)
    at [] e again = inv
    at (c ∷ cs) e again =
        let shorter : length (c ∷ cs) ≤ length p =
          subst (λ (t : List ℕ). length t ≤ length p) e (length-skip_separators p) in
        went (span_zone (c ∷ cs)).1 (add_zone (zone_name (span_zone (c ∷ cs)).0) t).1
          (omega (arith, h, shorter, length-span_zone_lt c cs (skip_separators-head p c cs e)))
          (add_zone-IsTable (zone_name (span_zone (c ∷ cs)).0) t
            (length-zone_name (span_zone (c ∷ cs)).0) inv)
          again (add_zone (zone_name (span_zone (c ∷ cs)).0) t).0

parse_into-IsTable : (list : List ℕ) → Returns (parse_into list) (λ r. IsTable r.1)
unfolding parse_into
parse_into-IsTable list =
    parse_loop_lem (suc (length list)) (record { suffix = []; text = [] }) list (omega arith)
      (record { count = omega arith; zones = AreZones.nil; size = omega arith })

-- The table that is not live.
abbrev pub spare_table : LocalZones → Option ZoneTable
spare_table s = elim s.live [ none ↦ none | some second ↦ some (if second then s.tab0 else s.tab1) ]

-- After a publication of `s` the live table keeps to its sizes, and the one that was live before is
-- the spare one.
pub record Published (s after : LocalZones) : Type 0 where
  pub table : ZoneTable
  pub live : live_table after ≡ some table
  pub sized : IsTable table
  pub spared : (t : ZoneTable) → live_table s ≡ some t → spare_table after ≡ some t

install-Published : (t : ZoneTable) (s : LocalZones) → IsTable t → Published s (install s.live t s)
unfolding install
install-Published t s inv = at s.live refl
  where
    live_of : Option Bool → Option ZoneTable
    live_of l = elim l [ none ↦ none | some second ↦ some (if second then s.tab1 else s.tab0) ]

    at : (l : Option Bool) → s.live ≡ l → Published s (install l t s)
    at (some false) e = record {
      table = t;
      live = refl;
      sized = inv;
      spared = λ t' h. sym (ap live_of e) ∙ h;
    }
    at (some true) e = record {
      table = t;
      live = refl;
      sized = inv;
      spared = λ t' h. sym (ap live_of e) ∙ h;
    }
    at none e = record {
      table = t;
      live = refl;
      sized = inv;
      spared = λ t' h. absurd (none-ne-some _ (sym (ap live_of e) ∙ h));
    }

-- Publishing a list ends, whatever the list is: the table that is live then has at most 16 zones of 1
-- to 39 bytes and a text of fewer than 256, and the table that was live before is as it was.
pub publish-Published :
    (list : List ℕ) (s : LocalZones) → Returns (publish list s) (λ after. Published s after)
unfolding publish
publish-Published list s =
    Returns-bind (parse_into list) _ (λ after. Published s after) (parse_into-IsTable list)
      (λ r inv. chosen r.0 r.1 inv)
  where
    chosen :
        (ok : Bool) (t : ZoneTable)
        → IsTable t
        → Returns
            (elim ok as (λ x. Run LocalZones) [
              | true ↦ done (install s.live t s)
              | false ↦ parse_into localzone_default >>= λ (_, d). done (install s.live d s)
            ])
            (λ after. Published s after)
    chosen true t inv = install-Published t s inv
    chosen false t inv =
        Returns-bind (parse_into localzone_default) _ (λ after. Published s after)
          (parse_into-IsTable localzone_default) (λ r i. install-Published r.1 s i)
