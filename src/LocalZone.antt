-- ===== src/LocalZone.antt =====
-- main/localzone.c: the zones of the local network, in two tables of which one is live.
-- What the flash store answers is an argument.
pub mod Match
pub mod Parse
mod Examples
use esp32_ad_blocker_reborn.Common.{
  ℕ, zero, suc, ◌+◌, ◌-◌, Bool, true, false, not, ◌&&◌, ◌||◌, Option, none, some, List, [], ◌∷◌,
  ◌++◌, map, ◌==◌, ltb, leb, if◌then◌else◌, length, get_elem?, take, drop, eq_bytes, codes, Run,
  done, out_of_fuel, ◌>>=◌,
}
use esp32_ad_blocker_reborn.Domain.{tolower}

abbrev pub max_zones : ℕ
max_zones = 16

abbrev pub list_cap : ℕ
list_cap = 256

abbrev pub localzone_default : List ℕ
localzone_default = codes "lan,local,home,home.arpa,internal,localdomain,intranet"

-- A table; its `n` is the number of the suffixes.
pub record ZoneTable : Type 0 where
  pub suffix : List (List ℕ)
  pub text : List ℕ

-- The file's statics; `live` says whether `s_live` is set, and to which table.
pub record LocalZones : Type 0 where
  pub tab0 : ZoneTable
  pub tab1 : ZoneTable
  pub live : Option Bool

abbrev pub live_table : LocalZones → Option ZoneTable
live_table s = elim s.live [ none ↦ none | some second ↦ some (if second then s.tab1 else s.tab0) ]

pub skip_separators : List ℕ → List ℕ
skip_separators [] = []
skip_separators (c ∷ cs) =
    let rest = skip_separators cs in if c == 44 || c == 32 || c == 46 then rest else c ∷ cs

-- The bytes up to a comma or a space, and the list from there on.
pub span_zone : List ℕ → List ℕ × List ℕ
span_zone [] = ([], [])
span_zone (c ∷ cs) =
    let (zone, rest) = span_zone cs in if c == 44 || c == 32 then ([], c ∷ cs) else (c ∷ zone, rest)

-- The name without the dots at its end.
pub trim_dots : List ℕ → List ℕ
trim_dots [] = []
trim_dots (c ∷ cs) = elim (trim_dots cs) [
  | [] ↦ if c == 46 then [] else c ∷ []
  | d ∷ ds ↦ c ∷ d ∷ ds
]

pub zone_name : List ℕ → List ℕ
unfolding trim_dots
zone_name word = trim_dots (take 39 (map tolower word))

-- What one `snprintf` makes of the text.
pub joined : List ℕ → List ℕ → List ℕ
joined [] z = z
joined (c ∷ cs) z = (c ∷ cs) ++ (44 ∷ z)

-- One word of the list, and whether the loop goes on.
pub add_zone : List ℕ → ZoneTable → Bool × ZoneTable
unfolding joined
add_zone z t =
    if length z == 0
    then (true, t)
    else (if leb max_zones (length t.suffix)
        then (false, t)
        else (if leb list_cap (length (joined t.text z))
            then (
              false,
              record { suffix = t.suffix ++ (z ∷ []); text = take 255 (joined t.text z) },
            )
            else (true, record { suffix = t.suffix ++ (z ∷ []); text = joined t.text z })))

-- The loop of `parse_into`, with the table as far as it is filled.
pub parse_loop : ℕ → ZoneTable → List ℕ → Run (Bool × ZoneTable)
unfolding skip_separators span_zone zone_name add_zone
parse_loop zero t p = out_of_fuel
parse_loop (suc fuel) t p = elim (skip_separators p) [
  | [] ↦ done (true, t)
  | c ∷ cs ↦
      let (word, rest) = span_zone (c ∷ cs) in
      let (ok, next) = add_zone (zone_name word) t in
      elim (ok) [ true ↦ parse_loop fuel next rest | false ↦ done (false, next) ]
]

unfoldable pub parse_into : List ℕ → Run (Bool × ZoneTable)
unfolding parse_loop
parse_into list = parse_loop (suc (length list)) (record { suffix = []; text = [] }) list

-- The other table takes the list, or the default where the list does not parse, and goes live.
pub install : Option Bool → ZoneTable → LocalZones → LocalZones
install (some false) t s = record s { tab1 = t; live = some true }
install (some true) t s = record s { tab0 = t; live = some false }
install none t s = record s { tab0 = t; live = some false }

unfoldable pub publish : List ℕ → LocalZones → Run LocalZones
unfolding install
publish list s = parse_into list >>= λ (ok, t). elim (ok) [
  | true ↦ done (install s.live t s)
  | false ↦ parse_into localzone_default >>= λ (_, d). done (install s.live d s)
]

-- `stored` is the list that the flash store has, if it has one that fits.
unfoldable pub localzone_init_nvs : Option (List ℕ) → LocalZones → Run LocalZones
localzone_init_nvs stored s = publish (elim stored [ some buf ↦ buf | none ↦ localzone_default ]) s

-- The name ends with a dot and the suffix.
pub ends_below : List ℕ → List ℕ → Bool
ends_below name z =
    let dotted : Bool = elim (get_elem? name (length name - length z - 1)) [
      | none ↦ false
      | some c ↦ c == 46
    ] in
    ltb (length z) (length name) && (dotted && eq_bytes (drop (length name - length z) name) z)

-- The loop over the suffixes.
pub match_loop : List ℕ → List (List ℕ) → Bool
unfolding ends_below
match_loop name [] = false
match_loop name (z ∷ zs) =
    let rest = match_loop name zs in
    ends_below name z || ((length name == length z && eq_bytes name z) || rest)

pub has_dot : List ℕ → Bool
has_dot [] = false
has_dot (c ∷ cs) = c == 46 || has_dot cs

-- A null name is the empty one.
unfoldable pub localzone_match : List ℕ → LocalZones → Bool
unfolding match_loop has_dot
localzone_match [] s = false
localzone_match (c ∷ cs) s =
    if not (has_dot (c ∷ cs))
    then true
    else elim (live_table s) [ none ↦ false | some t ↦ match_loop (c ∷ cs) t.suffix ]

-- The answer, the text that was written to the flash store if one was, and the tables. `kept` says
-- whether the store took the text; a null list is `none`.
unfoldable pub localzone_set :
    Option (List ℕ) → Bool → LocalZones → Run (Bool × Option (List ℕ) × LocalZones)
localzone_set none kept s = done (false, none, s)
localzone_set (some list) kept s = elim (leb list_cap (length list)) [
  | true ↦ done (false, none, s)
  | false ↦ parse_into list >>= λ (ok, probe). elim (ok && kept) [
    | false ↦ done (false, none, s)
    | true ↦ publish probe.text s >>= λ after. done (true, some probe.text, after)
  ]
]

unfoldable pub localzone_get : ℕ → LocalZones → List ℕ
localzone_get room s =
    take (room - 1) (elim (live_table s) [ some t ↦ t.text | none ↦ localzone_default ])
