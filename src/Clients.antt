-- ===== src/Clients.antt =====
-- main/acl.c and main/bypass.c: two lists of client addresses, one code in two files.
-- The flash store of ESP-IDF is a parameter: what is stored under each key.
pub mod Members
pub mod Stored
pub mod Effect
mod Examples
use esp32_ad_blocker_reborn.Common.{
  ℕ, zero, suc, ◌+◌, ◌-◌, Bool, true, false, not, ◌&&◌, ◌||◌, Option, none, some, List, [], ◌∷◌,
  ◌++◌, map, ◌==◌, ltb, leb, if◌then◌else◌, length, take, codes, ◌≡◌, ◌≢◌,
}
use esp32_ad_blocker_reborn.Address.{acl_parse_ip4, print_ip4}

-- The file's statics: `ready` says that the mutex exists, the addresses are the first `s_count` ones.
pub record Clients : Type 0 where
  pub ready : Bool
  pub ips : List ℕ

abbrev pub acl_max : ℕ
acl_max = 8

abbrev pub bypass_max : ℕ
bypass_max = 8

pub contains : ℕ → List ℕ → Bool
contains ip [] = false
contains ip (x ∷ xs) = x == ip || contains ip xs

-- The list after `acl_add`, the result, and whether it is to be saved.
pub add_ip : ℕ → Option (List ℕ) → Clients → Clients × Bool × Bool
unfolding contains
add_ip max none l = (l, false, false)
add_ip max (some s) l =
    let ip = acl_parse_ip4 s in
    let exists = contains ip l.ips in
    if leb max (length l.ips) || ip == 0
    then (l, false, false)
    else (if not exists && ltb (length l.ips) max
        then (record l { ips = l.ips ++ (ip ∷ []) }, true, true)
        else (l, exists, false))

-- The loop of `acl_remove`: the addresses behind the one found move down.
pub delete_ip : ℕ → List ℕ → List ℕ × Bool
delete_ip ip [] = ([], false)
delete_ip ip (x ∷ xs) =
    let (rest, found) = delete_ip ip xs in if x == ip then (xs, true) else (x ∷ rest, found)

pub remove_ip : Option (List ℕ) → Clients → Clients × Bool × Bool
unfolding delete_ip
remove_ip none l = (l, false, false)
remove_ip (some s) l =
    let (ips, found) = delete_ip (acl_parse_ip4 s) l.ips in (record l { ips = ips }, found, found)

pub clear_ips : Clients → Clients × Bool × Bool
clear_ips l = (record l { ips = [] }, true, true)

-- What a reader finds: `seen` is the count that it reads before the mutex, `taken` says whether it
-- gets the mutex. The answers for an empty list and for a missed mutex are the caller's.
pub lookup_ip : ℕ → Bool → ℕ → Bool → Bool → Clients → Bool
unfolding contains
lookup_ip seen taken ip if_empty if_busy l =
    if seen == 0 then if_empty else (if not taken then if_busy else contains ip l.ips)

pub list_ips : ℕ → Clients → List (List ℕ)
list_ips cap l =
    let n = if ltb (length l.ips) cap then length l.ips else cap in map print_ip4 (take n l.ips)

unfoldable pub acl_add : Option (List ℕ) → Clients → Clients × Bool × Bool
unfolding add_ip
acl_add s l = add_ip acl_max s l

unfoldable pub acl_remove : Option (List ℕ) → Clients → Clients × Bool × Bool
unfolding remove_ip
acl_remove s l = remove_ip s l

unfoldable pub acl_clear : Clients → Clients × Bool × Bool
unfolding clear_ips
acl_clear l = clear_ips l

unfoldable pub acl_count : Clients → ℕ
acl_count l = length l.ips

unfoldable pub acl_list : ℕ → Clients → List (List ℕ)
unfolding list_ips
acl_list cap l = list_ips cap l

unfoldable pub acl_permits : ℕ → Bool → ℕ → Clients → Bool
unfolding contains
acl_permits seen taken ip l =
    if seen == 0 then true else (if not taken then true else length l.ips == 0 || contains ip l.ips)

unfoldable pub acl_permits_nb : ℕ → Bool → ℕ → Clients → Bool
unfolding lookup_ip
acl_permits_nb seen taken ip l =
    if seen == 0
    then true
    else (if not l.ready then false else lookup_ip seen taken ip true false l)

unfoldable pub bypass_add : Option (List ℕ) → Clients → Clients × Bool × Bool
unfolding add_ip
bypass_add s l = add_ip bypass_max s l

unfoldable pub bypass_remove : Option (List ℕ) → Clients → Clients × Bool × Bool
unfolding remove_ip
bypass_remove s l = remove_ip s l

unfoldable pub bypass_clear : Clients → Clients × Bool × Bool
unfolding clear_ips
bypass_clear l = clear_ips l

unfoldable pub bypass_count : Clients → ℕ
bypass_count l = length l.ips

unfoldable pub bypass_list : ℕ → Clients → List (List ℕ)
unfolding list_ips
bypass_list cap l = list_ips cap l

unfoldable pub bypass_active_for : ℕ → Bool → ℕ → Clients → Bool
unfolding lookup_ip
bypass_active_for seen taken ip l = lookup_ip seen taken ip false false l

unfoldable pub bypass_active_for_nb : ℕ → Bool → ℕ → Clients → Bool
unfolding lookup_ip
bypass_active_for_nb seen taken ip l =
    if seen == 0
    then false
    else (if not l.ready then false else lookup_ip seen taken ip false false l)

-- The keys of the slots, `acl_%d` and `byp_%d`, with one digit.
pub slot_key : List ℕ → ℕ → List ℕ
slot_key prefix i = prefix ++ ((b'0' + i) ∷ [])

-- The store: what a get of a key gives, and the two changes of it.
pub record Nvs : Type 1 where
  pub Store : Type 0
  pub get_str : Store → List ℕ → Option (List ℕ)
  pub set_str : Store → List ℕ → List ℕ → Store
  pub erase_key : Store → List ℕ → Store
  pub get-set_self : (s : Store) (k v : List ℕ) → get_str (set_str s k v) k ≡ some v
  pub get-set_ne : (s : Store) (k j v : List ℕ) → k ≢ j → get_str (set_str s k v) j ≡ get_str s j
  pub get-erase_self : (s : Store) (k : List ℕ) → get_str (erase_key s k) k ≡ none
  pub get-erase_ne : (s : Store) (k j : List ℕ) → k ≢ j → get_str (erase_key s k) j ≡ get_str s j

module _ (nvs : Nvs) where
  open nvs use {Store, get_str, set_str, erase_key}

  -- The loop of `save_nvs` over the slots from `i` on; the list is that of the addresses left.
  pub save_loop : ℕ → ℕ → List ℕ → List ℕ → Store → Store
  unfolding slot_key
  save_loop zero i prefix ips s = s
  save_loop (suc left) i prefix [] s =
      save_loop left (i + 1) prefix [] (erase_key s (slot_key prefix i))
  save_loop (suc left) i prefix (ip ∷ ips) s =
      save_loop left (i + 1) prefix ips (set_str s (slot_key prefix i) (print_ip4 ip))

  -- The loop of `acl_init`; the addresses found so far stand in front.
  pub load_loop : ℕ → ℕ → List ℕ → Store → List ℕ
  unfolding slot_key
  load_loop zero i prefix s = []
  load_loop (suc left) i prefix s =
      let rest = load_loop left (i + 1) prefix s in
      elim (get_str s (slot_key prefix i)) [
        | none ↦ rest
        | some val ↦ let ip = acl_parse_ip4 val in if ip == 0 then rest else ip ∷ rest
      ]

  -- `opened` says whether the store could be opened.
  unfoldable pub acl_save_nvs : Bool → Clients → Store → Store
  unfolding save_loop
  acl_save_nvs opened l s = if opened then save_loop acl_max 0 (codes "acl_") l.ips s else s

  unfoldable pub acl_init : Bool → Bool → Store → Clients × Bool
  unfolding load_loop
  acl_init created opened s =
      if created
      then (
        record { ready = true; ips = if opened then load_loop acl_max 0 (codes "acl_") s else [] },
        true,
      )
      else (record { ready = false; ips = [] }, false)

  unfoldable pub bypass_save_nvs : Bool → Clients → Store → Store
  unfolding save_loop
  bypass_save_nvs opened l s = if opened then save_loop bypass_max 0 (codes "byp_") l.ips s else s

  unfoldable pub bypass_init : Bool → Bool → Store → Clients × Bool
  unfolding load_loop
  bypass_init created opened s =
      if created
      then (
        record {
          ready = true;
          ips = if opened then load_loop bypass_max 0 (codes "byp_") s else [];
        },
        true,
      )
      else (record { ready = false; ips = [] }, false)
