-- ===== src/Clients/Examples.antt =====
-- Tests of the client lists, and the theorems at concrete lists.
use esp32_ad_blocker_reborn.Common.{
  ℕ, ◌≡◌, ◌≢◌, inl, inr, refl, arith, true, Option, none, some, List, [], ◌∷◌, codes, if◌then◌else◌,
  eq_bytes, eq_bytes_self, eq_bytes_sound, Bool-cases,
}
use esp32_ad_blocker_reborn.Address.{acl_parse_ip4}
use esp32_ad_blocker_reborn.Clients.{
  Clients, Nvs, contains, acl_add, bypass_add, acl_init, acl_save_nvs, bypass_init, bypass_save_nvs,
}
use esp32_ad_blocker_reborn.Clients.Members.{IsList}
use esp32_ad_blocker_reborn.Clients.Stored.{started, init-save_nvs}
use esp32_ad_blocker_reborn.Clients.Effect.{Adds, acl_add-Adds}

-- A store as the list of its writes, the last one first; an erased key holds `none`.
abbrev Log : Type 0
Log = List (List ℕ × Option (List ℕ))

log_get : Log → List ℕ → Option (List ℕ)
log_get [] k = none
log_get ((j, v) ∷ log) k = let rest = log_get log k in if eq_bytes j k then v else rest

log_get_self : (log : Log) (k : List ℕ) (v : Option (List ℕ)) → log_get ((k, v) ∷ log) k ≡ v
unfolding log_get
log_get_self log k v = rw (log_get, eq_bytes_self k) refl

log_get_ne :
    (log : Log) (k j : List ℕ) (v : Option (List ℕ))
    → k ≢ j
    → log_get ((k, v) ∷ log) j ≡ log_get log j
unfolding log_get
log_get_ne log k j v ne = elim (Bool-cases (eq_bytes k j)) [
  | inl e ↦ absurd (ne (eq_bytes_sound k j e))
  | inr e ↦ rw (log_get, e) refl
]

abbrev log_store : Nvs
log_store = record {
  Store = Log;
  get_str = log_get;
  set_str = λ log k v. (k, some v) ∷ log;
  erase_key = λ log k. (k, none) ∷ log;
  get-set_self = λ log k v. log_get_self log k (some v);
  get-set_ne = λ log k j v ne. log_get_ne log k j (some v) ne;
  get-erase_self = λ log k. log_get_self log k none;
  get-erase_ne = λ log k j ne. log_get_ne log k j none ne;
}

abbrev list : Clients
list = record { ready = true; ips = 0xc0a8_0105 ∷ 0x0a00_0001 ∷ [] }

list-IsList : IsList list
unfolding contains
list-IsList = record {
  fits = omega arith;
  addresses =
      (λ e. absurd (omega arith), omega arith, (λ e. absurd (omega arith), omega arith, tt));
  distinct = (refl, (refl, tt));
}

acl_add-Adds_example :
    Adds (acl_parse_ip4 (codes "10.0.0.2")) list (acl_add (some (codes "10.0.0.2")) list)
    × Adds (acl_parse_ip4 (codes "10.0.0.2")) list (bypass_add (some (codes "10.0.0.2")) list)
acl_add-Adds_example = acl_add-Adds (codes "10.0.0.2") list list-IsList

init-save_nvs_example :
    (acl_init log_store true true (acl_save_nvs log_store true list []) ≡ started list.ips)
    × (bypass_init log_store true true (bypass_save_nvs log_store true list []) ≡ started list.ips)
init-save_nvs_example = init-save_nvs log_store list [] list-IsList.addresses (omega arith)
