-- ===== src/Clients/Stored.antt =====
-- What is saved is what is loaded at the next start.
use esp32_ad_blocker_reborn.Common.{
  ℕ, zero, suc, ◌+◌, ◌^◌, ◌≤◌, ◌<◌, ◌≡◌, ◌≢◌, refl, ◌∙◌, ap, arith, Bool, true, false, List, [],
  ◌∷◌, ◌++◌, ◌==◌, length, codes,
}
use esp32_ad_blocker_reborn.Address.{print_ip4}
use esp32_ad_blocker_reborn.Address.RoundTrip.{acl_parse_ip4-print_ip4}
use esp32_ad_blocker_reborn.Clients.{
  Clients, Nvs, slot_key, save_loop, load_loop, acl_save_nvs, acl_init, bypass_save_nvs,
  bypass_init,
}

-- Addresses of 32 bits that are not 0.0.0.0.
abbrev pub AreAddresses : List ℕ → Type 0
AreAddresses [] = Unit {0}
AreAddresses (ip ∷ ips) = (ip ≢ 0) × (ip < 2 ^ 32) × AreAddresses ips

append_inj : (xs : List ℕ) (a b : ℕ) → xs ++ (a ∷ []) ≡ xs ++ (b ∷ []) → a ≡ b
append_inj [] a b e = cc
append_inj (x ∷ xs) a b e = append_inj xs a b (cc)

slot_key_ne : (prefix : List ℕ) (i j : ℕ) → i ≢ j → slot_key prefix i ≢ slot_key prefix j
unfolding slot_key
slot_key_ne prefix i j ne e = ne (omega (arith, append_inj prefix (b'0' + i) (b'0' + j) e))

module _ (nvs : Nvs) (prefix : List ℕ) where
  open nvs use {Store, get_str, set_str, erase_key}

  -- The slots below the loop are as before.
  get_str-save_loop :
      (left i j : ℕ) (ips : List ℕ) (s : Store)
      → j < i
      → get_str (save_loop nvs left i prefix ips s) (slot_key prefix j)
        ≡ get_str s (slot_key prefix j)
  unfolding save_loop
  get_str-save_loop zero i j ips s h = refl
  get_str-save_loop (suc left) i j [] s h =
      get_str-save_loop left (i + 1) j [] (erase_key s (slot_key prefix i)) (omega arith)
      ∙ nvs.get-erase_ne s (slot_key prefix i) (slot_key prefix j)
          (slot_key_ne prefix i j (λ e. absurd (omega arith)))
  get_str-save_loop (suc left) i j (ip ∷ ips) s h =
      get_str-save_loop left (i + 1) j ips (set_str s (slot_key prefix i) (print_ip4 ip))
        (omega arith)
      ∙ nvs.get-set_ne s (slot_key prefix i) (slot_key prefix j) (print_ip4 ip)
          (slot_key_ne prefix i j (λ e. absurd (omega arith)))

  load_loop-save_loop :
      (left i : ℕ) (ips : List ℕ) (s : Store)
      → AreAddresses ips
      → length ips ≤ left
      → load_loop nvs left i prefix (save_loop nvs left i prefix ips s) ≡ ips
  unfolding load_loop save_loop
  load_loop-save_loop zero i [] s a h = refl
  load_loop-save_loop zero i (ip ∷ ips) s a h = absurd (omega arith)
  load_loop-save_loop (suc left) i [] s a h =
      let erased = erase_key s (slot_key prefix i) in
      rw
        (
          load_loop,
          get_str-save_loop left (i + 1) i [] erased (omega arith),
          nvs.get-erase_self s (slot_key prefix i),
        )
        (load_loop-save_loop left (i + 1) [] erased tt (omega arith))
  load_loop-save_loop (suc left) i (ip ∷ ips) s (nonzero, small, a) h =
      let written = set_str s (slot_key prefix i) (print_ip4 ip) in
      rw
        (
          load_loop,
          get_str-save_loop left (i + 1) i ips written (omega arith),
          nvs.get-set_self s (slot_key prefix i) (print_ip4 ip),
          acl_parse_ip4-print_ip4 ip small,
          some_address ip nonzero,
        )
        (ap (λ (t : List ℕ). ip ∷ t) (load_loop-save_loop left (i + 1) ips written a (omega arith)))
    where
      some_address : (ip : ℕ) → ip ≢ 0 → (ip == 0) ≡ false
      some_address ip nonzero = ground arith

-- The result of a start with these addresses.
abbrev pub started : List ℕ → Clients × Bool
started ips = (record { ready = true; ips = ips }, true)

-- With a store that keeps under each key what was last written there: a list of at most 8 addresses,
-- none of them 0.0.0.0, that was saved by either file is the list that its start loads, whatever the
-- store held before.
pub init-save_nvs :
    (nvs : Nvs) (l : Clients) (s : nvs.Store)
    → AreAddresses l.ips
    → length l.ips ≤ 8
    → (acl_init nvs true true (acl_save_nvs nvs true l s) ≡ started l.ips)
      × (bypass_init nvs true true (bypass_save_nvs nvs true l s) ≡ started l.ips)
unfolding acl_init acl_save_nvs bypass_init bypass_save_nvs
init-save_nvs nvs l s a h = (
  ap started (load_loop-save_loop nvs (codes "acl_") 8 0 l.ips s a h),
  ap started (load_loop-save_loop nvs (codes "byp_") 8 0 l.ips s a h),
)
