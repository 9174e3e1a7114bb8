-- ===== src/Clients/Effect.antt =====
-- `acl_add`, `acl_remove` and their twins, and what the readers' answers rest on.
use esp32_ad_blocker_reborn.Common.{
  ℕ, ◌<◌, ◌≡◌, ◌≢◌, ◌⊎◌, inl, inr, refl, arith, Bool, true, false, ◌||◌, some, List, [], ◌∷◌, ◌++◌,
  ◌==◌, ltb, leb, length, length-append, Bool-cases,
}
use esp32_ad_blocker_reborn.Address.{acl_parse_ip4}
use esp32_ad_blocker_reborn.Address.RoundTrip.{acl_parse_ip4-lt}
use esp32_ad_blocker_reborn.Clients.{
  Clients, contains, add_ip, remove_ip, acl_add, acl_remove, acl_permits, acl_permits_nb,
  bypass_add, bypass_remove,
}
use esp32_ad_blocker_reborn.Clients.Members.{
  IsList, contains-append, append-AreDistinct, append-AreAddresses, contains-delete_ip,
  contains-delete_ip_self, delete_ip-found, delete_ip-AreDistinct, delete_ip-AreAddresses,
  length-delete_ip,
}

-- What the result of an addition says: the address is listed, or nothing could be added.
abbrev pub Added : Bool → ℕ → Clients → Clients → Type 0
Added true ip l l' = contains ip l'.ips ≡ true
Added false ip l l' = (l' ≡ l) × ((length l.ips ≡ 8) ⊎ (ip ≡ 0))

pub record Adds (ip : ℕ) (l : Clients) (r : Clients × Bool × Bool) : Type 0 where
  pub sound : IsList r.0
  pub outcome : Added r.1 ip l r.0
  pub others : (other : ℕ) → other ≢ ip → contains other r.0.ips ≡ contains other l.ips
  pub saved : (r.2 ≡ true) ⊎ (r.0.ips ≡ l.ips)

pub record Removes (ip : ℕ) (l : Clients) (r : Clients × Bool × Bool) : Type 0 where
  pub sound : IsList r.0
  pub outcome : r.1 ≡ contains ip l.ips
  pub gone : contains ip r.0.ips ≡ false
  pub others : (other : ℕ) → other ≢ ip → contains other r.0.ips ≡ contains other l.ips
  pub saved : r.2 ≡ r.1

module _ (s : List ℕ) (l : Clients) (sound : IsList l) where
  Adds-refused :
      (leb 8 (length l.ips) || acl_parse_ip4 s == 0) ≡ true
      → Adds (acl_parse_ip4 s) l (l, false, false)
  Adds-refused h = record {
    sound = sound;
    outcome = (refl, ground (arith, sound.fits));
    others = λ other ne. refl;
    saved = inr refl;
  }

  Adds-listed : contains (acl_parse_ip4 s) l.ips ≡ true → Adds (acl_parse_ip4 s) l (l, true, false)
  Adds-listed h = record { sound = sound; outcome = h; others = λ other ne. refl; saved = inr refl }

  Adds-new :
      acl_parse_ip4 s ≢ 0
      → length l.ips < 8
      → contains (acl_parse_ip4 s) l.ips ≡ false
      → Adds (acl_parse_ip4 s) l (record l { ips = l.ips ++ (acl_parse_ip4 s ∷ []) }, true, true)
  Adds-new ne room fresh =
      let ip = acl_parse_ip4 s in
      record {
        sound = record {
          fits = omega (arith, length-append l.ips (ip ∷ []));
          addresses = append-AreAddresses ip l.ips ne (acl_parse_ip4-lt s) sound.addresses;
          distinct = append-AreDistinct ip l.ips fresh sound.distinct;
        };
        outcome = ground (arith, contains-append ip ip l.ips);
        others = λ other differs. ground (arith, differs, contains-append other ip l.ips);
        saved = inl refl;
      }

  add_ip-Adds : Adds (acl_parse_ip4 s) l (add_ip 8 (some s) l)
  unfolding add_ip
  add_ip-Adds = elim (Bool-cases (leb 8 (length l.ips) || acl_parse_ip4 s == 0)) [
    | inl e ↦ rw (add_ip, e) (Adds-refused e)
    | inr e ↦ elim (Bool-cases (contains (acl_parse_ip4 s) l.ips)) [
      | inl c ↦ rw (add_ip, e, c) (Adds-listed c)
      | inr c ↦
          let room : ltb (length l.ips) 8 ≡ true = ground arith in
          rw (add_ip, e, c, room) (Adds-new (ground arith) (ground arith) c)
    ]
  ]

  remove_ip-Removes : Removes (acl_parse_ip4 s) l (remove_ip (some s) l)
  unfolding remove_ip
  remove_ip-Removes =
      let ip = acl_parse_ip4 s in
      record {
        sound = record {
          fits = omega (arith, length-delete_ip ip l.ips, sound.fits);
          addresses = delete_ip-AreAddresses ip l.ips sound.addresses;
          distinct = delete_ip-AreDistinct ip l.ips sound.distinct;
        };
        outcome = delete_ip-found ip l.ips;
        gone = contains-delete_ip_self ip l.ips sound.distinct;
        others = λ other ne. contains-delete_ip ip other l.ips ne;
        saved = refl;
      }

  -- Adding on a sound list of either file leaves a sound list: at most 8 addresses of 32 bits, none
  -- 0.0.0.0 and none twice. If the result is true the address of the text is listed; if it is false
  -- nothing changed, and the list was full or the text is no address. No other address's standing
  -- changes, and the list is saved unless it is as before.
  pub acl_add-Adds :
      Adds (acl_parse_ip4 s) l (acl_add (some s) l)
      × Adds (acl_parse_ip4 s) l (bypass_add (some s) l)
  unfolding acl_add bypass_add
  acl_add-Adds = (add_ip-Adds, add_ip-Adds)

  -- Removing from a sound list of either file leaves a sound list without the address; the result is
  -- true exactly when it was listed, and the list is saved exactly then. No other address's standing
  -- changes.
  pub acl_remove-Removes :
      Removes (acl_parse_ip4 s) l (acl_remove (some s) l)
      × Removes (acl_parse_ip4 s) l (bypass_remove (some s) l)
  unfolding acl_remove bypass_remove
  acl_remove-Removes = (remove_ip-Removes, remove_ip-Removes)

permits_nb-cases :
    (seen : ℕ) (taken : Bool) (ip : ℕ) (l : Clients)
    → acl_permits_nb seen taken ip l ≡ true
    → (seen ≡ 0) ⊎ (contains ip l.ips ≡ true)
unfolding acl_permits_nb
permits_nb-cases seen taken ip l h = ground arith

-- If the fast path permits a client without waiting, the list was empty when it looked or the client
-- is on it, and the blocking check on the same list permits the client too, whether it gets the mutex
-- or not.
pub acl_permits_nb_sound :
    (seen : ℕ) (taken taken' : Bool) (ip : ℕ) (l : Clients)
    → acl_permits_nb seen taken ip l ≡ true
    → ((seen ≡ 0) ⊎ (contains ip l.ips ≡ true)) × (acl_permits seen taken' ip l ≡ true)
unfolding acl_permits
acl_permits_nb_sound seen taken taken' ip l h =
    (permits_nb-cases seen taken ip l h, ground (arith, permits_nb-cases seen taken ip l h))
