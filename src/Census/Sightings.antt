-- ===== src/Census/Sightings.antt =====
-- What a sighting writes into the entry of a client.
use esp32_ad_blocker_reborn.Common.{
  ℕ, ◌+◌, ◌≡◌, ◌≢◌, ◌⊎◌, refl, ◌∙◌, sym, subst, arith, Bool, true, false, Option, none, some, List,
  [], ◌∷◌, ◌==◌, ==_iff, ltb, if◌then◌else◌, length, take, take-all, u32, inl, inr,
}
use esp32_ad_blocker_reborn.Census.{CensusClient, census_copy_hostname, count_kind, sighted, fresh}

-- What becomes of a client's name: the one that is told, cut to 31 bytes, if it is not empty.
pub data Named (old : List ℕ) : Option (List ℕ) → List ℕ → Type 0 where
  untold : Named old none old
  told_nothing : Named old (some []) old
  told : (x : ℕ) (xs : List ℕ) → Named old (some (x ∷ xs)) (take 31 (x ∷ xs))

-- The entry `d` that a sighting makes of the entry `c`.
pub record Sighted (addr kind : ℕ) (hostname : Option (List ℕ)) (now_s : ℕ) (c d : CensusClient)
    : Type 0 where
  pub mac : d.mac ≡ c.mac
  pub first_seen : d.first_seen_s ≡ c.first_seen_s
  pub last_seen : d.last_seen_s ≡ now_s
  pub address : ((addr ≡ 0) × (d.ip ≡ c.ip)) ⊎ ((addr ≢ 0) × (d.ip ≡ addr))
  pub name : Named c.hostname hostname d.hostname
  pub arp : d.arp_count ≡ (if kind == 0 then u32 (c.arp_count + 1) else c.arp_count)
  pub dhcp : d.dhcp_count ≡ (if kind == 1 then u32 (c.dhcp_count + 1) else c.dhcp_count)
  pub query : d.query_count ≡ (if kind == 2 then u32 (c.query_count + 1) else c.query_count)

-- An entry that was just made.
pub record IsFresh (mac : List ℕ) (now_s : ℕ) (c : CensusClient) : Type 0 where
  pub address : c.mac ≡ mac
  pub first_seen : c.first_seen_s ≡ now_s
  pub nameless : c.hostname ≡ []
  pub zeros :
      (c.ip ≡ 0)
      × (c.last_seen_s ≡ 0)
      × (c.arp_count ≡ 0)
      × (c.dhcp_count ≡ 0)
      × (c.query_count ≡ 0)

pub fresh-IsFresh : (mac : List ℕ) (now_s : ℕ) → IsFresh mac now_s (fresh mac now_s)
unfolding fresh
fresh-IsFresh mac now_s = record {
  address = refl;
  first_seen = refl;
  nameless = refl;
  zeros = (refl, refl, refl, refl, refl);
}

-- At most one of the counts goes up.
counted :
    (kind : ℕ) (c : CensusClient)
    → count_kind kind c ≡ record c {
      arp_count = if kind == 0 then u32 (c.arp_count + 1) else c.arp_count;
      dhcp_count = if kind == 1 then u32 (c.dhcp_count + 1) else c.dhcp_count;
      query_count = if kind == 2 then u32 (c.query_count + 1) else c.query_count;
    }
unfolding count_kind
counted kind c = at (kind == 0) (kind == 1) (kind == 2) refl refl refl
  where
    no_two : (a b : ℕ) → a ≢ b → (kind == a) ≡ true → (kind == b) ≡ true → ⊥
    no_two a b ne p q = ne (sym ((==_iff kind a).0 p) ∙ (==_iff kind b).0 q)

    at :
        (x y z : Bool)
        → (kind == 0) ≡ x
        → (kind == 1) ≡ y
        → (kind == 2) ≡ z
        → (if x
            then record c { arp_count = u32 (c.arp_count + 1) }
            else (if y
                then record c { dhcp_count = u32 (c.dhcp_count + 1) }
                else (if z then record c { query_count = u32 (c.query_count + 1) } else c)))
          ≡ record c {
            arp_count = if x then u32 (c.arp_count + 1) else c.arp_count;
            dhcp_count = if y then u32 (c.dhcp_count + 1) else c.dhcp_count;
            query_count = if z then u32 (c.query_count + 1) else c.query_count;
          }
    at true true z p q r = absurd (no_two 0 1 (λ e. omega (arith, e)) p q)
    at true false true p q r = absurd (no_two 0 2 (λ e. omega (arith, e)) p r)
    at false true true p q r = absurd (no_two 1 2 (λ e. omega (arith, e)) q r)
    at true false false p q r = refl
    at false true false p q r = refl
    at false false true p q r = refl
    at false false false p q r = refl

-- A name is copied up to its 31st byte.
copied_name : (src : List ℕ) → census_copy_hostname (some src) ≡ take 31 src
unfolding census_copy_hostname
copied_name src = at (ltb (length src) 31) refl
  where
    at :
        (b : Bool) → ltb (length src) 31 ≡ b → take (if b then length src else 31) src ≡ take 31 src
    at false e = refl
    at true e = take-all (length src) src (omega arith) ∙ sym (take-all 31 src (ground (arith, e)))

pub sighted-Sighted :
    (addr kind : ℕ) (hostname : Option (List ℕ)) (now_s : ℕ) (c : CensusClient)
    → Sighted addr kind hostname now_s c (sighted addr kind hostname now_s c)
unfolding sighted
sighted-Sighted addr kind hostname now_s c =
    subst (λ (d : CensusClient). Sighted addr kind hostname now_s c d) (sym (counted kind old))
      (record {
        mac = refl;
        first_seen = refl;
        last_seen = refl;
        address = address (addr == 0) refl;
        name = name hostname;
        arp = refl;
        dhcp = refl;
        query = refl;
      })
  where
    kept : Option (List ℕ) → List ℕ
    kept t = elim t as (λ x. List ℕ) [
      | none ↦ c.hostname
      | some h ↦ if ltb 0 (length h) then census_copy_hostname (some h) else c.hostname
    ]

    old : CensusClient
    old = record c {
      last_seen_s = now_s;
      ip = if addr == 0 then c.ip else addr;
      hostname = kept hostname;
    }

    address :
        (b : Bool)
        → (addr == 0) ≡ b
        → ((addr ≡ 0) × ((if b then c.ip else addr) ≡ c.ip))
          ⊎ ((addr ≢ 0) × ((if b then c.ip else addr) ≡ addr))
    address true e = inl ((==_iff addr 0).0 e, refl)
    address false e =
        inr ((λ z. (let wrong : true ≡ false = sym ((==_iff addr 0).1 z) ∙ e in absurd (cc))), refl)

    name : (t : Option (List ℕ)) → Named c.hostname t (kept t)
    name none = Named.untold
    name (some []) = Named.told_nothing
    name (some (x ∷ xs)) =
        let full : ltb 0 (length (x ∷ xs)) ≡ true = ground arith in
        rw (full) (
          subst (λ (n : List ℕ). Named c.hostname (some (x ∷ xs)) n) (sym (copied_name (x ∷ xs)))
            (Named.told x xs))
