-- ===== src/Census/Table.antt =====
-- What a sighting does to the table of clients.
use mathlib.Core.Option
use mathlib.Core.Option.{none-ne-some}
use esp32_ad_blocker_reborn.Common.{
  ℕ, zero, suc, ◌+◌, ◌-◌, ◌⊎◌, ◌≤◌, ◌<◌, ◌≡◌, ◌≢◌, refl, ◌∙◌, sym, ap, ap₂, subst, arith, Bool,
  true, false, not, ◌||◌, u32, ◌/◌, Option, none, some, List, [], ◌∷◌, ◌++◌, ltb, ltb→lt, ltb→le,
  if◌then◌else◌, length, set, get_elem?, get_elem?_lt, get_elem?-set_self, get_elem?-append,
  some_inj, eq_bytes, eq_bytes_self, eq_bytes_sound, Bool-cases, inl, inr,
}
use esp32_ad_blocker_reborn.Census.Sightings.{Sighted, sighted-Sighted, IsFresh, fresh-IsFresh}
use esp32_ad_blocker_reborn.Census.{
  CensusClient, Census, census_observe, census_max, find_mac, oldest_loop, oldest, fresh, place,
  sighted, write_entry, observe,
}

-- No entry of the table has the address.
abbrev pub Unknown : List ℕ → List CensusClient → Type 0
Unknown mac cs = (i : ℕ) (c : CensusClient) → get_elem? cs i ≡ some c → c.mac ≢ mac

-- The entry `c` was seen least recently.
abbrev pub IsOldest : CensusClient → List CensusClient → Type 0
IsOldest c cs = (i : ℕ) (d : CensusClient) → get_elem? cs i ≡ some d → c.last_seen_s ≤ d.last_seen_s

-- The table after a sighting of `mac` at `now_s`, which writes `f` into the client's entry.
pub data Observed (mac : List ℕ) (now_s : ℕ) (f : CensusClient → CensusClient)
    (cs : List CensusClient) : List CensusClient → Type 0 where
  known :
      (i : ℕ) (c : CensusClient)
      → get_elem? cs i ≡ some c
      → c.mac ≡ mac
      → Observed mac now_s f cs (set cs i (f c))
  added :
      Unknown mac cs
      → length cs < census_max
      → Observed mac now_s f cs (cs ++ (f (fresh mac now_s) ∷ []))
  evicted :
      Unknown mac cs
      → census_max ≤ length cs
      → (i : ℕ) (c : CensusClient) → get_elem? cs i ≡ some c
      → IsOldest c cs
      → Observed mac now_s f cs (set cs i (f (fresh mac now_s)))

module _ {ℓ} {A : Type ℓ} where
  set-append : (xs : List A) (v w : A) → set (xs ++ (v ∷ [])) (length xs) w ≡ xs ++ (w ∷ [])
  set-append [] v w = refl
  set-append (x ∷ xs) v w = ap (λ (t : List A). x ∷ t) (set-append xs v w)

  set-set : (xs : List A) (i : ℕ) (v w : A) → set (set xs i v) i w ≡ set xs i w
  set-set [] i v w = refl
  set-set (x ∷ xs) zero v w = refl
  set-set (x ∷ xs) (suc i) v w = ap (λ (t : List A). x ∷ t) (set-set xs i v w)

-- What `find_mac` answers.
Found : List ℕ → List CensusClient → Option ℕ → Type 0
Found mac cs none = Unknown mac cs
Found mac cs (some i) = (c : CensusClient) × (get_elem? cs i ≡ some c) × (c.mac ≡ mac)

find_mac-Found : (mac : List ℕ) (cs : List CensusClient) → Found mac cs (find_mac mac cs)
unfolding find_mac Found
find_mac-Found mac [] = λ i c h same. absurd (none-ne-some _ h)
find_mac-Found mac (x ∷ xs) = elim (Bool-cases (eq_bytes x.mac mac)) [
  | inl e ↦ rw e (x, refl, eq_bytes_sound x.mac mac e)
  | inr e ↦ rw e (later e (find_mac mac xs) (find_mac-Found mac xs))
]
  where
    later :
        eq_bytes x.mac mac ≡ false
        → (r : Option ℕ) → Found mac xs r
        → Found mac (x ∷ xs) (Option.map suc r)
    later e (some i) h = h
    later e none h = λ i c at same. other i c at same
      where
        other : (i : ℕ) (c : CensusClient) → get_elem? (x ∷ xs) i ≡ some c → c.mac ≢ mac
        other zero c at same =
            let same_mac : x.mac ≡ mac = ap (λ (d : CensusClient). d.mac) (some_inj at) ∙ same in
            let no : true ≡ false =
              sym (eq_bytes_self mac) ∙ ap (λ (t : List ℕ). eq_bytes t mac) (sym same_mac) ∙ e in
            absurd (cc)
        other (suc i) c at same = h i c at same

-- The least entry of the table, when the loop has looked at the entries before `i`.
oldest_loop_lem :
    (all cs : List CensusClient) (i min_i : ℕ) (m : CensusClient)
    → ((j : ℕ) → get_elem? all (i + j) ≡ get_elem? cs j)
    → get_elem? all min_i ≡ some m
    → ((j : ℕ) (d : CensusClient)
        → j < i
        → get_elem? all j ≡ some d
        → m.last_seen_s ≤ d.last_seen_s)
    → (c : CensusClient) × (get_elem? all (oldest_loop i min_i m.last_seen_s cs) ≡ some c)
      × IsOldest c all
unfolding oldest_loop
oldest_loop_lem all [] i min_i m rest at least =
    (m, at, λ j d h. below j d h (Bool-cases (ltb j i)))
  where
    below :
        (j : ℕ) (d : CensusClient)
        → get_elem? all j ≡ some d
        → (ltb j i ≡ true) ⊎ (ltb j i ≡ false)
        → m.last_seen_s ≤ d.last_seen_s
    below j d h (inl e) = least j d (ltb→lt j i e) h
    below j d h (inr e) =
        let index : i + (j - i) ≡ j = omega (arith, ltb→le j i e) in
        absurd (none-ne-some _ (sym (rest (j - i)) ∙ ap (λ (t : ℕ). get_elem? all t) index ∙ h))
oldest_loop_lem all (x ∷ xs) i min_i m rest at least =
    elim (Bool-cases (ltb x.last_seen_s m.last_seen_s)) [
      | inl e ↦ rw e (oldest_loop_lem all xs (i + 1) i x next here (smaller e))
      | inr e ↦ rw e (oldest_loop_lem all xs (i + 1) min_i m next at (same e))
    ]
  where
    next : (j : ℕ) → get_elem? all (i + 1 + j) ≡ get_elem? xs j
    next j = ap (λ (t : ℕ). get_elem? all t) (index j) ∙ rest (suc j)
      where
        index : (j : ℕ) → i + 1 + j ≡ i + suc j
        index j = omega arith

    here : get_elem? all i ≡ some x
    here = ap (λ (t : ℕ). get_elem? all t) (omega arith) ∙ rest 0

    first :
        (b : ℕ)
        → b ≤ m.last_seen_s
        → b ≤ x.last_seen_s
        → (j : ℕ) (d : CensusClient) → j < i + 1
        → get_elem? all j ≡ some d
        → b ≤ d.last_seen_s
    first b p q j d k h = elim (Bool-cases (ltb j i)) [
      | inl e ↦ omega (arith, p, least j d (ltb→lt j i e) h)
      | inr e ↦ at_i j d (omega (arith, ltb→le j i e)) h
    ]
      where
        at_i : (j : ℕ) (d : CensusClient) → j ≡ i → get_elem? all j ≡ some d → b ≤ d.last_seen_s
        at_i j d same h =
            let equal : x ≡ d =
              some_inj (sym here ∙ ap (λ (t : ℕ). get_elem? all t) (sym same) ∙ h) in
            subst (λ (t : CensusClient). b ≤ t.last_seen_s) equal q

    smaller :
        ltb x.last_seen_s m.last_seen_s ≡ true
        → (j : ℕ) (d : CensusClient) → j < i + 1
        → get_elem? all j ≡ some d
        → x.last_seen_s ≤ d.last_seen_s
    smaller e =
        first x.last_seen_s (omega (arith, ltb→lt x.last_seen_s m.last_seen_s e)) (omega arith)

    same :
        ltb x.last_seen_s m.last_seen_s ≡ false
        → (j : ℕ) (d : CensusClient) → j < i + 1
        → get_elem? all j ≡ some d
        → m.last_seen_s ≤ d.last_seen_s
    same e = first m.last_seen_s (omega arith) (ltb→le x.last_seen_s m.last_seen_s e)

oldest_lem :
    (cs : List CensusClient)
    → 0 < length cs
    → (c : CensusClient) × (get_elem? cs (oldest cs) ≡ some c) × IsOldest c cs
unfolding oldest
oldest_lem [] h = absurd (omega arith)
oldest_lem (c ∷ cs) h =
    oldest_loop_lem (c ∷ cs) cs 1 0 c (λ j. ap (λ (t : ℕ). get_elem? (c ∷ cs) t) (next j)) refl
      (λ j d k at. at_zero j d k at)
  where
    next : (j : ℕ) → 1 + j ≡ suc j
    next j = omega arith

    at_zero :
        (j : ℕ) (d : CensusClient)
        → j < 1
        → get_elem? (c ∷ cs) j ≡ some d
        → c.last_seen_s ≤ d.last_seen_s
    at_zero zero d k at =
        subst (λ (t : CensusClient). c.last_seen_s ≤ t.last_seen_s) (some_inj at) (omega arith)
    at_zero (suc j) d k at = absurd (omega arith)

write_entry-some :
    (f : CensusClient → CensusClient) (cs : List CensusClient) (i : ℕ) (c : CensusClient)
    → get_elem? cs i ≡ some c
    → write_entry f (cs, i) ≡ set cs i (f c)
unfolding write_entry
write_entry-some f cs i c at = rw (write_entry, at) refl

write_entry-place-Observed :
    (mac : List ℕ) (now_s : ℕ) (f : CensusClient → CensusClient) (cs : List CensusClient)
    → Observed mac now_s f cs (write_entry f (place mac now_s cs))
unfolding place Found
write_entry-place-Observed mac now_s f cs = at (find_mac mac cs) (find_mac-Found mac cs)
  where
    new : CensusClient
    new = fresh mac now_s

    full :
        (b : Bool)
        → ltb (length cs) census_max ≡ b
        → Unknown mac cs
        → Observed mac now_s f cs (
            write_entry f
              (if b then (cs ++ (new ∷ []), length cs) else (set cs (oldest cs) new, oldest cs)))
    full true e none_known =
        subst (Observed mac now_s f cs)
          (sym (
            write_entry-some f (cs ++ (new ∷ [])) (length cs) new (get_elem?-append cs [] new)
            ∙ set-append cs new (f new)))
          (Observed.added none_known (ltb→lt (length cs) 64 e))
    full false e none_known =
        let many : 64 ≤ length cs = ltb→le (length cs) 64 e in
        let (c, at, least) = oldest_lem cs (omega arith) in
        subst (Observed mac now_s f cs)
          (sym (
            write_entry-some f (set cs (oldest cs) new) (oldest cs) new
              (get_elem?-set_self cs (oldest cs) new (get_elem?_lt cs (oldest cs) at))
            ∙ set-set cs (oldest cs) new (f new)))
          (Observed.evicted none_known many (oldest cs) c at least)

    at :
        (r : Option ℕ)
        → Found mac cs r
        → Observed mac now_s f cs (
            write_entry f (elim r [
              | some i ↦ (cs, i)
              | none ↦
                  if ltb (length cs) census_max
                  then (cs ++ (new ∷ []), length cs)
                  else (set cs (oldest cs) new, oldest cs)
            ]))
    at (some i) (c, got, same) =
        subst (Observed mac now_s f cs) (sym (write_entry-some f cs i c got))
          (Observed.known i c got same)
    at none h = full (ltb (length cs) census_max) refl h

-- A sighting writes into the entry of its address, if the table has one. Otherwise it writes into
-- a fresh entry, which is added behind the others while there are fewer than 64, and which takes
-- the place of an entry seen least recently when there are not.
pub observe-Observed :
    (mac : List ℕ) (ip kind : ℕ) (hostname : Option (List ℕ)) (now_s : ℕ) (cs : List CensusClient)
    → Observed mac now_s (sighted ip kind hostname now_s) cs (observe mac ip kind hostname now_s cs)
unfolding observe
observe-Observed mac ip kind hostname now_s cs =
    write_entry-place-Observed mac now_s (sighted ip kind hostname now_s) cs

-- With the table and the mutex there, a sighting that gets the mutex writes the client's entry:
-- the one that has its address already; otherwise a fresh one, behind the others while there are
-- fewer than 64, and in the place of an entry seen least recently when there are not. A fresh entry
-- has the address, this time as its first sighting, no name and zeros. What is written into an entry
-- is this time as its last sighting, the IP address unless it is 0, the first 31 bytes of the name
-- unless there is none or it is empty, and one more in the count of the sighting's kind; the rest
-- stays. One that does not get the mutex changes nothing.
pub census_observe-Observed :
    (mac : List ℕ) (ip kind : ℕ) (hostname : Option (List ℕ)) (now_us : ℕ) (t : Census)
    → t.has_table ≡ true
    → t.has_mutex ≡ true
    → Observed mac
        (u32 (now_us / 1000000))
        (sighted ip kind hostname (u32 (now_us / 1000000)))
        t.clients
        (census_observe mac ip kind hostname now_us true t).clients
      × ((c : CensusClient)
          → Sighted ip kind hostname
              (u32 (now_us / 1000000))
              c
              (sighted ip kind hostname (u32 (now_us / 1000000)) c))
      × IsFresh mac (u32 (now_us / 1000000)) (fresh mac (u32 (now_us / 1000000)))
      × (census_observe mac ip kind hostname now_us false t ≡ t)
unfolding census_observe
census_observe-Observed mac ip kind hostname now_us t a b = (
  subst
      (λ (d : Bool).
        Observed mac now_s (sighted ip kind hostname now_s) t.clients
          (if d
            then t
            else (if not true
                then t
                else record t { clients = observe mac ip kind hostname now_s t.clients })).clients)
      (sym ready) (observe-Observed mac ip kind hostname now_s t.clients),
  (λ c. sighted-Sighted ip kind hostname now_s c),
  fresh-IsFresh mac now_s,
  subst
      (λ (d : Bool).
        (if d
          then t
          else (if not false
              then t
              else record t { clients = observe mac ip kind hostname now_s t.clients }))
        ≡ t)
      (sym ready) refl,
)
  where
    now_s : ℕ
    now_s = u32 (now_us / 1000000)

    ready : (not t.has_table || not t.has_mutex) ≡ false
    ready = ap₂ (λ (x y : Bool). not x || not y) a b
