-- ===== src/Census/Kept.antt =====
-- What every sighting keeps: the table's size, and one entry for each address.
use mathlib.Core.Option.{none-ne-some}
use esp32_ad_blocker_reborn.Common.{
  ℕ, zero, suc, ◌/◌, ◌≤◌, ◌<◌, ◌≡◌, ◌≢◌, ◌⊎◌, refl, ◌∙◌, sym, ap, arith, Bool, true, false, not,
  ◌||◌, Option, some, List, [], ◌∷◌, ◌++◌, ◌==◌, if◌then◌else◌, length, length-set, length-append,
  set, get_elem?, get_elem?_lt, get_elem?-set_self, get_elem?-set_ne, some_inj, Bool-cases, ==_iff,
  u32, inl, inr,
}
use esp32_ad_blocker_reborn.Census.{
  CensusClient, Census, census_max, count_kind, sighted, fresh, observe, census_observe,
}
use esp32_ad_blocker_reborn.Census.Table.{Unknown, Observed, observe-Observed}

pub record IsCensus (cs : List CensusClient) : Type 0 where
  pub bound : length cs ≤ census_max
  pub distinct :
      (i j : ℕ) (c d : CensusClient)
      → get_elem? cs i ≡ some c
      → get_elem? cs j ≡ some d
      → c.mac ≡ d.mac
      → i ≡ j

count_kind-mac : (kind : ℕ) (c : CensusClient) → (count_kind kind c).mac ≡ c.mac
unfolding count_kind
count_kind-mac kind c = elim (Bool-cases (kind == 0)) [
  | inl e ↦ rw e refl
  | inr e ↦ elim (Bool-cases (kind == 1)) [
    | inl f ↦ rw (e, f) refl
    | inr f ↦ elim (Bool-cases (kind == 2)) [
      | inl g ↦ rw (e, f, g) refl
      | inr g ↦ rw (e, f, g) refl
    ]
  ]
]

sighted-mac :
    (ip kind : ℕ) (hostname : Option (List ℕ)) (now_s : ℕ) (c : CensusClient)
    → (sighted ip kind hostname now_s c).mac ≡ c.mac
unfolding sighted
sighted-mac ip kind hostname now_s c = count_kind-mac kind _

-- An index is the one that was set, or another.
same_or_other : (i j : ℕ) → (i ≡ j) ⊎ (i ≢ j)
same_or_other i j = elim (Bool-cases (i == j)) [
  | inl e ↦ inl ((==_iff i j).0 e)
  | inr e ↦ inr (λ same. no e ((==_iff i j).1 same))
]
  where
    no : (i == j) ≡ false → (i == j) ≡ true → ⊥
    no f t = let wrong : true ≡ false = sym t ∙ f in absurd (cc)

-- What an index holds after a set.
get_set :
    (cs : List CensusClient) (i j : ℕ) (v c : CensusClient)
    → get_elem? (set cs i v) j ≡ some c
    → ((i ≡ j) × (v ≡ c)) ⊎ ((i ≢ j) × (get_elem? cs j ≡ some c))
get_set cs i j v c h = at (same_or_other i j)
  where
    at : (i ≡ j) ⊎ (i ≢ j) → ((i ≡ j) × (v ≡ c)) ⊎ ((i ≢ j) × (get_elem? cs j ≡ some c))
    at (inr ne) = inr (ne, sym (get_elem?-set_ne cs i j v ne) ∙ h)
    at (inl same) =
        let there : i < length cs =
          omega (arith, same, get_elem?_lt (set cs i v) j h, length-set cs i v) in
        inl (
          same,
          some_inj (
              sym (get_elem?-set_self cs i v there)
              ∙ ap (λ (t : ℕ). get_elem? (set cs i v) t) same
              ∙ h),
        )

-- Setting an entry whose address no other entry has.
set-IsCensus :
    (cs : List CensusClient) (i : ℕ) (v : CensusClient)
    → IsCensus cs
    → ((j : ℕ) (c : CensusClient) → i ≢ j → get_elem? cs j ≡ some c → c.mac ≢ v.mac)
    → IsCensus (set cs i v)
set-IsCensus cs i v inv free = record {
  bound = omega (arith, inv.bound, length-set cs i v);
  distinct =
      λ j k c d hj hk same. pair j k c d same (get_set cs i j v c hj) (get_set cs i k v d hk);
}
  where
    pair :
        (j k : ℕ) (c d : CensusClient)
        → c.mac ≡ d.mac
        → ((i ≡ j) × (v ≡ c)) ⊎ ((i ≢ j) × (get_elem? cs j ≡ some c))
        → ((i ≡ k) × (v ≡ d)) ⊎ ((i ≢ k) × (get_elem? cs k ≡ some d))
        → j ≡ k
    pair j k c d same (inl (a, _)) (inl (b, _)) = sym a ∙ b
    pair j k c d same (inl (a, e)) (inr (b, g)) =
        absurd (free k d b g (sym same ∙ ap (λ (t : CensusClient). t.mac) (sym e)))
    pair j k c d same (inr (a, g)) (inl (b, e)) =
        absurd (free j c a g (same ∙ ap (λ (t : CensusClient). t.mac) (sym e)))
    pair j k c d same (inr (a, g)) (inr (b, h)) = inv.distinct j k c d g h same

-- What an index holds in a list with one more entry.
get_added :
    (cs : List CensusClient) (j : ℕ) (v c : CensusClient)
    → get_elem? (cs ++ (v ∷ [])) j ≡ some c
    → ((j ≡ length cs) × (v ≡ c)) ⊎ (get_elem? cs j ≡ some c)
get_added [] zero v c h = inl (refl, some_inj h)
get_added [] (suc j) v c h = absurd (none-ne-some _ h)
get_added (x ∷ xs) zero v c h = inr h
get_added (x ∷ xs) (suc j) v c h = elim (get_added xs j v c h) [
  | inl (a, e) ↦ inl (ap suc a, e)
  | inr g ↦ inr g
]

added-IsCensus :
    (cs : List CensusClient) (v : CensusClient)
    → IsCensus cs
    → length cs < census_max
    → Unknown v.mac cs
    → IsCensus (cs ++ (v ∷ []))
added-IsCensus cs v inv room free = record {
  bound = omega (arith, room, length-append cs (v ∷ []));
  distinct =
      λ j k c d hj hk same. pair j k c d same (get_added cs j v c hj) (get_added cs k v d hk);
}
  where
    pair :
        (j k : ℕ) (c d : CensusClient)
        → c.mac ≡ d.mac
        → ((j ≡ length cs) × (v ≡ c)) ⊎ (get_elem? cs j ≡ some c)
        → ((k ≡ length cs) × (v ≡ d)) ⊎ (get_elem? cs k ≡ some d)
        → j ≡ k
    pair j k c d same (inl (a, _)) (inl (b, _)) = a ∙ sym b
    pair j k c d same (inl (a, e)) (inr g) =
        absurd (free k d g (sym same ∙ ap (λ (t : CensusClient). t.mac) (sym e)))
    pair j k c d same (inr g) (inl (b, e)) =
        absurd (free j c g (same ∙ ap (λ (t : CensusClient). t.mac) (sym e)))
    pair j k c d same (inr g) (inr h) = inv.distinct j k c d g h same

Observed-IsCensus :
    (mac : List ℕ) (now_s : ℕ) (f : CensusClient → CensusClient)
    → ((c : CensusClient) → (f c).mac ≡ c.mac)
    → (cs : List CensusClient) {after : List CensusClient} → IsCensus cs
    → Observed mac now_s f cs after
    → IsCensus after
unfolding fresh
Observed-IsCensus mac now_s f keeps cs inv (Observed.known i c at same) =
    set-IsCensus cs i (f c) inv
      (λ j d ne h equal. ne (inv.distinct i j c d at h (sym (keeps c) ∙ sym equal)))
Observed-IsCensus mac now_s f keeps cs inv (Observed.added free room) =
    added-IsCensus cs (f (fresh mac now_s)) inv room
      (λ i c h equal. free i c h (equal ∙ keeps (fresh mac now_s)))
Observed-IsCensus mac now_s f keeps cs inv (Observed.evicted free full i c at least) =
    set-IsCensus cs i (f (fresh mac now_s)) inv
      (λ j d ne h equal. free j d h (equal ∙ keeps (fresh mac now_s)))

-- A sighting keeps the table at 64 entries or fewer, of which no two have the same address,
-- whether or not it gets the mutex.
pub census_observe-IsCensus :
    (mac : List ℕ) (ip kind : ℕ) (hostname : Option (List ℕ)) (now_us : ℕ) (taken : Bool)
    (t : Census)
    → IsCensus t.clients
    → IsCensus (census_observe mac ip kind hostname now_us taken t).clients
unfolding census_observe
census_observe-IsCensus mac ip kind hostname now_us taken t inv =
    at (not t.has_table || not t.has_mutex) (not taken)
  where
    now_s : ℕ
    now_s = u32 (now_us / 1000000)

    kept : IsCensus (observe mac ip kind hostname now_s t.clients)
    kept =
        Observed-IsCensus mac now_s (sighted ip kind hostname now_s)
          (sighted-mac ip kind hostname now_s) t.clients inv
          (observe-Observed mac ip kind hostname now_s t.clients)

    at :
        (off busy : Bool)
        → IsCensus
            (if off
              then t
              else (if busy
                  then t
                  else record t { clients = observe mac ip kind hostname now_s t.clients })).clients
    at true busy = inv
    at false true = inv
    at false false = kept
