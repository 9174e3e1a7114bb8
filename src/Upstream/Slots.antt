-- ===== src/Upstream/Slots.antt =====
-- What the searches of the table find.
use mathlib.Core.Option
use mathlib.Core.Option.{none-ne-some}
use esp32_ad_blocker_reborn.Common.{
  ℕ, zero, suc, ◌<◌, ◌≡◌, refl, ◌∙◌, sym, ap, arith, Bool, true, false, ◌||◌, Option, none, some,
  List, [], ◌∷◌, if◌then◌else◌, some_inj, get_elem?,
}
use esp32_ad_blocker_reborn.Upstream.{UpstreamEntry, find_entry, has_txid, txid_in_use}

-- The first entry that passes a test, or that none does.
abbrev pub First : (UpstreamEntry → Bool) → List UpstreamEntry → Option ℕ → Type 0
First test es none = (i : ℕ) (e : UpstreamEntry) → get_elem? es i ≡ some e → test e ≡ false
First test es (some i) =
    (e : UpstreamEntry) × (get_elem? es i ≡ some e)
    × (test e ≡ true)
    × ((j : ℕ) (f : UpstreamEntry) → j < i → get_elem? es j ≡ some f → test f ≡ false)

pub find_entry-First :
    (test : UpstreamEntry → Bool) (es : List UpstreamEntry) → First test es (find_entry test es)
unfolding find_entry
find_entry-First test [] = λ i e h. absurd (none-ne-some _ h)
find_entry-First test (x ∷ xs) = at (test x) refl (find_entry test xs) (find_entry-First test xs)
  where
    at :
        (b : Bool)
        → test x ≡ b
        → (r : Option ℕ) → First test xs r
        → First test (x ∷ xs) (if b then some 0 else Option.map suc r)
    at true hit r h = (x, refl, hit, λ j f less at. absurd (omega (arith, less)))
    at false miss none h = each
      where
        each : (i : ℕ) (e : UpstreamEntry) → get_elem? (x ∷ xs) i ≡ some e → test e ≡ false
        each zero e at = ap test (sym (some_inj at)) ∙ miss
        each (suc i) e at = h i e at
    at false miss (some i) (e, there, hit, before) = (e, there, hit, each)
      where
        each :
            (j : ℕ) (f : UpstreamEntry) → j < suc i → get_elem? (x ∷ xs) j ≡ some f → test f ≡ false
        each zero f less at = ap test (sym (some_inj at)) ∙ miss
        each (suc j) f less at = before j f (omega (arith, less)) at

-- If an entry passes, and no other does, it is found.
pub find_entry_unique :
    (test : UpstreamEntry → Bool) (es : List UpstreamEntry) (i : ℕ) (e : UpstreamEntry)
    → get_elem? es i ≡ some e
    → test e ≡ true
    → ((j : ℕ) (f : UpstreamEntry) → get_elem? es j ≡ some f → test f ≡ true → j ≡ i)
    → find_entry test es ≡ some i
find_entry_unique test es i e there hit only = at (find_entry test es) (find_entry-First test es)
  where
    at : (r : Option ℕ) → First test es r → r ≡ some i
    at none h = let wrong : true ≡ false = sym hit ∙ h i e there in absurd (cc)
    at (some j) (f, place, pass, _) = ap some (only j f place pass)

-- An identifier that is not in use is no entry's.
pub txid_in_use_sound :
    (t : ℕ) (es : List UpstreamEntry)
    → txid_in_use t es ≡ false
    → (i : ℕ) (e : UpstreamEntry) → get_elem? es i ≡ some e
    → has_txid t e ≡ false
unfolding txid_in_use
txid_in_use_sound t [] h i e at = absurd (none-ne-some _ at)
txid_in_use_sound t (x ∷ xs) h i e at =
    on (has_txid t x) refl (λ later i. txid_in_use_sound t xs later i e) h i at
  where
    on :
        (b : Bool)
        → has_txid t x ≡ b
        → (txid_in_use t xs ≡ false → (i : ℕ) → get_elem? xs i ≡ some e → has_txid t e ≡ false)
        → (b || txid_in_use t xs) ≡ false
        → (i : ℕ) → get_elem? (x ∷ xs) i ≡ some e
        → has_txid t e ≡ false
    on true hit later h i at = absurd (cc)
    on false miss later h zero at = ap (has_txid t) (sym (some_inj at)) ∙ miss
    on false miss later h (suc i) at = later h i at
