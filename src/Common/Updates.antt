-- ===== src/Common/Updates.antt =====
-- What a list of which one element is written, or all are the same, holds at an index.
use Prim.Native.Nat.{ℕ, zero, suc, ◌<◌}
use mathlib.Core.Path.{◌≡◌, refl, sym, ap, ◌∙◌}
use mathlib.Core.Logic.{◌≢◌, ◌⊎◌, inl, inr}
use mathlib.Core.List.{List}
use mathlib.Core.Option.{some, none-ne-some}
use mathlib.Core.Bool.{Bool, true, false}
use native.Mathlib.Omega.{arith}
use esp32_ad_blocker_reborn.Common.Tests.{◌==◌, ==_iff, some_inj}
use esp32_ad_blocker_reborn.Common.Lists.{
  length, length-set, set, replicate, get_elem?, get_elem?-set_self, get_elem?-set_ne, get_elem?_lt,
}

-- What an index holds after a set.
pub get_set :
    {A : Type 0} (xs : List A) (i j : ℕ) (v x : A)
    → get_elem? (set xs i v) j ≡ some x
    → ((i ≡ j) × (v ≡ x)) ⊎ ((i ≢ j) × (get_elem? xs j ≡ some x))
get_set xs i j v x h = at (i == j) refl
  where
    at : (b : Bool) → (i == j) ≡ b → ((i ≡ j) × (v ≡ x)) ⊎ ((i ≢ j) × (get_elem? xs j ≡ some x))
    at true e =
        let same : i ≡ j = (==_iff i j).0 e in
        let there : i < length xs =
          omega (arith, same, get_elem?_lt (set xs i v) j h, length-set xs i v) in
        inl (
          same,
          some_inj (
              sym (get_elem?-set_self xs i v there)
              ∙ ap (λ (t : ℕ). get_elem? (set xs i v) t) same
              ∙ h),
        )
    at false e =
        let ne : i ≢ j =
          λ same. (let no : true ≡ false = sym ((==_iff i j).1 same) ∙ e in absurd (cc)) in
        inr (ne, sym (get_elem?-set_ne xs i j v ne) ∙ h)

pub get-replicate :
    {A : Type 0} (n : ℕ) (v x : A) (i : ℕ) → get_elem? (replicate n v) i ≡ some x → v ≡ x
get-replicate zero v x i h = absurd (none-ne-some _ h)
get-replicate (suc n) v x zero h = some_inj h
get-replicate (suc n) v x (suc i) h = get-replicate n v x i h
