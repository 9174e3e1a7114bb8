-- ===== src/Common/Memory.antt =====
-- Code that reads buffers: a run ends with a value, reads out of bounds, or runs out of fuel.
use Prim.Native.Nat.{ℕ, zero, suc, ◌+◌, ◌≤◌, ◌<◌}
use mathlib.Core.Path.{◌≡◌, refl}
use mathlib.Core.Option.{Option, none, some}
use mathlib.Core.List.{List, [], ◌∷◌}
use native.Mathlib.Omega.{arith}
use esp32_ad_blocker_reborn.Common.Lists.{get_elem?, get_elem?_total, length, set}
use esp32_ad_blocker_reborn.Common.Tests.{ltb, lt→ltb, if◌then◌else◌}

pub data Run {ℓ} (A : Type ℓ) : Type ℓ where
  done : A → Run A
  fault : Run A
  out_of_fuel : Run A

infixl 5 ◌>>=◌
abbrev pub ◌>>=◌ {ℓ κ} : {A : Type ℓ} {B : Type κ} → Run A → (A → Run B) → Run B
done a >>= f = f a
fault >>= f = fault
out_of_fuel >>= f = out_of_fuel

-- A read through a pointer: out of bounds it faults.
abbrev pub load {ℓ} : {A : Type ℓ} → List A → ℕ → Run A
load xs i = elim (get_elem? xs i) [ none ↦ fault | some x ↦ done x ]

-- The run ends normally, with a result that satisfies `P`.
abbrev pub Returns {ℓ} : {A : Type ℓ} → Run A → (A → Type 0) → Type 0
Returns (done a) P = P a
Returns fault P = ⊥
Returns out_of_fuel P = ⊥

pub Returns_mono :
    {A : Type 0} (r : Run A) {P Q : A → Type 0} → Returns r P → ((a : A) → P a → Q a) → Returns r Q
Returns_mono (done a) h f = f a h
Returns_mono fault h f = absurd h
Returns_mono out_of_fuel h f = absurd h

pub Returns-bind :
    {A B : Type 0} (r : Run A) (f : A → Run B) {P : A → Type 0} (Q : B → Type 0)
    → Returns r P
    → ((a : A) → P a → Returns (f a) Q)
    → Returns (r >>= f) Q
Returns-bind (done a) f Q h k = k a h
Returns-bind fault f Q h k = absurd h
Returns-bind out_of_fuel f Q h k = absurd h

pub load-some {ℓ} :
    {A : Type ℓ} (xs : List A) (i : ℕ) {x : A} → get_elem? xs i ≡ some x → load xs i ≡ done x
load-some xs i e = rw (load, e)

-- A bind that ends normally did so in both parts.
pub >>=-eq-done {ℓ κ} :
    {A : Type ℓ} {B : Type κ} (r : Run A) (f : A → Run B) {b : B}
    → (r >>= f) ≡ done b
    → (a : A) × (r ≡ done a) × (f a ≡ done b)
>>=-eq-done (done a) f h = (a, refl, h)
>>=-eq-done fault f h = cc
>>=-eq-done out_of_fuel f h = cc

pub load-eq-done {ℓ} :
    {A : Type ℓ} (xs : List A) (i : ℕ) {x : A} → load xs i ≡ done x → get_elem? xs i ≡ some x
load-eq-done {A} xs i {x} h = go (get_elem? xs i) h
  where
    go :
        (o : Option A)
        → elim o as (λ _. Run A) [ none ↦ fault | some y ↦ done y ] ≡ done x
        → o ≡ some x
    go none h = cc
    go (some y) h = cc

-- `memcpy` out of a buffer: `n` bytes from an offset.
unfoldable pub load_range {ℓ} : {A : Type ℓ} → List A → ℕ → ℕ → Run (List A)
load_range xs i zero = done []
load_range xs i (suc n) =
    let rest = load_range xs (i + 1) n in load xs i >>= λ x. rest >>= λ ys. done (x ∷ ys)

-- Inside the buffer all bytes asked for are copied.
pub load_range-total :
    {A : Type 0} (xs : List A) (i n : ℕ)
    → i + n ≤ length xs
    → (ys : List A) × (load_range xs i n ≡ done ys) × (length ys ≡ n)
unfolding load_range
load_range-total xs i zero h = ([], refl, refl)
load_range-total xs i (suc n) h =
    let (x, e) = get_elem?_total xs i (omega arith) in
    let (ys, k, l) = load_range-total xs (i + 1) n (omega arith) in
    (x ∷ ys, rw (load_range, load-some xs i e, ◌>>=◌, k), omega (arith, l))

-- A write through a pointer: out of bounds it faults.
unfoldable pub store {ℓ} : {A : Type ℓ} → List A → ℕ → A → Run (List A)
store xs i v = if ltb i (length xs) then done (set xs i v) else fault

pub store-Returns :
    {A : Type 0} (xs : List A) (i : ℕ) (v : A)
    → i < length xs
    → Returns (store xs i v) (λ ys. ys ≡ set xs i v)
unfolding store
store-Returns xs i v h = rw (store, lt→ltb i (length xs) h) refl
