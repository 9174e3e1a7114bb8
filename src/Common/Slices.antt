-- ===== src/Common/Slices.antt =====
-- Parts of a list that lie together in it.
use Prim.Native.Nat.{ℕ, zero, suc}
use mathlib.Core.Path.{◌≡◌, refl, sym, ap, ◌∙◌}
use mathlib.Core.List.{List, [], ◌∷◌, ◌++◌, append_assoc, append-nil}
use esp32_ad_blocker_reborn.Common.Lists.{take, drop}

-- `ys` is something, then `xs`, then something.
pub record IsSlice (xs ys : List ℕ) : Type 0 where
  pub front : List ℕ
  pub back : List ℕ
  pub split : ys ≡ front ++ (xs ++ back)

pub IsSlice-refl : (xs : List ℕ) → IsSlice xs xs
IsSlice-refl xs = record { front = []; back = []; split = sym (append-nil xs) }

pub IsSlice-trans : {xs ys zs : List ℕ} → IsSlice xs ys → IsSlice ys zs → IsSlice xs zs
IsSlice-trans {xs} p q = record {
  front = q.front ++ p.front;
  back = p.back ++ q.back;
  split = q.split ∙ ap (λ (t : List ℕ). q.front ++ (t ++ q.back)) p.split ∙ simp (append_assoc);
}

pub IsSlice-cons : (x : ℕ) {xs ys : List ℕ} → IsSlice xs ys → IsSlice xs (x ∷ ys)
IsSlice-cons x p = record {
  front = x ∷ p.front;
  back = p.back;
  split = ap (λ (t : List ℕ). x ∷ t) p.split;
}

-- What stands at the front.
pub IsSlice-front : (xs back : List ℕ) {ys : List ℕ} → ys ≡ xs ++ back → IsSlice xs ys
IsSlice-front xs back e = record { front = []; back = back; split = e }

pub IsSlice-nil : (ys : List ℕ) → IsSlice [] ys
IsSlice-nil ys = IsSlice-front [] ys refl

pub take-append-drop : (n : ℕ) (xs : List ℕ) → xs ≡ take n xs ++ drop n xs
take-append-drop zero xs = refl
take-append-drop (suc n) [] = refl
take-append-drop (suc n) (x ∷ xs) = ap (λ (t : List ℕ). x ∷ t) (take-append-drop n xs)

pub take-IsSlice : (n : ℕ) (xs : List ℕ) → IsSlice (take n xs) xs
take-IsSlice n xs = IsSlice-front (take n xs) (drop n xs) (take-append-drop n xs)

pub drop-IsSlice : (n : ℕ) (xs : List ℕ) → IsSlice (drop n xs) xs
drop-IsSlice n xs = record {
  front = take n xs;
  back = [];
  split =
      take-append-drop n xs ∙ ap (λ (t : List ℕ). take n xs ++ t) (sym (append-nil (drop n xs)));
}
