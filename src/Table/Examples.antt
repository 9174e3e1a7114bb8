-- ===== src/Table/Examples.antt =====
-- Tests of the table code, and the theorems at concrete tables.
use esp32_ad_blocker_reborn.Common.{
  ℕ, zero, suc, ◌^◌, ◌≤◌, ◌<◌, ◌≡◌, ◌↔◌, refl, ap, arith, Bool, true, some, List, [], ◌∷◌, length,
  get_elem?, Run, done, fault, out_of_fuel, ◌>>=◌, Returns,
}
use esp32_ad_blocker_reborn.Table.{
  Image, bl_idx_words, bl_rec_put, bl_records_find, bl_build_image, bl_image_contains,
  bl_image_valid,
}
use esp32_ad_blocker_reborn.Table.Build.{IsTable, IsBuilt, bl_build_image-IsBuilt}
use esp32_ad_blocker_reborn.Table.Lookup.{Holds, bl_image_contains-bl_build_image}
use esp32_ad_blocker_reborn.Table.Validate.{bl_image_contains_safe, bl_image_valid-bl_build_image}

-- Two hashes of bucket 0 and one of bucket 3.
abbrev hashes : ℕ → ℕ
hashes zero = 7
hashes (suc zero) = 0x1234
hashes (suc (suc j)) = 0x300_0007

abbrev records : List (List ℕ)
records = bl_rec_put 7 ∷ bl_rec_put 0x1234 ∷ bl_rec_put 0x300_0007 ∷ []

records-IsTable : IsTable records 3 hashes
records-IsTable = record {
  stored = stored;
  small = small;
  ascending = ascending;
  fits = omega arith;
}
  where
    stored : (j : ℕ) → j < 3 → get_elem? records j ≡ some (bl_rec_put (hashes j))
    stored zero h = refl
    stored (suc zero) h = refl
    stored (suc (suc zero)) h = refl
    stored (suc (suc (suc j))) h = absurd (omega arith)

    small : (j : ℕ) → j < 3 → hashes j < 2 ^ 40
    small zero h = omega arith
    small (suc zero) h = omega arith
    small (suc (suc j)) h = omega arith

    ascending : (i j : ℕ) → i ≤ j → j < 3 → hashes i ≤ hashes j
    ascending zero zero p q = omega arith
    ascending zero (suc zero) p q = omega arith
    ascending zero (suc (suc j)) p q = omega arith
    ascending (suc i) zero p q = absurd (omega arith)
    ascending (suc zero) (suc zero) p q = omega arith
    ascending (suc zero) (suc (suc j)) p q = omega arith
    ascending (suc (suc i)) (suc zero) p q = absurd (omega arith)
    ascending (suc (suc i)) (suc (suc j)) p q = omega arith

-- Memory before the build.
zeros : ℕ → List ℕ
zeros zero = []
zeros (suc n) = 0 ∷ zeros n

length-zeros : (n : ℕ) → length (zeros n) ≡ n
unfolding zeros
length-zeros zero = refl
length-zeros (suc n) = ap suc (length-zeros n)

abbrev blank : Image
blank = record { idx = zeros bl_idx_words; ent = [] ∷ [] ∷ [] ∷ [] }

bl_rec_put-bytes : bl_rec_put 0x12_3456_789a ≡ 0x12 ∷ 0x34 ∷ 0x56 ∷ 0x78 ∷ 0x9a ∷ []
unfolding bl_rec_put
bl_rec_put-bytes = refl

bl_records_find-hit : bl_records_find records 3 0x1234 ≡ done (some 1)
unfolding bl_records_find
bl_records_find-hit = refl

bl_image_contains-bl_build_image_example :
    Returns
      (bl_build_image records 3 blank >>= λ built. bl_image_contains built 0x300_0007)
      (λ b. (b ≡ true) ↔ Holds hashes 3 0x300_0007)
bl_image_contains-bl_build_image_example =
    bl_image_contains-bl_build_image records hashes 3 blank 0x300_0007 records-IsTable
      (length-zeros bl_idx_words) (omega arith) (omega arith)

bl_image_valid-bl_build_image_example :
    Returns (bl_build_image records 3 blank) (λ built. bl_image_valid built 3 ≡ done true)
bl_image_valid-bl_build_image_example =
    bl_image_valid-bl_build_image records hashes 3 blank records-IsTable (length-zeros bl_idx_words)
      (omega arith)

-- The image that a run ends with.
abbrev result : Run Image → Image
result (done image) = image
result fault = blank
result out_of_fuel = blank

abbrev built : Image
built = result (bl_build_image records 3 blank)

result-Returns : (r : Run Image) (P : Image → Type 0) → Returns r P → P (result r)
result-Returns (done image) P h = h
result-Returns fault P h = absurd h
result-Returns out_of_fuel P h = absurd h

built-valid : bl_image_valid built 3 ≡ done true
built-valid =
    result-Returns (bl_build_image records 3 blank) (λ image. bl_image_valid image 3 ≡ done true)
      (bl_image_valid-bl_build_image records hashes 3 blank records-IsTable
        (length-zeros bl_idx_words) (omega arith))

built-room : 3 ≤ length built.ent
built-room =
    (result-Returns (bl_build_image records 3 blank) (IsBuilt hashes 3) (
      bl_build_image-IsBuilt records hashes 3 blank records-IsTable (length-zeros bl_idx_words)
        (omega arith))).room

bl_image_contains_safe_example : (b : Bool) × (bl_image_contains built 0x1234 ≡ done b)
bl_image_contains_safe_example =
    bl_image_contains_safe built 3 0x1234 built-valid built-room (omega arith) (omega arith)
