-- ===== src/Dedup/Flags.antt =====
-- The flags that stay of a run of exceptions, and the code's merging of two.
use esp32_ad_blocker_reborn.Common.{
  ℕ, ◌+◌, ◌*◌, ◌/◌, ◌%◌, ◌≡◌, refl, ◌∙◌, sym, ap, ap₂, arith, Bool, true, false, not, ◌&&◌, ◌||◌,
  List, [], ◌∷◌, ◌++◌, ◌==◌, if◌then◌else◌, bit_or, bit_and_low, bit_and_second,
}
use esp32_ad_blocker_reborn.Dedup.{merge_flags, Exception}

-- The two bits of a rule's flags.
abbrev pub is_exact : ℕ → Bool
is_exact f = f % 2 == 1

abbrev pub is_important : ℕ → Bool
is_important f = f / 2 % 2 == 1

abbrev pub some_important : List Exception → Bool
some_important [] = false
some_important (x ∷ xs) = is_important x.flags || some_important xs

abbrev pub every_exact : List Exception → Bool
every_exact [] = true
every_exact (x ∷ xs) = is_exact x.flags && every_exact xs

-- The flags that stay of a run: one exception keeps its own; several are important if one of them
-- is, and exact if all of them are.
abbrev pub flags_of : Exception → List Exception → ℕ
flags_of x [] = x.flags
flags_of x (y ∷ ys) =
    (if some_important (x ∷ y ∷ ys) then 2 else 0) + (if every_exact (x ∷ y ∷ ys) then 1 else 0)

-- The code's merging of two flags by their bits.
merge_flags_lem :
    (a b : ℕ)
    → merge_flags a b
      ≡ (if is_important a || is_important b then 2 else 0)
        + (if is_exact a && is_exact b then 1 else 0)
unfolding merge_flags
merge_flags_lem a b =
    rw (bit_and_second a, bit_and_second b, bit_and_low a, bit_and_low b)
      (at (a / 2 % 2 * 2 == 0) (b / 2 % 2 * 2 == 0) (a % 2 == 0) (b % 2 == 0) (is_important a)
        (is_important b) (is_exact a) (is_exact b) (second a) (second b) (low a) (low b))
  where
    second : (n : ℕ) → (n / 2 % 2 * 2 == 0) ≡ not (is_important n)
    second n = ground arith

    low : (n : ℕ) → (n % 2 == 0) ≡ not (is_exact n)
    low n = ground arith

    sums :
        (i j : Bool)
        → bit_or (if i then 2 else 0) (if j then 1 else 0)
          ≡ (if i then 2 else 0) + (if j then 1 else 0)
    sums true true = refl
    sums true false = refl
    sums false true = refl
    sums false false = refl

    twice : (i : Bool) → not (not i) ≡ i
    twice true = refl
    twice false = refl

    at :
        (p q r s i j k l : Bool)
        → p ≡ not i
        → q ≡ not j
        → r ≡ not k
        → s ≡ not l
        → bit_or (if not p || not q then 2 else 0) (if not r && not s then 1 else 0)
          ≡ (if i || j then 2 else 0) + (if k && l then 1 else 0)
    at p q r s i j k l ep eq er es =
        rw (ep, eq, er, es, twice i, twice j, twice k, twice l) (sums (i || j) (k && l))

-- The bits of merged flags.
sum_important : (i j : Bool) → is_important ((if i then 2 else 0) + (if j then 1 else 0)) ≡ i
sum_important true true = refl
sum_important true false = refl
sum_important false true = refl
sum_important false false = refl

sum_exact : (i j : Bool) → is_exact ((if i then 2 else 0) + (if j then 1 else 0)) ≡ j
sum_exact true true = refl
sum_exact true false = refl
sum_exact false true = refl
sum_exact false false = refl

or_false : (b : Bool) → (b || false) ≡ b
or_false true = refl
or_false false = refl

and_true : (b : Bool) → (b && true) ≡ b
and_true true = refl
and_true false = refl

or_assoc : (a b c : Bool) → ((a || b) || c) ≡ (a || (b || c))
or_assoc true b c = refl
or_assoc false b c = refl

and_assoc : (a b c : Bool) → ((a && b) && c) ≡ (a && (b && c))
and_assoc true b c = refl
and_assoc false b c = refl

some_important-append :
    (es : List Exception) (y : Exception)
    → some_important (es ++ (y ∷ [])) ≡ (some_important es || is_important y.flags)
some_important-append [] y = or_false (is_important y.flags)
some_important-append (x ∷ xs) y =
    ap (λ (b : Bool). is_important x.flags || b) (some_important-append xs y)
    ∙ sym (or_assoc (is_important x.flags) (some_important xs) (is_important y.flags))

every_exact-append :
    (es : List Exception) (y : Exception)
    → every_exact (es ++ (y ∷ [])) ≡ (every_exact es && is_exact y.flags)
every_exact-append [] y = and_true (is_exact y.flags)
every_exact-append (x ∷ xs) y =
    ap (λ (b : Bool). is_exact x.flags && b) (every_exact-append xs y)
    ∙ sym (and_assoc (is_exact x.flags) (every_exact xs) (is_exact y.flags))

flags_of-important :
    (x : Exception) (es : List Exception) → is_important (flags_of x es) ≡ some_important (x ∷ es)
flags_of-important x [] = sym (or_false (is_important x.flags))
flags_of-important x (y ∷ ys) =
    sum_important (some_important (x ∷ y ∷ ys)) (every_exact (x ∷ y ∷ ys))

flags_of-exact :
    (x : Exception) (es : List Exception) → is_exact (flags_of x es) ≡ every_exact (x ∷ es)
flags_of-exact x [] = sym (and_true (is_exact x.flags))
flags_of-exact x (y ∷ ys) = sum_exact (some_important (x ∷ y ∷ ys)) (every_exact (x ∷ y ∷ ys))

flags_of_more :
    (x : Exception) (es : List Exception) (y : Exception)
    → flags_of x (es ++ (y ∷ []))
      ≡ (if some_important (x ∷ (es ++ (y ∷ []))) then 2 else 0)
        + (if every_exact (x ∷ (es ++ (y ∷ []))) then 1 else 0)
flags_of_more x [] y = refl
flags_of_more x (e ∷ es) y = refl

-- One more exception in a run.
pub flags_of-append :
    (x : Exception) (es : List Exception) (y : Exception)
    → merge_flags (flags_of x es) y.flags ≡ flags_of x (es ++ (y ∷ []))
flags_of-append x es y =
    merge_flags_lem (flags_of x es) y.flags
    ∙ ap₂ (λ (i j : Bool). (if i then 2 else 0) + (if j then 1 else 0))
        (ap (λ (b : Bool). b || is_important y.flags) (flags_of-important x es)
          ∙ sym (some_important-append (x ∷ es) y))
        (ap (λ (b : Bool). b && is_exact y.flags) (flags_of-exact x es)
          ∙ sym (every_exact-append (x ∷ es) y))
    ∙ sym (flags_of_more x es y)
