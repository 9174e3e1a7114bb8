-- ===== src/WebParse/Cookie.antt =====
-- The session's cookie: a value that is accepted stands whole in the header, at its place.
use esp32_ad_blocker_reborn.Common.{
  ℕ, zero, suc, ◌≡◌, ◌⊎◌, refl, ◌∙◌, sym, ap, arith, Bool, true, false, ◌&&◌, ◌||◌, Option, none,
  some, List, [], ◌∷◌, ◌++◌, ◌==◌, ==_iff, if◌then◌else◌, length, done, Returns, Returns-bind,
  Bool-cases, both_true, either_true, inl, inr,
}
use esp32_ad_blocker_reborn.WebParse.{
  last_byte, occurrence_loop, cookie_placed, sid_key, span_sid, ends_sid, web_cookie_sid,
}
use esp32_ad_blocker_reborn.WebParse.Search.{
  Placed, OptionPlaced, occurrence_loop-Returns, last_byte-cons,
}

-- The header has `sid=` and the value at its start, or behind a space or a semicolon, and ends
-- there or goes on with a semicolon.
pub record SidOf (cookie : List ℕ) (sid_len : ℕ) (sid : List ℕ) : Type 0 where
  pub before : List ℕ
  pub after : List ℕ
  pub split : cookie ≡ before ++ (sid_key ++ (sid ++ after))
  pub size : length sid ≡ sid_len
  pub starts :
      (before ≡ [])
      ⊎ ((front : List ℕ) × (c : ℕ) × (before ≡ front ++ (c ∷ [])) × ((c ≡ 32) ⊎ (c ≡ 59)))
  pub ends : (after ≡ []) ⊎ ((cs : List ℕ) × (after ≡ 59 ∷ cs))

abbrev pub OptionSidOf : List ℕ → ℕ → Option (List ℕ) → Type 0
OptionSidOf cookie sid_len none = Unit
OptionSidOf cookie sid_len (some sid) = SidOf cookie sid_len sid

span_sid-append : (n : ℕ) (p : List ℕ) → p ≡ (span_sid n p).0 ++ (span_sid n p).1
unfolding span_sid
span_sid-append zero p = refl
span_sid-append (suc n) [] = refl
span_sid-append (suc n) (c ∷ cs) = elim (Bool-cases (c == 59)) [
  | inl e ↦ rw e refl
  | inr e ↦ rw e (ap (λ (t : List ℕ). c ∷ t) (span_sid-append n cs))
]

starts_lem :
    (before rest : List ℕ)
    → cookie_placed (last_byte none before) rest ≡ true
    → (before ≡ [])
      ⊎ ((front : List ℕ) × (c : ℕ) × (before ≡ front ++ (c ∷ [])) × ((c ≡ 32) ⊎ (c ≡ 59)))
unfolding cookie_placed
starts_lem [] rest h = inl refl
starts_lem (x ∷ xs) rest h =
    let (front, c, split, same) = last_byte-cons none x xs in
    let here : ((c == 32) || (c == 59)) ≡ true =
      ap (λ (t : Option ℕ). cookie_placed t rest) (sym same) ∙ h in
    inr (
      front,
      c,
      split,
      elim (either_true (c == 32) (c == 59) here) [
        | inl e ↦ inl ((==_iff c 32).0 e)
        | inr e ↦ inr ((==_iff c 59).0 e)
      ],
    )

ends_lem :
    (after : List ℕ) → ends_sid after ≡ true → (after ≡ []) ⊎ ((cs : List ℕ) × (after ≡ 59 ∷ cs))
unfolding ends_sid
ends_lem [] h = inl refl
ends_lem (c ∷ cs) h = inr (cs, ap (λ (t : ℕ). t ∷ cs) ((==_iff c 59).0 h))

accept_lem :
    (cookie : List ℕ) (sid_len : ℕ) (p : List ℕ)
    → Placed cookie_placed sid_key cookie p
    → OptionSidOf cookie sid_len (
        if length (span_sid sid_len p).0 == sid_len && ends_sid (span_sid sid_len p).1
        then some (span_sid sid_len p).0
        else none)
accept_lem cookie sid_len p found =
    at (length (span_sid sid_len p).0 == sid_len && ends_sid (span_sid sid_len p).1) refl
  where
    sid : List ℕ
    sid = (span_sid sid_len p).0

    rest : List ℕ
    rest = (span_sid sid_len p).1

    at :
        (b : Bool)
        → (length sid == sid_len && ends_sid rest) ≡ b
        → OptionSidOf cookie sid_len (if b then some sid else none)
    at false e = tt
    at true e = record {
      before = found.before;
      after = rest;
      split =
          found.split
          ∙ ap (λ (t : List ℕ). found.before ++ (sid_key ++ t)) (span_sid-append sid_len p);
      size =
          (==_iff (length sid) sid_len).0 (both_true (length sid == sid_len) (ends_sid rest) e).0;
      starts = starts_lem found.before p found.right;
      ends = ends_lem rest (both_true (length sid == sid_len) (ends_sid rest) e).1;
    }

-- `web_cookie_sid` ends, and a value that it accepts has exactly the length asked for and stands
-- whole in the header: behind `sid=`, which starts the header or follows a space or a semicolon,
-- and before a semicolon or the header's end.
pub web_cookie_sid-SidOf :
    (cookie : List ℕ) (sid_len : ℕ)
    → Returns (web_cookie_sid cookie sid_len) (OptionSidOf cookie sid_len)
unfolding web_cookie_sid
web_cookie_sid-SidOf cookie sid_len =
    Returns-bind (occurrence_loop (suc (length cookie)) cookie_placed sid_key none cookie) _
      (OptionSidOf cookie sid_len)
      (occurrence_loop-Returns cookie_placed sid_key cookie (omega arith)) (λ r h. ended r h)
  where
    ended :
        (r : Option (List ℕ))
        → OptionPlaced cookie_placed sid_key cookie r
        → Returns
            (done (elim r as (λ x. Option (List ℕ)) [
              | none ↦ none
              | some p ↦
                  let (sid, rest) = span_sid sid_len p in
                  if length sid == sid_len && ends_sid rest then some sid else none
            ]))
            (OptionSidOf cookie sid_len)
    ended none h = tt
    ended (some p) h = accept_lem cookie sid_len p h
