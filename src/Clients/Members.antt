-- ===== src/Clients/Members.antt =====
-- The lists as sets of addresses, and the two ways of reading them.
use esp32_ad_blocker_reborn.Common.{
  ℕ, ◌^◌, ◌≤◌, ◌<◌, ◌≡◌, ◌≢◌, inl, inr, refl, ◌∙◌, sym, ap, arith, true, false, ◌||◌, List, [], ◌∷◌,
  ◌++◌, ◌==◌, length, Bool-cases,
}
use esp32_ad_blocker_reborn.Clients.{Clients, contains, delete_ip}
use esp32_ad_blocker_reborn.Clients.Stored.{AreAddresses}

-- No address twice.
abbrev pub AreDistinct : List ℕ → Type 0
AreDistinct [] = Unit {0}
AreDistinct (x ∷ xs) = (contains x xs ≡ false) × AreDistinct xs

pub record IsList (l : Clients) : Type 0 where
  pub fits : length l.ips ≤ 8
  pub addresses : AreAddresses l.ips
  pub distinct : AreDistinct l.ips

pub contains-append :
    (ip a : ℕ) (xs : List ℕ) → contains ip (xs ++ (a ∷ [])) ≡ (contains ip xs || a == ip)
unfolding contains
contains-append ip a [] = ground arith
contains-append ip a (x ∷ xs) = ground (arith, contains-append ip a xs)

pub append-AreDistinct :
    (a : ℕ) (xs : List ℕ) → contains a xs ≡ false → AreDistinct xs → AreDistinct (xs ++ (a ∷ []))
unfolding contains
append-AreDistinct a [] h d = (refl, tt)
append-AreDistinct a (x ∷ xs) h (fresh, d) =
    (ground (arith, contains-append x a xs), append-AreDistinct a xs (ground arith) d)

pub append-AreAddresses :
    (a : ℕ) (xs : List ℕ) → a ≢ 0 → a < 2 ^ 32 → AreAddresses xs → AreAddresses (xs ++ (a ∷ []))
append-AreAddresses a [] ne lt h = (ne, lt, tt)
append-AreAddresses a (x ∷ xs) ne lt (p, q, h) = (p, q, append-AreAddresses a xs ne lt h)

module _ (ip : ℕ) where
  pub contains-delete_ip :
      (other : ℕ) (xs : List ℕ)
      → other ≢ ip
      → contains other (delete_ip ip xs).0 ≡ contains other xs
  unfolding contains delete_ip
  contains-delete_ip other [] ne = refl
  contains-delete_ip other (x ∷ xs) ne = ground (arith, contains-delete_ip other xs ne)

  pub contains-delete_ip_self :
      (xs : List ℕ) → AreDistinct xs → contains ip (delete_ip ip xs).0 ≡ false
  unfolding contains delete_ip
  contains-delete_ip_self [] d = refl
  contains-delete_ip_self (x ∷ xs) (fresh, d) = elim (Bool-cases (x == ip)) [
    | inl e ↦ rw (delete_ip, e) (head x xs fresh e)
    | inr e ↦ rw (delete_ip, e) (ground (arith, contains-delete_ip_self xs d))
  ]
    where
      head :
          (x : ℕ) (xs : List ℕ) → contains x xs ≡ false → (x == ip) ≡ true → contains ip xs ≡ false
      head x xs fresh e =
          let same : x ≡ ip = ground arith in ap (λ (t : ℕ). contains t xs) (sym same) ∙ fresh

  pub delete_ip-found : (xs : List ℕ) → (delete_ip ip xs).1 ≡ contains ip xs
  unfolding contains delete_ip
  delete_ip-found [] = refl
  delete_ip-found (x ∷ xs) = ground (arith, delete_ip-found xs)

  contains-delete_ip_fresh :
      (x : ℕ) (xs : List ℕ) → contains x xs ≡ false → contains x (delete_ip ip xs).0 ≡ false
  unfolding contains delete_ip
  contains-delete_ip_fresh x [] h = refl
  contains-delete_ip_fresh x (y ∷ ys) h = ground (arith, contains-delete_ip_fresh x ys)

  pub delete_ip-AreDistinct : (xs : List ℕ) → AreDistinct xs → AreDistinct (delete_ip ip xs).0
  unfolding delete_ip
  delete_ip-AreDistinct [] d = tt
  delete_ip-AreDistinct (x ∷ xs) (fresh, d) =
      ground (arith, fresh, d, delete_ip-AreDistinct xs d, contains-delete_ip_fresh x xs fresh)

  pub delete_ip-AreAddresses : (xs : List ℕ) → AreAddresses xs → AreAddresses (delete_ip ip xs).0
  unfolding delete_ip
  delete_ip-AreAddresses [] h = tt
  delete_ip-AreAddresses (x ∷ xs) (p, q, h) = ground (arith, p, q, h, delete_ip-AreAddresses xs h)

  pub length-delete_ip : (xs : List ℕ) → length (delete_ip ip xs).0 ≤ length xs
  unfolding delete_ip
  length-delete_ip [] = omega arith
  length-delete_ip (x ∷ xs) = ground (arith, length-delete_ip xs)
