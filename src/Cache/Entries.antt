-- ===== src/Cache/Entries.antt =====
-- Entries in good order, and the comparison of keys without a look at memory.
use esp32_ad_blocker_reborn.Common.{
  ℕ, zero, suc, ◌+◌, ◌-◌, ◌≤◌, ◌≡◌, refl, ◌∙◌, sym, ap, arith, Bool, true, false, not, ◌&&◌, List,
  [], ◌∷◌, map, ◌==◌, ==_iff, if◌then◌else◌, both_true, length, length-map, length-take, take, drop,
  take-all, eq_bytes, eq_bytes_self, eq_bytes_sound, done, Returns,
}
use esp32_ad_blocker_reborn.Domain.{fold_case, dns_qname_wire_eq}
use esp32_ad_blocker_reborn.Cache.{CacheEntry, Key, header_size, fwd_resp_max, cache_key_eq}

-- The buffer has its size, and the name is inside it.
pub record IsEntry (e : CacheEntry) : Type 0 where
  pub size : length e.resp ≡ fwd_resp_max
  pub name : header_size + e.qn_len ≤ fwd_resp_max

-- The key that an entry stands for.
abbrev pub entry_key : CacheEntry → Key
entry_key e = record {
  hash = e.key_hash;
  qtype = e.qtype;
  name = take e.qn_len (drop header_size e.resp);
}

-- Two keys ask for the same: the names are the same but for the case of letters.
abbrev pub SameKey : Key → Key → Type 0
SameKey k l =
    (k.hash ≡ l.hash) × (k.qtype ≡ l.qtype) × (map fold_case k.name ≡ map fold_case l.name)

pub SameKey-sym : (k l : Key) → SameKey k l → SameKey l k
SameKey-sym k l (a, b, c) = (sym a, sym b, sym c)

pub SameKey-trans : (k l m : Key) → SameKey k l → SameKey l m → SameKey k m
SameKey-trans k l m (a, b, c) (d, e, f) = (a ∙ d, b ∙ e, c ∙ f)

-- `cache_key_eq` on an entry in good order.
pub matches : Key → CacheEntry → Bool
matches k e =
    if e.key_hash == k.hash && (e.qtype == k.qtype && e.qn_len == length k.name)
    then eq_bytes (map fold_case (take (length k.name) (drop header_size e.resp)))
        (map fold_case (take (length k.name) k.name))
    else false

dns_qname_wire_eq-done :
    (a b : List ℕ) (n : ℕ)
    → n ≤ length a
    → n ≤ length b
    → dns_qname_wire_eq a b n
      ≡ done (eq_bytes (map fold_case (take n a)) (map fold_case (take n b)))
unfolding dns_qname_wire_eq
dns_qname_wire_eq-done a b zero h k = refl
dns_qname_wire_eq-done [] b (suc n) h k = absurd (omega arith)
dns_qname_wire_eq-done (x ∷ a) [] (suc n) h k = absurd (omega arith)
dns_qname_wire_eq-done (x ∷ a) (y ∷ b) (suc n) h k =
    at (fold_case x == fold_case y) (dns_qname_wire_eq-done a b n (omega arith) (omega arith))
  where
    at :
        (t : Bool)
        → dns_qname_wire_eq a b n
          ≡ done (eq_bytes (map fold_case (take n a)) (map fold_case (take n b)))
        → (if not t then done false else dns_qname_wire_eq a b n)
          ≡ done (t && eq_bytes (map fold_case (take n a)) (map fold_case (take n b)))
    at true e = e
    at false e = refl

pub length-drop : {A : Type 0} (n : ℕ) (xs : List A) → length (drop n xs) ≡ length xs - n
length-drop zero xs = omega arith
length-drop (suc n) [] = omega arith
length-drop (suc n) (x ∷ xs) = omega (arith, length-drop n xs)

pub cache_key_eq-matches :
    (k : Key) (e : CacheEntry) → IsEntry e → cache_key_eq k e ≡ done (matches k e)
unfolding cache_key_eq matches
cache_key_eq-matches k e inv =
    at (e.key_hash == k.hash && (e.qtype == k.qtype && e.qn_len == length k.name)) refl
  where
    name : Bool
    name =
        eq_bytes (map fold_case (take (length k.name) (drop header_size e.resp)))
          (map fold_case (take (length k.name) k.name))

    at :
        (t : Bool)
        → (e.key_hash == k.hash && (e.qtype == k.qtype && e.qn_len == length k.name)) ≡ t
        → (if t
            then dns_qname_wire_eq (drop header_size e.resp) k.name (length k.name)
            else done false)
          ≡ done (if t then name else false)
    at false h = refl
    at true h =
        let (_, rest) =
          both_true (e.key_hash == k.hash) (e.qtype == k.qtype && e.qn_len == length k.name) h in
        let (_, len) = both_true (e.qtype == k.qtype) (e.qn_len == length k.name) rest in
        let same : e.qn_len ≡ length k.name = (==_iff e.qn_len (length k.name)).0 len in
        dns_qname_wire_eq-done (drop header_size e.resp) k.name (length k.name)
          (omega (arith, length-drop 12 e.resp, inv.size, inv.name, same)) (omega arith)

-- On any buffer of the right size the comparison returns.
pub cache_key_eq_returns :
    (k : Key) (e : CacheEntry)
    → length e.resp ≡ 512
    → 12 + length k.name ≤ 512
    → Returns (cache_key_eq k e) (λ b. Unit)
unfolding cache_key_eq
cache_key_eq_returns k e size small =
    at (e.key_hash == k.hash && (e.qtype == k.qtype && e.qn_len == length k.name))
  where
    at :
        (t : Bool)
        → Returns
            (if t
              then dns_qname_wire_eq (drop header_size e.resp) k.name (length k.name)
              else done false)
            (λ b. Unit)
    at false = tt
    at true =
        rw
          (dns_qname_wire_eq-done (drop header_size e.resp) k.name (length k.name)
            (omega (arith, length-drop 12 e.resp, size, small)) (omega arith))
          tt

pub matches_sound : (k : Key) (e : CacheEntry) → matches k e ≡ true → SameKey (entry_key e) k
unfolding matches
matches_sound k e h =
    at (e.key_hash == k.hash && (e.qtype == k.qtype && e.qn_len == length k.name)) refl h
  where
    at :
        (t : Bool)
        → (e.key_hash == k.hash && (e.qtype == k.qtype && e.qn_len == length k.name)) ≡ t
        → (if t
            then eq_bytes
                (map fold_case (take (length k.name) (drop header_size e.resp)))
                (map fold_case (take (length k.name) k.name))
            else false)
          ≡ true
        → SameKey (entry_key e) k
    at false a b = absurd (cc)
    at true a b =
        let (hash, rest) =
          both_true (e.key_hash == k.hash) (e.qtype == k.qtype && e.qn_len == length k.name) a in
        let (type, len) = both_true (e.qtype == k.qtype) (e.qn_len == length k.name) rest in
        (
          (==_iff e.key_hash k.hash).0 hash,
          (==_iff e.qtype k.qtype).0 type,
          ap (λ (n : ℕ). map fold_case (take n (drop header_size e.resp)))
                ((==_iff e.qn_len (length k.name)).0 len)
              ∙ eq_bytes_sound (map fold_case (take (length k.name) (drop header_size e.resp)))
                  (map fold_case (take (length k.name) k.name)) b
              ∙ ap (map fold_case) (take-all (length k.name) k.name (omega arith)),
        )

pub matches_complete :
    (k : Key) (e : CacheEntry) → IsEntry e → SameKey (entry_key e) k → matches k e ≡ true
unfolding matches
matches_complete k e inv (hash, type, name) =
    rw
      (
        (==_iff e.key_hash k.hash).1 hash,
        (==_iff e.qtype k.qtype).1 type,
        (==_iff e.qn_len (length k.name)).1 len,
      )
      (ap (λ (t : List ℕ). eq_bytes t (map fold_case (take (length k.name) k.name))) same
        ∙ eq_bytes_self (map fold_case (take (length k.name) k.name)))
  where
    stored : List ℕ
    stored = take e.qn_len (drop header_size e.resp)

    taken : length stored ≡ e.qn_len
    taken =
        length-take e.qn_len (drop header_size e.resp)
          (omega (arith, length-drop 12 e.resp, inv.size, inv.name))

    len : e.qn_len ≡ length k.name
    len =
        omega
          (arith, taken, length-map fold_case stored, length-map fold_case k.name, ap length name)

    same :
        map fold_case (take (length k.name) (drop header_size e.resp))
        ≡ map fold_case (take (length k.name) k.name)
    same =
        ap (λ (n : ℕ). map fold_case (take n (drop header_size e.resp))) (sym len)
        ∙ name
        ∙ ap (map fold_case) (sym (take-all (length k.name) k.name (omega arith)))
