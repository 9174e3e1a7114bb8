-- ===== src/Cache/Copies.antt =====
-- The bytes of an entry after a store, and that the entry is in good order.
use esp32_ad_blocker_reborn.Common.{
  ℕ, zero, suc, ◌+◌, ◌≤◌, ◌≡◌, refl, ◌∙◌, ap, arith, List, [], ◌∷◌, ◌++◌, map, length,
  length-append, length-take, take, drop,
}
use esp32_ad_blocker_reborn.Domain.{fold_case}
use esp32_ad_blocker_reborn.Cache.{
  CacheEntry, Key, fwd_resp_max, qname_wire_max, copy_at, blocked_entry, resp_entry, reply_key,
}
use esp32_ad_blocker_reborn.Cache.Entries.{IsEntry, entry_key, SameKey, length-drop}

module _ {A : Type 0} where
  drop-take_append : (n : ℕ) (xs ys : List A) → n ≤ length xs → drop n (take n xs ++ ys) ≡ ys
  drop-take_append zero xs ys h = refl
  drop-take_append (suc n) [] ys h = absurd (omega arith)
  drop-take_append (suc n) (x ∷ xs) ys h = drop-take_append n xs ys (omega arith)

  pub take-append_front : (xs ys : List A) → take (length xs) (xs ++ ys) ≡ xs
  take-append_front [] ys = refl
  take-append_front (x ∷ xs) ys = ap (λ (t : List A). x ∷ t) (take-append_front xs ys)

  take-drop_front :
      (m n : ℕ) (xs ys : List A)
      → m + n ≤ length xs
      → take n (drop m (xs ++ ys)) ≡ take n (drop m xs)
  take-drop_front zero zero xs ys h = refl
  take-drop_front zero (suc n) [] ys h = absurd (omega arith)
  take-drop_front zero (suc n) (x ∷ xs) ys h =
      ap (λ (t : List A). x ∷ t) (take-drop_front zero n xs ys (omega arith))
  take-drop_front (suc m) n [] ys h = absurd (omega arith)
  take-drop_front (suc m) n (x ∷ xs) ys h = take-drop_front m n xs ys (omega arith)

length-copy_at :
    (off : ℕ) (bytes buf : List ℕ)
    → off + length bytes ≤ length buf
    → length (copy_at off bytes buf) ≡ length buf
unfolding copy_at
length-copy_at off bytes buf h = omega (
  arith,
  length-append (take off buf) (bytes ++ drop (off + length bytes) buf),
  length-append bytes (drop (off + length bytes) buf),
  length-take off buf (omega arith),
  length-drop (off + length bytes) buf,
  h,
)

copy_at_name :
    (bytes buf : List ℕ)
    → 12 ≤ length buf
    → take (length bytes) (drop 12 (copy_at 12 bytes buf)) ≡ bytes
unfolding copy_at
copy_at_name bytes buf h =
    ap (λ (t : List ℕ). take (length bytes) t)
      (drop-take_append 12 buf (bytes ++ drop (12 + length bytes) buf) h)
    ∙ take-append_front bytes (drop (12 + length bytes) buf)

pub blocked_entry-IsEntry :
    (k : Key) (deadline gen : ℕ) (e : CacheEntry)
    → IsEntry e
    → length k.name ≤ qname_wire_max
    → IsEntry (blocked_entry k deadline gen e)
      × SameKey (entry_key (blocked_entry k deadline gen e)) k
unfolding blocked_entry
blocked_entry-IsEntry k deadline gen e inv small = (
  record {
    size = length-copy_at 12 k.name e.resp (omega (arith, inv.size)) ∙ inv.size;
    name = omega arith;
  },
  (
    refl,
    refl,
    ap (λ (t : List ℕ). map fold_case t) (copy_at_name k.name e.resp (omega (arith, inv.size))),
  ),
)

pub resp_entry-IsEntry :
    (h qtype : ℕ) (resp : List ℕ) (n deadline gen : ℕ) (e : CacheEntry)
    → IsEntry e
    → length resp ≤ fwd_resp_max
    → 12 + n ≤ length resp
    → IsEntry (resp_entry (reply_key h qtype resp n) resp deadline gen e)
      × SameKey
          (entry_key (resp_entry (reply_key h qtype resp n) resp deadline gen e))
          (reply_key h qtype resp n)
unfolding resp_entry reply_key copy_at
resp_entry-IsEntry h qtype resp n deadline gen e inv small inside = (
  record {
    size = length-copy_at 0 resp e.resp (omega (arith, inv.size)) ∙ inv.size;
    name = omega (arith, taken);
  },
  (refl, refl, ap (λ (t : List ℕ). map fold_case t) name),
)
  where
    taken : length (take n (drop 12 resp)) ≡ n
    taken = length-take n (drop 12 resp) (omega (arith, length-drop 12 resp))

    name :
        take (length (take n (drop 12 resp))) (drop 12 (resp ++ drop (0 + length resp) e.resp))
        ≡ take n (drop 12 resp)
    name =
        ap (λ (j : ℕ). take j (drop 12 (resp ++ drop (0 + length resp) e.resp))) taken
        ∙ take-drop_front 12 n resp (drop (0 + length resp) e.resp) inside
