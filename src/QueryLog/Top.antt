-- ===== src/QueryLog/Top.antt =====
-- The top lists: what is copied out of a table is sorted, and the counts of one query.
use esp32_ad_blocker_reborn.Common.{
  ℕ, ◌≤◌, ◌≡◌, refl, sym, subst, arith, true, List, [], ◌∷◌, ◌++◌, append-nil, ltb, ltb→lt, ltb→le,
  if◌then◌else◌, take, Bool-cases, inl, inr,
}
use mathlib.Core.List.{Perm, perm_middle}
use mathlib.Core.List.Perm
use esp32_ad_blocker_reborn.QueryLog.{
  QTopEntry, QueryLog, insert_key, sort_loop, back_to_front, top_sorted, qtop_domains, qtop_clients,
  query_log_top_domains, query_log_top_clients,
}

-- The totals do not fall, from `b` on.
pub data Rises : ℕ → List QTopEntry → Type 0 where
  nil : {b : ℕ} → Rises b []
  cons :
      {b : ℕ} {x : QTopEntry} {xs : List QTopEntry}
      → b ≤ x.total
      → Rises x.total xs
      → Rises b (x ∷ xs)

-- The totals do not rise, from `b` on.
pub data Falls : ℕ → List QTopEntry → Type 0 where
  nil : {b : ℕ} → Falls b []
  cons :
      {b : ℕ} {x : QTopEntry} {xs : List QTopEntry}
      → x.total ≤ b
      → Falls x.total xs
      → Falls b (x ∷ xs)

insert_key-Rises :
    (b : ℕ) (key : QTopEntry) (xs : List QTopEntry)
    → b ≤ key.total
    → Rises b xs
    → Rises b (insert_key key xs)
unfolding insert_key
insert_key-Rises b key _ p Rises.nil = Rises.cons p Rises.nil
insert_key-Rises b key _ p (Rises.cons {x = x} {xs = xs} q r) =
    elim (Bool-cases (ltb x.total key.total)) [
      | inl e ↦ rw e (
          Rises.cons q
            (insert_key-Rises x.total key xs (omega (arith, ltb→lt x.total key.total e)) r))
      | inr e ↦ rw e (Rises.cons p (Rises.cons (ltb→le x.total key.total e) r))
    ]

insert_key-perm : (key : QTopEntry) (xs : List QTopEntry) → Perm (insert_key key xs) (key ∷ xs)
unfolding insert_key
insert_key-perm key [] = Perm.rfl
insert_key-perm key (x ∷ xs) = elim (Bool-cases (ltb x.total key.total)) [
  | inl e ↦ rw e (Perm.trans (Perm.cons x (insert_key-perm key xs)) (Perm.swap key x xs))
  | inr e ↦ rw e Perm.rfl
]

sort_loop-Rises : (s es : List QTopEntry) → Rises 0 s → Rises 0 (sort_loop s es)
unfolding sort_loop
sort_loop-Rises s [] r = r
sort_loop-Rises s (e ∷ es) r =
    sort_loop-Rises (insert_key e s) es (insert_key-Rises 0 e s (omega arith) r)

sort_loop-perm : (s es : List QTopEntry) → Perm (sort_loop s es) (es ++ s)
unfolding sort_loop
sort_loop-perm s [] = Perm.rfl
sort_loop-perm s (e ∷ es) =
    Perm.trans (sort_loop-perm (insert_key e s) es)
      (Perm.trans (Perm.append_left es (insert_key-perm e s)) (perm_middle es s))

Falls-mono : {a b : ℕ} {xs : List QTopEntry} → a ≤ b → Falls a xs → Falls b xs
Falls-mono h Falls.nil = Falls.nil
Falls-mono h (Falls.cons p r) = Falls.cons (omega arith) r

back_to_front-Falls :
    (acc xs : List QTopEntry) (b : ℕ)
    → Falls b acc
    → Rises b xs
    → (c : ℕ) × Falls c (back_to_front acc xs)
unfolding back_to_front
back_to_front-Falls acc _ b h Rises.nil = (b, h)
back_to_front-Falls acc _ b h (Rises.cons {x = x} {xs = xs} p r) =
    back_to_front-Falls (x ∷ acc) xs x.total (Falls.cons (omega arith) (Falls-mono p h)) r

back_to_front-perm : (acc xs : List QTopEntry) → Perm (back_to_front acc xs) (xs ++ acc)
unfolding back_to_front
back_to_front-perm acc [] = Perm.rfl
back_to_front-perm acc (x ∷ xs) = Perm.trans (back_to_front-perm (x ∷ acc) xs) (perm_middle xs acc)

top_sorted_lem :
    (size cap : ℕ) (tbl : List QTopEntry)
    → ((c : ℕ) × Falls c (top_sorted size cap tbl))
      × Perm (top_sorted size cap tbl) (take (if ltb cap size then cap else size) tbl)
unfolding top_sorted
top_sorted_lem size cap tbl = (
  back_to_front-Falls [] sorted 0 Falls.nil (sort_loop-Rises [] part Rises.nil),
  subst (Perm (back_to_front [] sorted)) (append-nil part) (
      subst (λ (t : List QTopEntry). Perm t (part ++ [])) refl
        (Perm.trans (back_to_front-perm [] sorted) (
          subst (λ (t : List QTopEntry). Perm t (part ++ [])) (sym (append-nil sorted))
            (sort_loop-perm [] part)))),
)
  where
    part : List QTopEntry
    part = take (if ltb cap size then cap else size) tbl

    sorted : List QTopEntry
    sorted = sort_loop [] part

-- The two top lists that are handed out are sorted by total, the highest first, and each is a
-- permutation of the first entries of its table: as many as the capacity and the table allow.
-- The tables are allocated.
pub query_log_top-sorted :
    (cap : ℕ) (q : QueryLog)
    → q.has_top_d ≡ true
    → q.has_top_c ≡ true
    → (((c : ℕ) × Falls c (query_log_top_domains cap q))
        × Perm
            (query_log_top_domains cap q)
            (take (if ltb cap qtop_domains then cap else qtop_domains) q.top_d))
      × (((c : ℕ) × Falls c (query_log_top_clients cap q))
          × Perm
              (query_log_top_clients cap q)
              (take (if ltb cap qtop_clients then cap else qtop_clients) q.top_c))
unfolding query_log_top_domains query_log_top_clients
query_log_top-sorted cap q d c =
    rw (d, c) (top_sorted_lem qtop_domains cap q.top_d, top_sorted_lem qtop_clients cap q.top_c)
