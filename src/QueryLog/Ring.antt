-- ===== src/QueryLog/Ring.antt =====
-- The ring holds the latest queries: a snapshot is the newest part of the list of all of them.
use esp32_ad_blocker_reborn.Common.{
  ℕ, zero, suc, ◌+◌, ◌-◌, ◌*◌, ◌/◌, ◌%◌, ◌^◌, ◌≤◌, ◌<◌, ◌≡◌, ◌≢◌, refl, ◌∙◌, sym, ap, ap₂, subst,
  arith, Bool, true, false, Option, none, some, List, [], ◌∷◌, ltb, if◌then◌else◌, ◌&&◌, length,
  set, get_elem?, take, drop, length-set, length-take_le, length-replicate, drop-at,
  get_elem?-set_self, get_elem?-set_ne, get_elem?_total, take-all, u32, Run, done, ◌>>=◌, load-some,
  Returns, Returns-bind, Returns_mono, Bool-cases, ltb→lt, ltb→le, inl, inr,
}
use esp32_ad_blocker_reborn.QueryLog.{
  QLogEntry, QueryLog, qlog_size, zero_entry, query_log_init, entry_of, record_entry, push_entry,
  query_log_record, snapshot_loop, query_log_snapshot,
}

-- `all` are the entries recorded since the start, the newest first.
pub record Holds (q : QueryLog) (all : List QLogEntry) : Type 0 where
  pub has_ring : q.has_ring ≡ true
  pub has_top_d : q.has_top_d ≡ true
  pub has_top_c : q.has_top_c ≡ true
  pub size : length q.ring ≡ qlog_size
  pub head : q.head ≡ length all
  pub bound : length all < 2 ^ 32
  pub newest :
      (i : ℕ)
      → i < qlog_size
      → i < length all
      → get_elem? q.ring ((length all - 1 - i) % qlog_size) ≡ get_elem? all i

pub query_log_init-Holds : Holds ((query_log_init true true true).0) []
unfolding query_log_init
query_log_init-Holds = record {
  has_ring = refl;
  has_top_d = refl;
  has_top_c = refl;
  size = length-replicate qlog_size zero_entry;
  head = refl;
  bound = omega arith;
  newest = λ i p r. absurd (omega arith);
}

-- A newer entry's slot is not the one of the entry `i`.
slot_ne : (n i : ℕ) → suc i < 512 → i < n → n % 512 ≢ (n - 1 - i) % 512
slot_ne n i h k e = omega arith

-- The index that the snapshot computes with wrap-around.
snapshot_index :
    (n i : ℕ) → n < 2 ^ 32 → i < n → u32 (n + 2 ^ 32 - 1 - i + 512 * 2) % 512 ≡ (n - 1 - i) % 512
snapshot_index n i h k = omega arith

push_entry-Holds :
    (e : QLogEntry) (q : QueryLog) (all : List QLogEntry)
    → length all + 1 < 2 ^ 32
    → Holds q all
    → Holds (push_entry e q) (e ∷ all)
unfolding push_entry
push_entry-Holds e q all h inv = record {
  has_ring = inv.has_ring;
  has_top_d = inv.has_top_d;
  has_top_c = inv.has_top_c;
  size = omega (arith, length-set q.ring (q.head % 512) e, inv.size);
  head = omega (arith, inv.head);
  bound = omega arith;
  newest = λ i p r. slot i p r;
}
  where
    at_head :
        (n : ℕ)
        → n ≡ length all
        → get_elem? (set q.ring (n % 512) e) ((suc (length all) - 1 - 0) % 512) ≡ some e
    at_head n same =
        let index : (suc (length all) - 1 - 0) % 512 ≡ n % 512 = omega arith in
        rw index (get_elem?-set_self q.ring (n % 512) e (omega (arith, inv.size)))

    slot :
        (i : ℕ)
        → i < 512
        → i < suc (length all)
        → get_elem? (set q.ring (q.head % 512) e) ((suc (length all) - 1 - i) % 512)
          ≡ get_elem? (e ∷ all) i
    slot zero p r = at_head q.head inv.head
    slot (suc i) p r =
        let index : (suc (length all) - 1 - suc i) % 512 ≡ (length all - 1 - i) % 512 =
          omega arith in
        let ne : q.head % 512 ≢ (length all - 1 - i) % 512 = λ same.
          slot_ne (length all) i p (omega arith) (ap (λ (t : ℕ). t % 512) (sym inv.head) ∙ same) in
        rw index (
          get_elem?-set_ne q.ring (q.head % 512) ((length all - 1 - i) % 512) e ne
          ∙ inv.newest i (omega arith) (omega arith))

-- The fields that a record leaves as they are may hold anything.
same_ring :
    (q r : QueryLog) (all : List QLogEntry)
    → Holds q all
    → r.has_ring ≡ q.has_ring
    → r.has_top_d ≡ q.has_top_d
    → r.has_top_c ≡ q.has_top_c
    → r.ring ≡ q.ring
    → r.head ≡ q.head
    → Holds r all
same_ring q r all inv a b c d e = record {
  has_ring = a ∙ inv.has_ring;
  has_top_d = b ∙ inv.has_top_d;
  has_top_c = c ∙ inv.has_top_c;
  size = ap (λ (t : List QLogEntry). length t) d ∙ inv.size;
  head = e ∙ inv.head;
  bound = inv.bound;
  newest = λ i p k.
      subst
        (λ (t : List QLogEntry). get_elem? t ((length all - 1 - i) % qlog_size) ≡ get_elem? all i)
        (sym d) (inv.newest i p k);
}

record_entry-Holds :
    (e : QLogEntry) (q : QueryLog) (all : List QLogEntry)
    → length all + 1 < 2 ^ 32
    → Holds q all
    → Holds (record_entry e q) (e ∷ all)
unfolding record_entry
record_entry-Holds e q all h inv =
    same_ring (push_entry e q) (record_entry e q) (e ∷ all) (push_entry-Holds e q all h inv) refl
      refl refl refl refl

if_true {ℓ} : {A : Type ℓ} (b : Bool) → b ≡ true → (x y : A) → (if b then x else y) ≡ x
if_true b e x y = rw e refl

-- Recording keeps the ring the list of the latest queries, of which the recorded one is the
-- newest, as long as fewer than 2^32 - 1 were recorded before. The recorded entry has the first 63
-- bytes of the name, or none for a null pointer, the client's address, the uptime in whole seconds
-- on 32 bits, the wall clock, the type, and whether the query was blocked or rewritten.
pub query_log_record-Holds :
    (domain : Option (List ℕ)) (qtype ip : ℕ) (blocked rewritten : Bool) (now_us epoch : ℕ)
    (q : QueryLog) (all : List QLogEntry)
    → length all + 1 < 2 ^ 32
    → Holds q all
    → Holds (query_log_record domain qtype ip blocked rewritten now_us epoch q) (
        record {
          domain = elim domain [ none ↦ [] | some d ↦ take 63 d ];
          client_ip = ip;
          ts_s = u32 (now_us / 1000000);
          epoch_s = epoch;
          qtype = qtype;
          blocked = blocked;
          rewritten = rewritten;
        }
        ∷ all)
unfolding query_log_record entry_of
query_log_record-Holds domain qtype ip blocked rewritten now_us epoch q all h inv =
    let e = entry_of domain qtype ip blocked rewritten now_us epoch in
    let test : (q.has_ring && q.has_top_d && q.has_top_c) ≡ true =
      ap₂ (λ (x y : Bool). x && y) (ap₂ (λ (x y : Bool). x && y) inv.has_ring inv.has_top_d)
        inv.has_top_c in
    subst (λ (r : QueryLog). Holds r (e ∷ all)) (sym (if_true _ test (record_entry e q) q))
      (record_entry-Holds e q all h inv)

snapshot_loop-zero : (i head : ℕ) (ring : List QLogEntry) → snapshot_loop 0 i head ring ≡ done []
unfolding snapshot_loop
snapshot_loop-zero i head ring = refl

snapshot_loop-suc :
    (left i head : ℕ) (ring : List QLogEntry) (x : QLogEntry)
    → get_elem? ring (u32 (head + 2 ^ 32 - 1 - i + 512 * 2) % 512) ≡ some x
    → snapshot_loop (suc left) i head ring
      ≡ (snapshot_loop left (i + 1) head ring >>= λ es. done (x ∷ es))
unfolding snapshot_loop
snapshot_loop-suc left i head ring x at =
    ap (λ r. r >>= λ e. snapshot_loop left (i + 1) head ring >>= λ es. done (e ∷ es))
      (load-some ring (u32 (head + 2 ^ 32 - 1 - i + 512 * 2) % 512) at)

loop_lem :
    (q : QueryLog) (all : List QLogEntry)
    → Holds q all
    → (left i : ℕ) → i + left ≤ length all
    → i + left ≤ 512
    → Returns (snapshot_loop left i q.head q.ring) (λ es. es ≡ take left (drop i all))
loop_lem q all inv zero i h k = rw (snapshot_loop-zero i q.head q.ring) refl
loop_lem q all inv (suc left) i h k =
    step (get_elem?_total all i (omega arith)).0 (get_elem?_total all i (omega arith)).1
      (loop_lem q all inv left (i + 1) (omega arith) (omega arith))
  where
    index :
        (n : ℕ)
        → n ≡ length all
        → u32 (n + 2 ^ 32 - 1 - i + 512 * 2) % 512 ≡ (length all - 1 - i) % 512
    index n same = omega (arith, same, inv.bound, h)

    next : i + 1 ≡ suc i
    next = omega arith

    step :
        (x : QLogEntry)
        → get_elem? all i ≡ some x
        → Returns
            (snapshot_loop left (i + 1) q.head q.ring)
            (λ es. es ≡ take left (drop (i + 1) all))
        → Returns
            (snapshot_loop (suc left) i q.head q.ring)
            (λ es. es ≡ take (suc left) (drop i all))
    step x at rest =
        let found : get_elem? q.ring (u32 (q.head + 2 ^ 32 - 1 - i + 512 * 2) % 512) ≡ some x =
          ap (λ (t : ℕ). get_elem? q.ring t) (index q.head inv.head)
          ∙ inv.newest i (omega arith) (omega arith)
          ∙ at in
        rw (snapshot_loop-suc left i q.head q.ring x found, drop-at all i x at)
          (Returns-bind (snapshot_loop left (i + 1) q.head q.ring) (λ es. done (x ∷ es))
            (λ es. es ≡ x ∷ take left (drop (suc i) all)) rest
            (λ es same.
              ap (λ (t : List QLogEntry). x ∷ t)
                (same ∙ ap (λ (j : ℕ). take left (drop j all)) next)))

module _ {ℓ} {A : Type ℓ} where
  take-take : (a b : ℕ) (xs : List A) → a ≤ b → take a (take b xs) ≡ take a xs
  take-take zero b xs h = refl
  take-take (suc a) zero xs h = absurd (omega arith)
  take-take (suc a) (suc b) [] h = refl
  take-take (suc a) (suc b) (x ∷ xs) h = ap (λ (t : List A). x ∷ t) (take-take a b xs (omega arith))

  length-take_size : (n : ℕ) (xs : List A) → length (take n xs) ≤ length xs
  length-take_size zero xs = omega arith
  length-take_size (suc n) [] = omega arith
  length-take_size (suc n) (x ∷ xs) = omega (arith, length-take_size n xs)

  take_lesser : (a b : ℕ) (xs : List A) → take (if ltb a b then a else b) xs ≡ take a (take b xs)
  take_lesser a b xs = elim (Bool-cases (ltb a b)) [
    | inl e ↦ if_of (ltb a b) true e ∙ sym (take-take a b xs (omega (arith, ltb→lt a b e)))
    | inr e ↦
        if_of (ltb a b) false e
        ∙ sym (take-all a (take b xs) (omega (arith, ltb→le a b e, length-take_le b xs)))
  ]
    where
      if_of : (t u : Bool) → t ≡ u → take (if t then a else b) xs ≡ take (if u then a else b) xs
      if_of t u e = ap (λ (t : Bool). take (if t then a else b) xs) e

lesser_left : (a b : ℕ) → (if ltb a b then a else b) ≤ a
lesser_left a b = ground arith

lesser_right : (a b : ℕ) → (if ltb a b then a else b) ≤ b
lesser_right a b = ground arith

-- The tests of the filled part take nothing away.
take_filled :
    (n : ℕ) (all : List QLogEntry)
    → n ≡ length all
    → take (if ltb n 512 then n else 512) all ≡ take 512 all
take_filled n all same =
    take_lesser n 512 all
    ∙ take-all n (take 512 all) (omega (arith, same, length-take_size 512 all))

-- A snapshot of the ring returns, without an access out of bounds, the newest entries recorded
-- since the start, newest first: as many as there are, at most 512, and at most the capacity.
-- There are fewer than 2^32 entries recorded.
pub query_log_snapshot-newest :
    (cap : ℕ) (q : QueryLog) (all : List QLogEntry)
    → Holds q all
    → Returns (query_log_snapshot cap q) (λ es. es ≡ take cap (take qlog_size all))
unfolding query_log_snapshot
query_log_snapshot-newest cap q all inv =
    subst (λ (r : Run (List QLogEntry)). Returns r (λ es. es ≡ take cap (take qlog_size all)))
      (sym (if_true q.has_ring inv.has_ring (snapshot_loop count 0 q.head q.ring) (done [])))
      (Returns_mono (snapshot_loop count 0 q.head q.ring)
        (loop_lem q all inv count 0
          (omega (arith, inv.head, lesser_right cap filled, lesser_left q.head 512))
          (omega (arith, lesser_right cap filled, lesser_right q.head 512)))
        (λ es e.
          e
          ∙ take_lesser cap filled all
          ∙ ap (λ (t : List QLogEntry). take cap t) (take_filled q.head all inv.head)))
  where
    filled : ℕ
    filled = if ltb q.head 512 then q.head else 512

    count : ℕ
    count = if ltb cap filled then cap else filled
