-- ===== src/QueryLog.antt =====
-- main/query_log.c: the ring of recent queries, the history by minute and the top lists.
-- The clock's readings and the allocator's answers are arguments; the breadcrumb for the crash log is not modelled.
pub mod Ring
pub mod Top
mod Examples
use esp32_ad_blocker_reborn.Common.{
  ℕ, zero, suc, ◌+◌, ◌-◌, ◌/◌, ◌%◌, ◌^◌, ◌*◌, Bool, true, false, Option, none, some, List, [], ◌∷◌,
  ◌++◌, ◌==◌, ltb, leb, if◌then◌else◌, ◌&&◌, replicate, length, set, get_elem?, take, eq_bytes, u32,
  Run, done, ◌>>=◌, load,
}
use esp32_ad_blocker_reborn.Address.{print_ip4}

abbrev pub qlog_size : ℕ
qlog_size = 512

abbrev pub qtop_domains : ℕ
qtop_domains = 32

abbrev pub qtop_clients : ℕ
qtop_clients = 16

abbrev pub qhist_buckets : ℕ
qhist_buckets = 60

pub record QLogEntry : Type 0 where
  pub domain : List ℕ
  pub client_ip : ℕ
  pub ts_s : ℕ
  pub epoch_s : ℕ
  pub qtype : ℕ
  pub blocked : Bool
  pub rewritten : Bool

pub record QTopEntry : Type 0 where
  pub key : List ℕ
  pub total : ℕ
  pub blocked : ℕ

pub record HistBucket : Type 0 where
  pub total : ℕ
  pub blocked : ℕ

-- The file's statics; the three tests say which of the tables were allocated.
pub record QueryLog : Type 0 where
  pub has_ring : Bool
  pub has_top_d : Bool
  pub has_top_c : Bool
  pub ring : List QLogEntry
  pub head : ℕ
  pub hist : List HistBucket
  pub hist_minute : ℕ
  pub top_d : List QTopEntry
  pub top_c : List QTopEntry

pub bump : Bool → ℕ → ℕ
bump b n = if b then u32 (n + 1) else n

pub zero_entry : QLogEntry
zero_entry = record {
  domain = [];
  client_ip = 0;
  ts_s = 0;
  epoch_s = 0;
  qtype = 0;
  blocked = false;
  rewritten = false;
}

pub zero_top : QTopEntry
zero_top = record { key = []; total = 0; blocked = 0 }

-- The statics after `query_log_init`, which runs once, with its answer.
unfoldable pub query_log_init : Bool → Bool → Bool → QueryLog × Bool
unfolding zero_entry zero_top
query_log_init ring top_d top_c = (
  record {
    has_ring = ring;
    has_top_d = top_d;
    has_top_c = top_c;
    ring = replicate qlog_size zero_entry;
    head = 0;
    hist = replicate qhist_buckets (record { total = 0; blocked = 0 });
    hist_minute = 0;
    top_d = replicate qtop_domains zero_top;
    top_c = replicate qtop_clients zero_top;
  },
  ring && top_d && top_c,
)

-- The first loop of `top_insert`: the entry of the key is counted, if there is one.
pub count_key : List ℕ → Bool → List QTopEntry → List QTopEntry × Bool
unfolding bump
count_key key blocked [] = ([], false)
count_key key blocked (e ∷ es) =
    let (rest, found) = count_key key blocked es in
    if eq_bytes e.key key
    then (record e { total = u32 (e.total + 1); blocked = bump blocked e.blocked } ∷ es, true)
    else (e ∷ rest, found)

-- The second loop: the first entry of the least count.
pub min_loop : ℕ → ℕ → ℕ → List QTopEntry → ℕ
min_loop i min_idx min_val [] = min_idx
min_loop i min_idx min_val (e ∷ es) =
    min_loop (i + 1) (if ltb e.total min_val then i else min_idx)
      (if ltb e.total min_val then e.total else min_val) es

pub min_index : List QTopEntry → ℕ
unfolding min_loop
min_index [] = 0
min_index (e ∷ es) = min_loop 1 0 e.total es

pub top_insert : List ℕ → Bool → List QTopEntry → List QTopEntry
unfolding count_key min_index
top_insert key blocked tbl =
    let (counted, found) = count_key key blocked tbl in
    if found
    then counted
    else set tbl (min_index tbl)
        (record { key = take 63 key; total = 1; blocked = if blocked then 1 else 0 })

-- The loop that clears the buckets of the minutes that were skipped.
pub clear_buckets : ℕ → ℕ → ℕ → List HistBucket → List HistBucket
clear_buckets zero i minute hist = hist
clear_buckets (suc left) i minute hist =
    clear_buckets left (i + 1) minute
      (set hist (u32 (minute + 1 + i) % qhist_buckets) (record { total = 0; blocked = 0 }))

-- The buckets at a new minute.
pub advance : ℕ → ℕ → List HistBucket → List HistBucket
unfolding clear_buckets
advance minute now_min hist =
    let skip = u32 (now_min + 2 ^ 32 - minute) in
    if now_min == minute
    then hist
    else clear_buckets (if ltb qhist_buckets skip then qhist_buckets else skip) 0 minute hist

pub count_bucket : Bool → HistBucket → HistBucket
unfolding bump
count_bucket blocked b = record { total = u32 (b.total + 1); blocked = bump blocked b.blocked }

-- The write into the ring.
pub push_entry : QLogEntry → QueryLog → QueryLog
push_entry e q = record q { ring = set q.ring (q.head % qlog_size) e; head = u32 (q.head + 1) }

-- The entry that a call writes; `now_us` is the uptime in microseconds, `epoch` the wall clock; a
-- null domain is `none`.
pub entry_of : Option (List ℕ) → ℕ → ℕ → Bool → Bool → ℕ → ℕ → QLogEntry
entry_of domain qtype ip blocked rewritten now_us epoch = record {
  domain = elim domain [ none ↦ [] | some d ↦ take 63 d ];
  client_ip = ip;
  ts_s = u32 (now_us / 1000000);
  epoch_s = epoch;
  qtype = qtype;
  blocked = blocked;
  rewritten = rewritten;
}

pub bump_slot : Bool → List HistBucket → ℕ → List HistBucket
unfolding count_bucket
bump_slot blocked hist slot = elim (get_elem? hist slot) [
  | none ↦ hist
  | some b ↦ set hist slot (count_bucket blocked b)
]

-- The body of `query_log_record`, after its test for the tables.
pub record_entry : QLogEntry → QueryLog → QueryLog
unfolding push_entry top_insert advance bump_slot
record_entry e q =
    let pushed = push_entry e q in
    let now_min = e.ts_s / 60 in
    record pushed {
      hist = bump_slot e.blocked (advance q.hist_minute now_min q.hist) (now_min % qhist_buckets);
      hist_minute = now_min;
      top_d = top_insert e.domain e.blocked q.top_d;
      top_c = top_insert (print_ip4 e.client_ip) e.blocked q.top_c;
    }

unfoldable pub query_log_record :
    Option (List ℕ) → ℕ → ℕ → Bool → Bool → ℕ → ℕ → QueryLog → QueryLog
unfolding entry_of record_entry
query_log_record domain qtype ip blocked rewritten now_us epoch q =
    if q.has_ring && q.has_top_d && q.has_top_c
    then record_entry (entry_of domain qtype ip blocked rewritten now_us epoch) q
    else q

-- The loop of `query_log_snapshot`, from `i` on.
pub snapshot_loop : ℕ → ℕ → ℕ → List QLogEntry → Run (List QLogEntry)
snapshot_loop zero i head ring = done []
snapshot_loop (suc left) i head ring =
    load ring (u32 (head + 2 ^ 32 - 1 - i + qlog_size * 2) % qlog_size) >>= λ e.
    snapshot_loop left (i + 1) head ring >>= λ es. done (e ∷ es)

unfoldable pub query_log_snapshot : ℕ → QueryLog → Run (List QLogEntry)
unfolding snapshot_loop
query_log_snapshot cap q =
    let filled = if ltb q.head qlog_size then q.head else qlog_size in
    if q.has_ring
    then snapshot_loop (if ltb cap filled then cap else filled) 0 q.head q.ring
    else done []

-- The inner loop of the sort, on the sorted part with its last entry first.
pub insert_key : QTopEntry → List QTopEntry → List QTopEntry
insert_key key [] = key ∷ []
insert_key key (x ∷ xs) = if ltb x.total key.total then x ∷ insert_key key xs else key ∷ x ∷ xs

-- The outer loop; the sorted part stands with its last entry first.
pub sort_loop : List QTopEntry → List QTopEntry → List QTopEntry
unfolding insert_key
sort_loop sorted [] = sorted
sort_loop sorted (e ∷ es) = sort_loop (insert_key e sorted) es

pub back_to_front : List QTopEntry → List QTopEntry → List QTopEntry
back_to_front acc [] = acc
back_to_front acc (x ∷ xs) = back_to_front (x ∷ acc) xs

-- What is copied out of a table, sorted.
pub top_sorted : ℕ → ℕ → List QTopEntry → List QTopEntry
unfolding sort_loop back_to_front
top_sorted size cap tbl =
    back_to_front [] (sort_loop [] (take (if ltb cap size then cap else size) tbl))

unfoldable pub query_log_top_domains : ℕ → QueryLog → List QTopEntry
unfolding top_sorted
query_log_top_domains cap q = if q.has_top_d then top_sorted qtop_domains cap q.top_d else []

unfoldable pub query_log_top_clients : ℕ → QueryLog → List QTopEntry
unfolding top_sorted
query_log_top_clients cap q = if q.has_top_c then top_sorted qtop_clients cap q.top_c else []

-- The two counts that `query_log_stats` writes.
unfoldable pub query_log_stats : QueryLog → ℕ × ℕ
query_log_stats q = (q.head, 0)

-- The loop of `query_log_history`: the buckets, the latest first, and `filled`.
pub history_loop : ℕ → ℕ → ℕ → ℕ → List HistBucket → Run (List HistBucket × ℕ)
history_loop zero i filled cur hist = done ([], filled)
history_loop (suc left) i filled cur hist =
    load hist (u32 (cur + 2 ^ 32 - i + qhist_buckets * 2) % qhist_buckets) >>= λ b.
    history_loop left (i + 1) (if ltb 0 b.total then i + 1 else filled) cur hist >>= λ (bs, n).
    done (b ∷ bs, n)

unfoldable pub query_log_history : QueryLog → Run (List HistBucket × ℕ)
unfolding history_loop
query_log_history q = history_loop qhist_buckets 0 0 q.hist_minute q.hist >>= λ (bs, filled).
    done (bs, if ltb 0 filled then filled else 1)
