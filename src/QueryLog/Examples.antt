-- ===== src/QueryLog/Examples.antt =====
-- The query log on two queries.
use esp32_ad_blocker_reborn.Common.{
  ℕ, ◌≡◌, refl, arith, true, false, some, none, List, [], ◌∷◌, take, codes, Returns,
}
use esp32_ad_blocker_reborn.QueryLog.{
  QLogEntry, QTopEntry, QueryLog, qlog_size, query_log_init, query_log_record, query_log_snapshot,
  query_log_top_domains,
}
use esp32_ad_blocker_reborn.QueryLog.Ring.{
  Holds, query_log_init-Holds, query_log_record-Holds, query_log_snapshot-newest,
}

abbrev empty : QueryLog
empty = (query_log_init true true true).0

abbrev first : QLogEntry
first = record {
  domain = codes "ads.example";
  client_ip = 3232235777;
  ts_s = 61;
  epoch_s = 0;
  qtype = 1;
  blocked = true;
  rewritten = false;
}

abbrev one : QueryLog
one = query_log_record (some (codes "ads.example")) 1 3232235777 true false 61000000 0 empty

abbrev two : QueryLog
two = query_log_record none 28 3232235778 false false 185000000 0 one

query_log_record-Holds_example : Holds one (first ∷ [])
query_log_record-Holds_example =
    query_log_record-Holds (some (codes "ads.example")) 1 3232235777 true false 61000000 0 empty []
      (omega arith) query_log_init-Holds

query_log_snapshot-newest_example :
    Returns (query_log_snapshot 8 one) (λ es. es ≡ take 8 (take qlog_size (first ∷ [])))
query_log_snapshot-newest_example = query_log_snapshot-newest 8 one (first ∷ []) (
    query_log_record-Holds (some (codes "ads.example")) 1 3232235777 true false 61000000 0 empty []
      (omega arith) query_log_init-Holds)

counts : List QTopEntry → List ℕ
counts [] = []
counts (x ∷ xs) = x.total ∷ counts xs

counts_test : counts (query_log_top_domains 3 two) ≡ 1 ∷ 1 ∷ 0 ∷ []
unfolding query_log_top_domains query_log_record query_log_init counts
counts_test = refl
