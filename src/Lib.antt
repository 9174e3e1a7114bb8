-- ===== src/Lib.antt =====
-- ESP32_AdBlocker_Reborn is a DNS sinkhole for the ESP32-S3: it takes the DNS queries of a
-- network, answers those for blocked names itself and forwards the others. A query's question is
-- read out of the packet (main/domain.c, main/dns_wire.c), timed pauses decide whether blocking is
-- on for the client (main/pause.c), static rewrites answer local names (main/rewrite.c), and the
-- verdict on a name comes from a resolver (main/bl_rank.c) that asks several sources, the
-- blocklist and the lists of rules, for the rank of each suffix of the name. The blocklist is a
-- sorted table of 40-bit hashes (main/bl_table.c). Beside the verdict stand the lists of client
-- addresses (main/acl.c, main/bypass.c), the zones of the local network (main/localzone.c), the
-- log of recent queries (main/query_log.c), the census of clients (main/census.c) and the parsers
-- of the web interface's requests (main/web_parse.c). Of the server (main/dns_server.cpp) the
-- forward cache, the table of queries in flight and some of the handling of packets are here. This
-- library models these parts.
--
-- The files:
--   Common: the library names that the other files share, the tests on numbers and bytes, facts
--     on lists and bit fields, and the monad `Run` of code that reads memory: it returns,
--     faults at a read or write out of bounds, or runs out of fuel.
--   Domain: main/domain.c, the names: `domain_is_bare_tld`, `domain_normalize`,
--     `dns_extract_qname`, `dns_qname_wire_len`, `dns_qname_wire_eq`.
--   Token: main/domain.c, `domain_extract_token`, the domain of one line of a blocklist.
--   Gate: main/domain.c, `finish_token` with what it calls: what makes a token of a rule a
--     name.
--   Rule: main/domain.c, the rule grammar: `rule_parse_next`, `rule_apply_feed_policy`, and the
--     loop of main/blocklist.c over the rules of a line.
--   Wire: main/dns_wire.c, the names inside a packet with compression pointers:
--     `dns_skip_name`, `dns_decompress_name`.
--   Ttl: main/dns_wire.c, the TTLs of a response: `dns_resp_min_ttl`,
--     `dns_rewrite_answer_ttls`.
--   Rank: main/bl_rank.c, `bl_rank_resolve`. A source's probe is an argument, as it is a
--     function pointer in the code; `unproven` is not set by this code.
--   Table: main/bl_table.c, the hash, the 5-byte records, the binary searches, and the live
--     image: building it, looking a hash up in it and checking one that comes from flash.
--     Sorting and folding a chunk in are not here.
--   Dedup: main/bl_table.c, dropping equal neighbours: `bl_dedup_records`,
--     `bl_dedup_exceptions`.
--   Pause: main/pause.c, the whole file. The clock's readings are arguments, and the three
--     stores of a slot are also modelled one by one for a reader that runs beside the writer.
--   Address: main/acl.c, `acl_parse_ip4` with what `sscanf` does for it, and the dotted quads
--     that `snprintf` writes.
--   Clients: main/acl.c and main/bypass.c, the two lists of client addresses with their
--     readers, and what they keep in flash. The flash store is the parameter `Nvs`: a get gives
--     what was last written under the key.
--   QueryLog: main/query_log.c, the ring of recent queries, the history by minute and the top
--     lists. The breadcrumb for the crash log is not here.
--   Census: main/census.c, the table of the clients seen on the network.
--   WebParse: main/web_parse.c, the decoders and the parsers of requests, with what the string
--     functions of C do for them.
--   LocalZone: main/localzone.c, the zones of the local network, in two tables of which one is
--     live. What the flash store answers is an argument.
--   Cache: main/dns_server.cpp, the forward cache; Cache/Seqlock, the read of the receive task,
--     with the states it sees as arguments. The clock and the generation of the blocklist are
--     arguments.
--   Upstream: main/dns_server.cpp, the table of the queries in flight to the resolver. The
--     random numbers are a stream, of which some number within the fuel has to serve as an
--     identifier; the code rolls until one does.
--   Reply: main/dns_server.cpp, the random case of a question's name and its folding back, and
--     the search of an answer for a blocked name. Whether a name is blocked is an argument.
--   Rewrite: main/rewrite.c, the rules in memory: `rewrite_set`, `rewrite_lookup`,
--     `rewrite_lookup_nb`, `rewrite_list`, `rewrite_count`. What is kept in flash is not here.
--
-- A packet, a buffer or an array is a list, and an integer of the code is a natural number with
-- its wrap-around written out where the code can reach it. A C string is the list of its bytes
-- without the zero behind them. The mutexes of ESP-IDF are not in src: a function that waits for
-- its mutex has it, and one that may fail to get it takes the outcome as an argument.
--
-- The loops that are not structural run on fuel. The two walks over a packet's names have the
-- length of the packet, or the number of jumps that the code allows, as their measure; the walk of
-- the resolver has one more than the length of the name, since each step drops at least a byte;
-- the loop over the rules of a line has one more than the length of the line, since each rule
-- moves the cursor on; the loop over a list of zones and the searches of a request for a key have
-- one more than the length of their text, since each round takes bytes off it (an empty key, which
-- no caller passes, can make the code's search loop for ever); the binary search has one more than
-- the width of its range. Every theorem about such a loop states that it returns a result, so that
-- the fuel is enough.
--
-- Not modelled: the FreeRTOS tasks, sockets, flash, TLS and the web interface (the rest of
-- main/dns_server.cpp, main/dns_sink.cpp, main/blocklist.c, main/web_ui.cpp, main/http_fetch.c,
-- main/dot.c, main/web_tls.c and others), which mostly call ESP-IDF, and of the modelled files
-- what is named above.
pub mod Common
pub mod Domain
pub mod Token
pub mod Gate
pub mod Rule
pub mod Wire
pub mod Ttl
pub mod Rank
pub mod Table
pub mod Pause
pub mod Address
pub mod Clients
pub mod Rewrite
pub mod QueryLog
pub mod Cache
pub mod Census
pub mod Dedup
pub mod LocalZone
pub mod Reply
pub mod Upstream
pub mod WebParse
