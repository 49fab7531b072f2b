-- ===== src/Lib.antt =====
-- Aduana is a library for web crawlers: a database of the pages that were crawled or linked to, and
-- schedulers that choose what to crawl next. This development models its C code in lib/src.
--
-- Common: tests and lists over the native numbers, bits, bytes in little-endian order, integers.
-- Util.Varint, Util.Url, Util.Errors: lib/src/util.c, the variable-length integers, the domain of a URL,
--   error values and paths.
--   `Util.Varint.Outcome` tells a value from a step that C leaves undefined and from a read behind the
--   end of the input. Texts are lists of bytes.
-- DomainTemp: lib/src/domain_temp.c over an interface `Float` of the float operations it uses.
-- TxnManager: the inverted semaphore of lib/src/txn_manager.c, by which `txn_manager_expand` waits for
--   the open transactions, as a step relation between threads: the increment, the begin, the end of a
--   transaction and the decrement with its broadcast are steps of their own. TxnManager.Counter, TxnManager.Manager:
--   the functions of the file, one call at a time, over the codes of the pthread calls and an
--   interface `Lmdb` of the environment; a call that another thread has to end is `waits`, and a call
--   of LMDB that its documentation forbids is `misused`. The counters are 32-bit patterns.
-- PageDb.PageInfo: the page record of lib/src/page_db.c, its update (`page_info_update`) and its
--   stored form (`page_info_dump`, `page_info_load`). Floats are bit patterns. The loop that doubles
--   the room for the URL has fuel 17, since an unsigned short below 2 ^ 16 doubles sixteen times.
-- PageDb.Links: the value that `page_db_add` stores for the links of a page, and its reader
-- `page_db_link_stream_copy_links`.
-- PageDb.CrawledPage: how a crawled page is filled before it is added. PageDb.Links.Stream:
-- `page_db_link_stream_next` over the rows that the cursor yields.
-- PageDb.Links.Reset: opening and resetting that stream.
-- PageDb.Env, PageDb.Txn, PageDb.Add: `page_db_add` and what it calls, in a monad of the tables that
--   a write transaction sees. The tables of LMDB, the compressor smaz and the hash xxHash are
--   interfaces with their documented laws; any call of LMDB may fail. A step goes on, jumps to
--   `on_error` or has undefined behaviour, as where `page_db_add` frees or aborts what is not valid. The tables start and end as one
--   record: a failed transaction leaves that record as it was.
-- PageDb.Get: `page_db_get_info`, `page_db_get_idx` and `page_db_get_scores` on the same tables.
-- BfScheduler.UpdateThread: the update thread of lib/src/bf_scheduler.c and its client as a step
--   relation over the two mutexes and the condition variable.
-- BfScheduler.Requests: the walk of `bf_scheduler_request` over the schedule, and the order of its
--   keys (lib/src/scheduler.c). It reads pages through an argument that stands for `page_db_get_info`,
--   and crawl rates from DomainTemp.
-- BfScheduler.Schedule: the entries that `bf_scheduler_add`, `bf_scheduler_reload` and
-- `bf_scheduler_change_score` put into the schedule and delete from it.
--
-- BfScheduler.Update: `bf_scheduler_update_step` and its batches, which carry new scores into the
--   schedule. Its loop has fuel, and one round for each 100 pages and one more are enough where the
--   stream ends.
--
-- MmapArray: lib/src/mmap_array.c over an interface `System` of the calls of the system; new sizes in
--   bytes are counted in 64 bits.
-- Ranks: what lib/src/page_rank.c and lib/src/hits.c share, over an interface `Arith` of float
--   arithmetic. A stream of links is the list of its answers between two resets. Ranks.PageRank is
--   lib/src/page_rank.c. A NULL or unmapped pointer that is followed ends a run as `null_read`. The
--   loop of `page_rank_compute` has fuel, and `max_loops` is enough of it. Ranks.Hits is lib/src/hits.c,
--   in the same way.
--
-- Ranks.Delete: `page_rank_delete` and `hits_delete`. Scorers: lib/src/page_rank_scorer.c and
--   lib/src/hits_scorer.c, over Ranks; the array of the content scores is an argument, and one that
--   was deleted is an array of which nothing is mapped.
--
-- FreqScheduler: lib/src/freq_scheduler.c and lib/src/freq_algo.c over an interface of the schedule. The
--   loop of `freq_scheduler_request` has fuel; the URLs that are asked for and the entries of the
--   schedule together are enough of it, since each round requests a page or deletes an entry.
--
-- A module named Runs holds runs on concrete inputs, and each theorem with hypotheses applied at one.
--
-- Not modelled: memory exhaustion, the texts of errors outside Util.Errors, files and directories,
-- opening, closing and configuring the page database and the schedulers, printing and dumping, and the
-- command-line tools. The copies of LMDB, smaz and xxHash in lib/lib, and the Python code, are no part
-- of it.
pub mod Common
pub mod Util
pub mod DomainTemp
pub mod TxnManager
pub mod PageDb
pub mod BfScheduler
pub mod MmapArray
pub mod Ranks
pub mod FreqScheduler
pub mod Scorers
