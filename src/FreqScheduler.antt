-- ===== src/FreqScheduler.antt =====
-- lib/src/freq_scheduler.c: the scheduler that crawls pages again with a given frequency. The schedule
-- is a table of LMDB in ascending order, as an interface. Of an error only the code is kept, and
-- memory is never short.
use aduana.Common.{
  ℕ, zero, suc, ◌+◌, ◌-◌, ◌<◌, ◌≤◌, ◌≡◌, Bool, true, false, not, ◌&&◌, ◌||◌, ltb, ◌==◌,
  if◌then◌else◌, Option, none, some, List, [], ◌∷◌, ◌++◌,
}
use aduana.PageDb.PageInfo.{PageInfo}
use aduana.Ranks.{Arith}
pub mod Load
mod Requests
mod Errors
mod Loading
mod Algo
mod Plain
mod Runs

pub data FreqSchedulerError : Type 0 where
  freq_scheduler_error_ok : FreqSchedulerError
  freq_scheduler_error_memory : FreqSchedulerError
  freq_scheduler_error_invalid_path : FreqSchedulerError
  freq_scheduler_error_internal : FreqSchedulerError

abbrev pub is_ok : FreqSchedulerError → Bool
is_ok freq_scheduler_error_ok = true
is_ok _ = false

module _ (float : Arith) where
  pub record ScheduleKey : Type 0 where
    pub score : float.Carrier
    pub hash : ℕ

  -- The schedule as a transaction sees it: the entry that MDB_FIRST finds, deleting it, and putting an
  -- entry.
  pub record Queue : Type 1 where
    pub State : Type 0
    pub count : State → ℕ
    pub first : State → Option (ScheduleKey × float.Carrier)
    pub del_first : State → State
    pub put : State → ScheduleKey → float.Carrier → State
    pub del_first-count :
        (s : State) (e : ScheduleKey × float.Carrier)
        → first s ≡ some e
        → suc (count (del_first s)) ≡ count s
    pub put-count :
        (s : State) (key : ScheduleKey) (freq : float.Carrier)
        → count (put s key freq) ≤ suc (count s)

  -- How the calls that an operation makes turn out: whether its transaction begins, its cursor opens
  -- and it commits, whether the n-th call of LMDB in between fails, the time at that call, and the
  -- pages: `none` in front is the error of reading one.
  pub record Calls : Type 0 where
    pub begin : Bool
    pub cursor : Bool
    pub commit : Bool
    pub fault : ℕ → Bool
    pub time : ℕ → float.Carrier
    pub page_db_get_info : ℕ → Option (Option PageInfo)

  unfoldable pub page_info_rate : PageInfo → float.Carrier
  page_info_rate pi =
      let delta = float.sub (float.of_bits pi.last_crawl) (float.of_bits pi.first_crawl) in
      if float.greater delta float.nought
      then float.div (float.add (float.of_ℕ pi.n_changes) float.one) delta
      else float.sub float.nought float.one

  module _ (queue : Queue) where
    -- `open_txns` counts the write transactions that were begun and neither committed nor aborted.
    pub record FreqScheduler : Type 0 where
      pub schedule : queue.State
      pub open_txns : ℕ
      pub error : FreqSchedulerError
      pub margin : float.Carrier
      pub max_n_crawls : ℕ

    -- How an operation ends. `freed` is the use of a cursor or a transaction after it was freed, or of
    -- a cursor that is NULL where LMDB does not test it.
    pub data Outcome : Type 0 where
      returned : FreqSchedulerError → List (List ℕ) → FreqScheduler → Outcome
      freed : Outcome
      running : Outcome

    unfoldable pub freq_scheduler_set_error : FreqScheduler → FreqScheduler
    freq_scheduler_set_error sch = record sch {
      error = if is_ok sch.error then freq_scheduler_error_internal else sch.error;
    }

    -- The code, whether there is a cursor, and the scheduler. A cursor that cannot be opened leaves
    -- the error and the transaction as they are.
    unfoldable pub freq_scheduler_cursor_open :
        Calls → FreqScheduler → FreqSchedulerError × Bool × FreqScheduler
    unfolding freq_scheduler_set_error
    freq_scheduler_cursor_open calls sch =
        let sch' = freq_scheduler_set_error sch in
        if not calls.begin
        then (sch'.error, false, sch')
        else (sch.error, calls.cursor, record sch { open_txns = sch.open_txns + 1 })

    unfoldable pub freq_scheduler_cursor_abort : Bool → FreqScheduler → FreqScheduler
    freq_scheduler_cursor_abort cursor sch =
        if cursor then record sch { open_txns = sch.open_txns - 1 } else sch

    -- `on_error` of the operations; what the cursor has written is lost.
    unfoldable pub on_error : Bool → List (List ℕ) → FreqScheduler → Outcome
    unfolding freq_scheduler_cursor_abort freq_scheduler_set_error
    on_error cursor urls sch =
        let sch' = freq_scheduler_set_error (freq_scheduler_cursor_abort cursor sch) in
        returned sch'.error urls sch'

    -- freq_scheduler_cursor_commit, after which the operations return the code. Where it fails, the
    -- transaction that `mdb_txn_commit` has freed is aborted.
    unfoldable pub commit : Calls → List (List ℕ) → queue.State → FreqScheduler → Outcome
    commit calls urls schedule sch =
        if calls.commit
        then returned sch.error urls
            (record sch { schedule = schedule; open_txns = sch.open_txns - 1 })
        else freed

    -- What becomes of the head of the schedule: no more requests, or it is deleted, or requested.
    pub data Verdict : Type 0 where
      interrupt_requests : Verdict
      drop_page : Verdict
      crawl : List ℕ → Verdict

    -- `elapsed < 1.0/(freq*(1.0 + sch->margin))`, where the margin is not disabled.
    unfoldable pub is_early : FreqScheduler → float.Carrier → float.Carrier → PageInfo → Bool
    is_early sch time freq pi =
        float.leq float.nought sch.margin
        && float.greater (float.div float.one (float.mul freq (float.add float.one sch.margin)))
            (float.sub time (float.of_bits pi.last_crawl))

    -- `(sch->max_n_crawls == 0) || (pi->n_crawls < sch->max_n_crawls)`
    unfoldable pub may_crawl : FreqScheduler → PageInfo → Bool
    may_crawl sch pi = sch.max_n_crawls == 0 || ltb pi.n_crawls sch.max_n_crawls

    unfoldable pub verdict :
        FreqScheduler → float.Carrier → float.Carrier → Option PageInfo → Verdict
    unfolding is_early may_crawl
    verdict sch time freq none = drop_page
    verdict sch time freq (some pi) =
        if is_early sch time freq pi
        then interrupt_requests
        else if may_crawl sch pi
        then crawl pi.url
        else drop_page

    -- How the loop of freq_scheduler_request ends: it leaves the URLs and the schedule, or it fails
    -- with the URLs that it has collected, or the fuel ends.
    pub data LoopEnd : Type 0 where
      done : List (List ℕ) → queue.State → LoopEnd
      failed : List (List ℕ) → LoopEnd
      out_of_fuel : LoopEnd

    -- The loop of freq_scheduler_request. `n` counts the calls of LMDB, and `room` is what is left of
    -- `max_requests`.
    unfoldable pub request_loop :
        FreqScheduler → Calls → ℕ → ℕ → List (List ℕ) → ℕ → queue.State → LoopEnd
    unfolding verdict
    request_loop sch calls fuel n urls zero s = done urls s
    request_loop sch calls zero n urls (suc room) s = out_of_fuel
    request_loop sch calls (suc fuel) n urls (suc room) s =
        if calls.fault n then failed urls else elim (queue.first s) [
          | none ↦ done urls s
          | some (sk, freq) ↦ elim (calls.page_db_get_info sk.hash) [
            | none ↦ failed urls
            | some info ↦ elim (verdict sch (calls.time n) freq info) [
              | interrupt_requests ↦ done urls s
              | drop_page ↦
                  if calls.fault (n + 1)
                  then failed urls
                  else request_loop sch calls fuel (n + 2) urls (suc room) (queue.del_first s)
              | crawl url ↦
                  let urls' = urls ++ (url ∷ []) in
                  let sk' : ScheduleKey = record sk {
                    score = float.add sk.score (float.div float.one freq);
                  } in
                  if calls.fault (n + 1)
                  then failed urls
                  else if calls.fault (n + 2)
                  then failed urls'
                  else (request_loop sch calls fuel (n + 3) urls' room
                      (queue.put (queue.del_first s) sk' freq))
            ]
          ]
        ]

    -- What follows the loop.
    unfoldable pub end_request : Calls → FreqScheduler → LoopEnd → Outcome
    unfolding commit on_error
    end_request calls sch (done urls s) = commit calls urls s sch
    end_request calls sch (failed urls) = on_error true urls sch
    end_request calls sch out_of_fuel = running

    -- Without a cursor, `mdb_cursor_get` fails, and with no request to fill, the NULL cursor is
    -- committed.
    unfoldable pub freq_scheduler_request : Calls → ℕ → ℕ → FreqScheduler → Outcome
    unfolding freq_scheduler_cursor_open on_error request_loop end_request
    freq_scheduler_request calls fuel max_requests sch =
        let (code, cursor, sch') = freq_scheduler_cursor_open calls sch in
        if not (is_ok code)
        then on_error cursor [] sch'
        else if not cursor
        then (if max_requests == 0 then freed else on_error cursor [] sch')
        else end_request calls sch' (request_loop sch' calls fuel 0 [] max_requests sch'.schedule)
