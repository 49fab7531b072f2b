-- ===== src/BfScheduler/Update.antt =====
-- How `bf_scheduler_update_step` of lib/src/bf_scheduler.c brings the schedule up to date in batches,
-- and the stream of pages that it reads (`hashidx_stream_next` of lib/src/page_db.c).
pub mod Complete
pub mod Failures
mod Runs
use aduana.Common.{ℕ, zero, suc, ◌+◌, ◌==◌, Bool, true, false, if◌then◌else◌, Option, none, some}
use aduana.DomainTemp.{Float}
use aduana.Ranks.{Run, returned, null_read, running}
use aduana.BfScheduler.Schedule.{Schedule, bf_scheduler_change_score}

-- What the code uses of `float` and `double` beside `Float`: `x - y`, `fabs(x)` and `0.1*x`.
pub record Distance (float : Float) : Type 0 where
  pub sub : float.Carrier → float.Carrier → float.Carrier
  pub fabs : float.Carrier → float.Carrier
  pub tenth : float.Carrier → float.Carrier

-- The rows that the cursor of a stream has not read yet: a hash with its index. Behind them LMDB
-- answers MDB_NOTFOUND, or another code, each time that it is asked.
pub data Rows : Type 0 where
  row : ℕ → ℕ → Rows → Rows
  not_found : Rows
  broken : Rows

pub data StreamState : Type 0 where
  stream_state_next : ℕ → ℕ → StreamState
  stream_state_end : StreamState
  stream_state_error : StreamState

unfoldable pub hashidx_stream_next : Rows → StreamState × Rows
hashidx_stream_next (row hash idx rows) = (stream_state_next hash idx, rows)
hashidx_stream_next not_found = (stream_state_end, not_found)
hashidx_stream_next broken = (stream_state_error, broken)

-- The pointer `update_thread->stream`.
pub data StreamPointer : Type 0 where
  null : StreamPointer
  live : Rows → StreamPointer
  freed : StreamPointer

abbrev pub bf_scheduler_error_internal : ℕ
bf_scheduler_error_internal = 3

abbrev pub bf_scheduler_update_batch_size : ℕ
bf_scheduler_update_batch_size = 100

-- `fault n` tells whether the n-th call of the transaction manager or of LMDB around a batch fails,
-- `tables n` is what the n-th stream reads, `none` where `hashidx_stream_new` fails, and `get` is
-- `scorer->get`.
module _ (float : Float) (distance : Distance float) (schedule : Schedule float) (fault : ℕ → Bool)
    (tables : ℕ → Option Rows) (get : ℕ → float.Carrier × float.Carrier) where
  -- `schedule` is the table as it was committed last. Of the error only the code is kept.
  pub record Updater : Type 0 where
    pub table : schedule.State
    pub stream : StreamPointer
    pub n_streams : ℕ
    pub calls : ℕ
    pub error : ℕ

  -- How the loop of a batch ends: with the table and the stream, by the jump out where
  -- `bf_scheduler_change_score` fails, or on a pointer to a stream that was deleted.
  pub data LoopEnd : Type 0 where
    finished : schedule.State → StreamPointer → LoopEnd
    change_failed : LoopEnd
    dangling : LoopEnd

  -- `fabs(score_old - score_new) >= 0.1*fabs(score_old)`
  unfoldable pub is_significant : float.Carrier → float.Carrier → Bool
  is_significant score_old score_new =
      float.leq (distance.tenth (distance.fabs score_old))
        (distance.fabs (distance.sub score_old score_new))

  -- The change of one page.
  unfoldable pub update_page : ℕ → ℕ → schedule.State → Option schedule.State
  unfolding is_significant
  update_page hash idx table =
      let (score_old, score_new) = get idx in
      if is_significant score_old score_new
      then bf_scheduler_change_score float schedule hash score_old score_new table
      else some table

  -- The loop of `bf_scheduler_update_batch`, with the number of rounds left.
  unfoldable pub batch_loop : ℕ → schedule.State → StreamPointer → LoopEnd
  unfolding update_page hashidx_stream_next
  batch_loop zero table stream = finished table stream
  batch_loop (suc k) table null = finished table null
  batch_loop (suc k) table freed = dangling
  batch_loop (suc k) table (live rows) = elim ((hashidx_stream_next rows).0) [
    | stream_state_next hash idx ↦ elim (update_page hash idx table) [
      | none ↦ change_failed
      | some table' ↦ batch_loop k table' (live (hashidx_stream_next rows).1)
    ]
    | stream_state_end ↦ batch_loop k table null
    | stream_state_error ↦ batch_loop k table (live (hashidx_stream_next rows).1)
  ]

  abbrev pub tick : Updater → Updater
  tick s = record s { calls = s.calls + 1 }

  abbrev pub put_stream : Updater → StreamPointer → Updater
  put_stream s p = record s { stream = p }

  unfoldable pub set_error : Updater → Updater
  set_error s = record s { error = if s.error == 0 then bf_scheduler_error_internal else s.error }

  abbrev pub return_error : Updater → Run ℕ Updater
  return_error s = returned (set_error s).error (set_error s)

  -- From the label `on_error` on: the stream is deleted, its pointer stays.
  unfoldable pub on_error : Updater → StreamPointer → Run ℕ Updater
  unfolding set_error
  on_error s null = return_error (put_stream s null)
  on_error s (live rows) = return_error (put_stream s freed)
  on_error s freed = null_read

  -- What follows the loop.
  unfoldable pub end_batch : Updater → LoopEnd → Run ℕ Updater
  unfolding on_error set_error
  end_batch s dangling = null_read
  end_batch s change_failed = return_error (put_stream s freed)
  end_batch s (finished table stream) =
      if fault s.calls
      then on_error (tick s) stream
      else returned 0 (record s { table = table; stream = stream; calls = s.calls + 1 })

  -- The whole loop of a batch.
  unfoldable pub batch : schedule.State → StreamPointer → LoopEnd
  batch table stream = batch_loop bf_scheduler_update_batch_size table stream

  -- `txn_manager_begin` and `bf_scheduler_open_cursor`, and the loop.
  unfoldable pub begin_batch : Updater → Run ℕ Updater
  begin_batch s =
      if fault s.calls
      then on_error (tick s) s.stream
      else if fault (s.calls + 1)
      then on_error (tick (tick s)) s.stream
      else end_batch (tick (tick s)) (batch s.table s.stream)

  -- A stream that could not be made has no cursor, and deleting it aborts a null transaction.
  unfoldable pub open_stream : Updater → Option Rows → Run ℕ Updater
  unfolding begin_batch
  open_stream s none = null_read
  open_stream s (some rows) =
      begin_batch (record s { stream = live rows; n_streams = s.n_streams + 1 })

  -- Where no stream is active a new one is made.
  unfoldable pub with_stream : Updater → StreamPointer → Run ℕ Updater
  unfolding open_stream begin_batch
  with_stream s null = open_stream s (tables s.n_streams)
  with_stream s (live rows) = begin_batch s
  with_stream s freed = begin_batch s

  unfoldable pub bf_scheduler_expand : Updater → Updater
  unfolding set_error
  bf_scheduler_expand s = if fault s.calls then set_error (tick s) else tick s

  unfoldable pub bf_scheduler_update_batch : Updater → Run ℕ Updater
  unfolding bf_scheduler_expand with_stream
  bf_scheduler_update_batch s =
      let t = bf_scheduler_expand s in
      if t.error == 0 then with_stream t t.stream else returned t.error t

  -- `while (sch->update_thread->stream)`
  unfoldable pub while_stream : (Updater → Run ℕ Updater) → Updater → StreamPointer → Run ℕ Updater
  while_stream next s null = returned 0 s
  while_stream next s (live rows) = next s
  while_stream next s freed = next s

  unfoldable pub after_batch : (Updater → Run ℕ Updater) → Run ℕ Updater → Run ℕ Updater
  unfolding while_stream
  after_batch next null_read = null_read
  after_batch next running = running
  after_batch next (returned (suc e) s) = returned (suc e) s
  after_batch next (returned zero s) = while_stream next s s.stream

  -- The loop of `bf_scheduler_update_step`, with fuel.
  unfoldable pub update_batches : ℕ → Updater → Run ℕ Updater
  unfolding after_batch bf_scheduler_update_batch
  update_batches zero s = running
  update_batches (suc fuel) s = after_batch (update_batches fuel) (bf_scheduler_update_batch s)

  -- `scored` tells whether `scorer->update` went through.
  unfoldable pub bf_scheduler_update_step : ℕ → Bool → Updater → Run ℕ Updater
  unfolding set_error update_batches
  bf_scheduler_update_step fuel scored s = if scored then update_batches fuel s else return_error s
