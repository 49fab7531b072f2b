-- ===== src/BfScheduler/Update/Runs.antt =====
-- Runs of the update of the schedule of lib/src/bf_scheduler.c, and the theorems there.
use aduana.Common.{
  ℕ, ◌-◌, ◌/◌, ltb, ◌≡◌, ◌≢◌, refl, arith, Bool, true, false, ◌==◌, ◌||◌, if◌then◌else◌, List, [],
  ◌∷◌, Option, none, some,
}
use aduana.Ranks.{returned, running}
use aduana.BfScheduler.Plain.{whole, Tests, tests}
use aduana.BfScheduler.Requests.{schedule_entry_mdb_cmp_desc}
use aduana.BfScheduler.Schedule.{is_same, one_key, bf_scheduler_change_score}
use aduana.BfScheduler.Update.{
  Distance, Rows, row, not_found, broken, null, freed, is_significant, update_page,
  hashidx_stream_next, batch_loop, batch, end_batch, begin_batch, open_stream, with_stream,
  bf_scheduler_expand, bf_scheduler_update_batch, after_batch, update_batches,
  bf_scheduler_update_step, set_error, on_error,
}
use aduana.BfScheduler.Update.Complete.{
  rows_of, update_all, updating, IsDone, bf_scheduler_update_step_lem,
}
use aduana.BfScheduler.Update.Failures.{broken_stream}

abbrev apart : Distance whole
apart = record { sub = λ x y. if ltb x y then y - x else x - y; fabs = λ x. x; tenth = λ x. x / 10 }

abbrev no_fault : ℕ → Bool
no_fault n = false

pub faultless : (n : ℕ) → no_fault n ≡ false
faultless n = refl

-- Two pages, whose scores go from 100 to 150 and from 100 to 101.
abbrev pages : List (ℕ × ℕ)
pages = (11, 0) ∷ (22, 1) ∷ []

abbrev two_rows : ℕ → Option Rows
two_rows n = some (row 11 0 (row 22 1 not_found))

abbrev get : ℕ → ℕ × ℕ
get idx = (100, if idx == 0 then 150 else 101)

abbrev old : Tests
old k =
    one_key whole (record { score = 100; hash = 11 }) k
    || one_key whole (record { score = 100; hash = 22 }) k

-- Only the first page is moved.
abbrev new : Tests
new k =
    one_key whole (record { score = 150; hash = 11 }) k
    || (if one_key whole (record { score = 100; hash = 11 }) k then false else old k)

updates : update_all whole apart tests no_fault two_rows get pages old ≡ some new
unfolding update_all update_page is_significant bf_scheduler_change_score
    schedule_entry_mdb_cmp_desc is_same
updates = refl

streams : two_rows 0 ≡ some (rows_of pages)
unfolding rows_of
streams = refl

bf_scheduler_update_step_lem_example : IsDone whole apart tests no_fault two_rows get new (
    bf_scheduler_update_step whole apart tests no_fault two_rows get 1 true
      (updating whole apart tests no_fault two_rows get null old 0 0))
bf_scheduler_update_step_lem_example =
    bf_scheduler_update_step_lem whole apart tests no_fault two_rows get faultless 1 pages old new 0
      0 streams updates (omega arith)

abbrev broken_rows : ℕ → Option Rows
broken_rows n = some broken

broken_stream_example :
    bf_scheduler_update_step whole apart tests no_fault broken_rows get 5 true
      (updating whole apart tests no_fault broken_rows get null old 0 0)
    ≡ running
broken_stream_example =
    broken_stream whole apart tests no_fault broken_rows get faultless 5 old 0 0 refl

-- The commit of the batch fails.
abbrev third_fails : ℕ → Bool
third_fails n = n == 3

pub rows_made : (n : ℕ) → broken_rows n ≢ none
rows_made n e = ground (arith, e)

-- There the deleted stream stays behind, with an error.
leaves_freed :
    bf_scheduler_update_step whole apart tests third_fails broken_rows get 5 true
      (updating whole apart tests third_fails broken_rows get null old 0 0)
    ≡ returned 3 (record { table = old; stream = freed; n_streams = 1; calls = 4; error = 3 })
unfolding bf_scheduler_update_step update_batches after_batch bf_scheduler_update_batch
    bf_scheduler_expand with_stream open_stream begin_batch batch batch_loop hashidx_stream_next
    end_batch on_error set_error
leaves_freed = refl
