-- ===== src/BfScheduler/Update/Complete.antt =====
-- An update brings every page of the stream up to date, whatever the batches.
use aduana.Common.{
  ℕ, zero, suc, ◌+◌, ◌*◌, ◌<◌, ◌≡◌, refl, arith, Bool, true, false, Option, none, some,
  Option-cases, inl, inr, ◌⊎◌, List, [], ◌∷◌, length, drop,
}
use aduana.DomainTemp.{Float}
use aduana.Ranks.{Run, returned, null_read, running}
use aduana.BfScheduler.Schedule.{Schedule}
use aduana.BfScheduler.Update.{
  Distance, Rows, row, not_found, StreamPointer, null, live, Updater, finished, update_page,
  hashidx_stream_next, batch_loop, batch, end_batch, begin_batch, open_stream, with_stream,
  bf_scheduler_expand, bf_scheduler_update_batch, while_stream, after_batch, update_batches,
  bf_scheduler_update_step, bf_scheduler_update_batch_size,
}

-- A stream of these pages that ends.
unfoldable pub rows_of : List (ℕ × ℕ) → Rows
rows_of [] = not_found
rows_of ((hash, idx) ∷ pages) = row hash idx (rows_of pages)

module _ (float : Float) (distance : Distance float) (schedule : Schedule float) (fault : ℕ → Bool)
    (tables : ℕ → Option Rows) (get : ℕ → float.Carrier × float.Carrier) where
  -- The schedule once each page was brought up to date, one after the other.
  unfoldable pub update_all : List (ℕ × ℕ) → schedule.State → Option schedule.State
  update_all [] table = some table
  update_all ((hash, idx) ∷ pages) table =
      elim (update_page float distance schedule fault tables get hash idx table) [
        | none ↦ none
        | some table' ↦ update_all pages table'
      ]

  -- The pages that `k` rounds leave, and whether the end of the stream was seen.
  unfoldable pub left_over : ℕ → List (ℕ × ℕ) → StreamPointer
  unfolding rows_of
  left_over zero pages = live (rows_of pages)
  left_over (suc k) [] = null
  left_over (suc k) (page ∷ pages) = left_over k pages

  loop_at_null :
      (k : ℕ) (table : schedule.State)
      → batch_loop float distance schedule fault tables get k table null ≡ finished table null
  unfolding batch_loop
  loop_at_null zero table = refl
  loop_at_null (suc k) table = refl

  batch_loop_lem :
      (k : ℕ) (pages : List (ℕ × ℕ)) (table t : schedule.State)
      → update_all pages table ≡ some t
      → (table' : schedule.State) × (batch_loop float distance schedule fault tables get k table
            (live (rows_of pages))
          ≡ finished table' (left_over k pages))
        × (update_all (drop k pages) table' ≡ some t)
  unfolding batch_loop update_all left_over rows_of hashidx_stream_next
  batch_loop_lem zero pages table t u = (table, refl, u)
  batch_loop_lem (suc k) [] table t u = (table, loop_at_null k table, u)
  batch_loop_lem (suc k) ((hash, idx) ∷ pages) table t u =
      elim (Option-cases (update_page float distance schedule fault tables get hash idx table)) [
        | inl e ↦ absurd (let u' = rw (update_all, e) at u in ground (arith, u'))
        | inr (next, e) ↦
            let (table', l, r) = batch_loop_lem k pages next t (rw (update_all, e) at u) in
            (table', rw (batch_loop, hashidx_stream_next, e) l, r)
      ]

  -- Rounds that are left over find the end; else they leave the pages behind them.
  left_over_cases :
      (k : ℕ) (pages : List (ℕ × ℕ))
      → ((left_over k pages ≡ null) × (drop k pages ≡ []))
        ⊎ ((left_over k pages ≡ live (rows_of (drop k pages)))
            × (length (drop k pages) + k ≡ length pages))
  unfolding left_over
  left_over_cases zero pages = inr (refl, omega arith)
  left_over_cases (suc k) [] = inl (refl, refl)
  left_over_cases (suc k) (page ∷ pages) = elim (left_over_cases k pages) [
    | inl e ↦ inl e
    | inr e ↦ inr (e.0, omega (arith, e.1))
  ]

  -- The update returned 0 with this schedule, and its stream was deleted.
  abbrev pub IsDone :
      schedule.State → Run ℕ (Updater float distance schedule fault tables get) → Type 0
  IsDone t (returned code s) = (code ≡ 0) × (s.table ≡ t) × (s.stream ≡ null) × (s.error ≡ 0)
  IsDone t null_read = ⊥
  IsDone t running = ⊥

  -- A whole batch.
  batch_lem :
      (pages : List (ℕ × ℕ)) (table t : schedule.State)
      → update_all pages table ≡ some t
      → (table' : schedule.State) × (batch float distance schedule fault tables get table
            (live (rows_of pages))
          ≡ finished table' (left_over bf_scheduler_update_batch_size pages))
        × (update_all (drop bf_scheduler_update_batch_size pages) table' ≡ some t)
  unfolding batch
  batch_lem pages = batch_loop_lem bf_scheduler_update_batch_size pages

  -- An update with this pointer to its stream, and no error.
  abbrev pub updating :
      StreamPointer → schedule.State → ℕ → ℕ → Updater float distance schedule fault tables get
  updating stream table n_streams calls = record {
    table = table;
    stream = stream;
    n_streams = n_streams;
    calls = calls;
    error = 0;
  }

  module _ (fine : (n : ℕ) → fault n ≡ false) where
    pub end_batch_lem :
        (stream left : StreamPointer) (table table' : schedule.State) (n calls : ℕ)
        → end_batch float distance schedule fault tables get
            (updating stream table n calls)
            (finished table' left)
          ≡ returned 0 (updating left table' n (calls + 1))
    unfolding end_batch
    end_batch_lem stream left table table' n calls = rw (fine calls) refl

    -- A batch on a stream that is being read.
    pub update_batch_lem :
        (rows : Rows) (left : StreamPointer) (table table' : schedule.State) (n calls : ℕ)
        → batch float distance schedule fault tables get table (live rows) ≡ finished table' left
        → bf_scheduler_update_batch float distance schedule fault tables get
            (updating (live rows) table n calls)
          ≡ returned 0 (updating left table' n (calls + 1 + 1 + 1 + 1))
    unfolding bf_scheduler_update_batch bf_scheduler_expand with_stream begin_batch
    update_batch_lem rows left table table' n calls b =
        rw (fine calls, fine (calls + 1), fine (calls + 1 + 1), b)
          (end_batch_lem (live rows) left table table' n (calls + 1 + 1 + 1))

    nothing_left : (table t : schedule.State) → update_all [] table ≡ some t → table ≡ t
    unfolding update_all
    nothing_left table t u = cc u

    batches_lem :
        (fuel : ℕ) (pages : List (ℕ × ℕ)) (table t : schedule.State) (n calls : ℕ)
        → update_all pages table ≡ some t
        → length pages < 100 * fuel
        → IsDone t (
            update_batches float distance schedule fault tables get fuel
              (updating (live (rows_of pages)) table n calls))
    unfolding update_batches after_batch while_stream
    batches_lem zero pages table t n calls u h = absurd (omega (arith, h))
    batches_lem (suc fuel) pages table t n calls u h =
        let (table', b, r) = batch_lem pages table t u in
        let left = left_over bf_scheduler_update_batch_size pages in
        let one = update_batch_lem (rows_of pages) left table table' n calls b in
        elim (left_over_cases bf_scheduler_update_batch_size pages) [
          | inl c ↦ rw (one, c.0) (refl, nothing_left table' t (rw c.1 at r), refl, refl)
          | inr c ↦
              rw (one, c.0)
                (batches_lem fuel (drop bf_scheduler_update_batch_size pages) table' t n
                  (calls + 1 + 1 + 1 + 1) r (omega (arith, c.1, h)))
        ]

    -- Where no stream is active, a batch goes on as if a new one were active.
    pub new_stream :
        (rows : Rows) (table : schedule.State) (n calls : ℕ)
        → tables n ≡ some rows
        → bf_scheduler_update_batch float distance schedule fault tables get
            (updating null table n calls)
          ≡ bf_scheduler_update_batch float distance schedule fault tables get
              (updating (live rows) table (n + 1) calls)
    unfolding bf_scheduler_update_batch bf_scheduler_expand with_stream open_stream
    new_stream rows table n calls e = rw (fine calls, e) refl

    -- Where no call fails and each page of the stream can be brought up to date, one after the other,
    -- `bf_scheduler_update_step` ends with 0 and the schedule of all those changes, however they fall
    -- into batches; one round of the loop for each 100 pages and one more are enough.
    pub bf_scheduler_update_step_lem :
        (fuel : ℕ) (pages : List (ℕ × ℕ)) (table t : schedule.State) (n calls : ℕ)
        → tables n ≡ some (rows_of pages)
        → update_all pages table ≡ some t
        → length pages < 100 * fuel
        → IsDone t (
            bf_scheduler_update_step float distance schedule fault tables get fuel true
              (updating null table n calls))
    unfolding bf_scheduler_update_step update_batches
    bf_scheduler_update_step_lem zero pages table t n calls e u h = absurd (omega (arith, h))
    bf_scheduler_update_step_lem (suc fuel) pages table t n calls e u h =
        rw (new_stream (rows_of pages) table n calls e)
          (batches_lem (suc fuel) pages table t (n + 1) calls u h)
