-- ===== src/BfScheduler/Update/Failures.antt =====
-- What errors do to the update of the schedule in lib/src/bf_scheduler.c.
use aduana.Common.{ℕ, zero, suc, ◌+◌, ◌≡◌, ◌≢◌, refl, Bool, true, false, Option, some}
use aduana.DomainTemp.{Float}
use aduana.Ranks.{Run, returned, null_read, running}
use aduana.BfScheduler.Schedule.{Schedule}
use aduana.BfScheduler.Update.{
  Distance, Rows, broken, null, live, freed, Updater, LoopEnd, finished, change_failed, dangling,
  hashidx_stream_next, batch_loop, batch, while_stream, after_batch, update_batches,
  bf_scheduler_update_step,
}
use aduana.BfScheduler.Update.Complete.{updating, update_batch_lem, new_stream}

module _ (float : Float) (distance : Distance float) (schedule : Schedule float) (fault : ℕ → Bool)
    (tables : ℕ → Option Rows) (get : ℕ → float.Carrier × float.Carrier) where
  rounds_broken :
      (k : ℕ) (table : schedule.State)
      → batch_loop float distance schedule fault tables get k table (live broken)
        ≡ finished table (live broken)
  unfolding batch_loop hashidx_stream_next
  rounds_broken zero table = refl
  rounds_broken (suc k) table = rounds_broken k table

  all_rounds_broken :
      (table : schedule.State)
      → batch float distance schedule fault tables get table (live broken)
        ≡ finished table (live broken)
  unfolding batch
  all_rounds_broken table = rounds_broken 100 table

  module _ (fine : (n : ℕ) → fault n ≡ false) where
    updates_broken :
        (fuel : ℕ) (table : schedule.State) (n calls : ℕ)
        → update_batches float distance schedule fault tables get fuel
            (updating float distance schedule fault tables get (live broken) table n calls)
          ≡ running
    unfolding update_batches after_batch while_stream
    updates_broken zero table n calls = refl
    updates_broken (suc fuel) table n calls =
        rw
          (update_batch_lem float distance schedule fault tables get fine broken (live broken) table
            table n calls (all_rounds_broken table))
          (updates_broken fuel table n (calls + 1 + 1 + 1 + 1))

    -- Where the cursor of the stream answers an error again and again and no other call fails,
    -- `bf_scheduler_update_step` never ends: the error is not looked at.
    pub broken_stream :
        (fuel : ℕ) (table : schedule.State) (n calls : ℕ)
        → tables n ≡ some broken
        → bf_scheduler_update_step float distance schedule fault tables get fuel true
            (updating float distance schedule fault tables get null table n calls)
          ≡ running
    unfolding bf_scheduler_update_step update_batches
    broken_stream zero table n calls e = refl
    broken_stream (suc fuel) table n calls e =
        rw (new_stream float distance schedule fault tables get fine broken table n calls e)
          (updates_broken (suc fuel) table (n + 1) calls)

  -- The pointer to a deleted stream stays only where an error is kept, which stops the next batch.
  abbrev pub IsSafe : Updater float distance schedule fault tables get → Type 0
  IsSafe s = s.error ≡ 0 → s.stream ≢ freed

  -- No deleted stream is followed, and the next state is safe too.
  abbrev pub Safely : Run ℕ (Updater float distance schedule fault tables get) → Type 0
  Safely (returned code s) = IsSafe s
  Safely null_read = ⊥
  Safely running = Unit {0}

  -- The loop ends without a deleted stream.
  abbrev LoopSafely : LoopEnd float distance schedule fault tables get → Type 0
  LoopSafely (finished table p) = p ≢ freed
  LoopSafely change_failed = Unit {0}
  LoopSafely dangling = ⊥
