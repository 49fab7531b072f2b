-- ===== src/TxnManager/Runs.antt =====
-- Runs of the counter, and the theorems there.
use aduana.Common.{◌≡◌, refl, arith}
use aduana.TxnManager.{
  BlockPc, InvSemaphore, pos_locked, inc, SemaphoreStep, inv_semaphore_init, SemaphoreSteps,
}
use aduana.TxnManager.Progress.{WillBlock, block_returns}
use aduana.TxnManager.Counting.{none_active}

abbrev expanding : InvSemaphore
expanding = record { value = 0; pending = 0; active = 0; ending = 0; pc = BlockPc.blocked }

expanding_reached : SemaphoreSteps inv_semaphore_init expanding
expanding_reached =
    SemaphoreSteps.later
      (SemaphoreSteps.later (SemaphoreSteps.later SemaphoreSteps.here (SemaphoreStep.lock_pos refl))
        (SemaphoreStep.lock_dec refl))
      (SemaphoreStep.return refl refl)

none_active_example : (expanding.active ≡ 0) × (expanding.pending ≡ 0) × (expanding.ending ≡ 0)
none_active_example = none_active expanding expanding_reached refl

-- A transaction is open, and the expanding thread sleeps.
abbrev waiting : InvSemaphore
waiting = record { value = 1; pending = 0; active = 1; ending = 0; pc = BlockPc.asleep }

abbrev waiting_reached : SemaphoreSteps inv_semaphore_init waiting
unfolding inc pos_locked
waiting_reached =
    SemaphoreSteps.later
      (SemaphoreSteps.later
        (SemaphoreSteps.later
          (SemaphoreSteps.later
            (SemaphoreSteps.later SemaphoreSteps.here (SemaphoreStep.inc_value refl))
            (SemaphoreStep.begin_ok (omega arith)))
          (SemaphoreStep.lock_pos refl))
        (SemaphoreStep.lock_dec refl))
      (SemaphoreStep.wait refl (omega arith))

block_returns_example : WillBlock waiting
unfolding inc pos_locked
block_returns_example =
    block_returns waiting waiting_reached (tt, (tt, (tt, (tt, (tt, tt))))) (λ e. cc e)
