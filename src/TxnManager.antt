-- ===== src/TxnManager.antt =====
-- lib/src/txn_manager.c: the counter of the active transactions of one kind, an inverted semaphore,
-- between the users that begin and end transactions and the thread in `txn_manager_expand`. What a user
-- does while it holds the mutexes is one step. No pthread call fails, and `value` does not overflow.
pub mod Counting
pub mod Progress
pub mod Counter
pub mod Lmdb
pub mod Manager
pub mod Plain
mod Runs
use aduana.Common.{ℕ, zero, suc, ◌+◌, ◌-◌, ◌<◌, ◌≤◌, ◌≡◌, Bool, true, false}

-- Where `inv_semaphore_block` is: not called; it holds `mtx_inc_pos`; it holds `mtx_inc_dec` too, at
-- the test of `value`; inside `pthread_cond_wait`, asleep or signalled; or it has returned.
pub data BlockPc : Type 0 where
  outside : BlockPc
  holds_pos : BlockPc
  test : BlockPc
  asleep : BlockPc
  woken : BlockPc
  blocked : BlockPc

-- `pending` counts the users between `inv_semaphore_inc` and the end of `mdb_txn_begin`, `active` the
-- transactions that are open in LMDB, and `ending` the users between the end of a transaction and
-- `inv_semaphore_dec`.
pub record InvSemaphore : Type 0 where
  pub value : ℕ
  pub pending : ℕ
  pub active : ℕ
  pub ending : ℕ
  pub pc : BlockPc

-- `mtx_inc_dec` is held by the expanding thread.
unfoldable pub dec_locked : BlockPc → Bool
dec_locked BlockPc.test = true
dec_locked BlockPc.blocked = true
dec_locked _ = false

-- `mtx_inc_pos` is held by the expanding thread.
unfoldable pub pos_locked : BlockPc → Bool
pos_locked BlockPc.outside = false
pos_locked _ = true

-- `pthread_cond_broadcast`
unfoldable pub broadcast : BlockPc → BlockPc
broadcast BlockPc.asleep = BlockPc.woken
broadcast p = p

-- `inv_semaphore_inc` and `inv_semaphore_dec`, on the value and on the waiting thread.
unfoldable pub inc : InvSemaphore → InvSemaphore
inc s = record s { value = s.value + 1; pending = s.pending + 1 }

unfoldable pub dec : InvSemaphore → InvSemaphore
unfolding broadcast
dec s = record s { value = s.value - 1; ending = s.ending - 1; pc = broadcast s.pc }

pub data SemaphoreStep (s : InvSemaphore) : InvSemaphore → Type 0 where
  -- `txn_manager_begin`: `inv_semaphore_inc`, which locks `mtx_inc_pos`, then `mdb_txn_begin`, which
  -- goes through or fails.
  inc_value : pos_locked s.pc ≡ false → SemaphoreStep s (inc s)
  begin_ok :
      0 < s.pending → SemaphoreStep s (record s { pending = s.pending - 1; active = s.active + 1 })
  begin_failed : 0 < s.pending → SemaphoreStep s (record s { pending = s.pending - 1 })
  -- `txn_manager_commit` or `txn_manager_abort` of an open transaction: LMDB ends it, then
  -- `inv_semaphore_dec`, which locks `mtx_inc_dec`.
  end_txn :
      0 < s.active → SemaphoreStep s (record s { active = s.active - 1; ending = s.ending + 1 })
  dec_value : 0 < s.ending → dec_locked s.pc ≡ false → SemaphoreStep s (dec s)
  -- `inv_semaphore_block`. A thread that was signalled locks `mtx_inc_dec` again; a thread may also
  -- wake up without a signal.
  lock_pos : s.pc ≡ BlockPc.outside → SemaphoreStep s (record s { pc = BlockPc.holds_pos })
  lock_dec : s.pc ≡ BlockPc.holds_pos → SemaphoreStep s (record s { pc = BlockPc.test })
  wait : s.pc ≡ BlockPc.test → 0 < s.value → SemaphoreStep s (record s { pc = BlockPc.asleep })
  wake_up : s.pc ≡ BlockPc.woken → SemaphoreStep s (record s { pc = BlockPc.test })
  spurious : s.pc ≡ BlockPc.asleep → SemaphoreStep s (record s { pc = BlockPc.test })
  return : s.pc ≡ BlockPc.test → s.value ≡ 0 → SemaphoreStep s (record s { pc = BlockPc.blocked })
  -- `inv_semaphore_release`
  release : s.pc ≡ BlockPc.blocked → SemaphoreStep s (record s { pc = BlockPc.outside })

-- A counter that was just made.
abbrev pub inv_semaphore_init : InvSemaphore
inv_semaphore_init = record { value = 0; pending = 0; active = 0; ending = 0; pc = BlockPc.outside }

-- Some steps from `s` to `t`.
pub data SemaphoreSteps (s : InvSemaphore) : InvSemaphore → Type 0 where
  here : SemaphoreSteps s s
  later : {t u : InvSemaphore} → SemaphoreSteps s t → SemaphoreStep t u → SemaphoreSteps s u
