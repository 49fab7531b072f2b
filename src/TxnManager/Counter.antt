-- ===== src/TxnManager/Counter.antt =====
-- lib/src/txn_manager.c: the functions of the inverted semaphore, with the codes of the pthread
-- calls. A call that blocks until another thread acts does not return here.
use aduana.Common.{ℕ, zero, suc, ◌+◌, ◌-◌, ◌^◌, ◌%◌, Bool, true, false, ◌&&◌, ltb, if◌then◌else◌}

-- How a call ends: with a code and a state, or it waits for another thread, or it calls LMDB where
-- the documentation of LMDB forbids it.
pub data Outcome (S : Type 0) : Type 0 where
  returned : ℕ → S → Outcome S
  waits : Outcome S
  misused : Outcome S

-- `value` is an `int` by its bit pattern; then which mutexes are locked, and how many calls of
-- pthread were made.
pub record Counter : Type 0 where
  pub value : ℕ
  pub mtx_inc_dec : Bool
  pub mtx_inc_pos : Bool
  pub calls : ℕ

abbrev pub Call : Type 0
Call = Counter → Outcome Counter

-- `if ((rc = ...) != 0) return rc;`
unfoldable pub and_then : Outcome Counter → Call → Outcome Counter
and_then (returned zero c) next = next c
and_then (returned (suc e) c) next = returned (suc e) c
and_then waits next = waits
and_then misused next = misused

-- A locked mutex makes its caller wait.
unfoldable pub once_free : Bool → Outcome Counter → Outcome Counter
once_free true o = waits
once_free false o = o

-- `value > 0`
unfoldable pub is_positive : ℕ → Bool
is_positive value = ltb 0 value && ltb value (2 ^ 31)

abbrev pub put_value : Counter → ℕ → Counter
put_value c v = record c { value = v }

abbrev pub put_inc_dec : Counter → Bool → Counter
put_inc_dec c b = record c { mtx_inc_dec = b }

abbrev pub put_inc_pos : Counter → Bool → Counter
put_inc_pos c b = record c { mtx_inc_pos = b }

abbrev pub put_calls : Counter → ℕ → Counter
put_calls c n = record c { calls = n }

unfoldable pub inv_semaphore_count : Counter → ℕ
inv_semaphore_count c = c.value

-- `thread n` is the code of the n-th call of pthread.
module _ (thread : ℕ → ℕ) where
  -- A call of pthread that does `effect` where it succeeds.
  unfoldable pub pthread : Call → Call
  unfolding and_then
  pthread effect c = and_then (returned (thread c.calls) (put_calls c (c.calls + 1))) effect

  unfoldable pub lock_inc_dec : Call
  unfolding once_free pthread
  lock_inc_dec c = once_free c.mtx_inc_dec (pthread (λ d. returned 0 (put_inc_dec d true)) c)

  unfoldable pub lock_inc_pos : Call
  unfolding once_free pthread
  lock_inc_pos c = once_free c.mtx_inc_pos (pthread (λ d. returned 0 (put_inc_pos d true)) c)

  unfoldable pub unlock_inc_dec : Call
  unfolding pthread
  unlock_inc_dec = pthread (λ d. returned 0 (put_inc_dec d false))

  unfoldable pub unlock_inc_pos : Call
  unfolding pthread
  unlock_inc_pos = pthread (λ d. returned 0 (put_inc_pos d false))

  -- `pthread_cond_init`, `pthread_cond_broadcast` and `pthread_cond_destroy`
  unfoldable pub cond_call : Call
  unfolding pthread
  cond_call = pthread (returned 0)

  -- The counter is memory of any contents before this.
  unfoldable pub inv_semaphore_init : Call
  unfolding and_then cond_call unlock_inc_dec unlock_inc_pos
  inv_semaphore_init c =
      and_then (and_then (and_then (cond_call c) unlock_inc_dec) unlock_inc_pos)
        λ d. returned 0 (put_value d 0)

  unfoldable pub inv_semaphore_inc : Call
  unfolding and_then lock_inc_dec lock_inc_pos unlock_inc_dec unlock_inc_pos
  inv_semaphore_inc c =
      and_then
        (and_then (and_then (lock_inc_pos c) lock_inc_dec)
          λ d. unlock_inc_dec (put_value d ((d.value + 1) % 2 ^ 32)))
        unlock_inc_pos

  unfoldable pub inv_semaphore_dec : Call
  unfolding and_then lock_inc_dec cond_call unlock_inc_dec
  inv_semaphore_dec c =
      and_then
        (and_then (lock_inc_dec c) λ d. cond_call (put_value d ((d.value + (2 ^ 32 - 1)) % 2 ^ 32)))
        unlock_inc_dec

  -- `while (is->value > 0) pthread_cond_wait(...)`: the value changes only where another thread acts.
  unfoldable pub wait_for_zero : Call
  unfolding pthread is_positive
  wait_for_zero c = if is_positive c.value then pthread (λ d. waits) c else returned 0 c

  unfoldable pub inv_semaphore_block : Call
  unfolding and_then lock_inc_dec lock_inc_pos wait_for_zero
  inv_semaphore_block c = and_then (and_then (lock_inc_pos c) lock_inc_dec) wait_for_zero

  unfoldable pub inv_semaphore_release : Call
  unfolding and_then unlock_inc_dec unlock_inc_pos
  inv_semaphore_release c = and_then (unlock_inc_dec c) unlock_inc_pos

  -- The memory of the counter is not freed.
  unfoldable pub inv_semaphore_destroy : Call
  unfolding and_then cond_call
  inv_semaphore_destroy c = and_then (and_then (cond_call c) cond_call) cond_call
