-- ===== src/BfScheduler/UpdateThread.antt =====
-- The update thread of bf_scheduler.c beside the thread of the client, for `rest_time` 0: a step of
-- either takes or releases a lock, or runs between two such points. No pthread call fails.
pub mod Locks
pub mod Deadlock
mod Runs
use aduana.Common.{ℕ, ◌+◌, ◌*◌, ◌≡◌, ◌≢◌, Bool, true, false, ◌||◌, ltb, if◌then◌else◌}

pub data UpdateThreadState : Type 0 where
  update_thread_none : UpdateThreadState
  update_thread_working : UpdateThreadState
  update_thread_stopped : UpdateThreadState
  update_thread_finished : UpdateThreadState

pub data Owner : Type 0 where
  free : Owner
  client : Owner
  updater : Owner

-- Where the client is: between calls, in `bf_scheduler_add`, in `bf_scheduler_update_start`, in
-- `bf_scheduler_update_stop`, or in the `pthread_join` of `bf_scheduler_delete`.
pub data ClientPc : Type 0 where
  idle : ClientPc
  add_locked : ClientPc
  start_locked : ClientPc
  start_done : ClientPc
  stop_locked : ClientPc
  stop_set : ClientPc
  stop_waiting : ClientPc
  stop_signalled : ClientPc
  stop_done : ClientPc
  joining : ClientPc
  ended : ClientPc

-- Where the update thread is: it does not run; at the head of the loop; at the test of
-- `bf_scheduler_update_is_blocked`; inside `pthread_cond_wait`, and signalled there; in the first,
-- second or third `bf_scheduler_update_finished`, before the lock and behind it; in front of
-- `bf_scheduler_update_set_block`; and in `bf_scheduler_update_step`.
pub data ThreadPc : Type 0 where
  absent : ThreadPc
  head : ThreadPc
  test : ThreadPc
  asleep : ThreadPc
  signalled : ThreadPc
  first_lock : ThreadPc
  first_locked : ThreadPc
  set_block : ThreadPc
  second_lock : ThreadPc
  second_locked : ThreadPc
  update : ThreadPc
  third_lock : ThreadPc
  third_locked : ThreadPc
  exited : ThreadPc

pub record System : Type 0 where
  pub state : UpdateThreadState
  pub state_mutex : Owner
  pub wait_mutex : Owner
  pub n_pages_old : ℕ
  pub n_pages_new : ℕ
  pub client_pc : ClientPc
  pub thread_pc : ThreadPc
  -- `stop` of the update thread.
  pub stop : Bool

-- BF_SCHEDULER_UPDATE_NUM_PAGES is 100 and BF_SCHEDULER_UPDATE_PER_PAGES 0.01; both counts are whole.
pub bf_scheduler_update_is_blocked : System → Bool
bf_scheduler_update_is_blocked s =
    ltb s.n_pages_new (s.n_pages_old + 100) || ltb (100 * s.n_pages_new) (101 * s.n_pages_old)

-- `bf_scheduler_update_finished` on the state, and `*stop`.
unfoldable pub finish : UpdateThreadState → UpdateThreadState
finish UpdateThreadState.update_thread_stopped = UpdateThreadState.update_thread_finished
finish s = s

unfoldable pub is_finished : UpdateThreadState → Bool
is_finished UpdateThreadState.update_thread_finished = true
is_finished s = false

-- `pthread_cond_broadcast`.
unfoldable pub wake : ThreadPc → ThreadPc
wake ThreadPc.asleep = ThreadPc.signalled
wake pc = pc

-- A step of the client, while its scheduler has a scorer.
pub data ClientStep (s : System) : System → Type 0 where
  -- `bf_scheduler_add`: count the page and signal.
  add_lock :
      s.client_pc ≡ ClientPc.idle
      → s.wait_mutex ≡ Owner.free
      → ClientStep s (record s { client_pc = ClientPc.add_locked; wait_mutex = Owner.client })
  add_signal :
      s.client_pc ≡ ClientPc.add_locked
      → ClientStep s (record s {
        client_pc = ClientPc.idle;
        wait_mutex = Owner.free;
        n_pages_new = s.n_pages_new + 1;
        thread_pc = wake s.thread_pc;
      })
  -- `bf_scheduler_update_start`
  start_lock :
      s.client_pc ≡ ClientPc.idle
      → s.state_mutex ≡ Owner.free
      → ClientStep s (record s { client_pc = ClientPc.start_locked; state_mutex = Owner.client })
  -- A thread that has finished is joined first.
  start_join :
      s.client_pc ≡ ClientPc.start_locked
      → s.state ≡ UpdateThreadState.update_thread_finished
      → s.thread_pc ≡ ThreadPc.exited
      → ClientStep s (record s {
        client_pc = ClientPc.start_done;
        thread_pc = ThreadPc.head;
        stop = false;
        state = UpdateThreadState.update_thread_working;
      })
  start_create :
      s.client_pc ≡ ClientPc.start_locked
      → s.state ≡ UpdateThreadState.update_thread_none
      → ClientStep s (record s {
        client_pc = ClientPc.start_done;
        thread_pc = ThreadPc.head;
        stop = false;
        state = UpdateThreadState.update_thread_working;
      })
  start_again :
      s.client_pc ≡ ClientPc.start_locked
      → s.state ≡ UpdateThreadState.update_thread_stopped
      → ClientStep s (record s {
        client_pc = ClientPc.start_done;
        state = UpdateThreadState.update_thread_working;
      })
  start_nothing :
      s.client_pc ≡ ClientPc.start_locked
      → s.state ≡ UpdateThreadState.update_thread_working
      → ClientStep s (record s { client_pc = ClientPc.start_done })
  start_unlock :
      s.client_pc ≡ ClientPc.start_done
      → ClientStep s (record s { client_pc = ClientPc.idle; state_mutex = Owner.free })
  -- `bf_scheduler_update_stop`
  stop_lock :
      s.client_pc ≡ ClientPc.idle
      → s.state_mutex ≡ Owner.free
      → ClientStep s (record s { client_pc = ClientPc.stop_locked; state_mutex = Owner.client })
  stop_working :
      s.client_pc ≡ ClientPc.stop_locked
      → s.state ≡ UpdateThreadState.update_thread_working
      → ClientStep s (record s {
        client_pc = ClientPc.stop_set;
        state = UpdateThreadState.update_thread_stopped;
      })
  stop_nothing :
      s.client_pc ≡ ClientPc.stop_locked
      → s.state ≢ UpdateThreadState.update_thread_working
      → ClientStep s (record s { client_pc = ClientPc.stop_done })
  stop_wait :
      s.client_pc ≡ ClientPc.stop_set
      → s.wait_mutex ≡ Owner.free
      → ClientStep s (record s { client_pc = ClientPc.stop_waiting; wait_mutex = Owner.client })
  stop_signal :
      s.client_pc ≡ ClientPc.stop_waiting
      → ClientStep s (record s {
        client_pc = ClientPc.stop_done;
        wait_mutex = Owner.free;
        thread_pc = wake s.thread_pc;
      })
  stop_unlock :
      s.client_pc ≡ ClientPc.stop_done
      → ClientStep s (record s { client_pc = ClientPc.idle; state_mutex = Owner.free })
  -- `bf_scheduler_delete` stops a thread that was started, and joins it.
  delete_join :
      s.client_pc ≡ ClientPc.idle
      → s.state ≢ UpdateThreadState.update_thread_none
      → s.state ≢ UpdateThreadState.update_thread_working
      → ClientStep s (record s { client_pc = ClientPc.joining })
  joined :
      s.client_pc ≡ ClientPc.joining
      → s.thread_pc ≡ ThreadPc.exited
      → ClientStep s (record s { client_pc = ClientPc.ended })

-- A step of `bf_scheduler_update_thread`.
pub data ThreadStep (s : System) : System → Type 0 where
  wait_lock :
      s.thread_pc ≡ ThreadPc.head
      → s.wait_mutex ≡ Owner.free
      → ThreadStep s (record s { thread_pc = ThreadPc.test; wait_mutex = Owner.updater })
  sleep :
      s.thread_pc ≡ ThreadPc.test
      → bf_scheduler_update_is_blocked s ≡ true
      → ThreadStep s (record s { thread_pc = ThreadPc.asleep; wait_mutex = Owner.free })
  proceed :
      s.thread_pc ≡ ThreadPc.test
      → bf_scheduler_update_is_blocked s ≡ false
      → ThreadStep s (record s { thread_pc = ThreadPc.set_block })
  wake_up :
      s.thread_pc ≡ ThreadPc.signalled
      → s.wait_mutex ≡ Owner.free
      → ThreadStep s (record s { thread_pc = ThreadPc.first_lock; wait_mutex = Owner.updater })
  first_finished :
      s.thread_pc ≡ ThreadPc.first_lock
      → s.state_mutex ≡ Owner.free
      → ThreadStep s (record s { thread_pc = ThreadPc.first_locked; state_mutex = Owner.updater })
  first_unlock :
      s.thread_pc ≡ ThreadPc.first_locked
      → ThreadStep s (record s {
        thread_pc = if is_finished (finish s.state) then ThreadPc.set_block else ThreadPc.test;
        state = finish s.state;
        stop = is_finished (finish s.state);
        state_mutex = Owner.free;
      })
  unblock :
      s.thread_pc ≡ ThreadPc.set_block
      → ThreadStep s (record s {
        thread_pc = ThreadPc.second_lock;
        n_pages_old = s.n_pages_new;
        wait_mutex = Owner.free;
      })
  second_finished :
      s.thread_pc ≡ ThreadPc.second_lock
      → s.state_mutex ≡ Owner.free
      → ThreadStep s (record s { thread_pc = ThreadPc.second_locked; state_mutex = Owner.updater })
  second_unlock :
      s.thread_pc ≡ ThreadPc.second_locked
      → ThreadStep s (record s {
        thread_pc = if is_finished (finish s.state) then ThreadPc.third_lock else ThreadPc.update;
        state = finish s.state;
        stop = is_finished (finish s.state);
        state_mutex = Owner.free;
      })
  -- `bf_scheduler_update_step` goes through, or ends the loop by an error.
  update_done :
      s.thread_pc ≡ ThreadPc.update → ThreadStep s (record s { thread_pc = ThreadPc.third_lock })
  update_failed :
      s.thread_pc ≡ ThreadPc.update → ThreadStep s (record s { thread_pc = ThreadPc.exited })
  third_finished :
      s.thread_pc ≡ ThreadPc.third_lock
      → s.state_mutex ≡ Owner.free
      → ThreadStep s (record s { thread_pc = ThreadPc.third_locked; state_mutex = Owner.updater })
  third_unlock :
      s.thread_pc ≡ ThreadPc.third_locked
      → ThreadStep s (record s {
        thread_pc = if is_finished (finish s.state) then ThreadPc.exited else ThreadPc.head;
        state = finish s.state;
        stop = is_finished (finish s.state);
        state_mutex = Owner.free;
      })

pub data Step (s t : System) : Type 0 where
  by_client : ClientStep s t → Step s t
  by_thread : ThreadStep s t → Step s t

abbrev pub initial : System
initial = record {
  state = UpdateThreadState.update_thread_none;
  state_mutex = Owner.free;
  wait_mutex = Owner.free;
  n_pages_old = 0;
  n_pages_new = 0;
  client_pc = ClientPc.idle;
  thread_pc = ThreadPc.absent;
  stop = false;
}

pub data Reach : System → Type 0 where
  start : Reach initial
  later : {s t : System} → Reach s → Step s t → Reach t
