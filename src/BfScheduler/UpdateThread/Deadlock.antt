-- ===== src/BfScheduler/UpdateThread/Deadlock.antt =====
-- Three ways in which the client and the update thread come to wait for each other, or for nobody.
use aduana.Common.{ℕ, ◌≡◌, refl, arith, Bool, true, false}
use aduana.BfScheduler.UpdateThread.{
  UpdateThreadState, Owner, ClientPc, ThreadPc, System, bf_scheduler_update_is_blocked, finish,
  is_finished, wake, ClientStep, ThreadStep, Step, Reach,
}

abbrev is_free : Owner → Bool
is_free Owner.free = true
is_free _ = false

abbrev is_exited : ThreadPc → Bool
is_exited ThreadPc.exited = true
is_exited _ = false

abbrev start_may_move : UpdateThreadState → ThreadPc → Bool
start_may_move UpdateThreadState.update_thread_finished pc = is_exited pc
start_may_move _ pc = true

-- What a client needs for its next step, if it is inside a call.
abbrev client_may_move : ClientPc → System → Bool
client_may_move ClientPc.start_locked s = start_may_move s.state s.thread_pc
client_may_move ClientPc.stop_set s = is_free s.wait_mutex
client_may_move ClientPc.joining s = is_exited s.thread_pc
client_may_move ClientPc.ended s = false
client_may_move _ s = true

abbrev thread_may_move : ThreadPc → System → Bool
thread_may_move ThreadPc.absent s = false
thread_may_move ThreadPc.head s = is_free s.wait_mutex
thread_may_move ThreadPc.asleep s = false
thread_may_move ThreadPc.signalled s = is_free s.wait_mutex
thread_may_move ThreadPc.first_lock s = is_free s.state_mutex
thread_may_move ThreadPc.second_lock s = is_free s.state_mutex
thread_may_move ThreadPc.third_lock s = is_free s.state_mutex
thread_may_move ThreadPc.exited s = false
thread_may_move _ s = true

client_may_move_lem : {s t : System} → ClientStep s t → client_may_move s.client_pc s ≡ true
client_may_move_lem (ClientStep.add_lock h _) = rw h
client_may_move_lem (ClientStep.add_signal h) = rw h
client_may_move_lem (ClientStep.start_lock h _) = rw h
client_may_move_lem (ClientStep.start_join h k e) = rw (h, k, e)
client_may_move_lem (ClientStep.start_create h k) = rw (h, k)
client_may_move_lem (ClientStep.start_again h k) = rw (h, k)
client_may_move_lem (ClientStep.start_nothing h k) = rw (h, k)
client_may_move_lem (ClientStep.start_unlock h) = rw h
client_may_move_lem (ClientStep.stop_lock h _) = rw h
client_may_move_lem (ClientStep.stop_working h _) = rw h
client_may_move_lem (ClientStep.stop_nothing h _) = rw h
client_may_move_lem (ClientStep.stop_wait h k) = rw (h, k)
client_may_move_lem (ClientStep.stop_signal h) = rw h
client_may_move_lem (ClientStep.stop_unlock h) = rw h
client_may_move_lem (ClientStep.delete_join h _ _) = rw h
client_may_move_lem (ClientStep.joined h k) = rw (h, k)

thread_may_move_lem : {s t : System} → ThreadStep s t → thread_may_move s.thread_pc s ≡ true
thread_may_move_lem (ThreadStep.wait_lock h k) = rw (h, k)
thread_may_move_lem (ThreadStep.sleep h _) = rw h
thread_may_move_lem (ThreadStep.proceed h _) = rw h
thread_may_move_lem (ThreadStep.wake_up h k) = rw (h, k)
thread_may_move_lem (ThreadStep.first_finished h k) = rw (h, k)
thread_may_move_lem (ThreadStep.first_unlock h) = rw h
thread_may_move_lem (ThreadStep.unblock h) = rw h
thread_may_move_lem (ThreadStep.second_finished h k) = rw (h, k)
thread_may_move_lem (ThreadStep.second_unlock h) = rw h
thread_may_move_lem (ThreadStep.update_done h) = rw h
thread_may_move_lem (ThreadStep.update_failed h) = rw h
thread_may_move_lem (ThreadStep.third_finished h k) = rw (h, k)
thread_may_move_lem (ThreadStep.third_unlock h) = rw h

-- Nobody can make a step.
abbrev pub Stuck : System → Type 0
Stuck s = (t : System) → Step s t → ⊥

stuck :
    (s : System)
    → client_may_move s.client_pc s ≡ false
    → thread_may_move s.thread_pc s ≡ false
    → Stuck s
stuck s c u t (Step.by_client m) = let may = client_may_move_lem m in ground (arith, c, may)
stuck s c u t (Step.by_thread m) = let may = thread_may_move_lem m in ground (arith, u, may)

pub then_client : {s t : System} → Reach s → ClientStep s t → Reach t
then_client r m = Reach.later r (Step.by_client m)

pub then_thread : {s t : System} → Reach s → ThreadStep s t → Reach t
then_thread r m = Reach.later r (Step.by_thread m)

-- The client is between calls, nobody holds a lock, and the thread works and stands at `pc`.
abbrev pub at_work : ℕ → ℕ → Bool → ThreadPc → System
at_work old new stop pc = record {
  state = UpdateThreadState.update_thread_working;
  state_mutex = Owner.free;
  wait_mutex = Owner.free;
  n_pages_old = old;
  n_pages_new = new;
  client_pc = ClientPc.idle;
  thread_pc = pc;
  stop = stop;
}

module _ (old new : ℕ) (stop : Bool) where
  -- Where the thread waits for pages, a page may be added and the thread stopped so that it holds the
  -- lock of the wait and wants that of the state, the client the other way round, for ever.
  pub add_then_stop :
      Reach (at_work old new stop ThreadPc.asleep)
      → (s : System) × Reach s
        × (s.client_pc ≡ ClientPc.stop_set)
        × (s.thread_pc ≡ ThreadPc.first_lock)
        × Stuck s
  unfolding wake
  add_then_stop r =
      let added =
        then_client (then_client r (ClientStep.add_lock refl refl)) (ClientStep.add_signal refl) in
      let stopping =
        then_client (then_client added (ClientStep.stop_lock refl refl))
          (ClientStep.stop_working refl refl) in
      (_, then_thread stopping (ThreadStep.wake_up refl refl), refl, refl, stuck _ refl refl)

  -- Where the thread is about to wait, a stop may be given before it does; it then waits for pages all
  -- the same, and the client that deletes the scheduler waits for the thread, for ever.
  stop_before_wait :
      Reach (at_work old new stop ThreadPc.head)
      → bf_scheduler_update_is_blocked (at_work old new stop ThreadPc.head) ≡ true
      → (s : System) × Reach s
        × (s.client_pc ≡ ClientPc.joining)
        × (s.thread_pc ≡ ThreadPc.asleep)
        × Stuck s
  unfolding wake bf_scheduler_update_is_blocked
  stop_before_wait r blocked =
      let stopping =
        then_client (then_client r (ClientStep.stop_lock refl refl))
          (ClientStep.stop_working refl refl) in
      let signalled =
        then_client (then_client stopping (ClientStep.stop_wait refl refl))
          (ClientStep.stop_signal refl) in
      let stopped = then_client signalled (ClientStep.stop_unlock refl) in
      let sleeping =
        then_thread (then_thread stopped (ThreadStep.wait_lock refl refl))
          (ThreadStep.sleep refl blocked) in
      (
        _,
        then_client sleeping
            (ClientStep.delete_join refl (λ e. ground (arith, e)) (λ e. ground (arith, e))),
        refl,
        refl,
        stuck _ refl refl,
      )

  -- Where the thread waits for pages, it may be stopped and started again so that the client holds the
  -- lock of the state and waits for the thread to end, and the thread wants that lock, for ever.
  pub stop_then_start :
      Reach (at_work old new stop ThreadPc.asleep)
      → (s : System) × Reach s
        × (s.client_pc ≡ ClientPc.start_locked)
        × (s.thread_pc ≡ ThreadPc.second_lock)
        × Stuck s
  unfolding wake finish is_finished
  stop_then_start r =
      let stopping =
        then_client (then_client r (ClientStep.stop_lock refl refl))
          (ClientStep.stop_working refl refl) in
      let signalled =
        then_client (then_client stopping (ClientStep.stop_wait refl refl))
          (ClientStep.stop_signal refl) in
      let stopped = then_client signalled (ClientStep.stop_unlock refl) in
      let awake =
        then_thread (then_thread stopped (ThreadStep.wake_up refl refl))
          (ThreadStep.first_finished refl refl) in
      let finished =
        then_thread (then_thread awake (ThreadStep.first_unlock refl)) (ThreadStep.unblock refl) in
      (_, then_client finished (ClientStep.start_lock refl refl), refl, refl, stuck _ refl refl)
