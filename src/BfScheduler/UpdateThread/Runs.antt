-- ===== src/BfScheduler/UpdateThread/Runs.antt =====
-- The update thread after a start, and the theorems there.
use aduana.Common.{◌≡◌, refl, true, false}
use aduana.BfScheduler.UpdateThread.{
  UpdateThreadState, Owner, ClientPc, ThreadPc, System, bf_scheduler_update_is_blocked, finish,
  is_finished, wake, ClientStep, ThreadStep, Reach,
}
use aduana.BfScheduler.UpdateThread.Locks.{
  client_in_state, thread_in_state, client_in_wait, thread_in_wait, never_both,
}
use aduana.BfScheduler.UpdateThread.Deadlock.{
  Stuck, then_client, then_thread, at_work, add_then_stop, stop_then_start,
}

started : Reach (at_work 0 0 false ThreadPc.head)
started =
    then_client
      (then_client (then_client Reach.start (ClientStep.start_lock refl refl))
        (ClientStep.start_create refl refl))
      (ClientStep.start_unlock refl)

sleeping : Reach (at_work 0 0 false ThreadPc.asleep)
unfolding bf_scheduler_update_is_blocked
sleeping =
    then_thread (then_thread started (ThreadStep.wait_lock refl refl)) (ThreadStep.sleep refl refl)

blocked : bf_scheduler_update_is_blocked (at_work 0 0 false ThreadPc.head) ≡ true
unfolding bf_scheduler_update_is_blocked
blocked = refl

add_then_stop_example :
    (s : System) × Reach s
    × (s.client_pc ≡ ClientPc.stop_set)
    × (s.thread_pc ≡ ThreadPc.first_lock)
    × Stuck s
add_then_stop_example = add_then_stop 0 0 false sleeping

stop_then_start_example :
    (s : System) × Reach s
    × (s.client_pc ≡ ClientPc.start_locked)
    × (s.thread_pc ≡ ThreadPc.second_lock)
    × Stuck s
stop_then_start_example = stop_then_start 0 0 false sleeping

abbrev finishing : System
finishing = record {
  state = UpdateThreadState.update_thread_finished;
  state_mutex = Owner.free;
  wait_mutex = Owner.updater;
  n_pages_old = 0;
  n_pages_new = 0;
  client_pc = ClientPc.idle;
  thread_pc = ThreadPc.set_block;
  stop = true;
}

finishing_reached : Reach finishing
unfolding wake finish is_finished
finishing_reached =
    let stopping =
      then_client (then_client sleeping (ClientStep.stop_lock refl refl))
        (ClientStep.stop_working refl refl) in
    let signalled =
      then_client (then_client stopping (ClientStep.stop_wait refl refl))
        (ClientStep.stop_signal refl) in
    let stopped = then_client signalled (ClientStep.stop_unlock refl) in
    let awake =
      then_thread (then_thread stopped (ThreadStep.wake_up refl refl))
        (ThreadStep.first_finished refl refl) in
    then_thread awake (ThreadStep.first_unlock refl)

finishing-is_finished : is_finished finishing.state ≡ true
unfolding is_finished
finishing-is_finished = refl

never_both_example :
    (client_in_state finishing.client_pc ≡ true → thread_in_state finishing.thread_pc ≡ false)
    × (client_in_wait finishing.client_pc ≡ true → thread_in_wait finishing.thread_pc ≡ false)
never_both_example = never_both finishing finishing_reached
