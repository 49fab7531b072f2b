-- ===== src/BfScheduler/UpdateThread/Locks.antt =====
-- Who holds the two locks, and what a finished update thread still does.
use aduana.Common.{◌≡◌, refl, arith, Bool, true, false}
use aduana.BfScheduler.UpdateThread.{
  UpdateThreadState, Owner, ClientPc, ThreadPc, System, finish, is_finished, wake, ClientStep,
  ThreadStep, Step, Reach,
}

abbrev is_client : Owner → Bool
is_client Owner.client = true
is_client _ = false

abbrev is_updater : Owner → Bool
is_updater Owner.updater = true
is_updater _ = false

-- The client stands between a lock and the unlock of `state_mutex`.
abbrev pub client_in_state : ClientPc → Bool
client_in_state ClientPc.idle = false
client_in_state ClientPc.add_locked = false
client_in_state ClientPc.joining = false
client_in_state ClientPc.ended = false
client_in_state _ = true

abbrev pub thread_in_state : ThreadPc → Bool
thread_in_state ThreadPc.first_locked = true
thread_in_state ThreadPc.second_locked = true
thread_in_state ThreadPc.third_locked = true
thread_in_state _ = false

-- The client stands between a lock and the unlock of `wait_mutex`.
abbrev pub client_in_wait : ClientPc → Bool
client_in_wait ClientPc.add_locked = true
client_in_wait ClientPc.stop_waiting = true
client_in_wait _ = false

abbrev pub thread_in_wait : ThreadPc → Bool
thread_in_wait ThreadPc.test = true
thread_in_wait ThreadPc.first_lock = true
thread_in_wait ThreadPc.first_locked = true
thread_in_wait ThreadPc.set_block = true
thread_in_wait _ = false

abbrev pub is_none : UpdateThreadState → Bool
is_none UpdateThreadState.update_thread_none = true
is_none _ = false

abbrev pub is_absent : ThreadPc → Bool
is_absent ThreadPc.absent = true
is_absent _ = false

-- The owner of a lock is the one that stands inside it, and without a thread there is no place in it.
abbrev IsOwned : System → Type 0
IsOwned s =
    (is_client s.state_mutex ≡ client_in_state s.client_pc)
    × (is_updater s.state_mutex ≡ thread_in_state s.thread_pc)
    × (is_client s.wait_mutex ≡ client_in_wait s.client_pc)
    × (is_updater s.wait_mutex ≡ thread_in_wait s.thread_pc)
    × (is_none s.state ≡ is_absent s.thread_pc)

wake_keeps :
    (pc : ThreadPc)
    → (thread_in_state (wake pc) ≡ thread_in_state pc)
      × (thread_in_wait (wake pc) ≡ thread_in_wait pc)
      × (is_absent (wake pc) ≡ is_absent pc)
unfolding wake
wake_keeps pc = ground arith

finish_keeps : (s : UpdateThreadState) → is_none (finish s) ≡ is_none s
unfolding finish
finish_keeps s = ground arith

client-IsOwned : {s t : System} → IsOwned s → ClientStep s t → IsOwned t
client-IsOwned i (ClientStep.add_lock h k) = ground (arith, h, k, i)
client-IsOwned {s = s} i (ClientStep.add_signal h) = ground (arith, h, i, wake_keeps s.thread_pc)
client-IsOwned i (ClientStep.start_lock h k) = ground (arith, h, k, i)
client-IsOwned i (ClientStep.start_join h k l) = ground (arith, h, k, l, i)
client-IsOwned i (ClientStep.start_create h k) = ground (arith, h, k, i)
client-IsOwned i (ClientStep.start_again h k) = ground (arith, h, k, i)
client-IsOwned i (ClientStep.start_nothing h k) = ground (arith, h, k, i)
client-IsOwned i (ClientStep.start_unlock h) = ground (arith, h, i)
client-IsOwned i (ClientStep.stop_lock h k) = ground (arith, h, k, i)
client-IsOwned i (ClientStep.stop_working h k) = ground (arith, h, k, i)
client-IsOwned i (ClientStep.stop_nothing h k) = ground (arith, h, k, i)
client-IsOwned i (ClientStep.stop_wait h k) = ground (arith, h, k, i)
client-IsOwned {s = s} i (ClientStep.stop_signal h) = ground (arith, h, i, wake_keeps s.thread_pc)
client-IsOwned i (ClientStep.stop_unlock h) = ground (arith, h, i)
client-IsOwned i (ClientStep.delete_join h k l) = ground (arith, h, k, l, i)
client-IsOwned i (ClientStep.joined h k) = ground (arith, h, k, i)

thread-IsOwned : {s t : System} → IsOwned s → ThreadStep s t → IsOwned t
thread-IsOwned i (ThreadStep.wait_lock h k) = ground (arith, h, k, i)
thread-IsOwned i (ThreadStep.sleep h k) = ground (arith, h, k, i)
thread-IsOwned i (ThreadStep.proceed h k) = ground (arith, h, k, i)
thread-IsOwned i (ThreadStep.wake_up h k) = ground (arith, h, k, i)
thread-IsOwned i (ThreadStep.first_finished h k) = ground (arith, h, k, i)
thread-IsOwned {s = s} i (ThreadStep.first_unlock h) = ground (arith, h, i, finish_keeps s.state)
thread-IsOwned i (ThreadStep.unblock h) = ground (arith, h, i)
thread-IsOwned i (ThreadStep.second_finished h k) = ground (arith, h, k, i)
thread-IsOwned {s = s} i (ThreadStep.second_unlock h) = ground (arith, h, i, finish_keeps s.state)
thread-IsOwned i (ThreadStep.update_done h) = ground (arith, h, i)
thread-IsOwned i (ThreadStep.update_failed h) = ground (arith, h, i)
thread-IsOwned i (ThreadStep.third_finished h k) = ground (arith, h, k, i)
thread-IsOwned {s = s} i (ThreadStep.third_unlock h) = ground (arith, h, i, finish_keeps s.state)

ownership : {s : System} → Reach s → IsOwned s
ownership Reach.start = (refl, refl, refl, refl, refl)
ownership (Reach.later r (Step.by_client m)) = client-IsOwned (ownership r) m
ownership (Reach.later r (Step.by_thread m)) = thread-IsOwned (ownership r) m

-- The client and the update thread are never both between the lock and the unlock of the state, and
-- never both between the lock and the unlock of the wait.
pub never_both :
    (s : System)
    → Reach s
    → (client_in_state s.client_pc ≡ true → thread_in_state s.thread_pc ≡ false)
      × (client_in_wait s.client_pc ≡ true → thread_in_wait s.thread_pc ≡ false)
never_both s r =
    let i = ownership r in
    (
      (λ h. one_owner s.state_mutex (ground (arith, h, i.0)) i.1),
      (λ h. one_owner s.wait_mutex (ground (arith, h, i.2)) i.3),
    )
  where
    one_owner : {b : Bool} (o : Owner) → is_client o ≡ true → is_updater o ≡ b → b ≡ false
    one_owner o h k = ground (arith, h, k)

-- The places that lead to the end of the update thread without another round.
abbrev pub is_ending : ThreadPc → Bool
is_ending ThreadPc.set_block = true
is_ending ThreadPc.second_lock = true
is_ending ThreadPc.second_locked = true
is_ending ThreadPc.third_lock = true
is_ending ThreadPc.third_locked = true
is_ending ThreadPc.exited = true
is_ending _ = false

abbrev Ending : System → Type 0
Ending s = is_finished s.state ≡ true → is_ending s.thread_pc ≡ true

wake-ending : (pc : ThreadPc) → is_ending (wake pc) ≡ is_ending pc
unfolding wake
wake-ending pc = ground arith

client_keeps : {s t : System} → Ending s → ClientStep s t → Ending t
unfolding is_finished
client_keeps i (ClientStep.add_lock h k) = λ f. ground (arith, h, k, f, i)
client_keeps {s = s} i (ClientStep.add_signal h) =
    λ f. ground (arith, h, f, i, wake-ending s.thread_pc)
client_keeps i (ClientStep.start_lock h k) = λ f. ground (arith, h, k, f, i)
client_keeps i (ClientStep.start_join h k l) = λ f. ground (arith, h, k, l, f, i)
client_keeps i (ClientStep.start_create h k) = λ f. ground (arith, h, k, f, i)
client_keeps i (ClientStep.start_again h k) = λ f. ground (arith, h, k, f, i)
client_keeps i (ClientStep.start_nothing h k) = λ f. ground (arith, h, k, f, i)
client_keeps i (ClientStep.start_unlock h) = λ f. ground (arith, h, f, i)
client_keeps i (ClientStep.stop_lock h k) = λ f. ground (arith, h, k, f, i)
client_keeps i (ClientStep.stop_working h k) = λ f. ground (arith, h, k, f, i)
client_keeps i (ClientStep.stop_nothing h k) = λ f. ground (arith, h, k, f, i)
client_keeps i (ClientStep.stop_wait h k) = λ f. ground (arith, h, k, f, i)
client_keeps {s = s} i (ClientStep.stop_signal h) =
    λ f. ground (arith, h, f, i, wake-ending s.thread_pc)
client_keeps i (ClientStep.stop_unlock h) = λ f. ground (arith, h, f, i)
client_keeps i (ClientStep.delete_join h k l) = λ f. ground (arith, h, k, l, f, i)
client_keeps i (ClientStep.joined h k) = λ f. ground (arith, h, k, f, i)

thread_keeps : {s t : System} → Ending s → ThreadStep s t → Ending t
unfolding is_finished finish
thread_keeps i (ThreadStep.wait_lock h k) = λ f. ground (arith, h, k, f, i)
thread_keeps i (ThreadStep.sleep h k) = λ f. ground (arith, h, k, f, i)
thread_keeps i (ThreadStep.proceed h k) = λ f. ground (arith, h, k, f, i)
thread_keeps i (ThreadStep.wake_up h k) = λ f. ground (arith, h, k, f, i)
thread_keeps i (ThreadStep.first_finished h k) = λ f. ground (arith, h, k, f, i)
thread_keeps i (ThreadStep.first_unlock h) = λ f. ground (arith, h, f, i)
thread_keeps i (ThreadStep.unblock h) = λ f. ground (arith, h, f, i)
thread_keeps i (ThreadStep.second_finished h k) = λ f. ground (arith, h, k, f, i)
thread_keeps i (ThreadStep.second_unlock h) = λ f. ground (arith, h, f, i)
thread_keeps i (ThreadStep.update_done h) = λ f. ground (arith, h, f, i)
thread_keeps i (ThreadStep.update_failed h) = λ f. ground (arith, h, f, i)
thread_keeps i (ThreadStep.third_finished h k) = λ f. ground (arith, h, k, f, i)
thread_keeps i (ThreadStep.third_unlock h) = λ f. ground (arith, h, f, i)

-- Once the update thread has acknowledged the stop, it is on its way to its end: it makes no update and
-- does not wait for pages again.
finished-is_ending :
    (s : System) → Reach s → is_finished s.state ≡ true → is_ending s.thread_pc ≡ true
unfolding is_finished
finished-is_ending s r = ending r
  where
    ending : {t : System} → Reach t → Ending t
    ending Reach.start = λ f. ground (arith, f)
    ending (Reach.later q (Step.by_client m)) = client_keeps (ending q) m
    ending (Reach.later q (Step.by_thread m)) = thread_keeps (ending q) m
