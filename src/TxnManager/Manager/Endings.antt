-- ===== src/TxnManager/Manager/Endings.antt =====
-- Rules for what holds where a call of the transaction manager ends, and what the functions of a
-- counter do to its value, whichever pthread calls fail.
use aduana.Common.{
  ℕ, zero, suc, ◌+◌, ◌-◌, ◌^◌, ◌≤◌, ◌<◌, ◌≡◌, refl, arith, Bool, true, false, Bool-cases, inl, inr,
}
use aduana.TxnManager.Counter.{
  Outcome, returned, waits, misused, Counter, Call, and_then, once_free, is_positive, put_calls,
  put_inc_dec, put_inc_pos, pthread, lock_inc_dec, lock_inc_pos, unlock_inc_dec, unlock_inc_pos,
  cond_call, inv_semaphore_init, inv_semaphore_inc, inv_semaphore_dec, wait_for_zero,
  inv_semaphore_block, inv_semaphore_release,
}

-- `Q` holds of the state where the call returns 0, `R` where it returns an error, and `M` where it
-- misuses LMDB.
abbrev pub Ends : {S : Type 0} → Type 0 → (S → Type 0) → (S → Type 0) → Outcome S → Type 0
Ends M Q R (returned zero s) = Q s
Ends M Q R (returned (suc e) s) = R s
Ends M Q R waits = Unit {0}
Ends M Q R misused = M

-- A call on a counter leaves the value `v`, or an error and a value of which `R` holds.
abbrev pub At : (ℕ → Type 0) → ℕ → Outcome Counter → Type 0
At R v o = Ends ⊥ (λ c. c.value ≡ v) (λ c. R c.value) o

-- The calls of a chain end one behind the other.
and_then-Ends :
    (P Q R : Counter → Type 0) (o : Outcome Counter) (next : Call)
    → Ends ⊥ P R o
    → ((c : Counter) → P c → Ends ⊥ Q R (next c))
    → Ends ⊥ Q R (and_then o next)
unfolding and_then
and_then-Ends P Q R (returned zero c) next p good = good c p
and_then-Ends P Q R (returned (suc e) c) next p good = p
and_then-Ends P Q R waits next p good = tt
and_then-Ends P Q R misused next p good = p

module _ (R : ℕ → Type 0) where
  and_then-At :
      (u v : ℕ) (o : Outcome Counter) (next : Call)
      → At R u o
      → ((c : Counter) → c.value ≡ u → At R v (next c))
      → At R v (and_then o next)
  and_then-At u v = and_then-Ends (λ c. c.value ≡ u) (λ c. c.value ≡ v) (λ c. R c.value)

  once_free-At :
      (v : ℕ) (locked : Bool) (o : Outcome Counter) → At R v o → At R v (once_free locked o)
  unfolding once_free
  once_free-At v true o h = tt
  once_free-At v false o h = h

  module _ (thread : ℕ → ℕ) (v : ℕ) (r : R v) where
    pthread-At :
        (effect : Call) (c : Counter)
        → c.value ≡ v
        → ((d : Counter) → d.value ≡ v → At R v (effect d))
        → At R v (pthread thread effect c)
    unfolding pthread
    pthread-At effect c e good =
        and_then-At v v (returned (thread c.calls) (put_calls c (c.calls + 1))) effect
          (on_code (thread c.calls)) good
      where
        on_code : (n : ℕ) → At R v (returned n (put_calls c (c.calls + 1)))
        on_code zero = e
        on_code (suc n) = rw e r

    -- The calls that leave the value as it is.
    abbrev Keeps : Call → Type 0
    Keeps call = (c : Counter) → c.value ≡ v → At R v (call c)

    lock_inc_dec-Keeps : Keeps (lock_inc_dec thread)
    unfolding lock_inc_dec
    lock_inc_dec-Keeps c e =
        once_free-At v c.mtx_inc_dec (pthread thread (λ d. returned 0 (put_inc_dec d true)) c)
          (pthread-At (λ d. returned 0 (put_inc_dec d true)) c e λ d q. q)

    lock_inc_pos-Keeps : Keeps (lock_inc_pos thread)
    unfolding lock_inc_pos
    lock_inc_pos-Keeps c e =
        once_free-At v c.mtx_inc_pos (pthread thread (λ d. returned 0 (put_inc_pos d true)) c)
          (pthread-At (λ d. returned 0 (put_inc_pos d true)) c e λ d q. q)

    unlock_inc_dec-Keeps : Keeps (unlock_inc_dec thread)
    unfolding unlock_inc_dec
    unlock_inc_dec-Keeps c e = pthread-At (λ d. returned 0 (put_inc_dec d false)) c e λ d q. q

    unlock_inc_pos-Keeps : Keeps (unlock_inc_pos thread)
    unfolding unlock_inc_pos
    unlock_inc_pos-Keeps c e = pthread-At (λ d. returned 0 (put_inc_pos d false)) c e λ d q. q

    cond_call-Keeps : Keeps (cond_call thread)
    unfolding cond_call
    cond_call-Keeps c e = pthread-At (returned 0) c e λ d q. q

    pub inv_semaphore_release-Keeps : Keeps (inv_semaphore_release thread)
    unfolding inv_semaphore_release
    inv_semaphore_release-Keeps c e =
        and_then-At v v (unlock_inc_dec thread c) (unlock_inc_pos thread) (unlock_inc_dec-Keeps c e)
          unlock_inc_pos-Keeps

    lock_both-Keeps : Keeps (λ c. and_then (lock_inc_pos thread c) (lock_inc_dec thread))
    lock_both-Keeps c e =
        and_then-At v v (lock_inc_pos thread c) (lock_inc_dec thread) (lock_inc_pos-Keeps c e)
          lock_inc_dec-Keeps

module _ (thread : ℕ → ℕ) where
  abbrev Between : ℕ → ℕ → ℕ → Type 0
  Between u v n = (u ≤ n) × (n ≤ v)

  -- An increment that fails has counted up or has not.
  pub inv_semaphore_inc-At :
      (c : Counter)
      → c.value + 1 < 2 ^ 31
      → At (Between c.value (c.value + 1)) (c.value + 1) (inv_semaphore_inc thread c)
  unfolding inv_semaphore_inc
  inv_semaphore_inc-At c h =
      let R : ℕ → Type 0 = Between c.value (c.value + 1) in
      let new : R (c.value + 1) = (omega arith, omega arith) in
      and_then-At R (c.value + 1) (c.value + 1) _ (unlock_inc_pos thread)
        (and_then-At R c.value (c.value + 1)
          (and_then (lock_inc_pos thread c) (lock_inc_dec thread)) _
          (lock_both-Keeps R thread c.value (omega arith, omega arith) c refl)
          (λ d e. unlock_inc_dec-Keeps R thread (c.value + 1) new _ (omega arith)))
        (unlock_inc_pos-Keeps R thread (c.value + 1) new)

  -- So has a decrement.
  pub inv_semaphore_dec-At :
      (c : Counter)
      → 0 < c.value
      → c.value < 2 ^ 31
      → At (Between (c.value - 1) c.value) (c.value - 1) (inv_semaphore_dec thread c)
  unfolding inv_semaphore_dec
  inv_semaphore_dec-At c p h =
      let R : ℕ → Type 0 = Between (c.value - 1) c.value in
      let new : R (c.value - 1) = (omega arith, omega arith) in
      and_then-At R (c.value - 1) (c.value - 1) _ (unlock_inc_dec thread)
        (and_then-At R c.value (c.value - 1) (lock_inc_dec thread c) _
          (lock_inc_dec-Keeps R thread c.value (omega arith, omega arith) c refl)
          (λ d e. cond_call-Keeps R thread (c.value - 1) new _ (omega arith)))
        (unlock_inc_dec-Keeps R thread (c.value - 1) new)

  -- Only a counter at 0 is blocked, and a block changes no value.
  pub inv_semaphore_block-Ends :
      (c : Counter)
      → c.value < 2 ^ 31
      → Ends ⊥
          (λ d. (d.value ≡ c.value) × (c.value ≡ 0))
          (λ d. d.value ≡ c.value)
          (inv_semaphore_block thread c)
  unfolding inv_semaphore_block and_then wait_for_zero pthread is_positive
  inv_semaphore_block-Ends c h =
      and_then-Ends (λ d. d.value ≡ c.value) (λ d. (d.value ≡ c.value) × (c.value ≡ 0))
        (λ d. d.value ≡ c.value) (and_then (lock_inc_pos thread c) (lock_inc_dec thread)) _
        (lock_both-Keeps (λ n. n ≡ c.value) thread c.value refl c refl) at_test
    where
      on_code :
          (d : Counter) (n : ℕ)
          → d.value ≡ c.value
          → Ends ⊥
              (λ d. (d.value ≡ c.value) × (c.value ≡ 0))
              (λ d. d.value ≡ c.value)
              (and_then (returned n d) (λ d. waits))
      on_code d zero e = tt
      on_code d (suc n) e = e

      at_test :
          (d : Counter)
          → d.value ≡ c.value
          → Ends ⊥
              (λ d. (d.value ≡ c.value) × (c.value ≡ 0))
              (λ d. d.value ≡ c.value)
              (wait_for_zero thread d)
      at_test d e = elim (Bool-cases (is_positive d.value)) [
        | inl t ↦ rw (is_positive, t) (on_code (put_calls d (d.calls + 1)) (thread d.calls) e)
        | inr f ↦ rw (is_positive, f) (e, ground (arith, f, e, h))
      ]

  -- A counter that was made is at 0.
  pub inv_semaphore_init-Ends :
      (c : Counter) → Ends ⊥ (λ d. d.value ≡ 0) (λ d. Unit {0}) (inv_semaphore_init thread c)
  unfolding inv_semaphore_init
  inv_semaphore_init-Ends c =
      let R : ℕ → Type 0 = λ n. Unit {0} in
      and_then-Ends (λ d. d.value ≡ c.value) (λ d. d.value ≡ 0) (λ d. Unit {0})
        (and_then (and_then (cond_call thread c) (unlock_inc_dec thread)) (unlock_inc_pos thread)) _
        (and_then-At R c.value c.value (and_then (cond_call thread c) (unlock_inc_dec thread))
          (unlock_inc_pos thread)
          (and_then-At R c.value c.value (cond_call thread c) (unlock_inc_dec thread)
            (cond_call-Keeps R thread c.value tt c refl) (unlock_inc_dec-Keeps R thread c.value tt))
          (unlock_inc_pos-Keeps R thread c.value tt))
        (λ d e. refl)
