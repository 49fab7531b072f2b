-- ===== src/TxnManager/Progress.antt =====
-- lib/src/txn_manager.c: where no begin fails, the expanding thread cannot be kept waiting.
use native.Mathlib.Decide.{dec_lt}
use aduana.Common.{ℕ, zero, suc, ◌+◌, ◌*◌, ◌<◌, ◌≤◌, ◌≡◌, ◌≢◌, refl, ap, arith, false}
use aduana.TxnManager.{
  BlockPc, InvSemaphore, dec_locked, pos_locked, broadcast, inc, dec, SemaphoreStep,
  inv_semaphore_init, SemaphoreSteps,
}

-- A step that is no begin that fails.
abbrev pub HasBegun : {s t : InvSemaphore} → SemaphoreStep s t → Type 0
HasBegun (SemaphoreStep.begin_failed p) = ⊥
HasBegun _ = Unit

-- No `mdb_txn_begin` fails.
abbrev pub BeginsWell : {s t : InvSemaphore} → SemaphoreSteps s t → Type 0
BeginsWell SemaphoreSteps.here = Unit
BeginsWell (SemaphoreSteps.later q m) = HasBegun m × BeginsWell q

-- A step that is neither a begin that fails nor a wake-up without a signal.
abbrev pub IsExpected : {s t : InvSemaphore} → SemaphoreStep s t → Type 0
IsExpected (SemaphoreStep.begin_failed p) = ⊥
IsExpected (SemaphoreStep.spurious h) = ⊥
IsExpected _ = Unit

-- `inv_semaphore_block` has returned, or some expected step can be made, and whichever is made leads to
-- such a state again, after finitely many.
pub data WillBlock : InvSemaphore → Type 0 where
  now : {s : InvSemaphore} → s.pc ≡ BlockPc.blocked → WillBlock s
  later :
      {s t : InvSemaphore} (m : SemaphoreStep s t)
      → IsExpected m
      → ((u : InvSemaphore) (n : SemaphoreStep s u) → IsExpected n → WillBlock u)
      → WillBlock s

-- Every counted transaction is open, about to open or about to be uncounted, and the expanding thread
-- sleeps without a signal only while there are some.
abbrev IsExact : InvSemaphore → Type 0
IsExact s = (s.value ≡ s.pending + s.active + s.ending) × (s.pc ≡ BlockPc.asleep → 0 < s.value)

not_asleep : (p : BlockPc) → broadcast p ≢ BlockPc.asleep
unfolding broadcast
not_asleep BlockPc.outside h = cc h
not_asleep BlockPc.holds_pos h = cc h
not_asleep BlockPc.test h = cc h
not_asleep BlockPc.asleep h = cc h
not_asleep BlockPc.woken h = cc h
not_asleep BlockPc.blocked h = cc h

step-IsExact : {s t : InvSemaphore} (m : SemaphoreStep s t) → HasBegun m → IsExact s → IsExact t
unfolding inc dec
step-IsExact (SemaphoreStep.inc_value h) w i = (omega (arith, i.0), λ a. omega arith)
step-IsExact (SemaphoreStep.begin_ok p) w i = (omega (arith, i.0, p), i.1)
step-IsExact (SemaphoreStep.begin_failed p) w i = absurd w
step-IsExact (SemaphoreStep.end_txn p) w i = (omega (arith, i.0, p), i.1)
step-IsExact {s = s} (SemaphoreStep.dec_value p h) w i =
    (omega (arith, i.0, p), λ a. absurd (not_asleep s.pc a))
step-IsExact (SemaphoreStep.lock_pos h) w i = (i.0, λ a. absurd (cc a))
step-IsExact (SemaphoreStep.lock_dec h) w i = (i.0, λ a. absurd (cc a))
step-IsExact (SemaphoreStep.wait h p) w i = (i.0, λ a. p)
step-IsExact (SemaphoreStep.wake_up h) w i = (i.0, λ a. absurd (cc a))
step-IsExact (SemaphoreStep.spurious h) w i = (i.0, λ a. absurd (cc a))
step-IsExact (SemaphoreStep.return h z) w i = (i.0, λ a. absurd (cc a))
step-IsExact (SemaphoreStep.release h) w i = (i.0, λ a. absurd (cc a))

-- How far the expanding thread is from its return, but for the users.
rank : BlockPc → ℕ
rank BlockPc.outside = 5
rank BlockPc.holds_pos = 4
rank BlockPc.woken = 3
rank BlockPc.test = 2
rank BlockPc.asleep = 1
rank BlockPc.blocked = 0

abbrev measure : InvSemaphore → ℕ
measure s = 5 * s.pending + 4 * s.active + 3 * s.ending + rank s.pc

rank-broadcast : (p : BlockPc) → rank (broadcast p) ≤ rank p + 2
unfolding rank broadcast
rank-broadcast BlockPc.outside = omega arith
rank-broadcast BlockPc.holds_pos = omega arith
rank-broadcast BlockPc.test = omega arith
rank-broadcast BlockPc.asleep = omega arith
rank-broadcast BlockPc.woken = omega arith
rank-broadcast BlockPc.blocked = omega arith

-- The expanding thread is inside `inv_semaphore_block`.
abbrev IsInside : InvSemaphore → Type 0
IsInside s = (rank s.pc < 5) × (0 < rank s.pc)

inside-pos : (p : BlockPc) → rank p < 5 → pos_locked p ≢ false
unfolding rank pos_locked
inside-pos BlockPc.outside h l = omega (arith, h)
inside-pos BlockPc.holds_pos h l = cc l
inside-pos BlockPc.test h l = cc l
inside-pos BlockPc.asleep h l = cc l
inside-pos BlockPc.woken h l = cc l
inside-pos BlockPc.blocked h l = cc l

rank-broadcast-lt : (p : BlockPc) → rank p < 5 → rank (broadcast p) < 5
unfolding rank broadcast
rank-broadcast-lt BlockPc.outside h = h
rank-broadcast-lt BlockPc.holds_pos h = h
rank-broadcast-lt BlockPc.test h = h
rank-broadcast-lt BlockPc.asleep h = omega arith
rank-broadcast-lt BlockPc.woken h = h
rank-broadcast-lt BlockPc.blocked h = h

-- What an expected step inside leads to.
abbrev IsCloser : InvSemaphore → InvSemaphore → Type 0
IsCloser s t = IsExact t × (rank t.pc < 5) × (measure t < measure s)

expected-IsCloser :
    {s t : InvSemaphore} (m : SemaphoreStep s t)
    → IsExpected m
    → IsExact s
    → IsInside s
    → IsCloser s t
unfolding inc dec rank
expected-IsCloser {s = s} (SemaphoreStep.inc_value h) w i j = absurd (inside-pos s.pc j.0 h)
expected-IsCloser (SemaphoreStep.begin_ok p) w i j =
    (step-IsExact (SemaphoreStep.begin_ok p) tt i, j.0, omega (arith, p))
expected-IsCloser (SemaphoreStep.begin_failed p) w i j = absurd w
expected-IsCloser (SemaphoreStep.end_txn p) w i j =
    (step-IsExact (SemaphoreStep.end_txn p) tt i, j.0, omega (arith, p))
expected-IsCloser {s = s} (SemaphoreStep.dec_value p h) w i j = (
  step-IsExact (SemaphoreStep.dec_value p h) tt i,
  rank-broadcast-lt s.pc j.0,
  omega (arith, p, rank-broadcast s.pc),
)
expected-IsCloser (SemaphoreStep.lock_pos h) w i j = absurd (omega (arith, ap rank h, j.0))
expected-IsCloser (SemaphoreStep.lock_dec h) w i j =
    (step-IsExact (SemaphoreStep.lock_dec h) tt i, omega arith, omega (arith, ap rank h))
expected-IsCloser (SemaphoreStep.wait h p) w i j =
    (step-IsExact (SemaphoreStep.wait h p) tt i, omega arith, omega (arith, ap rank h))
expected-IsCloser (SemaphoreStep.wake_up h) w i j =
    (step-IsExact (SemaphoreStep.wake_up h) tt i, omega arith, omega (arith, ap rank h))
expected-IsCloser (SemaphoreStep.spurious h) w i j = absurd w
expected-IsCloser (SemaphoreStep.return h z) w i j =
    (step-IsExact (SemaphoreStep.return h z) tt i, omega arith, omega (arith, ap rank h))
expected-IsCloser (SemaphoreStep.release h) w i j = absurd (omega (arith, ap rank h, j.1))

abbrev CanGo : InvSemaphore → Type 0
CanGo s = (t : InvSemaphore) × (m : SemaphoreStep s t) × IsExpected m

-- Where no user has a step, the expanding thread has one.
thread_goes :
    (s : InvSemaphore) (p : BlockPc)
    → s.pc ≡ p
    → IsExact s
    → IsInside s
    → s.pending ≡ 0
    → s.active ≡ 0
    → CanGo s
unfolding rank dec_locked
thread_goes s BlockPc.outside e i j p a = absurd (omega (arith, ap rank e, j.0))
thread_goes s BlockPc.holds_pos e i j p a = (_, SemaphoreStep.lock_dec e, tt)
thread_goes s BlockPc.test e i j p a = elim (dec_lt 0 s.value) [
  | yes some_left ↦ (_, SemaphoreStep.wait e some_left, tt)
  | no none_left ↦ (_, SemaphoreStep.return e (omega (arith, none_left)), tt)
]
thread_goes s BlockPc.asleep e i j p a =
    (_, SemaphoreStep.dec_value (omega (arith, i.1 e, i.0, p, a)) (ap dec_locked e), tt)
thread_goes s BlockPc.woken e i j p a = (_, SemaphoreStep.wake_up e, tt)
thread_goes s BlockPc.blocked e i j p a = absurd (omega (arith, ap rank e, j.1))

can_go : (s : InvSemaphore) → IsExact s → IsInside s → CanGo s
can_go s i j = elim (dec_lt 0 s.pending) [
  | yes p ↦ (_, SemaphoreStep.begin_ok p, tt)
  | no p ↦ elim (dec_lt 0 s.active) [
    | yes a ↦ (_, SemaphoreStep.end_txn a, tt)
    | no a ↦ thread_goes s s.pc refl i j (omega (arith, p)) (omega (arith, a))
  ]
]

rank-eq-0 : (p : BlockPc) → rank p ≡ 0 → p ≡ BlockPc.blocked
unfolding rank
rank-eq-0 BlockPc.outside h = absurd (omega (arith, h))
rank-eq-0 BlockPc.holds_pos h = absurd (omega (arith, h))
rank-eq-0 BlockPc.test h = absurd (omega (arith, h))
rank-eq-0 BlockPc.asleep h = absurd (omega (arith, h))
rank-eq-0 BlockPc.woken h = absurd (omega (arith, h))
rank-eq-0 BlockPc.blocked h = refl

exact-WillBlock :
    (n : ℕ) (s : InvSemaphore) → measure s ≤ n → IsExact s → rank s.pc < 5 → WillBlock s
exact-WillBlock zero s l i j = WillBlock.now (rank-eq-0 s.pc (omega (arith, l)))
exact-WillBlock (suc n) s l i j = elim (dec_lt 0 (rank s.pc)) [
  | no z ↦ WillBlock.now (rank-eq-0 s.pc (omega (arith, z)))
  | yes p ↦
      let (_, m, good) = can_go s i (j, p) in
      WillBlock.later m good λ u m' good'.
        let (i', j', less) = expected-IsCloser m' good' i (j, p) in
        exact-WillBlock n u (omega (arith, less, l)) i' j'
]

BeginsWell-IsExact :
    {s : InvSemaphore} (q : SemaphoreSteps inv_semaphore_init s) → BeginsWell q → IsExact s
BeginsWell-IsExact SemaphoreSteps.here w = (omega arith, λ a. absurd (cc a))
BeginsWell-IsExact (SemaphoreSteps.later q m) w = step-IsExact m w.0 (BeginsWell-IsExact q w.1)

not_outside : (p : BlockPc) → p ≢ BlockPc.outside → rank p < 5
unfolding rank
not_outside BlockPc.outside h = absurd (h refl)
not_outside BlockPc.holds_pos h = omega arith
not_outside BlockPc.test h = omega arith
not_outside BlockPc.asleep h = omega arith
not_outside BlockPc.woken h = omega arith
not_outside BlockPc.blocked h = omega arith

-- Where no `mdb_txn_begin` has failed, once the expanding thread holds `mtx_inc_pos`: the threads can
-- always make a step, and whichever steps they make, with no begin that fails and no wake-up without a
-- signal, after finitely many `inv_semaphore_block` returns.
pub block_returns :
    (s : InvSemaphore) (q : SemaphoreSteps inv_semaphore_init s)
    → BeginsWell q
    → s.pc ≢ BlockPc.outside
    → WillBlock s
block_returns s q w inside =
    exact-WillBlock (measure s) s (omega arith) (BeginsWell-IsExact q w) (not_outside s.pc inside)
