-- ===== src/TxnManager/Counting.antt =====
-- What the counter promises to `txn_manager_expand`.
use aduana.Common.{◌+◌, ◌≤◌, ◌≡◌, refl, arith, Bool, true, false}
use aduana.TxnManager.{
  BlockPc, InvSemaphore, dec_locked, pos_locked, broadcast, inc, dec, SemaphoreStep,
  inv_semaphore_init, SemaphoreSteps,
}

abbrev pub is_blocked : BlockPc → Bool
is_blocked BlockPc.blocked = true
is_blocked _ = false

-- Users and open transactions are counted, and there are none while the counter is blocked.
abbrev IsCounted : InvSemaphore → Type 0
IsCounted s = (s.pending + s.active + s.ending ≤ s.value) × (is_blocked s.pc ≡ true → s.value ≡ 0)

not_outside : (p : BlockPc) → pos_locked p ≡ false → is_blocked p ≡ false
unfolding pos_locked
not_outside BlockPc.outside h = refl
not_outside BlockPc.blocked h = absurd (cc h)
not_outside BlockPc.holds_pos h = refl
not_outside BlockPc.test h = refl
not_outside BlockPc.asleep h = refl
not_outside BlockPc.woken h = refl

broadcast_lem : (p : BlockPc) → dec_locked p ≡ false → is_blocked (broadcast p) ≡ false
unfolding dec_locked broadcast
broadcast_lem BlockPc.outside h = refl
broadcast_lem BlockPc.blocked h = absurd (cc h)
broadcast_lem BlockPc.holds_pos h = refl
broadcast_lem BlockPc.test h = refl
broadcast_lem BlockPc.asleep h = refl
broadcast_lem BlockPc.woken h = refl

one_step : {s t : InvSemaphore} → IsCounted s → SemaphoreStep s t → IsCounted t
unfolding inc dec
one_step {s = s} i (SemaphoreStep.inc_value h) =
    let o = not_outside s.pc h in (omega (arith, i.0), λ b. absurd (cc (o, b)))
one_step {s = s} i (SemaphoreStep.begin_ok p) = (omega (arith, i.0, p), i.1)
one_step {s = s} i (SemaphoreStep.begin_failed p) = (omega (arith, i.0, p), i.1)
one_step {s = s} i (SemaphoreStep.end_txn p) = (omega (arith, i.0, p), i.1)
one_step {s = s} i (SemaphoreStep.dec_value p h) =
    let o = broadcast_lem s.pc h in (omega (arith, i.0, p), λ b. absurd (cc (o, b)))
one_step i (SemaphoreStep.lock_pos h) = (i.0, λ b. ground (arith, b))
one_step i (SemaphoreStep.lock_dec h) = (i.0, λ b. ground (arith, b))
one_step i (SemaphoreStep.wait h p) = (i.0, λ b. ground (arith, b))
one_step i (SemaphoreStep.wake_up h) = (i.0, λ b. ground (arith, b))
one_step i (SemaphoreStep.spurious h) = (i.0, λ b. ground (arith, b))
one_step i (SemaphoreStep.return h z) = (i.0, λ b. z)
one_step i (SemaphoreStep.release h) = (i.0, λ b. ground (arith, b))

some_steps : {s t : InvSemaphore} → IsCounted s → SemaphoreSteps s t → IsCounted t
some_steps i SemaphoreSteps.here = i
some_steps i (SemaphoreSteps.later q m) = one_step (some_steps i q) m

-- While `inv_semaphore_block` has returned and the counter was not released, no transaction is open,
-- and nobody is about to open or to end one: the database may be resized.
pub none_active :
    (s : InvSemaphore)
    → SemaphoreSteps inv_semaphore_init s
    → s.pc ≡ BlockPc.blocked
    → (s.active ≡ 0) × (s.pending ≡ 0) × (s.ending ≡ 0)
none_active s q b =
    let i = some_steps (omega arith, λ h. refl) q in
    let z = i.1 (ground (arith, b)) in
    (omega (arith, i.0, z), omega (arith, i.0, z), omega (arith, i.0, z))
