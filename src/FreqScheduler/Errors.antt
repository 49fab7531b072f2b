-- ===== src/FreqScheduler/Errors.antt =====
-- freq_scheduler_request after an earlier error.
use aduana.Common.{ℕ, ◌+◌, ◌-◌, ◌≡◌, refl, ap, true, false, Bool-cases, inl, inr, [], arith}
use aduana.Ranks.{Arith}
use aduana.FreqScheduler.{
  is_ok, Queue, Calls, FreqScheduler, Outcome, returned, on_error, freq_scheduler_cursor_open,
  freq_scheduler_cursor_abort, freq_scheduler_set_error, freq_scheduler_request,
}

add_sub : (n : ℕ) → n + 1 - 1 ≡ n
add_sub n = omega arith

module _ (float : Arith) (queue : Queue float) (calls : Calls float) where
  -- After an error, every request whose cursor would be opened returns that error, with no URL, and
  -- changes nothing.
  freq_scheduler_request_stuck :
      (sch : FreqScheduler float queue) (fuel max_requests : ℕ)
      → calls.cursor ≡ true
      → is_ok sch.error ≡ false
      → freq_scheduler_request float queue calls fuel max_requests sch ≡ returned sch.error [] sch
  unfolding freq_scheduler_request freq_scheduler_cursor_open on_error freq_scheduler_cursor_abort
      freq_scheduler_set_error
  freq_scheduler_request_stuck sch fuel max_requests c bad =
      let back : ℕ → Outcome float queue =
        λ n. returned sch.error [] (record sch { open_txns = n }) in
      elim (Bool-cases calls.begin) [
        | inl b ↦
            rw (freq_scheduler_request, freq_scheduler_cursor_open, b, c, bad)
              (ap back (add_sub sch.open_txns))
        | inr b ↦ rw (freq_scheduler_request, freq_scheduler_cursor_open, b, bad, bad) refl
      ]
