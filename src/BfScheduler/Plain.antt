-- ===== src/BfScheduler/Plain.antt =====
-- Whole numbers in place of floats, and a schedule that is its own membership test, for the runs.
use aduana.Common.{
  ℕ, ◌+◌, ◌*◌, ltb, leb, sym, ap, Bool, false, ◌||◌, if◌then◌else◌, Option, none, some,
}
use aduana.DomainTemp.{Float}
use aduana.BfScheduler.Requests.{ScheduleKey}
use aduana.BfScheduler.Schedule.{one_key, Schedule}

abbrev pub whole : Float
whole = record {
  Carrier = ℕ;
  nought = 0;
  one = 1;
  less = ltb;
  leq = leb;
  plus_one = λ x. x + 1;
  times = λ x y. x * y;
  decay = λ t time window. 1;
  of_bits = λ b. b;
  of_time = λ t. t;
}

abbrev pub Tests : Type 0
Tests = ScheduleKey whole → Bool

abbrev pub read_at : ScheduleKey whole → Option Tests → Bool
read_at k none = false
read_at k (some s) = s k

abbrev pub tests : Schedule whole
tests = record {
  State = Tests;
  has = λ s k. s k;
  put = λ s key. some (λ k. one_key whole key k || s k);
  del = λ s key. some (λ k. if one_key whole key k then false else s k);
  has-put = λ s s' key k e. sym (ap (read_at k) e);
  has-del = λ s s' key k e. sym (ap (read_at k) e);
}
