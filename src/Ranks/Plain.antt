-- ===== src/Ranks/Plain.antt =====
-- Whole numbers in place of `float`: an instance of the interface, for the tests.
use aduana.Common.{ℕ, ◌+◌, ◌-◌, ◌*◌, ◌/◌, ltb, leb, ◌==◌}
use aduana.Ranks.{Arith}

abbrev pub whole_numbers : Arith
whole_numbers = record {
  Carrier = ℕ;
  nought = 0;
  one = 1;
  add = ◌+◌;
  sub = ◌-◌;
  mul = ◌*◌;
  div = ◌/◌;
  fabs = λ x. x;
  greater = λ x y. ltb y x;
  leq = leb;
  is_nought = λ x. x == 0;
  of_ℕ = λ n. n;
  of_bits = λ n. n;
}
