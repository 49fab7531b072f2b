-- ===== src/Util/Errors/Runs.antt =====
-- Two errors, one after the other.
use aduana.Common.{◌≡◌, refl, true, some, [], ◌∷◌, arith}
use aduana.Util.Errors.{Error, error_init, error_set, error_set_1, error_set_2}
use aduana.Util.Errors.Kept.{set, add, report_all, IsKept, report_all-IsKept}

abbrev broken : Error
broken = record { code = 3; message = b'a' ∷ b'b' ∷ []; ended = true }

first_error : error_set true error_init 3 (b'a' ∷ b'b' ∷ []) ≡ broken
unfolding error_set error_set_2 error_set_1 error_init
first_error = refl

report_all-IsKept_example :
    (error' : Error) × (report_all broken (add true (b'c' ∷ []) ∷ set true 4 (b'd' ∷ []) ∷ [])
      ≡ some error')
    × IsKept 3 (b'a' ∷ b'b' ∷ []) error'
report_all-IsKept_example =
    report_all-IsKept 3 (b'a' ∷ b'b' ∷ []) broken
      (add true (b'c' ∷ []) ∷ set true 4 (b'd' ∷ []) ∷ []) (λ e. omega (arith, e))
      (refl, refl, omega arith, ([], refl))
