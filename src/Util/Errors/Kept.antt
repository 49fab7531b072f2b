-- ===== src/Util/Errors/Kept.antt =====
-- The first error is kept, and its buffer does not overflow.
use aduana.Common.{
  ℕ, zero, suc, ◌-◌, ◌≤◌, ◌≡◌, ◌≢◌, refl, ap, ◌∙◌, Bool, true, false, ◌==◌, Option, none, some,
  List, [], ◌∷◌, ◌++◌, append_assoc, length, length-append, take, arith,
}
use aduana.Util.Errors.{max_error_length, Error, error_set, error_add_aux, error_add}

-- The calls that report an error, with whether the mutex can be locked.
pub data Report : Type 0 where
  set : Bool → ℕ → List ℕ → Report
  add : Bool → List ℕ → Report

pub reported : Error → Report → Option Error
unfolding error_set error_add
reported error (set locks code message) = some (error_set locks error code message)
reported error (add locks message) = error_add locks error message

abbrev pub report_all : Error → List Report → Option Error
report_all error [] = some error
report_all error (report ∷ reports) = elim (reported error report) [
  | none ↦ none
  | some error' ↦ report_all error' reports
]

-- There is an error, whose text fits the buffer and starts with `message`.
abbrev pub IsKept : ℕ → List ℕ → Error → Type 0
IsKept code message error =
    (error.code ≡ code)
    × (error.ended ≡ true)
    × (length error.message ≤ max_error_length)
    × ((more : List ℕ) × (error.message ≡ message ++ more))

length-take : (n : ℕ) (xs : List ℕ) → length (take n xs) ≤ n
length-take zero xs = omega arith
length-take (suc n) [] = omega arith
length-take (suc n) (x ∷ xs) = omega (arith, length-take n xs)

length-error_add_aux :
    (buffer message : List ℕ)
    → length buffer ≤ max_error_length
    → length (error_add_aux buffer message) ≤ max_error_length
unfolding error_add_aux
length-error_add_aux buffer message h =
    let rest = take (max_error_length - length buffer) message in
    omega
      (arith, h, length-append buffer rest, length-take (max_error_length - length buffer) message)

aux-starts :
    (message buffer more text : List ℕ)
    → buffer ≡ message ++ more
    → (more' : List ℕ) × (error_add_aux buffer text ≡ message ++ more')
unfolding error_add_aux
aux-starts message buffer more text e =
    let rest = take (max_error_length - length buffer) text in
    (more ++ rest, ap (λ (front : List ℕ). front ++ rest) e ∙ append_assoc message more rest)

add_lem :
    (code : ℕ) (message : List ℕ) (error : Error) (locks : Bool) (text : List ℕ)
    → IsKept code message error
    → (error' : Error) × (error_add locks error text ≡ some error') × IsKept code message error'
unfolding error_add
add_lem code message error false text kept = (error, refl, kept)
add_lem code message error true text (c, e, len, (more, starts)) =
    let colon : List ℕ = 58 ∷ 32 ∷ [] in
    let buffer = error_add_aux error.message colon in
    let (more', starts') = aux-starts message error.message more colon starts in
    let fits = length-error_add_aux error.message colon len in
    (
      record error { message = error_add_aux buffer text },
      rw (error_add, e) refl,
      (c, e, length-error_add_aux buffer text fits, aux-starts message buffer more' text starts'),
    )

reported-IsKept :
    (code : ℕ) (message : List ℕ) (error : Error) (report : Report)
    → code ≢ 0
    → IsKept code message error
    → (error' : Error) × (reported error report ≡ some error') × IsKept code message error'
unfolding reported error_set
reported-IsKept code message error (set locks code' message') nonzero (c, e, len, (more, starts)) =
    let still : (error.code == 0) ≡ false = ground (arith, c, nonzero) in
    (error, rw still refl, (c, e, len, (more, starts)))
reported-IsKept code message error (add locks text) nonzero kept =
    add_lem code message error locks text kept

-- From an error with a code other than 0, whose text is ended, fits the buffer and starts with a given
-- one, any calls of error_set and error_add leave such an error, with the same code and a text that
-- starts with the given one, whether the mutex can be locked or not.
pub report_all-IsKept :
    (code : ℕ) (message : List ℕ) (error : Error) (reports : List Report)
    → code ≢ 0
    → IsKept code message error
    → (error' : Error) × (report_all error reports ≡ some error') × IsKept code message error'
report_all-IsKept code message error [] nonzero kept = (error, refl, kept)
report_all-IsKept code message error (report ∷ reports) nonzero kept =
    let (error1, e1, kept1) = reported-IsKept code message error report nonzero kept in
    let (error2, e2, kept2) = report_all-IsKept code message error1 reports nonzero kept1 in
    (error2, rw (report_all, e1) e2, kept2)
