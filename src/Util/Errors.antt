-- ===== src/Util/Errors.antt =====
-- lib/src/util.c: error values, and paths.
use aduana.Common.{
  ℕ, ◌+◌, ◌-◌, ◌<◌, ◌≤◌, ◌≡◌, Bool, true, false, not, ltb, ◌==◌, if◌then◌else◌, Option, none, some,
  List, [], ◌∷◌, ◌++◌, length, take,
}
mod Kept
mod Runs

abbrev pub max_error_length : ℕ
max_error_length = 10000

-- The text in the buffer, and whether a 0 ends it there: `strncpy` writes none behind a text of
-- MAX_ERROR_LENGTH characters or more.
pub record Error : Type 0 where
  pub code : ℕ
  pub message : List ℕ
  pub ended : Bool

-- "NO ERROR" and "no description"
abbrev no_error : List ℕ
no_error = 78 ∷ 79 ∷ 32 ∷ 69 ∷ 82 ∷ 82 ∷ 79 ∷ 82 ∷ []

-- `error_set_1`
unfoldable pub error_set_1 : ℕ → List ℕ → Error
error_set_1 code message = record {
  code = code;
  message = take max_error_length message;
  ended = ltb (length message) max_error_length;
}

-- `error_init`
unfoldable pub error_init : Error
unfolding error_set_1
error_init = error_set_1 0 no_error

-- `error_set_2`; where the mutex cannot be locked, nothing is done.
unfoldable pub error_set_2 : Bool → Error → ℕ → List ℕ → Error
unfolding error_set_1
error_set_2 locks error code message = if locks then error_set_1 code message else error

unfoldable pub error_clean : Bool → Error → Error
unfolding error_set_2
error_clean locks error = error_set_2 locks error 0 no_error

unfoldable pub error_set : Bool → Error → ℕ → List ℕ → Error
unfolding error_set_2
error_set locks error code message =
    if error.code == 0 then error_set_2 locks error code message else error

-- `error_add_aux` on a text that is ended.
unfoldable pub error_add_aux : List ℕ → List ℕ → List ℕ
error_add_aux buffer message = buffer ++ take (max_error_length - length buffer) message

-- `error_add`, with ": " before the text; `none` where the end of the buffer was never set, which
-- `strncat` looks for.
unfoldable pub error_add : Bool → Error → List ℕ → Option Error
unfolding error_add_aux
error_add locks error message =
    if not locks
    then some error
    else if error.ended
    then some (record error {
      message = error_add_aux (error_add_aux error.message (58 ∷ 32 ∷ [])) message;
    })
    else none

unfoldable pub error_message : Error → Option (List ℕ)
error_message error = if error.code == 0 then none else some error.message

-- `concat`
unfoldable pub concat : List ℕ → List ℕ → ℕ → List ℕ
concat s1 s2 separator = s1 ++ (separator ∷ s2)

-- `build_path`, with a slash.
unfoldable pub build_path : List ℕ → List ℕ → List ℕ
unfolding concat
build_path path fname = concat path fname 47
