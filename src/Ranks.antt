-- ===== src/Ranks.antt =====
-- What lib/src/page_rank.c and lib/src/hits.c share: arrays of `float`, streams of links and loops
-- over the pages. Arithmetic on `float` is an interface.
use aduana.Common.{
  ℕ, zero, suc, ◌+◌, Option, none, some, List, Bool, true, false, leb, if◌then◌else◌, ◌≡◌, refl,
}
use aduana.MmapArray.{MmapArray, mmap_array_idx, read, write}
pub mod Loops
pub mod Plain
pub mod PageRank
pub mod Hits
pub mod Delete

pub record Arith : Type 1 where
  pub Carrier : Type 0
  pub nought : Carrier
  pub one : Carrier
  pub add : Carrier → Carrier → Carrier
  pub sub : Carrier → Carrier → Carrier
  pub mul : Carrier → Carrier → Carrier
  pub div : Carrier → Carrier → Carrier
  pub fabs : Carrier → Carrier
  -- `x > y`, `x <= y` and `x == 0`
  pub greater : Carrier → Carrier → Bool
  pub leq : Carrier → Carrier → Bool
  pub is_nought : Carrier → Bool
  pub of_ℕ : ℕ → Carrier
  -- The number that a bit pattern stands for.
  pub of_bits : ℕ → Carrier

-- An answer of the functions of a link stream: StreamState, with the link.
pub data LinkAnswer : Type 0 where
  stream_state_init : LinkAnswer
  stream_state_next : ℕ → ℕ → LinkAnswer
  stream_state_end : LinkAnswer
  stream_state_error : LinkAnswer

-- `== stream_state_error`
abbrev pub is_error : LinkAnswer → Bool
is_error stream_state_error = true
is_error _ = false

-- A link stream that ends: the answers between the n-th reset and the next, up to the end, and the
-- answer of each reset.
pub record LinkStream : Type 0 where
  pub pass : ℕ → List LinkAnswer
  pub reset : ℕ → LinkAnswer

-- How a function ends: it returns a code and leaves a state, it follows a NULL or an unmapped
-- pointer, or it is still in its loop when the fuel ends.
pub data Run (E S : Type 0) : Type 0 where
  returned : E → S → Run E S
  null_read : Run E S
  running : Run E S

-- The answer of a loop over the pages: its value, where it follows no bad pointer.
unfoldable pub with_value : {E S A : Type 0} → Option A → (A → Run E S) → Run E S
with_value none next = null_read
with_value (some a) next = next a

-- MADV_RANDOM, MADV_SEQUENTIAL and MADV_DONTNEED
abbrev pub madv_random : ℕ
madv_random = 1

abbrev pub madv_sequential : ℕ
madv_sequential = 2

abbrev pub madv_dontneed : ℕ
madv_dontneed = 4

module _ (float : Arith) where
  -- `*mmap_array_idx(marr, i)`
  unfoldable pub float_at : MmapArray float.Carrier → ℕ → Option float.Carrier
  unfolding mmap_array_idx read
  float_at marr i = elim (mmap_array_idx marr i).0 [ none ↦ none | some b ↦ read marr b ]

  -- `for (i...) sum += *score` over `k` elements from `i` on.
  unfoldable pub add_up : MmapArray float.Carrier → ℕ → ℕ → float.Carrier → Option float.Carrier
  unfolding float_at
  add_up marr zero i sum = some sum
  add_up marr (suc k) i sum = elim (float_at marr i) [
    | none ↦ none
    | some score ↦ add_up marr k (i + 1) (float.add sum score)
  ]

  -- `for (i...) *score = f(*score)` over `k` elements from `i` on.
  unfoldable pub change_all :
      (float.Carrier → float.Carrier)
      → MmapArray float.Carrier
      → ℕ
      → ℕ
      → Option (MmapArray float.Carrier)
  unfolding float_at write
  change_all f marr zero i = some marr
  change_all f marr (suc k) i = elim (float_at marr i) [
    | none ↦ none
    | some score ↦ change_all f (write marr i (f score)) k (i + 1)
  ]

  -- One step of the loop that compares the scores and swaps them: `delta` and both arrays.
  unfoldable pub swap_step :
      float.Carrier
      → MmapArray float.Carrier
      → MmapArray float.Carrier
      → ℕ
      → float.Carrier
      → float.Carrier
      → float.Carrier × MmapArray float.Carrier × MmapArray float.Carrier
  unfolding write
  swap_step delta v1 v2 i score1 score2 =
      let diff = float.fabs (float.sub score2 score1) in
      (if float.greater diff delta then diff else delta, write v1 i score2, write v2 i score1)
