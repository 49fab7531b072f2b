-- ===== src/MmapArray.antt =====
-- lib/src/mmap_array.c and lib/src/mmap_array.h: arrays that grow in memory that the system maps.
-- An element is written as a whole, and of an error value only the code is kept. Memory can be
-- allocated. The calls of the system are an interface.
use aduana.Common.{
  ℕ, zero, suc, ◌-◌, ◌*◌, ◌%◌, ◌^◌, ◌<◌, ◌≡◌, Bool, true, false, not, ◌&&◌, ltb, if◌then◌else◌,
  Option, none, some, List, [], ◌∷◌, length, get_elem?,
}
pub mod Bounds
pub mod Resize
pub mod Plain
mod Runs

pub data MmapArrayError : Type 0 where
  mmap_array_error_ok : MmapArrayError
  mmap_array_error_memory : MmapArrayError
  mmap_array_error_internal : MmapArrayError
  mmap_array_error_mmap : MmapArrayError
  mmap_array_error_file : MmapArrayError
  mmap_array_error_out_of_bounds : MmapArrayError

abbrev pub is_ok : MmapArrayError → Bool
is_ok mmap_array_error_ok = true
is_ok _ = false

-- How the system answers the calls of the code, for arrays of one type of elements. Sizes are in
-- bytes.
pub record System (A : Type 0) : Type 1 where
  -- The element whose bytes are 0, and its size.
  pub nought : A
  pub element_size : ℕ
  -- Whether `open`, `ftruncate` and `mmap` succeed.
  pub opens : Bool
  pub ftruncate : ℕ → Bool
  pub mmap : ℕ → Bool
  -- New memory with what the old has, or MAP_FAILED.
  pub mremap : List A → ℕ → Option (List A)
  -- Whether `madvise` and `msync` with a flag succeed, and `munmap`, `close` and `remove`.
  pub madvise : ℕ → ℕ → Bool
  pub msync : ℕ → ℕ → Bool
  pub munmap : ℕ → Bool
  pub close : Bool
  pub remove : Bool
  pub mremap-length :
      (mem mem' : List A) (n : ℕ) → mremap mem (n * element_size) ≡ some mem' → length mem' ≡ n
  pub mremap-get_elem? :
      (mem mem' : List A) (n i : ℕ)
      → mremap mem (n * element_size) ≡ some mem'
      → i < n
      → i < length mem
      → get_elem? mem' i ≡ get_elem? mem i

-- `mem` is `none` where nothing is mapped: `MAP_FAILED`.
pub record MmapArray (A : Type 0) : Type 0 where
  pub mem : Option (List A)
  -- `fd != -1`
  pub has_file : Bool
  pub n_elements : ℕ
  pub error : MmapArrayError
  pub persist : Bool

module _ {A : Type 0} where
  -- `error_set`: the first error stays.
  unfoldable pub mmap_array_set_error : MmapArray A → MmapArrayError → MmapArray A
  mmap_array_set_error marr code = record marr {
    error = if is_ok marr.error then code else marr.error;
  }

  unfoldable pub mmap_array_set_error_out_of_bounds : MmapArray A → MmapArray A
  mmap_array_set_error_out_of_bounds marr = record marr { error = mmap_array_error_out_of_bounds }

  -- The position that the pointer stands for, or NULL, and the array, whose error is set.
  unfoldable pub mmap_array_idx : MmapArray A → ℕ → Option ℕ × MmapArray A
  unfolding mmap_array_set_error_out_of_bounds
  mmap_array_idx marr n =
      if ltb n marr.n_elements
      then (some n, marr)
      else (none, mmap_array_set_error_out_of_bounds marr)

  -- The element that a pointer into the memory leads to.
  unfoldable pub read : MmapArray A → ℕ → Option A
  read marr n = elim marr.mem [ none ↦ none | some mem ↦ get_elem? mem n ]

  -- `mem[n] = x`
  unfoldable pub set_elem : List A → ℕ → A → List A
  set_elem [] n x = []
  set_elem (_ ∷ mem) zero x = x ∷ mem
  set_elem (y ∷ mem) (suc n) x = y ∷ set_elem mem n x

  unfoldable pub write : MmapArray A → ℕ → A → MmapArray A
  unfolding set_elem
  write marr n x = elim marr.mem [
    | none ↦ marr
    | some mem ↦ record marr { mem = some (set_elem mem n x) }
  ]

  -- `if (b)` of mmap_array_set.
  unfoldable pub write_if : Option ℕ × MmapArray A → A → MmapArrayError × MmapArray A
  unfolding write
  write_if (none, marr) x = (marr.error, marr)
  write_if (some b, marr) x = (marr.error, write marr b x)

  unfoldable pub mmap_array_set : MmapArray A → ℕ → A → MmapArrayError × MmapArray A
  unfolding mmap_array_idx write_if
  mmap_array_set marr n x = write_if (mmap_array_idx marr n) x

  unfoldable pub all_zero : A → List A → List A
  all_zero nought [] = []
  all_zero nought (_ ∷ mem) = nought ∷ all_zero nought mem

  -- `calloc` of `n` elements.
  unfoldable pub zeros : A → ℕ → List A
  zeros nought zero = []
  zeros nought (suc n) = nought ∷ zeros nought n

module _ {A : Type 0} (sys : System A) where
  -- `n_elements*element_size` in 64 bits.
  abbrev pub size_of : ℕ → ℕ
  size_of n = n * sys.element_size % 2 ^ 64

  -- The first size is never 0: "resizing works by doubling current size".
  unfoldable pub first_size : ℕ → ℕ
  first_size zero = 1
  first_size (suc n) = suc n

  unfoldable pub mmap_array_new : Bool → ℕ → MmapArrayError × MmapArray A
  unfolding first_size zeros
  mmap_array_new has_path n_elements =
      let n = first_size n_elements in
      let failed : MmapArrayError → MmapArrayError × MmapArray A = λ code. (
        code,
        record {
          mem = none;
          has_file = has_path && sys.opens;
          n_elements = n;
          error = code;
          persist = false;
        },
      ) in
      if has_path && not sys.opens
      then failed mmap_array_error_file
      else if has_path && not (sys.ftruncate (size_of n))
      then failed mmap_array_error_file
      else if not (sys.mmap (size_of n))
      then failed mmap_array_error_mmap
      else (
        mmap_array_error_ok,
        record {
          mem = some (zeros sys.nought n);
          has_file = has_path;
          n_elements = n;
          error = mmap_array_error_ok;
          persist = false;
        },
      )

  -- The array is told an error, which is returned.
  fail : MmapArray A → MmapArrayError → MmapArrayError × MmapArray A
  unfolding mmap_array_set_error
  fail marr code = let marr' = mmap_array_set_error marr code in (marr'.error, marr')

  unfoldable pub mmap_array_advise : MmapArray A → ℕ → MmapArrayError × MmapArray A
  unfolding fail
  mmap_array_advise marr flag =
      if sys.madvise (size_of marr.n_elements) flag
      then (mmap_array_error_ok, marr)
      else fail marr mmap_array_error_mmap

  -- On success, the error that the array has is returned all the same.
  unfoldable pub mmap_array_sync : MmapArray A → ℕ → MmapArrayError × MmapArray A
  unfolding fail
  mmap_array_sync marr flag =
      if sys.msync (size_of marr.n_elements) flag
      then (marr.error, marr)
      else fail marr mmap_array_error_mmap

  unfoldable pub mmap_array_zero : MmapArray A → MmapArray A
  unfolding all_zero
  mmap_array_zero marr = elim marr.mem [
    | none ↦ marr
    | some mem ↦ record marr { mem = some (all_zero sys.nought mem) }
  ]

  -- The array, where it is not freed.
  unfoldable pub mmap_array_delete : MmapArray A → MmapArrayError × Option (MmapArray A)
  unfolding fail
  mmap_array_delete marr =
      let failed : MmapArray A → MmapArrayError × Option (MmapArray A) =
        λ left. let (code, marr') = fail left mmap_array_error_mmap in (code, some marr') in
      let unmapped : MmapArray A = record marr { mem = none } in
      if not (sys.munmap (size_of marr.n_elements))
      then failed marr
      else if marr.has_file && not sys.close
      then failed unmapped
      else if marr.has_file && not marr.persist && not sys.remove
      then failed unmapped
      else (mmap_array_error_ok, none)

  -- `mremap`, which finds nothing to remap where nothing is mapped.
  unfoldable pub remap : Option (List A) → ℕ → Option (List A)
  remap none new_size = none
  remap (some mem) new_size = sys.mremap mem new_size

  unfoldable pub mmap_array_resize : MmapArray A → ℕ → MmapArrayError × MmapArray A
  unfolding fail remap
  mmap_array_resize marr n_elements =
      if marr.has_file && not (sys.ftruncate (size_of n_elements))
      then fail marr mmap_array_error_file
      else elim (remap marr.mem (size_of n_elements)) [
        | none ↦ fail (record marr { mem = none }) mmap_array_error_mmap
        | some mem ↦ (mmap_array_error_ok, record marr { mem = some mem; n_elements = n_elements })
      ]
