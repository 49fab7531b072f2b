-- ===== src/MmapArray/Resize.antt =====
-- The size of an array: mmap_array_new and mmap_array_resize.
use aduana.Common.{
  ℕ, zero, suc, ◌*◌, ◌^◌, ◌<◌, ◌≤◌, ◌≡◌, ◌⊎◌, inl, inr, refl, sym, ap, Bool, false, not, ◌&&◌, none,
  some, length, Bool-cases, Option-cases, arith,
}
use aduana.MmapArray.{
  MmapArrayError, mmap_array_error_ok, mmap_array_error_file, mmap_array_error_mmap, System,
  MmapArray, read, zeros, first_size, mmap_array_new, mmap_array_resize, remap, size_of, is_ok,
  fail, mmap_array_set_error,
}
use aduana.MmapArray.Bounds.{IsMapped}

module _ {A : Type 0} (sys : System A) where
  pub first_size_lem : (n : ℕ) → n ≤ first_size sys n
  unfolding first_size
  first_size_lem zero = omega arith
  first_size_lem (suc n) = omega arith

  length-zeros : (n : ℕ) → length (zeros sys.nought n) ≡ n
  unfolding zeros
  length-zeros zero = refl
  length-zeros (suc n) = ap suc (length-zeros n)

  -- The array, where no error is returned, and the error that it has, where one is.
  abbrev pub IsNew : MmapArrayError × MmapArray A → ℕ → Type 0
  IsNew result n =
      ((result.0 ≡ mmap_array_error_ok)
        × IsMapped result.1
        × (result.1.n_elements ≡ n)
        × (result.1.error ≡ mmap_array_error_ok))
      ⊎ ((is_ok result.0 ≡ false) × (result.1.error ≡ result.0))

  -- A new array has the size that was asked for, or 1 where it was 0, with no error, or an error is
  -- returned that the array has.
  pub mmap_array_new_lem :
      (has_path : Bool) (n : ℕ) → IsNew (mmap_array_new sys has_path n) (first_size sys n)
  unfolding mmap_array_new
  mmap_array_new_lem has_path n =
      let size = size_of sys (first_size sys n) in
      elim (Bool-cases (has_path && not sys.opens)) [
        | inl e ↦ rw e (inr (refl, refl))
        | inr e ↦ elim (Bool-cases (has_path && not (sys.ftruncate size))) [
          | inl e' ↦ rw (e, e') (inr (refl, refl))
          | inr e' ↦ elim (Bool-cases (sys.mmap size)) [
            | inl m ↦
                rw (e, e', m)
                  (inl (
                    refl,
                    (zeros sys.nought (first_size sys n), refl, length-zeros (first_size sys n)),
                    refl,
                    refl,
                  ))
            | inr m ↦ rw (e, e', m) (inr (refl, refl))
          ]
        ]
      ]

  -- Either the array has the new size and what it had in both sizes, or it keeps its size.
  abbrev pub IsResized : MmapArray A → ℕ → MmapArrayError × MmapArray A → Type 0
  IsResized marr n result =
      ((result.0 ≡ mmap_array_error_ok)
        × IsMapped result.1
        × (result.1.n_elements ≡ n)
        × (result.1.error ≡ marr.error)
        × ((i : ℕ) → i < n → i < marr.n_elements → read result.1 i ≡ read marr i))
      ⊎ ((is_ok result.0 ≡ false)
          × (result.1.error ≡ result.0)
          × (result.1.n_elements ≡ marr.n_elements)
          × (((i : ℕ) → read result.1 i ≡ read marr i) ⊎ (result.1.mem ≡ none)))

  set_error_lem :
      (marr : MmapArray A) (code : MmapArrayError)
      → is_ok code ≡ false
      → is_ok (mmap_array_set_error marr code).error ≡ false
  unfolding mmap_array_set_error
  set_error_lem marr code e = elim (Bool-cases (is_ok marr.error)) [
    | inl ok ↦ rw ok e
    | inr ok ↦ rw (ok, ok)
  ]

  -- Resizing a mapped array to a number of elements whose bytes can be counted in 64 bits. On
  -- success the array is mapped, has the new size and the error it had, and has every element that
  -- is inside the old size and the new one. Otherwise, the error that the array has then is
  -- returned, the size is what it was, and either the elements are, or nothing is mapped.
  pub mmap_array_resize_lem :
      (marr : MmapArray A) (n : ℕ)
      → IsMapped marr
      → n * sys.element_size < 2 ^ 64
      → IsResized marr n (mmap_array_resize sys marr n)
  unfolding mmap_array_resize fail remap read mmap_array_set_error
  mmap_array_resize_lem marr n (mem, e, len) fits =
      let size : size_of sys n ≡ n * sys.element_size = omega (arith, fits) in
      elim (Bool-cases (marr.has_file && not (sys.ftruncate (size_of sys n)))) [
        | inl f ↦
            rw f (inr (set_error_lem marr mmap_array_error_file refl, refl, refl, inl (λ i. refl)))
        | inr f ↦ elim (Option-cases (sys.mremap mem (size_of sys n))) [
          | inl m ↦
              rw (f, e, remap, m)
                (inr (
                  set_error_lem (record marr { mem = none }) mmap_array_error_mmap refl,
                  refl,
                  refl,
                  inr refl,
                ))
          | inr (mem', m) ↦
              let m' : sys.mremap mem (n * sys.element_size) ≡ some mem' = rw (sym size) m in
              rw (f, e, remap, m)
                (inl (
                  refl,
                  (mem', refl, sys.mremap-length mem mem' n m'),
                  refl,
                  refl,
                  λ i i_lt i_lt'.
                      sys.mremap-get_elem? mem mem' n i m' i_lt (omega (arith, i_lt', len)),
                ))
        ]
      ]
