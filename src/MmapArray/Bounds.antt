-- ===== src/MmapArray/Bounds.antt =====
-- Reading and writing the elements of an array: mmap_array_idx and mmap_array_set.
use aduana.Common.{
  ℕ, zero, suc, ◌<◌, ◌≡◌, ◌⊎◌, inl, inr, refl, ap, true, false, ltb, ◌==◌, if◌then◌else◌, Option,
  none, some, List, [], ◌∷◌, length, get_elem?, arith,
}
use aduana.MmapArray.{
  System, mmap_array_error_ok, mmap_array_zero, mmap_array_advise, all_zero, size_of,
  mmap_array_error_out_of_bounds, MmapArray, mmap_array_idx, mmap_array_set_error_out_of_bounds,
  mmap_array_set, write_if, read, write, set_elem,
}

lt-cases : (n m : ℕ) → ((n < m) × (ltb n m ≡ true)) ⊎ (ltb n m ≡ false)
lt-cases n m = ground arith

module _ {A : Type 0} where
  -- The mapped memory is as long as the array says.
  abbrev pub IsMapped : MmapArray A → Type 0
  IsMapped marr = (mem : List A) × (marr.mem ≡ some mem) × (length mem ≡ marr.n_elements)

  length-set_elem : (mem : List A) (n : ℕ) (x : A) → length (set_elem mem n x) ≡ length mem
  unfolding set_elem
  length-set_elem [] n x = refl
  length-set_elem (y ∷ mem) zero x = refl
  length-set_elem (y ∷ mem) (suc n) x = omega (arith, length-set_elem mem n x)

  pub read-set_elem :
      (mem : List A) (n i : ℕ) (x : A)
      → n < length mem
      → get_elem? (set_elem mem n x) i ≡ (if n == i then some x else get_elem? mem i)
  unfolding set_elem
  read-set_elem [] n i x h = absurd (omega (arith, h))
  read-set_elem (y ∷ mem) zero zero x h = refl
  read-set_elem (y ∷ mem) zero (suc i) x h = ground arith
  read-set_elem (y ∷ mem) (suc n) zero x h = ground arith
  read-set_elem (y ∷ mem) (suc n) (suc i) x h =
      ground (arith, read-set_elem mem n i x (omega (arith, h)))

  get_elem?-inside : (mem : List A) (i : ℕ) → i < length mem → (x : A) × (get_elem? mem i ≡ some x)
  get_elem?-inside [] i h = absurd (omega (arith, h))
  get_elem?-inside (y ∷ mem) zero h = (y, refl)
  get_elem?-inside (y ∷ mem) (suc i) h = get_elem?-inside mem i (omega (arith, h))

  pub idx_inside :
      (marr : MmapArray A) (n : ℕ)
      → ltb n marr.n_elements ≡ true
      → mmap_array_idx marr n ≡ (some n, marr)
  unfolding mmap_array_idx
  idx_inside marr n inside = rw inside refl

  pub idx_outside :
      (marr : MmapArray A) (n : ℕ)
      → ltb n marr.n_elements ≡ false
      → mmap_array_idx marr n ≡ (none, mmap_array_set_error_out_of_bounds marr)
  unfolding mmap_array_idx
  idx_outside marr n outside = rw outside refl

  pub write-IsMapped :
      (marr : MmapArray A) (n : ℕ) (x : A)
      → IsMapped marr
      → IsMapped (write marr n x) × ((write marr n x).n_elements ≡ marr.n_elements)
  unfolding write
  write-IsMapped marr n x (mem, e, len) =
      rw (write, e) ((set_elem mem n x, refl, omega (arith, len, length-set_elem mem n x)), refl)

  pub read-write :
      (marr : MmapArray A) (n i : ℕ) (x : A)
      → IsMapped marr
      → n < marr.n_elements
      → read (write marr n x) i ≡ (if n == i then some x else read marr i)
  unfolding write read
  read-write marr n i x (mem, e, len) h =
      rw (write, read, e) (read-set_elem mem n i x (omega (arith, h, len)))

  pub read-inside :
      (marr : MmapArray A) (i : ℕ)
      → IsMapped marr
      → i < marr.n_elements
      → (x : A) × (read marr i ≡ some x)
  unfolding read
  read-inside marr i (mem, e, len) h = rw (read, e) (get_elem?-inside mem i (omega (arith, h, len)))

  -- NULL, or a pointer to an element.
  pub idx-cases :
      (marr : MmapArray A) (n : ℕ)
      → IsMapped marr
      → ((mmap_array_idx marr n).0 ≡ none)
        ⊎ ((x : A) × ((mmap_array_idx marr n).0 ≡ some n) × (read marr n ≡ some x))
  idx-cases marr n m = elim (lt-cases n marr.n_elements) [
    | inl inside ↦
        let (x, e) = read-inside marr n m inside.0 in
        inr (x, ap (λ (answer : Option ℕ × MmapArray A). answer.0) (idx_inside marr n inside.1), e)
    | inr outside ↦
        inl (ap (λ (answer : Option ℕ × MmapArray A). answer.0) (idx_outside marr n outside))
  ]

  -- In a mapped array, mmap_array_set leaves a mapped array of the same size. Inside the bounds, it
  -- returns the error that the array has, the element is the new one, and the others are what they
  -- were. Outside, it returns mmap_array_error_out_of_bounds, whatever the error was, and nothing
  -- is written.
  pub mmap_array_set_lem :
      (marr : MmapArray A) (n i : ℕ) (x : A)
      → IsMapped marr
      → let marr' = (mmap_array_set marr n x).1 in
        IsMapped marr'
        × (marr'.n_elements ≡ marr.n_elements)
        × ((mmap_array_set marr n x).0 ≡ marr'.error)
        × (marr'.error
            ≡ (if ltb n marr.n_elements then marr.error else mmap_array_error_out_of_bounds))
        × (read marr' i ≡ (
            if ltb n marr.n_elements then if n == i then some x else read marr i else read marr i))
  unfolding mmap_array_set write_if mmap_array_set_error_out_of_bounds write read
  mmap_array_set_lem marr n i x (mem, e, len) = elim (lt-cases n marr.n_elements) [
    | inl inside ↦
        rw (mmap_array_set, idx_inside marr n inside.1, inside.1, write_if, write, read, e)
          (
            (set_elem mem n x, refl, omega (arith, len, length-set_elem mem n x)),
            refl,
            refl,
            refl,
            read-set_elem mem n i x (omega (arith, inside.0, len)),
          )
    | inr outside ↦
        rw (mmap_array_set, idx_outside marr n outside, outside, e)
          ((mem, refl, len), refl, refl, refl, refl)
  ]

module _ {A : Type 0} (sys : System A) where
  all_zero_lem :
      (mem : List A) (i : ℕ)
      → (length (all_zero sys.nought mem) ≡ length mem)
        × (i < length mem → get_elem? (all_zero sys.nought mem) i ≡ some sys.nought)
  unfolding all_zero
  all_zero_lem [] i = (refl, λ h. absurd (omega (arith, h)))
  all_zero_lem (x ∷ mem) zero = (omega (arith, (all_zero_lem mem zero).0), λ h. refl)
  all_zero_lem (x ∷ mem) (suc i) =
      let (same, at) = all_zero_lem mem i in (omega (arith, same), λ h. at (omega (arith, h)))

  pub mmap_array_zero_lem :
      (marr : MmapArray A)
      → IsMapped marr
      → IsMapped (mmap_array_zero sys marr)
        × ((mmap_array_zero sys marr).n_elements ≡ marr.n_elements)
        × ((i : ℕ) → i < marr.n_elements → read (mmap_array_zero sys marr) i ≡ some sys.nought)
  unfolding mmap_array_zero read
  mmap_array_zero_lem marr (mem, e, len) =
      rw (mmap_array_zero, e)
        (
          (all_zero sys.nought mem, refl, omega (arith, len, (all_zero_lem mem 0).0)),
          refl,
          λ i h. (all_zero_lem mem i).1 (omega (arith, h, len)),
        )

  pub mmap_array_zero-error :
      (marr : MmapArray A) → IsMapped marr → (mmap_array_zero sys marr).error ≡ marr.error
  unfolding mmap_array_zero
  mmap_array_zero-error marr (mem, e, len) = rw (mmap_array_zero, e) refl

  -- `madvise` succeeds.
  abbrev pub IsAdvised : Type 0
  IsAdvised = (size flag : ℕ) → sys.madvise size flag ≡ true

  pub mmap_array_advise-ok :
      (marr : MmapArray A) (flag : ℕ)
      → IsAdvised
      → mmap_array_advise sys marr flag ≡ (mmap_array_error_ok, marr)
  unfolding mmap_array_advise
  mmap_array_advise-ok marr flag h =
      rw (mmap_array_advise, h (size_of sys marr.n_elements) flag) refl
