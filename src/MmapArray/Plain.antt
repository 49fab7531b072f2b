-- ===== src/MmapArray/Plain.antt =====
-- A system where every call succeeds and new memory is 0, for elements of 16 bytes: an instance of
-- the interface, for the tests.
use aduana.Common.{
  ℕ, zero, suc, ◌*◌, ◌/◌, ◌<◌, ◌≡◌, refl, ap, true, some, List, [], ◌∷◌, length, get_elem?, arith,
}
use aduana.MmapArray.{System}

-- The first `n` elements, and `nought` past the last.
unfoldable pub fit : {A : Type 0} → A → ℕ → List A → List A
fit nought zero mem = []
fit nought (suc n) [] = nought ∷ fit nought n []
fit nought (suc n) (x ∷ mem) = x ∷ fit nought n mem

pub length-fit : {A : Type 0} (nought : A) (n : ℕ) (mem : List A) → length (fit nought n mem) ≡ n
unfolding fit
length-fit nought zero mem = refl
length-fit nought (suc n) [] = ap suc (length-fit nought n [])
length-fit nought (suc n) (x ∷ mem) = ap suc (length-fit nought n mem)

pub get_elem?-fit :
    {A : Type 0} (nought : A) (n i : ℕ) (mem : List A)
    → i < n
    → i < length mem
    → get_elem? (fit nought n mem) i ≡ get_elem? mem i
unfolding fit
get_elem?-fit nought zero i mem h h' = absurd (omega (arith, h))
get_elem?-fit nought (suc n) i [] h h' = absurd (omega (arith, h'))
get_elem?-fit nought (suc n) zero (x ∷ mem) h h' = refl
get_elem?-fit nought (suc n) (suc i) (x ∷ mem) h h' =
    get_elem?-fit nought n i mem (omega (arith, h)) (omega (arith, h'))

sixteenth : (n : ℕ) → n * 16 / 16 ≡ n
sixteenth n = omega arith

pub remapped :
    {A : Type 0} (nought : A) (mem mem' : List A) (n : ℕ)
    → some (fit nought (n * 16 / 16) mem) ≡ some mem'
    → mem' ≡ fit nought n mem
remapped nought mem mem' n e = cc (e, sixteenth n)

unfoldable pub plain_system : {A : Type 0} → A → System A
unfolding fit
plain_system nought = record {
  nought = nought;
  element_size = 16;
  opens = true;
  ftruncate = λ _. true;
  mmap = λ _. true;
  mremap = λ mem size. some (fit nought (size / 16) mem);
  madvise = λ _ _. true;
  msync = λ _ _. true;
  munmap = λ _. true;
  close = true;
  remove = true;
  mremap-length = λ mem mem' n e. rw (remapped nought mem mem' n e) (length-fit nought n mem);
  mremap-get_elem? =
      λ mem mem' n i e h h'. rw (remapped nought mem mem' n e) (get_elem?-fit nought n i mem h h');
}
