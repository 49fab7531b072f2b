-- ===== src/Ranks/Loops.antt =====
-- The loops over the pages of an array that is mapped and has room for them.
use aduana.Common.{
  ℕ, zero, suc, ◌+◌, ◌≤◌, ◌<◌, ◌≡◌, refl, sym, ap, ◌∙◌, Bool, true, ltb, leb, ◌&&◌, ◌==◌,
  if◌then◌else◌, Option, none, some, arith,
}
use aduana.MmapArray.{MmapArray, read, write}
use aduana.MmapArray.Bounds.{IsMapped, write-IsMapped, read-write, read-inside, idx_inside}
use aduana.Ranks.{Arith, float_at, add_up, change_all}

abbrev pub map_some : {A B : Type 0} → (A → B) → Option A → Option B
map_some f none = none
map_some f (some a) = some (f a)

-- `j` is one of the `k` pages from `i` on.
abbrev pub among : ℕ → ℕ → ℕ → Bool
among k i j = leb i j && ltb j (i + k)

pub ltb_intro : (i n : ℕ) → i < n → ltb i n ≡ true
ltb_intro i n h = ground (arith, h)

module _ (float : Arith) where
  pub float_at_inside :
      (marr : MmapArray float.Carrier) (i : ℕ)
      → i < marr.n_elements
      → float_at float marr i ≡ read marr i
  unfolding float_at
  float_at_inside marr i h = rw (float_at, idx_inside marr i (ltb_intro i marr.n_elements h)) refl

  pub float_at-some :
      (marr : MmapArray float.Carrier) (i : ℕ)
      → IsMapped marr
      → i < marr.n_elements
      → (x : float.Carrier) × (float_at float marr i ≡ some x) × (read marr i ≡ some x)
  float_at-some marr i m h =
      let (x, e) = read-inside marr i m h in (x, float_at_inside marr i h ∙ e, e)

  pub add_up_lem :
      (marr : MmapArray float.Carrier) (k i : ℕ) (sum : float.Carrier)
      → IsMapped marr
      → i + k ≤ marr.n_elements
      → (total : float.Carrier) × (add_up float marr k i sum ≡ some total)
  unfolding add_up
  add_up_lem marr zero i sum m h = (sum, refl)
  add_up_lem marr (suc k) i sum m h =
      let inside : i < marr.n_elements = omega (arith, h) in
      let (x, at, e) = float_at-some marr i m inside in
      rw (add_up, at) (add_up_lem marr k (i + 1) (float.add sum x) m (omega (arith, h)))

  -- The array after change_all.
  abbrev pub IsChanged :
      (float.Carrier → float.Carrier)
      → MmapArray float.Carrier
      → ℕ
      → ℕ
      → MmapArray float.Carrier
      → Type 0
  IsChanged f marr k i marr' =
      IsMapped marr'
      × (marr'.n_elements ≡ marr.n_elements)
      × ((j : ℕ) → read marr' j ≡ (if among k i j then map_some f (read marr j) else read marr j))

  change_step :
      (f : float.Carrier → float.Carrier) (k i j : ℕ) (x : float.Carrier)
      (old new new' : Option float.Carrier)
      → (i ≡ j → old ≡ some x)
      → new ≡ (if i == j then some (f x) else old)
      → new' ≡ (if among k (i + 1) j then map_some f new else new)
      → new' ≡ (if among (suc k) i j then map_some f old else old)
  change_step f k i j x old new new' h e e' = ground (arith, h, e, e')

  pub change_all_lem :
      (f : float.Carrier → float.Carrier) (marr : MmapArray float.Carrier) (k i : ℕ)
      → IsMapped marr
      → i + k ≤ marr.n_elements
      → (marr' : MmapArray float.Carrier) × (change_all float f marr k i ≡ some marr')
        × IsChanged f marr k i marr'
  unfolding change_all
  change_all_lem f marr zero i m h = (marr, refl, (m, refl, λ j. ground arith))
  change_all_lem f marr (suc k) i m h =
      let inside : i < marr.n_elements = omega (arith, h) in
      let (x, at, e) = float_at-some marr i m inside in
      let (m1, same) = write-IsMapped marr i (f x) m in
      let (marr', e', (m', same', reads)) =
        change_all_lem f (write marr i (f x)) k (i + 1) m1 (omega (arith, h, same)) in
      (
        marr',
        rw (change_all, at) e',
        (
          m',
          same' ∙ same,
          λ j.
              change_step f k i j x (read marr j) (read (write marr i (f x)) j) (read marr' j)
                (λ here. ap (read marr) (sym here) ∙ e) (read-write marr i j (f x) m inside)
                (reads j),
        ),
      )
