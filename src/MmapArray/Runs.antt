-- ===== src/MmapArray/Runs.antt =====
-- Arrays of numbers.
use aduana.Common.{ℕ, ◌≡◌, refl, true, ltb, ◌==◌, if◌then◌else◌, some, List, [], ◌∷◌, length, arith}
use aduana.MmapArray.{
  System, MmapArray, mmap_array_error_ok, mmap_array_error_out_of_bounds, mmap_array_new,
  mmap_array_set, mmap_array_resize, mmap_array_idx, mmap_array_set_error_out_of_bounds, first_size,
  write, set_elem, read, remap,
}
use aduana.MmapArray.Bounds.{IsMapped, mmap_array_set_lem}
use aduana.MmapArray.Resize.{IsNew, IsResized, mmap_array_new_lem, mmap_array_resize_lem}
use aduana.MmapArray.Plain.{plain_system, fit}

abbrev two : MmapArray ℕ
two = record {
  mem = some (7 ∷ 8 ∷ []);
  has_file = true;
  n_elements = 2;
  error = mmap_array_error_ok;
  persist = true;
}

abbrev sys : System ℕ
unfolding plain_system
sys = plain_system 0

two-IsMapped : (mem : List ℕ) × (two.mem ≡ some mem) × (length mem ≡ two.n_elements)
two-IsMapped = (7 ∷ 8 ∷ [], refl, refl)

-- A third element: set out of bounds, then after a resize.
late_set : (mmap_array_set two 2 9).0 ≡ mmap_array_error_out_of_bounds
unfolding mmap_array_set mmap_array_idx mmap_array_set_error_out_of_bounds write set_elem
late_set = refl

-- The error stays where the element is inside the bounds.
stale_error : (mmap_array_set (mmap_array_set two 2 9).1 1 9).0 ≡ mmap_array_error_out_of_bounds
unfolding mmap_array_set mmap_array_idx mmap_array_set_error_out_of_bounds write set_elem
stale_error = refl

doubled : (mmap_array_resize sys two 4).1.mem ≡ some (7 ∷ 8 ∷ 0 ∷ 0 ∷ [])
unfolding mmap_array_resize remap plain_system fit
doubled = refl

mmap_array_set_lem_example :
    let marr' = (mmap_array_set two 1 9).1 in
    IsMapped marr'
    × (marr'.n_elements ≡ 2)
    × ((mmap_array_set two 1 9).0 ≡ marr'.error)
    × (marr'.error ≡ (if ltb 1 2 then mmap_array_error_ok else mmap_array_error_out_of_bounds))
    × (read marr' 1 ≡ (if ltb 1 2 then if 1 == 1 then some 9 else read two 1 else read two 1))
mmap_array_set_lem_example = mmap_array_set_lem two 1 1 9 two-IsMapped

mmap_array_new_lem_example : IsNew sys (mmap_array_new sys true 0) (first_size sys 0)
mmap_array_new_lem_example = mmap_array_new_lem sys true 0

mmap_array_resize_lem_example : IsResized sys two 4 (mmap_array_resize sys two 4)
unfolding plain_system
mmap_array_resize_lem_example = mmap_array_resize_lem sys two 4 two-IsMapped (omega arith)
