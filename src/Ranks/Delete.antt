-- ===== src/Ranks/Delete.antt =====
-- Deleting the arrays of a ranking, as page_rank_delete (lib/src/page_rank.c) and hits_delete
-- (lib/src/hits.c) do, one behind the other up to the first failure.
use aduana.Common.{ℕ, ◌+◌, ltb, if◌then◌else◌, List, [], ◌∷◌}
use aduana.MmapArray.{System, MmapArray, is_ok, mmap_array_delete}
use aduana.Ranks.{Arith}
use aduana.Ranks.PageRank.{
  PageRankError, page_rank_error_ok, page_rank_error_internal, PageRank, page_rank_set_error,
}
use aduana.Ranks.Hits.{HitsError, hits_error_ok, hits_error_internal, Hits, hits_set_error}

-- How many of the arrays were deleted.
unfoldable pub delete_arrays : {A : Type 0} → System A → List (MmapArray A) → ℕ
delete_arrays sys [] = 0
delete_arrays sys (marr ∷ arrays) =
    let rest = delete_arrays sys arrays in
    if is_ok (mmap_array_delete sys marr).0 then rest + 1 else 0

-- A ranking that was deleted with its arrays, or one that keeps its pointers, of whose arrays so many
-- were deleted.
pub data Deleted (R : Type 0) : Type 0 where
  deleted : Deleted R
  kept : ℕ → R → Deleted R

module _ (float : Arith) (sys : System float.Carrier) where
  unfoldable pub page_rank_delete : PageRank float → PageRankError × Deleted (PageRank float)
  page_rank_delete pr =
      let n = delete_arrays sys (pr.out_degree ∷ pr.value1 ∷ pr.value2 ∷ []) in
      let failed = page_rank_set_error float pr page_rank_error_internal in
      if ltb n 3 then (failed.error, kept n failed) else (page_rank_error_ok, deleted)

  unfoldable pub hits_delete : Hits float → HitsError × Deleted (Hits float)
  hits_delete hits =
      let n = delete_arrays sys (hits.h1 ∷ hits.h2 ∷ hits.a1 ∷ hits.a2 ∷ []) in
      let failed = hits_set_error float hits hits_error_internal in
      if ltb n 4 then (failed.error, kept n failed) else (hits_error_ok, deleted)
