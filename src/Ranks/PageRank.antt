-- ===== src/Ranks/PageRank.antt =====
-- lib/src/page_rank.c: the PageRank scores of the pages of a link stream. Of an error value only the
-- code is kept.
use aduana.Common.{
  ℕ, zero, suc, ◌+◌, ◌*◌, Option, none, some, List, [], ◌∷◌, Bool, true, false, ltb, leb, not, ◌||◌,
  ◌&&◌, if◌then◌else◌,
}
use aduana.MmapArray.{
  System, MmapArray, MmapArrayError, is_ok, mmap_array_new, mmap_array_advise, mmap_array_zero,
  mmap_array_resize, mmap_array_idx, mmap_array_set, read, write, first_size,
}
use aduana.Ranks.{
  Arith, LinkAnswer, stream_state_init, stream_state_next, stream_state_end, stream_state_error,
  LinkStream, Run, returned, null_read, running, with_value, float_at, add_up, change_all,
  swap_step, madv_random, madv_sequential, madv_dontneed,
}
pub mod Compute
pub mod Rounds
pub mod Termination
mod Degrees
pub mod Iterate
mod Scores
mod Init
mod Safety
mod Runs

pub data PageRankError : Type 0 where
  page_rank_error_ok : PageRankError
  page_rank_error_memory : PageRankError
  page_rank_error_internal : PageRankError
  page_rank_error_precision : PageRankError

module _ (float : Arith) where
  pub record PageRank : Type 0 where
    pub out_degree : MmapArray float.Carrier
    pub value1 : MmapArray float.Carrier
    pub value2 : MmapArray float.Carrier
    pub n_pages : ℕ
    pub error : PageRankError
    pub damping : float.Carrier
    pub scores : Option (MmapArray float.Carrier)
    pub total_score : float.Carrier
    pub max_loops : ℕ
    pub precision : float.Carrier
    pub persist : Bool

  abbrev pub succeeds : PageRankError → Bool
  succeeds page_rank_error_ok = true
  succeeds _ = false

  -- `page_rank_set_error`, through `error_set`: the first error stays.
  unfoldable pub page_rank_set_error : PageRank → PageRankError → PageRank
  page_rank_set_error pr code = record pr { error = if succeeds pr.error then code else pr.error }

  abbrev pub put_out_degree : PageRank → MmapArray float.Carrier → PageRank
  put_out_degree pr marr = record pr { out_degree = marr }

  abbrev pub put_value1 : PageRank → MmapArray float.Carrier → PageRank
  put_value1 pr marr = record pr { value1 = marr }

  abbrev pub put_value2 : PageRank → MmapArray float.Carrier → PageRank
  put_value2 pr marr = record pr { value2 = marr }

  -- `on_error`: the error is set and the code that the state has is returned.
  unfoldable pub fail : PageRankError → PageRank → Run PageRankError PageRank
  unfolding page_rank_set_error
  fail code pr = let pr' = page_rank_set_error pr code in returned pr'.error pr'

  -- The next calls, where a function returned 0.
  unfoldable pub and_then :
      Run PageRankError PageRank
      → (PageRank → Run PageRankError PageRank)
      → Run PageRankError PageRank
  and_then (returned code pr) next = if succeeds code then next pr else returned code pr
  and_then null_read next = null_read
  and_then running next = running

  -- `if (mmap_array_...(...) != 0) goto on_error`, where the array is put back.
  unfoldable pub checked :
      MmapArrayError × MmapArray float.Carrier
      → (MmapArray float.Carrier → PageRank)
      → Run PageRankError PageRank
  unfolding fail
  checked (code, marr) put =
      if is_ok code
      then returned page_rank_error_ok (put marr)
      else fail page_rank_error_internal (put marr)

  -- page_rank_get: the old and the new score.
  unfoldable pub page_rank_get :
      PageRank → ℕ → PageRankError × Option (float.Carrier × float.Carrier)
  unfolding mmap_array_idx read
  page_rank_get pr idx =
      if not (ltb idx pr.value1.n_elements) || not (ltb idx pr.value2.n_elements)
      then (page_rank_error_internal, none)
      else (
        page_rank_error_ok,
        elim (read pr.value2 idx) [
          | none ↦ none
          | some old ↦ elim (read pr.value1 idx) [ none ↦ none | some new ↦ some (old, new) ]
        ],
      )

  unfoldable pub page_rank_set_persist : PageRank → Bool → PageRank
  page_rank_set_persist pr value = record pr {
    persist = value;
    out_degree = record pr.out_degree { persist = value };
    value1 = record pr.value1 { persist = value };
    value2 = record pr.value2 { persist = value };
  }

  -- The loop of page_rank_end_loop that adds the content scores, over `k` pages from `i` on.
  unfoldable pub add_scores :
      (float.Carrier → float.Carrier)
      → MmapArray float.Carrier
      → MmapArray float.Carrier
      → ℕ
      → ℕ
      → Option (MmapArray float.Carrier)
  unfolding float_at write read
  add_scores share scores value2 zero i = some value2
  add_scores share scores value2 (suc k) i =
      if not (ltb i scores.n_elements)
      then add_scores share scores value2 k (i + 1)
      else elim (read scores i) [
        | none ↦ none
        | some r ↦ elim (float_at float value2 i) [
          | none ↦ none
          | some score ↦
              add_scores share scores (write value2 i (float.add score (share r))) k (i + 1)
        ]
      ]

  -- The part of page_rank_end_loop that spreads what is missing to 1.
  unfoldable pub spread : PageRank → float.Carrier → Option (MmapArray float.Carrier)
  unfolding change_all add_scores
  spread pr rem = elim pr.scores [
    | none ↦
        let r = float.div rem (float.of_ℕ pr.n_pages) in
        change_all float (λ score. float.add score r) pr.value2 pr.n_pages 0
    | some scores ↦
        add_scores (λ r. float.div (float.mul rem r) pr.total_score) scores pr.value2 pr.n_pages 0
  ]

  -- The loop of page_rank_end_loop that finds the largest change and swaps the scores, over `k` pages
  -- from `i` on.
  unfoldable pub swap_loop :
      ℕ → ℕ → float.Carrier → PageRank → Run PageRankError (PageRank × float.Carrier)
  unfolding swap_step read page_rank_set_error with_value
  swap_loop zero i delta pr = returned page_rank_error_ok (pr, delta)
  swap_loop (suc k) i delta pr =
      let pr' = page_rank_set_error pr page_rank_error_internal in
      if ltb i pr.value1.n_elements && ltb i pr.value2.n_elements
      then with_value (read pr.value1 i) (λ score1. with_value (read pr.value2 i) λ score2.
        let (delta', v1, v2) = swap_step float delta pr.value1 pr.value2 i score1 score2 in
        swap_loop k (i + 1) delta' (record pr { value1 = v1; value2 = v2 }))
      else returned pr'.error (pr', delta)
