-- ===== src/Scorers.antt =====
-- What lib/src/page_rank_scorer.c and lib/src/hits_scorer.c share: a ranking of the pages, brought up
-- to date from the links of the database and, where this is set, from the content scores.
use aduana.Common.{Bool, true, false, Option, none, some, if◌then◌else◌}
use aduana.MmapArray.{System, MmapArray, mmap_array_delete, is_ok}
use aduana.Ranks.{LinkStream, Run, returned, null_read, running}
pub mod PageRankScorer
pub mod HitsScorer
mod Updates
mod Runs

pub data ScorerError : Type 0 where
  scorer_error_ok : ScorerError
  scorer_error_memory : ScorerError
  scorer_error_internal : ScorerError
  scorer_error_precision : ScorerError

-- The pointer to the content scores: NULL, an array, or an array that was deleted, whose elements are
-- not mapped any more.
pub data Scores (A : Type 0) : Type 0 where
  no_scores : Scores A
  live_scores : MmapArray A → Scores A
  deleted_scores : MmapArray A → Scores A

-- Of the error only the code is kept. `ranking` is the PageRank or the HITS value, but its pointer to
-- the content scores, which is `scores`.
pub record Scorer (R A : Type 0) : Type 0 where
  pub ranking : R
  pub scores : Scores A
  pub use_content_scores : Bool
  pub persist : Bool
  pub error : ScorerError

-- `error_set` with the internal error: the first error stays.
unfoldable pub error_of : ScorerError → ScorerError
error_of scorer_error_ok = scorer_error_internal
error_of e = e

-- Whether the computation counts as a success.
unfoldable pub judged : {E R : Type 0} → (E → Bool) → Run E R → Run Bool R
judged accept (returned code r) = returned (accept code) r
judged accept null_read = null_read
judged accept running = running

abbrev pub unmapped : {A : Type 0} → MmapArray A → MmapArray A
unmapped marr = record marr { mem = none }

module _ {R A : Type 0} where
  -- From the label `on_error` on.
  unfoldable pub fail : Scorer R A → Run ScorerError (Scorer R A)
  fail s = returned (error_of s.error) (record s { error = error_of s.error })

  abbrev pub put_scores : Scorer R A → Scores A → Scorer R A
  put_scores s scores = record s { scores = scores }

  abbrev pub put_ranking : Scorer R A → R → Scorer R A
  put_ranking s r = record s { ranking = r }

  -- `mmap_array_delete` of the content scores, where they are used, and the return of 0.
  unfoldable pub delete_scores : System A → Scorer R A → Scores A → Run ScorerError (Scorer R A)
  delete_scores sys s (live_scores marr) =
      if is_ok (mmap_array_delete sys marr).0
      then returned scorer_error_ok (put_scores s (deleted_scores (unmapped marr)))
      else fail s
  delete_scores sys s no_scores = null_read
  delete_scores sys s (deleted_scores marr) = null_read

  -- What follows the computation: whether it counts as a success, and the ranking.
  unfoldable pub end_update : System A → Scorer R A → Run Bool R → Run ScorerError (Scorer R A)
  end_update sys s (returned true r) =
      if s.use_content_scores
      then delete_scores sys (put_ranking s r) s.scores
      else returned scorer_error_ok (put_ranking s r)
  end_update sys s (returned false r) = fail (put_ranking s r)
  end_update sys s null_read = null_read
  end_update sys s running = running

  -- The computation on the pointer to the content scores.
  unfoldable pub with_scores : Scores A → (Option (MmapArray A) → Run Bool R) → Run Bool R
  with_scores no_scores compute = compute none
  with_scores (live_scores marr) compute = compute (some marr)
  with_scores (deleted_scores marr) compute = compute (some marr)

  -- `page_db_get_scores`, where it is called: `content` is the new array, or `none` on an error.
  unfoldable pub get_scores :
      Scorer R A
      → Option (MmapArray A)
      → (Scorer R A → Run ScorerError (Scorer R A))
      → Run ScorerError (Scorer R A)
  get_scores s none next = fail s
  get_scores s (some marr) next = next (put_scores s (live_scores marr))

  -- The update over a stream of links.
  unfoldable pub update_over :
      System A
      → (Option (MmapArray A) → R → Run Bool R)
      → Option (MmapArray A)
      → Scorer R A
      → Run ScorerError (Scorer R A)
  update_over sys compute content s =
      let run : Scorer R A → Run ScorerError (Scorer R A) =
        λ t. end_update sys t (with_scores t.scores (λ scores. compute scores t.ranking)) in
      if s.use_content_scores then get_scores s content run else run s

  -- `page_db_link_stream_new`, which answers a stream or an error.
  unfoldable pub update :
      System A
      → (LinkStream → Option (MmapArray A) → R → Run Bool R)
      → Option LinkStream
      → Option (MmapArray A)
      → Scorer R A
      → Run ScorerError (Scorer R A)
  update sys compute none content s = fail s
  update sys compute (some stream) content s = update_over sys (compute stream) content s
