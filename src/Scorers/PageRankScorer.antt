-- ===== src/Scorers/PageRankScorer.antt =====
-- lib/src/page_rank_scorer.c
use aduana.Common.{ℕ, Bool, false, Option, if◌then◌else◌, none, some}
use aduana.MmapArray.{System, MmapArray}
use aduana.Ranks.{Arith, LinkStream, Run, returned, null_read, running}
use aduana.Ranks.PageRank.{PageRank, PageRankError, succeeds, page_rank_get, page_rank_set_persist}
use aduana.Ranks.PageRank.Compute.{page_rank_new}
use aduana.Ranks.PageRank.Iterate.{page_rank_compute}
use aduana.Ranks.Delete.{Deleted, deleted, kept, page_rank_delete}
use aduana.Scorers.{ScorerError, scorer_error_ok, error_of, Scorer, no_scores, fail, update, judged}

module _ (float : Arith) (sys : System float.Carrier) where
  abbrev pub PageRankScorer : Type 0
  PageRankScorer = Scorer (PageRank float) float.Carrier

  unfoldable pub page_rank_scorer_set_persist : PageRankScorer → Bool → PageRankScorer
  page_rank_scorer_set_persist prs value = record prs {
    persist = value;
    ranking = page_rank_set_persist float prs.ranking value;
  }

  unfoldable pub page_rank_scorer_set_use_content_scores : PageRankScorer → Bool → PageRankScorer
  page_rank_scorer_set_use_content_scores prs value = record prs { use_content_scores = value }

  unfoldable pub page_rank_scorer_set_damping : PageRankScorer → float.Carrier → PageRankScorer
  page_rank_scorer_set_damping prs value = record prs {
    ranking = record prs.ranking { damping = value };
  }

  -- What follows `page_rank_new`.
  unfoldable pub end_new : Run PageRankError (PageRank float) → Run ScorerError PageRankScorer
  end_new (returned code pr) =
      let p : PageRankScorer = record {
        ranking = pr;
        scores = no_scores;
        use_content_scores = false;
        persist = false;
        error = scorer_error_ok;
      } in
      if succeeds float code
      then returned scorer_error_ok
          (page_rank_scorer_set_use_content_scores (page_rank_scorer_set_persist p false) false)
      else fail p
  end_new null_read = null_read
  end_new running = running

  -- The flags that `page_rank_scorer_new` has not set when it fails are `false` here.
  unfoldable pub page_rank_scorer_new :
      float.Carrier → float.Carrier → Run ScorerError PageRankScorer
  page_rank_scorer_new damping precision = end_new (page_rank_new float sys damping precision 1000)

  -- `page_rank_compute` with this pointer to the content scores.
  unfoldable pub compute :
      ℕ → LinkStream → Option (MmapArray float.Carrier) → PageRank float → Run Bool (PageRank float)
  compute fuel stream scores pr =
      judged (succeeds float)
        (page_rank_compute float sys stream fuel (record pr { scores = scores }))

  unfoldable pub page_rank_scorer_update :
      ℕ
      → Option LinkStream
      → Option (MmapArray float.Carrier)
      → PageRankScorer
      → Run ScorerError PageRankScorer
  page_rank_scorer_update fuel = update sys (compute fuel)

  unfoldable pub page_rank_scorer_add : PageRankScorer → float.Carrier
  page_rank_scorer_add prs = float.nought

  unfoldable pub page_rank_scorer_get :
      PageRankScorer → ℕ → PageRankError × Option (float.Carrier × float.Carrier)
  page_rank_scorer_get prs = page_rank_get float prs.ranking

  -- What follows `page_rank_delete`.
  unfoldable pub end_delete :
      PageRankScorer → Deleted (PageRank float) → ScorerError × Option PageRankScorer
  end_delete prs deleted = (scorer_error_ok, none)
  end_delete prs (kept n ranking) =
      (error_of prs.error, some (record prs { ranking = ranking; error = error_of prs.error }))

  -- `none` where the scorer was freed.
  unfoldable pub page_rank_scorer_delete : PageRankScorer → ScorerError × Option PageRankScorer
  page_rank_scorer_delete prs = end_delete prs (page_rank_delete float sys prs.ranking).1
