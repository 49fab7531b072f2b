-- ===== src/Scorers/HitsScorer.antt =====
-- lib/src/hits_scorer.c
use aduana.Common.{ℕ, Bool, true, false, Option, if◌then◌else◌, none, some}
use aduana.MmapArray.{System, MmapArray}
use aduana.Ranks.{Arith, LinkStream, Run, returned, null_read, running}
use aduana.Ranks.Hits.{
  Hits, HitsError, hits_error_ok, hits_error_precision, succeeds, hits_get_authority,
  hits_set_persist,
}
use aduana.Ranks.Hits.Compute.{hits_new, hits_compute}
use aduana.Ranks.Delete.{Deleted, deleted, kept, hits_delete}
use aduana.Scorers.{ScorerError, scorer_error_ok, error_of, Scorer, no_scores, fail, update, judged}

-- `if (herr == hits_error_precision) herr = 0;`
unfoldable pub accepts : HitsError → Bool
accepts hits_error_ok = true
accepts hits_error_precision = true
accepts _ = false

module _ (float : Arith) (sys : System float.Carrier) where
  abbrev pub HitsScorer : Type 0
  HitsScorer = Scorer (Hits float) float.Carrier

  unfoldable pub hits_scorer_set_persist : HitsScorer → Bool → HitsScorer
  hits_scorer_set_persist hs value = record hs {
    persist = value;
    ranking = hits_set_persist float hs.ranking value;
  }

  unfoldable pub hits_scorer_set_use_content_scores : HitsScorer → Bool → HitsScorer
  hits_scorer_set_use_content_scores hs value = record hs { use_content_scores = value }

  -- What follows `hits_new`.
  unfoldable pub end_new : Run HitsError (Hits float) → Run ScorerError HitsScorer
  end_new (returned code hits) =
      let p : HitsScorer = record {
        ranking = hits;
        scores = no_scores;
        use_content_scores = false;
        persist = false;
        error = scorer_error_ok;
      } in
      if succeeds code then returned scorer_error_ok p else fail p
  end_new null_read = null_read
  end_new running = running

  unfoldable pub hits_scorer_new : float.Carrier → Run ScorerError HitsScorer
  hits_scorer_new precision = end_new (hits_new float sys precision 1000)

  -- `hits_compute` with this pointer to the content scores.
  unfoldable pub compute :
      ℕ → LinkStream → Option (MmapArray float.Carrier) → Hits float → Run Bool (Hits float)
  compute fuel stream scores hits =
      judged accepts (hits_compute float sys stream fuel (record hits { scores = scores }))

  unfoldable pub hits_scorer_update :
      ℕ
      → Option LinkStream
      → Option (MmapArray float.Carrier)
      → HitsScorer
      → Run ScorerError HitsScorer
  hits_scorer_update fuel = update sys (compute fuel)

  unfoldable pub hits_scorer_add : HitsScorer → float.Carrier
  hits_scorer_add hs = float.nought

  unfoldable pub hits_scorer_get :
      HitsScorer → ℕ → HitsError × Option (float.Carrier × float.Carrier)
  hits_scorer_get hs = hits_get_authority float hs.ranking

  -- What follows `hits_delete`.
  unfoldable pub end_delete : HitsScorer → Deleted (Hits float) → ScorerError × Option HitsScorer
  end_delete hs deleted = (scorer_error_ok, none)
  end_delete hs (kept n ranking) =
      (error_of hs.error, some (record hs { ranking = ranking; error = error_of hs.error }))

  -- `none` where the scorer was freed.
  unfoldable pub hits_scorer_delete : HitsScorer → ScorerError × Option HitsScorer
  hits_scorer_delete hs = end_delete hs (hits_delete float sys hs.ranking).1
