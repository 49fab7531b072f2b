-- ===== src/Scorers/Updates.antt =====
-- The updates of the scorers of lib/src/page_rank_scorer.c and lib/src/hits_scorer.c.
use mathlib.Core.Path.{subst}
use aduana.Common.{
  ℕ, zero, suc, ltb, arith, ◌≤◌, ◌≡◌, ◌≢◌, refl, Bool, true, false, Bool-cases, inl, inr,
  if◌then◌else◌, Option, none, some,
}
use aduana.MmapArray.{
  System, MmapArray, mmap_array_delete, is_ok, mmap_array_advise, mmap_array_idx, read,
}
use aduana.MmapArray.Bounds.{IsAdvised}
use aduana.Ranks.{
  with_value, add_up, float_at, Arith, LinkStream, Run, returned, null_read, running,
}
use aduana.Ranks.PageRank.{PageRank, succeeds}
use aduana.Ranks.PageRank.{and_then, checked}
use aduana.Ranks.PageRank.Compute.{page_rank_init, total}
use aduana.Ranks.PageRank.Iterate.{page_rank_compute}
use aduana.Ranks.PageRank.Termination.{page_rank_compute_lem}
use aduana.Ranks.Hits.Rounds.{hits_compute_lem}
use aduana.Scorers.{
  ScorerError, scorer_error_ok, scorer_error_memory, scorer_error_internal, scorer_error_precision,
  Scorer, Scores, no_scores, live_scores, deleted_scores, error_of, fail, put_scores, put_ranking,
  delete_scores, end_update, with_scores, get_scores, update_over, update, judged, unmapped,
}
use aduana.Scorers.PageRankScorer
use aduana.Scorers.HitsScorer
use aduana.Scorers.PageRankScorer.{
  PageRankScorer, page_rank_scorer_set_use_content_scores, page_rank_scorer_update,
}
use aduana.Scorers.HitsScorer.{HitsScorer, accepts, hits_scorer_update}

-- What holds of the state where an update returns 0.
abbrev pub OnSuccess : {S : Type 0} → (S → Type 0) → Run ScorerError S → Type 0
OnSuccess P (returned scorer_error_ok s) = P s
OnSuccess P _ = Unit {0}

module _ {R A : Type 0} (sys : System A) where
  abbrev HasDeleted : MmapArray A → Scorer R A → Type 0
  HasDeleted marr s = s.scores ≡ deleted_scores (unmapped marr)

  fail-OnSuccess : (P : Scorer R A → Type 0) (s : Scorer R A) → OnSuccess P (fail s)
  unfolding fail error_of
  fail-OnSuccess P s = on_code s.error
    where
      on_code :
          (e : ScorerError)
          → OnSuccess P (returned (error_of e) (record s { error = error_of s.error }))
      on_code scorer_error_ok = tt
      on_code scorer_error_memory = tt
      on_code scorer_error_internal = tt
      on_code scorer_error_precision = tt

  if-OnSuccess :
      (P : Scorer R A → Type 0) (b : Bool) (x y : Run ScorerError (Scorer R A))
      → b ≡ true
      → OnSuccess P x
      → OnSuccess P (if b then x else y)
  if-OnSuccess P b x y t h = rw t h

  delete_scores-OnSuccess :
      (marr : MmapArray A) (s : Scorer R A)
      → OnSuccess (HasDeleted marr) (delete_scores sys s (live_scores marr))
  unfolding delete_scores
  delete_scores-OnSuccess marr s = elim (Bool-cases (is_ok (mmap_array_delete sys marr).0)) [
    | inl t ↦ rw t refl
    | inr f ↦ rw f (fail-OnSuccess (HasDeleted marr) s)
  ]

  -- An update with content scores that returns 0 leaves the pointer to the deleted scores.
  end_update-OnSuccess :
      (marr : MmapArray A) (s : Scorer R A) (r : Run Bool R)
      → s.use_content_scores ≡ true
      → OnSuccess (HasDeleted marr) (end_update sys (put_scores s (live_scores marr)) r)
  unfolding end_update
  end_update-OnSuccess marr s (returned true r) u =
      let t = put_ranking (put_scores s (live_scores marr)) r in
      if-OnSuccess (HasDeleted marr) s.use_content_scores (delete_scores sys t (live_scores marr)) _
        u (delete_scores-OnSuccess marr t)
  end_update-OnSuccess marr s (returned false r) u =
      fail-OnSuccess (HasDeleted marr) (put_ranking (put_scores s (live_scores marr)) r)
  end_update-OnSuccess marr s null_read u = tt
  end_update-OnSuccess marr s running u = tt

  update-OnSuccess :
      (compute : LinkStream → Option (MmapArray A) → R → Run Bool R) (stream : Option LinkStream)
      (marr : MmapArray A) (s : Scorer R A)
      → s.use_content_scores ≡ true
      → OnSuccess (HasDeleted marr) (update sys compute stream (some marr) s)
  unfolding update update_over get_scores
  update-OnSuccess compute none marr s u = fail-OnSuccess (HasDeleted marr) s
  update-OnSuccess compute (some stream) marr s u =
      let t = put_scores s (live_scores marr) in
      let run = with_scores t.scores (λ scores. compute stream scores t.ranking) in
      if-OnSuccess (HasDeleted marr) s.use_content_scores (end_update sys t run) _ u
        (end_update-OnSuccess marr s run u)

  -- Without content scores an update runs on the pointer that is there.
  update_deleted :
      (compute : LinkStream → Option (MmapArray A) → R → Run Bool R) (stream : LinkStream)
      (content : Option (MmapArray A)) (s : Scorer R A) (marr : MmapArray A)
      → s.use_content_scores ≡ false
      → s.scores ≡ deleted_scores marr
      → compute stream (some marr) s.ranking ≡ null_read
      → update sys compute (some stream) content s ≡ null_read
  unfolding update update_over end_update with_scores
  update_deleted compute stream content s marr u d e = rw (update_over, u, d, e) refl

  -- An update runs out of fuel only where its computation does.
  fail_ends : (s : Scorer R A) → fail s ≢ running
  unfolding fail
  fail_ends s e = cc e

  if_ends :
      (b : Bool) (x y : Run ScorerError (Scorer R A))
      → x ≢ running
      → y ≢ running
      → (if b then x else y) ≢ running
  if_ends true x y p q = p
  if_ends false x y p q = q

  delete_ends : (s : Scorer R A) (scores : Scores A) → delete_scores sys s scores ≢ running
  unfolding delete_scores
  delete_ends s (live_scores marr) =
      if_ends (is_ok (mmap_array_delete sys marr).0) _ (fail s) (λ e. cc e) (fail_ends s)
  delete_ends s no_scores = λ e. cc e
  delete_ends s (deleted_scores marr) = λ e. cc e

  end_ends : (s : Scorer R A) (r : Run Bool R) → r ≢ running → end_update sys s r ≢ running
  unfolding end_update
  end_ends s (returned true r) h =
      if_ends s.use_content_scores (delete_scores sys (put_ranking s r) s.scores) _
        (delete_ends (put_ranking s r) s.scores) (λ e. cc e)
  end_ends s (returned false r) h = fail_ends (put_ranking s r)
  end_ends s null_read h = λ e. cc e
  end_ends s running h = absurd (h refl)

  with_scores_ends :
      (scores : Scores A) (compute : Option (MmapArray A) → Run Bool R)
      → ((given : Option (MmapArray A)) → compute given ≢ running)
      → with_scores {R = R} scores compute ≢ running
  unfolding with_scores
  with_scores_ends no_scores compute h = h none
  with_scores_ends (live_scores marr) compute h = h (some marr)
  with_scores_ends (deleted_scores marr) compute h = h (some marr)

  update_ends :
      (compute : LinkStream → Option (MmapArray A) → R → Run Bool R) (stream : Option LinkStream)
      (content : Option (MmapArray A)) (s : Scorer R A)
      → ((st : LinkStream) (scores : Option (MmapArray A)) → compute st scores s.ranking ≢ running)
      → update sys compute stream content s ≢ running
  unfolding update update_over get_scores with_scores
  update_ends compute none content s h = fail_ends s
  update_ends compute (some stream) content s h =
      let run : Scorer R A → Run ScorerError (Scorer R A) =
        λ t. end_update sys t (with_scores t.scores (λ scores. compute stream scores t.ranking)) in
      if_ends s.use_content_scores (get_scores s content run) (run s) (given content) (
        end_ends s (with_scores s.scores (λ scores. compute stream scores s.ranking))
          (with_scores_ends s.scores (λ scores. compute stream scores s.ranking) (h stream)))
    where
      given :
          (c : Option (MmapArray A))
          → get_scores s c (λ t.
            end_update sys t (with_scores t.scores (λ scores. compute stream scores t.ranking)))
            ≢ running
      given none = fail_ends s
      given (some marr) =
          end_ends (put_scores s (live_scores marr)) (compute stream (some marr) s.ranking)
            (h stream (some marr))

judged_ends :
    {E R : Type 0} (accept : E → Bool) (r : Run E R) → r ≢ running → judged accept r ≢ running
unfolding judged
judged_ends accept (returned code r) h = λ e. cc e
judged_ends accept null_read h = λ e. cc e
judged_ends accept running h = absurd (h refl)

module _ (float : Arith) (sys : System float.Carrier) where
  -- With `max_loops` of 1 or more and no more than the fuel, the updates of both scorers come to an
  -- end, whatever the links, the content scores and the answers of the system are.
  pub updates_end :
      (fuel : ℕ) (stream : Option LinkStream) (content : Option (MmapArray float.Carrier))
      (prs : PageRankScorer float sys) (hs : HitsScorer float sys)
      → 1 ≤ prs.ranking.max_loops
      → prs.ranking.max_loops ≤ fuel
      → 1 ≤ hs.ranking.max_loops
      → hs.ranking.max_loops ≤ fuel
      → (page_rank_scorer_update float sys fuel stream content prs ≢ running)
        × (hits_scorer_update float sys fuel stream content hs ≢ running)
  unfolding page_rank_scorer_update PageRankScorer.compute hits_scorer_update HitsScorer.compute
  updates_end fuel stream content prs hs p1 p2 h1 h2 = (
    update_ends sys (PageRankScorer.compute float sys fuel) stream content prs (λ st scores.
        judged_ends (succeeds float) _
          (page_rank_compute_lem float sys st fuel (record prs.ranking { scores = scores }) p1 p2)),
    update_ends sys (HitsScorer.compute float sys fuel) stream content hs (λ st scores.
        judged_ends accepts _
          (hits_compute_lem float sys st fuel (record hs.ranking { scores = scores }) h1 h2)),
  )

  no_sum :
      (marr : MmapArray float.Carrier) (n : ℕ)
      → 1 ≤ n
      → 1 ≤ marr.n_elements
      → add_up float (unmapped marr) n 0 float.nought ≡ none
  unfolding add_up float_at mmap_array_idx read
  no_sum marr zero p h = absurd (omega (arith, p))
  no_sum marr (suc n) p h =
      let inside : ltb 0 marr.n_elements ≡ true = ground (arith, h) in
      rw (add_up, float_at, mmap_array_idx, inside) refl

  -- PageRank over content scores that are not mapped.
  unmapped_scores :
      (fuel : ℕ) (stream : LinkStream) (pr : PageRank float) (marr : MmapArray float.Carrier)
      → IsAdvised sys
      → 1 ≤ marr.n_elements
      → page_rank_compute float sys stream fuel (record pr { scores = some (unmapped marr) })
        ≡ null_read
  unfolding page_rank_compute page_rank_init and_then checked mmap_array_advise with_value total
  unmapped_scores fuel stream pr marr advised h =
      rw (advised, total, no_sum marr marr.n_elements h h) refl

  -- Where madvise succeeds: after an update with one content score or more that returned 0, an update
  -- without content scores follows a pointer into the array that was deleted.
  pub stale_scores :
      (fuel : ℕ) (first : Option LinkStream) (second : LinkStream) (marr : MmapArray float.Carrier)
      (content : Option (MmapArray float.Carrier)) (prs t : PageRankScorer float sys)
      → IsAdvised sys
      → 1 ≤ marr.n_elements
      → prs.use_content_scores ≡ true
      → page_rank_scorer_update float sys fuel first (some marr) prs ≡ returned scorer_error_ok t
      → page_rank_scorer_update float sys fuel
          (some second)
          content
          (page_rank_scorer_set_use_content_scores float sys t false)
        ≡ null_read
  unfolding page_rank_scorer_update page_rank_scorer_set_use_content_scores PageRankScorer.compute
      judged
  stale_scores fuel first second marr content prs t advised h u e =
      update_deleted sys (PageRankScorer.compute float sys fuel) second content
        (record t { use_content_scores = false }) (unmapped marr) refl
        (subst (OnSuccess (λ s. s.scores ≡ deleted_scores (unmapped marr))) e
          (update-OnSuccess sys (PageRankScorer.compute float sys fuel) first marr prs u))
        (rw (unmapped_scores fuel second t.ranking marr advised h) refl)
