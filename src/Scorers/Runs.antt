-- ===== src/Scorers/Runs.antt =====
-- Scorers over a database with no links, in whole numbers, and the theorems there.
use aduana.Common.{ℕ, ◌≡◌, ◌≢◌, refl, arith, true, false, Option, none, some, List, [], ◌∷◌}
use aduana.MmapArray.{
  System, MmapArray, mmap_array_error_ok, mmap_array_advise, mmap_array_zero, mmap_array_idx,
  mmap_array_delete, all_zero, read,
}
use aduana.MmapArray.Plain.{plain_system}
use aduana.Ranks.{
  stream_state_init, LinkStream, returned, null_read, running, with_value, add_up, float_at,
  change_all,
}
use aduana.Ranks.Plain.{whole_numbers}
use aduana.Ranks.PageRank
use aduana.Ranks.PageRank.{
  PageRank, page_rank_error_ok, page_rank_error_precision, add_scores, spread, swap_loop,
}
use aduana.Ranks.PageRank.Compute.{page_rank_init, total, count_links, renormalize}
use aduana.Ranks.PageRank.Iterate
use aduana.Ranks.PageRank.Iterate.{
  page_rank_loop, page_rank_end_loop, page_rank_compute, with_delta, round, start,
}
use aduana.Ranks.Delete.{page_rank_delete, delete_arrays}
use aduana.Ranks.Hits
use aduana.Ranks.Hits.{Hits, hits_error_ok, hits_error_precision, hits_end_loop}
use aduana.Ranks.Hits.Compute
use aduana.Ranks.Hits.Compute.{hits_loop, hits_compute}
use aduana.Scorers.{
  scorer_error_ok, no_scores, deleted_scores, unmapped, delete_scores, end_update, with_scores,
  get_scores, update_over, update, judged,
}
use aduana.Scorers.PageRankScorer
use aduana.Scorers.PageRankScorer.{
  PageRankScorer, page_rank_scorer_set_use_content_scores, page_rank_scorer_update,
  page_rank_scorer_delete,
}
use aduana.Scorers.HitsScorer.{HitsScorer, hits_scorer_update}
use aduana.Scorers.Updates.{updates_end, stale_scores}

abbrev array_of : List ℕ → MmapArray ℕ
array_of xs = record {
  mem = some xs;
  has_file = true;
  n_elements = 2;
  error = mmap_array_error_ok;
  persist = true;
}

abbrev sys : System ℕ
unfolding plain_system
sys = plain_system 0

abbrev pr : ℕ → Option (MmapArray ℕ) → ℕ → PageRank whole_numbers
pr max_loops scores total_score = record {
  out_degree = array_of (0 ∷ 0 ∷ []);
  value1 = array_of (6 ∷ 2 ∷ []);
  value2 = array_of (0 ∷ 0 ∷ []);
  n_pages = 0;
  error = page_rank_error_ok;
  damping = 1;
  scores = scores;
  total_score = total_score;
  max_loops = max_loops;
  precision = 0;
  persist = false;
}

abbrev stream : LinkStream
stream = record { pass = λ _. []; reset = λ _. stream_state_init }

abbrev content : MmapArray ℕ
content = array_of (5 ∷ 7 ∷ [])

abbrev prs : PageRankScorer whole_numbers sys
prs = record {
  ranking = pr 3 none 12;
  scores = no_scores;
  use_content_scores = true;
  persist = false;
  error = scorer_error_ok;
}

abbrev updated : PageRankScorer whole_numbers sys
updated = record prs {
  ranking = pr 3 (some content) 12;
  scores = deleted_scores (unmapped content);
}

updates :
    page_rank_scorer_update whole_numbers sys 3 (some stream) (some content) prs
    ≡ returned scorer_error_ok updated
unfolding sys page_rank_scorer_update PageRankScorer.compute update update_over get_scores
    with_scores end_update delete_scores judged page_rank_compute page_rank_init PageRank.and_then
    PageRank.checked mmap_array_advise mmap_array_zero with_value total add_up float_at
    mmap_array_idx read count_links renormalize change_all start Iterate.rounds round page_rank_loop
    Iterate.follow_links page_rank_end_loop with_delta spread add_scores swap_loop Iterate.end_round
    mmap_array_delete all_zero
updates = refl

stale_scores_example :
    page_rank_scorer_update whole_numbers sys 3
      (some stream)
      none
      (page_rank_scorer_set_use_content_scores whole_numbers sys updated false)
    ≡ null_read
unfolding sys
stale_scores_example =
    stale_scores whole_numbers sys 3 (some stream) stream content none prs updated
      (λ size flag. refl) (omega arith) refl updates

abbrev hits : Hits whole_numbers
hits = record {
  h1 = array_of (0 ∷ 0 ∷ []);
  h2 = array_of (0 ∷ 0 ∷ []);
  a1 = array_of (0 ∷ 0 ∷ []);
  a2 = array_of (0 ∷ 0 ∷ []);
  n_pages = 0;
  error = hits_error_ok;
  scores = none;
  max_loops = 1;
  precision = 0;
  persist = false;
}

abbrev hs : HitsScorer whole_numbers sys
hs = record {
  ranking = hits;
  scores = no_scores;
  use_content_scores = false;
  persist = false;
  error = scorer_error_ok;
}

updates_end_example :
    (page_rank_scorer_update whole_numbers sys 3 none none prs ≢ running)
    × (hits_scorer_update whole_numbers sys 3 none none hs ≢ running)
updates_end_example =
    updates_end whole_numbers sys 3 none none prs hs (omega arith) (omega arith) (omega arith)
      (omega arith)

page_rank_misses :
    page_rank_compute whole_numbers sys stream 1 (pr 1 none 12)
    ≡ returned page_rank_error_precision
        (record (pr 1 none 1) { error = page_rank_error_precision })
unfolding sys page_rank_compute page_rank_init PageRank.and_then PageRank.checked PageRank.fail
    PageRank.page_rank_set_error mmap_array_advise mmap_array_zero with_value total add_up float_at
    mmap_array_idx read count_links renormalize change_all start Iterate.rounds round page_rank_loop
    Iterate.follow_links page_rank_end_loop with_delta spread add_scores swap_loop Iterate.end_round
    all_zero
page_rank_misses = refl

hits_misses : hits_compute whole_numbers sys stream 1 hits ≡ returned hits_error_precision hits
unfolding sys hits_compute Compute.rounds Hits.and_then hits_loop Compute.follow_links Hits.checked
    Hits.advised hits_end_loop Hits.null_score Hits.end_scores Hits.normalize Hits.total_score
    Compute.end_round mmap_array_advise mmap_array_zero all_zero with_value
hits_misses = refl

abbrev short_prs : PageRankScorer whole_numbers sys
short_prs = record prs { ranking = pr 1 none 12; use_content_scores = false }

deletes : page_rank_scorer_delete whole_numbers sys prs ≡ (scorer_error_ok, none)
unfolding sys page_rank_scorer_delete PageRankScorer.end_delete page_rank_delete delete_arrays
    mmap_array_delete
deletes = refl
