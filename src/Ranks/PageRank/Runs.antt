-- ===== src/Ranks/PageRank/Runs.antt =====
-- PageRank over two links, in whole numbers.
use aduana.Common.{ℕ, ◌-◌, ◌/◌, ◌≡◌, refl, true, false, none, some, List, [], ◌∷◌, arith}
use aduana.MmapArray.{
  System, MmapArray, mmap_array_error_ok, remap, all_zero, set_elem, mmap_array_advise,
  mmap_array_zero, mmap_array_resize, mmap_array_idx, mmap_array_set_error_out_of_bounds, read,
  write,
}
use aduana.MmapArray.Plain.{plain_system, fit}
use aduana.Ranks.{
  LinkAnswer, stream_state_init, stream_state_next, LinkStream, returned, null_read, add_up,
  with_value, float_at, change_all,
}
use aduana.Ranks.Plain.{whole_numbers}
use aduana.Ranks.PageRank.{PageRankError, page_rank_error_ok, PageRank, and_then, checked}
use aduana.Ranks.PageRank.Compute.{
  page_rank_init, total, count_links, renormalize, include, internal, page_rank_set_n_pages,
  page_rank_expand, count_from, count_at,
}
use aduana.Ranks.PageRank.Iterate.{page_rank_end_loop, page_rank_compute}
use aduana.Ranks.PageRank.Scores.{IsEnded, page_rank_end_loop_lem}
use aduana.Ranks.PageRank.Safety.{IsSound, page_rank_compute_total}
use aduana.Ranks.PageRank.Init.{IsInit, page_rank_init_lem}

abbrev array_of : List ℕ → ℕ → MmapArray ℕ
array_of xs n = record {
  mem = some xs;
  has_file = true;
  n_elements = n;
  error = mmap_array_error_ok;
  persist = true;
}

abbrev sys : System ℕ
unfolding plain_system
sys = plain_system 0

abbrev pr : PageRank whole_numbers
pr = record {
  out_degree = array_of (5 ∷ 5 ∷ []) 2;
  value1 = array_of (6 ∷ 2 ∷ []) 2;
  value2 = array_of (1 ∷ 0 ∷ []) 2;
  n_pages = 2;
  error = page_rank_error_ok;
  damping = 1;
  scores = none;
  total_score = 0;
  max_loops = 3;
  precision = 0;
  persist = false;
}

abbrev links : List LinkAnswer
links = stream_state_next 0 1 ∷ stream_state_next 1 0 ∷ stream_state_next 0 0 ∷ []

abbrev stream : LinkStream
stream = record { pass = λ _. links; reset = λ _. stream_state_init }

page_rank_init_lem_example :
    (pr' : PageRank whole_numbers) × (page_rank_init whole_numbers sys links pr
      ≡ returned page_rank_error_ok pr')
    × IsInit whole_numbers sys links pr pr'
unfolding sys
page_rank_init_lem_example =
    page_rank_init_lem whole_numbers sys links pr (λ size flag. refl) refl (5 ∷ 5 ∷ [], refl, refl)
      (6 ∷ 2 ∷ [], refl, refl) (omega arith) (omega arith)
      ((omega arith, omega arith), ((omega arith, omega arith), ((omega arith, omega arith), tt)))

page_rank_end_loop_lem_example :
    (sum : ℕ) × (pr' : PageRank whole_numbers) × (delta' : ℕ) × (add_up whole_numbers pr.value2 2 0
        0
      ≡ some sum)
    × (page_rank_end_loop whole_numbers sys pr 1 ≡ returned page_rank_error_ok (pr', delta'))
    × IsEnded whole_numbers pr ((1 - sum) / 2) pr'
    × (pr' ≡ record pr { value1 = pr'.value1; value2 = pr'.value2 })
unfolding sys
page_rank_end_loop_lem_example =
    page_rank_end_loop_lem whole_numbers sys pr 1
      ((6 ∷ 2 ∷ [], refl, refl), (1 ∷ 0 ∷ [], refl, refl), omega arith, omega arith) refl
      (λ size flag. refl)

page_rank_compute_total_example :
    (code : PageRankError) × (pr' : PageRank whole_numbers) × (page_rank_compute whole_numbers sys
        stream 3 pr
      ≡ returned code pr')
    × IsSound whole_numbers sys pr'
unfolding sys
page_rank_compute_total_example =
    page_rank_compute_total whole_numbers sys stream 3 pr (λ size flag. refl)
      (
        (5 ∷ 5 ∷ [], refl, refl),
        (6 ∷ 2 ∷ [], refl, refl),
        (1 ∷ 0 ∷ [], refl, refl),
        omega arith,
        omega arith,
        refl,
      )
      (omega arith) (omega arith) (omega arith)
      ((omega arith, omega arith), ((omega arith, omega arith), ((omega arith, omega arith), tt)))
      (omega arith) (omega arith)

-- The arrays are doubled once, to 4, and page 6 is past their end.
far_page : page_rank_init whole_numbers sys (stream_state_next 0 6 ∷ []) pr ≡ null_read
unfolding sys page_rank_init and_then checked mmap_array_advise mmap_array_zero with_value total
    add_up count_links renormalize include internal page_rank_set_n_pages page_rank_expand
    mmap_array_resize remap fit all_zero count_from count_at float_at mmap_array_idx
    mmap_array_set_error_out_of_bounds read write set_elem change_all
far_page = refl
