-- ===== src/Ranks/PageRank/Iterate.antt =====
-- lib/src/page_rank.c: page_rank_loop, page_rank_end_loop and page_rank_compute.
use aduana.Common.{ℕ, zero, suc, Option, none, some, List, [], ◌∷◌, ◌==◌, if◌then◌else◌}
use aduana.MmapArray.{System, mmap_array_advise, mmap_array_zero, mmap_array_idx, read, write}
use aduana.Ranks.{
  Arith, LinkAnswer, stream_state_init, stream_state_next, stream_state_end, stream_state_error,
  is_error, LinkStream, Run, returned, null_read, running, with_value, add_up, madv_random,
  madv_sequential,
}
use aduana.Ranks.PageRank.{
  PageRankError, page_rank_error_ok, page_rank_error_internal, page_rank_error_precision, PageRank,
  fail, succeeds, and_then, checked, put_out_degree, put_value1, put_value2, spread, swap_loop,
}
use aduana.Ranks.PageRank.Compute.{page_rank_init}

module _ (float : Arith) (sys : System float.Carrier) where
  -- A link is ignored where a pointer is NULL: `ignore links out of the known graph`.
  unfoldable pub if_known :
      PageRank float
      → Option ℕ
      → (ℕ → Run PageRankError (PageRank float))
      → Run PageRankError (PageRank float)
  if_known pr none next = returned page_rank_error_ok pr
  if_known pr (some b) next = next b

  -- What a link adds to the score of the page that it leads to.
  unfoldable pub follow : PageRank float → ℕ → ℕ → Run PageRankError (PageRank float)
  unfolding if_known mmap_array_idx read write with_value
  follow pr from to = if_known pr (mmap_array_idx pr.out_degree from).0 λ degree.
      if_known pr (mmap_array_idx pr.value1 from).0 λ value1.
        if_known pr (mmap_array_idx pr.value2 to).0 λ value2.
          with_value (read pr.value1 value1) λ score.
            with_value (read pr.out_degree degree) λ links.
              with_value (read pr.value2 value2) λ sum. returned page_rank_error_ok (record pr {
                value2 =
                    write pr.value2 value2
                      (float.add sum (float.div (float.mul pr.damping score) links));
              })

  -- The loop of page_rank_loop over the links.
  unfoldable pub follow_links :
      List LinkAnswer → PageRank float → Run PageRankError (PageRank float)
  unfolding and_then follow fail
  follow_links [] pr = returned page_rank_error_ok pr
  follow_links (stream_state_init ∷ links) pr = follow_links links pr
  follow_links (stream_state_error ∷ links) pr = fail float page_rank_error_internal pr
  follow_links (stream_state_end ∷ links) pr = returned page_rank_error_ok pr
  follow_links (stream_state_next from to ∷ links) pr =
      and_then float (follow pr from to) (follow_links links)

  unfoldable pub page_rank_loop :
      List LinkAnswer → PageRank float → Run PageRankError (PageRank float)
  unfolding and_then checked mmap_array_advise mmap_array_zero follow_links
  page_rank_loop links pr =
      and_then float
        (checked float (mmap_array_advise sys pr.value2 madv_sequential) (put_value2 float pr))
        λ pr1.
          and_then float
            (checked float (mmap_array_advise sys pr1.value1 madv_sequential)
              (put_value1 float (put_value2 float pr1 (mmap_array_zero sys pr1.value2))))
            λ pr2.
              and_then float
                (checked float (mmap_array_advise sys pr2.out_degree madv_sequential)
                  (put_out_degree float pr2))
                λ pr3.
                  and_then float
                    (checked float (mmap_array_advise sys pr3.value2 madv_random)
                      (put_value2 float pr3))
                    (follow_links links)

  -- The next calls, with `delta`, where a function returned 0.
  unfoldable pub with_delta :
      Run PageRankError (PageRank float)
      → float.Carrier
      → (PageRank float → Run PageRankError (PageRank float × float.Carrier))
      → Run PageRankError (PageRank float × float.Carrier)
  with_delta (returned code pr) delta next =
      if succeeds float code then next pr else returned code (pr, delta)
  with_delta null_read delta next = null_read
  with_delta running delta next = running

  -- The state and `delta`.
  unfoldable pub page_rank_end_loop :
      PageRank float → float.Carrier → Run PageRankError (PageRank float × float.Carrier)
  unfolding with_delta checked mmap_array_advise with_value add_up spread swap_loop
  page_rank_end_loop pr delta =
      with_delta
        (checked float (mmap_array_advise sys pr.value2 madv_sequential) (put_value2 float pr))
        delta
        λ pr1. with_value (add_up float pr1.value2 pr1.n_pages 0 float.nought) λ sum.
          with_value (spread float pr1 (float.sub float.one sum))
            λ value2. swap_loop float pr1.n_pages 0 float.nought (record pr1 { value2 = value2 })

  -- What follows page_rank_end_loop in a round.
  unfoldable pub end_round :
      ℕ
      → (float.Carrier → PageRank float → Run PageRankError (PageRank float))
      → Run PageRankError (PageRank float × float.Carrier)
      → Run PageRankError (PageRank float)
  unfolding fail
  end_round n_loops next (returned code (pr, delta)) =
      if succeeds float code
      then (if suc n_loops == pr.max_loops
          then fail float page_rank_error_precision pr
          else next delta pr)
      else returned code pr
  end_round n_loops next null_read = null_read
  end_round n_loops next running = running

  -- The body of the loop of page_rank_compute, and then `next`.
  unfoldable pub round :
      LinkStream
      → ℕ
      → (float.Carrier → PageRank float → Run PageRankError (PageRank float))
      → float.Carrier
      → PageRank float
      → Run PageRankError (PageRank float)
  unfolding and_then page_rank_loop fail page_rank_end_loop end_round
  round stream n_loops next delta pr =
      and_then float (page_rank_loop (stream.pass (suc n_loops)) pr) λ pr1.
        if is_error (stream.reset (suc n_loops))
        then fail float page_rank_error_internal pr1
        else end_round n_loops next (page_rank_end_loop pr1 delta)

  -- The loop of page_rank_compute, with fuel.
  unfoldable pub rounds :
      LinkStream → ℕ → ℕ → float.Carrier → PageRank float → Run PageRankError (PageRank float)
  unfolding round
  rounds stream zero n_loops delta pr =
      if float.greater delta pr.precision then running else returned page_rank_error_ok pr
  rounds stream (suc fuel) n_loops delta pr =
      if float.greater delta pr.precision
      then round stream n_loops (rounds stream fuel (suc n_loops)) delta pr
      else returned page_rank_error_ok pr

  -- The `switch` of page_rank_compute on the first answer of link_stream_reset.
  unfoldable pub start :
      LinkStream → ℕ → PageRank float → LinkAnswer → Run PageRankError (PageRank float)
  unfolding rounds fail
  start stream fuel pr stream_state_init =
      rounds stream fuel 0 (float.add pr.precision float.one) pr
  start stream fuel pr stream_state_end = returned page_rank_error_ok pr
  start stream fuel pr (stream_state_next from to) = fail float page_rank_error_internal pr
  start stream fuel pr stream_state_error = fail float page_rank_error_internal pr

  unfoldable pub page_rank_compute :
      LinkStream → ℕ → PageRank float → Run PageRankError (PageRank float)
  unfolding and_then page_rank_init start
  page_rank_compute stream fuel pr =
      and_then float (page_rank_init float sys (stream.pass 0) pr)
        λ pr1. start stream fuel pr1 (stream.reset 0)
