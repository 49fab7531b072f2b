-- ===== src/Ranks/PageRank/Compute.antt =====
-- lib/src/page_rank.c: page_rank_new, the loops over the links, and page_rank_compute.
use aduana.Common.{
  ℕ, zero, suc, ◌+◌, ◌*◌, Option, none, some, List, [], ◌∷◌, true, false, ltb, leb, if◌then◌else◌,
}
use aduana.MmapArray.{
  System, MmapArray, MmapArrayError, mmap_array_error_ok, is_ok, mmap_array_new, mmap_array_advise,
  mmap_array_zero, mmap_array_resize, mmap_array_idx, mmap_array_set, read, write,
}
use aduana.Ranks.{
  Arith, LinkAnswer, stream_state_init, stream_state_next, stream_state_end, stream_state_error,
  Run, returned, null_read, running, with_value, add_up, change_all, madv_sequential, madv_dontneed,
}
use aduana.Ranks.PageRank.{
  PageRankError, page_rank_error_ok, page_rank_error_internal, PageRank, fail, succeeds, and_then,
  checked, put_out_degree, put_value1, put_value2,
}

module _ (float : Arith) (sys : System float.Carrier) where
  -- The loop of page_rank_new that gives `k` elements from `i` on the same score.
  unfoldable pub set_all :
      float.Carrier → ℕ → ℕ → MmapArray float.Carrier → MmapArrayError × MmapArray float.Carrier
  unfolding mmap_array_set
  set_all v0 zero i marr = (mmap_array_error_ok, marr)
  set_all v0 (suc k) i marr =
      let (code, marr') = mmap_array_set marr i v0 in
      let (code', marr'') = set_all v0 k (i + 1) marr' in
      if is_ok code then (code', marr'') else (code, marr')

  -- page_rank_new, with the default damping and precision as parameters. An array that is not made
  -- yet when an error is returned is one of which nothing is mapped.
  unfoldable pub page_rank_new :
      float.Carrier → float.Carrier → ℕ → Run PageRankError (PageRank float)
  unfolding checked and_then set_all mmap_array_new mmap_array_advise fail
  page_rank_new damping precision max_vertices =
      let unmade : MmapArray float.Carrier = record {
        mem = none;
        has_file = false;
        n_elements = 0;
        error = mmap_array_error_ok;
        persist = false;
      } in
      let p : PageRank float = record {
        out_degree = unmade;
        value1 = unmade;
        value2 = unmade;
        n_pages = 0;
        error = page_rank_error_ok;
        damping = damping;
        scores = none;
        total_score = float.nought;
        max_loops = 100;
        precision = precision;
        persist = false;
      } in
      and_then float (checked float (mmap_array_new sys true max_vertices) (put_out_degree float p))
        λ p1.
          and_then float
            (checked float (mmap_array_new sys true max_vertices) (put_value1 float p1))
            λ p2.
              and_then float
                (checked float (mmap_array_new sys false max_vertices) (put_value2 float p2))
                λ p3.
                  and_then float
                    (checked float (mmap_array_advise sys p3.value1 madv_sequential)
                      (put_value1 float p3))
                    λ p4.
                      let v0 = float.div float.one (float.of_ℕ p4.value1.n_elements) in
                      and_then float
                        (checked float (set_all v0 p4.value1.n_elements 0 p4.value1)
                          (put_value1 float p4))
                        λ p5.
                          checked float (mmap_array_advise sys p5.value1 madv_dontneed)
                            (put_value1 float p5)

  unfoldable pub page_rank_expand : PageRank float → Run PageRankError (PageRank float)
  unfolding checked and_then mmap_array_resize
  page_rank_expand pr =
      and_then float
        (checked float (mmap_array_resize sys pr.out_degree (2 * pr.out_degree.n_elements))
          (put_out_degree float pr))
        λ pr1.
          and_then float
            (checked float (mmap_array_resize sys pr1.value1 (2 * pr1.value1.n_elements))
              (put_value1 float pr1))
            λ pr2.
              checked float (mmap_array_resize sys pr2.value2 (2 * pr2.value2.n_elements))
                (put_value2 float pr2)

  unfoldable pub page_rank_set_n_pages : PageRank float → ℕ → Run PageRankError (PageRank float)
  unfolding page_rank_expand
  page_rank_set_n_pages pr n_pages =
      let pr' : PageRank float = record pr { n_pages = n_pages } in
      if ltb pr.out_degree.n_elements n_pages
      then page_rank_expand pr'
      else returned page_rank_error_ok pr'

  -- `if (page >= n_pages) if (page_rank_set_n_pages(pr, page + 1) != 0) return ..._internal`
  unfoldable pub internal : Run PageRankError (PageRank float) → Run PageRankError (PageRank float)
  internal (returned code pr) =
      returned (if succeeds float code then code else page_rank_error_internal) pr
  internal null_read = null_read
  internal running = running

  unfoldable pub include : PageRank float → ℕ → Run PageRankError (PageRank float)
  unfolding internal page_rank_set_n_pages
  include pr page =
      if leb pr.n_pages page
      then internal (page_rank_set_n_pages pr (page + 1))
      else returned page_rank_error_ok pr

  -- `if (!deg) return page_rank_error_internal; ++(*deg);`
  unfoldable pub count_at : PageRank float → Option ℕ → Run PageRankError (PageRank float)
  unfolding read write with_value
  count_at pr none = returned page_rank_error_internal pr
  count_at pr (some b) = with_value (read pr.out_degree b) λ deg.
      returned page_rank_error_ok
        (put_out_degree float pr (write pr.out_degree b (float.add deg float.one)))

  unfoldable pub count_from : PageRank float → ℕ → Run PageRankError (PageRank float)
  unfolding mmap_array_idx count_at
  count_from pr from = count_at pr (mmap_array_idx pr.out_degree from).0

  -- The loop of page_rank_init over the links.
  unfoldable pub count_links : List LinkAnswer → PageRank float → Run PageRankError (PageRank float)
  unfolding and_then include count_from
  count_links [] pr = returned page_rank_error_ok pr
  count_links (stream_state_init ∷ links) pr = count_links links pr
  count_links (stream_state_error ∷ links) pr = returned page_rank_error_internal pr
  count_links (stream_state_end ∷ links) pr = returned page_rank_error_ok pr
  count_links (stream_state_next from to ∷ links) pr = and_then float (include pr from) λ pr1.
      and_then float (include pr1 to)
        λ pr2. and_then float (count_from pr2 from) (count_links links)

  -- `total_score` of page_rank_init.
  unfoldable pub total : PageRank float → Option float.Carrier
  unfolding add_up
  total pr = elim pr.scores [
    | none ↦ some float.nought
    | some scores ↦ add_up float scores scores.n_elements 0 float.nought
  ]

  -- The last loops of page_rank_init.
  unfoldable pub renormalize : PageRank float → Run PageRankError (PageRank float)
  unfolding with_value add_up change_all
  renormalize pr = with_value (add_up float pr.value1 pr.n_pages 0 float.nought) λ sum.
      with_value (change_all float (λ score. float.div score sum) pr.value1 pr.n_pages 0)
        λ value1. returned page_rank_error_ok (record pr { value1 = value1 })

  unfoldable pub page_rank_init :
      List LinkAnswer → PageRank float → Run PageRankError (PageRank float)
  unfolding and_then checked mmap_array_advise mmap_array_zero with_value total count_links
      renormalize
  page_rank_init links pr =
      and_then float
        (checked float (mmap_array_advise sys pr.out_degree madv_sequential)
          (put_out_degree float pr))
        λ pr1. with_value (total pr1) λ sum.
          and_then float
            (count_links links (record pr1 {
              out_degree = mmap_array_zero sys pr1.out_degree;
              total_score = if float.is_nought sum then float.one else sum;
            }))
            λ pr2.
              and_then float
                (checked float (mmap_array_advise sys pr2.value1 madv_sequential)
                  (put_value1 float pr2))
                renormalize
