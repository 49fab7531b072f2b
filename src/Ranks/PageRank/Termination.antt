-- ===== src/Ranks/PageRank/Termination.antt =====
-- page_rank_compute comes to an end.
use aduana.Common.{
  ℕ, ◌+◌, ◌*◌, ◌≤◌, ◌≡◌, ◌≢◌, refl, Option, none, some, List, [], ◌∷◌, ltb, leb, Bool-cases, inl,
  inr, arith,
}
use aduana.MmapArray.{System, mmap_array_idx, mmap_array_advise, mmap_array_resize, read}
use aduana.Ranks.{
  Arith, LinkAnswer, stream_state_init, stream_state_next, stream_state_end, stream_state_error,
  LinkStream, Run, returned, null_read, running, add_up, change_all, madv_sequential,
}
use aduana.Ranks.PageRank.{
  PageRankError, page_rank_error_internal, PageRank, put_out_degree, put_value1, put_value2,
}
use aduana.Ranks.PageRank.Compute.{
  page_rank_expand, page_rank_set_n_pages, internal, include, count_from, count_at, count_links,
  total, renormalize, page_rank_init,
}
use aduana.Ranks.PageRank.Iterate.{start, page_rank_compute}
use aduana.Ranks.PageRank.Rounds.{
  IsOver, Goes, with_value-IsOver, fail-IsOver, and_then-IsOver, checked-IsOver, rounds-IsOver,
}

module _ (float : Arith) (sys : System float.Carrier) (m : ℕ) where
  -- The run is over, and `max_loops` is `m`.
  abbrev IsDone : Run PageRankError (PageRank float) → Type 0
  IsDone = IsOver (Goes float sys m)

  page_rank_set_n_pages-IsOver :
      (pr : PageRank float) (n_pages : ℕ)
      → pr.max_loops ≡ m
      → IsDone (page_rank_set_n_pages float sys pr n_pages)
  unfolding page_rank_set_n_pages page_rank_expand
  page_rank_set_n_pages-IsOver pr n_pages h =
      let pr' : PageRank float = record pr { n_pages = n_pages } in
      elim (Bool-cases (ltb pr.out_degree.n_elements n_pages)) [
        | inl e ↦ rw e (
            and_then-IsOver float sys m _ _
              (checked-IsOver float sys m
                (mmap_array_resize sys pr.out_degree (2 * pr.out_degree.n_elements))
                (put_out_degree float pr') (λ _. h))
              λ pr1 h1.
                and_then-IsOver float sys m _ _
                  (checked-IsOver float sys m
                    (mmap_array_resize sys pr1.value1 (2 * pr1.value1.n_elements))
                    (put_value1 float pr1) (λ _. h1))
                  λ pr2 h2.
                    checked-IsOver float sys m
                      (mmap_array_resize sys pr2.value2 (2 * pr2.value2.n_elements))
                      (put_value2 float pr2) (λ _. h2))
        | inr e ↦ rw e h
      ]

  internal-IsOver :
      (run : Run PageRankError (PageRank float)) → IsDone run → IsDone (internal float sys run)
  unfolding internal
  internal-IsOver (returned code pr) h = h
  internal-IsOver null_read h = h
  internal-IsOver running h = h

  include-IsOver :
      (pr : PageRank float) (page : ℕ) → pr.max_loops ≡ m → IsDone (include float sys pr page)
  unfolding include
  include-IsOver pr page h = elim (Bool-cases (leb pr.n_pages page)) [
    | inl e ↦ rw e (internal-IsOver _ (page_rank_set_n_pages-IsOver pr (page + 1) h))
    | inr e ↦ rw e h
  ]

  count_at-IsOver :
      (pr : PageRank float) (b : Option ℕ) → pr.max_loops ≡ m → IsDone (count_at float sys pr b)
  unfolding count_at
  count_at-IsOver pr none h = h
  count_at-IsOver pr (some b) h =
      with_value-IsOver {S = PageRank float} (Goes float sys m) (read pr.out_degree b) _ λ deg. h

  count_links-IsOver :
      (links : List LinkAnswer) (pr : PageRank float)
      → pr.max_loops ≡ m
      → IsDone (count_links float sys links pr)
  unfolding count_links count_from
  count_links-IsOver [] pr h = h
  count_links-IsOver (stream_state_init ∷ links) pr h = count_links-IsOver links pr h
  count_links-IsOver (stream_state_error ∷ links) pr h = h
  count_links-IsOver (stream_state_end ∷ links) pr h = h
  count_links-IsOver (stream_state_next from to ∷ links) pr h =
      and_then-IsOver float sys m _ _ (include-IsOver pr from h) λ pr1 h1.
        and_then-IsOver float sys m _ _ (include-IsOver pr1 to h1) λ pr2 h2.
          and_then-IsOver float sys m _ (count_links float sys links)
            (count_at-IsOver pr2 (mmap_array_idx pr2.out_degree from).0 h2)
            (count_links-IsOver links)

  page_rank_init-IsOver :
      (links : List LinkAnswer) (pr : PageRank float)
      → pr.max_loops ≡ m
      → IsDone (page_rank_init float sys links pr)
  unfolding page_rank_init renormalize
  page_rank_init-IsOver links pr h =
      let next = with_value-IsOver {S = PageRank float} (Goes float sys m) in
      and_then-IsOver float sys m _ _
        (checked-IsOver float sys m (mmap_array_advise sys pr.out_degree madv_sequential)
          (put_out_degree float pr) (λ _. h))
        λ pr1 h1. next (total float sys pr1) _ λ sum.
          and_then-IsOver float sys m (count_links float sys links _) _
            (count_links-IsOver links _ h1)
            λ pr2 h2.
              and_then-IsOver float sys m _ (renormalize float sys)
                (checked-IsOver float sys m (mmap_array_advise sys pr2.value1 madv_sequential)
                  (put_value1 float pr2) (λ _. h2))
                λ pr3 h3. next (add_up float pr3.value1 pr3.n_pages 0 float.nought) _ λ sum'.
                  with_value-IsOver {S = PageRank float} (Goes float sys m)
                    (change_all float (λ score. float.div score sum') pr3.value1 pr3.n_pages 0) _
                    λ value1. h3

  page_rank_compute-IsOver :
      (stream : LinkStream) (fuel : ℕ) (pr : PageRank float)
      → pr.max_loops ≡ m
      → 1 ≤ m
      → m ≤ fuel
      → IsDone (page_rank_compute float sys stream fuel pr)
  unfolding page_rank_compute start
  page_rank_compute-IsOver stream fuel pr h positive enough =
      and_then-IsOver float sys m _ _ (page_rank_init-IsOver (stream.pass 0) pr h)
        λ pr1 h1. first pr1 h1 (stream.reset 0)
    where
      first :
          (pr1 : PageRank float)
          → pr1.max_loops ≡ m
          → (answer : LinkAnswer) → IsDone (start float sys stream fuel pr1 answer)
      first pr1 h1 stream_state_init =
          rounds-IsOver float sys m fuel 0 stream _ pr1 (omega (arith, positive))
            (omega (arith, enough)) h1
      first pr1 h1 stream_state_end = h1
      first pr1 h1 (stream_state_next from to) =
          fail-IsOver float sys m page_rank_error_internal pr1 h1
      first pr1 h1 stream_state_error = fail-IsOver float sys m page_rank_error_internal pr1 h1

not_running : {E S : Type 0} (P : S → Type 0) (run : Run E S) → IsOver P run → run ≢ running
not_running P run h e = rw e at h

-- With `max_loops` of 1 or more, over a link stream each of whose passes ends, page_rank_compute
-- comes to an end in at most `max_loops` rounds, whatever the scores, the links and the answers of
-- the system are.
pub page_rank_compute_lem :
    (float : Arith) (sys : System float.Carrier) (stream : LinkStream) (fuel : ℕ)
    (pr : PageRank float)
    → 1 ≤ pr.max_loops
    → pr.max_loops ≤ fuel
    → page_rank_compute float sys stream fuel pr ≢ running
page_rank_compute_lem float sys stream fuel pr positive enough =
    not_running (Goes float sys pr.max_loops) (page_rank_compute float sys stream fuel pr)
      (page_rank_compute-IsOver float sys pr.max_loops stream fuel pr refl positive enough)
