-- ===== src/Ranks/PageRank/Safety.antt =====
-- The loops of page_rank_compute follow no NULL or unmapped pointer.
use aduana.Common.{
  ℕ, zero, suc, ◌≤◌, ◌≡◌, ◌≢◌, refl, ap, ◌∙◌, inl, inr, none, some, List, [], ◌∷◌, All, ◌==◌,
  Bool-cases, arith,
}
use aduana.MmapArray.{System, MmapArray, mmap_array_zero}
use aduana.MmapArray.Bounds.{
  IsMapped, write-IsMapped, IsAdvised, mmap_array_advise-ok, mmap_array_zero_lem, idx-cases,
}
use aduana.Ranks.{
  Arith, LinkAnswer, stream_state_init, stream_state_next, stream_state_end, stream_state_error,
  is_error, LinkStream, Run, returned, null_read, running, with_value, madv_random, madv_sequential,
}
use aduana.Ranks.Loops.{add_up_lem, change_all_lem}
use aduana.Ranks.PageRank.{
  PageRankError, PageRank, fail, succeeds, and_then, checked, put_value2, page_rank_set_error,
  spread,
}
use aduana.Ranks.PageRank.Iterate.{
  if_known, follow, follow_links, page_rank_loop, with_delta, page_rank_end_loop, end_round, round,
  rounds, start, page_rank_compute,
}
use aduana.Ranks.PageRank.Degrees.{IsLink}
use aduana.Ranks.PageRank.Init.{page_rank_init_lem}
use aduana.Ranks.PageRank.Scores.{swap_loop_lem}
use aduana.Ranks.PageRank.Termination.{page_rank_compute_lem}

-- The run follows no bad pointer, and `P` holds of the state where it returned.
abbrev Safely : {E S : Type 0} → (S → Type 0) → Run E S → Type 0
Safely P (returned code s) = P s
Safely P null_read = ⊥
Safely P running = Unit

module _ (float : Arith) (sys : System float.Carrier) where
  -- The arrays are mapped, both arrays of scores have room for every page, and there are no content
  -- scores.
  abbrev pub IsSound : PageRank float → Type 0
  IsSound pr =
      IsMapped pr.out_degree
      × IsMapped pr.value1
      × IsMapped pr.value2
      × (pr.n_pages ≤ pr.value1.n_elements)
      × (pr.n_pages ≤ pr.value2.n_elements)
      × (pr.scores ≡ none)

  and_then_safe :
      (run : Run PageRankError (PageRank float))
      (next : PageRank float → Run PageRankError (PageRank float))
      → Safely IsSound run
      → ((pr : PageRank float) → IsSound pr → Safely IsSound (next pr))
      → Safely IsSound (and_then float run next)
  unfolding and_then
  and_then_safe (returned code pr) next h h' = elim (Bool-cases (succeeds float code)) [
    | inl e ↦ rw e (h' pr h)
    | inr e ↦ rw e h
  ]
  and_then_safe null_read next h h' = elim h [ ]
  and_then_safe running next h h' = tt

  follow_safe :
      (pr : PageRank float) (from to : ℕ)
      → IsSound pr
      → Safely IsSound (follow float sys pr from to)
  unfolding follow if_known with_value
  follow_safe pr from to h =
      let (m, m1, m2, le1, le2, plain) = h in
      elim (idx-cases pr.out_degree from m) [
        | inl e ↦ rw e h
        | inr (links, e, at) ↦ elim (idx-cases pr.value1 from m1) [
          | inl e1 ↦ rw (e, if_known, e1) h
          | inr (score, e1, at1) ↦ elim (idx-cases pr.value2 to m2) [
            | inl e2 ↦ rw (e, if_known, e1, e2) h
            | inr (sum, e2, at2) ↦
                let sum' = float.add sum (float.div (float.mul pr.damping score) links) in
                let (m2', n2) = write-IsMapped pr.value2 to sum' m2 in
                rw (e, if_known, e1, e2, at1, with_value, at, at2)
                  (m, m1, m2', le1, omega (arith, le2, n2), plain)
          ]
        ]
      ]

  follow_links_safe :
      (links : List LinkAnswer) (pr : PageRank float)
      → IsSound pr
      → Safely IsSound (follow_links float sys links pr)
  unfolding follow_links fail page_rank_set_error
  follow_links_safe [] pr h = h
  follow_links_safe (stream_state_init ∷ links) pr h = follow_links_safe links pr h
  follow_links_safe (stream_state_error ∷ links) pr h = h
  follow_links_safe (stream_state_end ∷ links) pr h = h
  follow_links_safe (stream_state_next from to ∷ links) pr h =
      and_then_safe (follow float sys pr from to) (follow_links float sys links)
        (follow_safe pr from to h) (follow_links_safe links)

  module _ (advises : IsAdvised sys) where
    page_rank_loop_safe :
        (links : List LinkAnswer) (pr : PageRank float)
        → IsSound pr
        → Safely IsSound (page_rank_loop float sys links pr)
    unfolding page_rank_loop
    page_rank_loop_safe links pr (m, m1, m2, le1, le2, plain) =
        let (m2', n2, _) = mmap_array_zero_lem sys pr.value2 m2 in
        let pr' = put_value2 float pr (mmap_array_zero sys pr.value2) in
        let ok = λ (marr : MmapArray float.Carrier) (flag : ℕ).
          mmap_array_advise-ok sys marr flag advises in
        rw
          (
            page_rank_loop,
            ok pr.value2 madv_sequential,
            checked,
            and_then,
            ok pr.value1 madv_sequential,
            ok pr.out_degree madv_sequential,
            ok (mmap_array_zero sys pr.value2) madv_random,
          )
          (follow_links_safe links pr' (m, m1, m2', le1, omega (arith, le2, n2), plain))

    page_rank_end_loop_safe :
        (pr : PageRank float) (delta : float.Carrier)
        → IsSound pr
        → Safely
            (λ (s : PageRank float × float.Carrier). IsSound s.0)
            (page_rank_end_loop float sys pr delta)
    unfolding page_rank_end_loop spread
    page_rank_end_loop_safe pr delta (m, m1, m2, le1, le2, plain) =
        let (sum, summed) =
          add_up_lem float pr.value2 pr.n_pages 0 float.nought m2 (omega (arith, le2)) in
        let r = float.div (float.sub float.one sum) (float.of_ℕ pr.n_pages) in
        let (v2, changed, (m2', n2, _)) =
          change_all_lem float (λ score. float.add score r) pr.value2 pr.n_pages 0 m2
            (omega (arith, le2)) in
        let (pr', delta', e, (_, _, rest, n1'', n2''), (m1'', m2'', _, _)) =
          swap_loop_lem float pr.n_pages 0 float.nought (put_value2 float pr v2)
            (m1, m2', omega (arith, le1), omega (arith, le2, n2)) in
        let spread_out : spread float pr (float.sub float.one sum) ≡ some v2 =
          rw (spread, plain) changed in
        let pages : pr'.n_pages ≡ pr.n_pages = ap (λ (pr : PageRank float). pr.n_pages) rest in
        rw
          (
            page_rank_end_loop,
            mmap_array_advise-ok sys pr.value2 madv_sequential advises,
            checked,
            with_delta,
            summed,
            with_value,
            spread_out,
            e,
          )
          (
            rw (ap (λ (pr : PageRank float). pr.out_degree) rest) m,
            m1'',
            m2'',
            omega (arith, pages, n1'', le1),
            omega (arith, pages, n2'', n2, le2),
            ap (λ (pr : PageRank float). pr.scores) rest ∙ plain,
          )

    end_round_safe :
        (n : ℕ) (next : float.Carrier → PageRank float → Run PageRankError (PageRank float))
        (run : Run PageRankError (PageRank float × float.Carrier))
        → Safely (λ (s : PageRank float × float.Carrier). IsSound s.0) run
        → ((delta : float.Carrier) (pr : PageRank float)
            → IsSound pr
            → Safely IsSound (next delta pr))
        → Safely IsSound (end_round float sys n next run)
    unfolding end_round fail page_rank_set_error
    end_round_safe n next (returned code (pr, delta)) h h' =
        elim (Bool-cases (succeeds float code)) [
          | inl e ↦ elim (Bool-cases (suc n == pr.max_loops)) [
            | inl last ↦ rw (e, last) h
            | inr more ↦ rw (e, more) (h' delta pr h)
          ]
          | inr e ↦ rw e h
        ]
    end_round_safe n next null_read h h' = elim h [ ]
    end_round_safe n next running h h' = tt

    rounds_safe :
        (fuel n : ℕ) (stream : LinkStream) (delta : float.Carrier) (pr : PageRank float)
        → IsSound pr
        → Safely IsSound (rounds float sys stream fuel n delta pr)
    unfolding rounds round fail page_rank_set_error
    rounds_safe zero n stream delta pr h = elim (Bool-cases (float.greater delta pr.precision)) [
      | inl e ↦ rw e tt
      | inr e ↦ rw e h
    ]
    rounds_safe (suc fuel) n stream delta pr h =
        elim (Bool-cases (float.greater delta pr.precision)) [
          | inl e ↦ rw e (
              and_then_safe (page_rank_loop float sys (stream.pass (suc n)) pr) _
                (page_rank_loop_safe (stream.pass (suc n)) pr h)
                λ pr1 h1. elim (Bool-cases (is_error (stream.reset (suc n)))) [
                  | inl e' ↦ rw e' h1
                  | inr e' ↦ rw e' (
                      end_round_safe n (rounds float sys stream fuel (suc n))
                        (page_rank_end_loop float sys pr1 delta)
                        (page_rank_end_loop_safe pr1 delta h1)
                        λ delta' pr' h'. rounds_safe fuel (suc n) stream delta' pr' h')
                ])
          | inr e ↦ rw e h
        ]

    start_safe :
        (stream : LinkStream) (fuel : ℕ) (pr : PageRank float) (answer : LinkAnswer)
        → IsSound pr
        → Safely IsSound (start float sys stream fuel pr answer)
    unfolding start fail page_rank_set_error
    start_safe stream fuel pr stream_state_init h = rounds_safe fuel 0 stream _ pr h
    start_safe stream fuel pr stream_state_end h = h
    start_safe stream fuel pr (stream_state_next from to) h = h
    start_safe stream fuel pr stream_state_error h = h

  settled :
      (run : Run PageRankError (PageRank float))
      → Safely IsSound run
      → run ≢ running
      → (code : PageRankError) × (pr : PageRank float) × (run ≡ returned code pr) × IsSound pr
  settled (returned code pr) h h' = (code, pr, refl, h)
  settled null_read h h' = elim h [ ]
  settled running h h' = absurd (h' refl)

  -- Without content scores, where madvise succeeds, the arrays are mapped with room for every page
  -- and for the pages of the links of the first pass, and `max_loops` is 1 or more and no more than
  -- the fuel, page_rank_compute returns, whatever the later passes yield: it follows no NULL and no
  -- unmapped pointer, and the arrays that it leaves are mapped and have room for every page.
  pub page_rank_compute_total :
      (stream : LinkStream) (fuel : ℕ) (pr : PageRank float)
      → IsAdvised sys
      → IsSound pr
      → pr.out_degree.n_elements ≤ pr.value1.n_elements
      → pr.out_degree.n_elements ≤ pr.value2.n_elements
      → pr.n_pages ≤ pr.out_degree.n_elements
      → All (IsLink pr.out_degree.n_elements) (stream.pass 0)
      → 1 ≤ pr.max_loops
      → pr.max_loops ≤ fuel
      → (code : PageRankError) × (pr' : PageRank float) × (page_rank_compute float sys stream fuel
            pr
          ≡ returned code pr')
        × IsSound pr'
  unfolding page_rank_compute
  page_rank_compute_total stream fuel pr advises (m, m1, m2, le1, le2, plain) room1 room2 le all
        positive enough =
      let (pr', e, (_, m', m1', _, n1, same2, plain', le', _)) =
        page_rank_init_lem float sys (stream.pass 0) pr advises plain m m1 room1 le all in
      settled (page_rank_compute float sys stream fuel pr)
        (rw (page_rank_compute, e, and_then)
          (start_safe advises stream fuel pr' (stream.reset 0) (
            m',
            m1',
            rw same2 m2,
            omega (arith, le', n1, room1),
            omega
                (arith, le', room2, ap (λ (marr : MmapArray float.Carrier). marr.n_elements) same2),
            plain' ∙ plain,
          )))
        (page_rank_compute_lem float sys stream fuel pr positive enough)
