-- ===== src/Ranks/Hits/Rounds.antt =====
-- hits_compute comes to an end.
use aduana.Common.{
  ℕ, zero, suc, ◌+◌, ◌*◌, ◌≤◌, ◌<◌, ◌≡◌, ◌≢◌, refl, List, [], ◌∷◌, ltb, leb, ◌==◌, Bool-cases,
  Option-cases, inl, inr, arith,
}
use aduana.MmapArray.{
  System, MmapArray, MmapArrayError, is_ok, mmap_array_advise, mmap_array_zero, mmap_array_resize,
}
use aduana.Ranks.{
  Arith, LinkAnswer, stream_state_init, stream_state_next, stream_state_end, stream_state_error,
  is_error, LinkStream, Run, returned, null_read, running, madv_sequential,
}
use aduana.Ranks.PageRank.Rounds.{IsOver, with_value-IsOver}
use aduana.Ranks.Hits.{
  HitsError, hits_error_ok, succeeds, Hits, put_h1, put_h2, put_a1, put_a2, hits_set_error,
  and_then, checked, advised, gain, hub_gain, normalize, total_score, null_score, end_scores,
  hits_end_loop,
}
use aduana.Ranks.Hits.Compute.{
  hits_expand, hits_set_n_pages, internal, include, follow, follow_links, hits_loop, end_round,
  rounds, hits_compute,
}

module _ (float : Arith) (sys : System float.Carrier) (m : ℕ) where
  -- `max_loops` is `m`.
  abbrev Goes : Hits float → Type 0
  Goes hits = hits.max_loops ≡ m

  abbrev GoesToo : Hits float × float.Carrier → Type 0
  GoesToo s = Goes s.0

  and_then-IsOver :
      (run : Run HitsError (Hits float)) (next : Hits float → Run HitsError (Hits float))
      → IsOver Goes run
      → ((hits : Hits float) → Goes hits → IsOver Goes (next hits))
      → IsOver Goes (and_then float run next)
  unfolding and_then
  and_then-IsOver (returned code hits) next h h' = elim (Bool-cases (succeeds code)) [
    | inl e ↦ rw e (h' hits h)
    | inr e ↦ rw e h
  ]
  and_then-IsOver null_read next h h' = tt
  and_then-IsOver running next h h' = elim h [ ]

  checked-IsOver :
      (answer : MmapArrayError × MmapArray float.Carrier)
      (put : MmapArray float.Carrier → Hits float)
      → ((marr : MmapArray float.Carrier) → Goes (put marr))
      → IsOver Goes (checked float answer put)
  unfolding checked hits_set_error
  checked-IsOver (code, marr) put h = elim (Bool-cases (is_ok code)) [
    | inl e ↦ rw e (h marr)
    | inr e ↦ rw e (h marr)
  ]

  hits_set_n_pages-IsOver :
      (hits : Hits float) (n_pages : ℕ)
      → Goes hits
      → IsOver Goes (hits_set_n_pages float sys hits n_pages)
  unfolding hits_set_n_pages hits_expand
  hits_set_n_pages-IsOver hits n_pages h =
      let double =
        λ (marr : MmapArray float.Carrier). mmap_array_resize sys marr (2 * marr.n_elements) in
      let hits' : Hits float = record hits { n_pages = n_pages } in
      elim (Bool-cases (ltb hits.h1.n_elements n_pages)) [
        | inl e ↦ rw e (
            and_then-IsOver _ _ (checked-IsOver (double hits.h1) (put_h1 float hits') (λ _. h))
              λ p1 k1.
                and_then-IsOver _ _ (checked-IsOver (double p1.h2) (put_h2 float p1) (λ _. k1))
                  λ p2 k2.
                    and_then-IsOver _ _ (checked-IsOver (double p2.a1) (put_a1 float p2) (λ _. k2))
                      λ p3 k3. checked-IsOver (double p3.a2) (put_a2 float p3) (λ _. k3))
        | inr e ↦ rw e h
      ]

  internal-IsOver :
      (run : Run HitsError (Hits float)) → IsOver Goes run → IsOver Goes (internal float sys run)
  unfolding internal
  internal-IsOver (returned code hits) h = h
  internal-IsOver null_read h = h
  internal-IsOver running h = h

  include-IsOver :
      (hits : Hits float) (page : ℕ) → Goes hits → IsOver Goes (include float sys hits page)
  unfolding include
  include-IsOver hits page h = elim (Bool-cases (leb hits.n_pages page)) [
    | inl e ↦ rw e (internal-IsOver _ (hits_set_n_pages-IsOver hits (page + 1) h))
    | inr e ↦ rw e h
  ]

  follow-IsOver :
      (from to : ℕ) (hits : Hits float) → Goes hits → IsOver Goes (follow float sys from to hits)
  unfolding follow
  follow-IsOver from to hits h =
      with_value-IsOver {S = Hits float} Goes (hub_gain float hits from to) _ λ h2.
        with_value-IsOver {S = Hits float} Goes (gain float (λ s1. s1) hits.a2 to hits.h1 from) _
          λ a2. h

  follow_links-IsOver :
      (links : List LinkAnswer) (hits : Hits float)
      → Goes hits
      → IsOver Goes (follow_links float sys links hits)
  unfolding follow_links
  follow_links-IsOver [] hits h = h
  follow_links-IsOver (stream_state_init ∷ links) hits h = follow_links-IsOver links hits h
  follow_links-IsOver (stream_state_error ∷ links) hits h = h
  follow_links-IsOver (stream_state_end ∷ links) hits h = h
  follow_links-IsOver (stream_state_next from to ∷ links) hits h =
      and_then-IsOver _ _ (include-IsOver hits from h) λ p1 k1.
        and_then-IsOver _ _ (include-IsOver p1 to k1) λ p2 k2.
          and_then-IsOver _ (follow_links float sys links) (follow-IsOver from to p2 k2)
            (follow_links-IsOver links)

  hits_loop-IsOver :
      (links : List LinkAnswer) (hits : Hits float)
      → Goes hits
      → IsOver Goes (hits_loop float sys links hits)
  unfolding hits_loop advised
  hits_loop-IsOver links hits h =
      and_then-IsOver
        (advised float (mmap_array_advise sys hits.h2 madv_sequential) (put_h2 float hits)) _ h
        λ p1 k1.
          and_then-IsOver
            (advised float (mmap_array_advise sys p1.a2 madv_sequential)
              (put_a2 float (put_h2 float p1 (mmap_array_zero sys p1.h2))))
            _ k1 λ p2 k2. follow_links-IsOver links (put_a2 float p2 (mmap_array_zero sys p2.a2)) k2

  end_scores-IsOver :
      (hits : Hits float) (delta : float.Carrier) (s1 s2 : MmapArray float.Carrier)
      (put : MmapArray float.Carrier → MmapArray float.Carrier → Hits float)
      (next : float.Carrier → Hits float → Run HitsError (Hits float × float.Carrier))
      → Goes hits
      → ((s1 s2 : MmapArray float.Carrier) → Goes (put s1 s2))
      → ((delta : float.Carrier) (hits : Hits float) → Goes hits → IsOver GoesToo (next delta hits))
      → IsOver GoesToo (end_scores float hits delta s1 s2 put next)
  unfolding end_scores null_score hits_set_error
  end_scores-IsOver hits delta s1 s2 put next h h' h'' =
      elim (Option-cases (total_score float s2 hits.n_pages 0 float.nought)) [
        | inl e ↦ rw (end_scores, e) h
        | inr (added, e) ↦
            rw (end_scores, e)
              (with_value-IsOver {S = Hits float × float.Carrier} GoesToo added _ λ sum.
                with_value-IsOver {S = Hits float × float.Carrier} GoesToo
                  (normalize float sum hits.n_pages 0 delta s1 s2) _
                  λ result.
                    let (complete, delta', s1', s2') = result in
                    elim (Bool-cases complete) [
                      | inl all ↦ rw all (h'' delta' (put s1' s2') (h' s1' s2'))
                      | inr cut ↦ rw cut (h' s1' s2')
                    ])
      ]

  hits_end_loop-IsOver : (hits : Hits float) → Goes hits → IsOver GoesToo (hits_end_loop float hits)
  unfolding hits_end_loop
  hits_end_loop-IsOver hits h =
      let last : float.Carrier → Hits float → Run HitsError (Hits float × float.Carrier) =
        λ delta p2. returned hits_error_ok (p2, delta) in
      let auths : float.Carrier → Hits float → Run HitsError (Hits float × float.Carrier) =
        λ delta p1.
          end_scores float p1 delta p1.a1 p1.a2 (λ a1 a2. record p1 { a1 = a1; a2 = a2 }) last in
      end_scores-IsOver hits float.nought hits.h1 hits.h2
        (λ h1 h2. record hits { h1 = h1; h2 = h2 }) auths h (λ _ _. h)
        λ delta p1 k1.
          end_scores-IsOver p1 delta p1.a1 p1.a2 (λ a1 a2. record p1 { a1 = a1; a2 = a2 }) last k1
            (λ _ _. k1) λ delta' p2 k2. k2

  end_round-IsOver :
      (n : ℕ) (next : float.Carrier → Hits float → Run HitsError (Hits float))
      (run : Run HitsError (Hits float × float.Carrier))
      → IsOver GoesToo run
      → (suc n ≢ m
          → (delta : float.Carrier) (hits : Hits float) → Goes hits
          → IsOver Goes (next delta hits))
      → IsOver Goes (end_round float sys n next run)
  unfolding end_round
  end_round-IsOver n next (returned code (hits, delta)) h h' = elim (Bool-cases (succeeds code)) [
    | inl e ↦ elim (Bool-cases (suc n == hits.max_loops)) [
      | inl last ↦ rw (e, last) h
      | inr more ↦ rw (e, more) (h' (ground (arith, more, h)) delta hits h)
    ]
    | inr e ↦ rw e h
  ]
  end_round-IsOver n next null_read h h' = tt
  end_round-IsOver n next running h h' = elim h [ ]

  rounds-IsOver :
      (fuel n : ℕ) (stream : LinkStream) (delta : float.Carrier) (hits : Hits float)
      → n < m
      → m ≤ n + fuel
      → Goes hits
      → IsOver Goes (rounds float sys stream fuel n delta hits)
  unfolding rounds
  rounds-IsOver zero n stream delta hits lt le h = absurd (omega (arith, lt, le))
  rounds-IsOver (suc fuel) n stream delta hits lt le h =
      elim (Bool-cases (float.greater delta hits.precision)) [
        | inl e ↦ rw e (
            and_then-IsOver (hits_loop float sys (stream.pass n) hits) _
              (hits_loop-IsOver (stream.pass n) hits h)
              λ p1 k1. elim (Bool-cases (is_error (stream.reset n))) [
                | inl bad ↦ rw bad k1
                | inr good ↦ rw good (
                    end_round-IsOver n (rounds float sys stream fuel (suc n))
                      (hits_end_loop float p1) (hits_end_loop-IsOver p1 k1)
                      λ more delta' p2 k2.
                        rounds-IsOver fuel (suc n) stream delta' p2 (omega (arith, lt, more))
                          (omega (arith, le)) k2)
              ])
        | inr e ↦ rw e h
      ]

-- With `max_loops` of 1 or more, over a link stream each of whose passes ends, hits_compute comes to an
-- end in at most `max_loops` rounds, whatever the scores, the links and the answers of the system are.
pub hits_compute_lem :
    (float : Arith) (sys : System float.Carrier) (stream : LinkStream) (fuel : ℕ)
    (hits : Hits float)
    → 1 ≤ hits.max_loops
    → hits.max_loops ≤ fuel
    → hits_compute float sys stream fuel hits ≢ running
unfolding hits_compute
hits_compute_lem float sys stream fuel hits positive enough e =
    let over =
      rounds-IsOver float sys hits.max_loops fuel 0 stream (float.add hits.precision float.one) hits
        (omega (arith, positive)) (omega (arith, enough)) refl in
    rw e at over
