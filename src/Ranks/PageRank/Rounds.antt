-- ===== src/Ranks/PageRank/Rounds.antt =====
-- How often page_rank_compute goes round.
use aduana.Common.{
  ℕ, zero, suc, ◌+◌, ◌≤◌, ◌<◌, ◌≡◌, ◌≢◌, Option, none, some, List, [], ◌∷◌, ltb, ◌==◌, ◌&&◌,
  Bool-cases, inl, inr, arith,
}
use aduana.MmapArray.{
  System, MmapArray, MmapArrayError, is_ok, mmap_array_idx, read, mmap_array_advise,
  mmap_array_zero,
}
use aduana.Ranks.{
  Arith, LinkAnswer, stream_state_init, stream_state_next, stream_state_end, stream_state_error,
  is_error, LinkStream, Run, returned, null_read, running, with_value, add_up, madv_random,
  madv_sequential, swap_step,
}
use aduana.Ranks.PageRank.{
  PageRankError, page_rank_error_internal, page_rank_error_precision, PageRank, page_rank_set_error,
  fail, succeeds, and_then, checked, put_out_degree, put_value1, put_value2, spread, swap_loop,
}
use aduana.Ranks.PageRank.Iterate.{
  if_known, follow, follow_links, page_rank_loop, with_delta, page_rank_end_loop, end_round, round,
  rounds,
}

-- The run is over, and `P` holds of the state where it returned.
abbrev pub IsOver : {E S : Type 0} → (S → Type 0) → Run E S → Type 0
IsOver P (returned code s) = P s
IsOver P null_read = Unit
IsOver P running = ⊥

pub with_value-IsOver :
    {E S A : Type 0} (P : S → Type 0) (value : Option A) (next : A → Run E S)
    → ((a : A) → IsOver P (next a))
    → IsOver P (with_value value next)
unfolding with_value
with_value-IsOver P none next h = tt
with_value-IsOver P (some a) next h = h a

module _ (float : Arith) (sys : System float.Carrier) where
  -- `max_loops` is `m`.
  abbrev pub Goes : ℕ → PageRank float → Type 0
  Goes m pr = pr.max_loops ≡ m

  pub fail-IsOver :
      (m : ℕ) (code : PageRankError) (pr : PageRank float)
      → Goes m pr
      → IsOver (Goes m) (fail float code pr)
  unfolding fail page_rank_set_error
  fail-IsOver m code pr h = h

  pub and_then-IsOver :
      (m : ℕ) (run : Run PageRankError (PageRank float))
      (next : PageRank float → Run PageRankError (PageRank float))
      → IsOver (Goes m) run
      → ((pr : PageRank float) → Goes m pr → IsOver (Goes m) (next pr))
      → IsOver (Goes m) (and_then float run next)
  unfolding and_then
  and_then-IsOver m (returned code pr) next h h' = elim (Bool-cases (succeeds float code)) [
    | inl e ↦ rw e (h' pr h)
    | inr e ↦ rw e h
  ]
  and_then-IsOver m null_read next h h' = tt
  and_then-IsOver m running next h h' = elim h [ ]

  pub checked-IsOver :
      (m : ℕ) (answer : MmapArrayError × MmapArray float.Carrier)
      (put : MmapArray float.Carrier → PageRank float)
      → ((marr : MmapArray float.Carrier) → Goes m (put marr))
      → IsOver (Goes m) (checked float answer put)
  unfolding checked
  checked-IsOver m (code, marr) put h = elim (Bool-cases (is_ok code)) [
    | inl e ↦ rw e (h marr)
    | inr e ↦ rw e (fail-IsOver m page_rank_error_internal (put marr) (h marr))
  ]

  if_known-IsOver :
      (m : ℕ) (pr : PageRank float) (b : Option ℕ) (next : ℕ → Run PageRankError (PageRank float))
      → Goes m pr
      → ((n : ℕ) → IsOver (Goes m) (next n))
      → IsOver (Goes m) (if_known float sys pr b next)
  unfolding if_known
  if_known-IsOver m pr none next h h' = h
  if_known-IsOver m pr (some n) next h h' = h' n

  follow-IsOver :
      (m : ℕ) (pr : PageRank float) (from to : ℕ)
      → Goes m pr
      → IsOver (Goes m) (follow float sys pr from to)
  unfolding follow
  follow-IsOver m pr from to h =
      let known = if_known-IsOver m pr in
      let value = with_value-IsOver {S = PageRank float} (Goes m) in
      known (mmap_array_idx pr.out_degree from).0 _ h λ degree.
        known (mmap_array_idx pr.value1 from).0 _ h λ value1.
          known (mmap_array_idx pr.value2 to).0 _ h λ value2.
            value (read pr.value1 value1) _ λ score.
              value (read pr.out_degree degree) _ λ links. value (read pr.value2 value2) _ λ sum. h

  follow_links-IsOver :
      (m : ℕ) (links : List LinkAnswer) (pr : PageRank float)
      → Goes m pr
      → IsOver (Goes m) (follow_links float sys links pr)
  unfolding follow_links
  follow_links-IsOver m [] pr h = h
  follow_links-IsOver m (stream_state_init ∷ links) pr h = follow_links-IsOver m links pr h
  follow_links-IsOver m (stream_state_error ∷ links) pr h =
      fail-IsOver m page_rank_error_internal pr h
  follow_links-IsOver m (stream_state_end ∷ links) pr h = h
  follow_links-IsOver m (stream_state_next from to ∷ links) pr h =
      and_then-IsOver m (follow float sys pr from to) (follow_links float sys links)
        (follow-IsOver m pr from to h) (follow_links-IsOver m links)

  page_rank_loop-IsOver :
      (m : ℕ) (links : List LinkAnswer) (pr : PageRank float)
      → Goes m pr
      → IsOver (Goes m) (page_rank_loop float sys links pr)
  unfolding page_rank_loop
  page_rank_loop-IsOver m links pr h =
      and_then-IsOver m _ _
        (checked-IsOver m (mmap_array_advise sys pr.value2 madv_sequential) (put_value2 float pr)
          (λ _. h))
        λ pr1 h1.
          and_then-IsOver m _ _
            (checked-IsOver m (mmap_array_advise sys pr1.value1 madv_sequential)
              (put_value1 float (put_value2 float pr1 (mmap_array_zero sys pr1.value2))) (λ _. h1))
            λ pr2 h2.
              and_then-IsOver m _ _
                (checked-IsOver m (mmap_array_advise sys pr2.out_degree madv_sequential)
                  (put_out_degree float pr2) (λ _. h2))
                λ pr3 h3.
                  and_then-IsOver m _ (follow_links float sys links)
                    (checked-IsOver m (mmap_array_advise sys pr3.value2 madv_random)
                      (put_value2 float pr3) (λ _. h3))
                    λ pr4 h4. follow_links-IsOver m links pr4 h4

  abbrev GoesToo : ℕ → PageRank float × float.Carrier → Type 0
  GoesToo m s = Goes m s.0

  swap_loop-IsOver :
      (m k i : ℕ) (delta : float.Carrier) (pr : PageRank float)
      → Goes m pr
      → IsOver (GoesToo m) (swap_loop float k i delta pr)
  unfolding swap_loop page_rank_set_error swap_step
  swap_loop-IsOver m zero i delta pr h = h
  swap_loop-IsOver m (suc k) i delta pr h =
      let value = with_value-IsOver {S = PageRank float × float.Carrier} (GoesToo m) in
      elim (Bool-cases (ltb i pr.value1.n_elements && ltb i pr.value2.n_elements)) [
        | inl e ↦ rw e (
            value (read pr.value1 i) _
              λ score1. value (read pr.value2 i) _ λ score2. swap_loop-IsOver m k (i + 1) _ _ h)
        | inr e ↦ rw e h
      ]

  with_delta-IsOver :
      (m : ℕ) (run : Run PageRankError (PageRank float)) (delta : float.Carrier)
      (next : PageRank float → Run PageRankError (PageRank float × float.Carrier))
      → IsOver (Goes m) run
      → ((pr : PageRank float) → Goes m pr → IsOver (GoesToo m) (next pr))
      → IsOver (GoesToo m) (with_delta float sys run delta next)
  unfolding with_delta
  with_delta-IsOver m (returned code pr) delta next h h' = elim (Bool-cases (succeeds float code)) [
    | inl e ↦ rw e (h' pr h)
    | inr e ↦ rw e h
  ]
  with_delta-IsOver m null_read delta next h h' = tt
  with_delta-IsOver m running delta next h h' = elim h [ ]

  page_rank_end_loop-IsOver :
      (m : ℕ) (pr : PageRank float) (delta : float.Carrier)
      → Goes m pr
      → IsOver (GoesToo m) (page_rank_end_loop float sys pr delta)
  unfolding page_rank_end_loop
  page_rank_end_loop-IsOver m pr delta h =
      let value = with_value-IsOver {S = PageRank float × float.Carrier} (GoesToo m) in
      with_delta-IsOver m _ delta _
        (checked-IsOver m (mmap_array_advise sys pr.value2 madv_sequential) (put_value2 float pr)
          (λ _. h))
        λ pr1 h1.
          with_value-IsOver {S = PageRank float × float.Carrier} (GoesToo m)
            (add_up float pr1.value2 pr1.n_pages 0 float.nought) _
            λ sum. value (spread float pr1 (float.sub float.one sum)) _ λ value2.
              swap_loop-IsOver m pr1.n_pages 0 float.nought (put_value2 float pr1 value2) h1

  end_round-IsOver :
      (m n : ℕ) (next : float.Carrier → PageRank float → Run PageRankError (PageRank float))
      (run : Run PageRankError (PageRank float × float.Carrier))
      → IsOver (GoesToo m) run
      → (suc n ≢ m
          → (delta : float.Carrier) (pr : PageRank float) → Goes m pr
          → IsOver (Goes m) (next delta pr))
      → IsOver (Goes m) (end_round float sys n next run)
  unfolding end_round
  end_round-IsOver m n next (returned code (pr, delta)) h h' =
      elim (Bool-cases (succeeds float code)) [
        | inl e ↦ elim (Bool-cases (suc n == pr.max_loops)) [
          | inl last ↦ rw (e, last) (fail-IsOver m page_rank_error_precision pr h)
          | inr more ↦ rw (e, more) (h' (ground (arith, more, h)) delta pr h)
        ]
        | inr e ↦ rw e h
      ]
  end_round-IsOver m n next null_read h h' = tt
  end_round-IsOver m n next running h h' = elim h [ ]

  round-IsOver :
      (m n : ℕ) (stream : LinkStream)
      (next : float.Carrier → PageRank float → Run PageRankError (PageRank float))
      (delta : float.Carrier) (pr : PageRank float)
      → Goes m pr
      → (suc n ≢ m
          → (delta : float.Carrier) (pr : PageRank float) → Goes m pr
          → IsOver (Goes m) (next delta pr))
      → IsOver (Goes m) (round float sys stream n next delta pr)
  unfolding round
  round-IsOver m n stream next delta pr h h' =
      and_then-IsOver m (page_rank_loop float sys (stream.pass (suc n)) pr) _
        (page_rank_loop-IsOver m (stream.pass (suc n)) pr h)
        λ pr1 h1. elim (Bool-cases (is_error (stream.reset (suc n)))) [
          | inl e ↦ rw e (fail-IsOver m page_rank_error_internal pr1 h1)
          | inr e ↦ rw e (
              end_round-IsOver m n next (page_rank_end_loop float sys pr1 delta)
                (page_rank_end_loop-IsOver m pr1 delta h1) h')
        ]

  pub rounds-IsOver :
      (m fuel n : ℕ) (stream : LinkStream) (delta : float.Carrier) (pr : PageRank float)
      → n < m
      → m ≤ n + fuel
      → Goes m pr
      → IsOver (Goes m) (rounds float sys stream fuel n delta pr)
  unfolding rounds
  rounds-IsOver m zero n stream delta pr lt le h = absurd (omega (arith, lt, le))
  rounds-IsOver m (suc fuel) n stream delta pr lt le h =
      elim (Bool-cases (float.greater delta pr.precision)) [
        | inl e ↦ rw e (
            round-IsOver m n stream (rounds float sys stream fuel (suc n)) delta pr h
              λ more delta' pr' h'.
                rounds-IsOver m fuel (suc n) stream delta' pr' (omega (arith, lt, more))
                  (omega (arith, le)) h')
        | inr e ↦ rw e h
      ]
