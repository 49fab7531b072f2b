-- ===== src/Ranks/Hits/Compute.antt =====
-- lib/src/hits.c: the arrays that grow, the loop over the links, and hits_compute.
use aduana.Common.{
  ℕ, true, false, none, zero, suc, ◌+◌, ◌*◌, List, [], ◌∷◌, ltb, leb, ◌==◌, if◌then◌else◌,
}
use aduana.MmapArray.{
  mmap_array_new, mmap_array_error_ok, MmapArray, System, mmap_array_advise, mmap_array_zero,
  mmap_array_resize,
}
use aduana.Ranks.{
  Arith, LinkAnswer, stream_state_init, stream_state_next, stream_state_end, stream_state_error,
  is_error, LinkStream, Run, returned, null_read, running, with_value, madv_sequential,
}
use aduana.Ranks.PageRank.Compute.{set_all}
use aduana.Ranks.Hits.{
  HitsError, hits_error_ok, hits_error_internal, hits_error_precision, succeeds, Hits, put_h1,
  put_h2, put_a1, put_a2, and_then, checked, advised, gain, hub_gain, hits_end_loop,
}

module _ (float : Arith) (sys : System float.Carrier) where
  unfoldable pub hits_expand : Hits float → Run HitsError (Hits float)
  unfolding checked and_then mmap_array_resize
  hits_expand hits =
      and_then float
        (checked float (mmap_array_resize sys hits.h1 (2 * hits.h1.n_elements)) (put_h1 float hits))
        λ p1.
          and_then float
            (checked float (mmap_array_resize sys p1.h2 (2 * p1.h2.n_elements)) (put_h2 float p1))
            λ p2.
              and_then float
                (checked float (mmap_array_resize sys p2.a1 (2 * p2.a1.n_elements))
                  (put_a1 float p2))
                λ p3.
                  checked float (mmap_array_resize sys p3.a2 (2 * p3.a2.n_elements))
                    (put_a2 float p3)

  unfoldable pub hits_set_n_pages : Hits float → ℕ → Run HitsError (Hits float)
  unfolding hits_expand
  hits_set_n_pages hits n_pages =
      let hits' : Hits float = record hits { n_pages = n_pages } in
      if ltb hits.h1.n_elements n_pages then hits_expand hits' else returned hits_error_ok hits'

  -- `if (page >= n_pages) if (hits_set_n_pages(hits, page + 1) != 0) return hits_error_internal`
  unfoldable pub internal : Run HitsError (Hits float) → Run HitsError (Hits float)
  internal (returned code hits) =
      returned (if succeeds code then code else hits_error_internal) hits
  internal null_read = null_read
  internal running = running

  unfoldable pub include : Hits float → ℕ → Run HitsError (Hits float)
  unfolding internal hits_set_n_pages
  include hits page =
      if leb hits.n_pages page
      then internal (hits_set_n_pages hits (page + 1))
      else returned hits_error_ok hits

  unfoldable pub follow : ℕ → ℕ → Hits float → Run HitsError (Hits float)
  unfolding with_value hub_gain gain
  follow from to hits = with_value (hub_gain float hits from to) λ h2.
      with_value (gain float (λ s1. s1) hits.a2 to hits.h1 from)
        λ a2. returned hits_error_ok (record hits { h2 = h2; a2 = a2 })

  unfoldable pub follow_links : List LinkAnswer → Hits float → Run HitsError (Hits float)
  unfolding and_then include follow
  follow_links [] hits = returned hits_error_ok hits
  follow_links (stream_state_init ∷ links) hits = follow_links links hits
  follow_links (stream_state_error ∷ links) hits = returned hits_error_internal hits
  follow_links (stream_state_end ∷ links) hits = returned hits_error_ok hits
  follow_links (stream_state_next from to ∷ links) hits = and_then float (include hits from) λ p1.
      and_then float (include p1 to) λ p2. and_then float (follow from to p2) (follow_links links)

  unfoldable pub hits_loop : List LinkAnswer → Hits float → Run HitsError (Hits float)
  unfolding and_then advised mmap_array_advise mmap_array_zero follow_links
  hits_loop links hits =
      and_then float
        (advised float (mmap_array_advise sys hits.h2 madv_sequential) (put_h2 float hits))
        λ p1.
          and_then float
            (advised float (mmap_array_advise sys p1.a2 madv_sequential)
              (put_a2 float (put_h2 float p1 (mmap_array_zero sys p1.h2))))
            λ p2. follow_links links (put_a2 float p2 (mmap_array_zero sys p2.a2))

  -- What follows hits_end_loop float in a round.
  unfoldable pub end_round :
      ℕ
      → (float.Carrier → Hits float → Run HitsError (Hits float))
      → Run HitsError (Hits float × float.Carrier)
      → Run HitsError (Hits float)
  end_round n_loops next (returned code (hits, delta)) =
      if succeeds code
      then (if suc n_loops == hits.max_loops
          then returned hits_error_precision hits
          else next delta hits)
      else returned code hits
  end_round n_loops next null_read = null_read
  end_round n_loops next running = running

  -- The loop of hits_compute, with fuel.
  unfoldable pub rounds :
      LinkStream → ℕ → ℕ → float.Carrier → Hits float → Run HitsError (Hits float)
  unfolding and_then hits_loop hits_end_loop end_round
  rounds stream zero n_loops delta hits =
      if float.greater delta hits.precision then running else returned hits_error_ok hits
  rounds stream (suc fuel) n_loops delta hits =
      if float.greater delta hits.precision
      then and_then float (hits_loop (stream.pass n_loops) hits) (λ p1.
        if is_error (stream.reset n_loops)
        then returned hits_error_internal p1
        else end_round n_loops (rounds stream fuel (suc n_loops)) (hits_end_loop float p1))
      else returned hits_error_ok hits

  unfoldable pub hits_compute : LinkStream → ℕ → Hits float → Run HitsError (Hits float)
  unfolding rounds
  hits_compute stream fuel hits = rounds stream fuel 0 (float.add hits.precision float.one) hits

  -- hits_new, with the default precision as a parameter. An array that is not made yet when an error
  -- is returned is one of which nothing is mapped.
  unfoldable pub hits_new : float.Carrier → ℕ → Run HitsError (Hits float)
  unfolding and_then checked set_all mmap_array_new
  hits_new precision max_vertices =
      let unmade : MmapArray float.Carrier = record {
        mem = none;
        has_file = false;
        n_elements = 0;
        error = mmap_array_error_ok;
        persist = false;
      } in
      let p : Hits float = record {
        h1 = unmade;
        h2 = unmade;
        a1 = unmade;
        a2 = unmade;
        n_pages = 0;
        error = hits_error_ok;
        scores = none;
        max_loops = 100;
        precision = precision;
        persist = false;
      } in
      let v0 = float.div float.one (float.of_ℕ max_vertices) in
      and_then float (checked float (mmap_array_new sys true max_vertices) (put_h1 float p)) λ p1.
        and_then float (checked float (mmap_array_new sys true max_vertices) (put_h2 float p1))
          λ p2.
            and_then float (checked float (mmap_array_new sys false max_vertices) (put_a1 float p2))
              λ p3.
                and_then float
                  (checked float (mmap_array_new sys false max_vertices) (put_a2 float p3))
                  λ p4.
                    and_then float
                      (checked float (set_all float sys v0 max_vertices 0 p4.h1) (put_h1 float p4))
                      λ p5.
                        checked float (set_all float sys v0 max_vertices 0 p5.a1) (put_a1 float p5)
