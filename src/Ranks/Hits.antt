-- ===== src/Ranks/Hits.antt =====
-- lib/src/hits.c: the hub and authority scores of the pages of a link stream. Of an error value only the
-- code is kept.
use aduana.Common.{
  ℕ, zero, suc, ◌+◌, ◌*◌, Option, none, some, List, [], ◌∷◌, Bool, true, false, ltb, leb, not, ◌&&◌,
  ◌||◌, ◌==◌, if◌then◌else◌,
}
use aduana.MmapArray.{
  System, MmapArray, MmapArrayError, is_ok, mmap_array_advise, mmap_array_zero, mmap_array_resize,
  read, write,
}
use aduana.Ranks.{
  Arith, LinkAnswer, stream_state_init, stream_state_next, stream_state_end, stream_state_error,
  is_error, LinkStream, Run, returned, null_read, running, with_value, swap_step, madv_sequential,
}
pub mod Compute
pub mod Rounds

pub data HitsError : Type 0 where
  hits_error_ok : HitsError
  hits_error_memory : HitsError
  hits_error_internal : HitsError
  hits_error_precision : HitsError

abbrev pub succeeds : HitsError → Bool
succeeds hits_error_ok = true
succeeds _ = false

module _ (float : Arith) where
  pub record Hits : Type 0 where
    pub h1 : MmapArray float.Carrier
    pub h2 : MmapArray float.Carrier
    pub a1 : MmapArray float.Carrier
    pub a2 : MmapArray float.Carrier
    pub n_pages : ℕ
    pub error : HitsError
    pub scores : Option (MmapArray float.Carrier)
    pub max_loops : ℕ
    pub precision : float.Carrier
    pub persist : Bool

  abbrev pub put_h1 : Hits → MmapArray float.Carrier → Hits
  put_h1 hits marr = record hits { h1 = marr }

  abbrev pub put_h2 : Hits → MmapArray float.Carrier → Hits
  put_h2 hits marr = record hits { h2 = marr }

  abbrev pub put_a1 : Hits → MmapArray float.Carrier → Hits
  put_a1 hits marr = record hits { a1 = marr }

  abbrev pub put_a2 : Hits → MmapArray float.Carrier → Hits
  put_a2 hits marr = record hits { a2 = marr }

  unfoldable pub hits_set_error : Hits → HitsError → Hits
  hits_set_error hits code = record hits {
    error = if succeeds hits.error then code else hits.error;
  }

  unfoldable pub and_then : Run HitsError Hits → (Hits → Run HitsError Hits) → Run HitsError Hits
  and_then (returned code hits) next = if succeeds code then next hits else returned code hits
  and_then null_read next = null_read
  and_then running next = running

  -- `on_error` after a call of an array, which is put back.
  unfoldable pub checked :
      MmapArrayError × MmapArray float.Carrier
      → (MmapArray float.Carrier → Hits)
      → Run HitsError Hits
  unfolding hits_set_error
  checked (code, marr) put =
      let hits = hits_set_error (put marr) hits_error_internal in
      if is_ok code then returned hits_error_ok (put marr) else returned hits.error hits

  -- `if (mmap_array_advise(...) != 0) return hits_error_internal`
  unfoldable pub advised :
      MmapArrayError × MmapArray float.Carrier
      → (MmapArray float.Carrier → Hits)
      → Run HitsError Hits
  advised (code, marr) put =
      returned (if is_ok code then hits_error_ok else hits_error_internal) (put marr)

  -- `*s2 += f(*s1)` where both pointers are not NULL: the array of `s2`, or `none` where one of them
  -- is not mapped.
  unfoldable pub gain :
      (float.Carrier → float.Carrier)
      → MmapArray float.Carrier
      → ℕ
      → MmapArray float.Carrier
      → ℕ
      → Option (MmapArray float.Carrier)
  unfolding read write
  gain f target i source j =
      if ltb i target.n_elements && ltb j source.n_elements
      then elim (read source j) [
        | none ↦ none
        | some s1 ↦ elim (read target i) [
          | none ↦ none
          | some s2 ↦ some (write target i (float.add s2 (f s1)))
        ]
      ]
      else some target

  -- `hub[i] = sum(auth[j])`, weighted with the content score of the target where there are any.
  unfoldable pub hub_gain : Hits → ℕ → ℕ → Option (MmapArray float.Carrier)
  unfolding gain
  hub_gain hits from to = elim hits.scores [
    | none ↦ gain (λ s1. s1) hits.h2 from hits.a1 to
    | some scores ↦
        if ltb from hits.h2.n_elements && ltb to hits.a1.n_elements && ltb to scores.n_elements
        then elim (read scores to) [
          | none ↦ none
          | some score ↦ gain (float.mul score) hits.h2 from hits.a1 to
        ]
        else some hits.h2
  ]

  -- One of the loops that normalise: over `k` elements from `i` on, the new score of `s2` is divided by
  -- the sum and changes places with the old one of `s1`. The result is whether no pointer was NULL,
  -- `delta` and both arrays as they are then, or `none` where something is not mapped.
  unfoldable pub normalize :
      float.Carrier
      → ℕ
      → ℕ
      → float.Carrier
      → MmapArray float.Carrier
      → MmapArray float.Carrier
      → Option (Bool × float.Carrier × MmapArray float.Carrier × MmapArray float.Carrier)
  unfolding swap_step read write
  normalize sum zero i delta s1 s2 = some (true, delta, s1, s2)
  normalize sum (suc k) i delta s1 s2 =
      if not (ltb i s2.n_elements) then some (false, delta, s1, s2) else elim (read s2 i) [
        | none ↦ none
        | some score2 ↦
            let score2' = float.div score2 sum in
            if not (ltb i s1.n_elements)
            then some (false, delta, s1, write s2 i score2')
            else elim (read s1 i) [
              | none ↦ none
              | some score1 ↦
                  let (delta', s1', s2') = swap_step float delta s1 s2 i score1 score2' in
                  normalize sum k (i + 1) delta' s1' s2'
            ]
      ]

  -- The sum of `k` elements from `i` on, `none` in front where a pointer is NULL.
  unfoldable pub total_score :
      MmapArray float.Carrier → ℕ → ℕ → float.Carrier → Option (Option float.Carrier)
  unfolding read
  total_score marr zero i sum = some (some sum)
  total_score marr (suc k) i sum =
      if ltb i marr.n_elements
      then elim (read marr i) [
        | none ↦ some none
        | some score ↦ total_score marr k (i + 1) (float.add sum score)
      ]
      else none

  unfoldable pub hits_get_hub : Hits → ℕ → HitsError × Option (float.Carrier × float.Carrier)
  unfolding read
  hits_get_hub hits idx =
      if not (ltb idx hits.h1.n_elements) || not (ltb idx hits.h2.n_elements)
      then (hits_error_internal, none)
      else (
        hits_error_ok,
        elim (read hits.h2 idx) [
          | none ↦ none
          | some old ↦ elim (read hits.h1 idx) [ none ↦ none | some new ↦ some (old, new) ]
        ],
      )

  unfoldable pub hits_get_authority : Hits → ℕ → HitsError × Option (float.Carrier × float.Carrier)
  unfolding read
  hits_get_authority hits idx =
      if not (ltb idx hits.a1.n_elements) || not (ltb idx hits.a2.n_elements)
      then (hits_error_internal, none)
      else (
        hits_error_ok,
        elim (read hits.a2 idx) [
          | none ↦ none
          | some old ↦ elim (read hits.a1 idx) [ none ↦ none | some new ↦ some (old, new) ]
        ],
      )

  unfoldable pub hits_set_persist : Hits → Bool → Hits
  hits_set_persist hits value = record hits {
    persist = value;
    h1 = record hits.h1 { persist = value };
    h2 = record hits.h2 { persist = value };
    a1 = record hits.a1 { persist = value };
    a2 = record hits.a2 { persist = value };
  }

  -- `on_error` of hits_end_loop.
  unfoldable pub null_score : Hits → Run HitsError (Hits × float.Carrier)
  unfolding hits_set_error
  null_score hits =
      let hits' = hits_set_error hits hits_error_internal in
      returned hits'.error (hits', float.nought)

  -- The sum and the normalising loop of one kind of scores, and then `next` with `delta`.
  unfoldable pub end_scores :
      Hits
      → float.Carrier
      → MmapArray float.Carrier
      → MmapArray float.Carrier
      → (MmapArray float.Carrier → MmapArray float.Carrier → Hits)
      → (float.Carrier → Hits → Run HitsError (Hits × float.Carrier))
      → Run HitsError (Hits × float.Carrier)
  unfolding null_score total_score normalize with_value
  end_scores hits delta s1 s2 put next = elim (total_score s2 hits.n_pages 0 float.nought) [
    | none ↦ null_score hits
    | some added ↦ with_value added λ sum.
        with_value (normalize sum hits.n_pages 0 delta s1 s2) λ result.
          let (complete, delta', s1', s2') = result in
          if complete then next delta' (put s1' s2') else null_score (put s1' s2')
  ]

  -- The state and `delta`: first the hubs, then the authorities.
  unfoldable pub hits_end_loop : Hits → Run HitsError (Hits × float.Carrier)
  unfolding end_scores
  hits_end_loop hits =
      end_scores hits float.nought hits.h1 hits.h2 (λ h1 h2. record hits { h1 = h1; h2 = h2 })
        λ delta p1.
          end_scores p1 delta p1.a1 p1.a2 (λ a1 a2. record p1 { a1 = a1; a2 = a2 })
            λ delta' p2. returned hits_error_ok (p2, delta')
