-- ===== src/Ranks/PageRank/Scores.antt =====
-- The scores after a round: page_rank_end_loop and page_rank_get.
use aduana.Common.{
  ℕ, zero, suc, ◌+◌, ◌≤◌, ◌<◌, ◌≡◌, refl, sym, ap, ◌∙◌, true, ltb, ◌&&◌, ◌==◌, if◌then◌else◌,
  Option, none, some, arith,
}
use aduana.MmapArray.{System, read, write}
use aduana.MmapArray.Bounds.{
  IsMapped, write-IsMapped, read-write, read-inside, IsAdvised, mmap_array_advise-ok,
}
use aduana.Ranks.{Arith, returned, with_value, add_up, swap_step, madv_sequential}
use aduana.Ranks.Loops.{map_some, among, add_up_lem, change_all_lem}
use aduana.Ranks.PageRank.{page_rank_error_ok, PageRank, checked, put_value2, spread, swap_loop}
use aduana.Ranks.PageRank.Iterate.{with_delta, page_rank_end_loop}

module _ (float : Arith) where
  -- Both arrays are mapped and have room for `n` pages.
  abbrev pub HasRoom : PageRank float → ℕ → Type 0
  HasRoom pr n =
      IsMapped pr.value1
      × IsMapped pr.value2
      × (n ≤ pr.value1.n_elements)
      × (n ≤ pr.value2.n_elements)

  -- The scores of `k` pages from `i` on have changed places, and nothing else has changed.
  abbrev pub IsSwapped : PageRank float → ℕ → ℕ → PageRank float → Type 0
  IsSwapped pr k i pr' =
      ((j : ℕ) → read pr'.value1 j ≡ (if among k i j then read pr.value2 j else read pr.value1 j))
      × ((j : ℕ) → read pr'.value2 j ≡ (if among k i j then read pr.value1 j else read pr.value2 j))
      × (pr' ≡ record pr { value1 = pr'.value1; value2 = pr'.value2 })
      × (pr'.value1.n_elements ≡ pr.value1.n_elements)
      × (pr'.value2.n_elements ≡ pr.value2.n_elements)

  both : (i n m : ℕ) → i < n → i < m → (ltb i n && ltb i m) ≡ true
  both i n m h h' = ground (arith, h, h')

  swap_read :
      (k i j : ℕ) (x y : float.Carrier) (old other new other' new' : Option float.Carrier)
      → (i ≡ j → other ≡ some x)
      → new ≡ (if i == j then some x else old)
      → other' ≡ (if i == j then some y else other)
      → new' ≡ (if among k (i + 1) j then other' else new)
      → new' ≡ (if among (suc k) i j then other else old)
  swap_read k i j x y old other new other' new' h e e' e'' = ground (arith, h, e, e', e'')

  pub swap_loop_lem :
      (k i : ℕ) (delta : float.Carrier) (pr : PageRank float)
      → HasRoom pr (i + k)
      → (pr' : PageRank float) × (delta' : float.Carrier) × (swap_loop float k i delta pr
          ≡ returned page_rank_error_ok (pr', delta'))
        × IsSwapped pr k i pr'
        × HasRoom pr' (i + k)
  unfolding swap_loop swap_step
  swap_loop_lem zero i delta pr room =
      (pr, delta, refl, ((λ j. ground arith), (λ j. ground arith), refl, refl, refl), room)
  swap_loop_lem (suc k) i delta pr (m1, m2, room1, room2) =
      let in1 : i < pr.value1.n_elements = omega (arith, room1) in
      let in2 : i < pr.value2.n_elements = omega (arith, room2) in
      let (x1, e1) = read-inside pr.value1 i m1 in1 in
      let (x2, e2) = read-inside pr.value2 i m2 in2 in
      let v1 = write pr.value1 i x2 in
      let v2 = write pr.value2 i x1 in
      let (m1', n1) = write-IsMapped pr.value1 i x2 m1 in
      let (m2', n2) = write-IsMapped pr.value2 i x1 m2 in
      let (delta1, _, _) = swap_step float delta pr.value1 pr.value2 i x1 x2 in
      let (pr', delta', e, (reads1, reads2, rest, n1', n2'), (m1'', m2'', room1', room2')) =
        swap_loop_lem k (i + 1) delta1 (record pr { value1 = v1; value2 = v2 })
          (m1', m2', omega (arith, room1, n1), omega (arith, room2, n2)) in
      (
        pr',
        delta',
        rw (swap_loop, both i pr.value1.n_elements pr.value2.n_elements in1 in2, e1, e2, with_value)
            e,
        (
          (λ j.
              swap_read k i j x2 x1 (read pr.value1 j) (read pr.value2 j) (read v1 j) (read v2 j)
                (read pr'.value1 j) (λ here. ap (read pr.value2) (sym here) ∙ e2)
                (read-write pr.value1 i j x2 m1 in1) (read-write pr.value2 i j x1 m2 in2)
                (reads1 j)),
          (λ j.
              swap_read k i j x1 x2 (read pr.value2 j) (read pr.value1 j) (read v2 j) (read v1 j)
                (read pr'.value2 j) (λ here. ap (read pr.value1) (sym here) ∙ e1)
                (read-write pr.value2 i j x1 m2 in2) (read-write pr.value1 i j x2 m1 in1)
                (reads2 j)),
          rest,
          n1' ∙ n1,
          n2' ∙ n2,
        ),
        (m1'', m2'', omega (arith, room1'), omega (arith, room2')),
      )

  -- The first `k` pages of both arrays after page_rank_end_loop, where `r` is added to the scores.
  abbrev pub IsEnded : PageRank float → float.Carrier → PageRank float → Type 0
  IsEnded pr r pr' =
      (i : ℕ)
      → i < pr.n_pages
      → (read pr'.value2 i ≡ read pr.value1 i)
        × (read pr'.value1 i ≡ map_some (λ score. float.add score r) (read pr.value2 i))

  ended :
      (n i : ℕ) (r : float.Carrier) (a b c a' b' : Option float.Carrier)
      → i < n
      → c ≡ (if among n 0 i then map_some (λ score. float.add score r) b else b)
      → a' ≡ (if among n 0 i then c else a)
      → b' ≡ (if among n 0 i then a else c)
      → (b' ≡ a) × (a' ≡ map_some (λ score. float.add score r) b)
  ended n i r a b c a' b' h e e' e'' = ground (arith, h, e, e', e'')

  module _ (sys : System float.Carrier) where
    -- Without content scores, with value1 and value2 mapped and room for every page in both, and
    -- where madvise succeeds, page_rank_end_loop returns 0 and each page has two scores then: the
    -- new one in value1, which is that of value2 with an equal share of what the scores of value2
    -- lack to a sum of 1, and the old one of value1 in value2. Only the arrays change.
    pub page_rank_end_loop_lem :
        (pr : PageRank float) (delta : float.Carrier)
        → HasRoom pr pr.n_pages
        → pr.scores ≡ none
        → IsAdvised sys
        → (sum : float.Carrier) × (pr' : PageRank float) × (delta' : float.Carrier) × (add_up float
              pr.value2 pr.n_pages 0 float.nought
            ≡ some sum)
          × (page_rank_end_loop float sys pr delta ≡ returned page_rank_error_ok (pr', delta'))
          × IsEnded pr (float.div (float.sub float.one sum) (float.of_ℕ pr.n_pages)) pr'
          × (pr' ≡ record pr { value1 = pr'.value1; value2 = pr'.value2 })
    unfolding page_rank_end_loop spread
    page_rank_end_loop_lem pr delta (m1, m2, room1, room2) plain advised =
        let (sum, summed) =
          add_up_lem float pr.value2 pr.n_pages 0 float.nought m2 (omega (arith, room2)) in
        let r = float.div (float.sub float.one sum) (float.of_ℕ pr.n_pages) in
        let (v2, changed, (m2', n2, reads)) =
          change_all_lem float (λ score. float.add score r) pr.value2 pr.n_pages 0 m2
            (omega (arith, room2)) in
        let (pr', delta', e, (reads1, reads2, rest, _, _), _) =
          swap_loop_lem pr.n_pages 0 float.nought (put_value2 float pr v2)
            (m1, m2', omega (arith, room1), omega (arith, room2, n2)) in
        let spread_out : spread float pr (float.sub float.one sum) ≡ some v2 =
          rw (spread, plain) changed in
        (
          sum,
          pr',
          delta',
          summed,
          rw
              (
                page_rank_end_loop,
                mmap_array_advise-ok sys pr.value2 madv_sequential advised,
                checked,
                with_delta,
                summed,
                with_value,
                spread_out,
              )
              e,
          (λ i h.
              ended pr.n_pages i r (read pr.value1 i) (read pr.value2 i) (read v2 i)
                (read pr'.value1 i) (read pr'.value2 i) h (reads i) (reads1 i) (reads2 i)),
          rest,
        )
