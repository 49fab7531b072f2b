-- ===== src/Ranks/PageRank/Init.antt =====
-- page_rank_init over links of pages that the arrays have room for.
use aduana.Common.{
  ℕ, ◌≤◌, ◌<◌, ◌≡◌, refl, ap, ◌∙◌, Option, none, some, List, All, if◌then◌else◌, arith,
}
use aduana.MmapArray.{System, MmapArray, mmap_array_zero, read}
use aduana.MmapArray.Bounds.{IsMapped, mmap_array_zero_lem, IsAdvised, mmap_array_advise-ok}
use aduana.Ranks.{Arith, LinkAnswer, returned, with_value, madv_sequential}
use aduana.Ranks.Loops.{map_some, add_up_lem, change_all_lem}
use aduana.Ranks.PageRank.{page_rank_error_ok, PageRank, and_then, checked, put_value1}
use aduana.Ranks.PageRank.Compute.{total, renormalize, page_rank_init}
use aduana.Ranks.PageRank.Degrees.{IsLink, links_of, count_on, count_links_lem}

module _ (float : Arith) (sys : System float.Carrier) where
  renormalize_lem :
      (pr : PageRank float)
      → IsMapped pr.value1
      → pr.n_pages ≤ pr.value1.n_elements
      → (value1 : MmapArray float.Carrier) × (renormalize float sys pr
          ≡ returned page_rank_error_ok (put_value1 float pr value1))
        × IsMapped value1
        × (value1.n_elements ≡ pr.value1.n_elements)
  unfolding renormalize
  renormalize_lem pr m room =
      let (sum, summed) =
        add_up_lem float pr.value1 pr.n_pages 0 float.nought m (omega (arith, room)) in
      let (value1, changed, (m', n', _)) =
        change_all_lem float (λ score. float.div score sum) pr.value1 pr.n_pages 0 m
          (omega (arith, room)) in
      (value1, rw (renormalize, summed, with_value, changed) refl, m', n')

  -- What page_rank_init leaves.
  abbrev pub IsInit : List LinkAnswer → PageRank float → PageRank float → Type 0
  IsInit links pr pr' =
      ((i : ℕ)
        → i < pr.out_degree.n_elements
        → read pr'.out_degree i ≡ some (count_on float sys (links_of i links) sys.nought))
      × IsMapped pr'.out_degree
      × IsMapped pr'.value1
      × (pr'.out_degree.n_elements ≡ pr.out_degree.n_elements)
      × (pr'.value1.n_elements ≡ pr.value1.n_elements)
      × (pr'.value2 ≡ pr.value2)
      × (pr'.scores ≡ pr.scores)
      × (pr'.n_pages ≤ pr.out_degree.n_elements)
      × All (IsLink pr'.n_pages) links

  count_nought :
      (k : ℕ) (old new : Option float.Carrier)
      → old ≡ some sys.nought
      → new ≡ map_some (count_on float sys k) old
      → new ≡ some (count_on float sys k sys.nought)
  count_nought k old new e e' = rw e at e'

  -- Without content scores, where madvise succeeds and both arrays are mapped with room for the pages
  -- of every link, page_rank_init returns 0, however many pages were known. Then each page has as
  -- out degree its number of links, counted in ones from 0, every page of a link is a known one, and
  -- the arrays have kept their sizes.
  pub page_rank_init_lem :
      (links : List LinkAnswer) (pr : PageRank float)
      → IsAdvised sys
      → pr.scores ≡ none
      → IsMapped pr.out_degree
      → IsMapped pr.value1
      → pr.out_degree.n_elements ≤ pr.value1.n_elements
      → pr.n_pages ≤ pr.out_degree.n_elements
      → All (IsLink pr.out_degree.n_elements) links
      → (pr' : PageRank float) × (page_rank_init float sys links pr
          ≡ returned page_rank_error_ok pr')
        × IsInit links pr pr'
  unfolding page_rank_init total
  page_rank_init_lem links pr advised plain m m1 room le all =
      let (mz, nz, atz) = mmap_array_zero_lem sys pr.out_degree m in
      let pr1 : PageRank float = record pr {
        out_degree = mmap_array_zero sys pr.out_degree;
        total_score = if float.is_nought float.nought then float.one else float.nought;
      } in
      let (pr2, e, (m2, n2, reads, rest, up, bound, known)) =
        count_links_lem float sys links pr1 mz (omega (arith, nz, le)) (rw nz all) in
      let same1 : pr2.value1 ≡ pr.value1 = ap (λ (pr : PageRank float). pr.value1) rest in
      let same2 : pr2.value2 ≡ pr.value2 = ap (λ (pr : PageRank float). pr.value2) rest in
      let (value1, e', m1', n1') = renormalize_lem pr2 (rw same1 m1) (
        omega (
          arith,
          bound,
          nz,
          room,
          ap (λ (marr : MmapArray float.Carrier). marr.n_elements) same1,
        )) in
      let totalled : total float sys pr ≡ some float.nought = rw (total, plain) refl in
      (
        put_value1 float pr2 value1,
        rw
            (
              page_rank_init,
              mmap_array_advise-ok sys pr.out_degree madv_sequential advised,
              checked,
              and_then,
              totalled,
              with_value,
              e,
              mmap_array_advise-ok sys pr2.value1 madv_sequential advised,
            )
            e',
        (
          (λ i h. count_nought (links_of i links) _ _ (atz i h) (reads i)),
          m2,
          m1',
          n2 ∙ nz,
          n1' ∙ ap (λ (marr : MmapArray float.Carrier). marr.n_elements) same1,
          same2,
          ap (λ (pr : PageRank float). pr.scores) rest,
          omega (arith, bound, nz),
          known,
        ),
      )
