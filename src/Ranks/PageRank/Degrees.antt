-- ===== src/Ranks/PageRank/Degrees.antt =====
-- The number of links of each page: page_rank_init.
use aduana.Common.{
  ℕ, zero, suc, ◌+◌, ◌≤◌, ◌<◌, ◌≡◌, refl, sym, ap, ◌∙◌, false, ltb, leb, ◌==◌, if◌then◌else◌,
  Option, none, some, List, [], ◌∷◌, All, Bool-cases, inl, inr, arith,
}
use aduana.MmapArray.{System, read, write}
use aduana.MmapArray.Bounds.{IsMapped, write-IsMapped, read-write, read-inside, idx_inside}
use aduana.Ranks.{
  Arith, LinkAnswer, stream_state_init, stream_state_next, stream_state_end, stream_state_error,
  returned, with_value,
}
use aduana.Ranks.Loops.{map_some, ltb_intro}
use aduana.Ranks.PageRank.{page_rank_error_ok, PageRank, and_then, put_out_degree}
use aduana.Ranks.PageRank.Compute.{
  page_rank_set_n_pages, internal, include, count_at, count_from, count_links,
}

-- An answer that is no end and no error, with pages below `n`.
abbrev pub IsLink : ℕ → LinkAnswer → Type 0
IsLink n stream_state_init = Unit
IsLink n (stream_state_next from to) = (from < n) × (to < n)
IsLink n stream_state_end = ⊥
IsLink n stream_state_error = ⊥

-- How many links leave page `i`.
abbrev pub links_of : ℕ → List LinkAnswer → ℕ
links_of i [] = 0
links_of i (stream_state_next from to ∷ links) =
    if from == i then suc (links_of i links) else links_of i links
links_of i (_ ∷ links) = links_of i links

-- `n_pages` after a page.
abbrev raised : ℕ → ℕ → ℕ
raised n page = if leb n page then page + 1 else n

raised_twice :
    (n room from to : ℕ)
    → n ≤ room
    → from < room
    → to < room
    → let n' = raised (raised n from) to in (n ≤ n') × (n' ≤ room) × (from < n') × (to < n')
raised_twice n room from to h hf ht = ground (arith, h, hf, ht)

count_none : {A : Type 0} (f : A → A) → ((x : A) → f x ≡ x) → (o : Option A) → o ≡ map_some f o
count_none f h none = refl
count_none f h (some x) = ap some (sym (h x))

module _ (float : Arith) (sys : System float.Carrier) where
  -- `x + 1.0 + 1.0 + ...`
  abbrev pub count_on : ℕ → float.Carrier → float.Carrier
  count_on zero x = x
  count_on (suc k) x = count_on k (float.add x float.one)

  abbrev grown : PageRank float → ℕ → PageRank float
  grown pr page = record pr { n_pages = raised pr.n_pages page }

  include_lem :
      (pr : PageRank float) (page : ℕ)
      → page < pr.out_degree.n_elements
      → include float sys pr page ≡ returned page_rank_error_ok (grown pr page)
  unfolding include page_rank_set_n_pages internal
  include_lem pr page h = elim (Bool-cases (leb pr.n_pages page)) [
    | inl e ↦ rw (e, no_more pr.out_degree.n_elements page h) refl
    | inr e ↦ rw e refl
  ]
    where
      no_more : (n page : ℕ) → page < n → ltb n (page + 1) ≡ false
      no_more n page h = ground (arith, h)

  count_from_lem :
      (pr : PageRank float) (from : ℕ)
      → IsMapped pr.out_degree
      → from < pr.out_degree.n_elements
      → (deg : float.Carrier) × (read pr.out_degree from ≡ some deg)
        × (count_from float sys pr from
            ≡ returned page_rank_error_ok
                (put_out_degree float pr (write pr.out_degree from (float.add deg float.one))))
  unfolding count_from count_at
  count_from_lem pr from m h =
      let (deg, e) = read-inside pr.out_degree from m h in
      (
        deg,
        e,
        rw
            (
              count_from,
              idx_inside pr.out_degree from (ltb_intro from pr.out_degree.n_elements h),
              count_at,
              e,
              with_value,
            )
            refl,
      )

  -- What count_links leaves: only the degrees and the number of pages change.
  abbrev pub IsCounted : List LinkAnswer → PageRank float → PageRank float → Type 0
  IsCounted links pr pr' =
      IsMapped pr'.out_degree
      × (pr'.out_degree.n_elements ≡ pr.out_degree.n_elements)
      × ((i : ℕ)
          → read pr'.out_degree i ≡ map_some (count_on (links_of i links)) (read pr.out_degree i))
      × (pr' ≡ record pr { out_degree = pr'.out_degree; n_pages = pr'.n_pages })
      × (pr.n_pages ≤ pr'.n_pages)
      × (pr'.n_pages ≤ pr.out_degree.n_elements)
      × All (IsLink pr'.n_pages) links

  count_step :
      (from i k : ℕ) (deg : float.Carrier) (old new : Option float.Carrier)
      → (from ≡ i → old ≡ some deg)
      → new ≡ (if from == i then some (float.add deg float.one) else old)
      → map_some (count_on k) new ≡ map_some (count_on (if from == i then suc k else k)) old
  count_step from i k deg old new h e = ground (arith, h, e)

  pub count_links_lem :
      (links : List LinkAnswer) (pr : PageRank float)
      → IsMapped pr.out_degree
      → pr.n_pages ≤ pr.out_degree.n_elements
      → All (IsLink pr.out_degree.n_elements) links
      → (pr' : PageRank float) × (count_links float sys links pr ≡ returned page_rank_error_ok pr')
        × IsCounted links pr pr'
  unfolding count_links
  count_links_lem [] pr m le all = (
    pr,
    refl,
    (
      m,
      refl,
      (λ i. count_none (count_on 0) (λ x. refl) (read pr.out_degree i)),
      refl,
      omega arith,
      le,
      tt,
    ),
  )
  count_links_lem (stream_state_init ∷ links) pr m le (_, all) =
      let (pr', e, (m', n', reads, rest, up, bound, known)) = count_links_lem links pr m le all in
      (pr', e, (m', n', reads, rest, up, bound, (tt, known)))
  count_links_lem (stream_state_end ∷ links) pr m le (h, all) = elim h [ ]
  count_links_lem (stream_state_error ∷ links) pr m le (h, all) = elim h [ ]
  count_links_lem (stream_state_next from to ∷ links) pr m le ((hf, ht), all) =
      let pr1 = grown pr from in
      let pr2 = grown pr1 to in
      let (deg, at, e) = count_from_lem pr2 from m hf in
      let pr3 = put_out_degree float pr2 (write pr.out_degree from (float.add deg float.one)) in
      let (m3, n3) = write-IsMapped pr.out_degree from (float.add deg float.one) m in
      let (up3, le3, f3, t3) = raised_twice pr.n_pages pr.out_degree.n_elements from to le hf ht in
      let (pr', e', (m', n', reads, rest, up, bound, known)) =
        count_links_lem links pr3 m3 (omega (arith, n3, le3)) (rw n3 all) in
      (
        pr',
        rw (count_links, include_lem pr from hf, and_then, include_lem pr1 to ht, e) e',
        (
          m',
          n' ∙ n3,
          (λ i.
              reads i
              ∙ count_step from i (links_of i links) deg (read pr.out_degree i)
                  (read pr3.out_degree i) (λ here. ap (read pr.out_degree) (sym here) ∙ at)
                  (read-write pr.out_degree from i (float.add deg float.one) m hf)),
          rest,
          omega (arith, up3, up),
          omega (arith, bound, n3),
          ((omega (arith, f3, up), omega (arith, t3, up)), known),
        ),
      )
