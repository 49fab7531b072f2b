-- ===== src/PageDb/CrawledPage/Room.antt =====
-- The array of the links has room for every link, and a link that was added is found.
use aduana.Common.{
  ℕ, zero, suc, ◌+◌, ◌≤◌, ◌<◌, ◌≡◌, refl, arith, List, [], ◌∷◌, ◌++◌, some, length, length-append,
  get_elem?,
}
use aduana.PageDb.PageInfo.{LinkInfo}
use aduana.PageDb.CrawledPage.{
  PageLinks, page_links_add_link, crawled_page_n_links, crawled_page_get_link,
}

-- There are no more links than places, and there is a place.
abbrev pub IsRoomy : PageLinks → Type 0
IsRoomy pl = (crawled_page_n_links pl ≤ pl.m_links) × (0 < pl.m_links)

get_elem?-append :
    (xs : List LinkInfo) (x : LinkInfo) → get_elem? (xs ++ (x ∷ [])) (length xs) ≡ some x
get_elem?-append [] x = refl
get_elem?-append (y ∷ xs) x = get_elem?-append xs x

get_front :
    (xs ys : List LinkInfo) (i : ℕ) → i < length xs → get_elem? (xs ++ ys) i ≡ get_elem? xs i
get_front [] ys i h = absurd (omega (arith, h))
get_front (x ∷ xs) ys zero h = refl
get_front (x ∷ xs) ys (suc i) h = get_front xs ys i (omega (arith, h))

-- Adding a link keeps the array large enough, also for the place that is written; the link is the last
-- one, and the others are where they were.
page_links_add_link-IsRoomy :
    (pl : PageLinks) (url : List ℕ) (score : ℕ)
    → IsRoomy pl
    → IsRoomy (page_links_add_link pl url score)
      × (crawled_page_n_links (page_links_add_link pl url score) ≡ crawled_page_n_links pl + 1)
      × (crawled_page_get_link (page_links_add_link pl url score) (crawled_page_n_links pl)
          ≡ some (record { url = url; score = score }))
      × ((i : ℕ)
          → i < crawled_page_n_links pl
          → crawled_page_get_link (page_links_add_link pl url score) i ≡ crawled_page_get_link pl i)
unfolding page_links_add_link crawled_page_n_links crawled_page_get_link
page_links_add_link-IsRoomy pl url score (fits, some_place) =
    let link : LinkInfo = record { url = url; score = score } in
    let longer = length-append pl.link_info (link ∷ []) in
    (
      (ground (arith, longer, fits, some_place), ground (arith, some_place)),
      longer,
      get_elem?-append pl.link_info link,
      λ i h. get_front pl.link_info (link ∷ []) i h,
    )
