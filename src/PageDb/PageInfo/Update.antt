-- ===== src/PageDb/PageInfo/Update.antt =====
-- What a new crawl changes in the `PageInfo` of a page.
use aduana.Common.{
  ℕ, ◌+◌, ◌%◌, ◌^◌, ◌<◌, ◌≡◌, ◌≢◌, refl, ap, arith, true, false, ◌==◌, if◌then◌else◌, List, [], ◌∷◌,
  length, take, Bool-cases, inl, inr, ==_iff,
}
use aduana.PageDb.PageInfo.{
  CrawledPage, PageInfo, merge_hash, new_hash, page_info_new_link, page_info_update,
}
use aduana.PageDb.PageInfo.Stored.{IsStorable, stored, take_whole}

-- The hash of a crawled page has its length, and its fields fit their types.
pub record IsCrawled (cp : CrawledPage) : Type 0 where
  pub time : cp.time < 2 ^ 64
  pub score : cp.score < 2 ^ 32
  pub hash_length : cp.content_hash_length < 2 ^ 64
  pub hash : length cp.content_hash ≡ cp.content_hash_length

merge_hash_same : (xs : List ℕ) → merge_hash xs xs ≡ (xs, false)
unfolding merge_hash
merge_hash_same [] = refl
merge_hash_same (x ∷ xs) = rw ((==_iff x x).1 refl, merge_hash_same xs)

merge_hash-length : (xs ys : List ℕ) → length xs ≡ length ys → (merge_hash xs ys).0 ≡ ys
unfolding merge_hash
merge_hash-length [] [] h = refl
merge_hash-length [] (y ∷ ys) h = absurd (omega arith)
merge_hash-length (x ∷ xs) [] h = absurd (omega arith)
merge_hash-length (x ∷ xs) (y ∷ ys) h = ground (arith, merge_hash-length xs ys (omega arith))

merge_hash_changed :
    (xs ys : List ℕ) → length xs ≡ length ys → xs ≢ ys → (merge_hash xs ys).1 ≡ true
unfolding merge_hash
merge_hash_changed [] [] h d = absurd (d refl)
merge_hash_changed [] (y ∷ ys) h d = absurd (omega arith)
merge_hash_changed (x ∷ xs) [] h d = absurd (omega arith)
merge_hash_changed (x ∷ xs) (y ∷ ys) h d = elim (Bool-cases (x == y)) [
  | inl same ↦ rw same (merge_hash_changed xs ys (omega arith) (λ e. d (ground arith)))
  | inr differs ↦ rw differs
]

module _ (pi : PageInfo) (cp : CrawledPage) (s : IsStorable pi) (c : IsCrawled cp) where
  crawled_hash : take cp.content_hash_length cp.content_hash ≡ cp.content_hash
  crawled_hash = take_whole cp.content_hash_length cp.content_hash c.hash

  new_hash_hash : (new_hash pi cp).0 ≡ cp.content_hash
  unfolding new_hash
  new_hash_hash =
      ground
        (arith, crawled_hash, merge_hash-length pi.content_hash cp.content_hash, s.hash, c.hash)

  new_hash_same : pi.content_hash ≡ cp.content_hash → (new_hash pi cp).1 ≡ false
  unfolding new_hash
  new_hash_same e =
      ground (arith, crawled_hash, merge_hash_same cp.content_hash, ap length e, s.hash, c.hash)

  new_hash_changed : pi.content_hash ≢ cp.content_hash → (new_hash pi cp).1 ≡ true
  unfolding new_hash
  new_hash_changed d = ground (
    arith,
    crawled_hash,
    λ (e : length pi.content_hash ≡ length cp.content_hash).
        merge_hash_changed pi.content_hash cp.content_hash e d,
    s.hash,
    c.hash,
  )

  -- After an update the page has the hash and the score of the crawl and one crawl more; the change
  -- is counted exactly if the hash is another one; and the first crawl is set only if there was none.
  pub page_info_update_lem :
      ((page_info_update pi cp).content_hash ≡ cp.content_hash)
      × ((page_info_update pi cp).content_hash_length ≡ cp.content_hash_length)
      × (pi.content_hash ≡ cp.content_hash → (page_info_update pi cp).n_changes ≡ pi.n_changes)
      × (pi.content_hash ≢ cp.content_hash
          → (page_info_update pi cp).n_changes ≡ (pi.n_changes + 1) % 2 ^ 64)
      × ((page_info_update pi cp).n_crawls ≡ (pi.n_crawls + 1) % 2 ^ 64)
      × ((page_info_update pi cp).last_crawl ≡ cp.time)
      × ((page_info_update pi cp).first_crawl
          ≡ (if pi.n_crawls == 0 then cp.time else pi.first_crawl))
      × ((page_info_update pi cp).score ≡ cp.score)
      × ((page_info_update pi cp).depth ≡ pi.depth)
      × ((page_info_update pi cp).linked_from ≡ pi.linked_from)
      × ((page_info_update pi cp).url ≡ pi.url)
  unfolding page_info_update
  page_info_update_lem = (
    new_hash_hash,
    refl,
    λ e. rw (new_hash_same e),
    λ d. rw (new_hash_changed d),
    refl,
    refl,
    refl,
    refl,
    refl,
    refl,
    refl,
  )

  -- An update keeps a page storable.
  pub page_info_update-IsStorable : IsStorable (page_info_update pi cp)
  unfolding page_info_update
  page_info_update-IsStorable = record {
    score = c.score;
    linked_from = s.linked_from;
    depth = s.depth;
    n_crawls = omega arith;
    first_crawl = ground (arith, s.first_crawl, c.time);
    last_crawl = c.time;
    n_changes = ground (arith, s.n_changes);
    hash_length = c.hash_length;
    hash = rw new_hash_hash c.hash;
  }

-- The first crawl of a page that so far was only a link counts a change if it has any content hash,
-- and the database then keeps the page without that change.
stored-update_first :
    (url : List ℕ) (linked_from depth score : ℕ) (cp : CrawledPage)
    → 0 < cp.content_hash_length
    → ((page_info_update (page_info_new_link url linked_from depth score) cp).n_changes ≡ 1)
      × ((stored (page_info_update (page_info_new_link url linked_from depth score) cp)).n_changes
          ≡ 0)
unfolding page_info_update page_info_new_link stored
stored-update_first url linked_from depth score cp h = (ground arith, ground arith)
