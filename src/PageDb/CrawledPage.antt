-- ===== src/PageDb/CrawledPage.antt =====
-- How a `CrawledPage` of page_db.c is filled before it is added: its hash, and its links in an array
-- that doubles. Memory is never short.
pub mod Room
mod Runs
use aduana.Common.{
  ℕ, ◌+◌, ◌*◌, ◌==◌, if◌then◌else◌, List, [], ◌∷◌, ◌++◌, Option, length, take, get_elem?,
}
use aduana.Common.Bytes.{le_bytes}
use aduana.PageDb.PageInfo.{LinkInfo, CrawledPage}

-- PAGE_LINKS_MIN_LINKS
abbrev pub page_links_min_links : ℕ
page_links_min_links = 10

-- `n_links` is the length of `link_info`, and `m_links` the size of the array.
pub record PageLinks : Type 0 where
  pub link_info : List LinkInfo
  pub m_links : ℕ

unfoldable pub page_links_new : PageLinks
page_links_new = record { link_info = []; m_links = page_links_min_links }

unfoldable pub page_links_add_link : PageLinks → List ℕ → ℕ → PageLinks
page_links_add_link pl url score = record {
  link_info = pl.link_info ++ (record { url = url; score = score } ∷ []);
  m_links = if length pl.link_info == pl.m_links then 2 * pl.m_links else pl.m_links;
}

-- `now` is the time of the call; the bit pattern of `0.0` is 0.
unfoldable pub crawled_page_new : ℕ → List ℕ → CrawledPage
crawled_page_new now url = record {
  url = url;
  links = [];
  time = now;
  score = 0;
  content_hash = [];
  content_hash_length = 0;
}

unfoldable pub crawled_page_set_hash : CrawledPage → List ℕ → ℕ → CrawledPage
crawled_page_set_hash cp hash hash_length = record cp {
  content_hash = take hash_length hash;
  content_hash_length = hash_length;
}

unfoldable pub crawled_page_set_hash64 : CrawledPage → ℕ → CrawledPage
unfolding crawled_page_set_hash
crawled_page_set_hash64 cp hash = crawled_page_set_hash cp (le_bytes 8 hash) 8

unfoldable pub crawled_page_set_hash32 : CrawledPage → ℕ → CrawledPage
unfolding crawled_page_set_hash
crawled_page_set_hash32 cp hash = crawled_page_set_hash cp (le_bytes 4 hash) 4

unfoldable pub crawled_page_n_links : PageLinks → ℕ
crawled_page_n_links pl = length pl.link_info

-- `link_info + i`, where `none` is a place behind the links.
unfoldable pub crawled_page_get_link : PageLinks → ℕ → Option LinkInfo
crawled_page_get_link pl i = get_elem? pl.link_info i
