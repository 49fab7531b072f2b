-- ===== src/PageDb/Runs.antt =====
-- Concrete pages and links, a compressor, and the theorems at them.
use aduana.Common.{
  ℕ, false, zero, suc, length, ◌+◌, ◌%◌, ◌^◌, ◌≡◌, ◌≢◌, ◌==◌, refl, arith, true, if◌then◌else◌,
  List, [], ◌∷◌, ◌++◌, ◌<◌, some,
}
use aduana.Util.Varint.{done}
use aduana.PageDb.Plain.{copy_within, plain_smaz}
use aduana.PageDb.PageInfo.{
  CrawledPage, PageInfo, page_info_new_crawled, page_info_update, page_info_dump, fits_block,
  page_info_load, page_info_dump_get_score,
}
use aduana.PageDb.PageInfo.Stored.{IsStorable, IsShort, stored, load-dump}
use aduana.PageDb.PageInfo.Update.{IsCrawled, page_info_update_lem}
use aduana.PageDb.Links.{Copied, page_db_link_stream_copy_links, encode_links}
use aduana.PageDb.Links.Stream.{LinkStream, IsDecoded, links_from, links_in}
use aduana.PageDb.Links.Reset.{
  DbLinkStream, at_init, at_next, found, page_db_link_stream_reset, read_all,
  read_all-page_db_link_stream_reset,
}
use aduana.PageDb.Links.RoundTrip.{selected, copy_links-encode_links}

abbrev crawl : CrawledPage
crawl = record {
  url = b'a' ∷ b'/' ∷ [];
  links = [];
  time = 700;
  score = 5;
  content_hash = 1 ∷ 2 ∷ [];
  content_hash_length = 2;
}

abbrev page : PageInfo
page = record {
  url = b'a' ∷ b'/' ∷ [];
  linked_from = 9;
  depth = 1;
  first_crawl = 300;
  last_crawl = 600;
  n_changes = 1;
  n_crawls = 2;
  score = 4;
  content_hash_length = 2;
  content_hash = 1 ∷ 3 ∷ [];
}

page-IsStorable : IsStorable page
page-IsStorable = record {
  score = omega arith;
  linked_from = omega arith;
  depth = omega arith;
  n_crawls = omega arith;
  first_crawl = omega arith;
  last_crawl = omega arith;
  n_changes = omega arith;
  hash_length = omega arith;
  hash = refl;
}

crawl-IsCrawled : IsCrawled crawl
crawl-IsCrawled = record {
  time = omega arith;
  score = omega arith;
  hash_length = omega arith;
  hash = refl;
}

page-IsShort : IsShort plain_smaz page.url page.url
page-IsShort = record {
  compressed = refl;
  text = omega arith;
  output = omega arith;
  block = omega arith;
}

update_runs :
    ((page_info_update page crawl).n_changes ≡ 2)
    × ((page_info_update page crawl).content_hash ≡ 1 ∷ 2 ∷ [])
    × ((page_info_update (page_info_new_crawled crawl) crawl).n_changes ≡ 0)
unfolding page_info_update page_info_new_crawled
update_runs = (refl, refl, refl)

load-dump_example :
    (bytes : List ℕ) × (page_info_dump plain_smaz page ≡ some bytes)
    × (fits_block plain_smaz page ≡ true)
    × (page_info_load plain_smaz bytes ≡ some (stored page))
    × (page_info_dump_get_score plain_smaz bytes ≡ some 4)
load-dump_example = load-dump plain_smaz page page.url page-IsShort page-IsStorable

copy_links-encode_links_example :
    page_db_link_stream_copy_links true 4 (encode_links 4 (9 ∷ 2 ∷ []) (5 ∷ []))
    ≡ done (record { from = 4; n_diff = 2; to = selected true (9 ∷ 2 ∷ []) (5 ∷ []) })
copy_links-encode_links_example =
    copy_links-encode_links true 4 (9 ∷ 2 ∷ []) (5 ∷ []) (omega arith)
      (omega arith, (omega arith, tt)) (omega arith, tt) (omega arith)

page_info_update_lem_example :
    ((page_info_update page crawl).content_hash ≡ crawl.content_hash)
    × ((page_info_update page crawl).content_hash_length ≡ crawl.content_hash_length)
    × (page.content_hash ≡ crawl.content_hash
        → (page_info_update page crawl).n_changes ≡ page.n_changes)
    × (page.content_hash ≢ crawl.content_hash
        → (page_info_update page crawl).n_changes ≡ (page.n_changes + 1) % 2 ^ 64)
    × ((page_info_update page crawl).n_crawls ≡ (page.n_crawls + 1) % 2 ^ 64)
    × ((page_info_update page crawl).last_crawl ≡ crawl.time)
    × ((page_info_update page crawl).first_crawl
        ≡ (if page.n_crawls == 0 then crawl.time else page.first_crawl))
    × ((page_info_update page crawl).score ≡ crawl.score)
    × ((page_info_update page crawl).depth ≡ page.depth)
    × ((page_info_update page crawl).linked_from ≡ page.linked_from)
    × ((page_info_update page crawl).url ≡ page.url)
page_info_update_lem_example = page_info_update_lem page crawl page-IsStorable crawl-IsCrawled

repeated : ℕ → List ℕ
repeated zero = []
repeated (suc n) = b'a' ∷ repeated n

length-repeated : (n : ℕ) → length (repeated n) ≡ n
unfolding repeated
length-repeated zero = refl
length-repeated (suc n) = omega (arith, length-repeated n)

fits_copy : (text : List ℕ) → copy_within text (length text) ≡ some text
fits_copy text = ground arith

abbrev lots : ℕ
lots = 2 ^ 16

-- The rows of a page without links and of one with two.
abbrev stream : LinkStream
stream = record {
  from = 0;
  to = [];
  rows = (1, encode_links 1 [] []) ∷ (4, encode_links 4 (9 ∷ []) (8 ∷ [])) ∷ [];
}

abbrev decoded : ℕ → List ℕ → Copied
decoded key val =
    if key == 1
    then record { from = 1; n_diff = 0; to = selected false [] [] }
    else record { from = 4; n_diff = 1; to = selected false (9 ∷ []) (8 ∷ []) }

stream-IsDecoded : IsDecoded false decoded stream.rows
stream-IsDecoded = (
  copy_links-encode_links false 1 [] [] (omega arith) tt tt (omega arith),
  (
    copy_links-encode_links false 4 (9 ∷ []) (8 ∷ []) (omega arith) (omega arith, tt)
        (omega arith, tt) (omega arith),
    tt,
  ),
)

-- One link of page 2 is left, and then come those of the table.
abbrev halfway : DbLinkStream
halfway = record { cur = some []; from = 2; to = 9 ∷ []; state = at_next; error = 0 }

abbrev reset_halfway : DbLinkStream
reset_halfway =
    (page_db_link_stream_reset (record { begins = true; opened = found stream.rows; cursor = true })
      halfway).1

five_links : length (links_from 2 (9 ∷ []) ++ links_in false decoded stream.rows) < 5
unfolding links_from links_in selected
five_links = omega arith

read_all-page_db_link_stream_reset_example :
    ((page_db_link_stream_reset
        (record { begins = true; opened = found stream.rows; cursor = true })
        halfway).0
      ≡ at_init)
    × (read_all 5 false reset_halfway
        ≡ some (links_from 2 (9 ∷ []) ++ links_in false decoded stream.rows))
read_all-page_db_link_stream_reset_example =
    read_all-page_db_link_stream_reset false decoded 5 halfway stream.rows refl stream-IsDecoded
      five_links
