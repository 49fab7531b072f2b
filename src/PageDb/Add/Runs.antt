-- ===== src/PageDb/Add/Runs.antt =====
-- `page_db_add` on an empty database with concrete tables, and the theorems there.
use aduana.Common.{ℕ, ◌≡◌, refl, arith, true, List, [], ◌∷◌, some}
use aduana.PageDb.Plain.{quiet, empty_db, empty-IsConsistent}
use aduana.PageDb.PageInfo.{
  CrawledPage, PageInfo, page_info_dump, fits_block, page_info_new_crawled,
}
use aduana.PageDb.Txn.{page_db_hash}
use aduana.Util.Url.{url_domain, same_domain}
use aduana.PageDb.Add.{
  PageDb, added, page_db_add_crawled_page_info, page_db_add_link_page_info, add_link, add_links,
  page_db_add,
}
use aduana.PageDb.Add.Reads.{Streamed, copy_links-page_db_add}
use aduana.PageDb.Add.Store.{IsPage}
use aduana.PageDb.Add.Outcome.{Outcome, page_db_add_lem}

abbrev two_links : CrawledPage
two_links = record {
  url = b'a' ∷ [];
  links = record { url = b'b' ∷ b'c' ∷ []; score = 3 } ∷ record { url = b'a' ∷ []; score = 4 } ∷ [];
  time = 700;
  score = 5;
  content_hash = 1 ∷ 2 ∷ [];
  content_hash_length = 2;
}

two_links-IsPage : IsPage quiet two_links
two_links-IsPage = record {
  curl = b'a' ∷ [];
  short = record {
    compressed = refl;
    text = omega arith;
    output = omega arith;
    block = omega arith;
  };
  crawled = record {
    time = omega arith;
    score = omega arith;
    hash_length = omega arith;
    hash = refl;
  };
  links = (
    record {
      curl = b'b' ∷ b'c' ∷ [];
      short = record {
        compressed = refl;
        text = omega arith;
        output = omega arith;
        block = omega arith;
      };
      score = omega arith;
    },
    (
      record {
        curl = b'a' ∷ [];
        short = record {
          compressed = refl;
          text = omega arith;
          output = omega arith;
          block = omega arith;
        };
        score = omega arith;
      },
      tt,
    ),
  );
}

abbrev broken_db : PageDb quiet
broken_db = record empty_db { error = 3 }

page_db_add_lem_example : Outcome quiet empty_db two_links (page_db_add quiet empty_db two_links)
page_db_add_lem_example =
    page_db_add_lem quiet empty_db two_links 0 two_links-IsPage refl refl empty-IsConsistent
      (omega arith)

-- The page has id 0, and so has its link to itself; the other link has id 1.
add_runs :
    ((page_db_add quiet empty_db two_links).0.info 0 ≡ some 2)
    × ((page_db_add quiet empty_db two_links).0.hash2idx 2 ≡ some 1)
    × ((page_db_add quiet empty_db two_links).0.error ≡ 0)
unfolding page_db_add page_db_hash url_domain same_domain page_db_add_crawled_page_info
    page_info_dump fits_block page_info_new_crawled add_links add_link page_db_add_link_page_info
add_runs = (refl, refl, refl)

the_pages : (pages : List (ℕ × PageInfo)) × ((page_db_add quiet empty_db two_links).1 ≡ added pages)
unfolding page_db_add page_db_hash url_domain same_domain page_db_add_crawled_page_info
    page_info_dump fits_block page_info_new_crawled add_links add_link page_db_add_link_page_info
the_pages = (_, refl)

copy_links-page_db_add_example :
    Streamed quiet two_links true (page_db_add quiet empty_db two_links).0
copy_links-page_db_add_example =
    copy_links-page_db_add quiet empty_db two_links 0 2 true (the_pages.0) two_links-IsPage refl
      refl empty-IsConsistent (omega arith) (omega arith) the_pages.1 add_runs.0 (omega arith)
