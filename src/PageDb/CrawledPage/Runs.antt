-- ===== src/PageDb/CrawledPage/Runs.antt =====
-- A crawled page with one link.
use aduana.Common.{arith}
use aduana.PageDb.CrawledPage.{page_links_new, crawled_page_n_links}
use aduana.PageDb.CrawledPage.Room.{IsRoomy}

page_links_new-IsRoomy : IsRoomy page_links_new
unfolding page_links_new crawled_page_n_links
page_links_new-IsRoomy = (omega arith, omega arith)
