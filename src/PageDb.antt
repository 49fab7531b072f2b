-- ===== src/PageDb.antt =====
-- lib/src/page_db.c, the page database, a module for each of its parts.
pub mod Smaz
pub mod PageInfo
pub mod CrawledPage
pub mod Links
pub mod Env
pub mod Txn
pub mod Add
pub mod Get
mod Plain
mod Runs
