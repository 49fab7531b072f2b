-- ===== src/PageDb/Get.antt =====
-- What lib/src/page_db.c reads of the database: pages, ids and the array of scores. A stream of rows is
-- the list of what its cursor yields. Floats are bit patterns.
use aduana.Common.{
  ℕ, zero, suc, ◌+◌, Bool, true, false, not, ◌&&◌, ◌||◌, ◌==◌, if◌then◌else◌, Option, none, some,
  List, [], ◌∷◌,
}
use aduana.MmapArray.{is_ok, System, MmapArray, mmap_array_new, mmap_array_zero, mmap_array_set}
use aduana.PageDb.Env.{Env}
use aduana.PageDb.PageInfo.{PageInfo, page_info_load, page_info_dump_get_score}
use aduana.PageDb.Txn.{info_n_pages, page_db_error_ok, page_db_error_internal}
use aduana.PageDb.Add.{PageDb}
pub mod Scores
pub mod Pages
mod Runs

abbrev pub page_db_error_no_page : ℕ
page_db_error_no_page = 4

module _ (env : Env) where
  -- How a function ends: the code, what it has written to its out parameter, and the database, or a
  -- pointer that was never set is used.
  pub data Answer (A : Type 0) : Type 0 where
    answer : ℕ → Option A → PageDb env → Answer A
    unset_pointer : Answer A

  -- `page_db_set_error`: the first error stays.
  unfoldable pub page_db_set_error : PageDb env → PageDb env
  page_db_set_error db = record db {
    error = if db.error == page_db_error_ok then page_db_error_internal else db.error;
  }

  unfoldable pub fail : {A : Type 0} → PageDb env → Answer A
  unfolding page_db_set_error
  fail db = let db' = page_db_set_error db in answer db'.error none db'

  -- page_db_get_info; the out parameter is a page or NULL. After a begin that fails, the transaction
  -- is aborted all the same; a page that cannot be read is NULL, since what is tested is the address
  -- of the out parameter.
  unfoldable pub page_db_get_info : PageDb env → ℕ → Answer (Option PageInfo)
  unfolding fail
  page_db_get_info db hash =
      if env.fault 0
      then unset_pointer
      else if env.fault 1 || env.fault 2
      then fail db
      else elim (env.hash2info_db.get db.hash2info hash) [
        | none ↦ answer page_db_error_ok (some none) db
        | some val ↦ answer page_db_error_ok (some (page_info_load env.smaz val)) db
      ]

  -- page_db_get_idx_cur, whose call of LMDB is the n-th.
  unfoldable pub page_db_get_idx_cur : ℕ → PageDb env → ℕ → Answer ℕ
  unfolding fail
  page_db_get_idx_cur n db hash =
      if env.fault n then fail db else elim (env.hash2idx_db.get db.hash2idx hash) [
        | none ↦ answer page_db_error_no_page (some 0) db
        | some idx ↦ answer page_db_error_ok (some idx) db
      ]

  unfoldable pub page_db_get_idx : PageDb env → ℕ → Answer ℕ
  unfolding page_db_set_error page_db_get_idx_cur
  page_db_get_idx db hash =
      if env.fault 0 || env.fault 1
      then answer page_db_error_internal none (page_db_set_error db)
      else page_db_get_idx_cur 2 db hash

  module _ (sys : System ℕ) where
    -- What the loop of page_db_get_scores leaves: the array, or an error, and the database, whose error
    -- page_db_get_idx_cur sets.
    pub data Filled : Type 0 where
      filled : MmapArray ℕ → Filled
      broken : PageDb env → Filled
      short_row : Filled

    -- The loop of page_db_get_scores over the rows of hash2info; `n` counts the calls of LMDB.
    -- `short_row` is the read past a row that is too short for a score.
    unfoldable pub fill : ℕ → PageDb env → List (ℕ × List ℕ) → MmapArray ℕ → Filled
    unfolding page_db_get_idx_cur page_db_set_error mmap_array_set
    fill n db [] scores = if env.fault n then broken db else filled scores
    fill n db ((hash, val) ∷ rows) scores =
        if env.fault n then broken db else elim (page_info_dump_get_score env.smaz val) [
          | none ↦ short_row
          | some score ↦
              if env.fault (n + 1)
              then broken (page_db_set_error db)
              else elim (env.hash2idx_db.get db.hash2idx hash) [
                | none ↦ fill (n + 2) db rows scores
                | some idx ↦
                    let (code, scores') = mmap_array_set scores idx score in
                    let rest = fill (n + 2) db rows scores' in
                    if is_ok code then rest else broken db
              ]
        ]

    -- page_db_get_scores over the rows of hash2info, with the array. Where a cursor cannot be opened,
    -- the cursors that were never set are closed.
    unfoldable pub page_db_get_scores : PageDb env → List (ℕ × List ℕ) → Answer (MmapArray ℕ)
    unfolding fill fail mmap_array_new mmap_array_zero
    page_db_get_scores db rows =
        if env.fault 0 || env.fault 1 || env.fault 2 || env.fault 3
        then unset_pointer
        else if env.fault 4
        then fail db
        else elim (env.info_db.get db.info info_n_pages) [
          | none ↦ fail db
          | some n_pages ↦
              let (code, scores) = mmap_array_new sys true n_pages in
              if not (is_ok code)
              then fail db
              else elim (fill 5 db rows (mmap_array_zero sys scores)) [
                | filled scores' ↦ answer db.error (some scores') db
                | broken db' ↦ fail db'
                | short_row ↦ unset_pointer
              ]
        ]
