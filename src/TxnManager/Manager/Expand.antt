-- ===== src/TxnManager/Manager/Expand.antt =====
-- lib/src/txn_manager.c: `txn_manager_expand`, one call at a time. Each of its jumps leaves the
-- counters as they are, and a jump to `error_thread` runs on into `error_mdb`.
use aduana.Common.{ℕ, ◌+◌, ◌*◌, ◌/◌, ◌%◌, ◌^◌, Bool, true, false, not, ltb, ◌==◌, if◌then◌else◌}
use aduana.TxnManager.Counter.{Outcome, misused, inv_semaphore_block, inv_semaphore_release}
use aduana.TxnManager.Lmdb.{Lmdb}
use aduana.TxnManager.Manager.{
  TxnManager, counter, error_set, fail, return_code, continue, is_idle, put_env,
  txn_manager_error_thread, txn_manager_error_mdb, mdb_minimum_free_pages,
}

module _ (thread : ℕ → ℕ) (lmdb : Lmdb) where
  -- From the label `error_thread` on.
  unfoldable pub error_thread : TxnManager thread lmdb → Outcome (TxnManager thread lmdb)
  unfolding error_set fail
  error_thread tm =
      fail thread lmdb txn_manager_error_mdb (error_set thread lmdb tm txn_manager_error_thread)

  -- `size == 0? info.me_mapsize*2: size`
  unfoldable pub new_size : ℕ → ℕ → ℕ
  new_size mapsize size = if size == 0 then (mapsize * 2) % 2 ^ 64 else size

  -- Whether less than MDB_MINIMUM_FREE_PAGES pages are free. The size of a page is not 0 in LMDB.
  unfoldable pub is_short : ℕ → ℕ → ℕ → Bool
  is_short mapsize last_pgno psize =
      ltb (mapsize / psize) ((last_pgno + mdb_minimum_free_pages) % 2 ^ 64)

  -- The end of `txn_manager_expand`.
  unfoldable pub release_write : TxnManager thread lmdb → Outcome (TxnManager thread lmdb)
  unfolding error_thread continue return_code counter inv_semaphore_release
  release_write tm =
      continue thread lmdb tm false (inv_semaphore_release thread (counter thread lmdb tm false))
        error_thread (return_code thread lmdb)

  unfoldable pub release_read : TxnManager thread lmdb → Outcome (TxnManager thread lmdb)
  unfolding error_thread continue release_write counter inv_semaphore_release
  release_read tm =
      continue thread lmdb tm true (inv_semaphore_release thread (counter thread lmdb tm true))
        error_thread release_write

  unfoldable pub set_size : ℕ → ℕ → TxnManager thread lmdb → Outcome (TxnManager thread lmdb)
  unfolding is_idle fail new_size release_read
  set_size mapsize size tm =
      let (rc, s) = lmdb.mdb_env_set_mapsize tm.env (new_size mapsize size) in
      if not (is_idle thread lmdb tm.env)
      then misused
      else if rc == 0
      then release_read (put_env thread lmdb tm s)
      else fail thread lmdb txn_manager_error_mdb (put_env thread lmdb tm s)

  -- What follows `inv_semaphore_block` of the write counter.
  unfoldable pub check_size : ℕ → TxnManager thread lmdb → Outcome (TxnManager thread lmdb)
  unfolding fail is_short error_thread continue set_size release_write counter inv_semaphore_block
  check_size size tm =
      let (info_rc, mapsize, last_pgno) = lmdb.mdb_env_info tm.env in
      let (stat_rc, psize) = lmdb.mdb_env_stat tm.env in
      if not (info_rc == 0)
      then fail thread lmdb txn_manager_error_mdb tm
      else if not (stat_rc == 0)
      then fail thread lmdb txn_manager_error_mdb tm
      else if is_short mapsize last_pgno psize
      then continue thread lmdb tm true (inv_semaphore_block thread (counter thread lmdb tm true))
          error_thread (set_size mapsize size)
      else release_write tm

  unfoldable pub txn_manager_expand : TxnManager thread lmdb → ℕ → Outcome (TxnManager thread lmdb)
  unfolding continue error_thread check_size counter inv_semaphore_block
  txn_manager_expand tm size =
      continue thread lmdb tm false (inv_semaphore_block thread (counter thread lmdb tm false))
        error_thread (check_size size)
