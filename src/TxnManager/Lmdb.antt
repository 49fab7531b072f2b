-- ===== src/TxnManager/Lmdb.antt =====
-- What lib/src/txn_manager.c calls: the environment of LMDB, as an interface.
use aduana.Common.{ℕ, ◌+◌, ◌<◌, ◌≡◌, ◌≢◌, Bool, not}

-- The states of an environment, as this process sees it. A transaction is known by whether it is
-- read-only. A function answers its code, 0 for success, and the next state.
pub record Lmdb : Type 1 where
  pub State : Type 0
  -- How many transactions of a kind are open in this process: `true` is read-only.
  pub active : State → Bool → ℕ
  pub mdb_txn_begin : State → Bool → ℕ × State
  pub mdb_txn_commit : State → Bool → ℕ × State
  pub mdb_txn_abort : State → Bool → State
  pub mdb_env_set_mapsize : State → ℕ → ℕ × State
  -- The code, with `me_mapsize` and `me_last_pgno`.
  pub mdb_env_info : State → ℕ × ℕ × ℕ
  -- The code, with `ms_psize`.
  pub mdb_env_stat : State → ℕ × ℕ
  -- A begin opens one transaction, or fails and opens none.
  pub begin_opens :
      (s : State) (rdonly : Bool)
      → (mdb_txn_begin s rdonly).0 ≡ 0
      → active (mdb_txn_begin s rdonly).1 rdonly ≡ active s rdonly + 1
  pub begin_others :
      (s : State) (rdonly : Bool)
      → active (mdb_txn_begin s rdonly).1 (not rdonly) ≡ active s (not rdonly)
  pub begin_fails :
      (s : State) (rdonly : Bool)
      → (mdb_txn_begin s rdonly).0 ≢ 0
      → active (mdb_txn_begin s rdonly).1 rdonly ≡ active s rdonly
  -- An open transaction is freed by a commit, also by one that fails, and by an abort.
  pub commit_frees :
      (s : State) (rdonly : Bool)
      → 0 < active s rdonly
      → active (mdb_txn_commit s rdonly).1 rdonly + 1 ≡ active s rdonly
  pub commit_others :
      (s : State) (rdonly : Bool)
      → active (mdb_txn_commit s rdonly).1 (not rdonly) ≡ active s (not rdonly)
  pub abort_frees :
      (s : State) (rdonly : Bool)
      → 0 < active s rdonly
      → active (mdb_txn_abort s rdonly) rdonly + 1 ≡ active s rdonly
  pub abort_others :
      (s : State) (rdonly : Bool)
      → active (mdb_txn_abort s rdonly) (not rdonly) ≡ active s (not rdonly)
  pub resize_keeps :
      (s : State) (size : ℕ) (rdonly : Bool)
      → active (mdb_env_set_mapsize s size).1 rdonly ≡ active s rdonly
