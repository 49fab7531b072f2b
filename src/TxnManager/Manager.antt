-- ===== src/TxnManager/Manager.antt =====
-- lib/src/txn_manager.c: the functions of the transaction manager, one call at a time. Of the error
-- the model keeps the code, which is set where it was 0; its text is not modelled, nor are failing
-- allocations. A mutex of an error value is always locked.
pub mod Expand
pub mod Endings
pub mod Tracked
pub mod Resize
pub mod History
pub mod Locks
pub mod Leak
pub mod Stuck
mod Runs
use aduana.Common.{
  ℕ, zero, suc, ◌+◌, ◌*◌, ◌/◌, ◌^◌, Bool, true, false, ◌&&◌, not, ltb, ◌==◌, if◌then◌else◌,
}
use aduana.TxnManager.Counter.{
  Outcome, returned, waits, misused, Counter, inv_semaphore_init, inv_semaphore_inc,
  inv_semaphore_dec, inv_semaphore_count, inv_semaphore_block, inv_semaphore_release,
  inv_semaphore_destroy,
}
use aduana.TxnManager.Lmdb.{Lmdb}

abbrev pub txn_manager_error_internal : ℕ
txn_manager_error_internal = 1

abbrev pub txn_manager_error_thread : ℕ
txn_manager_error_thread = 3

abbrev pub txn_manager_error_mdb : ℕ
txn_manager_error_mdb = 4

abbrev pub mdb_minimum_free_pages : ℕ
mdb_minimum_free_pages = 10_000

-- -30785, as an `int` by its bit pattern
abbrev pub mdb_map_resized : ℕ
mdb_map_resized = 4_294_936_511

module _ (thread : ℕ → ℕ) (lmdb : Lmdb) where
  pub record TxnManager : Type 0 where
    pub env : lmdb.State
    pub txn_counter_read : Counter
    pub txn_counter_write : Counter
    pub error : ℕ

  -- `rdonly? &tm->txn_counter_read: &tm->txn_counter_write`
  unfoldable pub counter : TxnManager → Bool → Counter
  counter tm rdonly = if rdonly then tm.txn_counter_read else tm.txn_counter_write

  unfoldable pub put_counter : TxnManager → Bool → Counter → TxnManager
  put_counter tm rdonly c = record tm {
    txn_counter_read = if rdonly then c else tm.txn_counter_read;
    txn_counter_write = if rdonly then tm.txn_counter_write else c;
  }

  abbrev pub put_env : TxnManager → lmdb.State → TxnManager
  put_env tm s = record tm { env = s }

  -- `error_set`: the first error stays.
  unfoldable pub error_set : TxnManager → ℕ → TxnManager
  error_set tm code = record tm { error = if tm.error == 0 then code else tm.error }

  -- `return tm->error->code`
  unfoldable pub return_code : TxnManager → Outcome TxnManager
  return_code tm = returned tm.error tm

  -- `error_set(tm->error, code, ...); return tm->error->code`
  unfoldable pub fail : ℕ → TxnManager → Outcome TxnManager
  unfolding error_set return_code
  fail code tm = return_code (error_set tm code)

  -- A call on a counter of the manager: `bad` goes on where it answers a code, `good` on success.
  unfoldable pub continue :
      TxnManager
      → Bool
      → Outcome Counter
      → (TxnManager → Outcome TxnManager)
      → (TxnManager → Outcome TxnManager)
      → Outcome TxnManager
  unfolding put_counter
  continue tm rdonly (returned zero c) bad good = good (put_counter tm rdonly c)
  continue tm rdonly (returned (suc e) c) bad good = bad (put_counter tm rdonly c)
  continue tm rdonly waits bad good = waits
  continue tm rdonly misused bad good = misused

  -- Whether no transaction is open in this process, which `mdb_env_set_mapsize` needs.
  unfoldable pub is_idle : lmdb.State → Bool
  is_idle s = (lmdb.active s true == 0) && (lmdb.active s false == 0)

  -- `txn_manager_new`, where the memory is given.
  unfoldable pub txn_manager_new : lmdb.State → Counter → Counter → Outcome TxnManager
  unfolding continue fail return_code inv_semaphore_init
  txn_manager_new env read write =
      let tm : TxnManager = record {
        env = env;
        txn_counter_read = read;
        txn_counter_write = write;
        error = 0;
      } in
      continue tm true (inv_semaphore_init thread read) (fail txn_manager_error_thread) λ tm1.
        continue tm1 false (inv_semaphore_init thread write) (fail txn_manager_error_thread)
          return_code

  -- The end of `txn_manager_begin`, on the code of LMDB.
  unfoldable pub end_begin : TxnManager → ℕ × lmdb.State → Outcome TxnManager
  unfolding fail return_code
  end_begin tm (zero, s) = return_code (put_env tm s)
  end_begin tm (suc e, s) = fail txn_manager_error_mdb (put_env tm s)

  -- `mdb_env_set_mapsize(tm->env, 0) || mdb_txn_begin(tm->env, 0, flags, txn)`
  unfoldable pub adapt_size : TxnManager → Bool → Outcome TxnManager
  unfolding is_idle end_begin
  adapt_size tm rdonly =
      let (rc, s) = lmdb.mdb_env_set_mapsize tm.env 0 in
      if not (is_idle tm.env)
      then misused
      else if rc == 0
      then end_begin tm (lmdb.mdb_txn_begin s rdonly)
      else end_begin tm (1, s)

  -- `txn_manager_begin` behind the counter.
  unfoldable pub begin_txn : Bool → TxnManager → Outcome TxnManager
  unfolding adapt_size end_begin
  begin_txn rdonly tm =
      let (rc, s) = lmdb.mdb_txn_begin tm.env rdonly in
      if rc == mdb_map_resized then adapt_size (put_env tm s) rdonly else end_begin tm (rc, s)

  unfoldable pub txn_manager_begin : TxnManager → Bool → Outcome TxnManager
  unfolding continue begin_txn fail counter inv_semaphore_inc
  txn_manager_begin tm rdonly =
      continue tm rdonly (inv_semaphore_inc thread (counter tm rdonly))
        (fail txn_manager_error_thread) (begin_txn rdonly)

  -- `inv_semaphore_dec(counter)`, with its error.
  unfoldable pub decrement : Bool → TxnManager → Outcome TxnManager
  unfolding continue fail counter return_code inv_semaphore_dec
  decrement rdonly tm =
      continue tm rdonly (inv_semaphore_dec thread (counter tm rdonly))
        (fail txn_manager_error_thread) return_code

  unfoldable pub txn_manager_abort : TxnManager → Bool → Outcome TxnManager
  unfolding decrement
  txn_manager_abort tm rdonly = decrement rdonly (put_env tm (lmdb.mdb_txn_abort tm.env rdonly))

  -- A commit that fails has freed the transaction, and `txn_manager_abort` is called with it.
  unfoldable pub txn_manager_commit : TxnManager → Bool → Outcome TxnManager
  unfolding decrement
  txn_manager_commit tm rdonly =
      let (rc, s) = lmdb.mdb_txn_commit tm.env rdonly in
      if rc == 0 then decrement rdonly (put_env tm s) else misused

  -- `txn_manager_delete`; where it returns 0 by its last branch, the manager is freed.
  unfoldable pub txn_manager_delete : TxnManager → Outcome TxnManager
  unfolding continue fail inv_semaphore_destroy inv_semaphore_count
  txn_manager_delete tm =
      if not (inv_semaphore_count tm.txn_counter_read == 0)
      then fail txn_manager_error_internal tm
      else if not (inv_semaphore_count tm.txn_counter_write == 0)
      then fail txn_manager_error_internal tm
      else continue tm true (inv_semaphore_destroy thread tm.txn_counter_read)
          (fail txn_manager_error_thread)
          λ tm1.
            continue tm1 false (inv_semaphore_destroy thread tm1.txn_counter_write)
              (fail txn_manager_error_thread) (returned 0)
