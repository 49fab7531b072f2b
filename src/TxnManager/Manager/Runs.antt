-- ===== src/TxnManager/Manager/Runs.antt =====
-- Runs of the transaction manager of lib/src/txn_manager.c, and the theorems there.
use aduana.Common.{ℕ, ◌≡◌, ◌≢◌, refl, arith, true, false}
use aduana.TxnManager.Counter.{
  returned, waits, misused, Counter, and_then, once_free, pthread, lock_inc_dec, lock_inc_pos,
  unlock_inc_dec, unlock_inc_pos, cond_call, is_positive, inv_semaphore_init, inv_semaphore_inc,
  inv_semaphore_dec, wait_for_zero, inv_semaphore_block, inv_semaphore_release,
  inv_semaphore_destroy, inv_semaphore_count,
}
use aduana.TxnManager.Plain.{PlainEnv, plain_lmdb}
use aduana.TxnManager.Manager.{
  TxnManager, counter, put_counter, error_set, return_code, fail, continue, is_idle,
  txn_manager_new, end_begin, begin_txn, txn_manager_begin, decrement, txn_manager_commit,
  txn_manager_abort, txn_manager_delete,
}
use aduana.TxnManager.Manager.Expand.{
  new_size, is_short, release_write, release_read, set_size, check_size, txn_manager_expand,
}
use aduana.TxnManager.Manager.History.{History, expand_not_misused}
use aduana.TxnManager.Manager.Leak.{never_deleted}
use aduana.TxnManager.Manager.Stuck.{expand_stuck}

abbrev no_failure : ℕ → ℕ
no_failure n = 0

pub never_fails : (n : ℕ) → no_failure n ≡ 0
never_fails n = refl

abbrev free : ℕ → ℕ → Counter
free value calls = record { value = value; mtx_inc_dec = false; mtx_inc_pos = false; calls = calls }

abbrev env : ℕ → ℕ → ℕ → ℕ → ℕ → PlainEnv
env reads writes mapsize begin_code info_code = record {
  reads = reads;
  writes = writes;
  mapsize = mapsize;
  begin_code = begin_code;
  info_code = info_code;
}

abbrev manager : PlainEnv → Counter → Counter → TxnManager no_failure plain_lmdb
manager e read write = record {
  env = e;
  txn_counter_read = read;
  txn_counter_write = write;
  error = 0;
}

abbrev start : TxnManager no_failure plain_lmdb
start = manager (env 0 0 40_960 0 0) (free 0 3) (free 0 3)

made :
    txn_manager_new no_failure plain_lmdb (env 0 0 40_960 0 0) (free 7 0) (free 8 0)
    ≡ returned 0 start
unfolding txn_manager_new continue fail return_code put_counter inv_semaphore_init and_then pthread
    cond_call unlock_inc_dec unlock_inc_pos
made = refl

-- A reader is open.
abbrev reading : TxnManager no_failure plain_lmdb
reading = manager (env 1 0 40_960 0 0) (free 1 7) (free 0 3)

begun : txn_manager_begin no_failure plain_lmdb start true ≡ returned 0 reading
unfolding txn_manager_begin begin_txn end_begin continue return_code counter put_counter
    inv_semaphore_inc and_then pthread once_free lock_inc_dec lock_inc_pos unlock_inc_dec
    unlock_inc_pos
begun = refl

idle_start : is_idle no_failure plain_lmdb (env 0 0 40_960 0 0) ≡ true
unfolding is_idle
idle_start = refl

reading_reached : History no_failure plain_lmdb start reading
unfolding counter
reading_reached = History.begin true {code = 0} History.here (omega arith) begun

expand_not_misused_example : txn_manager_expand no_failure plain_lmdb reading 0 ≢ misused
expand_not_misused_example =
    expand_not_misused no_failure plain_lmdb (env 0 0 40_960 0 0) (free 7 0) (free 8 0) start
      reading 0 idle_start made reading_reached

-- A database that is too small is doubled.
abbrev grown : TxnManager no_failure plain_lmdb
grown = manager (env 0 0 81_920 0 0) (free 0 7) (free 0 7)

expands : txn_manager_expand no_failure plain_lmdb start 0 ≡ returned 0 grown
unfolding txn_manager_expand check_size set_size release_read release_write new_size is_short
    is_idle continue return_code counter put_counter inv_semaphore_block wait_for_zero is_positive
    inv_semaphore_release and_then pthread once_free lock_inc_dec lock_inc_pos unlock_inc_dec
    unlock_inc_pos
expands = refl

-- `mdb_env_info` answers 5.
abbrev broken : TxnManager no_failure plain_lmdb
broken = manager (env 0 0 40_960 0 5) (free 0 3) (free 0 3)

abbrev stuck : TxnManager no_failure plain_lmdb
stuck = record {
  env = env 0 0 40_960 0 5;
  txn_counter_read = free 0 3;
  txn_counter_write = record { value = 0; mtx_inc_dec = true; mtx_inc_pos = true; calls = 5 };
  error = 4;
}

gets_stuck : txn_manager_expand no_failure plain_lmdb broken 0 ≡ returned 4 stuck
unfolding txn_manager_expand check_size continue fail error_set return_code counter put_counter
    inv_semaphore_block wait_for_zero is_positive and_then pthread once_free lock_inc_dec
    lock_inc_pos
gets_stuck = refl

-- A read transaction can still be begun, with the old error.
abbrev stuck_reading : TxnManager no_failure plain_lmdb
stuck_reading = record stuck { env = env 1 0 40_960 0 5; txn_counter_read = free 1 7 }

reads_on : txn_manager_begin no_failure plain_lmdb stuck true ≡ returned 4 stuck_reading
unfolding txn_manager_begin begin_txn end_begin continue return_code counter put_counter
    inv_semaphore_inc and_then pthread once_free lock_inc_dec lock_inc_pos unlock_inc_dec
    unlock_inc_pos
reads_on = refl

stuck_history : History no_failure plain_lmdb stuck stuck_reading
unfolding counter
stuck_history = History.begin true {code = 4} History.here (omega arith) reads_on

expand_stuck_example :
    (txn_manager_begin no_failure plain_lmdb stuck_reading false ≡ waits)
    × (txn_manager_expand no_failure plain_lmdb stuck_reading 7 ≡ waits)
expand_stuck_example =
    expand_stuck no_failure never_fails plain_lmdb broken stuck stuck_reading 0 7 3 refl
      (refl, refl, refl) gets_stuck stuck_history

-- `mdb_txn_begin` answers 12.
abbrev refusing : TxnManager no_failure plain_lmdb
refusing = manager (env 0 0 40_960 12 0) (free 0 3) (free 0 3)

abbrev leaking : TxnManager no_failure plain_lmdb
leaking = record {
  env = env 0 0 40_960 12 0;
  txn_counter_read = free 0 3;
  txn_counter_write = free 1 7;
  error = 4;
}

leaks : txn_manager_begin no_failure plain_lmdb refusing false ≡ returned 4 leaking
unfolding txn_manager_begin begin_txn end_begin fail error_set continue return_code counter
    put_counter inv_semaphore_inc and_then pthread once_free lock_inc_dec lock_inc_pos
    unlock_inc_dec unlock_inc_pos
leaks = refl

never_deleted_example : txn_manager_delete no_failure plain_lmdb leaking ≢ returned 0 leaking
unfolding counter
never_deleted_example =
    never_deleted no_failure never_fails plain_lmdb refusing leaking leaking leaking false 3 refl
      ((omega arith, omega arith), (omega arith, omega arith)) (refl, refl, refl) (omega arith)
      leaks History.here

-- A commit ends what was begun.
commits :
    txn_manager_commit no_failure plain_lmdb reading true
    ≡ returned 0 (manager (env 0 0 40_960 0 0) (free 0 10) (free 0 3))
unfolding txn_manager_commit decrement continue return_code counter put_counter inv_semaphore_dec
    and_then pthread once_free lock_inc_dec unlock_inc_dec cond_call
commits = refl

aborts :
    txn_manager_abort no_failure plain_lmdb reading true
    ≡ returned 0 (manager (env 0 0 40_960 0 0) (free 0 10) (free 0 3))
unfolding txn_manager_abort decrement continue return_code counter put_counter inv_semaphore_dec
    and_then pthread once_free lock_inc_dec unlock_inc_dec cond_call
aborts = refl

deletes :
    txn_manager_delete no_failure plain_lmdb start
    ≡ returned 0 (manager (env 0 0 40_960 0 0) (free 0 6) (free 0 6))
unfolding txn_manager_delete continue put_counter inv_semaphore_count inv_semaphore_destroy and_then
    pthread cond_call
deletes = refl
