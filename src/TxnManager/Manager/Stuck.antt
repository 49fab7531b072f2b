-- ===== src/TxnManager/Manager/Stuck.antt =====
-- What an expansion that failed leaves of the manager of lib/src/txn_manager.c, where no pthread call
-- fails.
use mathlib.Core.Path.{subst}
use aduana.Common.{
  ℕ, zero, suc, ◌≡◌, refl, Bool, Bool-cases, inl, inr, true, false, not, ◌==◌, if◌then◌else◌,
}
use aduana.TxnManager.Counter.{
  Outcome, returned, waits, misused, Counter, and_then, once_free, pthread, cond_call,
  inv_semaphore_dec, inv_semaphore_block, lock_inc_dec, lock_inc_pos, unlock_inc_dec,
  unlock_inc_pos, inv_semaphore_inc,
}
use aduana.TxnManager.Lmdb.{Lmdb}
use aduana.TxnManager.Manager.{
  txn_manager_error_mdb, TxnManager, counter, put_counter, put_env, error_set, return_code, fail,
  continue, is_idle, end_begin, adapt_size, begin_txn, txn_manager_begin, decrement,
  txn_manager_commit, txn_manager_abort, txn_manager_error_thread,
}
use aduana.TxnManager.Manager.Expand.{txn_manager_expand}
use aduana.TxnManager.Manager.Endings.{Ends}
use aduana.TxnManager.Manager.Tracked.{continue-Ends}
use aduana.TxnManager.Manager.History.{returned-Ends, History}
use aduana.TxnManager.Manager.Locks.{IsFree, IsAsFree, IsStuck, txn_manager_expand-Expands}

module _ (thread : ℕ → ℕ) (fine : (n : ℕ) → thread n ≡ 0) (lmdb : Lmdb) where
  locked_waits :
      (t : TxnManager thread lmdb)
      → t.txn_counter_write.mtx_inc_pos ≡ true
      → txn_manager_begin thread lmdb t false ≡ waits
  unfolding txn_manager_begin counter continue inv_semaphore_inc lock_inc_pos once_free and_then
  locked_waits t h = rw h refl

  inv_semaphore_dec-locked :
      (c : Counter)
      → c.mtx_inc_pos ≡ true
      → Ends ⊥ (λ d. d.mtx_inc_pos ≡ true) (λ d. ⊥) (inv_semaphore_dec thread c)
  unfolding lock_inc_dec unlock_inc_dec cond_call once_free and_then pthread inv_semaphore_dec
  inv_semaphore_dec-locked c h = elim (Bool-cases c.mtx_inc_dec) [
    | inl taken ↦ rw (taken, once_free, and_then, and_then) tt
    | inr unlocked ↦ rw (unlocked, once_free, fine, and_then, fine, and_then, fine, and_then) h
  ]

  abbrev StaysStuck : Outcome (TxnManager thread lmdb) → Type 0
  StaysStuck o = Ends (Unit {0}) (IsStuck thread fine lmdb) (IsStuck thread fine lmdb) o

  returned-StaysStuck :
      (e : ℕ) (t : TxnManager thread lmdb) → IsStuck thread fine lmdb t → StaysStuck (returned e t)
  returned-StaysStuck zero t h = h
  returned-StaysStuck (suc e) t h = h

  fail-StaysStuck :
      (n : ℕ) (t : TxnManager thread lmdb)
      → IsStuck thread fine lmdb t
      → StaysStuck (fail thread lmdb n t)
  unfolding fail return_code error_set
  fail-StaysStuck n t h =
      returned-StaysStuck (if t.error == 0 then n else t.error) (error_set thread lmdb t n) h

  return_code-StaysStuck :
      (t : TxnManager thread lmdb)
      → IsStuck thread fine lmdb t
      → StaysStuck (return_code thread lmdb t)
  unfolding return_code
  return_code-StaysStuck t h = returned-StaysStuck t.error t h

  inv_semaphore_inc-Ends :
      (c : Counter) → Ends ⊥ (λ d. Unit {0}) (λ d. Unit {0}) (inv_semaphore_inc thread c)
  unfolding lock_inc_dec lock_inc_pos unlock_inc_dec unlock_inc_pos once_free and_then pthread
      inv_semaphore_inc
  inv_semaphore_inc-Ends c = elim (Bool-cases c.mtx_inc_pos) [
    | inl taken ↦ rw (taken, once_free, and_then, and_then, and_then) tt
    | inr unlocked ↦ elim (Bool-cases c.mtx_inc_dec) [
      | inl taken ↦
          rw (unlocked, once_free, fine, and_then, taken, once_free, and_then, and_then) tt
      | inr unlocked2 ↦
          rw
            (
              unlocked, once_free, fine, and_then, unlocked2, once_free, fine, and_then, fine,
              and_then, fine, and_then,
            )
            tt
    ]
  ]

  inv_semaphore_dec-Ends :
      (c : Counter) → Ends ⊥ (λ d. Unit {0}) (λ d. Unit {0}) (inv_semaphore_dec thread c)
  unfolding lock_inc_dec unlock_inc_dec cond_call once_free and_then pthread inv_semaphore_dec
  inv_semaphore_dec-Ends c = elim (Bool-cases c.mtx_inc_dec) [
    | inl taken ↦ rw (taken, once_free, and_then, and_then) tt
    | inr unlocked ↦ rw (unlocked, once_free, fine, and_then, fine, and_then, fine, and_then) tt
  ]

  end_begin-StaysStuck :
      (t : TxnManager thread lmdb) (p : ℕ × lmdb.State)
      → IsStuck thread fine lmdb t
      → StaysStuck (end_begin thread lmdb t p)
  unfolding end_begin
  end_begin-StaysStuck t (zero, s) h = return_code-StaysStuck (put_env thread lmdb t s) h
  end_begin-StaysStuck t (suc e, s) h =
      fail-StaysStuck txn_manager_error_mdb (put_env thread lmdb t s) h

  if-StaysStuck :
      (b : Bool) (x y : Outcome (TxnManager thread lmdb))
      → StaysStuck x
      → StaysStuck y
      → StaysStuck (if b then x else y)
  if-StaysStuck true x y p q = p
  if-StaysStuck false x y p q = q

  begin_txn-StaysStuck :
      (rdonly : Bool) (t : TxnManager thread lmdb)
      → IsStuck thread fine lmdb t
      → StaysStuck (begin_txn thread lmdb rdonly t)
  unfolding begin_txn adapt_size
  begin_txn-StaysStuck rdonly t h =
      let s = (lmdb.mdb_txn_begin t.env rdonly).1 in
      let resized = lmdb.mdb_env_set_mapsize s 0 in
      let t1 = put_env thread lmdb t s in
      let again = end_begin thread lmdb t1 (lmdb.mdb_txn_begin resized.1 rdonly) in
      let failed = end_begin thread lmdb t1 (1, resized.1) in
      if-StaysStuck _ (adapt_size thread lmdb t1 rdonly)
        (end_begin thread lmdb t (lmdb.mdb_txn_begin t.env rdonly))
        (if-StaysStuck (not (is_idle thread lmdb s)) misused
          (if resized.0 == 0 then again else failed) tt
          (if-StaysStuck (resized.0 == 0) again failed
            (end_begin-StaysStuck t1 (lmdb.mdb_txn_begin resized.1 rdonly) h)
            (end_begin-StaysStuck t1 (1, resized.1) h)))
        (end_begin-StaysStuck t (lmdb.mdb_txn_begin t.env rdonly) h)

  begin-StaysStuck :
      (t : TxnManager thread lmdb) (rdonly : Bool)
      → IsStuck thread fine lmdb t
      → StaysStuck (txn_manager_begin thread lmdb t rdonly)
  unfolding txn_manager_begin counter put_counter
  begin-StaysStuck t false h = rw (locked_waits t h) tt
  begin-StaysStuck t true h =
      continue-Ends thread lmdb (λ k. 0) (Unit {0}) (λ c. Unit {0}) (λ c. Unit {0})
        (IsStuck thread fine lmdb) (IsStuck thread fine lmdb) t true
        (inv_semaphore_inc thread t.txn_counter_read) (fail thread lmdb txn_manager_error_thread)
        (begin_txn thread lmdb true) (inv_semaphore_inc-Ends t.txn_counter_read)
        (λ c u. fail-StaysStuck txn_manager_error_thread (put_counter thread lmdb t true c) h)
        (λ c u. begin_txn-StaysStuck true (put_counter thread lmdb t true c) h)

  decrement-StaysStuck :
      (t : TxnManager thread lmdb) (rdonly : Bool)
      → IsStuck thread fine lmdb t
      → StaysStuck (decrement thread lmdb rdonly t)
  unfolding decrement counter put_counter
  decrement-StaysStuck t true h =
      continue-Ends thread lmdb (λ k. 0) (Unit {0}) (λ c. Unit {0}) (λ c. Unit {0})
        (IsStuck thread fine lmdb) (IsStuck thread fine lmdb) t true
        (inv_semaphore_dec thread t.txn_counter_read) (fail thread lmdb txn_manager_error_thread)
        (return_code thread lmdb) (inv_semaphore_dec-Ends t.txn_counter_read)
        (λ c u. fail-StaysStuck txn_manager_error_thread (put_counter thread lmdb t true c) h)
        (λ c u. return_code-StaysStuck (put_counter thread lmdb t true c) h)
  decrement-StaysStuck t false h =
      continue-Ends thread lmdb (λ k. 0) (Unit {0}) (λ c. c.mtx_inc_pos ≡ true) (λ c. ⊥)
        (IsStuck thread fine lmdb) (IsStuck thread fine lmdb) t false
        (inv_semaphore_dec thread t.txn_counter_write) (fail thread lmdb txn_manager_error_thread)
        (return_code thread lmdb) (inv_semaphore_dec-locked t.txn_counter_write h) (λ c b. absurd b)
        (λ c u. return_code-StaysStuck (put_counter thread lmdb t false c) u)

  commit-StaysStuck :
      (t : TxnManager thread lmdb) (rdonly : Bool)
      → IsStuck thread fine lmdb t
      → StaysStuck (txn_manager_commit thread lmdb t rdonly)
  unfolding txn_manager_commit
  commit-StaysStuck t rdonly h =
      let s = (lmdb.mdb_txn_commit t.env rdonly).1 in
      if-StaysStuck _ (decrement thread lmdb rdonly (put_env thread lmdb t s)) misused
        (decrement-StaysStuck (put_env thread lmdb t s) rdonly h) tt

  abort-StaysStuck :
      (t : TxnManager thread lmdb) (rdonly : Bool)
      → IsStuck thread fine lmdb t
      → StaysStuck (txn_manager_abort thread lmdb t rdonly)
  unfolding txn_manager_abort
  abort-StaysStuck t rdonly h =
      decrement-StaysStuck (put_env thread lmdb t (lmdb.mdb_txn_abort t.env rdonly)) rdonly h

  expand-waits :
      (t : TxnManager thread lmdb) (size : ℕ)
      → IsStuck thread fine lmdb t
      → txn_manager_expand thread lmdb t size ≡ waits
  unfolding txn_manager_expand counter continue inv_semaphore_block lock_inc_pos once_free and_then
  expand-waits t size h = rw h refl

  -- The counter stays locked, whatever is called later.
  History-IsStuck :
      {start t : TxnManager thread lmdb}
      → IsStuck thread fine lmdb start
      → History thread lmdb start t
      → IsStuck thread fine lmdb t
  History-IsStuck h History.here = h
  History-IsStuck h (History.begin rdonly {code = e} {tm = tm} {t = t} g v q) =
      returned-Ends (Unit {0}) (IsStuck thread fine lmdb) _ e t
        (begin-StaysStuck tm rdonly (History-IsStuck h g)) q
  History-IsStuck h (History.commit rdonly {code = e} {tm = tm} {t = t} g p q) =
      returned-Ends (Unit {0}) (IsStuck thread fine lmdb) _ e t
        (commit-StaysStuck tm rdonly (History-IsStuck h g)) q
  History-IsStuck h (History.abort rdonly {code = e} {tm = tm} {t = t} g p q) =
      returned-Ends (Unit {0}) (IsStuck thread fine lmdb) _ e t
        (abort-StaysStuck tm rdonly (History-IsStuck h g)) q
  History-IsStuck h (History.expand size {code = e} {tm = tm} {t = t} g q) =
      let w = expand-waits tm size (History-IsStuck h g) in absurd (cc (w, q))

  -- Where no pthread call fails, the manager has no error and its counter of read transactions is free:
  -- after an expansion that returned an error, and any calls of the manager's functions that returned,
  -- `txn_manager_begin` of a write transaction waits, and so does `txn_manager_expand`.
  pub expand_stuck :
      (tm t u : TxnManager thread lmdb) (size size' code : ℕ)
      → tm.error ≡ 0
      → IsFree thread fine tm.txn_counter_read.value tm.txn_counter_read
      → txn_manager_expand thread lmdb tm size ≡ returned (suc code) t
      → History thread lmdb t u
      → (txn_manager_begin thread lmdb u false ≡ waits)
        × (txn_manager_expand thread lmdb u size' ≡ waits)
  expand_stuck tm t u size size' code e r q g =
      let stuck =
        History-IsStuck
          (subst (Ends (Unit {0}) (IsAsFree thread fine lmdb tm) (IsStuck thread fine lmdb)) q
            (txn_manager_expand-Expands thread fine lmdb tm size e r))
          g in
      (locked_waits u stuck, expand-waits u size' stuck)
