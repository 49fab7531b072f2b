-- ===== src/TxnManager/Manager/Locks.antt =====
-- The locks of the counters where no pthread call fails, and what an expansion that failed leaves.
use aduana.Common.{
  ℕ, ◌+◌, ◌-◌, ◌^◌, ◌<◌, ◌≡◌, refl, arith, Bool, true, false, not, ◌==◌, ◌∙◌, Bool-cases, inl, inr,
  if◌then◌else◌,
}
use aduana.TxnManager.Counter.{
  Outcome, misused, Counter, and_then, once_free, pthread, lock_inc_dec, lock_inc_pos,
  unlock_inc_dec, unlock_inc_pos, cond_call, is_positive, inv_semaphore_inc, inv_semaphore_dec,
  inv_semaphore_block, wait_for_zero, inv_semaphore_release,
}
use aduana.TxnManager.Lmdb.{Lmdb}
use aduana.TxnManager.Manager.{
  TxnManager, counter, put_counter, put_env, error_set, return_code, fail, continue, is_idle,
  txn_manager_error_mdb,
}
use aduana.TxnManager.Manager.Expand.{
  error_thread, new_size, is_short, release_write, release_read, set_size, check_size,
  txn_manager_expand,
}
use aduana.TxnManager.Manager.Endings.{Ends}
use aduana.TxnManager.Manager.Tracked.{continue-Ends}

module _ (thread : ℕ → ℕ) (fine : (n : ℕ) → thread n ≡ 0) where
  -- A counter with both mutexes free and a value.
  abbrev pub IsFree : ℕ → Counter → Type 0
  IsFree v c = (c.value ≡ v) × (c.mtx_inc_dec ≡ false) × (c.mtx_inc_pos ≡ false)

  -- A counter with both mutexes taken.
  abbrev pub IsHeld : ℕ → Counter → Type 0
  IsHeld v c = (c.value ≡ v) × (c.mtx_inc_dec ≡ true) × (c.mtx_inc_pos ≡ true)

  pub inc-IsFree :
      (v : ℕ) (c : Counter)
      → v + 1 < 2 ^ 31
      → IsFree v c
      → Ends ⊥ (IsFree (v + 1)) (λ d. ⊥) (inv_semaphore_inc thread c)
  unfolding lock_inc_dec lock_inc_pos unlock_inc_dec unlock_inc_pos cond_call once_free and_then
      pthread inv_semaphore_inc
  inc-IsFree v c h f =
      rw
        (
          f.2, once_free, fine, and_then, f.1, once_free, fine, and_then, fine, and_then, fine,
          and_then,
        )
        (omega (arith, f.0), refl, refl)

  pub dec-IsFree :
      (v : ℕ) (c : Counter)
      → 0 < v
      → v < 2 ^ 31
      → IsFree v c
      → Ends ⊥ (IsFree (v - 1)) (λ d. ⊥) (inv_semaphore_dec thread c)
  unfolding lock_inc_dec lock_inc_pos unlock_inc_dec unlock_inc_pos cond_call once_free and_then
      pthread inv_semaphore_dec
  dec-IsFree v c p h f =
      rw (f.1, once_free, fine, and_then, fine, and_then, fine, and_then)
        (omega (arith, f.0, p), refl, f.2)

  wait-IsHeld :
      {v : ℕ} (c : Counter) → IsHeld v c → Ends ⊥ (IsHeld v) (λ d. ⊥) (wait_for_zero thread c)
  unfolding wait_for_zero pthread and_then
  wait-IsHeld c h = elim (Bool-cases (is_positive c.value)) [
    | inl t ↦ rw (t, fine) tt
    | inr f ↦ rw f h
  ]

  pub block-IsHeld : (c : Counter) → Ends ⊥ (IsHeld c.value) (λ d. ⊥) (inv_semaphore_block thread c)
  unfolding lock_inc_dec lock_inc_pos unlock_inc_dec unlock_inc_pos cond_call once_free and_then
      pthread inv_semaphore_block wait_for_zero
  block-IsHeld c = elim (Bool-cases c.mtx_inc_pos) [
    | inl t ↦ rw (t, once_free, and_then, and_then) tt
    | inr f ↦ elim (Bool-cases c.mtx_inc_dec) [
      | inl t ↦ rw (f, once_free, fine, and_then, t, once_free, and_then) tt
      | inr g ↦
          rw (f, once_free, fine, and_then, g, once_free, fine, and_then)
            (wait-IsHeld {v = c.value}
              (record {
                value = c.value;
                mtx_inc_dec = true;
                mtx_inc_pos = true;
                calls = c.calls + 1 + 1;
              })
              (refl, refl, refl))
    ]
  ]

  pub release-IsFree :
      (v : ℕ) (c : Counter)
      → IsHeld v c
      → Ends ⊥ (IsFree v) (λ d. ⊥) (inv_semaphore_release thread c)
  unfolding lock_inc_dec lock_inc_pos unlock_inc_dec unlock_inc_pos cond_call once_free and_then
      pthread inv_semaphore_release
  release-IsFree v c f = rw (fine, and_then, fine, and_then) (f.0, refl, refl)

module _ (thread : ℕ → ℕ) (fine : (n : ℕ) → thread n ≡ 0) (lmdb : Lmdb) where
  -- A manager with no error whose counters are free, with the values of `tm`.
  abbrev pub IsAsFree : TxnManager thread lmdb → TxnManager thread lmdb → Type 0
  IsAsFree tm t =
      (t.error ≡ 0)
      × IsFree thread fine tm.txn_counter_read.value t.txn_counter_read
      × IsFree thread fine tm.txn_counter_write.value t.txn_counter_write

  -- A manager whose counter of write transactions is locked.
  abbrev pub IsStuck : TxnManager thread lmdb → Type 0
  IsStuck t = t.txn_counter_write.mtx_inc_pos ≡ true

  abbrev Expands : TxnManager thread lmdb → Outcome (TxnManager thread lmdb) → Type 0
  Expands tm o = Ends (Unit {0}) (IsAsFree tm) IsStuck o

  fail-Expands :
      (tm t : TxnManager thread lmdb)
      → t.error ≡ 0
      → IsStuck t
      → Expands tm (fail thread lmdb txn_manager_error_mdb t)
  unfolding fail error_set return_code
  fail-Expands tm t e s = rw e s

  release_write-Expands :
      (tm t : TxnManager thread lmdb)
      → t.error ≡ 0
      → IsFree thread fine tm.txn_counter_read.value t.txn_counter_read
      → IsHeld thread fine tm.txn_counter_write.value t.txn_counter_write
      → Expands tm (release_write thread lmdb t)
  unfolding release_write put_counter counter return_code
  release_write-Expands tm t e r w =
      continue-Ends thread lmdb (λ k. 0) (Unit {0}) _ _ (IsAsFree tm) IsStuck t false
        (inv_semaphore_release thread t.txn_counter_write) (error_thread thread lmdb)
        (return_code thread lmdb)
        (release-IsFree thread fine tm.txn_counter_write.value t.txn_counter_write w)
        (λ d b. absurd b) (λ d f. rw e (refl, r, f))

  release_read-Expands :
      (tm t : TxnManager thread lmdb)
      → t.error ≡ 0
      → IsHeld thread fine tm.txn_counter_read.value t.txn_counter_read
      → IsHeld thread fine tm.txn_counter_write.value t.txn_counter_write
      → Expands tm (release_read thread lmdb t)
  unfolding release_read put_counter counter
  release_read-Expands tm t e r w =
      continue-Ends thread lmdb (λ k. 0) (Unit {0}) _ _ (IsAsFree tm) IsStuck t true
        (inv_semaphore_release thread t.txn_counter_read) (error_thread thread lmdb)
        (release_write thread lmdb)
        (release-IsFree thread fine tm.txn_counter_read.value t.txn_counter_read r)
        (λ d b. absurd b) (λ d f. release_write-Expands tm (put_counter thread lmdb t true d) e f w)

  if-Expands :
      (tm : TxnManager thread lmdb) (b : Bool) (x y : Outcome (TxnManager thread lmdb))
      → Expands tm x
      → Expands tm y
      → Expands tm (if b then x else y)
  if-Expands tm true x y p q = p
  if-Expands tm false x y p q = q

  set_size-Expands :
      (tm t : TxnManager thread lmdb) (mapsize size : ℕ)
      → t.error ≡ 0
      → IsHeld thread fine tm.txn_counter_read.value t.txn_counter_read
      → IsHeld thread fine tm.txn_counter_write.value t.txn_counter_write
      → Expands tm (set_size thread lmdb mapsize size t)
  unfolding set_size
  set_size-Expands tm t mapsize size e r w =
      let resized = lmdb.mdb_env_set_mapsize t.env (new_size thread lmdb mapsize size) in
      let t1 = put_env thread lmdb t resized.1 in
      let grown = release_read thread lmdb t1 in
      let failed = fail thread lmdb txn_manager_error_mdb t1 in
      if-Expands tm (not (is_idle thread lmdb t.env)) misused
        (if resized.0 == 0 then grown else failed) tt
        (if-Expands tm (resized.0 == 0) grown failed (release_read-Expands tm t1 e r w)
          (fail-Expands tm t1 e w.2))

  check_size-Expands :
      (tm t : TxnManager thread lmdb) (size : ℕ)
      → t.error ≡ 0
      → IsFree thread fine tm.txn_counter_read.value t.txn_counter_read
      → IsHeld thread fine tm.txn_counter_write.value t.txn_counter_write
      → Expands tm (check_size thread lmdb size t)
  unfolding check_size counter put_counter
  check_size-Expands tm t size e r w =
      let mapsize = (lmdb.mdb_env_info t.env).1 in
      let failed = fail thread lmdb txn_manager_error_mdb t in
      let small =
        is_short thread lmdb mapsize (lmdb.mdb_env_info t.env).2 (lmdb.mdb_env_stat t.env).1 in
      let grow =
        continue thread lmdb t true (inv_semaphore_block thread t.txn_counter_read)
          (error_thread thread lmdb) (set_size thread lmdb mapsize size) in
      let sized = if small then grow else release_write thread lmdb t in
      if-Expands tm (not ((lmdb.mdb_env_info t.env).0 == 0)) failed
        (if not ((lmdb.mdb_env_stat t.env).0 == 0) then failed else sized) (fail-Expands tm t e w.2)
        (if-Expands tm (not ((lmdb.mdb_env_stat t.env).0 == 0)) failed sized
          (fail-Expands tm t e w.2)
          (if-Expands tm small grow (release_write thread lmdb t)
            (continue-Ends thread lmdb (λ k. 0) (Unit {0}) _ _ (IsAsFree tm) IsStuck t true
              (inv_semaphore_block thread t.txn_counter_read) (error_thread thread lmdb)
              (set_size thread lmdb mapsize size) (block-IsHeld thread fine t.txn_counter_read)
              (λ d b. absurd b)
              (λ d h.
                set_size-Expands tm (put_counter thread lmdb t true d) mapsize size e
                  (h.0 ∙ r.0, h.1, h.2) w))
            (release_write-Expands tm t e r w)))

  -- How an expansion ends: it returns 0 and the counters are free again, or it returns an error and
  -- the counter of write transactions stays locked.
  pub txn_manager_expand-Expands :
      (tm : TxnManager thread lmdb) (size : ℕ)
      → tm.error ≡ 0
      → IsFree thread fine tm.txn_counter_read.value tm.txn_counter_read
      → Ends (Unit {0}) (IsAsFree tm) IsStuck (txn_manager_expand thread lmdb tm size)
  unfolding txn_manager_expand counter put_counter
  txn_manager_expand-Expands tm size e r =
      continue-Ends thread lmdb (λ k. 0) (Unit {0}) _ _ (IsAsFree tm) IsStuck tm false
        (inv_semaphore_block thread tm.txn_counter_write) (error_thread thread lmdb)
        (check_size thread lmdb size) (block-IsHeld thread fine tm.txn_counter_write)
        (λ d b. absurd b)
        (λ d h. check_size-Expands tm (put_counter thread lmdb tm false d) size e r h)
