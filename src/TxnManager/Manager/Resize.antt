-- ===== src/TxnManager/Manager/Resize.antt =====
-- `txn_manager_expand` of lib/src/txn_manager.c never resizes a database with open transactions.
use aduana.Common.{ℕ, ◌≡◌, refl, arith, Bool, true, false, not, ◌==◌, ◌∙◌, if◌then◌else◌}
use aduana.TxnManager.Counter.{
  Outcome, misused, Counter, inv_semaphore_block, inv_semaphore_release,
}
use aduana.TxnManager.Lmdb.{Lmdb}
use aduana.TxnManager.Manager.{
  TxnManager, counter, put_counter, error_set, return_code, fail, continue, put_env, is_idle,
  txn_manager_error_thread, txn_manager_error_mdb,
}
use aduana.TxnManager.Manager.Expand.{
  error_thread, new_size, is_short, release_write, release_read, set_size, check_size,
  txn_manager_expand,
}
use aduana.TxnManager.Manager.Endings.{inv_semaphore_block-Ends, inv_semaphore_release-Keeps}
use aduana.TxnManager.Manager.Tracked.{
  IsTracked, Tracks, return_code-Tracks, fail-Tracks, continue-Tracks, put-IsTracked, if-Tracks,
  of_kind,
}

module _ (thread : ℕ → ℕ) (lmdb : Lmdb) (gap : Bool → ℕ) where
  error_thread-Tracks :
      (tm : TxnManager thread lmdb)
      → IsTracked thread lmdb gap tm
      → Tracks thread lmdb gap ⊥ (error_thread thread lmdb tm)
  unfolding error_thread error_set
  error_thread-Tracks tm i =
      fail-Tracks thread lmdb gap ⊥ txn_manager_error_mdb
        (error_set thread lmdb tm txn_manager_error_thread) i

  -- A counter that was changed, but not its value.
  kept :
      (tm : TxnManager thread lmdb) (rdonly : Bool) (c : Counter)
      → IsTracked thread lmdb gap tm
      → c.value ≡ (counter thread lmdb tm rdonly).value
      → IsTracked thread lmdb gap (put_counter thread lmdb tm rdonly c)
  unfolding put_counter
  kept tm rdonly c i e =
      put-IsTracked thread lmdb gap tm rdonly c tm.env i
        (
          omega (arith, e, (of_kind thread lmdb gap tm i rdonly).0),
          omega (arith, e, (of_kind thread lmdb gap tm i rdonly).1),
        )
        refl

  -- Both releases end this way.
  release-Tracks :
      (tm : TxnManager thread lmdb) (rdonly : Bool)
      (next : TxnManager thread lmdb → Outcome (TxnManager thread lmdb))
      → IsTracked thread lmdb gap tm
      → ((t : TxnManager thread lmdb)
          → IsTracked thread lmdb gap t
          → Tracks thread lmdb gap ⊥ (next t))
      → Tracks thread lmdb gap ⊥ (
          continue thread lmdb tm rdonly
            (inv_semaphore_release thread (counter thread lmdb tm rdonly))
            (error_thread thread lmdb)
            next)
  release-Tracks tm rdonly next i n =
      let c = counter thread lmdb tm rdonly in
      continue-Tracks thread lmdb gap ⊥ (λ d. d.value ≡ c.value) (λ d. d.value ≡ c.value) tm rdonly
        (inv_semaphore_release thread c) (error_thread thread lmdb) next
        (inv_semaphore_release-Keeps (λ v. v ≡ c.value) thread c.value refl c refl)
        (λ d e. error_thread-Tracks (put_counter thread lmdb tm rdonly d) (kept tm rdonly d i e))
        (λ d e. n (put_counter thread lmdb tm rdonly d) (kept tm rdonly d i e))

  release_write-Tracks :
      (tm : TxnManager thread lmdb)
      → IsTracked thread lmdb gap tm
      → Tracks thread lmdb gap ⊥ (release_write thread lmdb tm)
  unfolding release_write
  release_write-Tracks tm i =
      release-Tracks tm false (return_code thread lmdb) i (return_code-Tracks thread lmdb gap ⊥)

  release_read-Tracks :
      (tm : TxnManager thread lmdb)
      → IsTracked thread lmdb gap tm
      → Tracks thread lmdb gap ⊥ (release_read thread lmdb tm)
  unfolding release_read
  release_read-Tracks tm i =
      release-Tracks tm true (release_write thread lmdb) i release_write-Tracks

  set_size-Tracks :
      (mapsize size : ℕ) (tm : TxnManager thread lmdb)
      → IsTracked thread lmdb gap tm
      → is_idle thread lmdb tm.env ≡ true
      → Tracks thread lmdb gap ⊥ (set_size thread lmdb mapsize size tm)
  unfolding set_size
  set_size-Tracks mapsize size tm i idle =
      let resized = lmdb.mdb_env_set_mapsize tm.env (new_size thread lmdb mapsize size) in
      let tm1 = put_env thread lmdb tm resized.1 in
      let i1 : IsTracked thread lmdb gap tm1 = (
        (
          omega (arith, lmdb.resize_keeps tm.env (new_size thread lmdb mapsize size) true, i.0.0),
          i.0.1,
        ),
        (
          omega (arith, lmdb.resize_keeps tm.env (new_size thread lmdb mapsize size) false, i.1.0),
          i.1.1,
        ),
      ) in
      if-Tracks thread lmdb gap ⊥ (not (is_idle thread lmdb tm.env)) misused _
        (λ t. ground (arith, t, idle))
        λ _.
          if-Tracks thread lmdb gap ⊥ (resized.0 == 0) _ _ (λ _. release_read-Tracks tm1 i1)
            (λ _. fail-Tracks thread lmdb gap ⊥ txn_manager_error_mdb tm1 i1)

  check_size-Tracks :
      (size : ℕ) (tm : TxnManager thread lmdb)
      → IsTracked thread lmdb gap tm
      → tm.txn_counter_write.value ≡ 0
      → Tracks thread lmdb gap ⊥ (check_size thread lmdb size tm)
  unfolding check_size counter put_counter
  check_size-Tracks size tm i w =
      let mapsize = (lmdb.mdb_env_info tm.env).1 in
      let c = tm.txn_counter_read in
      let failed = fail thread lmdb txn_manager_error_mdb tm in
      let small =
        is_short thread lmdb mapsize (lmdb.mdb_env_info tm.env).2 (lmdb.mdb_env_stat tm.env).1 in
      let grow =
        continue thread lmdb tm true (inv_semaphore_block thread c) (error_thread thread lmdb)
          (set_size thread lmdb mapsize size) in
      let sized = if small then grow else release_write thread lmdb tm in
      let on_fail = fail-Tracks thread lmdb gap ⊥ txn_manager_error_mdb tm i in
      if-Tracks thread lmdb gap ⊥ (not ((lmdb.mdb_env_info tm.env).0 == 0)) failed
        (if not ((lmdb.mdb_env_stat tm.env).0 == 0) then failed else sized) (λ _. on_fail)
        λ _.
          if-Tracks thread lmdb gap ⊥ (not ((lmdb.mdb_env_stat tm.env).0 == 0)) failed sized
            (λ _. on_fail)
            λ _.
              if-Tracks thread lmdb gap ⊥ small grow (release_write thread lmdb tm)
                (λ _.
                  continue-Tracks thread lmdb gap ⊥ _ _ tm true (inv_semaphore_block thread c)
                    (error_thread thread lmdb) (set_size thread lmdb mapsize size)
                    (inv_semaphore_block-Ends thread c i.0.1)
                    (λ d e.
                      error_thread-Tracks (put_counter thread lmdb tm true d) (kept tm true d i e))
                    (λ d q.
                      set_size-Tracks mapsize size (put_counter thread lmdb tm true d)
                        (kept tm true d i q.0)
                        (idle (omega (arith, q.1, i.0.0)) (omega (arith, w, i.1.0)))))
                (λ _. release_write-Tracks tm i)
    where
      idle :
          lmdb.active tm.env true ≡ 0
          → lmdb.active tm.env false ≡ 0
          → is_idle thread lmdb tm.env ≡ true
      idle a b = rw (is_idle, a, b) refl

  -- `txn_manager_expand`, however it ends, keeps every open transaction counted.
  pub txn_manager_expand-Tracks :
      (tm : TxnManager thread lmdb) (size : ℕ)
      → IsTracked thread lmdb gap tm
      → Tracks thread lmdb gap ⊥ (txn_manager_expand thread lmdb tm size)
  unfolding txn_manager_expand counter put_counter
  txn_manager_expand-Tracks tm size i =
      let c = tm.txn_counter_write in
      continue-Tracks thread lmdb gap ⊥ _ _ tm false (inv_semaphore_block thread c)
        (error_thread thread lmdb) (check_size thread lmdb size)
        (inv_semaphore_block-Ends thread c i.1.1)
        (λ d e. error_thread-Tracks (put_counter thread lmdb tm false d) (kept tm false d i e))
        (λ d q.
          check_size-Tracks size (put_counter thread lmdb tm false d) (kept tm false d i q.0)
            (q.0 ∙ q.1))
