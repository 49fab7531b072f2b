-- ===== src/TxnManager/Manager/Tracked.antt =====
-- The transactions that are open and the counters of the manager.
use aduana.Common.{
  ℕ, zero, suc, ◌+◌, ◌^◌, ◌≤◌, ◌<◌, ◌≡◌, ◌≢◌, refl, arith, Bool, true, false, not, Bool-cases, inl,
  inr, ◌==◌, ◌∙◌, ◌⊎◌, if◌then◌else◌,
}
use aduana.TxnManager.Counter.{
  Outcome, returned, waits, misused, Counter, inv_semaphore_init, inv_semaphore_inc,
  inv_semaphore_dec,
}
use aduana.TxnManager.Lmdb.{Lmdb}
use aduana.TxnManager.Manager.{
  TxnManager, counter, put_counter, error_set, return_code, fail, continue, put_env, is_idle,
  end_begin, adapt_size, begin_txn, txn_manager_new, txn_manager_begin, decrement,
  txn_manager_abort, txn_manager_commit, txn_manager_error_thread, txn_manager_error_mdb,
  mdb_map_resized,
}
use aduana.TxnManager.Manager.Endings.{
  Ends, inv_semaphore_init-Ends, inv_semaphore_inc-At, inv_semaphore_dec-At,
}

module _ (thread : ℕ → ℕ) (lmdb : Lmdb) (gap : Bool → ℕ) where
  -- Every open transaction of a kind is counted, with `gap` more, and the counter is far from an
  -- overflow.
  abbrev pub Counts : Bool → ℕ → ℕ → Type 0
  Counts kind active value = (active + gap kind ≤ value) × (value < 2 ^ 31)

  abbrev pub IsTracked : TxnManager thread lmdb → Type 0
  IsTracked tm =
      Counts true (lmdb.active tm.env true) tm.txn_counter_read.value
      × Counts false (lmdb.active tm.env false) tm.txn_counter_write.value

  -- Wherever a call ends, the transactions are tracked.
  abbrev pub Tracks : Type 0 → Outcome (TxnManager thread lmdb) → Type 0
  Tracks M o = Ends M IsTracked IsTracked o

  pub return_code-Tracks :
      (M : Type 0) (tm : TxnManager thread lmdb)
      → IsTracked tm
      → Tracks M (return_code thread lmdb tm)
  unfolding return_code
  return_code-Tracks M tm i = on_code tm.error
    where
      on_code : (n : ℕ) → Tracks M (returned n tm)
      on_code zero = i
      on_code (suc n) = i

  pub fail-Tracks :
      (M : Type 0) (code : ℕ) (tm : TxnManager thread lmdb)
      → IsTracked tm
      → Tracks M (fail thread lmdb code tm)
  unfolding fail error_set
  fail-Tracks M code tm i = return_code-Tracks M (error_set thread lmdb tm code) i

  -- The goals of the two ways to go on behind a call on a counter.
  pub continue-Ends :
      (M : Type 0) (Q R : Counter → Type 0) (Q' R' : TxnManager thread lmdb → Type 0)
      (tm : TxnManager thread lmdb) (rdonly : Bool) (o : Outcome Counter)
      (bad good : TxnManager thread lmdb → Outcome (TxnManager thread lmdb))
      → Ends ⊥ Q R o
      → ((c : Counter) → R c → Ends M Q' R' (bad (put_counter thread lmdb tm rdonly c)))
      → ((c : Counter) → Q c → Ends M Q' R' (good (put_counter thread lmdb tm rdonly c)))
      → Ends M Q' R' (continue thread lmdb tm rdonly o bad good)
  unfolding continue
  continue-Ends M Q R Q' R' tm rdonly (returned zero c) bad good h b g = g c h
  continue-Ends M Q R Q' R' tm rdonly (returned (suc e) c) bad good h b g = b c h
  continue-Ends M Q R Q' R' tm rdonly waits bad good h b g = tt
  continue-Ends M Q R Q' R' tm rdonly misused bad good h b g = absurd h

  pub continue-Tracks :
      (M : Type 0) (Q R : Counter → Type 0) (tm : TxnManager thread lmdb) (rdonly : Bool)
      (o : Outcome Counter) (bad good : TxnManager thread lmdb → Outcome (TxnManager thread lmdb))
      → Ends ⊥ Q R o
      → ((c : Counter) → R c → Tracks M (bad (put_counter thread lmdb tm rdonly c)))
      → ((c : Counter) → Q c → Tracks M (good (put_counter thread lmdb tm rdonly c)))
      → Tracks M (continue thread lmdb tm rdonly o bad good)
  continue-Tracks M Q R = continue-Ends M Q R IsTracked IsTracked

  -- Where the counter of a kind and the open transactions of this kind change together.
  pub put-IsTracked :
      (tm : TxnManager thread lmdb) (rdonly : Bool) (c : Counter) (s : lmdb.State)
      → IsTracked tm
      → Counts rdonly (lmdb.active s rdonly) c.value
      → lmdb.active s (not rdonly) ≡ lmdb.active tm.env (not rdonly)
      → IsTracked (put_env thread lmdb (put_counter thread lmdb tm rdonly c) s)
  unfolding put_counter
  put-IsTracked tm true c s i n e = (n, rw e i.1)
  put-IsTracked tm false c s i n e = (rw e i.0, n)

  pub if-Tracks :
      (M : Type 0) (b : Bool) (x y : Outcome (TxnManager thread lmdb))
      → (b ≡ true → Tracks M x)
      → (b ≡ false → Tracks M y)
      → Tracks M (if b then x else y)
  if-Tracks M true x y p q = p refl
  if-Tracks M false x y p q = q refl

  end_begin-Tracks :
      (M : Type 0) (tm : TxnManager thread lmdb) (p : ℕ × lmdb.State)
      → IsTracked (put_env thread lmdb tm p.1)
      → Tracks M (end_begin thread lmdb tm p)
  unfolding end_begin
  end_begin-Tracks M tm (zero, s) i = return_code-Tracks M (put_env thread lmdb tm s) i
  end_begin-Tracks M tm (suc e, s) i =
      fail-Tracks M txn_manager_error_mdb (put_env thread lmdb tm s) i

  pub of_kind :
      (tm : TxnManager thread lmdb)
      → IsTracked tm
      → (kind : Bool) → Counts kind (lmdb.active tm.env kind) (counter thread lmdb tm kind).value
  unfolding counter
  of_kind tm i true = i.0
  of_kind tm i false = i.1

  pub begin_at_most :
      (s : lmdb.State) (kind : Bool)
      → lmdb.active (lmdb.mdb_txn_begin s kind).1 kind ≤ lmdb.active s kind + 1
  begin_at_most s kind = on_test (Bool-cases ((lmdb.mdb_txn_begin s kind).0 == 0))
    where
      on_test :
          (((lmdb.mdb_txn_begin s kind).0 == 0) ≡ true)
            ⊎ (((lmdb.mdb_txn_begin s kind).0 == 0) ≡ false)
          → lmdb.active (lmdb.mdb_txn_begin s kind).1 kind ≤ lmdb.active s kind + 1
      on_test (inl t) = omega (arith, lmdb.begin_opens s kind (ground (arith, t)))
      on_test (inr f) = omega (arith, lmdb.begin_fails s kind (λ z. ground (arith, f, z)))

  -- A begin, from an environment with as many open transactions, behind an increment.
  begun :
      (tm : TxnManager thread lmdb) (rdonly : Bool) (c : Counter) (s : lmdb.State)
      → IsTracked tm
      → c.value ≡ (counter thread lmdb tm rdonly).value + 1
      → c.value < 2 ^ 31
      → ((kind : Bool) → lmdb.active s kind ≡ lmdb.active tm.env kind)
      → IsTracked (
          put_env thread lmdb (put_counter thread lmdb tm rdonly c) (lmdb.mdb_txn_begin s rdonly).1)
  begun tm rdonly c s i e h same =
      put-IsTracked tm rdonly c (lmdb.mdb_txn_begin s rdonly).1 i
        (omega (arith, begin_at_most s rdonly, same rdonly, (of_kind tm i rdonly).0, e), h)
        (lmdb.begin_others s rdonly ∙ same (not rdonly))

  -- A begin that LMDB refused.
  pub refused :
      (s : lmdb.State) (rdonly kind : Bool)
      → (lmdb.mdb_txn_begin s rdonly).0 ≢ 0
      → lmdb.active (lmdb.mdb_txn_begin s rdonly).1 kind ≡ lmdb.active s kind
  refused s true true h = lmdb.begin_fails s true h
  refused s false false h = lmdb.begin_fails s false h
  refused s true false h = lmdb.begin_others s true
  refused s false true h = lmdb.begin_others s false

  adapt_size-Tracks :
      (tm : TxnManager thread lmdb) (rdonly : Bool) (c : Counter) (s : lmdb.State)
      → IsTracked tm
      → c.value ≡ (counter thread lmdb tm rdonly).value + 1
      → c.value < 2 ^ 31
      → ((kind : Bool) → lmdb.active s kind ≡ lmdb.active tm.env kind)
      → Tracks (Unit {0}) (
          adapt_size thread lmdb
            (put_env thread lmdb (put_counter thread lmdb tm rdonly c) s)
            rdonly)
  unfolding adapt_size end_begin
  adapt_size-Tracks tm rdonly c s i e h same =
      let tm1 = put_env thread lmdb (put_counter thread lmdb tm rdonly c) s in
      let resized = (lmdb.mdb_env_set_mapsize s 0).1 in
      if-Tracks (Unit {0}) (not (is_idle thread lmdb s)) misused _ (λ _. tt)
        λ _.
          if-Tracks (Unit {0}) ((lmdb.mdb_env_set_mapsize s 0).0 == 0) _ _
            (λ _.
              end_begin-Tracks (Unit {0}) tm1 (lmdb.mdb_txn_begin resized rdonly)
                (begun tm rdonly c resized i e h λ kind. lmdb.resize_keeps s 0 kind ∙ same kind))
            (λ _.
              end_begin-Tracks (Unit {0}) tm1 (1, resized)
                (put-IsTracked tm rdonly c resized i
                  (
                    omega (
                      arith,
                      lmdb.resize_keeps s 0 rdonly,
                      same rdonly,
                      (of_kind tm i rdonly).0,
                      e,
                    ),
                    h,
                  )
                  (lmdb.resize_keeps s 0 (not rdonly) ∙ same (not rdonly))))

  begin_txn-Tracks :
      (tm : TxnManager thread lmdb) (rdonly : Bool) (c : Counter)
      → IsTracked tm
      → c.value ≡ (counter thread lmdb tm rdonly).value + 1
      → c.value < 2 ^ 31
      → Tracks (Unit {0}) (begin_txn thread lmdb rdonly (put_counter thread lmdb tm rdonly c))
  unfolding begin_txn put_counter
  begin_txn-Tracks tm rdonly c i e h =
      let tm1 = put_counter thread lmdb tm rdonly c in
      let s = (lmdb.mdb_txn_begin tm.env rdonly).1 in
      if-Tracks (Unit {0}) ((lmdb.mdb_txn_begin tm.env rdonly).0 == mdb_map_resized) _ _
        (λ t.
          adapt_size-Tracks tm rdonly c s i e h
            λ kind. refused tm.env rdonly kind λ z. ground (arith, t, z))
        (λ _.
          end_begin-Tracks (Unit {0}) tm1 (lmdb.mdb_txn_begin tm.env rdonly)
            (begun tm rdonly c tm.env i e h λ kind. refl))

  -- A begin, however it ends, keeps every open transaction counted.
  pub txn_manager_begin-Tracks :
      (tm : TxnManager thread lmdb) (rdonly : Bool)
      → IsTracked tm
      → (counter thread lmdb tm rdonly).value + 1 < 2 ^ 31
      → Tracks (Unit {0}) (txn_manager_begin thread lmdb tm rdonly)
  unfolding txn_manager_begin
  txn_manager_begin-Tracks tm rdonly i h =
      let c = counter thread lmdb tm rdonly in
      continue-Tracks (Unit {0}) _ _ tm rdonly (inv_semaphore_inc thread c)
        (fail thread lmdb txn_manager_error_thread) (begin_txn thread lmdb rdonly)
        (inv_semaphore_inc-At thread c h)
        (λ d q.
          fail-Tracks (Unit {0}) txn_manager_error_thread (put_counter thread lmdb tm rdonly d) (
            put-IsTracked tm rdonly d tm.env i
              (omega (arith, q.0, (of_kind tm i rdonly).0), omega (arith, q.1, h)) refl))
        (λ d q. begin_txn-Tracks tm rdonly d i q (omega (arith, q, h)))

  -- The decrement behind the end of a transaction.
  decrement-Tracks :
      (tm : TxnManager thread lmdb) (rdonly : Bool) (s : lmdb.State)
      → IsTracked tm
      → lmdb.active s rdonly + 1 ≡ lmdb.active tm.env rdonly
      → lmdb.active s (not rdonly) ≡ lmdb.active tm.env (not rdonly)
      → Tracks (Unit {0}) (decrement thread lmdb rdonly (put_env thread lmdb tm s))
  unfolding decrement put_counter
  decrement-Tracks tm rdonly s i e o =
      let c = counter thread lmdb tm rdonly in
      let tm1 = put_env thread lmdb tm s in
      let n = of_kind tm i rdonly in
      continue-Tracks (Unit {0}) _ _ tm1 rdonly (inv_semaphore_dec thread c)
        (fail thread lmdb txn_manager_error_thread) (return_code thread lmdb)
        (inv_semaphore_dec-At thread c (omega (arith, n.0, e)) n.1)
        (λ d q.
          fail-Tracks (Unit {0}) txn_manager_error_thread (put_counter thread lmdb tm1 rdonly d)
            (put-IsTracked tm rdonly d s i (omega (arith, q.0, n.0, e), omega (arith, q.1, n.1)) o))
        (λ d q.
          return_code-Tracks (Unit {0}) (put_counter thread lmdb tm1 rdonly d)
            (put-IsTracked tm rdonly d s i (omega (arith, q, n.0, e), omega (arith, q, n.1)) o))

  -- So does an abort of an open transaction,
  pub txn_manager_abort-Tracks :
      (tm : TxnManager thread lmdb) (rdonly : Bool)
      → IsTracked tm
      → 0 < lmdb.active tm.env rdonly
      → Tracks (Unit {0}) (txn_manager_abort thread lmdb tm rdonly)
  unfolding txn_manager_abort
  txn_manager_abort-Tracks tm rdonly i p =
      decrement-Tracks tm rdonly (lmdb.mdb_txn_abort tm.env rdonly) i
        (lmdb.abort_frees tm.env rdonly p) (lmdb.abort_others tm.env rdonly)

  -- and a commit.
  pub txn_manager_commit-Tracks :
      (tm : TxnManager thread lmdb) (rdonly : Bool)
      → IsTracked tm
      → 0 < lmdb.active tm.env rdonly
      → Tracks (Unit {0}) (txn_manager_commit thread lmdb tm rdonly)
  unfolding txn_manager_commit
  txn_manager_commit-Tracks tm rdonly i p =
      if-Tracks (Unit {0}) ((lmdb.mdb_txn_commit tm.env rdonly).0 == 0) _ misused
        (λ _.
          decrement-Tracks tm rdonly (lmdb.mdb_txn_commit tm.env rdonly).1 i
            (lmdb.commit_frees tm.env rdonly p) (lmdb.commit_others tm.env rdonly))
        (λ _. tt)

  -- A new manager tracks the transactions of an environment with none.
  pub txn_manager_new-Ends :
      (env : lmdb.State) (read write : Counter)
      → is_idle thread lmdb env ≡ true
      → ((kind : Bool) → gap kind ≡ 0)
      → Ends ⊥ IsTracked (λ tm. Unit {0}) (txn_manager_new thread lmdb env read write)
  unfolding txn_manager_new put_counter fail error_set return_code is_idle
  txn_manager_new-Ends env read write idle none =
      let tm : TxnManager thread lmdb = record {
        env = env;
        txn_counter_read = read;
        txn_counter_write = write;
        error = 0;
      } in
      continue-Ends ⊥ (λ c. c.value ≡ 0) (λ c. Unit {0}) IsTracked (λ t. Unit {0}) tm true
        (inv_semaphore_init thread read) (fail thread lmdb txn_manager_error_thread) _
        (inv_semaphore_init-Ends thread read) (λ c u. tt)
        λ c r.
          continue-Ends ⊥ (λ d. d.value ≡ 0) (λ d. Unit {0}) IsTracked (λ t. Unit {0})
            (put_counter thread lmdb tm true c) false (inv_semaphore_init thread write)
            (fail thread lmdb txn_manager_error_thread) (return_code thread lmdb)
            (inv_semaphore_init-Ends thread write) (λ d u. tt)
            λ d w. (
              (ground (arith, idle, r, none true), omega (arith, r)),
              (ground (arith, idle, w, none false), omega (arith, w)),
            )
