-- ===== src/TxnManager/Manager/Leak.antt =====
-- What errors of LMDB do to the manager of lib/src/txn_manager.c, where no pthread call fails.
use mathlib.Core.Path.{subst}
use aduana.Common.{
  ℕ, zero, suc, ◌+◌, ◌^◌, ◌<◌, ◌≡◌, ◌≢◌, refl, sym, arith, Bool, Bool-cases, inl, inr, true, false,
  not, ◌==◌, ◌∙◌, if◌then◌else◌,
}
use aduana.TxnManager.Counter.{
  Outcome, returned, misused, Counter, inv_semaphore_inc, inv_semaphore_count,
}
use aduana.TxnManager.Lmdb.{Lmdb}
use aduana.TxnManager.Manager.{
  TxnManager, counter, put_counter, put_env, error_set, return_code, fail, is_idle, end_begin,
  adapt_size, begin_txn, txn_manager_begin, txn_manager_delete, txn_manager_error_internal,
  txn_manager_error_thread, mdb_map_resized,
}
use aduana.TxnManager.Manager.Endings.{Ends}
use aduana.TxnManager.Manager.Tracked.{IsTracked, continue-Ends, refused}
use aduana.TxnManager.Manager.History.{History, History-IsTracked}
use aduana.TxnManager.Manager.Locks.{IsFree, inc-IsFree}

module _ (thread : ℕ → ℕ) (fine : (n : ℕ) → thread n ≡ 0) (lmdb : Lmdb) where
  -- One transaction more than are open is counted for this kind.
  abbrev pub one_more : Bool → Bool → ℕ
  one_more rdonly kind = if rdonly then (if kind then 1 else 0) else (if kind then 0 else 1)

  -- Every open transaction is counted.
  abbrev pub none_more : Bool → ℕ
  none_more kind = 0

  abbrev Leaks : Bool → Outcome (TxnManager thread lmdb) → Type 0
  Leaks rdonly o = Ends (Unit {0}) (λ t. Unit {0}) (IsTracked thread lmdb (one_more rdonly)) o

  leaked :
      (tm : TxnManager thread lmdb) (rdonly : Bool) (c : Counter) (s : lmdb.State)
      → IsTracked thread lmdb none_more tm
      → c.value ≡ (counter thread lmdb tm rdonly).value + 1
      → c.value < 2 ^ 31
      → ((kind : Bool) → lmdb.active s kind ≡ lmdb.active tm.env kind)
      → IsTracked thread lmdb
          (one_more rdonly)
          (put_env thread lmdb (put_counter thread lmdb tm rdonly c) s)
  unfolding counter put_counter
  leaked tm true c s i e h same =
      ((omega (arith, same true, e, i.0.0), h), (omega (arith, same false, i.1.0), i.1.1))
  leaked tm false c s i e h same =
      ((omega (arith, same true, i.0.0), i.0.1), (omega (arith, same false, e, i.1.0), h))

  end_begin-Leaks :
      (rdonly : Bool) (t : TxnManager thread lmdb) (p : ℕ × lmdb.State)
      → t.error ≡ 0
      → (p.0 ≢ 0 → IsTracked thread lmdb (one_more rdonly) (put_env thread lmdb t p.1))
      → Leaks rdonly (end_begin thread lmdb t p)
  unfolding end_begin return_code fail error_set
  end_begin-Leaks rdonly t (zero, s) e h = rw e tt
  end_begin-Leaks rdonly t (suc n, s) e h = rw e (h λ z. ground (arith, z))

  if-Leaks :
      (rdonly b : Bool) (x y : Outcome (TxnManager thread lmdb))
      → (b ≡ true → Leaks rdonly x)
      → (b ≡ false → Leaks rdonly y)
      → Leaks rdonly (if b then x else y)
  if-Leaks rdonly true x y p q = p refl
  if-Leaks rdonly false x y p q = q refl

  begin_txn-Leaks :
      (tm : TxnManager thread lmdb) (rdonly : Bool) (c : Counter)
      → tm.error ≡ 0
      → IsTracked thread lmdb none_more tm
      → c.value ≡ (counter thread lmdb tm rdonly).value + 1
      → c.value < 2 ^ 31
      → Leaks rdonly (begin_txn thread lmdb rdonly (put_counter thread lmdb tm rdonly c))
  unfolding begin_txn adapt_size put_counter
  begin_txn-Leaks tm rdonly c e i v h =
      let t = put_counter thread lmdb tm rdonly c in
      let s = (lmdb.mdb_txn_begin tm.env rdonly).1 in
      let resized = lmdb.mdb_env_set_mapsize s 0 in
      let t1 = put_env thread lmdb t s in
      let again = end_begin thread lmdb t1 (lmdb.mdb_txn_begin resized.1 rdonly) in
      let failed = end_begin thread lmdb t1 (1, resized.1) in
      if-Leaks rdonly ((lmdb.mdb_txn_begin tm.env rdonly).0 == mdb_map_resized)
        (adapt_size thread lmdb t1 rdonly)
        (end_begin thread lmdb t (lmdb.mdb_txn_begin tm.env rdonly))
        (λ m.
          let same : (kind : Bool) → lmdb.active resized.1 kind ≡ lmdb.active tm.env kind = λ kind.
            lmdb.resize_keeps s 0 kind
            ∙ refused thread lmdb none_more tm.env rdonly kind (λ z. ground (arith, m, z)) in
          if-Leaks rdonly (not (is_idle thread lmdb s)) misused
            (if resized.0 == 0 then again else failed) (λ _. tt)
            λ _.
              if-Leaks rdonly (resized.0 == 0) again failed
                (λ _. end_begin-Leaks rdonly t1 (lmdb.mdb_txn_begin resized.1 rdonly) e λ n.
                  leaked tm rdonly c (lmdb.mdb_txn_begin resized.1 rdonly).1 i v h
                    λ kind. refused thread lmdb none_more resized.1 rdonly kind n ∙ same kind)
                (λ _.
                  end_begin-Leaks rdonly t1 (1, resized.1) e
                    λ n. leaked tm rdonly c resized.1 i v h same))
        (λ _. end_begin-Leaks rdonly t (lmdb.mdb_txn_begin tm.env rdonly) e λ n.
          leaked tm rdonly c s i v h λ kind. refused thread lmdb none_more tm.env rdonly kind n)

  fail_not_0 :
      (u w : TxnManager thread lmdb) → fail thread lmdb txn_manager_error_internal u ≢ returned 0 w
  unfolding fail return_code error_set
  fail_not_0 u w q =
      let zero_code : (if u.error == 0 then txn_manager_error_internal else u.error) ≡ 0 = cc q in
      ground (arith, zero_code)

  refuses :
      (rdonly : Bool) (u : TxnManager thread lmdb)
      → IsTracked thread lmdb (one_more rdonly) u
      → txn_manager_delete thread lmdb u ≡ fail thread lmdb txn_manager_error_internal u
  unfolding txn_manager_delete inv_semaphore_count
  refuses true u i =
      let nonzero : (u.txn_counter_read.value == 0) ≡ false = ground (arith, i.0.0) in
      rw nonzero refl
  refuses false u i =
      let nonzero : (u.txn_counter_write.value == 0) ≡ false = ground (arith, i.1.0) in
      elim (Bool-cases (u.txn_counter_read.value == 0)) [
        | inl z ↦ rw (z, nonzero) refl
        | inr n ↦ rw n refl
      ]

  -- Where no pthread call fails, in a manager with no error and a free counter that counts every open
  -- transaction: once a begin has failed, the manager can never be deleted, whatever is done later.
  pub never_deleted :
      (tm t u w : TxnManager thread lmdb) (rdonly : Bool) (code : ℕ)
      → tm.error ≡ 0
      → IsTracked thread lmdb none_more tm
      → IsFree thread fine (counter thread lmdb tm rdonly).value (counter thread lmdb tm rdonly)
      → (counter thread lmdb tm rdonly).value + 1 < 2 ^ 31
      → txn_manager_begin thread lmdb tm rdonly ≡ returned (suc code) t
      → History thread lmdb t u
      → txn_manager_delete thread lmdb u ≢ returned 0 w
  unfolding txn_manager_begin
  never_deleted tm t u w rdonly code e i f v q g d =
      let c = counter thread lmdb tm rdonly in
      fail_not_0 u w (
        sym (
          refuses rdonly u (
            History-IsTracked thread lmdb (one_more rdonly)
              (subst (Leaks rdonly) q (
                continue-Ends thread lmdb none_more (Unit {0}) _ _ (λ t. Unit {0})
                  (IsTracked thread lmdb (one_more rdonly)) tm rdonly (inv_semaphore_inc thread c)
                  (fail thread lmdb txn_manager_error_thread) (begin_txn thread lmdb rdonly)
                  (inc-IsFree thread fine c.value c v f) (λ c' b. absurd b)
                  (λ c' h. begin_txn-Leaks tm rdonly c' e i h.0 (omega (arith, h.0, v)))))
              g))
        ∙ d)
