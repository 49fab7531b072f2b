-- ===== src/TxnManager/Manager/History.antt =====
-- What the managers of lib/src/txn_manager.c have in common that calls have led to.
use aduana.Common.{ℕ, zero, suc, ◌+◌, ◌^◌, ◌<◌, ◌≡◌, ◌≢◌, refl, Bool, true}
use mathlib.Core.Path.{subst}
use aduana.TxnManager.Counter.{Outcome, returned, misused, Counter}
use aduana.TxnManager.Lmdb.{Lmdb}
use aduana.TxnManager.Manager.{
  TxnManager, counter, is_idle, txn_manager_new, txn_manager_begin, txn_manager_commit,
  txn_manager_abort,
}
use aduana.TxnManager.Manager.Expand.{txn_manager_expand}
use aduana.TxnManager.Manager.Endings.{Ends}
use aduana.TxnManager.Manager.Tracked.{
  IsTracked, txn_manager_new-Ends, txn_manager_begin-Tracks, txn_manager_commit-Tracks,
  txn_manager_abort-Tracks,
}
use aduana.TxnManager.Manager.Resize.{txn_manager_expand-Tracks}

-- What holds however a call returns, holds of the state it returns.
pub returned-Ends :
    {S : Type 0} (M : Type 0) (P : S → Type 0) (o : Outcome S) (e : ℕ) (s : S)
    → Ends M P P o
    → o ≡ returned e s
    → P s
returned-Ends M P o zero s h q = subst (Ends M P P) q h
returned-Ends M P o (suc e) s h q = subst (Ends M P P) q h

module _ (thread : ℕ → ℕ) (lmdb : Lmdb) where
  -- The managers that calls of the four functions lead to from `tm`, whichever calls of pthread and
  -- LMDB fail. Only open transactions are ended, and fewer than 2 ^ 31 - 1 begins are counted.
  pub data History (start : TxnManager thread lmdb) : TxnManager thread lmdb → Type 0 where
    here : History start start
    begin :
        (rdonly : Bool) {code : ℕ} {tm t : TxnManager thread lmdb}
        → History start tm
        → (counter thread lmdb tm rdonly).value + 1 < 2 ^ 31
        → txn_manager_begin thread lmdb tm rdonly ≡ returned code t
        → History start t
    commit :
        (rdonly : Bool) {code : ℕ} {tm t : TxnManager thread lmdb}
        → History start tm
        → 0 < lmdb.active tm.env rdonly
        → txn_manager_commit thread lmdb tm rdonly ≡ returned code t
        → History start t
    abort :
        (rdonly : Bool) {code : ℕ} {tm t : TxnManager thread lmdb}
        → History start tm
        → 0 < lmdb.active tm.env rdonly
        → txn_manager_abort thread lmdb tm rdonly ≡ returned code t
        → History start t
    expand :
        (size : ℕ) {code : ℕ} {tm t : TxnManager thread lmdb}
        → History start tm
        → txn_manager_expand thread lmdb tm size ≡ returned code t
        → History start t

  -- The distance from the open transactions of a kind to their counter never shrinks.
  pub History-IsTracked :
      (gap : Bool → ℕ) {start tm : TxnManager thread lmdb}
      → IsTracked thread lmdb gap start
      → History start tm
      → IsTracked thread lmdb gap tm
  History-IsTracked gap i History.here = i
  History-IsTracked gap i (History.begin rdonly {code = e} {tm = tm} {t = t} g v q) =
      returned-Ends (Unit {0}) (IsTracked thread lmdb gap) _ e t
        (txn_manager_begin-Tracks thread lmdb gap tm rdonly (History-IsTracked gap i g) v) q
  History-IsTracked gap i (History.commit rdonly {code = e} {tm = tm} {t = t} g p q) =
      returned-Ends (Unit {0}) (IsTracked thread lmdb gap) _ e t
        (txn_manager_commit-Tracks thread lmdb gap tm rdonly (History-IsTracked gap i g) p) q
  History-IsTracked gap i (History.abort rdonly {code = e} {tm = tm} {t = t} g p q) =
      returned-Ends (Unit {0}) (IsTracked thread lmdb gap) _ e t
        (txn_manager_abort-Tracks thread lmdb gap tm rdonly (History-IsTracked gap i g) p) q
  History-IsTracked gap i (History.expand size {code = e} {tm = tm} {t = t} g q) =
      returned-Ends ⊥ (IsTracked thread lmdb gap) _ e t
        (txn_manager_expand-Tracks thread lmdb gap tm size (History-IsTracked gap i g)) q

  -- From a new manager of an environment with no transactions, after any calls of the manager's
  -- functions, whichever calls of pthread and LMDB fail, `txn_manager_expand` never calls
  -- `mdb_env_set_mapsize` while a transaction is open.
  pub expand_not_misused :
      (env : lmdb.State) (read write : Counter) (start tm : TxnManager thread lmdb) (size : ℕ)
      → is_idle thread lmdb env ≡ true
      → txn_manager_new thread lmdb env read write ≡ returned 0 start
      → History start tm
      → txn_manager_expand thread lmdb tm size ≢ misused
  expand_not_misused env read write start tm size idle made g q =
      subst (Ends ⊥ (IsTracked thread lmdb none) (IsTracked thread lmdb none)) q
        (txn_manager_expand-Tracks thread lmdb none tm size (History-IsTracked none tracked g))
    where
      none : Bool → ℕ
      none kind = 0

      tracked : IsTracked thread lmdb none start
      tracked =
          subst (Ends ⊥ (IsTracked thread lmdb none) (λ t. Unit {0})) made
            (txn_manager_new-Ends thread lmdb none env read write idle λ kind. refl)
