-- ===== src/TxnManager/Plain.antt =====
-- An environment of LMDB for the runs of lib/src/txn_manager.c, with the codes that it is to answer.
use aduana.Common.{ℕ, ◌+◌, ◌-◌, ◌≡◌, refl, arith, Bool, true, false, not, ◌==◌, ◌∙◌, if◌then◌else◌}
use aduana.TxnManager.Lmdb.{Lmdb}

pub record PlainEnv : Type 0 where
  pub reads : ℕ
  pub writes : ℕ
  pub mapsize : ℕ
  pub begin_code : ℕ
  pub info_code : ℕ

abbrev pub active : PlainEnv → Bool → ℕ
active s rdonly = if rdonly then s.reads else s.writes

abbrev pub put_active : PlainEnv → Bool → ℕ → PlainEnv
put_active s rdonly n = record s {
  reads = if rdonly then n else s.reads;
  writes = if rdonly then s.writes else n;
}

abbrev pub begin_at : ℕ → PlainEnv → Bool → ℕ × PlainEnv
begin_at code s rdonly =
    (code, put_active s rdonly (if code == 0 then active s rdonly + 1 else active s rdonly))

pub put_same : (s : PlainEnv) (rdonly : Bool) (n : ℕ) → active (put_active s rdonly n) rdonly ≡ n
put_same s true n = refl
put_same s false n = refl

pub put_other :
    (s : PlainEnv) (rdonly : Bool) (n : ℕ)
    → active (put_active s rdonly n) (not rdonly) ≡ active s (not rdonly)
put_other s true n = refl
put_other s false n = refl

-- The database has one page of 4096 bytes less than it is long.
abbrev pub plain_lmdb : Lmdb
plain_lmdb = record {
  State = PlainEnv;
  active = active;
  mdb_txn_begin = λ s rdonly. begin_at s.begin_code s rdonly;
  mdb_txn_commit = λ s rdonly. (0, put_active s rdonly (active s rdonly - 1));
  mdb_txn_abort = λ s rdonly. put_active s rdonly (active s rdonly - 1);
  mdb_env_set_mapsize = λ s size. (0, record s { mapsize = size });
  mdb_env_info = λ s. (s.info_code, s.mapsize, 9);
  mdb_env_stat = λ s. (0, 4096);
  begin_opens = λ s rdonly z.
      put_same s rdonly _ ∙ (let t : (s.begin_code == 0) ≡ true = ground (arith, z) in rw t refl);
  begin_others = λ s rdonly. put_other s rdonly _;
  begin_fails = λ s rdonly n.
      put_same s rdonly _ ∙ (let t : (s.begin_code == 0) ≡ false = ground (arith, n) in rw t refl);
  commit_frees = λ s rdonly p. omega (arith, put_same s rdonly (active s rdonly - 1), p);
  commit_others = λ s rdonly. put_other s rdonly _;
  abort_frees = λ s rdonly p. omega (arith, put_same s rdonly (active s rdonly - 1), p);
  abort_others = λ s rdonly. put_other s rdonly _;
  resize_keeps = λ s size rdonly. refl;
}
