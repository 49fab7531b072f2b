-- ===== src/PageDb/Add/Consistent.antt =====
-- The database as `page_db_add` keeps it: every page has an id, the ids count the pages, and what is
-- stored of a page can be read.
use aduana.Common.{
  ℕ, ◌+◌, ◌<◌, ◌≡◌, ◌↔◌, arith, ◌==◌, List, Option, none, some, Bool-cases, inl, inr,
}
use aduana.PageDb.Env.{Env}
use aduana.PageDb.PageInfo.{PageInfo, page_info_dump}
use aduana.PageDb.PageInfo.Stored.{IsStorable, IsShort}

module _ (env : Env) where
  -- Bytes that a page with fields in range was written to.
  pub record IsReadable (bytes : List ℕ) : Type 0 where
    pub pi : PageInfo
    pub curl : List ℕ
    pub short : IsShort env.smaz pi.url curl
    pub storable : IsStorable pi
    pub written : page_info_dump env.smaz pi ≡ some bytes

  abbrev pub info_at : env.hash2info_db.State → ℕ → Option (List ℕ)
  info_at infos hash = env.hash2info_db.get infos hash

  abbrev pub idx_at : env.hash2idx_db.State → ℕ → Option ℕ
  idx_at idxs hash = env.hash2idx_db.get idxs hash

  -- The ids of the hashes are 0 to n - 1, each taken once, and the same hashes have a page.
  pub record IsConsistent (infos : env.hash2info_db.State) (idxs : env.hash2idx_db.State) (n : ℕ)
      : Type 0 where
    pub bound : (hash id : ℕ) → idx_at idxs hash ≡ some id → id < n
    pub unique :
        (hash hash' id : ℕ)
        → idx_at idxs hash ≡ some id
        → idx_at idxs hash' ≡ some id
        → hash ≡ hash'
    pub covered : (id : ℕ) → id < n → (hash : ℕ) × (idx_at idxs hash ≡ some id)
    pub paged : (hash : ℕ) → (idx_at idxs hash ≡ none) ↔ (info_at infos hash ≡ none)
    pub readable : (hash : ℕ) (bytes : List ℕ) → info_at infos hash ≡ some bytes → IsReadable bytes

  module _ (infos : env.hash2info_db.State) (idxs : env.hash2idx_db.State) (n : ℕ)
      (c : IsConsistent infos idxs n) where
    read_put :
        (hash : ℕ) (bytes : List ℕ)
        → IsReadable bytes
        → (h : ℕ) (b : List ℕ) → info_at (env.hash2info_db.put infos hash bytes) h ≡ some b
        → IsReadable b
    read_put hash bytes ok h b e = elim (Bool-cases (hash == h)) [
      | inl here ↦
          let same : bytes ≡ b =
            ground (arith, here, e, env.hash2info_db.get-put infos hash h bytes) in
          rw (← same) ok
      | inr there ↦
          c.readable h b (ground (arith, there, e, env.hash2info_db.get-put infos hash h bytes))
    ]

    -- A new page takes the next id.
    pub new-IsConsistent :
        (hash : ℕ) (bytes : List ℕ)
        → idx_at idxs hash ≡ none
        → IsReadable bytes
        → IsConsistent
            (env.hash2info_db.put infos hash bytes)
            (env.hash2idx_db.put idxs hash n)
            (n + 1)
    new-IsConsistent hash bytes new ok = record {
      bound = λ h id e. ground (arith, e, env.hash2idx_db.get-put idxs hash h n, c.bound h id);
      unique = λ h h' id e e'. ground (
        arith,
        e,
        e',
        env.hash2idx_db.get-put idxs hash h n,
        env.hash2idx_db.get-put idxs hash h' n,
        c.unique h h' id,
        c.bound h id,
        c.bound h' id,
      );
      covered = λ id lt. elim (Bool-cases (id == n)) [
        | inl last ↦ (hash, ground (arith, last, env.hash2idx_db.get-put idxs hash hash n))
        | inr before ↦
            let (h, e) = c.covered id (ground (arith, lt, before)) in
            (h, ground (arith, new, e, env.hash2idx_db.get-put idxs hash h n))
      ];
      paged = λ h. ground (
        arith,
        c.paged h,
        env.hash2idx_db.get-put idxs hash h n,
        env.hash2info_db.get-put infos hash h bytes,
      );
      readable = read_put hash bytes ok;
    }

    -- A page that is known gets other data.
    pub known-IsConsistent :
        (hash id : ℕ) (bytes : List ℕ)
        → idx_at idxs hash ≡ some id
        → IsReadable bytes
        → IsConsistent (env.hash2info_db.put infos hash bytes) idxs n
    known-IsConsistent hash id bytes known ok = record {
      bound = c.bound;
      unique = c.unique;
      covered = c.covered;
      paged = λ h. ground (arith, known, c.paged h, env.hash2info_db.get-put infos hash h bytes);
      readable = read_put hash bytes ok;
    }
