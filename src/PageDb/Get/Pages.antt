-- ===== src/PageDb/Get/Pages.antt =====
-- Pages and ids that are read.
use aduana.Common.{ℕ, ◌<◌, ◌≡◌, ◌⊎◌, inl, inr, refl, sym, ◌∙◌, false, Option-cases, none, some}
use aduana.PageDb.Env.{Env}
use aduana.PageDb.PageInfo.{PageInfo, page_info_dump, page_info_load}
use aduana.PageDb.PageInfo.Stored.{stored, load-dump}
use aduana.PageDb.Txn.{page_db_error_ok}
use aduana.PageDb.Add.{PageDb}
use aduana.PageDb.Add.Consistent.{IsConsistent, info_at, idx_at}
use aduana.PageDb.Get.{
  answer, page_db_error_no_page, page_db_get_info, page_db_get_idx_cur, page_db_get_idx,
}

module _ (env : Env) (db : PageDb env) (n : ℕ)
    (c : IsConsistent env db.hash2info db.hash2idx n) where
  -- A page that is in the database.
  abbrev pub IsFound : ℕ → Type 0
  IsFound hash =
      (pi : PageInfo) × (id : ℕ) × (page_db_get_info env db hash
        ≡ answer page_db_error_ok (some (some (stored pi))) db)
      × (info_at env db.hash2info hash ≡ page_info_dump env.smaz pi)
      × (page_db_get_idx env db hash ≡ answer page_db_error_ok (some id) db)
      × (id < n)

  -- A page that is not.
  abbrev pub IsMissing : ℕ → Type 0
  IsMissing hash =
      (info_at env db.hash2info hash ≡ none)
      × (page_db_get_info env db hash ≡ answer page_db_error_ok (some none) db)
      × (page_db_get_idx env db hash ≡ answer page_db_error_no_page (some 0) db)

  -- In a consistent database and where no call of LMDB fails, page_db_get_info and page_db_get_idx
  -- agree for every hash: either both find the page, what is read is what the database keeps of the
  -- page that was written, and its id is below the number of pages, or neither finds it, with a NULL
  -- page and page_db_error_no_page. The database stays as it is.
  pub get_info-get_idx :
      (hash : ℕ) → ((k : ℕ) → env.fault k ≡ false) → IsFound hash ⊎ IsMissing hash
  unfolding page_db_get_info page_db_get_idx page_db_get_idx_cur
  get_info-get_idx hash quiet = elim (Option-cases (idx_at env db.hash2idx hash)) [
    | inl e ↦
        let e' = (c.paged hash).0 e in
        inr (
          e',
          rw (quiet 0, quiet 1, quiet 2, e') refl,
          rw (quiet 0, quiet 1, page_db_get_idx_cur, quiet 2, e) refl,
        )
    | inr (id, e) ↦ elim (Option-cases (info_at env db.hash2info hash)) [
      | inl e' ↦ cc (e, (c.paged hash).1 e')
      | inr (bytes, e') ↦
          let r = c.readable hash bytes e' in
          let (bytes', dumped, _, loaded, _) = load-dump env.smaz r.pi r.curl r.short r.storable in
          let same : bytes' ≡ bytes = cc (dumped, r.written) in
          let loaded' : page_info_load env.smaz bytes ≡ some (stored r.pi) = rw same at loaded in
          inl (
            r.pi,
            id,
            rw (quiet 0, quiet 1, quiet 2, e', loaded') refl,
            e' ∙ sym r.written,
            rw (quiet 0, quiet 1, page_db_get_idx_cur, quiet 2, e) refl,
            c.bound hash id e,
          )
    ]
  ]
