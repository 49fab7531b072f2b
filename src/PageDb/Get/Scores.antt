-- ===== src/PageDb/Get/Scores.antt =====
-- The array of page_db_get_scores.
use aduana.Common.{
  ℕ, ◌+◌, ◌≤◌, ◌<◌, ◌≡◌, ◌⊎◌, inl, inr, refl, sym, ap, ◌∙◌, true, false, ltb, ◌==◌, if◌then◌else◌,
  Bool-cases, Option-cases, some, List, [], ◌∷◌, All, arith,
}
use aduana.MmapArray.{
  is_ok, System, MmapArray, mmap_array_error_ok, mmap_array_new, mmap_array_zero, mmap_array_set,
  read,
}
use aduana.MmapArray.Bounds.{
  IsMapped, mmap_array_set_lem, mmap_array_zero_lem, mmap_array_zero-error,
}
use aduana.MmapArray.Resize.{mmap_array_new_lem, first_size_lem}
use aduana.PageDb.Env.{Env}
use aduana.PageDb.PageInfo.{page_info_dump_get_score}
use aduana.PageDb.PageInfo.Stored.{load-dump}
use aduana.PageDb.Txn.{info_n_pages}
use aduana.PageDb.Add.{PageDb}
use aduana.PageDb.Add.Consistent.{IsConsistent, info_at, idx_at}
use aduana.PageDb.Get.{answer, filled, fill, page_db_get_scores}

module _ (env : Env) (sys : System ℕ) (db : PageDb env) where
  -- A row that hash2info has.
  abbrev pub IsRow : ℕ × List ℕ → Type 0
  IsRow row = info_at env db.hash2info row.0 ≡ some row.1

  -- One of the rows, by position.
  abbrev pub Has : ℕ × List ℕ → List (ℕ × List ℕ) → Type 0
  Has row [] = ⊥
  Has row (first ∷ rows) = (row ≡ first) ⊎ Has row rows

  module _ (n : ℕ) (c : IsConsistent env db.hash2info db.hash2idx n)
      (quiet : (k : ℕ) → env.fault k ≡ false) where
    -- The score of a row, and its id.
    row_lem :
        (hash : ℕ) (val : List ℕ)
        → info_at env db.hash2info hash ≡ some val
        → (score : ℕ) × (idx : ℕ) × (page_info_dump_get_score env.smaz val ≡ some score)
          × (idx_at env db.hash2idx hash ≡ some idx)
          × (idx < n)
    row_lem hash val e =
        let r = c.readable hash val e in
        let (bytes', dumped, _, _, scored) = load-dump env.smaz r.pi r.curl r.short r.storable in
        let same : bytes' ≡ val = cc (dumped, r.written) in
        elim (Option-cases (idx_at env db.hash2idx hash)) [
          | inl e' ↦ cc (e, (c.paged hash).0 e')
          | inr (idx, e') ↦ (r.pi.score, idx, rw same at scored, e', c.bound hash idx e')
        ]

    -- The element at `id` is the score of the page with that id, or will be.
    abbrev Pending : ℕ → ℕ → ℕ → List (ℕ × List ℕ) → MmapArray ℕ → Type 0
    Pending hash id score rows scores =
        (read scores id ≡ some score)
        ⊎ ((val : List ℕ) × Has (hash, val) rows
            × (page_info_dump_get_score env.smaz val ≡ some score))

    -- The array and score of one step of the loop.
    Pending-step :
        (hash id score hash' idx score' : ℕ) (val' : List ℕ) (rows : List (ℕ × List ℕ))
        (scores scores' : MmapArray ℕ)
        → idx_at env db.hash2idx hash ≡ some id
        → ((val : List ℕ)
            → info_at env db.hash2info hash ≡ some val
            → page_info_dump_get_score env.smaz val ≡ some score)
        → info_at env db.hash2info hash' ≡ some val'
        → page_info_dump_get_score env.smaz val' ≡ some score'
        → idx_at env db.hash2idx hash' ≡ some idx
        → read scores' id ≡ (if idx == id then some score' else read scores id)
        → Pending hash id score ((hash', val') ∷ rows) scores
        → Pending hash id score rows scores'
    Pending-step hash id score hash' idx score' val' rows scores scores' at only row scored at'
          reads pending =
        elim (Bool-cases (idx == id)) [
          | inl here ↦
              let same : idx ≡ id = ground (arith, here) in
              let hashes : hash' ≡ hash = c.unique hash' hash idx at' (at ∙ ap some (sym same)) in
              let agree : some score' ≡ some score =
                sym scored ∙ only val' (ap (info_at env db.hash2info) (sym hashes) ∙ row) in
              inl (reads ∙ rw here agree)
          | inr there ↦
              let kept : read scores' id ≡ read scores id = reads ∙ rw there refl in
              elim pending [
                | inl done ↦ inl (kept ∙ done)
                | inr (val, h, sc) ↦ elim h [
                  | inl first ↦
                      let hashes : hash ≡ hash' = ap (λ (r : ℕ × List ℕ). r.0) first in
                      let ids : some id ≡ some idx =
                        sym at ∙ (ap (idx_at env db.hash2idx) hashes ∙ at') in
                      ground (arith, ids, there)
                  | inr later ↦ inr (val, later, sc)
                ]
              ]
        ]

    -- Every page that is pending gets its score.
    abbrev pub IsServed : List (ℕ × List ℕ) → MmapArray ℕ → MmapArray ℕ → Type 0
    IsServed rows scores scores' =
        (hash id score : ℕ)
        → idx_at env db.hash2idx hash ≡ some id
        → ((val : List ℕ)
            → info_at env db.hash2info hash ≡ some val
            → page_info_dump_get_score env.smaz val ≡ some score)
        → Pending hash id score rows scores
        → read scores' id ≡ some score

    fill_lem :
        (rows : List (ℕ × List ℕ)) (k : ℕ) (scores : MmapArray ℕ)
        → All IsRow rows
        → IsMapped scores
        → n ≤ scores.n_elements
        → scores.error ≡ mmap_array_error_ok
        → (scores' : MmapArray ℕ) × (fill env sys k db rows scores ≡ filled scores')
          × IsServed rows scores scores'
    unfolding fill
    fill_lem [] k scores all m room fine = (
      scores,
      rw (fill, quiet k) refl,
      λ hash id score at only pending. elim pending [
        | inl done ↦ done
        | inr (val, h, _) ↦ elim h [ ]
      ],
    )
    fill_lem ((hash', val') ∷ rows) k scores (row, all) m room fine =
        let (score', idx, scored, at', lt) = row_lem hash' val' row in
        let (m', n', code, err, _) = mmap_array_set_lem scores idx 0 score' m in
        let inside : ltb idx scores.n_elements ≡ true = ground (arith, lt, room) in
        let scores' = (mmap_array_set scores idx score').1 in
        let err' : scores'.error ≡ mmap_array_error_ok = err ∙ rw inside fine in
        let reads : (id : ℕ)
            → read scores' id ≡ (if idx == id then some score' else read scores id) =
          λ id. (mmap_array_set_lem scores idx id score' m).4 ∙ rw inside refl in
        let (final, e, served) =
          fill_lem rows (k + 2) scores' all m' (omega (arith, n', room)) err' in
        (
          final,
          rw (fill, quiet k, scored, quiet (k + 1), at', code ∙ err') e,
          λ hash id score at only pending. served hash id score at only (
              Pending-step hash id score hash' idx score' val' rows scores scores' at only row
                scored at' (reads id) pending),
        )

    -- In a consistent database of `n` pages, where no call of LMDB fails, the cursor yields the rows of
    -- hash2info and the array can be made, page_db_get_scores returns the error that was stored
    -- before and an array that has the stored score of every page at the id of that page.
    pub page_db_get_scores_lem :
        (rows : List (ℕ × List ℕ))
        → env.info_db.get db.info info_n_pages ≡ some n
        → is_ok (mmap_array_new sys true n).0 ≡ true
        → All IsRow rows
        → ((hash : ℕ) (val : List ℕ) → IsRow (hash, val) → Has (hash, val) rows)
        → (scores : MmapArray ℕ) × (page_db_get_scores env sys db rows
            ≡ answer db.error (some scores) db)
          × ((hash id score : ℕ) (val : List ℕ)
              → idx_at env db.hash2idx hash ≡ some id
              → info_at env db.hash2info hash ≡ some val
              → page_info_dump_get_score env.smaz val ≡ some score
              → read scores id ≡ some score)
    unfolding page_db_get_scores
    page_db_get_scores_lem rows counted made all complete = elim (mmap_array_new_lem sys true n) [
      | inr (bad, _) ↦ cc (made, bad)
      | inl (_, m, size, fine) ↦
          let fresh = (mmap_array_new sys true n).1 in
          let (mz, nz, _) = mmap_array_zero_lem sys fresh m in
          let (scores, e, served) =
            fill_lem rows 5 (mmap_array_zero sys fresh) all mz
              (omega (arith, first_size_lem sys n, size, nz))
              (mmap_array_zero-error sys fresh m ∙ fine) in
          (
            scores,
            rw (quiet 0, quiet 1, quiet 2, quiet 3, quiet 4, counted, made, e) refl,
            λ hash id score val at info sc.
                served hash id score at (λ val' info'. cc (info, info', sc))
                  (inr (val, complete hash val info, sc)),
          )
    ]
