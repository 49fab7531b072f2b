-- ===== src/PageDb/Add/Outcome.antt =====
-- `page_db_add` as a whole: either the page and its links are in the database, or it is as before.
use aduana.Common.{
  ℕ, ◌+◌, ◌^◌, ◌<◌, ◌≡◌, ◌≢◌, ◌⊎◌, refl, sym, arith, true, false, ◌==◌, List, length, some,
  Bool-cases, inl, inr,
}
use mathlib.Core.Path.{subst}
use aduana.PageDb.Env.{Env}
use aduana.PageDb.PageInfo.{CrawledPage, PageInfo}
use aduana.PageDb.Txn.{
  Result, goes_on, jumps, undefined, Txn, info_n_pages, page_db_hash, page_db_error_ok,
  page_db_error_internal,
}
use aduana.PageDb.Txn.Hash.{page_db_hash-lt}
use aduana.PageDb.Txn.Rules.{
  Fault, Ends, bind_rule, step_rule, unsafe_rule, call_rule, call_cases, step_cases,
}
use aduana.PageDb.Add.{
  get_n_pages, begin_add, finish_add, store_ids, page_db_add_crawled_page_info, PageDb, AddResult,
  added, refused, undefined_behaviour, begun, on_error, page_db_expand, close_add, open_add,
  add_transaction, committed, page_db_add,
}
use aduana.PageDb.Add.Consistent.{IsConsistent}
use aduana.PageDb.Add.Store.{IsPage, CrawledStored, crawled_page_info_lem}
use aduana.PageDb.Add.Ids.{Added, store_ids_lem, calls-Added}

module _ (env : Env) where
  finish_add_lem :
      (page : CrawledPage) (n : ℕ) (t : Txn env)
      → IsPage env page
      → IsConsistent env t.hash2info t.hash2idx n
      → n + 1 + length page.links < 2 ^ 64
      → Ends env (λ _ t'. Added env page t t') (finish_add env page n t)
  unfolding finish_add
  finish_add_lem page n t ok c room =
      let hash = page_db_hash env page.url in
      bind_rule env (λ _ t1. CrawledStored env hash page t t1) (λ _ t'. Added env page t t')
        (page_db_add_crawled_page_info env hash page t) _
        (crawled_page_info_lem env hash page t ok (c.readable hash))
        (λ pi t1 stored.
          bind_rule env (λ _ t'. Added env page t t') (λ _ t'. Added env page t t')
            (store_ids env page hash pi n t1) _
            (store_ids_lem env page n t t1 c stored.0 stored.1 pi ok (page_db_hash-lt env page.url)
              room)
            (λ pages t' a.
              unsafe_rule env (λ _ t'. Added env page t t') t' _
                (calls-Added env page t t' t.calls (t'.calls + 1) a)))

  -- The number of pages is found, and only calls are counted.
  abbrev Begun : ℕ → Txn env → ℕ → Txn env → Type 0
  Begun n t n' t' = (n' ≡ n) × (t' ≡ record t { calls = t'.calls })

  begin_add_lem :
      (n : ℕ) (t : Txn env)
      → env.info_db.get t.info info_n_pages ≡ some n
      → Ends env (Begun n t) (begin_add env t)
  unfolding begin_add
  begin_add_lem n t e = step_rule env (Begun n t) t _ (
      step_rule env (Begun n t) _ _ (
        step_rule env (Begun n t) _ _ (
          step_rule env (Begun n t) _ _ (
            step_rule env (Begun n t) _ _
              (call_rule env (Begun n t) (get_n_pages env) _ (rw (Ends, e) (refl, refl)))))))

  -- page_db_expand, the begin, the opening of the cursors and the reading of the number of pages.
  abbrev HasBegun : Type 0
  HasBegun =
      (env.fault 0 ≡ false)
      × (env.fault 1 ≡ false)
      × (env.fault 2 ≡ false)
      × (env.fault 3 ≡ false)
      × (env.fault 4 ≡ false)
      × (env.fault 5 ≡ false)
      × (env.fault 6 ≡ false)

  -- They go through, or `begin_add` jumps.
  abbrev Begins : ℕ → Result (ℕ × Txn env) → Type 0
  Begins n r = (HasBegun × (t : Txn env) × (r ≡ goes_on (n, t))) ⊎ (r ≡ jumps)

  begin_calls :
      (db : PageDb env) (n : ℕ)
      → env.info_db.get db.info info_n_pages ≡ some n
      → env.fault 0 ≡ false
      → Begins n (begin_add env (begun env db))
  unfolding begin_add begun
  begin_calls db n e f0 =
      step_cases env (Begins n) (begun env db) _ (λ _. inr refl)
        λ f1.
          step_cases env (Begins n) _ _ (λ _. inr refl)
            λ f2.
              step_cases env (Begins n) _ _ (λ _. inr refl)
                λ f3.
                  step_cases env (Begins n) _ _ (λ _. inr refl)
                    λ f4.
                      step_cases env (Begins n) _ _ (λ _. inr refl)
                        λ f5.
                          call_cases env (Begins n) (get_n_pages env) _ (λ _. inr refl)
                            λ f6. rw (get_n_pages, e) (inl ((f0, f1, f2, f3, f4, f5, f6), _, refl))

  -- The tables are those before the call.
  abbrev pub Unchanged : PageDb env → PageDb env → Type 0
  Unchanged db db' =
      (db'.hash2info ≡ db.hash2info)
      × (db'.hash2idx ≡ db.hash2idx)
      × (db'.links ≡ db.links)
      × (db'.info ≡ db.info)

  -- The page was added and no error stored. Or a call of LMDB failed: the tables are as before and the
  -- error is stored, or, where the calls up to the number of pages go through, the behaviour is
  -- undefined.
  abbrev pub Outcome : PageDb env → CrawledPage → PageDb env × AddResult env → Type 0
  Outcome db page (db', result) =
      ((pages : List (ℕ × PageInfo)) × (result ≡ added pages)
        × (db'.error ≡ page_db_error_ok)
        × Added env page (begun env db) (begun env db'))
      ⊎ ((Fault env × (result ≡ refused) × (db'.error ≡ page_db_error_internal) × Unchanged db db')
          ⊎ (Fault env × (result ≡ undefined_behaviour) × HasBegun))

  on_error-Outcome :
      (db db' : PageDb env) (page : CrawledPage)
      → Unchanged db db'
      → db'.error ≡ page_db_error_ok
      → Fault env
      → Outcome db page (on_error env db', refused)
  unfolding on_error
  on_error-Outcome db db' page u fine fault = inr (inl (fault, refl, rw fine refl, u))

  close_add-Outcome :
      (db db' : PageDb env) (page : CrawledPage) (t : Txn env)
      (r : Result (List (ℕ × PageInfo) × Txn env))
      → Unchanged db db'
      → db'.error ≡ page_db_error_ok
      → t ≡ record (begun env db) { calls = t.calls }
      → HasBegun
      → Ends env (λ _ t'. Added env page t t') r
      → Outcome db page (close_add env db' r)
  unfolding close_add committed begun
  close_add-Outcome db db' page t (goes_on (pages, t')) u fine same has_begun done = inl (
    pages,
    refl,
    fine,
    calls-Added env page (record (begun env db) { calls = t.calls }) t' 1 1 (rw same at done),
  )
  close_add-Outcome db db' page t jumps u fine same has_begun fault =
      on_error-Outcome db db' page u fine fault
  close_add-Outcome db db' page t undefined u fine same has_begun fault =
      inr (inr (fault, refl, has_begun))

  open_add-Outcome :
      (db : PageDb env) (page : CrawledPage) (n : ℕ) (r : Result (ℕ × Txn env))
      → IsPage env page
      → db.error ≡ page_db_error_ok
      → IsConsistent env db.hash2info db.hash2idx n
      → n + 1 + length page.links < 2 ^ 64
      → Begins n r
      → Ends env (Begun n (begun env db)) r
      → Outcome db page (open_add env db page r)
  unfolding open_add begun
  open_add-Outcome db page n (goes_on (n', t)) ok fine c room calls (same_n, same_t) =
      close_add-Outcome db _ page t (finish_add env page n' t) (refl, refl, refl, refl) fine same_t
        (elim calls [ inl h ↦ h.0 | inr j ↦ absurd (cc j) ])
        (rw same_n (finish_add_lem page n t ok (rw same_t c) room))
  open_add-Outcome db page n jumps ok fine c room calls fault =
      on_error-Outcome db db page (refl, refl, refl, refl) fine fault
  open_add-Outcome db page n undefined ok fine c room calls fault =
      absurd (elim calls [ inl (_, _, q) ↦ cc q | inr j ↦ cc j ])

  -- A page that the code can store, with all its links, is added to a consistent database that has no
  -- earlier error and whose ids stay below 2 ^ 64: stored is a new page, or what was stored of it with
  -- the update of the crawl. Or a call of LMDB fails: the tables are as before and the error is stored,
  -- or the behaviour is undefined, the latter only where the calls up to the number of pages go through.
  pub page_db_add_lem :
      (db : PageDb env) (page : CrawledPage) (n : ℕ)
      → IsPage env page
      → db.error ≡ page_db_error_ok
      → env.info_db.get db.info info_n_pages ≡ some n
      → IsConsistent env db.hash2info db.hash2idx n
      → n + 1 + length page.links < 2 ^ 64
      → Outcome db page (page_db_add env db page)
  unfolding page_db_add page_db_expand add_transaction on_error begun
  page_db_add_lem db page n ok fine e c room = elim (Bool-cases (env.fault 0)) [
    | inl bad ↦
        rw (page_db_add, page_db_expand, bad, on_error, ok_lem fine)
          (inr (inl ((0, bad), refl, refl, (refl, refl, refl, refl))))
    | inr good ↦
        let run : page_db_add env db page ≡ open_add env db page (begin_add env (begun env db)) =
          rw (page_db_add, page_db_expand, good, ok_lem fine) refl in
        subst (Outcome db page) (sym run) (
          open_add-Outcome db page n (begin_add env (begun env db)) ok fine c room
            (begin_calls db n e good) (begin_add_lem n (begun env db) e))
  ]
    where
      ok_lem : {code : ℕ} → code ≡ page_db_error_ok → (code == page_db_error_ok) ≡ true
      ok_lem h = ground (arith, h)

  -- After an error of any operation every page is refused, and nothing changes.
  page_db_add-refused :
      (db : PageDb env) (page : CrawledPage)
      → db.error ≢ page_db_error_ok
      → page_db_add env db page ≡ (db, refused)
  unfolding page_db_add page_db_expand on_error
  page_db_add-refused db page bad =
      let refused : (db.error == page_db_error_ok) ≡ false = ground (arith, bad) in
      elim (Bool-cases (env.fault 0)) [
        | inl fault ↦ rw (page_db_add, page_db_expand, fault, on_error, refused, refused)
        | inr good ↦ rw (page_db_add, page_db_expand, good, refused)
      ]
