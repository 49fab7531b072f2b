-- ===== src/PageDb/Add/Reads.antt =====
-- What `page_db_add` stored, as the link stream reads it.
use aduana.Common.{
  ℕ, ◌+◌, ◌^◌, ◌≤◌, ◌<◌, ◌≡◌, refl, arith, Bool, true, false, List, [], ◌∷◌, length, All, some, inl,
  inr,
}
use aduana.Util.Varint.{done}
use aduana.PageDb.Env.{Env}
use aduana.PageDb.PageInfo.{LinkInfo, CrawledPage, PageInfo}
use aduana.PageDb.Links.{encode_links, page_db_link_stream_copy_links}
use aduana.PageDb.Links.RoundTrip.{IsSmallId, selected, copy_links-encode_links}
use aduana.PageDb.Txn.{Txn, info_n_pages, page_db_hash, page_db_error_ok}
use aduana.PageDb.Add.{PageDb, added, begun, page_db_add}
use aduana.PageDb.Add.Store.{IsPage}
use aduana.PageDb.Add.Outcome.{page_db_add_lem}
use aduana.PageDb.Add.Consistent.{idx_at, IsConsistent}
use aduana.PageDb.Add.Links.{links_of, HasIds, length-links_of}
use aduana.PageDb.Add.Ids.{Added}

module _ (env : Env) where
  HasIds-IsSmallId :
      (infos : env.hash2info_db.State) (idxs : env.hash2idx_db.State) (n : ℕ)
      → IsConsistent env infos idxs n
      → n ≤ 2 ^ 30
      → (links : List LinkInfo) (ids : List ℕ) → HasIds env idxs links ids
      → All IsSmallId ids
  HasIds-IsSmallId infos idxs n c small [] [] h = tt
  HasIds-IsSmallId infos idxs n c small [] (i ∷ is) h = absurd h
  HasIds-IsSmallId infos idxs n c small (l ∷ ls) [] h = tt
  HasIds-IsSmallId infos idxs n c small (l ∷ ls) (i ∷ is) h =
      (omega (arith, c.bound _ i h.0), HasIds-IsSmallId infos idxs n c small ls is h.1)

  length-HasIds :
      (idxs : env.hash2idx_db.State) (links : List LinkInfo) (ids : List ℕ)
      → HasIds env idxs links ids
      → length ids ≡ length links
  length-HasIds idxs [] [] h = refl
  length-HasIds idxs [] (i ∷ is) h = absurd h
  length-HasIds idxs (l ∷ ls) [] h = absurd h
  length-HasIds idxs (l ∷ ls) (i ∷ is) h = omega (arith, length-HasIds idxs ls is h.1)

  copy_links-Added :
      (page : CrawledPage) (t t' : Txn env) (only : Bool) (a : Added env page t t')
      → a.n_pages ≤ 2 ^ 30
      → length page.links < 2 ^ 31
      → (val : List ℕ) × (env.links_db.get t'.links a.page_id ≡ some val)
        × (page_db_link_stream_copy_links only a.page_id val
            ≡ done (record {
              from = a.page_id;
              n_diff = length a.diff;
              to = selected only a.diff a.same;
            }))
  copy_links-Added page t t' only a small few =
      let c = a.consistent in
      (
        encode_links a.page_id a.diff a.same,
        rw a.links (
            ground (
              arith,
              env.links_db.get-put t.links a.page_id a.page_id
                  (encode_links a.page_id a.diff a.same),
            )),
        copy_links-encode_links only a.page_id a.diff a.same
            (omega (arith, c.bound _ a.page_id a.owned))
            (HasIds-IsSmallId t'.hash2info t'.hash2idx a.n_pages c small
              (links_of false page.url page.links) a.diff a.diff-HasIds)
            (HasIds-IsSmallId t'.hash2info t'.hash2idx a.n_pages c small
              (links_of true page.url page.links) a.same a.same-HasIds)
            (omega (
              arith,
              length-HasIds t'.hash2idx (links_of false page.url page.links) a.diff a.diff-HasIds,
              length-links_of false page.url page.links,
            )),
      )

  -- The page has an id, its links have ids, and the link stream reads these.
  abbrev pub Streamed : CrawledPage → Bool → PageDb env → Type 0
  Streamed page only db =
      (page_id : ℕ) × (diff : List ℕ) × (same : List ℕ) × (val : List ℕ) × (idx_at env db.hash2idx
          (page_db_hash env page.url)
        ≡ some page_id)
      × HasIds env db.hash2idx (links_of false page.url page.links) diff
      × HasIds env db.hash2idx (links_of true page.url page.links) same
      × (env.links_db.get db.links page_id ≡ some val)
      × (page_db_link_stream_copy_links only page_id val
          ≡ done (record { from = page_id; n_diff = length diff; to = selected only diff same }))

  -- After `page_db_add` went through for a page that the code can store, with fewer than 2 ^ 31 links,
  -- on a consistent database that had no earlier error and then has no more than 2 ^ 30 pages, the link
  -- stream reads for the page the ids that the database gives to its links, those to other
  -- domains first.
  pub copy_links-page_db_add :
      (db : PageDb env) (page : CrawledPage) (n m : ℕ) (only : Bool) (pages : List (ℕ × PageInfo))
      → IsPage env page
      → db.error ≡ page_db_error_ok
      → env.info_db.get db.info info_n_pages ≡ some n
      → IsConsistent env db.hash2info db.hash2idx n
      → n + 1 + length page.links < 2 ^ 64
      → length page.links < 2 ^ 31
      → (page_db_add env db page).1 ≡ added pages
      → env.info_db.get (page_db_add env db page).0.info info_n_pages ≡ some m
      → m ≤ 2 ^ 30
      → Streamed page only (page_db_add env db page).0
  unfolding begun
  copy_links-page_db_add db page n m only pages ok fine e c room few went count small =
      elim (page_db_add_lem env db page n ok fine e c room) [
        | inr (inl (_, failed, _, _)) ↦ absurd (cc (went, failed))
        | inr (inr (_, failed, _)) ↦ absurd (cc (went, failed))
        | inl (_, _, _, a) ↦
            let same_m : a.n_pages ≡ m = ground (arith, a.counted, count) in
            let (val, stored, read) =
              copy_links-Added page (begun env db) (begun env (page_db_add env db page).0) only a
                (rw same_m small) few in
            (a.page_id, a.diff, a.same, val, a.owned, a.diff-HasIds, a.same-HasIds, stored, read)
      ]
