-- ===== src/PageDb/Add/Ids.antt =====
-- The ids and links that `page_db_add` stores.
use aduana.Common.{
  ℕ, ◌+◌, ◌%◌, ◌^◌, ◌<◌, ◌≡◌, ◌≢◌, refl, arith, true, false, List, [], ◌∷◌, length, All, some,
  Bool-cases, Option-cases, inl, inr,
}
use aduana.PageDb.Env.{Env}
use aduana.PageDb.PageInfo.{CrawledPage, PageInfo}
use aduana.PageDb.Links.{encode_links}
use aduana.PageDb.Txn.{Txn, info_n_pages, call, page_db_hash}
use aduana.PageDb.Txn.Rules.{Ends, bind_rule, map_rule}
use aduana.PageDb.Add.{Progress, add_links, put_idx, own_id, store_links, store_ids}
use aduana.PageDb.Add.Consistent.{
  info_at, idx_at, IsConsistent, new-IsConsistent, known-IsConsistent,
}
use aduana.PageDb.Add.Links.{links_of, IsLink, HasIds, Grows, Linked, InfoAdded}
use aduana.PageDb.Add.Links.Loop.{add_links_lem}
use aduana.PageDb.Add.Store.{IsPage, PageStored}

module _ (env : Env) where
  -- The tables after the loop: its links are stored for the page with the id `page_id`.
  pub record LinksStored (page : CrawledPage) (page_id : ℕ) (t t' : Txn env) : Type 0 where
    pub n_pages : ℕ
    pub counted : env.info_db.get t'.info info_n_pages ≡ some n_pages
    pub consistent : IsConsistent env t'.hash2info t'.hash2idx n_pages
    pub grows : Grows env t.hash2idx t'.hash2idx
    pub keeps :
        (hash : ℕ) (bytes : List ℕ)
        → info_at env t.hash2info hash ≡ some bytes
        → info_at env t'.hash2info hash ≡ some bytes
    pub diff : List ℕ
    pub same : List ℕ
    pub diff-HasIds : HasIds env t'.hash2idx (links_of false page.url page.links) diff
    pub same-HasIds : HasIds env t'.hash2idx (links_of true page.url page.links) same
    pub links : t'.links ≡ env.links_db.put t.links page_id (encode_links page_id diff same)

  store_links_lem :
      (page : CrawledPage) (cp_hash : ℕ) (pi : PageInfo) (page_id n : ℕ) (t : Txn env)
      → All (IsLink env) page.links
      → cp_hash < 2 ^ 64
      → IsConsistent env t.hash2info t.hash2idx n
      → n + length page.links < 2 ^ 64
      → Ends env
          (λ _ t'. LinksStored page page_id t t')
          (store_links env page cp_hash pi page_id n t)
  unfolding store_links call
  store_links_lem page cp_hash pi page_id n t ok from c room =
      let depth = (pi.depth + 1) % 2 ^ 64 in
      let p : Progress = record {
        n_pages = n;
        diff = [];
        same = [];
        page_info_list = (cp_hash, pi) ∷ [];
      } in
      bind_rule env (λ p' t'. Linked env page.url page.links t p t' p')
        (λ _ t'. LinksStored page page_id t t') (add_links env page cp_hash depth page.links p t) _
        (add_links_lem env page cp_hash depth from (omega arith) page.links t p ok c room)
        (λ p' t' linked. elim (Bool-cases (env.fault t'.calls)) [
          | inl bad ↦ rw (Ends, call, bad) (t'.calls, bad)
          | inr good ↦ elim (Bool-cases (env.fault (t'.calls + 1))) [
            | inl bad ↦ rw (Ends, call, good, bad) (t'.calls + 1, bad)
            | inr good' ↦
                rw (Ends, call, good, good')
                  (record {
                    n_pages = p'.n_pages;
                    counted =
                        ground
                          (arith, env.info_db.get-put t'.info info_n_pages info_n_pages p'.n_pages);
                    consistent = linked.consistent;
                    grows = linked.grows;
                    keeps = linked.keeps;
                    diff = linked.diff.0;
                    same = linked.same.0;
                    diff-HasIds = linked.diff.2;
                    same-HasIds = linked.same.2;
                    links = rw (linked.same_links, linked.diff.1, linked.same.1);
                  })
          ]
        ])

  -- The tables after a page was added: what is stored of it is a new page or the update of what was
  -- stored, it and its links have ids, which are stored for it, and what the tables held of other pages
  -- they still hold.
  pub record Added (page : CrawledPage) (t t' : Txn env) : Type 0 where
    pub n_pages : ℕ
    pub counted : env.info_db.get t'.info info_n_pages ≡ some n_pages
    pub consistent : IsConsistent env t'.hash2info t'.hash2idx n_pages
    pub grows : Grows env t.hash2idx t'.hash2idx
    pub keeps :
        (hash : ℕ) (bytes : List ℕ)
        → page_db_hash env page.url ≢ hash
        → info_at env t.hash2info hash ≡ some bytes
        → info_at env t'.hash2info hash ≡ some bytes
    pub page_bytes : List ℕ
    pub page_stored :
        PageStored env page (info_at env t.hash2info (page_db_hash env page.url)) page_bytes
    pub page_info : info_at env t'.hash2info (page_db_hash env page.url) ≡ some page_bytes
    pub page_id : ℕ
    pub owned : idx_at env t'.hash2idx (page_db_hash env page.url) ≡ some page_id
    pub diff : List ℕ
    pub same : List ℕ
    pub diff-HasIds : HasIds env t'.hash2idx (links_of false page.url page.links) diff
    pub same-HasIds : HasIds env t'.hash2idx (links_of true page.url page.links) same
    pub links : t'.links ≡ env.links_db.put t.links page_id (encode_links page_id diff same)

  module _ (page : CrawledPage) (n : ℕ) (t t1 : Txn env)
      (c : IsConsistent env t.hash2info t.hash2idx n)
      (added : InfoAdded env (page_db_hash env page.url) t t1)
      (crawled : PageStored env page
        (info_at env t.hash2info (page_db_hash env page.url))
        added.0) where
    other_info :
        (hash : ℕ) (bytes : List ℕ)
        → page_db_hash env page.url ≢ hash
        → info_at env t.hash2info hash ≡ some bytes
        → info_at env t1.hash2info hash ≡ some bytes
    other_info hash bytes other e = rw (added.2) (
        ground (
          arith,
          other,
          e,
          env.hash2info_db.get-put t.hash2info (page_db_hash env page.url) hash added.0,
        ))

    own_info : info_at env t1.hash2info (page_db_hash env page.url) ≡ some added.0
    own_info =
        let hash = page_db_hash env page.url in
        rw (added.2) (ground (arith, env.hash2info_db.get-put t.hash2info hash hash added.0))

    -- From the loop on, where the page has the id `page_id` in `t2`.
    entered :
        (page_id : ℕ) (t2 t' : Txn env)
        → idx_at env t2.hash2idx (page_db_hash env page.url) ≡ some page_id
        → t2.hash2info ≡ t1.hash2info
        → t2.links ≡ t1.links
        → Grows env t.hash2idx t2.hash2idx
        → LinksStored page page_id t2 t'
        → Added page t t'
    entered page_id t2 t' own i l grown s = record {
      n_pages = s.n_pages;
      counted = s.counted;
      consistent = s.consistent;
      grows = λ h id e. s.grows h id (grown h id e);
      keeps = λ h b other e. s.keeps h b (rw i (other_info h b other e));
      page_bytes = added.0;
      page_stored = crawled;
      page_info = s.keeps (page_db_hash env page.url) added.0 (rw i own_info);
      page_id = page_id;
      owned = s.grows _ page_id own;
      diff = s.diff;
      same = s.same;
      diff-HasIds = s.diff-HasIds;
      same-HasIds = s.same-HasIds;
      links = rw (s.links, l, added.4);
    }

    pub store_ids_lem :
        (pi : PageInfo)
        → IsPage env page
        → page_db_hash env page.url < 2 ^ 64
        → n + 1 + length page.links < 2 ^ 64
        → Ends env
            (λ _ t'. Added page t t')
            (store_ids env page (page_db_hash env page.url) pi n t1)
    unfolding store_ids put_idx call own_id
    store_ids_lem pi ok from room =
        let hash = page_db_hash env page.url in
        let (bytes, readable, i, x, l, _) = added in
        elim (Bool-cases (env.fault t1.calls)) [
          | inl bad ↦ rw (Ends, store_ids, call, bad) (t1.calls, bad)
          | inr good ↦ elim (Option-cases (env.hash2idx_db.get t.hash2idx hash)) [
            | inl new ↦
                let wrap : (n + 1) % 2 ^ 64 ≡ n + 1 = omega arith in
                let t2 : Txn env = record t1 {
                  hash2idx = env.hash2idx_db.put t1.hash2idx hash n;
                  calls = t1.calls + 1;
                } in
                rw (Ends, store_ids, call, good, put_idx, x, new, wrap)
                  (map_rule env (λ _ t'. LinksStored page n t2 t') (λ _ t'. Added page t t')
                    (store_links env page hash pi n (n + 1) t2)
                    (λ _ t' s.
                      entered n t2 t'
                        (ground (arith, env.hash2idx_db.get-put t1.hash2idx hash hash n)) refl refl
                        (λ h id e.
                          rw x
                            (ground (arith, e, new, env.hash2idx_db.get-put t.hash2idx hash h n)))
                        s)
                    (store_links_lem page hash pi n (n + 1) t2 ok.links from
                      (rw (i, x)
                        (new-IsConsistent env t.hash2info t.hash2idx n c hash bytes new readable))
                      room))
            | inr (id, known) ↦
                let t2 : Txn env = record t1 { calls = t1.calls + 1 } in
                rw (Ends, store_ids, call, good, put_idx, x, known)
                  (map_rule env (λ _ t'. LinksStored page id t2 t') (λ _ t'. Added page t t')
                    (store_links env page hash pi id n t2)
                    (λ _ t' s. entered id t2 t' (rw x known) refl refl (λ h i' e. rw x e) s)
                    (store_links_lem page hash pi id n t2 ok.links from
                      (rw (i, x)
                        (known-IsConsistent env t.hash2info t.hash2idx n c hash id bytes known
                          readable))
                      (omega arith)))
          ]
        ]

  pub calls-Added :
      (page : CrawledPage) (t t' : Txn env) (calls calls' : ℕ)
      → Added page t t'
      → Added page (record t { calls = calls }) (record t' { calls = calls' })
  calls-Added page t t' calls calls' a = record {
    n_pages = a.n_pages;
    counted = a.counted;
    consistent = a.consistent;
    grows = a.grows;
    keeps = a.keeps;
    page_bytes = a.page_bytes;
    page_stored = a.page_stored;
    page_info = a.page_info;
    page_id = a.page_id;
    owned = a.owned;
    diff = a.diff;
    same = a.same;
    diff-HasIds = a.diff-HasIds;
    same-HasIds = a.same-HasIds;
    links = a.links;
  }
