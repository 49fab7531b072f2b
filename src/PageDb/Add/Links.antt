-- ===== src/PageDb/Add/Links.antt =====
-- The loop of `page_db_add` over the links of a page.
pub mod Loop
use aduana.Common.{
  ℕ, zero, suc, ◌+◌, ◌*◌, ◌%◌, ◌^◌, ◌≤◌, ◌<◌, ◌≡◌, refl, sym, ◌∙◌, arith, Bool, true, false,
  if◌then◌else◌, List, [], ◌∷◌, ◌++◌, append_assoc, append-nil, length, All, Option, none, some,
  Bool-cases, Option-cases, inl, inr,
}
use aduana.Util.Url.{url_domain, same_domain}
use aduana.PageDb.Env.{Table, Env}
use aduana.PageDb.PageInfo.{
  LinkInfo, CrawledPage, PageInfo, page_info_new_link, page_info_dump, fits_block,
}
use aduana.PageDb.PageInfo.Stored.{IsStorable, IsShort, load-dump}
use aduana.PageDb.Txn.{Txn, page_db_hash, call}
use aduana.PageDb.Txn.Rules.{Fault, Ends, bind_rule}
use aduana.PageDb.Add.{
  Progress, put_idx, set_id, write_info, put_new_info, id_of_link, page_db_add_link_page_info,
  add_link, add_links,
}
use aduana.PageDb.Add.Consistent.{IsReadable, info_at, idx_at, IsConsistent, new-IsConsistent}

-- The links inside the domain of a page, or those outside.
pub links_of : Bool → List ℕ → List LinkInfo → List LinkInfo
links_of inside url [] = []
links_of inside url (link ∷ links) =
    let rest = links_of inside url links in
    if same_domain url link.url
    then (if inside then link ∷ rest else rest)
    else (if inside then rest else link ∷ rest)

pub length-links_of :
    (inside : Bool) (url : List ℕ) (links : List LinkInfo)
    → length (links_of inside url links) ≤ length links
unfolding links_of
length-links_of inside url [] = omega arith
length-links_of inside url (link ∷ links) =
    let rest = length-links_of inside url links in ground (arith, rest)

module _ (env : Env) where
  -- A link that the code can store.
  pub record IsLink (link : LinkInfo) : Type 0 where
    pub curl : List ℕ
    pub short : IsShort env.smaz link.url curl
    pub score : link.score < 2 ^ 32

  -- The ids of some links, in order.
  abbrev pub HasIds : env.hash2idx_db.State → List LinkInfo → List ℕ → Type 0
  HasIds idxs [] [] = Unit {0}
  HasIds idxs (link ∷ links) (id ∷ ids) =
      (idx_at env idxs (page_db_hash env link.url) ≡ some id) × HasIds idxs links ids
  HasIds idxs links ids = ⊥

  abbrev pub Grows : env.hash2idx_db.State → env.hash2idx_db.State → Type 0
  Grows idxs idxs' =
      (hash id : ℕ) → idx_at env idxs hash ≡ some id → idx_at env idxs' hash ≡ some id

  pub ids_stay :
      (idxs idxs' : env.hash2idx_db.State) (links : List LinkInfo) (ids : List ℕ)
      → Grows idxs idxs'
      → HasIds idxs links ids
      → HasIds idxs' links ids
  ids_stay idxs idxs' [] [] g h = h
  ids_stay idxs idxs' [] (id ∷ ids) g h = h
  ids_stay idxs idxs' (link ∷ links) [] g h = h
  ids_stay idxs idxs' (link ∷ links) (id ∷ ids) g h =
      (g _ id h.0, ids_stay idxs idxs' links ids g h.1)

  -- What the loop over `links` does to the tables and its variables.
  pub record Linked (url : List ℕ) (links : List LinkInfo) (t : Txn env) (p : Progress)
      (t' : Txn env) (p' : Progress) : Type 0 where
    pub consistent : IsConsistent env t'.hash2info t'.hash2idx p'.n_pages
    pub few : p'.n_pages ≤ p.n_pages + length links
    pub grows : Grows t.hash2idx t'.hash2idx
    pub keeps :
        (hash : ℕ) (bytes : List ℕ)
        → info_at env t.hash2info hash ≡ some bytes
        → info_at env t'.hash2info hash ≡ some bytes
    pub same_links : t'.links ≡ t.links
    pub same_info : t'.info ≡ t.info
    pub diff :
        (ids : List ℕ) × (p'.diff ≡ p.diff ++ ids)
        × HasIds t'.hash2idx (links_of false url links) ids
    pub same :
        (ids : List ℕ) × (p'.same ≡ p.same ++ ids)
        × HasIds t'.hash2idx (links_of true url links) ids

  set_id-n_pages :
      (inside : Bool) (id : ℕ) (p : Progress) → (set_id inside id p).n_pages ≡ p.n_pages
  unfolding set_id
  set_id-n_pages true id p = refl
  set_id-n_pages false id p = refl

  -- The id of one link is appended on its side.
  one_link :
      (url : List ℕ) (link : LinkInfo) (id : ℕ) (p : Progress) (idxs : env.hash2idx_db.State)
      → idx_at env idxs (page_db_hash env link.url) ≡ some id
      → ((ids : List ℕ) × ((set_id (same_domain url link.url) id p).diff ≡ p.diff ++ ids)
          × HasIds idxs (links_of false url (link ∷ [])) ids)
        × ((ids : List ℕ) × ((set_id (same_domain url link.url) id p).same ≡ p.same ++ ids)
            × HasIds idxs (links_of true url (link ∷ [])) ids)
  unfolding links_of set_id
  one_link url link id p idxs e = elim (Bool-cases (same_domain url link.url)) [
    | inl inside ↦ rw inside (([], sym (append-nil p.diff), tt), (id ∷ [], refl, (e, tt)))
    | inr outside ↦ rw outside ((id ∷ [], refl, (e, tt)), ([], sym (append-nil p.same), tt))
  ]

  -- A page was written, and the other tables are as they were.
  abbrev pub InfoAdded : ℕ → Txn env → Txn env → Type 0
  InfoAdded hash t t' =
      (bytes : List ℕ) × IsReadable env bytes
      × (t'.hash2info ≡ env.hash2info_db.put t.hash2info hash bytes)
      × (t'.hash2idx ≡ t.hash2idx)
      × (t'.links ≡ t.links)
      × (t'.info ≡ t.info)

  module _ (page : CrawledPage) (cp_hash link_depth : ℕ) (from : cp_hash < 2 ^ 64)
      (deep : link_depth < 2 ^ 64) where
    new_link_dump :
        (link : LinkInfo)
        → IsLink link
        → (bytes : List ℕ) × (page_info_dump env.smaz
              (page_info_new_link link.url cp_hash link_depth link.score)
            ≡ some bytes)
          × (fits_block env.smaz (page_info_new_link link.url cp_hash link_depth link.score) ≡ true)
          × IsReadable env bytes
    unfolding page_info_new_link
    new_link_dump link ok =
        let pi = page_info_new_link link.url cp_hash link_depth link.score in
        let s = new-IsStorable in
        let (bytes, e, f, _, _) = load-dump env.smaz pi ok.curl ok.short s in
        (
          bytes,
          e,
          f,
          record { pi = pi; curl = ok.curl; short = ok.short; storable = s; written = e },
        )
      where
        new-IsStorable : IsStorable (page_info_new_link link.url cp_hash link_depth link.score)
        new-IsStorable = record {
          score = ok.score;
          linked_from = from;
          depth = deep;
          n_crawls = omega arith;
          first_crawl = omega arith;
          last_crawl = omega arith;
          n_changes = omega arith;
          hash_length = omega arith;
          hash = refl;
        }

    link_page_info_lem :
        (hash : ℕ) (link : LinkInfo) (t : Txn env)
        → IsLink link
        → info_at env t.hash2info hash ≡ none
        → Ends env
            (λ _ t'. InfoAdded hash t t')
            (page_db_add_link_page_info env hash cp_hash link_depth link t)
    unfolding page_db_add_link_page_info put_new_info write_info call
    link_page_info_lem hash link t ok new =
        let (bytes, e, f, readable) = new_link_dump link ok in
        elim (Bool-cases (env.fault t.calls)) [
          | inl bad ↦
              rw (Ends, page_db_add_link_page_info, write_info, f, e, call, bad) (t.calls, bad)
          | inr good ↦
              rw (Ends, page_db_add_link_page_info, write_info, f, e, call, good, put_new_info, new)
                (bytes, readable, refl, refl, refl, refl)
        ]

    new_link_lem :
        (link : LinkInfo) (t : Txn env) (p : Progress)
        → IsLink link
        → IsConsistent env t.hash2info t.hash2idx p.n_pages
        → p.n_pages + 1 < 2 ^ 64
        → idx_at env t.hash2idx (page_db_hash env link.url) ≡ none
        → (pi : PageInfo) (t' : Txn env)
        → InfoAdded
            (page_db_hash env link.url)
            (record t {
              hash2idx = env.hash2idx_db.put t.hash2idx (page_db_hash env link.url) p.n_pages;
              calls = t.calls + 1;
            })
            t'
        → Linked page.url
            (link ∷ [])
            t
            p
            t'
            (record (set_id (same_domain page.url link.url) p.n_pages p) {
              n_pages = (p.n_pages + 1) % 2 ^ 64;
              page_info_list = (page_db_hash env link.url, pi) ∷ p.page_info_list;
            })
    new_link_lem link t p ok c room new pi t' (bytes, readable, i, x, l, n) =
        let hash = page_db_hash env link.url in
        let wrap : (p.n_pages + 1) % 2 ^ 64 ≡ p.n_pages + 1 = omega arith in
        let ids =
          one_link page.url link p.n_pages p t'.hash2idx
            (rw x (ground (arith, env.hash2idx_db.get-put t.hash2idx hash hash p.n_pages))) in
        record {
          consistent =
              rw (i, x, wrap)
                (new-IsConsistent env t.hash2info t.hash2idx p.n_pages c hash bytes new readable);
          few = omega arith;
          grows = λ h id e.
              rw x (ground (arith, e, new, env.hash2idx_db.get-put t.hash2idx hash h p.n_pages));
          keeps = λ h b e. rw i (
              ground (
                arith,
                e,
                (c.paged hash).0 new,
                env.hash2info_db.get-put t.hash2info hash h bytes,
              ));
          same_links = l;
          same_info = n;
          diff = ids.0;
          same = ids.1;
        }

    pub add_link_lem :
        (link : LinkInfo) (t : Txn env) (p : Progress)
        → IsLink link
        → IsConsistent env t.hash2info t.hash2idx p.n_pages
        → p.n_pages + 1 < 2 ^ 64
        → Ends env
            (λ p' t'. Linked page.url (link ∷ []) t p t' p')
            (add_link env page cp_hash link_depth link p t)
    unfolding add_link put_idx call
    add_link_lem link t p ok c room =
        let hash = page_db_hash env link.url in
        elim (Bool-cases (env.fault t.calls)) [
          | inl bad ↦ rw (Ends, add_link, call, bad) (t.calls, bad)
          | inr good ↦ elim (Option-cases (env.hash2idx_db.get t.hash2idx hash)) [
            | inl new ↦
                rw (Ends, add_link, call, good, put_idx, new)
                  (bind_rule env
                    (λ _ t'.
                      InfoAdded hash
                        (record t {
                          hash2idx = env.hash2idx_db.put t.hash2idx hash p.n_pages;
                          calls = t.calls + 1;
                        })
                        t')
                    (λ p' t'. Linked page.url (link ∷ []) t p t' p')
                    (page_db_add_link_page_info env hash cp_hash link_depth link (record t {
                      hash2idx = env.hash2idx_db.put t.hash2idx hash p.n_pages;
                      calls = t.calls + 1;
                    }))
                    _ (link_page_info_lem hash link _ ok ((c.paged hash).0 new))
                    (λ pi t' added. new_link_lem link t p ok c room new pi t' added))
            | inr (id, known) ↦
                rw (Ends, add_link, call, good, put_idx, known)
                  (let same_count = set_id-n_pages (same_domain page.url link.url) id p in
                    record {
                      consistent = rw same_count c;
                      few = rw same_count (omega arith);
                      grows = λ h i e. e;
                      keeps = λ h b e. e;
                      same_links = refl;
                      same_info = refl;
                      diff = (one_link page.url link id p t.hash2idx known).0;
                      same = (one_link page.url link id p t.hash2idx known).1;
                    })
          ]
        ]
