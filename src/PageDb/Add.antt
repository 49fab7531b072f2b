-- ===== src/PageDb/Add.antt =====
-- `page_db_add` of page_db.c: a crawled page and its links enter the database in one transaction.
pub mod Consistent
pub mod Links
pub mod Store
pub mod Ids
pub mod Outcome
pub mod Reads
mod Runs
use aduana.Common.{
  ℕ, zero, suc, ◌+◌, ◌-◌, ◌*◌, ◌/◌, ◌%◌, ◌^◌, Bool, true, false, ◌==◌, if◌then◌else◌, List, [], ◌∷◌,
  ◌++◌, Option, none, some, length, take, drop,
}
use aduana.DomainTemp.{Float, DomainTemp, domain_temp_update, domain_temp_heat}
use aduana.Util.Url.{url_domain, same_domain}
use aduana.PageDb.Env.{Table, Env}
use aduana.PageDb.PageInfo.{
  LinkInfo, CrawledPage, PageInfo, page_info_new_link, page_info_new_crawled, page_info_update,
  page_info_dump, fits_block, page_info_load,
}
use aduana.PageDb.Links.{encode_links}
use aduana.PageDb.Txn.{
  page_db_error_ok, page_db_error_internal, page_db_hash_get_domain, info_n_pages, page_db_hash,
  Result, goes_on, jumps, undefined, Txn, Action, ◌>>=◌, or_undefined, unsafe_call, pure, call,
  or_fail,
}

-- The variables of the loop: the next id, the ids of the links outside and inside the domain, and
-- the new pages, all in order.
pub record Progress : Type 0 where
  pub n_pages : ℕ
  pub diff : List ℕ
  pub same : List ℕ
  pub page_info_list : List (ℕ × PageInfo)

-- `*id = ...` at `same_id + same_i++` or `diff_id + diff_i++`.
set_id : Bool → ℕ → Progress → Progress
set_id inside id p =
    if inside
    then record p { same = p.same ++ (id ∷ []) }
    else record p { diff = p.diff ++ (id ∷ []) }

-- The round `i == 0`: the id of the crawled page.
own_id : Option ℕ → ℕ → ℕ × ℕ
own_id (some id) n_pages = (id, n_pages)
own_id none n_pages = (n_pages, (n_pages + 1) % 2 ^ 64)

module _ (env : Env) where
  abbrev get_info : ℕ → Action (Txn env) (Option (List ℕ))
  get_info key t = goes_on (env.hash2info_db.get t.hash2info key, t)

  abbrev put_info : ℕ → List ℕ → Action (Txn env) (Unit {0})
  put_info key val t =
      goes_on (tt, record t { hash2info = env.hash2info_db.put t.hash2info key val })

  -- `page_info_load`, `page_info_update` and the flag MDB_CURRENT, or `page_info_new_crawled`.
  page_to_store : CrawledPage → Option (List ℕ) → Option PageInfo
  page_to_store page none = some (page_info_new_crawled page)
  page_to_store page (some val) = elim (page_info_load env.smaz val) [
    | none ↦ none
    | some pi ↦ some (page_info_update pi page)
  ]

  -- page_info_dump, where its writes stay in the block that it allocates.
  write_info : PageInfo → Action (Txn env) (List ℕ)
  write_info pi t =
      if fits_block env.smaz pi then or_fail (page_info_dump env.smaz pi) t else undefined

  -- `on_error` frees `val.mv_data`: where `mdb_cursor_get` fails it was never set, and where
  -- page_info_load fails it is memory of LMDB.
  pub page_db_add_crawled_page_info : ℕ → CrawledPage → Action (Txn env) PageInfo
  unfolding call unsafe_call page_to_store write_info
  page_db_add_crawled_page_info key page = do
    found ← unsafe_call env (get_info key)
    page_info ← or_undefined (page_to_store page found)
    val ← write_info page_info
    _ ← call env (put_info key val)
    pure page_info

  -- MDB_NOOVERWRITE: the code MDB_KEYEXIST is an error here.
  put_new_info : ℕ → List ℕ → Action (Txn env) (Unit {0})
  put_new_info key val t = elim (env.hash2info_db.get t.hash2info key) [
    | none ↦ put_info key val t
    | some _ ↦ jumps
  ]

  page_db_add_link_page_info : ℕ → ℕ → ℕ → LinkInfo → Action (Txn env) PageInfo
  unfolding call put_new_info write_info
  page_db_add_link_page_info key linked_from depth link = do
    let pi = page_info_new_link link.url linked_from depth link.score
    val ← write_info pi
    _ ← call env (put_new_info key val)
    pure pi

  -- `mdb_cursor_put(cur_hash2idx, ..., MDB_NOOVERWRITE)`: `some id` is MDB_KEYEXIST with that value.
  put_idx : ℕ → ℕ → Action (Txn env) (Option ℕ)
  put_idx key n_pages t = elim (env.hash2idx_db.get t.hash2idx key) [
    | none ↦ goes_on (none, record t { hash2idx = env.hash2idx_db.put t.hash2idx key n_pages })
    | some id ↦ goes_on (some id, t)
  ]

  -- The two cases of `switch (mdb_rc)`.
  id_of_link : ℕ → ℕ → ℕ → LinkInfo → Bool → Progress → Option ℕ → Action (Txn env) Progress
  unfolding set_id
  id_of_link hash cp_hash link_depth link inside p (some id) = pure (set_id inside id p)
  id_of_link hash cp_hash link_depth link inside p none = do
    pi ← page_db_add_link_page_info hash cp_hash link_depth link
    pure (record (set_id inside p.n_pages p) {
      n_pages = (p.n_pages + 1) % 2 ^ 64;
      page_info_list = (hash, pi) ∷ p.page_info_list;
    })

  -- One round of the loop for `i > 0`.
  pub add_link : CrawledPage → ℕ → ℕ → LinkInfo → Progress → Action (Txn env) Progress
  unfolding put_idx call id_of_link
  add_link page cp_hash link_depth link p = do
    let hash = page_db_hash env link.url
    known ← call env (put_idx hash p.n_pages)
    id_of_link hash cp_hash link_depth link (same_domain page.url link.url) p known

  pub add_links : CrawledPage → ℕ → ℕ → List LinkInfo → Progress → Action (Txn env) Progress
  add_links page cp_hash link_depth [] p = pure p
  add_links page cp_hash link_depth (link ∷ links) p = do
    p' ← add_link page cp_hash link_depth link p
    add_links page cp_hash link_depth links p'

  abbrev pub get_n_pages : Action (Txn env) ℕ
  get_n_pages t = elim (env.info_db.get t.info info_n_pages) [
    | none ↦ jumps
    | some n ↦ goes_on (n, t)
  ]

  abbrev put_n_pages : ℕ → Action (Txn env) (Unit {0})
  put_n_pages n t = goes_on (tt, record t { info = env.info_db.put t.info info_n_pages n })

  abbrev put_links : ℕ → List ℕ → Action (Txn env) (Unit {0})
  put_links key val t = goes_on (tt, record t { links = env.links_db.put t.links key val })

  -- The rounds of the loop for the links, and what is stored behind it.
  pub store_links : CrawledPage → ℕ → PageInfo → ℕ → ℕ → Action (Txn env) (List (ℕ × PageInfo))
  unfolding call
  store_links page cp_hash pi page_id n_pages = do
    p ←
        add_links page cp_hash ((pi.depth + 1) % 2 ^ 64) page.links
          (record { n_pages = n_pages; diff = []; same = []; page_info_list = (cp_hash, pi) ∷ [] })
    _ ← call env (put_n_pages p.n_pages)
    _ ← call env (put_links page_id (encode_links page_id p.diff p.same))
    pure p.page_info_list

  -- The round `i == 0`, for the page itself, and the rest.
  pub store_ids : CrawledPage → ℕ → PageInfo → ℕ → Action (Txn env) (List (ℕ × PageInfo))
  unfolding put_idx call own_id store_links
  store_ids page cp_hash pi n_pages = do
    known ← call env (put_idx cp_hash n_pages)
    let (page_id, n_pages') = own_id known n_pages
    store_links page cp_hash pi page_id n_pages'

  -- `txn_manager_begin`, the four cursors, and the number of pages.
  pub begin_add : Action (Txn env) ℕ
  unfolding call
  begin_add = do
    _ ← call env (pure tt)
    _ ← call env (pure tt)
    _ ← call env (pure tt)
    _ ← call env (pure tt)
    _ ← call env (pure tt)
    call env get_n_pages

  -- The rest of the transaction, up to `txn_manager_commit`. A commit that fails has freed the
  -- transaction, which is then aborted. The result is `*page_info_list`.
  pub finish_add : CrawledPage → ℕ → Action (Txn env) (List (ℕ × PageInfo))
  unfolding store_ids unsafe_call
  finish_add page n_pages = do
    let cp_hash = page_db_hash env page.url
    pi ← page_db_add_crawled_page_info cp_hash page
    pages ← store_ids page cp_hash pi n_pages
    _ ← unsafe_call env (pure tt)
    pure pages

  -- The error code stays set when it was set once.
  pub record PageDb : Type 0 where
    pub hash2info : env.hash2info_db.State
    pub hash2idx : env.hash2idx_db.State
    pub links : env.links_db.State
    pub info : env.info_db.State
    pub domain_temp : Option (DomainTemp env.float)
    pub error : ℕ

  -- `domain_temp_update` and `domain_temp_heat` where temperatures are kept.
  heat_domain : CrawledPage → Option (DomainTemp env.float) → Option (DomainTemp env.float)
  heat_domain page none = none
  heat_domain page (some dh) = some (
      domain_temp_heat env.float (domain_temp_update env.float dh (env.float.of_time page.time))
        (page_db_hash_get_domain (page_db_hash env page.url)))

  -- The transaction is aborted, and the error is stored, unless there is one already: `error_set`.
  on_error : PageDb → PageDb
  on_error db = record db {
    error = if db.error == page_db_error_ok then page_db_error_internal else db.error;
  }

  pub begun : PageDb → Txn env
  begun db = record {
    hash2info = db.hash2info;
    hash2idx = db.hash2idx;
    links = db.links;
    info = db.info;
    calls = 1;
  }

  committed : Txn env → PageDb → PageDb
  committed t db = record db {
    hash2info = t.hash2info;
    hash2idx = t.hash2idx;
    links = t.links;
    info = t.info;
  }

  -- A size that cannot be doubled is an error, and so is any error of an earlier call.
  page_db_expand : PageDb → PageDb
  unfolding on_error
  page_db_expand db = if env.fault 0 then on_error db else db

  -- What the caller gets: `*page_info_list`, or an error, or undefined behaviour.
  pub data AddResult : Type 0 where
    added : List (ℕ × PageInfo) → AddResult
    refused : AddResult
    undefined_behaviour : AddResult

  -- Behind `txn_manager_commit`, and `on_error`.
  close_add : PageDb → Result (List (ℕ × PageInfo) × Txn env) → PageDb × AddResult
  unfolding on_error committed
  close_add db (goes_on (pages, t)) = (committed t db, added pages)
  close_add db jumps = (on_error db, refused)
  close_add db undefined = (db, undefined_behaviour)

  -- From `n_pages` on, or where it could not be had.
  open_add : PageDb → CrawledPage → Result (ℕ × Txn env) → PageDb × AddResult
  unfolding finish_add heat_domain on_error close_add
  open_add db page (goes_on (n_pages, t)) =
      close_add (record db { domain_temp = heat_domain page db.domain_temp })
        (finish_add page n_pages t)
  open_add db page jumps = (on_error db, refused)
  open_add db page undefined = (db, undefined_behaviour)

  add_transaction : PageDb → CrawledPage → PageDb × AddResult
  unfolding begin_add begun open_add
  add_transaction db page = open_add db page (begin_add (begun db))

  -- The database after the call, and `*page_info_list` where the call went through. Where the behaviour
  -- is undefined the database means nothing.
  -- The code that the function returns is the database's `error`.
  pub page_db_add : PageDb → CrawledPage → PageDb × AddResult
  unfolding add_transaction page_db_expand
  page_db_add db page =
      let db = page_db_expand db in
      if db.error == page_db_error_ok then add_transaction db page else (db, refused)
