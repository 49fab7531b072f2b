-- ===== src/PageDb/Add/Store.antt =====
-- What `page_db_add` stores of the crawled page and of its links.
use aduana.Common.{
  ℕ, ◌+◌, ◌≡◌, ◌≢◌, ◌⊎◌, refl, sym, arith, Option-cases, ltb, List, All, Option, none, some,
  Bool-cases, inl, inr,
}
use aduana.PageDb.Env.{Env}
use aduana.PageDb.PageInfo.{
  CrawledPage, PageInfo, page_info_new_link, page_info_new_crawled, page_info_update,
  page_info_dump, page_info_load,
}
use aduana.PageDb.PageInfo.Stored.{IsStorable, IsShort, stored, take_whole, load-dump}
use aduana.PageDb.PageInfo.Update.{IsCrawled, page_info_update_lem, page_info_update-IsStorable}
use aduana.PageDb.Txn.{Txn, call, unsafe_call}
use aduana.PageDb.Txn.Rules.{Ends}
use aduana.PageDb.Add.{page_to_store, write_info, page_db_add_crawled_page_info}
use aduana.PageDb.Add.Consistent.{IsReadable, info_at}
use aduana.PageDb.Add.Links.{IsLink, InfoAdded}

stored-IsStorable : (pi : PageInfo) → IsStorable pi → IsStorable (stored pi)
unfolding stored page_info_new_link
stored-IsStorable pi s = elim (Bool-cases (ltb 1 pi.n_crawls)) [
  | inl more ↦ rw more s
  | inr few ↦ elim (Bool-cases (ltb 0 pi.n_crawls)) [
    | inl once ↦
        rw (few, once)
          (record {
            score = s.score;
            linked_from = s.linked_from;
            depth = s.depth;
            n_crawls = s.n_crawls;
            first_crawl = s.first_crawl;
            last_crawl = s.first_crawl;
            n_changes = omega arith;
            hash_length = s.hash_length;
            hash = s.hash;
          })
    | inr never ↦
        rw (few, never)
          (record {
            score = s.score;
            linked_from = s.linked_from;
            depth = s.depth;
            n_crawls = s.n_crawls;
            first_crawl = omega arith;
            last_crawl = omega arith;
            n_changes = omega arith;
            hash_length = omega arith;
            hash = refl;
          })
  ]
]

stored-url : (pi : PageInfo) → (stored pi).url ≡ pi.url
unfolding stored page_info_new_link
stored-url pi = ground arith

some_injective : {A : Type 0} {a b : A} → some a ≡ some b → a ≡ b
some_injective e = cc e

differs : {A : Type 0} {a : A} → none ≢ some a
differs e = cc e

module _ (env : Env) where
  -- A crawled page that the code can store.
  pub record IsPage (page : CrawledPage) : Type 0 where
    pub curl : List ℕ
    pub short : IsShort env.smaz page.url curl
    pub crawled : IsCrawled page
    pub links : All (IsLink env) page.links

  new_crawled-IsStorable :
      (page : CrawledPage) → IsPage page → IsStorable (page_info_new_crawled page)
  unfolding page_info_new_crawled page_info_new_link
  new_crawled-IsStorable page ok = record {
    score = ok.crawled.score;
    linked_from = omega arith;
    depth = omega arith;
    n_crawls = omega arith;
    first_crawl = ok.crawled.time;
    last_crawl = ok.crawled.time;
    n_changes = omega arith;
    hash_length = ok.crawled.hash_length;
    hash =
        rw (take_whole page.content_hash_length page.content_hash ok.crawled.hash) ok.crawled.hash;
  }

  -- The page that is stored for a crawled one can be stored.
  record IsWritable (page : CrawledPage) (found : Option (List ℕ)) : Type 0 where
    pi : PageInfo
    curl : List ℕ
    made : page_to_store env page found ≡ some pi
    short : IsShort env.smaz pi.url curl
    storable : IsStorable pi

  loaded :
      (bytes : List ℕ) (r : IsReadable env bytes)
      → page_info_load env.smaz bytes ≡ some (stored r.pi)
  loaded bytes r =
      let (bytes', e, _, l, _) = load-dump env.smaz r.pi r.curl r.short r.storable in
      let same : bytes' ≡ bytes = ground (arith, e, r.written) in rw same at l

  known-IsWritable :
      (page : CrawledPage) (bytes : List ℕ)
      → IsPage page
      → IsReadable env bytes
      → IsWritable page (some bytes)
  unfolding page_to_store
  known-IsWritable page bytes ok r =
      let s = stored-IsStorable r.pi r.storable in
      let kept = page_info_update_lem (stored r.pi) page s ok.crawled in
      record {
        pi = page_info_update (stored r.pi) page;
        curl = r.curl;
        made = rw (page_to_store, loaded bytes r);
        short = rw (kept.10, stored-url r.pi) r.short;
        storable = page_info_update-IsStorable (stored r.pi) page s ok.crawled;
      }

  page_to_store-IsWritable :
      (page : CrawledPage) (found : Option (List ℕ))
      → IsPage page
      → ((bytes : List ℕ) → found ≡ some bytes → IsReadable env bytes)
      → IsWritable page found
  unfolding page_to_store page_info_new_crawled page_info_new_link
  page_to_store-IsWritable page none ok readable = record {
    pi = page_info_new_crawled page;
    curl = ok.curl;
    made = refl;
    short = ok.short;
    storable = new_crawled-IsStorable page ok;
  }
  page_to_store-IsWritable page (some bytes) ok readable =
      known-IsWritable page bytes ok (readable bytes refl)

  -- The bytes are those of the page as it is stored after the crawl: of a new page, or of what could be
  -- read of the page, with the update of the crawl.
  abbrev pub PageStored : CrawledPage → Option (List ℕ) → List ℕ → Type 0
  PageStored page found bytes =
      (pi : PageInfo) × (page_info_dump env.smaz pi ≡ some bytes)
      × (((found ≡ none) × (pi ≡ page_info_new_crawled page))
          ⊎ ((val : List ℕ) × (old : PageInfo) × (found ≡ some val)
              × (page_info_load env.smaz val ≡ some old)
              × (pi ≡ page_info_update old page)))

  page_to_store_lem :
      (page : CrawledPage) (found : Option (List ℕ)) (pi : PageInfo)
      → page_to_store env page found ≡ some pi
      → ((found ≡ none) × (pi ≡ page_info_new_crawled page))
        ⊎ ((val : List ℕ) × (old : PageInfo) × (found ≡ some val)
            × (page_info_load env.smaz val ≡ some old)
            × (pi ≡ page_info_update old page))
  unfolding page_to_store
  page_to_store_lem page none pi e = inl (refl, some_injective (sym e))
  page_to_store_lem page (some val) pi e = elim (Option-cases (page_info_load env.smaz val)) [
    | inl unread ↦ absurd (differs (rw (page_to_store, unread) at e))
    | inr (old, read) ↦
        inr (val, old, refl, read, some_injective (sym (rw (page_to_store, read) at e)))
  ]

  -- What is stored for the crawled page.
  abbrev pub CrawledStored : ℕ → CrawledPage → Txn env → Txn env → Type 0
  CrawledStored hash page t t' =
      (added : InfoAdded env hash t t') × PageStored page (info_at env t.hash2info hash) added.0

  pub crawled_page_info_lem :
      (hash : ℕ) (page : CrawledPage) (t : Txn env)
      → IsPage page
      → ((bytes : List ℕ) → info_at env t.hash2info hash ≡ some bytes → IsReadable env bytes)
      → Ends env
          (λ _ t'. CrawledStored hash page t t')
          (page_db_add_crawled_page_info env hash page t)
  unfolding page_db_add_crawled_page_info call unsafe_call write_info
  crawled_page_info_lem hash page t ok readable =
      let s = page_to_store-IsWritable page (info_at env t.hash2info hash) ok readable in
      let (bytes, e, f, _, _) = load-dump env.smaz s.pi s.curl s.short s.storable in
      elim (Bool-cases (env.fault t.calls)) [
        | inl bad ↦ rw (Ends, page_db_add_crawled_page_info, unsafe_call, bad) (t.calls, bad)
        | inr good ↦ elim (Bool-cases (env.fault (t.calls + 1))) [
          | inl bad ↦
              rw
                (
                  Ends, page_db_add_crawled_page_info, unsafe_call, good, s.made, write_info, f, e,
                  call, bad,
                )
                (t.calls + 1, bad)
          | inr good' ↦
              rw
                (
                  Ends, page_db_add_crawled_page_info, unsafe_call, good, s.made, write_info, f, e,
                  call, good',
                )
                (
                  (
                    bytes,
                    record {
                      pi = s.pi;
                      curl = s.curl;
                      short = s.short;
                      storable = s.storable;
                      written = e;
                    },
                    refl,
                    refl,
                    refl,
                    refl,
                  ),
                  (s.pi, e, page_to_store_lem page (info_at env t.hash2info hash) s.pi s.made),
                )
        ]
      ]
