-- ===== src/PageDb/Txn/Hash.antt =====
-- The two halves of a page's hash.
use aduana.Common.{
  ℕ, ◌+◌, ◌-◌, ◌*◌, ◌^◌, ◌<◌, ◌≡◌, arith, List, Option, none, some, take, drop, Option-cases, inl,
  inr,
}
use aduana.Util.Url.{url_domain}
use aduana.PageDb.Env.{Env}
use aduana.PageDb.Txn.{page_db_hash, page_db_hash_get_domain}

-- The hash of a URL's domain, and 0 for a text that is no URL.
abbrev pub domain_hash : Env → List ℕ → Option (ℕ × ℕ) → ℕ
domain_hash env url none = 0
domain_hash env url (some (start, end)) = env.xxh32 (take (end + 1 - start) (drop start url))

module _ (env : Env) where
  halves :
      (url : List ℕ)
      → page_db_hash env url ≡ domain_hash env url (url_domain url) * 2 ^ 32 + env.xxh32 url
  unfolding page_db_hash
  halves url = elim (Option-cases (url_domain url)) [
    | inl e ↦ ground (arith, e)
    | inr (d, e) ↦ ground (arith, e)
  ]

  domain_hash-lt : (url : List ℕ) (d : Option (ℕ × ℕ)) → domain_hash env url d < 2 ^ 32
  domain_hash-lt url none = omega arith
  domain_hash-lt url (some (start, end)) = env.xxh32-lt (take (end + 1 - start) (drop start url))

  pub page_db_hash-lt : (url : List ℕ) → page_db_hash env url < 2 ^ 64
  page_db_hash-lt url =
      omega (arith, halves url, env.xxh32-lt url, domain_hash-lt url (url_domain url))

  -- The domain half of the hash of a URL is the hash of its domain, and 0 for a text that is no URL.
  get_domain-page_db_hash :
      (url : List ℕ)
      → page_db_hash_get_domain (page_db_hash env url) ≡ domain_hash env url (url_domain url)
  unfolding page_db_hash_get_domain
  get_domain-page_db_hash url = omega (arith, halves url, env.xxh32-lt url)
