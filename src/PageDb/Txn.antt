-- ===== src/PageDb/Txn.antt =====
-- The transactions of page_db.c: what an operation sees of the tables, and how it fails.
pub mod Rules
pub mod Hash
use aduana.Common.{ℕ, ◌+◌, ◌-◌, ◌*◌, ◌/◌, ◌^◌, if◌then◌else◌, List, Option, none, some, take, drop}
use aduana.Util.Url.{url_domain}
use aduana.PageDb.Env.{Table, Env}

-- The only key of the "info" table, which stands for the text "n_pages".
abbrev pub info_n_pages : ℕ
info_n_pages = 0

-- Two values of the enumeration `PageDBError`.
abbrev pub page_db_error_ok : ℕ
page_db_error_ok = 0

abbrev pub page_db_error_internal : ℕ
page_db_error_internal = 3

pub page_db_hash_get_domain : ℕ → ℕ
page_db_hash_get_domain hash = hash / 2 ^ 32

-- How a step ends: it goes on, it jumps to `on_error`, or the behaviour of C is undefined there.
pub data Result (A : Type 0) : Type 0 where
  goes_on : A → Result A
  jumps : Result A
  undefined : Result A

-- A step on a state.
abbrev pub Action : Type 0 → Type 0 → Type 0
Action S A = S → Result (A × S)

infixl 5 ◌>>=◌
abbrev pub ◌>>=◌ : {S A B : Type 0} → Action S A → (A → Action S B) → Action S B
(m >>= f) t = elim (m t) [ goes_on (a, t') ↦ f a t' | jumps ↦ jumps | undefined ↦ undefined ]

abbrev pub pure : {S A : Type 0} → A → Action S A
pure a t = goes_on (a, t)

abbrev pub or_fail : {S A : Type 0} → Option A → Action S A
or_fail none t = jumps
or_fail (some a) t = goes_on (a, t)

abbrev pub or_undefined : {S A : Type 0} → Option A → Action S A
or_undefined none t = undefined
or_undefined (some a) t = goes_on (a, t)

module _ (env : Env) where
  -- The high half hashes the domain, the low half the whole text.
  unfoldable pub page_db_hash : List ℕ → ℕ
  page_db_hash url =
      let low = env.xxh32 url in
      elim (url_domain url) [
        | none ↦ low
        | some (start, end) ↦ env.xxh32 (take (end + 1 - start) (drop start url)) * 2 ^ 32 + low
      ]

  -- The tables that a write transaction sees, and how many calls of LMDB were made.
  pub record Txn : Type 0 where
    pub hash2info : env.hash2info_db.State
    pub hash2idx : env.hash2idx_db.State
    pub links : env.links_db.State
    pub info : env.info_db.State
    pub calls : ℕ

  -- A call of LMDB, which may fail.
  unfoldable pub call : {A : Type 0} → Action Txn A → Action Txn A
  call m t = if env.fault t.calls then jumps else m (record t { calls = t.calls + 1 })

  -- A call whose failure makes the code behind it free or abort what is not valid.
  unfoldable pub unsafe_call : {A : Type 0} → Action Txn A → Action Txn A
  unsafe_call m t = if env.fault t.calls then undefined else m (record t { calls = t.calls + 1 })
