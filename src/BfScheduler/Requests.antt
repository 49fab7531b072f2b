-- ===== src/BfScheduler/Requests.antt =====
-- Requests of the best-first scheduler: `bf_scheduler_add_requests` walks over the schedule from the
-- highest score on, and `PageRequest` of scheduler.c collects the URLs.
pub mod Order
mod Runs
use aduana.Common.{
  ℕ, zero, suc, ◌+◌, ◌-◌, ◌/◌, ◌^◌, Bool, true, false, ◌||◌, ltb, leb, ◌==◌, if◌then◌else◌, List,
  [], ◌∷◌, ◌++◌, Option, none, some, length, take,
}
use aduana.DomainTemp.{Float, DomainTemp, domain_temp_get}
use aduana.PageDb.PageInfo.{PageInfo}
use aduana.PageDb.Txn.{page_db_hash_get_domain}

module _ (float : Float) where
  pub record ScheduleKey : Type 0 where
    pub score : float.Carrier
    pub hash : ℕ

  -- `schedule_entry_mdb_cmp_desc`: higher scores first, and lower hashes among equal scores.
  pub data Comparison : Type 0 where
    before : Comparison
    same : Comparison
    behind : Comparison

  unfoldable pub schedule_entry_mdb_cmp_desc : ScheduleKey → ScheduleKey → Comparison
  schedule_entry_mdb_cmp_desc a b =
      if float.less a.score b.score
      then behind
      else if float.less b.score a.score
      then before
      else if ltb a.hash b.hash
      then before
      else if ltb b.hash a.hash
      then behind
      else same

  unfoldable pub schedule_entry_mdb_cmp_asc : ScheduleKey → ScheduleKey → Comparison
  unfolding schedule_entry_mdb_cmp_desc
  schedule_entry_mdb_cmp_asc a b = elim (schedule_entry_mdb_cmp_desc a b) [
    | before ↦ behind
    | same ↦ same
    | behind ↦ before
  ]

  -- What the scheduler reads of the page database: a page, or `none` in front where it cannot.
  pub record Pages : Type 0 where
    pub page_db_get_info : ℕ → Option (Option PageInfo)
    pub domain_temp : Option (DomainTemp float)

  unfoldable pub page_db_get_domain_crawl_rate : Option (DomainTemp float) → ℕ → float.Carrier
  page_db_get_domain_crawl_rate none domain = float.nought
  page_db_get_domain_crawl_rate (some dh) domain = domain_temp_get float dh domain

  -- `crawl_limit < 0`, or the crawl rate of the domain is within the limit.
  unfoldable pub within_limit : Pages → float.Carrier → ℕ → Bool
  unfolding page_db_get_domain_crawl_rate
  within_limit pages crawl_limit hash =
      float.less crawl_limit float.nought
      || float.leq (page_db_get_domain_crawl_rate pages.domain_temp (page_db_hash_get_domain hash))
          crawl_limit

  -- What becomes of an entry: it stays, it is deleted, or it is deleted and its URL requested.
  pub data Verdict : Type 0 where
    keep : Verdict
    drop_it : Verdict
    request_it : List ℕ → Verdict

  unfoldable pub verdict : Pages → float.Carrier → ℕ → Option PageInfo → Verdict
  unfolding within_limit
  verdict pages crawl_limit hash none = keep
  verdict pages crawl_limit hash (some pi) =
      if pi.n_crawls == 0
      then (if within_limit pages crawl_limit hash then request_it pi.url else keep)
      else drop_it

  -- The loop over the cursor; `room` is `max_request - req->n_urls`. The result is the URLs that are
  -- added and the entries that are left; `none` is the error of reading a page.
  pub bf_scheduler_add_requests :
      Pages → float.Carrier → ℕ → List ScheduleKey → Option (List (List ℕ) × List ScheduleKey)
  unfolding verdict
  bf_scheduler_add_requests pages crawl_limit zero entries = some ([], entries)
  bf_scheduler_add_requests pages crawl_limit (suc room) [] = some ([], [])
  bf_scheduler_add_requests pages crawl_limit (suc room) (entry ∷ entries) =
      let after_one = bf_scheduler_add_requests pages crawl_limit room entries in
      let after_none = bf_scheduler_add_requests pages crawl_limit (suc room) entries in
      elim (pages.page_db_get_info entry.hash) [
        | none ↦ none
        | some info ↦ elim (verdict pages crawl_limit entry.hash info) [
          | keep ↦ elim after_none [ none ↦ none | some (urls, rest) ↦ some (urls, entry ∷ rest) ]
          | drop_it ↦ after_none
          | request_it url ↦ elim after_one [
            | none ↦ none
            | some (urls, rest) ↦ some (url ∷ urls, rest)
          ]
        ]
      ]

  -- The steps of the crawl rate between the soft and the hard limit:
  -- `max_soft_domain_crawl_rate*exp(k*step)`, tried one after the other while there is room.
  bf_scheduler_ramp :
      Pages → List float.Carrier → ℕ → List ScheduleKey → Option (List (List ℕ) × List ScheduleKey)
  unfolding bf_scheduler_add_requests
  bf_scheduler_ramp pages [] room entries = some ([], entries)
  bf_scheduler_ramp pages (limit ∷ limits) zero entries = some ([], entries)
  bf_scheduler_ramp pages (limit ∷ limits) (suc room) entries =
      elim (bf_scheduler_add_requests pages limit (suc room) entries) [
        | none ↦ none
        | some (urls, rest) ↦ elim (bf_scheduler_ramp pages limits (suc room - length urls) rest) [
          | none ↦ none
          | some (urls', rest') ↦ some (urls ++ urls', rest')
        ]
      ]

  -- `bf_scheduler_request` on the entries: the soft limit, then, where the hard limit is above it, the
  -- ramp, and the hard limit alone otherwise. `ramp` holds the limits of the steps 1 to 4.
  pub bf_scheduler_request :
      Pages
      → float.Carrier
      → float.Carrier
      → List float.Carrier
      → ℕ
      → List ScheduleKey
      → Option (List (List ℕ) × List ScheduleKey)
  unfolding bf_scheduler_add_requests bf_scheduler_ramp
  bf_scheduler_request pages soft hard ramp n_pages entries =
      bf_scheduler_ramp pages (soft ∷ (if float.less soft hard then ramp else hard ∷ [])) n_pages
        entries
