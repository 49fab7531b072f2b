-- ===== src/BfScheduler/Schedule.antt =====
-- What `bf_scheduler_add`, `bf_scheduler_reload` and `bf_scheduler_change_score` put into the schedule
-- and delete from it.
pub mod Entries
mod Runs
use aduana.Common.{
  ℕ, ◌+◌, ◌%◌, ◌^◌, Bool, true, false, ◌&&◌, ◌||◌, ◌==◌, leb, if◌then◌else◌, List, [], ◌∷◌, Option,
  none, some, ◌≡◌,
}
use aduana.DomainTemp.{Float}
use aduana.PageDb.PageInfo.{PageInfo}
use aduana.BfScheduler.Requests.{
  ScheduleKey, Comparison, before, same, behind, schedule_entry_mdb_cmp_desc,
}

unfoldable pub is_same : (float : Float) → Comparison float → Bool
is_same float before = false
is_same float same = true
is_same float behind = false

-- Two keys that LMDB takes for one.
abbrev pub one_key : (float : Float) → ScheduleKey float → ScheduleKey float → Bool
one_key float a b = is_same float (schedule_entry_mdb_cmp_desc float a b)

-- The table "schedule" as one transaction sees it. `put` and `del` are `mdb_cursor_put` and
-- `mdb_cursor_del`, and `none` is their failure.
pub record Schedule (float : Float) : Type 1 where
  pub State : Type 0
  pub has : State → ScheduleKey float → Bool
  pub put : State → ScheduleKey float → Option State
  pub del : State → ScheduleKey float → Option State
  pub has-put :
      (s s' : State) (key k : ScheduleKey float)
      → put s key ≡ some s'
      → has s' k ≡ (one_key float key k || has s k)
  pub has-del :
      (s s' : State) (key k : ScheduleKey float)
      → del s key ≡ some s'
      → has s' k ≡ (if one_key float key k then false else has s k)

module _ (float : Float) (schedule : Schedule float) where
  -- `scorer->add` where a scorer is set, and the score of the page otherwise.
  pub record Scheduler : Type 0 where
    pub scorer_add : Option (PageInfo → float.Carrier)
    pub max_crawl_depth : ℕ

  unfoldable pub bf_scheduler_crawlable_page : Scheduler → PageInfo → Bool
  bf_scheduler_crawlable_page sch pi =
      pi.n_crawls == 0 && (sch.max_crawl_depth == 0 || leb pi.depth sch.max_crawl_depth)

  score_of : Option (PageInfo → float.Carrier) → PageInfo → float.Carrier
  score_of none pi = float.of_bits pi.score
  score_of (some add) pi = add pi

  pub key_of : Scheduler → ℕ → PageInfo → ScheduleKey float
  unfolding score_of
  key_of sch hash pi = record { score = score_of sch.scorer_add pi; hash = hash }

  -- The loop of `bf_scheduler_add` over the list of new pages; `none` is the jump to `on_error`, which
  -- aborts the transaction.
  pub bf_scheduler_add : Scheduler → List (ℕ × PageInfo) → schedule.State → Option schedule.State
  unfolding bf_scheduler_crawlable_page
  bf_scheduler_add sch [] s = some s
  bf_scheduler_add sch ((hash, pi) ∷ pages) s =
      let skipped = bf_scheduler_add sch pages s in
      let added : Option schedule.State = elim (schedule.put s (key_of sch hash pi)) [
        | none ↦ none
        | some s' ↦ bf_scheduler_add sch pages s'
      ] in
      if bf_scheduler_crawlable_page sch pi then added else skipped

  -- The loop of `bf_scheduler_reload` over all pages, with `n_reloaded_pages`. A put of a key that is
  -- there goes through, since the table has no duplicates.
  pub bf_scheduler_reload :
      Scheduler → List (ℕ × PageInfo) → schedule.State → ℕ → Option (schedule.State × ℕ)
  unfolding bf_scheduler_crawlable_page
  bf_scheduler_reload sch [] s n = some (s, n)
  bf_scheduler_reload sch ((hash, pi) ∷ pages) s n =
      let skipped = bf_scheduler_reload sch pages s n in
      let added : Option (schedule.State × ℕ) = elim (schedule.put s (key_of sch hash pi)) [
        | none ↦ none
        | some s' ↦ bf_scheduler_reload sch pages s' ((n + 1) % 2 ^ 64)
      ] in
      if bf_scheduler_crawlable_page sch pi then added else skipped

  -- A page that is not in the schedule under its old score is left alone.
  unfoldable pub bf_scheduler_change_score :
      ℕ → float.Carrier → float.Carrier → schedule.State → Option schedule.State
  bf_scheduler_change_score hash score_old score_new s =
      if schedule.has s (record { score = score_old; hash = hash })
      then elim (schedule.del s (record { score = score_old; hash = hash })) [
        | none ↦ none
        | some s' ↦ schedule.put s' (record { score = score_new; hash = hash })
      ]
      else some s
