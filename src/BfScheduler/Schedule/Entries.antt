-- ===== src/BfScheduler/Schedule/Entries.antt =====
-- The entries of the schedule after each change.
use aduana.Common.{
  ℕ, ◌+◌, ◌%◌, ◌^◌, ◌≡◌, arith, Bool, false, ◌&&◌, ◌||◌, if◌then◌else◌, List, [], ◌∷◌, some,
  Bool-cases, Option-cases, inl, inr,
}
use aduana.DomainTemp.{Float}
use aduana.PageDb.PageInfo.{PageInfo}
use aduana.BfScheduler.Requests.{ScheduleKey}
use aduana.BfScheduler.Schedule.{
  Schedule, one_key, Scheduler, bf_scheduler_crawlable_page, key_of, bf_scheduler_add,
  bf_scheduler_reload, bf_scheduler_change_score,
}

module _ (float : Float) (schedule : Schedule float) (sch : Scheduler float schedule) where
  -- The key is that of a crawlable page of the list.
  unfoldable pub is_due : List (ℕ × PageInfo) → ScheduleKey float → Bool
  is_due [] k = false
  is_due ((hash, pi) ∷ pages) k =
      (bf_scheduler_crawlable_page float schedule sch pi
        && one_key float (key_of float schedule sch hash pi) k)
      || is_due pages k

  -- Where adding goes through, the schedule has its old entries and those of the crawlable pages that
  -- were added, and no other.
  pub bf_scheduler_add_lem :
      (pages : List (ℕ × PageInfo)) (s s' : schedule.State) (k : ScheduleKey float)
      → bf_scheduler_add float schedule sch pages s ≡ some s'
      → schedule.has s' k ≡ (schedule.has s k || is_due pages k)
  unfolding bf_scheduler_add is_due
  bf_scheduler_add_lem [] s s' k e = ground (arith, e)
  bf_scheduler_add_lem ((hash, pi) ∷ pages) s s' k e =
      let key = key_of float schedule sch hash pi in
      elim (Bool-cases (bf_scheduler_crawlable_page float schedule sch pi)) [
        | inr skipped ↦
            let e' = rw (bf_scheduler_add, skipped) at e in
            ground (arith, skipped, bf_scheduler_add_lem pages s s' k e')
        | inl due ↦ elim (Option-cases (schedule.put s key)) [
          | inl failed ↦
              absurd (let e' = rw (bf_scheduler_add, due, failed) at e in ground (arith, e'))
          | inr (s1, p) ↦
              let e' = rw (bf_scheduler_add, due, p) at e in
              ground
                (arith, due, bf_scheduler_add_lem pages s1 s' k e', schedule.has-put s s1 key k p)
        ]
      ]

  -- A reload that goes through leaves the schedule that adding the same pages leaves.
  reload-add :
      (pages : List (ℕ × PageInfo)) (s s' : schedule.State) (n m : ℕ)
      → bf_scheduler_reload float schedule sch pages s n ≡ some (s', m)
      → bf_scheduler_add float schedule sch pages s ≡ some s'
  unfolding bf_scheduler_add bf_scheduler_reload
  reload-add [] s s' n m e = ground (arith, e)
  reload-add ((hash, pi) ∷ pages) s s' n m e =
      elim (Bool-cases (bf_scheduler_crawlable_page float schedule sch pi)) [
        | inr skipped ↦
            let e' = rw (bf_scheduler_reload, skipped) at e in
            rw (bf_scheduler_add, skipped) (reload-add pages s s' n m e')
        | inl due ↦ elim (Option-cases (schedule.put s (key_of float schedule sch hash pi))) [
          | inl failed ↦
              absurd (let e' = rw (bf_scheduler_reload, due, failed) at e in ground (arith, e'))
          | inr (s1, p) ↦
              let e' = rw (bf_scheduler_reload, due, p) at e in
              rw (bf_scheduler_add, due, p) (reload-add pages s1 s' ((n + 1) % 2 ^ 64) m e')
        ]
      ]

  -- A change of score that goes through replaces the entry under the old score by one under the new
  -- score, and does nothing where there is no such entry.
  pub change_score_lem :
      (hash : ℕ) (old new : float.Carrier) (s s' : schedule.State) (k : ScheduleKey float)
      → bf_scheduler_change_score float schedule hash old new s ≡ some s'
      → schedule.has s' k ≡ (
          if schedule.has s (record { score = old; hash = hash })
          then one_key float (record { score = new; hash = hash }) k
            || (if one_key float (record { score = old; hash = hash }) k
                then false
                else schedule.has s k)
          else schedule.has s k)
  unfolding bf_scheduler_change_score
  change_score_lem hash old new s s' k e =
      let old_key : ScheduleKey float = record { score = old; hash = hash } in
      let new_key : ScheduleKey float = record { score = new; hash = hash } in
      elim (Bool-cases (schedule.has s old_key)) [
        | inr missing ↦
            let e' = rw (bf_scheduler_change_score, missing) at e in ground (arith, missing, e')
        | inl there ↦ elim (Option-cases (schedule.del s old_key)) [
          | inl failed ↦
              absurd
                (let e' = rw (bf_scheduler_change_score, there, failed) at e in ground (arith, e'))
          | inr (s1, d) ↦
              let e' = rw (bf_scheduler_change_score, there, d) at e in
              ground (
                arith,
                there,
                schedule.has-put s1 s' new_key k e',
                schedule.has-del s s1 old_key k d,
              )
        ]
      ]
