-- ===== src/BfScheduler/Schedule/Runs.antt =====
-- A schedule that is its own membership test, and the theorems there.
use aduana.Common.{ℕ, ◌≡◌, refl, false, ◌||◌, if◌then◌else◌, List, [], ◌∷◌, none, some}
use aduana.PageDb.PageInfo.{PageInfo, page_info_new_link}
use aduana.BfScheduler.Plain.{whole, Tests, tests}
use aduana.BfScheduler.Requests.{ScheduleKey, schedule_entry_mdb_cmp_desc}
use aduana.BfScheduler.Schedule.{
  is_same, one_key, Scheduler, bf_scheduler_crawlable_page, key_of, bf_scheduler_add,
  bf_scheduler_reload, bf_scheduler_change_score,
}
use aduana.BfScheduler.Schedule.Entries.{is_due, bf_scheduler_add_lem, change_score_lem}

abbrev scheduler : Scheduler whole tests
scheduler = record { scorer_add = none; max_crawl_depth = 3 }

-- One page that was not crawled, and one that was.
abbrev two_pages : List (ℕ × PageInfo)
two_pages =
    (1, page_info_new_link (b'a' ∷ []) 0 2 7)
    ∷ (2, record (page_info_new_link (b'b' ∷ []) 0 2 7) { n_crawls = 1 })
    ∷ []

abbrev nothing : Tests
nothing k = false

abbrev one_page : Tests
one_page k = one_key whole (record { score = 7; hash = 1 }) k || false

added : bf_scheduler_add whole tests scheduler two_pages nothing ≡ some one_page
unfolding bf_scheduler_add bf_scheduler_crawlable_page page_info_new_link key_of
added = refl

reloaded : bf_scheduler_reload whole tests scheduler two_pages nothing 0 ≡ some (one_page, 1)
unfolding bf_scheduler_reload bf_scheduler_crawlable_page page_info_new_link key_of
reloaded = refl

abbrev moved : Tests
moved k =
    one_key whole (record { score = 9; hash = 1 }) k
    || (if one_key whole (record { score = 7; hash = 1 }) k then false else one_page k)

rescored : bf_scheduler_change_score whole tests 1 7 9 one_page ≡ some moved
unfolding bf_scheduler_change_score schedule_entry_mdb_cmp_desc is_same
rescored = refl

abbrev due_key : ScheduleKey whole
due_key = record { score = 7; hash = 1 }

bf_scheduler_add_lem_example :
    one_page due_key ≡ (nothing due_key || is_due whole tests scheduler two_pages due_key)
bf_scheduler_add_lem_example =
    bf_scheduler_add_lem whole tests scheduler two_pages nothing one_page due_key added

change_score_lem_example : moved due_key ≡ (
    if one_page (record { score = 7; hash = 1 })
    then one_key whole (record { score = 9; hash = 1 }) due_key
      || (if one_key whole (record { score = 7; hash = 1 }) due_key
          then false
          else one_page due_key)
    else one_page due_key)
change_score_lem_example =
    change_score_lem whole tests scheduler 1 7 9 one_page moved due_key rescored
