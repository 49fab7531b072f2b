-- ===== src/BfScheduler/Requests/Runs.antt =====
-- A schedule of three pages, and the theorems there.
use aduana.Common.{ℕ, ◌≡◌, refl, ◌==◌, if◌then◌else◌, List, [], ◌∷◌, Option, none, some}
use aduana.BfScheduler.Plain.{whole}
use aduana.PageDb.PageInfo.{PageInfo, page_info_new_link}
use aduana.BfScheduler.Requests.{ScheduleKey, Pages, verdict, bf_scheduler_add_requests}
use aduana.BfScheduler.Requests.Order.{Requested, add_requests_lem}

-- The page with hash 2 was crawled, the others were not.
abbrev info : ℕ → Option PageInfo
info hash =
    some (record (page_info_new_link (hash ∷ []) 0 1 0) { n_crawls = if hash == 2 then 1 else 0 })

abbrev pages : Pages whole
pages = record { page_db_get_info = λ hash. some (info hash); domain_temp = none }

abbrev entries : List (ScheduleKey whole)
entries =
    record { score = 9; hash = 1 }
    ∷ record { score = 8; hash = 2 }
    ∷ record { score = 7; hash = 3 }
    ∷ []

request_runs :
    (bf_scheduler_add_requests whole pages 0 1 entries
      ≡ some ((1 ∷ []) ∷ [], record { score = 8; hash = 2 } ∷ record { score = 7; hash = 3 } ∷ []))
    × (bf_scheduler_add_requests whole pages 0 2 entries ≡ some ((1 ∷ []) ∷ (3 ∷ []) ∷ [], []))
unfolding bf_scheduler_add_requests verdict page_info_new_link
request_runs = (refl, refl)

add_requests_lem_example : Requested whole pages info 0 2 entries
add_requests_lem_example = add_requests_lem whole pages info 0 2 entries (λ hash. refl)
