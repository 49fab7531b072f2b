-- ===== src/FreqScheduler/Runs.antt =====
-- A schedule of three pages, in whole numbers.
use aduana.Common.{List, ℕ, ◌≡◌, refl, true, false, ◌==◌, if◌then◌else◌, none, some, [], ◌∷◌, arith}
use aduana.MmapArray.{
  System, MmapArray, mmap_array_error_ok, mmap_array_new, first_size, zeros, mmap_array_resize,
  remap, mmap_array_set, mmap_array_idx, mmap_array_set_error_out_of_bounds, write_if, write,
  set_elem,
}
use aduana.MmapArray.Plain.{plain_system, fit}
use aduana.FreqScheduler.Algo.{rated, Holds, freq_algo_simple_lem}
use aduana.PageDb.PageInfo.{PageInfo, page_info_new_link}
use aduana.Ranks.Plain.{whole_numbers}
use aduana.FreqScheduler.{
  freq_scheduler_error_ok, freq_scheduler_error_internal, Calls, FreqScheduler, returned,
  freq_scheduler_request, page_info_rate,
}
use aduana.FreqScheduler.Plain.{ascending}
use aduana.FreqScheduler.Load.{
  PageFreq, HashInfoStream, freq_scheduler_load_simple, make_room, algo_loop, freq_algo_simple,
}
use aduana.FreqScheduler.Requests.{IsAnswered, freq_scheduler_request_lem}
use aduana.FreqScheduler.Loading.{AreChosen, put_all, load_simple_lem}

-- A page that was crawled twice, and never when its hash is 2.
abbrev page : ℕ → PageInfo
page hash = record (page_info_new_link (hash ∷ []) 0 1 0) {
  n_crawls = if hash == 2 then 0 else 2;
  first_crawl = 1;
  last_crawl = 2;
}

abbrev calls : Calls whole_numbers
calls = record {
  begin = true;
  cursor = true;
  commit = true;
  fault = λ _. false;
  time = λ n. n;
  page_db_get_info = λ hash. some (if hash == 3 then none else some (page hash));
}

abbrev no_cursor : Calls whole_numbers
no_cursor = record calls { cursor = false }

abbrev sch : FreqScheduler whole_numbers ascending
sch = record {
  schedule =
      (record { score = 0; hash = 3 }, 1)
      ∷ (record { score = 0; hash = 4 }, 1)
      ∷ (record { score = 0; hash = 5 }, 1)
      ∷ [];
  open_txns = 0;
  error = freq_scheduler_error_ok;
  margin = 0;
  max_n_crawls = 0;
}

abbrev spoilt : FreqScheduler whole_numbers ascending
spoilt = record sch { error = freq_scheduler_error_internal }

freq_scheduler_request_lem_example :
    IsAnswered whole_numbers ascending calls sch 2
      (freq_scheduler_request whole_numbers ascending calls 5 2 sch)
freq_scheduler_request_lem_example =
    freq_scheduler_request_lem whole_numbers ascending calls sch 5 2 refl refl (omega arith)

abbrev st : HashInfoStream whole_numbers
st = record { begins = true; pages = (2, page 2) ∷ (4, page 4) ∷ (5, page 5) ∷ []; ends = true }

load_simple_lem_example :
    (es : List (ℕ × ℕ)) × AreChosen whole_numbers ascending sch 1 3 st.pages es
    × (freq_scheduler_load_simple whole_numbers ascending calls st 1 3 sch
        ≡ returned freq_scheduler_error_ok []
            (record sch { schedule = put_all whole_numbers ascending es sch.schedule }))
load_simple_lem_example =
    load_simple_lem whole_numbers ascending calls (λ n. refl) st 1 3 sch refl refl refl refl refl
      refl

abbrev no_freq : PageFreq whole_numbers
no_freq = record { hash = 0; freq = 0 }

abbrev sys : System (PageFreq whole_numbers)
unfolding plain_system
sys = plain_system no_freq

-- The array of two pages has a third and a fourth element, which are 0.
abbrev freqs : MmapArray (PageFreq whole_numbers)
freqs = record {
  mem =
      some (record { hash = 4; freq = 1 } ∷ record { hash = 5; freq = 1 } ∷ no_freq ∷ no_freq ∷ []);
  has_file = true;
  n_elements = 4;
  error = mmap_array_error_ok;
  persist = false;
}

freq_algo_runs : freq_algo_simple whole_numbers sys st ≡ some freqs
unfolding sys freq_algo_simple algo_loop make_room mmap_array_new first_size zeros mmap_array_resize
    remap fit mmap_array_set mmap_array_idx mmap_array_set_error_out_of_bounds write_if write
    set_elem page_info_rate page_info_new_link
freq_algo_runs = refl

freq_algo_simple_lem_example : Holds whole_numbers sys (rated whole_numbers sys st.pages) freqs
unfolding sys
freq_algo_simple_lem_example =
    freq_algo_simple_lem whole_numbers sys st freqs refl (omega arith) freq_algo_runs
