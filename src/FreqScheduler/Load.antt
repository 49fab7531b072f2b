-- ===== src/FreqScheduler/Load.antt =====
-- lib/src/freq_scheduler.c, how the schedule is filled, and lib/src/freq_algo.c, which makes an array of
-- frequencies for it. A stream of pages is the list of what it yields, and whether it ends without an
-- error.
use aduana.Common.{
  ℕ, zero, suc, ◌+◌, ◌*◌, Bool, true, false, not, ◌&&◌, ◌||◌, ltb, leb, ◌==◌, if◌then◌else◌, Option,
  none, some, List, [], ◌∷◌,
}
use aduana.MmapArray.{
  is_ok as mmap_ok, mmap_array_error_ok, System, MmapArray, MmapArrayError, mmap_array_new,
  mmap_array_set, mmap_array_resize, read,
}
use aduana.PageDb.PageInfo.{PageInfo}
use aduana.Ranks.{Arith}
use aduana.FreqScheduler.{
  FreqSchedulerError, is_ok, Queue, Calls, FreqScheduler, Outcome, freed, page_info_rate, may_crawl,
  freq_scheduler_set_error, freq_scheduler_cursor_open, on_error, commit,
}

-- `pi->url[0] == '_' && ...`, where the text ends with a 0.
unfoldable pub page_info_is_seed : PageInfo → Bool
page_info_is_seed pi = elim pi.url [
  | a ∷ b ∷ c ∷ d ∷ e ∷ f ∷ _ ↦ a == 95 && b == 115 && c == 101 && d == 101 && e == 100 && f == 95
  | _ ↦ false
]

module _ (float : Arith) where
  pub record PageFreq : Type 0 where
    pub hash : ℕ
    pub freq : float.Carrier

  -- The pages of a stream, and whether it begins and ends without an error.
  pub record HashInfoStream : Type 0 where
    pub begins : Bool
    pub pages : List (ℕ × PageInfo)
    pub ends : Bool

  module _ (queue : Queue float) where
    -- freq_scheduler_cursor_write as the n-th call: the schedule, or `none` on an error.
    unfoldable pub freq_scheduler_cursor_write :
        Calls float → ℕ → queue.State → ℕ → float.Carrier → Option queue.State
    freq_scheduler_cursor_write calls n s hash freq =
        if float.leq freq float.nought
        then some s
        else if calls.fault n
        then none
        else some (queue.put s (record { score = float.nought; hash = hash }) freq)

    -- A page that freq_scheduler_load_simple loads.
    unfoldable pub is_loaded : FreqScheduler float queue → PageInfo → Bool
    unfolding may_crawl page_info_is_seed
    is_loaded sch pi =
        ltb 0 pi.n_crawls && may_crawl float queue sch pi && not (page_info_is_seed pi)

    unfoldable pub load_freq : float.Carrier → float.Carrier → PageInfo → float.Carrier
    unfolding page_info_rate
    load_freq freq_default freq_scale pi =
        let rate = page_info_rate float pi in
        if float.greater freq_scale float.nought && float.greater rate float.nought
        then float.mul freq_scale rate
        else freq_default

    -- The loop of freq_scheduler_load_simple; `n` counts the pages.
    unfoldable pub load_pages :
        FreqScheduler float queue
        → Calls float
        → float.Carrier
        → float.Carrier
        → ℕ
        → List (ℕ × PageInfo)
        → queue.State
        → Option queue.State
    unfolding is_loaded load_freq freq_scheduler_cursor_write
    load_pages sch calls freq_default freq_scale n [] s = some s
    load_pages sch calls freq_default freq_scale n ((hash, pi) ∷ pages) s =
        if is_loaded sch pi
        then elim (freq_scheduler_cursor_write calls n s hash
            (load_freq freq_default freq_scale pi)) [
              | none ↦ none
              | some s' ↦ load_pages sch calls freq_default freq_scale (n + 1) pages s'
            ]
        else (load_pages sch calls freq_default freq_scale (n + 1) pages s)

    -- What follows the loop, `none` being an error in it. Without a cursor, NULL is committed.
    unfoldable pub end_load :
        Calls float
        → Bool
        → Bool
        → Option queue.State
        → FreqScheduler float queue
        → Outcome float queue
    unfolding on_error commit
    end_load calls cursor ends none sch = on_error float queue cursor [] sch
    end_load calls cursor ends (some s) sch =
        if not ends
        then on_error float queue cursor [] sch
        else if cursor
        then commit float queue calls [] s sch
        else freed

    -- Without a cursor, every call of LMDB fails.
    unfoldable pub with_cursor : Bool → Calls float → Calls float
    with_cursor cursor calls = record calls { fault = λ n. not cursor || calls.fault n }

    unfoldable pub freq_scheduler_load_simple :
        Calls float
        → HashInfoStream
        → float.Carrier
        → float.Carrier
        → FreqScheduler float queue
        → Outcome float queue
    unfolding on_error freq_scheduler_cursor_open load_pages end_load with_cursor
    freq_scheduler_load_simple calls st freq_default freq_scale sch =
        if not st.begins
        then on_error float queue false [] sch
        else (let (code, cursor, sch') = freq_scheduler_cursor_open float queue calls sch in
            if not (is_ok code)
            then on_error float queue cursor [] sch'
            else end_load calls cursor st.ends
                (load_pages sch' (with_cursor cursor calls) freq_default freq_scale 0 st.pages
                  sch'.schedule)
                sch')

    -- The loop of freq_scheduler_load_mmap over `k` elements from `i` on. `none` in front is a read
    -- through a bad pointer.
    unfoldable pub load_elements :
        Calls float → MmapArray PageFreq → ℕ → ℕ → queue.State → Option (Option queue.State)
    unfolding read
    load_elements calls freqs zero i s = some (some s)
    load_elements calls freqs (suc k) i s = elim (read freqs i) [
      | none ↦ none
      | some f ↦
          if calls.fault i
          then some none
          else load_elements calls freqs k (i + 1)
              (queue.put s (record { score = float.div float.one f.freq; hash = f.hash }) f.freq)
    ]

    -- `expands` tells whether txn_manager_expand succeeds.
    unfoldable pub freq_scheduler_load_mmap :
        Calls float → Bool → MmapArray PageFreq → FreqScheduler float queue → Outcome float queue
    unfolding on_error freq_scheduler_cursor_open load_elements end_load with_cursor
    freq_scheduler_load_mmap calls expands freqs sch =
        if not expands
        then on_error float queue false [] sch
        else (let (code, cursor, sch') = freq_scheduler_cursor_open float queue calls sch in
            if not (is_ok code)
            then on_error float queue cursor [] sch'
            else elim (load_elements (with_cursor cursor calls) freqs freqs.n_elements 0
                sch'.schedule) [
                  | none ↦ freed
                  | some loaded ↦ end_load calls cursor true loaded sch'
                ])

    -- freq_scheduler_add, where `added` tells whether page_db_add returned 0.
    unfoldable pub freq_scheduler_add :
        Bool → FreqScheduler float queue → FreqSchedulerError × FreqScheduler float queue
    unfolding freq_scheduler_set_error
    freq_scheduler_add added sch =
        let sch' = if added then sch else freq_scheduler_set_error float queue sch in
        (sch'.error, sch')

  module _ (sys : System PageFreq) where
    -- `if (++n_pages >= pfreqs->n_elements) mmap_array_resize(...)`
    unfoldable pub make_room : MmapArray PageFreq → ℕ → MmapArrayError × MmapArray PageFreq
    unfolding mmap_array_resize
    make_room pfreqs n_pages =
        if leb pfreqs.n_elements (n_pages + 1)
        then mmap_array_resize sys pfreqs (2 * pfreqs.n_elements)
        else (mmap_array_error_ok, pfreqs)

    -- The loop of freq_algo_simple; `none` is its return of -1.
    unfoldable pub algo_loop :
        List (ℕ × PageInfo) → ℕ → MmapArray PageFreq → Option (MmapArray PageFreq)
    unfolding page_info_rate make_room mmap_array_set
    algo_loop [] n_pages pfreqs = some pfreqs
    algo_loop ((hash, pi) ∷ pages) n_pages pfreqs =
        let pf : PageFreq = record { hash = hash; freq = page_info_rate float pi } in
        let (code, grown) = make_room pfreqs n_pages in
        let (code', set) = mmap_array_set grown n_pages pf in
        let rest = algo_loop pages (n_pages + 1) set in
        if leb 2 pi.n_crawls
        then (if mmap_ok code && mmap_ok code' then rest else none)
        else algo_loop pages n_pages pfreqs

    unfoldable pub freq_algo_simple : HashInfoStream → Option (MmapArray PageFreq)
    unfolding mmap_array_new algo_loop
    freq_algo_simple st =
        let (code, pfreqs) = mmap_array_new sys true 1 in
        if mmap_ok code && st.begins
        then elim (algo_loop st.pages 0 pfreqs) [
          | none ↦ none
          | some freqs ↦ if st.ends then some freqs else none
        ]
        else none
