-- ===== src/FreqScheduler/Loading.antt =====
-- freq_scheduler_load_simple puts the pages of the stream that are to be loaded, and no other.
use aduana.Common.{
  ℕ, ◌+◌, ◌-◌, ◌<◌, ◌≡◌, ◌⊎◌, refl, ap, ◌∙◌, true, false, ◌==◌, ltb, ◌&&◌, ◌||◌, Bool-cases, inl,
  inr, some, List, [], ◌∷◌, arith,
}
use aduana.PageDb.PageInfo.{PageInfo}
use aduana.Ranks.{Arith}
use aduana.FreqScheduler.{
  is_ok, Queue, Calls, FreqScheduler, Outcome, returned, commit, may_crawl, page_info_rate,
  freq_scheduler_cursor_open,
}
use aduana.FreqScheduler.Load.{
  HashInfoStream, freq_scheduler_cursor_write, page_info_is_seed, is_loaded, load_freq, load_pages,
  end_load, with_cursor, freq_scheduler_load_simple,
}

add_sub : (n : ℕ) → n + 1 - 1 ≡ n
add_sub n = omega arith

-- The text has the prefix.
abbrev pub HasPrefix : List ℕ → List ℕ → Type 0
HasPrefix [] url = Unit
HasPrefix (a ∷ prefix) [] = ⊥
HasPrefix (a ∷ prefix) (b ∷ url) = (b ≡ a) × HasPrefix prefix url

-- "_seed_"
abbrev pub seed_prefix : List ℕ
seed_prefix = 95 ∷ 115 ∷ 101 ∷ 101 ∷ 100 ∷ 95 ∷ []

seed_lem :
    (pi : PageInfo) (url : List ℕ)
    → pi.url ≡ url
    → ((page_info_is_seed pi ≡ true) × HasPrefix seed_prefix url)
      ⊎ ((page_info_is_seed pi ≡ false) × (¬ HasPrefix seed_prefix url))
unfolding page_info_is_seed
seed_lem pi [] e = inr (rw e refl, λ h. h)
seed_lem pi (a ∷ []) e = inr (rw e refl, λ h. h.1)
seed_lem pi (a ∷ b ∷ []) e = inr (rw e refl, λ h. h.1.1)
seed_lem pi (a ∷ b ∷ c ∷ []) e = inr (rw e refl, λ h. h.1.1.1)
seed_lem pi (a ∷ b ∷ c ∷ d ∷ []) e = inr (rw e refl, λ h. h.1.1.1.1)
seed_lem pi (a ∷ b ∷ c ∷ d ∷ x ∷ []) e = inr (rw e refl, λ h. h.1.1.1.1.1)
seed_lem pi (a ∷ b ∷ c ∷ d ∷ x ∷ f ∷ rest) e =
    elim (Bool-cases (a == 95 && b == 115 && c == 101 && d == 101 && x == 100 && f == 95)) [
      | inl hit ↦ inl (rw (e, hit) refl, ground (arith, hit))
      | inr miss ↦ inr (rw (e, miss) refl, λ h. ground (arith, miss, h))
    ]

module _ (float : Arith) (queue : Queue float) where
  -- A page that was crawled, less often than the limit, if there is one, and that is no seed.
  abbrev pub IsWanted : FreqScheduler float queue → PageInfo → Type 0
  IsWanted sch pi =
      (0 < pi.n_crawls)
      × ((sch.max_n_crawls ≡ 0) ⊎ (pi.n_crawls < sch.max_n_crawls))
      × (¬ HasPrefix seed_prefix pi.url)

  -- The frequency is the scaled rate of changes, where the scale and the rate are above 0, and the
  -- default frequency elsewhere.
  abbrev pub HasFreq : float.Carrier → float.Carrier → PageInfo → float.Carrier → Type 0
  HasFreq freq_default freq_scale pi freq =
      ((float.greater freq_scale float.nought ≡ true)
        × (float.greater (page_info_rate float pi) float.nought ≡ true)
        × (freq ≡ float.mul freq_scale (page_info_rate float pi)))
      ⊎ (((float.greater freq_scale float.nought ≡ false)
            ⊎ (float.greater (page_info_rate float pi) float.nought ≡ false))
          × (freq ≡ freq_default))

  -- The entries are those of the pages that are wanted and have a frequency above 0, in their order.
  pub data AreChosen (sch : FreqScheduler float queue) (freq_default freq_scale : float.Carrier)
      : List (ℕ × PageInfo) → List (ℕ × float.Carrier) → Type 0 where
    none_left : AreChosen sch freq_default freq_scale [] []
    left_out :
        {hash : ℕ} {pi : PageInfo} {pages : List (ℕ × PageInfo)} {es : List (ℕ × float.Carrier)}
        → ¬ IsWanted sch pi
        → AreChosen sch freq_default freq_scale pages es
        → AreChosen sch freq_default freq_scale ((hash, pi) ∷ pages) es
    no_freq :
        {hash : ℕ} {pi : PageInfo} {pages : List (ℕ × PageInfo)} {es : List (ℕ × float.Carrier)}
        {freq : float.Carrier}
        → HasFreq freq_default freq_scale pi freq
        → float.leq freq float.nought ≡ true
        → AreChosen sch freq_default freq_scale pages es
        → AreChosen sch freq_default freq_scale ((hash, pi) ∷ pages) es
    chosen :
        {hash : ℕ} {pi : PageInfo} {pages : List (ℕ × PageInfo)} {es : List (ℕ × float.Carrier)}
        {freq : float.Carrier}
        → IsWanted sch pi
        → HasFreq freq_default freq_scale pi freq
        → float.leq freq float.nought ≡ false
        → AreChosen sch freq_default freq_scale pages es
        → AreChosen sch freq_default freq_scale ((hash, pi) ∷ pages) ((hash, freq) ∷ es)

  load_freq-HasFreq :
      (freq_default freq_scale : float.Carrier) (pi : PageInfo)
      → HasFreq freq_default freq_scale pi (load_freq float queue freq_default freq_scale pi)
  unfolding load_freq
  load_freq-HasFreq freq_default freq_scale pi =
      elim (Bool-cases (float.greater freq_scale float.nought)) [
        | inl p ↦ elim (Bool-cases (float.greater (page_info_rate float pi) float.nought)) [
          | inl q ↦ inl (p, q, rw (load_freq, p, q) refl)
          | inr q ↦ inr (inr q, rw (load_freq, p, q) refl)
        ]
        | inr p ↦ inr (inl p, rw (load_freq, p) refl)
      ]

  is_loaded_lem :
      (sch : FreqScheduler float queue) (pi : PageInfo)
      → ((is_loaded float queue sch pi ≡ true) × IsWanted sch pi)
        ⊎ ((is_loaded float queue sch pi ≡ false) × (¬ IsWanted sch pi))
  unfolding is_loaded may_crawl
  is_loaded_lem sch pi = elim (seed_lem pi pi.url refl) [
    | inl (seed, h) ↦ inr (rw (is_loaded, seed) (ground arith), λ w. w.2 h)
    | inr (other, h) ↦ elim (Bool-cases (ltb 0 pi.n_crawls)) [
      | inl some_crawl ↦
          elim (Bool-cases (sch.max_n_crawls == 0 || ltb pi.n_crawls sch.max_n_crawls)) [
            | inl may ↦ inl (
              rw (is_loaded, other, some_crawl, may_crawl, may) refl,
              (ground (arith, some_crawl), ground (arith, may), h),
            )
            | inr not_now ↦ inr (
              rw (is_loaded, other, some_crawl, may_crawl, not_now) refl,
              λ w. ground (arith, not_now, w.1),
            )
          ]
      | inr no_crawl ↦ inr (rw (is_loaded, no_crawl) refl, λ w. ground (arith, no_crawl, w.0))
    ]
  ]

  -- The schedule with one more entry of score 0 for each of them, in their order.
  abbrev pub put_all : List (ℕ × float.Carrier) → queue.State → queue.State
  put_all [] s = s
  put_all ((hash, freq) ∷ rest) s =
      put_all rest (queue.put s (record { score = float.nought; hash = hash }) freq)

  module _ (calls : Calls float) (no_fault : (n : ℕ) → calls.fault n ≡ false) where
    -- What the loop leaves.
    abbrev HasLoaded :
        FreqScheduler float queue
        → float.Carrier
        → float.Carrier
        → ℕ
        → List (ℕ × PageInfo)
        → queue.State
        → Type 0
    HasLoaded sch freq_default freq_scale n pages s =
        (es : List (ℕ × float.Carrier)) × AreChosen sch freq_default freq_scale pages es
        × (load_pages float queue sch calls freq_default freq_scale n pages s ≡ some (put_all es s))

    load_pages_lem :
        (sch : FreqScheduler float queue) (freq_default freq_scale : float.Carrier) (n : ℕ)
        (pages : List (ℕ × PageInfo)) (s : queue.State)
        → HasLoaded sch freq_default freq_scale n pages s
    unfolding load_pages freq_scheduler_cursor_write
    load_pages_lem sch freq_default freq_scale n [] s = ([], AreChosen.none_left, refl)
    load_pages_lem sch freq_default freq_scale n ((hash, pi) ∷ pages) s =
        let freq = load_freq float queue freq_default freq_scale pi in
        let has = load_freq-HasFreq freq_default freq_scale pi in
        let rest = load_pages_lem sch freq_default freq_scale (n + 1) pages in
        elim (is_loaded_lem sch pi) [
          | inl (hit, wanted) ↦ elim (Bool-cases (float.leq freq float.nought)) [
            | inl low ↦
                let (es, c, e) = rest s in
                (es, AreChosen.no_freq has low c, rw (load_pages, hit, low) e)
            | inr high ↦
                let (es, c, e) =
                  rest (queue.put s (record { score = float.nought; hash = hash }) freq) in
                (
                  (hash, freq) ∷ es,
                  AreChosen.chosen wanted has high c,
                  rw (load_pages, hit, high, no_fault n) e,
                )
          ]
          | inr (miss, unwanted) ↦
              let (es, c, e) = rest s in
              (es, AreChosen.left_out unwanted c, rw (load_pages, miss) e)
        ]

    end_load_lem :
        (sch : FreqScheduler float queue) (s : queue.State)
        → calls.commit ≡ true
        → end_load float queue calls true true
            (some s)
            (record sch { open_txns = sch.open_txns + 1 })
          ≡ returned sch.error [] (record sch { schedule = s })
    unfolding end_load commit
    end_load_lem sch s d =
        let back : ℕ → Outcome float queue =
          λ n. returned sch.error [] (record sch { schedule = s; open_txns = n }) in
        rw (end_load, commit, d) (ap back (add_sub sch.open_txns))

    -- The loop does not read the transactions.
    load_pages-same :
        (sch : FreqScheduler float queue) (freq_default freq_scale : float.Carrier) (k n : ℕ)
        (pages : List (ℕ × PageInfo)) (s : queue.State)
        → load_pages float queue
            (record sch { open_txns = k })
            calls
            freq_default
            freq_scale
            n
            pages
            s
          ≡ load_pages float queue sch calls freq_default freq_scale n pages s
    unfolding load_pages freq_scheduler_cursor_write is_loaded may_crawl
    load_pages-same sch freq_default freq_scale k n [] s = refl
    load_pages-same sch freq_default freq_scale k n ((hash, pi) ∷ pages) s =
        let rest = load_pages-same sch freq_default freq_scale k (n + 1) pages in
        let freq = load_freq float queue freq_default freq_scale pi in
        elim (Bool-cases (is_loaded float queue sch pi)) [
          | inl wanted ↦ elim (Bool-cases (float.leq freq float.nought)) [
            | inl low ↦ rw (wanted, low) (rest s)
            | inr high ↦
                rw (wanted, high, no_fault n)
                  (rest (queue.put s (record { score = float.nought; hash = hash }) freq))
          ]
          | inr other ↦ rw other (rest s)
        ]

    -- Where no call fails and there was no error, freq_scheduler_load_simple returns 0. The new
    -- schedule is the old one with one put of score 0, in the order of the stream, for each page that
    -- was crawled, less often than the limit, if there is one, that does not begin with "_seed_" and
    -- whose frequency is above 0: with that frequency, the scaled rate of its changes or the default.
    -- No transaction is left open.
    pub load_simple_lem :
        (st : HashInfoStream float) (freq_default freq_scale : float.Carrier)
        (sch : FreqScheduler float queue)
        → calls.begin ≡ true
        → calls.cursor ≡ true
        → calls.commit ≡ true
        → st.begins ≡ true
        → st.ends ≡ true
        → is_ok sch.error ≡ true
        → (es : List (ℕ × float.Carrier)) × AreChosen sch freq_default freq_scale st.pages es
          × (freq_scheduler_load_simple float queue calls st freq_default freq_scale sch
              ≡ returned sch.error [] (record sch { schedule = put_all es sch.schedule }))
    unfolding freq_scheduler_load_simple freq_scheduler_cursor_open with_cursor end_load commit
        is_loaded may_crawl
    load_simple_lem st freq_default freq_scale sch b c d begins ends ok =
        let sch1 : FreqScheduler float queue = record sch { open_txns = sch.open_txns + 1 } in
        let (es, same, loaded) =
          load_pages_lem sch freq_default freq_scale 0 st.pages sch.schedule in
        let run : freq_scheduler_load_simple float queue calls st freq_default freq_scale sch
            ≡ end_load float queue calls true true
                (load_pages float queue sch1 calls freq_default freq_scale 0 st.pages sch.schedule)
                sch1 =
          rw (freq_scheduler_load_simple, freq_scheduler_cursor_open, begins, b, ok, c, ends)
            refl in
        (
          es,
          same,
          run
              ∙ ap (λ o. end_load float queue calls true true o sch1)
                  (load_pages-same sch freq_default freq_scale (sch.open_txns + 1) 0 st.pages
                      sch.schedule
                    ∙ loaded)
              ∙ end_load_lem sch (put_all es sch.schedule) d,
        )
