-- ===== src/FreqScheduler/Requests.antt =====
-- freq_scheduler_request: which URLs it requests, and that its loop ends.
use aduana.Common.{
  ℕ, zero, suc, ◌+◌, ◌-◌, ◌<◌, ◌≤◌, ◌≡◌, refl, sym, ap, ◌∙◌, true, false, ◌⊎◌, inl, inr, Bool-cases,
  Option-cases, Option, none, some, List, [], ◌∷◌, ◌++◌, append-nil, append_assoc, All, length,
  arith,
}
use mathlib.Core.Path.{subst}
use aduana.PageDb.PageInfo.{PageInfo}
use aduana.Ranks.{Arith}
use aduana.FreqScheduler.{
  FreqSchedulerError, is_ok, ScheduleKey, Queue, Calls, FreqScheduler, Outcome, returned,
  interrupt_requests, drop_page, crawl, is_early, may_crawl, verdict, LoopEnd, done, failed,
  out_of_fuel, request_loop, end_request, commit, on_error, freq_scheduler_cursor_open,
  freq_scheduler_cursor_abort, freq_scheduler_set_error, freq_scheduler_request,
}

module _ (float : Arith) (queue : Queue float) (calls : Calls float) where
  -- The schedules that a request works on, each with the number of calls that were made before: the
  -- first entry is deleted, or it is also put back with its own frequency and its score raised by the
  -- inverse of that.
  pub data Reached (start : queue.State) : ℕ → queue.State → Type 0 where
    here : Reached start 0 start
    dropped :
        {n : ℕ} {s : queue.State} → Reached start n s → Reached start (n + 2) (queue.del_first s)
    crawled :
        {n : ℕ} {s : queue.State} (sk : ScheduleKey float) (freq : float.Carrier)
        → Reached start n s
        → queue.first s ≡ some (sk, freq)
        → Reached start (n + 3) (
            queue.put
              (queue.del_first s)
              (record { score = float.add sk.score (float.div float.one freq); hash = sk.hash })
              freq)

  -- The URL is that of the page of the first entry of a schedule that was reached, and at that time the
  -- page may be crawled once more and is not too early for the entry's frequency.
  abbrev pub IsDue : FreqScheduler float queue → List ℕ → Type 0
  IsDue sch url =
      (n : ℕ) × (s : queue.State) × (sk : ScheduleKey float) × (freq : float.Carrier)
      × (pi : PageInfo) × Reached sch.schedule n s
      × (queue.first s ≡ some (sk, freq))
      × (calls.page_db_get_info sk.hash ≡ some (some pi))
      × (url ≡ pi.url)
      × ((sch.max_n_crawls ≡ 0) ⊎ (pi.n_crawls < sch.max_n_crawls))
      × ((float.leq float.nought sch.margin ≡ false)
          ⊎ (float.greater (float.div float.one (float.mul freq (float.add float.one sch.margin)))
                (float.sub (calls.time n) (float.of_bits pi.last_crawl))
              ≡ false))

  -- `urls'` are `urls` with up to `room` more that are due.
  abbrev pub IsFilled : FreqScheduler float queue → List (List ℕ) → ℕ → List (List ℕ) → Type 0
  IsFilled sch urls room urls' =
      (new : List (List ℕ)) × (urls' ≡ urls ++ new) × (length new ≤ room) × All (IsDue sch) new

  abbrev HasFilled : FreqScheduler float queue → List (List ℕ) → ℕ → LoopEnd float queue → Type 0
  HasFilled sch urls room (done urls' s) = IsFilled sch urls room urls'
  HasFilled sch urls room (failed urls') = IsFilled sch urls room urls'
  HasFilled sch urls room out_of_fuel = ⊥

  IsFilled-none :
      (sch : FreqScheduler float queue) (urls : List (List ℕ)) (room : ℕ)
      → IsFilled sch urls room urls
  IsFilled-none sch urls room = ([], sym (append-nil urls), omega arith, tt)

  IsFilled-one :
      (sch : FreqScheduler float queue) (urls urls' : List (List ℕ)) (url : List ℕ) (room : ℕ)
      → IsDue sch url
      → IsFilled sch (urls ++ (url ∷ [])) room urls'
      → IsFilled sch urls (suc room) urls'
  IsFilled-one sch urls urls' url room due (new, e, le, all) =
      (url ∷ new, e ∙ append_assoc urls (url ∷ []) new, omega (arith, le), (due, all))

  HasFilled-more :
      (sch : FreqScheduler float queue) (urls : List (List ℕ)) (url : List ℕ) (room : ℕ)
      (end : LoopEnd float queue)
      → IsDue sch url
      → HasFilled sch (urls ++ (url ∷ [])) room end
      → HasFilled sch urls (suc room) end
  HasFilled-more sch urls url room (done urls' s) due h = IsFilled-one sch urls urls' url room due h
  HasFilled-more sch urls url room (failed urls') due h = IsFilled-one sch urls urls' url room due h
  HasFilled-more sch urls url room out_of_fuel due h = h

  may_lem :
      (sch : FreqScheduler float queue) (pi : PageInfo)
      → may_crawl float queue sch pi ≡ true
      → (sch.max_n_crawls ≡ 0) ⊎ (pi.n_crawls < sch.max_n_crawls)
  unfolding may_crawl
  may_lem sch pi h = ground (arith, h)

  late_lem :
      (sch : FreqScheduler float queue) (time freq : float.Carrier) (pi : PageInfo)
      → is_early float queue sch time freq pi ≡ false
      → (float.leq float.nought sch.margin ≡ false)
        ⊎ (float.greater
              (float.div float.one (float.mul freq (float.add float.one sch.margin)))
              (float.sub time (float.of_bits pi.last_crawl))
            ≡ false)
  unfolding is_early
  late_lem sch time freq pi h = elim (Bool-cases (float.leq float.nought sch.margin)) [
    | inl on ↦ inr (rw on at h)
    | inr off ↦ inl off
  ]

  -- The three verdicts.
  verdict_lem :
      (sch : FreqScheduler float queue) (time freq : float.Carrier) (info : Option PageInfo)
      → (verdict float queue sch time freq info ≡ interrupt_requests)
        ⊎ ((verdict float queue sch time freq info ≡ drop_page)
            ⊎ ((pi : PageInfo) × (info ≡ some pi)
                × (verdict float queue sch time freq info ≡ crawl pi.url)
                × ((sch.max_n_crawls ≡ 0) ⊎ (pi.n_crawls < sch.max_n_crawls))
                × ((float.leq float.nought sch.margin ≡ false)
                    ⊎ (float.greater
                          (float.div float.one (float.mul freq (float.add float.one sch.margin)))
                          (float.sub time (float.of_bits pi.last_crawl))
                        ≡ false))))
  unfolding verdict is_early may_crawl
  verdict_lem sch time freq none = inr (inl refl)
  verdict_lem sch time freq (some pi) = elim (Bool-cases (is_early float queue sch time freq pi)) [
    | inl early ↦ rw early (inl refl)
    | inr late ↦ elim (Bool-cases (may_crawl float queue sch pi)) [
      | inl may ↦
          inr (
            inr (pi, refl, rw (late, may) refl, may_lem sch pi may, late_lem sch time freq pi late))
      | inr not_now ↦ rw (late, not_now) (inr (inl refl))
    ]
  ]

  request_loop_lem :
      (sch : FreqScheduler float queue) (fuel n : ℕ) (urls : List (List ℕ)) (room : ℕ)
      (s : queue.State)
      → Reached sch.schedule n s
      → room + queue.count s ≤ fuel
      → HasFilled sch urls room (request_loop float queue sch calls fuel n urls room s)
  unfolding request_loop
  request_loop_lem sch fuel n urls zero s g h = IsFilled-none sch urls 0
  request_loop_lem sch zero n urls (suc room) s g h = absurd (omega (arith, h))
  request_loop_lem sch (suc fuel) n urls (suc room) s g h =
      let none_left = IsFilled-none sch urls (suc room) in
      elim (Bool-cases (calls.fault n)) [
        | inl f ↦ rw f none_left
        | inr f ↦ elim (Option-cases (queue.first s)) [
          | inl e ↦ rw (f, e) none_left
          | inr ((sk, freq), e) ↦ elim (Option-cases (calls.page_db_get_info sk.hash)) [
            | inl i ↦ rw (f, e, i) none_left
            | inr (info, i) ↦ elim (verdict_lem sch (calls.time n) freq info) [
              | inl v ↦ rw (f, e, i, v) none_left
              | inr (inl v) ↦ elim (Bool-cases (calls.fault (n + 1))) [
                | inl f' ↦ rw (f, e, i, v, f') none_left
                | inr f' ↦
                    rw (f, e, i, v, f')
                      (request_loop_lem sch fuel (n + 2) urls (suc room) (queue.del_first s)
                        (Reached.dropped g)
                        (omega (arith, h, queue.del_first-count s (sk, freq) e)))
              ]
              | inr (inr (pi, i', v, may, late)) ↦
                  let due : IsDue sch pi.url =
                    (n, s, sk, freq, pi, g, e, i ∙ ap some i', refl, may, late) in
                  let sk' : ScheduleKey float = record sk {
                    score = float.add sk.score (float.div float.one freq);
                  } in
                  elim (Bool-cases (calls.fault (n + 1))) [
                    | inl f' ↦ rw (f, e, i, v, f') none_left
                    | inr f' ↦ elim (Bool-cases (calls.fault (n + 2))) [
                      | inl f'' ↦
                          rw (f, e, i, v, f', f'')
                            (IsFilled-one sch urls _ pi.url room due (IsFilled-none sch _ room))
                      | inr f'' ↦
                          rw (f, e, i, v, f', f'')
                            (HasFilled-more sch urls pi.url room _ due (
                              request_loop_lem sch fuel (n + 3) (urls ++ (pi.url ∷ [])) room
                                (queue.put (queue.del_first s) sk' freq)
                                (Reached.crawled sk freq g e)
                                (omega (
                                  arith,
                                  h,
                                  queue.del_first-count s (sk, freq) e,
                                  queue.put-count (queue.del_first s) sk' freq,
                                ))))
                    ]
                  ]
            ]
          ]
        ]
      ]

  -- A request that comes back.
  abbrev pub IsAnswered : FreqScheduler float queue → ℕ → Outcome float queue → Type 0
  IsAnswered sch max_requests outcome =
      (code : FreqSchedulerError) × (urls : List (List ℕ)) × (sch' : FreqScheduler float queue)
      × (outcome ≡ returned code urls sch')
      × IsFilled sch [] max_requests urls
      × (sch'.open_txns ≡ sch.open_txns)
      × (is_ok code ≡ false → sch'.schedule ≡ sch.schedule)

  end_request_lem :
      (sch : FreqScheduler float queue) (max_requests : ℕ) (end : LoopEnd float queue)
      → calls.commit ≡ true
      → is_ok sch.error ≡ true
      → HasFilled sch [] max_requests end
      → IsAnswered sch max_requests
          (end_request float queue calls (record sch { open_txns = sch.open_txns + 1 }) end)
  unfolding end_request commit on_error freq_scheduler_cursor_abort freq_scheduler_set_error
      is_early may_crawl
  end_request_lem sch max_requests (done urls s) c ok h = (
    sch.error,
    urls,
    record sch { schedule = s; open_txns = sch.open_txns + 1 - 1 },
    rw (end_request, commit, c) refl,
    h,
    omega arith,
    λ bad. cc (ok, bad),
  )
  end_request_lem sch max_requests (failed urls) c ok h =
      (_, urls, _, refl, h, omega arith, λ bad. refl)
  end_request_lem sch max_requests out_of_fuel c ok h = elim h [ ]

  set_error_lem :
      (sch : FreqScheduler float queue)
      → is_ok (freq_scheduler_set_error float queue sch).error ≡ false
  unfolding freq_scheduler_set_error
  set_error_lem sch = elim (Bool-cases (is_ok sch.error)) [
    | inl ok ↦ rw ok refl
    | inr bad ↦ rw (bad, bad) refl
  ]

  -- Where a cursor that is asked for is opened and the transaction commits, and with fuel for the
  -- URLs and the entries of the schedule, freq_scheduler_request returns, whatever other calls fail,
  -- and leaves no transaction open. It yields no more URLs than were asked for, each that of a page
  -- that was at the head of the schedule, where each head that was passed is deleted, or put back with
  -- its own frequency and a score raised by the inverse of it. At that call the page was crawled less
  -- often than the limit, if there is one, and was not too early for the frequency of its entry, if
  -- there is a margin. Where an error is returned the schedule is as before.
  pub freq_scheduler_request_lem :
      (sch : FreqScheduler float queue) (fuel max_requests : ℕ)
      → calls.cursor ≡ true
      → calls.commit ≡ true
      → max_requests + queue.count sch.schedule ≤ fuel
      → IsAnswered sch max_requests (freq_scheduler_request float queue calls fuel max_requests sch)
  unfolding freq_scheduler_request freq_scheduler_cursor_open on_error freq_scheduler_cursor_abort
      freq_scheduler_set_error is_early may_crawl
  freq_scheduler_request_lem sch fuel max_requests cursor c enough =
      let sch1 : FreqScheduler float queue = record sch { open_txns = sch.open_txns + 1 } in
      elim (Bool-cases calls.begin) [
        | inl b ↦ elim (Bool-cases (is_ok sch.error)) [
          | inl ok ↦
              let loop : freq_scheduler_request float queue calls fuel max_requests sch
                  ≡ end_request float queue calls sch1
                      (request_loop float queue sch1 calls fuel 0 [] max_requests sch.schedule) =
                rw (freq_scheduler_request, freq_scheduler_cursor_open, b, ok, cursor) refl in
              subst (IsAnswered sch max_requests) (sym loop) (
                end_request_lem sch max_requests
                  (request_loop float queue sch1 calls fuel 0 [] max_requests sch.schedule) c ok
                  (request_loop_lem sch1 fuel 0 [] max_requests sch.schedule Reached.here enough))
          | inr bad ↦
              rw (freq_scheduler_request, freq_scheduler_cursor_open, b, bad, cursor)
                (_, [], _, refl, ([], refl, omega arith, tt), omega arith, λ _. refl)
        ]
        | inr b ↦
            rw (freq_scheduler_request, freq_scheduler_cursor_open, b, set_error_lem sch)
              (_, [], _, refl, ([], refl, omega arith, tt), refl, λ _. refl)
      ]
