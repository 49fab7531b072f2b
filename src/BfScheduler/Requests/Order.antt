-- ===== src/BfScheduler/Requests/Order.antt =====
-- Which pages a request holds, and in which order.
use aduana.Common.{
  ℕ, zero, suc, ◌-◌, ◌≤◌, ◌≡◌, ◌⊎◌, inl, inr, ap, refl, arith, Bool, not, ◌==◌, ◌&&◌, ◌||◌,
  Bool-cases, Option-cases, if◌then◌else◌, List, [], ◌∷◌, ◌++◌, Option, none, some, length,
  length-append, take, drop,
}
use aduana.DomainTemp.{Float}
use aduana.PageDb.Txn.{page_db_hash_get_domain}
use aduana.PageDb.PageInfo.{PageInfo}
use aduana.BfScheduler.Requests.{
  ScheduleKey, Pages, page_db_get_domain_crawl_rate, verdict, within_limit,
  bf_scheduler_add_requests, bf_scheduler_ramp, bf_scheduler_request,
}

module _ (float : Float) (pages : Pages float) (info : ℕ → Option PageInfo) where
  -- The limit is disabled, or the crawl rate of the page's domain is not above it.
  abbrev may_visit : float.Carrier → ℕ → Bool
  may_visit limit hash =
      float.less limit float.nought
      || float.leq
          (page_db_get_domain_crawl_rate float pages.domain_temp (page_db_hash_get_domain hash))
          limit

  add_url : float.Carrier → ℕ → Option PageInfo → List (List ℕ) → List (List ℕ)
  add_url limit hash none urls = urls
  add_url limit hash (some pi) urls =
      if pi.n_crawls == 0 && may_visit limit hash then pi.url ∷ urls else urls

  -- The URLs of the entries whose page was not crawled, and whose domain is within the limit.
  unfoldable pub wanted : float.Carrier → List (ScheduleKey float) → List (List ℕ)
  unfolding add_url
  wanted limit [] = []
  wanted limit (entry ∷ entries) = add_url limit entry.hash (info entry.hash) (wanted limit entries)

  add_entry :
      float.Carrier
      → ScheduleKey float
      → Option PageInfo
      → List (ScheduleKey float)
      → List (ScheduleKey float)
  add_entry limit entry none entries = entry ∷ entries
  add_entry limit entry (some pi) entries =
      if pi.n_crawls == 0 && not (may_visit limit entry.hash) then entry ∷ entries else entries

  -- The entries that have no page, or a page that was not crawled and whose domain is over the limit.
  unfoldable pub kept : float.Carrier → List (ScheduleKey float) → List (ScheduleKey float)
  unfolding add_entry
  kept limit [] = []
  kept limit (entry ∷ entries) = add_entry limit entry (info entry.hash) (kept limit entries)

  -- Up to the room, the request holds the first URLs that are wanted. Of the entries that were looked
  -- at those that are kept are left; the other ones are all left, and there are some only where there
  -- is no more room.
  abbrev pub Requested : float.Carrier → ℕ → List (ScheduleKey float) → Type 0
  Requested limit room entries =
      (seen : List (ScheduleKey float)) × (unseen : List (ScheduleKey float)) × (entries
        ≡ seen ++ unseen)
      × (bf_scheduler_add_requests float pages limit room entries
          ≡ some (take room (wanted limit entries), kept limit seen ++ unseen))
      × (wanted limit (kept limit seen ++ unseen) ≡ drop room (wanted limit entries))
      × (length (kept limit seen ++ unseen) ≤ length entries)
      × ((unseen ≡ []) ⊎ (length (wanted limit seen) ≡ room))

  one_entry :
      (limit : float.Carrier) (room : ℕ) (entry : ScheduleKey float)
      (entries : List (ScheduleKey float))
      → pages.page_db_get_info entry.hash ≡ some (info entry.hash)
      → Requested limit (suc room) entries
      → Requested limit room entries
      → Requested limit (suc room) (entry ∷ entries)
  unfolding bf_scheduler_add_requests wanted kept verdict within_limit add_url add_entry
  one_entry limit room entry entries read (seen, unseen, p, e, w, l, f)
        (seen', unseen', p', e', w', l', f') =
      elim (Option-cases (info entry.hash)) [
        | inl none_there ↦ (
          entry ∷ seen,
          unseen,
          ap (λ es. entry ∷ es) p,
          rw (bf_scheduler_add_requests, read, none_there, e) refl,
          rw (none_there, none_there) w,
          rw none_there (omega (arith, l)),
          rw none_there f,
        )
        | inr (pi, there) ↦ elim (Bool-cases (pi.n_crawls == 0)) [
          | inr crawled ↦ (
            entry ∷ seen,
            unseen,
            ap (λ es. entry ∷ es) p,
            rw (bf_scheduler_add_requests, read, there, crawled, e) refl,
            rw (there, crawled) w,
            rw (there, crawled) (omega (arith, l)),
            rw (there, crawled) f,
          )
          | inl new ↦ elim (Bool-cases (may_visit limit entry.hash)) [
            | inr over ↦ (
              entry ∷ seen,
              unseen,
              ap (λ es. entry ∷ es) p,
              rw (bf_scheduler_add_requests, read, there, new, over, e) refl,
              rw (there, new, over, there, new, over) w,
              rw (there, new, over) (omega (arith, l)),
              rw (there, new, over) f,
            )
            | inl within ↦ (
              entry ∷ seen',
              unseen',
              ap (λ es. entry ∷ es) p',
              rw (bf_scheduler_add_requests, read, there, new, within, e') refl,
              rw (there, new, within) w',
              rw (there, new, within) (omega (arith, l')),
              elim f' [ inl z ↦ inl z | inr z ↦ inr (rw (there, new, within) (omega (arith, z))) ],
            )
          ]
        ]
      ]

  -- Where every page can be read, the request holds the first URLs that are wanted, those of pages that
  -- were not crawled and whose domain is within the limit, in the order of the schedule and as many as
  -- there is room for. Of the entries that were looked at exactly those are left that have no page, or
  -- a page that was not crawled and whose domain is over the limit; those that were not looked at are
  -- all left, and there are some only where the room was used. The entries that are left hold the
  -- other URLs that are wanted.
  pub add_requests_lem :
      (limit : float.Carrier) (room : ℕ) (entries : List (ScheduleKey float))
      → ((hash : ℕ) → pages.page_db_get_info hash ≡ some (info hash))
      → Requested limit room entries
  unfolding bf_scheduler_add_requests wanted kept
  add_requests_lem limit zero entries read = ([], entries, refl, refl, refl, omega arith, inr refl)
  add_requests_lem limit (suc room) [] read = ([], [], refl, refl, refl, omega arith, inl refl)
  add_requests_lem limit (suc room) (entry ∷ entries) read =
      one_entry limit room entry entries (read entry.hash)
        (add_requests_lem limit (suc room) entries read) (add_requests_lem limit room entries read)

  length-take-le : {A : Type 0} (n : ℕ) (xs : List A) → length (take n xs) ≤ n
  length-take-le zero xs = omega arith
  length-take-le (suc n) [] = omega arith
  length-take-le (suc n) (x ∷ xs) = omega (arith, length-take-le n xs)

  ramp_bound :
      (limits : List float.Carrier) (room : ℕ) (entries : List (ScheduleKey float))
      → ((hash : ℕ) → pages.page_db_get_info hash ≡ some (info hash))
      → (urls : List (List ℕ)) × (rest : List (ScheduleKey float)) × (bf_scheduler_ramp float pages
            limits room entries
          ≡ some (urls, rest))
        × (length urls ≤ room)
        × (length rest ≤ length entries)
  unfolding bf_scheduler_ramp
  ramp_bound [] room entries read = ([], entries, refl, omega arith, omega arith)
  ramp_bound (limit ∷ limits) zero entries read = ([], entries, refl, omega arith, omega arith)
  ramp_bound (limit ∷ limits) (suc room) entries read =
      let (seen, unseen, _, e, _, l, _) = add_requests_lem limit (suc room) entries read in
      let rest = kept limit seen ++ unseen in
      let urls = take (suc room) (wanted limit entries) in
      let (urls', rest', e', l', k') = ramp_bound limits (suc room - length urls) rest read in
      (
        urls ++ urls',
        rest',
        rw (bf_scheduler_ramp, e, e'),
        omega
            (arith, length-append urls urls', length-take-le (suc room) (wanted limit entries), l'),
        omega (arith, l, k'),
      )

  -- Where every page can be read a request goes through, with no more URLs than were asked for.
  request_bound :
      (soft hard : float.Carrier) (ramp : List float.Carrier) (n_pages : ℕ)
      (entries : List (ScheduleKey float))
      → ((hash : ℕ) → pages.page_db_get_info hash ≡ some (info hash))
      → (urls : List (List ℕ)) × (rest : List (ScheduleKey float)) × (bf_scheduler_request float
            pages soft hard ramp n_pages entries
          ≡ some (urls, rest))
        × (length urls ≤ n_pages)
        × (length rest ≤ length entries)
  unfolding bf_scheduler_request
  request_bound soft hard ramp n_pages entries read =
      ramp_bound (soft ∷ (if float.less soft hard then ramp else hard ∷ [])) n_pages entries read
