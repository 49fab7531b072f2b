-- ===== src/FreqScheduler/Algo.antt =====
-- freq_algo_simple of lib/src/freq_algo.c: the array of the frequencies.
use aduana.Common.{
  ℕ, zero, suc, ◌+◌, ◌*◌, ◌^◌, ◌<◌, ◌≤◌, ◌≡◌, refl, sym, ◌∙◌, ◌⊎◌, inl, inr, Bool, true, false,
  ◌&&◌, ltb, leb, ◌==◌, if◌then◌else◌, Bool-cases, Option, none, some, List, [], ◌∷◌, ◌++◌, length,
  get_elem?, append-nil, append_assoc, arith,
}
use aduana.MmapArray.{
  System, MmapArray, MmapArrayError, is_ok, mmap_array_new, mmap_array_set, read, first_size,
}
use aduana.MmapArray.Bounds.{IsMapped, mmap_array_set_lem}
use aduana.MmapArray.Resize.{mmap_array_new_lem, mmap_array_resize_lem}
use aduana.PageDb.PageInfo.{PageInfo}
use aduana.Ranks.{Arith}
use aduana.FreqScheduler.{page_info_rate}
use aduana.FreqScheduler.Load.{PageFreq, HashInfoStream, make_room, algo_loop, freq_algo_simple}

module _ (float : Arith) (sys : System (PageFreq float)) where
  -- The pages that were crawled twice or more, with their rates of change.
  abbrev pub rated : List (ℕ × PageInfo) → List (PageFreq float)
  rated [] = []
  rated ((hash, pi) ∷ pages) =
      if leb 2 pi.n_crawls
      then record { hash = hash; freq = page_info_rate float pi } ∷ rated pages
      else rated pages

  -- The array holds `found` in front, has room for one more and is not too large.
  abbrev pub Holds : List (PageFreq float) → MmapArray (PageFreq float) → Type 0
  Holds found marr =
      IsMapped marr
      × (length found < marr.n_elements)
      × (marr.n_elements ≤ 2 * (length found + 1))
      × ((i : ℕ) → i < length found → read marr i ≡ get_elem? found i)

  -- Nothing, or an array that holds `found`.
  abbrev IsListed : List (PageFreq float) → Option (MmapArray (PageFreq float)) → Type 0
  IsListed found none = Unit
  IsListed found (some marr) = Holds found marr

  algo_step :
      (code code' : MmapArrayError) (rest : Option (MmapArray (PageFreq float)))
      (found : List (PageFreq float))
      → (is_ok code ≡ true → IsListed found rest)
      → IsListed found (if is_ok code && is_ok code' then rest else none)
  algo_step code code' rest found h = elim (Bool-cases (is_ok code)) [
    | inl e ↦ elim (Bool-cases (is_ok code')) [ inl e' ↦ rw (e, e') (h e) | inr e' ↦ rw (e, e') tt ]
    | inr e ↦ rw e tt
  ]

  at_end :
      (found : List (PageFreq float)) (pf : PageFreq float) (i : ℕ)
      → (length (found ++ (pf ∷ [])) ≡ length found + 1)
        × (get_elem? (found ++ (pf ∷ [])) i
            ≡ (if length found == i then some pf else get_elem? found i))
  at_end [] pf zero = (refl, refl)
  at_end [] pf (suc i) = (refl, ground arith)
  at_end (x ∷ found) pf zero = (omega (arith, (at_end found pf zero).0), ground arith)
  at_end (x ∷ found) pf (suc i) =
      let (len, at) = at_end found pf i in (omega (arith, len), ground (arith, at))

  -- Room for one element more than `found` and another one, and `found` in front.
  abbrev HasRoomFor : List (PageFreq float) → MmapArray (PageFreq float) → Type 0
  HasRoomFor found marr =
      IsMapped marr
      × (length found + 1 < marr.n_elements)
      × (marr.n_elements ≤ 2 * (length found + 2))
      × ((i : ℕ) → i < length found → read marr i ≡ get_elem? found i)

  leb-cases : (n m : ℕ) → ((n ≤ m) × (leb n m ≡ true)) ⊎ ((m < n) × (leb n m ≡ false))
  leb-cases n m = ground arith

  make_room_lem :
      (found : List (PageFreq float)) (marr : MmapArray (PageFreq float))
      → sys.element_size ≡ 16
      → length found < 2 ^ 58
      → Holds found marr
      → is_ok (make_room float sys marr (length found)).0 ≡ true
      → HasRoomFor found (make_room float sys marr (length found)).1
  unfolding make_room
  make_room_lem found marr size small (m, room, most, reads) =
      elim (leb-cases marr.n_elements (length found + 1)) [
        | inl (le, e) ↦
            elim (mmap_array_resize_lem sys marr (2 * marr.n_elements) m
              (rw size (omega (arith, most, small)))) [
                | inl (_, m', n', _, kept) ↦
                    rw (make_room, e)
                      λ ok. (
                        m',
                        omega (arith, n', room),
                        omega (arith, n', le),
                        λ i h. kept i (omega (arith, h, room)) (omega (arith, h, room)) ∙ reads i h,
                      )
                | inr (bad, _, _, _) ↦ rw (make_room, e) λ ok. cc (ok, bad)
              ]
        | inr (gt, e) ↦ rw (make_room, e) λ ok. (m, gt, omega (arith, most), reads)
      ]

  set_lem :
      (found : List (PageFreq float)) (marr : MmapArray (PageFreq float)) (pf : PageFreq float)
      → HasRoomFor found marr
      → Holds (found ++ (pf ∷ [])) (mmap_array_set marr (length found) pf).1
  set_lem found marr pf (m, room, most, reads) =
      let len = (at_end found pf 0).0 in
      let same = mmap_array_set_lem marr (length found) 0 pf m in
      (
        same.0,
        omega (arith, len, room, same.1),
        omega (arith, len, most, same.1),
        λ i h.
            read_set (length found) marr.n_elements i pf (read marr i) _ (get_elem? found i) _
              (omega (arith, room)) (omega (arith, h, len)) (reads i)
              (mmap_array_set_lem marr (length found) i pf m).4 (at_end found pf i).1,
      )
    where
      read_set :
          (n size i : ℕ) (pf : PageFreq float) (old new known result : Option (PageFreq float))
          → n < size
          → i < n + 1
          → (i < n → old ≡ known)
          → new ≡ (if ltb n size then if n == i then some pf else old else old)
          → result ≡ (if n == i then some pf else known)
          → new ≡ result
      read_set n size i pf old new known result h h' e e' e'' = ground (arith, h, h', e, e', e'')

  algo_loop_lem :
      (pages : List (ℕ × PageInfo)) (found : List (PageFreq float)) (n : ℕ)
      (marr : MmapArray (PageFreq float))
      → sys.element_size ≡ 16
      → length found + length pages < 2 ^ 58
      → n ≡ length found
      → Holds found marr
      → IsListed (found ++ rated pages) (algo_loop float sys pages n marr)
  unfolding algo_loop
  algo_loop_lem [] found n marr size small at h = rw (append-nil found) h
  algo_loop_lem ((hash, pi) ∷ pages) found n marr size small at h =
      let pf : PageFreq float = record { hash = hash; freq = page_info_rate float pi } in
      elim (Bool-cases (leb 2 pi.n_crawls)) [
        | inl e ↦
            let (code, grown) = make_room float sys marr (length found) in
            let (code', set) = mmap_array_set grown (length found) pf in
            let more = algo_loop float sys pages (length found + 1) set in
            rw (at, e)
              (algo_step code code' more (found ++ (pf ∷ rated pages)) λ ok.
                rw (append_assoc found (pf ∷ []) (rated pages)) at (
                  algo_loop_lem pages (found ++ (pf ∷ [])) (length found + 1) set size
                    (omega (arith, small, (at_end found pf 0).0)) (sym (at_end found pf 0).0)
                    (set_lem found grown pf
                      (make_room_lem found marr size (omega (arith, small)) h ok))))
        | inr e ↦ rw e (algo_loop_lem pages found n marr size (omega (arith, small)) at h)
      ]

  end_lem :
      (found : List (PageFreq float)) (o : Option (MmapArray (PageFreq float))) (ends : Bool)
      → IsListed found o
      → IsListed found (elim o [ none ↦ none | some freqs ↦ if ends then some freqs else none ])
  end_lem found none ends h = tt
  end_lem found (some freqs) true h = h
  end_lem found (some freqs) false h = tt

  freq_algo_simple-IsListed :
      (st : HashInfoStream float)
      → sys.element_size ≡ 16
      → length st.pages < 2 ^ 58
      → IsListed (rated st.pages) (freq_algo_simple float sys st)
  unfolding freq_algo_simple first_size
  freq_algo_simple-IsListed st size small =
      let (code, pfreqs) = mmap_array_new sys true 1 in
      elim (mmap_array_new_lem sys true 1) [
        | inl (ok, m, n, _) ↦ elim (Bool-cases (is_ok code && st.begins)) [
          | inl e ↦ rw e (
              end_lem (rated st.pages) (algo_loop float sys st.pages 0 pfreqs) st.ends (
                algo_loop_lem st.pages [] 0 pfreqs size (omega (arith, small)) refl
                  (m, omega (arith, n), omega (arith, n), λ i h. absurd (omega (arith, h)))))
          | inr e ↦ rw e tt
        ]
        | inr (bad, _) ↦ rw bad tt
      ]

  -- For elements of 16 bytes and fewer than 2 ^ 58 pages, the array that freq_algo_simple leaves, where
  -- it returns 0, holds in front the pages of the stream that were crawled twice or more, in their
  -- order, with their rates of change, and has at least one element more than there are such pages,
  -- and at most twice as many, and 2.
  pub freq_algo_simple_lem :
      (st : HashInfoStream float) (freqs : MmapArray (PageFreq float))
      → sys.element_size ≡ 16
      → length st.pages < 2 ^ 58
      → freq_algo_simple float sys st ≡ some freqs
      → Holds (rated st.pages) freqs
  freq_algo_simple_lem st freqs size small e =
      let all = freq_algo_simple-IsListed st size small in rw e at all
