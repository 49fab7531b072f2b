-- ===== src/Util/Url/Bounds.antt =====
-- The positions that `url_domain` returns lie inside the text.
use aduana.Common.{
  ℕ, ◌+◌, ◌≤◌, ◌<◌, ◌≡◌, refl, arith, List, [], ◌∷◌, Option, none, some, length, Option-cases, ◌⊎◌,
  inl, inr,
}
use aduana.Util.Url.{
  Scan, Next, go, stop, refuse, scan_char, scan, after_scheme, unscanned, limits, url_domain,
}

abbrev Within : ℕ → ℕ → Option ℕ → Type 0
Within lo hi none = Unit {0}
Within lo hi (some c) = (lo ≤ c) × (c < hi)

-- The third colon stands behind the at sign.
abbrev Behind : ℕ → Option ℕ → Option ℕ → Type 0
Behind hi at none = Unit {0}
Behind hi none (some c) = ⊥
Behind hi (some a) (some c) = (a < c) × (c < hi)

-- What the scan of a text that starts at `first` knows at position `i`.
record IsScan (first i : ℕ) (s : Scan) : Type 0 where
  room : first ≤ i
  colon2 : Within first i s.colon2
  at : Within first i s.at
  colon3 : Behind i s.at s.colon3

scan_char-IsScan :
    (c first i : ℕ) (s s' : Scan)
    → scan_char c i s ≡ go s'
    → IsScan first i s
    → IsScan first (i + 1) s'
unfolding scan_char
scan_char-IsScan c first i s s' e v = ground arith

Next-cases : (n : Next) → ((s : Scan) × (n ≡ go s)) ⊎ ((n ≡ stop) ⊎ (n ≡ refuse))
Next-cases (go s) = inl (s, refl)
Next-cases stop = inr (inl refl)
Next-cases refuse = inr (inr refl)

scan-IsScan :
    (cs : List ℕ) (first i : ℕ) (s s' : Scan) (slash3 : ℕ)
    → IsScan first i s
    → scan cs i s ≡ some (s', slash3)
    → IsScan first slash3 s' × (slash3 ≤ i + length cs)
unfolding scan
scan-IsScan [] first i s s' slash3 v e = ground (arith, v)
scan-IsScan (c ∷ cs) first i s s' slash3 v e = elim (Next-cases (scan_char c i s)) [
  | inl (t, q) ↦
      let (w, l) =
        scan-IsScan cs first (i + 1) t s' slash3 (scan_char-IsScan c first i s t q v)
          (rw (q, scan) at e) in
      (w, omega arith)
  | inr (inl q) ↦ ground (arith, v)
  | inr (inr q) ↦ ground (arith, v)
]

after_scheme-length :
    (url r : List ℕ) (i : ℕ)
    → after_scheme url ≡ some (r, i)
    → (i + length r ≡ length url) × (1 ≤ i)
unfolding after_scheme
after_scheme-length [] r i e = cc
after_scheme-length (_ ∷ []) r i e = ground arith
after_scheme-length (_ ∷ _ ∷ []) r i e = ground arith
after_scheme-length (_ ∷ _ ∷ _ ∷ []) r i e = ground arith
after_scheme-length (_ ∷ _ ∷ _ ∷ _ ∷ []) r i e = ground arith
after_scheme-length (_ ∷ _ ∷ _ ∷ _ ∷ _ ∷ []) r i e = ground arith
after_scheme-length (_ ∷ _ ∷ _ ∷ _ ∷ _ ∷ _ ∷ []) r i e = ground arith
after_scheme-length (_ ∷ _ ∷ _ ∷ _ ∷ _ ∷ _ ∷ _ ∷ []) r i e = ground arith
after_scheme-length (_ ∷ _ ∷ _ ∷ _ ∷ _ ∷ _ ∷ _ ∷ _ ∷ rest) r i e = ground arith

limits_bounds :
    (first slash3 start end : ℕ) (s : Scan)
    → 1 ≤ first
    → IsScan first slash3 s
    → limits first (s, slash3) s.at ≡ (start, end)
    → (start ≤ end + 1) × (end + 1 ≤ slash3)
unfolding limits
limits_bounds first slash3 start end s p v e = ground arith

unscanned-IsScan : (first : ℕ) → IsScan first first unscanned
unfolding unscanned
unscanned-IsScan first = record { room = omega arith; colon2 = tt; at = tt; colon3 = tt }

-- A domain that is found lies inside the text, and it is never more than one position short of empty:
-- `XXH32(url + start, end - start + 1)` reads bytes of the URL alone.
pub url_domain_bounds :
    (url : List ℕ) (start end : ℕ)
    → url_domain url ≡ some (start, end)
    → (start ≤ end + 1) × (end + 1 ≤ length url)
unfolding url_domain
url_domain_bounds url start end e = elim (Option-cases (after_scheme url)) [
  | inl q ↦ ground (arith, q)
  | inr ((r, i), q) ↦ elim (Option-cases (scan r i unscanned)) [
    | inl p ↦ ground (arith, q, p)
    | inr ((s, slash3), p) ↦
        let (whole, pos) = after_scheme-length url r i q in
        let (v, l) = scan-IsScan r i i unscanned s slash3 (unscanned-IsScan i) p in
        let (a, b) = limits_bounds i slash3 start end s pos v (ground (arith, q, p)) in
        (a, omega arith)
  ]
]
