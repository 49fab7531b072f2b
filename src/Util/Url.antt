-- ===== src/Util/Url.antt =====
-- `url_domain` and `same_domain` of lib/src/util.c. A text is the list of its bytes, none of them 0;
-- what C reads behind the last byte is the 0 that ends the text.
pub mod Domain
pub mod Bounds
pub mod Same
mod Runs
use aduana.Common.{
  ℕ, zero, suc, ◌+◌, ◌-◌, Bool, true, false, ◌&&◌, ◌==◌, if◌then◌else◌, List, [], ◌∷◌, Option, none,
  some, drop,
}

-- The scan over the part behind "http[s]://"; `none` is the -1 of an `int` position.
pub record Scan : Type 0 where
  pub n_colon : ℕ
  pub colon2 : Option ℕ
  pub colon3 : Option ℕ
  pub at : Option ℕ

abbrev pub is_none {ℓ} : {A : Type ℓ} → Option A → Bool
is_none none = true
is_none (some _) = false

-- One character of the scan: it goes on, ends at the third slash, or the URL is refused.
pub data Next : Type 0 where
  go : Scan → Next
  stop : Next
  refuse : Next

scan_colon : ℕ → Scan → Next
scan_colon i s =
    if s.n_colon == 1
    then go (record s { n_colon = s.n_colon + 1; colon2 = some i })
    else if s.n_colon == 2
    then (if is_none s.at
        then refuse
        else go (record s { n_colon = s.n_colon + 1; colon3 = some i }))
    else refuse

scan_char : ℕ → ℕ → Scan → Next
unfolding scan_colon
scan_char c i s =
    if c == b':'
    then scan_colon i s
    else if c == b'@'
    then (if is_none s.at then go (record s { at = some i }) else refuse)
    else if c == b'/'
    then stop
    else go s

-- The loop at position `i`: the scan, and `slash3`, which is the end of the text if there is no slash.
scan : List ℕ → ℕ → Scan → Option (Scan × ℕ)
scan [] i s = some (s, i)
scan (c ∷ cs) i s = elim (scan_char c i s) [
  | go s' ↦ scan cs (i + 1) s'
  | stop ↦ some (s, i)
  | refuse ↦ none
]

-- `url[i++] != c`
expect : ℕ → List ℕ → Option (List ℕ)
expect c [] = none
expect c (x ∷ xs) = if x == c then some xs else none

infixl 5 ◌>>=◌
abbrev ◌>>=◌ {ℓ κ} : {A : Type ℓ} {B : Type κ} → Option A → (A → Option B) → Option B
none >>= f = none
some a >>= f = f a

-- `if (url[i] == 's') i++;`, with the position behind it.
skip_s : List ℕ → List ℕ × ℕ
skip_s [] = ([], 4)
skip_s (x ∷ xs) = if x == b's' then (xs, 5) else (x ∷ xs, 4)

-- What follows "http[s]://", and its position.
after_scheme : List ℕ → Option (List ℕ × ℕ)
unfolding expect skip_s
after_scheme url = do
  r ← expect b'h' url
  r ← expect b't' r
  r ← expect b't' r
  r ← expect b'p' r
  let (r, i) = skip_s r
  r ← expect b':' r
  r ← expect b'/' r
  r ← expect b'/' r
  some (r, i + 3)

unscanned : Scan
unscanned = record { n_colon = 1; colon2 = none; colon3 = none; at = none }

-- `c == -1? slash3 - 1: c - 1`
abbrev last_before : Option ℕ → ℕ → ℕ
last_before none slash3 = slash3 - 1
last_before (some c) slash3 = c - 1

-- `*start` and `*end`; `first` is `slash2 + 1`.
limits : ℕ → Scan × ℕ → Option ℕ → ℕ × ℕ
limits first (s, slash3) none = (first, last_before s.colon2 slash3)
limits first (s, slash3) (some at) = (at + 1, last_before s.colon3 slash3)

-- The first and the last position of the domain; `none` is the -1 that refuses the URL.
unfoldable pub url_domain : List ℕ → Option (ℕ × ℕ)
unfolding after_scheme scan scan_char unscanned limits
url_domain url = do
  (r, i) ← after_scheme url
  (s, slash3) ← scan r i unscanned
  some (limits i (s, slash3) s.at)

-- The loop that compares the domains, `n` characters of them.
same_chars : ℕ → List ℕ → List ℕ → Bool
same_chars zero xs ys = true
same_chars (suc n) (x ∷ xs) (y ∷ ys) =
    let rest = same_chars n xs ys in if x == y then rest else false
same_chars (suc n) xs ys = false

-- `strcmp(url1, url2) == 0`
str_eq : List ℕ → List ℕ → Bool
str_eq [] [] = true
str_eq (x ∷ xs) (y ∷ ys) = x == y && str_eq xs ys
str_eq xs ys = false

unfoldable pub same_domain : List ℕ → List ℕ → Bool
unfolding same_chars str_eq
same_domain url1 url2 = elim (url_domain url1) [
  | some (s1, e1) ↦ elim (url_domain url2) [
    | some (s2, e2) ↦
        if (e2 + 1 - s2) == (e1 + 1 - s1)
        then same_chars (e1 + 1 - s1) (drop s1 url1) (drop s2 url2)
        else false
    | none ↦ false
  ]
  | none ↦ elim (url_domain url2) [ some _ ↦ false | none ↦ str_eq url1 url2 ]
]
