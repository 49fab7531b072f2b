-- ===== src/Util/Url/Same.antt =====
-- `same_domain` compares the domains of two URLs, or the whole texts where neither is a URL.
use aduana.Common.{
  ℕ, zero, suc, ◌+◌, ◌-◌, ◌≤◌, ◌≡◌, ◌↔◌, refl, ap, arith, true, false, ◌==◌, if◌then◌else◌, List,
  [], ◌∷◌, Option, none, some, length, take, drop, Option-cases, Bool-cases, inl, inr, ==_iff,
}
use aduana.Util.Url.{url_domain, same_chars, str_eq, same_domain}
use aduana.Util.Url.Bounds.{url_domain_bounds}

-- The domain of a URL as a text, or the text itself where `url_domain` refuses it.
pub data Site : Type 0 where
  domain : List ℕ → Site
  not_url : List ℕ → Site

abbrev pub site_at : List ℕ → Option (ℕ × ℕ) → Site
site_at url none = not_url url
site_at url (some (start, end)) = domain (take (end + 1 - start) (drop start url))

abbrev pub site : List ℕ → Site
site url = site_at url (url_domain url)

str_eq_iff : (xs ys : List ℕ) → (str_eq xs ys ≡ true) ↔ (xs ≡ ys)
unfolding str_eq
str_eq_iff [] [] = (λ h. refl, λ h. refl)
str_eq_iff [] (y ∷ ys) = ground arith
str_eq_iff (x ∷ xs) [] = ground arith
str_eq_iff (x ∷ xs) (y ∷ ys) = ground (arith, str_eq_iff xs ys)

same_chars_iff :
    (n : ℕ) (xs ys : List ℕ)
    → n ≤ length xs
    → n ≤ length ys
    → (same_chars n xs ys ≡ true) ↔ (take n xs ≡ take n ys)
unfolding same_chars
same_chars_iff zero xs ys hx hy = (λ h. refl, λ h. refl)
same_chars_iff (suc n) [] ys hx hy = absurd (omega arith)
same_chars_iff (suc n) (x ∷ xs) [] hx hy = absurd (omega arith)
same_chars_iff (suc n) (x ∷ xs) (y ∷ ys) hx hy =
    ground (arith, same_chars_iff n xs ys (omega arith) (omega arith))

length-drop : (n : ℕ) (xs : List ℕ) → length (drop n xs) ≡ length xs - n
length-drop zero xs = omega arith
length-drop (suc n) [] = omega arith
length-drop (suc n) (x ∷ xs) = omega (arith, length-drop n xs)

length-take : (n : ℕ) (xs : List ℕ) → n ≤ length xs → length (take n xs) ≡ n
length-take zero xs h = refl
length-take (suc n) [] h = absurd (omega arith)
length-take (suc n) (x ∷ xs) h = ap suc (length-take n xs (omega arith))

same_texts_iff :
    (m n : ℕ) (xs ys : List ℕ)
    → m ≤ length xs
    → n ≤ length ys
    → ((if n == m then same_chars m xs ys else false) ≡ true) ↔ (take m xs ≡ take n ys)
same_texts_iff m n xs ys hx hy = elim (Bool-cases (n == m)) [
  | inl e ↦
      let same : n ≡ m = (==_iff n m).0 e in rw (e, same) (same_chars_iff m xs ys hx (omega arith))
  | inr e ↦ rw e (
    λ h. cc,
    λ h. absurd (ground (arith, e, ap length h, length-take m xs hx, length-take n ys hy)),
  )
]

domain_iff : (t1 t2 : List ℕ) → (domain t1 ≡ domain t2) ↔ (t1 ≡ t2)
domain_iff t1 t2 = (λ h. cc, λ h. cc)

fits :
    (url : List ℕ) (start end : ℕ)
    → url_domain url ≡ some (start, end)
    → end + 1 - start ≤ length (drop start url)
fits url start end e = omega (arith, url_domain_bounds url start end e, length-drop start url)

-- `same_domain` answers 1 exactly if the two texts are URLs with equal domains, or equal texts that
-- are both no URLs.
pub same_domain_iff :
    (url1 url2 : List ℕ) → (same_domain url1 url2 ≡ true) ↔ (site url1 ≡ site url2)
unfolding same_domain
same_domain_iff url1 url2 = elim (Option-cases (url_domain url1)) [
  | inl p ↦ elim (Option-cases (url_domain url2)) [
    | inl q ↦ ground (arith, p, q, str_eq_iff url1 url2)
    | inr (d2, q) ↦ ground (arith, p, q)
  ]
  | inr ((s1, e1), p) ↦ elim (Option-cases (url_domain url2)) [
    | inl q ↦ ground (arith, p, q)
    | inr ((s2, e2), q) ↦ ground (
      arith,
      p,
      q,
      same_texts_iff (e1 + 1 - s1) (e2 + 1 - s2) (drop s1 url1) (drop s2 url2) (fits url1 s1 e1 p)
          (fits url2 s2 e2 q),
    )
  ]
]
