-- ===== src/PageDb/Links/RoundTrip.antt =====
-- Reading back the links of a page.
use aduana.Common.{
  ℕ, suc, ◌+◌, ◌-◌, ◌^◌, ◌≤◌, ◌<◌, ◌≡◌, refl, ap, ◌∙◌, arith, Bool, true, false, ◌&&◌, ◌==◌,
  if◌then◌else◌, List, [], ◌∷◌, ◌++◌, append_assoc, length, All, All-append, drop-length-append,
}
use aduana.Common.Int.{ℤ, sub_ℕ}
use aduana.Util.Varint.{done, ◌>>=◌, varint_encode_uint64, varint_encode_int64, varint_decode_int64}
use aduana.Util.Varint.RoundTrip.{decode-encode}
use aduana.Util.Varint.Signed.{magnitude, decode_int64-encode_int64, encode_int64_cons}
use aduana.PageDb.Links.{
  encode_deltas, last_or, encode_links, add_delta, copy_loop, page_db_link_stream_copy_links,
}

-- Page ids that the code can store and read back.
abbrev pub IsSmallId : ℕ → Type 0
IsSmallId id = id < 2 ^ 30

delta_magnitude : (a b : ℕ) → IsSmallId a → IsSmallId b → magnitude (sub_ℕ a b) < 2 ^ 30
delta_magnitude a b ha hb = ground arith

add_delta-sub_ℕ : (a b : ℕ) → IsSmallId a → IsSmallId b → add_delta b (sub_ℕ a b) ≡ a
unfolding add_delta
add_delta-sub_ℕ a b ha hb = ground arith

copy_loop_skip :
    (only : Bool) (d id n : ℕ) (xs rest : List ℕ)
    → copy_loop only d (length xs) id n (xs ++ rest) ≡ copy_loop only d 0 id n rest
unfolding copy_loop
copy_loop_skip only d id n [] rest = refl
copy_loop_skip only d id n (x ∷ xs) rest = copy_loop_skip only d id n xs rest

-- The ids that the loop appends, given all that are stored.
pub kept : Bool → ℕ → ℕ → List ℕ → List ℕ
kept only d n [] = []
kept only d n (x ∷ xs) =
    let rest = kept only d (n + 1) xs in x ∷ (if only && (n + 1) == d then [] else rest)

read_cons :
    (z : ℤ) (b : ℕ) (t rest : List ℕ)
    → magnitude z < 2 ^ 30
    → varint_encode_int64 z ≡ b ∷ t
    → varint_decode_int64 (b ∷ (t ++ rest)) ≡ done (z, suc (length t))
read_cons z b t rest small e = rw e at (decode_int64-encode_int64 z rest small)

one_less : (n : ℕ) → suc n - 1 ≡ n
one_less n = omega arith

copy_loop_cons :
    (only : Bool) (d id n b read : ℕ) (bs : List ℕ) (z : ℤ)
    → varint_decode_int64 (b ∷ bs) ≡ done (z, read)
    → copy_loop only d 0 id n (b ∷ bs) ≡ (
        if only && (n + 1) == d
        then done (add_delta id z ∷ [])
        else copy_loop only d (read - 1) (add_delta id z) (n + 1) bs >>= λ ids.
            done (add_delta id z ∷ ids))
unfolding copy_loop
copy_loop_cons only d id n b read bs z e = rw (e, copy_loop)

-- One round, on a delta from `id` to `x`.
copy_loop_step :
    (only : Bool) (d id n x : ℕ) (rest : List ℕ)
    → IsSmallId id
    → IsSmallId x
    → copy_loop only d 0 id n (varint_encode_int64 (sub_ℕ x id) ++ rest) ≡ (
        if only && (n + 1) == d
        then done (x ∷ [])
        else copy_loop only d 0 x (n + 1) rest >>= λ ids. done (x ∷ ids))
copy_loop_step only d id n x rest h hx =
    let (b, t, e) = encode_int64_cons (sub_ℕ x id) in
    rw e (
      copy_loop_cons only d id n b (suc (length t)) (t ++ rest) (sub_ℕ x id)
        (read_cons (sub_ℕ x id) b t rest (delta_magnitude x id hx h) e)
      ∙ rw (add_delta-sub_ℕ x id hx h, one_less, copy_loop_skip only d x (n + 1) t rest))

copy_loop-encode_deltas :
    (only : Bool) (d id n : ℕ) (ids : List ℕ)
    → IsSmallId id
    → All IsSmallId ids
    → copy_loop only d 0 id n (encode_deltas id ids) ≡ done (kept only d n ids)
unfolding encode_deltas kept
copy_loop-encode_deltas only d id n [] h hs = unfold copy_loop in refl
copy_loop-encode_deltas only d id n (x ∷ xs) h hs =
    copy_loop_step only d id n x (encode_deltas x xs) h hs.0
    ∙ rw (copy_loop-encode_deltas only d x (n + 1) xs hs.0 hs.1) (ground arith)

encode_deltas-append :
    (p : ℕ) (xs ys : List ℕ)
    → encode_deltas p xs ++ encode_deltas (last_or p xs) ys ≡ encode_deltas p (xs ++ ys)
unfolding encode_deltas last_or
encode_deltas-append p [] ys = refl
encode_deltas-append p (x ∷ xs) ys =
    append_assoc (varint_encode_int64 (sub_ℕ x p)) _ _
    ∙ ap (◌++◌ (varint_encode_int64 (sub_ℕ x p))) (encode_deltas-append x xs ys)

kept_all : (d n : ℕ) (xs : List ℕ) → kept false d n xs ≡ xs
unfolding kept
kept_all d n [] = refl
kept_all d n (x ∷ xs) = ap (◌∷◌ x) (kept_all d (n + 1) xs)

-- Past the count the test for it never holds again.
kept_past : (only : Bool) (d n : ℕ) (xs : List ℕ) → d ≤ n → kept only d n xs ≡ xs
unfolding kept
kept_past only d n [] h = refl
kept_past only d n (x ∷ xs) h = ground (arith, kept_past only d (n + 1) xs (omega arith))

kept_diff :
    (d n x : ℕ) (xs ys : List ℕ) → n + length (x ∷ xs) ≡ d → kept true d n (x ∷ (xs ++ ys)) ≡ x ∷ xs
unfolding kept
kept_diff d n x [] ys h = ground arith
kept_diff d n x (y ∷ xs) ys h = ground (arith, kept_diff d (n + 1) y xs ys (omega arith))

-- The links that a stream hands on: all of them, or those to other domains; where there are none of
-- these, all of them again.
unfoldable pub selected : Bool → List ℕ → List ℕ → List ℕ
selected false diff same = diff ++ same
selected true [] same = same
selected true (x ∷ xs) same = x ∷ xs

kept-selected :
    (only : Bool) (diff same : List ℕ)
    → kept only (length diff) 0 (diff ++ same) ≡ selected only diff same
unfolding selected
kept-selected false diff same = kept_all _ 0 _
kept-selected true [] same = kept_past true 0 0 same (omega arith)
kept-selected true (x ∷ xs) same = kept_diff _ 0 x xs same (omega arith)

-- Where the ids of the page and of its links are below 2 ^ 30, and fewer than 2 ^ 31 links are to other
-- domains: reading what was stored for a page gives the page, the number of its links to other domains,
-- and the links: without the filter all of them, those to other domains first; with it the links to
-- other domains, or, if the page has none of these, all its links.
pub copy_links-encode_links :
    (only : Bool) (page : ℕ) (diff same : List ℕ)
    → IsSmallId page
    → All IsSmallId diff
    → All IsSmallId same
    → length diff < 2 ^ 31
    → page_db_link_stream_copy_links only page (encode_links page diff same)
      ≡ done (record { from = page; n_diff = length diff; to = selected only diff same })
unfolding page_db_link_stream_copy_links encode_links
copy_links-encode_links only page diff same hp hd hs few = rw (
  decode-encode (length diff) _ few,
  drop-length-append (varint_encode_uint64 (length diff)),
  encode_deltas-append page diff same,
  copy_loop-encode_deltas only (length diff) page 0 (diff ++ same) hp
      (All-append IsSmallId diff same hd hs),
  kept-selected only diff same,
)
