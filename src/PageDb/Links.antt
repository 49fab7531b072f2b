-- ===== src/PageDb/Links.antt =====
-- The value that page_db.c stores for a page in the "links" table: `page_db_add` writes it and
-- `page_db_link_stream_copy_links` reads it.
pub mod RoundTrip
pub mod Stream
pub mod Reset
use aduana.Common.{
  ℕ, zero, suc, ◌+◌, ◌-◌, ◌%◌, ◌^◌, Bool, ◌&&◌, ◌==◌, if◌then◌else◌, List, [], ◌∷◌, ◌++◌, length,
  drop,
}
use aduana.Common.Int.{ℤ, sub_ℕ, pos_part, neg_part}
use aduana.Util.Varint.{Outcome, done, undefined, past_end, ◌>>=◌}
use aduana.Util.Varint.{
  varint_encode_uint64, varint_encode_int64, varint_decode_uint64, varint_decode_int64,
}

-- `varint_encode_int64((int64_t)ids[i] - (int64_t)ids[i-1], buf)` for each id, after the id `prev`.
pub encode_deltas : ℕ → List ℕ → List ℕ
encode_deltas prev [] = []
encode_deltas prev (id ∷ ids) = varint_encode_int64 (sub_ℕ id prev) ++ encode_deltas id ids

-- `diff_id[diff_i-1]`, where `diff_id[0]` is the id of the crawled page.
pub last_or : ℕ → List ℕ → ℕ
last_or d [] = d
last_or d (x ∷ xs) = last_or x xs

-- The number of links to other domains, those links, and the links inside the domain.
pub encode_links : ℕ → List ℕ → List ℕ → List ℕ
unfolding encode_deltas last_or
encode_links page diff same =
    varint_encode_uint64 (length diff)
    ++ (encode_deltas page diff ++ encode_deltas (last_or page diff) same)

-- `id += delta` on a uint64_t.
add_delta : ℕ → ℤ → ℕ
add_delta id delta = (id + pos_part delta + 2 ^ 64 - neg_part delta) % 2 ^ 64

-- The `while (pos < end)` loop. `skip` counts the bytes that `pos += read` has still to pass, and
-- the result is what the loop appends to `es->to`.
copy_loop : Bool → ℕ → ℕ → ℕ → ℕ → List ℕ → Outcome (List ℕ)
copy_loop only n_diff skip id n_to [] = done []
copy_loop only n_diff (suc skip) id n_to (x ∷ xs) = copy_loop only n_diff skip id n_to xs
copy_loop only n_diff zero id n_to (x ∷ xs) = elim (varint_decode_int64 (x ∷ xs)) [
  | done (delta, read) ↦
      let id' = add_delta id delta in
      let more = copy_loop only n_diff (read - 1) id' (n_to + 1) xs >>= λ ids. done (id' ∷ ids) in
      if only && (n_to + 1) == n_diff then done (id' ∷ []) else more
  | undefined ↦ undefined
  | past_end ↦ past_end
]

-- The fields of `PageDBLinkStream` that a call sets; `n_to` is the length of `to`.
pub record Copied : Type 0 where
  pub from : ℕ
  pub n_diff : ℕ
  pub to : List ℕ

pub page_db_link_stream_copy_links : Bool → ℕ → List ℕ → Outcome Copied
unfolding copy_loop add_delta
page_db_link_stream_copy_links only key val = do
  (n_diff, read) ← varint_decode_uint64 val
  to ← copy_loop only n_diff 0 key 0 (drop read val)
  done (record { from = key; n_diff = n_diff; to = to })
