-- ===== src/PageDb/Links/Stream.antt =====
-- `page_db_link_stream_next` of page_db.c: the links of all pages, one at a time. LMDB does not fail.
use aduana.Common.{ℕ, ◌≡◌, ◌⊎◌, inl, inr, refl, Bool, List, [], ◌∷◌, ◌++◌, All}
use aduana.Util.Varint.{Outcome, done, undefined, past_end}
use aduana.PageDb.Links.{Copied, page_db_link_stream_copy_links}

-- The links from `from` that are not handed on yet, and the rows that the cursor has not read.
pub record LinkStream : Type 0 where
  pub from : ℕ
  pub to : List ℕ
  pub rows : List (ℕ × List ℕ)

-- `stream_state_next` with the link, or `stream_state_end`.
pub data StreamState : Type 0 where
  stream_state_next : ℕ → ℕ → LinkStream → StreamState
  stream_state_end : StreamState

-- The loop that skips pages without links.
stream_loop : Bool → ℕ → List ℕ → List (ℕ × List ℕ) → Outcome StreamState
stream_loop only from (id ∷ to) rows =
    done (stream_state_next from id (record { from = from; to = to; rows = rows }))
stream_loop only from [] [] = done stream_state_end
stream_loop only from [] ((key, val) ∷ rows) = elim (page_db_link_stream_copy_links only key val) [
  | done copied ↦ stream_loop only copied.from copied.to rows
  | undefined ↦ undefined
  | past_end ↦ past_end
]

pub page_db_link_stream_next : Bool → LinkStream → Outcome StreamState
unfolding stream_loop
page_db_link_stream_next only es = stream_loop only es.from es.to es.rows

-- The links of one page.
unfoldable pub links_from : ℕ → List ℕ → List (ℕ × ℕ)
links_from from [] = []
links_from from (id ∷ to) = (from, id) ∷ links_from from to

module _ (only : Bool) (decode : ℕ → List ℕ → Copied) where
  -- The links of the rows, in the order of the rows.
  unfoldable pub links_in : List (ℕ × List ℕ) → List (ℕ × ℕ)
  unfolding links_from
  links_in [] = []
  links_in ((key, val) ∷ rows) =
      links_from (decode key val).from (decode key val).to ++ links_in rows

  -- All links that the stream will hand on.
  unfoldable pub links_left : LinkStream → List (ℕ × ℕ)
  unfolding links_from links_in
  links_left es = links_from es.from es.to ++ links_in es.rows

  abbrev pub IsDecoded : List (ℕ × List ℕ) → Type 0
  IsDecoded rows =
      All (λ row. page_db_link_stream_copy_links only row.0 row.1 ≡ done (decode row.0 row.1)) rows

  abbrev pub Handed : Outcome StreamState → List (ℕ × ℕ) → Type 0
  Handed result left =
      ((result ≡ done stream_state_end) × (left ≡ []))
      ⊎ ((from : ℕ) × (to : ℕ) × (es : LinkStream) × (result ≡ done (stream_state_next from to es))
          × IsDecoded es.rows
          × (left ≡ (from, to) ∷ links_left es))

  stream_loop_lem :
      (from : ℕ) (to : List ℕ) (rows : List (ℕ × List ℕ))
      → IsDecoded rows
      → Handed (stream_loop only from to rows) (links_from from to ++ links_in rows)
  unfolding stream_loop links_left links_in links_from
  stream_loop_lem from (id ∷ to) rows ok =
      inr (from, id, record { from = from; to = to; rows = rows }, refl, ok, refl)
  stream_loop_lem from [] [] ok = inl (refl, refl)
  stream_loop_lem from [] ((key, val) ∷ rows) ok =
      rw (stream_loop, ok.0) (stream_loop_lem (decode key val).from (decode key val).to rows ok.1)

  -- Where every row can be decoded the stream hands on the first of the links that are left, skipping
  -- pages without links, and keeps the others, which can be decoded too; it ends exactly where none is left.
  pub link_stream_next_lem :
      (es : LinkStream)
      → IsDecoded es.rows
      → Handed (page_db_link_stream_next only es) (links_left es)
  unfolding page_db_link_stream_next links_left
  link_stream_next_lem es ok = stream_loop_lem es.from es.to es.rows ok
