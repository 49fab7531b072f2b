-- ===== src/PageDb/Links/Reset.antt =====
-- The link stream of page_db.c as `page_db_link_stream_new` and `page_db_link_stream_reset` leave it,
-- with its cursor and its state.
use aduana.Common.{
  ℕ, zero, suc, ◌<◌, ◌≡◌, inl, inr, refl, arith, ◌==◌, Bool, true, false, if◌then◌else◌, Option,
  none, some, List, [], ◌∷◌, ◌++◌, length,
}
use aduana.Util.Varint.{Outcome, done, undefined, past_end}
use aduana.PageDb.Txn.{page_db_error_internal}
use aduana.PageDb.Links.{Copied}
use aduana.PageDb.Links.Stream.{
  stream_state_next, stream_state_end, page_db_link_stream_next, links_in, links_from, links_left,
  IsDecoded, link_stream_next_lem,
}

-- The field `state`; here without the link that was handed on.
pub data State : Type 0 where
  at_init : State
  at_next : State
  at_end : State
  at_error : State

-- What `mdb_dbi_open` answers: the table, MDB_NOTFOUND, or another code.
pub data Opened : Type 0 where
  found : List (ℕ × List ℕ) → Opened
  missing : Opened
  refused : Opened

-- The answers to one call of `page_db_link_stream_open_cursor`: whether the transaction begins, the
-- table, and whether the cursor is opened.
pub record Opening : Type 0 where
  pub begins : Bool
  pub opened : Opened
  pub cursor : Bool

-- `cur` is the rows that the cursor has not read, `none` where it is NULL; `to` is the links behind
-- `i_to`. `error` is the code of the database.
pub record DbLinkStream : Type 0 where
  pub cur : Option (List (ℕ × List ℕ))
  pub from : ℕ
  pub to : List ℕ
  pub state : State
  pub error : ℕ

-- `page_db_set_error`: the first error stays.
unfoldable pub set_error : ℕ → ℕ
set_error error = if error == 0 then page_db_error_internal else error

-- From the label `mdb_error` on.
unfoldable pub open_failed : DbLinkStream → DbLinkStream
open_failed es = record es { cur = none; state = at_error; error = set_error es.error }

unfoldable pub open_table : Opened → Bool → DbLinkStream → DbLinkStream
open_table (found rows) true es = record es { cur = some rows; state = at_init }
open_table (found rows) false es = open_failed es
open_table missing cursor es = record es { cur = none; state = at_end }
open_table refused cursor es = open_failed es

-- The code that is returned is that of the database.
unfoldable pub page_db_link_stream_open_cursor : Opening → DbLinkStream → DbLinkStream
page_db_link_stream_open_cursor o es =
    if o.begins then open_table o.opened o.cursor es else open_failed es

-- The links that were read before and not handed on stay.
unfoldable pub page_db_link_stream_reset : Opening → DbLinkStream → State × DbLinkStream
page_db_link_stream_reset o es =
    let es' = page_db_link_stream_open_cursor o (record es { cur = none }) in
    if es'.error == 0 then (es'.state, es') else (at_error, es')

-- `calloc` and a reset, in a database with this error; with the code that is returned.
unfoldable pub page_db_link_stream_new : Opening → ℕ → ℕ × DbLinkStream
page_db_link_stream_new o error =
    let (state, es) =
      page_db_link_stream_reset o
        (record { cur = none; from = 0; to = []; state = at_init; error = error }) in
    let code : ℕ = elim state [
      | at_error ↦ set_error es.error
      | at_init ↦ es.error
      | at_next ↦ es.error
      | at_end ↦ es.error
    ] in
    (code, record es { error = code })

-- What `page_db_link_stream_next` does where there is a cursor: the link that it hands on.
unfoldable pub next_with :
    Bool → DbLinkStream → List (ℕ × List ℕ) → Outcome (Option (ℕ × ℕ) × DbLinkStream)
next_with only es rows =
    elim (page_db_link_stream_next only (record { from = es.from; to = es.to; rows = rows })) [
      | done (stream_state_next from to s) ↦ done (
        some (from, to),
        record es { cur = some s.rows; from = s.from; to = s.to; state = at_next },
      )
      | done stream_state_end ↦ done (none, record es { cur = some []; to = []; state = at_end })
      | undefined ↦ undefined
      | past_end ↦ past_end
    ]

-- `page_db_link_stream_next` on a stream with a cursor or without.
unfoldable pub next : Bool → DbLinkStream → Outcome (Option (ℕ × ℕ) × DbLinkStream)
next only es = elim es.cur [ none ↦ done (none, es) | some rows ↦ next_with only es rows ]

-- A reader of the stream, up to its end, with fuel.
unfoldable pub read_all : ℕ → Bool → DbLinkStream → Option (List (ℕ × ℕ))
read_all zero only es = none
read_all (suc fuel) only es = elim (next only es) [
  | done (none, es') ↦ some []
  | done (some link, es') ↦ elim (read_all fuel only es') [
    | none ↦ none
    | some links ↦ some (link ∷ links)
  ]
  | undefined ↦ none
  | past_end ↦ none
]

module _ (only : Bool) (decode : ℕ → List ℕ → Copied) where
  abbrev pub reading : List (ℕ × List ℕ) → ℕ → List ℕ → State → ℕ → DbLinkStream
  reading rows from to state error = record {
    cur = some rows;
    from = from;
    to = to;
    state = state;
    error = error;
  }

  read_left :
      (fuel : ℕ) (rows : List (ℕ × List ℕ)) (from : ℕ) (to : List ℕ) (state : State) (error : ℕ)
      → IsDecoded only decode rows
      → length (links_left only decode (record { from = from; to = to; rows = rows })) < fuel
      → read_all fuel only (reading rows from to state error)
        ≡ some (links_left only decode (record { from = from; to = to; rows = rows }))
  unfolding read_all next next_with
  read_left zero rows from to state error d h = absurd (omega (arith, h))
  read_left (suc fuel) rows from to state error d h =
      elim (link_stream_next_lem only decode (record { from = from; to = to; rows = rows }) d) [
        | inl (e, l) ↦ rw (read_all, next, next_with, e, l) refl
        | inr (f, t, es, e, d', l) ↦
            let h' = rw l at h in
            rw
              (
                read_all,
                next,
                next_with,
                e,
                l,
                read_left fuel es.rows es.from es.to at_next error d' (omega (arith, h')),
              )
              refl
      ]

  -- In a database with no error, where the table "links" is opened and each of its values can be
  -- decoded: a stream yields after a reset the links of the page that it has read last and not handed
  -- on, and then the links of the table, each once and in the order of the table, and ends.
  pub read_all-page_db_link_stream_reset :
      (fuel : ℕ) (es : DbLinkStream) (rows : List (ℕ × List ℕ))
      → es.error ≡ 0
      → IsDecoded only decode rows
      → length (links_from es.from es.to ++ links_in only decode rows) < fuel
      → let (state, es') =
          page_db_link_stream_reset
            (record { begins = true; opened = found rows; cursor = true })
            es in
        (state ≡ at_init)
        × (read_all fuel only es' ≡ some (links_from es.from es.to ++ links_in only decode rows))
  unfolding page_db_link_stream_reset page_db_link_stream_open_cursor open_table links_left
  read_all-page_db_link_stream_reset fuel es rows e d h =
      rw e (refl, read_left fuel rows es.from es.to at_init 0 d h)
