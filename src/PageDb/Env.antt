-- ===== src/PageDb/Env.antt =====
-- What page_db.c calls and what it works on: the tables of LMDB, the compressor and the hash
-- function, as an interface.
use aduana.Common.{ℕ, ◌^◌, ◌<◌, ◌≡◌, Bool, ◌==◌, if◌then◌else◌, List, Option, some}
use aduana.DomainTemp.{Float}
use aduana.PageDb.Smaz.{Smaz}

-- A table of LMDB with numbers for keys, as one transaction sees it: `get` is `mdb_cursor_get` with
-- MDB_SET, where `none` is MDB_NOTFOUND, and `put` is `mdb_cursor_put`.
pub record Table (V : Type 0) : Type 1 where
  pub State : Type 0
  pub get : State → ℕ → Option V
  pub put : State → ℕ → V → State
  -- A key that was put is found, and the others stay as they are.
  pub get-put :
      (t : State) (key key' : ℕ) (v : V)
      → get (put t key v) key' ≡ (if key == key' then some v else get t key')

pub record Env : Type 1 where
  pub smaz : Smaz
  pub float : Float
  -- `XXH32(text, len, 0)`
  pub xxh32 : List ℕ → ℕ
  pub xxh32-lt : (text : List ℕ) → xxh32 text < 2 ^ 32
  pub hash2info_db : Table (List ℕ)
  pub hash2idx_db : Table ℕ
  pub links_db : Table (List ℕ)
  pub info_db : Table ℕ
  -- The n-th call of LMDB in an operation fails.
  pub fault : ℕ → Bool
