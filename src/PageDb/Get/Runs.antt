-- ===== src/PageDb/Get/Runs.antt =====
-- A database of one page, whose hash is 5.
use aduana.Common.{ℕ, ◌≡◌, ◌⊎◌, inl, inr, refl, true, ◌==◌, Bool-cases, some, List, [], ◌∷◌, arith}
use aduana.MmapArray.{is_ok, System, MmapArray, mmap_array_new, read}
use aduana.MmapArray.Plain.{plain_system}
use aduana.PageDb.Plain.{plain_smaz, quiet, empty_db, empty-IsConsistent}
use aduana.PageDb.PageInfo.{PageInfo, page_info_dump, page_info_dump_get_score}
use aduana.PageDb.PageInfo.Stored.{IsShort, IsStorable, load-dump}
use aduana.PageDb.Add.{PageDb}
use aduana.PageDb.Add.Consistent.{IsConsistent, info_at, idx_at, new-IsConsistent}
use aduana.PageDb.Get.{answer, page_db_get_scores}
use aduana.PageDb.Get.Pages.{IsFound, IsMissing, get_info-get_idx}
use aduana.PageDb.Get.Scores.{Has, page_db_get_scores_lem}

abbrev pi : PageInfo
pi = record {
  url = 97 ∷ [];
  linked_from = 0;
  depth = 1;
  first_crawl = 0;
  last_crawl = 0;
  n_changes = 0;
  n_crawls = 0;
  score = 7;
  content_hash_length = 0;
  content_hash = [];
}

pi-IsShort : IsShort plain_smaz pi.url (97 ∷ [])
pi-IsShort = record {
  compressed = refl;
  text = omega arith;
  output = omega arith;
  block = omega arith;
}

pi-IsStorable : IsStorable pi
pi-IsStorable = record {
  score = omega arith;
  linked_from = omega arith;
  depth = omega arith;
  n_crawls = omega arith;
  first_crawl = omega arith;
  last_crawl = omega arith;
  n_changes = omega arith;
  hash_length = omega arith;
  hash = refl;
}

written : (bytes : List ℕ) × (page_info_dump plain_smaz pi ≡ some bytes)
written =
    let (bytes, dumped, _, _, _) = load-dump plain_smaz pi (97 ∷ []) pi-IsShort pi-IsStorable in
    (bytes, dumped)

abbrev db : PageDb quiet
db = record empty_db {
  hash2info = quiet.hash2info_db.put empty_db.hash2info 5 written.0;
  hash2idx = quiet.hash2idx_db.put empty_db.hash2idx 5 0;
  info = λ k. some 1;
}

db-IsConsistent : IsConsistent quiet db.hash2info db.hash2idx 1
db-IsConsistent =
    new-IsConsistent quiet empty_db.hash2info empty_db.hash2idx 0 empty-IsConsistent 5 written.0
      refl
      (record {
        pi = pi;
        curl = 97 ∷ [];
        short = pi-IsShort;
        storable = pi-IsStorable;
        written = written.1;
      })

get_info-get_idx_example :
    IsFound quiet db 1 db-IsConsistent 5 ⊎ IsMissing quiet db 1 db-IsConsistent 5
get_info-get_idx_example = get_info-get_idx quiet db 1 db-IsConsistent 5 (λ k. refl)

abbrev sys : System ℕ
unfolding plain_system
sys = plain_system 0

all_rows :
    (hash : ℕ) (val : List ℕ)
    → info_at quiet db.hash2info hash ≡ some val
    → Has quiet sys db (hash, val) ((5, written.0) ∷ [])
all_rows hash val e = elim (Bool-cases (5 == hash)) [
  | inl here ↦
      let h : 5 ≡ hash = ground (arith, here) in
      let v : some written.0 ≡ some val = rw here at e in inl (cc (h, v))
  | inr there ↦ cc (rw there at e)
]

made : is_ok (mmap_array_new sys true 1).0 ≡ true
unfolding mmap_array_new sys
made = refl

page_db_get_scores_lem_example :
    (scores : MmapArray ℕ) × (page_db_get_scores quiet sys db ((5, written.0) ∷ [])
      ≡ answer 0 (some scores) db)
    × ((hash id score : ℕ) (val : List ℕ)
        → idx_at quiet db.hash2idx hash ≡ some id
        → info_at quiet db.hash2info hash ≡ some val
        → page_info_dump_get_score plain_smaz val ≡ some score
        → read scores id ≡ some score)
page_db_get_scores_lem_example =
    page_db_get_scores_lem quiet sys db 1 db-IsConsistent (λ k. refl) ((5, written.0) ∷ []) refl
      made (refl, tt) all_rows
