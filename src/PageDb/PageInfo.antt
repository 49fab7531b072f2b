-- ===== src/PageDb/PageInfo.antt =====
-- The `PageInfo` of page_db.c: how it is made, brought up to date, stored and read back.
-- A float or double is its bit pattern, a text or hash the list of its bytes. Memory is never short.
pub mod Stored
pub mod Update
use aduana.Common.{
  leb, ℕ, zero, suc, ◌+◌, ◌*◌, ◌%◌, ◌^◌, Bool, true, false, ltb, ◌==◌, if◌then◌else◌, List, [], ◌∷◌,
  ◌++◌, Option, none, some, length, take,
}
use aduana.Common.Bytes.{le_bytes, Reader, ◌>>=◌, pure, read_le, read_bytes}
use aduana.PageDb.Smaz.{Smaz}

pub record LinkInfo : Type 0 where
  pub url : List ℕ
  pub score : ℕ

pub record CrawledPage : Type 0 where
  pub url : List ℕ
  pub links : List LinkInfo
  pub time : ℕ
  pub score : ℕ
  pub content_hash : List ℕ
  pub content_hash_length : ℕ

pub record PageInfo : Type 0 where
  pub url : List ℕ
  pub linked_from : ℕ
  pub depth : ℕ
  pub first_crawl : ℕ
  pub last_crawl : ℕ
  pub n_changes : ℕ
  pub n_crawls : ℕ
  pub score : ℕ
  pub content_hash_length : ℕ
  pub content_hash : List ℕ

-- `calloc` leaves the other fields zero.
unfoldable pub page_info_new_link : List ℕ → ℕ → ℕ → ℕ → PageInfo
page_info_new_link url linked_from depth score = record {
  url = url;
  linked_from = linked_from;
  depth = depth;
  first_crawl = 0;
  last_crawl = 0;
  n_changes = 0;
  n_crawls = 0;
  score = score;
  content_hash_length = 0;
  content_hash = [];
}

-- `memcpy` of the first `n` bytes.
unfoldable pub page_info_new_crawled : CrawledPage → PageInfo
unfolding page_info_new_link
page_info_new_crawled cp = record (page_info_new_link cp.url 0 0 cp.score) {
  first_crawl = cp.time;
  last_crawl = cp.time;
  n_crawls = 1;
  content_hash_length = cp.content_hash_length;
  content_hash = take cp.content_hash_length cp.content_hash;
}

-- The loop over the bytes of two hashes of one length: at the first difference the tail is copied
-- and the change is counted.
merge_hash : List ℕ → List ℕ → List ℕ × Bool
merge_hash [] ys = ([], false)
merge_hash (x ∷ xs) [] = (x ∷ xs, false)
merge_hash (x ∷ xs) (y ∷ ys) =
    let (rest, changed) = merge_hash xs ys in if x == y then (x ∷ rest, changed) else (y ∷ ys, true)

-- `pi->n_changes++` on a uint64_t, where the content changed.
bump : Bool → ℕ → ℕ
bump changed n = if changed then (n + 1) % 2 ^ 64 else n

-- The content hash after an update, and whether it counts as a change.
new_hash : PageInfo → CrawledPage → List ℕ × Bool
unfolding merge_hash
new_hash pi cp =
    if pi.content_hash_length == cp.content_hash_length
    then merge_hash pi.content_hash (take cp.content_hash_length cp.content_hash)
    else (take cp.content_hash_length cp.content_hash, true)

unfoldable pub page_info_update : PageInfo → CrawledPage → PageInfo
unfolding new_hash bump
page_info_update pi cp =
    let (hash, changed) = new_hash pi cp in
    record pi {
      content_hash_length = cp.content_hash_length;
      content_hash = hash;
      n_changes = bump changed pi.n_changes;
      last_crawl = cp.time;
      first_crawl = if pi.n_crawls == 0 then cp.time else pi.first_crawl;
      score = cp.score;
      n_crawls = (pi.n_crawls + 1) % 2 ^ 64;
    }

-- `PAGE_INFO_WRITE` of the fields behind the URL.
dump_times : PageInfo → List ℕ
dump_times pi =
    if ltb 1 pi.n_crawls then le_bytes 8 pi.last_crawl ++ le_bytes 8 pi.n_changes else []

dump_crawled : PageInfo → List ℕ
unfolding dump_times
dump_crawled pi =
    if ltb 0 pi.n_crawls
    then le_bytes 8 pi.first_crawl
      ++ (dump_times pi
          ++ (le_bytes 8 pi.content_hash_length ++ take pi.content_hash_length pi.content_hash))
    else []

dump_fields : PageInfo → List ℕ
unfolding dump_crawled
dump_fields pi =
    le_bytes 4 pi.score
    ++ (le_bytes 8 pi.linked_from
        ++ (le_bytes 8 pi.depth ++ (le_bytes 8 pi.n_crawls ++ dump_crawled pi)))

-- `PAGE_INFO_READ` of the same fields, into a structure that `calloc` has cleared.
load_times : ℕ → ℕ → Reader (ℕ × ℕ)
load_times n_crawls first_crawl =
    if ltb 1 n_crawls
    then (do last_crawl ← read_le 8; n_changes ← read_le 8; pure (last_crawl, n_changes))
    else pure (first_crawl, 0)

load_crawled : PageInfo → Reader PageInfo
unfolding load_times
load_crawled pi =
    if ltb 0 pi.n_crawls
    then (do
      first_crawl ← read_le 8
      (last_crawl, n_changes) ← load_times pi.n_crawls first_crawl
      content_hash_length ← read_le 8
      content_hash ← read_bytes content_hash_length
      pure (record pi {
        first_crawl = first_crawl;
        last_crawl = last_crawl;
        n_changes = n_changes;
        content_hash_length = content_hash_length;
        content_hash = content_hash;
      }))
    else pure pi

load_fields : List ℕ → Reader PageInfo
unfolding load_crawled
load_fields url = do
  score ← read_le 4
  linked_from ← read_le 8
  depth ← read_le 8
  n_crawls ← read_le 8
  load_crawled (record (page_info_new_link url linked_from depth score) { n_crawls = n_crawls })

module _ (smaz : Smaz) where
  -- The block has room for four times the text, but the compressed text has the two bytes of its size
  -- in front: whether the writes stay in the block.
  unfoldable pub fits_block : PageInfo → Bool
  fits_block pi = elim (smaz.compress pi.url (4 * length pi.url)) [
    | none ↦ true
    | some curl ↦ leb (2 + length curl) (4 * length pi.url)
  ]

  -- The bytes, where they fit the block. `none` is the -1 for a text that four times its size does not
  -- hold.
  unfoldable pub page_info_dump : PageInfo → Option (List ℕ)
  unfolding dump_fields
  page_info_dump pi = elim (smaz.compress pi.url (4 * length pi.url)) [
    | none ↦ none
    | some curl ↦ some (le_bytes 2 (length curl) ++ (curl ++ dump_fields pi))
  ]

  -- The loop that doubles `url_size`, an unsigned short, until the text and its end fit.
  pub load_url : ℕ → ℕ → List ℕ → Option (List ℕ)
  load_url zero url_size curl = none
  load_url (suc fuel) url_size curl =
      let again = load_url fuel (2 * url_size % 2 ^ 16) curl in
      elim (smaz.decompress curl url_size) [
        | none ↦ again
        | some url ↦ if ltb (length url) url_size then some url else again
      ]

  -- A doubling below 2 ^ 16 can be made sixteen times at most.
  unfoldable pub page_info_load : List ℕ → Option PageInfo
  unfolding load_url load_fields
  page_info_load bytes = elim (read_le 2 bytes) [
    | none ↦ none
    | some (curl_size, rest) ↦ elim (read_bytes curl_size rest) [
      | none ↦ none
      | some (curl, fields) ↦ elim (load_url 17 ((4 * curl_size + 1) % 2 ^ 16) curl) [
        | none ↦ none
        | some url ↦ elim (load_fields url fields) [ none ↦ none | some (pi, _) ↦ some pi ]
      ]
    ]
  ]

  -- `page_info_dump_get_score`: the score alone.
  unfoldable pub page_info_dump_get_score : List ℕ → Option ℕ
  page_info_dump_get_score bytes = elim (read_le 2 bytes) [
    | none ↦ none
    | some (curl_size, rest) ↦ elim (read_bytes curl_size rest) [
      | none ↦ none
      | some (_, fields) ↦ elim (read_le 4 fields) [ none ↦ none | some (score, _) ↦ some score ]
    ]
  ]
