-- ===== src/PageDb/PageInfo/Stored.antt =====
-- `page_info_load` reads back what `page_info_dump` wrote.
use aduana.Common.{
  ℕ, zero, suc, ◌+◌, ◌*◌, ◌%◌, ◌^◌, ◌≤◌, ◌<◌, ◌≡◌, refl, ap, arith, true, ltb, if◌then◌else◌, List,
  [], ◌∷◌, ◌++◌, append_assoc, append-nil, none, some, length, take, Bool-cases, inl, inr,
}
use aduana.Common.Bytes.{le_bytes, ◌>>=◌, read_le, read_bytes, read_le-le_bytes, read_bytes-append}
use aduana.PageDb.Smaz.{Smaz}
use native.Mathlib.Nat.{pow-suc}
use native.Mathlib.Decide.{dec_lt}
use aduana.PageDb.PageInfo.{
  PageInfo, page_info_new_link, dump_times, dump_crawled, dump_fields, load_times, load_crawled,
  load_fields, page_info_dump, fits_block, load_url, page_info_load, page_info_dump_get_score,
}

-- Every field fits the bytes that it is stored in, and the hash has its length.
pub record IsStorable (pi : PageInfo) : Type 0 where
  pub score : pi.score < 2 ^ 32
  pub linked_from : pi.linked_from < 2 ^ 64
  pub depth : pi.depth < 2 ^ 64
  pub n_crawls : pi.n_crawls < 2 ^ 64
  pub first_crawl : pi.first_crawl < 2 ^ 64
  pub last_crawl : pi.last_crawl < 2 ^ 64
  pub n_changes : pi.n_changes < 2 ^ 64
  pub hash_length : pi.content_hash_length < 2 ^ 64
  pub hash : length pi.content_hash ≡ pi.content_hash_length

-- What the database keeps of a page: of an uncrawled page no crawl data, of a page that was crawled
-- once a single time and no changes.
unfoldable pub stored : PageInfo → PageInfo
stored pi =
    if ltb 1 pi.n_crawls
    then pi
    else if ltb 0 pi.n_crawls
    then record pi { last_crawl = pi.first_crawl; n_changes = 0 }
    else record (page_info_new_link pi.url pi.linked_from pi.depth pi.score) {
      n_crawls = pi.n_crawls;
    }

pub take_whole {ℓ} : {A : Type ℓ} (n : ℕ) (xs : List A) → length xs ≡ n → take n xs ≡ xs
take_whole zero [] h = refl
take_whole zero (x ∷ xs) h = absurd (omega arith)
take_whole (suc n) [] h = refl
take_whole (suc n) (x ∷ xs) h = ap (◌∷◌ x) (take_whole n xs (omega arith))

read_hash :
    (n : ℕ) (xs rest : List ℕ) → length xs ≡ n → read_bytes n (take n xs ++ rest) ≡ some (xs, rest)
read_hash n xs rest h = rw (take_whole n xs h, ← h, read_bytes-append xs rest)

-- A number in front of more of the same value, with something behind that.
read_front :
    (k n : ℕ) (xs rest : List ℕ)
    → n < 256 ^ k
    → read_le k ((le_bytes k n ++ xs) ++ rest) ≡ some (n, xs ++ rest)
read_front k n xs rest h = rw append_assoc (read_le-le_bytes k n (xs ++ rest) h)

-- A page with the fields that every page stores, and the others cleared.
abbrev cleared : PageInfo → PageInfo
cleared pi = record (page_info_new_link pi.url pi.linked_from pi.depth pi.score) {
  n_crawls = pi.n_crawls;
}

load_times-dump_times :
    (pi : PageInfo) (xs rest : List ℕ)
    → IsStorable pi
    → load_times pi.n_crawls pi.first_crawl ((dump_times pi ++ xs) ++ rest)
      ≡ some (
        (if ltb 1 pi.n_crawls then (pi.last_crawl, pi.n_changes) else (pi.first_crawl, 0)),
        xs ++ rest,
      )
unfolding load_times dump_times
load_times-dump_times pi xs rest s = elim (Bool-cases (ltb 1 pi.n_crawls)) [
  | inl more ↦ rw (
    more,
    append_assoc (le_bytes 8 pi.last_crawl),
    read_front 8 pi.last_crawl (le_bytes 8 pi.n_changes ++ xs) rest s.last_crawl,
    read_front 8 pi.n_changes xs rest s.n_changes,
    ◌>>=◌,
  )
  | inr once ↦ rw once refl
]

load_crawled-dump_crawled :
    (pi : PageInfo) (rest : List ℕ)
    → IsStorable pi
    → load_crawled (cleared pi) (dump_crawled pi ++ rest) ≡ some (stored pi, rest)
unfolding load_crawled dump_crawled stored page_info_new_link
load_crawled-dump_crawled pi rest s = elim (Bool-cases (ltb 0 pi.n_crawls)) [
  | inr never ↦ rw never (ground arith)
  | inl crawled ↦
      let hash = take pi.content_hash_length pi.content_hash in
      let tail = le_bytes 8 pi.content_hash_length ++ hash in
      rw crawled (
        ground (
          arith,
          read_front 8 pi.first_crawl (dump_times pi ++ tail) rest s.first_crawl,
          load_times-dump_times pi tail rest s,
          read_front 8 pi.content_hash_length hash rest s.hash_length,
          read_hash pi.content_hash_length pi.content_hash rest s.hash,
        ))
]

load_fields-dump_fields :
    (pi : PageInfo)
    → IsStorable pi
    → load_fields pi.url (dump_fields pi ++ []) ≡ some (stored pi, [])
unfolding load_fields dump_fields
load_fields-dump_fields pi s = ground (
  arith,
  read_front 4 pi.score
      (le_bytes 8 pi.linked_from
        ++ (le_bytes 8 pi.depth ++ (le_bytes 8 pi.n_crawls ++ dump_crawled pi)))
      [] s.score,
  read_front 8 pi.linked_from (le_bytes 8 pi.depth ++ (le_bytes 8 pi.n_crawls ++ dump_crawled pi))
      [] s.linked_from,
  read_front 8 pi.depth (le_bytes 8 pi.n_crawls ++ dump_crawled pi) [] s.depth,
  read_front 8 pi.n_crawls (dump_crawled pi) [] s.n_crawls,
  load_crawled-dump_crawled pi [] s,
)

read_score :
    (pi : PageInfo)
    → IsStorable pi
    → (rest : List ℕ) × (read_le 4 (dump_fields pi) ≡ some (pi.score, rest))
unfolding dump_fields
read_score pi s =
    let rest =
      le_bytes 8 pi.linked_from
      ++ (le_bytes 8 pi.depth ++ (le_bytes 8 pi.n_crawls ++ dump_crawled pi)) in
    (rest, read_le-le_bytes 4 pi.score rest s.score)

module _ (smaz : Smaz) where
  -- Texts below 2 ^ 15 bytes are found before the doubled size would pass an unsigned short.
  load_url-eq-some :
      (fuel url_size room : ℕ) (url curl : List ℕ)
      → smaz.compress url room ≡ some curl
      → length url < 2 ^ 15
      → url_size < 2 ^ 16
      → 2 ^ 15 < url_size * 2 ^ fuel
      → load_url smaz (suc fuel) url_size curl ≡ some url
  unfolding load_url
  load_url-eq-some zero url_size room url curl c short fits big =
      ground (arith, smaz.decompress-compress url curl room url_size c)
  load_url-eq-some (suc fuel) url_size room url curl c short fits big =
      elim (dec_lt (length url) url_size) [
        | yes enough ↦ ground (arith, smaz.decompress-compress url curl room url_size c)
        | no small ↦ ground (
          arith,
          smaz.decompress-compress url curl room url_size c,
          load_url-eq-some fuel (2 * url_size % 2 ^ 16) room url curl c short (omega arith)
              (doubled url_size fuel (omega arith) big),
        )
      ]
    where
      doubled : (u f : ℕ) → u < 2 ^ 15 → 2 ^ 15 < u * 2 ^ suc f → 2 ^ 15 < 2 * u % 2 ^ 16 * 2 ^ f
      doubled u f h big =
          omega
            (arith, ap (λ (t : ℕ). t * 2 ^ f) (no_wrap u h), ap (λ (t : ℕ). u * t) (pow-suc 2 f))
        where
          no_wrap : (u : ℕ) → u < 2 ^ 15 → 2 * u % 2 ^ 16 ≡ 2 * u
          no_wrap u h = omega arith

  -- For a text of 2 ^ 16 - 1 bytes or more the loop that makes room for it never ends.
  load_url_long :
      (fuel url_size room : ℕ) (url curl : List ℕ)
      → smaz.compress url room ≡ some curl
      → 2 ^ 16 ≤ length url + 1
      → url_size < 2 ^ 16
      → load_url smaz fuel url_size curl ≡ none
  unfolding load_url
  load_url_long zero url_size room url curl c long fits = refl
  load_url_long (suc fuel) url_size room url curl c long fits = ground (
    arith,
    smaz.decompress-compress url curl room url_size c,
    load_url_long fuel (2 * url_size % 2 ^ 16) room url curl c long (omega arith),
  )

  -- A text that the compressor takes, short enough for the two unsigned shorts.
  pub record IsShort (url curl : List ℕ) : Type 0 where
    pub compressed : smaz.compress url (4 * length url) ≡ some curl
    pub text : length url < 2 ^ 15
    pub output : 4 * length curl + 1 < 2 ^ 16
    pub block : 2 + length curl ≤ 4 * length url

  -- For a page whose fields fit their bytes and whose URL has fewer than 2 ^ 15 bytes, and in its
  -- compressed form fewer than 2 ^ 14 and, with the two bytes of the size, no more than four times its
  -- own: the writes of page_info_dump stay in its block, and reading back what is stored gives what the
  -- database keeps of the page: the page itself but for the crawl data of an uncrawled page, and the
  -- last time and the changes of one that was crawled once.
  pub load-dump :
      (pi : PageInfo) (curl : List ℕ)
      → IsShort pi.url curl
      → IsStorable pi
      → (bytes : List ℕ) × (page_info_dump smaz pi ≡ some bytes)
        × (fits_block smaz pi ≡ true)
        × (page_info_load smaz bytes ≡ some (stored pi))
        × (page_info_dump_get_score smaz bytes ≡ some pi.score)
  unfolding page_info_dump page_info_load page_info_dump_get_score fits_block
  load-dump pi curl short s =
      let fields = dump_fields pi in
      let size = read_le-le_bytes 2 (length curl) (curl ++ fields) (omega arith) in
      let text = read_bytes-append curl fields in
      (
        le_bytes 2 (length curl) ++ (curl ++ fields),
        ground (arith, short.compressed),
        ground (arith, short.compressed, short.block),
        ground (
          arith,
          size,
          text,
          load_url-eq-some 16 ((4 * length curl + 1) % 2 ^ 16) (4 * length pi.url) pi.url curl
              short.compressed short.text (omega arith) (omega arith),
          load_fields-dump_fields pi s,
          append-nil fields,
        ),
        ground (arith, size, text, read_score pi s),
      )
