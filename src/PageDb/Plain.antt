-- ===== src/PageDb/Plain.antt =====
-- A compressor, tables and an empty database, for the tests.
use aduana.Common.{
  ℕ, ◌+◌, ◌%◌, ◌^◌, ◌≡◌, refl, arith, false, ltb, leb, ◌==◌, if◌then◌else◌, List, Option, none,
  some, length, Bool-cases, inl, inr,
}
use aduana.DomainTemp.{Float}
use aduana.PageDb.Env.{Table, Env}
use aduana.PageDb.Add.{PageDb}
use aduana.PageDb.Add.Consistent.{IsConsistent}
use aduana.PageDb.Smaz.{Smaz}

-- A compressor that leaves every text as it is.
abbrev pub copy_within : List ℕ → ℕ → Option (List ℕ)
copy_within text room = if leb (length text) room then some text else none

pub copy_within_twice :
    (text out : List ℕ) (room room' : ℕ)
    → copy_within text room ≡ some out
    → copy_within out room' ≡ (if leb (length text) room' then some text else none)
copy_within_twice text out room room' e = elim (Bool-cases (leb (length text) room)) [
  | inl h ↦ ground (arith, h, e)
  | inr h ↦ ground (arith, h, e)
]

abbrev pub plain_smaz : Smaz
plain_smaz = record {
  compress = copy_within;
  decompress = copy_within;
  decompress-compress = copy_within_twice;
}

abbrev pub function_table : (V : Type 0) → Table V
function_table V = record {
  State = ℕ → Option V;
  get = λ t. t;
  put = λ t key v key'. if key == key' then some v else t key';
  get-put = λ t key key' v. refl;
}

-- Numbers of hundredths.
abbrev pub hundredths : Float
hundredths = record {
  Carrier = ℕ;
  nought = 0;
  one = 100;
  less = ltb;
  leq = leb;
  plus_one = λ x. x + 100;
  times = λ x y. x;
  decay = λ t time window. 100;
  of_bits = λ b. b;
  of_time = λ t. t;
}

abbrev pub quiet : Env
quiet = record {
  smaz = plain_smaz;
  float = hundredths;
  xxh32 = λ text. length text % 2 ^ 32;
  xxh32-lt = λ text. omega arith;
  hash2info_db = function_table (List ℕ);
  hash2idx_db = function_table ℕ;
  links_db = function_table (List ℕ);
  info_db = function_table ℕ;
  fault = λ k. false;
}

abbrev pub empty_db : PageDb quiet
empty_db = record {
  hash2info = λ h. none;
  hash2idx = λ h. none;
  links = λ i. none;
  info = λ k. some 0;
  domain_temp = none;
  error = 0;
}

pub empty-IsConsistent : IsConsistent quiet empty_db.hash2info empty_db.hash2idx 0
empty-IsConsistent = record {
  bound = λ h id e. ground (arith, e);
  unique = λ h h' id e e'. ground (arith, e);
  covered = λ id lt. absurd (omega (arith, lt));
  paged = λ h. (λ e. refl, λ e. refl);
  readable = λ h b e. absurd (ground (arith, e));
}
