-- ===== src/Common/Bytes.antt =====
-- Little-endian numbers in byte sequences, and readers: functions that take values off the front of
-- a byte sequence, or fail where it is too short.
use Prim.Native.Nat.{ℕ, zero, suc, ◌+◌, ◌*◌, ◌/◌, ◌%◌, ◌^◌, ◌<◌}
use mathlib.Core.Path.{◌≡◌, refl, ap}
use mathlib.Core.List.{List, [], ◌∷◌, ◌++◌}
use mathlib.Core.Option.{Option, none, some}
use native.Mathlib.Nat.{pow-suc}
use native.Mathlib.Omega.{arith}
use aduana.Common.Lists.{length}

-- The low `k` bytes of a number, lowest first: what copying its `k` bytes of memory writes.
unfoldable pub le_bytes : ℕ → ℕ → List ℕ
le_bytes zero n = []
le_bytes (suc k) n = (n % 256) ∷ le_bytes k (n / 256)

pub length-le_bytes : (k n : ℕ) → length (le_bytes k n) ≡ k
unfolding le_bytes
length-le_bytes zero n = refl
length-le_bytes (suc k) n = ap suc (length-le_bytes k (n / 256))

abbrev pub Reader : Type 0 → Type 0
Reader A = List ℕ → Option (A × List ℕ)

infixl 5 ◌>>=◌
abbrev pub ◌>>=◌ : {A B : Type 0} → Reader A → (A → Reader B) → Reader B
◌>>=◌ m f bytes = elim (m bytes) [ none ↦ none | some (a, rest) ↦ f a rest ]

abbrev pub pure : {A : Type 0} → A → Reader A
pure a bytes = some (a, bytes)

-- A number of `k` bytes.
unfoldable pub read_le : ℕ → Reader ℕ
read_le zero bytes = some (0, bytes)
read_le (suc k) [] = none
read_le (suc k) (x ∷ bytes) = elim (read_le k bytes) [
  | none ↦ none
  | some (n, rest) ↦ some (x + 256 * n, rest)
]

-- The next `n` bytes.
unfoldable pub read_bytes : ℕ → Reader (List ℕ)
read_bytes zero bytes = some ([], bytes)
read_bytes (suc n) [] = none
read_bytes (suc n) (x ∷ bytes) = elim (read_bytes n bytes) [
  | none ↦ none
  | some (xs, rest) ↦ some (x ∷ xs, rest)
]

-- A number that fits its bytes is read back.
pub read_le-le_bytes :
    (k n : ℕ) (rest : List ℕ) → n < 256 ^ k → read_le k (le_bytes k n ++ rest) ≡ some (n, rest)
unfolding le_bytes read_le
read_le-le_bytes zero n rest h = ground arith
read_le-le_bytes (suc k) n rest h =
    ground (arith, read_le-le_bytes k (n / 256) rest (omega (arith, pow-suc 256 k)))

pub read_bytes-append : (xs rest : List ℕ) → read_bytes (length xs) (xs ++ rest) ≡ some (xs, rest)
unfolding read_bytes
read_bytes-append [] rest = refl
read_bytes-append (x ∷ xs) rest = rw (read_bytes-append xs rest)
