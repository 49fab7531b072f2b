-- ===== src/Util/Varint/Encoding.antt =====
-- What `varint_encode_uint64` writes, in plain arithmetic.
use aduana.Common.{
  ℕ, zero, suc, ◌+◌, ◌/◌, ◌%◌, ◌^◌, ◌≤◌, ◌<◌, ◌≡◌, refl, ap, arith, bit_or, bit_and, List, [], ◌∷◌,
  length, All,
}
use aduana.Common.Bits.{bit_and_7f, bit_or_80}
use aduana.Common.Order.{lt_wf}
use aduana.Util.Varint.{emit_groups, clear_last, varint_encode_uint64, max_varint_size}
use mathlib.Core.WellFounded.{Acc, Acc-prop}
use native.Mathlib.Decide.{dec_lt}
use native.Mathlib.Nat.{pow-suc}

abbrev marked : ℕ → ℕ
marked n = bit_or (bit_and n 0x7f) 0x80

marked_lem : (n : ℕ) → marked n ≡ n % 128 + 128
marked_lem n = omega (
  arith,
  bit_and_7f n,
  ap (λ (t : ℕ). bit_or t 0x80) (bit_and_7f n),
  bit_or_80 (n % 128) (omega arith),
)

emit_groups_last : (n : ℕ) (w : Acc ◌<◌ n) → n < 128 → emit_groups n w ≡ marked n ∷ []
unfolding emit_groups
emit_groups_last n (Acc.intro _ s) h = ground arith

emit_groups_more :
    (n : ℕ) (w : Acc ◌<◌ n)
    → 128 ≤ n
    → emit_groups n w ≡ marked n ∷ emit_groups (n / 128) (lt_wf.apply (n / 128))
unfolding emit_groups
emit_groups_more n (Acc.intro _ s) h = grind (
  arith,
  λ (v : Acc ◌<◌ (n / 128)). ap (emit_groups (n / 128)) (Acc-prop v (lt_wf.apply (n / 128))),
)

clear_last-cons :
    (x n : ℕ) (w : Acc ◌<◌ n) → clear_last (x ∷ emit_groups n w) ≡ x ∷ clear_last (emit_groups n w)
unfolding emit_groups clear_last
clear_last-cons x n (Acc.intro _ s) = refl

-- Below 128 a number is its own encoding.
pub encode_last : (n : ℕ) → n < 128 → varint_encode_uint64 n ≡ n ∷ []
unfolding varint_encode_uint64 clear_last
encode_last n h =
    rw (emit_groups_last n _ h)
      (ap (λ t. t ∷ []) (omega (arith, bit_and_7f (marked n), marked_lem n)))

-- From 128 on comes the lowest group of seven bits, marked, and the encoding of the rest.
pub encode_more :
    (n : ℕ) → 128 ≤ n → varint_encode_uint64 n ≡ (n % 128 + 128) ∷ varint_encode_uint64 (n / 128)
unfolding varint_encode_uint64
encode_more n h = rw (emit_groups_more n _ h, clear_last-cons, marked_lem)

abbrev pub IsEncoding : ℕ → List ℕ → Type 0
IsEncoding k bytes = All (λ x. x < 256) bytes × (1 ≤ length bytes) × (length bytes ≤ k)

encode_shape_fuel : (k n : ℕ) → n < 128 ^ suc k → IsEncoding (suc k) (varint_encode_uint64 n)
encode_shape_fuel zero n h =
    let small : n < 128 = omega arith in rw (encode_last n small) (omega arith)
encode_shape_fuel (suc k) n h = elim (dec_lt n 128) [
  | yes small ↦ rw (encode_last n small) (omega arith)
  | no large ↦
      rw (encode_more n (omega arith))
        (ground (arith, encode_shape_fuel k (n / 128) (omega (arith, pow-suc 128 (suc k)))))
]

-- A uint64 takes from 1 to MAX_VARINT_SIZE elements of the buffer, and each is a byte.
encode-IsEncoding : (n : ℕ) → n < 2 ^ 64 → IsEncoding max_varint_size (varint_encode_uint64 n)
encode-IsEncoding n h = encode_shape_fuel 9 n (omega arith)
