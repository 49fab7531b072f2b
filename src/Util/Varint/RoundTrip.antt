-- ===== src/Util/Varint/RoundTrip.antt =====
-- What `varint_decode_uint64` makes of the bytes that `varint_encode_uint64` wrote.
use aduana.Common.{
  ℕ, zero, suc, ◌+◌, ◌-◌, ◌*◌, ◌/◌, ◌%◌, ◌^◌, ◌≤◌, ◌<◌, ◌≡◌, ◌∙◌, refl, ap, arith, List, [], ◌∷◌,
  ◌++◌, length,
}
use mathlib.Core.Logic.{◌⊎◌, inl, inr}
use aduana.Common.Bits.{bit_and_7f, bit_and_80, bit_or_fields}
use aduana.Common.Order.{two_pow_add}
use aduana.Util.Varint.{
  Outcome, done, undefined, shl_int, varint_decode_loop, varint_decode_uint64, varint_encode_uint64,
}
use aduana.Util.Varint.Encoding.{encode_last, encode_more}
use native.Mathlib.Nat.{div-add-mod, mul-le-mul_right, pow-le-pow_right}
use native.Mathlib.Decide.{dec_lt}

-- One round on a last byte, and on a marked one, where the shift is defined.
round_last :
    (x res b : ℕ) (rest : List ℕ)
    → x < 128
    → b < 32
    → x * 2 ^ b < 2 ^ 31
    → res < 2 ^ b
    → varint_decode_loop (x ∷ rest) res b ≡ done (res + x * 2 ^ b, (b + 7) / 7)
unfolding varint_decode_loop shl_int
round_last x res b rest hx hb fits hr =
    ground (arith, bit_and_7f x, bit_and_80 x, bit_or_fields b res x)

round_more :
    (x res b : ℕ) (rest : List ℕ)
    → x < 128
    → b < 32
    → x * 2 ^ b < 2 ^ 31
    → res < 2 ^ b
    → varint_decode_loop ((x + 128) ∷ rest) res b
      ≡ varint_decode_loop rest (res + x * 2 ^ b) (b + 7)
unfolding varint_decode_loop shl_int
round_more x res b rest hx hb fits hr =
    ground (arith, bit_and_7f (x + 128), bit_and_80 (x + 128), bit_or_fields b res x)

-- A shift that an `int` cannot hold.
round_undefined :
    (x res b : ℕ) (rest : List ℕ)
    → (32 ≤ b) ⊎ (2 ^ 31 ≤ x % 128 * 2 ^ b)
    → varint_decode_loop (x ∷ rest) res b ≡ undefined
unfolding varint_decode_loop shl_int
round_undefined x res b rest h = ground (arith, bit_and_7f x)

shift_seven : (b : ℕ) → 2 ^ (b + 7) ≡ 128 * 2 ^ b
shift_seven b = omega (arith, two_pow_add b 7)

-- The lowest group of `w` and the rest, both shifted by `b`.
split_group : (w b : ℕ) → w * 2 ^ b ≡ w % 128 * 2 ^ b + w / 128 * 2 ^ (b + 7)
split_group w b = omega (
  arith,
  ap (λ (t : ℕ). t * 2 ^ b) (div-add-mod w 128),
  ap (λ (t : ℕ). w / 128 * t) (shift_seven b),
)

group_fits : (g r b : ℕ) → g < 128 → r < 2 ^ b → r + g * 2 ^ b < 2 ^ (b + 7)
group_fits g r b hg hr = omega (arith, shift_seven b, mul-le-mul_right (2 ^ b) hg)

shift_bound : (w b : ℕ) → 1 ≤ w → w * 2 ^ b < 2 ^ 31 → b < 32
shift_bound w b hw h = elim (dec_lt b 32) [
  | yes small ↦ small
  | no large ↦ absurd (
      omega (
        arith,
        mul-le-mul_right (2 ^ b) hw,
        pow-le-pow_right {n = 2} (omega arith) {i = 31} {j = b} (omega arith),
      ))
]

done_eq : {a b c d : ℕ} → a ≡ c → b ≡ d → ◌≡◌ {A = Outcome (ℕ × ℕ)} (done (a, b)) (done (c, d))
done_eq p q = cc

-- The loop at shift `b` adds the number that was encoded there, and counts its bytes.
decode_loop-encode :
    (k w res b : ℕ) (rest : List ℕ)
    → w < k
    → b < 32
    → w * 2 ^ b < 2 ^ 31
    → res < 2 ^ b
    → varint_decode_loop (varint_encode_uint64 w ++ rest) res b
      ≡ done (res + w * 2 ^ b, b / 7 + length (varint_encode_uint64 w))
decode_loop-encode zero w res b rest hw hb fits hr = elim hw [ ]
decode_loop-encode (suc k) w res b rest hw hb fits hr = elim (dec_lt w 128) [
  | yes small ↦
      rw (encode_last w small)
        (round_last w res b rest small hb fits hr ∙ done_eq refl (omega arith))
  | no large ↦ rw (encode_more w (omega arith)) (
      round_more (w % 128) res b _ (omega arith) hb (omega (arith, split_group w b)) hr
      ∙ decode_loop-encode k (w / 128) (res + w % 128 * 2 ^ b) (b + 7) rest (omega arith)
          (shift_bound (w / 128) (b + 7) (omega arith) (omega (arith, split_group w b)))
          (omega (arith, split_group w b)) (group_fits (w % 128) res b (omega arith) hr)
      ∙ done_eq (omega (arith, split_group w b)) (omega arith))
]

-- Below 2 ^ 31 decoding gives back the number, with the count of the bytes that it took,
-- whatever follows them.
pub decode-encode :
    (n : ℕ) (rest : List ℕ)
    → n < 2 ^ 31
    → varint_decode_uint64 (varint_encode_uint64 n ++ rest)
      ≡ done (n, length (varint_encode_uint64 n))
unfolding varint_decode_uint64
decode-encode n rest h =
    decode_loop-encode (suc n) n 0 0 rest (omega arith) (omega arith) (omega arith) (omega arith)
    ∙ done_eq (omega arith) (omega arith)

pub encode_head :
    (w : ℕ) → (x : ℕ) × (t : List ℕ) × (varint_encode_uint64 w ≡ x ∷ t) × (x % 128 ≡ w % 128)
encode_head w = elim (dec_lt w 128) [
  | yes small ↦ (w, [], encode_last w small, refl)
  | no large ↦
      (w % 128 + 128, varint_encode_uint64 (w / 128), encode_more w (omega arith), omega arith)
]

undefined_at_once :
    (w res b : ℕ) (rest : List ℕ)
    → (32 ≤ b) ⊎ (2 ^ 31 ≤ w % 128 * 2 ^ b)
    → varint_decode_loop (varint_encode_uint64 w ++ rest) res b ≡ undefined
undefined_at_once w res b rest h =
    let (x, t, e, g) = encode_head w in rw e (round_undefined x res b (t ++ rest) (rw g h))

-- What is left after one round still does not fit the bits that are left.
still_too_wide : (w b : ℕ) → b < 32 → 128 ≤ w → 2 ^ (31 - b) ≤ w → 2 ^ (31 - (b + 7)) ≤ w / 128
still_too_wide w b hb large h = elim (dec_lt 24 b) [
  | yes late ↦ omega (arith, ap (λ (t : ℕ). 2 ^ t) (none_left b late))
  | no early ↦
      omega (arith, two_pow_add (31 - (b + 7)) 7, ap (λ (t : ℕ). 2 ^ t) (seven_left b early))
]
  where
    none_left : (b : ℕ) → 24 < b → 31 - (b + 7) ≡ 0
    none_left b late = omega arith

    seven_left : (b : ℕ) → ¬ (24 < b) → 31 - (b + 7) + 7 ≡ 31 - b
    seven_left b early = omega arith

-- Where the lowest group fits the bits that are left, and the number does not, more groups follow.
more_groups : (w b : ℕ) → b < 32 → 2 ^ (31 - b) ≤ w → w % 128 * 2 ^ b < 2 ^ 31 → 128 ≤ w
more_groups w b early h fits = elim (dec_lt w 128) [
  | no large ↦ omega arith
  | yes small ↦ absurd (
      omega (
        arith,
        mul-le-mul_right (2 ^ b) h,
        two_pow_add (31 - b) b,
        ap (λ (t : ℕ). 2 ^ t) (whole b early),
        ap (λ (t : ℕ). t * 2 ^ b) (only_group w small),
      ))
]
  where
    whole : (b : ℕ) → b < 32 → 31 - b + b ≡ 31
    whole b early = omega arith

    only_group : (w : ℕ) → w < 128 → w % 128 ≡ w
    only_group w small = omega arith

decode_loop-encode_undefined :
    (k w res b : ℕ) (rest : List ℕ)
    → w < k
    → res < 2 ^ b
    → 2 ^ (31 - b) ≤ w
    → varint_decode_loop (varint_encode_uint64 w ++ rest) res b ≡ undefined
decode_loop-encode_undefined zero w res b rest hw hr h = elim hw [ ]
decode_loop-encode_undefined (suc k) w res b rest hw hr h = elim (dec_lt b 32) [
  | no late ↦ undefined_at_once w res b rest (inl (omega arith))
  | yes early ↦ elim (dec_lt (w % 128 * 2 ^ b) (2 ^ 31)) [
    | no wide ↦ undefined_at_once w res b rest (inr (omega arith))
    | yes fits ↦
        let large = more_groups w b early h fits in
        rw (encode_more w large) (
          round_more (w % 128) res b _ (omega arith) early fits hr
          ∙ decode_loop-encode_undefined k (w / 128) (res + w % 128 * 2 ^ b) (b + 7) rest
              (omega arith) (group_fits (w % 128) res b (omega arith) hr)
              (still_too_wide w b early large h))
  ]
]

-- From 2 ^ 31 on decoding runs into a shift of an `int` that C leaves undefined.
pub decode-encode_undefined :
    (n : ℕ) (rest : List ℕ)
    → 2 ^ 31 ≤ n
    → varint_decode_uint64 (varint_encode_uint64 n ++ rest) ≡ undefined
unfolding varint_decode_uint64
decode-encode_undefined n rest h =
    decode_loop-encode_undefined (suc n) n 0 0 rest (omega arith) (omega arith) h
