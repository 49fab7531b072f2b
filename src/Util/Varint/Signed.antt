-- ===== src/Util/Varint/Signed.antt =====
-- The signed varints: the sign is the lowest bit.
use aduana.Common.{
  ℕ, suc, ◌+◌, ◌-◌, ◌*◌, ◌/◌, ◌%◌, ◌^◌, ◌≤◌, ◌<◌, ◌≡◌, ap, arith, List, ◌∷◌, ◌++◌, length,
}
use aduana.Common.Int.{ℤ, pos, negsuc, pos_part, neg_part}
use aduana.Util.Varint.{
  done, undefined, zig_zag, un_zig_zag, negated, varint_encode_int64, varint_decode_int64,
}
use aduana.Util.Varint.RoundTrip.{encode_head, decode-encode, decode-encode_undefined}

-- The magnitude of a signed number.
abbrev pub magnitude : ℤ → ℕ
magnitude z = pos_part z + neg_part z

zig_zag-lt : (z : ℤ) → magnitude z < 2 ^ 30 → zig_zag z < 2 ^ 31
unfolding zig_zag
zig_zag-lt (pos n) h = omega arith
zig_zag-lt (negsuc n) h = omega arith

le-zig_zag : (z : ℤ) → 2 ^ 30 ≤ magnitude z → magnitude z < 2 ^ 62 → 2 ^ 31 ≤ zig_zag z
unfolding zig_zag
le-zig_zag (pos n) h k = omega arith
le-zig_zag (negsuc n) h k = omega arith

un_zig_zag-zig_zag : (z : ℤ) → magnitude z < 2 ^ 30 → un_zig_zag (zig_zag z) ≡ z
unfolding un_zig_zag zig_zag
un_zig_zag-zig_zag (pos n) h = ground arith
un_zig_zag-zig_zag (negsuc n) h = ground (arith, ap negated (halved n (omega arith)))
  where
    halved : (n : ℕ) → n < 2 ^ 30 → ((2 * suc n + 1) % 2 ^ 64 - 1) / 2 ≡ suc n
    halved n h = omega arith

-- Numbers of magnitude below 2 ^ 30 come back, with the count of the bytes that they took,
-- whatever follows them.
pub decode_int64-encode_int64 :
    (z : ℤ) (rest : List ℕ)
    → magnitude z < 2 ^ 30
    → varint_decode_int64 (varint_encode_int64 z ++ rest) ≡ done (z, length (varint_encode_int64 z))
unfolding varint_decode_int64 varint_encode_int64
decode_int64-encode_int64 z rest h =
    rw (decode-encode _ rest (zig_zag-lt z h), un_zig_zag-zig_zag z h)

-- From there up to 2 ^ 62 decoding runs into the undefined shift.
decode_int64-encode_int64_undefined :
    (z : ℤ) (rest : List ℕ)
    → 2 ^ 30 ≤ magnitude z
    → magnitude z < 2 ^ 62
    → varint_decode_int64 (varint_encode_int64 z ++ rest) ≡ undefined
unfolding varint_decode_int64 varint_encode_int64
decode_int64-encode_int64_undefined z rest h k =
    rw (decode-encode_undefined _ rest (le-zig_zag z h k))

-- An encoding is not empty.
pub encode_int64_cons : (z : ℤ) → (x : ℕ) × (t : List ℕ) × (varint_encode_int64 z ≡ x ∷ t)
unfolding varint_encode_int64
encode_int64_cons z = let (x, t, e, _) = encode_head (zig_zag z) in (x, t, e)
