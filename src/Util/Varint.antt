-- ===== src/Util/Varint.antt =====
-- The varint functions of lib/src/util.c. A byte stream is a list of numbers below 256; a function
-- that writes to `out` returns the bytes, so that the returned pointer is `out` plus their number.
pub mod Encoding
pub mod RoundTrip
pub mod Signed
mod Runs
use aduana.Common.{
  ℕ, zero, suc, ◌+◌, ◌-◌, ◌*◌, ◌/◌, ◌%◌, ◌^◌, ◌<◌, bit_and, bit_or, arith, ltb, ◌==◌, ◌&&◌,
  if◌then◌else◌, List, [], ◌∷◌, Option, none, some,
}
use aduana.Common.Int.{ℤ, pos, negsuc}
use aduana.Common.Order.{lt_wf}
use mathlib.Core.Logic.{dite}
use mathlib.Core.WellFounded.{Acc}
use native.Mathlib.Decide.{dec_lt}

-- What a call gives: a result, a shift that C leaves undefined, or a read past the end of the bytes.
pub data Outcome {ℓ} (A : Type ℓ) : Type ℓ where
  done : A → Outcome A
  undefined : Outcome A
  past_end : Outcome A

infixl 5 ◌>>=◌
abbrev pub ◌>>=◌ {ℓ κ} : {A : Type ℓ} {B : Type κ} → Outcome A → (A → Outcome B) → Outcome B
done a >>= f = f a
undefined >>= f = undefined
past_end >>= f = past_end

-- MAX_VARINT_SIZE
abbrev pub max_varint_size : ℕ
max_varint_size = 10

shift_shrinks : (n : ℕ) → 0 < n / 128 → n / 128 < n
shift_shrinks n h = omega arith

-- `do { *(out++) = (n & 0x7F) | 0x80; } while (n >>= 7);`
emit_groups : (n : ℕ) → Acc ◌<◌ n → List ℕ
emit_groups n (Acc.intro _ smaller) =
    bit_or (bit_and n 0x7f) 0x80
    ∷ dite (dec_lt 0 (n / 128)) (λ h. emit_groups (n / 128) (smaller _ (shift_shrinks n h)))
        (λ _. [])

-- `*(out - 1) &= 0x7F;`
clear_last : List ℕ → List ℕ
clear_last [] = []
clear_last (x ∷ []) = bit_and x 0x7f ∷ []
clear_last (x ∷ y ∷ rest) = x ∷ clear_last (y ∷ rest)

pub varint_encode_uint64 : ℕ → List ℕ
unfolding emit_groups clear_last
varint_encode_uint64 n = clear_last (emit_groups n (lt_wf.apply n))

-- `x << b` on a non-negative `int`: C defines it for b < 32 and a result that an `int` can hold.
shl_int : ℕ → ℕ → Option ℕ
shl_int x b = if ltb b 32 && ltb (x * 2 ^ b) (2 ^ 31) then some (x * 2 ^ b) else none

-- The loop of `varint_decode_uint64`; `b` is a uint8_t. The result is the value and `*read`.
pub varint_decode_loop : List ℕ → ℕ → ℕ → Outcome (ℕ × ℕ)
varint_decode_loop [] res b = past_end
varint_decode_loop (x ∷ rest) res b = elim (shl_int (bit_and x 0x7f) b) [
  | none ↦ undefined
  | some v ↦
      let res' = bit_or res v in
      let b' = (b + 7) % 256 in
      let more = varint_decode_loop rest res' b' in
      if bit_and x 0x80 == 0 then done (res', b' / 7) else more
]

pub varint_decode_uint64 : List ℕ → Outcome (ℕ × ℕ)
unfolding varint_decode_loop shl_int
varint_decode_uint64 bytes = varint_decode_loop bytes 0 0

-- `n >= 0? 2*n: 2*llabs(n) + 1`. The product is taken in 64 bits; from 2 ^ 62 on C leaves it undefined.
zig_zag : ℤ → ℕ
zig_zag (pos n) = 2 * n % 2 ^ 64
zig_zag (negsuc n) = (2 * suc n + 1) % 2 ^ 64

pub varint_encode_int64 : ℤ → List ℕ
unfolding zig_zag
varint_encode_int64 n = varint_encode_uint64 (zig_zag n)

-- `-((res - 1)/2)` for an odd `res`; the minus of 0 is 0.
negated : ℕ → ℤ
negated zero = pos 0
negated (suc n) = negsuc n

-- `if (res % 2 == 0) return res/2; else return -((res - 1)/2);`
un_zig_zag : ℕ → ℤ
unfolding negated
un_zig_zag res = if res % 2 == 0 then pos (res / 2) else negated ((res - 1) / 2)

pub varint_decode_int64 : List ℕ → Outcome (ℤ × ℕ)
varint_decode_int64 bytes = do (res, read) ← varint_decode_uint64 bytes; done (un_zig_zag res, read)
