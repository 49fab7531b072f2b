-- ===== src/Util/Varint/Runs.antt =====
-- Concrete runs of the varint functions, and the theorems at concrete inputs.
use aduana.Common.{◌≡◌, refl, arith, [], ◌∷◌, ◌++◌, length}
use aduana.Common.Int.{negsuc}
use aduana.Common.Order.{lt_wf}
use aduana.Util.Varint.{done, past_end, varint_encode_uint64, varint_decode_uint64}
use aduana.Util.Varint.{varint_encode_int64, varint_decode_int64, un_zig_zag}
use aduana.Util.Varint.RoundTrip.{decode-encode}
use native.Mathlib.Decide.{dec_lt}

-- The values of `test_varint_uint64`.
encode_runs :
    (varint_encode_uint64 1_000_000 ≡ 0xc0 ∷ 0x84 ∷ 0x3d ∷ [])
    × (varint_encode_uint64 10_000 ≡ 0x90 ∷ 0x4e ∷ [])
    × (varint_encode_uint64 0 ≡ 0 ∷ [])
unfolding varint_encode_uint64 lt_wf dec_lt
encode_runs = (refl, refl, refl)

decode_runs :
    (varint_decode_uint64 (0xc0 ∷ 0x84 ∷ 0x3d ∷ 0x90 ∷ []) ≡ done (1_000_000, 3))
    × (varint_decode_uint64 (0x80 ∷ 0x80 ∷ []) ≡ past_end)
unfolding varint_decode_uint64
decode_runs = (refl, refl)

signed_runs : varint_decode_int64 (varint_encode_int64 (negsuc 99)) ≡ done (negsuc 99, 2)
unfolding varint_decode_int64 varint_encode_int64 varint_encode_uint64 varint_decode_uint64
    un_zig_zag lt_wf dec_lt
signed_runs = refl

decode-encode_example :
    varint_decode_uint64 (varint_encode_uint64 300 ++ (7 ∷ []))
    ≡ done (300, length (varint_encode_uint64 300))
decode-encode_example = decode-encode 300 (7 ∷ []) (omega arith)
