-- ===== src/PageDb/Smaz.antt =====
-- The compressor of short texts that page_db.c calls (lib/lib/smaz.c), as an interface.
use aduana.Common.{ℕ, ◌≡◌, List, Option, none, some, leb, length, if◌then◌else◌}

-- `compress text room` is the output of `smaz_compress(text, len, out, room)`, or `none` where the
-- call returns `room + 1` since the output does not fit; `decompress` likewise.
pub record Smaz : Type 0 where
  pub compress : List ℕ → ℕ → Option (List ℕ)
  pub decompress : List ℕ → ℕ → Option (List ℕ)
  -- Compressed text decompresses to itself wherever there is room for it.
  pub decompress-compress :
      (text out : List ℕ) (room room' : ℕ)
      → compress text room ≡ some out
      → decompress out room' ≡ (if leb (length text) room' then some text else none)
