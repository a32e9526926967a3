-- ===== src/Transport/Pack.antt =====
-- `pack` and `unpack` of src/transport.c, over zlib and libb64. `malloc` succeeds, and gives a
-- block whose size is the capacity that the caller names.
use gtk4_kee.Prelude.{ℕ, ◌+◌, Bool, not, [], ◌∷◌, ◌++◌, Option, if◌then◌else◌, ◌==◌, ltb, length}
use gtk4_kee.Prelude.Bytes.{Bytes}
use gtk4_kee.Prelude.Memory.{put_at}
use gtk4_kee.Prelude.Result.{Result, ok, ◌>>=◌, ◌>>◌, or_code, from_option, fail_if, fault_if}

abbrev pub err_fail : ℕ
err_fail = 1

-- The calls of zlib and libb64; `Enc` is `base64_encodestate`. `deflate` and `inflate` take the input
-- and the room for the output, and give the output where they return Z_STREAM_END.
pub record Codec (Enc : Type 0) : Type 0 where
  pub deflate_init : Bool
  pub deflate : Bytes → ℕ → Option Bytes
  pub inflate_init : Bool
  pub inflate : Bytes → ℕ → Option Bytes
  pub encode_block : Bytes → Bytes × Enc
  pub encode_blockend : Enc → Bytes
  pub decode_block : Bytes → Bytes

-- A text whose last byte is a newline, with a NUL in its place, and its length
unfoldable pub crop_newline : Bytes → Bytes × ℕ
crop_newline [] = ([], 0)
crop_newline (b ∷ []) = if b == 0xa then (0 ∷ [], 0) else (b ∷ [], 1)
crop_newline (b ∷ c ∷ text) = let (text', size) = crop_newline (c ∷ text) in (b ∷ text', size + 1)

module _ {Enc : Type 0} (codec : Codec Enc) where
  unfoldable pub pack_compress : Bytes → ℕ → Result Bytes
  pack_compress input cap = do
    fail_if (not codec.deflate_init) 1
    from_option 2 (codec.deflate input cap)

  -- The text is written with no test of the room for it, which the buffer `out` tells.
  unfoldable pub pack_encode : Bytes → Bytes → Result Bytes
  pack_encode input out =
      let (block, state) = codec.encode_block input in
      let tail = codec.encode_blockend state in
      do
        fault_if (ltb (length out) (length block))
        fail_if (length block == 0) 1
        fault_if (ltb (length out) (length block + length tail))
        fail_if (length tail == 0) 1
        ok (block ++ tail)

  unfoldable pub unpack_decompress : Bytes → ℕ → Result Bytes
  unpack_decompress input cap = do
    fail_if (not codec.inflate_init) 1
    from_option 2 (codec.inflate input cap)

  -- What is decoded goes to a block of `cap` bytes, with no test of the room.
  unfoldable pub unpack_decode : Bytes → ℕ → Result Bytes
  unpack_decode input cap =
      let bytes = codec.decode_block input in
      do fault_if (ltb cap (length bytes)); fail_if (length bytes == 0) 1; ok bytes

  -- `pack`: the buffer `out` after it, and `*out_len`
  unfoldable pub pack : Bytes → Bytes → ℕ → Result (Bytes × ℕ)
  unfolding pack_compress pack_encode crop_newline
  pack input out cap = do
    z ← or_code err_fail (pack_compress input cap)
    text ← or_code err_fail (pack_encode z out)
    let (text', size) = crop_newline text
    out ← put_at 0 text' out
    ok (out, size)

  -- `unpack`
  unfoldable pub unpack : Bytes → Bytes → ℕ → Result (Bytes × ℕ)
  unfolding unpack_decode unpack_decompress
  unpack input out cap = do
    z ← or_code err_fail (unpack_decode input cap)
    bytes ← or_code err_fail (unpack_decompress z cap)
    out ← put_at 0 bytes out
    ok (out, length bytes)
