-- ===== src/Transport/Laws.antt =====
-- What src/transport.c relies on of zlib and libb64, and what `pack` and `unpack` do then.
use gtk4_kee.Prelude.{
  ℕ, ◌+◌, ◌≤◌, ◌<◌, ◌≡◌, refl, sym, ap, ◌∙◌, true, false, [], ◌∷◌, ◌++◌, some, ltb, ◌==◌, drop,
  length, replicate, arith, length-append,
}
use gtk4_kee.Prelude.Bytes.{Bytes, NoNul}
use gtk4_kee.Prelude.Memory.{put_at-append}
use gtk4_kee.Prelude.Result.{ok}
use gtk4_kee.Transport.Pack.{
  Codec, pack, unpack, pack_compress, pack_encode, unpack_decode, unpack_decompress, crop_newline,
}

-- The text that libb64 makes of some bytes
abbrev pub encoded : {Enc : Type 0} → Codec Enc → Bytes → Bytes
encoded codec bytes =
    let (block, state) = codec.encode_block bytes in block ++ codec.encode_blockend state

-- What the code relies on: zlib restores what it compressed where there is room for it, and libb64
-- ends a text with a newline, writes no NUL, and skips the NULs behind a text that it decodes.
pub record IsCodec {Enc : Type 0} (codec : Codec Enc) : Type 0 where
  pub text : Bytes → Bytes
  pub compresses : codec.deflate_init ≡ true
  pub expands : codec.inflate_init ≡ true
  pub inflate-deflate :
      (bytes z : Bytes) (cap room : ℕ)
      → codec.deflate bytes cap ≡ some z
      → length bytes ≤ room
      → codec.inflate z room ≡ some bytes
  pub not_empty : (bytes z : Bytes) (cap : ℕ) → codec.deflate bytes cap ≡ some z → 0 < length z
  pub ends : (z : Bytes) → encoded codec z ≡ text z ++ 0xa ∷ []
  pub block : (z : Bytes) → 0 < length z → 0 < length (codec.encode_block z).0
  pub blockend : (z : Bytes) → 0 < length (codec.encode_blockend (codec.encode_block z).1)
  pub no_nul : (z : Bytes) → NoNul (text z)
  pub decodes : (z : Bytes) (k : ℕ) → codec.decode_block (text z ++ replicate k 0) ≡ z

pub crop_newline_lem : (t : Bytes) → crop_newline (t ++ 0xa ∷ []) ≡ (t ++ 0 ∷ [], length t)
unfolding crop_newline
crop_newline_lem [] = refl
crop_newline_lem (b ∷ []) = refl
crop_newline_lem (b ∷ c ∷ t) =
    rw (crop_newline_lem (c ∷ t))
      (ap (λ (n : ℕ). let r : Bytes × ℕ = (b ∷ c ∷ (t ++ 0 ∷ []), n) in r) (omega arith))

pub not_above : {a b : ℕ} → a ≤ b → ltb b a ≡ false
not_above h = ground arith

module _ {Enc : Type 0} (codec : Codec Enc) (law : IsCodec codec) where
  pub pack_lem :
      (bytes z out : Bytes) (cap : ℕ)
      → codec.deflate bytes cap ≡ some z
      → length (law.text z) + 1 ≤ length out
      → pack codec bytes out cap
        ≡ ok (
          (law.text z ++ 0 ∷ []) ++ drop (length (law.text z ++ 0 ∷ [])) out,
          length (law.text z),
        )
  unfolding pack pack_compress pack_encode
  pack_lem bytes z out cap e fits = rw (
    law.compresses,
    e,
    fits_block,
    some_block,
    fits_text,
    some_tail,
    law.ends z,
    crop_newline_lem (law.text z),
    put_at-append [] (law.text z ++ 0 ∷ []) out
        (omega (arith, fits, length-append (law.text z) (0 ∷ []))),
  )
    where
      total :
          length (codec.encode_block z).0 + length (codec.encode_blockend (codec.encode_block z).1)
          ≡ length (law.text z) + 1
      total =
          sym (
            length-append (codec.encode_block z).0 (codec.encode_blockend (codec.encode_block z).1))
          ∙ ap length (law.ends z)
          ∙ length-append (law.text z) (0xa ∷ [])

      fits_block : ltb (length out) (length (codec.encode_block z).0) ≡ false
      fits_block = ground (arith, total, fits)

      fits_text :
          ltb (length out) (
            length (codec.encode_block z).0
            + length (codec.encode_blockend (codec.encode_block z).1))
          ≡ false
      fits_text = ground (arith, total, fits)

      some_block : (length (codec.encode_block z).0 == 0) ≡ false
      some_block = ground (arith, law.block z (law.not_empty bytes z cap e))

      some_tail : (length (codec.encode_blockend (codec.encode_block z).1) == 0) ≡ false
      some_tail = ground (arith, law.blockend z)

  pub unpack_lem :
      (bytes z out : Bytes) (k cap size : ℕ)
      → codec.deflate bytes cap ≡ some z
      → length z ≤ size
      → length bytes ≤ size
      → length bytes ≤ length out
      → unpack codec (law.text z ++ replicate k 0) out size
        ≡ ok (bytes ++ drop (length bytes) out, length bytes)
  unfolding unpack unpack_decode unpack_decompress
  unpack_lem bytes z out k cap size e fz fb fo = rw (
    law.decodes z k,
    not_above fz,
    some_bytes,
    law.expands,
    law.inflate-deflate bytes z cap size e fb,
    put_at-append [] bytes out fo,
  )
    where
      some_bytes : (length z == 0) ≡ false
      some_bytes = ground (arith, law.not_empty bytes z cap e)
