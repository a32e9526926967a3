-- ===== src/Examples/Sending.antt =====
-- The theorems on the transport, with a codec that adds 11 to each byte of a text.
use gtk4_kee.Prelude.{
  ℕ, zero, suc, ◌+◌, ◌-◌, ◌<◌, ◌≡◌, refl, [], ◌∷◌, ◌++◌, none, some, ltb, leb, ◌==◌, if◌then◌else◌,
  take, length, replicate, arith, true, false,
}
use gtk4_kee.Prelude.Bytes.{Bytes, NoNul, end, byte, c_string, le_bytes}
use gtk4_kee.Prelude.Result.{ok, fault, ◌>>=◌}
use gtk4_kee.Transport.Pack.{Codec, unpack, unpack_decode, unpack_decompress}
use gtk4_kee.Transport.{
  Transport, base64, single, write, next, read, cmd_of, cmd_import, cmd_ledger,
}
use gtk4_kee.Transport.Laws.{IsCodec}
use gtk4_kee.Transport.Reading.{read-overruns}
use gtk4_kee.Transport.Sending.{send-receive}
use gtk4_kee.Prelude.Memory.{put_at}

abbrev pub shifted : Bytes → Bytes
shifted [] = []
shifted (b ∷ bs) = (b + 11) ∷ shifted bs

abbrev pub unshifted : Bytes → Bytes
unshifted [] = []
unshifted (b ∷ bs) = if ltb b 11 then unshifted bs else (b - 11) ∷ unshifted bs

abbrev expanded : Bytes → Bytes
expanded [] = []
expanded (b ∷ bs) = if b == 2 then replicate 800 9 else bs

abbrev codec : Codec (Unit {0})
codec = record {
  deflate_init = true;
  deflate = λ bytes cap. if ltb (length bytes) cap then some (1 ∷ bytes) else none;
  inflate_init = true;
  inflate = λ z room. if leb (length (expanded z)) room then some (expanded z) else none;
  encode_block = λ bytes. (shifted bytes, tt);
  encode_blockend = λ state. 0xa ∷ [];
  decode_block = unshifted;
}

pub shifted-NoNul : (bs : Bytes) → NoNul (shifted bs)
shifted-NoNul [] = end
shifted-NoNul (b ∷ bs) = byte (ground arith) (shifted-NoNul bs)

pub unshifted-shifted : (bs : Bytes) (k : ℕ) → unshifted (shifted bs ++ replicate k 0) ≡ bs
unshifted-shifted [] zero = refl
unshifted-shifted [] (suc k) = unshifted-shifted [] k
unshifted-shifted (b ∷ bs) k =
    let high : ltb (b + 11) 11 ≡ false = ground arith in
    let back : b + 11 - 11 ≡ b = omega arith in rw (high, back, unshifted-shifted bs k)

deflated : (bytes z : Bytes) (cap : ℕ) → codec.deflate bytes cap ≡ some z → z ≡ 1 ∷ bytes
deflated bytes z cap h = ground arith

pub some_text : (z : Bytes) → 0 < length z → 0 < length (shifted z)
some_text [] h = h
some_text (b ∷ z) h = omega arith

law : IsCodec codec
law = record {
  text = shifted;
  compresses = refl;
  expands = refl;
  inflate-deflate = λ bytes z cap room e fits.
      let e' = deflated bytes z cap e in
      let fits' : leb (length bytes) room ≡ true = ground arith in rw (e', fits') refl;
  not_empty = λ bytes z cap e. rw (deflated bytes z cap e) (omega arith);
  ends = λ z. refl;
  block = some_text;
  blockend = λ z. omega arith;
  no_nul = shifted-NoNul;
  decodes = unshifted-shifted;
}

-- A command for the ledger with the data 5, 6
send-receive_example :
    (t r : Transport) × (sent got : Bytes) × ((do
      t ← single base64 cmd_ledger 2
      t ← write t (5 ∷ 6 ∷ [])
      next codec t (replicate 10 7) 10)
      ≡ ok (t, sent, 4))
    × (c_string sent ≡ some (12 ∷ 13 ∷ 16 ∷ 17 ∷ []))
    × ((do
      r ← single base64 cmd_import 0
      r ← write r (12 ∷ 13 ∷ 16 ∷ 17 ∷ [])
      read codec r ((0 ∷ 0 ∷ 0 ∷ []) ++ 0 ∷ (0 ∷ [])) 5)
        ≡ ok (r, got, 2))
    × (take 2 got ≡ 5 ∷ 6 ∷ [])
    × (cmd_of r ≡ cmd_ledger)
unfolding law
send-receive_example =
    send-receive codec law cmd_ledger 0 (5 ∷ 6 ∷ []) (1 ∷ 2 ∷ 5 ∷ 6 ∷ []) (replicate 10 7)
      (0 ∷ 0 ∷ 0 ∷ []) (0 ∷ []) 10 5 refl (omega arith) refl (omega arith) (omega arith)
      (omega arith) (omega arith) refl

-- A text of one byte that expands to 800
abbrev bomb : Transport
bomb = record {
  mode = base64;
  chunk = 0 ∷ 13 ∷ replicate 766 0;
  data_len = 768;
  crsr = 2;
  state = 0;
  data_at = 0;
}

read-overruns_example : read codec bomb (replicate 2000 0) 2000 ≡ fault
unfolding unpack unpack_decode unpack_decompress put_at le_bytes
read-overruns_example =
    read-overruns codec (13 ∷ replicate 766 0) (replicate 2000 0)
      (replicate 800 9 ++ replicate 1200 0) 2 0 2000 800 refl refl (omega arith)
