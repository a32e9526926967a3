-- ===== src/Transport.antt =====
-- src/transport.c: a command and its data as one text. `kee_transport_t` holds one chunk; its
-- checksum and its counters for several chunks are never used.
pub mod Pack
pub mod Laws
pub mod Reading
pub mod Sending
use gtk4_kee.Prelude.{
  ℕ, ◌+◌, ◌-◌, ◌%◌, ◌^◌, Bool, ◌&&◌, List, [], ◌∷◌, ◌++◌, if◌then◌else◌, ◌==◌, ltb, leb, take, drop,
  length, get_or, set, replicate, bit_or,
}
use gtk4_kee.Prelude.Bytes.{Bytes, le_bytes}
use gtk4_kee.Prelude.Memory.{put_at}
use gtk4_kee.Prelude.Result.{Result, ok, err, fault, ◌>>=◌, ◌>>◌, or_code, fail_if, fault_if}
use gtk4_kee.Transport.Pack.{Codec, pack, unpack, err_fail}
use Prim.Native.Nat.{◌≤◌}

abbrev pub chunk_size : ℕ
chunk_size = 768

abbrev pub err_invalid_cmd : ℕ
err_invalid_cmd = 0x301

-- `enum kee_transport_mode_e`
pub data Mode : Type 0 where
  raw base64 : Mode

-- `KEE_CMD_IMPORT`, `KEE_CMD_LEDGER`, the number of commands, and `KEE_CMD_SIGN_RESPONSE`
abbrev pub cmd_import : ℕ
cmd_import = 0

abbrev pub cmd_ledger : ℕ
cmd_ledger = 2

abbrev pub n_cmd : ℕ
n_cmd = 6

abbrev pub cmd_sign_response : ℕ
cmd_sign_response = 64

-- `struct kee_transport_t` after `kee_transport_single`: `cmd` points to the first byte of the
-- chunk, and `data_at` is the offset of `data` in it.
pub record Transport : Type 0 where
  pub mode : Mode
  pub chunk : Bytes
  pub data_len : ℕ
  pub crsr : ℕ
  pub state : ℕ
  pub data_at : ℕ

-- `*trans->cmd`
abbrev pub cmd_of : Transport → ℕ
cmd_of t = get_or t.chunk 0 0

-- The chunk behind its first byte, after `memset`
unfoldable pub zeros : Bytes
zeros = replicate 767 0

-- `kee_transport_single`; a `char` of 128 or more is negative.
unfoldable pub single : Mode → ℕ → ℕ → Result Transport
single mode cmd data_len = do
  fail_if (leb n_cmd cmd && ltb cmd 128) err_invalid_cmd
  ok (record {
    mode = mode;
    chunk = cmd ∷ zeros;
    data_len = if data_len == 0 then chunk_size else data_len + 1;
    crsr = 1;
    state = 0;
    data_at = 0;
  })

-- `kee_transport_set_response`
unfoldable pub set_response : Transport → Transport
set_response t =
    if t.state == 0
    then record t { chunk = set t.chunk 0 (bit_or (cmd_of t) cmd_sign_response) }
    else t

-- `kee_transport_write`
unfoldable pub write : Transport → Bytes → Result Transport
write t input =
    if t.state == 0
    then (do
      chunk ← put_at (t.data_at + t.crsr) input t.chunk
      ok (record t { chunk = chunk; crsr = t.crsr + length input }))
    else err err_fail

-- The first lines of `kee_transport_next`: the chunk is closed.
unfoldable pub close : Transport → Result Transport
close t =
    if t.state == 0
    then ok (record t { data_len = t.crsr; crsr = 0; state = 1 })
    else if ltb 1 t.state
    then err err_fail
    else ok t

-- An array and the bytes behind it in the struct, those of `data_len`
abbrev pub visible : Transport → Bytes
visible t = t.chunk ++ le_bytes 8 t.data_len

-- The crop at the end of `kee_transport_read` for an import: the command is taken off the data,
-- by way of the chunk.
unfoldable pub crop : Transport → Bytes → ℕ → Result (Transport × Bytes × ℕ)
crop t out size = do
  fault_if (ltb (length out) (1 + size))
  chunk ← put_at t.data_at (take size (drop 1 out)) (set t.chunk 0 (get_or out 0 0))
  let size' = (size + 2 ^ 64 - 1) % 2 ^ 64
  fault_if (ltb (length chunk) (t.data_at + size'))
  out ← put_at 0 (take size' (drop t.data_at chunk)) out
  ok (record t { chunk = chunk }, out, size')

module _ {Enc : Type 0} (codec : Codec Enc) where
  -- The `switch` of `kee_transport_next`: the buffer `out` after it, and `*out_len`
  unfoldable pub emit : Mode → Bytes → Bytes → ℕ → Result (Bytes × ℕ)
  emit base64 input out cap = or_code err_fail (pack codec input out cap)
  emit raw input out cap = do out ← put_at 0 input out; ok (out, cap)

  -- `kee_transport_next`, from the closed chunk on
  unfoldable pub transmit : Transport → Bytes → ℕ → Result (Transport × Bytes × ℕ)
  unfolding emit
  transmit t out cap =
      let remaining = (t.data_len + 2 ^ 64 - t.crsr) % 2 ^ 64 in
      do
        fail_if (leb 767 remaining) 1
        (out, size) ← emit t.mode (take remaining t.chunk) out cap
        ok (t, out, size)

  -- `kee_transport_next`
  unfoldable pub next : Transport → Bytes → ℕ → Result (Transport × Bytes × ℕ)
  unfolding close transmit
  next t out cap = do t ← close t; transmit t out cap

  -- The `switch` of `kee_transport_read`
  unfoldable pub absorb : Mode → Bytes → Bytes → ℕ → Result (Bytes × ℕ)
  absorb base64 input out cap = or_code err_fail (unpack codec input out cap)
  absorb raw input out cap = do out ← put_at 0 input out; ok (out, cap)

  -- The lines of `kee_transport_read` behind `trans->data++`
  unfoldable pub read_data : Bool → Transport → Bytes → ℕ → Result (Transport × Bytes × ℕ)
  unfolding absorb crop
  read_data import t out cap = do
    fault_if (ltb (length (visible t)) (t.data_at + t.data_len))
    (out, size) ← absorb t.mode (take t.data_len (drop t.data_at (visible t))) out cap
    (if import then crop t out size else ok (t, out, size))

  -- `kee_transport_read`
  unfoldable pub read : Transport → Bytes → ℕ → Result (Transport × Bytes × ℕ)
  unfolding read_data
  read t out cap =
      let import = cmd_of t == cmd_import in
      read_data import (if import then record t { data_at = t.data_at + 1 } else t) out cap
