-- ===== src/Entry/Exchange.antt =====
-- src/gtk/kee-entry.c and src/gtk/kee-import.c: what one side hands out and the other side takes in.
use gtk4_kee.Prelude.{
  ℕ, ◌+◌, ◌≤◌, ◌<◌, ◌≡◌, refl, ap, ◌∙◌, [], ◌∷◌, ◌++◌, some, length, take, drop, arith,
  length-append, length-drop,
}
use gtk4_kee.Prelude.Bytes.{Bytes, c_string}
use gtk4_kee.Prelude.Memory.{put_at-append}
use gtk4_kee.Prelude.Result.{ok, ◌>>=◌, >>=-eq-ok}
use gtk4_kee.Transport.Pack.{Codec}
use gtk4_kee.Transport.{Transport, base64, cmd_ledger, cmd_of, single, write}
use gtk4_kee.Transport.Laws.{IsCodec}
use gtk4_kee.Transport.Sending.{send-receive}
use gtk4_kee.Ledger.Types.{World, Ledger, LedgerState}
use gtk4_kee.Ledger.Serialize.{serialize_open}
use gtk4_kee.Entry.Send.{send, take_in, dispatch, import_data_accept}

module _ {Node Sexp Mpi Enc : Type 0} (w : World Node Sexp Mpi) (codec : Codec Enc)
    (law : IsCodec codec) where
  accepted :
      (r : Transport) (got : Bytes) (size : ℕ) {input : Bytes}
      → cmd_of r ≡ cmd_ledger
      → take size got ≡ input
      → dispatch codec (r, got, size) ≡ ok input
  unfolding dispatch
  accepted r got size e same = rw (dispatch, e, same) refl

  -- What `kee_entry_handle_confirm` and `kee_entry_handle_add` hand out for a ledger, the import of
  -- another instance takes in as the encoding of that ledger, for the action "ledger": the encoding has
  -- less than 766 bytes, zlib can compress it with the command into no more bytes than it has itself,
  -- the text and its NUL fit in 1024 bytes, and the text in a chunk.
  pub send-import :
      (l : Ledger) (input z out old rest : Bytes) (d : ℕ)
      → serialize_open w l 1024 LedgerState.response ≡ ok input
      → length input < 766
      → codec.deflate (cmd_ledger ∷ input) (length input) ≡ some z
      → length (law.text z) ≤ 767
      → length z ≤ 1024
      → length out ≡ 1024
      → length old ≡ length input + 1
      → (out' : Bytes) × (send w codec l out ≡ ok out')
        × (c_string out' ≡ some (law.text z))
        × (import_data_accept codec (law.text z) (old ++ d ∷ rest) ≡ ok input)
  unfolding send import_data_accept take_in dispatch
  send-import l input z out old rest d e short packed ft fz fo fr =
      let filled = input ++ drop (length input) out in
      let room : length filled ≡ 1024 = omega (
        arith,
        short,
        fo,
        length-append input (drop (length input) out),
        length-drop (length input) out,
      ) in
      let (t, r, sent, got, sends, text, received, same, cmd) =
        send-receive codec law cmd_ledger d input z filled old rest (length input) 1024 refl short
          packed (omega (arith, room, ft)) ft fz (omega (arith, short)) fr in
      let (t1, e1, h) = >>=-eq-ok (single base64 cmd_ledger (length input)) _ sends in
      let (t2, e2, e3) = >>=-eq-ok (write t1 input) _ h in
      (
        sent,
        rw (send, e, put_at-append [] input out (omega (arith, short, fo)), e1, e2, e3) refl,
        text,
        ap (λ m. m >>= dispatch codec) received ∙ accepted r got (length input) cmd same,
      )
