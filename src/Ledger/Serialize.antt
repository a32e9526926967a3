-- ===== src/Ledger/Serialize.antt =====
-- src/ledger.c, the encoders: `kee_ledger_serialize`, `kee_ledger_digest`,
-- `kee_ledger_item_serialize`, `kee_ledger_item_serialize_db` and `kee_ledger_serialize_open`.
-- A buffer's size is an argument; what is written is the result.
use gtk4_kee.Prelude.{ℕ, ◌&&◌, List, [], ◌∷◌, ◌++◌, some, none, ltb, if◌then◌else◌, take}
use gtk4_kee.Prelude.Bytes.{Bytes, native_bytes, c_string}
use gtk4_kee.Prelude.Result.{Result, ok, fault, ◌>>=◌, or_code}
use gtk4_kee.Content.{zero_content}
use gtk4_kee.Crypto.{calculate_digest_algo}
use gtk4_kee.Crypto.Library.{sha512}
use gtk4_kee.Ledger.Asn1.{
  entry_head, entry, transport, head_field, entry_field, part, uoa, uoa_decimals, alice_pub_key,
  bob_pub_key, head_body, parent, timestamp, credit_delta, collateral_delta, body,
  signature_request, response, signature_response,
}
use gtk4_kee.Ledger.Types.{
  World, Ledger, Item, LedgerState, state_code, is_bob, err_fail, digest_length, pubkey_length,
}
use gtk4_kee.Ledger.Items.{sig_request, sig_response}

-- `strlen` of the unit of account; without a NUL in its 64 bytes the call runs into what follows.
abbrev pub text_of : Bytes → Result Bytes
text_of buf = elim (c_string buf) [ some s ↦ ok s | none ↦ fault ]

abbrev pub true_text : Bytes
true_text = b'T' ∷ b'R' ∷ b'U' ∷ b'E' ∷ 0 ∷ []

abbrev pub false_text : Bytes
false_text = b'F' ∷ b'A' ∷ b'L' ∷ b'S' ∷ b'E' ∷ 0 ∷ []

module _ {Node Sexp Mpi : Type 0} (w : World Node Sexp Mpi) where
  -- `kee_ledger_serialize`
  unfoldable pub ledger_serialize : Ledger → ℕ → Result Bytes
  ledger_serialize l size = do
    node ← or_code err_fail w.asn.array2tree
    text ← text_of l.uoa
    node ← w.asn.write_value node (head_field uoa) text
    node ← w.asn.write_value node (head_field uoa_decimals) (l.uoa_decimals ∷ [])
    node ← w.asn.write_value node (head_field alice_pub_key) (take pubkey_length l.pubkey_alice)
    node ← w.asn.write_value node (head_field bob_pub_key) (take pubkey_length l.pubkey_bob)
    node ← w.asn.write_value node (head_field head_body) (take digest_length l.content.key)
    w.asn.der_coding node entry_head size

  -- `kee_ledger_digest`
  unfoldable pub ledger_digest : Ledger → Result Bytes
  unfolding ledger_serialize
  ledger_digest l = do
    out_data ← ledger_serialize l 4096
    or_code err_fail (calculate_digest_algo w.gcry out_data sha512)

  -- `memcpy` of four bytes of a number's memory, and `to_endian` on them
  abbrev pub big_endian_4 : ℕ → ℕ → Result Bytes
  big_endian_4 width v =
      or_code err_fail (w.lash.to_big_endian (take 4 (native_bytes w.lash.is_le width v)))

  -- The 64 bytes written as `parent`: `item->prev_item` is the address of a struct, so what is
  -- copied is the struct's memory.
  abbrev pub parent_bytes : List Item → Bytes
  parent_bytes [] = zero_content
  parent_bytes (p ∷ prev) = w.item_image (p ∷ prev)

  -- `kee_ledger_item_serialize` of an item and the items behind it
  unfoldable pub item_serialize : Item → List Item → ℕ → LedgerState → Result Bytes
  item_serialize item prev size mode =
      let from_bob = is_bob item.initiator in
      do
        node ← or_code err_fail w.asn.array2tree
        node ← w.asn.write_value node (entry_field parent) (parent_bytes prev)
        sec ← big_endian_4 8 item.time_sec
        nsec ← big_endian_4 8 item.time_nsec
        node ← w.asn.write_value node (entry_field timestamp) (sec ++ nsec)
        credit ←
            big_endian_4 4 (if from_bob then item.bob_credit_delta else item.alice_credit_delta)
        collateral ←
            big_endian_4 4
              (if from_bob then item.bob_collateral_delta else item.alice_collateral_delta)
        node ← w.asn.write_value node (entry_field credit_delta) credit
        node ← w.asn.write_value node (entry_field collateral_delta) collateral
        node ← w.asn.write_value node (entry_field body) (take 64 item.content.key)
        node ←
            w.asn.write_value node (entry_field signature_request)
              (if ltb 0 (state_code mode) then take 64 (sig_request item) else [])
        node ←
            w.asn.write_value node (entry_field response)
              (if item.response && ltb 0 (state_code mode) then true_text else false_text)
        node ←
            w.asn.write_value node (entry_field signature_response)
              (if ltb (state_code mode) 2 then [] else take 64 (sig_response item))
        w.asn.der_coding node entry size

  -- `kee_ledger_item_serialize_db`: the encoding and a byte for the initiator. The byte behind the
  -- encoding is written with no test of the buffer's size.
  unfoldable pub item_serialize_db : Item → List Item → ℕ → Result Bytes
  unfolding item_serialize
  item_serialize_db item prev size = do
    out ← or_code err_fail (item_serialize item prev size LedgerState.final)
    ok (out ++ ((if is_bob item.initiator then 1 else 0) ∷ []))

  -- The item of `ledger->last_item`; the null pointer is read through.
  unfoldable pub last_serialize : List Item → ℕ → LedgerState → Result Bytes
  unfolding item_serialize
  last_serialize [] size mode = fault
  last_serialize (item ∷ prev) size mode = item_serialize item prev size mode

  -- `kee_ledger_serialize_open`
  unfoldable pub serialize_open : Ledger → ℕ → LedgerState → Result Bytes
  unfolding ledger_serialize last_serialize
  serialize_open l size mode = do
    root ← or_code err_fail w.asn.array2tree
    head ← or_code err_fail (ledger_serialize l 1024)
    root ← or_code err_fail (w.asn.append root transport)
    root ← or_code err_fail (w.asn.write_value root (part 1) head)
    last ← or_code err_fail (last_serialize l.items 1024 mode)
    root ← or_code err_fail (w.asn.append root transport)
    root ← or_code err_fail (w.asn.write_value root (part 2) last)
    or_code err_fail (w.asn.der_coding root transport size)
