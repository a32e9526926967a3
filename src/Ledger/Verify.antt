-- ===== src/Ledger/Verify.antt =====
-- src/ledger.c, the checks of signatures: `get_message_asn`, `verify_item_data`,
-- `verify_item_asn`, `get_authentication_params`, `verify_item` and `kee_ledger_verify`.
use gtk4_kee.Prelude.{
  ℕ, ◌+◌, List, [], ◌∷◌, ◌++◌, Option, none, some, ltb, ◌==◌, if◌then◌else◌, take, length, overlay,
}
use gtk4_kee.Prelude.Bytes.{Bytes}
use gtk4_kee.Prelude.Result.{Result, ok, err, fault, ◌>>=◌, ◌>>◌, or_code, fault_if}
use gtk4_kee.Crypto.{calculate_digest_algo, gpg_store_verify}
use gtk4_kee.Crypto.Library.{sha512}
use gtk4_kee.Ledger.Asn1.{
  EntryField, entry, entry_field, parent, timestamp, credit_delta, collateral_delta, body,
  signature_request, response, signature_response,
}
use gtk4_kee.Ledger.Types.{
  World, buffer, Ledger, Item, Initiator, noone, is_bob, is_noone, LedgerState, state_code,
  err_fail, digest_length,
}
use gtk4_kee.Ledger.Items.{is_signed, sig_request, sig_response}
use gtk4_kee.Ledger.Serialize.{ledger_digest, item_serialize}

-- What `get_authentication_params` hands back: two keys, and two signatures that are NULL where
-- the item has only zeros.
pub record Auth : Type 0 where
  pub pubkey_request : Bytes
  pub sig_request : Option Bytes
  pub pubkey_response : Bytes
  pub sig_response : Option Bytes

-- `if (!memcmp(sig, zero_content, SIGNATURE_LENGTH)) sig = NULL;`
abbrev pub signature_or_null : Bytes → Option Bytes
signature_or_null sig = if is_signed sig then some sig else none

-- The item, whose initiator is written where it was missing, and the parameters.
unfoldable pub get_authentication_params : Ledger → Item → Initiator → Result (Item × Auth)
get_authentication_params l item who =
    let who' = if is_noone item.initiator then who else item.initiator in
    let item' = record item { initiator = who' } in
    let from_bob = is_bob who' in
    if is_noone who'
    then err err_fail
    else ok (
      item',
      record {
        pubkey_request = if from_bob then l.pubkey_bob else l.pubkey_alice;
        sig_request = signature_or_null (sig_request item');
        pubkey_response = if from_bob then l.pubkey_alice else l.pubkey_bob;
        sig_response = signature_or_null (sig_response item');
      },
    )

-- `r` was set by a first call and is set again by a second, which is made all the same.
abbrev pub overwritten : Result (Unit {0}) → Result (Unit {0}) → Result (Unit {0})
overwritten fault second = fault
overwritten (ok _) second = second
overwritten (err _) second = second

module _ {Node Sexp Mpi : Type 0} (w : World Node Sexp Mpi) where
  -- `verify_item_data`
  unfoldable pub verify_item_data : Bytes → Bytes → Bytes → Result (Unit {0})
  verify_item_data item_data sig_data pubkey_data = if length item_data == 0 then ok tt else (do
    b ← or_code 1 (calculate_digest_algo w.gcry item_data sha512)
    or_code 1 (gpg_store_verify w.gcry sig_data b pubkey_data))

  abbrev copy_field : Node → Node → EntryField → Result Node
  copy_field root item field = w.asn.copy_node root (entry_field field) item (entry_field field)

  -- `get_message_asn`: the digest and the encoding without the signatures that the mode leaves
  -- out. The encoding is allowed `size` bytes, and `room` bytes of the buffer lie behind it.
  unfoldable pub get_message_asn : Ledger → Node → ℕ → ℕ → LedgerState → Result Bytes
  get_message_asn l item size room mode = do
    root ← w.asn.array2tree
    root ← copy_field root item parent
    root ← copy_field root item response
    root ← copy_field root item timestamp
    root ← copy_field root item credit_delta
    root ← copy_field root item collateral_delta
    root ← copy_field root item body
    root ←
        (if state_code mode == 2
          then copy_field root item signature_response
          else w.asn.write_value root (entry_field signature_response) [])
    root ←
        (if ltb 0 (state_code mode)
          then copy_field root item signature_request
          else w.asn.write_value root (entry_field signature_request) [])
    out ← w.asn.der_coding root entry size
    fault_if (ltb room (length out))
    ok (take digest_length l.digest ++ out)

  -- `verify_item_asn`. Of the 1088 bytes of `msg_data` the encoding gets those from 128 on.
  unfoldable pub verify_item_asn : Ledger → Node → Bytes → Result (Unit {0})
  unfolding get_message_asn verify_item_data
  verify_item_asn l item pubkey_last = do
    sig ← or_code 1 (w.asn.read_value item (entry_field signature_response) 64)
    (if length sig == 0 then ok tt else (do
      msg ← or_code 1 (get_message_asn l item 1024 960 LedgerState.response)
      or_code 1 (verify_item_data msg (overlay (buffer w 64) sig) pubkey_last)))

  -- The bytes that are signed: the digest of the ledger in 64 bytes, and the item's encoding. A
  -- digest has 64 bytes at most.
  unfoldable pub signed_data : Bytes → Bytes → Bytes
  unfolding buffer
  signed_data digest encoded = overlay (buffer w digest_length) digest ++ encoded

  -- `verify_item`
  unfoldable pub verify_item :
      Ledger → Item → List Item → LedgerState → Bytes → Bytes → Result (Unit {0})
  verify_item l item prev mode sig pubkey = do
    encoded ← or_code err_fail (item_serialize w item prev 960 mode)
    digest ← or_code err_fail (ledger_digest w l)
    or_code err_fail (verify_item_data (signed_data digest encoded) sig pubkey)

  -- One round of the loop of `kee_ledger_verify`, up to `item = item->prev_item`.
  unfoldable pub verify_round : Ledger → ℕ → Item → List Item → Result (Unit {0})
  unfolding get_authentication_params
  verify_round l idx item prev = do
    (item', auth) ← or_code err_fail (get_authentication_params l item noone)
    first ← elim (auth.sig_response) [
      | none ↦ (if ltb 0 idx then err err_fail else ok (ok tt))
      | some sig ↦ ok (verify_item l item' prev LedgerState.response sig auth.pubkey_response)
    ]
    or_code err_fail (elim (auth.sig_request) [
      | none ↦ first
      | some sig ↦
          overwritten first (verify_item l item' prev LedgerState.request sig auth.pubkey_request)
    ])

  -- The loop, with `*idx` where it ends.
  unfoldable pub verify_from : Ledger → ℕ → Item → List Item → Result (Unit {0}) × ℕ
  verify_from l idx item [] = (verify_round l idx item [], idx)
  verify_from l idx item (p ∷ prev) =
      let rest = verify_from l (idx + 1) p prev in
      elim (verify_round l idx item (p ∷ prev)) [
        | ok _ ↦ rest
        | err c ↦ (err c, idx)
        | fault ↦ (fault, idx)
      ]

  -- `kee_ledger_verify` from a last item, or from NULL
  unfoldable pub verify_chain : Ledger → List Item → Result (Unit {0}) × ℕ
  unfolding verify_from verify_round
  verify_chain l [] = (err err_fail, 0)
  verify_chain l (item ∷ prev) = verify_from l 0 item prev

  -- `kee_ledger_verify`
  unfoldable pub ledger_verify : Ledger → Result (Unit {0}) × ℕ
  unfolding verify_chain
  ledger_verify l = verify_chain l l.items
