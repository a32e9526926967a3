-- ===== src/Examples/Ledgers.antt =====
-- A ledger of one item: signing it, verifying it.
use gtk4_kee.Prelude.{List, [], ◌∷◌, replicate}
use gtk4_kee.Prelude.Bytes.{Bytes, native_bytes, le_bytes, c_string}
use gtk4_kee.Prelude.Result.{Result, ok}
use gtk4_kee.Ledger.Types.{Ledger, Item, alice, LedgerState}
use gtk4_kee.Ledger.Items.{blank_item, blank_ledger}
use gtk4_kee.Ledger.Serialize.{item_serialize, ledger_digest}
use gtk4_kee.Crypto.{calculate_digest_algo}
use gtk4_kee.Ledger.Verify.{signed_data}
use gtk4_kee.Ledger.Sign.{Signer}
use gtk4_kee.Examples.Surroundings.{surroundings, signature_of}

abbrev pub alice_key : Bytes
alice_key = replicate 32 7

abbrev pub bob_key : Bytes
bob_key = replicate 32 8

abbrev pub draft : Item
draft = record blank_item { alice_credit_delta = 42; time_sec = 1700000000; initiator = alice }

abbrev pub empty : Ledger
empty = record blank_ledger {
  pubkey_alice = alice_key;
  pubkey_bob = bob_key;
  uoa_decimals = 2;
  uoa = 85 ∷ 83 ∷ 68 ∷ replicate 61 0;
}

abbrev bytes_of : Result Bytes → Bytes
bytes_of (ok bs) = bs
bytes_of _ = []

-- The data that a party signs
unfoldable pub data_of : Item → List Item → LedgerState → Bytes
unfolding signed_data ledger_digest item_serialize calculate_digest_algo native_bytes le_bytes
    c_string
data_of item prev mode =
    signed_data surroundings (bytes_of (ledger_digest surroundings empty))
      (bytes_of (item_serialize surroundings item prev 960 mode))

unfoldable pub request_of : Item → List Item → Item
unfolding data_of
request_of item prev = record item {
  alice_signature = signature_of alice_key (data_of item prev LedgerState.request);
}

unfoldable pub answer_of : Item → List Item → Item
unfolding data_of
answer_of item prev = record item {
  bob_signature = signature_of bob_key (data_of item prev LedgerState.response);
}

-- An item with both signatures, one whose answer is no signature, and one with a bad request
unfoldable pub answered : Item
unfolding request_of answer_of
answered = answer_of (request_of draft []) []

unfoldable pub forged : Item
unfolding request_of
forged = record (request_of draft []) { bob_signature = replicate 64 1 }

unfoldable pub tampered : Item
unfolding answered
tampered = record answered { alice_credit_delta = 43 }

unfoldable pub later : Item
unfolding request_of tampered
later = request_of draft (tampered ∷ [])

abbrev pub ledger_with : List Item → Ledger
ledger_with items = record empty { items = items }

-- A key store whose state is the last signature
abbrev pub signer : Signer Bytes
signer = record {
  fingerprint = λ store. [];
  public_key = λ store. alice_key;
  last_signature = λ store. store;
  sign_with = λ store data' passphrase fingerprint. (ok tt, signature_of alice_key data');
}
