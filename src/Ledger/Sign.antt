-- ===== src/Ledger/Sign.antt =====
-- `kee_ledger_sign` of src/ledger.c. What it needs of src/gpg.c is an interface.
use gtk4_kee.Prelude.{List, if◌then◌else◌, take}
use gtk4_kee.Prelude.Bytes.{Bytes}
use gtk4_kee.Prelude.Result.{Result, ok, err, fault, ◌>>=◌, ◌>>◌, or_code, fail_if}
use gtk4_kee.Ledger.Types.{
  World, Ledger, Item, LedgerState, is_bob, err_fail, err_already_signed, signature_length,
}
use gtk4_kee.Ledger.Items.{is_signed}
use gtk4_kee.Ledger.Serialize.{ledger_digest, item_serialize}
use gtk4_kee.Ledger.Verify.{signed_data}

-- A `struct gpg_store` and the calls of gpg.h that sign. `sign_with store data passphrase
-- fingerprint` is `gpg_store_sign_with`: its return, and the store after it.
pub record Signer (Store : Type 0) : Type 0 where
  pub fingerprint : Store → Bytes
  pub public_key : Store → Bytes
  pub last_signature : Store → Bytes
  pub sign_with : Store → Bytes → Bytes → Bytes → Result (Unit {0}) × Store

abbrev pub sign_mode : Item → LedgerState
sign_mode item = if is_bob item.initiator then LedgerState.response else LedgerState.request

module _ {Node Sexp Mpi : Type 0} (w : World Node Sexp Mpi) where
  -- The data that `kee_ledger_sign` puts together in `out`
  unfoldable pub data_to_sign : Ledger → Item → List Item → Result Bytes
  data_to_sign l item prev = do
    fail_if (is_signed item.alice_signature) err_already_signed
    digest ← or_code err_fail (ledger_digest w l)
    encoded ← or_code err_fail (item_serialize w item prev 960 (sign_mode item))
    ok (signed_data w digest encoded)

module _ {Store : Type 0} (gpg : Signer Store) where
  -- From the return of `gpg_store_sign_with` on
  unfoldable pub store_signature :
      Item → Result (Unit {0}) × Store → Result (Unit {0}) × Item × Store
  store_signature item (err _, store) = (err err_fail, item, store)
  store_signature item (fault, store) = (fault, item, store)
  store_signature item (ok _, store) = (
    ok tt,
    record item { alice_signature = take signature_length (gpg.last_signature store) },
    store,
  )

  -- From the data on
  unfoldable pub sign_data : Item → Store → Bytes → Result Bytes → Result (Unit {0}) × Item × Store
  unfolding store_signature
  sign_data item store passphrase (err c) = (err c, item, store)
  sign_data item store passphrase fault = (fault, item, store)
  sign_data item store passphrase (ok data') =
      store_signature item (gpg.sign_with store data' passphrase (gpg.fingerprint store))

module _ {Node Sexp Mpi Store : Type 0} (w : World Node Sexp Mpi) (gpg : Signer Store) where
  -- `kee_ledger_sign`: its return, the item and the store after it.
  unfoldable pub ledger_sign :
      Ledger → Item → List Item → Store → Bytes → Result (Unit {0}) × Item × Store
  unfolding data_to_sign sign_data
  ledger_sign l item prev store passphrase =
      sign_data gpg item store passphrase (data_to_sign w l item prev)
