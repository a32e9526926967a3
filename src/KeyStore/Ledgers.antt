-- ===== src/KeyStore/Ledgers.antt =====
-- `kee_ledger_sign` of src/ledger.c with the key store of src/gpg.c behind it.
use gtk4_kee.Prelude.{◌≡◌, List}
use gtk4_kee.Prelude.Bytes.{Bytes}
use gtk4_kee.Prelude.Result.{ok}
use gtk4_kee.Ledger.Types.{World, Ledger, Item}
use gtk4_kee.Ledger.Sign.{ledger_sign}
use gtk4_kee.Ledger.SignVerify.{own_check, ledger_sign-verify_for}
use gtk4_kee.KeyStore.Library.{Around}
use gtk4_kee.KeyStore.File.{Session}
use gtk4_kee.KeyStore.Sign.{store_signer}
use gtk4_kee.KeyStore.Sound.{IsSigning, IsKept}
use gtk4_kee.KeyStore.Accepted.{store_signer-IsSoundFor}

-- The key store is what `kee_ledger_sign` wants of one, but for the signatures that `gpg_store_verify`
-- does not put together as they were: after a call that succeeds, the check that `kee_ledger_verify`
-- makes of the new signature succeeds, where each of its two parts is the shortest text of its integer
-- in two's complement, libgcrypt is as documented and the same one for the ledger and the key store,
-- and the ledger names the key that was loaded as the key of its first party.
pub ledger_sign-store :
    {Node Sexp Mpi Files : Type 0} (l : World Node Sexp Mpi) (w : Around Sexp Mpi Files)
    → IsSigning w.gcry w.keys
    → l.gcry ≡ w.gcry
    → (ledger : Ledger) (item : Item) (prev : List Item) (g : Session Sexp Files)
      (passphrase : Bytes)
    → (ledger_sign l (store_signer w) ledger item prev g passphrase).0 ≡ ok tt
    → ledger.pubkey_alice
      ≡ (ledger_sign l (store_signer w) ledger item prev g passphrase).2.store.public_key
    → IsKept (ledger_sign l (store_signer w) ledger item prev g passphrase).1.alice_signature
    → own_check l
        (store_signer w)
        ledger
        item
        prev
        g
        passphrase
        (ledger_sign l (store_signer w) ledger item prev g passphrase).1
      ≡ ok tt
ledger_sign-store l w law same ledger item prev g passphrase e key kept =
    ledger_sign-verify_for l (store_signer w) ledger item prev g passphrase IsKept
      (store_signer-IsSoundFor w law l same) e key kept
