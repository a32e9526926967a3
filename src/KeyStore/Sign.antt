-- ===== src/KeyStore/Sign.antt =====
-- src/gpg.c, `gpg_store_sign` and `gpg_store_sign_with`, and the store as the interface that
-- src/ledger.c signs through.
use gtk4_kee.Prelude.{Option, none, some, take, ℕ}
use gtk4_kee.Prelude.Bytes.{Bytes}
use gtk4_kee.Prelude.Memory.{put_at}
use gtk4_kee.Prelude.Result.{or_code, from_option}
use gtk4_kee.Prelude.Stateful.{◌>>=◌, ◌>>◌, call, current, replace_code}
use gtk4_kee.Crypto.{calculate_digest_algo, point_length}
use gtk4_kee.Crypto.Library.{sha512}
use gtk4_kee.Ledger.Sign.{Signer}
use gtk4_kee.KeyStore.Library.{Token, r, s, Around}
use gtk4_kee.KeyStore.File.{released, deref, Session, FindMode, main, by_fingerprint}
use gtk4_kee.KeyStore.Load.{Call, modify_store, gpg_key_load}

-- `if (fingerprint == NULL)`
abbrev pub find_mode : Option Bytes → FindMode
find_mode none = main
find_mode (some fingerprint) = by_fingerprint fingerprint

module _ {Sexp Mpi Files : Type 0} (w : Around Sexp Mpi Files) where
  -- The digest of the data, written to `last_data`
  unfoldable pub write_digest : Bytes → Call w (Unit {0})
  write_digest data' = do
    digest ← call (or_code 1 (calculate_digest_algo w.gcry data' sha512))
    g ← current
    bs ← call (put_at 0 digest g.store.last_data)
    modify_store w (λ g. record g { last_data = bs })

  -- The signature of what stands in `last_data`
  unfoldable pub sign_digest : Call w Sexp
  sign_digest = do
    g ← current
    msg ← call (from_option 1 (w.gcry.build_msg (take 64 g.store.last_data)))
    key ← call (deref g.store.k)
    call (from_option 1 (w.keys.pk_sign msg key))

  -- The lines that retrieve a part of the signature and write it
  unfoldable pub write_point : Sexp → Token → ℕ → Call w (Unit {0})
  write_point sig token at = do
    pnt ← call (from_option 1 (w.keys.find_token (some sig) token))
    p ← call (from_option 1 (w.keys.nth_data pnt))
    g ← current
    bs ← call (put_at at p g.store.last_signature)
    modify_store w (λ g. record g { last_signature = bs })

  -- `gpg_store_sign_with`
  unfoldable pub gpg_store_sign_with : Bytes → Bytes → Option Bytes → Call w (Unit {0})
  unfolding write_digest sign_digest write_point
  gpg_store_sign_with data' passphrase fingerprint = do
    write_digest data'
    replace_code 1 (gpg_key_load w passphrase (find_mode fingerprint))
    sig ← sign_digest
    write_point sig r 0
    write_point sig s point_length
    modify_store w (λ g. record g { k = released })

  -- `gpg_store_sign`
  unfoldable pub gpg_store_sign : Bytes → Bytes → Call w (Unit {0})
  unfolding gpg_store_sign_with
  gpg_store_sign data' passphrase = gpg_store_sign_with data' passphrase none

  -- The store as src/ledger.c calls it
  abbrev pub store_signer : Signer (Session Sexp Files)
  store_signer = record {
    fingerprint = λ g. g.store.fingerprint;
    public_key = λ g. g.store.public_key;
    last_signature = λ g. g.store.last_signature;
    sign_with =
        λ g data' passphrase fingerprint. gpg_store_sign_with data' passphrase (some fingerprint) g;
  }
