-- ===== src/KeyStore/Create.antt =====
-- src/gpg.c, a new key and its file: `key_create`, `key_create_file` and `gpg_key_create`. The code of
-- an error of the library is ERR_KEYFAIL everywhere.
use gtk4_kee.Prelude.{ℕ, ◌-◌, [], ◌∷◌, some, length, not, ltb}
use gtk4_kee.Prelude.Bytes.{Bytes}
use gtk4_kee.Prelude.Result.{ok, or_code, from_option, fail_if, fault_if}
use gtk4_kee.Prelude.Stateful.{◌>>=◌, ◌>>◌, call, current, modify, replace_code}
use gtk4_kee.KeyStore.Library.{Around}
use gtk4_kee.KeyStore.Cipher.{get_padsize, encryptb, nonce_length}
use gtk4_kee.KeyStore.File.{err_keyfail, items_max, in_path, main_name, key_filename}
use gtk4_kee.KeyStore.Text.{buflen, key_text, write_items}
use gtk4_kee.KeyStore.Load.{Call, modify_store, key_apply_public}

abbrev pub encrypt_blocksize : ℕ
encrypt_blocksize = 4096

-- "(genkey(ecc(flags eddsa)(curve Ed25519)))"
abbrev pub sexp_quick : Bytes
sexp_quick =
    40 ∷ 103 ∷ 101 ∷ 110 ∷ 107 ∷ 101 ∷ 121 ∷ 40 ∷ 101 ∷ 99 ∷ 99 ∷ 40 ∷ 102 ∷ 108 ∷ 97 ∷ 103 ∷ 115
    ∷ 32 ∷ 101 ∷ 100 ∷ 100 ∷ 115 ∷ 97 ∷ 41 ∷ 40 ∷ 99 ∷ 117 ∷ 114 ∷ 118 ∷ 101 ∷ 32 ∷ 69 ∷ 100 ∷ 50
    ∷ 53 ∷ 53 ∷ 49 ∷ 57 ∷ 41 ∷ 41 ∷ 41 ∷ []

module _ {Sexp Mpi Files : Type 0} (w : Around Sexp Mpi Files) where
  unfoldable pub key_create : Call w Sexp
  key_create = do
    param ← call (from_option err_keyfail (w.keys.sexp_new sexp_quick))
    key ← call (from_option err_keyfail (w.keys.genkey param))
    grip ← call (from_option err_keyfail (w.keys.keygrip (some key)))
    modify_store w (λ g. record g { fingerprint = grip })
    replace_code err_keyfail (key_apply_public w (some key))
    call (ok key)

  -- The lines that open the file and write to it
  unfoldable pub write_file : Bytes → Bytes → Bytes → Call w (Unit {0})
  write_file path nonce ciphertext = do
    g ← current
    files ← call (from_option err_keyfail (w.disk.create g.files path))
    let (whole, files') = w.disk.append files path nonce
    modify (λ g. record g { files = files' })
    call (fail_if (not whole) err_keyfail)
    modify (λ g. record g { files = write_items w.disk path items_max ciphertext files' })

  -- `key_create_file`, with the key that it makes
  unfoldable pub key_create_file : Bytes → Call w Sexp
  unfolding key_create write_file
  key_create_file passphrase = do
    key ← replace_code err_keyfail key_create
    v ← call (key_text w key)
    c ← call (get_padsize (length v - 4) encrypt_blocksize)
    ciphertext ←
        call
          (or_code err_keyfail (encryptb w.keys c v passphrase (w.keys.create_nonce nonce_length)))
    call (fault_if (ltb buflen c))
    g ← current
    path ← call (key_filename w g.store)
    write_file path (w.keys.create_nonce nonce_length) ciphertext
    call (ok key)

  -- `gpg_key_create`
  unfoldable pub gpg_key_create : Bytes → Call w (Unit {0})
  unfolding key_create_file
  gpg_key_create passphrase = do
    _ ← replace_code err_keyfail (key_create_file passphrase)
    g ← current
    key_path ← call (key_filename w g.store)
    link_path ← call (in_path g.store.path main_name)
    let (unlinked, files) = w.disk.unlink g.files link_path
    modify (λ g. record g { files = files })
    call (fail_if (not unlinked) err_keyfail)
    let (linked, files') = w.disk.symlink files key_path link_path
    modify (λ g. record g { files = files' })
    call (fail_if (not linked) err_keyfail)
