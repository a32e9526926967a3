-- ===== src/Examples/Keys.antt =====
-- The theorems on the key store, on small data.
use gtk4_kee.Prelude.{
  ℕ, ◌+◌, ◌≤◌, ◌<◌, ◌%◌, ◌≡◌, refl, [], ◌∷◌, none, some, replicate, arith, true, false,
}
use gtk4_kee.Prelude.Bytes.{byte, end, Bytes, native_bytes, le_bytes, native_value, le_value}
use gtk4_kee.Prelude.Memory.{put_at}
use gtk4_kee.Prelude.Result.{Result, ok, err, fault}
use gtk4_kee.Prelude.Stateful.{◌>>=◌, ◌>>◌, call, current, modify, proceed, replace_code}
use gtk4_kee.Crypto.{calculate_digest_algo, calculate_digest}
use gtk4_kee.KeyStore.Cipher.{
  encrypt, decrypt, decryptb, get_padsize, encryptb, create_handle, padb,
}
use gtk4_kee.KeyStore.Sealed.{encrypt-decrypt}
use gtk4_kee.KeyStore.Padding.{get_padsize-bounds}
use gtk4_kee.KeyStore.Missing.{gpg_store_check-missing}
use gtk4_kee.KeyStore.Check.{gpg_store_check, gpg_store_digest}
use gtk4_kee.KeyStore.Text.{key_text, write_items}
use gtk4_kee.KeyStore.Create.{key_create_file, key_create, write_file}
use gtk4_kee.KeyStore.RoundTrip.{key_create_file-key_from_file}
use gtk4_kee.KeyStore.Load.{key_apply_public, gpg_key_load, load_file}
use gtk4_kee.KeyStore.File.{
  key_path, key_from_data, open_key, read_items, main_name, key_from_file, key_filename, Session,
  held,
}
use gtk4_kee.KeyStore.Sign.{gpg_store_sign_with, write_digest, sign_digest, write_point}
use gtk4_kee.Prelude.Bytes.{c_string}
use gtk4_kee.Ledger.Types.{Item}
use gtk4_kee.Ledger.Sign.{ledger_sign, data_to_sign, sign_data, store_signature}
use gtk4_kee.Ledger.SignVerify.{own_check}
use gtk4_kee.Ledger.Serialize.{ledger_digest, item_serialize}
use gtk4_kee.Ledger.Verify.{signed_data}
use gtk4_kee.KeyStore.Sign.{store_signer}
use gtk4_kee.KeyStore.Ledgers.{ledger_sign-store}
use gtk4_kee.Examples.Ledgers.{draft, ledger_with, data_of}
use gtk4_kee.Examples.Surroundings.{surroundings}
use gtk4_kee.Examples.Keyring.{
  alice_key, keys, Files, around, disk-IsDisk, keys-IsCipher, keys-IsSigning,
}

abbrev start : Session Bytes Files
start = record {
  store = record {
    k = held none;
    passphrase_digest_len = 32;
    fingerprint = replicate 20 5;
    public_key = replicate 32 0;
    path = 47 ∷ [];
    last_signature = replicate 64 0;
    last_data = replicate 64 0;
  };
  files = λ path. none;
  version_set = false;
}

abbrev passphrase : Bytes
passphrase = replicate 32 1

get_padsize-bounds_example :
    (p : ℕ) × (get_padsize 11 5 ≡ ok p) × (p % 5 ≡ 0) × (11 < p) × (p ≤ 11 + 5)
get_padsize-bounds_example = get_padsize-bounds 11 5 (omega arith) (omega arith)

gpg_store_check-missing_example :
    (gpg_store_check around passphrase start ≡ (err 1, record start { version_set = true }))
    × ((passphrase' : Bytes)
        → (gpg_store_check around passphrase' (gpg_store_check around passphrase start).1).0
          ≡ fault)
unfolding gpg_store_digest calculate_digest calculate_digest_algo put_at
gpg_store_check-missing_example =
    gpg_store_check-missing around passphrase (replicate 32 32) (47 ∷ main_name) start refl refl
      refl refl refl

abbrev pub made : Session Bytes Files
made = (key_create_file around passphrase start).1

key_create_file-key_from_file_example :
    key_from_file around made.files (47 ∷ replicate 20 5) passphrase ≡ ok (some alice_key)
unfolding key_create_file key_create key_apply_public write_file key_text write_items get_padsize
    encryptb create_handle padb key_filename ◌>>=◌ ◌>>◌ proceed call current modify replace_code
    native_bytes le_bytes
key_create_file-key_from_file_example =
    key_create_file-key_from_file around disk-IsDisk keys-IsCipher refl passphrase
      (47 ∷ replicate 20 5) alice_key start made refl (omega arith) refl

-- Data that is signed with the key of that file
abbrev signed : Session Bytes Files
signed = (gpg_store_sign_with around (1 ∷ 2 ∷ 3 ∷ []) passphrase (some (replicate 20 5)) made).1

encrypt-decrypt_example :
    decrypt keys (replicate 5 9) (72 ∷ 105 ∷ 0 ∷ replicate 5 3) alice_key (replicate 12 4)
    ≡ ok (72 ∷ 105 ∷ 0 ∷ 9 ∷ 9 ∷ [])
unfolding encrypt create_handle padb
encrypt-decrypt_example =
    encrypt-decrypt keys keys-IsCipher 8 (72 ∷ 105 ∷ []) alice_key (replicate 12 4)
      (72 ∷ 105 ∷ 0 ∷ replicate 5 3) (replicate 5 9) (byte refl (byte refl end)) refl (omega arith)

-- An item that is signed with the key of that file
abbrev ledger_signed : Result (Unit {0}) × Item × Session Bytes Files
ledger_signed =
    ledger_sign surroundings (store_signer around) (ledger_with (draft ∷ [])) draft [] made
      passphrase

ledger_sign-store_example :
    own_check surroundings
      (store_signer around)
      (ledger_with (draft ∷ []))
      draft
      []
      made
      passphrase
      ledger_signed.1
    ≡ ok tt
unfolding ledger_sign data_to_sign sign_data store_signature data_of ledger_digest item_serialize
    signed_data c_string gpg_store_sign_with write_digest sign_digest write_point gpg_key_load
    load_file key_path key_from_file key_from_data open_key decryptb read_items native_value
    le_value calculate_digest_algo put_at key_create_file key_create key_apply_public write_file
    key_text write_items get_padsize encryptb create_handle padb key_filename ◌>>=◌ ◌>>◌ proceed
    call current modify replace_code native_bytes le_bytes
ledger_sign-store_example =
    ledger_sign-store surroundings around keys-IsSigning refl (ledger_with (draft ∷ [])) draft []
      made passphrase refl refl (refl, refl)
