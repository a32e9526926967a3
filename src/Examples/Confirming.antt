-- ===== src/Examples/Confirming.antt =====
-- The theorem on `kee_entry_handle_confirm`, for a ledger of one item and an empty database.
use gtk4_kee.Prelude.{ℕ, ◌≡◌, refl, List, [], ◌∷◌, some, replicate, take}
use gtk4_kee.Prelude.Bytes.{Bytes, native_bytes, le_bytes, c_string}
use gtk4_kee.Prelude.Result.{Result, ok}
use gtk4_kee.Database.{Ctx}
use gtk4_kee.Ledger.Types.{Ledger}
use gtk4_kee.Database.Listing.{Entry}
use gtk4_kee.KeyStore.File.{Session}
use gtk4_kee.Prelude.Bytes.{native_value, le_value}
use gtk4_kee.Prelude.Memory.{put_at}
use gtk4_kee.Prelude.Stateful.{◌>>=◌, ◌>>◌, call, current, modify, proceed, replace_code}
use gtk4_kee.Database.{search_key, delivered}
use gtk4_kee.Database.Listing.{from_key, before}
use gtk4_kee.Database.Write.{db_start, db_add, db_finish}
use gtk4_kee.Database.Browse.{db_next, db_rewind, restart, open_new, close_old, forward, matched}
use gtk4_kee.Ledger.Types.{buffer}
use gtk4_kee.Ledger.Keys.{db_key, timespec_to_keypart, key_int, swapped, item_key, put_item}
use gtk4_kee.Ledger.Serialize.{
  ledger_serialize, item_serialize, item_serialize_db, serialize_open, last_serialize,
  ledger_digest,
}
use gtk4_kee.Ledger.Stored.{Committed}
use gtk4_kee.Ledger.Store.{ledger_put, put_items, reverse_found, head_found}
use gtk4_kee.Ledger.Sign.{ledger_sign, data_to_sign, sign_data, store_signature}
use gtk4_kee.Ledger.Verify.{signed_data}
use gtk4_kee.Crypto.{calculate_digest_algo, calculate_digest}
use gtk4_kee.KeyStore.Check.{gpg_store_digest}
use gtk4_kee.KeyStore.Cipher.{decryptb, get_padsize, encryptb, create_handle, padb}
use gtk4_kee.KeyStore.Text.{key_text, write_items}
use gtk4_kee.KeyStore.Create.{key_create_file, key_create, write_file}
use gtk4_kee.KeyStore.Load.{key_apply_public, gpg_key_load, load_file}
use gtk4_kee.KeyStore.File.{
  key_path, key_from_data, open_key, read_items, key_from_file, key_filename,
}
use gtk4_kee.KeyStore.Sign.{gpg_store_sign_with, write_digest, sign_digest, write_point}
use gtk4_kee.Transport.{single, write, next, close, transmit, emit, zeros}
use gtk4_kee.Transport.Pack.{pack, pack_compress, pack_encode, crop_newline}
use gtk4_kee.Entry.Send.{
  passphrase_in, sign_entry, sign_last, signed_ledger, Sent, summary, send, handle_confirm,
}
use gtk4_kee.Entry.Confirmed.{IsSigned, handle_confirm-Confirmed}
use gtk4_kee.Examples.Surroundings.{surroundings}
use gtk4_kee.Examples.Ledgers.{draft, ledger_with}
use gtk4_kee.Examples.Listing.{table}
use gtk4_kee.Examples.Keyring.{around, Files, keys-IsSigning}
use gtk4_kee.Examples.Keys.{made}
use gtk4_kee.Examples.Storing.{fresh}
use gtk4_kee.Examples.Exchanging.{codec}

abbrev request : Ledger
request = ledger_with (draft ∷ [])

abbrev outcome : Result (Sent (Session Bytes Files) × Ctx (List Entry) (List Entry) (List Entry))
outcome =
    handle_confirm surroundings around codec table (some (5, 6)) (summary (b'x' ∷ [])) request made
      fresh (replicate 1024 0)

abbrev Outcome : Type 0
Outcome = Sent (Session Bytes Files) × Ctx (List Entry) (List Entry) (List Entry)

-- What the handler leaves
abbrev done_of : Result Outcome → Outcome
done_of (ok o) = o
done_of _ = (record { out = []; ledger = request; store = made }, fresh)

abbrev done : Outcome
done = done_of outcome

handle_confirm-Confirmed_example :
    IsSigned surroundings around keys-IsSigning refl
      (record request { pubkey_alice = take 32 made.store.public_key })
      (done.0).ledger
      made
    × ((time : ℕ × ℕ) × (some (5, 6) ≡ some time)
        × Committed surroundings table time (done.0).ledger fresh done.1)
    × (send surroundings codec (done.0).ledger (replicate 1024 0) ≡ ok (done.0).out)
unfolding ledger_put put_items reverse_found head_found db_start db_add db_finish db_next db_rewind
    restart open_new close_old forward matched search_key delivered from_key before buffer db_key
    timespec_to_keypart key_int swapped item_key put_item ledger_serialize item_serialize
    item_serialize_db native_bytes le_bytes c_string put_at ◌>>=◌ ◌>>◌ proceed call current modify
    replace_code key_create_file key_create key_apply_public write_file key_text write_items
    get_padsize encryptb create_handle padb key_filename gpg_store_sign_with write_digest
    sign_digest write_point gpg_key_load load_file key_path key_from_file key_from_data open_key
    decryptb read_items native_value le_value calculate_digest_algo ledger_sign data_to_sign
    sign_data store_signature ledger_digest signed_data handle_confirm passphrase_in sign_entry
    sign_last signed_ledger send gpg_store_digest calculate_digest serialize_open last_serialize
    single write next close transmit emit pack pack_compress pack_encode crop_newline zeros
handle_confirm-Confirmed_example =
    handle_confirm-Confirmed surroundings around keys-IsSigning refl codec table (some (5, 6))
      (summary (b'x' ∷ [])) request made fresh (replicate 1024 0) refl refl (refl, refl)
