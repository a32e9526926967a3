-- ===== src/KeyStore/RoundTrip.antt =====
-- The file that `key_create_file` of src/gpg.c writes, read by `key_from_file`.
use gtk4_kee.Prelude.{
  ℕ, ◌+◌, ◌-◌, ◌*◌, ◌/◌, ◌≤◌, ◌<◌, ◌≡◌, sym, ap, ◌∙◌, ◌++◌, some, take, drop, length, true, false,
  ltb, ◌==◌, arith, length-append, subst,
}
use gtk4_kee.Prelude.Bytes.{Bytes, le_bytes, native_value, length-le_bytes}
use gtk4_kee.Prelude.Result.{
  ◌>>=◌, ok, or_code, or_code-eq-ok, from_option, fault_if, ok-injective, fault_if-eq-ok,
}
use gtk4_kee.Prelude.Stateful.{
  >>=-succeeds, >>-succeeds, called, tested, looked, replace_code, call,
}
use gtk4_kee.KeyStore.Library.{Around}
use gtk4_kee.KeyStore.Cipher.{get_padsize, encryptb, padb, nonce_length}
use gtk4_kee.KeyStore.File.{
  Session, key_filename, key_from_file, open_key, key_from_data, read_items, items_max, size_of_int,
  err_keyfail, err_nokey,
}
use gtk4_kee.KeyStore.Text.{buflen, key_text}
use gtk4_kee.KeyStore.Create.{key_create, key_create_file, write_file, encrypt_blocksize}
use gtk4_kee.KeyStore.Padding.{get_padsize-bounds}
use gtk4_kee.KeyStore.Stored.{IsDisk, IsCipher}
use gtk4_kee.KeyStore.Sealed.{not_above, decryptb-encryptb}
use gtk4_kee.KeyStore.KeyFile.{
  long, file_written, parsed, opened_key, read_back, on_le, text_of, printed_whole,
}

module _ {Sexp Mpi Files : Type 0} (w : Around Sexp Mpi Files) where
  module _ (disk_law : IsDisk w.disk) (law : IsCipher w.keys) (le : w.is_le ≡ true) where
    -- A file that holds a nonce and an encrypted key
    read_key :
        (files : Files) (path passphrase c : Bytes) (key : Sexp) (p k : ℕ)
        → w.disk.content files path ≡ some (w.keys.create_nonce 12 ++ c)
        → encryptb w.keys p
            (le_bytes 4 (length (w.keys.sprint key)) ++ w.keys.sprint key)
            passphrase
            (w.keys.create_nonce 12)
          ≡ ok c
        → length (w.keys.sprint key) < 1048576
        → p ≡ k * 1024
        → k ≤ 1024
        → key_from_file w files path passphrase ≡ ok (some key)
    unfolding key_from_file padb
    read_key files path passphrase c key p k stored sealed small e k_small =
        let (size, fits, opened) =
          decryptb-encryptb w.keys law p
            (le_bytes 4 (length (w.keys.sprint key)) ++ w.keys.sprint key) passphrase
            (w.keys.create_nonce 12) c sealed in
        let (nonce, items) =
          read_back w k (w.keys.create_nonce 12) c (law.nonce_long 12) (size ∙ e) k_small in
        ap
          (λ o. from_option err_nokey o >>= λ file.
            open_key w (read_items items_max (drop nonce_length file)) (take nonce_length file)
              passphrase)
          stored
        ∙ ap (λ v. open_key w v (take nonce_length (w.keys.create_nonce 12 ++ c)) passphrase) items
        ∙ ap (λ n. open_key w c n passphrase) nonce
        ∙ opened_key w c (w.keys.create_nonce 12) passphrase
            (some_item {n = length c} (omega (arith, size, fits, data_size))) opened
            (key_of (
              w.keys.randomize
                (p - length (le_bytes 4 (length (w.keys.sprint key)) ++ w.keys.sprint key))))
      where
        data_size :
            length (le_bytes 4 (length (w.keys.sprint key)) ++ w.keys.sprint key)
            ≡ 4 + length (w.keys.sprint key)
        data_size = omega (
          arith,
          length-append (le_bytes 4 (length (w.keys.sprint key))) (w.keys.sprint key),
          length-le_bytes 4 (length (w.keys.sprint key)),
        )

        some_item : {n : ℕ} → 0 < n → (n == 0) ≡ false
        some_item h = ground arith

        key_of :
            (rest : Bytes)
            → let outdata = le_bytes 4 (length (w.keys.sprint key)) ++ w.keys.sprint key ++ rest in
              let c = size_of_int (native_value w.is_le (take 4 outdata)) in
              (fault_if (ltb (length outdata) (4 + c)) >>= λ _.
              ok ((key_from_data w (take c (drop 4 outdata))).1))
              ≡ ok (some key)
        key_of rest =
            let (c_size, text) = text_of w (w.keys.sprint key) rest small in
            let c_eq =
              ap size_of_int (
                on_le w w.is_le le
                  (take 4 (le_bytes 4 (length (w.keys.sprint key)) ++ w.keys.sprint key ++ rest)))
              ∙ c_size in
            let text' =
              subst
                (λ c.
                  take c
                    (drop 4 (le_bytes 4 (length (w.keys.sprint key)) ++ w.keys.sprint key ++ rest))
                  ≡ w.keys.sprint key)
                c_size text in
            let outdata = le_bytes 4 (length (w.keys.sprint key)) ++ w.keys.sprint key ++ rest in
            subst
              (λ c.
                (fault_if (ltb (length outdata) (4 + c)) >>= λ _.
                ok ((key_from_data w (take c (drop 4 outdata))).1))
                ≡ ok (some key))
              (sym c_eq)
              (rw (long (w.keys.sprint key) rest, text')
                (ap ok (parsed w (w.keys.sprint key) key (law.reads key))))

    c_small :
        (v passphrase c : Bytes) (p : ℕ)
        → encryptb w.keys p v passphrase (w.keys.create_nonce 12) ≡ ok c
        → ltb buflen p ≡ false
        → length c ≤ 1048576
    c_small v passphrase c p sealed in_buffer =
        let (c_size, _, _) =
          decryptb-encryptb w.keys law p v passphrase (w.keys.create_nonce 12) c sealed in
        omega (arith, c_size, not_above in_buffer)

    -- The steps behind the new key, and what they leave in the file
    file_read :
        (passphrase path v c : Bytes) (key : Sexp) (p : ℕ) (g g' : Session Sexp Files)
        → key_text w key ≡ ok v
        → get_padsize (length v - 4) encrypt_blocksize ≡ ok p
        → encryptb w.keys p v passphrase (w.keys.create_nonce 12) ≡ ok c
        → ltb buflen p ≡ false
        → write_file w path (w.keys.create_nonce 12) c g ≡ (ok tt, g')
        → 2 * length (w.keys.sprint key) < buflen
        → key_from_file w g'.files path passphrase ≡ ok (some key)
    file_read passphrase path v c key p g g' text padded sealed in_buffer written small =
        let printed' = printed_whole w key v le small text in
        let size : length v - 4 ≡ length (w.keys.sprint key) = omega (
          arith,
          ap length printed',
          length-append (le_bytes 4 (length (w.keys.sprint key))) (w.keys.sprint key),
          length-le_bytes 4 (length (w.keys.sprint key)),
        ) in
        let (p', padded', multiple, _, _) =
          get_padsize-bounds (length v - 4) encrypt_blocksize (omega arith)
            (omega (arith, size, small)) in
        let same : p ≡ p' = ok-injective (sym padded ∙ padded') in
        let below : p ≤ 1048576 = not_above in_buffer in
        let (stored, _) =
          file_written w disk_law path (w.keys.create_nonce 12) c g g'
            (c_small v passphrase c p sealed in_buffer) written in
        read_key g'.files path passphrase c key p (p / 1024) stored
          (subst (λ v. encryptb w.keys p v passphrase (w.keys.create_nonce 12) ≡ ok c)
            (sym printed') sealed)
          (omega (arith, small)) (omega (arith, multiple, same)) (omega (arith, below))

    -- The file that `key_create_file` writes, `key_from_file` reads as the key that was made, under the
    -- same passphrase and the name that `key_filename` gives: on a machine that is little-endian, where
    -- the text of the key takes less than half of BUFLEN, the disk has room, and the cipher is undone.
    pub key_create_file-key_from_file :
        (passphrase path : Bytes) (key : Sexp) (g g' : Session Sexp Files)
        → key_create_file w passphrase g ≡ (ok key, g')
        → 2 * length (w.keys.sprint key) < buflen
        → key_filename w g'.store ≡ ok path
        → key_from_file w g'.files path passphrase ≡ ok (some key)
    unfolding key_create_file call
    key_create_file-key_from_file passphrase path key g g' h small name =
        let (key', g1, _, h) = >>=-succeeds (replace_code err_keyfail (key_create w)) _ h in
        let (v, text, h) = called (key_text w key') _ h in
        let (p, padded, h) = called (get_padsize (length v - 4) encrypt_blocksize) _ h in
        let (c, sealed, h) =
          called
            (or_code err_keyfail
              (encryptb w.keys p v passphrase (w.keys.create_nonce nonce_length)))
            _ h in
        let sealed' =
          or_code-eq-ok err_keyfail
            (encryptb w.keys p v passphrase (w.keys.create_nonce nonce_length)) sealed in
        let (in_buffer, h) = tested (fault_if (ltb buflen p)) _ h in
        let (path', name', h) = called (key_filename w g1.store) _ (looked _ h) in
        let (g2, written, h) =
          >>-succeeds (write_file w path' (w.keys.create_nonce nonce_length) c) _ h in
        let one_key : key' ≡ key = ok-injective (ap (λ o. o.0) h) in
        let last : g2 ≡ g' = ap (λ o. o.1) h in
        let (_, kept) =
          file_written w disk_law path' (w.keys.create_nonce nonce_length) c g1 g2
            (c_small v passphrase c p sealed' (fault_if-eq-ok (ltb buflen p) in_buffer)) written in
        let one_path : path' ≡ path = ok-injective (
          sym name'
          ∙ ap (key_filename w) (kept ∙ ap (λ (g : Session Sexp Files). g.store) last)
          ∙ name) in
        subst (λ files. key_from_file w files path passphrase ≡ ok (some key))
          (ap (λ (g : Session Sexp Files). g.files) last)
          (subst (λ path. key_from_file w g2.files path passphrase ≡ ok (some key)) one_path
            (subst (λ key. key_from_file w g2.files path' passphrase ≡ ok (some key)) one_key
              (file_read passphrase path' v c key' p g1 g2 text padded sealed'
                (fault_if-eq-ok (ltb buflen p) in_buffer) written
                (subst (λ key. 2 * length (w.keys.sprint key) < buflen) (sym one_key) small))))
