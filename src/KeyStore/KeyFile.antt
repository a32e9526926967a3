-- ===== src/KeyStore/KeyFile.antt =====
-- The steps of `key_create_file` and `key_from_file` of src/gpg.c: the text of a key, and the file.
use gtk4_kee.Prelude.{
  Bool, not, ℕ, ◌+◌, ◌-◌, ◌*◌, ◌≤◌, ◌<◌, ◌^◌, ◌≡◌, refl, sym, ap, ◌∙◌, [], ◌++◌, Option, some, take,
  drop, length, true, false, ltb, ◌==◌, arith, length-append, take-append, drop-append, subst,
}
use gtk4_kee.Prelude.Bytes.{
  Bytes, le_bytes, native_bytes, native_value, le_value, le_value-le_bytes, length-le_bytes,
}
use gtk4_kee.Prelude.Result.{
  Result, ◌>>=◌, ok, from_option, fail_if, fault_if, ok-injective, from_option-eq-ok,
}
use gtk4_kee.Prelude.Stateful.{>>-succeeds, called, tested, looked, modified, modify}
use gtk4_kee.KeyStore.Library.{Around}
use gtk4_kee.KeyStore.Cipher.{decryptb, nonce_length}
use gtk4_kee.KeyStore.File.{
  Session, open_key, key_from_data, read_items, items_max, size_of_int, err_keyfail,
}
use gtk4_kee.KeyStore.Text.{buflen, key_text}
use gtk4_kee.KeyStore.Create.{write_file}
use gtk4_kee.KeyStore.Stored.{IsDisk, write_items_lem, read_items_lem}

pub long :
    (text rest : Bytes)
    → ltb (length (le_bytes 4 (length text) ++ text ++ rest)) (4 + length text) ≡ false
long text rest = ground (
  arith,
  length-append (le_bytes 4 (length text) ++ text) rest,
  length-append (le_bytes 4 (length text)) text,
  length-le_bytes 4 (length text),
)

module _ {Sexp Mpi Files : Type 0} (w : Around Sexp Mpi Files) where
  pub file_written :
      (disk_law : IsDisk w.disk) (path nonce c : Bytes) (g g' : Session Sexp Files)
      → length c ≤ 1048576
      → write_file w path nonce c g ≡ (ok tt, g')
      → (w.disk.content g'.files path ≡ some (nonce ++ c)) × (g.store ≡ g'.store)
  unfolding write_file
  file_written disk_law path nonce c g g' small h =
      let (f, e, h) =
        called (from_option err_keyfail (w.disk.create g.files path)) _ (looked _ h) in
      let empty =
        disk_law.created g.files f path
          (from_option-eq-ok err_keyfail (w.disk.create g.files path) e) in
      let (whole, f') = w.disk.append f path nonce in
      let (g1, h1, h) =
        >>-succeeds (modify (λ (g : Session Sexp Files). record g { files = f' })) _ h in
      let (_, h) = tested (fail_if (not whole) err_keyfail) _ h in
      let one = modified _ h1 in
      let two = modified _ h in
      (
        subst (λ files. w.disk.content files path ≡ some (nonce ++ c))
            (ap (λ (g : Session Sexp Files). g.files) two)
            (write_items_lem w.disk disk_law path items_max c nonce f' small
              (disk_law.appended f path nonce [] empty)),
        ap (λ (g : Session Sexp Files). g.store) one ∙ ap (λ (g : Session Sexp Files). g.store) two,
      )

  pub parsed :
      (text : Bytes) (key : Sexp)
      → w.keys.sexp_new text ≡ some key
      → (key_from_data w text).1 ≡ some key
  unfolding key_from_data
  parsed text key e = rw (key_from_data, e) refl

  -- What `key_from_file` makes of a ciphertext that is opened
  pub opened_key :
      (c nonce passphrase : Bytes) {outdata : Bytes} {o : Result (Option Sexp)}
      → (length c == 0) ≡ false
      → decryptb w.keys c passphrase nonce ≡ ok outdata
      → (let c = size_of_int (native_value w.is_le (take 4 outdata)) in
          fault_if (ltb (length outdata) (4 + c)) >>= λ _.
          ok ((key_from_data w (take c (drop 4 outdata))).1))
        ≡ o
      → open_key w c nonce passphrase ≡ o
  unfolding open_key
  opened_key c nonce passphrase some_items opened h = rw (some_items, opened) h

  -- What a file of a nonce and whole items gives to the cipher
  pub read_back :
      (k : ℕ) (nonce c : Bytes)
      → length nonce ≡ 12
      → length c ≡ k * 1024
      → k ≤ 1024
      → (take nonce_length (nonce ++ c) ≡ nonce)
        × (read_items items_max (drop nonce_length (nonce ++ c)) ≡ c)
  read_back k nonce c n e small = (
    subst (λ n. take n (nonce ++ c) ≡ nonce) n (take-append nonce c),
    ap (read_items items_max) (subst (λ n. drop n (nonce ++ c) ≡ c) n (drop-append nonce c))
        ∙ read_items_lem items_max k c e small,
  )

  pub on_le : (b : Bool) → b ≡ true → (bs : Bytes) → native_value b bs ≡ le_value bs
  unfolding native_value
  on_le b e bs = rw e refl

  -- The text of a key behind its length, and what `key_from_file` takes of it
  pub text_of :
      (text rest : Bytes)
      → length text < 1048576
      → let c = size_of_int (le_value (take 4 (le_bytes 4 (length text) ++ text ++ rest))) in
        (c ≡ length text) × (take c (drop 4 (le_bytes 4 (length text) ++ text ++ rest)) ≡ text)
  unfolding le_bytes
  text_of text rest small =
      (same, subst (λ n. take n (text ++ rest) ≡ text) (sym same) (take-append text rest))
    where
      value : le_value (le_bytes 4 (length text)) ≡ length text
      value = le_value-le_bytes 4 (length text) (omega (arith, small))

      low : ltb (length text) (2 ^ 31) ≡ true
      low = ground (arith, small)

      same : size_of_int (le_value (le_bytes 4 (length text))) ≡ length text
      same = rw (value, low) refl

  -- The buffer that is encrypted
  pub printed_whole :
      (key : Sexp) (v : Bytes)
      → w.is_le ≡ true
      → 2 * length (w.keys.sprint key) < buflen
      → key_text w key ≡ ok v
      → le_bytes 4 (length (w.keys.sprint key)) ++ w.keys.sprint key ≡ v
  unfolding key_text native_bytes le_bytes
  printed_whole key v le small h =
      let room : ltb (buflen - (length (w.keys.sprint key) + 2)) (length (w.keys.sprint key))
          ≡ false =
        ground (arith, small) in
      let fits : ltb buflen (length (w.keys.sprint key) + 2) ≡ false = ground (arith, small) in
      ok-injective (rw (room, fits, le) at h)
