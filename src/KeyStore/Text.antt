-- ===== src/KeyStore/Text.antt =====
-- src/gpg.c, the text of a key in the buffer that is encrypted, and the loop that writes the
-- ciphertext, both of `key_create_file`.
use gtk4_kee.Prelude.{
  ℕ, zero, suc, ◌+◌, ◌-◌, ◌++◌, [], take, drop, length, if◌then◌else◌, ◌==◌, ltb,
}
use gtk4_kee.Prelude.Bytes.{Bytes, native_bytes}
use gtk4_kee.Prelude.Result.{Result, ok, fault_if, ◌>>◌}
use gtk4_kee.KeyStore.Library.{Around, Disk}
use gtk4_kee.KeyStore.File.{item_size}

-- BUFLEN
abbrev pub buflen : ℕ
buflen = 1048576

-- What `gcry_sexp_sprint` writes to a buffer with this much room
abbrev pub printed : Bytes → ℕ → Bytes
printed text room = if ltb room (length text) then [] else text

-- The length of the key as an `int` and its text, in the buffer `v`. Asked for the size alone,
-- `gcry_sexp_sprint` counts the NUL too. The room that is named for a text is what BUFLEN leaves
-- behind another one; below zero it is that of a `size_t`.
unfoldable pub key_text : {Sexp Mpi Files : Type 0} → Around Sexp Mpi Files → Sexp → Result Bytes
key_text w key =
    let text = w.keys.sprint key in
    let m = length text + 2 in
    let p = printed text (buflen - m) in
    do fault_if (ltb buflen m); ok (take 4 (native_bytes w.is_le 8 (length p)) ++ p)

-- The loop that writes the ciphertext, which ends at the first item that cannot be written
unfoldable pub write_items : {Files : Type 0} → Disk Files → Bytes → ℕ → Bytes → Files → Files
write_items disk path zero bs files = files
write_items disk path (suc n) bs files =
    let (whole, files') = disk.append files path (take item_size bs) in
    let rest = write_items disk path n (drop item_size bs) files' in
    if length bs == 0 then files else if whole then rest else files'
