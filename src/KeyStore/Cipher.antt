-- ===== src/KeyStore/Cipher.antt =====
-- src/gpg.c, the padding and the encryption of a block: `get_padsize`, `create_handle`, `encryptb`,
-- `decryptb`, `encrypt` and `decrypt`. The cipher is ChaCha20-Poly1305, whose tag is neither written nor tested.
use gtk4_kee.Prelude.{
  [], ◌∷◌, none, some, ℕ, ◌+◌, ◌-◌, ◌*◌, ◌/◌, ◌%◌, ◌^◌, ◌++◌, not, if◌then◌else◌, ◌==◌, ltb, take,
  length,
}
use gtk4_kee.Prelude.Bytes.{Bytes, c_string}
use gtk4_kee.Prelude.Memory.{put_at}
use gtk4_kee.Prelude.Result.{
  Result, ok, fault, ◌>>=◌, ◌>>◌, or_code, from_option, fail_if, fault_if,
}
use gtk4_kee.KeyStore.Library.{Keys}

abbrev pub err_nocrypto : ℕ
err_nocrypto = 0x101

abbrev pub key_length : ℕ
key_length = 32

abbrev pub nonce_length : ℕ
nonce_length = 12

unfoldable pub get_padsize : ℕ → ℕ → Result ℕ
get_padsize insize blocksize =
    let c = (insize + 1) % 2 ^ 64 in
    let l = c / blocksize in
    let l' = if c % blocksize == 0 then l else l + 1 in
    do fault_if (blocksize == 0); ok (l' * blocksize % 2 ^ 64)

-- `strcpy` of what was decrypted; where it has no NUL, the copy reads behind it.
unfoldable pub copy_text : Bytes → Bytes → Result Bytes
copy_text outdata raw = elim (c_string raw) [
  | none ↦ fault
  | some text ↦ put_at 0 (text ++ 0 ∷ []) outdata
]

module _ {Sexp : Type 0} (lib : Keys Sexp) where
  -- The key and the nonce that the cipher is set to
  unfoldable pub create_handle : Bytes → Bytes → Result (Bytes × Bytes)
  create_handle key nonce = do
    fail_if (not lib.cipher_open) 1
    fault_if (ltb (length key) key_length)
    fail_if (not (lib.setkey (take key_length key))) 1
    fault_if (ltb (length nonce) nonce_length)
    fail_if (not (lib.setiv (take nonce_length nonce))) 1
    ok (take key_length key, take nonce_length nonce)

  -- `padb`: the data, and random bytes up to the size
  unfoldable pub padb : Bytes → ℕ → Bytes
  padb data' outsize = data' ++ lib.randomize (outsize - length data')

  -- `encryptb`, by way of a block of `ciphertext_len` bytes
  unfoldable pub encryptb : ℕ → Bytes → Bytes → Bytes → Result Bytes
  unfolding create_handle padb
  encryptb ciphertext_len indata key nonce = do
    (key', nonce') ← or_code err_nocrypto (create_handle key nonce)
    fault_if (ltb ciphertext_len (length indata))
    from_option err_nocrypto (lib.encrypt key' nonce' (padb indata ciphertext_len))

  unfoldable pub decryptb : Bytes → Bytes → Bytes → Result Bytes
  unfolding create_handle
  decryptb ciphertext key nonce = do
    (key', nonce') ← or_code err_nocrypto (create_handle key nonce)
    from_option err_nocrypto (lib.decrypt key' nonce' ciphertext)

  -- `encrypt` of a text, with its NUL
  unfoldable pub encrypt : ℕ → Bytes → Bytes → Bytes → Result Bytes
  unfolding create_handle padb
  encrypt ciphertext_len indata key nonce = do
    (key', nonce') ← or_code err_nocrypto (create_handle key nonce)
    fault_if (ltb ciphertext_len (length indata + 1))
    from_option err_nocrypto (lib.encrypt key' nonce' (padb (indata ++ 0 ∷ []) ciphertext_len))

  -- `decrypt` to the buffer `outdata`
  unfoldable pub decrypt : Bytes → Bytes → Bytes → Bytes → Result Bytes
  unfolding create_handle copy_text
  decrypt outdata ciphertext key nonce = do
    (key', nonce') ← or_code err_nocrypto (create_handle key nonce)
    raw ← from_option err_nocrypto (lib.decrypt key' nonce' ciphertext)
    copy_text outdata raw
