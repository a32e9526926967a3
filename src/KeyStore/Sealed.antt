-- ===== src/KeyStore/Sealed.antt =====
-- What is encrypted by src/gpg.c, decrypted again.
use gtk4_kee.Prelude.{
  ℕ, ◌+◌, ◌-◌, ◌≤◌, ◌≡◌, refl, ◌∙◌, [], ◌∷◌, ◌++◌, some, drop, length, false, ltb, arith,
  length-append,
}
use mathlib.Core.List.{append_assoc}
use gtk4_kee.Prelude.Memory.{put_at, put_at-append}
use gtk4_kee.Prelude.Bytes.{NoNul, c_string, c_string_text, Bytes}
use gtk4_kee.Prelude.Result.{ok, or_code, fault_if, >>=-eq-ok, fault_if-eq-ok, from_option-eq-ok}
use gtk4_kee.KeyStore.Library.{Keys}
use gtk4_kee.KeyStore.Cipher.{
  encrypt, decrypt, copy_text, create_handle, encryptb, decryptb, padb, err_nocrypto,
}
use gtk4_kee.KeyStore.Stored.{IsCipher}

pub not_above : {a b : ℕ} → ltb b a ≡ false → a ≤ b
not_above h = ground arith

text_copied :
    (out raw text : Bytes)
    → c_string raw ≡ some text
    → copy_text out raw ≡ put_at 0 (text ++ 0 ∷ []) out
unfolding copy_text
text_copied out raw text e = rw (copy_text, e) refl

module _ {Sexp : Type 0} (keys : Keys Sexp) (law : IsCipher keys) where
  -- What was encrypted, with its padding, comes back under the same key and nonce.
  pub decryptb-encryptb :
      (size : ℕ) (data' key nonce c : Bytes)
      → encryptb keys size data' key nonce ≡ ok c
      → (length c ≡ size)
        × (length data' ≤ size)
        × (decryptb keys c key nonce ≡ ok (padb keys data' size))
  unfolding encryptb decryptb padb
  decryptb-encryptb size data' key nonce c h =
      let ((k, n), e, h) = >>=-eq-ok (or_code err_nocrypto (create_handle keys key nonce)) _ h in
      let (_, small, h) = >>=-eq-ok (fault_if (ltb size (length data'))) _ h in
      let sealed = from_option-eq-ok err_nocrypto (keys.encrypt k n (padb keys data' size)) h in
      let fits : length data' ≤ size = not_above (fault_if-eq-ok (ltb size (length data')) small) in
      (
        law.same_length k n (padb keys data' size) c sealed
            ∙ omega (
              arith,
              fits,
              law.random_length (size - length data'),
              length-append data' (keys.randomize (size - length data')),
            ),
        fits,
        rw (e, law.undone k n (padb keys data' size) c sealed) refl,
      )

  -- A text without a NUL that `encrypt` took, `decrypt` leaves at the start of a buffer with room for
  -- it and its NUL, under the same key and nonce, where the cipher is undone.
  pub encrypt-decrypt :
      (size : ℕ) (text key nonce c out : Bytes)
      → NoNul text
      → encrypt keys size text key nonce ≡ ok c
      → length text + 1 ≤ length out
      → decrypt keys out c key nonce ≡ ok ((text ++ 0 ∷ []) ++ drop (length (text ++ 0 ∷ [])) out)
  unfolding encrypt decrypt padb
  encrypt-decrypt size text key nonce c out t h room =
      let ((k, n), e, h) = >>=-eq-ok (or_code err_nocrypto (create_handle keys key nonce)) _ h in
      let (_, _, h) = >>=-eq-ok (fault_if (ltb size (length text + 1))) _ h in
      let sealed =
        from_option-eq-ok err_nocrypto (keys.encrypt k n (padb keys (text ++ 0 ∷ []) size)) h in
      let raw : c_string (padb keys (text ++ 0 ∷ []) size) ≡ some text =
        rw append_assoc (c_string_text text (keys.randomize (size - length (text ++ 0 ∷ []))) t) in
      rw (e, law.undone k n (padb keys (text ++ 0 ∷ []) size) c sealed)
        (text_copied out (padb keys (text ++ 0 ∷ []) size) text raw
          ∙ put_at-append [] (text ++ 0 ∷ []) out
              (omega (arith, room, length-append text (0 ∷ []))))
