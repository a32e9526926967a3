-- ===== src/KeyStore/Missing.antt =====
-- `gpg_store_check` of src/gpg.c where there is no key file, and a check after it.
use gtk4_kee.Prelude.{ℕ, ◌≢◌, ◌≡◌, refl, none, true, false, ltb, length, ◌+◌, Bool-cases, inl, inr}
use gtk4_kee.Prelude.Bytes.{Bytes}
use gtk4_kee.Prelude.Memory.{put_at}
use gtk4_kee.Prelude.Result.{Result, ok, err, fault}
use gtk4_kee.Prelude.Stateful.{◌>>=◌, ◌>>◌, call, current, modify, proceed}
use gtk4_kee.Crypto.{calculate_digest}
use gtk4_kee.KeyStore.Library.{Around}
use gtk4_kee.KeyStore.File.{
  Session, main, in_path, main_name, err_nokey, err_keyfail, key_path, key_from_file,
}
use gtk4_kee.KeyStore.Load.{gpg_key_load, load_file}
use gtk4_kee.KeyStore.Check.{
  gpg_store_check, gpg_store_digest, digest_in, check_version, try_load, loaded, uninitialised,
}

module _ {Sexp Mpi Files : Type 0} (w : Around Sexp Mpi Files) where
  no_file :
      (files : Files) (path hash : Bytes)
      → w.disk.content files path ≡ none
      → key_from_file w files path hash ≡ err err_nokey
  unfolding key_from_file
  no_file files path hash e = rw e refl

  load_missing :
      (g : Session Sexp Files) (path hash : Bytes)
      → in_path g.store.path main_name ≡ ok path
      → w.disk.content g.files path ≡ none
      → gpg_key_load w hash main g ≡ (err err_keyfail, g)
  unfolding gpg_key_load load_file key_path ◌>>=◌ ◌>>◌ proceed call current
  load_missing g path hash e missing = rw (e, no_file g.files path hash missing) refl

  digest_done : (buf : Bytes) (r : Result Bytes) (c : ℕ) → digest_in buf r ≢ err c
  unfolding put_at
  digest_done buf (ok d) c h = elim (Bool-cases (ltb (length buf) (0 + length d))) [
    | inl over ↦ let h' = rw over at h in cc
    | inr fits ↦ let h' = rw fits at h in cc
  ]
  digest_done buf (err d) c h = cc
  digest_done buf fault c h = cc

  check_again :
      (passphrase : Bytes) (g : Session Sexp Files)
      → g.version_set ≡ true
      → (gpg_store_check w passphrase g).0 ≡ fault
  unfolding gpg_store_check gpg_store_digest check_version ◌>>=◌ ◌>>◌ proceed call current
  check_again passphrase g set =
      after_digest (gpg_store_digest w (uninitialised w g.store.passphrase_digest_len) passphrase) (
        digest_done (uninitialised w g.store.passphrase_digest_len)
          (calculate_digest w.gcry passphrase))
    where
      after_digest :
          (r : Result Bytes)
          → ((c : ℕ) → r ≢ err c)
          → ((call r >>= λ hash. check_version w >> (try_load w hash >>= λ r. loaded w hash r)) g).0
            ≡ fault
      after_digest (ok hash) h = rw set refl
      after_digest (err c) h = absurd (h c refl)
      after_digest fault h = refl

  -- Where there is no file "kee.key", `gpg_store_check` returns 1 and makes no key: the files and the
  -- store stay as they were. A second call, with any passphrase, reads a pointer that was not set.
  pub gpg_store_check-missing :
      (passphrase hash path : Bytes) (g : Session Sexp Files)
      → gpg_store_digest w (uninitialised w g.store.passphrase_digest_len) passphrase ≡ ok hash
      → g.version_set ≡ false
      → w.keys.check_version ≡ true
      → in_path g.store.path main_name ≡ ok path
      → w.disk.content g.files path ≡ none
      → (gpg_store_check w passphrase g ≡ (err 1, record g { version_set = true }))
        × ((passphrase' : Bytes)
            → (gpg_store_check w passphrase' (gpg_store_check w passphrase g).1).0 ≡ fault)
  unfolding gpg_store_check check_version try_load loaded ◌>>=◌ ◌>>◌ proceed call current modify
  gpg_store_check-missing passphrase hash path g hashed unset version e missing = (
    first,
    λ passphrase'. rw first (check_again passphrase' (record g { version_set = true }) refl),
  )
    where
      first : gpg_store_check w passphrase g ≡ (err 1, record g { version_set = true })
      first =
          rw
            (
              hashed,
              unset,
              version,
              load_missing (record g { version_set = true }) path hash e missing,
            )
            refl
