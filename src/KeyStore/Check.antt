-- ===== src/KeyStore/Check.antt =====
-- src/gpg.c, `gpg_store_digest` and `gpg_store_check`. What is only logged is left out.
use gtk4_kee.Prelude.{Option, none, some, ◌==◌, if◌then◌else◌, true, not, replicate, ◌++◌, take, ℕ}
use gtk4_kee.Prelude.Bytes.{Bytes}
use gtk4_kee.Prelude.Memory.{put_at}
use gtk4_kee.Prelude.Result.{Result, ok, err, fault, fail_if, fault_if}
use gtk4_kee.Prelude.Stateful.{◌>>=◌, ◌>>◌, call, current, modify}
use gtk4_kee.Crypto.{calculate_digest}
use gtk4_kee.KeyStore.Library.{Around}
use gtk4_kee.KeyStore.Cipher.{err_nocrypto}
use gtk4_kee.KeyStore.File.{err_keyfail, main}
use gtk4_kee.KeyStore.Load.{Call, modify_store, gpg_key_load}
use gtk4_kee.KeyStore.Create.{key_create_file}

-- The buffer after a digest was written to it, or not
abbrev pub digest_in : Bytes → Result Bytes → Result Bytes
digest_in buf (ok digest) = put_at 0 digest buf
digest_in buf (err c) = ok buf
digest_in buf fault = fault

module _ {Sexp Mpi Files : Type 0} (w : Around Sexp Mpi Files) where
  -- `gpg_store_digest` to a buffer, with its return left aside
  unfoldable pub gpg_store_digest : Bytes → Bytes → Result Bytes
  gpg_store_digest out input = digest_in out (calculate_digest w.gcry input)

  -- A local buffer of the given size, not initialised
  abbrev pub uninitialised : ℕ → Bytes
  uninitialised size = take size (w.stack size ++ replicate size 0)

  -- `if (gpgVersion == NULL)`, and the use of `v`, which has no value where it was set before
  unfoldable pub check_version : Call w (Unit {0})
  check_version = do
    g ← current
    call (fault_if g.version_set)
    call (fail_if (not w.keys.check_version) err_nocrypto)
    modify (λ g. record g { version_set = true })

  -- The keygrip of the local `k` goes to the fingerprint, where there is one.
  unfoldable pub write_keygrip : Option Sexp → Call w (Unit {0})
  write_keygrip k = elim (w.keys.keygrip k) [
    | none ↦ call (ok tt)
    | some grip ↦ modify_store w (λ g. record g { fingerprint = grip })
  ]

  -- From the return of `gpg_key_load` on
  unfoldable pub loaded : Bytes → Result (Unit {0}) → Call w (Unit {0})
  unfolding write_keygrip
  loaded hash (ok _) = write_keygrip none
  loaded hash (err c) =
      if c == err_keyfail
      then call (err 1)
      else (do k ← key_create_file w hash; write_keygrip (some k))
  loaded hash fault = call fault

  -- `gpg_key_load`, with its return as a value
  unfoldable pub try_load : Bytes → Call w (Result (Unit {0}))
  try_load hash g = let (r, g') = gpg_key_load w hash main g in (ok r, g')

  -- `gpg_store_check`
  unfoldable pub gpg_store_check : Bytes → Call w (Unit {0})
  unfolding gpg_store_digest check_version try_load loaded
  gpg_store_check passphrase = do
    g ← current
    hash ← call (gpg_store_digest (uninitialised g.store.passphrase_digest_len) passphrase)
    check_version
    r ← try_load hash
    loaded hash r
