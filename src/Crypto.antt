-- ===== src/Crypto.antt =====
-- src/digest.c, and the signature check of src/gpg.c, over libgcrypt.
pub mod Library
use gtk4_kee.Prelude.{
  ◌≡◌, refl, ℕ, Option, none, some, take, drop, ◌==◌, not, arith, length, Bool, true,
}
use gtk4_kee.Prelude.Bytes.{Bytes}
use gtk4_kee.Prelude.Result.{Result, ok, err, ◌>>=◌, ◌>>◌, or_code, from_option, fail_if}
use Library.{Gcrypt, Algo, md_none, sha256, sha512}

abbrev pub err_digestfail : ℕ
err_digestfail = 1

abbrev pub point_length : ℕ
point_length = 32

module _ {Sexp Mpi : Type 0} (lib : Gcrypt Sexp Mpi) where
  -- `if (algo == GCRY_MD_NONE) algo = GCRY_MD_SHA256;`
  pub effective : Algo → Algo
  effective md_none = sha256
  effective a = a

  -- The `digest_len` bytes that reach `out`.
  unfoldable pub calculate_digest_algo : Bytes → Algo → Result Bytes
  unfolding effective
  calculate_digest_algo input algo =
      let a = effective algo in
      do
        fail_if (not (lib.md_open a)) err_digestfail
        ok (take (lib.algo_dlen a) (lib.hash a input))

  unfoldable pub calculate_digest : Bytes → Result Bytes
  unfolding calculate_digest_algo
  calculate_digest input = calculate_digest_algo input md_none

  -- `gpg_store_verify`: ERR_OK is `ok tt`, every failure is 1.
  unfoldable pub gpg_store_verify : Bytes → Bytes → Bytes → Result (Unit {0})
  gpg_store_verify sig_bytes digest pubkey_bytes = do
    pubkey ← from_option 1 (lib.build_pubkey pubkey_bytes)
    r ← from_option 1 (lib.mpi_scan (take point_length sig_bytes))
    fail_if (not (r.1 == 32)) 1
    s ← from_option 1 (lib.mpi_scan (take point_length (drop point_length sig_bytes)))
    fail_if (not (s.1 == 32)) 1
    sig ← from_option 1 (lib.build_sig r.0 s.0)
    msg ← from_option 1 (lib.build_msg digest)
    fail_if (not (lib.pk_verify sig msg pubkey)) 1

  -- `gpg_verify`
  unfoldable pub gpg_verify : Sexp → Sexp → Bytes → Result (Unit {0})
  gpg_verify sig key v = do
    data' ← from_option 1 (lib.build_msg (take 64 v))
    fail_if (not (lib.pk_verify sig data' key)) 1
