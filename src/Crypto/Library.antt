-- ===== src/Crypto/Library.antt =====
-- The calls of libgcrypt that the code makes, as an interface: the library is not part of the
-- repository. `Sexp` and `Mpi` are its opaque S-expressions and integers.
use gtk4_kee.Prelude.{ℕ, Bool, Option}
use gtk4_kee.Prelude.Bytes.{Bytes}

-- `enum gcry_md_algos`, as far as the code names it
pub data Algo : Type 0 where
  md_none sha256 sha512 : Algo

pub record Gcrypt (Sexp Mpi : Type 0) : Type 0 where
  -- gcry_md_get_algo_dlen; whether gcry_md_open succeeds; gcry_md_write and gcry_md_read
  pub algo_dlen : Algo → ℕ
  pub md_open : Algo → Bool
  pub hash : Algo → Bytes → Bytes
  -- gcry_sexp_build of a public key, of a signature and of a message; `none` is an error
  pub build_pubkey : Bytes → Option Sexp
  pub build_sig : Mpi → Mpi → Option Sexp
  pub build_msg : Bytes → Option Sexp
  -- gcry_mpi_scan: the integer, and how many bytes were read
  pub mpi_scan : Bytes → Option (Mpi × ℕ)
  -- whether gcry_pk_verify accepts signature, message and key
  pub pk_verify : Sexp → Sexp → Sexp → Bool
