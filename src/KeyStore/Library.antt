-- ===== src/KeyStore/Library.antt =====
-- What src/gpg.c calls that is not in it: libgcrypt's calls on keys and ciphers, the files, and `b2h`
-- of liblash.
use gtk4_kee.Prelude.{ℕ, Bool, Option}
use gtk4_kee.Prelude.Bytes.{Bytes}
use gtk4_kee.Crypto.Library.{Gcrypt}

-- The tokens that the code looks for in an S-expression
pub data Token : Type 0 where
  public_key point r s : Token

-- A `gcry_sexp_t` that is NULL is `none`.
pub record Keys (Sexp : Type 0) : Type 0 where
  -- gcry_check_version; gcry_sexp_new; gcry_sexp_sprint in the canonical format
  pub check_version : Bool
  pub sexp_new : Bytes → Option Sexp
  pub sprint : Sexp → Bytes
  -- gcry_sexp_find_token; gcry_sexp_nth_data of the element 1
  pub find_token : Option Sexp → Token → Option Sexp
  pub nth_data : Sexp → Option Bytes
  -- gcry_pk_genkey; gcry_pk_get_keygrip; gcry_pk_sign of a message with a key
  pub genkey : Sexp → Option Sexp
  pub keygrip : Option Sexp → Option Bytes
  pub pk_sign : Sexp → Option Sexp → Option Sexp
  -- whether gcry_cipher_open, _setkey and _setiv succeed; what a cipher with a key and an
  -- initialisation vector makes of a block
  pub cipher_open : Bool
  pub setkey : Bytes → Bool
  pub setiv : Bytes → Bool
  pub encrypt : Bytes → Bytes → Bytes → Option Bytes
  pub decrypt : Bytes → Bytes → Bytes → Option Bytes
  -- as many random bytes as asked for: gcry_randomize and gcry_create_nonce
  pub randomize : ℕ → Bytes
  pub create_nonce : ℕ → Bytes

-- The files: what fopen and fread give, fopen for writing, an fwrite of one item and whether it was
-- written whole, and whether unlink (or there was no such file) and symlink succeed
pub record Disk (Files : Type 0) : Type 0 where
  pub content : Files → Bytes → Option Bytes
  pub create : Files → Bytes → Option Files
  pub append : Files → Bytes → Bytes → Bool × Files
  pub unlink : Files → Bytes → Bool × Files
  pub symlink : Files → Bytes → Bytes → Bool × Files

-- The surroundings of src/gpg.c. `stack` gives what a local buffer holds before it is written.
pub record Around (Sexp Mpi Files : Type 0) : Type 0 where
  pub gcry : Gcrypt Sexp Mpi
  pub keys : Keys Sexp
  pub disk : Disk Files
  pub is_le : Bool
  pub hex : Bytes → Bytes
  pub stack : ℕ → Bytes
