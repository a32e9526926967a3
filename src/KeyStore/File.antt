-- ===== src/KeyStore/File.antt =====
-- src/gpg.c, a key store and the file that a key stands in: `gpg_store_init`, `key_filename`,
-- `key_from_data` and `key_from_file`.
use gtk4_kee.Prelude.{
  ℕ, zero, suc, ◌+◌, ◌-◌, ◌^◌, Bool, [], ◌∷◌, ◌++◌, Option, none, some, if◌then◌else◌, ◌==◌, ltb,
  take, drop, length, replicate,
}
use gtk4_kee.Prelude.Bytes.{Bytes, native_value}
use gtk4_kee.Prelude.Result.{Result, ok, err, fault, from_option, fail_if, fault_if, ◌>>=◌, ◌>>◌}
use gtk4_kee.Crypto.Library.{sha256}
use gtk4_kee.KeyStore.Library.{Around}
use gtk4_kee.KeyStore.Cipher.{decryptb, nonce_length}

abbrev pub err_fail : ℕ
err_fail = 1

abbrev pub err_keyfail : ℕ
err_keyfail = 0x102

abbrev pub err_keyfile : ℕ
err_keyfile = 0x103

abbrev pub err_nokey : ℕ
err_nokey = 0x106

abbrev pub pubkey_length : ℕ
pubkey_length = 32

-- The bytes that one fread or fwrite moves, and how many of them BUFLEN holds
abbrev pub item_size : ℕ
item_size = 1024

abbrev pub items_max : ℕ
items_max = 1024

-- "kee.key"
abbrev pub main_name : Bytes
main_name = 107 ∷ 101 ∷ 101 ∷ 46 ∷ 107 ∷ 101 ∷ 121 ∷ []

-- `gcry_sexp_t k`, which stays in the store after `gcry_sexp_release`
pub data Handle (Sexp : Type 0) : Type 0 where
  held : Option Sexp → Handle Sexp
  released : Handle Sexp

-- A use of the key that a handle stands for
abbrev pub deref : {Sexp : Type 0} → Handle Sexp → Result (Option Sexp)
deref (held k) = ok k
deref released = fault

-- `struct gpg_store`; `path` is the text in its array.
pub record GpgStore (Sexp : Type 0) : Type 0 where
  pub k : Handle Sexp
  pub passphrase_digest_len : ℕ
  pub fingerprint : Bytes
  pub public_key : Bytes
  pub path : Bytes
  pub last_signature : Bytes
  pub last_data : Bytes

-- `enum gpg_find_mode_e`, with the criteria of the second
pub data FindMode : Type 0 where
  main : FindMode
  by_fingerprint : Bytes → FindMode

-- What the calls work on: the store, the files, and whether `gpgVersion` is set
pub record Session (Sexp Files : Type 0) : Type 0 where
  pub store : GpgStore Sexp
  pub files : Files
  pub version_set : Bool

-- The items that `fread` gives in turn, up to a part of one or the end of the buffer
unfoldable pub read_items : ℕ → Bytes → Bytes
read_items zero file = []
read_items (suc n) file =
    let rest = read_items n (drop item_size file) in
    if ltb (length file) item_size then [] else take item_size file ++ rest

-- An `int` as a `size_t`
abbrev pub size_of_int : ℕ → ℕ
size_of_int n = if ltb n (2 ^ 31) then n else n + (2 ^ 64 - 2 ^ 32)

-- A file name in an array of 1024 bytes
abbrev pub in_path : Bytes → Bytes → Result Bytes
in_path path name = do fault_if (ltb 1024 (length path + length name + 1)); ok (path ++ name)

module _ {Sexp Mpi Files : Type 0} (w : Around Sexp Mpi Files) where
  -- `gpg_store_init`: the byte that is compared with a slash is the NUL, so one is always added.
  unfoldable pub gpg_store_init : Bytes → Result (GpgStore Sexp)
  gpg_store_init path = do
    fault_if (ltb 1024 (length path + 2))
    ok (record {
      k = held none;
      passphrase_digest_len = w.gcry.algo_dlen sha256;
      fingerprint = replicate 20 0;
      public_key = replicate 32 0;
      path = path ++ 0x2f ∷ [];
      last_signature = replicate 64 0;
      last_data = replicate 64 0;
    })

  unfoldable pub key_filename : GpgStore Sexp → Result Bytes
  key_filename g = in_path g.path (w.hex g.fingerprint)

  -- `key_from_data`: its return, and the key, NULL where there is none
  unfoldable pub key_from_data : Bytes → Result (Unit {0}) × Option Sexp
  key_from_data indata = elim (w.keys.sexp_new indata) [
    | none ↦ (err err_keyfail, none)
    | some key ↦ (ok tt, some key)
  ]

  -- `key_from_file` behind the loop, with what was read. The return of `key_from_data` is not used.
  unfoldable pub open_key : Bytes → Bytes → Bytes → Result (Option Sexp)
  open_key v nonce passphrase = do
    fail_if (length v == 0) err_keyfile
    outdata ← decryptb w.keys v passphrase nonce
    let c = size_of_int (native_value w.is_le (take 4 outdata))
    fault_if (ltb (length outdata) (4 + c))
    ok ((key_from_data (take c (drop 4 outdata))).1)

  -- `key_from_file`: the key, where the return is ERR_OK
  unfoldable pub key_from_file : Files → Bytes → Bytes → Result (Option Sexp)
  key_from_file files path passphrase = do
    file ← from_option err_nokey (w.disk.content files path)
    open_key (read_items items_max (drop nonce_length file)) (take nonce_length file) passphrase

  -- The `switch` of `gpg_key_load`, with the path that each mode gives
  unfoldable pub key_path : GpgStore Sexp → FindMode → Result Bytes
  key_path g main = in_path g.path main_name
  key_path g (by_fingerprint criteria) = in_path g.path (w.hex criteria)
