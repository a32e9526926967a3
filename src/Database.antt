-- ===== src/Database.antt =====
-- src/db.c, over LMDB: writing in a transaction, and going through the entries under a prefix.
-- `db_connect` and `db_disconnect` open and close the file, and are left out.
pub mod Library
pub mod Write
pub mod Browse
pub mod Listing
pub mod Skipped
pub mod Frames
pub mod Sorted
use gtk4_kee.Prelude.{
  ℕ, ◌+◌, ◌%◌, Bool, Option, none, some, take, ltb, length, ◌∷◌, replicate, overlay,
}
use gtk4_kee.Prelude.Bytes.{Bytes}
use gtk4_kee.Prelude.Memory.{put_at}
use gtk4_kee.Prelude.Result.{Result, ok, fault, fault_if, ◌>>=◌, ◌>>◌}

abbrev pub err_db_fail : ℕ
err_db_fail = 1

abbrev pub err_db_nomatch : ℕ
err_db_nomatch = 2

abbrev pub err_db_invalid : ℕ
err_db_invalid = 4

abbrev pub key_size_limit : ℕ
key_size_limit = 128

-- A pointer to what LMDB allocates: null, to something that is open, or to something that was freed
pub data Handle (A : Type 0) : Type 0 where
  null closed : Handle A
  opened : A → Handle A

-- Closing what a pointer leads to; nothing is done for null.
abbrev pub free : {A : Type 0} → Handle A → Result (Handle A)
free null = ok null
free (opened a) = ok closed
free closed = fault

-- What a call of LMDB gets: NULL, or what is open
abbrev pub deref : {A : Type 0} → Handle A → Result (Option A)
deref null = ok none
deref (opened a) = ok (some a)
deref closed = fault

-- `struct db_ctx`. `k` and `v` are the arguments of each call of LMDB, `dbi` is one number.
pub record Ctx (Env Tx Cursor : Type 0) : Type 0 where
  pub env : Env
  pub tx : Handle Tx
  pub crsr : Handle Cursor
  pub current_key : ℕ
  pub started : Bool
  pub browsing : Bool

-- `start`, where the search begins: the prefix and zeros, and over it the key of the caller. The
-- size counts the prefix and the key.
unfoldable pub search_key : ℕ → Bytes → ℕ → Result Bytes
search_key pfx key key_len = do
  fault_if (ltb (length key) key_len)
  fault_if (ltb key_size_limit (1 + key_len))
  ok (take (1 + key_len) (overlay (pfx % 256 ∷ replicate 127 0) (take key_len key)))

-- The two buffers of the caller, with the lengths of the key and the value that were written to them
unfoldable pub delivered : Bytes → Bytes → Bytes → Bytes → Result (Bytes × ℕ × Bytes × ℕ)
delivered key value k v = do
  key ← put_at 0 k key
  value ← put_at 0 v value
  ok (key, length k, value, length v)
