-- ===== src/Database/Library.antt =====
-- The calls of LMDB that src/db.c makes. `none` is an error; a transaction and a cursor come back
-- as they are after a call.
use gtk4_kee.Prelude.{Bool, Option}
use gtk4_kee.Prelude.Bytes.{Bytes}

pub record Lmdb (Env Tx Cursor : Type 0) : Type 0 where
  pub txn_begin : Env → Option Tx
  pub dbi_open : Tx → Bool
  -- mdb_put, where the flag forbids to write over an entry; mdb_txn_commit
  pub put : Bool → Option Tx → Bytes → Bytes → Option Tx
  pub commit : Env → Option Tx → Option Env
  pub cursor_open : Tx → Option Cursor
  -- mdb_cursor_get with MDB_SET_RANGE and with MDB_NEXT_NODUP: the cursor, the key and the value
  pub set_range : Cursor → Bytes → Option (Cursor × Bytes × Bytes)
  pub next_nodup : Option Cursor → Option (Cursor × Bytes × Bytes)
