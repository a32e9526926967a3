-- ===== src/Ledger/Store.antt =====
-- `kee_ledger_item_put` and `kee_ledger_put` of src/ledger.c, over src/db.c. `mem` is taken as two buffers of 2048 bytes.
use gtk4_kee.Prelude.{ℕ, List, [], ◌∷◌, Option, take, drop}
use gtk4_kee.Prelude.Bytes.{Bytes}
use gtk4_kee.Prelude.Memory.{put_at}
use gtk4_kee.Prelude.Result.{Result, ok, err, fault, or_code, from_option}
use gtk4_kee.Prelude.Stateful.{◌>>=◌, ◌>>◌, call, replace_code, attempt}
use gtk4_kee.Database.{Ctx}
use gtk4_kee.Database.Library.{Lmdb}
use gtk4_kee.Database.Write.{Call, db_start, db_add, db_finish}
use gtk4_kee.Database.Browse.{db_next, db_rewind}
use gtk4_kee.Ledger.Types.{World, Ledger, Item, buffer, digest_length}
use gtk4_kee.Ledger.Keys.{db_key, put_item, item_put_buf}
use gtk4_kee.Ledger.Serialize.{ledger_serialize}

abbrev pub key_ledger_head : ℕ
key_ledger_head = 1

abbrev pub key_reverse : ℕ
key_reverse = 255

-- The state after a call that succeeds
abbrev pub state_of : {S : Type 0} → Result (Unit {0}) × S → Result S
state_of (ok _, s) = ok s
state_of (err c, s) = err c
state_of (fault, s) = fault

module _ {Node Sexp Mpi Env Tx Cursor : Type 0} (w : World Node Sexp Mpi)
    (db : Lmdb Env Tx Cursor) where
  abbrev pub add : Ctx Env Tx Cursor → Bytes → Bytes → Result (Ctx Env Tx Cursor)
  add ctx key v = state_of (db_add db key v ctx)

  -- `kee_ledger_item_put`
  unfoldable pub item_put : Ledger → ℕ → Ctx Env Tx Cursor → Result (Ctx Env Tx Cursor)
  item_put l idx = item_put_buf w add l idx (buffer w 2048)

  -- What follows a round of the loop that stores the items
  abbrev pub go_on :
      Result (Ctx Env Tx Cursor)
      → Ctx Env Tx Cursor
      → (Ctx Env Tx Cursor → Result (Unit {0}) × Ctx Env Tx Cursor)
      → Result (Unit {0}) × Ctx Env Tx Cursor
  go_on (ok ctx') ctx next = next ctx'
  go_on (err c) ctx next = (ok tt, ctx)
  go_on fault ctx next = (fault, ctx)

  -- The loop over the items, which ends at the first that is not stored, or at the NULL behind the last
  unfoldable pub put_items : Ledger → List Item → Bytes → Call db (Unit {0})
  put_items l [] k ctx = (ok tt, ctx)
  put_items l (item ∷ prev) k ctx =
      go_on (put_item w add l (item ∷ prev) k ctx) ctx (put_items l prev k)

  -- The reverse key of the ledger, in `k`
  abbrev pub reverse_key : Ledger → Bytes → Result Bytes
  reverse_key l k = put_at 0 (key_reverse ∷ take digest_length l.digest) k

  -- The return of the second `db_next`: where there is a head, `free` is called on a local array.
  unfoldable pub head_found : {A : Type 0} → Result A → Bytes → Call db Bytes
  head_found (ok _) k = call fault
  head_found (err c) k = call (ok k)
  head_found fault k = call fault

  -- The return of the first `db_next`, and the search for the head where it succeeds; `k` after it
  unfoldable pub reverse_found : Result (Bytes × ℕ × Bytes × ℕ) → Bytes → Call db Bytes
  unfolding head_found
  reverse_found (ok (k, _, v, c)) _ = do
    k ← call (put_at 0 (take c v) k)
    db_rewind db
    r ← attempt (db_next db key_ledger_head k c v)
    head_found r k
  reverse_found (err c) k = call (ok k)
  reverse_found fault k = call fault

  -- `kee_ledger_put`, with what `clock_gettime` gives
  unfoldable pub ledger_put : Option (ℕ × ℕ) → Ledger → Call db (Unit {0})
  unfolding reverse_found put_items
  ledger_put clock l = do
    k ← call (reverse_key l (take 2048 (buffer w 4096)))
    r ← attempt (db_next db key_reverse k 65 (drop 2048 (buffer w 4096)))
    k ← reverse_found r k
    db_rewind db
    (sec, nsec) ← call (from_option 1 clock)
    (k, size) ← call (db_key w key_ledger_head sec nsec k 0)
    head ← call (or_code 1 (ledger_serialize w l 2048))
    replace_code 1 (db_start db)
    replace_code 1 (db_add db (take size k) head)
    let value = drop 1 (take size k)
    k ← call (reverse_key l k)
    replace_code 1 (db_add db (take 65 k) value)
    put_items l l.items k
    replace_code 1 (db_finish db)
