-- ===== src/Ledger/Keys.antt =====
-- src/ledger.c, the keys of the database: `timespec_to_keypart`, `db_key`, and
-- `kee_ledger_item_put_buf`. The database of src/db.c is an interface.
pub mod Order
use gtk4_kee.Prelude.{
  ℕ, ◌+◌, ◌%◌, ◌^◌, List, [], ◌∷◌, ◌++◌, ltb, if◌then◌else◌, take, drop, length, overlay,
}
use gtk4_kee.Prelude.Bytes.{Bytes, native_bytes}
use gtk4_kee.Prelude.Memory.{put_at}
use gtk4_kee.Prelude.Result.{Result, ok, err, fault, ◌>>=◌, or_code}
use gtk4_kee.Ledger.Types.{World, Ledger, Item, err_fail, digest_length}
use gtk4_kee.Ledger.Items.{get_item_by_idx}
use gtk4_kee.Ledger.Serialize.{item_serialize_db}

abbrev pub key_ledger_entry : ℕ
key_ledger_entry = 2

-- `to_endian` with its code unused: where it refuses, the bytes stay.
unfoldable pub swapped : Bytes → Result Bytes → Result Bytes
swapped old (ok bs) = ok bs
swapped old (err c) = ok old
swapped old fault = fault

module _ {Node Sexp Mpi : Type 0} (w : World Node Sexp Mpi) where
  -- An `unsigned int` of a number, in the bytes that `timespec_to_keypart` makes of it
  unfoldable pub key_int : ℕ → Result Bytes
  unfolding swapped
  key_int v =
      let mem = native_bytes w.lash.is_le 4 (v % 2 ^ 32) in swapped mem (w.lash.to_big_endian mem)

  -- `timespec_to_keypart`
  unfoldable pub timespec_to_keypart : ℕ → ℕ → Result Bytes
  unfolding key_int
  timespec_to_keypart sec nsec = do s ← key_int sec; n ← key_int nsec; ok (s ++ n)

  -- `db_key` for a time that is given: the buffer after it, and the length of the key
  unfoldable pub db_key : ℕ → ℕ → ℕ → Bytes → ℕ → Result (Bytes × ℕ)
  unfolding timespec_to_keypart put_at
  db_key pfx sec nsec out offset = do
    out ← put_at 0 (pfx ∷ []) out
    part ← timespec_to_keypart sec nsec
    out ← put_at (1 + offset) part out
    ok (out, offset + 1 + length part)

  -- The key of an item, in the buffer `k`
  unfoldable pub item_key : Ledger → Item → Bytes → Result Bytes
  unfolding db_key
  item_key l item k = do
    k ← put_at 1 (take digest_length l.digest) k
    (k, size) ←
        or_code err_fail
          (db_key key_ledger_entry item.time_sec item.time_nsec k (digest_length + 1))
    ok (take size k)

  -- `kee_ledger_item_put_buf`, from the item that was found on; `add` is `db_add`.
  unfoldable pub put_item :
      {Store : Type 0}
      → (Store → Bytes → Bytes → Result Store)
      → Ledger
      → List Item
      → Bytes
      → Store
      → Result Store
  unfolding item_key
  put_item add l [] k db = err err_fail
  put_item add l (item ∷ prev) k db = do
    key ← item_key l item k
    v ← or_code err_fail (item_serialize_db w item prev 2048)
    or_code err_fail (add db key v)

  -- `kee_ledger_item_put_buf`
  unfoldable pub item_put_buf :
      {Store : Type 0}
      → (Store → Bytes → Bytes → Result Store)
      → Ledger
      → ℕ
      → Bytes
      → Store
      → Result Store
  unfolding put_item
  item_put_buf add l idx k db = put_item add l (get_item_by_idx l idx) k db
