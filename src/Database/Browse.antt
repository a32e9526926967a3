-- ===== src/Database/Browse.antt =====
-- src/db.c, reading: `db_next`, `db_rewind` and `db_reset`.
use gtk4_kee.Prelude.{ℕ, ◌%◌, true, false, not, get_or, ◌==◌, if◌then◌else◌}
use gtk4_kee.Prelude.Bytes.{Bytes}
use gtk4_kee.Prelude.Result.{ok, from_option, fail_if, err}
use gtk4_kee.Prelude.Stateful.{◌>>=◌, ◌>>◌, call, current, modify}
use gtk4_kee.Database.Library.{Lmdb}
use gtk4_kee.Database.{
  null, opened, deref, free, search_key, delivered, err_db_fail, err_db_nomatch, err_db_invalid, ℕ,
}
use gtk4_kee.Database.Write.{Call}

module _ {Env Tx Cursor : Type 0} (db : Lmdb Env Tx Cursor) where
  -- What `db_next` does where it was started before: the old cursor and transaction go.
  unfoldable pub close_old : Call db (Unit {0})
  close_old = do
    ctx ← current
    crsr ← call (free ctx.crsr)
    modify (λ ctx. record ctx { crsr = crsr })
    tx ← call (free ctx.tx)
    modify (λ ctx. record ctx { tx = tx })

  -- The first branch of `db_next`, from `mdb_txn_begin` on: a new cursor, and the first entry
  unfoldable pub open_new : ℕ → Bytes → ℕ → Call db (Cursor × Bytes × Bytes)
  open_new pfx key key_len = do
    ctx ← current
    tx ← call (from_option err_db_fail (db.txn_begin ctx.env))
    modify (λ ctx. record ctx { tx = opened tx })
    call (fail_if (not (db.dbi_open tx)) err_db_fail)
    crsr ← call (from_option err_db_fail (db.cursor_open tx))
    modify (λ ctx. record ctx { crsr = opened crsr; current_key = pfx; browsing = true })
    start ← call (search_key pfx key key_len)
    call (from_option err_db_fail (db.set_range crsr start))

  unfoldable pub restart : ℕ → Bytes → ℕ → Call db (Cursor × Bytes × Bytes)
  unfolding close_old open_new
  restart pfx key key_len = do
    ctx ← current
    if ctx.started then close_old else call (ok tt)
    open_new pfx key key_len

  -- The other branch
  unfoldable pub forward : Call db (Cursor × Bytes × Bytes)
  forward = do
    ctx ← current
    crsr ← call (deref ctx.crsr)
    call (from_option err_db_fail (db.next_nodup crsr))

  -- What follows both: an entry under another prefix ends the browsing.
  unfoldable pub matched : Cursor → Bytes → Call db (Unit {0})
  matched crsr k = do
    modify (λ ctx. record ctx { crsr = opened crsr; started = true })
    ctx ← current
    if get_or k 0 0 == ctx.current_key
        then call (ok tt)
        else (do modify (λ ctx. record ctx { browsing = false }); call (err err_db_nomatch))

  -- `db_next` with buffers for a key and a value: the buffers after it, each with a length
  unfoldable pub db_next : ℕ → Bytes → ℕ → Bytes → Call db (Bytes × ℕ × Bytes × ℕ)
  unfolding restart forward matched
  db_next pfx key key_len value = do
    call (fail_if (pfx % 256 == 0) err_db_invalid)
    ctx ← current
    (crsr, k, v) ← (if ctx.browsing then forward else restart pfx key key_len)
    matched crsr k
    call (delivered key value k v)

  unfoldable pub db_rewind : Call db (Unit {0})
  db_rewind = do
    ctx ← current
    _ ← call (free ctx.tx)
    modify (λ ctx. record ctx { tx = null; browsing = false })

  -- `db_reset`, which leaves the environment null too
  unfoldable pub db_reset : Env → Call db (Unit {0})
  unfolding db_rewind
  db_reset null_env = do
    db_rewind
    ctx ← current
    _ ← call (free ctx.crsr)
    modify (λ ctx. record {
      env = null_env;
      tx = null;
      crsr = null;
      current_key = 0;
      started = false;
      browsing = false;
    })
