-- ===== src/Database/Write.antt =====
-- src/db.c, writing: `db_start`, `db_add`, `db_finish` and `db_put`.
use gtk4_kee.Prelude.{true, false, some, not, ℕ}
use gtk4_kee.Prelude.Bytes.{Bytes}
use gtk4_kee.Prelude.Result.{from_option, fail_if}
use gtk4_kee.Prelude.Stateful.{Stateful, ◌>>=◌, ◌>>◌, call, current, modify}
use gtk4_kee.Database.Library.{Lmdb}
use gtk4_kee.Database.{Ctx, Handle, null, opened, closed, deref, ℕ}

abbrev pub err_fail : ℕ
err_fail = 1

module _ {Env Tx Cursor : Type 0} (db : Lmdb Env Tx Cursor) where
  abbrev pub Call : Type 0 → Type 0
  Call A = Stateful (Ctx Env Tx Cursor) A

  unfoldable pub db_start : Call (Unit {0})
  db_start = do
    ctx ← current
    tx ← call (from_option err_fail (db.txn_begin ctx.env))
    modify (λ ctx. record ctx { tx = opened tx })
    call (fail_if (not (db.dbi_open tx)) err_fail)

  -- `db_add`: an entry whose key is there is not written over.
  unfoldable pub db_add : Bytes → Bytes → Call (Unit {0})
  db_add key data' = do
    ctx ← current
    tx ← call (deref ctx.tx)
    tx' ← call (from_option err_fail (db.put true tx key data'))
    modify (λ ctx. record ctx { tx = opened tx' })

  -- What `mdb_txn_commit` leaves of a transaction, whether it succeeds or not
  abbrev committed : Handle Tx → Handle Tx
  committed null = null
  committed _ = closed

  -- `db_finish`: the pointer to the transaction is reset where it was committed.
  unfoldable pub db_finish : Call (Unit {0})
  db_finish = do
    ctx ← current
    tx ← call (deref ctx.tx)
    modify (λ ctx. record ctx { tx = committed ctx.tx })
    env ← call (from_option err_fail (db.commit ctx.env tx))
    modify (λ ctx. record ctx { env = env; tx = null })

  -- `db_put`, in a transaction of its own
  unfoldable pub db_put : Bytes → Bytes → Call (Unit {0})
  db_put key data' = do
    ctx ← current
    tx ← call (from_option err_fail (db.txn_begin ctx.env))
    call (fail_if (not (db.dbi_open tx)) err_fail)
    tx' ← call (from_option err_fail (db.put false (some tx) key data'))
    env ← call (from_option err_fail (db.commit ctx.env (some tx')))
    modify (λ ctx. record ctx { env = env })
