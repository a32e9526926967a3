-- ===== src/Entry/Load.antt =====
-- src/gtk/kee-entry.c, how an entry takes up a ledger (`kee_entry_from_ledger`, `kee_entry_deserialize`)
-- and the name of Bob that it shows. The widget of the list, which `process_entry_ledger` makes last, is
-- left out.
pub mod Named
use gtk4_kee.Prelude.{
  ℕ, Bool, true, List, [], ◌∷◌, ◌++◌, Option, none, some, ◌==◌, if◌then◌else◌, take, overlay,
}
use gtk4_kee.Prelude.Bytes.{Bytes}
use gtk4_kee.Prelude.Result.{Result, ok, err, fault, or_code}
use gtk4_kee.Prelude.Stateful.{Stateful, ◌>>=◌, ◌>>◌, call, current, modify, replace_code, attempt}
use gtk4_kee.Crypto.{calculate_digest_algo, err_digestfail}
use gtk4_kee.Crypto.Library.{sha512}
use gtk4_kee.Content.Resolve.{Resolver, content_resolve}
use gtk4_kee.Database.{Ctx, err_db_nomatch}
use gtk4_kee.Database.Library.{Lmdb}
use gtk4_kee.Database.Browse.{db_next, db_rewind}
use gtk4_kee.DistinguishedName.{Dn, Str2Dn, dn_from_str, err_fail}
use gtk4_kee.Ledger.Types.{World, Ledger, pubkey_length}
use gtk4_kee.Ledger.Parse.{ledger_parse}

-- The fields of `struct _KeeEntry` that loading works on, with the bit ENTRYSTATE_LOAD of `state`
pub record Entry (Env Tx Cursor : Type 0) : Type 0 where
  pub ledger : Ledger
  pub bob_dn : Dn
  pub current_id : Bytes
  pub is_loaded : Bool
  pub ctx : Ctx Env Tx Cursor

-- `DbKeyDN`
abbrev pub key_dn : ℕ
key_dn = 3

-- The name of a party that the database has none of: `cn=johndoe`
abbrev pub johndoe : Bytes
johndoe = b'c' ∷ b'n' ∷ b'=' ∷ b'j' ∷ b'o' ∷ b'h' ∷ b'n' ∷ b'd' ∷ b'o' ∷ b'e' ∷ []

-- What `kee_dn_from_str` is given after `db_next`
unfoldable pub bob_name : Result (Bytes × ℕ × Bytes × ℕ) → Result Bytes
bob_name (ok (_, _, value, size)) = ok (take size value)
bob_name (err c) = if c == err_db_nomatch then ok johndoe else err err_fail
bob_name fault = fault

-- The 69 bytes with the key of Bob: `uid=`, the digits that `b2h` of liblash makes, and a NUL
unfoldable pub uid_text : (Bytes → Bytes) → Bytes → Bytes
uid_text b2h key = take 69 (b'u' ∷ b'i' ∷ b'd' ∷ b'=' ∷ (b2h (take pubkey_length key) ++ 0 ∷ []))

module _ {Env Tx Cursor : Type 0} where
  -- A call on a part of the entry
  abbrev pub on_db :
      {A : Type 0} → Stateful (Ctx Env Tx Cursor) A → Stateful (Entry Env Tx Cursor) A
  on_db m o = let (r, ctx) = m o.ctx in (r, record o { ctx = ctx })

  unfoldable pub on_dn : {A : Type 0} → Stateful Dn A → Stateful (Entry Env Tx Cursor) A
  on_dn m o = let (r, dn) = m o.bob_dn in (r, record o { bob_dn = dn })

  abbrev pub on_ledger : {A : Type 0} → Stateful Ledger A → Stateful (Entry Env Tx Cursor) A
  on_ledger m o = let (r, l) = m o.ledger in (r, record o { ledger = l })

  -- The branch for a name that has no user id: the key takes its place.
  unfoldable pub user_id :
      Str2Dn → (Bytes → Bytes) → Bytes → Option ℕ → Stateful (Entry Env Tx Cursor) (Unit {0})
  unfolding uid_text on_dn
  user_id str2dn b2h key none =
      replace_code err_fail (on_dn (dn_from_str str2dn (uid_text b2h key)))
  user_id str2dn b2h key (some at) = call (ok tt)

  unfoldable pub name_by_key : Str2Dn → (Bytes → Bytes) → Stateful (Entry Env Tx Cursor) (Unit {0})
  unfolding user_id
  name_by_key str2dn b2h = do o ← current; user_id str2dn b2h o.ledger.pubkey_bob o.bob_dn.uid

module _ {Node Sexp Mpi Env Tx Cursor : Type 0} (w : World Node Sexp Mpi) (r : Resolver)
    (db : Lmdb Env Tx Cursor) (str2dn : Str2Dn) (b2h : Bytes → Bytes) where
  -- `process_entry_ledger`, with the 1024 bytes for the value as they are before; a key of
  -- the database that is longer than its 33 bytes is out of bounds here
  unfoldable pub process_entry_ledger : Bytes → Stateful (Entry Env Tx Cursor) (Unit {0})
  unfolding bob_name name_by_key
  process_entry_ledger mem = do
    o ← current
    content ← call (content_resolve r o.ledger.content)
    modify (λ o. let l = record o.ledger { content = content } in record o { ledger = l })
    on_db (db_rewind db)
    o ← current
    found ←
        attempt (on_db (db_next db key_dn (key_dn ∷ take pubkey_length o.ledger.pubkey_bob) 32 mem))
    name ← call (bob_name found)
    replace_code err_fail (on_dn (dn_from_str str2dn name))
    on_db (db_rewind db)
    name_by_key str2dn b2h
    modify (λ o. record o { is_loaded = true })

  -- `kee_entry_from_ledger`
  unfoldable pub entry_from_ledger : Ledger → Bytes → Stateful (Entry Env Tx Cursor) (Unit {0})
  unfolding process_entry_ledger
  entry_from_ledger l mem = do
    modify (λ o. record o { ledger = l })
    replace_code err_fail (process_entry_ledger mem)
    modify (λ o. record o { current_id = overlay o.current_id (take 64 l.digest) })

  -- `kee_entry_deserialize`
  unfoldable pub entry_deserialize : Bytes → Bytes → Stateful (Entry Env Tx Cursor) (Unit {0})
  unfolding process_entry_ledger
  entry_deserialize input mem = do
    replace_code err_fail (on_ledger (ledger_parse w input))
    digest ← call (or_code err_digestfail (calculate_digest_algo w.gcry input sha512))
    modify (λ o. record o { current_id = overlay o.current_id digest })
    replace_code err_fail (process_entry_ledger mem)
