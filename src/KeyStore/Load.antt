-- ===== src/KeyStore/Load.antt =====
-- src/gpg.c, how a key comes into a store: `key_apply_public` and `gpg_key_load`.
use gtk4_kee.Prelude.{Option, some, take, length, ltb}
use gtk4_kee.Prelude.Bytes.{Bytes}
use gtk4_kee.Prelude.Result.{or_code, from_option, fault_if}
use gtk4_kee.Prelude.Stateful.{Stateful, ◌>>=◌, ◌>>◌, call, current, modify, replace_code}
use gtk4_kee.KeyStore.Library.{public_key, point, Around}
use gtk4_kee.KeyStore.File.{
  err_fail, err_keyfail, pubkey_length, held, deref, GpgStore, Session, FindMode, key_path,
  key_from_file,
}

module _ {Sexp Mpi Files : Type 0} (w : Around Sexp Mpi Files) where
  abbrev pub Call : Type 0 → Type 0
  Call A = Stateful (Session Sexp Files) A

  abbrev pub modify_store : (GpgStore Sexp → GpgStore Sexp) → Call (Unit {0})
  modify_store f = modify (λ s. record s { store = f s.store })

  unfoldable pub key_apply_public : Option Sexp → Call (Unit {0})
  key_apply_public key = do
    pubkey ← call (from_option err_keyfail (w.keys.find_token key public_key))
    pubkey ← call (from_option err_keyfail (w.keys.find_token (some pubkey) point))
    p ← call (from_option err_keyfail (w.keys.nth_data pubkey))
    call (fault_if (ltb (length p) pubkey_length))
    modify_store (λ g. record g { public_key = take pubkey_length p })

  unfoldable pub load_file : Bytes → FindMode → Call (Unit {0})
  unfolding key_path key_from_file
  load_file passphrase mode = do
    s ← current
    path ← call (key_path w s.store mode)
    key ← call (or_code err_keyfail (key_from_file w s.files path passphrase))
    modify_store (λ g. record g { k = held key })

  -- `gpg_key_load`
  unfoldable pub gpg_key_load : Bytes → FindMode → Call (Unit {0})
  unfolding load_file key_apply_public
  gpg_key_load passphrase mode = do
    load_file passphrase mode
    s ← current
    key ← call (deref s.store.k)
    grip ← call (from_option err_keyfail (w.keys.keygrip key))
    modify_store (λ g. record g { fingerprint = grip })
    replace_code err_fail (key_apply_public key)
