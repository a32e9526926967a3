-- ===== src/Entry/Send.antt =====
-- src/gtk/kee-entry.c, what the buttons of an entry do (`kee_entry_handle_add`,
-- `kee_entry_handle_confirm`), and src/gtk/kee-import.c, what is made of a text on the other side
-- (`kee_import_handle_import_data_accept`). The text of an entry of the toolkit is a text here; `g_log`
-- with G_LOG_LEVEL_ERROR ends the program, which is an error, and so is a return that only logs.
use gtk4_kee.Prelude.{
  ℕ, ◌+◌, ◌*◌, ◌-◌, ◌%◌, ◌&&◌, ◌||◌, List, [], ◌∷◌, ◌++◌, Option, if◌then◌else◌, ◌==◌, leb, length,
  take,
}
use gtk4_kee.Prelude.Bytes.{Bytes}
use gtk4_kee.Prelude.Memory.{put_at}
use gtk4_kee.Prelude.Result.{Result, ok, err, fault, ◌>>=◌, or_code}
use gtk4_kee.Database.{Ctx}
use gtk4_kee.Database.Library.{Lmdb}
use gtk4_kee.Transport.Pack.{Codec}
use gtk4_kee.Transport.{
  Transport, base64, cmd_import, cmd_ledger, cmd_of, single, write, next, read,
}
use gtk4_kee.Ledger.Types.{
  World, Ledger, Item, LedgerState, alice, err_fail, pubkey_length, int_mod,
}
use gtk4_kee.Ledger.Items.{add_item}
use gtk4_kee.Ledger.Serialize.{serialize_open}
use gtk4_kee.Ledger.Sign.{ledger_sign}
use gtk4_kee.Ledger.Store.{ledger_put, state_of}
use gtk4_kee.KeyStore.Library.{Around}
use gtk4_kee.KeyStore.File.{Session}
use gtk4_kee.KeyStore.Sign.{store_signer}
use gtk4_kee.KeyStore.Check.{gpg_store_digest, uninitialised}

-- The texts in the form of the edit view that `kee_entry_handle_add` reads
pub record Fields : Type 0 where
  pub uoa : Bytes
  pub uoa_decimals : Bytes
  pub alice_credit_delta : Bytes
  pub alice_collateral_delta : Bytes
  pub bob_pubkey : Bytes

-- `struct kee_entry_form_t`: in that of the summary only the passphrase is not null.
pub data Form : Type 0 where
  no_form : Form
  summary : (passphrase : Bytes) → Form
  full : Fields → (passphrase : Bytes) → Form

-- `atoi`, as a 32-bit pattern; C leaves a number that is too large undefined.
unfoldable pub digits_value : ℕ → Bytes → ℕ
digits_value v [] = v
digits_value v (b ∷ bs) =
    let rest = digits_value (v * 10 + (b - 48)) bs in if leb 48 b && leb b 57 then rest else v

unfoldable pub atoi : Bytes → ℕ
unfolding digits_value
atoi [] = 0
atoi (b ∷ bs) =
    let rest = atoi bs in
    if b == 32 || (leb 9 b && leb b 13)
    then rest
    else if b == 0x2d
    then (int_mod - digits_value 0 bs % int_mod) % int_mod
    else if b == 0x2b
    then digits_value 0 bs % int_mod
    else digits_value 0 (b ∷ bs) % int_mod

-- The passphrase in the form
unfoldable pub passphrase_in : Form → Result Bytes
passphrase_in no_form = fault
passphrase_in (summary passphrase) = ok passphrase
passphrase_in (full fields passphrase) = ok passphrase

-- The lines of `kee_entry_handle_add` that fill in the ledger and a new item of it; `h2b` of liblash
-- gives the bytes of a text in hexadecimal.
unfoldable pub fill_in : (Bytes → Bytes) → Fields → Ledger → Result Ledger
unfolding atoi add_item
fill_in h2b f l = do
  uoa ← put_at 0 (f.uoa ++ 0 ∷ []) l.uoa
  key ← put_at 0 (h2b f.bob_pubkey) l.pubkey_bob
  let l' = add_item (record l { uoa = uoa; uoa_decimals = atoi f.uoa_decimals % 256 })
  (elim (l'.items) [
    | [] ↦ fault
    | item ∷ prev ↦ ok (record l' {
      pubkey_bob = key;
      items =
          record item {
            initiator = alice;
            alice_credit_delta = atoi f.alice_credit_delta;
            alice_collateral_delta = atoi f.alice_collateral_delta;
          }
          ∷ prev;
    })
  ])

unfoldable pub filled : (Bytes → Bytes) → Form → Ledger → Result Ledger
unfolding fill_in
filled h2b no_form l = fault
filled h2b (summary passphrase) l = fault
filled h2b (full fields passphrase) l = fill_in h2b fields l

-- The return of `kee_ledger_sign`, where a failure ends the program
unfoldable pub signed_ledger :
    {Store : Type 0}
    → Ledger
    → List Item
    → Result (Unit {0}) × Item × Store
    → Result (Ledger × Store)
signed_ledger l prev (ok _, item, store) = ok (record l { items = item ∷ prev }, store)
signed_ledger l prev (err c, item, store) = err err_fail
signed_ledger l prev (fault, item, store) = fault

module _ {Node Sexp Mpi Files : Type 0} (w : World Node Sexp Mpi) (a : Around Sexp Mpi Files) where
  -- The call of `kee_ledger_sign` for the last item; a null pointer is read through.
  unfoldable pub sign_last :
      Ledger → List Item → Session Sexp Files → Bytes → Result (Ledger × Session Sexp Files)
  unfolding signed_ledger
  sign_last l [] g hash = fault
  sign_last l (item ∷ prev) g hash =
      signed_ledger l prev (ledger_sign w (store_signer a) l item prev g hash)

  -- From the passphrase to `kee_ledger_sign`; the key that is made of it is 32 bytes of the 64.
  unfoldable pub sign_entry :
      Bytes → Ledger → Session Sexp Files → Result (Ledger × Session Sexp Files)
  unfolding sign_last
  sign_entry passphrase l g = do
    hash ← gpg_store_digest a (uninitialised a 64) passphrase
    sign_last (record l { pubkey_alice = take pubkey_length g.store.public_key }) l.items g
        (take 32 hash)

module _ {Node Sexp Mpi Enc : Type 0} (w : World Node Sexp Mpi) (codec : Codec Enc) where
  -- From `kee_ledger_serialize_open` to `kee_transport_next`: the block `out` of 1024 bytes with the
  -- text for the other side. The room for the compressed data is the length of the plain one.
  unfoldable pub send : Ledger → Bytes → Result Bytes
  send l out = do
    sent ← or_code err_fail (serialize_open w l 1024 LedgerState.response)
    out ← put_at 0 sent out
    t ← or_code err_fail (single base64 cmd_ledger (length sent))
    t ← or_code err_fail (write t sent)
    (t, out, size) ← or_code err_fail (next codec t out (length sent))
    ok out

-- What a handler leaves: the text that goes to the action, the ledger and the key store
pub record Sent (Store : Type 0) : Type 0 where
  pub out : Bytes
  pub ledger : Ledger
  pub store : Store

module _ {Node Sexp Mpi Files Enc : Type 0} (w : World Node Sexp Mpi) (a : Around Sexp Mpi Files)
    (codec : Codec Enc) where
  -- `kee_entry_handle_add`, which gives the text to the action "qr"
  unfoldable pub handle_add :
      (Bytes → Bytes)
      → Form
      → Ledger
      → Session Sexp Files
      → Bytes
      → Result (Sent (Session Sexp Files))
  unfolding filled sign_entry send passphrase_in
  handle_add h2b form l g out = do
    l ← filled h2b form l
    passphrase ← passphrase_in form
    (l, g) ← sign_entry w a passphrase l g
    out ← send w codec l out
    ok (record { out = out; ledger = l; store = g })

  module _ {Env Tx Cursor : Type 0} (db : Lmdb Env Tx Cursor) where
    -- `kee_entry_handle_confirm`, which gives the text to the action "commit", and the database after it
    unfoldable pub handle_confirm :
        Option (ℕ × ℕ)
        → Form
        → Ledger
        → Session Sexp Files
        → Ctx Env Tx Cursor
        → Bytes
        → Result (Sent (Session Sexp Files) × Ctx Env Tx Cursor)
    unfolding passphrase_in sign_entry send
    handle_confirm clock form l g ctx out = do
      passphrase ← passphrase_in form
      (l, g) ← sign_entry w a passphrase l g
      ctx ← or_code err_fail (state_of (ledger_put w db clock l ctx))
      out ← send w codec l out
      ok (record { out = out; ledger = l; store = g }, ctx)

module _ {Enc : Type 0} (codec : Codec Enc) where
  -- `kee_import_handle_import_data_accept`, up to what was read to the array `b` of 1024 bytes
  unfoldable pub take_in : Bytes → Bytes → Result (Transport × Bytes × ℕ)
  take_in s b = do t ← single base64 cmd_import 0; t ← write t s; read codec t b 1024

  -- The `switch` on the command: the data that goes to the action "ledger"
  unfoldable pub dispatch : Transport × Bytes × ℕ → Result Bytes
  dispatch (t, b, c) = if cmd_of t == cmd_ledger then ok (take c b) else err err_fail

  -- `kee_import_handle_import_data_accept` for the text `s`
  unfoldable pub import_data_accept : Bytes → Bytes → Result Bytes
  unfolding take_in dispatch
  import_data_accept s b = take_in s b >>= dispatch
