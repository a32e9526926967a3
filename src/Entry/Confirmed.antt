-- ===== src/Entry/Confirmed.antt =====
-- src/gtk/kee-entry.c, `kee_entry_handle_confirm`: what was done where it gives a text to its action.
use gtk4_kee.Prelude.{ℕ, ◌≡◌, refl, sym, ap, ◌∙◌, List, [], ◌∷◌, Option, some, take, subst}
use gtk4_kee.Prelude.Bytes.{Bytes}
use gtk4_kee.Prelude.Result.{
  Result, ok, err, fault, >>=-eq-ok, or_code-eq-ok, ok-injective, or_code,
}
use gtk4_kee.Database.{Ctx}
use gtk4_kee.Database.Library.{Lmdb}
use gtk4_kee.Transport.Pack.{Codec}
use gtk4_kee.Ledger.Types.{World, Ledger, Item, pubkey_length}
use gtk4_kee.Ledger.Sign.{ledger_sign}
use gtk4_kee.Ledger.SignVerify.{own_check}
use gtk4_kee.Ledger.Store.{ledger_put, state_of}
use gtk4_kee.Ledger.Stored.{Committed, ledger_put-Committed}
use gtk4_kee.KeyStore.Library.{Around}
use gtk4_kee.KeyStore.File.{Session}
use gtk4_kee.KeyStore.Sign.{store_signer}
use gtk4_kee.KeyStore.Sound.{IsSigning, IsKept}
use gtk4_kee.KeyStore.Check.{gpg_store_digest, uninitialised}
use gtk4_kee.KeyStore.Ledgers.{ledger_sign-store}
use gtk4_kee.Entry.Send.{
  Form, passphrase_in, signed_ledger, sign_last, sign_entry, send, Sent, handle_confirm,
}

-- A call whose state is taken where it succeeds
state_of-eq-ok :
    {S : Type 0} (o : Result (Unit {0}) × S) {s : S} → state_of o ≡ ok s → o ≡ (ok tt, s)
state_of-eq-ok (ok tt, s) h = ap (λ s. (ok tt, s)) (ok-injective h)
state_of-eq-ok (err c, s) h = absurd (cc)
state_of-eq-ok (fault, s) h = absurd (cc)

signed_ledger-eq-ok :
    {Store : Type 0} (l : Ledger) (prev : List Item) (o : Result (Unit {0}) × Item × Store)
    {l' : Ledger} {g : Store}
    → signed_ledger l prev o ≡ ok (l', g)
    → (o.0 ≡ ok tt) × (l'.items ≡ o.1 ∷ prev) × (o.2 ≡ g)
unfolding signed_ledger
signed_ledger-eq-ok l prev (ok tt, item, store) h =
    let e = ok-injective h in (refl, ap (λ o. (o.0).items) (sym e), ap (λ o. o.1) e)
signed_ledger-eq-ok l prev (err c, item, store) h = absurd (cc)
signed_ledger-eq-ok l prev (fault, item, store) h = absurd (cc)

-- The new signature is one that is put together again as it was.
abbrev pub LastKept : List Item → Type 0
LastKept [] = Unit
LastKept (item ∷ _) = IsKept item.alice_signature

module _ {Node Sexp Mpi Files : Type 0} (w : World Node Sexp Mpi) (a : Around Sexp Mpi Files)
    (law : IsSigning a.gcry a.keys) (same : w.gcry ≡ a.gcry) where
  -- The last item of a ledger, which was signed in it and passes the check of the signature
  pub record IsSigned (l l' : Ledger) (g : Session Sexp Files) : Type 0 where
    pub item : Item
    pub signed_item : Item
    pub prev : List Item
    pub hash : Bytes
    pub before : l.items ≡ item ∷ prev
    pub behind : l'.items ≡ signed_item ∷ prev
    pub verifies : own_check w (store_signer a) l item prev g hash signed_item ≡ ok tt

  sign_last-IsSigned :
      (l : Ledger) (items : List Item) (g : Session Sexp Files) (hash : Bytes) {l' : Ledger}
      {g' : Session Sexp Files}
      → l.items ≡ items
      → sign_last w a l items g hash ≡ ok (l', g')
      → l.pubkey_alice ≡ g'.store.public_key
      → LastKept l'.items
      → IsSigned l l' g
  unfolding sign_last
  sign_last-IsSigned l [] g hash i h key kept = absurd (cc)
  sign_last-IsSigned l (item ∷ prev) g hash i h key kept =
      let o = ledger_sign w (store_signer a) l item prev g hash in
      let (e, items, store) = signed_ledger-eq-ok l prev o h in
      record {
        item = item;
        signed_item = o.1;
        prev = prev;
        hash = hash;
        before = i;
        behind = items;
        verifies =
            ledger_sign-store w a law same l item prev g hash e
              (key ∙ ap (λ (g : Session Sexp Files). g.store.public_key) (sym store))
              (subst LastKept items kept);
      }

  module _ {Enc Env Tx Cursor : Type 0} (codec : Codec Enc) (db : Lmdb Env Tx Cursor) where
    -- What is true where `kee_entry_handle_confirm` gives a text to its action
    abbrev IsConfirmed :
        Option (ℕ × ℕ)
        → Ledger
        → Session Sexp Files
        → Ctx Env Tx Cursor
        → Bytes
        → Sent (Session Sexp Files) × Ctx Env Tx Cursor
        → Type 0
    IsConfirmed clock l g before out (sent, ctx) =
        IsSigned (record l { pubkey_alice = take pubkey_length g.store.public_key }) sent.ledger g
        × ((time : ℕ × ℕ) × (clock ≡ some time) × Committed w db time sent.ledger before ctx)
        × (send w codec sent.ledger out ≡ ok sent.out)

    -- `kee_entry_handle_confirm` gives a text to its action only where the last item of the ledger was
    -- signed with a signature that passes the check of `kee_ledger_verify`, and `kee_ledger_put` then
    -- committed what it put of the ledger with that item, as in `ledger_put-Committed`; the text is the
    -- one that is made of that ledger. The public key that the key store had before is that of the key it
    -- signed with, the two parts of the signature are the shortest texts of their integers in two's
    -- complement, and libgcrypt is as documented.
    pub handle_confirm-Confirmed :
        (clock : Option (ℕ × ℕ)) (form : Form) (l : Ledger) (g : Session Sexp Files)
        (ctx : Ctx Env Tx Cursor) (out : Bytes) {o : Sent (Session Sexp Files) × Ctx Env Tx Cursor}
        → handle_confirm w a codec db clock form l g ctx out ≡ ok o
        → take pubkey_length g.store.public_key ≡ o.0.store.store.public_key
        → LastKept o.0.ledger.items
        → IsConfirmed clock l g ctx out o
    unfolding handle_confirm sign_entry
    handle_confirm-Confirmed clock form l g ctx out h key kept =
        let (passphrase, _, h) = >>=-eq-ok (passphrase_in form) _ h in
        let ((l', g'), signed, h) = >>=-eq-ok (sign_entry w a passphrase l g) _ h in
        let (hash, _, last) =
          >>=-eq-ok (gpg_store_digest a (uninitialised a 64) passphrase) _ signed in
        let (s, put, h) = >>=-eq-ok (or_code 1 (state_of (ledger_put w db clock l' ctx))) _ h in
        let (text, sends, h) = >>=-eq-ok (send w codec l' out) _ h in
        let e = ok-injective h in
        let l'' = record l { pubkey_alice = take pubkey_length g.store.public_key } in
        let done = state_of-eq-ok (ledger_put w db clock l' ctx) (or_code-eq-ok 1 _ put) in
        let committed = ledger_put-Committed w db clock l' ctx s done in
        let kept' =
          subst (λ (o : Sent (Session Sexp Files) × Ctx Env Tx Cursor). LastKept o.0.ledger.items)
            (sym e) kept in
        subst (IsConfirmed clock l g ctx out) e (
          sign_last-IsSigned l'' l.items g (take 32 hash) refl last
              (key ∙ ap (λ o. ((o.0).store).store.public_key) (sym e)) kept',
          committed,
          sends,
        )
