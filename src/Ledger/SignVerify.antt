-- ===== src/Ledger/SignVerify.antt =====
-- `kee_ledger_sign` of src/ledger.c: when it signs, what it changes, and that `verify_item` accepts
-- what it signed.
use gtk4_kee.Prelude.{
  ℕ, true, ◌≡◌, ◌≢◌, refl, ◌∙◌, ap, List, inl, inr, take, Bool-cases, false, if◌then◌else◌, ◌+◌,
}
use gtk4_kee.Prelude.Bytes.{Bytes}
use gtk4_kee.Prelude.Result.{
  Result, ok, err, fault, or_code, ◌>>=◌, fail_if, ok-injective, fail_if-eq-ok, >>=-eq-ok,
}
use gtk4_kee.Ledger.Types.{
  World, Ledger, Item, is_bob, err_already_signed, signature_length, state_code,
}
use gtk4_kee.Ledger.Items.{is_signed, item_state}
use gtk4_kee.Ledger.Serialize.{item_serialize, ledger_digest}
use gtk4_kee.Ledger.Verify.{verify_item, verify_item_data, signed_data}
use gtk4_kee.Ledger.Accepted.{request_check, response_check}
use gtk4_kee.Ledger.Sign.{Signer, sign_mode, data_to_sign, ledger_sign, store_signature, sign_data}

-- The item with its first party's signature written.
abbrev pub with_signature : Item → Bytes → Item
with_signature item sig = record item { alice_signature = sig }

module _ {Node Sexp Mpi : Type 0} (w : World Node Sexp Mpi) where
  -- The encoding that is signed does not hold the signature that is being made.
  item_serialize-with_signature :
      (item : Item) (prev : List Item) (size : ℕ) (sig : Bytes)
      → item_serialize w (with_signature item sig) prev size (sign_mode item)
        ≡ item_serialize w item prev size (sign_mode item)
  unfolding item_serialize
  item_serialize-with_signature item prev size sig = elim (Bool-cases (is_bob item.initiator)) [
    | inl b ↦ rw b
    | inr b ↦ rw b
  ]

  assembled :
      (allowed : Result (Unit {0})) (digest encoded : Result Bytes)
      (check : Bytes → Result (Unit {0})) {data' : Bytes}
      → (allowed >>= λ _.
          or_code 1 digest >>= λ d. or_code 1 encoded >>= λ e. ok (signed_data w d e))
        ≡ ok data'
      → (or_code 1 encoded >>= λ e. or_code 1 digest >>= λ d. or_code 1 (check (signed_data w d e)))
        ≡ or_code 1 (check data')
  assembled (ok _) (ok d) (ok e) check h = ap (λ data'. or_code 1 (check data')) (ok-injective h)
  assembled (ok _) (ok d) (err c) check h = cc
  assembled (ok _) (ok d) fault check h = cc
  assembled (ok _) (err c) e check h = cc
  assembled (ok _) fault e check h = cc
  assembled (err c) d e check h = cc
  assembled fault d e check h = cc

  -- What `verify_item` checks after signing is what was signed.
  verify_item-signed :
      (l : Ledger) (item : Item) (prev : List Item) (sig key : Bytes) {data' : Bytes}
      → data_to_sign w l item prev ≡ ok data'
      → verify_item w l (with_signature item sig) prev (sign_mode item) sig key
        ≡ or_code 1 (verify_item_data w data' sig key)
  unfolding verify_item data_to_sign
  verify_item-signed l item prev sig key h = rw (item_serialize-with_signature item prev 960 sig) (
      assembled (fail_if (is_signed item.alice_signature) err_already_signed) (ledger_digest w l)
        (item_serialize w item prev 960 (sign_mode item))
        (λ data'. verify_item_data w data' sig key) h)

module _ {Node Sexp Mpi Store : Type 0} (w : World Node Sexp Mpi) (gpg : Signer Store) where
  -- What `kee_ledger_sign` relies on: a signature that was made is accepted for the data and the
  -- key of the store after it.
  abbrev pub IsSound : Type 0
  IsSound =
      (store after : Store) (data' passphrase fingerprint : Bytes)
      → gpg.sign_with store data' passphrase fingerprint ≡ (ok tt, after)
      → verify_item_data w data' (take signature_length (gpg.last_signature after))
          (gpg.public_key after)
        ≡ ok tt

  -- The same of the signatures with a property only
  abbrev pub IsSoundFor : (Bytes → Type 0) → Type 0
  IsSoundFor P =
      (store after : Store) (data' passphrase fingerprint : Bytes)
      → gpg.sign_with store data' passphrase fingerprint ≡ (ok tt, after)
      → P (take signature_length (gpg.last_signature after))
      → verify_item_data w data' (take signature_length (gpg.last_signature after))
          (gpg.public_key after)
        ≡ ok tt

  -- How a call ends: signed, with `gpg_store_sign_with` having succeeded on the data, or not, with
  -- the item as it was.
  pub data Signed (l : Ledger) (item : Item) (prev : List Item) (store : Store) (passphrase : Bytes)
      : Result (Unit {0}) × Item × Store → Type 0 where
    signed :
        (data' : Bytes) (after : Store)
        → data_to_sign w l item prev ≡ ok data'
        → gpg.sign_with store data' passphrase (gpg.fingerprint store) ≡ (ok tt, after)
        → Signed l item prev store passphrase
            (ok tt, with_signature item (take signature_length (gpg.last_signature after)), after)
    unsigned :
        {r : Result (Unit {0})} {after : Store}
        → r ≢ ok tt
        → Signed l item prev store passphrase (r, item, after)

  module _ (l : Ledger) (item : Item) (prev : List Item) (store : Store) (passphrase : Bytes) where
    stored :
        (data' : Bytes) (out : Result (Unit {0}) × Store)
        → data_to_sign w l item prev ≡ ok data'
        → gpg.sign_with store data' passphrase (gpg.fingerprint store) ≡ out
        → Signed l item prev store passphrase (store_signature gpg item out)
    unfolding store_signature
    stored data' (ok _, after) d e = Signed.signed data' after d e
    stored data' (err c, after) d e = Signed.unsigned (λ h. cc)
    stored data' (fault, after) d e = Signed.unsigned (λ h. cc)

    from_data :
        (d : Result Bytes)
        → data_to_sign w l item prev ≡ d
        → Signed l item prev store passphrase (sign_data gpg item store passphrase d)
    unfolding sign_data
    from_data (ok data') e = stored data' _ e refl
    from_data (err c) e = Signed.unsigned (λ h. cc)
    from_data fault e = Signed.unsigned (λ h. cc)

    -- Signing ends with the first party's signature written, after the data was put together and
    -- signed, or without success and with the item as it was.
    pub ledger_sign-Signed :
        Signed l item prev store passphrase (ledger_sign w gpg l item prev store passphrase)
    unfolding ledger_sign
    ledger_sign-Signed = from_data (data_to_sign w l item prev) refl

    -- An item that has the first party's signature is refused, and stays as it is.
    pub ledger_sign_twice :
        is_signed item.alice_signature ≡ true
        → ledger_sign w gpg l item prev store passphrase ≡ (err err_already_signed, item, store)
    unfolding ledger_sign
    ledger_sign_twice h = rw h

    Signed-verifies :
        (P : Bytes → Type 0)
        → IsSoundFor P
        → (out : Result (Unit {0}) × Item × Store) → Signed l item prev store passphrase out
        → out.0 ≡ ok tt
        → l.pubkey_alice ≡ gpg.public_key out.2
        → P (out.1).alice_signature
        → verify_item w l out.1 prev (sign_mode item) (out.1).alice_signature l.pubkey_alice ≡ ok tt
    Signed-verifies P sound out (Signed.signed data' after d s) e k p =
        verify_item-signed w l item prev _ l.pubkey_alice d
        ∙ rw (k, sound store after data' passphrase (gpg.fingerprint store) s p)
    Signed-verifies P sound out (Signed.unsigned ne) e k p = absurd (ne e)

    Signed-initiator :
        (out : Result (Unit {0}) × Item × Store)
        → Signed l item prev store passphrase out
        → (out.1).initiator ≡ item.initiator
    Signed-initiator out (Signed.signed data' after d s) = refl
    Signed-initiator out (Signed.unsigned ne) = refl

    -- The check of `kee_ledger_verify` for the signature that the first party of the ledger makes:
    -- that of the response where the second party began the item, and else that of the request.
    abbrev pub own_check : Item → Result (Unit {0})
    own_check item' =
        if is_bob item.initiator
        then response_check w l item' prev
        else request_check w l item' prev

    own_check-verify_item :
        (item' : Item)
        → item'.initiator ≡ item.initiator
        → own_check item'
          ≡ verify_item w l item' prev (sign_mode item) item'.alice_signature l.pubkey_alice
    own_check-verify_item item' same = elim (Bool-cases (is_bob item.initiator)) [
      | inl b ↦ let b' : is_bob item'.initiator ≡ true = ap is_bob same ∙ b in rw (b, b')
      | inr b ↦ let b' : is_bob item'.initiator ≡ false = ap is_bob same ∙ b in rw (b, b')
    ]

    -- The same, where the signature that was left has a property with which signatures are accepted
    pub ledger_sign-verify_for :
        (P : Bytes → Type 0)
        → IsSoundFor P
        → let out = ledger_sign w gpg l item prev store passphrase in
          out.0 ≡ ok tt
          → l.pubkey_alice ≡ gpg.public_key out.2
          → P (out.1).alice_signature
          → own_check out.1 ≡ ok tt
    ledger_sign-verify_for P sound e k p =
        let out = ledger_sign w gpg l item prev store passphrase in
        own_check-verify_item out.1 (Signed-initiator out ledger_sign-Signed)
        ∙ Signed-verifies P sound out ledger_sign-Signed e k p

    -- What a successful call signs, verification accepts: if signatures that were made are
    -- accepted under the key of the store, and the ledger names that key as its first party's, the
    -- check of the new signature succeeds.
    pub ledger_sign-verify :
        IsSound
        → let out = ledger_sign w gpg l item prev store passphrase in
          out.0 ≡ ok tt → l.pubkey_alice ≡ gpg.public_key out.2 → own_check out.1 ≡ ok tt
    ledger_sign-verify sound e k =
        ledger_sign-verify_for (λ sig. Unit)
          (λ before after data' pass print s _. sound before after data' pass print s) e k tt

    data_to_sign-unsigned :
        {data' : Bytes}
        → data_to_sign w l item prev ≡ ok data'
        → is_signed item.alice_signature ≡ false
    unfolding data_to_sign
    data_to_sign-unsigned h =
        fail_if-eq-ok (is_signed item.alice_signature) err_already_signed (>>=-eq-ok _ _ h).1

    Signed-advances :
        (out : Result (Unit {0}) × Item × Store)
        → Signed l item prev store passphrase out
        → out.0 ≡ ok tt
        → is_signed (out.1).alice_signature ≡ true
        → is_signed item.bob_signature ≡ is_bob item.initiator
        → state_code (item_state out.1) ≡ state_code (item_state item) + 1
    unfolding item_state
    Signed-advances out (Signed.signed data' after d s) e new began =
        let old = data_to_sign-unsigned d in
        elim (Bool-cases (is_bob item.initiator)) [
          | inl b ↦ rw (b, began ∙ b, new, old)
          | inr b ↦ rw (b, began ∙ b, new, old)
        ]
    Signed-advances out (Signed.unsigned ne) e new began = absurd (ne e)

    -- A successful call that leaves a signature moves the item one state on, where the second
    -- party has signed exactly the items that it began: from request to response, or from response
    -- to final.
    pub ledger_sign-advances :
        let out = ledger_sign w gpg l item prev store passphrase in
        out.0 ≡ ok tt
        → is_signed (out.1).alice_signature ≡ true
        → is_signed item.bob_signature ≡ is_bob item.initiator
        → state_code (item_state out.1) ≡ state_code (item_state item) + 1
    ledger_sign-advances =
        Signed-advances (ledger_sign w gpg l item prev store passphrase) ledger_sign-Signed
