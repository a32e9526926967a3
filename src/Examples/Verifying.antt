-- ===== src/Examples/Verifying.antt =====
-- The theorems on verification and on signing, at ledgers of one and two items.
use gtk4_kee.Prelude.{
  replicate, ◌++◌, arith, ℕ, List, [], ◌∷◌, ◌≡◌, refl, ◌≢◌, ◌↔◌, sym, ◌∙◌, ap, take, subst,
  Bool-cases, inl, inr, length, ◌==◌, ◌+◌,
}
use gtk4_kee.Prelude.Bytes.{native_bytes, Bytes, same_bytes_iff}
use gtk4_kee.Prelude.Result.{Result, ok, err, fault}
use gtk4_kee.Crypto.{gpg_store_verify, calculate_digest_algo}
use gtk4_kee.Ledger.Types.{state_code, Item}
use gtk4_kee.Ledger.Items.{item_state}
use gtk4_kee.Ledger.Verify.{ledger_verify, verify_item, verify_item_data}
use gtk4_kee.Ledger.Accepted.{response_check}
use gtk4_kee.Ledger.VerifyChain.{
  AllAccepted, StopsAt, ledger_verify_iff, ledger_verify-StopsAt, response_overlooked,
}
use gtk4_kee.Ledger.Sign.{ledger_sign}
use gtk4_kee.Ledger.SignVerify.{IsSound, own_check, ledger_sign-verify, ledger_sign-advances}
use gtk4_kee.Ledger.Keys.{item_key}
use gtk4_kee.Ledger.Keys.Order.{Before, SwapsInts, item_key-Before}
use gtk4_kee.Examples.Surroundings.{surroundings, signature_of}
use gtk4_kee.Examples.Ledgers.{
  data_of, answered, forged, later, tampered, draft, ledger_with, signer, alice_key,
}

answer_holds : response_check surroundings (ledger_with (answered ∷ [])) answered [] ≡ ok tt
unfolding answered verify_item verify_item_data gpg_store_verify
answer_holds = refl

answer_defined : response_check surroundings (ledger_with (answered ∷ [])) answered [] ≢ fault
answer_defined h = absurd (let e = sym answer_holds ∙ h in cc)

ledger_verify_iff_example :
    ((ledger_verify surroundings (ledger_with (answered ∷ []))).0 ≡ ok tt) ↔ (
      (◌≢◌ {A = List Item} (answered ∷ []) [])
      × AllAccepted surroundings (ledger_with (answered ∷ [])) 0 (answered ∷ []))
ledger_verify_iff_example =
    ledger_verify_iff surroundings (ledger_with (answered ∷ [])) (answer_defined, tt)

tampered_fails : ledger_verify surroundings (ledger_with (later ∷ tampered ∷ [])) ≡ (err 1, 1)
unfolding ledger_verify later verify_item verify_item_data gpg_store_verify
tampered_fails = refl

ledger_verify-StopsAt_example :
    StopsAt surroundings
      (ledger_with (later ∷ tampered ∷ []))
      0
      (later ∷ tampered ∷ [])
      (ledger_verify surroundings (ledger_with (later ∷ tampered ∷ []))).1
ledger_verify-StopsAt_example =
    ledger_verify-StopsAt surroundings (ledger_with (later ∷ tampered ∷ [])) (λ h. cc)
      (λ h. absurd (let e = ap (λ (o : Result (Unit {0}) × ℕ). o.0) (sym tampered_fails) ∙ h in cc))

response_overlooked_example : ledger_verify surroundings (ledger_with (forged ∷ [])) ≡ (ok tt, 0)
unfolding forged verify_item verify_item_data gpg_store_verify
response_overlooked_example =
    response_overlooked surroundings (ledger_with (forged ∷ [])) forged 1 refl refl refl refl refl
      refl

-- The signer's signatures are accepted.
sound : IsSound surroundings signer
unfolding verify_item_data gpg_store_verify calculate_digest_algo
sound store after data' passphrase fingerprint h =
    subst
      (λ (out : Result (Unit {0}) × Bytes).
        verify_item_data surroundings data' (take 64 out.1) alice_key ≡ ok tt)
      h
      (elim (Bool-cases (length data' == 0)) [
        | inl e ↦ rw e
        | inr e ↦ rw (
          e,
          (same_bytes_iff (signature_of alice_key data') (signature_of alice_key data')).1 refl,
        )
      ])

signing_succeeds :
    (ledger_sign surroundings signer (ledger_with (draft ∷ [])) draft [] [] []).0 ≡ ok tt
unfolding ledger_sign data_of
signing_succeeds = refl

ledger_sign-verify_example :
    own_check surroundings signer
      (ledger_with (draft ∷ []))
      draft
      []
      []
      []
      (ledger_sign surroundings signer (ledger_with (draft ∷ [])) draft [] [] []).1
    ≡ ok tt
ledger_sign-verify_example =
    ledger_sign-verify surroundings signer (ledger_with (draft ∷ [])) draft [] [] [] sound
      signing_succeeds refl

ledger_sign-advances_example :
    state_code
      (item_state (ledger_sign surroundings signer (ledger_with (draft ∷ [])) draft [] [] []).1)
    ≡ state_code (item_state draft) + 1
unfolding ledger_sign data_of
ledger_sign-advances_example =
    ledger_sign-advances surroundings signer (ledger_with (draft ∷ [])) draft [] [] []
      signing_succeeds refl refl

-- The library of the stand-ins swaps the bytes of a number.
swaps : SwapsInts surroundings
unfolding native_bytes
swaps v = refl

item_key-Before_example :
    (ki kj : Bytes) × (item_key surroundings
        (ledger_with [])
        draft
        ((1 ∷ []) ++ (replicate 64 2 ++ (3 ∷ (replicate 8 4 ++ []))))
      ≡ ok ki)
    × (item_key surroundings
          (ledger_with [])
          (record draft { time_nsec = 1 })
          ((1 ∷ []) ++ (replicate 64 2 ++ (3 ∷ (replicate 8 4 ++ []))))
        ≡ ok kj)
    × Before ki kj
item_key-Before_example =
    item_key-Before surroundings (ledger_with []) draft (record draft { time_nsec = 1 }) 1 3
      (replicate 64 2) (replicate 8 4) [] swaps refl refl refl (omega arith, omega arith)
      (omega arith, omega arith) (inr (refl, omega arith))
