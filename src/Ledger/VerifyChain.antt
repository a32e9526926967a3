-- ===== src/Ledger/VerifyChain.antt =====
-- `kee_ledger_verify` of src/ledger.c over the whole chain of items.
use gtk4_kee.Prelude.{
  ℕ, ◌+◌, true, false, ◌≡◌, ◌≢◌, ◌↔◌, refl, ◌∙◌, List, [], ◌∷◌, length, arith, ◌⊎◌, inl, inr, subst,
  ap,
}
use gtk4_kee.Prelude.Result.{Result, ok, err, fault}
use gtk4_kee.Ledger.Types.{World, Ledger, Item, is_noone}
use gtk4_kee.Ledger.Items.{is_signed, sig_request, sig_response}
use gtk4_kee.Ledger.Verify.{verify_round, verify_from, ledger_verify, verify_chain}
use gtk4_kee.Ledger.Accepted.{Accepted, request_check, response_check, verify_round_iff}

module _ {Node Sexp Mpi : Type 0} (w : World Node Sexp Mpi) (l : Ledger) where
  -- Every item of a chain that begins at the given index is accepted.
  abbrev pub AllAccepted : ℕ → List Item → Type 0
  AllAccepted idx [] = Unit
  AllAccepted idx (item ∷ prev) = Accepted w l idx item prev × AllAccepted (idx + 1) prev

  -- No check of a response signature reads outside its buffers.
  abbrev pub AllDefined : List Item → Type 0
  AllDefined [] = Unit
  AllDefined (item ∷ prev) = (response_check w l item prev ≢ fault) × AllDefined prev

  step_result : Result (Unit {0}) → Result (Unit {0}) × ℕ → ℕ → Result (Unit {0}) × ℕ
  step_result (ok _) rest idx = rest
  step_result (err c) rest idx = (err c, idx)
  step_result fault rest idx = (fault, idx)

  verify_from_step :
      (idx : ℕ) (item p : Item) (prev : List Item)
      → verify_from w l idx item (p ∷ prev)
        ≡ step_result (verify_round w l idx item (p ∷ prev)) (verify_from w l (idx + 1) p prev) idx
  unfolding verify_from step_result
  verify_from_step idx item p prev = ground arith

  step_result-eq-ok :
      (r : Result (Unit {0})) (rest : Result (Unit {0}) × ℕ) (idx : ℕ)
      → (step_result r rest idx).0 ≡ ok tt
      → (r ≡ ok tt) × (rest.0 ≡ ok tt)
  unfolding step_result
  step_result-eq-ok (ok _) rest idx h = (refl, h)
  step_result-eq-ok (err c) rest idx h = cc
  step_result-eq-ok fault rest idx h = cc

  verify_from_sound :
      (idx : ℕ) (item : Item) (prev : List Item)
      → AllDefined (item ∷ prev)
      → (verify_from w l idx item prev).0 ≡ ok tt
      → AllAccepted idx (item ∷ prev)
  unfolding verify_from
  verify_from_sound idx item [] (f, _) h = ((verify_round_iff w l idx item [] f).0 h, tt)
  verify_from_sound idx item (p ∷ prev) (f, rest) h =
      let (r, more) =
        step_result-eq-ok _ _ idx (
          subst (λ (o : Result (Unit {0}) × ℕ). o.0 ≡ ok tt) (verify_from_step idx item p prev)
            h) in
      (
        (verify_round_iff w l idx item (p ∷ prev) f).0 r,
        verify_from_sound (idx + 1) p prev rest more,
      )

  verify_from_complete :
      (idx : ℕ) (item : Item) (prev : List Item)
      → AllDefined (item ∷ prev)
      → AllAccepted idx (item ∷ prev)
      → verify_from w l idx item prev ≡ (ok tt, idx + length prev)
  unfolding verify_from step_result
  verify_from_complete idx item [] (f, _) (a, _) =
      let r = (verify_round_iff w l idx item [] f).1 a in
      rw r (let e : idx ≡ idx + 0 = omega arith in rw (← e))
  verify_from_complete idx item (p ∷ prev) (f, rest) (a, more) =
      let r = (verify_round_iff w l idx item (p ∷ prev) f).1 a in
      verify_from_step idx item p prev
      ∙ rw (r, verify_from_complete (idx + 1) p prev rest more)
          (ap (λ (n : ℕ). let o : Result (Unit {0}) × ℕ = (ok tt, n) in o) (omega arith))

  verify_chain_iff :
      (items : List Item)
      → AllDefined items
      → ((verify_chain w l items).0 ≡ ok tt) ↔ ((items ≢ []) × AllAccepted 0 items)
  unfolding verify_chain
  verify_chain_iff [] d = ((λ h. cc), λ (ne, _). absurd (ne refl))
  verify_chain_iff (item ∷ prev) d = (
    (λ h. ((λ e. cc), verify_from_sound 0 item prev d h)),
    λ (_, a). ap (λ (o : Result (Unit {0}) × ℕ). o.0) (verify_from_complete 0 item prev d a),
  )

  -- Where no check of a response signature reads outside its buffers, verification succeeds exactly
  -- on a ledger that has an item and whose items are all accepted.
  pub ledger_verify_iff :
      AllDefined l.items
      → ((ledger_verify w l).0 ≡ ok tt) ↔ ((l.items ≢ []) × AllAccepted 0 l.items)
  unfolding ledger_verify
  ledger_verify_iff = verify_chain_iff l.items

  -- Where verification stops: at the first item, counted from the last one, whose round fails.
  pub data StopsAt : ℕ → List Item → ℕ → Type 0 where
    here :
        {idx : ℕ} {item : Item} {prev : List Item}
        → verify_round w l idx item prev ≢ ok tt
        → StopsAt idx (item ∷ prev) idx
    later :
        {idx i : ℕ} {item : Item} {prev : List Item}
        → verify_round w l idx item prev ≡ ok tt
        → StopsAt (idx + 1) prev i
        → StopsAt idx (item ∷ prev) i

  step_result-fails :
      (r : Result (Unit {0})) (rest : Result (Unit {0}) × ℕ) (idx : ℕ)
      → (step_result r rest idx).0 ≢ ok tt
      → ((r ≢ ok tt) × ((step_result r rest idx).1 ≡ idx))
        ⊎ ((r ≡ ok tt) × (rest.0 ≢ ok tt) × ((step_result r rest idx).1 ≡ rest.1))
  unfolding step_result
  step_result-fails (ok _) rest idx h = inr (refl, h, refl)
  step_result-fails (err c) rest idx h = inl ((λ e. cc), refl)
  step_result-fails fault rest idx h = inl ((λ e. cc), refl)

  verify_from-StopsAt :
      (idx : ℕ) (item : Item) (prev : List Item)
      → (verify_from w l idx item prev).0 ≢ ok tt
      → StopsAt idx (item ∷ prev) (verify_from w l idx item prev).1
  unfolding verify_from
  verify_from-StopsAt idx item [] h = StopsAt.here h
  verify_from-StopsAt idx item (p ∷ prev) h =
      rw (verify_from_step idx item p prev)
        (elim (step_result-fails _ (verify_from w l (idx + 1) p prev) idx (
          subst (λ (o : Result (Unit {0}) × ℕ). o.0 ≢ ok tt) (verify_from_step idx item p prev)
            h)) [
              | inl (fails, at) ↦ rw at (StopsAt.here fails)
              | inr (passes, more, at) ↦
                  rw at (StopsAt.later passes (verify_from-StopsAt (idx + 1) p prev more))
            ])

  verify_chain-StopsAt :
      (items : List Item)
      → items ≢ []
      → (verify_chain w l items).0 ≢ ok tt
      → StopsAt 0 items (verify_chain w l items).1
  unfolding verify_chain
  verify_chain-StopsAt [] ne h = absurd (ne refl)
  verify_chain-StopsAt (item ∷ prev) ne h = verify_from-StopsAt 0 item prev h

  -- Where a ledger with items does not verify, the index that comes back is that of the first item
  -- that fails its round, and the rounds of the items before it succeed.
  pub ledger_verify-StopsAt :
      l.items ≢ [] → (ledger_verify w l).0 ≢ ok tt → StopsAt 0 l.items (ledger_verify w l).1
  unfolding ledger_verify
  ledger_verify-StopsAt = verify_chain-StopsAt l.items

  -- The response signature of a sole item is not looked at where it has a request signature that
  -- verifies: whatever error its check gives, the ledger is accepted.
  pub response_overlooked :
      (item : Item) (c : ℕ)
      → l.items ≡ item ∷ []
      → is_noone item.initiator ≡ false
      → is_signed (sig_request item) ≡ true
      → is_signed (sig_response item) ≡ true
      → request_check w l item [] ≡ ok tt
      → response_check w l item [] ≡ err c
      → ledger_verify w l ≡ (ok tt, 0)
  unfolding ledger_verify verify_chain
  response_overlooked item c only begun asked answered good bad =
      ap (verify_chain w l) only
      ∙ verify_from_complete 0 item [] ((λ h. cc), tt)
          (
            record {
              begun = begun;
              answered = λ _. answered;
              requested = λ _. good;
              responded = λ unsigned. absurd (cc);
            },
            tt,
          )
