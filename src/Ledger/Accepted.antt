-- ===== src/Ledger/Accepted.antt =====
-- What `kee_ledger_verify` of src/ledger.c accepts, item by item, and where it stops.
use gtk4_kee.Prelude.{
  ◌∙◌, ℕ, Bool, true, false, ◌≡◌, ◌≢◌, ◌↔◌, refl, List, ltb, if◌then◌else◌, arith, Bool-cases, inl,
  inr, sym,
}
use gtk4_kee.Prelude.Bytes.{Bytes}
use gtk4_kee.Prelude.Result.{Result, ok, err, fault, or_code, or_code-eq-ok}
use gtk4_kee.Ledger.Types.{
  World, Ledger, Item, Initiator, noone, alice, bob, is_bob, is_noone, LedgerState,
}
use gtk4_kee.Ledger.Items.{is_signed, sig_request, sig_response}
use gtk4_kee.Ledger.Verify.{verify_item, verify_round, overwritten, get_authentication_params}

-- The keys of the party that began an item and of the other one.
abbrev pub key_request : Ledger → Item → Bytes
key_request l item = if is_bob item.initiator then l.pubkey_bob else l.pubkey_alice

abbrev pub key_response : Ledger → Item → Bytes
key_response l item = if is_bob item.initiator then l.pubkey_alice else l.pubkey_bob

-- No initiator is written where none is detected.
same_initiator : (who : Initiator) → (if is_noone who then noone else who) ≡ who
same_initiator noone = refl
same_initiator alice = refl
same_initiator bob = refl

module _ {Node Sexp Mpi : Type 0} (w : World Node Sexp Mpi) (l : Ledger) where
  -- The check of an item's first signature, and of its second one.
  abbrev pub request_check : Item → List Item → Result (Unit {0})
  request_check item prev =
      verify_item w l item prev LedgerState.request (sig_request item) (key_request l item)

  abbrev pub response_check : Item → List Item → Result (Unit {0})
  response_check item prev =
      verify_item w l item prev LedgerState.response (sig_response item) (key_response l item)

  -- An item that a round accepts: it has an initiator, a countersignature unless it is the last
  -- one, a valid request signature if it has one, and else a valid response signature if it has
  -- one.
  pub record Accepted (idx : ℕ) (item : Item) (prev : List Item) : Type 0 where
    pub begun : is_noone item.initiator ≡ false
    pub answered : ltb 0 idx ≡ true → is_signed (sig_response item) ≡ true
    pub requested : is_signed (sig_request item) ≡ true → request_check item prev ≡ ok tt
    pub responded :
        is_signed (sig_request item) ≡ false
        → is_signed (sig_response item) ≡ true
        → response_check item prev ≡ ok tt

  -- The round as a table over its tests, with the two checks as values.
  unanswered : Bool → Result (Unit {0}) → Result (Unit {0})
  unanswered true r = err 1
  unanswered false r = or_code 1 r

  round_value :
      Bool → Bool → Bool → Bool → Result (Unit {0}) → Result (Unit {0}) → Result (Unit {0})
  unfolding unanswered
  round_value true later asked answered q p = err 1
  round_value false later false false q p = unanswered later (ok tt)
  round_value false later true false q p = unanswered later q
  round_value false later false true q p = or_code 1 p
  round_value false later true true q p = or_code 1 (overwritten p q)

  verify_round_table :
      (idx : ℕ) (item : Item) (prev : List Item)
      → verify_round w l idx item prev
        ≡ round_value
            (is_noone item.initiator)
            (ltb 0 idx)
            (is_signed (sig_request item))
            (is_signed (sig_response item))
            (request_check item prev)
            (response_check item prev)
  unfolding verify_round round_value get_authentication_params
  verify_round_table idx item prev =
      rw (same_initiator item.initiator) (elim (Bool-cases (is_noone item.initiator)) [
        | inl n ↦ rw n
        | inr n ↦ rw n (elim (Bool-cases (is_signed (sig_request item))) [
          | inl q ↦ rw q (elim (Bool-cases (is_signed (sig_response item))) [
            | inl p ↦ rw p
            | inr p ↦ rw p (elim (Bool-cases (ltb 0 idx)) [ inl t ↦ rw t | inr t ↦ rw t ])
          ])
          | inr q ↦ rw q (elim (Bool-cases (is_signed (sig_response item))) [
            | inl p ↦ rw p
            | inr p ↦ rw p (elim (Bool-cases (ltb 0 idx)) [ inl t ↦ rw t | inr t ↦ rw t ])
          ])
        ])
      ])

  -- The same table read as a statement.
  record Passes (noone later asked answered : Bool) (q p : Result (Unit {0})) : Type 0 where
    has_party : noone ≡ false
    has_answer : later ≡ true → answered ≡ true
    good_request : asked ≡ true → q ≡ ok tt
    good_response : asked ≡ false → answered ≡ true → p ≡ ok tt

  ok_of_code : (r : Result (Unit {0})) → or_code 1 r ≡ ok tt → r ≡ ok tt
  ok_of_code r h = or_code-eq-ok 1 r h

  overwritten-eq-ok : (p q : Result (Unit {0})) → or_code 1 (overwritten p q) ≡ ok tt → q ≡ ok tt
  overwritten-eq-ok (ok _) q h = or_code-eq-ok 1 q h
  overwritten-eq-ok (err c) q h = or_code-eq-ok 1 q h
  overwritten-eq-ok fault q h = cc

  overwritten-ok :
      (p q : Result (Unit {0})) → p ≢ fault → q ≡ ok tt → or_code 1 (overwritten p q) ≡ ok tt
  overwritten-ok (ok _) q n h = rw h
  overwritten-ok (err c) q n h = rw h
  overwritten-ok fault q n h = absurd (n refl)

  round_value-Passes :
      (n t a b : Bool) (q p : Result (Unit {0}))
      → round_value n t a b q p ≡ ok tt
      → Passes n t a b q p
  unfolding round_value unanswered
  round_value-Passes true t a b q p h = cc
  round_value-Passes false true false false q p h = cc
  round_value-Passes false false false false q p h = ground arith
  round_value-Passes false true true false q p h = cc
  round_value-Passes false false true false q p h = ground (arith, ok_of_code q h)
  round_value-Passes false t false true q p h = ground (arith, ok_of_code p h)
  round_value-Passes false t true true q p h = ground (arith, overwritten-eq-ok p q h)

  Passes-round_value :
      (n t a b : Bool) (q p : Result (Unit {0}))
      → p ≢ fault
      → Passes n t a b q p
      → round_value n t a b q p ≡ ok tt
  unfolding round_value unanswered
  Passes-round_value true t a b q p f h = absurd (cc (h.has_party))
  Passes-round_value false true false false q p f h = absurd (cc (h.has_answer refl))
  Passes-round_value false false false false q p f h = refl
  Passes-round_value false true true false q p f h = absurd (cc (h.has_answer refl))
  Passes-round_value false false true false q p f h = rw (h.good_request refl)
  Passes-round_value false t false true q p f h = rw (h.good_response refl refl)
  Passes-round_value false t true true q p f h = overwritten-ok p q f (h.good_request refl)

  -- A round succeeds exactly on an item that is accepted, where the response check is defined.
  pub verify_round_iff :
      (idx : ℕ) (item : Item) (prev : List Item)
      → response_check item prev ≢ fault
      → (verify_round w l idx item prev ≡ ok tt) ↔ Accepted idx item prev
  verify_round_iff idx item prev f = (
    λ h.
        let v = round_value-Passes _ _ _ _ _ _ (sym (verify_round_table idx item prev) ∙ h) in
        record {
          begun = v.has_party;
          answered = v.has_answer;
          requested = v.good_request;
          responded = v.good_response;
        },
    λ a.
        verify_round_table idx item prev
        ∙ Passes-round_value _ _ _ _ _ _ f (record {
          has_party = a.begun;
          has_answer = a.answered;
          good_request = a.requested;
          good_response = a.responded;
        }),
  )
