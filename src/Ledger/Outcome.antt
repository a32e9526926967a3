-- ===== src/Ledger/Outcome.antt =====
-- What `kee_ledger_parse_item` does to a ledger, however it ends.
use gtk4_kee.Prelude.{ℕ, Bool, true, false, ◌≢◌, ◌≡◌, refl, ◌∙◌, ◌∷◌, if◌then◌else◌}
use gtk4_kee.Prelude.Bytes.{Bytes}
use gtk4_kee.Prelude.Result.{Result, ok, err, fault}
use gtk4_kee.Ledger.Types.{World, Ledger, Item, Initiator, alice, bob, is_bob}
use gtk4_kee.Ledger.Items.{add_item, item_apply_cache, blank_item}
use gtk4_kee.Ledger.Monad.{Change, ◌>>=◌, ◌>>◌, call, current, modify, modify_last, proceed}
use gtk4_kee.Ledger.Asn1.{entry}
use gtk4_kee.Ledger.Parse.{
  set_credit, set_collateral, set_request, set_response, fill_item, parse_item, apply_last,
}

-- A property of the ledger that a call keeps, however it ends.
abbrev Preserves {ℓ} : (Ledger → Type ℓ) → {A : Type 0} → Change A → Type ℓ
Preserves P m = (l : Ledger) → P l → P (m l).1

proceed-Preserves {ℓ} :
    (P : Ledger → Type ℓ) {A B : Type 0} (f : A → Change B)
    → ((a : A) → Preserves P (f a))
    → (out : Result A × Ledger) → P out.1
    → P (proceed f out).1
unfolding proceed
proceed-Preserves P f rest (ok a, l) h = rest a l h
proceed-Preserves P f rest (err c, l) h = h
proceed-Preserves P f rest (fault, l) h = h

-- The ledger is `l₀` with one more item in front, which `who` began.
abbrev Extends : Ledger → Initiator → Ledger → Type 0
Extends l₀ who l = (cur : Item) × (l ≡ record l₀ { items = cur ∷ l₀.items }) × (cur.initiator ≡ who)

call-Preserves {ℓ} : (P : Ledger → Type ℓ) {A : Type 0} (r : Result A) → Preserves P (call r)
unfolding call
call-Preserves P r l h = h

current-Preserves {ℓ} : (P : Ledger → Type ℓ) → Preserves P current
unfolding current
current-Preserves P l h = h

modify_last-Extends :
    (l₀ : Ledger) (who : Initiator) (f : Item → Item)
    → ((i : Item) → (f i).initiator ≡ i.initiator)
    → Preserves (Extends l₀ who) (modify_last f)
unfolding modify_last
modify_last-Extends l₀ who f same l (cur, e, i) = (f cur, rw e, same cur ∙ i)

initiator-set_credit : (b : Bool) (v : ℕ) (i : Item) → (set_credit b v i).initiator ≡ i.initiator
unfolding set_credit
initiator-set_credit true v i = refl
initiator-set_credit false v i = refl

initiator-set_collateral :
    (b : Bool) (v : ℕ) (i : Item) → (set_collateral b v i).initiator ≡ i.initiator
unfolding set_collateral
initiator-set_collateral true v i = refl
initiator-set_collateral false v i = refl

initiator-set_request :
    (b : Bool) (v : Bytes) (i : Item) → (set_request b v i).initiator ≡ i.initiator
unfolding set_request
initiator-set_request true v i = refl
initiator-set_request false v i = refl

initiator-set_response :
    (b : Bool) (v : Bytes) (i : Item) → (set_response b v i).initiator ≡ i.initiator
unfolding set_response
initiator-set_response true v i = refl
initiator-set_response false v i = refl

module _ {Node Sexp Mpi : Type 0} (w : World Node Sexp Mpi) (l₀ : Ledger) (who : Initiator) where
  bind :
      {A B : Type 0} (m : Change A) (f : A → Change B)
      → Preserves (Extends l₀ who) m
      → ((a : A) → Preserves (Extends l₀ who) (f a))
      → Preserves (Extends l₀ who) (m >>= f)
  unfolding ◌>>=◌
  bind m f keep rest l h = proceed-Preserves (Extends l₀ who) f rest (m l) (keep l h)

  called :
      {A B : Type 0} (r : Result A) (f : A → Change B)
      → ((a : A) → Preserves (Extends l₀ who) (f a))
      → Preserves (Extends l₀ who) (call r >>= f)
  called r f rest = bind (call r) f (call-Preserves (Extends l₀ who) r) rest

  checked :
      {B : Type 0} (r : Result (Unit {0})) (k : Change B)
      → Preserves (Extends l₀ who) k
      → Preserves (Extends l₀ who) (call r >> k)
  unfolding ◌>>◌
  checked r k rest = bind (call r) (λ _. k) (call-Preserves (Extends l₀ who) r) (λ _. rest)

  looked :
      {B : Type 0} (f : Ledger → Change B)
      → ((l : Ledger) → Preserves (Extends l₀ who) (f l))
      → Preserves (Extends l₀ who) (current >>= f)
  looked f rest = bind current f (current-Preserves (Extends l₀ who)) rest

  wrote :
      {B : Type 0} (g : Item → Item) (k : Change B)
      → ((i : Item) → (g i).initiator ≡ i.initiator)
      → Preserves (Extends l₀ who) k
      → Preserves (Extends l₀ who) (modify_last g >> k)
  unfolding ◌>>◌
  wrote g k same rest =
      bind (modify_last g) (λ _. k) (modify_last-Extends l₀ who g same) (λ _. rest)

  -- The reads after the item was added touch nothing but the item, and not its initiator.
  fill_item-Extends :
      (item : Node) (from_bob : Bool) → Preserves (Extends l₀ who) (fill_item w item from_bob)
  unfolding fill_item
  fill_item-Extends item from_bob = looked _ λ l. checked _ _ (
      called _ _ λ _. called _ _ λ v.
        wrote (set_credit from_bob v) _ (initiator-set_credit from_bob v) (
          called _ _ λ _. called _ _ λ v.
            wrote (set_collateral from_bob v) _ (initiator-set_collateral from_bob v) (
              called _ _ λ text.
                wrote _ _ (λ i. refl)
                  (called _ _ λ stamp.
                    wrote _ _ (λ i. refl)
                      (called _ _ λ key. looked _ λ l. called _ _ λ content.
                        wrote _ _ (λ i. refl)
                          (called _ _ λ sig.
                            wrote (set_request from_bob sig) _ (initiator-set_request from_bob sig)
                              (called _ _ λ sig.
                                modify_last-Extends l₀ who (set_response from_bob sig)
                                  (initiator-set_response from_bob sig))))))))

-- `BOB` began the item, or else `ALICE` did.
abbrev pub effective : Initiator → Initiator
effective who = if is_bob who then bob else alice

-- How a call that adds an item to `l` may end: with the item, counted in the cache, or without a
-- value, and then with the ledger as it was or with an item that the cache does not count.
pub data Outcome (l : Ledger) (who : Initiator) : Result (Unit {0}) × Ledger → Type 0 where
  added :
      (cur : Item)
      → cur.initiator ≡ who
      → Outcome l who (ok tt, item_apply_cache (record l { items = cur ∷ l.items }) cur)
  refused : {r : Result (Unit {0})} → r ≢ ok tt → Outcome l who (r, l)
  left_over :
      {r : Result (Unit {0})}
      → r ≢ ok tt
      → (cur : Item) → Outcome l who (r, record l { items = cur ∷ l.items })

counted :
    {l : Ledger} {who : Initiator} (out : Result (Unit {0}) × Ledger)
    → Extends l who out.1
    → Outcome l who (proceed (λ _. modify apply_last) out)
unfolding proceed modify apply_last
counted (ok _, l') (cur, e, i) = rw e (Outcome.added cur i)
counted (err c, l') (cur, e, i) = rw e (Outcome.left_over (λ h. cc) cur)
counted (fault, l') (cur, e, i) = rw e (Outcome.left_over (λ h. cc) cur)

refused_call :
    {l : Ledger} {who : Initiator} {A : Type 0} (r : Result A) (f : A → Change (Unit {0}))
    → ((a : A) → Outcome l who (f a l))
    → Outcome l who (proceed f (r, l))
unfolding proceed
refused_call (ok a) f rest = rest a
refused_call (err c) f rest = Outcome.refused (λ h. cc)
refused_call fault f rest = Outcome.refused (λ h. cc)

module _ {Node Sexp Mpi : Type 0} (w : World Node Sexp Mpi) (l : Ledger) (who : Initiator) where
  started : Ledger
  started = record l { items = record blank_item { initiator = effective who } ∷ l.items }

  decoded-Outcome :
      (r : Result Node)
      → Outcome l
          (effective who)
          (proceed (λ item. fill_item w item (is_bob who) >> modify apply_last) (r, started))
  unfolding proceed started ◌>>◌ ◌>>=◌
  decoded-Outcome (ok item) = counted (fill_item w item (is_bob who) started) (
      fill_item-Extends w l (effective who) item (is_bob who) started
        (record blank_item { initiator = effective who }, refl, refl))
  decoded-Outcome (err c) = Outcome.left_over (λ h. cc) _
  decoded-Outcome fault = Outcome.left_over (λ h. cc) _

  -- Parsing an item ends in one of three ways: with the new item in front, begun by the party that
  -- the caller named and added into the cache, without a value and with the ledger as it was, or
  -- without a value and with a half-read item in front that the cache does not count.
  pub parse_item-Outcome : (input : Bytes) → Outcome l (effective who) (parse_item w input who l)
  unfolding parse_item ◌>>=◌ ◌>>◌ proceed call modify modify_last add_item started
  parse_item-Outcome input = refused_call w.asn.array2tree _ λ root.
      refused_call (w.asn.create_element root entry) _
        λ item. decoded-Outcome (w.asn.der_decoding item input)
