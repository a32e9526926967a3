-- ===== src/Prelude/Stateful.antt =====
-- A call that works on a state in place. The state comes back after a failure too, since what was
-- written stays written.
use gtk4_kee.Prelude.Result.{Result, ok, err, fault, or_code}
use Prim.Native.Nat.{ℕ}
use mathlib.Core.Path.{◌≡◌, refl, ap, sym, subst}

abbrev pub Stateful : Type 0 → Type 0 → Type 0
Stateful S A = S → Result A × S

-- What follows a call, by how the call ended.
unfoldable pub proceed : {S A B : Type 0} → (A → Stateful S B) → Result A × S → Result B × S
proceed f (ok a, s) = f a s
proceed f (err c, s) = (err c, s)
proceed f (fault, s) = (fault, s)

infixl 5 ◌>>=◌ ◌>>◌
unfoldable pub ◌>>=◌ : {S A B : Type 0} → Stateful S A → (A → Stateful S B) → Stateful S B
unfolding proceed
◌>>=◌ m f s = proceed f (m s)

unfoldable pub ◌>>◌ : {S B : Type 0} → Stateful S (Unit {0}) → Stateful S B → Stateful S B
unfolding ◌>>=◌
m >> k = m >>= λ _. k

-- A call that reads nothing of the state and changes nothing in it.
unfoldable pub call : {S A : Type 0} → Result A → Stateful S A
call r s = (r, s)

unfoldable pub current : {S : Type 0} → Stateful S S
current s = (ok s, s)

unfoldable pub modify : {S : Type 0} → (S → S) → Stateful S (Unit {0})
modify f s = (ok tt, f s)

-- `if (r) { return c; }` after a call that changes the state
unfoldable pub replace_code : {S A : Type 0} → ℕ → Stateful S A → Stateful S A
replace_code c m s = let (r, s') = m s in (or_code c r, s')

-- Where a call with what follows it succeeds, both do.
pub >>=-succeeds :
    {S A B : Type 0} (m : Stateful S A) (f : A → Stateful S B) {s s'' : S} {b : B}
    → (m >>= f) s ≡ (ok b, s'')
    → (a : A) × (s' : S) × (m s ≡ (ok a, s')) × (f a s' ≡ (ok b, s''))
unfolding ◌>>=◌ proceed
>>=-succeeds {S = S} {A = A} m f {s} {s''} {b} h = proceed-succeeds (m s) h
  where
    proceed-succeeds :
        (o : Result A × S)
        → proceed f o ≡ (ok b, s'')
        → (a : A) × (s' : S) × (o ≡ (ok a, s')) × (f a s' ≡ (ok b, s''))
    proceed-succeeds (ok a, s') h = (a, s', refl, h)
    proceed-succeeds (err c, s') h = cc
    proceed-succeeds (fault, s') h = cc

-- What follows a call that succeeds
pub >>=_run :
    {S A B : Type 0} (m : Stateful S A) (f : A → Stateful S B) {s s' : S} {a : A}
    → m s ≡ (ok a, s')
    → (m >>= f) s ≡ f a s'
unfolding ◌>>=◌ proceed
>>=_run m f h = rw (◌>>=◌, proceed, h) refl

pub >>-succeeds :
    {S B : Type 0} (m : Stateful S (Unit {0})) (k : Stateful S B) {s s'' : S} {b : B}
    → (m >> k) s ≡ (ok b, s'')
    → (s' : S) × (m s ≡ (ok tt, s')) × (k s' ≡ (ok b, s''))
unfolding ◌>>◌
>>-succeeds m k h = let (_, s', first, second) = >>=-succeeds m (λ _. k) h in (s', first, second)

-- A call on values that what follows it waits for
pub called :
    {S A B : Type 0} (r : Result A) (f : A → Stateful S B) {s s'' : S} {b : B}
    → (call r >>= f) s ≡ (ok b, s'')
    → (a : A) × (r ≡ ok a) × (f a s ≡ (ok b, s''))
unfolding call
called {S = S} r f {s} {s''} {b} h =
    let (a, s', e, h') = >>=-succeeds (call r) f h in
    let same : s ≡ s' = ap (λ o. o.1) e in
    (a, ap (λ o. o.0) e, subst (λ s. f a s ≡ (ok b, s'')) (sym same) h')

pub tested :
    {S B : Type 0} (r : Result (Unit {0})) (k : Stateful S B) {s s'' : S} {b : B}
    → (call r >> k) s ≡ (ok b, s'')
    → (r ≡ ok tt) × (k s ≡ (ok b, s''))
unfolding ◌>>◌
tested r k h = let (_, e, h') = called r (λ _. k) h in (e, h')

pub looked :
    {S B : Type 0} (f : S → Stateful S B) {s : S} {o : Result B × S}
    → (current >>= f) s ≡ o
    → f s s ≡ o
unfolding ◌>>=◌ proceed current
looked f h = h

pub modified :
    {S : Type 0} (f : S → S) {s s' : S} {u : Unit {0}} → modify f s ≡ (ok u, s') → f s ≡ s'
unfolding modify
modified f h = ap (λ o. o.1) h

pub replace_code-succeeds :
    {S A : Type 0} (c : ℕ) (m : Stateful S A) {s s' : S} {a : A}
    → replace_code c m s ≡ (ok a, s')
    → m s ≡ (ok a, s')
unfolding replace_code
replace_code-succeeds {S = S} {A = A} c m {s} {s'} {a} h = replaced (m s) h
  where
    replaced :
        (o : Result A × S)
        → (let u : Result A × S = (or_code c o.0, o.1) in u) ≡ (ok a, s')
        → o ≡ (ok a, s')
    replaced (ok a, s) h = h
    replaced (err d, s) h = cc
    replaced (fault, s) h = cc

-- A call whose return is looked at, and does not end the caller
abbrev pub attempt : {S A : Type 0} → Stateful S A → Stateful S (Result A)
attempt m s = let (r, s') = m s in (ok r, s')
