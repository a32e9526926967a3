-- ===== src/Prelude/Result.antt =====
-- What a fallible C function returns: a value, a code other than ERR_OK, or no defined behaviour.
use Prim.Native.Nat.{ℕ}
use mathlib.Core.Path.{◌≡◌, refl}
use mathlib.Core.Bool.{Bool, true, false}
use mathlib.Core.Option.{Option, none, some}

-- `err c` stands for a return of the nonzero code `c`, or of NULL; `fault` for an access out of
-- bounds or through a null pointer, after which C promises nothing.
pub data Result {ℓ} (Value : Type ℓ) : Type ℓ where
  fault : Result Value
  err : (code : ℕ) → Result Value
  ok : (value : Value) → Result Value

-- A call and what follows it where it succeeds
abbrev pub ◌>>=◌ {ℓ ι} : {V : Type ℓ} {W : Type ι} → Result V → (V → Result W) → Result W
fault >>= next = fault
err code >>= next = err code
ok v >>= next = next v

infixl 5 ◌>>=◌
-- A test that returns on failure, and the code behind it
abbrev pub ◌>>◌ {ι} : {W : Type ι} → Result (Unit {0}) → Result W → Result W
test >> rest = test >>= λ _. rest

infixl 5 ◌>>◌
-- `if (r) { return code; }`: a callee's code is replaced by the caller's.
abbrev pub or_code {ℓ} : {A : Type ℓ} → ℕ → Result A → Result A
or_code c (ok a) = ok a
or_code c (err _) = err c
or_code c fault = fault

abbrev pub from_option {ℓ} : {A : Type ℓ} → ℕ → Option A → Result A
from_option c none = err c
from_option c (some a) = ok a

-- `if (test) { return code; }`
abbrev pub fail_if : Bool → ℕ → Result (Unit {0})
fail_if true c = err c
fail_if false c = ok tt

-- An access that is in bounds only where the test fails.
abbrev pub fault_if : Bool → Result (Unit {0})
fault_if true = fault
fault_if false = ok tt

-- Where a call with what follows it succeeds, both do.
pub >>=-eq-ok {ℓ ι} :
    {V : Type ℓ} {W : Type ι} (call : Result V) (next : V → Result W) {w : W}
    → (call >>= next) ≡ ok w
    → (v : V) × (call ≡ ok v) × (next v ≡ ok w)
>>=-eq-ok fault next e = cc
>>=-eq-ok (err code) next e = cc
>>=-eq-ok (ok v) next e = (v, refl, e)

pub >>=_assoc {ℓ ι κ} :
    {U : Type ℓ} {V : Type ι} {W : Type κ} (m : Result U) (f : U → Result V) (k : V → Result W)
    → ((m >>= f) >>= k) ≡ (m >>= λ a. f a >>= k)
>>=_assoc fault f k = refl
>>=_assoc (err code) f k = refl
>>=_assoc (ok a) f k = refl

-- What follows a call matters at its value only.
pub >>=_cong {ℓ ι} :
    {V : Type ℓ} {W : Type ι} (m : Result V) {f k : V → Result W}
    → ((a : V) → m ≡ ok a → f a ≡ k a)
    → (m >>= f) ≡ (m >>= k)
>>=_cong fault h = refl
>>=_cong (err code) h = refl
>>=_cong (ok a) h = h a refl

pub or_code-eq-ok {ℓ} : {A : Type ℓ} (c : ℕ) (m : Result A) {a : A} → or_code c m ≡ ok a → m ≡ ok a
or_code-eq-ok c (ok a) h = h
or_code-eq-ok c (err d) h = cc
or_code-eq-ok c fault h = cc

pub ok-injective {ℓ} : {A : Type ℓ} {a b : A} → ok a ≡ ok b → a ≡ b
ok-injective h = cc

pub fail_if-eq-ok : (b : Bool) (c : ℕ) {u : Unit {0}} → fail_if b c ≡ ok u → b ≡ false
fail_if-eq-ok true c h = cc
fail_if-eq-ok false c h = refl

pub fault_if-eq-ok : (b : Bool) {u : Unit {0}} → fault_if b ≡ ok u → b ≡ false
fault_if-eq-ok true h = cc
fault_if-eq-ok false h = refl

pub from_option-eq-ok {ℓ} :
    {A : Type ℓ} (c : ℕ) (o : Option A) {a : A} → from_option c o ≡ ok a → o ≡ some a
from_option-eq-ok c none h = cc
from_option-eq-ok c (some a) h = cc
