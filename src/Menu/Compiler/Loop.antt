-- ===== src/Menu/Compiler/Loop.antt =====
-- src/aux/beamenu/gen.c, the two loops of `main` that read the description, each a pass over the
-- file, and the same work done on the whole text a byte at a time.
use gtk4_kee.Prelude.{
  ℕ, zero, suc, ◌≤◌, ◌≡◌, refl, Bool, true, false, List, [], ◌∷◌, ◌++◌, Option, none, some, length,
  arith, length-append, Bool-cases, inl, inr,
}
use gtk4_kee.Prelude.Bytes.{Bytes}
use gtk4_kee.Prelude.Result.{Result, ok, err, fault, ◌>>=◌}

-- What the calls of `read` give in turn: the first is at the front. A call that gives nothing is at
-- the end of the file; one that fails is left out.
abbrev pub Reads : Type 0
Reads = List Bytes

-- `fill`, where the pass has used the buffer up; there is no next buffer where `read` gives 0 bytes.
unfoldable pub fill : Reads → Option (Bytes × Reads)
fill [] = none
fill ([] ∷ file) = none
fill ((b ∷ l) ∷ file) = some (b ∷ l, file)

-- The buffer for the next pass
unfoldable pub refill : Bytes → Reads → Option (Bytes × Reads)
unfolding fill
refill [] file = fill file
refill (b ∷ rest) file = some (b ∷ rest, file)

-- What `main` does with the return of a pass: it ends on an error, and where the buffer is used up
-- and no next one is read.
unfoldable pub go_on :
    {S : Type 0}
    → (Bytes → Reads → S → Option (Result S))
    → Reads
    → Result (Bytes × S)
    → Option (Result S)
unfolding refill
go_on again file fault = some fault
go_on again file (err c) = some (err c)
go_on again file (ok (rest, g)) = elim (refill rest file) [
  | none ↦ some (ok g)
  | some (rest, file) ↦ again rest file g
]

module _ {S : Type 0} (going : S → Bool) where
  -- A loop of `main`, on fuel: `none` where this much of it does not tell the end.
  unfoldable pub passes :
      (Bytes → S → Result (Bytes × S)) → ℕ → Bytes → Reads → S → Option (Result S)
  unfolding go_on
  passes pass zero rest file g = none
  passes pass (suc n) rest file g = elim (going g) [
    | false ↦ some (ok g)
    | true ↦ go_on (passes pass n) file (pass rest g)
  ]

  -- A text taken a byte at a time
  unfoldable pub eat : (ℕ → S → Result S) → Bytes → S → Result S
  eat step [] g = ok g
  eat step (b ∷ bs) g = elim (going g) [ false ↦ ok g | true ↦ do g ← step b g; eat step bs g ]

  pub eat_step :
      (step : ℕ → S → Result S) (b : ℕ) (bs : Bytes) (g : S)
      → going g ≡ true
      → eat step (b ∷ bs) g ≡ (step b g >>= λ g. eat step bs g)
  unfolding eat
  eat_step step b bs g e = rw (eat, e) refl

  -- A pass does what its bytes do one at a time, and takes one of them at least.
  pub record IsPass (pass : Bytes → S → Result (Bytes × S)) (step : ℕ → S → Result S) : Type 0 where
    pub same :
        (rest t : Bytes) (g : S)
        → going g ≡ true
        → eat step (rest ++ t) g ≡ (pass rest g >>= λ o. eat step (o.0 ++ t) o.1)
    pub shorter :
        (b : ℕ) (rest : Bytes) (g : S) {o : Bytes × S}
        → pass (b ∷ rest) g ≡ ok o
        → length o.0 ≤ length rest

-- The text that the reads give
abbrev pub whole : Reads → Bytes
whole [] = []
whole ([] ∷ file) = []
whole ((b ∷ l) ∷ file) = b ∷ (l ++ whole file)

module _ {S : Type 0} (going : S → Bool) {pass : Bytes → S → Result (Bytes × S)}
    {step : ℕ → S → Result S} (p : IsPass going pass step) where
  -- What the loop does behind a pass, where it is known for the buffers that are not empty
  continued :
      {n : ℕ} (file : Reads) (o : Result (Bytes × S))
      (again : Bytes → Reads → S → Option (Result S))
      → ((b : ℕ) (rest : Bytes) (file : Reads) (g : S)
          → length (b ∷ (rest ++ whole file)) ≤ n
          → again (b ∷ rest) file g ≡ some (eat going step (b ∷ (rest ++ whole file)) g))
      → ((o' : Bytes × S) → o ≡ ok o' → length (o'.0 ++ whole file) ≤ n)
      → go_on again file o ≡ some (o >>= λ o. eat going step (o.0 ++ whole file) o.1)
  unfolding go_on refill fill eat
  continued file fault again ih h = refl
  continued file (err c) again ih h = refl
  continued [] (ok ([], g)) again ih h = refl
  continued ([] ∷ file) (ok ([], g)) again ih h = refl
  continued ((b ∷ l) ∷ file) (ok ([], g)) again ih h = ih b l file g (h ([], g) refl)
  continued file (ok (b ∷ r, g)) again ih h = ih b r file g (h (b ∷ r, g) refl)

  one_pass :
      (n : ℕ) (rest : Bytes) (file : Reads) (g : S)
      → going g ≡ true
      → passes going pass (suc n) rest file g ≡ go_on (passes going pass n) file (pass rest g)
  unfolding passes
  one_pass n rest file g e = rw (passes, e) refl

  at_end :
      (n b : ℕ) (rest bs : Bytes) (file : Reads) (g : S)
      → going g ≡ false
      → passes going pass (suc n) rest file g ≡ some (eat going step (b ∷ bs) g)
  unfolding passes eat
  at_end n b rest bs file g e = rw (passes, eat, e) refl

  -- However the text is cut by the reads, the loop does what the bytes do one at a time, and a pass
  -- for each byte is enough.
  pub passes-eat :
      (n b : ℕ) (rest : Bytes) (file : Reads) (g : S)
      → length (b ∷ (rest ++ whole file)) ≤ n
      → passes going pass n (b ∷ rest) file g ≡ some (eat going step (b ∷ (rest ++ whole file)) g)
  passes-eat zero b rest file g h = absurd (omega arith)
  passes-eat (suc n) b rest file g h = elim (Bool-cases (going g)) [
    | inr e ↦ at_end n b (b ∷ rest) (rest ++ whole file) file g e
    | inl e ↦
        rw (one_pass n (b ∷ rest) file g e, p.same (b ∷ rest) (whole file) g e)
          (continued file (pass (b ∷ rest) g) (passes going pass n) (passes-eat n) (λ o' eq. omega (
            arith,
            p.shorter b rest g eq,
            length-append rest (whole file),
            length-append o'.0 (whole file),
          )))
  ]
