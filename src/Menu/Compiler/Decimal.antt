-- ===== src/Menu/Compiler/Decimal.antt =====
-- src/aux/beamenu/gen.c: what the name and the number of a constant look like, and that they are what
-- is written.
use gtk4_kee.Prelude.{
  ℕ, zero, suc, ◌+◌, ◌-◌, ◌*◌, ◌/◌, ◌%◌, ◌≤◌, ◌<◌, ◌≡◌, refl, [], ◌∷◌, ◌++◌, map, if◌then◌else◌,
  ltb, leb, ◌&&◌, Bool-cases, ◌⊎◌, inl, inr, arith,
}
use gtk4_kee.Prelude.Bytes.{Bytes}
use gtk4_kee.Menu.Compiler.Write.{upper, decimal, decimal_on}

-- The letters from "a" to "z" as those from "A" to "Z"
abbrev pub capital : ℕ → ℕ
capital b = if leb b'a' b && leb b b'z' then b'A' + (b - b'a') else b

pub upper-capital : (s : Bytes) → map upper s ≡ map capital s
unfolding upper
upper-capital [] = refl
upper-capital (b ∷ s) =
    let same : upper b ≡ capital b = ground arith in rw (upper-capital s, same) refl

-- The number that decimal digits are read as
abbrev pub read_digits : ℕ → Bytes → ℕ
read_digits v [] = v
read_digits v (b ∷ bs) = read_digits (v * 10 + (b - b'0')) bs

abbrev pub AllDigits : Bytes → Type 0
AllDigits [] = Unit
AllDigits (b ∷ bs) = (b'0' ≤ b) × (b ≤ b'9') × AllDigits bs

abbrev pub leading : Bytes → ℕ
leading [] = 0
leading (b ∷ bs) = b

-- The decimal digits of a number, without a zero in front
pub record IsDecimal (v : ℕ) (bs : Bytes) : Type 0 where
  pub digits : AllDigits bs
  pub reads : read_digits 0 bs ≡ v
  pub front : ((v ≡ 0) × (bs ≡ b'0' ∷ [])) ⊎ ((0 < v) × (b'1' ≤ leading bs))

read_digits-append :
    (a : ℕ) (xs : Bytes) (d : ℕ) → read_digits a (xs ++ d ∷ []) ≡ read_digits a xs * 10 + (d - b'0')
read_digits-append a [] d = refl
read_digits-append a (x ∷ xs) d = read_digits-append (a * 10 + (x - b'0')) xs d

AllDigits-append :
    (xs : Bytes) (d : ℕ) → AllDigits xs → b'0' ≤ d → d ≤ b'9' → AllDigits (xs ++ d ∷ [])
AllDigits-append [] d x h h' = (h, h', tt)
AllDigits-append (x ∷ xs) d (l, u, more) h h' = (l, u, AllDigits-append xs d more h h')

leading-append : (xs : Bytes) (d : ℕ) → b'1' ≤ leading xs → leading (xs ++ d ∷ []) ≡ leading xs
leading-append [] d h = absurd (omega arith)
leading-append (x ∷ xs) d h = refl

divided :
    (v : ℕ) → 10 ≤ v → (0 < v / 10) × (v / 10 < v) × (v / 10 * 10 + v % 10 ≡ v) × (v % 10 < 10)
divided v h = (omega arith, omega arith, omega arith, omega arith)

decimal_on-IsDecimal : (n v : ℕ) → v < n → IsDecimal v (decimal_on n v)
unfolding decimal_on
decimal_on-IsDecimal zero v h = absurd (omega arith)
decimal_on-IsDecimal (suc n) v h =
    let step = decimal_on-IsDecimal n (v / 10) in
    elim (Bool-cases (ltb v 10)) [
      | inl e ↦ rw (decimal_on, e) (one_digit v (ground arith))
      | inr e ↦
          let (some_left, less, whole, low) = divided v (ground arith) in
          rw (decimal_on, e) (more_digits v some_left whole low (step (omega (arith, h, less))))
    ]
  where
    one_digit : (v : ℕ) → v < 10 → IsDecimal v ((b'0' + v) ∷ [])
    one_digit zero h = record {
      digits = (omega arith, omega arith, tt);
      reads = omega arith;
      front = inl (refl, refl);
    }
    one_digit (suc v) h = record {
      digits = (omega arith, omega arith, tt);
      reads = omega arith;
      front = inr (omega arith, omega arith);
    }

    more_digits :
        (v : ℕ)
        → 0 < v / 10
        → v / 10 * 10 + v % 10 ≡ v
        → v % 10 < 10
        → IsDecimal (v / 10) (decimal_on n (v / 10))
        → IsDecimal v (decimal_on n (v / 10) ++ (b'0' + v % 10) ∷ [])
    more_digits v some_left whole low d =
        let xs = decimal_on n (v / 10) in
        record {
          digits = AllDigits-append xs (b'0' + v % 10) d.digits (omega arith) (omega (arith, low));
          reads = omega (arith, read_digits-append 0 xs (b'0' + v % 10), d.reads, whole);
          front = inr (omega (arith, some_left, whole), high d.front);
        }
      where
        high :
            ((v / 10 ≡ 0) × (decimal_on n (v / 10) ≡ b'0' ∷ []))
              ⊎ ((0 < v / 10) × (b'1' ≤ leading (decimal_on n (v / 10))))
            → b'1' ≤ leading (decimal_on n (v / 10) ++ (b'0' + v % 10) ∷ [])
        high (inl (z, _)) = absurd (omega (arith, z, some_left))
        high (inr (_, l)) =
            omega (arith, l, leading-append (decimal_on n (v / 10)) (b'0' + v % 10) l)

pub decimal-IsDecimal : (v : ℕ) → IsDecimal v (decimal v)
unfolding decimal
decimal-IsDecimal v = decimal_on-IsDecimal (suc v) v (omega arith)
