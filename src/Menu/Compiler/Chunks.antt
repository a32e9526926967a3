-- ===== src/Menu/Compiler/Chunks.antt =====
-- src/aux/beamenu/gen.c: how the reads cut the description makes no difference, and the loops end.
use gtk4_kee.Prelude.{
  ℕ, ◌+◌, ◌≤◌, ◌≡◌, refl, ◌⊎◌, ◌-◌, true, false, [], ◌∷◌, ◌++◌, length, leb, ap, sym, ◌∙◌, arith,
  Bool-cases, inl, inr, if◌then◌else◌, ◌==◌, set,
}
use gtk4_kee.Prelude.Bytes.{Bytes}
use gtk4_kee.Prelude.Result.{
  Result, ok, ◌>>=◌, or_code, >>=-eq-ok, >>=_assoc, >>=_cong, ok-injective,
}
use gtk4_kee.Menu.Compiler.{
  Build, Compiler, Mode, reading, seeking, scan, scan_name, seek_line, put_key, addkey, comma,
  newline, is_reading,
}
use gtk4_kee.Menu.Compiler.Loop.{eat, IsPass}
use gtk4_kee.Menu.Compiler.Main.{always}

-- A byte of a name, and of the rest of its line
unfoldable pub name_byte : Build → ℕ → Compiler → Result Compiler
unfolding put_key addkey
name_byte w b g = elim (b == comma) [
  | true ↦ do
    g ← put_key b g
    g ← put_key 0 g
    g ← or_code 1 (addkey w g)
    ok (record g { tmpm = seeking; tmpki = 0; tmpc = g.tmpc + 1 })
  | false ↦ do g ← put_key b g; ok (record g { tmpki = g.tmpki + 1 })
]

unfoldable pub line_byte : ℕ → Compiler → Compiler
line_byte b g = if b == newline then record g { tmpm = reading } else g

-- A byte of the description in the first reading
unfoldable pub name_step : Build → ℕ → Compiler → Result Compiler
unfolding name_byte line_byte
name_step w b g = if is_reading g.tmpm then name_byte w b g else ok (line_byte b g)

pub Mode-cases : (m : Mode) → (m ≡ reading) ⊎ (m ≡ seeking)
Mode-cases reading = inl refl
Mode-cases seeking = inr refl

module _ (w : Build) where
  pub in_name : (b : ℕ) (g : Compiler) → g.tmpm ≡ reading → name_step w b g ≡ name_byte w b g
  unfolding name_step
  in_name b g h = simp h

  pub in_line : (b : ℕ) (g : Compiler) → g.tmpm ≡ seeking → name_step w b g ≡ ok (line_byte b g)
  unfolding name_step
  in_line b g h = simp h

  scan_name_lem :
      (rest t : Bytes) (g : Compiler)
      → g.tmpm ≡ reading
      → eat always (name_step w) (rest ++ t) g
        ≡ (scan_name w rest g >>= λ o. eat always (name_step w) (o.0 ++ t) o.1)
  unfolding eat scan_name name_byte put_key
  scan_name_lem [] t g h = refl
  scan_name_lem (b ∷ rest) t g h = elim (Bool-cases (b == comma)) [
    | inl e ↦ rw (in_name b g h) (simp (name_byte, scan_name, e, >>=_assoc))
    | inr e ↦ elim (Bool-cases (leb (length g.tmpk) g.tmpki)) [
      | inl out ↦ rw (in_name b g h) (simp (name_byte, scan_name, put_key, e, out))
      | inr fits ↦ rw (in_name b g h) (
          simp (name_byte, scan_name, put_key, e, fits)
            (scan_name_lem rest t (record g { tmpk = set g.tmpk g.tmpki b; tmpki = g.tmpki + 1 })
              h))
    ]
  ]

  seek_line_lem :
      (rest t : Bytes) (g : Compiler)
      → g.tmpm ≡ seeking
      → let o = seek_line rest g in
        eat always (name_step w) (rest ++ t) g ≡ eat always (name_step w) (o.0 ++ t) o.1
  unfolding eat seek_line line_byte
  seek_line_lem [] t g h = refl
  seek_line_lem (b ∷ rest) t g h = elim (Bool-cases (b == newline)) [
    | inl e ↦ rw (in_line b g h) (simp (seek_line, line_byte, e))
    | inr e ↦ rw (in_line b g h) (simp (seek_line, line_byte, e) (seek_line_lem rest t g h))
  ]

  -- What a pass does behind the loop that it begins with
  scan_end :
      (t : Bytes) (o : Bytes × Compiler)
      → eat always (name_step w) (o.0 ++ t) o.1 ≡ (
          (if is_reading o.1.tmpm then ok o else ok (seek_line o.0 o.1)) >>= λ o.
          eat always (name_step w) (o.0 ++ t) o.1)
  scan_end t (rest, g) = elim (Mode-cases g.tmpm) [
    | inl h ↦ simp h
    | inr h ↦ simp h (seek_line_lem rest t g h)
  ]

  scan_same :
      (rest t : Bytes) (g : Compiler)
      → eat always (name_step w) (rest ++ t) g
        ≡ (scan w rest g >>= λ o. eat always (name_step w) (o.0 ++ t) o.1)
  unfolding scan
  scan_same rest t g = elim (Mode-cases g.tmpm) [
    | inl h ↦
        rw (scan_name_lem rest t g h)
          (simp (h, >>=_assoc) (>>=_cong (scan_name w rest g) (λ o e. scan_end t o)))
    | inr h ↦ scan_end t (rest, g) ∙ simp h
  ]

  scan_name_shorter :
      (rest : Bytes) (g : Compiler) {o : Bytes × Compiler}
      → scan_name w rest g ≡ ok o
      → length o.0 ≤ length rest - 1
  unfolding scan_name
  scan_name_shorter [] g h = omega (arith, ap (λ o. length o.0) (sym (ok-injective h)))
  scan_name_shorter (b ∷ rest) g {o} h = elim (Bool-cases (b == comma)) [
    | inl e ↦
        let h' = simp (scan_name, e) at h in
        let (g', _, h') = >>=-eq-ok (put_key b g) _ h' in
        let (g', _, h') = >>=-eq-ok (put_key 0 g') _ h' in
        let (g', _, h') = >>=-eq-ok (or_code 1 (addkey w g')) _ h' in
        let n = ap (λ o. length o.0) (ok-injective h') in omega (arith, n)
    | inr e ↦
        let h' = simp (scan_name, e) at h in
        let (g', _, h') = >>=-eq-ok (put_key b g) _ h' in
        let n = scan_name_shorter rest (record g' { tmpki = g'.tmpki + 1 }) h' in omega (arith, n)
  ]

seek_line_shorter : (rest : Bytes) (g : Compiler) → length (seek_line rest g).0 ≤ length rest - 1
unfolding seek_line
seek_line_shorter [] g = omega arith
seek_line_shorter (b ∷ rest) g = ground (arith, seek_line_shorter rest g)

module _ (w : Build) where
  scan_shorter :
      (b : ℕ) (rest : Bytes) (g : Compiler) {o : Bytes × Compiler}
      → scan w (b ∷ rest) g ≡ ok o
      → length o.0 ≤ length rest
  unfolding scan
  scan_shorter b rest g {o} h = elim (Mode-cases g.tmpm) [
    | inl e ↦
        let ((rest', g'), first, h') =
          >>=-eq-ok (scan_name w (b ∷ rest) g) _ (simp (scan, e) at h) in
        let n = scan_name_shorter w (b ∷ rest) g first in
        elim (Mode-cases g'.tmpm) [
          | inl e' ↦
              let n' = ap (λ o. length o.0) (ok-injective (simp e' at h')) in omega (arith, n, n')
          | inr e' ↦
              let n' = ap (λ o. length o.0) (ok-injective (simp e' at h')) in
              omega (arith, n, n', seek_line_shorter rest' g')
        ]
    | inr e ↦
        let n' = ap (λ o. length o.0) (ok-injective (simp (scan, e) at h)) in
        omega (arith, n', seek_line_shorter (b ∷ rest) g)
  ]

  pub scan-IsPass : IsPass always (scan w) (name_step w)
  scan-IsPass = record { same = λ rest t g _. scan_same w rest t g; shorter = scan_shorter }
