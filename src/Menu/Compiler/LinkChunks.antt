-- ===== src/Menu/Compiler/LinkChunks.antt =====
-- src/aux/beamenu/gen.c: the second reading of the description, however the reads cut it.
use gtk4_kee.Prelude.{
  ℕ, ◌+◌, ◌-◌, ◌≤◌, ◌≡◌, refl, ◌⊎◌, ap, sym, ◌∙◌, true, false, [], ◌∷◌, ◌++◌, length, leb, ltb,
  arith, if◌then◌else◌, ◌==◌, set, Bool-cases, inl, inr,
}
use gtk4_kee.Prelude.Bytes.{Bytes}
use gtk4_kee.Prelude.Result.{
  Result, ok, ◌>>=◌, or_code, >>=-eq-ok, >>=_assoc, >>=_cong, or_code-eq-ok, ok-injective,
}
use gtk4_kee.Menu.Graph.{set_exit}
use gtk4_kee.Menu.Compiler.{
  Compiler, reading, seeking, linkscan, seek_comma, scan_links, put_key, key_of, target, set_link,
  comma, newline, is_reading,
}
use gtk4_kee.Menu.Compiler.Loop.{eat, eat_step, IsPass}
use gtk4_kee.Menu.Compiler.Main.{below}
use gtk4_kee.Menu.Compiler.Chunks.{Mode-cases}

-- A byte of a line in front of its exits, and of an exit
unfoldable pub front_byte : ℕ → Compiler → Compiler
front_byte b g = if b == comma then record g { tmpm = reading } else g

unfoldable pub exit_byte : ℕ → Compiler → Result Compiler
unfolding put_key set_link
exit_byte b g = elim (b == newline) [
  | true ↦ do
    g ← put_key 0 g
    g ← or_code 1 (set_link g)
    ok (record g { tmpk = set g.tmpk 0 0; tmpm = seeking; line = g.line + 1; tmpc = 0 })
  | false ↦ elim (b == comma) [
    | true ↦ do
      g ← put_key 0 g
      g ← or_code 1 (set_link g)
      ok (record g { tmpc = g.tmpc + 1; tmpki = 0 })
    | false ↦ do g ← put_key b g; ok (record g { tmpki = g.tmpki + 1 })
  ]
]

-- A byte of the description in the second reading
unfoldable pub link_step : ℕ → Compiler → Result Compiler
unfolding exit_byte front_byte
link_step b g = if is_reading g.tmpm then exit_byte b g else ok (front_byte b g)

pub in_exit : (b : ℕ) (g : Compiler) → g.tmpm ≡ reading → link_step b g ≡ exit_byte b g
unfolding link_step
in_exit b g h = simp h

pub in_front : (b : ℕ) (g : Compiler) → g.tmpm ≡ seeking → link_step b g ≡ ok (front_byte b g)
unfolding link_step
in_front b g h = simp h

-- An exit that is set leaves the line and the mode.
set_link-keeps :
    (g : Compiler) {g' : Compiler}
    → or_code 1 (set_link g) ≡ ok g'
    → (g'.tmpm ≡ g.tmpm) × (g'.line ≡ g.line)
unfolding set_link
set_link-keeps g h =
    let (k, _, h') = >>=-eq-ok (key_of g) _ (or_code-eq-ok 1 (set_link g) h) in
    let (v, _, h') = >>=-eq-ok (target k g) _ h' in
    let (m, _, h') = >>=-eq-ok (set_exit g.line g.tmpc v g.menu) _ h' in
    let same = ok-injective h' in (ap (λ g. g.tmpm) (sym same), ap (λ g. g.line) (sym same))

module _ (c : ℕ) where
  scan_links_lem :
      (rest t : Bytes) (g : Compiler)
      → below c g ≡ true
      → g.tmpm ≡ reading
      → eat (below c) link_step (rest ++ t) g
        ≡ (scan_links rest g >>= λ o. eat (below c) link_step (o.0 ++ t) o.1)
  unfolding scan_links exit_byte put_key
  scan_links_lem [] t g l h = refl
  scan_links_lem (b ∷ rest) t g l h =
      rw (eat_step (below c) link_step b (rest ++ t) g l, in_exit b g h)
        (elim (Bool-cases (b == newline)) [
          | inl n ↦ simp (exit_byte, scan_links, n, >>=_assoc)
          | inr n ↦ elim (Bool-cases (leb (length g.tmpk) g.tmpki)) [
            | inl out ↦ ground (arith, out, n)
            | inr fits ↦ elim (Bool-cases (b == comma)) [
              | inl e ↦
                  simp (exit_byte, scan_links, put_key, n, e, fits, >>=_assoc)
                    (>>=_cong (or_code 1 (set_link (record g { tmpk = set g.tmpk g.tmpki 0 })))
                      (λ g' k.
                        let (m, n) = set_link-keeps (record g { tmpk = set g.tmpk g.tmpki 0 }) k in
                        scan_links_lem rest t (record g' { tmpki = 0; tmpc = g'.tmpc + 1 })
                          (ap (λ n. ltb n c) n ∙ l) (m ∙ h)))
              | inr e ↦
                  simp (exit_byte, scan_links, put_key, n, e, fits)
                    (scan_links_lem rest t
                      (record g { tmpk = set g.tmpk g.tmpki b; tmpki = g.tmpki + 1 }) l h)
            ]
          ]
        ])

  seek_comma_lem :
      (rest t : Bytes) (g : Compiler)
      → below c g ≡ true
      → g.tmpm ≡ seeking
      → let o = seek_comma rest g in
        eat (below c) link_step (rest ++ t) g ≡ eat (below c) link_step (o.0 ++ t) o.1
  unfolding seek_comma front_byte
  seek_comma_lem [] t g l h = refl
  seek_comma_lem (b ∷ rest) t g l h =
      rw (eat_step (below c) link_step b (rest ++ t) g l, in_front b g h)
        (elim (Bool-cases (b == comma)) [
          | inl e ↦ simp (seek_comma, front_byte, e)
          | inr e ↦ simp (seek_comma, front_byte, e) (seek_comma_lem rest t g l h)
        ])

  seek_comma-keeps :
      (rest : Bytes) (g : Compiler)
      → g.tmpm ≡ seeking
      → let o = seek_comma rest g in
        (o.1.line ≡ g.line) × ((o.1.tmpm ≡ reading) ⊎ ((o.1.tmpm ≡ seeking) × (o.0 ≡ [])))
  unfolding seek_comma
  seek_comma-keeps [] g h = (refl, inr (h, refl))
  seek_comma-keeps (b ∷ rest) g h = elim (Bool-cases (b == comma)) [
    | inl e ↦ simp (seek_comma, e) (refl, inl refl)
    | inr e ↦ simp (seek_comma, e) (seek_comma-keeps rest g h)
  ]

  linkscan_end :
      (rest t : Bytes) (g : Compiler)
      → below c g ≡ true
      → (g.tmpm ≡ reading) ⊎ ((g.tmpm ≡ seeking) × (rest ≡ []))
      → eat (below c) link_step (rest ++ t) g ≡ (
          (if is_reading g.tmpm then scan_links rest g else ok (rest, g)) >>= λ o.
          eat (below c) link_step (o.0 ++ t) o.1)
  linkscan_end rest t g l (inl h) = rw (scan_links_lem rest t g l h) (simp h)
  linkscan_end rest t g l (inr (h, e)) = simp h

  linkscan_same :
      (rest t : Bytes) (g : Compiler)
      → below c g ≡ true
      → eat (below c) link_step (rest ++ t) g
        ≡ (linkscan rest g >>= λ o. eat (below c) link_step (o.0 ++ t) o.1)
  unfolding linkscan
  linkscan_same rest t g l = elim (Mode-cases g.tmpm) [
    | inl h ↦ linkscan_end rest t g l (inl h) ∙ simp (linkscan, h)
    | inr h ↦
        let (n, m) = seek_comma-keeps rest g h in
        let (rest', g') = seek_comma rest g in
        seek_comma_lem rest t g l h
        ∙ linkscan_end rest' t g' (ap (λ n. ltb n c) n ∙ l) m
        ∙ simp (linkscan, h)
  ]

scan_links_shorter :
    (rest : Bytes) (g : Compiler) {o : Bytes × Compiler}
    → scan_links rest g ≡ ok o
    → length o.0 ≤ length rest - 1
unfolding scan_links
scan_links_shorter [] g h = omega (arith, ap (λ o. length o.0) (sym (ok-injective h)))
scan_links_shorter (b ∷ rest) g {o} h = elim (Bool-cases (b == newline)) [
  | inl e ↦
      let (g', _, h') = >>=-eq-ok (put_key 0 g) _ (simp (scan_links, e) at h) in
      let (g', _, h') = >>=-eq-ok (or_code 1 (set_link g')) _ h' in
      let n = ap (λ o. length o.0) (ok-injective h') in omega (arith, n)
  | inr e ↦ elim (Bool-cases (b == comma)) [
    | inl e' ↦
        let (g', _, h') = >>=-eq-ok (put_key 0 g) _ (simp (scan_links, e, e') at h) in
        let (g', _, h') = >>=-eq-ok (or_code 1 (set_link g')) _ h' in
        let n = scan_links_shorter rest (record g' { tmpc = g'.tmpc + 1; tmpki = 0 }) h' in
        omega (arith, n)
    | inr e' ↦
        let (g', _, h') = >>=-eq-ok (put_key b g) _ (simp (scan_links, e, e') at h) in
        let n = scan_links_shorter rest (record g' { tmpki = g'.tmpki + 1 }) h' in omega (arith, n)
  ]
]

seek_comma_shorter : (rest : Bytes) (g : Compiler) → length (seek_comma rest g).0 ≤ length rest - 1
unfolding seek_comma
seek_comma_shorter [] g = omega arith
seek_comma_shorter (b ∷ rest) g = ground (arith, seek_comma_shorter rest g)

linkscan_shorter :
    (b : ℕ) (rest : Bytes) (g : Compiler) {o : Bytes × Compiler}
    → linkscan (b ∷ rest) g ≡ ok o
    → length o.0 ≤ length rest
unfolding linkscan
linkscan_shorter b rest g {o} h = elim (Mode-cases g.tmpm) [
  | inl e ↦ let n = scan_links_shorter (b ∷ rest) g (simp (linkscan, e) at h) in omega (arith, n)
  | inr e ↦
      let (rest', g') = seek_comma (b ∷ rest) g in
      let n = seek_comma_shorter (b ∷ rest) g in
      let h' = simp (linkscan, e) at h in
      elim (Mode-cases g'.tmpm) [
        | inl e' ↦ let n' = scan_links_shorter rest' g' (simp e' at h') in omega (arith, n, n')
        | inr e' ↦
            let n' = ap (λ o. length o.0) (ok-injective (simp e' at h')) in omega (arith, n, n')
      ]
]

pub linkscan-IsPass : (c : ℕ) → IsPass (below c) linkscan link_step
linkscan-IsPass c = record { same = linkscan_same c; shorter = linkscan_shorter }
