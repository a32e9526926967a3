-- ===== src/Menu/Compiler/Links.antt =====
-- src/aux/beamenu/gen.c: the exits that the second reading of a description sets.
use gtk4_kee.Prelude.{
  ℕ, suc, ◌+◌, ◌≤◌, ◌<◌, ◌≡◌, refl, ◌∙◌, true, [], ◌∷◌, ◌++◌, some, length, arith, set, drop,
  length-append,
}
use mathlib.Core.List.{append_assoc}
use gtk4_kee.Prelude.Bytes.{Bytes, c_string}
use gtk4_kee.Prelude.Result.{Result, ok, ◌>>=◌, or_code, fault, err, >>=_assoc}
use gtk4_kee.Menu.Graph.{set_exit}
use gtk4_kee.Menu.Compiler.{
  Compiler, reading, seeking, put_key, key_of, target, set_link, comma, newline,
}
use gtk4_kee.Menu.Compiler.Loop.{eat, eat_step}
use gtk4_kee.Menu.Compiler.Main.{below}
use gtk4_kee.Menu.Compiler.LinkChunks.{link_step, exit_byte, in_exit}
use gtk4_kee.Menu.Compiler.Names.{Lacks, end, byte, put_key_lem, drop-cons}

target_same :
    (k a : Bytes) (i : ℕ) (g : Compiler) → target k (record g { tmpk = a; tmpki = i }) ≡ target k g
unfolding target
target_same [] a i g = refl
target_same (b ∷ k) a i g = refl

or_code->>= {ℓ ι} :
    {A : Type ℓ} {B : Type ι} (c : ℕ) (m : Result A) (f : A → B)
    → or_code c (m >>= λ a. ok (f a)) ≡ (or_code c m >>= λ a. ok (f a))
or_code->>= c fault f = refl
or_code->>= c (err d) f = refl
or_code->>= c (ok a) f = refl

or_code->>=->>= {ℓ ι κ} :
    {A : Type ℓ} {B : Type ι} {C : Type κ} (c : ℕ) (m : Result A) (f : A → Result B) (h : B → C)
    → or_code c (m >>= λ a. f a >>= λ b. ok (h b)) ≡ (or_code c (m >>= f) >>= λ b. ok (h b))
or_code->>=->>= c fault f h = refl
or_code->>=->>= c (err d) f h = refl
or_code->>=->>= c (ok a) f h = or_code->>= c (f a) h

-- The NUL behind a text that was put behind another one
put_nul :
    (done s : Bytes) (o : ℕ) (back : Bytes) (g : Compiler)
    → put_key 0 (record g { tmpk = done ++ (s ++ o ∷ back); tmpki = length done + length s })
      ≡ ok (record g { tmpk = done ++ (s ++ 0 ∷ back); tmpki = length done + length s })
put_nul done s o back g =
    let put =
      put_key_lem 0 (done ++ s) o back g {k = length done + length s}
        (omega (arith, length-append done s)) in
    simp (append_assoc) at put

-- What `set` does, where the key is the text `k`
set_link_lem :
    (a k : Bytes) (i : ℕ) (g : Compiler)
    → c_string a ≡ some k
    → or_code 1 (set_link (record g { tmpk = a; tmpki = i })) ≡ (
        or_code 1 (target k g >>= λ v. set_exit g.line g.tmpc v g.menu) >>= λ menu.
        ok (record g { tmpk = a; tmpki = i; menu = menu }))
unfolding set_link key_of
set_link_lem a k i g e =
    rw (set_link, key_of, e, target_same k a i g)
      (or_code->>=->>= 1 (target k g) (λ v. set_exit g.line g.tmpc v g.menu)
        (λ menu. record g { tmpk = a; tmpki = i; menu = menu }))

module _ (c : ℕ) where
  exit_run :
      (s t done old : Bytes) (g : Compiler) (k n : ℕ)
      → Lacks comma s
      → Lacks newline s
      → g.tmpm ≡ reading
      → below c g ≡ true
      → length s ≤ length old
      → k ≡ length done
      → n ≡ k + length s
      → eat (below c) link_step (s ++ t) (record g { tmpk = done ++ old; tmpki = k })
        ≡ eat
            (below c)
            link_step
            t
            (record g { tmpk = done ++ (s ++ drop (length s) old); tmpki = n })
  unfolding exit_byte
  exit_run [] t done old g k n end l' h l m a e =
      let same : n ≡ k = omega (arith, e) in rw same refl
  exit_run (b ∷ s) t done [] g k n q q' h l m a e = absurd (omega arith)
  exit_run (b ∷ s) t done (o ∷ old) g k n (byte x q) (byte x' q') h l m a e =
      let here = record g { tmpk = done ++ o ∷ old; tmpki = k } in
      let rest =
        exit_run s t (done ++ b ∷ []) old g (k + 1) n q q' h l (omega arith)
          (omega (arith, a, length-append done (b ∷ []))) (omega (arith, e)) in
      rw
        (
          eat_step (below c) link_step b (s ++ t) here l,
          in_exit b here h,
          exit_byte,
          x',
          x,
          put_key_lem b done o old g a,
        )
        (simp (append_assoc) at rest)

  -- An exit with a comma behind it
  pub exit_comma :
      (s t done old k : Bytes) (g : Compiler)
      → Lacks comma s
      → Lacks newline s
      → g.tmpm ≡ reading
      → below c g ≡ true
      → length s < length old
      → c_string (done ++ (s ++ 0 ∷ drop (suc (length s)) old)) ≡ some k
      → eat
          (below c)
          link_step
          (s ++ comma ∷ t)
          (record g { tmpk = done ++ old; tmpki = length done })
        ≡ (or_code 1 (target k g >>= λ v. set_exit g.line g.tmpc v g.menu) >>= λ menu.
            eat (below c) link_step t (record g {
              tmpk = done ++ (s ++ 0 ∷ drop (suc (length s)) old);
              tmpki = 0;
              tmpc = g.tmpc + 1;
              menu = menu;
            }))
  unfolding exit_byte
  exit_comma s t done old k g q q' h l m key =
      let (o, d) = drop-cons (length s) old m in
      let back = drop (suc (length s)) old in
      let here = record g { tmpk = done ++ (s ++ o ∷ back); tmpki = length done + length s } in
      exit_run s (comma ∷ t) done old g (length done) (length done + length s) q q' h l
        (omega arith) refl refl
      ∙ rw
          (
            d,
            eat_step (below c) link_step comma t here l,
            in_exit comma here h,
            exit_byte,
            put_nul done s o back g,
            set_link_lem (done ++ (s ++ 0 ∷ back)) k (length done + length s) g key,
          )
          (simp (>>=_assoc))

  -- The exit at the end of a line
  pub exit_newline :
      (s t done old k : Bytes) (g : Compiler)
      → Lacks comma s
      → Lacks newline s
      → g.tmpm ≡ reading
      → below c g ≡ true
      → length s < length old
      → c_string (done ++ (s ++ 0 ∷ drop (suc (length s)) old)) ≡ some k
      → eat
          (below c)
          link_step
          (s ++ newline ∷ t)
          (record g { tmpk = done ++ old; tmpki = length done })
        ≡ (or_code 1 (target k g >>= λ v. set_exit g.line g.tmpc v g.menu) >>= λ menu.
            eat (below c) link_step t (record g {
              tmpk = set (done ++ (s ++ 0 ∷ drop (suc (length s)) old)) 0 0;
              tmpki = length done + length s;
              tmpc = 0;
              tmpm = seeking;
              line = g.line + 1;
              menu = menu;
            }))
  unfolding exit_byte
  exit_newline s t done old k g q q' h l m key =
      let (o, d) = drop-cons (length s) old m in
      let back = drop (suc (length s)) old in
      let here = record g { tmpk = done ++ (s ++ o ∷ back); tmpki = length done + length s } in
      exit_run s (newline ∷ t) done old g (length done) (length done + length s) q q' h l
        (omega arith) refl refl
      ∙ rw
          (
            d,
            eat_step (below c) link_step newline t here l,
            in_exit newline here h,
            exit_byte,
            put_nul done s o back g,
            set_link_lem (done ++ (s ++ 0 ∷ back)) k (length done + length s) g key,
          )
          (simp (>>=_assoc))
