-- ===== src/Menu/Compiler/Names.antt =====
-- src/aux/beamenu/gen.c: the nodes that the first reading of a description registers.
use gtk4_kee.Prelude.{
  ℕ, zero, suc, ◌+◌, ◌≤◌, ◌<◌, ◌≡◌, refl, ap, ◌∙◌, false, List, [], ◌∷◌, ◌++◌, some, length, leb,
  arith, ◌==◌, set, drop, replicate, Option-cases, inl, inr, set-middle, length-append, length-drop,
}
use mathlib.Core.List.{append_assoc}
use gtk4_kee.Prelude.Bytes.{Bytes, NoNul, c_string_text}
use gtk4_kee.Prelude.Result.{ok}
use gtk4_kee.Menu.Graph.{Node, Menu, register, read-middle, cn_maxlen}
use gtk4_kee.Menu.Compiler.{
  Build, Compiler, reading, seeking, put_key, key_of, addkey, find, enter, comma, newline,
  max_entries,
}
use gtk4_kee.Menu.Compiler.Loop.{Reads, whole, eat, eat_step}
use gtk4_kee.Menu.Compiler.Main.{always, started, read_names}
use gtk4_kee.Menu.Compiler.Reading.{names_of, read_names_lem}
use gtk4_kee.Menu.Compiler.Chunks.{name_step, name_byte, line_byte, in_name, in_line}

-- A text in which no byte is `c`
pub data Lacks (c : ℕ) : Bytes → Type 0 where
  end : Lacks c []
  byte : {b : ℕ} {bs : Bytes} → (b == c) ≡ false → Lacks c bs → Lacks c (b ∷ bs)

-- A line of the description: the name in front of the first comma, and what stands behind it
pub record Line : Type 0 where
  pub name : Bytes
  pub tail : Bytes

abbrev pub text_of : List Line → Bytes
text_of [] = []
text_of (e ∷ es) = e.name ++ comma ∷ (e.tail ++ newline ∷ text_of es)

-- A byte that is put behind the ones that are there
pub put_key_lem :
    (b : ℕ) (done : Bytes) (o : ℕ) (old : Bytes) (g : Compiler) {k : ℕ}
    → k ≡ length done
    → put_key b (record g { tmpk = done ++ o ∷ old; tmpki = k })
      ≡ ok (record g { tmpk = done ++ b ∷ old; tmpki = k })
unfolding put_key
put_key_lem b done o old g {k} e = rw (e, in_bounds, set-middle done o old b) refl
  where
    in_bounds : leb (length (done ++ o ∷ old)) (length done) ≡ false
    in_bounds = ground (arith, length-append done (o ∷ old))

-- A line with a name of at most 31 bytes without a NUL, for which `malloc` gives a block with room for
-- the NUL too
pub record IsLine (w : Build) (e : Line) : Type 0 where
  pub word : Lacks comma e.name
  pub text : NoNul e.name
  pub short : length e.name ≤ 31
  pub room : length e.name < w.usable (length e.name)
  pub rest : Lacks newline e.tail

abbrev pub AllLines : Build → List Line → Type 0
AllLines w [] = Unit
AllLines w (e ∷ es) = IsLine w e × AllLines w es

pub drop-cons {ℓ} :
    {A : Type ℓ} (n : ℕ) (xs : List A) → n < length xs → (x : A) × (drop n xs ≡ x ∷ drop (suc n) xs)
drop-cons n [] h = absurd (omega arith)
drop-cons zero (x ∷ xs) h = (x, refl)
drop-cons (suc n) (x ∷ xs) h = drop-cons n xs (omega arith)

enter-room :
    (c : ℕ) (k : Bytes) (at : ℕ) (table : List (Bytes × ℕ))
    → length table < c
    → (t : List (Bytes × ℕ)) × (enter c k at table ≡ some t) × (length t ≤ suc (length table))
unfolding enter
enter-room c k at table h = elim (Option-cases (find k table)) [
  | inl e ↦ (
    table ++ (k, at) ∷ [],
    rw (enter, e, below_c) refl,
    omega (arith, length-append table ((k, at) ∷ [])),
  )
  | inr (i, e) ↦ (table, rw (enter, e) refl, omega arith)
]
  where
    below_c : leb c (length table) ≡ false
    below_c = ground arith

pub registers :
    (n_exits : ℕ) (s : Bytes) (m : Menu) (done : List Node) (x : Node) (rest : List Node) {i : ℕ}
    → i ≡ length done
    → m.nodes ≡ done ++ x ∷ rest
    → register n_exits i s m
      ≡ ok (record m {
        nodes = done ++ record { i = length done; cn = some s; dst = replicate n_exits 0 } ∷ rest;
      })
unfolding register
registers n_exits s m done x rest e h =
    rw (e, register, h, read-middle done x rest, set-middle done x rest) refl

-- The nodes that are registered for lines, the first of them at an index
abbrev pub numbered : ℕ → ℕ → List Line → List Node
numbered n_exits i [] = []
numbered n_exits i (e ∷ es) =
    record { i = i; cn = some e.name; dst = replicate n_exits 0 } ∷ numbered n_exits (i + 1) es

module _ (w : Build) where
  name_byte_lem :
      (b : ℕ) (done : Bytes) (o : ℕ) (old : Bytes) (g : Compiler) {k : ℕ}
      → k ≡ length done
      → (b == comma) ≡ false
      → name_byte w b (record g { tmpk = done ++ o ∷ old; tmpki = k })
        ≡ ok (record g { tmpk = done ++ b ∷ old; tmpki = k + 1 })
  unfolding name_byte
  name_byte_lem b done o old g e x = rw (name_byte, x, put_key_lem b done o old g e) refl

  -- The bytes of a name are put behind those that are there.
  name_run :
      (s t done old : Bytes) (g : Compiler) (k n : ℕ)
      → Lacks comma s
      → g.tmpm ≡ reading
      → length s ≤ length old
      → k ≡ length done
      → n ≡ k + length s
      → eat always (name_step w) (s ++ t) (record g { tmpk = done ++ old; tmpki = k })
        ≡ eat always
            (name_step w)
            t
            (record g { tmpk = done ++ (s ++ drop (length s) old); tmpki = n })
  name_run [] t done old g k n end h m a e = let same : n ≡ k = omega (arith, e) in rw same refl
  name_run (b ∷ s) t done [] g k n l h m a e = absurd (omega arith)
  name_run (b ∷ s) t done (o ∷ old) g k n (byte x l) h m a e =
      let here = record g { tmpk = done ++ o ∷ old; tmpki = k } in
      let rest =
        name_run s t (done ++ b ∷ []) old g (k + 1) n l h (omega arith)
          (omega (arith, a, length-append done (b ∷ []))) (omega (arith, e)) in
      rw
        (
          eat_step always (name_step w) b (s ++ t) here refl,
          in_name w b here h,
          name_byte_lem b done o old g a x,
        )
        (simp (append_assoc) at rest)

  name_end :
      (s old : Bytes) (o : ℕ) (g : Compiler) {table : List (Bytes × ℕ)} {menu : Menu}
      → NoNul s
      → length s < w.usable (length s)
      → g.crsr < max_entries
      → register w.n_exits g.tmpc s g.menu ≡ ok menu
      → enter w.capacity s g.crsr g.table ≡ some table
      → name_byte w comma (record g { tmpk = s ++ o ∷ old; tmpki = length s })
        ≡ ok (record g {
          tmpk = s ++ 0 ∷ old;
          tmpki = 0;
          tmpc = g.tmpc + 1;
          tmpm = seeking;
          crsr = g.crsr + 1;
          vals = set g.vals g.crsr g.tmpc;
          table = table;
          menu = menu;
        })
  unfolding name_byte addkey key_of
  name_end s old o g t u c r e =
      rw
        (
          name_byte,
          put_key_lem comma s o old g refl,
          put_key_lem 0 s comma old g refl,
          addkey,
          key_of,
          c_string_text s old t,
          crsr_in,
          fits,
          r,
          e,
        )
        refl
    where
      crsr_in : leb max_entries g.crsr ≡ false
      crsr_in = ground arith

      fits : leb (w.usable (length s)) (length s) ≡ false
      fits = ground arith

  tail_run :
      (s t : Bytes) (g : Compiler)
      → Lacks newline s
      → g.tmpm ≡ seeking
      → eat always (name_step w) (s ++ newline ∷ t) g
        ≡ eat always (name_step w) t (record g { tmpm = reading })
  unfolding line_byte
  tail_run [] t g end h =
      rw (eat_step always (name_step w) newline t g refl, in_line w newline g h) refl
  tail_run (b ∷ s) t g (byte x l) h =
      rw (eat_step always (name_step w) b (s ++ newline ∷ t) g refl, in_line w b g h, line_byte, x)
        (tail_run s t g l h)

  -- A whole line, where there is room for its name
  pub line_run :
      (e : Line) (more old : Bytes) (g : Compiler) {table : List (Bytes × ℕ)} {menu : Menu}
      → IsLine w e
      → g.tmpm ≡ reading
      → length old ≡ 32
      → g.crsr < max_entries
      → register w.n_exits g.tmpc e.name g.menu ≡ ok menu
      → enter w.capacity e.name g.crsr g.table ≡ some table
      → eat always
          (name_step w)
          (e.name ++ comma ∷ (e.tail ++ newline ∷ more))
          (record g { tmpk = old; tmpki = 0 })
        ≡ eat always (name_step w) more (record g {
          tmpk = e.name ++ 0 ∷ drop (suc (length e.name)) old;
          tmpki = 0;
          tmpc = g.tmpc + 1;
          tmpm = reading;
          crsr = g.crsr + 1;
          vals = set g.vals g.crsr g.tmpc;
          table = table;
          menu = menu;
        })
  line_run e more old g {table} {menu} s h m c r t =
      let n : length e.name ≤ 31 = s.short in
      let (o, d) = drop-cons (length e.name) old (omega arith) in
      let back = drop (suc (length e.name)) old in
      let here = record g { tmpk = e.name ++ o ∷ back; tmpki = length e.name } in
      let there : Compiler = record g {
        tmpk = e.name ++ 0 ∷ back;
        tmpki = 0;
        tmpc = g.tmpc + 1;
        tmpm = seeking;
        crsr = g.crsr + 1;
        vals = set g.vals g.crsr g.tmpc;
        table = table;
        menu = menu;
      } in
      name_run e.name (comma ∷ (e.tail ++ newline ∷ more)) [] old g 0 (length e.name) s.word h
        (omega arith) refl (omega arith)
      ∙ rw
          (
            d,
            eat_step always (name_step w) comma (e.tail ++ newline ∷ more) here refl,
            in_name w comma here h,
            name_end e.name back o g s.text s.room c r t,
          )
          (tail_run e.tail more there s.rest refl)

  -- The lines one after another, into the nodes behind those that are registered
  lines_run :
      (es : List Line) (done rest : List Node) (old : Bytes) (g : Compiler)
      → AllLines w es
      → g.tmpm ≡ reading
      → length old ≡ 32
      → g.tmpc ≡ length done
      → g.menu.nodes ≡ done ++ rest
      → length es ≤ length rest
      → g.crsr + length es ≤ max_entries
      → length g.table + length es ≤ w.capacity
      → (g' : Compiler) × (eat always
            (name_step w)
            (text_of es)
            (record g { tmpk = old; tmpki = 0 })
          ≡ ok g')
        × (g'.tmpc ≡ length done + length es)
        × (g'.menu.nodes ≡ done ++ (numbered w.n_exits (length done) es ++ drop (length es) rest))
  unfolding eat
  lines_run [] done rest old g s h m c nodes r v t =
      (record g { tmpk = old; tmpki = 0 }, refl, omega arith, nodes)
  lines_run (e ∷ es) done [] old g s h m c nodes r v t = absurd (omega arith)
  lines_run (e ∷ es) done (x ∷ rest) old g (s, more) h m c nodes r v t =
      let (table, entered, n) = enter-room w.capacity e.name g.crsr g.table (omega (arith, v, t)) in
      let node : Node = record { i = length done; cn = some e.name; dst = replicate w.n_exits 0 } in
      let old' = e.name ++ 0 ∷ drop (suc (length e.name)) old in
      let g' : Compiler = record g {
        tmpc = g.tmpc + 1;
        tmpm = reading;
        crsr = g.crsr + 1;
        vals = set g.vals g.crsr g.tmpc;
        table = table;
        menu = record g.menu { nodes = done ++ node ∷ rest };
      } in
      let (g'', run, count, there) =
        lines_run es (done ++ node ∷ []) rest old' g' more refl
          (omega (
            arith,
            m,
            s.short,
            length-append e.name (0 ∷ drop (suc (length e.name)) old),
            length-drop (suc (length e.name)) old,
          ))
          (omega (arith, c, length-append done (node ∷ []))) (simp append_assoc) (omega (arith, r))
          (omega (arith, v)) (omega (arith, n, t)) in
      (
        g'',
        line_run e (text_of es) old g s h m (omega (arith, v))
              (registers w.n_exits e.name g.menu done x rest c nodes) entered
            ∙ run,
        omega (arith, count, length-append done (node ∷ [])),
        simp (append_assoc, length-append) at there,
      )

  pub names_of_lem :
      (text : Bytes) (g : Compiler)
      → 0 < length text
      → names_of w text g ≡ eat always (name_step w) text g
  unfolding names_of
  names_of_lem [] g h = absurd (omega arith)
  names_of_lem (b ∷ text) g h = refl

  -- A description of one line or more, each with a name of at most 31 bytes that has no NUL and no
  -- comma and for which `malloc` gives a block with room for the NUL too, and with no newline behind
  -- the comma: the first loop of `main` ends, however the reads cut it, with a count of its lines and
  -- with their names registered in order, exits at 0, in place of as many nodes of the table, which
  -- has that many, as have the array of values and the hash table.
  pub read_names-numbered :
      (n : ℕ) (file : Reads) (e : Line) (es : List Line) (menu : Menu)
      → AllLines w (e ∷ es)
      → whole file ≡ text_of (e ∷ es)
      → length (text_of (e ∷ es)) ≤ n
      → length (e ∷ es) ≤ length menu.nodes
      → length (e ∷ es) ≤ max_entries
      → length (e ∷ es) ≤ w.capacity
      → (g : Compiler) × (read_names w n file (started menu) ≡ some (ok g))
        × (g.tmpc ≡ length (e ∷ es))
        × (g.menu.nodes ≡ numbered w.n_exits 0 (e ∷ es) ++ drop (length (e ∷ es)) menu.nodes)
  read_names-numbered n file e es menu s text fuel r v t =
      let (g, run, count, there) =
        lines_run (e ∷ es) [] menu.nodes (replicate cn_maxlen 0) (started menu) s refl refl refl
          refl r (omega (arith, v)) (omega (arith, t)) in
      let some_text : 0 < length (text_of (e ∷ es)) =
        omega (arith, length-append e.name (comma ∷ (e.tail ++ newline ∷ text_of es))) in
      (
        g,
        rw
            (
              read_names_lem w n file (started menu) (omega (arith, ap length text)),
              text,
              names_of_lem (text_of (e ∷ es)) (started menu) some_text,
              run,
            )
            refl,
        omega (arith, count),
        there,
      )
