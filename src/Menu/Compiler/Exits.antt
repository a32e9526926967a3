-- ===== src/Menu/Compiler/Exits.antt =====
-- src/aux/beamenu/gen.c: the exits of a line, and what is left of a line for the next one.
use gtk4_kee.Prelude.{
  ℕ, suc, ◌+◌, ◌≤◌, ◌<◌, ◌≡◌, refl, ◌∙◌, true, List, [], ◌∷◌, ◌++◌, length, arith, drop,
  length-append, length-drop,
}
use gtk4_kee.Prelude.Bytes.{Bytes, NoNul, c_string_text}
use gtk4_kee.Prelude.Result.{Result, ok, ◌>>=◌, or_code, >>=_assoc, >>=_cong}
use gtk4_kee.Menu.Graph.{Menu, set_exit}
use gtk4_kee.Menu.Compiler.{Compiler, reading, seeking, target, comma, newline, max_entries}
use gtk4_kee.Menu.Compiler.Loop.{eat, eat_step}
use gtk4_kee.Menu.Compiler.Main.{below}
use gtk4_kee.Menu.Compiler.Reading.{links_of}
use gtk4_kee.Menu.Compiler.LinkChunks.{link_step, front_byte, in_front}
use gtk4_kee.Menu.Compiler.Names.{Lacks, end, byte}
use gtk4_kee.Menu.Compiler.Places.{IsNumbered, leads_to, target-leads_to}
use gtk4_kee.Menu.Compiler.Links.{exit_comma, exit_newline}

-- The name of an exit: no comma, no newline, no NUL
pub record IsExit (s : Bytes) : Type 0 where
  pub word : Lacks comma s
  pub on_line : Lacks newline s
  pub text : NoNul s
  pub short : length s ≤ 31

abbrev pub AllExits : List Bytes → Type 0
AllExits [] = Unit
AllExits (s ∷ ss) = IsExit s × AllExits ss

-- The exits of a line with a comma behind each, and the end of the line behind the last one, that is
-- with an empty name there
abbrev pub exits_text : List Bytes → Bytes → Bytes
exits_text [] t = newline ∷ t
exits_text (s ∷ ss) t = s ++ comma ∷ exits_text ss t

-- The exits of a node from one on are set in order, the one of the empty name to 0; a name that is
-- not found is an error.
unfoldable pub put_exits : List Bytes → Compiler → Result Menu
unfolding target set_exit
put_exits [] g = or_code 1 (set_exit g.line g.tmpc 0 g.menu)
put_exits (s ∷ ss) g = do
  menu ← or_code 1 (target s g >>= λ v. set_exit g.line g.tmpc v g.menu)
  put_exits ss (record g { tmpc = g.tmpc + 1; menu = menu })

-- What the exits of a line leave at `tmpk`
abbrev pub left : List Bytes → Bytes → Bytes
left [] old = 0 ∷ drop 1 old
left (s ∷ ss) old = left ss (s ++ 0 ∷ drop (suc (length s)) old)

pub put-length :
    (s old : Bytes)
    → length s < length old
    → length (s ++ 0 ∷ drop (suc (length s)) old) ≡ length old
put-length s old h =
    omega (arith, length-append s (0 ∷ drop (suc (length s)) old), length-drop (suc (length s)) old)

pub length-left :
    (ss : List Bytes) (old : Bytes) → AllExits ss → length old ≡ 32 → length (left ss old) ≡ 32
length-left [] old e h = omega (arith, length-drop 1 old)
length-left (s ∷ ss) old (e, more) h =
    let n : length s < length old = omega (arith, e.short) in
    length-left ss (s ++ 0 ∷ drop (suc (length s)) old) more (put-length s old n ∙ h)

-- A node and its exits
pub record Entry : Type 0 where
  pub name : Bytes
  pub exits : List Bytes

abbrev pub entries_text : List Entry → Bytes
entries_text [] = []
entries_text (e ∷ es) = e.name ++ comma ∷ exits_text e.exits (entries_text es)

abbrev pub AllEntries : List Entry → Type 0
AllEntries [] = Unit
AllEntries (e ∷ es) = Lacks comma e.name × AllExits e.exits × AllEntries es

-- The exits of the nodes are set, line by line.
unfoldable pub put_lines : List Entry → Compiler → Result Menu
unfolding put_exits
put_lines [] g = ok g.menu
put_lines (e ∷ es) g = do
  menu ← put_exits e.exits (record g { tmpc = 0; tmpm = reading })
  put_lines es (record g { line = g.line + 1; menu = menu })

pub links_of_lem :
    (text : Bytes) (g : Compiler)
    → 0 < length text
    → links_of text g
      ≡ eat
          (below g.tmpc)
          link_step
          text
          (record g { tmpki = 0; tmpm = seeking; line = 0; tmpc = 0 })
unfolding links_of
links_of_lem [] g h = absurd (omega arith)
links_of_lem (b ∷ text) g h = refl

module _ (c : ℕ) where
  -- The front of a line, up to the first comma
  pub front_run :
      (s t : Bytes) (g : Compiler)
      → Lacks comma s
      → g.tmpm ≡ seeking
      → below c g ≡ true
      → eat (below c) link_step (s ++ comma ∷ t) g
        ≡ eat (below c) link_step t (record g { tmpm = reading })
  unfolding front_byte
  front_run [] t g end h l = rw (eat_step (below c) link_step comma t g l, in_front comma g h) refl
  front_run (b ∷ s) t g (byte x q) h l =
      rw (eat_step (below c) link_step b (s ++ comma ∷ t) g l, in_front b g h, front_byte, x)
        (front_run s t g q h l)

  -- The exits of a line, with what they leave at `tmpk`
  pub exits_run :
      (ss : List Bytes) (t old : Bytes) (g : Compiler)
      → AllExits ss
      → g.tmpm ≡ reading
      → below c g ≡ true
      → length old ≡ 32
      → eat (below c) link_step (exits_text ss t) (record g { tmpk = old; tmpki = 0 }) ≡ (
          put_exits ss g >>= λ menu. eat (below c) link_step t (record g {
            tmpk = left ss old;
            tmpki = 0;
            tmpc = 0;
            tmpm = seeking;
            line = g.line + 1;
            menu = menu;
          }))
  unfolding put_exits target
  exits_run [] t old g e h l m =
      exit_newline c [] t [] old [] g end end h l (omega arith)
        (c_string_text [] (drop 1 old) NoNul.end)
  exits_run (s ∷ ss) t old g (e, more) h l m =
      let old' = s ++ 0 ∷ drop (suc (length s)) old in
      let n : length s < length old = omega (arith, e.short) in
      let key = c_string_text s (drop (suc (length s)) old) e.text in
      exit_comma c s (exits_text ss t) [] old s g e.word e.on_line h l n key
      ∙ >>=_cong (or_code 1 (target s g >>= λ v. set_exit g.line g.tmpc v g.menu)) (λ menu _.
        exits_run ss t old' (record g { tmpc = g.tmpc + 1; menu = menu }) more h l
          (put-length s old n ∙ m))
      ∙ simp (put_exits, >>=_assoc)

  pub lines_run :
      (es : List Entry) (old : Bytes) (g : Compiler)
      → AllEntries es
      → g.line + length es ≡ c
      → length old ≡ 32
      → (eat
            (below c)
            link_step
            (entries_text es)
            (record g { tmpk = old; tmpki = 0; tmpc = 0; tmpm = seeking })
          >>= λ g. ok g.menu)
        ≡ put_lines es g
  unfolding eat put_lines
  lines_run [] old g s e m = refl
  lines_run (e ∷ es) old g (q, x, more) n m =
      let inside : below c g ≡ true = ground (arith, n) in
      let here = record g { tmpk = old; tmpki = 0; tmpc = 0; tmpm = seeking } in
      let read = record g { tmpc = 0; tmpm = reading } in
      rw
        (
          front_run e.name (exits_text e.exits (entries_text es)) here q refl inside,
          exits_run e.exits (entries_text es) old read x refl inside m,
        )
        (>>=_assoc (put_exits e.exits read) _ (λ g. ok g.menu)
          ∙ >>=_cong (put_exits e.exits read) (λ menu _.
            lines_run es (left e.exits old) (record g { line = g.line + 1; menu = menu }) more
              (omega (arith, n)) (length-left e.exits old x m)))

-- The same, told by the names of the lines alone: the exits of a line from one on, and the lines from
-- one on
unfoldable pub set_exits : List Bytes → ℕ → ℕ → List Bytes → Menu → Result Menu
unfolding leads_to set_exit
set_exits names line c [] menu = or_code 1 (set_exit line c 0 menu)
set_exits names line c (s ∷ ss) menu = do
  menu ← or_code 1 (leads_to names line s >>= λ v. set_exit line c v menu)
  set_exits names line (c + 1) ss menu

unfoldable pub set_lines : List Bytes → ℕ → List Entry → Menu → Result Menu
unfolding set_exits
set_lines names line [] menu = ok menu
set_lines names line (e ∷ es) menu = do
  menu ← set_exits names line 0 e.exits menu
  set_lines names (line + 1) es menu

module _ (names : List Bytes) (few : length names ≤ max_entries) where
  pub put_exits-set_exits :
      (ss : List Bytes) (g : Compiler)
      → IsNumbered names g
      → put_exits ss g ≡ set_exits names g.line g.tmpc ss g.menu
  unfolding put_exits set_exits
  put_exits-set_exits [] g n = refl
  put_exits-set_exits (s ∷ ss) g n =
      rw (put_exits, set_exits, target-leads_to names s g n few)
        (>>=_cong (or_code 1 (leads_to names g.line s >>= λ v. set_exit g.line g.tmpc v g.menu))
          (λ menu _. put_exits-set_exits ss (record g { tmpc = g.tmpc + 1; menu = menu }) n))

  pub put_lines-set_lines :
      (es : List Entry) (g : Compiler)
      → IsNumbered names g
      → put_lines es g ≡ set_lines names g.line es g.menu
  unfolding put_lines set_lines
  put_lines-set_lines [] g n = refl
  put_lines-set_lines (e ∷ es) g n =
      let read = record g { tmpc = 0; tmpm = reading } in
      rw (put_lines, set_lines, put_exits-set_exits e.exits read n)
        (>>=_cong (set_exits names g.line 0 e.exits g.menu)
          (λ menu _. put_lines-set_lines es (record g { line = g.line + 1; menu = menu }) n))
