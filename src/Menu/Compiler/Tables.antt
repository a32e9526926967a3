-- ===== src/Menu/Compiler/Tables.antt =====
-- src/aux/beamenu/gen.c: the tables that the first reading of a description leaves.
use gtk4_kee.Prelude.{
  ℕ, zero, suc, ◌+◌, ◌-◌, ◌≤◌, ◌<◌, ◌≡◌, refl, sym, ap, ◌∙◌, List, [], ◌∷◌, ◌++◌, none, some,
  length, leb, replicate, set, drop, false, arith, length-append, length-drop,
}
use mathlib.Core.List.{append_assoc, append-nil}
use gtk4_kee.Prelude.Bytes.{Bytes}
use gtk4_kee.Prelude.Result.{ok}
use gtk4_kee.Menu.Graph.{Node, Menu, cn_maxlen}
use gtk4_kee.Menu.Compiler.{Build, Compiler, reading, enter, comma, newline, max_entries}
use gtk4_kee.Menu.Compiler.Loop.{Reads, whole, eat}
use gtk4_kee.Menu.Compiler.Main.{started, always, read_names}
use gtk4_kee.Menu.Compiler.Chunks.{name_step}
use gtk4_kee.Menu.Compiler.Reading.{read_names_lem}
use gtk4_kee.Menu.Compiler.Names.{Line, AllLines, text_of, line_run, registers, names_of_lem}
use gtk4_kee.Menu.Compiler.Places.{place, indexed, upto, IsNumbered, find-indexed}

-- Lines whose names are not among those before them
abbrev pub AllNew : List Bytes → List Line → Type 0
AllNew names [] = Unit
AllNew names (e ∷ es) = (place e.name names ≡ none) × AllNew (names ++ e.name ∷ []) es

abbrev pub names_in : List Line → List Bytes
names_in [] = []
names_in (e ∷ es) = e.name ∷ names_in es

length-indexed : (i : ℕ) (names : List Bytes) → length (indexed i names) ≡ length names
length-indexed i [] = refl
length-indexed i (n ∷ names) = ap suc (length-indexed (i + 1) names)

indexed-append :
    (i : ℕ) (names : List Bytes) (n : Bytes) {k : ℕ}
    → k ≡ i + length names
    → indexed i (names ++ n ∷ []) ≡ indexed i names ++ (n, k) ∷ []
indexed-append i [] n {k} e = let e' : k ≡ i = omega (arith, e) in rw e' refl
indexed-append i (m ∷ names) n e =
    ap (λ r. (m, i) ∷ r) (indexed-append (i + 1) names n (omega (arith, e)))

set-upto :
    (i n z : ℕ) {k : ℕ}
    → k ≡ i + n
    → set (upto i n ++ replicate (suc z) 0) n k ≡ upto i (suc n) ++ replicate z 0
set-upto i zero z {k} e = let e' : k ≡ i = omega (arith, e) in rw e' refl
set-upto i (suc n) z e = ap (λ r. i ∷ r) (set-upto (i + 1) n z (omega (arith, e)))

-- A name that is new goes to the end of the table.
enter-new :
    (capacity : ℕ) (names : List Bytes) (k : Bytes)
    → place k names ≡ none
    → length names < capacity
    → enter capacity k (length names) (indexed 0 names) ≡ some (indexed 0 (names ++ k ∷ []))
unfolding enter
enter-new capacity names k new h =
    let step = find-indexed k 0 names in
    let missing = rw new at step in
    let room : leb capacity (length (indexed 0 names)) ≡ false =
      ground (arith, h, length-indexed 0 names) in
    rw (enter, missing, room, indexed-append 0 names k {k = length names} (omega arith)) refl

vals-next :
    (names : List Bytes) (k : Bytes)
    → length names < max_entries
    → set
        (upto 0 (length names) ++ replicate (max_entries - length names) 0)
        (length names)
        (length names)
      ≡ upto 0 (length (names ++ k ∷ [])) ++ replicate (max_entries - length (names ++ k ∷ [])) 0
vals-next names k h =
    let z = max_entries - suc (length names) in
    let before : max_entries - length names ≡ suc z = omega (arith, h) in
    let long : length (names ++ k ∷ []) ≡ suc (length names) =
      omega (arith, length-append names (k ∷ [])) in
    rw (before, long) (set-upto 0 (length names) z (omega arith))

module _ (w : Build) where
  lines_run :
      (es : List Line) (names : List Bytes) (done rest : List Node) (old : Bytes) (g : Compiler)
      → AllLines w es
      → AllNew names es
      → g.tmpm ≡ reading
      → length old ≡ 32
      → g.tmpc ≡ length names
      → g.crsr ≡ length names
      → length done ≡ length names
      → g.menu.nodes ≡ done ++ rest
      → IsNumbered names g
      → length es ≤ length rest
      → length names + length es ≤ max_entries
      → length names + length es ≤ w.capacity
      → (g' : Compiler) × (eat always
            (name_step w)
            (text_of es)
            (record g { tmpk = old; tmpki = 0 })
          ≡ ok g')
        × IsNumbered (names ++ names_in es) g'
  unfolding eat
  lines_run [] names done rest old g s new h m c at d nodes (t, v) r few room =
      (record g { tmpk = old; tmpki = 0 }, refl, rw (append-nil names) (t, v))
  lines_run (e ∷ es) names done [] old g s new h m c at d nodes n r few room = absurd (omega arith)
  lines_run (e ∷ es) names done (x ∷ rest) old g (s, more) (new, news) h m c at d nodes (t, v) r few
        room =
      let node : Node = record { i = length done; cn = some e.name; dst = replicate w.n_exits 0 } in
      let names' = names ++ e.name ∷ [] in
      let old' = e.name ++ 0 ∷ drop (suc (length e.name)) old in
      let vals = set g.vals g.crsr g.tmpc in
      let table = indexed 0 names' in
      let long : length names' ≡ suc (length names) =
        omega (arith, length-append names (e.name ∷ [])) in
      let g' : Compiler = record g {
        tmpc = g.tmpc + 1;
        tmpm = reading;
        crsr = g.crsr + 1;
        vals = vals;
        table = table;
        menu = record g.menu { nodes = done ++ node ∷ rest };
      } in
      let entered : enter w.capacity e.name g.crsr g.table ≡ some table =
        rw (at, t) (enter-new w.capacity names e.name new (omega (arith, room))) in
      let valued : vals ≡ upto 0 (length names') ++ replicate (max_entries - length names') 0 =
        rw (v, at, c) (vals-next names e.name (omega (arith, few))) in
      let (g'', run, there) =
        lines_run es names' (done ++ node ∷ []) rest old' g' more news refl
          (omega (
            arith,
            m,
            s.short,
            length-append e.name (0 ∷ drop (suc (length e.name)) old),
            length-drop (suc (length e.name)) old,
          ))
          (omega (arith, c, long)) (omega (arith, at, long))
          (omega (arith, d, long, length-append done (node ∷ []))) (simp append_assoc)
          (refl, valued) (omega (arith, r)) (omega (arith, few, long))
          (omega (arith, room, long)) in
      (
        g'',
        line_run w e (text_of es) old g s h m (omega (arith, at, few))
              (registers w.n_exits e.name g.menu done x rest (c ∙ sym d) nodes) entered
            ∙ run,
        simp append_assoc at there,
      )

  -- The first reading of a description as in `read_names-numbered`, whose names are all different,
  -- leaves the tables with which the second one begins.
  pub read_names-IsNumbered :
      (n : ℕ) (file : Reads) (e : Line) (es : List Line) (menu : Menu)
      → AllLines w (e ∷ es)
      → AllNew [] (e ∷ es)
      → whole file ≡ text_of (e ∷ es)
      → length (text_of (e ∷ es)) ≤ n
      → length (e ∷ es) ≤ length menu.nodes
      → length (e ∷ es) ≤ max_entries
      → length (e ∷ es) ≤ w.capacity
      → (g : Compiler) × (read_names w n file (started menu) ≡ some (ok g))
        × IsNumbered (names_in (e ∷ es)) g
  read_names-IsNumbered n file e es menu s new text fuel r v t =
      let (g, run, known) =
        lines_run (e ∷ es) [] [] menu.nodes (replicate cn_maxlen 0) (started menu) s new refl refl
          refl refl refl refl (refl, refl) r (omega (arith, v)) (omega (arith, t)) in
      let some_text : 0 < length (text_of (e ∷ es)) =
        omega (arith, length-append e.name (comma ∷ (e.tail ++ newline ∷ text_of es))) in
      (
        g,
        rw
            (
              read_names_lem w n file (started menu) (omega (arith, ap length text)),
              text,
              names_of_lem w (text_of (e ∷ es)) (started menu) some_text,
              run,
            )
            refl,
        known,
      )
