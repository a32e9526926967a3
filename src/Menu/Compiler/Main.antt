-- ===== src/Menu/Compiler/Main.antt =====
-- src/aux/beamenu/gen.c, the two readings of the description in `main`.
use gtk4_kee.Prelude.{ℕ, Bool, true, [], Option, none, some, ltb, replicate}
use gtk4_kee.Prelude.Result.{Result, ok, err, fault}
use gtk4_kee.Menu.Graph.{Menu, cn_maxlen}
use gtk4_kee.Menu.Compiler.{Build, Compiler, reading, seeking, scan, linkscan, max_entries}
use gtk4_kee.Menu.Compiler.Loop.{Reads, fill, passes}

-- The globals at the start, with the table of nodes as it is
abbrev pub started : Menu → Compiler
started menu = record {
  tmpk = replicate cn_maxlen 0;
  tmpki = 0;
  tmpc = 0;
  tmpm = reading;
  crsr = 0;
  vals = replicate max_entries 0;
  table = [];
  menu = menu;
  line = 0;
}

-- `while (1)`, and `while (i < c)`
abbrev pub always : Compiler → Bool
always g = true

abbrev pub below : ℕ → Compiler → Bool
below c g = ltb g.line c

-- The loop with `scan`, from the first `fill` on, and the one with `linkscan`; an empty file is an
-- error.
unfoldable pub read_names : Build → ℕ → Reads → Compiler → Option (Result Compiler)
unfolding passes fill scan
read_names w n file g = elim (fill file) [
  | none ↦ some (err 1)
  | some (l, file) ↦ passes always (scan w) n l file g
]

unfoldable pub read_links : ℕ → Reads → Compiler → Option (Result Compiler)
unfolding passes fill linkscan
read_links n file g = elim (fill file) [
  | none ↦ some (err 1)
  | some (l, file) ↦
      passes (below g.tmpc) linkscan n l file
        (record g { tmpki = 0; tmpm = seeking; line = 0; tmpc = 0 })
]

-- What follows the first loop, where it ends well
unfoldable pub then_read :
    (Compiler → Option (Result Compiler)) → Option (Result Compiler) → Option (Result Compiler)
then_read next none = none
then_read next (some fault) = some fault
then_read next (some (err c)) = some (err c)
then_read next (some (ok g)) = next g

-- `main` up to `hdestroy`, each reading with its own buffers
unfoldable pub read_menu : Build → ℕ → Reads → Reads → Compiler → Option (Result Compiler)
unfolding read_names read_links then_read
read_menu w n file again g = then_read (read_links n again) (read_names w n file g)
