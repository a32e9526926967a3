-- ===== src/Menu/File.antt =====
-- src/aux/beamenu/export.c and import.c: the menu graph as a file. An `int` is read and written
-- through its lowest byte, as on a little-endian machine.
use gtk4_kee.Prelude.{
  not, ◌||◌, ℕ, zero, suc, ◌+◌, Bool, List, [], ◌∷◌, ◌++◌, none, some, if◌then◌else◌, ◌==◌, ltb,
  length, take,
}
use gtk4_kee.Prelude.Bytes.{Bytes, le_bytes}
use gtk4_kee.Prelude.Result.{Result, ok, err, fault, ◌>>=◌, ◌>>◌, fail_if, or_code}
use gtk4_kee.Menu.Graph.{Node, Menu, register, set_exit, cn_maxlen}

-- `beamenu_export_exits`: for each exit as many bytes as the width says. A width of another size
-- gives 0, and so does a node with no exits.
unfoldable pub export_exits : List ℕ → ℕ → Bytes
unfolding le_bytes
export_exits [] width = []
export_exits (d ∷ dst) width = take width (le_bytes 4 d) ++ export_exits dst width

abbrev pub is_width : ℕ → Bool
is_width width = (width == 4) || ((width == 2) || (width == 1))

-- The loop of `beamenu_export` over the nodes; a name that is null is read through. A return of 0
-- is an error here.
unfoldable pub export_nodes : List Node → ℕ → Result Bytes
unfolding export_exits
export_nodes [] width = ok []
export_nodes (o ∷ nodes) width = do
  cn ← elim (o.cn) [ none ↦ fault | some s ↦ ok s ]
  fail_if (not (is_width width) || (length o.dst == 0)) 1
  rest ← export_nodes nodes width
  ok (cn ++ 0 ∷ (export_exits o.dst width ++ rest))

-- `beamenu_export`
unfoldable pub export_menu : ℕ → Menu → ℕ → Result Bytes
unfolding export_nodes
export_menu n_dst m width = export_nodes (take n_dst m.nodes) (if width == 0 then 1 else width)

-- `beamenu_load_file`, the loop that reads a name into the 33 bytes of `p`, with `ii` bytes in it:
-- the name, and what is left of the file. The NUL that the code adds behind the one that it read
-- may fall outside of `p`.
unfoldable pub read_name : ℕ → Bytes → Result (Bytes × Bytes)
read_name ii [] = err 1
read_name ii (b ∷ input) =
    let rest = read_name (ii + 1) input in
    if ltb cn_maxlen ii
    then err 1
    else if b == 0
    then (if ltb cn_maxlen (ii + 1) then fault else ok ([], input))
    else (do (s, left) ← rest; ok (b ∷ s, left))

-- The loop over the exits of node `i`, with `k` exits left from `ii` on
unfoldable pub load_exits : ℕ → ℕ → ℕ → Bytes → Menu → Result (Menu × Bytes)
load_exits zero i ii input m = ok (m, input)
load_exits (suc k) i ii [] m = err 1
load_exits (suc k) i ii (b ∷ input) m = do m ← set_exit i ii b m; load_exits k i (ii + 1) input m

-- The loop over the nodes, with `k` nodes left from `i` on
unfoldable pub load_nodes : ℕ → ℕ → ℕ → Bytes → Menu → Result (Menu × Bytes)
unfolding read_name load_exits
load_nodes n_exits zero i input m = ok (m, input)
load_nodes n_exits (suc k) i input m = do
  (name, input) ← read_name 0 input
  m ← or_code 1 (register n_exits i name m)
  (m, input) ← load_exits n_exits i 0 input m
  load_nodes n_exits k (i + 1) input m

-- `beamenu_load_file` on the bytes of a file that can be opened
unfoldable pub load_file : ℕ → ℕ → Bytes → Menu → Result Menu
unfolding load_nodes
load_file n_dst n_exits input m = do (m, left) ← load_nodes n_exits n_dst 0 input m; ok m
