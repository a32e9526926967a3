-- ===== src/Menu/Compiler.antt =====
-- src/aux/beamenu/gen.c, the part that reads a description of a menu: a line for each node, with its
-- name and the names of the nodes that its exits lead to, behind a comma each. The text of `keys` is
-- not kept beside the hash table, which points to it, and what is printed for `debug` is left out.
pub mod Loop
pub mod Main
pub mod Chunks
pub mod LinkChunks
pub mod Reading
pub mod Names
pub mod Places
pub mod Tables
pub mod Links
pub mod Exits
pub mod Forgotten
pub mod Write
pub mod Decimal
pub mod Written
pub mod Data
use gtk4_kee.Prelude.{
  ℕ, zero, suc, ◌+◌, Bool, true, false, List, [], ◌∷◌, ◌++◌, Option, none, some, if◌then◌else◌,
  ◌==◌, ltb, leb, length, get_elem?, set, replicate,
}
use gtk4_kee.Prelude.Bytes.{Bytes, c_string, same_bytes}
use gtk4_kee.Prelude.Result.{Result, ok, err, fault, ◌>>=◌, ◌>>◌, fault_if, fail_if, or_code}
use gtk4_kee.Menu.Graph.{Menu, register, set_exit, root, default, cn_maxlen}

abbrev pub max_entries : ℕ
max_entries = 256

abbrev pub comma : ℕ
comma = 0x2c

abbrev pub newline : ℕ
newline = 0x0a

-- MODE_READ, MODE_SEEK
pub data Mode : Type 0 where
  reading seeking : Mode

abbrev pub is_reading : Mode → Bool
is_reading reading = true
is_reading seeking = false

-- What the program is built and run with: the numbers of nodes and exits, how many entries
-- `hcreate` makes room for, and how many bytes of a block that `malloc` gives can be used.
pub record Build : Type 0 where
  pub n_dst : ℕ
  pub n_exits : ℕ
  pub capacity : ℕ
  pub usable : ℕ → ℕ

-- The globals, the table of `hsearch`, the graph of the menu and, as `line`, the `i` of `main`
pub record Compiler : Type 0 where
  pub tmpk : Bytes
  pub tmpki : ℕ
  pub tmpc : ℕ
  pub tmpm : Mode
  pub crsr : ℕ
  pub vals : List ℕ
  pub table : List (Bytes × ℕ)
  pub menu : Menu
  pub line : ℕ

-- `hsearch` with FIND: the index in `vals` that the data of the entry points to
unfoldable pub find : Bytes → List (Bytes × ℕ) → Option ℕ
find key [] = none
find key ((k, at) ∷ table) = if same_bytes k key then some at else find key table

-- `hsearch` with ENTER: an entry that has the key stays as it is, and a full table takes no more.
unfoldable pub enter : ℕ → Bytes → ℕ → List (Bytes × ℕ) → Option (List (Bytes × ℕ))
unfolding find
enter capacity key at table = elim (find key table) [
  | some old ↦ some table
  | none ↦ if leb capacity (length table) then none else some (table ++ (key, at) ∷ [])
]

-- `tmpk[tmpki] = b`
unfoldable pub put_key : ℕ → Compiler → Result Compiler
put_key b g = do
  fault_if (leb (length g.tmpk) g.tmpki)
  ok (record g { tmpk = set g.tmpk g.tmpki b })

-- The text at `tmpk`
unfoldable pub key_of : Compiler → Result Bytes
key_of g = elim (c_string g.tmpk) [ none ↦ fault | some s ↦ ok s ]

module _ (w : Build) where
  -- `addkey` with the key at `tmpk` and the value `tmpc`; the copy of the key is one byte longer than
  -- the block that is asked for.
  unfoldable pub addkey : Compiler → Result Compiler
  unfolding key_of enter
  addkey g = do
    k ← key_of g
    fault_if (leb max_entries g.crsr)
    fault_if (leb (w.usable (length k)) (length k))
    menu ← register w.n_exits g.tmpc k g.menu
    table ← elim (enter w.capacity k g.crsr g.table) [ none ↦ err 1 | some t ↦ ok t ]
    ok (record g { vals = set g.vals g.crsr g.tmpc; menu = menu; table = table; crsr = g.crsr + 1 })

  -- The loop of `scan` in MODE_READ, on what is left of the buffer
  unfoldable pub scan_name : Bytes → Compiler → Result (Bytes × Compiler)
  unfolding put_key addkey
  scan_name [] g = ok ([], g)
  scan_name (b ∷ rest) g = elim (b == comma) [
    | true ↦ do
      g ← put_key b g
      g ← put_key 0 g
      g ← or_code 1 (addkey g)
      ok (rest, record g { tmpm = seeking; tmpki = 0; tmpc = g.tmpc + 1 })
    | false ↦ do g ← put_key b g; scan_name rest (record g { tmpki = g.tmpki + 1 })
  ]

-- The loop of `scan` in MODE_SEEK
unfoldable pub seek_line : Bytes → Compiler → Bytes × Compiler
seek_line [] g = ([], g)
seek_line (b ∷ rest) g = elim (b == newline) [
  | true ↦ (rest, record g { tmpm = reading })
  | false ↦ seek_line rest g
]

-- The loop of `linkscan` in MODE_SEEK
unfoldable pub seek_comma : Bytes → Compiler → Bytes × Compiler
seek_comma [] g = ([], g)
seek_comma (b ∷ rest) g = elim (b == comma) [
  | true ↦ (rest, record g { tmpm = reading })
  | false ↦ seek_comma rest g
]

-- `*entry_index`, at `c` places behind the value of the entry
unfoldable pub linked : ℕ → ℕ → List ℕ → Result ℕ
linked at c vals = elim (get_elem? vals (at + c)) [ none ↦ fault | some v ↦ ok v ]

-- Where the exit with this name leads
unfoldable pub target : Bytes → Compiler → Result ℕ
unfolding linked find
target [] g = ok 0
target (b ∷ k) g = elim (b == 0x5f) [
  | true ↦ ok default
  | false ↦ elim (b == 0x2f) [
    | true ↦ ok root
    | false ↦ elim (find (b ∷ k) g.table) [ none ↦ err 1 | some at ↦ linked at g.line g.vals ]
  ]
]

-- `set`, for the node of the line
unfoldable pub set_link : Compiler → Result Compiler
unfolding key_of target
set_link g = do
  k ← key_of g
  v ← target k g
  menu ← set_exit g.line g.tmpc v g.menu
  ok (record g { menu = menu })

-- The loop of `linkscan` in MODE_READ. At the end of a line `tmpki` stays as it is.
unfoldable pub scan_links : Bytes → Compiler → Result (Bytes × Compiler)
unfolding put_key set_link
scan_links [] g = ok ([], g)
scan_links (b ∷ rest) g = elim (b == newline) [
  | true ↦ do
    g ← put_key 0 g
    g ← or_code 1 (set_link g)
    ok (rest, record g { tmpk = set g.tmpk 0 0; tmpm = seeking; line = g.line + 1; tmpc = 0 })
  | false ↦ elim (b == comma) [
    | true ↦ do
      g ← put_key 0 g
      g ← or_code 1 (set_link g)
      scan_links rest (record g { tmpc = g.tmpc + 1; tmpki = 0 })
    | false ↦ do g ← put_key b g; scan_links rest (record g { tmpki = g.tmpki + 1 })
  ]
]

-- `scan`: what it leaves of the buffer; it returns 1 where that is nothing, and -1 is an error here.
unfoldable pub scan : Build → Bytes → Compiler → Result (Bytes × Compiler)
unfolding scan_name seek_line
scan w rest g = do
  (rest, g) ← if is_reading g.tmpm then scan_name w rest g else ok (rest, g)
  if is_reading g.tmpm then ok (rest, g) else ok (seek_line rest g)

-- `linkscan`
unfoldable pub linkscan : Bytes → Compiler → Result (Bytes × Compiler)
unfolding seek_comma scan_links
linkscan rest g =
    let (rest, g) : Bytes × Compiler = if is_reading g.tmpm then (rest, g) else seek_comma rest g in
    if is_reading g.tmpm then scan_links rest g else ok (rest, g)
