-- ===== src/Examples/Compiling.antt =====
-- The theorems on the compiler of the menu, at a small description.
use gtk4_kee.Prelude.{
  ℕ, [], ◌∷◌, ◌≡◌, refl, some, none, arith, ◌+◌, ◌++◌, ◌<◌, ◌%◌, ◌^◌, List, replicate, length,
}
use gtk4_kee.Prelude.Bytes.{Bytes, NoNul, c_string}
use gtk4_kee.Prelude.Result.{Result, ok, ◌>>=◌}
use gtk4_kee.Menu.Graph.{Menu, Node, set_exit, register, read}
use gtk4_kee.Menu.File.{load_file}
use gtk4_kee.Menu.Compiler.{Build, Compiler, comma, newline}
use gtk4_kee.Menu.Compiler.Loop.{Reads}
use gtk4_kee.Menu.Compiler.Main.{started, read_names, read_menu}
use gtk4_kee.Menu.Compiler.Reading.{menu_of, read_menu-menu_of}
use gtk4_kee.Menu.Compiler.Names.{Lacks, Line, IsLine, numbered, read_names-numbered}
use gtk4_kee.Menu.Compiler.Write.{Writer, write_defs, write_data, guard, extern_dst, end_guard}
use gtk4_kee.Menu.Compiler.Written.{Ascii, Takes, IsNamed, IsDefines, write_defs-IsDefines}
use gtk4_kee.Menu.Compiler.Data.{write_data-load_file}

abbrev small : Build
small = record { n_dst = 2; n_exits = 2; capacity = 8; usable = λ l. l + 8 }

abbrev vacant : Node
vacant = record { i = 0; cn = none; dst = [] }

abbrev table : Menu
table = record { nodes = vacant ∷ vacant ∷ vacant ∷ []; now = 0 }

-- "a,b,\nb,_,\n"
abbrev description : Bytes
description = b'a' ∷ comma ∷ b'b' ∷ comma ∷ newline ∷ b'b' ∷ comma ∷ b'_' ∷ comma ∷ newline ∷ []

abbrev first_reads : Reads
first_reads =
    (b'a' ∷ comma ∷ b'b' ∷ [])
    ∷ (comma ∷ newline ∷ b'b' ∷ [])
    ∷ (comma ∷ b'_' ∷ comma ∷ newline ∷ [])
    ∷ []

read_menu-menu_of_example :
    read_menu small 10 first_reads (description ∷ []) (started table)
    ≡ some (menu_of small description (started table))
read_menu-menu_of_example =
    read_menu-menu_of small 10 first_reads (description ∷ []) description (started table) refl refl
      (omega arith)

abbrev compiled : List Node
compiled =
    record { i = 0; cn = some (b'a' ∷ []); dst = 1 ∷ 0 ∷ [] }
    ∷ record { i = 1; cn = some (b'b' ∷ []); dst = 254 ∷ 0 ∷ [] }
    ∷ vacant
    ∷ []

-- The graph that the description gives
description_compiles :
    (menu_of small description (started table) >>= λ g. ok g.menu.nodes) ≡ ok compiled
unfolding menu_of c_string register read set_exit
description_compiles = refl

abbrev lines : List Line
lines =
    record { name = b'a' ∷ []; tail = b'b' ∷ comma ∷ [] }
    ∷ record { name = b'b' ∷ []; tail = b'_' ∷ comma ∷ [] }
    ∷ []

a-IsLine : IsLine small (record { name = b'a' ∷ []; tail = b'b' ∷ comma ∷ [] })
a-IsLine = record {
  word = Lacks.byte refl Lacks.end;
  text = NoNul.byte refl NoNul.end;
  short = omega arith;
  room = omega arith;
  rest = Lacks.byte refl (Lacks.byte refl Lacks.end);
}

b-IsLine : IsLine small (record { name = b'b' ∷ []; tail = b'_' ∷ comma ∷ [] })
b-IsLine = record {
  word = Lacks.byte refl Lacks.end;
  text = NoNul.byte refl NoNul.end;
  short = omega arith;
  room = omega arith;
  rest = Lacks.byte refl (Lacks.byte refl Lacks.end);
}

read_names-numbered_example :
    (g : Compiler) × (read_names small 10 first_reads (started table) ≡ some (ok g))
    × (g.tmpc ≡ 2)
    × (g.menu.nodes ≡ numbered 2 0 lines ++ vacant ∷ [])
read_names-numbered_example =
    read_names-numbered small 10 first_reads (record { name = b'a' ∷ []; tail = b'b' ∷ comma ∷ [] })
      (record { name = b'b' ∷ []; tail = b'_' ∷ comma ∷ [] } ∷ []) table (a-IsLine, (b-IsLine, tt))
      refl (omega arith) (omega arith) (omega arith) (omega arith)

-- The state after the first reading
abbrev named : Compiler
named = record (started table) {
  tmpc = 2;
  crsr = 2;
  vals = 0 ∷ 1 ∷ replicate 254 0;
  table = (b'a' ∷ [], 0) ∷ (b'b' ∷ [], 1) ∷ [];
  menu = record { nodes = numbered 2 0 lines ++ vacant ∷ []; now = 0 };
}

abbrev two_names : List Bytes
two_names = (b'a' ∷ []) ∷ (b'b' ∷ []) ∷ []

-- A file that takes all that it is given
abbrev paper : Writer Bytes
paper = record { write = λ o b. (some (length b), o ++ b); written = λ o. o }

paper-Takes : Takes paper
paper-Takes = record { takes = λ o b. (o ++ b, refl, refl) }

abbrev two_nodes : List Node
two_nodes =
    record { i = 0; cn = some (b'a' ∷ []); dst = 1 ∷ 0 ∷ [] }
    ∷ record { i = 1; cn = some (b'b' ∷ []); dst = 254 ∷ 0 ∷ [] }
    ∷ []

a-IsNamed : IsNamed (record { i = 0; cn = some (b'a' ∷ []); dst = 1 ∷ 0 ∷ [] })
a-IsNamed = record {
  named = refl;
  ascii = Ascii.byte (omega arith) (omega arith) Ascii.end;
  fits = omega arith;
}

b-IsNamed : IsNamed (record { i = 1; cn = some (b'b' ∷ []); dst = 254 ∷ 0 ∷ [] })
b-IsNamed = record {
  named = refl;
  ascii = Ascii.byte (omega arith) (omega arith) Ascii.end;
  fits = omega arith;
}

write_defs-IsDefines_example :
    (text : Bytes) × (r : ℕ) × IsDefines 0 two_nodes text
    × (0 < r)
    × ((o : Bytes) × (write_defs paper 2 (record { nodes = compiled; now = 0 }) [] ≡ (ok r, o))
        × (o ≡ guard ++ (text ++ (extern_dst ++ end_guard))))
write_defs-IsDefines_example =
    write_defs-IsDefines paper paper-Takes (record { nodes = compiled; now = 0 }) two_nodes
      (vacant ∷ []) [] refl (a-IsNamed, (b-IsNamed, tt))

write_data-load_file_example :
    (bytes : Bytes) × (o : Bytes) × (write_data paper small 2 0 []
        (record { nodes = compiled; now = 0 })
        []
      ≡ some (ok ((0 + length bytes) % 2 ^ 32), o))
    × (o ≡ bytes)
    × (load_file 2 2 bytes table ≡ ok (record { nodes = two_nodes ++ vacant ∷ []; now = 0 }))
write_data-load_file_example =
    write_data-load_file paper paper-Takes small 1 0 0 [] (record { nodes = compiled; now = 0 })
      table two_nodes (vacant ∷ []) (vacant ∷ vacant ∷ []) (vacant ∷ []) [] refl refl refl
      (
        record {
          place = refl;
          named = refl;
          text = NoNul.byte refl NoNul.end;
          short = omega arith;
          exits = refl;
          bytes = (omega arith, (omega arith, tt));
        },
        (
          record {
            place = refl;
            named = refl;
            text = NoNul.byte refl NoNul.end;
            short = omega arith;
            exits = refl;
            bytes = (omega arith, (omega arith, tt));
          },
          tt,
        ),
      )
      refl refl (omega arith)
