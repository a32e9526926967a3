-- ===== src/Menu/Compiler/Forgotten.antt =====
-- src/aux/beamenu/gen.c: `tmpki` at the end of a line whose last exit has a name.
use gtk4_kee.Prelude.Bytes.{Bytes}
use gtk4_kee.Prelude.Result.{Result}
use gtk4_kee.Menu.Graph.{Menu}
use gtk4_kee.Menu.Compiler.{Compiler}
