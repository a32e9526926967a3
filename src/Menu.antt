-- ===== src/Menu.antt =====
-- src/aux/beamenu (beamenu.c, export.c, import.c, gen.c) and src/gtk/nav.c: the menu graph, its
-- file, the program that makes the file, and the stack of open views.
pub mod Graph
pub mod File
pub mod RoundTrip
pub mod Nav
pub mod Compiler
