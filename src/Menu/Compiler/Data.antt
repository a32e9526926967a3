-- ===== src/Menu/Compiler/Data.antt =====
-- src/aux/beamenu/gen.c, `write_data`, and the program that loads the file it writes.
use gtk4_kee.Prelude.{
  ℕ, suc, ◌+◌, ◌*◌, ◌%◌, ◌^◌, ◌-◌, ◌≤◌, ◌<◌, ◌≡◌, refl, sym, ap, ◌∙◌, false, List, [], ◌∷◌, ◌++◌,
  some, length, arith, ltb, ◌==◌, take, length-append, take-append,
}
use mathlib.Core.List.{append-nil}
use gtk4_kee.Prelude.Bytes.{Bytes, le_bytes}
use gtk4_kee.Prelude.Result.{ok}
use gtk4_kee.Menu.Graph.{Node, Menu, cn_maxlen}
use gtk4_kee.Menu.File.{export_exits, export_menu, load_file}
use gtk4_kee.Menu.RoundTrip.{name_of, AllStorable, image, export_nodes_lem, load-export}
use gtk4_kee.Menu.Compiler.{Build}
use gtk4_kee.Menu.Compiler.Write.{Writer, write_block, write_data, counted}
use gtk4_kee.Menu.Compiler.Written.{Takes}

length-export_exits : (dst : List ℕ) → length (export_exits dst 1) ≡ length dst
unfolding export_exits le_bytes
length-export_exits [] = refl
length-export_exits (d ∷ dst) = ap suc (length-export_exits dst)

-- A node takes up a name, its NUL and a byte for each exit.
image-length :
    (n_exits i : ℕ) (nodes : List Node)
    → AllStorable n_exits i nodes
    → length (image nodes) ≤ length nodes * (cn_maxlen + n_exits + 1)
image-length n_exits i [] s = omega arith
image-length n_exits i (o ∷ nodes) (s, more) =
    let n = image-length n_exits (i + 1) nodes more in
    omega (
      arith,
      n,
      s.short,
      s.exits,
      length-export_exits o.dst,
      length-append (name_of o) (0 ∷ (export_exits o.dst 1 ++ image nodes)),
      length-append (export_exits o.dst 1) (image nodes),
    )

module _ {Out : Type 0} (f : Writer Out) (t : Takes f) where
  block_empty :
      (n : ℕ) (block : Bytes) (r : ℕ) (o : Out) → write_block f (suc n) block 0 r o ≡ some (ok r, o)
  unfolding write_block
  block_empty n block r o = refl

  block_taken :
      (n : ℕ) (x : ℕ) (b rest : Bytes) (r : ℕ) (o : Out) {o' : Out}
      → f.write o (x ∷ b) ≡ (some (suc (length b)), o')
      → write_block f (suc n) (x ∷ (b ++ rest)) (suc (length b)) r o
        ≡ write_block f n (x ∷ (b ++ rest)) 0 ((r + suc (length b)) % 2 ^ 32) o'
  unfolding write_block counted
  block_taken n x b rest r o e =
      rw (write_block, nonzero, fits, take-append b rest, e, none_left) refl
    where
      nonzero : (suc (length b) == 0) ≡ false
      nonzero = ground arith

      fits : ltb (suc (length (b ++ rest))) (suc (length b)) ≡ false
      fits = ground (arith, length-append b rest)

      none_left : suc (length b) - suc (length b) ≡ 0
      none_left = omega arith

  write_block_lem :
      (n : ℕ) (b rest : Bytes) (r : ℕ) (o : Out)
      → r < 2 ^ 32
      → (o' : Out) × (write_block f (suc (suc n)) (b ++ rest) (length b) r o
          ≡ some (ok ((r + length b) % 2 ^ 32), o'))
        × (f.written o' ≡ f.written o ++ b)
  write_block_lem n [] rest r o h =
      let same : (r + 0) % 2 ^ 32 ≡ r = omega arith in
      (o, rw same (block_empty (suc n) rest r o), sym (append-nil (f.written o)))
  write_block_lem n (x ∷ b) rest r o h =
      let (o', e, w) = t.takes o (x ∷ b) in
      (
        o',
        block_taken (suc n) x b rest r o e
            ∙ block_empty n (x ∷ (b ++ rest)) ((r + suc (length b)) % 2 ^ 32) o',
        w,
      )

  -- The nodes of a menu that are to be written are registered at their places, with names of at most
  -- 31 bytes without a NUL and one exit or more of a byte each, and each write takes all that it is
  -- given: with fuel for two rounds `write_data` ends with what its variable held and the number of
  -- bytes, modulo 2 ^ 32, and adds to its file bytes that `beamenu_load_file` reads, into a table of
  -- at least as many nodes, as these nodes.
  pub write_data-load_file :
      (w : Build) (k n r : ℕ) (block : Bytes) (m m' : Menu) (nodes rest old todo : List Node)
      (o : Out)
      → w.n_dst ≡ length nodes
      → w.n_exits ≡ suc k
      → m.nodes ≡ nodes ++ rest
      → AllStorable (suc k) 0 nodes
      → m'.nodes ≡ old ++ todo
      → length old ≡ length nodes
      → r < 2 ^ 32
      → (bytes : Bytes) × (o' : Out) × (write_data f w (suc (suc n)) r block m o
          ≡ some (ok ((r + length bytes) % 2 ^ 32), o'))
        × (f.written o' ≡ f.written o ++ bytes)
        × (load_file w.n_dst w.n_exits bytes m' ≡ ok (record m' { nodes = nodes ++ todo }))
  unfolding write_data
  write_data-load_file w k n r block m m' nodes rest old todo o d x h s h' l c =
      let (o', e, added) = write_block_lem n (image nodes) block r o c in
      (
        image nodes,
        o',
        rw (write_data, exported, fits) e,
        added,
        rw (d, x)
            (load-export k (record m { nodes = nodes }) m' old todo (image nodes) s h' l alone),
      )
    where
      alone : export_menu (length nodes) (record m { nodes = nodes }) 1 ≡ ok (image nodes)
      alone =
          let whole : take (length nodes) nodes ≡ nodes =
            simp append-nil at (take-append {A = Node} nodes []) in
          unfold export_menu in rw (whole) (export_nodes_lem k 0 nodes s)

      exported : export_menu w.n_dst m 1 ≡ ok (image nodes)
      exported =
          unfold export_menu in rw (d, h, take-append nodes rest) (export_nodes_lem k 0 nodes s)

      fits : ltb (w.n_dst * (cn_maxlen + w.n_exits + 1)) (length (image nodes)) ≡ false
      fits = rw (d, x) (ground (arith, image-length (suc k) 0 nodes s))
