-- ===== src/Menu/RoundTrip.antt =====
-- A menu graph that src/aux/beamenu/export.c writes with one byte for each exit comes back from
-- import.c.
use gtk4_kee.Prelude.{
  ℕ, suc, ◌+◌, ◌≤◌, ◌<◌, ◌≡◌, refl, sym, ap, ◌∙◌, false, List, [], ◌∷◌, ◌++◌, none, some, ◌==◌,
  length, replicate, take, arith, set-middle, length-append, subst, length-replicate, take-append,
}
use mathlib.Core.List.{append_assoc, append-nil}
use native.Mathlib.Nat.{mod-eq_of_lt}
use gtk4_kee.Prelude.Bytes.{Bytes, NoNul, byte}
use gtk4_kee.Prelude.Result.{fault, Result, ok, fault, ◌>>=◌, ok-injective}
use gtk4_kee.Menu.Graph.{Node, Menu, register, set_exit, read-middle, cn_maxlen}
use gtk4_kee.Menu.File.{
  export_exits, export_nodes, export_menu, read_name, load_exits, load_nodes, load_file,
}

-- A name of at most 31 bytes is read back, with the rest of the file left.
read_name_lem :
    (s rest : Bytes) (ii : ℕ)
    → NoNul s
    → length s + ii ≤ 31
    → read_name ii (s ++ 0 ∷ rest) ≡ ok (s, rest)
unfolding read_name
read_name_lem [] rest ii h n = ground arith
read_name_lem (b ∷ s) rest ii (byte e h) n =
    rw (e, read_name_lem s rest (ii + 1) h (omega arith)) (ground arith)

-- Each exit is a byte.
abbrev pub AllBytes : List ℕ → Type 0
AllBytes [] = Unit
AllBytes (d ∷ dst) = (d < 256) × AllBytes dst

module _ (m : Menu) (o : Node) (done todo : List Node) where
  -- The menu with a node of the given exits between the two parts
  with_exits : List ℕ → Menu
  with_exits dst = record m { nodes = done ++ record o { dst = dst } ∷ todo }

  set_exit_lem :
      (before after : List ℕ) (x v : ℕ)
      → set_exit (length done) (length before) v (with_exits (before ++ x ∷ after))
        ≡ ok (with_exits (before ++ v ∷ after))
  unfolding set_exit with_exits
  set_exit_lem before after x v = rw (
    read-middle done (record o { dst = before ++ x ∷ after }) todo,
    read-middle before x after,
    set-middle before x after v,
    set-middle done (record o { dst = before ++ x ∷ after }) todo
        (record o { dst = before ++ v ∷ after }),
  )

  load_exits_lem :
      (dst old before : List ℕ) (rest : Bytes)
      → length old ≡ length dst
      → AllBytes dst
      → load_exits
          (length dst)
          (length done)
          (length before)
          (export_exits dst 1 ++ rest)
          (with_exits (before ++ old))
        ≡ ok (with_exits (before ++ dst), rest)
  unfolding load_exits export_exits
  load_exits_lem [] [] before rest h b = refl
  load_exits_lem [] (x ∷ old) before rest h b = absurd (omega arith)
  load_exits_lem (d ∷ dst) [] before rest h b = absurd (omega arith)
  load_exits_lem (d ∷ dst) (x ∷ old) before rest h (lt, b) =
      let ih = load_exits_lem dst old (before ++ d ∷ []) rest (omega arith) b in
      rw (mod-eq_of_lt lt, set_exit_lem before old x d) (simp (append_assoc, length-append) at ih)

-- The name of a node; the empty one where it is null.
abbrev pub name_of : Node → Bytes
name_of o = elim (o.cn) [ none ↦ [] | some s ↦ s ]

-- A node that `beamenu_register` and `beamenu_set` have filled in: its index is its place, its name
-- has 31 bytes at most and no NUL, and each of its exits is a byte.
pub record IsStorable (n_exits idx : ℕ) (o : Node) : Type 0 where
  pub place : o.i ≡ idx
  pub named : o.cn ≡ some (name_of o)
  pub text : NoNul (name_of o)
  pub short : length (name_of o) ≤ 31
  pub exits : length o.dst ≡ n_exits
  pub bytes : AllBytes o.dst

abbrev pub AllStorable : ℕ → ℕ → List Node → Type 0
AllStorable n_exits idx [] = Unit
AllStorable n_exits idx (o ∷ nodes) = IsStorable n_exits idx o × AllStorable n_exits (idx + 1) nodes

-- What the file of such nodes holds
abbrev pub image : List Node → Bytes
image [] = []
image (o ∷ nodes) = name_of o ++ 0 ∷ (export_exits o.dst 1 ++ image nodes)

module _ (n_exits : ℕ) where
  pub export_nodes_lem :
      (idx : ℕ) (nodes : List Node)
      → AllStorable (suc n_exits) idx nodes
      → export_nodes nodes 1 ≡ ok (image nodes)
  unfolding export_nodes
  export_nodes_lem idx [] s = refl
  export_nodes_lem idx (o ∷ nodes) (s, more) =
      simp (s.named, s.exits, export_nodes_lem (idx + 1) nodes more, not_zero)
    where
      not_zero : (suc n_exits == 0) ≡ false
      not_zero = ground arith

module _ (n_exits : ℕ) (m : Menu) where
  -- The menu `m` with another table
  with_nodes : List Node → Menu
  with_nodes nodes = record m { nodes = nodes }

  register_lem :
      (done rest : List Node) (x : Node) (name : Bytes)
      → register n_exits (length done) name (with_nodes (done ++ x ∷ rest))
        ≡ ok (
            with_nodes (
              done ++ record { i = length done; cn = some name; dst = replicate n_exits 0 } ∷ rest))
  unfolding register with_nodes
  register_lem done rest x name = rw (read-middle done x rest, set-middle done x rest)

  -- The exits of a node that was just registered
  registered_exits :
      (done rest : List Node) (o : Node) (tail : Bytes)
      → IsStorable n_exits (length done) o
      → load_exits n_exits (length done) 0 (export_exits o.dst 1 ++ tail) (
          with_nodes (
            done
            ++ record { i = length done; cn = some (name_of o); dst = replicate n_exits 0 } ∷ rest))
        ≡ ok (with_nodes (done ++ o ∷ rest), tail)
  unfolding with_nodes with_exits
  registered_exits done rest o tail s =
      subst
        (λ k.
          load_exits k (length done) 0 (export_exits o.dst 1 ++ tail) (
            with_nodes (
              done
              ++ record { i = length done; cn = some (name_of o); dst = replicate k 0 } ∷ rest))
          ≡ ok (with_nodes (done ++ o ∷ rest), tail))
        s.exits
        (load_exits_lem m (record { i = length done; cn = some (name_of o); dst = [] }) done rest
            o.dst (replicate (length o.dst) 0) [] tail (length-replicate (length o.dst) 0) s.bytes
          ∙ ap
              (λ (o' : Node).
                let r : Result (Menu × Bytes) = ok (with_nodes (done ++ o' ∷ rest), tail) in r)
              rebuilt)
    where
      rebuilt : ◌≡◌ {A = Node} (record { i = length done; cn = some (name_of o); dst = o.dst }) o
      rebuilt = λ i. record { i = sym s.place i; cn = sym s.named i; dst = o.dst }

  load_nodes_lem :
      (nodes old done todo : List Node) (tail : Bytes)
      → length old ≡ length nodes
      → AllStorable n_exits (length done) nodes
      → load_nodes n_exits
          (length nodes)
          (length done)
          (image nodes ++ tail)
          (with_nodes (done ++ (old ++ todo)))
        ≡ ok (with_nodes (done ++ (nodes ++ todo)), tail)
  unfolding load_nodes
  load_nodes_lem [] [] done todo tail h s = refl
  load_nodes_lem [] (x ∷ old) done todo tail h s = absurd (omega arith)
  load_nodes_lem (o ∷ nodes) [] done todo tail h s = absurd (omega arith)
  load_nodes_lem (o ∷ nodes) (x ∷ old) done todo tail h (s, more) =
      let ih =
        load_nodes_lem nodes old (done ++ o ∷ []) todo tail (omega arith)
          (rw (length-append done (o ∷ [])) more) in
      rw
        (
          regroup,
          read_name_lem (name_of o) (export_exits o.dst 1 ++ (image nodes ++ tail)) 0 s.text
              (omega (arith, s.short)),
          register_lem done (old ++ todo) x (name_of o),
          registered_exits done (old ++ todo) o (image nodes ++ tail) s,
        )
        (simp (append_assoc, length-append) at ih)
    where
      regroup :
          image (o ∷ nodes) ++ tail
          ≡ name_of o ++ 0 ∷ (export_exits o.dst 1 ++ (image nodes ++ tail))
      regroup = simp append_assoc

-- What `beamenu_export` writes with one byte for each exit is read by `beamenu_load_file`, into a
-- table of at least as many nodes with any content, as the nodes that were written; what the table
-- has behind them stays. The nodes are registered at their places, with names of at most 31 bytes
-- without a NUL and exits of one byte, and each has an exit at least.
pub load-export :
    (n_exits : ℕ) (m m' : Menu) (old todo : List Node) (bytes : Bytes)
    → AllStorable (suc n_exits) 0 m.nodes
    → m'.nodes ≡ old ++ todo
    → length old ≡ length m.nodes
    → export_menu (length m.nodes) m 1 ≡ ok bytes
    → load_file (length m.nodes) (suc n_exits) bytes m' ≡ ok (record m' { nodes = m.nodes ++ todo })
unfolding export_menu load_file with_nodes
load-export n_exits m m' old todo bytes s table size e =
    rw (ok-injective (sym e ∙ written), table) (ap (λ r. r >>= λ (m'', _). ok m'') whole)
  where
    take-all : take (length m.nodes) m.nodes ≡ m.nodes
    take-all = simp append-nil at (take-append m.nodes [])

    written : export_menu (length m.nodes) m 1 ≡ ok (image m.nodes)
    written = rw (take-all) (export_nodes_lem n_exits 0 m.nodes s)

    whole :
        load_nodes
          (suc n_exits)
          (length m.nodes)
          0
          (image m.nodes)
          (with_nodes (suc n_exits) m' (old ++ todo))
        ≡ ok (with_nodes (suc n_exits) m' (m.nodes ++ todo), [])
    whole = simp append-nil at (load_nodes_lem (suc n_exits) m' m.nodes old [] todo [] size s)

long_name :
    (s rest : Bytes) (ii : ℕ) → NoNul s → length s + ii ≡ 32 → read_name ii (s ++ 0 ∷ rest) ≡ fault
unfolding read_name
long_name [] rest ii h n = ground arith
long_name (b ∷ s) rest ii (byte e h) n =
    rw (e, long_name s rest (ii + 1) h (omega arith)) (ground arith)

-- A file that begins with a name of 32 bytes, the maximum that the header gives for a name, makes
-- `beamenu_load_file` write outside of its buffer, where it has a node to read.
pub load_file-overruns :
    (k n_exits : ℕ) (s rest : Bytes) (m : Menu)
    → NoNul s
    → length s ≡ cn_maxlen
    → load_file (suc k) n_exits (s ++ 0 ∷ rest) m ≡ fault
unfolding load_file load_nodes
load_file-overruns k n_exits s rest m h n = rw (long_name s rest 0 h (omega (arith, n)))
