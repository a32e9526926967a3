-- ===== src/Menu/Graph.antt =====
-- src/aux/beamenu/beamenu.c. The numbers of nodes and of exits of a node are fixed when the code is
-- compiled (BEAMENU_N_DST, BEAMENU_N_EXITS); the table has one node more.
use gtk4_kee.Prelude.{
  ℕ, zero, suc, arith, ◌≤◌, ◌≡◌, refl, List, [], ◌∷◌, ◌++◌, Option, none, some, if◌then◌else◌, ◌==◌,
  leb, length, get_elem?, set, replicate, ◌≤◌, arith,
}
use gtk4_kee.Prelude.Bytes.{Bytes}
use gtk4_kee.Prelude.Result.{Result, ok, fault, ◌>>=◌}

abbrev pub inactive : ℕ
inactive = 0x0

abbrev pub root : ℕ
root = 0xff

abbrev pub default : ℕ
default = 0xfe

abbrev pub cn_maxlen : ℕ
cn_maxlen = 32

-- `struct beamenu_node`; the name is null until the node is registered.
pub record Node : Type 0 where
  pub i : ℕ
  pub cn : Option Bytes
  pub dst : List ℕ

-- The table `node` and `beamenu_now`
pub record Menu : Type 0 where
  pub nodes : List Node
  pub now : ℕ

-- A read of an array at an index; outside of it C promises nothing.
unfoldable pub read {ℓ} : {A : Type ℓ} → List A → ℕ → Result A
read xs i = elim (get_elem? xs i) [ none ↦ fault | some x ↦ ok x ]

pub read_lem {ℓ} :
    {A : Type ℓ} (xs : List A) (i : ℕ) {x : A} → get_elem? xs i ≡ some x → read xs i ≡ ok x
unfolding read
read_lem xs i h = rw (read, h)

pub read-outside {ℓ} : {A : Type ℓ} (xs : List A) (i : ℕ) → length xs ≤ i → read xs i ≡ fault
unfolding read
read-outside [] i h = refl
read-outside (x ∷ xs) zero h = absurd (omega arith)
read-outside (x ∷ xs) (suc i) h = read-outside xs i (omega arith)

pub read-middle {ℓ} :
    {A : Type ℓ} (xs : List A) (y : A) (ys : List A) → read (xs ++ y ∷ ys) (length xs) ≡ ok y
unfolding read
read-middle [] y ys = refl
read-middle (x ∷ xs) y ys = read-middle xs y ys

-- `beamenu_get` at an index of 0 or more, and at a negative one
unfoldable pub get : Menu → ℕ → Result Node
get m idx = read m.nodes idx

unfoldable pub get_now : Menu → Result Node
get_now m = read m.nodes m.now

-- `beamenu_register`, where `malloc` succeeds
unfoldable pub register : ℕ → ℕ → Bytes → Menu → Result Menu
register n_exits idx cn m = do
  _ ← read m.nodes idx
  ok (record m {
    nodes = set m.nodes idx (record { i = idx; cn = some cn; dst = replicate n_exits inactive });
  })

-- `beamenu_set`
unfoldable pub set_exit : ℕ → ℕ → ℕ → Menu → Result Menu
unfolding get
set_exit idx_node idx_exit idx_dst m = do
  o ← get m idx_node
  _ ← read o.dst idx_exit
  ok (record m { nodes = set m.nodes idx_node (record o { dst = set o.dst idx_exit idx_dst }) })

-- `beamenu_get_exit`
unfoldable pub get_exit : Menu → ℕ → Result ℕ
unfolding get_now
get_exit m idx_exit =
    if idx_exit == root then ok idx_exit else (do o ← get_now m; read o.dst idx_exit)

-- `beamenu_jump`
unfoldable pub jump : ℕ → Menu → Menu
jump idx m = record m { now = idx }

-- What `beamenu_use_exit` returns: -1, -2, or the node that it jumped to.
pub data Used : Type 0 where
  no_exit bad_exit : Used
  went : ℕ → Used

-- `beamenu_use_exit`; the index of the exit is tested after it was used.
unfoldable pub use_exit : ℕ → ℕ → Menu → Result (Used × Menu)
unfolding get_exit jump
use_exit n_exits idx_exit m = do
  idx ← get_exit m idx_exit
  ok (
      if idx == inactive
      then (no_exit, m)
      else if idx == root
      then (went 0, jump 0 m)
      else if leb n_exits idx_exit
      then (bad_exit, m)
      else (went idx, jump idx m))
