-- ===== src/Menu/Compiler/Places.antt =====
-- src/aux/beamenu/gen.c: where the name of an exit leads, told by the names of the lines alone.
use gtk4_kee.Prelude.{
  ℕ, zero, suc, ◌+◌, ◌≤◌, ◌≡◌, refl, List, [], ◌∷◌, ◌++◌, Option, none, some, if◌then◌else◌, ◌==◌,
  ltb, length, replicate, get_elem?, true, false, Bool-cases, Option-cases, inl, inr, arith, ◌-◌,
}
use gtk4_kee.Prelude.Bytes.{Bytes, same_bytes}
use gtk4_kee.Prelude.Result.{Result, ok, err, fault}
use gtk4_kee.Menu.Graph.{root, default}
use gtk4_kee.Menu.Compiler.{Compiler, find, linked, target, max_entries}

-- The first line with this name
abbrev pub place : Bytes → List Bytes → Option ℕ
place k [] = none
place k (n ∷ names) =
    if same_bytes n k then some 0 else elim (place k names) [ none ↦ none | some j ↦ some (suc j) ]

-- The node with this number, where the numbers behind those of the nodes are 0
abbrev pub node_at : ℕ → ℕ → Result ℕ
node_at count j = if ltb j count then ok j else if ltb j max_entries then ok 0 else fault

-- Where an exit leads that is named on a line: an empty name to 0, "_" and "/" to the default and the
-- root, and any other to the node that is as many lines behind the one of that name as the line has
-- lines before it.
unfoldable pub leads_to : List Bytes → ℕ → Bytes → Result ℕ
leads_to names line [] = ok 0
leads_to names line (b ∷ k) = elim (b == b'_') [
  | true ↦ ok default
  | false ↦ elim (b == b'/') [
    | true ↦ ok root
    | false ↦ elim (place (b ∷ k) names) [
      | none ↦ err 1
      | some j ↦ node_at (length names) (j + line)
    ]
  ]
]

abbrev pub indexed : ℕ → List Bytes → List (Bytes × ℕ)
indexed i [] = []
indexed i (n ∷ names) = (n, i) ∷ indexed (i + 1) names

abbrev pub upto : ℕ → ℕ → List ℕ
upto i zero = []
upto i (suc n) = i ∷ upto (i + 1) n

-- The tables that the first reading leaves of lines with these names, which are all different
abbrev pub IsNumbered : List Bytes → Compiler → Type 0
IsNumbered names g =
    (g.table ≡ indexed 0 names)
    × (g.vals ≡ upto 0 (length names) ++ replicate (max_entries - length names) 0)

pub find-indexed :
    (k : Bytes) (i : ℕ) (names : List Bytes)
    → find k (indexed i names)
      ≡ (elim (place k names) as (λ _. Option ℕ) [ none ↦ none | some j ↦ some (i + j) ])
unfolding find
find-indexed k i [] = refl
find-indexed k i (n ∷ names) =
    let step = find-indexed k (i + 1) names in
    elim (Bool-cases (same_bytes n k)) [
      | inl e ↦ let z : i + 0 ≡ i = omega arith in rw (e, z) refl
      | inr e ↦ elim (Option-cases (place k names)) [
        | inl p ↦ let rest = rw p at step in rw (e, p, rest) refl
        | inr (j, p) ↦
            let z : i + 1 + j ≡ i + suc j = omega arith in
            let rest = rw p at step in rw (e, p, rest, z) refl
      ]
    ]

get_elem?-replicate :
    (z j : ℕ)
    → get_elem? (replicate z 0) j ≡ (let r : Option ℕ = if ltb j z then some 0 else none in r)
get_elem?-replicate zero j = ground arith
get_elem?-replicate (suc z) zero = ground arith
get_elem?-replicate (suc z) (suc j) =
    let same : ltb (suc j) (suc z) ≡ ltb j z = ground arith in
    rw (get_elem?-replicate z j, same) refl

get_elem?-upto :
    (i n z j : ℕ)
    → get_elem? (upto i n ++ replicate z 0) j ≡ (
        let r : Option ℕ =
          if ltb j n then some (i + j) else if ltb j (n + z) then some 0 else none in
        r)
get_elem?-upto i zero z j = rw (get_elem?-replicate z j) (ground arith)
get_elem?-upto i (suc n) z zero =
    let e : i + 0 ≡ i = omega arith in
    let inside : ltb 0 (suc n) ≡ true = ground arith in rw (e, inside) refl
get_elem?-upto i (suc n) z (suc j) =
    let same : ltb (suc j) (suc n) ≡ ltb j n = ground arith in
    let same' : ltb (suc j) (suc n + z) ≡ ltb j (n + z) = ground arith in
    let e : i + 1 + j ≡ i + suc j = omega arith in
    rw (get_elem?-upto (i + 1) n z j, same, same', e) refl

linked_lem :
    (names : List Bytes) (j line : ℕ)
    → length names ≤ max_entries
    → linked j line (upto 0 (length names) ++ replicate (max_entries - length names) 0)
      ≡ node_at (length names) (j + line)
unfolding linked
linked_lem names j line h =
    let whole : length names + (max_entries - length names) ≡ max_entries = omega (arith, h) in
    let z : 0 + (j + line) ≡ j + line = omega arith in
    rw (linked, get_elem?-upto 0 (length names) (max_entries - length names) (j + line), whole, z)
      (elim (Bool-cases (ltb (j + line) (length names))) [
        | inl e ↦ rw e refl
        | inr e ↦ elim (Bool-cases (ltb (j + line) max_entries)) [
          | inl e' ↦ rw (e, e') refl
          | inr e' ↦ rw (e, e') refl
        ]
      ])

-- `set` looks a name up as `leads_to` says.
pub target-leads_to :
    (names : List Bytes) (s : Bytes) (g : Compiler)
    → IsNumbered names g
    → length names ≤ max_entries
    → target s g ≡ leads_to names g.line s
unfolding target leads_to
target-leads_to names [] g n h = refl
target-leads_to names (b ∷ k) g (t, v) h = elim (Bool-cases (b == b'_')) [
  | inl e ↦ rw (target, leads_to, e) refl
  | inr e ↦ elim (Bool-cases (b == b'/')) [
    | inl e' ↦ rw (target, leads_to, e, e') refl
    | inr e' ↦ elim (Option-cases (place (b ∷ k) names)) [
      | inl p ↦
          let step = find-indexed (b ∷ k) 0 names in
          let f = rw p at step in rw (target, leads_to, e, e', t, f, p) refl
      | inr (j, p) ↦
          let step = find-indexed (b ∷ k) 0 names in
          let f = rw p at step in
          let z : 0 + j ≡ j = omega arith in
          rw (target, leads_to, e, e', t, f, p, v, z) (linked_lem names j g.line h)
    ]
  ]
]
