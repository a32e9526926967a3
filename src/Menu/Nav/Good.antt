-- ===== src/Menu/Nav/Good.antt =====
-- The invariant of src/gtk/nav.c: the stack holds the nodes that have a widget, each once,
-- and each of them has a name.
use gtk4_kee.Prelude.{
  ℕ, suc, zero, ◌+◌, ◌≤◌, ◌<◌, ◌≡◌, refl, ap, ◌∙◌, List, [], ◌∷◌, Option, none, some, length, set,
  get_elem?, length-set, arith, ltb, Bool-cases, ◌⊎◌, inr, inl, subst,
}
use gtk4_kee.Prelude.Result.{ok, err, fault}
use gtk4_kee.Menu.Graph.{jump, read_lem, read-outside}
use gtk4_kee.Menu.Nav.{Nav, stack_size, nav_set, write}

-- The stack as an array: its nodes, the top one first, and what lies behind the cursor
abbrev pub onto {ℓ} : {A : Type ℓ} → List A → List A → List A
onto [] junk = junk
onto (x ∷ xs) junk = onto xs (x ∷ junk)

module _ {ℓ} {A : Type ℓ} where
  pub length-onto : (xs junk : List A) → length (onto xs junk) ≡ length xs + length junk
  length-onto [] junk = omega arith
  length-onto (x ∷ xs) junk = omega (arith, length-onto xs (x ∷ junk))

  -- The element above `k` others
  pub get_elem?-onto :
      (xs : List A) (k : ℕ) (junk : List A)
      → get_elem? (onto xs junk) (length xs + k) ≡ get_elem? junk k
  get_elem?-onto [] k junk = ap (get_elem? junk) (omega arith)
  get_elem?-onto (x ∷ xs) k junk =
      subst (λ n. get_elem? (onto xs (x ∷ junk)) n ≡ get_elem? junk k) (omega arith)
        (get_elem?-onto xs (suc k) (x ∷ junk))

  pub set-onto :
      (xs : List A) (k : ℕ) (junk : List A) (v : A)
      → set (onto xs junk) (length xs + k) v ≡ onto xs (set junk k v)
  set-onto [] k junk v = ap (λ n. set junk n v) (omega arith)
  set-onto (x ∷ xs) k junk v =
      subst (λ n. set (onto xs (x ∷ junk)) n v ≡ onto xs (x ∷ set junk k v)) (omega arith)
        (set-onto xs (suc k) (x ∷ junk) v)

  pub get_elem?-onto_next :
      (xs : List A) (j : A) (rest : List A) → get_elem? (onto xs (j ∷ rest)) (length xs) ≡ some j
  get_elem?-onto_next xs j rest =
      let at_zero : length xs + 0 ≡ length xs = omega arith in
      subst (λ n. get_elem? (onto xs (j ∷ rest)) n ≡ some j) at_zero
        (get_elem?-onto xs 0 (j ∷ rest))

  pub set-onto_next :
      (xs : List A) (j : A) (rest : List A) (v : A)
      → set (onto xs (j ∷ rest)) (length xs) v ≡ onto (v ∷ xs) rest
  set-onto_next xs j rest v =
      let at_zero : length xs + 0 ≡ length xs = omega arith in
      subst (λ n. set (onto xs (j ∷ rest)) n v ≡ onto (v ∷ xs) rest) at_zero
        (set-onto xs 0 (j ∷ rest) v)

abbrev pub AllBelow : ℕ → List ℕ → Type 0
AllBelow n [] = Unit
AllBelow n (i ∷ is) = (i < n) × AllBelow n is

pub element_at :
    {A : Type 0} (xs : List A) (i : ℕ) → i < length xs → (x : A) × (get_elem? xs i ≡ some x)
element_at [] i h = absurd (omega arith)
element_at (x ∷ xs) zero h = (x, refl)
element_at (x ∷ xs) (suc i) h = element_at xs i (omega arith)

module _ {ℓ} {Widget : Type ℓ} where
  -- How many nodes have a widget
  abbrev pub shown : List (Option Widget) → ℕ
  shown [] = 0
  shown (none ∷ ws) = shown ws
  shown (some w ∷ ws) = suc (shown ws)

  pub shown-≤ : (ws : List (Option Widget)) → shown ws ≤ length ws
  shown-≤ [] = omega arith
  shown-≤ (none ∷ ws) = omega (arith, shown-≤ ws)
  shown-≤ (some w ∷ ws) = omega (arith, shown-≤ ws)

  pub shown-set :
      (ws : List (Option Widget)) (i : ℕ) (w : Widget)
      → get_elem? ws i ≡ some none
      → shown (set ws i (some w)) ≡ suc (shown ws)
  shown-set [] i w h = absurd cc
  shown-set (none ∷ ws) zero w h = refl
  shown-set (some _ ∷ ws) zero w h = absurd cc
  shown-set (none ∷ ws) (suc i) w h = shown-set ws i w h
  shown-set (some _ ∷ ws) (suc i) w h = ap suc (shown-set ws i w h)

  -- A table with a node that has no widget has fewer widgets than nodes.
  pub shown-< :
      (ws : List (Option Widget)) (i : ℕ) → get_elem? ws i ≡ some none → shown ws < length ws
  shown-< [] i h = absurd cc
  shown-< (none ∷ ws) zero h = omega (arith, shown-≤ ws)
  shown-< (some _ ∷ ws) zero h = absurd cc
  shown-< (none ∷ ws) (suc i) h = omega (arith, shown-< ws i h)
  shown-< (some _ ∷ ws) (suc i) h = omega (arith, shown-< ws i h)

  -- The widgets that are left by `kee_nav_set` for the nodes of a stack, the top one first
  pub data Built : List ℕ → List (Option Widget) → Type ℓ where
    nothing : {ws : List (Option Widget)} → shown ws ≡ 0 → Built [] ws
    pushed :
        {stk : List ℕ} {ws ws' : List (Option Widget)} {i : ℕ} (w : Widget)
        → Built stk ws
        → get_elem? ws i ≡ some none
        → ws' ≡ set ws i (some w)
        → Built (i ∷ stk) ws'

  pub Built-shown :
      {stk : List ℕ} {ws : List (Option Widget)} → Built stk ws → shown ws ≡ length stk
  Built-shown (nothing e) = e
  Built-shown {ws = ws'} (pushed {ws = ws} {i = i} w b h e) =
      ap shown e ∙ shown-set ws i w h ∙ ap suc (Built-shown b)

  -- The invariant
  pub record IsGood (nav : Nav Widget) : Type ℓ where
    pub nodes : List ℕ
    pub junk : List ℕ
    pub built : Built nodes nav.widgets
    pub array : nav.stack ≡ onto nodes junk
    pub top : nav.crsr ≡ length nodes
    pub size : length nav.stack ≡ stack_size
    pub fits : length nav.widgets ≤ stack_size
    pub named : AllBelow (length nav.labels) nodes

  pub in_table :
      (ws : List (Option Widget)) (i : ℕ)
      → i < length ws
      → ((w : Widget) × (get_elem? ws i ≡ some (some w))) ⊎ (get_elem? ws i ≡ some none)
  in_table [] i h = absurd (omega arith)
  in_table (none ∷ ws) zero h = inr refl
  in_table (some w ∷ ws) zero h = inl (w, refl)
  in_table (x ∷ ws) (suc i) h = in_table ws i (omega arith)

  -- There is room on the stack for a node of the table without a widget.
  pub room :
      (nav : Nav Widget) (g : IsGood nav) (i : ℕ)
      → get_elem? nav.widgets i ≡ some none
      → (j : ℕ) × (rest : List ℕ) × (g.junk ≡ j ∷ rest)
  room nav g i e = go g.junk refl
    where
      go : (junk : List ℕ) → g.junk ≡ junk → (j : ℕ) × (rest : List ℕ) × (junk ≡ j ∷ rest)
      go [] ej = absurd (
          omega (
            arith,
            shown-< nav.widgets i e,
            Built-shown g.built,
            g.size,
            g.fits,
            ap length g.array,
            length-onto g.nodes g.junk,
            ap length ej,
          ))
      go (j ∷ rest) ej = (j, rest, refl)

  -- The cell at the cursor
  pub cell :
      (nav : Nav Widget) (g : IsGood nav) {j : ℕ} {rest : List ℕ}
      → g.junk ≡ j ∷ rest
      → get_elem? nav.stack nav.crsr ≡ some j
  cell nav g ej = rw (g.array, g.top, ej) (get_elem?-onto_next g.nodes _ _)

  pub cell_set :
      (nav : Nav Widget) (g : IsGood nav) {j : ℕ} {rest : List ℕ} (v : ℕ)
      → g.junk ≡ j ∷ rest
      → set nav.stack nav.crsr v ≡ onto (v ∷ g.nodes) rest
  cell_set nav g v ej = rw (g.array, g.top, ej) (set-onto_next g.nodes _ _ v)

  -- What `kee_nav_set` leaves for a node without a widget
  abbrev pub after_set : Widget → ℕ → Nav Widget → Nav Widget
  after_set widget menu_id nav = record nav {
    menu = record nav.menu { now = menu_id };
    widgets = set nav.widgets menu_id (some widget);
    stack = set nav.stack nav.crsr menu_id;
    crsr = nav.crsr + 1;
  }

  pub nav_set_lem :
      (widget : Widget) (menu_id : ℕ) (nav : Nav Widget) {j : ℕ} {rest : List ℕ} (g : IsGood nav)
      → get_elem? nav.widgets menu_id ≡ some none
      → g.junk ≡ j ∷ rest
      → menu_id < length nav.labels
      → nav_set widget menu_id nav ≡ ok (after_set widget menu_id nav)
  unfolding nav_set write jump
  nav_set_lem widget menu_id nav g e ej named =
      let (label, el) = element_at nav.labels menu_id named in
      rw (
        read_lem nav.widgets menu_id e,
        read_lem nav.stack nav.crsr (cell nav g ej),
        read_lem nav.labels menu_id el,
      )

  -- Where the invariant holds, `kee_nav_set` of a place of the table of widgets does not write outside
  -- of the stack: it refuses a node that has a widget; where the place has no name, which is read all
  -- the same, it reads outside of the names; and otherwise the invariant holds again, with the node on
  -- top of the stack and as the current node of the menu.
  pub nav_set-IsGood :
      (widget : Widget) (menu_id : ℕ) (nav : Nav Widget)
      → IsGood nav
      → menu_id < length nav.widgets
      → ((nav_set widget menu_id nav ≡ err 1)
          × ((w : Widget) × (get_elem? nav.widgets menu_id ≡ some (some w))))
        ⊎ (((length nav.labels ≤ menu_id) × (nav_set widget menu_id nav ≡ fault))
            ⊎ ((nav' : Nav Widget) × (nav_set widget menu_id nav ≡ ok nav')
                × IsGood nav'
                × (nav'.crsr ≡ nav.crsr + 1)
                × (nav'.menu.now ≡ menu_id)
                × (get_elem? nav'.stack nav.crsr ≡ some menu_id)))
  unfolding nav_set write
  nav_set-IsGood widget menu_id nav g lt = elim (in_table nav.widgets menu_id lt) [
    | inl (w, e) ↦ inl (rw (read_lem nav.widgets menu_id e), (w, e))
    | inr e ↦ elim (Bool-cases (ltb menu_id (length nav.labels))) [
      | inl b ↦ inr (inr (with_room e (ground arith) (room nav g menu_id e)))
      | inr b ↦ inr (inl (ground arith, nameless e (ground arith) (room nav g menu_id e)))
    ]
  ]
    where
      nameless :
          get_elem? nav.widgets menu_id ≡ some none
          → length nav.labels ≤ menu_id
          → (j : ℕ) × (rest : List ℕ) × (g.junk ≡ j ∷ rest)
          → nav_set widget menu_id nav ≡ fault
      nameless e out (j, rest, ej) = rw (
        read_lem nav.widgets menu_id e,
        read_lem nav.stack nav.crsr (cell nav g ej),
        read-outside nav.labels menu_id out,
      )

      with_room :
          get_elem? nav.widgets menu_id ≡ some none
          → menu_id < length nav.labels
          → (j : ℕ) × (rest : List ℕ) × (g.junk ≡ j ∷ rest)
          → (nav' : Nav Widget) × (nav_set widget menu_id nav ≡ ok nav')
            × IsGood nav'
            × (nav'.crsr ≡ nav.crsr + 1)
            × (nav'.menu.now ≡ menu_id)
            × (get_elem? nav'.stack nav.crsr ≡ some menu_id)
      with_room e named (j, rest, ej) = (
        after_set widget menu_id nav,
        nav_set_lem widget menu_id nav g e ej named,
        record {
          nodes = menu_id ∷ g.nodes;
          junk = rest;
          built = pushed widget g.built e refl;
          array = cell_set nav g menu_id ej;
          top = omega (arith, g.top);
          size = length-set nav.stack nav.crsr menu_id ∙ g.size;
          fits = omega (arith, length-set nav.widgets menu_id (some widget), g.fits);
          named = (named, g.named);
        },
        refl,
        refl,
        rw (cell_set nav g menu_id ej, g.top) (get_elem?-onto_next g.nodes menu_id rest),
      )
