-- ===== src/Menu/Nav/Returns.antt =====
-- `kee_nav_back` of src/gtk/nav.c keeps the invariant, whatever exit it takes.
use gtk4_kee.Prelude.{
  ℕ, suc, ◌-◌, ◌<◌, ◌≡◌, refl, sym, ap, ◌∙◌, subst, Bool, true, false, ◌||◌, List, [], ◌∷◌, Option,
  none, some, ◌⊎◌, inl, inr, ltb, leb, ◌==◌, Bool-cases, length, set, get_elem?, length-set, arith,
  ==_iff,
}
use gtk4_kee.Prelude.Result.{Result, ok}
use gtk4_kee.Menu.Graph.{
  Node, Menu, read, read_lem, root, default, inactive, Used, no_exit, bad_exit, went, use_exit,
  get_exit, get_now, jump,
}
use gtk4_kee.Menu.Nav.{Nav, leave, show, back_from, nav_back, exit_back}
use gtk4_kee.Menu.Nav.Good.{IsGood, Built, pushed, onto, get_elem?-onto_next, in_table, AllBelow}
use gtk4_kee.Menu.Nav.Back.{get_elem?-set_self, set-set_undo, top_widget, leave_lem}

-- An exit that leads to a node of a table of the given size, or back
abbrev Reaches : ℕ → Used → Type 0
Reaches size no_exit = Unit
Reaches size bad_exit = Unit
Reaches size (went r) = (((r == 0) || (r == default)) ≡ true) ⊎ (r < size)

used_lem :
    (n_exits size : ℕ) (m : Menu) (o : Node) (x : ℕ)
    → read m.nodes m.now ≡ ok o
    → read o.dst exit_back ≡ ok x
    → (x < size) ⊎ ((x ≡ root) ⊎ (x ≡ default))
    → (used : Used) × (m' : Menu) × (use_exit n_exits exit_back m ≡ ok (used, m'))
      × Reaches size used
unfolding use_exit get_exit get_now jump
used_lem n_exits size m o x eo ex to = elim (Bool-cases (x == inactive)) [
  | inl a ↦ (no_exit, m, rw (eo, ex, a), tt)
  | inr a ↦ elim (Bool-cases (x == root)) [
    | inl b ↦ (went 0, record m { now = 0 }, rw (eo, ex, a, b), inl refl)
    | inr b ↦ elim (Bool-cases (leb n_exits exit_back)) [
      | inl c ↦ (bad_exit, m, rw (eo, ex, a, b, c), tt)
      | inr c ↦ (went x, record m { now = x }, rw (eo, ex, a, b, c), reaches to b)
    ]
  ]
]
  where
    reaches :
        (x < size) ⊎ ((x ≡ root) ⊎ (x ≡ default))
        → (x == root) ≡ false
        → (((x == 0) || (x == default)) ≡ true) ⊎ (x < size)
    reaches (inl lt) b = inr lt
    reaches (inr (inl e)) b = absurd (let e' = (==_iff x root).1 e in cc)
    reaches (inr (inr e)) b = inl (rw e)

module _ {ℓ} {Widget : Type ℓ} where
  -- A call that returns, and leaves the invariant
  abbrev pub Returns : Result (Option Widget × Nav Widget) → Type ℓ
  Returns r = (w : Option Widget) × (nav : Nav Widget) × (r ≡ ok (w, nav)) × IsGood nav

  -- The invariant says nothing about the menu.
  moved : {nav : Nav Widget} (m : Menu) → IsGood nav → IsGood (record nav { menu = m })
  moved m g = record {
    nodes = g.nodes;
    junk = g.junk;
    built = g.built;
    array = g.array;
    top = g.top;
    size = g.size;
    fits = g.fits;
    named = g.named;
  }

  -- Leaving the top node of the stack
  pop :
      {i : ℕ} {stk : List ℕ} {ws : List (Option Widget)}
      → Built (i ∷ stk) ws
      → (v : Widget) × (get_elem? ws i ≡ some (some v)) × Built stk (set ws i none)
  pop {stk = stk} (pushed {ws = ws} {i = i} w b h e) = (
    w,
    rw (e, get_elem?-set_self ws i (some w) h),
    subst (Built stk) (sym (ap (λ x. set x i none) e ∙ set-set_undo ws i (some w) none h)) b,
  )

  leave-Returns :
      (nav : Nav Widget) (g : IsGood nav) (nodes : List ℕ) → g.nodes ≡ nodes → Returns (leave nav)
  unfolding leave
  leave-Returns nav g [] e = (none, nav, rw one_left, g)
    where
      one_left : ltb nav.crsr 2 ≡ true
      one_left = ground (arith, g.top, ap length e)
  leave-Returns nav g (i ∷ []) e = (none, nav, rw one_left, g)
    where
      one_left : ltb nav.crsr 2 ≡ true
      one_left = ground (arith, g.top, ap length e)
  leave-Returns nav g (i ∷ j ∷ below) e =
      let (v, ev, rest) = pop (subst (λ nodes. Built nodes nav.widgets) e g.built) in
      let (w, ew) = top_widget rest in
      (
        some w,
        record nav {
          menu = record nav.menu { now = j };
          widgets = set nav.widgets i none;
          crsr = nav.crsr - 1;
        },
        leave_lem nav i j v w two_left (read_lem nav.stack (nav.crsr - 1) top_of)
            (read_lem nav.widgets i ev) (read_lem nav.stack (nav.crsr - 1 - 1) under_top)
            (read_lem (set nav.widgets i none) j ew)
            (subst (AllBelow (length nav.labels)) e g.named).1.0,
        record {
          nodes = j ∷ below;
          junk = i ∷ g.junk;
          built = rest;
          array = array;
          top = omega (arith, height);
          size = g.size;
          fits = omega (arith, g.fits, length-set nav.widgets i none);
          named = (subst (AllBelow (length nav.labels)) e g.named).1;
        },
      )
    where
      height : nav.crsr ≡ suc (suc (length below))
      height = g.top ∙ ap length e

      two_left : ltb nav.crsr 2 ≡ false
      two_left = ground (arith, height)

      array : nav.stack ≡ onto (i ∷ j ∷ below) g.junk
      array = g.array ∙ ap (λ nodes. onto nodes g.junk) e

      top_of : get_elem? nav.stack (nav.crsr - 1) ≡ some i
      top_of =
          let place : length (j ∷ below) ≡ nav.crsr - 1 = omega (arith, height) in
          rw array (
            subst (λ n. get_elem? (onto (j ∷ below) (i ∷ g.junk)) n ≡ some i) place
              (get_elem?-onto_next (j ∷ below) i g.junk))

      under_top : get_elem? nav.stack (nav.crsr - 1 - 1) ≡ some j
      under_top =
          let place : length below ≡ nav.crsr - 1 - 1 = omega (arith, height) in
          rw array (
            subst (λ n. get_elem? (onto below (j ∷ i ∷ g.junk)) n ≡ some j) place
              (get_elem?-onto_next below j (i ∷ g.junk)))

  show-Returns :
      (nav : Nav Widget) → IsGood nav → (r : ℕ) → r < length nav.widgets → Returns (show r nav)
  unfolding show
  show-Returns nav g r lt = elim (in_table nav.widgets r lt) [
    | inl (w, e) ↦ (
      some w,
      record nav { menu = jump r nav.menu },
      rw (read_lem nav.widgets r e),
      moved (jump r nav.menu) g,
    )
    | inr e ↦ (none, nav, rw (read_lem nav.widgets r e), g)
  ]

  back_from-Returns :
      (force : Bool) (used : Used) (nav : Nav Widget)
      → IsGood nav
      → Reaches (length nav.widgets) used
      → Returns (back_from force used nav)
  unfolding back_from
  back_from-Returns true no_exit nav g to = leave-Returns nav g g.nodes refl
  back_from-Returns false no_exit nav g to = (none, nav, refl, g)
  back_from-Returns true bad_exit nav g to = leave-Returns nav g g.nodes refl
  back_from-Returns false bad_exit nav g to = (none, nav, refl, g)
  back_from-Returns force (went r) nav g (inl back) = rw back (leave-Returns nav g g.nodes refl)
  back_from-Returns force (went r) nav g (inr lt) = elim (Bool-cases ((r == 0) || (r == default))) [
    | inl back ↦ rw back (leave-Returns nav g g.nodes refl)
    | inr there ↦ rw there (show-Returns nav g r lt)
  ]

  -- Where the invariant holds, and the current node of the menu is in its table with a first exit
  -- that leads to a node of the table of widgets, to the root or to the default, `kee_nav_back`
  -- reads and writes nothing out of bounds, and the invariant holds after it.
  pub nav_back-IsGood :
      (n_exits : ℕ) (force : Bool) (nav : Nav Widget) (o : Node) (x : ℕ)
      → IsGood nav
      → read nav.menu.nodes nav.menu.now ≡ ok o
      → read o.dst exit_back ≡ ok x
      → (x < length nav.widgets) ⊎ ((x ≡ root) ⊎ (x ≡ default))
      → (w : Option Widget) × (nav' : Nav Widget) × (nav_back n_exits force nav ≡ ok (w, nav'))
        × IsGood nav'
  unfolding nav_back
  nav_back-IsGood n_exits force nav o x g eo ex to =
      let (used, m, e, reached) = used_lem n_exits (length nav.widgets) nav.menu o x eo ex to in
      elim (Bool-cases (nav.crsr == 0)) [
        | inl empty ↦ (none, nav, rw empty, g)
        | inr some_left ↦
            rw (some_left, e)
              (back_from-Returns force used (record nav { menu = m }) (moved m g) reached)
      ]
