-- ===== src/Menu/Nav/Back.antt =====
-- `kee_nav_back` of src/gtk/nav.c after `kee_nav_set`.
use gtk4_kee.Prelude.{
  ℕ, suc, zero, ◌==◌, refl, ◌≡◌, List, [], ◌∷◌, Option, none, some, set, get_elem?, ap, ◌⊎◌, inl,
  inr, ◌<◌, Bool, true, false, leb, arith, ◌-◌, ◌+◌, ltb, ◌∙◌, length, subst, ◌≤◌,
}
use gtk4_kee.Menu.Nav.{
  Nav, nav_set, nav_back, nav_unset, nav_unset_any, back_from, exit_back, leave, show, ok, Result,
  nav_get,
}
use gtk4_kee.Menu.Nav.Good.{
  IsGood, pushed, Built, room, nav_set_lem, onto, get_elem?-onto_next, after_set, cell_set,
  element_at, AllBelow,
}
use gtk4_kee.Prelude.Result.{fault, ◌>>=◌}
use gtk4_kee.Menu.Graph.{
  Node, root, default, inactive, read, get_exit, get_now, use_exit, jump, read_lem, read-outside,
}

module _ {ℓ} {Widget : Type ℓ} where
  pub get_elem?-set_self :
      (ws : List (Option Widget)) (i : ℕ) (v : Option Widget) {old : Option Widget}
      → get_elem? ws i ≡ some old
      → get_elem? (set ws i v) i ≡ some v
  get_elem?-set_self [] i v h = absurd cc
  get_elem?-set_self (x ∷ ws) zero v h = refl
  get_elem?-set_self (x ∷ ws) (suc i) v h = get_elem?-set_self ws i v h

  pub set-set_undo :
      (ws : List (Option Widget)) (i : ℕ) (v old : Option Widget)
      → get_elem? ws i ≡ some old
      → set (set ws i v) i old ≡ ws
  set-set_undo [] i v old h = refl
  set-set_undo (x ∷ ws) zero v old h = ap (λ y. y ∷ ws) cc
  set-set_undo (x ∷ ws) (suc i) v old h = ap (λ r. x ∷ r) (set-set_undo ws i v old h)

  -- The node on top of the stack has a widget.
  pub top_widget :
      {j : ℕ} {stk : List ℕ} {ws : List (Option Widget)}
      → Built (j ∷ stk) ws
      → (w : Widget) × (get_elem? ws j ≡ some (some w))
  top_widget (pushed {ws = ws} {i = i} w b h e) = (w, rw (e, get_elem?-set_self ws i (some w) h))

-- The exits that lead back: the root and the default one, and with `force` none.
abbrev pub IsBack : ℕ → Bool → ℕ → Type 0
IsBack n_exits force x =
    (x ≡ root) ⊎ (((x ≡ default) × (0 < n_exits)) ⊎ ((x ≡ inactive) × (force ≡ true)))

exit_ok : {n_exits : ℕ} → 0 < n_exits → leb n_exits exit_back ≡ false
exit_ok lt = ground arith

not_empty : (n : ℕ) → (n + 1 == 0) ≡ false
not_empty n = ground arith

module _ {ℓ} {Widget : Type ℓ} where
  back_leaves :
      (n_exits : ℕ) (force : Bool) (nav : Nav Widget) (o : Node) (x : ℕ)
      → read nav.menu.nodes nav.menu.now ≡ ok o
      → read o.dst exit_back ≡ ok x
      → IsBack n_exits force x
      → (nav.crsr == 0) ≡ false
      → (k : ℕ) × (nav_back n_exits force nav
          ≡ leave (record nav { menu = record nav.menu { now = k } }))
  unfolding nav_back back_from use_exit get_exit get_now jump
  back_leaves n_exits force nav o x eo ex (inl e) some_left = (0, rw (some_left, eo, ex, e))
  back_leaves n_exits force nav o x eo ex (inr (inl (e, lt))) some_left =
      (default, rw (some_left, eo, ex, e, exit_ok lt))
  back_leaves n_exits force nav o x eo ex (inr (inr (e, f))) some_left =
      (nav.menu.now, rw (some_left, eo, ex, e, f))

  -- Leaving the node `i` for the node `j` below it
  pub leave_lem :
      (nav : Nav Widget) (i j : ℕ) (v w : Widget)
      → ltb nav.crsr 2 ≡ false
      → read nav.stack (nav.crsr - 1) ≡ ok i
      → read nav.widgets i ≡ ok (some v)
      → read nav.stack (nav.crsr - 1 - 1) ≡ ok j
      → read (set nav.widgets i none) j ≡ ok (some w)
      → j < length nav.labels
      → leave nav
        ≡ ok (
          some w,
          record nav {
            menu = record nav.menu { now = j };
            widgets = set nav.widgets i none;
            crsr = nav.crsr - 1;
          },
        )
  unfolding leave nav_unset_any nav_unset show jump
  leave_lem nav i j v w two ei ev ej ew named =
      let (label, el) = element_at nav.labels j named in
      rw (two, ei, ev, ej, read_lem nav.labels j el, ew)

  -- Where the invariant holds and a node is on the stack, `kee_nav_set` of a node with a name
  -- and without a widget, and `kee_nav_back` from its first exit, where that is the root, the default exit, or under
  -- `force` none, show the widget of the node that was on top of the stack. The cursor and the
  -- widgets are as they were, and that node is the current one.
  pub nav_set-back :
      (n_exits : ℕ) (force : Bool) (widget : Widget) (menu_id : ℕ) (nav : Nav Widget) (o : Node)
      (x j : ℕ) (below : List ℕ)
      → (g : IsGood nav) → g.nodes ≡ j ∷ below
      → get_elem? nav.widgets menu_id ≡ some none
      → menu_id < length nav.labels
      → get_elem? nav.menu.nodes menu_id ≡ some o
      → get_elem? o.dst exit_back ≡ some x
      → IsBack n_exits force x
      → (w : Widget) × (get_elem? nav.widgets j ≡ some (some w))
        × (get_elem? nav.stack (nav.crsr - 1) ≡ some j)
        × ((do nav ← nav_set widget menu_id nav; nav_back n_exits force nav)
            ≡ ok (
              some w,
              record nav {
                menu = record nav.menu { now = j };
                stack = set nav.stack nav.crsr menu_id;
              },
            ))
  nav_set-back n_exits force widget menu_id nav o x j below g ej e named eo ex b =
      let (k, rest, ek) = room nav g menu_id e in
      let (w, ew) = top_widget (subst (λ nodes. Built nodes nav.widgets) ej g.built) in
      let a = after_set widget menu_id nav in
      let undo : set a.widgets menu_id none ≡ nav.widgets =
        set-set_undo nav.widgets menu_id (some widget) none e in
      let array : a.stack ≡ onto (menu_id ∷ g.nodes) rest = cell_set nav g menu_id ek in
      let (now, left) =
        back_leaves n_exits force a o x (read_lem nav.menu.nodes menu_id eo)
          (read_lem o.dst exit_back ex) b (not_empty nav.crsr) in
      (
        w,
        ew,
        below_top g.junk g.array,
        (rw (nav_set_lem widget menu_id nav g e ek named, left)
            (leave_lem (record a { menu = record a.menu { now = now } }) menu_id j widget w two_left
                (read_lem a.stack (a.crsr - 1) (
                  rw array (
                    subst (λ n. get_elem? (onto g.nodes (menu_id ∷ rest)) n ≡ some menu_id) at_top
                      (get_elem?-onto_next g.nodes menu_id rest))))
                (read_lem a.widgets menu_id
                  (get_elem?-set_self nav.widgets menu_id (some widget) e))
                (read_lem a.stack (a.crsr - 1 - 1) (
                  rw (array, ej)
                    (subst (λ n. get_elem? (onto below (j ∷ menu_id ∷ rest)) n ≡ some j) under_top
                      (get_elem?-onto_next below j (menu_id ∷ rest)))))
                (read_lem (set a.widgets menu_id none) j (rw undo ew))
                (subst (AllBelow (length nav.labels)) ej g.named).0
              ∙ ap
                  (λ (ws, crsr).
                    let r : Result (Option Widget × Nav Widget) = ok (
                      some w,
                      record a { menu = record nav.menu { now = j }; widgets = ws; crsr = crsr },
                    ) in
                    r)
                  (λ i. (undo i, popped i)))),
      )
    where
      height : nav.crsr ≡ suc (length below)
      height = g.top ∙ ap length ej

      at_top : length g.nodes ≡ nav.crsr + 1 - 1
      at_top = omega (arith, g.top)

      under_top : length below ≡ nav.crsr + 1 - 1 - 1
      under_top = omega (arith, height)

      popped : nav.crsr + 1 - 1 ≡ nav.crsr
      popped = omega arith

      two_left : ltb (nav.crsr + 1) 2 ≡ false
      two_left = ground (arith, height)

      below_top :
          (junk : List ℕ)
          → nav.stack ≡ onto g.nodes junk
          → get_elem? nav.stack (nav.crsr - 1) ≡ some j
      below_top junk array =
          let place : length below ≡ nav.crsr - 1 = omega (arith, height) in
          rw (array, ej)
            (subst (λ n. get_elem? (onto below (j ∷ junk)) n ≡ some j) place
              (get_elem?-onto_next below j junk))

  -- `kee_nav_back` at the last node of the stack, from a default exit, returns no widget and leaves
  -- the menu at the number of that exit, which is outside of the table: the next `kee_nav_get` or
  -- `kee_nav_back` reads out of bounds.
  pub nav_back-strands :
      (n_exits : ℕ) (force : Bool) (nav : Nav Widget) (o : Node)
      → nav.crsr ≡ 1
      → length nav.menu.nodes ≤ default
      → 0 < n_exits
      → read nav.menu.nodes nav.menu.now ≡ ok o
      → get_elem? o.dst exit_back ≡ some default
      → (nav' : Nav Widget) × (nav_back n_exits force nav ≡ ok (none, nav'))
        × (nav_get nav' ≡ fault)
        × (nav_back n_exits force nav' ≡ fault)
  unfolding nav_back back_from use_exit get_exit get_now jump leave nav_get
  nav_back-strands n_exits force nav o top small lt eo ex = (
    record nav { menu = record nav.menu { now = default } },
    rw (top, eo, read_lem o.dst exit_back ex, exit_ok lt),
    rw outside,
    rw (top, outside),
  )
    where
      outside : read nav.menu.nodes default ≡ fault
      outside = read-outside nav.menu.nodes default small
