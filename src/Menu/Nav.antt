-- ===== src/Menu/Nav.antt =====
-- src/gtk/nav.c: which widget is shown, over the menu graph. The text that is made for `debug_log`
-- is left out, but for the read of the name in it: names have at most 32 bytes, for which `s` has room.
pub mod Good
pub mod Back
pub mod Returns
use gtk4_kee.Prelude.{
  ℕ, ◌+◌, ◌-◌, Bool, ◌||◌, List, Option, none, some, if◌then◌else◌, ltb, ◌==◌, set, true, false,
  not,
}
use gtk4_kee.Prelude.Bytes.{Bytes}
use gtk4_kee.Prelude.Result.{Result, ok, err, fault, ◌>>=◌, ◌>>◌, fail_if}
use gtk4_kee.Menu.Graph.{
  Node, Menu, default, read, get_now, jump, Used, no_exit, bad_exit, went, use_exit,
}

abbrev pub stack_size : ℕ
stack_size = 8

abbrev pub exit_back : ℕ
exit_back = 0

-- The variables of nav.c, with the menu graph that they stand on and, as `labels`, the array
-- `beamenu_dst_r` of the names of the nodes. A widget that is null is `none`.
pub record Nav {ℓ} (Widget : Type ℓ) : Type ℓ where
  pub menu : Menu
  pub widgets : List (Option Widget)
  pub stack : List ℕ
  pub crsr : ℕ
  pub labels : List Bytes

-- A write to an array; outside of it C promises nothing.
unfoldable pub write {κ} : {A : Type κ} → List A → ℕ → A → Result (List A)
write xs i v = do _ ← read xs i; ok (set xs i v)

-- A call whose code is not used: where it fails, the state is the one from before.
abbrev pub ignore {κ} : {A : Type κ} → A → Result A → Result A
ignore a (ok a') = ok a'
ignore a (err _) = ok a
ignore a fault = fault

-- Whether a pointer is null
abbrev pub is_null {κ} : {A : Type κ} → Option A → Bool
is_null none = true
is_null (some a) = false

module _ {ℓ} {Widget : Type ℓ} where
  -- `kee_nav_set`
  unfoldable pub nav_set : Widget → ℕ → Nav Widget → Result (Nav Widget)
  unfolding write jump
  nav_set widget menu_id nav = do
    old ← read nav.widgets menu_id
    fail_if (not (is_null old)) 1
    stack ← write nav.stack nav.crsr menu_id
    _ ← read nav.labels menu_id
    ok (record nav {
      menu = jump menu_id nav.menu;
      widgets = set nav.widgets menu_id (some widget);
      stack = stack;
      crsr = nav.crsr + 1;
    })

  -- `kee_nav_unset`
  unfoldable pub nav_unset : ℕ → Nav Widget → Result (Nav Widget)
  nav_unset menu_id nav = do
    old ← read nav.widgets menu_id
    fail_if (is_null old) 1
    ok (record nav { widgets = set nav.widgets menu_id none })

  -- `kee_nav_unset`, its code unused
  unfoldable pub nav_unset_any : ℕ → Nav Widget → Result (Nav Widget)
  unfolding nav_unset
  nav_unset_any menu_id nav = ignore nav (nav_unset menu_id nav)

  -- The end of `kee_nav_back`: the widget of the node, which becomes the current one.
  unfoldable pub show : ℕ → Nav Widget → Result (Option Widget × Nav Widget)
  unfolding jump
  show r nav = do
    widget ← read nav.widgets r
    ok (elim widget [
      | none ↦ (none, nav)
      | some w ↦ (some w, record nav { menu = jump r nav.menu })
    ])

  -- `kee_nav_back` where the exit leads to no node of its own: the node on the stack is left.
  unfoldable pub leave : Nav Widget → Result (Option Widget × Nav Widget)
  unfolding nav_unset_any show
  leave nav = if ltb nav.crsr 2 then ok (none, nav) else (do
    r ← read nav.stack (nav.crsr - 1)
    nav ← nav_unset_any r nav
    r' ← read nav.stack (nav.crsr - 1 - 1)
    _ ← read nav.labels r'
    show r' (record nav { crsr = nav.crsr - 1 }))

  -- `kee_nav_back`, from what `beamenu_use_exit` returned on
  unfoldable pub back_from : Bool → Used → Nav Widget → Result (Option Widget × Nav Widget)
  unfolding leave
  back_from force no_exit nav = if force then leave nav else ok (none, nav)
  back_from force bad_exit nav = if force then leave nav else ok (none, nav)
  back_from force (went r) nav = if (r == 0) || (r == default) then leave nav else show r nav

  -- `kee_nav_back`
  unfoldable pub nav_back : ℕ → Bool → Nav Widget → Result (Option Widget × Nav Widget)
  unfolding back_from
  nav_back n_exits force nav = if nav.crsr == 0 then ok (none, nav) else (do
    (used, menu) ← use_exit n_exits exit_back nav.menu
    back_from force used (record nav { menu = menu }))

  -- `kee_nav_get`
  unfoldable pub nav_get : Nav Widget → Result (Option Widget)
  nav_get nav = do o ← get_now nav.menu; read nav.widgets o.i

  -- `kee_nav_get_label`
  unfoldable pub nav_get_label : Nav Widget → Result Bytes
  nav_get_label nav = do o ← get_now nav.menu; read nav.labels o.i

  -- `kee_nav_get_idx`
  unfoldable pub nav_get_idx : Nav Widget → Result ℕ
  nav_get_idx nav = do o ← get_now nav.menu; ok (o.i)

  -- `kee_nav_get_stack_idx`, for an index of at most `crsr`
  unfoldable pub nav_get_stack_idx : ℕ → Nav Widget → Result ℕ
  nav_get_stack_idx idx nav = read nav.stack (nav.crsr - idx)

  -- `kee_nav_get_exit`
  unfoldable pub nav_get_exit : ℕ → Nav Widget → Result ℕ
  nav_get_exit exit_id nav = do o ← get_now nav.menu; read o.dst exit_id
