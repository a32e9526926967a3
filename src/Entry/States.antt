-- ===== src/Entry/States.antt =====
-- src/gtk/kee-entry.c: the states that an entry can be in, and what each view leads to.
use gtk4_kee.Prelude.{
  if◌then◌else◌, ◌≡◌, refl, Bool, true, false, some, arith, Bool-cases, inl, inr,
}
use gtk4_kee.Prelude.Result.{ok}
use gtk4_kee.Entry.{
  View, ViewMode, short_mode, full_mode, edit_mode, sign_mode, label, display, edit, summary_form,
  new_view, modeswitch, apply_edit_widget,
}

-- What happens to an entry: a switch of its view that does not end the program,
-- `kee_entry_handle_add`, and a ledger that is read by `process_entry_ledger`
pub data ◌⟶◌ : View → View → Type 0 where
  switched : {v v' : View} {r : Bool} (mode : ViewMode) → modeswitch v mode ≡ ok (r, v') → v ⟶ v'
  added : {v : View} → v ⟶ record v { is_loaded = true }
  read_ledger :
      {v : View}
      → v ⟶ record v { is_loaded = true; is_short = false; is_edit = false; is_confirm = false }

infix 40 ◌⟶◌
-- The states from `kee_entry_init` on
pub data Reachable : View → Type 0 where
  begun : Reachable new_view
  after : {v v' : View} → Reachable v → v ⟶ v' → Reachable v'

-- The bits EDIT and CONFIRM are not set, and an entry in the list is loaded.
pub record IsSteady (v : View) : Type 0 where
  pub no_edit : v.is_edit ≡ false
  pub no_confirm : v.is_confirm ≡ false
  pub loaded : v.is_short ≡ true → v.is_loaded ≡ true

modeswitch-IsSteady :
    (v : View) (mode : ViewMode) {r : Bool} {v' : View}
    → IsSteady v
    → modeswitch v mode ≡ ok (r, v')
    → IsSteady v'
unfolding modeswitch
modeswitch-IsSteady v short_mode s h = ground arith
modeswitch-IsSteady v edit_mode s h = ground arith
modeswitch-IsSteady v sign_mode s h = ground arith
modeswitch-IsSteady v full_mode s h = ground arith

-- Between two events no entry has the bits EDIT and CONFIRM set, and one that is marked as shown in
-- the list is loaded.
pub Reachable-IsSteady : {v : View} → Reachable v → IsSteady v
Reachable-IsSteady begun = record { no_edit = refl; no_confirm = refl; loaded = λ e. cc }
Reachable-IsSteady (after {v = v} r (switched mode e)) =
    modeswitch-IsSteady v mode (Reachable-IsSteady r) e
Reachable-IsSteady (after r added) =
    let s = Reachable-IsSteady r in
    record { no_edit = s.no_edit; no_confirm = s.no_confirm; loaded = λ e. refl }
Reachable-IsSteady (after r read_ledger) = record {
  no_edit = refl;
  no_confirm = refl;
  loaded = λ e. refl;
}

-- An entry that is loaded, in any state, is shown in the list after a switch to its signature and one
-- to the list, and both return 1.
pub modeswitch-shows :
    (v : View)
    → v.is_loaded ≡ true
    → (v' v'' : View) × (modeswitch v sign_mode ≡ ok (true, v'))
      × (modeswitch v' short_mode ≡ ok (true, v''))
      × (v''.showing ≡ some label)
unfolding modeswitch
modeswitch-shows v l =
    let seen = record v {
      is_short = false;
      is_edit = false;
      is_confirm = false;
      showing = some display;
      form = some summary_form;
    } in
    (
      seen,
      record seen { is_short = true; showing = some label },
      ground (arith, l),
      ground (arith, l),
      refl,
    )

-- From an entry between two events the edit view is shown, and then one of the other views does not
-- take its place: the full view where the entry was not in the list before, and the list where it was.
-- That switch returns 0 and changes nothing.
pub modeswitch-stays :
    {v : View}
    → Reachable v
    → (v' : View) × (modeswitch v edit_mode ≡ ok (true, v'))
      × (v'.showing ≡ some edit)
      × (modeswitch v' (if v.is_short then short_mode else full_mode) ≡ ok (false, v'))
unfolding modeswitch
modeswitch-stays {v = v} r =
    let s = Reachable-IsSteady r in
    (
      (apply_edit_widget v).1,
      refl,
      refl,
      elim (Bool-cases v.is_short) [
        | inl e ↦ simp (e, s.loaded e)
        | inr e ↦ simp (e, s.no_edit, s.no_confirm)
      ],
    )

switch_keeps :
    (v : View) (mode : ViewMode) {r : Bool} {v' : View}
    → v.form ≡ some summary_form
    → modeswitch v mode ≡ ok (r, v')
    → v'.form ≡ some summary_form
unfolding modeswitch
switch_keeps v short_mode e h = ground (arith, e)
switch_keeps v edit_mode e h = ground (arith, e)
switch_keeps v sign_mode e h = ground (arith, e)
switch_keeps v full_mode e h = ground (arith, e)

-- Once an entry was shown for its signature, it has the form of the summary for good.
pub summary_form_kept :
    {v v' : View} → v.form ≡ some summary_form → v ⟶ v' → v'.form ≡ some summary_form
summary_form_kept {v = v} e (switched mode h) = switch_keeps v mode e h
summary_form_kept e added = e
summary_form_kept e read_ledger = e
