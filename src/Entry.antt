-- ===== src/Entry.antt =====
-- src/gtk/kee-entry.c, the states of an entry in the user interface: `kee_entry_modeswitch` and what
-- it calls. Of the widgets, only which one is shown is kept; `g_log` with G_LOG_LEVEL_ERROR ends the
-- program, which is an error here. The texts that are shown are left out.

pub mod States
pub mod Send
pub mod Confirmed
pub mod Exchange
pub mod Load
use gtk4_kee.Prelude.{ℕ, Bool, true, false, not, ◌&&◌, ◌||◌, Option, none, some, if◌then◌else◌}
use gtk4_kee.Prelude.Result.{Result, ok, err}

-- `enum kee_entry_viewmode_e`
pub data ViewMode : Type 0 where
  short_mode full_mode edit_mode sign_mode : ViewMode

-- What `showing` points to: a label of the list, `display` or `edit`
pub data Widget : Type 0 where
  label display edit : Widget

-- The form of the summary, which has a passphrase only, or that of the edit view
pub data FormKind : Type 0 where
  summary_form edit_form : FormKind

-- The bits of `state` (ENTRYSTATE_LOAD, _SHORT, _EDIT, _CONFIRM), `showing` and `form`, which may be null
pub record View : Type 0 where
  pub is_loaded : Bool
  pub is_short : Bool
  pub is_edit : Bool
  pub is_confirm : Bool
  pub showing : Option Widget
  pub form : Option FormKind

-- `kee_entry_init`
abbrev pub new_view : View
new_view = record {
  is_loaded = false;
  is_short = false;
  is_edit = false;
  is_confirm = false;
  showing = none;
  form = none;
}

-- `kee_entry_apply_list_item_widget`, with its return of 0 or 1
unfoldable pub apply_list_item_widget : View → Result (Bool × View)
apply_list_item_widget v =
    if not v.is_loaded
    then err 1
    else if v.is_short
    then ok (false, v)
    else ok (
      true,
      record v { is_short = true; is_edit = false; is_confirm = false; showing = some label },
    )

-- `kee_entry_apply_summary_widget`, which makes a form whether there is one or not
unfoldable pub apply_summary_widget : View → Bool × View
apply_summary_widget v = (true, record v { form = some summary_form })

-- `kee_entry_apply_display_widget`
unfoldable pub apply_display_widget : View → Bool × View
apply_display_widget v =
    if v.is_short || (v.is_edit || v.is_confirm)
    then (
      true,
      record v { is_short = false; is_edit = false; is_confirm = false; showing = some display },
    )
    else (false, v)

-- `kee_entry_setup_edit_widget`
unfoldable pub setup_edit_widget : View → View
setup_edit_widget v = record v { form = elim (v.form) [ none ↦ some edit_form | some f ↦ some f ] }

-- `kee_entry_apply_edit_widget`
unfoldable pub apply_edit_widget : View → Bool × View
unfolding setup_edit_widget
apply_edit_widget v = (true, record (setup_edit_widget v) { showing = some edit })

-- The case of KEE_ENTRY_VIEWMODE_SIGN
unfoldable pub apply_sign : View → Bool × View
unfolding apply_display_widget apply_summary_widget
apply_sign v =
    let (r, v) = apply_display_widget (record v { is_confirm = true }) in
    if r then apply_summary_widget v else (r, v)

-- `kee_entry_modeswitch`: its return and the entry after it
unfoldable pub modeswitch : View → ViewMode → Result (Bool × View)
unfolding apply_list_item_widget apply_edit_widget apply_sign
modeswitch v short_mode = apply_list_item_widget v
modeswitch v edit_mode = ok (apply_edit_widget v)
modeswitch v sign_mode = ok (apply_sign v)
modeswitch v full_mode = ok (apply_display_widget v)
