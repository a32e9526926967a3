-- ===== src/Ledger/Monad.antt =====
-- Calls that work on a `struct kee_ledger_t` in place.
use gtk4_kee.Prelude.{[], ◌∷◌}
use gtk4_kee.Prelude.Stateful.{Stateful, modify, replace_code}
use gtk4_kee.Ledger.Types.{Ledger, Item, err_fail}
unfoldable pub use gtk4_kee.Prelude.Stateful.{proceed, ◌>>=◌, ◌>>◌, call, current, modify}

abbrev pub Change : Type 0 → Type 0
Change A = Stateful Ledger A

-- A write through the pointer to `last_item`.
abbrev pub map_last : (Item → Item) → Ledger → Ledger
map_last f l = elim (l.items) [ [] ↦ l | item ∷ prev ↦ record l { items = f item ∷ prev } ]

unfoldable pub modify_last : (Item → Item) → Change (Unit {0})
unfolding modify
modify_last f = modify (map_last f)

-- `if (r) { return ERR_FAIL; }` after a call that changes the ledger
unfoldable pub with_code : {A : Type 0} → Change A → Change A
unfolding replace_code
with_code m = replace_code err_fail m
