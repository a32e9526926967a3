-- ===== src/Examples/Storing.antt =====
-- The theorem on `kee_ledger_put`, for a ledger of one item and an empty table.
use gtk4_kee.Prelude.{ℕ, ◌≡◌, refl, false, List, [], ◌∷◌, some}
use gtk4_kee.Prelude.Bytes.{native_bytes, le_bytes, c_string}
use gtk4_kee.Prelude.Memory.{put_at}
use gtk4_kee.Prelude.Stateful.{◌>>=◌, ◌>>◌, call, current, modify, proceed, replace_code}
use gtk4_kee.Database.{Ctx, null, search_key, delivered}
use gtk4_kee.Database.Listing.{Entry, from_key, before}
use gtk4_kee.Database.Write.{db_start, db_add, db_finish}
use gtk4_kee.Database.Browse.{db_next, db_rewind, restart, open_new, close_old, forward, matched}
use gtk4_kee.Ledger.Types.{buffer}
use gtk4_kee.Ledger.Keys.{db_key, timespec_to_keypart, key_int, swapped, item_key, put_item}
use gtk4_kee.Ledger.Serialize.{ledger_serialize, item_serialize, item_serialize_db}
use gtk4_kee.Ledger.Store.{ledger_put, put_items, reverse_found, head_found}
use gtk4_kee.Ledger.Stored.{Committed, ledger_put-Committed}
use gtk4_kee.Examples.Surroundings.{surroundings}
use gtk4_kee.Examples.Ledgers.{draft, ledger_with}
use gtk4_kee.Examples.Listing.{table}

abbrev pub fresh : Ctx (List Entry) (List Entry) (List Entry)
fresh = record {
  env = [];
  tx = null;
  crsr = null;
  current_key = 0;
  started = false;
  browsing = false;
}

abbrev stored : Ctx (List Entry) (List Entry) (List Entry)
stored = (ledger_put surroundings table (some (5, 6)) (ledger_with (draft ∷ [])) fresh).1

ledger_put-Committed_example :
    (time : ℕ × ℕ) × (some (5, 6) ≡ some time)
    × Committed surroundings table time (ledger_with (draft ∷ [])) fresh stored
unfolding ledger_put put_items reverse_found head_found db_start db_add db_finish db_next db_rewind
    restart open_new close_old forward matched search_key delivered from_key before buffer db_key
    timespec_to_keypart key_int swapped item_key put_item ledger_serialize item_serialize
    item_serialize_db native_bytes le_bytes c_string put_at ◌>>=◌ ◌>>◌ proceed call current modify
    replace_code
ledger_put-Committed_example =
    ledger_put-Committed surroundings table (some (5, 6)) (ledger_with (draft ∷ [])) fresh stored
      refl
