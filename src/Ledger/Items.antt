-- ===== src/Ledger/Items.antt =====
-- src/ledger.c, the chain of items and the cache: `kee_ledger_item_apply_cache`,
-- `kee_ledger_reset_cache`, `kee_ledger_add_item`, `get_item_by_idx`, `kee_ledger_item_state` and
-- `kee_ledger_item_initiator`, with the `_init` functions.
use gtk4_kee.Prelude.{
  ℕ, zero, suc, Bool, false, not, List, [], ◌∷◌, none, some, if◌then◌else◌, replicate,
}
use gtk4_kee.Prelude.Bytes.{Bytes, same_bytes}
use gtk4_kee.Content.{zero_content, blank}
use gtk4_kee.Ledger.Types.{
  Initiator, noone, alice, bob, is_bob, LedgerState, request, response, final, add_int, Item, Cache,
  Ledger, signature_length, pubkey_length,
}

abbrev pub no_signature : Bytes
no_signature = replicate signature_length 0

abbrev pub no_pubkey : Bytes
no_pubkey = replicate pubkey_length 0

-- `memcmp(sig, zero_content, SIGNATURE_LENGTH) != 0`
abbrev pub is_signed : Bytes → Bool
is_signed sig = not (same_bytes sig no_signature)

-- `kee_ledger_item_init`: the cleared struct.
abbrev pub blank_item : Item
blank_item = record {
  alice_credit_delta = 0;
  bob_credit_delta = 0;
  alice_collateral_delta = 0;
  bob_collateral_delta = 0;
  time_sec = 0;
  time_nsec = 0;
  initiator = noone;
  response = false;
  alice_signature = no_signature;
  bob_signature = no_signature;
  content = blank;
}

-- The cleared cache.
abbrev pub blank_cache : Cache
blank_cache = record {
  count = 0;
  alice_credit_balance = 0;
  bob_credit_balance = 0;
  alice_collateral_balance = 0;
  bob_collateral_balance = 0;
}

-- `kee_ledger_init`: the cleared struct.
abbrev pub blank_ledger : Ledger
blank_ledger = record {
  digest = zero_content;
  items = [];
  pubkey_alice = no_pubkey;
  pubkey_bob = no_pubkey;
  uoa_decimals = 0;
  uoa = replicate 64 0;
  content = blank;
  cache = none;
}

unfoldable pub apply_cache : Item → Cache → Cache
apply_cache item c = record {
  count = add_int c.count 1;
  alice_credit_balance = add_int c.alice_credit_balance item.alice_credit_delta;
  bob_credit_balance = add_int c.bob_credit_balance item.bob_credit_delta;
  alice_collateral_balance = add_int c.alice_collateral_balance item.alice_collateral_delta;
  bob_collateral_balance = add_int c.bob_collateral_balance item.bob_collateral_delta;
}

-- `kee_ledger_item_apply_cache`
unfoldable pub item_apply_cache : Ledger → Item → Ledger
unfolding apply_cache
item_apply_cache l item = elim (l.cache) [
  | none ↦ l
  | some c ↦ record l { cache = some (apply_cache item c) }
]

-- `kee_ledger_reset_cache`; `calloc` succeeds.
unfoldable pub reset_cache : Ledger → Ledger
reset_cache l = record l { cache = some blank_cache }

-- `kee_ledger_add_item`; `calloc` succeeds.
unfoldable pub add_item : Ledger → Ledger
add_item l = record l { items = blank_item ∷ l.items }

-- The loop of `get_item_by_idx`: the chain that is left after `idx` links; it stops at NULL.
unfoldable pub follow : ℕ → List Item → List Item
follow zero items = items
follow (suc idx) [] = []
follow (suc idx) (item ∷ items) = follow idx items

-- `get_item_by_idx`, with the items behind the one found; the empty list is NULL.
unfoldable pub get_item_by_idx : Ledger → ℕ → List Item
unfolding follow
get_item_by_idx l idx = follow idx l.items

abbrev pub sig_request : Item → Bytes
sig_request item = if is_bob item.initiator then item.bob_signature else item.alice_signature

abbrev pub sig_response : Item → Bytes
sig_response item = if is_bob item.initiator then item.alice_signature else item.bob_signature

-- `kee_ledger_item_state`
unfoldable pub item_state : Item → LedgerState
item_state item =
    if is_signed (sig_request item)
    then (if is_signed (sig_response item) then final else response)
    else request

-- `kee_ledger_item_initiator` at a null item; `own` is `gpg->public_key`.
unfoldable pub detect_initiator : Ledger → Bytes → Initiator
detect_initiator l own =
    if same_bytes l.pubkey_alice own
    then alice
    else if not (same_bytes l.pubkey_bob no_pubkey)
    then bob
    else noone

-- `kee_ledger_item_initiator` at an item
unfoldable pub item_initiator : Ledger → Bytes → Item → Initiator × Item
unfolding detect_initiator
item_initiator l own item =
    let who = detect_initiator l own in (who, record item { initiator = who })
