-- ===== src/Examples/Loading.antt =====
-- The theorem on the loading of an entry, with a database that has a name for Bob.
use gtk4_kee.Prelude.{
  ◌≡◌, refl, subst, Option, if◌then◌else◌, ◌==◌, true, false, List, [], ◌∷◌, some, none, replicate,
  inl, take,
}
use gtk4_kee.Prelude.Bytes.{Bytes, c_string}
use gtk4_kee.Database.{Ctx, search_key, delivered}
use gtk4_kee.Database.Listing.{Entry, from_key, before}
use gtk4_kee.DistinguishedName.{
  Str2Dn, dn_init, dn_from_str, put_attributes, put_attribute, point, lowered, require_cn,
}
use mathlib.Core.Option
use mathlib.Core.Option.{some-injective}
use gtk4_kee.Prelude.Memory.{put_at}
use gtk4_kee.Prelude.Stateful.{◌>>=◌, ◌>>◌, proceed, call, current, modify, replace_code}
use gtk4_kee.Content.Resolve.{content_resolve, take_data}
use gtk4_kee.Database.Browse.{db_next, restart, open_new, close_old, forward, matched, db_rewind}
use gtk4_kee.Entry.Load
use gtk4_kee.Entry.Load.{
  entry_from_ledger, process_entry_ledger, bob_name, user_id, name_by_key, uid_text, on_dn,
}
use gtk4_kee.Entry.Load.Named.{FindsUid, IsNamed, entry_load-IsNamed}
use gtk4_kee.Examples.Surroundings.{surroundings}
use gtk4_kee.Examples.Resolving.{resolver}
use gtk4_kee.Examples.Ledgers.{empty}
use gtk4_kee.Examples.Listing.{table, idle}

-- A text that begins as a name with a `u` has a user id, and any other one a common name.
abbrev one_part : Str2Dn
one_part [] = none
one_part (b ∷ _) =
    if b == b'u'
    then some ((b'u' ∷ b'i' ∷ b'd' ∷ [], b'x' ∷ []) ∷ [])
    else some ((b'c' ∷ b'n' ∷ [], b'j' ∷ []) ∷ [])

abbrev digits : Bytes → Bytes
digits key = take 3 key

begins :
    (s : Option Bytes) {text : Bytes}
    → Option.map (λ s. b'u' ∷ s) s ≡ some text
    → one_part text ≡ some ((b'u' ∷ b'i' ∷ b'd' ∷ [], b'x' ∷ []) ∷ [])
begins none h = absurd (cc)
begins (some s) h =
    subst (λ t. one_part t ≡ some ((b'u' ∷ b'i' ∷ b'd' ∷ [], b'x' ∷ []) ∷ []))
      (some-injective _ _ h) refl

one_part-finds : FindsUid one_part digits
unfolding uid_text c_string
one_part-finds key text h = (b'x' ∷ [], begins _ h)

-- The entry with the name of Bob
abbrev with_bob : Ctx (List Entry) (List Entry) (List Entry)
with_bob = record idle { env = (3 ∷ replicate 32 8, b'c' ∷ b'n' ∷ b'=' ∷ b'j' ∷ []) ∷ [] }

abbrev fresh : Load.Entry (List Entry) (List Entry) (List Entry)
fresh = record {
  ledger = empty;
  bob_dn = dn_init (λ size. replicate size 0) 16;
  current_id = replicate 64 0;
  is_loaded = false;
  ctx = with_bob;
}

abbrev shown : Load.Entry (List Entry) (List Entry) (List Entry)
shown =
    (entry_from_ledger surroundings resolver table one_part digits empty (replicate 16 0) fresh).1

entry_load-IsNamed_example : IsNamed shown × (shown.is_loaded ≡ true)
unfolding entry_from_ledger process_entry_ledger bob_name user_id name_by_key uid_text on_dn
    dn_from_str dn_init c_string put_attributes put_attribute point lowered require_cn put_at ◌>>=◌
    ◌>>◌ proceed call current modify replace_code content_resolve db_next restart open_new close_old
    forward matched search_key delivered db_rewind take_data from_key before
entry_load-IsNamed_example =
    entry_load-IsNamed surroundings resolver table one_part digits one_part-finds empty []
      (replicate 16 0) fresh shown (inl refl)
