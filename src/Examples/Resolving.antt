-- ===== src/Examples/Resolving.antt =====
-- The theorem on `kee_ledger_resolve`, with a resolver that finds a text of two bytes for any key.
use gtk4_kee.Prelude.{◌≡◌, refl, [], ◌∷◌, map, some, replicate}
use gtk4_kee.Prelude.Bytes.{c_string}
use gtk4_kee.Prelude.Result.{Result, ok}
use gtk4_kee.Content.{Content, blank}
use gtk4_kee.Content.Resolve.{
  Resolver, content_resolve, take_data, take_subject, put_subject, copy_to, text_in,
}
use gtk4_kee.Ledger.Types.{Ledger}
use gtk4_kee.Ledger.Serialize.{ledger_digest}
use gtk4_kee.Ledger.Resolve.{ledger_resolve, resolve_items, unresolved, ledger_resolve-same}
use gtk4_kee.Examples.Surroundings.{surroundings}
use gtk4_kee.Examples.Ledgers.{draft, ledger_with}

abbrev pub resolver : Resolver
resolver = record { resolve = λ key cap. some (72 ∷ 105 ∷ []); subject_of = λ text. some (83 ∷ []) }

abbrev noted : Content
noted = record blank { key = replicate 64 5; mem_size = 16; mem = replicate 16 0 }

abbrev known : Ledger
known = record (ledger_with (record draft { content = noted } ∷ draft ∷ [])) { content = noted }

abbrev ledger_or : Result Ledger → Ledger
ledger_or (ok l) = l
ledger_or _ = known

abbrev after : Ledger
after = ledger_or (ledger_resolve resolver known)

ledger_resolve-same_example :
    (ledger_digest surroundings after ≡ ledger_digest surroundings known)
    × (map unresolved after.items ≡ map unresolved known.items)
unfolding ledger_resolve resolve_items content_resolve take_data take_subject put_subject copy_to
    text_in c_string
ledger_resolve-same_example = ledger_resolve-same resolver surroundings known after refl
