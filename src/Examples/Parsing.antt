-- ===== src/Examples/Parsing.antt =====
-- The theorems on parsing, at an encoded item.
use gtk4_kee.Prelude.{[], ◌∷◌, replicate, ◌≡◌, refl}
use gtk4_kee.Prelude.Bytes.{Bytes}
use gtk4_kee.Prelude.Result.{ok}
use gtk4_kee.Ledger.Types.{alice, bob}
use gtk4_kee.Ledger.Items.{reset_cache}
use gtk4_kee.Ledger.Parse.{parse_item, delta_of, last_content}
use gtk4_kee.Content.{content_init}
use gtk4_kee.Ledger.Verify.{verify_item_asn}
use gtk4_kee.Ledger.Monad.{◌>>=◌, ◌>>◌, call, modify, modify_last, current}
use gtk4_kee.Ledger.Outcome.{Outcome, effective, parse_item-Outcome}
use gtk4_kee.Ledger.Balances.{IsBalanced, parse_items, parse_items-sums}
use gtk4_kee.Examples.Surroundings.{surroundings, encode}
use gtk4_kee.Examples.Ledgers.{ledger_with, draft}

abbrev input : Bytes
input = encode (
    (27, [])
    ∷ (22, 42 ∷ [])
    ∷ (23, 1 ∷ 7 ∷ [])
    ∷ (26, b'T' ∷ b'R' ∷ b'U' ∷ b'E' ∷ 0 ∷ [])
    ∷ (21, 101 ∷ 83 ∷ 241 ∷ 0 ∷ 0 ∷ 0 ∷ 0 ∷ 5 ∷ [])
    ∷ (24, replicate 64 5)
    ∷ (25, replicate 64 1)
    ∷ [])

parse_item-Outcome_example :
    Outcome
      (ledger_with (draft ∷ []))
      (effective bob)
      (parse_item surroundings input bob (ledger_with (draft ∷ [])))
parse_item-Outcome_example = parse_item-Outcome surroundings (ledger_with (draft ∷ [])) bob input

parsed : (parse_item surroundings input alice (reset_cache (ledger_with []))).0 ≡ ok tt
unfolding parse_item reset_cache ◌>>=◌ ◌>>◌ call modify modify_last current verify_item_asn delta_of
    last_content content_init
parsed = refl

both_parsed :
    (parse_items surroundings ((input, alice) ∷ (input, bob) ∷ []) (reset_cache (ledger_with []))).0
    ≡ ok tt
unfolding parse_items parse_item reset_cache ◌>>◌ call modify modify_last current verify_item_asn
    delta_of last_content content_init
both_parsed = refl

parse_items-sums_example :
    IsBalanced
      (parse_items surroundings
        ((input, alice) ∷ (input, bob) ∷ [])
        (reset_cache (ledger_with []))).1
parse_items-sums_example =
    parse_items-sums surroundings ((input, alice) ∷ (input, bob) ∷ []) (ledger_with []) refl
      both_parsed
