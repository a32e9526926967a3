-- ===== src/Ledger/Balances.antt =====
-- The cached balances of a ledger against the sums over its items (src/ledger.c,
-- `kee_ledger_item_apply_cache` as `kee_ledger_parse_item` calls it).
use gtk4_kee.Prelude.{ℕ, ◌%◌, ◌≡◌, refl, List, [], ◌∷◌, Option, none, some, length, arith}
use gtk4_kee.Prelude.Bytes.{Bytes}
use gtk4_kee.Prelude.Result.{Result, ok, err, fault}
use gtk4_kee.Ledger.Types.{World, Ledger, Item, Cache, Initiator, int_mod, add_int}
use gtk4_kee.Ledger.Items.{apply_cache, item_apply_cache, reset_cache}
use gtk4_kee.Ledger.Outcome.{Outcome, parse_item-Outcome}
use gtk4_kee.Ledger.Parse.{parse_item}
use gtk4_kee.Ledger.Monad.{Change, call, ◌>>◌, proceed, ◌>>=◌}

-- The sum of a delta over a chain of items, as `int` arithmetic has it.
abbrev pub total : (Item → ℕ) → List Item → ℕ
total f [] = 0
total f (item ∷ items) = add_int (total f items) (f item)

pub record Sums (items : List Item) (c : Cache) : Type 0 where
  pub counts : c.count ≡ length items % int_mod
  pub alice_credit : c.alice_credit_balance ≡ total (λ i. i.alice_credit_delta) items
  pub bob_credit : c.bob_credit_balance ≡ total (λ i. i.bob_credit_delta) items
  pub alice_collateral : c.alice_collateral_balance ≡ total (λ i. i.alice_collateral_delta) items
  pub bob_collateral : c.bob_collateral_balance ≡ total (λ i. i.bob_collateral_delta) items

-- A ledger whose cache, if it has one, holds the sums over its items.
abbrev pub CacheSums : List Item → Option Cache → Type 0
CacheSums items none = Unit
CacheSums items (some c) = Sums items c

abbrev pub IsBalanced : Ledger → Type 0
IsBalanced l = CacheSums l.items l.cache

apply_cache-Sums :
    (item : Item) (items : List Item) (c : Cache)
    → Sums items c
    → Sums (item ∷ items) (apply_cache item c)
unfolding apply_cache
apply_cache-Sums item items c h = record {
  counts = omega (arith, h.counts);
  alice_credit = rw (h.alice_credit);
  bob_credit = rw (h.bob_credit);
  alice_collateral = rw (h.alice_collateral);
  bob_collateral = rw (h.bob_collateral);
}

item_apply_cache-IsBalanced :
    (item : Item) (items : List Item) (l : Ledger) (c : Option Cache)
    → CacheSums items c
    → IsBalanced (item_apply_cache (record l { items = item ∷ items; cache = c }) item)
unfolding item_apply_cache
item_apply_cache-IsBalanced item items l none h = tt
item_apply_cache-IsBalanced item items l (some c) h = apply_cache-Sums item items c h

Outcome-IsBalanced :
    {l : Ledger} {who : Initiator} (out : Result (Unit {0}) × Ledger)
    → Outcome l who out
    → out.0 ≡ ok tt
    → IsBalanced l
    → IsBalanced out.1
Outcome-IsBalanced {l} out (Outcome.added cur i) e h =
    item_apply_cache-IsBalanced cur l.items l l.cache h
Outcome-IsBalanced out (Outcome.refused ne) e h = absurd (ne e)
Outcome-IsBalanced out (Outcome.left_over ne cur) e h = absurd (ne e)

module _ {Node Sexp Mpi : Type 0} (w : World Node Sexp Mpi) where
  -- A successful parse of an item keeps the cache equal to the sums over the items: each balance
  -- is the sum of the deltas, and the count is the number of items.
  pub parse_item-IsBalanced :
      (input : Bytes) (who : Initiator) (l : Ledger)
      → (parse_item w input who l).0 ≡ ok tt
      → IsBalanced l
      → IsBalanced (parse_item w input who l).1
  parse_item-IsBalanced input who l =
      Outcome-IsBalanced (parse_item w input who l) (parse_item-Outcome w l who input)

  -- A sequence of calls, each made if the one before it succeeded.
  unfoldable pub parse_items : List (Bytes × Initiator) → Change (Unit {0})
  parse_items [] = call (ok tt)
  parse_items ((input, who) ∷ rest) = parse_item w input who >> parse_items rest

  parse_items_from :
      (rest : List (Bytes × Initiator)) (out : Result (Unit {0}) × Ledger)
      → (out.0 ≡ ok tt → IsBalanced out.1)
      → ((l : Ledger)
          → IsBalanced l
          → (parse_items rest l).0 ≡ ok tt
          → IsBalanced (parse_items rest l).1)
      → (proceed (λ _. parse_items rest) out).0 ≡ ok tt
      → IsBalanced (proceed (λ _. parse_items rest) out).1
  unfolding proceed
  parse_items_from rest (ok _, l) h keep e = keep l (h refl) e
  parse_items_from rest (err c, l) h keep e = cc
  parse_items_from rest (fault, l) h keep e = cc

  parse_items-keeps :
      (inputs : List (Bytes × Initiator)) (l : Ledger)
      → IsBalanced l
      → (parse_items inputs l).0 ≡ ok tt
      → IsBalanced (parse_items inputs l).1
  unfolding parse_items call ◌>>◌ ◌>>=◌
  parse_items-keeps [] l h e = h
  parse_items-keeps ((input, who) ∷ rest) l h e =
      parse_items_from rest (parse_item w input who l) (λ p. parse_item-IsBalanced input who l p h)
        (parse_items-keeps rest) e

  -- After a cache reset on a ledger with no items, parsing any sequence of items without a failure
  -- leaves in the cache the sums over all of them.
  pub parse_items-sums :
      (inputs : List (Bytes × Initiator)) (l : Ledger)
      → l.items ≡ []
      → (parse_items inputs (reset_cache l)).0 ≡ ok tt
      → IsBalanced (parse_items inputs (reset_cache l)).1
  unfolding reset_cache
  parse_items-sums inputs l none_yet e =
      parse_items-keeps inputs (reset_cache l) (rw none_yet (omega arith)) e
