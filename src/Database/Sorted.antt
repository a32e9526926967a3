-- ===== src/Database/Sorted.antt =====
-- What `db_next` of src/db.c delivers of a table whose entries are in the order of their keys.
use gtk4_kee.Prelude.{
  ℕ, ◌%◌, ◌≡◌, refl, sym, ap, true, false, not, List, [], ◌∷◌, some, ◌==◌, ◌&&◌, if◌then◌else◌,
  get_or, length, arith, subst, Bool-cases, inl, inr,
}
use gtk4_kee.Prelude.Bytes.{Bytes}
use gtk4_kee.Prelude.Result.{ok}
use gtk4_kee.Database.{Ctx, Handle, free, search_key}
use gtk4_kee.Database.Library.{Lmdb}
use gtk4_kee.Database.Listing.{
  Entry, before, from_key, leading, Fits, IsLmdb, Browses, db_next-lists,
}

-- The entries under a prefix whose keys are not before a given one, wherever they stand
unfoldable pub under : ℕ → Bytes → List Entry → List Entry
under pfx start [] = []
under pfx start ((k, v) ∷ es) =
    let rest = under pfx start es in
    if (get_or k 0 0 == pfx) && not (before k start) then (k, v) ∷ rest else rest

-- No key of the entries is before this one.
pub data Above (k : Bytes) : List Entry → Type 0 where
  above_none : Above k []
  above_one :
      {k' v : Bytes} {es : List Entry} → before k' k ≡ false → Above k es → Above k ((k', v) ∷ es)

pub data IsSorted : List Entry → Type 0 where
  sorted_none : IsSorted []
  sorted_one : {k v : Bytes} {es : List Entry} → Above k es → IsSorted es → IsSorted ((k, v) ∷ es)

-- A key that is before a second one is before each that is not.
before-cut : (a k s : Bytes) → before a s ≡ true → before k s ≡ false → before a k ≡ true
unfolding before
before-cut [] k [] h h' = absurd (cc)
before-cut (x ∷ a) k [] h h' = absurd (cc)
before-cut a [] (c ∷ s) h h' = absurd (cc)
before-cut [] (b ∷ k) (c ∷ s) h h' = refl
before-cut (x ∷ a) (b ∷ k) (c ∷ s) h h' = ground (arith, before-cut a k s)

not_before :
    (k' k start : Bytes) → before k' k ≡ false → before k start ≡ false → before k' start ≡ false
not_before k' k start h h' = elim (Bool-cases (before k' start)) [
  | inl low ↦ absurd (let h'' = before-cut k' k start low h' in cc)
  | inr high ↦ high
]

Above-trans :
    (k start : Bytes) (es : List Entry) → Above k es → before k start ≡ false → Above start es
Above-trans k start [] Above.above_none h = Above.above_none
Above-trans k start ((k', v) ∷ es) (Above.above_one high rest) h =
    Above.above_one (not_before k' k start high h) (Above-trans k start es rest h)

-- A first byte that is not the prefix stays another one in the keys behind.
first_above :
    (pfx : ℕ) (r k k' : Bytes)
    → before k (pfx ∷ r) ≡ false
    → (get_or k 0 0 == pfx) ≡ false
    → before k' k ≡ false
    → (get_or k' 0 0 == pfx) ≡ false
unfolding before
first_above pfx r [] k' h e h' = absurd (cc)
first_above pfx r (b ∷ k) [] h e h' = absurd (cc)
first_above pfx r (b ∷ k) (b' ∷ k') h e h' = ground arith

none_under :
    (pfx : ℕ) (r k : Bytes) (es : List Entry)
    → before k (pfx ∷ r) ≡ false
    → (get_or k 0 0 == pfx) ≡ false
    → Above k es
    → under pfx (pfx ∷ r) es ≡ []
unfolding under
none_under pfx r k [] h e Above.above_none = refl
none_under pfx r k ((k', v) ∷ es) h e (Above.above_one high rest) =
    rw (first_above pfx r k k' h e high) (none_under pfx r k es h e rest)

leading-under :
    (pfx : ℕ) (r : Bytes) (es : List Entry)
    → IsSorted es
    → Above (pfx ∷ r) es
    → leading pfx es ≡ under pfx (pfx ∷ r) es
unfolding leading under
leading-under pfx r [] sorted above = refl
leading-under pfx r ((k, v) ∷ es) (IsSorted.sorted_one higher sorted) (Above.above_one high rest) =
    elim (Bool-cases (get_or k 0 0 == pfx)) [
      | inl same ↦ rw (same, high) (ap (λ es. (k, v) ∷ es) (leading-under pfx r es sorted rest))
      | inr other ↦ rw other (sym (none_under pfx r k es high other higher))
    ]

under_low :
    (pfx : ℕ) (k v start : Bytes) (es : List Entry)
    → before k start ≡ true
    → under pfx start ((k, v) ∷ es) ≡ under pfx start es
unfolding under
under_low pfx k v start es low = elim (Bool-cases (get_or k 0 0 == pfx)) [
  | inl same ↦ rw (same, low) refl
  | inr other ↦ rw other refl
]

-- What `db_next` begins with and goes through, is all that is under the prefix.
leading-from_key :
    (pfx : ℕ) (r : Bytes) (es : List Entry)
    → IsSorted es
    → leading pfx (from_key (pfx ∷ r) es) ≡ under pfx (pfx ∷ r) es
unfolding from_key
leading-from_key pfx r [] sorted = leading-under pfx r [] sorted Above.above_none
leading-from_key pfx r ((k, v) ∷ es) (IsSorted.sorted_one higher sorted) =
    elim (Bool-cases (before k (pfx ∷ r))) [
      | inl low ↦ rw (low, under_low pfx k v (pfx ∷ r) es low) (leading-from_key pfx r es sorted)
      | inr high ↦ rw high (
          leading-under pfx r ((k, v) ∷ es) (IsSorted.sorted_one higher sorted)
            (Above.above_one high (Above-trans k (pfx ∷ r) es higher high)))
    ]

module _ {Env Tx Cursor : Type 0} (db : Lmdb Env Tx Cursor) (law : IsLmdb db) where
  -- Of a table in the order of its keys, the calls of `db_next` after a rewind deliver exactly the entries
  -- under the prefix whose keys are not before the search key, wherever they stand in the table, and
  -- then fail: where LMDB is as documented and a transaction can begin, the search key begins with the
  -- prefix, what the state points to was not freed before, and the buffers have room for the keys
  -- and values from the search key on.
  pub db_next-under :
      (pfx : ℕ) (r key value : Bytes) (key_len : ℕ) (s : Ctx Env Tx Cursor) (t : Tx)
      {x : Handle Cursor} {y : Handle Tx}
      → (pfx % 256 == 0) ≡ false
      → s.browsing ≡ false
      → free s.crsr ≡ ok x
      → free s.tx ≡ ok y
      → db.txn_begin s.env ≡ some t
      → search_key pfx key key_len ≡ ok (pfx ∷ r)
      → IsSorted (law.contents t)
      → Fits (length key) (length value) (from_key (pfx ∷ r) (law.contents t))
      → (code : ℕ) × (s' : Ctx Env Tx Cursor) × Browses db pfx s key key_len value
          (under pfx (pfx ∷ r) (law.contents t))
          code
          s'
  db_next-under pfx r key value key_len s t valid idle hx hy ht hs sorted fits =
      let (code, s', bs) =
        db_next-lists db law pfx valid key (pfx ∷ r) value key_len s t idle hx hy ht hs fits in
      (
        code,
        s',
        subst (λ es. Browses db pfx s key key_len value es code s')
            (leading-from_key pfx r (law.contents t) sorted) bs,
      )
