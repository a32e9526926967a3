-- ===== src/Examples/Listing.antt =====
-- The theorem on going through the database, with a table that is a list in the order of its keys.
use gtk4_kee.Prelude.{ℕ, refl, true, List, [], ◌∷◌, Option, none, some, arith, false}
use gtk4_kee.Prelude.Bytes.{Bytes}
use gtk4_kee.Database.{Ctx, null, search_key}
use gtk4_kee.Database.Library.{Lmdb}
use gtk4_kee.Database.Skipped.{db_next-skips}
use gtk4_kee.Database.Sorted.{IsSorted, Above, under, db_next-under}
use gtk4_kee.Database.Listing.{Entry, from_key, before, leading, Found, IsLmdb, Fits, Browses}

abbrev first : List Entry → Option (List Entry × Bytes × Bytes)
first [] = none
first ((k, v) ∷ es) = some (es, k, v)

abbrev after : Option (List Entry) → Option (List Entry × Bytes × Bytes)
after none = none
after (some es) = first es

abbrev with_entry : Option (List Entry) → Bytes → Bytes → Option (List Entry)
with_entry none key data' = none
with_entry (some es) key data' = some ((key, data') ∷ es)

abbrev pub table : Lmdb (List Entry) (List Entry) (List Entry)
table = record {
  txn_begin = some;
  dbi_open = λ tx. true;
  put = λ new tx key data'. with_entry tx key data';
  commit = λ env tx. tx;
  cursor_open = some;
  set_range = λ c start. first (from_key start c);
  next_nodup = after;
}

found : (es : List Entry) → Found (λ es. es) (first es) es
found [] = Found.nothing
found ((k, v) ∷ es) = Found.entry refl

law : IsLmdb table
law = record {
  contents = λ es. es;
  rest = λ es. es;
  opens = λ e t h. refl;
  finds = λ e t h. (t, refl, λ start. found (from_key start t));
  moves = found;
}

-- Four entries, two of them under the prefix 2 from the key 2, 5 on
abbrev entries : List Entry
entries =
    (1 ∷ 9 ∷ [], 10 ∷ [])
    ∷ (2 ∷ 3 ∷ [], 20 ∷ [])
    ∷ (2 ∷ 5 ∷ 1 ∷ [], 21 ∷ [])
    ∷ (2 ∷ 7 ∷ [], 22 ∷ [])
    ∷ (3 ∷ 0 ∷ [], 30 ∷ [])
    ∷ []

abbrev pub idle : Ctx (List Entry) (List Entry) (List Entry)
idle = record {
  env = entries;
  tx = null;
  crsr = null;
  current_key = 0;
  started = false;
  browsing = false;
}

-- The entry with the key 2, 3 is there and is not delivered for that key.
db_next-skips_example :
    (code : ℕ) × (s' : Ctx (List Entry) (List Entry) (List Entry)) × Browses table 2 idle
      (2 ∷ 3 ∷ 0 ∷ 0 ∷ [])
      2
      (0 ∷ 0 ∷ [])
      ((2 ∷ 5 ∷ 1 ∷ [], 21 ∷ []) ∷ (2 ∷ 7 ∷ [], 22 ∷ []) ∷ [])
      code
      s'
unfolding from_key before leading law
db_next-skips_example =
    db_next-skips table law 2 refl 2 (3 ∷ []) (0 ∷ 0 ∷ []) (20 ∷ []) (0 ∷ 0 ∷ [])
      ((1 ∷ 9 ∷ [], 10 ∷ []) ∷ [])
      ((2 ∷ 5 ∷ 1 ∷ [], 21 ∷ []) ∷ (2 ∷ 7 ∷ [], 22 ∷ []) ∷ (3 ∷ 0 ∷ [], 30 ∷ []) ∷ []) idle entries
      (omega arith) refl refl refl refl refl refl
      (Fits.one_fits (omega arith) (omega arith) (
        Fits.one_fits (omega arith) (omega arith)
          (Fits.one_fits (omega arith) (omega arith) Fits.none_left)))

entries-IsSorted : IsSorted entries
unfolding before
entries-IsSorted =
    IsSorted.sorted_one
      (Above.above_one refl
        (Above.above_one refl (Above.above_one refl (Above.above_one refl Above.above_none))))
      (IsSorted.sorted_one
        (Above.above_one refl (Above.above_one refl (Above.above_one refl Above.above_none)))
        (IsSorted.sorted_one (Above.above_one refl (Above.above_one refl Above.above_none)) (
          IsSorted.sorted_one (Above.above_one refl Above.above_none)
            (IsSorted.sorted_one Above.above_none IsSorted.sorted_none))))

db_next-under_example :
    (code : ℕ) × (s' : Ctx (List Entry) (List Entry) (List Entry)) × Browses table 2 idle
      (2 ∷ 5 ∷ 0 ∷ 0 ∷ [])
      2
      (0 ∷ 0 ∷ [])
      ((2 ∷ 5 ∷ 1 ∷ [], 21 ∷ []) ∷ (2 ∷ 7 ∷ [], 22 ∷ []) ∷ [])
      code
      s'
unfolding search_key from_key before under law
db_next-under_example =
    db_next-under table law 2 (5 ∷ 0 ∷ []) (2 ∷ 5 ∷ 0 ∷ 0 ∷ []) (0 ∷ 0 ∷ []) 2 idle entries refl
      refl refl refl refl refl entries-IsSorted
      (Fits.one_fits (omega arith) (omega arith) (
        Fits.one_fits (omega arith) (omega arith)
          (Fits.one_fits (omega arith) (omega arith) Fits.none_left)))
