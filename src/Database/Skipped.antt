-- ===== src/Database/Skipped.antt =====
-- Where `db_next` of src/db.c begins: the key of the caller gets a zero byte behind it, so the entry
-- with that very key is passed over.
use gtk4_kee.Prelude.{
  overlay, some, Bool-cases, inl, inr, ℕ, zero, suc, ◌+◌, ◌-◌, ◌%◌, ◌≤◌, ◌<◌, ◌≡◌, refl, sym, ap,
  ◌∙◌, true, false, List, [], ◌∷◌, ◌++◌, ltb, ◌==◌, take, drop, replicate, length, arith,
  take-append, length-append, length-replicate, subst,
}
use gtk4_kee.Prelude.Bytes.{Bytes}
use gtk4_kee.Prelude.Memory.{overlay_short}
use gtk4_kee.Prelude.Result.{ok}
use gtk4_kee.Database.{Ctx, Handle, free, search_key}
use gtk4_kee.Database.Library.{Lmdb}
use gtk4_kee.Database.Listing.{
  Entry, before, from_key, leading, Fits, IsLmdb, Browses, db_next-lists,
}
use mathlib.Core.List.{append_assoc}

before-longer : (k : Bytes) → before k (k ++ 0 ∷ []) ≡ true
unfolding before
before-longer [] = refl
before-longer (b ∷ k) =
    let same : (b == b) ≡ true = ground arith in
    let not_less : ltb b b ≡ false = ground arith in rw (same, not_less) (before-longer k)

drop-replicate :
    {A : Type 0} (n m : ℕ) (a : A) → n ≤ m → drop n (replicate m a) ≡ replicate (m - n) a
drop-replicate zero m a h = ap (λ k. replicate k a) (omega arith)
drop-replicate (suc n) zero a h = absurd (omega arith)
drop-replicate (suc n) (suc m) a h =
    drop-replicate n m a (omega arith) ∙ ap (λ k. replicate k a) (omega arith)

-- The search begins at the key with a zero byte.
search_key_lem :
    (pfx b : ℕ) (k rest : Bytes)
    → length k < 126
    → search_key pfx (b ∷ (k ++ rest)) (suc (length k)) ≡ ok (b ∷ (k ++ 0 ∷ []))
unfolding search_key
search_key_lem pfx b k rest h = rw (in_key, in_start) (ap ok start_of)
  where
    in_key : ltb (suc (length (k ++ rest))) (suc (length k)) ≡ false
    in_key = ground (arith, length-append k rest)

    in_start : ltb 128 (1 + suc (length k)) ≡ false
    in_start = ground (arith, h)

    left : 127 - length k ≡ suc (126 - length k)
    left = omega (arith, h)

    whole : take (suc (length k)) (k ++ 0 ∷ replicate (126 - length k) 0) ≡ k ++ 0 ∷ []
    whole =
        let size : length (k ++ 0 ∷ []) ≡ suc (length k) =
          omega (arith, length-append k (0 ∷ [])) in
        subst (λ n. take n (k ++ 0 ∷ replicate (126 - length k) 0) ≡ k ++ 0 ∷ []) size
          (ap (take (length (k ++ 0 ∷ [])))
              (sym (append_assoc k (0 ∷ []) (replicate (126 - length k) 0)))
            ∙ take-append (k ++ 0 ∷ []) (replicate (126 - length k) 0))

    filled : overlay (replicate 127 0) k ≡ k ++ 0 ∷ replicate (126 - length k) 0
    filled =
        overlay_short (replicate 127 0) k (omega (arith, h, length-replicate {A = ℕ} 127 0))
        ∙ ap (λ bs. k ++ bs)
            (drop-replicate {A = ℕ} (length k) 127 0 (omega (arith, h))
              ∙ ap (λ n. replicate n 0) left)

    two : 1 + suc (length k) ≡ suc (suc (length k))
    two = omega arith

    start_of :
        take
          (1 + suc (length k))
          (overlay (pfx % 256 ∷ replicate 127 0) (b ∷ take (length k) (k ++ rest)))
        ≡ b ∷ (k ++ 0 ∷ [])
    start_of =
        ap (λ bs. take (1 + suc (length k)) (b ∷ overlay (replicate 127 0) bs)) (take-append k rest)
        ∙ ap (λ bs. take (1 + suc (length k)) (b ∷ bs)) filled
        ∙ ap (λ n. take n (b ∷ (k ++ 0 ∷ replicate (126 - length k) 0))) two
        ∙ ap (λ bs. b ∷ bs) whole

-- Entries that are all before the beginning, and one more
passed :
    (start k v : Bytes) (front es : List Entry)
    → before k start ≡ true
    → from_key start front ≡ []
    → from_key start (front ++ (k, v) ∷ es) ≡ from_key start es
unfolding from_key
passed start k v [] es b h = rw b refl
passed start k v ((k', v') ∷ front) es b h = elim (Bool-cases (before k' start)) [
  | inl over ↦ rw over (passed start k v front es b (rw over at h))
  | inr here ↦ absurd (let h' = rw here at h in cc)
]

-- An entry whose key is the very key that the caller looks for, `db_next` does not deliver: its calls
-- deliver what stands under the prefix behind that entry, where the entries before it are passed over
-- too, the key is not longer than 126 bytes, and the rest is as for any listing.
pub db_next-skips :
    {Env Tx Cursor : Type 0} (db : Lmdb Env Tx Cursor) (law : IsLmdb db) (pfx : ℕ)
    (valid : (pfx % 256 == 0) ≡ false) (b : ℕ) (k more v value : Bytes) (front es : List Entry)
    (s : Ctx Env Tx Cursor) (t : Tx) {x : Handle Cursor} {y : Handle Tx}
    → length k < 126
    → s.browsing ≡ false
    → free s.crsr ≡ ok x
    → free s.tx ≡ ok y
    → db.txn_begin s.env ≡ some t
    → law.contents t ≡ front ++ (b ∷ k, v) ∷ es
    → from_key (b ∷ (k ++ 0 ∷ [])) front ≡ []
    → Fits (suc (length (k ++ more))) (length value) (from_key (b ∷ (k ++ 0 ∷ [])) es)
    → (code : ℕ) × (s' : Ctx Env Tx Cursor) × Browses db pfx s
        (b ∷ (k ++ more))
        (suc (length k))
        value
        (leading pfx (from_key (b ∷ (k ++ 0 ∷ [])) es))
        code
        s'
db_next-skips db law pfx valid b k more v value front es s t short idle hx hy ht there over fits =
    let start = b ∷ (k ++ 0 ∷ []) in
    let skip : from_key start (law.contents t) ≡ from_key start es =
      ap (from_key start) there ∙ passed start (b ∷ k) v front es (before-longer (b ∷ k)) over in
    let (code, s', bs) =
      db_next-lists db law pfx valid (b ∷ (k ++ more)) start value (suc (length k)) s t idle hx hy
        ht (search_key_lem pfx b k more short)
        (subst (Fits (suc (length (k ++ more))) (length value)) (sym skip) fits) in
    (
      code,
      s',
      subst
          (λ es. Browses db pfx s (b ∷ (k ++ more)) (suc (length k)) value (leading pfx es) code s')
          skip bs,
    )
