-- ===== src/Ledger/Keys/Order.antt =====
-- The order of the keys that src/ledger.c gives to the items of a ledger.
use gtk4_kee.Prelude.{
  ℕ, zero, suc, ◌*◌, ◌/◌, ◌%◌, ◌^◌, ◌<◌, ◌≡◌, refl, sym, ap, ◌∙◌, [], ◌∷◌, ◌++◌, reverse, ◌⊎◌, inl,
  inr, arith, length, take, take-append, length-append, subst,
}
use gtk4_kee.Prelude.Bytes.{Bytes, le_bytes, native_bytes}
use gtk4_kee.Prelude.Memory.{put_at, put_at_lem}
use gtk4_kee.Prelude.Result.{ok}
use gtk4_kee.Ledger.Types.{World, Ledger, Item, digest_length}
use gtk4_kee.Ledger.Keys.{timespec_to_keypart, key_int, swapped, db_key, item_key, key_ledger_entry}
use native.Mathlib.Nat.{pow-suc, mod-eq_of_lt}
use mathlib.Core.List.{reverse-cons, append_assoc, append-nil}

-- The order in which the database holds its keys: that of the first byte in which two keys differ.
pub data Before : Bytes → Bytes → Type 0 where
  less : {a b : ℕ} {xs ys : Bytes} → a < b → Before (a ∷ xs) (b ∷ ys)
  same : {c : ℕ} {xs ys : Bytes} → Before xs ys → Before (c ∷ xs) (c ∷ ys)

Before-append : {xs ys : Bytes} (s t : Bytes) → Before xs ys → Before (xs ++ s) (ys ++ t)
Before-append s t (less h) = less h
Before-append s t (same b) = same (Before-append s t b)

append-Before : (p : Bytes) {xs ys : Bytes} → Before xs ys → Before (p ++ xs) (p ++ ys)
append-Before [] b = b
append-Before (a ∷ p) b = same (append-Before p b)

reverse-Before :
    (w u v : ℕ) → u < v → v < 256 ^ w → Before (reverse (le_bytes w u)) (reverse (le_bytes w v))
unfolding le_bytes
reverse-Before zero u v lt h = absurd (omega arith)
reverse-Before (suc w) u v lt h =
    let h' : v < 256 ^ w * 256 = rw (← pow-suc 256 w) h in
    rw
      (reverse-cons (u % 256) (le_bytes w (u / 256)), reverse-cons (v % 256) (le_bytes w (v / 256)))
      (elim (high u v lt) [
        | inl high_lt ↦
            Before-append (u % 256 ∷ []) (v % 256 ∷ [])
              (reverse-Before w (u / 256) (v / 256) high_lt (omega arith))
        | inr (high_eq, low_lt) ↦
            rw high_eq (append-Before (reverse (le_bytes w (v / 256))) (less low_lt))
      ])
  where
    high : (u v : ℕ) → u < v → (u / 256 < v / 256) ⊎ ((u / 256 ≡ v / 256) × (u % 256 < v % 256))
    high u v lt = ground arith

-- What a key holds: the prefix, the digest of the ledger, a byte that no one writes, and the time.
abbrev key_of : Bytes → ℕ → ℕ → ℕ → Bytes
key_of digest gap sec nsec =
    (key_ledger_entry ∷ [])
    ++ (digest ++ (gap ∷ (reverse (le_bytes 4 sec) ++ reverse (le_bytes 4 nsec))))

module _ {Node Sexp Mpi : Type 0} (w : World Node Sexp Mpi) where
  -- What the documentation of `to_endian` promises for an integer of four bytes
  abbrev pub SwapsInts : Type 0
  SwapsInts =
      (v : ℕ) → w.lash.to_big_endian (native_bytes w.lash.is_le 4 v) ≡ ok (reverse (le_bytes 4 v))

  keypart_lem :
      (sec nsec : ℕ)
      → SwapsInts
      → sec < 2 ^ 32
      → nsec < 2 ^ 32
      → timespec_to_keypart w sec nsec ≡ ok (reverse (le_bytes 4 sec) ++ reverse (le_bytes 4 nsec))
  unfolding timespec_to_keypart key_int swapped
  keypart_lem sec nsec swap hs hn = rw (mod-eq_of_lt hs, mod-eq_of_lt hn, swap sec, swap nsec)

  item_key_lem :
      (l : Ledger) (item : Item) (a gap : ℕ) (old time rest : Bytes)
      → SwapsInts
      → length l.digest ≡ digest_length
      → length old ≡ digest_length
      → length time ≡ 8
      → item.time_sec < 2 ^ 32
      → item.time_nsec < 2 ^ 32
      → item_key w l item ((a ∷ []) ++ (old ++ (gap ∷ (time ++ rest))))
        ≡ ok (key_of l.digest gap item.time_sec item.time_nsec)
  unfolding item_key db_key le_bytes
  item_key_lem l item a gap old time rest swap dl ol tl hs hn = rw (
    full,
    put_at_lem (a ∷ []) old l.digest (gap ∷ (time ++ rest)) (ol ∙ sym dl),
    put_at_lem [] (a ∷ []) (key_ledger_entry ∷ []) (l.digest ++ (gap ∷ (time ++ rest))) refl,
    keypart_lem item.time_sec item.time_nsec swap hs hn,
    timed,
    cut,
  )
    where
      part : Bytes
      part = reverse (le_bytes 4 item.time_sec) ++ reverse (le_bytes 4 item.time_nsec)

      front : Bytes
      front = key_ledger_entry ∷ (l.digest ++ (gap ∷ []))

      full : take digest_length l.digest ≡ l.digest
      full =
          subst (λ n. take n l.digest ≡ l.digest) dl (simp append-nil at (take-append l.digest []))

      eight : length part ≡ 8
      eight = refl

      wide : length front ≡ 66
      wide = omega (arith, dl, length-append l.digest (gap ∷ []))

      timed :
          put_at 66 part (key_ledger_entry ∷ (l.digest ++ (gap ∷ (time ++ rest))))
          ≡ ok (front ++ (part ++ rest))
      timed = rw (sym (append_assoc l.digest (gap ∷ []) (time ++ rest))) (
          subst (λ n. put_at n part (front ++ (time ++ rest)) ≡ ok (front ++ (part ++ rest))) wide
            (put_at_lem front time part rest tl))

      all : length (front ++ part) ≡ 74
      all = omega (arith, wide, eight, length-append front part)

      cut : take 74 (front ++ (part ++ rest)) ≡ key_of l.digest gap item.time_sec item.time_nsec
      cut =
          subst
            (λ n.
              take n (front ++ (part ++ rest)) ≡ key_of l.digest gap item.time_sec item.time_nsec)
            all
            (ap (take (length (front ++ part))) (sym (append_assoc front part rest))
              ∙ take-append (front ++ part) rest
              ∙ ap (λ r. key_ledger_entry ∷ r) (append_assoc l.digest (gap ∷ []) part))

  -- A time that fits in two `unsigned int`
  abbrev pub Fits : Item → Type 0
  Fits item = (item.time_sec < 2 ^ 32) × (item.time_nsec < 2 ^ 32)

  abbrev pub Earlier : Item → Item → Type 0
  Earlier i j =
      (i.time_sec < j.time_sec) ⊎ ((i.time_sec ≡ j.time_sec) × (i.time_nsec < j.time_nsec))

  times-Before :
      (i j : Item)
      → Fits j
      → Earlier i j
      → Before
          (reverse (le_bytes 4 i.time_sec) ++ reverse (le_bytes 4 i.time_nsec))
          (reverse (le_bytes 4 j.time_sec) ++ reverse (le_bytes 4 j.time_nsec))
  times-Before i j (fs, fn) (inl lt) =
      Before-append _ _ (reverse-Before 4 i.time_sec j.time_sec lt (omega arith))
  times-Before i j (fs, fn) (inr (e, lt)) = rw e (
      append-Before (reverse (le_bytes 4 j.time_sec))
        (reverse-Before 4 i.time_nsec j.time_nsec lt (omega arith)))

  -- The keys of two items of a ledger, made in a buffer with the same content, are in the order of
  -- the items' times: that of the seconds, and of the nanoseconds in one second. The times fit in
  -- 32 bits, the digest has 64 bytes, the buffer has room for the key, and `to_endian` swaps the
  -- bytes of a number.
  pub item_key-Before :
      (l : Ledger) (i j : Item) (a gap : ℕ) (old time rest : Bytes)
      → SwapsInts
      → length l.digest ≡ digest_length
      → length old ≡ digest_length
      → length time ≡ 8
      → Fits i
      → Fits j
      → Earlier i j
      → (ki kj : Bytes) × (item_key w l i ((a ∷ []) ++ (old ++ (gap ∷ (time ++ rest)))) ≡ ok ki)
        × (item_key w l j ((a ∷ []) ++ (old ++ (gap ∷ (time ++ rest)))) ≡ ok kj)
        × Before ki kj
  item_key-Before l i j a gap old time rest swap dl ol tl fi fj earlier = (
    _,
    _,
    item_key_lem l i a gap old time rest swap dl ol tl fi.0 fi.1,
    item_key_lem l j a gap old time rest swap dl ol tl fj.0 fj.1,
    same (append-Before l.digest (same (times-Before i j fj earlier))),
  )
