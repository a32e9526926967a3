-- ===== src/KeyStore/Stored.antt =====
-- The loops of src/gpg.c that write a ciphertext to a file and read it again, and the laws that a
-- file, a cipher and an S-expression are taken to have.
use gtk4_kee.Prelude.{
  ℕ, zero, suc, ◌*◌, ◌≤◌, ◌≡◌, refl, sym, ap, ◌∙◌, [], ◌∷◌, ◌++◌, some, take, drop, length, true,
  false, ltb, ◌==◌, arith, Bool-cases, inl, inr, length-drop,
}
use gtk4_kee.Prelude.Bytes.{Bytes}
use mathlib.Core.List.{append_assoc, append-nil}
use gtk4_kee.KeyStore.Library.{Keys, Disk}
use gtk4_kee.KeyStore.File.{read_items}
use gtk4_kee.KeyStore.Text.{write_items}
use mathlib.Core.List.{append-nil}

-- A file that was made is empty, and what is appended to it stands at its end; the disk has room.
pub record IsDisk {Files : Type 0} (disk : Disk Files) : Type 0 where
  pub created :
      (f f' : Files) (path : Bytes) → disk.create f path ≡ some f' → disk.content f' path ≡ some []
  pub has_room : (f : Files) (path bs : Bytes) → (disk.append f path bs).0 ≡ true
  pub appended :
      (f : Files) (path bs old : Bytes)
      → disk.content f path ≡ some old
      → disk.content (disk.append f path bs).1 path ≡ some (old ++ bs)

-- A cipher keeps the length and is undone, random bytes are as many as asked for, and the text of a key
-- reads as the key.
pub record IsCipher {Sexp : Type 0} (keys : Keys Sexp) : Type 0 where
  pub undone : (k n m c : Bytes) → keys.encrypt k n m ≡ some c → keys.decrypt k n c ≡ some m
  pub same_length : (k n m c : Bytes) → keys.encrypt k n m ≡ some c → length c ≡ length m
  pub random_length : (n : ℕ) → length (keys.randomize n) ≡ n
  pub nonce_long : (n : ℕ) → length (keys.create_nonce n) ≡ n
  pub reads : (key : Sexp) → keys.sexp_new (keys.sprint key) ≡ some key

pub take-drop : (n : ℕ) (bs : Bytes) → take n bs ++ drop n bs ≡ bs
take-drop zero bs = refl
take-drop (suc n) [] = refl
take-drop (suc n) (b ∷ bs) = ap (λ r. b ∷ r) (take-drop n bs)

nil_of : (bs : Bytes) → length bs ≡ 0 → bs ≡ []
nil_of [] e = refl
nil_of (b ∷ bs) e = absurd (omega arith)

-- Everything is written.
pub write_items_lem :
    {Files : Type 0} (disk : Disk Files) (law : IsDisk disk) (path : Bytes) (n : ℕ) (bs old : Bytes)
    (f : Files)
    → length bs ≤ n * 1024
    → disk.content f path ≡ some old
    → disk.content (write_items disk path n bs f) path ≡ some (old ++ bs)
unfolding write_items
write_items_lem disk law path zero bs old f h e = rw (nil_of bs (omega (arith, h)), append-nil) e
write_items_lem disk law path (suc n) bs old f h e = elim (Bool-cases (length bs == 0)) [
  | inl z ↦ let z' : length bs ≡ 0 = ground arith in rw (z, nil_of bs z', append-nil) e
  | inr some_left ↦
      rw (some_left, law.has_room f path (take 1024 bs))
        (write_items_lem disk law path n (drop 1024 bs) (old ++ take 1024 bs)
            (disk.append f path (take 1024 bs)).1 (omega (arith, h, length-drop 1024 bs))
            (law.appended f path (take 1024 bs) old e)
          ∙ ap some (
              append_assoc old (take 1024 bs) (drop 1024 bs)
              ∙ ap (λ r. old ++ r) (take-drop 1024 bs)))
]

-- A file of whole items is read whole.
pub read_items_lem :
    (n k : ℕ) (file : Bytes) → length file ≡ k * 1024 → k ≤ n → read_items n file ≡ file
unfolding read_items
read_items_lem zero k file e h = sym (nil_of file (omega (arith, e, h)))
read_items_lem (suc n) zero file e h = rw (nil_of file (omega (arith, e))) refl
read_items_lem (suc n) (suc k) file e h =
    let long : ltb (length file) 1024 ≡ false = ground (arith, e) in
    rw
      (
        long,
        read_items_lem n k (drop 1024 file) (omega (arith, e, length-drop 1024 file)) (omega arith),
      )
      (take-drop 1024 file)
