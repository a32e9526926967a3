-- ===== src/Prelude/Bytes.antt =====
-- Bytes in memory: fixed-width integers as the machine lays them out, and the tests that the code
-- makes with `memcmp` and `strlen`.
use Prim.Native.Nat.{ℕ, zero, suc, ◌+◌, ◌*◌, ◌/◌, ◌%◌, ◌^◌, ◌<◌}
use mathlib.Core.Path.{◌≡◌, refl}
use mathlib.Core.Logic.{◌↔◌}
use mathlib.Core.Bool.{Bool, true, false, ◌&&◌}
use mathlib.Core.Option
use mathlib.Core.Option.{Option, none, some}
use mathlib.Core.List.{List, [], ◌∷◌, ◌++◌, reverse, reverse-reverse}
use native.Mathlib.Omega.{arith}
use native.Mathlib.Nat.{pow-suc}
use gtk4_kee.Prelude.Tests.{◌==◌, if◌then◌else◌}
use gtk4_kee.Prelude.Lists.{length}

abbrev pub Bytes : Type 0
Bytes = List ℕ

-- The `w` bytes of a number, lowest first.
unfoldable pub le_bytes : ℕ → ℕ → Bytes
le_bytes zero v = []
le_bytes (suc w) v = v % 256 ∷ le_bytes w (v / 256)

unfoldable pub le_value : Bytes → ℕ
le_value [] = 0
le_value (b ∷ bs) = b + 256 * le_value bs

-- A `w`-byte integer as it stands in memory, on a machine that is little-endian or not.
unfoldable pub native_bytes : Bool → ℕ → ℕ → Bytes
native_bytes le w v = if le then le_bytes w v else reverse (le_bytes w v)

unfoldable pub native_value : Bool → Bytes → ℕ
native_value le bs = if le then le_value bs else le_value (reverse bs)

-- `memcmp(a, b, n) == 0` for two blocks of one length.
abbrev pub same_bytes : Bytes → Bytes → Bool
same_bytes [] [] = true
same_bytes [] (y ∷ ys) = false
same_bytes (x ∷ xs) [] = false
same_bytes (x ∷ xs) (y ∷ ys) = (x == y) && same_bytes xs ys

-- The text before the first NUL of a buffer; `none` where the buffer has no NUL.
unfoldable pub c_string : Bytes → Option Bytes
c_string [] = none
c_string (b ∷ bs) = if b == 0 then some [] else Option.map (λ s. b ∷ s) (c_string bs)

pub length-le_bytes : (w v : ℕ) → length (le_bytes w v) ≡ w
unfolding le_bytes
length-le_bytes zero v = refl
length-le_bytes (suc w) v = omega (arith, length-le_bytes w (v / 256))

-- A number that fits comes back.
pub le_value-le_bytes : (w v : ℕ) → v < 256 ^ w → le_value (le_bytes w v) ≡ v
unfolding le_bytes le_value
le_value-le_bytes zero v h = omega arith
le_value-le_bytes (suc w) v h =
    let h' : v < 256 ^ w * 256 = rw (← pow-suc 256 w) h in
    omega (arith, le_value-le_bytes w (v / 256) (omega arith))

pub native_value-native_bytes :
    (le : Bool) (w v : ℕ) → v < 256 ^ w → native_value le (native_bytes le w v) ≡ v
unfolding native_bytes native_value
native_value-native_bytes true w v h = le_value-le_bytes w v h
native_value-native_bytes false w v h = rw reverse-reverse (le_value-le_bytes w v h)

pub same_bytes_iff : (a b : Bytes) → (same_bytes a b ≡ true) ↔ (a ≡ b)
same_bytes_iff [] [] = ground arith
same_bytes_iff [] (y ∷ ys) = ground arith
same_bytes_iff (x ∷ xs) [] = ground arith
same_bytes_iff (x ∷ xs) (y ∷ ys) = ground (arith, same_bytes_iff xs ys)

-- What stands before the NUL of a buffer that was zero-filled behind a text is that text.
pub data NoNul : Bytes → Type 0 where
  end : NoNul []
  byte : {b : ℕ} {bs : Bytes} → (b == 0) ≡ false → NoNul bs → NoNul (b ∷ bs)

pub c_string_text : (s rest : Bytes) → NoNul s → c_string (s ++ 0 ∷ rest) ≡ some s
unfolding c_string
c_string_text [] rest end = refl
c_string_text (b ∷ s) rest (byte h t) = rw (h, c_string_text s rest t)
