-- ===== src/KeyStore/Padding.antt =====
-- The size that `get_padsize` of src/gpg.c gives to a block.
use gtk4_kee.Prelude.{
  ℕ, ◌+◌, ◌*◌, ◌/◌, ◌%◌, ◌^◌, ◌≤◌, ◌<◌, ◌≡◌, refl, ◌==◌, arith, Bool-cases, inl, inr, false,
}
use gtk4_kee.Prelude.Result.{ok}
use gtk4_kee.KeyStore.Cipher.{get_padsize}
use native.Mathlib.Nat.{mod-add-div, mod-lt, mul-mod_left, mod-eq_of_lt, add-mul, mul_comm}

-- A size as blocks and a rest
blocks : (c b : ℕ) → c % b + c / b * b ≡ c
blocks c b = rw (mul_comm (c / b) b) (mod-add-div c b)

one_more : (l b : ℕ) → (l + 1) * b ≡ l * b + b
one_more l b = omega (arith, add-mul l 1 b)

-- `get_padsize` gives a multiple of the block size that is above the size of the data, and by one block
-- at most, where no sum passes the largest `size_t`: it is the least such multiple.
pub get_padsize-bounds :
    (insize blocksize : ℕ)
    → 0 < blocksize
    → insize + blocksize < 2 ^ 64
    → (p : ℕ) × (get_padsize insize blocksize ≡ ok p)
      × (p % blocksize ≡ 0)
      × (insize < p)
      × (p ≤ insize + blocksize)
unfolding get_padsize
get_padsize-bounds insize blocksize pos small = elim (Bool-cases ((insize + 1) % blocksize == 0)) [
  | inl even ↦
      let zero_rest : (insize + 1) % blocksize ≡ 0 = ground arith in
      let size : l * blocksize ≡ insize + 1 = omega (arith, zero_rest, split) in
      let fits : l * blocksize < 2 ^ 64 = omega (arith, size, small, pos) in
      (
        l * blocksize,
        rw (exact, even, some_block, mod-eq_of_lt fits) refl,
        mul-mod_left l blocksize,
        omega (arith, size),
        omega (arith, size, pos),
      )
  | inr odd ↦
      let some_rest : 0 < (insize + 1) % blocksize = ground arith in
      let rest : (insize + 1) % blocksize < blocksize = mod-lt (insize + 1) pos in
      let size = one_more l blocksize in
      let fits : (l + 1) * blocksize < 2 ^ 64 = omega (arith, size, small, split, some_rest) in
      (
        (l + 1) * blocksize,
        rw (exact, odd, some_block, mod-eq_of_lt fits) refl,
        mul-mod_left (l + 1) blocksize,
        omega (arith, size, split, rest),
        omega (arith, size, split, some_rest),
      )
]
  where
    l : ℕ
    l = (insize + 1) / blocksize

    split : (insize + 1) % blocksize + l * blocksize ≡ insize + 1
    split = blocks (insize + 1) blocksize

    exact : (insize + 1) % 2 ^ 64 ≡ insize + 1
    exact = omega (arith, small, pos)

    some_block : (blocksize == 0) ≡ false
    some_block = ground (arith, pos)
