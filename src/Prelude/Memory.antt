-- ===== src/Prelude/Memory.antt =====
-- Copies into a block of memory.
use gtk4_kee.Prelude.Tests.{Bool-cases, ltb, if◌then◌else◌}
use gtk4_kee.Prelude.Lists.{
  length, replicate, take, drop, overlay, take-overlay, take-append, drop-append, length-append,
}
use gtk4_kee.Prelude.Bytes.{Bytes}
use gtk4_kee.Prelude.Result.{Result, ok, fault, ok-injective}
use Prim.Native.Nat.{ℕ, zero, suc, ◌+◌, ◌≤◌}
use mathlib.Core.Path.{◌≡◌, refl, ap, sym, subst, ◌∙◌}
use mathlib.Core.Bool.{false}
use mathlib.Core.Logic.{inl, inr}
use mathlib.Core.List.{append_assoc, List, [], ◌∷◌, ◌++◌}
use native.Mathlib.Omega.{arith}

-- `memcpy` to an offset of a block; outside of the block C promises nothing.
unfoldable pub put_at : ℕ → Bytes → Bytes → Result Bytes
put_at at bs buf =
    if ltb (length buf) (at + length bs)
    then fault
    else ok (take at buf ++ overlay (drop at buf) bs)

-- A copy to the start of a block replaces as much as it is long.
pub overlay-append {ℓ} :
    {A : Type ℓ} (old bs rest : List A)
    → length old ≡ length bs
    → overlay (old ++ rest) bs ≡ bs ++ rest
overlay-append [] [] [] e = refl
overlay-append [] [] (x ∷ rest) e = refl
overlay-append [] (y ∷ bs) rest e = absurd (omega arith)
overlay-append (x ∷ old) [] rest e = absurd (omega arith)
overlay-append (x ∷ old) (y ∷ bs) rest e =
    ap (λ r. y ∷ r) (overlay-append old bs rest (omega arith))

pub put_at_lem :
    (front old bs rest : Bytes)
    → length old ≡ length bs
    → put_at (length front) bs (front ++ (old ++ rest)) ≡ ok (front ++ (bs ++ rest))
unfolding put_at
put_at_lem front old bs rest e =
    rw (in_bounds, take-append, drop-append, overlay-append old bs rest e)
  where
    in_bounds : ltb (length (front ++ (old ++ rest))) (length front + length bs) ≡ false
    in_bounds = ground (arith, e, length-append front (old ++ rest), length-append old rest)

-- A copy that is shorter than the block leaves the rest of it.
pub overlay_short {ℓ} :
    {A : Type ℓ} (old new : List A)
    → length new ≤ length old
    → overlay old new ≡ new ++ drop (length new) old
overlay_short [] [] h = refl
overlay_short [] (y ∷ new) h = absurd (omega arith)
overlay_short (x ∷ old) [] h = refl
overlay_short (x ∷ old) (y ∷ new) h = ap (λ r. y ∷ r) (overlay_short old new (omega arith))

pub put_at-append :
    (front bs buf : Bytes)
    → length bs ≤ length buf
    → put_at (length front) bs (front ++ buf) ≡ ok (front ++ (bs ++ drop (length bs) buf))
unfolding put_at
put_at-append front bs buf h = rw (in_bounds, take-append, drop-append, overlay_short buf bs h)
  where
    in_bounds : ltb (length (front ++ buf)) (length front + length bs) ≡ false
    in_bounds = ground (arith, length-append front buf)

pub replicate_add {ℓ} :
    {A : Type ℓ} (a b : ℕ) (x : A) → replicate (a + b) x ≡ replicate a x ++ replicate b x
replicate_add zero b x = ap (λ n. replicate n x) (omega arith)
replicate_add (suc a) b x =
    let e : suc a + b ≡ suc (a + b) = omega arith in rw e (ap (λ r. x ∷ r) (replicate_add a b x))

-- Where a copy is in bounds, and what it leaves
pub put_at-succeeds :
    (at : ℕ) (bs buf : Bytes) {out : Bytes}
    → put_at at bs buf ≡ ok out
    → (at + length bs ≤ length buf) × (take at buf ++ overlay (drop at buf) bs ≡ out)
unfolding put_at
put_at-succeeds at bs buf h = elim (Bool-cases (ltb (length buf) (at + length bs))) [
  | inl over ↦ absurd (let h' = rw over at h in cc)
  | inr fits ↦ (ground arith, ok-injective (rw fits at h))
]

-- Two copies side by side
pub side_by_side :
    (a b old bs out : Bytes)
    → put_at 0 a old ≡ ok bs
    → put_at (length a) b bs ≡ ok out
    → take (length (a ++ b)) out ≡ a ++ b
side_by_side a b old bs out h h' =
    let (fits, e) = put_at-succeeds 0 a old h in
    let fits'' : length a ≤ length old = omega (arith, fits) in
    let (fits', e') = put_at-succeeds (length a) b bs h' in
    let first : bs ≡ a ++ drop (length a) old = sym e ∙ overlay_short old a fits'' in
    let room : length b ≤ length (drop (length a) old) =
      omega (arith, ap length first, fits', length-append a (drop (length a) old)) in
    let h'' = put_at-append a b (drop (length a) old) room in
    let last = ok-injective (sym (subst (λ x. put_at (length a) b x ≡ ok out) first h') ∙ h'') in
    rw (last, ← append_assoc) (take-append (a ++ b) (drop (length b) (drop (length a) old)))

-- A copy to the start, read again
pub take-put_at : (a old out : Bytes) → put_at 0 a old ≡ ok out → take (length a) out ≡ a
take-put_at a old out h =
    let (fits, e) = put_at-succeeds 0 a old h in rw (← e) (take-overlay old a (omega (arith, fits)))
