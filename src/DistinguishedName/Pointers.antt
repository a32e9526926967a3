-- ===== src/DistinguishedName/Pointers.antt =====
-- src/dn.c: what a pointer into the block of a name leads to, while texts are put behind the others.
use gtk4_kee.Prelude.{
  ◌≢◌, ℕ, zero, suc, ◌+◌, ◌≤◌, ◌≡◌, refl, sym, ap, ◌∙◌, subst, [], ◌∷◌, ◌++◌, Option, none, some,
  ◌==◌, length, take, drop, arith, Bool-cases, Option-cases, inl, inr, take-append, drop-append,
  length-append, length-take, length-drop,
}
use mathlib.Core.List.{append_assoc}
use gtk4_kee.Prelude.Bytes.{Bytes, NoNul, c_string, c_string_text}
use gtk4_kee.Prelude.Memory.{put_at, put_at-succeeds, overlay_short}
use gtk4_kee.Prelude.Result.{ok}

-- What a pointer leads to in the part of the block that is in use
abbrev pub Leads : ℕ → Bytes → Option ℕ → Option Bytes → Type 0
Leads p mem none v = v ≡ none
Leads p mem (some at) v =
    (t : Bytes) × (v ≡ some t) × (at ≤ p) × (c_string (drop at (take p mem)) ≡ some t)

c_string-append : (xs ys : Bytes) {t : Bytes} → c_string xs ≡ some t → c_string (xs ++ ys) ≡ some t
unfolding c_string
c_string-append [] ys h = absurd (cc)
c_string-append (x ∷ xs) ys {t} h = elim (Bool-cases (x == 0)) [
  | inl e ↦ rw (c_string, e) (simp (c_string, e) at h)
  | inr e ↦ elim (Option-cases (c_string xs)) [
    | inl n ↦ absurd (let h' = simp (c_string, e, n) at h in cc)
    | inr (t', e') ↦ rw (c_string, e, c_string-append xs ys e') (simp (c_string, e, e') at h)
  ]
]

drop-front : (at : ℕ) (xs ys : Bytes) → at ≤ length xs → drop at (xs ++ ys) ≡ drop at xs ++ ys
drop-front zero xs ys h = refl
drop-front (suc at) [] ys h = absurd (omega arith)
drop-front (suc at) (x ∷ xs) ys h = drop-front at xs ys (omega arith)

-- What is in use after a text with its NUL was put behind it
pub put-takes :
    (p : ℕ) (v mem : Bytes) {mem' : Bytes}
    → p ≤ length mem
    → put_at p (v ++ 0 ∷ []) mem ≡ ok mem'
    → (take (p + (length v + 1)) mem' ≡ take p mem ++ (v ++ 0 ∷ []))
      × (p + (length v + 1) ≤ length mem')
put-takes p v mem {mem'} h e =
    let bs = v ++ 0 ∷ [] in
    let (fits, made) = put_at-succeeds p bs mem e in
    let long : length bs ≡ length v + 1 = omega (arith, length-append v (0 ∷ [])) in
    let back = drop (length bs) (drop p mem) in
    let front : length (take p mem) ≡ p = omega (arith, length-take p mem, h) in
    let used : length (take p mem ++ bs) ≡ p + (length v + 1) =
      omega (arith, front, long, length-append (take p mem) bs) in
    let room : length bs ≤ length (drop p mem) = omega (arith, fits, length-drop p mem) in
    let whole : mem' ≡ (take p mem ++ bs) ++ back =
      sym made
      ∙ ap (λ r. take p mem ++ r) (overlay_short (drop p mem) bs room)
      ∙ sym (append_assoc (take p mem) bs back) in
    (
      rw (whole, ← used) (take-append (take p mem ++ bs) back),
      omega (arith, used, ap length whole, length-append (take p mem ++ bs) back),
    )

-- A text that is in use stays, and the new one is at the old end.
pub Leads-kept :
    (p : ℕ) (v mem : Bytes) {mem' : Bytes} (f : Option ℕ) (x : Option Bytes)
    → p ≤ length mem
    → put_at p (v ++ 0 ∷ []) mem ≡ ok mem'
    → Leads p mem f x
    → Leads (p + (length v + 1)) mem' f x
Leads-kept p v mem none x h e l = l
Leads-kept p v mem {mem'} (some at) x h e (t, same, below, reads) =
    let (used, _) = put-takes p v mem h e in
    let front : length (take p mem) ≡ p = omega (arith, length-take p mem, h) in
    (
      t,
      same,
      omega (arith, below),
      rw (used, drop-front at (take p mem) (v ++ 0 ∷ []) (omega (arith, front, below)))
          (c_string-append (drop at (take p mem)) (v ++ 0 ∷ []) reads),
    )

pub Leads-new :
    (p : ℕ) (v mem : Bytes) {mem' : Bytes}
    → p ≤ length mem
    → NoNul v
    → put_at p (v ++ 0 ∷ []) mem ≡ ok mem'
    → Leads (p + (length v + 1)) mem' (some p) (some v)
Leads-new p v mem h n e =
    let (used, _) = put-takes p v mem h e in
    let front : p ≡ length (take p mem) = omega (arith, length-take p mem, h) in
    (
      v,
      refl,
      omega arith,
      rw used (
          subst (λ k. c_string (drop k (take p mem ++ (v ++ 0 ∷ []))) ≡ some v) (sym front)
            (rw (drop-append (take p mem) (v ++ 0 ∷ [])) (c_string_text v [] n))),
    )

pub Leads-some :
    (p : ℕ) (mem : Bytes) (f : Option ℕ) (x : Option Bytes) → Leads p mem f x → f ≢ none → x ≢ none
Leads-some p mem none x l n = absurd (n refl)
Leads-some p mem (some at) x (t, same, _, _) n = λ e. let e' = sym same ∙ e in cc
