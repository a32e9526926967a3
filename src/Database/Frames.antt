-- ===== src/Database/Frames.antt =====
-- src/db.c: going through the entries leaves the environment as it is.
use gtk4_kee.Prelude.{ℕ, ◌≡◌, refl, ◌∙◌, Bool, true, false, if◌then◌else◌, get_or, ◌==◌}
use gtk4_kee.Prelude.Bytes.{Bytes}
use gtk4_kee.Prelude.Result.{Result, ok, err, fault}
use gtk4_kee.Prelude.Stateful.{Stateful, ◌>>=◌, ◌>>◌, proceed, call, current, modify, attempt}
use gtk4_kee.Database.{Ctx}
use gtk4_kee.Database.Library.{Lmdb}
use gtk4_kee.Database.Browse.{close_old, open_new, restart, forward, matched, db_next, db_rewind}

module _ {Env Tx Cursor : Type 0} where
  -- A call that leaves the environment as it is, however it ends
  abbrev pub Frames : {A : Type 0} → Stateful (Ctx Env Tx Cursor) A → Type 0
  Frames m = (s : Ctx Env Tx Cursor) → (m s).1.env ≡ s.env

  pub >>=-Frames :
      {A B : Type 0} (m : Stateful (Ctx Env Tx Cursor) A) (f : A → Stateful (Ctx Env Tx Cursor) B)
      → Frames m
      → ((a : A) → Frames (f a))
      → Frames (m >>= f)
  unfolding ◌>>=◌ proceed
  >>=-Frames {A} {B} m f h h' s = after (m s) (h s)
    where
      after : (o : Result A × Ctx Env Tx Cursor) → o.1.env ≡ s.env → (proceed f o).1.env ≡ s.env
      after (ok a, s') e = h' a s' ∙ e
      after (err c, s') e = e
      after (fault, s') e = e

  pub >>-Frames :
      {B : Type 0} (m : Stateful (Ctx Env Tx Cursor) (Unit {0}))
      (k : Stateful (Ctx Env Tx Cursor) B)
      → Frames m
      → Frames k
      → Frames (m >> k)
  unfolding ◌>>◌
  >>-Frames m k h h' = >>=-Frames m (λ _. k) h (λ _. h')

  pub call-Frames : {A : Type 0} (r : Result A) → Frames (call r)
  unfolding call
  call-Frames r s = refl

  pub current-Frames : Frames current
  unfolding current
  current-Frames s = refl

  modify-Frames :
      (f : Ctx Env Tx Cursor → Ctx Env Tx Cursor)
      → ((s : Ctx Env Tx Cursor) → (f s).env ≡ s.env)
      → Frames (modify f)
  unfolding modify
  modify-Frames f h s = h s

  if-Frames :
      {A : Type 0} (b : Bool) (m k : Stateful (Ctx Env Tx Cursor) A)
      → Frames m
      → Frames k
      → Frames (if b then m else k)
  if-Frames true m k h h' = h
  if-Frames false m k h h' = h'

  pub attempt-Frames :
      {A : Type 0} (m : Stateful (Ctx Env Tx Cursor) A) → Frames m → Frames (attempt m)
  attempt-Frames m h s = h s

  module _ (db : Lmdb Env Tx Cursor) where
    pub db_rewind-Frames : Frames (db_rewind db)
    unfolding db_rewind
    db_rewind-Frames =
        >>=-Frames _ _ current-Frames
          (λ ctx. >>=-Frames _ _ (call-Frames _) (λ _. modify-Frames _ (λ s. refl)))

    close_old-Frames : Frames (close_old db)
    unfolding close_old
    close_old-Frames = >>=-Frames _ _ current-Frames (λ ctx. >>=-Frames _ _ (call-Frames _) (λ crsr.
        >>-Frames _ _ (modify-Frames _ (λ s. refl))
          (>>=-Frames _ _ (call-Frames _) (λ tx. modify-Frames _ (λ s. refl)))))

    open_new-Frames : (pfx : ℕ) (key : Bytes) (n : ℕ) → Frames (open_new db pfx key n)
    unfolding open_new
    open_new-Frames pfx key n = >>=-Frames _ _ current-Frames (λ ctx.
        >>=-Frames _ _ (call-Frames _) (λ tx. >>-Frames _ _ (modify-Frames _ (λ s. refl)) (
          >>-Frames _ _ (call-Frames _) (
            >>=-Frames _ _ (call-Frames _) (λ crsr.
              >>-Frames _ _ (modify-Frames _ (λ s. refl))
                (>>=-Frames _ _ (call-Frames _) (λ start. call-Frames _)))))))

    restart-Frames : (pfx : ℕ) (key : Bytes) (n : ℕ) → Frames (restart db pfx key n)
    unfolding restart
    restart-Frames pfx key n = >>=-Frames _ _ current-Frames (λ ctx.
        >>-Frames _ _ (if-Frames ctx.started _ _ close_old-Frames (call-Frames _))
          (open_new-Frames pfx key n))

    forward-Frames : Frames (forward db)
    unfolding forward
    forward-Frames =
        >>=-Frames _ _ current-Frames
          (λ ctx. >>=-Frames _ _ (call-Frames _) (λ crsr. call-Frames _))

    matched-Frames : (crsr : Cursor) (k : Bytes) → Frames (matched db crsr k)
    unfolding matched
    matched-Frames crsr k = >>-Frames _ _ (modify-Frames _ (λ s. refl)) (
        >>=-Frames _ _ current-Frames (λ ctx.
          if-Frames (get_or k 0 0 == ctx.current_key) _ _ (call-Frames _)
            (>>-Frames _ _ (modify-Frames _ (λ s. refl)) (call-Frames _))))

    pub db_next-Frames :
        (pfx : ℕ) (key : Bytes) (n : ℕ) (v : Bytes) → Frames (db_next db pfx key n v)
    unfolding db_next
    db_next-Frames pfx key n v = >>-Frames _ _ (call-Frames _) (
        >>=-Frames _ _ current-Frames (λ ctx.
          >>=-Frames _ _ (if-Frames ctx.browsing _ _ forward-Frames (restart-Frames pfx key n))
            (λ (crsr, k, v'). >>-Frames _ _ (matched-Frames crsr k) (call-Frames _))))
