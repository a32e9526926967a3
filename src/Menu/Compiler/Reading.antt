-- ===== src/Menu/Compiler/Reading.antt =====
-- src/aux/beamenu/gen.c: the two readings of the description as a function of its text.
use gtk4_kee.Prelude.{ℕ, ◌≤◌, ◌≡◌, refl, ap, [], ◌∷◌, some, length, arith}
use gtk4_kee.Prelude.Bytes.{Bytes}
use gtk4_kee.Prelude.Result.{Result, ok, err, fault, ◌>>=◌}
use gtk4_kee.Menu.Compiler.{Build, Compiler, seeking}
use gtk4_kee.Menu.Compiler.Loop.{Reads, fill, whole, eat, passes-eat}
use gtk4_kee.Menu.Compiler.Main.{always, below, read_names, read_links, then_read, read_menu}
use gtk4_kee.Menu.Compiler.Chunks.{name_step, scan-IsPass}
use gtk4_kee.Menu.Compiler.LinkChunks.{link_step, linkscan-IsPass}

-- The text read twice, a byte at a time
unfoldable pub names_of : Build → Bytes → Compiler → Result Compiler
unfolding eat name_step
names_of w [] g = err 1
names_of w (b ∷ text) g = eat always (name_step w) (b ∷ text) g

unfoldable pub links_of : Bytes → Compiler → Result Compiler
unfolding eat link_step
links_of [] g = err 1
links_of (b ∷ text) g =
    eat (below g.tmpc) link_step (b ∷ text)
      (record g { tmpki = 0; tmpm = seeking; line = 0; tmpc = 0 })

unfoldable pub menu_of : Build → Bytes → Compiler → Result Compiler
unfolding names_of links_of
menu_of w text g = do g ← names_of w text g; links_of text g

pub read_names_lem :
    (w : Build) (n : ℕ) (file : Reads) (g : Compiler)
    → length (whole file) ≤ n
    → read_names w n file g ≡ some (names_of w (whole file) g)
unfolding read_names names_of fill
read_names_lem w n [] g h = refl
read_names_lem w n ([] ∷ file) g h = refl
read_names_lem w n ((b ∷ l) ∷ file) g h = passes-eat always (scan-IsPass w) n b l file g h

pub read_links_lem :
    (n : ℕ) (file : Reads) (g : Compiler)
    → length (whole file) ≤ n
    → read_links n file g ≡ some (links_of (whole file) g)
unfolding read_links links_of fill
read_links_lem n [] g h = refl
read_links_lem n ([] ∷ file) g h = refl
read_links_lem n ((b ∷ l) ∷ file) g h =
    passes-eat (below g.tmpc) (linkscan-IsPass g.tmpc) n b l file
      (record g { tmpki = 0; tmpm = seeking; line = 0; tmpc = 0 }) h

-- However the reads of the two readings cut a description, the loops of `main` end after a pass for
-- each of its bytes at most, and do what its text says a byte at a time.
pub read_menu-menu_of :
    (w : Build) (n : ℕ) (file again : Reads) (text : Bytes) (g : Compiler)
    → whole file ≡ text
    → whole again ≡ text
    → length text ≤ n
    → read_menu w n file again g ≡ some (menu_of w text g)
unfolding read_menu menu_of then_read
read_menu-menu_of w n file again text g h h' fuel =
    rw (read_menu, read_names_lem w n file g (omega (arith, ap length h)), h)
      (after (names_of w text g))
  where
    after :
        (r : Result Compiler) → then_read (read_links n again) (some r) ≡ some (r >>= links_of text)
    after fault = refl
    after (err c) = refl
    after (ok g) = rw (read_links_lem n again g (omega (arith, ap length h')), h') refl
