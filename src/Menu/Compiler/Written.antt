-- ===== src/Menu/Compiler/Written.antt =====
-- src/aux/beamenu/gen.c: what the files hold that the compiler writes, where each write takes all that
-- it is given.
use gtk4_kee.Prelude.{
  ℕ, suc, ◌+◌, ◌≤◌, ◌<◌, ◌≡◌, refl, sym, ◌∙◌, true, false, List, [], ◌∷◌, ◌++◌, map, some, length,
  arith, ltb, ◌==◌, ◌&&◌, length-append,
}
use mathlib.Core.List.{append_assoc, append-nil}
use gtk4_kee.Prelude.Bytes.{Bytes, NoNul, c_string_text}
use gtk4_kee.Prelude.Result.{ok}
use gtk4_kee.Prelude.Stateful.{Stateful, ◌>>=◌, proceed, call, >>=_run}
use gtk4_kee.Menu.Graph.{Node, Menu, get, read-middle, cn_maxlen}
use gtk4_kee.Menu.RoundTrip.{name_of}
use gtk4_kee.Menu.Compiler.{newline}
use gtk4_kee.Menu.Compiler.Decimal.{IsDecimal, decimal-IsDecimal, capital, upper-capital}
use gtk4_kee.Menu.Compiler.Write.{
  decimal, Writer, uc, upper, name_copy, text_at, define_line, string_line, write_all,
  write_defines, write_defs, write_strings, write_impl, guard, extern_dst, end_guard, open_array,
  close_array,
}

-- Letters, digits and other bytes that are neither NUL nor negative as a `char`
pub data Ascii : Bytes → Type 0 where
  end : Ascii []
  byte : {b : ℕ} {bs : Bytes} → 0 < b → b < 128 → Ascii bs → Ascii (b ∷ bs)

-- `uc` puts the letters of a text in upper case, and leaves what is behind its NUL.
pub uc-map-upper : (s rest : Bytes) → Ascii s → uc (s ++ 0 ∷ rest) ≡ ok (map upper s ++ 0 ∷ rest)
unfolding uc
uc-map-upper [] rest end = unfold upper in refl
uc-map-upper (b ∷ s) rest (byte p q a) = rw (uc, inside, uc-map-upper s rest a) refl
  where
    inside : (ltb 0 b && ltb b 128) ≡ true
    inside = ground arith

Ascii-NoNul : {s : Bytes} → Ascii s → NoNul s
Ascii-NoNul end = NoNul.end
Ascii-NoNul (byte p q a) = NoNul.byte (ground arith) (Ascii-NoNul a)

upper-Ascii : {s : Bytes} → Ascii s → NoNul (map upper s)
unfolding upper
upper-Ascii end = NoNul.end
upper-Ascii (byte p q a) = NoNul.byte (ground arith) (upper-Ascii a)

abbrev pub define_name : Bytes
define_name =
    b'#' ∷ b'd' ∷ b'e' ∷ b'f' ∷ b'i' ∷ b'n' ∷ b'e' ∷ b' ' ∷ b'B' ∷ b'E' ∷ b'A' ∷ b'M' ∷ b'E' ∷ b'N'
    ∷ b'U' ∷ b'_' ∷ b'D' ∷ b'S' ∷ b'T' ∷ b'_' ∷ []

-- A node that has a name that `strcpy` and `uc` take
pub record IsNamed (o : Node) : Type 0 where
  pub named : o.cn ≡ some (name_of o)
  pub ascii : Ascii (name_of o)
  pub fits : length (name_of o) ≤ 32

abbrev pub AllNamed : List Node → Type 0
AllNamed [] = Unit
AllNamed (o ∷ nodes) = IsNamed o × AllNamed nodes

-- The lines of the nodes from a number on, as the code makes them
abbrev pub defines_text : ℕ → List Node → Bytes
defines_text i [] = []
defines_text i (o ∷ nodes) = define_line (map upper (name_of o)) i ++ defines_text (i + 1) nodes

-- A text with a line for each node from a number on: "#define BEAMENU_DST_", the name in capital letters,
-- a space and the number in decimal digits
abbrev pub IsDefines : ℕ → List Node → Bytes → Type 0
IsDefines i [] text = text ≡ []
IsDefines i (o ∷ nodes) text =
    (d : Bytes) × (rest : Bytes) × IsDecimal i d
    × IsDefines (i + 1) nodes rest
    × (text ≡ define_name ++ (map capital (name_of o) ++ b' ' ∷ (d ++ newline ∷ rest)))

defines_text-IsDefines : (i : ℕ) (nodes : List Node) → IsDefines i nodes (defines_text i nodes)
unfolding define_line
defines_text-IsDefines i [] = refl
defines_text-IsDefines i (o ∷ nodes) = (
  decimal i,
  defines_text (i + 1) nodes,
  decimal-IsDecimal i,
  defines_text-IsDefines (i + 1) nodes,
  rw (upper-capital (name_of o)) (simp append_assoc),
)

abbrev pub strings_text : List Node → Bytes
strings_text [] = []
strings_text (o ∷ nodes) = string_line (name_of o) ++ strings_text nodes

-- A device that takes all that it is given
pub record Takes {Out : Type 0} (f : Writer Out) : Type 0 where
  pub takes :
      (o : Out) (b : Bytes)
      → (o' : Out) × (f.write o b ≡ (some (length b), o')) × (f.written o' ≡ f.written o ++ b)

module _ {Out : Type 0} (f : Writer Out) (t : Takes f) where
  -- A step that ends well, and adds a text to what is written
  abbrev Adds : Stateful Out ℕ → Out → Bytes → ℕ → Type 0
  Adds m o b r = (o' : Out) × (m o ≡ (ok r, o')) × (f.written o' ≡ f.written o ++ b)

  write_all_lem : (b : Bytes) (o : Out) → Adds (write_all f b) o b (length b)
  unfolding write_all
  write_all_lem b o = let (o', e, w) = t.takes o b in (o', rw (write_all, e, same) refl, w)
    where
      same : (length b == length b) ≡ true
      same = ground arith

  copied : (o : Node) → IsNamed o → name_copy o ≡ ok (name_of o ++ 0 ∷ [])
  unfolding name_copy
  copied o n = rw (name_copy, n.named, fits) refl
    where
      fits : ltb cn_maxlen (length (name_of o)) ≡ false
      fits = ground (arith, n.fits)

  text_lem : (s : Bytes) → NoNul s → text_at (s ++ 0 ∷ []) ≡ ok s
  unfolding text_at
  text_lem s n = rw (text_at, c_string_text s [] n) refl

  one_define :
      (m : Menu) (k : ℕ) (x : Node) (done rest : List Node) (r : ℕ) (o : Out) {o' : Out}
      → m.nodes ≡ done ++ x ∷ rest
      → IsNamed x
      → write_all f (define_line (map upper (name_of x)) (length done)) o
        ≡ (ok (length (define_line (map upper (name_of x)) (length done))), o')
      → write_defines f m (suc k) (length done) r o
        ≡ write_defines f m k
            (length done + 1)
            (length (define_line (map upper (name_of x)) (length done)))
            o'
  unfolding write_defines ◌>>=◌ proceed call get
  one_define m k x done rest r o h n e =
      rw
        (
          write_defines,
          h,
          read-middle done x rest,
          copied x n,
          uc-map-upper (name_of x) [] n.ascii,
          text_lem (map upper (name_of x)) (upper-Ascii n.ascii),
          e,
        )
        refl

  one_string :
      (m : Menu) (k : ℕ) (x : Node) (done rest : List Node) (r : ℕ) (o : Out) {o' : Out}
      → m.nodes ≡ done ++ x ∷ rest
      → IsNamed x
      → write_all f (string_line (name_of x)) o ≡ (ok (length (string_line (name_of x))), o')
      → write_strings f m (suc k) (length done) r o
        ≡ write_strings f m k (length done + 1) (r + length (string_line (name_of x))) o'
  unfolding write_strings ◌>>=◌ proceed call get
  one_string m k x done rest r o h n e =
      rw
        (
          write_strings,
          h,
          read-middle done x rest,
          copied x n,
          text_lem (name_of x) (Ascii-NoNul n.ascii),
          e,
        )
        refl

  write_defines_lem :
      (m : Menu) (nodes done rest : List Node) (r : ℕ) (o : Out)
      → m.nodes ≡ done ++ (nodes ++ rest)
      → AllNamed nodes
      → (r' : ℕ) × Adds
          (write_defines f m (length nodes) (length done) r)
          o
          (defines_text (length done) nodes)
          r'
  write_defines_lem m [] done rest r o h n =
      (r, (o, unfold write_defines call in refl, sym (append-nil (f.written o))))
  write_defines_lem m (x ∷ nodes) done rest r o h (n, more) =
      let line = define_line (map upper (name_of x)) (length done) in
      let (o', e, w) = write_all_lem line o in
      let (r', (o'', e', w')) =
        write_defines_lem m nodes (done ++ x ∷ []) rest (length line) o' (rw append_assoc h) more in
      (
        r',
        (
          o'',
          one_define m (length nodes) x done (nodes ++ rest) r o h n e ∙ simp length-append at e',
          w' ∙ rw (w, append_assoc) (simp length-append),
        ),
      )

  write_strings_lem :
      (m : Menu) (nodes done rest : List Node) (r : ℕ) (o : Out)
      → m.nodes ≡ done ++ (nodes ++ rest)
      → AllNamed nodes
      → (r' : ℕ) × (r ≤ r')
        × Adds (write_strings f m (length nodes) (length done) r) o (strings_text nodes) r'
  write_strings_lem m [] done rest r o h n =
      (r, omega arith, (o, unfold write_strings call in refl, sym (append-nil (f.written o))))
  write_strings_lem m (x ∷ nodes) done rest r o h (n, more) =
      let line = string_line (name_of x) in
      let (o', e, w) = write_all_lem line o in
      let (r', up, (o'', e', w')) =
        write_strings_lem m nodes (done ++ x ∷ []) rest (r + length line) o' (rw append_assoc h)
          more in
      (
        r',
        omega (arith, up),
        (
          o'',
          one_string m (length nodes) x done (nodes ++ rest) r o h n e ∙ simp length-append at e',
          w' ∙ rw (w, append_assoc) refl,
        ),
      )

  defines_written :
      (m : Menu) (nodes rest : List Node) (o : Out)
      → m.nodes ≡ nodes ++ rest
      → AllNamed nodes
      → (r : ℕ) × (0 < r)
        × Adds
            (write_defs f (length nodes) m)
            o
            (guard ++ (defines_text 0 nodes ++ (extern_dst ++ end_guard)))
            r
  unfolding write_defs
  defines_written m nodes rest o h n =
      let (o', e, w) = write_all_lem guard o in
      let (r, (o'', e', w')) = write_defines_lem m nodes [] rest (length guard) o' h n in
      let (o3, e3, w3) = write_all_lem extern_dst o'' in
      let (o4, e4, w4) = write_all_lem end_guard o3 in
      (
        r + length extern_dst + length end_guard,
        omega arith,
        (
          o4,
          >>=_run (write_all f guard) _ e
              ∙ >>=_run (write_defines f m (length nodes) 0 (length guard)) _ e'
              ∙ >>=_run (write_all f extern_dst) _ e3
              ∙ >>=_run (write_all f end_guard) _ e4
              ∙ unfold call in refl,
          w4 ∙ rw (w3, w', w) (simp append_assoc),
        ),
      )

  -- Where each write takes all that it is given and the nodes have names of at most 32 bytes that are
  -- neither NUL nor negative, `write_defs` succeeds, and adds to its file the guard, a line for each node
  -- in order, which defines its name in capital letters after "BEAMENU_DST_" as its number in decimal
  -- digits, the declaration and the end of the guard.
  pub write_defs-IsDefines :
      (m : Menu) (nodes rest : List Node) (o : Out)
      → m.nodes ≡ nodes ++ rest
      → AllNamed nodes
      → (text : Bytes) × (r : ℕ) × IsDefines 0 nodes text
        × (0 < r)
        × Adds (write_defs f (length nodes) m) o (guard ++ (text ++ (extern_dst ++ end_guard))) r
  write_defs-IsDefines m nodes rest o h n =
      let (r, positive, adds) = defines_written m nodes rest o h n in
      (defines_text 0 nodes, r, defines_text-IsDefines 0 nodes, positive, adds)

  -- Where each write takes all that it is given and the nodes have such names, `write_impl` succeeds,
  -- and adds to its file the array of their names as strings, in order.
  pub write_impl-strings_text :
      (m : Menu) (nodes rest : List Node) (o : Out)
      → m.nodes ≡ nodes ++ rest
      → AllNamed nodes
      → (r : ℕ) × (0 < r)
        × Adds
            (write_impl f (length nodes) m)
            o
            (open_array ++ (strings_text nodes ++ close_array))
            r
  unfolding write_impl
  write_impl-strings_text m nodes rest o h n =
      let (o', e, w) = write_all_lem open_array o in
      let (r, up, (o'', e', w')) = write_strings_lem m nodes [] rest (length open_array) o' h n in
      let (o3, e3, w3) = write_all_lem close_array o'' in
      (
        r + length close_array,
        omega arith,
        (
          o3,
          >>=_run (write_all f open_array) _ e
              ∙ >>=_run (write_strings f m (length nodes) 0 (length open_array)) _ e'
              ∙ >>=_run (write_all f close_array) _ e3
              ∙ unfold call in refl,
          w3 ∙ rw (w', w) (simp append_assoc),
        ),
      )
