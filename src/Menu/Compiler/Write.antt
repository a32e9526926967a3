-- ===== src/Menu/Compiler/Write.antt =====
-- src/aux/beamenu/gen.c, the part that writes the menu: `uc`, `write_data`, `write_defs` and
-- `write_impl`, each to a file of its own. What they return is not 0 where they succeed; a return of
-- 0, with which `main` ends, is an error here.
use gtk4_kee.Prelude.{
  ℕ, zero, suc, ◌+◌, ◌-◌, ◌*◌, ◌/◌, ◌%◌, ◌^◌, true, false, [], ◌∷◌, ◌++◌, Option, none, some,
  if◌then◌else◌, ◌==◌, ltb, length, take, ◌&&◌,
}
use gtk4_kee.Prelude.Bytes.{Bytes, c_string}
use gtk4_kee.Prelude.Result.{Result, ok, err, fault}
use gtk4_kee.Prelude.Stateful.{Stateful, ◌>>=◌, call}
use gtk4_kee.Menu.Graph.{Node, Menu, get, cn_maxlen}
use gtk4_kee.Menu.File.{export_menu}
use gtk4_kee.Menu.Compiler.{Build}

-- A file that is open for writing: `write` gives how many bytes were taken, or -1, which is `none`;
-- `written` is what it has been given since it was opened.
pub record Writer (Out : Type 0) : Type 0 where
  pub write : Out → Bytes → Option ℕ × Out
  pub written : Out → Bytes

-- The texts of the two source files
abbrev pub guard : Bytes
guard =
    b'#' ∷ b'i' ∷ b'f' ∷ b'n' ∷ b'd' ∷ b'e' ∷ b'f' ∷ b' ' ∷ b'B' ∷ b'E' ∷ b'A' ∷ b'M' ∷ b'E' ∷ b'N'
    ∷ b'U' ∷ b'_' ∷ b'D' ∷ b'E' ∷ b'F' ∷ b'S' ∷ b'_' ∷ b'H' ∷ b'_' ∷ 0x0a ∷ b'#' ∷ b'd' ∷ b'e'
    ∷ b'f' ∷ b'i' ∷ b'n' ∷ b'e' ∷ b' ' ∷ b'B' ∷ b'E' ∷ b'A' ∷ b'M' ∷ b'E' ∷ b'N' ∷ b'U' ∷ b'_'
    ∷ b'D' ∷ b'E' ∷ b'F' ∷ b'S' ∷ b'_' ∷ b'H' ∷ b'_' ∷ 0x0a ∷ 0x0a ∷ []

abbrev pub define_dst : Bytes
define_dst =
    b'#' ∷ b'd' ∷ b'e' ∷ b'f' ∷ b'i' ∷ b'n' ∷ b'e' ∷ b' ' ∷ b'B' ∷ b'E' ∷ b'A' ∷ b'M' ∷ b'E' ∷ b'N'
    ∷ b'U' ∷ b'_' ∷ b'D' ∷ b'S' ∷ b'T' ∷ b'_' ∷ []

abbrev pub extern_dst : Bytes
extern_dst =
    0x0a ∷ b'e' ∷ b'x' ∷ b't' ∷ b'e' ∷ b'r' ∷ b'n' ∷ b' ' ∷ b'c' ∷ b'h' ∷ b'a' ∷ b'r' ∷ b' ' ∷ b'*'
    ∷ b'b' ∷ b'e' ∷ b'a' ∷ b'm' ∷ b'e' ∷ b'n' ∷ b'u' ∷ b'_' ∷ b'd' ∷ b's' ∷ b't' ∷ b'_' ∷ b'r'
    ∷ b'[' ∷ b']' ∷ b';' ∷ 0x0a ∷ []

abbrev pub end_guard : Bytes
end_guard = 0x0a ∷ b'#' ∷ b'e' ∷ b'n' ∷ b'd' ∷ b'i' ∷ b'f' ∷ 0x0a ∷ []

abbrev pub open_array : Bytes
open_array =
    b'c' ∷ b'h' ∷ b'a' ∷ b'r' ∷ b' ' ∷ b'*' ∷ b'b' ∷ b'e' ∷ b'a' ∷ b'm' ∷ b'e' ∷ b'n' ∷ b'u' ∷ b'_'
    ∷ b'd' ∷ b's' ∷ b't' ∷ b'_' ∷ b'r' ∷ b'[' ∷ b']' ∷ b' ' ∷ b'=' ∷ b' ' ∷ b'{' ∷ 0x0a ∷ []

abbrev pub open_string : Bytes
open_string = 0x09 ∷ 0x22 ∷ []

abbrev pub close_string : Bytes
close_string = 0x22 ∷ b',' ∷ 0x0a ∷ []

abbrev pub close_array : Bytes
close_array = b'}' ∷ b';' ∷ 0x0a ∷ []

-- `%d` of a number that is not negative
unfoldable pub decimal_on : ℕ → ℕ → Bytes
decimal_on zero v = []
decimal_on (suc n) v =
    if ltb v 10 then (48 + v) ∷ [] else decimal_on n (v / 10) ++ (48 + v % 10) ∷ []

unfoldable pub decimal : ℕ → Bytes
unfolding decimal_on
decimal v = decimal_on (suc v) v

-- A letter between 0x60 and 0x7b
unfoldable pub upper : ℕ → ℕ
upper b = if ltb 0x60 b && ltb b 0x7b then b - 0x20 else b

-- `uc`, which ends behind the first byte that is 0 or, as a `char`, negative
unfoldable pub uc : Bytes → Result Bytes
unfolding upper
uc [] = fault
uc (b ∷ bs) = elim (ltb 0 b && ltb b 128) [
  | false ↦ ok (upper b ∷ bs)
  | true ↦ elim (uc bs) [ fault ↦ fault | err c ↦ err c | ok rest ↦ ok (upper b ∷ rest) ]
]

-- `strcpy(k, o->cn)`, into an array of KEYMAXLEN + 1 bytes: what it holds of it
unfoldable pub name_copy : Node → Result Bytes
name_copy o = elim (o.cn) [
  | none ↦ fault
  | some s ↦ if ltb cn_maxlen (length s) then fault else ok (s ++ 0 ∷ [])
]

unfoldable pub text_at : Bytes → Result Bytes
text_at k = elim (c_string k) [ none ↦ fault | some s ↦ ok s ]

-- The lines that `sprintf` puts in the buffer of 1024 bytes, which is more than they take
unfoldable pub define_line : Bytes → ℕ → Bytes
unfolding decimal
define_line k i = define_dst ++ (k ++ 0x20 ∷ (decimal i ++ 0x0a ∷ []))

unfoldable pub string_line : Bytes → Bytes
string_line k = open_string ++ (k ++ close_string)

-- What follows a `write` of `n` bytes: the count, where it is all of them
unfoldable all_of : {Out : Type 0} → ℕ → Option ℕ × Out → Result ℕ × Out
all_of n (none, o) = (err 1, o)
all_of n (some c, o) = if c == n then (ok c, o) else (err 1, o)

-- What follows a `write` in `write_data`, with `l` bytes left before it and `r` counted; -1 adds to `l`.
unfoldable pub counted :
    {Out : Type 0}
    → (ℕ → ℕ → Out → Option (Result ℕ × Out))
    → ℕ
    → ℕ
    → Option ℕ × Out
    → Option (Result ℕ × Out)
counted again l r (none, o) = again (l + 1) ((r + (2 ^ 32 - 1)) % 2 ^ 32) o
counted again l r (some zero, o) = some (err 1, o)
counted again l r (some (suc c), o) = again (l - suc c) ((r + suc c) % 2 ^ 32) o

module _ {Out : Type 0} (f : Writer Out) where
  -- `c = write(f, buf, l); if (c != l) { close(f); return 0; }`
  unfoldable pub write_all : Bytes → Stateful Out ℕ
  unfolding all_of
  write_all b o = all_of (length b) (f.write o b)

  -- The loop of `write_defs` over `k` nodes from `i` on: `r` is the return of `uc`, which is 0, and
  -- then counts the line.
  unfoldable pub write_defines : Menu → ℕ → ℕ → ℕ → Stateful Out ℕ
  unfolding get name_copy uc text_at write_all define_line
  write_defines m zero i r = call (ok r)
  write_defines m (suc k) i r = do
    o ← call (get m i)
    k' ← call (name_copy o)
    k' ← call (uc k')
    k' ← call (text_at k')
    c ← write_all (define_line k' i)
    write_defines m k (i + 1) c

  unfoldable pub write_defs : ℕ → Menu → Stateful Out ℕ
  unfolding write_defines
  write_defs n_dst m = do
    r ← write_all guard
    r ← write_defines m n_dst 0 r
    c ← write_all extern_dst
    c' ← write_all end_guard
    call (ok (r + c + c'))

  -- The loop of `write_impl`
  unfoldable pub write_strings : Menu → ℕ → ℕ → ℕ → Stateful Out ℕ
  unfolding get name_copy text_at write_all string_line
  write_strings m zero i r = call (ok r)
  write_strings m (suc k) i r = do
    o ← call (get m i)
    k' ← call (name_copy o)
    k' ← call (text_at k')
    c ← write_all (string_line k')
    write_strings m k (i + 1) (r + c)

  unfoldable pub write_impl : ℕ → Menu → Stateful Out ℕ
  unfolding write_strings
  write_impl n_dst m = do
    r ← write_all open_array
    r ← write_strings m n_dst 0 r
    c ← write_all close_array
    call (ok (r + c))

  -- The loop of `write_data`, on fuel, with `l` bytes left to write, from the start of the block each
  -- time, and `r` as an unsigned number.
  unfoldable pub write_block : ℕ → Bytes → ℕ → ℕ → Out → Option (Result ℕ × Out)
  unfolding counted
  write_block zero block l r o = none
  write_block (suc n) block l r o =
      if l == 0
      then some (ok r, o)
      else if ltb (length block) l
      then some (fault, o)
      else counted (write_block n block) l r (f.write o (take l block))

  -- `write_data`: `r` is what the variable holds, which is not set, and `rest` what lies in the block
  -- of `malloc` behind the exported bytes.
  unfoldable pub write_data : Build → ℕ → ℕ → Bytes → Menu → Out → Option (Result ℕ × Out)
  unfolding export_menu write_block
  write_data w n r rest m o = elim (export_menu w.n_dst m 1) [
    | fault ↦ some (fault, o)
    | err c ↦ some (ok r, o)
    | ok b ↦
        if ltb (w.n_dst * (cn_maxlen + w.n_exits + 1)) (length b)
        then some (fault, o)
        else write_block n (b ++ rest) (length b) r o
  ]
