-- ===== src/DistinguishedName.antt =====
-- src/dn.c: the names of a party, which are texts one behind the other in a block of memory. A pointer
-- into the block is an offset; `c` and `dc`, which are never set, are left out. What OpenLDAP makes of a
-- text is an argument: the type and the value of the first attribute of each part of the name.
pub mod Pointers
pub mod Reading
use gtk4_kee.Prelude.{
  ℕ, ◌+◌, List, [], ◌∷◌, ◌++◌, map, Option, none, some, if◌then◌else◌, ◌==◌, leb, length, replicate,
  bit_or,
}
use gtk4_kee.Prelude.Bytes.{Bytes, c_string, same_bytes}
use gtk4_kee.Prelude.Memory.{put_at}
use gtk4_kee.Prelude.Result.{Result, ok, err, fault, from_option, fault_if}
use gtk4_kee.Prelude.Stateful.{Stateful, ◌>>=◌, ◌>>◌, call, current, modify}

abbrev pub err_fail : ℕ
err_fail = 1

-- `struct kee_dn_t`
pub record Dn : Type 0 where
  pub mem : Bytes
  pub p : ℕ
  pub cn : Option ℕ
  pub o : Option ℕ
  pub uid : Option ℕ

-- KEE_DN_DEFAULT_CAP
abbrev pub default_cap : ℕ
default_cap = 1024

-- `kee_dn_init`; what `malloc` gives for a size is an argument.
unfoldable pub dn_init : (ℕ → Bytes) → ℕ → Dn
dn_init malloc cap = record {
  mem = malloc (if cap == 0 then default_cap else cap);
  p = 0;
  cn = none;
  o = none;
  uid = none;
}

-- `ldap_str2dn` of a text that is not empty
abbrev pub Str2Dn : Type 0
Str2Dn = Bytes → Option (List (Bytes × Bytes))

-- The type of an attribute, each byte with the bits of a small letter
unfoldable pub lowered : Bytes → Bytes
lowered attr = map (λ b. bit_or b 0x60) attr

-- The pointer that is set for an attribute of a type
unfoldable pub point : Bytes → Dn → Result Dn
point t d =
    if same_bytes t (b'c' ∷ b'n' ∷ [])
    then ok (record d { cn = some d.p })
    else if same_bytes t (b'o' ∷ [])
    then ok (record d { o = some d.p })
    else if same_bytes t (b'u' ∷ b'i' ∷ b'd' ∷ [])
    then ok (record d { uid = some d.p })
    else err 1

-- A round of the loop of `kee_dn_from_str`
unfoldable pub put_attribute : Bytes × Bytes → Stateful Dn (Unit {0})
unfolding point lowered
put_attribute (attr, v) = do
  call (fault_if (leb 1024 (length attr)))
  d ← current
  d' ← call (point (lowered attr) d)
  modify (λ _. d')
  mem ← call (put_at d'.p (v ++ 0 ∷ []) d'.mem)
  modify (λ d. record d { mem = mem; p = d.p + (length v + 1) })

unfoldable pub put_attributes : List (Bytes × Bytes) → Stateful Dn (Unit {0})
unfolding put_attribute
put_attributes [] = call (ok tt)
put_attributes (a ∷ attrs) = do put_attribute a; put_attributes attrs

-- `if (dn->cn == NULL)`
unfoldable pub require_cn : Stateful Dn (Unit {0})
require_cn = do d ← current; call (elim (d.cn) [ none ↦ err 1 | some at ↦ ok tt ])

-- `kee_dn_from_str` of the bytes `s`, which the library reads up to a NUL
unfoldable pub dn_from_str : Str2Dn → Bytes → Stateful Dn (Unit {0})
unfolding put_attributes require_cn
dn_from_str str2dn s = do
  call (fault_if (leb 1024 (length s)))
  text ← call (elim (c_string (s ++ 0 ∷ [])) [ none ↦ fault | some t ↦ ok t ])
  attrs ← call (from_option err_fail (str2dn text))
  put_attributes attrs
  require_cn
