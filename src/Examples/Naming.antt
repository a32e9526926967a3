-- ===== src/Examples/Naming.antt =====
-- The theorem on distinguished names, with a library that finds two attributes.
use gtk4_kee.Prelude.Memory.{put_at}
use gtk4_kee.Prelude.Stateful.{◌>>=◌, ◌>>◌, proceed, call, current, modify}
use gtk4_kee.Prelude.{Option, ◌≢◌, refl, [], ◌∷◌, some, none, replicate, arith}
use gtk4_kee.Prelude.Bytes.{Bytes, c_string, end, byte}
use gtk4_kee.DistinguishedName.{
  Dn, Str2Dn, dn_init, dn_from_str, put_attributes, put_attribute, point, lowered, require_cn,
}
use gtk4_kee.DistinguishedName.Reading.{Reads, dn_from_str-Reads}

-- `CN=j, O=k`, whatever the text is
abbrev two_parts : Str2Dn
two_parts = λ text. some ((b'C' ∷ b'N' ∷ [], b'j' ∷ []) ∷ (b'O' ∷ [], b'k' ∷ []) ∷ [])

abbrev empty_name : Dn
empty_name = dn_init (λ size. replicate size 0) 8

abbrev full_name : Dn
full_name = record {
  mem = b'j' ∷ 0 ∷ b'k' ∷ 0 ∷ 0 ∷ 0 ∷ 0 ∷ 0 ∷ [];
  p = 4;
  cn = some 0;
  o = some 2;
  uid = none;
}

empty_name-Reads : Reads empty_name none none none
unfolding dn_init
empty_name-Reads = record { room = omega arith; reads_cn = refl; reads_o = refl; reads_uid = refl }

abbrev common_name : Option Bytes
common_name = some (b'j' ∷ [])

dn_from_str-Reads_example :
    Reads full_name common_name (some (b'k' ∷ [])) none × (common_name ≢ none)
unfolding dn_from_str dn_init c_string put_attributes put_attribute point lowered require_cn put_at
    ◌>>=◌ ◌>>◌ proceed call current modify
dn_from_str-Reads_example =
    dn_from_str-Reads two_parts (b'n' ∷ []) (b'n' ∷ [])
      ((b'C' ∷ b'N' ∷ [], b'j' ∷ []) ∷ (b'O' ∷ [], b'k' ∷ []) ∷ []) empty_name full_name none none
      none refl refl (byte refl end, (byte refl end, tt)) empty_name-Reads refl
