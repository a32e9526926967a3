-- ===== src/Ledger/Asn1.antt =====
-- The calls of libtasn1 that src/ledger.c makes, as an interface: the library is not part of the
-- repository. `Node` is its opaque tree.
use gtk4_kee.Prelude.{ℕ}
use gtk4_kee.Prelude.Bytes.{Bytes}
use gtk4_kee.Prelude.Result.{Result}

-- The fields of `KeeEntryHead` (asn1/schema_entry.txt)
pub data HeadField : Type 0 where
  uoa uoa_decimals alice_pub_key bob_pub_key head_body : HeadField

-- The fields of `KeeEntry`
pub data EntryField : Type 0 where
  parent timestamp credit_delta collateral_delta body : EntryField
  signature_request response signature_response : EntryField

-- The names that the code hands to the library. In a tree of the whole schema they begin with
-- `Kee.KeeEntryHead` or `Kee.KeeEntry`, in an element of one type they are the bare field.
-- `part 1` and `part 2` are the `?1` and `?2` of the sequence `KeeTransport`.
pub data Name : Type 0 where
  entry_head entry transport : Name
  head_field : HeadField → Name
  entry_field : EntryField → Name
  part : ℕ → Name

pub record Asn1 (Node : Type 0) : Type 0 where
  -- asn1_array2tree on the compiled schema
  pub array2tree : Result Node
  pub create_element : Node → Name → Result Node
  pub der_decoding : Node → Bytes → Result Node
  -- asn1_read_value: the bytes that it writes, at most as many as the given size
  pub read_value : Node → Name → ℕ → Result Bytes
  -- asn1_write_value; `append` is the value "NEW" with length 1
  pub write_value : Node → Name → Bytes → Result Node
  pub append : Node → Name → Result Node
  -- asn1_copy_node from the same field of another tree
  pub copy_node : Node → Name → Node → Name → Result Node
  -- asn1_der_coding of the named part, into a buffer of the given size
  pub der_coding : Node → Name → ℕ → Result Bytes
