-- ===== src/Examples/Surroundings.antt =====
-- Small executable stand-ins for the libraries that src/ledger.c calls: a tree is a list of tagged
-- values, its encoding has a length before each value, a digest repeats the sum of the bytes of its input,
-- and a signature is the key followed by the digest.
use gtk4_kee.Prelude.{
  ℕ, zero, suc, ◌+◌, ◌-◌, true, List, [], ◌∷◌, ◌++◌, reverse, some, take, drop, replicate, length,
  leb, ◌==◌, if◌then◌else◌,
}
use gtk4_kee.Prelude.Bytes.{Bytes, same_bytes}
use gtk4_kee.Prelude.Result.{Result, ok, err}
use gtk4_kee.Crypto.Library.{Gcrypt, Algo, sha512}
use gtk4_kee.Ledger.Asn1.{
  HeadField, uoa, uoa_decimals, alice_pub_key, bob_pub_key, head_body, EntryField, parent,
  timestamp, credit_delta, collateral_delta, body, signature_request, response, signature_response,
  Name, entry_head, entry, transport, head_field, entry_field, part, Asn1,
}
use gtk4_kee.Ledger.Types.{Lash, World}

abbrev pub Tree : Type 0
Tree = List (ℕ × Bytes)

abbrev head_tag : HeadField → ℕ
head_tag uoa = 10
head_tag uoa_decimals = 11
head_tag alice_pub_key = 12
head_tag bob_pub_key = 13
head_tag head_body = 14

abbrev entry_tag : EntryField → ℕ
entry_tag parent = 20
entry_tag timestamp = 21
entry_tag credit_delta = 22
entry_tag collateral_delta = 23
entry_tag body = 24
entry_tag signature_request = 25
entry_tag response = 26
entry_tag signature_response = 27

abbrev tag : Name → ℕ
tag entry_head = 1
tag entry = 2
tag transport = 3
tag (head_field f) = head_tag f
tag (entry_field f) = entry_tag f
tag (part n) = 30 + n

abbrev find : ℕ → Tree → Result Bytes
find t [] = err 1
find t ((t', v) ∷ rest) = if t' == t then ok v else find t rest

abbrev short : ℕ → Result Bytes → Result Bytes
short size (ok v) = if leb (length v) size then ok v else err 2
short size r = r

abbrev pub encode : Tree → Bytes
encode [] = []
encode ((t, v) ∷ rest) = t ∷ length v ∷ v ++ encode rest

abbrev decode : ℕ → Bytes → Tree
decode zero bs = []
decode (suc n) (t ∷ size ∷ bs) = (t, take size bs) ∷ decode n (drop size bs)
decode (suc n) _ = []

abbrev copy : ℕ → Tree → Result Bytes → Result Tree
copy t node (ok v) = ok ((t, v) ∷ node)
copy t node _ = err 3

abbrev tree_library : Asn1 Tree
tree_library = record {
  array2tree = ok [];
  create_element = λ node name. ok node;
  der_decoding = λ node input. ok (decode (length input) input);
  read_value = λ node name size. short size (find (tag name) node);
  write_value = λ node name v. ok ((tag name, v) ∷ node);
  append = λ node name. ok node;
  copy_node = λ to name from name'. copy (tag name) to (find (tag name') from);
  der_coding = λ node name size. short size (ok (encode node));
}

abbrev sum : Bytes → ℕ
sum [] = 0
sum (b ∷ bs) = b + sum bs

abbrev digest_of : Bytes → Bytes
digest_of input = replicate 64 (sum input)

abbrev pub signature_of : Bytes → Bytes → Bytes
signature_of key msg = take 64 (key ++ digest_of msg)

abbrev digest_size : Algo → ℕ
digest_size sha512 = 64
digest_size _ = 32

abbrev pub crypto_library : Gcrypt Bytes Bytes
crypto_library = record {
  algo_dlen = digest_size;
  md_open = λ a. true;
  hash = λ a input. digest_of input;
  build_pubkey = some;
  build_sig = λ r s. some (r ++ s);
  build_msg = some;
  mpi_scan = λ bs. some (bs, length bs);
  pk_verify = λ sig msg key. same_bytes sig (take 64 (key ++ msg));
}

abbrev byte_library : Lash
byte_library = record {
  is_le = true;
  flip_endian = reverse;
  to_big_endian = λ bs. ok (reverse bs);
  strap_be =
      λ bs size. if leb (length bs) size then ok (replicate (size - length bs) 0 ++ bs) else err 1;
}

abbrev pub surroundings : World Tree Bytes Bytes
surroundings = record {
  asn = tree_library;
  gcry = crypto_library;
  lash = byte_library;
  heap = record { succeeds = λ size. true; garbage = λ size. [] };
  item_image = λ items. replicate 64 9;
  stack = λ size. [];
}
