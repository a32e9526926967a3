-- ===== src/Ledger/Parse.antt =====
-- src/ledger.c, the decoders: `kee_ledger_parse`, `kee_ledger_parse_item`,
-- `kee_ledger_parse_item_db` and `kee_ledger_parse_open`.
use gtk4_kee.Prelude.{
  ℕ, ◌-◌, Bool, List, [], ◌∷◌, ◌++◌, none, some, ◌==◌, if◌then◌else◌, take, drop, length, overlay,
  get_elem?, get_or,
}
use gtk4_kee.Prelude.Bytes.{Bytes, native_bytes, native_value}
use gtk4_kee.Prelude.Result.{Result, ok, err, fault, or_code}
use gtk4_kee.Content.{Content, content_init}
use gtk4_kee.Ledger.Asn1.{
  entry_head, entry, transport, head_field, entry_field, part, uoa, uoa_decimals, alice_pub_key,
  bob_pub_key, head_body, timestamp, credit_delta, collateral_delta, body, signature_request,
  response, signature_response,
}
use gtk4_kee.Ledger.Types.{
  World, buffer, Ledger, Item, Initiator, alice, bob, is_bob, err_fail, signature_length,
}
use gtk4_kee.Ledger.Items.{blank_ledger, add_item, item_apply_cache, detect_initiator}
use gtk4_kee.Ledger.Serialize.{ledger_digest}
use gtk4_kee.Ledger.Verify.{verify_item_asn}
use gtk4_kee.Ledger.Monad.{Change, ◌>>=◌, ◌>>◌, call, current, modify, modify_last, with_code}

-- One byte read into a `char`; nothing read leaves it.
abbrev pub read_char : ℕ → Bytes → ℕ
read_char old [] = old
read_char old (b ∷ _) = b

-- `credit_delta = &cur->bob_credit_delta` or `&cur->alice_credit_delta`, and a write through it
unfoldable pub set_credit : Bool → ℕ → Item → Item
set_credit from_bob v item =
    if from_bob
    then record item { bob_credit_delta = v }
    else record item { alice_credit_delta = v }

unfoldable pub set_collateral : Bool → ℕ → Item → Item
set_collateral from_bob v item =
    if from_bob
    then record item { bob_collateral_delta = v }
    else record item { alice_collateral_delta = v }

-- `memcpy(signature_request, tmp, c)`, and the same for `signature_response`
unfoldable pub set_request : Bool → Bytes → Item → Item
set_request from_bob sig item =
    if from_bob
    then record item { bob_signature = overlay item.bob_signature sig }
    else record item { alice_signature = overlay item.alice_signature sig }

unfoldable pub set_response : Bool → Bytes → Item → Item
set_response from_bob sig item =
    if from_bob
    then record item { alice_signature = overlay item.alice_signature sig }
    else record item { bob_signature = overlay item.bob_signature sig }

-- `kee_ledger_item_apply_cache(ledger, cur)`
unfoldable pub apply_last : Ledger → Ledger
unfolding item_apply_cache
apply_last l = elim (l.items) [ [] ↦ l | cur ∷ prev ↦ item_apply_cache l cur ]

module _ {Node Sexp Mpi : Type 0} (w : World Node Sexp Mpi) where
  -- `kee_ledger_parse`
  unfoldable pub ledger_parse : Bytes → Change (Unit {0})
  ledger_parse input = do
    root ← call (or_code err_fail w.asn.array2tree)
    item ← call (w.asn.create_element root entry_head)
    item ← call (w.asn.der_decoding item input)
    text ← call (w.asn.read_value item (head_field uoa) 64)
    modify (λ l. record l { uoa = overlay l.uoa text })
    decimals ← call (w.asn.read_value item (head_field uoa_decimals) 1)
    modify (λ l. record l { uoa_decimals = read_char l.uoa_decimals decimals })
    key ← call (w.asn.read_value item (head_field alice_pub_key) 32)
    modify (λ l. record l { pubkey_alice = overlay l.pubkey_alice key })
    key ← call (w.asn.read_value item (head_field bob_pub_key) 32)
    modify (λ l. record l { pubkey_bob = overlay l.pubkey_bob key })
    text ← call (w.asn.read_value item (head_field head_body) 64)
    l ← current
    content ← call (or_code 1 (content_init w.heap l.content (overlay (buffer w 64) text) 0))
    modify (λ l. record l { content = content })
    l ← current
    digest ← call (or_code 1 (ledger_digest w l))
    modify (λ l. record l { digest = overlay l.digest digest })

  -- `flip_endian` where the machine is little-endian
  abbrev pub to_host : Bytes → Bytes
  to_host mem = if w.lash.is_le then w.lash.flip_endian mem else mem

  -- The `int` that held `old`, after `strap_be` of the bytes read and the change of byte order. A
  -- refusal of `strap_be` is not looked at, and leaves the memory as it was.
  unfoldable pub delta_of : ℕ → Bytes → Result ℕ
  delta_of old read =
      let mem = native_bytes w.lash.is_le 4 old in
      elim (w.lash.strap_be read 4) [
        | ok out ↦ ok (native_value w.lash.is_le (to_host out))
        | err _ ↦ ok (native_value w.lash.is_le (to_host mem))
        | fault ↦ fault
      ]

  -- `memcpy(&field, mem, 4)` into a 64-bit field
  abbrev pub write_4 : ℕ → Bytes → ℕ
  write_4 old mem =
      native_value w.lash.is_le (overlay (native_bytes w.lash.is_le 8 old) (take 4 mem))

  -- The two halves of the first eight bytes of `tmp`, in the machine's order
  abbrev pub host_stamp : Bytes → Bytes
  host_stamp tmp = to_host (take 4 tmp) ++ to_host (take 4 (drop 4 tmp)) ++ drop 8 tmp

  -- `kee_content_init(&(cur->content), tmp, 0)`
  unfoldable pub last_content : List Item → Bytes → Result Content
  last_content [] key = fault
  last_content (cur ∷ prev) key = content_init w.heap cur.content key 0

  -- `kee_ledger_parse_item` from the decoded element on, up to the cache: the checks and reads
  -- after the item was added. `from_bob` is `initiator == BOB`, which chose the pointers.
  unfoldable pub fill_item : Node → Bool → Change (Unit {0})
  fill_item item from_bob = do
    l ← current
    call (verify_item_asn w l item (if from_bob then l.pubkey_alice else l.pubkey_bob))
    v ← call (w.asn.read_value item (entry_field credit_delta) 4)
    v ← call (delta_of 0 v)
    modify_last (set_credit from_bob v)
    v ← call (w.asn.read_value item (entry_field collateral_delta) 4)
    v ← call (delta_of 0 v)
    modify_last (set_collateral from_bob v)
    text ← call (w.asn.read_value item (entry_field response) 8)
    let tmp = overlay (buffer w 64) text
    modify_last (λ cur. record cur { response = get_or tmp 0 0 == b'T' })
    stamp ← call (w.asn.read_value item (entry_field timestamp) 8)
    let tmp = host_stamp (overlay tmp stamp)
    modify_last (λ cur. record cur {
      time_sec = write_4 cur.time_sec tmp;
      time_nsec = write_4 cur.time_nsec (drop 4 tmp);
    })
    key ← call (w.asn.read_value item (entry_field body) 64)
    l ← current
    content ← call (last_content l.items (overlay tmp key))
    modify_last (λ cur. record cur { content = content })
    sig ← call (w.asn.read_value item (entry_field signature_request) signature_length)
    modify_last (set_request from_bob sig)
    sig ← call (w.asn.read_value item (entry_field signature_response) signature_length)
    modify_last (set_response from_bob sig)

  -- `kee_ledger_parse_item`; a return of NULL is an error. The item is added before the data is
  -- decoded.
  unfoldable pub parse_item : Bytes → Initiator → Change (Unit {0})
  unfolding fill_item add_item apply_last
  parse_item input initiator =
      let from_bob = is_bob initiator in
      do
        root ← call w.asn.array2tree
        item ← call (w.asn.create_element root entry)
        modify add_item
        modify_last (λ cur. record cur { initiator = if from_bob then bob else alice })
        item ← call (w.asn.der_decoding item input)
        fill_item item from_bob
        modify apply_last

  -- `kee_ledger_parse_item_db`: the last byte tells the initiator. No data has no last byte.
  unfoldable pub parse_item_db : Bytes → Change (Unit {0})
  unfolding parse_item
  parse_item_db input = elim (get_elem? input (length input - 1)) [
    | none ↦ call fault
    | some b ↦ parse_item (take (length input - 1) input) (if b == 0 then alice else bob)
  ]

  -- `kee_ledger_parse_open`; `own` is `gpg->public_key`.
  unfoldable pub parse_open : Bytes → Bytes → Change (Unit {0})
  unfolding ledger_parse parse_item
  parse_open own input = do
    modify (λ _. blank_ledger)
    root ← call (or_code err_fail w.asn.array2tree)
    pair ← call (or_code err_fail (w.asn.create_element root transport))
    pair ← call (or_code err_fail (w.asn.der_decoding pair input))
    b ← call (or_code err_fail (w.asn.der_coding pair (part 1) 1024))
    with_code (ledger_parse b)
    b ← call (or_code err_fail (w.asn.der_coding pair (part 2) 1024))
    l ← current
    with_code (parse_item b (detect_initiator l own))
