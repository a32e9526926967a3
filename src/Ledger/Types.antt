-- ===== src/Ledger/Types.antt =====
-- The types of src/ledger.h, and what src/ledger.c takes from its surroundings.
use gtk4_kee.Prelude.{ℕ, ◌+◌, ◌%◌, ◌^◌, Bool, true, false, List, ◌++◌, Option, take, replicate}
use gtk4_kee.Prelude.Bytes.{Bytes}
use gtk4_kee.Prelude.Result.{Result}
use gtk4_kee.Content.{Content, Alloc}
use gtk4_kee.Crypto.Library.{Gcrypt}
use gtk4_kee.Ledger.Asn1.{Asn1}

abbrev pub err_fail : ℕ
err_fail = 1

abbrev pub err_already_signed : ℕ
err_already_signed = 0x201

abbrev pub digest_length : ℕ
digest_length = 64

abbrev pub signature_length : ℕ
signature_length = 64

abbrev pub pubkey_length : ℕ
pubkey_length = 32

-- `enum kee_initiator_e`
pub data Initiator : Type 0 where
  noone alice bob : Initiator

-- `initiator == BOB`
abbrev pub is_bob : Initiator → Bool
is_bob bob = true
is_bob _ = false

-- `initiator == NOONE`
abbrev pub is_noone : Initiator → Bool
is_noone noone = true
is_noone _ = false

-- `enum kee_ledger_state_e`, and the number that C gives each constant
pub data LedgerState : Type 0 where
  request response final : LedgerState

abbrev pub state_code : LedgerState → ℕ
state_code request = 0
state_code response = 1
state_code final = 2

-- `int` as its 32-bit pattern. A signed overflow, which C leaves undefined, wraps here.
abbrev pub int_mod : ℕ
int_mod = 2 ^ 32

abbrev pub add_int : ℕ → ℕ → ℕ
add_int a b = (a + b) % int_mod

-- `struct kee_ledger_item_t`, without the link: a ledger holds its items as a list, the last one
-- first, so `prev_item` is the item behind. `time_sec` and `time_nsec` are 64-bit patterns.
pub record Item : Type 0 where
  pub alice_credit_delta : ℕ
  pub bob_credit_delta : ℕ
  pub alice_collateral_delta : ℕ
  pub bob_collateral_delta : ℕ
  pub time_sec : ℕ
  pub time_nsec : ℕ
  pub initiator : Initiator
  pub response : Bool
  pub alice_signature : Bytes
  pub bob_signature : Bytes
  pub content : Content

-- `struct kee_ledger_cache_t`
pub record Cache : Type 0 where
  pub count : ℕ
  pub alice_credit_balance : ℕ
  pub bob_credit_balance : ℕ
  pub alice_collateral_balance : ℕ
  pub bob_collateral_balance : ℕ

-- `struct kee_ledger_t`; `items` is the chain from `last_item` on, and `cache` may be null.
pub record Ledger : Type 0 where
  pub digest : Bytes
  pub items : List Item
  pub pubkey_alice : Bytes
  pub pubkey_bob : Bytes
  pub uoa_decimals : ℕ
  pub uoa : Bytes
  pub content : Content
  pub cache : Option Cache

-- The functions of liblash that the ledger calls. liblash is a library of its own that the
-- repository carries a copy of.
pub record Lash : Type 0 where
  pub is_le : Bool
  -- flip_endian on an integer of as many bytes as given
  pub flip_endian : Bytes → Bytes
  -- to_endian(TO_ENDIAN_BIG, length, bytes); an error is its return of 1
  pub to_big_endian : Bytes → Result Bytes
  -- strap_be(in, length in, out, size): what it leaves in `out`, or its return of 1
  pub strap_be : Bytes → ℕ → Result Bytes

-- The surroundings of src/ledger.c. `item_image` gives the first 64 bytes that `*last_item`
-- occupies in memory, which begin with the address of the item before it; `stack` the bytes that a
-- local buffer of a size holds before anything is written to it.
pub record World (Node Sexp Mpi : Type 0) : Type 0 where
  pub asn : Asn1 Node
  pub gcry : Gcrypt Sexp Mpi
  pub lash : Lash
  pub heap : Alloc
  pub item_image : List Item → Bytes
  pub stack : ℕ → Bytes

-- A local buffer of the given size, not initialised.
unfoldable pub buffer : {Node Sexp Mpi : Type 0} → World Node Sexp Mpi → ℕ → Bytes
buffer w size = take size (w.stack size ++ replicate size 0)
