-- ===== src/Content.antt =====
-- src/content.c: the text that a ledger or one of its items refers to by its digest.
pub mod Resolve
use gtk4_kee.Prelude.{
  ◌≡◌, refl, ℕ, ◌+◌, ◌-◌, ◌≤◌, ◌<◌, Bool, true, false, not, List, [], ◌∷◌, ◌++◌, Option, none, some,
  ◌==◌, ltb, leb, if◌then◌else◌, take, drop, length, overlay, replicate, bit_or, arith,
}
use gtk4_kee.Prelude.Bytes.{Bytes, same_bytes}
use gtk4_kee.Prelude.Result.{Result, ok, err, fault, ◌>>=◌, ◌>>◌, fail_if, fault_if}

abbrev pub default_size : ℕ
default_size = 4096

abbrev pub key_size : ℕ
key_size = 64

abbrev pub resolved : ℕ
resolved = 1

abbrev pub resolved_data : ℕ
resolved_data = 2

abbrev pub resolved_body : ℕ
resolved_body = 4

abbrev pub resolved_subject : ℕ
resolved_subject = 8

abbrev pub zero_content : Bytes
zero_content = replicate 64 0

-- `struct kee_content_t`. `mem` is the allocated block that `mem` and `body` both point to;
-- `subject` is the offset of the subject in it (`none` for the null pointer).
pub record Content : Type 0 where
  pub key : Bytes
  pub mem_size : ℕ
  pub mem : Bytes
  pub subject : Option ℕ
  pub flags : ℕ

-- A `struct kee_content_t` that `memset` or `calloc` has cleared.
abbrev pub blank : Content
blank = record { key = zero_content; mem_size = 0; mem = []; subject = none; flags = 0 }

-- What the code takes from the system: whether `malloc` of a size succeeds, and the bytes that a
-- fresh block holds.
pub record Alloc : Type 0 where
  pub succeeds : ℕ → Bool
  pub garbage : ℕ → Bytes

module _ (heap : Alloc) where
  -- `kee_content_init`; `key` is the buffer that the first 64 bytes are copied from.
  unfoldable pub content_init : Content → Bytes → ℕ → Result Content
  content_init content key size_hint =
      let size = if size_hint == 0 then default_size else size_hint in
      do
        fail_if (not (heap.succeeds size)) 1
        ok (record content {
          key = take key_size key;
          mem_size = size;
          mem = take size (heap.garbage size ++ replicate size 0);
          subject = none;
          flags = 0;
        })
