-- ===== src/Content/Resolve.antt =====
-- `kee_content_resolve` of src/content.c. The resolver (`cadiz_resolve`) and the mail parser (the
-- library cmime) are passed in.
pub mod Overlap
use gtk4_kee.Prelude.{
  ◌≡◌, refl, ℕ, ◌+◌, ◌-◌, ◌≤◌, ◌<◌, ◌^◌, ◌%◌, Bool, true, false, List, [], ◌∷◌, ◌++◌, Option, none,
  some, ◌==◌, ltb, leb, if◌then◌else◌, take, drop, length, overlay, bit_or, arith,
}
use gtk4_kee.Prelude.Bytes.{Bytes, same_bytes, c_string, NoNul}
use gtk4_kee.Prelude.Result.{Result, ok, err, fault, ◌>>=◌, ◌>>◌, fault_if}
use gtk4_kee.Content.{
  Content, resolved, resolved_data, resolved_body, resolved_subject, zero_content,
}

-- `resolve key cap` is what `cadiz_resolve` finds for a key where there is room for `cap` bytes,
-- and `subject_of` the subject, stripped, of a message that cmime can parse.
pub record Resolver : Type 0 where
  pub resolve : Bytes → ℕ → Option Bytes
  pub subject_of : Bytes → Option Bytes

-- A copy of a text with its NUL to an offset of a block
unfoldable pub copy_to : ℕ → Bytes → Bytes → Result Bytes
copy_to at s mem =
    if ltb (length mem) (at + (length s + 1))
    then fault
    else ok (take at mem ++ overlay (drop at mem) (s ++ 0 ∷ []))

-- The lines after the subject is known; `c` is the offset that it goes to.
unfoldable pub put_subject : ℕ → Bytes → Content → Result Content
unfolding copy_to
put_subject c subject content =
    if leb (length subject + 1) content.mem_size
    then (do
      mem ← copy_to c subject content.mem
      ok (record content {
        mem = mem;
        subject = some c;
        mem_size = content.mem_size - (length subject + 1);
        flags = bit_or content.flags resolved_subject;
      }))
    else ok content

abbrev pub with_flag : ℕ → Content → Content
with_flag flag content = record content { flags = bit_or content.flags flag }

-- The lines after the parse: what cmime returned, and the offset for the subject
unfoldable pub take_subject : Option Bytes → ℕ → Content → Result Content
unfolding put_subject
take_subject none c content = ok content
take_subject (some subject) c content = do
  content ← put_subject c subject content
  ok (with_flag resolved_body content)

abbrev text_or_fault : Option Bytes → Result Bytes
text_or_fault none = fault
text_or_fault (some text) = ok text

-- The text in a block, for a function that reads to the NUL
unfoldable pub text_in : Bytes → Result Bytes
text_in mem = text_or_fault (c_string mem)

module _ (w : Resolver) where
  -- The lines from the resolver's answer on: nothing, or the data that it put into `body`
  unfoldable pub take_data : Option Bytes → Content → Result Content
  unfolding take_subject
  take_data none content = ok (record content { flags = resolved })
  take_data (some data_in) content =
      let c = (length data_in + (2 ^ 64 - 1)) % 2 ^ 64 in
      do
        mem ← copy_to 0 data_in content.mem
        text ← text_in mem
        content ← take_subject (w.subject_of text) c (record content {
          mem = mem;
          mem_size = (content.mem_size + 2 ^ 64 - c) % 2 ^ 64;
          flags = resolved_data;
        })
        ok (with_flag resolved content)

  -- `kee_content_resolve`
  unfoldable pub content_resolve : Content → Result Content
  unfolding take_data
  content_resolve content =
      if same_bytes (take 64 content.key) zero_content then ok content else (do
        fault_if (content.mem_size == 0)
        take_data (w.resolve content.key (content.mem_size - 1)) content)
