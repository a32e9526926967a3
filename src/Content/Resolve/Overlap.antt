-- ===== src/Content/Resolve/Overlap.antt =====
-- What `kee_content_resolve` of src/content.c leaves in memory.
use gtk4_kee.Prelude.{
  ◌≡◌, refl, ℕ, ◌+◌, ◌-◌, ◌≤◌, ◌<◌, ◌^◌, ◌%◌, true, false, [], ◌∷◌, ◌++◌, some, take, drop, length,
  arith, take-append, drop-append, length-append, ◌==◌, length-drop,
}
use gtk4_kee.Prelude.Bytes.{Bytes, NoNul, end, byte, c_string, c_string_text, same_bytes}
use gtk4_kee.Prelude.Memory.{overlay_short}
use gtk4_kee.Prelude.Result.{ok}
use gtk4_kee.Content.{Content, zero_content, ltb, leb}
use gtk4_kee.Content.Resolve.{
  Resolver, copy_to, put_subject, text_in, take_data, content_resolve, take_subject,
}
use mathlib.Core.List.{append_assoc}

NoNul-append : (s t : Bytes) → NoNul s → NoNul t → NoNul (s ++ t)
NoNul-append [] t end h' = h'
NoNul-append (b ∷ s) t (byte e h) h' = byte e (NoNul-append s t h h')

NoNul-front : (s t : Bytes) → NoNul (s ++ t) → NoNul s
NoNul-front [] t h = end
NoNul-front (b ∷ s) t (byte e h) = byte e (NoNul-front s t h)

-- A text copied behind a part of the block that stays
copy_to_lem :
    (front old s : Bytes)
    → length s + 1 ≤ length old
    → copy_to (length front) s (front ++ old) ≡ ok (front ++ (s ++ 0 ∷ drop (length s + 1) old))
unfolding copy_to
copy_to_lem front old s h = rw (
  in_bounds,
  take-append,
  drop-append,
  overlay_short old (s ++ 0 ∷ []) fits,
  append_assoc,
  length-append s (0 ∷ []),
)
  where
    fits : length (s ++ 0 ∷ []) ≤ length old
    fits = omega (arith, length-append s (0 ∷ []))

    in_bounds : ltb (length (front ++ old)) (length front + (length s + 1)) ≡ false
    in_bounds = ground (arith, length-append front old)

text_in_lem : (s rest : Bytes) → NoNul s → text_in (s ++ 0 ∷ rest) ≡ ok s
unfolding text_in
text_in_lem s rest h = rw (c_string_text s rest h)

-- The offset that the code computes for the subject
last_byte : (n : ℕ) → n + 1 < 2 ^ 64 → (n + 1 + (2 ^ 64 - 1)) % 2 ^ 64 ≡ n
last_byte n h = omega arith

left_over : (n size : ℕ) → n ≤ size → size < 2 ^ 64 → (size + 2 ^ 64 - n) % 2 ^ 64 ≡ size - n
left_over n size le lt = omega arith

module _ (w : Resolver) where
  -- Where the resolver finds a message without a NUL that fits, and its subject fits in what the
  -- code takes to be left, the subject is stored on top of the message's last byte: the message
  -- in memory becomes the message less its last byte with the subject behind, the size that is left
  -- is that of the block less these bytes and the NUL, and all four flags are set.
  pub content_resolve-overlaps :
      (content : Content) (front subject : Bytes) (x : ℕ)
      → same_bytes (take 64 content.key) zero_content ≡ false
      → length content.mem ≡ content.mem_size
      → content.mem_size < 2 ^ 64
      → w.resolve content.key (content.mem_size - 1) ≡ some (front ++ x ∷ [])
      → length front + 2 ≤ content.mem_size
      → NoNul (front ++ x ∷ [])
      → w.subject_of (front ++ x ∷ []) ≡ some subject
      → NoNul subject
      → length front + (length subject + 1) ≤ content.mem_size
      → (content' : Content) × (content_resolve w content ≡ ok content')
        × (c_string content'.mem ≡ some (front ++ subject))
        × (content'.subject ≡ some (length front))
        × (content'.mem_size ≡ content.mem_size - (length front + (length subject + 1)))
        × (content'.flags ≡ 15)
  unfolding content_resolve take_data take_subject put_subject
  content_resolve-overlaps content front subject x key size small found fits text parsed clean
        room =
      (
        record content {
          mem = front ++ (subject ++ 0 ∷ after);
          subject = some (length front);
          mem_size = content.mem_size - length front - (length subject + 1);
          flags = 15;
        },
        rw (
          key,
          not_empty,
          found,
          first,
          text_in_lem (front ++ x ∷ []) behind text,
          parsed,
          offset,
          left,
          enough,
          second,
        ),
        rw (← append_assoc) (
            c_string_text (front ++ subject) after
              (NoNul-append front subject (NoNul-front front (x ∷ []) text) clean)),
        refl,
        omega arith,
        refl,
      )
    where
      n+1 : length (front ++ x ∷ []) ≡ length front + 1
      n+1 = length-append front (x ∷ [])

      behind : Bytes
      behind = drop (length (front ++ x ∷ []) + 1) content.mem

      after : Bytes
      after = drop (length subject + 1) (x ∷ 0 ∷ behind)

      first : copy_to 0 (front ++ x ∷ []) content.mem ≡ ok ((front ++ x ∷ []) ++ 0 ∷ behind)
      first = copy_to_lem [] content.mem (front ++ x ∷ []) (omega (arith, n+1, size))

      second :
          copy_to (length front) subject ((front ++ x ∷ []) ++ 0 ∷ behind)
          ≡ ok (front ++ (subject ++ 0 ∷ after))
      second = rw append_assoc (
          copy_to_lem front (x ∷ 0 ∷ behind) subject (
            omega (arith, n+1, size, room, length-drop (length (front ++ x ∷ []) + 1) content.mem)))

      not_empty : (content.mem_size == 0) ≡ false
      not_empty = ground (arith, fits)

      offset : (length (front ++ x ∷ []) + (2 ^ 64 - 1)) % 2 ^ 64 ≡ length front
      offset = rw n+1 (last_byte (length front) (omega arith))

      left : (content.mem_size + 2 ^ 64 - length front) % 2 ^ 64 ≡ content.mem_size - length front
      left = left_over (length front) content.mem_size (omega arith) small

      enough : leb (length subject + 1) (content.mem_size - length front) ≡ true
      enough = ground (arith, room)
