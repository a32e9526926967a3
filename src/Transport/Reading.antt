-- ===== src/Transport/Reading.antt =====
-- What `kee_transport_read` of src/transport.c makes of a text.
use gtk4_kee.Prelude.{
  Bool-cases, inl, inr, ℕ, ◌+◌, ◌-◌, ◌≤◌, ◌<◌, ◌≡◌, refl, sym, ap, ◌∙◌, true, false, [], ◌∷◌, ◌++◌,
  some, ltb, drop, length, replicate, arith, length-append, length-replicate, take, subst, suc,
  drop-append, take-append, ◌^◌, ◌%◌, Bool-cases, get_or, length-take, length-drop,
}
use gtk4_kee.Prelude.Bytes.{Bytes, le_bytes, length-le_bytes}
use gtk4_kee.Prelude.Memory.{put_at-append, replicate_add, put_at}
use gtk4_kee.Prelude.Result.{fault, ok}
use gtk4_kee.Transport.Pack.{Codec, unpack}
use gtk4_kee.Transport.{
  crop, read, base64, read_data, absorb, Transport, cmd_of, cmd_import, chunk_size,
}
use mathlib.Core.List.{append_assoc}
use gtk4_kee.Transport.Laws.{IsCodec, unpack_lem}

module _ {Enc : Type 0} (codec : Codec Enc) (law : IsCodec codec) where
  -- The text as the receiver has it in its chunk, with what lies behind
  pub received :
      (t : Bytes)
      → length t ≤ 767
      → take 768 (drop 1 (((0 ∷ []) ++ (t ++ replicate (767 - length t) 0)) ++ le_bytes 8 768))
        ≡ t ++ replicate (768 - length t) 0
  unfolding le_bytes
  received t h =
      subst (λ n. take n ((t ++ Z) ++ le_bytes 8 768) ≡ t ++ replicate (768 - length t) 0) size
        (ap (take (length ((t ++ Z) ++ 0 ∷ [])))
            (sym (append_assoc (t ++ Z) (0 ∷ []) (3 ∷ replicate 6 0)))
          ∙ take-append ((t ++ Z) ++ 0 ∷ []) (3 ∷ replicate 6 0)
          ∙ append_assoc t Z (0 ∷ [])
          ∙ ap (λ r. t ++ r) padded)
    where
      Z : Bytes
      Z = replicate (767 - length t) 0

      size : length ((t ++ Z) ++ 0 ∷ []) ≡ 768
      size = omega (
        arith,
        h,
        length-append (t ++ Z) (0 ∷ []),
        length-append t Z,
        length-replicate {A = ℕ} (767 - length t) 0,
      )

      padded : Z ++ 0 ∷ [] ≡ replicate (768 - length t) 0
      padded =
          let e : 767 - length t + 1 ≡ 768 - length t = omega arith in
          sym (replicate_add (767 - length t) 1 0) ∙ ap (λ n. replicate n 0) e

  -- The crop of the command from data that has room behind it
  pub crop_lem :
      (cmd d : ℕ) (input rest tail : Bytes) (size crsr : ℕ)
      → length input < 766
      → length tail ≡ 767
      → crop
          (record {
            mode = base64;
            chunk = 0 ∷ tail;
            data_len = size;
            crsr = crsr;
            state = 0;
            data_at = 1;
          })
          (cmd ∷ (input ++ d ∷ rest))
          (suc (length input))
        ≡ ok (
          record {
            mode = base64;
            chunk = (cmd ∷ []) ++ ((input ++ d ∷ []) ++ drop (length (input ++ d ∷ [])) tail);
            data_len = size;
            crsr = crsr;
            state = 0;
            data_at = 1;
          },
          input ++ drop (length input) (cmd ∷ (input ++ d ∷ rest)),
          length input,
        )
  unfolding crop
  crop_lem cmd d input rest tail size crsr short et = rw (
    has_room,
    data_of,
    put_at-append (cmd ∷ []) (input ++ d ∷ []) tail (omega (arith, n+1, et)),
    less,
    in_chunk,
    kept,
    put_at-append [] input (cmd ∷ (input ++ d ∷ rest))
        (omega (arith, length-append input (d ∷ rest))),
  )
    where
      n+1 : length (input ++ d ∷ []) ≡ length input + 1
      n+1 = length-append input (d ∷ [])

      has_room : ltb (length (cmd ∷ (input ++ d ∷ rest))) (1 + suc (length input)) ≡ false
      has_room = ground (arith, length-append input (d ∷ rest))

      data_of : take (suc (length input)) (input ++ d ∷ rest) ≡ input ++ d ∷ []
      data_of =
          let e : length input + 1 ≡ suc (length input) = omega arith in
          subst (λ n. take n (input ++ d ∷ rest) ≡ input ++ d ∷ []) (n+1 ∙ e)
            (ap (take (length (input ++ d ∷ []))) (sym (append_assoc input (d ∷ []) rest))
              ∙ take-append (input ++ d ∷ []) rest)

      less : (suc (length input) + 2 ^ 64 - 1) % 2 ^ 64 ≡ length input
      less = omega (arith, short)

      behind : Bytes
      behind = drop (length (input ++ d ∷ [])) tail

      in_chunk :
          ltb (length ((cmd ∷ []) ++ ((input ++ d ∷ []) ++ behind))) (1 + length input) ≡ false
      in_chunk = ground (arith, n+1, length-append (input ++ d ∷ []) behind)

      kept : take (length input) ((input ++ d ∷ []) ++ behind) ≡ input
      kept = rw append_assoc (take-append input (d ∷ behind))

  -- `kee_transport_read` of an import
  pub read_lem :
      (cmd d : ℕ) (input z old rest : Bytes) (cap size : ℕ)
      → length input < 766
      → codec.deflate (cmd ∷ input) cap ≡ some z
      → length (law.text z) ≤ 767
      → length z ≤ size
      → length input + 1 ≤ size
      → length old ≡ length input + 1
      → (r : Transport) × (out : Bytes) × (read codec
            (record {
              mode = base64;
              chunk = (0 ∷ []) ++ (law.text z ++ replicate (767 - length (law.text z)) 0);
              data_len = 768;
              crsr = 1 + length (law.text z);
              state = 0;
              data_at = 0;
            })
            (old ++ d ∷ rest)
            size
          ≡ ok (r, out, length input))
        × (take (length input) out ≡ input)
        × (cmd_of r ≡ cmd)
  unfolding read read_data absorb crop
  read_lem cmd d input z old rest cap size short e ft fz fi eo = (
    record {
      mode = base64;
      chunk =
          (cmd ∷ []) ++ ((input ++ d ∷ []) ++ drop (length (input ++ d ∷ [])) (law.text z ++ Z));
      data_len = 768;
      crsr = 1 + length (law.text z);
      state = 0;
      data_at = 1;
    },
    input ++ drop (length input) (cmd ∷ (input ++ d ∷ rest)),
    rw (
      enough,
      received (law.text z) ft,
      unpack_lem codec law (cmd ∷ input) z (old ++ d ∷ rest) (768 - length (law.text z)) cap size e
          fz (omega (arith, fi)) (omega (arith, eo, length-append old (d ∷ rest))),
      behind,
      crop_lem cmd d input rest (law.text z ++ Z) 768 (1 + length (law.text z)) short size_of,
    ),
    take-append input (drop (length input) (cmd ∷ (input ++ d ∷ rest))),
    refl,
  )
    where
      Z : Bytes
      Z = replicate (767 - length (law.text z)) 0

      size_of : length (law.text z ++ Z) ≡ 767
      size_of = omega (
        arith,
        ft,
        length-append (law.text z) Z,
        length-replicate {A = ℕ} (767 - length (law.text z)) 0,
      )

      enough : ltb (length (((0 ∷ []) ++ (law.text z ++ Z)) ++ le_bytes 8 768)) (1 + 768) ≡ false
      enough =
          ground (
            arith,
            size_of,
            length-append (law.text z ++ Z) (le_bytes 8 768),
            length-le_bytes 8 768,
          )

      behind : drop (suc (length input)) (old ++ d ∷ rest) ≡ d ∷ rest
      behind =
          let e : length input + 1 ≡ suc (length input) = omega arith in
          subst (λ n. drop n (old ++ d ∷ rest) ≡ d ∷ rest) (eo ∙ e) (drop-append old (d ∷ rest))

copy_overruns : (buf bs : Bytes) → length buf < 1 + length bs → put_at 1 bs buf ≡ fault
unfolding put_at
copy_overruns buf bs h =
    let over : ltb (length buf) (1 + length bs) ≡ true = ground arith in rw over refl

visible_long :
    (chunk : Bytes) → length chunk ≡ 768 → ltb (length (chunk ++ le_bytes 8 768)) (1 + 768) ≡ false
visible_long chunk l = ground (arith, length-append chunk (le_bytes 8 768), length-le_bytes 8 768)

not_less : {a b : ℕ} → ltb a b ≡ false → b ≤ a
not_less h = ground arith

module _ {Enc : Type 0} (codec : Codec Enc) where
  -- An import whose data is 768 bytes or more, once it is decoded and expanded, makes
  -- `kee_transport_read` write or read out of bounds, however large the caller's buffer is.
  pub read-overruns :
      (data' out out' : Bytes) (crsr state cap size : ℕ)
      → length data' ≡ 767
      → unpack codec (take chunk_size (data' ++ le_bytes 8 chunk_size)) out cap ≡ ok (out', size)
      → chunk_size ≤ size
      → read codec
          (record {
            mode = base64;
            chunk = cmd_import ∷ data';
            data_len = chunk_size;
            crsr = crsr;
            state = state;
            data_at = 0;
          })
          out
          cap
        ≡ fault
  unfolding read read_data absorb crop
  read-overruns data' out out' crsr state cap size l e big =
      rw (visible_long (cmd_import ∷ data') (ap suc l), e)
        (elim (Bool-cases (ltb (length out') (1 + size))) [
          | inl short ↦ rw short refl
          | inr long ↦
              rw
                (
                  long,
                  copy_overruns (get_or out' 0 0 ∷ data') (take size (drop 1 out')) (too_long long),
                )
                refl
        ])
    where
      too_long :
          ltb (length out') (1 + size) ≡ false
          → suc (length data') < 1 + length (take size (drop 1 out'))
      too_long long =
          omega (arith, l, big, not_less long, length-take size (drop 1 out'), length-drop 1 out')
