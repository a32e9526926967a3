-- ===== src/Transport/Sending.antt =====
-- What a transport sends, and what another one takes in (src/transport.c).
use gtk4_kee.Prelude.{
  if◌then◌else◌, Bool-cases, inl, inr, ℕ, ◌+◌, ◌-◌, ◌≤◌, ◌<◌, ◌≡◌, sym, ap, ◌∙◌, false, [], ◌∷◌,
  ◌++◌, some, ltb, ◌==◌, drop, length, replicate, arith, length-replicate, take, subst, suc,
  take-append, ◌^◌, ◌%◌, leb, ◌&&◌, Bool-cases,
}
use gtk4_kee.Prelude.Bytes.{Bytes, c_string, c_string_text}
use gtk4_kee.Prelude.Memory.{put_at_lem, replicate_add}
use gtk4_kee.Prelude.Result.{Result, fault, ◌>>=◌, fail_if, >>=-eq-ok, ok-injective, err, ok, err}
use gtk4_kee.Transport.Pack.{Codec}
use gtk4_kee.Transport.{
  transmit, Mode, write, zeros, next, read, close, base64, emit, Transport, cmd_of, transmit,
  single, n_cmd, err_fail, cmd_import, chunk_size,
}
use mathlib.Core.List.{append_assoc}
use gtk4_kee.Transport.Laws.{IsCodec, pack_lem}
use gtk4_kee.Transport.Reading.{read_lem}

zeros_split : (n : ℕ) → n ≤ 767 → zeros ≡ replicate n 0 ++ replicate (767 - n) 0
unfolding zeros
zeros_split n h =
    let e : n + (767 - n) ≡ 767 = omega arith in
    sym (ap (λ k. replicate k 0) e) ∙ replicate_add n (767 - n) 0

-- The chunk after a write to a new transport
write_lem :
    (mode : Mode) (cmd size : ℕ) (input : Bytes)
    → length input ≤ 767
    → write
        (record {
          mode = mode;
          chunk = cmd ∷ zeros;
          data_len = size;
          crsr = 1;
          state = 0;
          data_at = 0;
        })
        input
      ≡ ok (record {
        mode = mode;
        chunk = (cmd ∷ []) ++ (input ++ replicate (767 - length input) 0);
        data_len = size;
        crsr = 1 + length input;
        state = 0;
        data_at = 0;
      })
unfolding write
write_lem mode cmd size input h = rw (
  zeros_split (length input) h,
  put_at_lem (cmd ∷ []) (replicate (length input) 0) input (replicate (767 - length input) 0)
      (length-replicate (length input) 0),
)

module _ {Enc : Type 0} (codec : Codec Enc) (law : IsCodec codec) where
  -- `kee_transport_next` on a chunk that was written
  next_lem :
      (cmd size : ℕ) (input z out : Bytes) (cap : ℕ)
      → length input < 766
      → codec.deflate (cmd ∷ input) cap ≡ some z
      → length (law.text z) + 1 ≤ length out
      → next codec
          (record {
            mode = base64;
            chunk = (cmd ∷ []) ++ (input ++ replicate (767 - length input) 0);
            data_len = size;
            crsr = 1 + length input;
            state = 0;
            data_at = 0;
          })
          out
          cap
        ≡ ok (
          record {
            mode = base64;
            chunk = (cmd ∷ []) ++ (input ++ replicate (767 - length input) 0);
            data_len = 1 + length input;
            crsr = 0;
            state = 1;
            data_at = 0;
          },
          (law.text z ++ 0 ∷ []) ++ drop (length (law.text z ++ 0 ∷ [])) out,
          length (law.text z),
        )
  unfolding next close transmit emit
  next_lem cmd size input z out cap short e fits =
      rw (all, fits_chunk, whole, pack_lem codec law (cmd ∷ input) z out cap e fits)
    where
      all : (1 + length input + 2 ^ 64 - 0) % 2 ^ 64 ≡ 1 + length input
      all = omega (arith, short)

      fits_chunk : leb 767 (1 + length input) ≡ false
      fits_chunk = ground (arith, short)

      whole :
          take (1 + length input) ((cmd ∷ []) ++ (input ++ replicate (767 - length input) 0))
          ≡ cmd ∷ input
      whole =
          let size : suc (length input) ≡ 1 + length input = omega arith in
          subst (λ n. take n (cmd ∷ (input ++ replicate (767 - length input) 0)) ≡ cmd ∷ input) size
            (take-append (cmd ∷ input) (replicate (767 - length input) 0))

  -- What one side sends arrives at the other side. A command that `kee_transport_single` accepts
  -- and data of less than 766 bytes, written to a transport, leave it as a text, where zlib can
  -- compress them and the caller's buffer has room for the text and its NUL. That text, written to a
  -- transport for an import, is read back as the data, and the command is that of the sender, where
  -- the text fits in the chunk and the buffer has room for the data, the command and one byte more.
  pub send-receive :
      (cmd d : ℕ) (input z out old rest : Bytes) (cap size : ℕ)
      → (leb n_cmd cmd && ltb cmd 128) ≡ false
      → length input < 766
      → codec.deflate (cmd ∷ input) cap ≡ some z
      → length (law.text z) + 1 ≤ length out
      → length (law.text z) ≤ 767
      → length z ≤ size
      → length input + 1 ≤ size
      → length old ≡ length input + 1
      → (t r : Transport) × (sent got : Bytes) × ((do
        t ← single base64 cmd (length input)
        t ← write t input
        next codec t out cap)
          ≡ ok (t, sent, length (law.text z)))
        × (c_string sent ≡ some (law.text z))
        × ((do
          r ← single base64 cmd_import 0
          r ← write r (law.text z)
          read codec r (old ++ d ∷ rest) size)
            ≡ ok (r, got, length input))
        × (take (length input) got ≡ input)
        × (cmd_of r ≡ cmd)
  unfolding single
  send-receive cmd d input z out old rest cap size valid short e fits ft fz fi eo =
      let (r, got, received, same, cmd_same) =
        read_lem codec law cmd d input z old rest cap size short e ft fz fi eo in
      (
        record {
          mode = base64;
          chunk = (cmd ∷ []) ++ (input ++ replicate (767 - length input) 0);
          data_len = 1 + length input;
          crsr = 0;
          state = 1;
          data_at = 0;
        },
        r,
        (law.text z ++ 0 ∷ []) ++ drop (length (law.text z ++ 0 ∷ [])) out,
        got,
        rw
            (
              valid,
              write_lem base64 cmd (if length input == 0 then chunk_size else length input + 1)
                  input (omega arith),
            )
            (next_lem cmd (if length input == 0 then chunk_size else length input + 1) input z out
              cap short e fits),
        rw append_assoc
            (c_string_text (law.text z) (drop (length (law.text z ++ 0 ∷ [])) out) (law.no_nul z)),
        rw (write_lem base64 cmd_import 768 (law.text z) ft) received,
        same,
        cmd_same,
      )

tagged :
    (t : Transport) (m : Result (Bytes × ℕ)) {o : Transport × Bytes × ℕ}
    → (m >>= λ (out, size). let r : Result (Transport × Bytes × ℕ) = ok (t, out, size) in r) ≡ ok o
    → t ≡ o.0
tagged t (ok (out, size)) h = ap (λ (o : Transport × Bytes × ℕ). o.0) (ok-injective h)
tagged t (err c) h = absurd (cc)
tagged t fault h = absurd (cc)

closed : (t t' : Transport) → close t ≡ ok t' → (t'.state ≡ 1) × (close t' ≡ ok t')
unfolding close
closed t t' h = elim (Bool-cases (t.state == 0)) [
  | inl open_yet ↦
      let e = ok-injective (rw open_yet at h) in (ap (λ (u : Transport). u.state) (sym e), rw (← e))
  | inr shut ↦ elim (Bool-cases (ltb 1 t.state)) [
    | inl broken ↦ absurd (let e = rw (shut, broken) at h in cc)
    | inr fine ↦
        let e = ok-injective (rw (shut, fine) at h) in
        (ap (λ (u : Transport). u.state) (sym e) ∙ ground arith, rw (← e) (rw (shut, fine)))
  ]
]

module _ {Enc : Type 0} (codec : Codec Enc) where
  transmit_same :
      (t t' : Transport) (out out' : Bytes) (cap size : ℕ)
      → transmit codec t out cap ≡ ok (t', out', size)
      → t ≡ t'
  unfolding transmit
  transmit_same t t' out out' cap size h =
      let (u, _, h') =
        >>=-eq-ok (fail_if (leb 767 ((t.data_len + 2 ^ 64 - t.crsr) % 2 ^ 64)) 1) _ h in
      tagged t (emit codec t.mode (take ((t.data_len + 2 ^ 64 - t.crsr) % 2 ^ 64) t.chunk) out cap)
        h'

  -- A transport that has sent is closed: it takes no more data, and sends the same text again.
  pub next-closes :
      (t t' : Transport) (out out' : Bytes) (cap size : ℕ)
      → next codec t out cap ≡ ok (t', out', size)
      → ((input : Bytes) → write t' input ≡ err err_fail)
        × (next codec t' out cap ≡ ok (t', out', size))
  unfolding next write
  next-closes t t' out out' cap size h =
      let (t₁, e, sent) = >>=-eq-ok (close t) (λ t. transmit codec t out cap) h in
      let same : t₁ ≡ t' = transmit_same t₁ t' out out' cap size sent in
      let (one, again) = closed t t' (e ∙ ap ok same) in
      (
        λ input. rw one,
        rw again (subst (λ u. transmit codec u out cap ≡ ok (t', out', size)) same sent),
      )
