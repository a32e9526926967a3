-- ===== src/Examples/Exchanging.antt =====
-- The theorems on an entry of the user interface and on what it sends, with a codec that shortens the
-- two bytes that a ledger begins with.
use gtk4_kee.Prelude.{
  ℕ, ◌<◌, ◌≡◌, refl, true, false, ◌&&◌, [], ◌∷◌, ◌++◌, none, some, leb, ◌==◌, if◌then◌else◌, length,
  replicate, arith,
}
use gtk4_kee.Prelude.Bytes.{Bytes, c_string, le_bytes, native_bytes}
use gtk4_kee.Prelude.Result.{Result, ok}
use gtk4_kee.Transport.Pack.{Codec}
use gtk4_kee.Transport.Laws.{IsCodec}
use gtk4_kee.Ledger.Types.{Ledger, LedgerState}
use gtk4_kee.Ledger.Serialize.{serialize_open, last_serialize, item_serialize, ledger_serialize}
use gtk4_kee.Entry.{
  View, new_view, modeswitch, full_mode, short_mode, sign_mode, edit_mode, edit, label,
}
use gtk4_kee.Entry.States.{
  begun, after, added, IsSteady, Reachable-IsSteady, modeswitch-shows, modeswitch-stays,
}
use gtk4_kee.Entry.Send.{send, import_data_accept}
use gtk4_kee.Entry.Exchange.{send-import}
use gtk4_kee.Examples.Surroundings.{surroundings}
use gtk4_kee.Examples.Ledgers.{draft, ledger_with}
use gtk4_kee.Examples.Sending.{shifted, unshifted, shifted-NoNul, unshifted-shifted, some_text}

abbrev squeezed : Bytes → Bytes
squeezed [] = 0 ∷ []
squeezed (b ∷ []) = 0 ∷ b ∷ []
squeezed (b ∷ c ∷ bs) = if (b == 2) && (c == 32) then 1 ∷ bs else 0 ∷ b ∷ c ∷ bs

abbrev stretched : Bytes → Bytes
stretched [] = []
stretched (m ∷ bs) = if m == 1 then 2 ∷ 32 ∷ bs else bs

abbrev pub codec : Codec (Unit {0})
codec = record {
  deflate_init = true;
  deflate = λ bytes cap. if leb (length (squeezed bytes)) cap then some (squeezed bytes) else none;
  inflate_init = true;
  inflate = λ z room. if leb (length (stretched z)) room then some (stretched z) else none;
  encode_block = λ bytes. (shifted bytes, tt);
  encode_blockend = λ state. 0xa ∷ [];
  decode_block = unshifted;
}

stretched-squeezed : (bs : Bytes) → stretched (squeezed bs) ≡ bs
stretched-squeezed [] = refl
stretched-squeezed (b ∷ []) = refl
stretched-squeezed (b ∷ c ∷ bs) = ground arith

squeezed-some : (bs : Bytes) → 0 < length (squeezed bs)
squeezed-some [] = omega arith
squeezed-some (b ∷ []) = omega arith
squeezed-some (b ∷ c ∷ bs) = ground arith

deflated : (bytes z : Bytes) (cap : ℕ) → codec.deflate bytes cap ≡ some z → squeezed bytes ≡ z
deflated bytes z cap h = ground arith

law : IsCodec codec
law = record {
  text = shifted;
  compresses = refl;
  expands = refl;
  inflate-deflate = λ bytes z cap room e fits.
      let fits' : leb (length bytes) room ≡ true = ground arith in
      rw (← deflated bytes z cap e, stretched-squeezed bytes, fits') refl;
  not_empty = λ bytes z cap e. rw (← deflated bytes z cap e) (squeezed-some bytes);
  ends = λ z. refl;
  block = some_text;
  blockend = λ z. omega arith;
  no_nul = shifted-NoNul;
  decodes = unshifted-shifted;
}

abbrev bytes_of : Result Bytes → Bytes
bytes_of (ok bs) = bs
bytes_of _ = []

abbrev request : Ledger
request = ledger_with (draft ∷ [])

abbrev encoded_request : Bytes
encoded_request = bytes_of (serialize_open surroundings request 1024 LedgerState.response)

send-import_example :
    (out : Bytes) × (send surroundings codec request (replicate 1024 0) ≡ ok out)
    × (c_string out ≡ some (shifted (squeezed (2 ∷ encoded_request))))
    × (import_data_accept codec
          (shifted (squeezed (2 ∷ encoded_request)))
          (replicate 377 0 ++ 0 ∷ replicate 646 0)
        ≡ ok encoded_request)
unfolding serialize_open last_serialize item_serialize ledger_serialize native_bytes le_bytes
    c_string law
send-import_example =
    send-import surroundings codec law request encoded_request (squeezed (2 ∷ encoded_request))
      (replicate 1024 0) (replicate 377 0) (replicate 646 0) 0 refl (omega arith) refl (omega arith)
      (omega arith) refl refl

Reachable-IsSteady_example : IsSteady (record new_view { is_loaded = true })
Reachable-IsSteady_example = Reachable-IsSteady (after begun added)

modeswitch-shows_example :
    (v v' : View) × (modeswitch (record new_view { is_loaded = true }) sign_mode ≡ ok (true, v))
    × (modeswitch v short_mode ≡ ok (true, v'))
    × (v'.showing ≡ some label)
modeswitch-shows_example = modeswitch-shows (record new_view { is_loaded = true }) refl

modeswitch-stays_example :
    (v : View) × (modeswitch (record new_view { is_loaded = true }) edit_mode ≡ ok (true, v))
    × (v.showing ≡ some edit)
    × (modeswitch v full_mode ≡ ok (false, v))
modeswitch-stays_example = modeswitch-stays (after begun added)
