-- ===== src/KeyStore/Sound.antt =====
-- A signature that `gpg_store_sign_with` makes is one that `gpg_store_verify` accepts (src/gpg.c), which
-- is what src/ledger.c relies on.
use gtk4_kee.Prelude.{
  ℕ, ◌≡◌, sym, ap, ◌∙◌, Option, some, take, drop, length, true, ltb, leb, ◌==◌, ◌&&◌, ◌||◌, not,
  Bool, [], ◌∷◌,
}
use gtk4_kee.Prelude.Bytes.{Bytes}
use gtk4_kee.Prelude.Memory.{put_at, take-put_at}
use gtk4_kee.Prelude.Result.{ok, or_code-eq-ok, or_code, from_option, fault_if, from_option-eq-ok}
use gtk4_kee.Prelude.Stateful.{
  >>-succeeds, called, tested, looked, modified, replace_code-succeeds, call,
}
use gtk4_kee.Crypto.{calculate_digest_algo, point_length}
use gtk4_kee.Crypto.Library.{Gcrypt, sha512}
use gtk4_kee.KeyStore.Library.{Keys, Token, public_key, point, r, s, Around}
use gtk4_kee.KeyStore.File.{
  Session, deref, FindMode, key_path, key_from_file, err_fail, err_keyfail,
}
use gtk4_kee.KeyStore.Load.{key_apply_public, load_file, modify_store, gpg_key_load}
use gtk4_kee.KeyStore.Sign.{write_digest, sign_digest, write_point}

-- Whether a text is the shortest one of its integer in two's complement: the first byte says more than
-- the sign of the second one.
abbrev pub is_shortest : Bytes → Bool
is_shortest [] = true
is_shortest (a ∷ []) = true
is_shortest (a ∷ b ∷ _) = not ((a == 0 && ltb b 128) || (a == 255 && leb 128 b))

-- A signature whose two parts are the shortest texts of their integers, as `%m` writes them
abbrev pub IsKept : Bytes → Type 0
IsKept sig =
    (is_shortest (take point_length sig) ≡ true)
    × (is_shortest (take point_length (drop point_length sig)) ≡ true)

-- What the code relies on: a digest of SHA-512 has 64 bytes; the parts of an EdDSA signature have 32
-- bytes, which a scan reads whole; and where they are the shortest texts of their integers, the
-- signature that is put together from the integers holds the same texts, and is accepted for the
-- message and the public part of the key.
pub record IsSigning {Sexp Mpi : Type 0} (gcry : Gcrypt Sexp Mpi) (keys : Keys Sexp) : Type 0 where
  pub digest_size :
      (input : Bytes) → length (take (gcry.algo_dlen sha512) (gcry.hash sha512 input)) ≡ 64
  pub r_long :
      (msg sig part : Sexp) (key : Option Sexp) (p : Bytes)
      → keys.pk_sign msg key ≡ some sig
      → keys.find_token (some sig) r ≡ some part
      → keys.nth_data part ≡ some p
      → length p ≡ 32
  pub s_long :
      (msg sig part : Sexp) (key : Option Sexp) (p : Bytes)
      → keys.pk_sign msg key ≡ some sig
      → keys.find_token (some sig) s ≡ some part
      → keys.nth_data part ≡ some p
      → length p ≡ 32
  pub accepted :
      (msg sig part_r part_s data' part : Sexp) (key : Option Sexp) (p_r p_s q : Bytes)
      → keys.pk_sign msg key ≡ some sig
      → keys.find_token (some sig) r ≡ some part_r
      → keys.nth_data part_r ≡ some p_r
      → keys.find_token (some sig) s ≡ some part_s
      → keys.nth_data part_s ≡ some p_s
      → keys.find_token key public_key ≡ some data'
      → keys.find_token (some data') point ≡ some part
      → keys.nth_data part ≡ some q
      → is_shortest p_r ≡ true
      → is_shortest p_s ≡ true
      → (pubkey sig' : Sexp) × (m_r m_s : Mpi) × (gcry.build_pubkey (take 32 q) ≡ some pubkey)
        × (gcry.mpi_scan p_r ≡ some (m_r, 32))
        × (gcry.mpi_scan p_s ≡ some (m_s, 32))
        × (gcry.build_sig m_r m_s ≡ some sig')
        × (gcry.pk_verify sig' msg pubkey ≡ true)

module _ {Sexp Mpi Files : Type 0} (w : Around Sexp Mpi Files) where
  -- What a part of a signature is, and where it went
  pub point_written :
      (sig : Sexp) (token : Token) (at : ℕ) (g g' : Session Sexp Files)
      → write_point w sig token at g ≡ (ok tt, g')
      → (part : Sexp) × (p : Bytes) × (w.keys.find_token (some sig) token ≡ some part)
        × (w.keys.nth_data part ≡ some p)
        × (put_at at p g.store.last_signature ≡ ok g'.store.last_signature)
        × (g'.store.public_key ≡ g.store.public_key)
  unfolding write_point
  point_written sig token at g g' h =
      let (part, e, h) = called (from_option 1 (w.keys.find_token (some sig) token)) _ h in
      let (p, e', h) = called (from_option 1 (w.keys.nth_data part)) _ h in
      let (bs, e'', h) = called (put_at at p g.store.last_signature) _ (looked _ h) in
      let after = modified _ h in
      (
        part,
        p,
        from_option-eq-ok 1 (w.keys.find_token (some sig) token) e,
        from_option-eq-ok 1 (w.keys.nth_data part) e',
        e'' ∙ ap (λ (g : Session Sexp Files). ok (g.store.last_signature)) after,
        ap (λ (g : Session Sexp Files). g.store.public_key) (sym after),
      )

  pub digest_written :
      (data' : Bytes) (g g' : Session Sexp Files)
      → write_digest w data' g ≡ (ok tt, g')
      → (d : Bytes) × (calculate_digest_algo w.gcry data' sha512 ≡ ok d)
        × (take (length d) g'.store.last_data ≡ d)
  unfolding write_digest
  digest_written data' g g' h =
      let (d, e, h) = called (or_code 1 (calculate_digest_algo w.gcry data' sha512)) _ h in
      let (bs, e', h) = called (put_at 0 d g.store.last_data) _ (looked _ h) in
      let after = ap (λ (g : Session Sexp Files). g.store.last_data) (modified _ h) in
      (
        d,
        or_code-eq-ok 1 (calculate_digest_algo w.gcry data' sha512) e,
        rw (← after) (take-put_at d g.store.last_data bs e'),
      )

  public_applied :
      (key : Option Sexp) (g g' : Session Sexp Files)
      → key_apply_public w key g ≡ (ok tt, g')
      → (data' part : Sexp) × (q : Bytes) × (w.keys.find_token key public_key ≡ some data')
        × (w.keys.find_token (some data') point ≡ some part)
        × (w.keys.nth_data part ≡ some q)
        × (record g { store = record (g.store) { public_key = take 32 q } } ≡ g')
  unfolding key_apply_public
  public_applied key g g' h =
      let (data', e, h) = called (from_option err_keyfail (w.keys.find_token key public_key)) _ h in
      let (part, e', h) =
        called (from_option err_keyfail (w.keys.find_token (some data') point)) _ h in
      let (q, e'', h) = called (from_option err_keyfail (w.keys.nth_data part)) _ h in
      let (_, h) = tested (fault_if (ltb (length q) 32)) _ h in
      (
        data',
        part,
        q,
        from_option-eq-ok err_keyfail (w.keys.find_token key public_key) e,
        from_option-eq-ok err_keyfail (w.keys.find_token (some data') point) e',
        from_option-eq-ok err_keyfail (w.keys.nth_data part) e'',
        modified _ h,
      )

  -- The key that a store has once it was loaded
  pub loaded_key :
      (passphrase : Bytes) (mode : FindMode) (g g' : Session Sexp Files)
      → gpg_key_load w passphrase mode g ≡ (ok tt, g')
      → (key : Option Sexp) × (data' part : Sexp) × (q : Bytes) × (w.keys.find_token key public_key
          ≡ some data')
        × (w.keys.find_token (some data') point ≡ some part)
        × (w.keys.nth_data part ≡ some q)
        × (deref g'.store.k ≡ ok key)
        × (g'.store.public_key ≡ take 32 q)
        × (g'.store.last_data ≡ g.store.last_data)
  unfolding gpg_key_load load_file
  loaded_key passphrase mode g g' h =
      let (g1, h1, h) = >>-succeeds (load_file w passphrase mode) _ h in
      let (_, _, h1) = called (key_path w g.store mode) _ (looked _ h1) in
      let (key, _, h1) = called (or_code err_keyfail (key_from_file w g.files _ passphrase)) _ h1 in
      let with_key = modified _ h1 in
      let (key', e, h) = called (deref g1.store.k) _ (looked _ h) in
      let (grip, _, h) = called (from_option err_keyfail (w.keys.keygrip key')) _ h in
      let (g2, h2, h) = >>-succeeds (modify_store w (λ g. record g { fingerprint = grip })) _ h in
      let with_grip = modified _ h2 in
      let (data', part, q, f, f', f'', with_public) =
        public_applied key' g2 g' (replace_code-succeeds err_fail (key_apply_public w key') h) in
      (
        key',
        data',
        part,
        q,
        f,
        f',
        f'',
        ap (λ (g : Session Sexp Files). deref g.store.k) (sym with_public)
            ∙ ap (λ (g : Session Sexp Files). deref g.store.k) (sym with_grip)
            ∙ e,
        ap (λ (g : Session Sexp Files). g.store.public_key) (sym with_public),
        ap last_data (sym with_public) ∙ ap last_data (sym with_grip) ∙ ap last_data (sym with_key),
      )
    where
      last_data : Session Sexp Files → Bytes
      last_data g = g.store.last_data

  pub signed_digest :
      (g g' : Session Sexp Files) (sig : Sexp)
      → sign_digest w g ≡ (ok sig, g')
      → (msg : Sexp) × (key : Option Sexp) × (w.gcry.build_msg (take 64 g.store.last_data)
          ≡ some msg)
        × (deref g.store.k ≡ ok key)
        × (w.keys.pk_sign msg key ≡ some sig)
        × (g ≡ g')
  unfolding sign_digest call
  signed_digest g g' sig h =
      let (msg, e, h) =
        called (from_option 1 (w.gcry.build_msg (take 64 g.store.last_data))) _ (looked _ h) in
      let (key, e', h) = called (deref g.store.k) _ h in
      (
        msg,
        key,
        from_option-eq-ok 1 (w.gcry.build_msg (take 64 g.store.last_data)) e,
        e',
        from_option-eq-ok 1 (w.keys.pk_sign msg key) (ap (λ o. o.0) h),
        ap (λ o. o.1) h,
      )
