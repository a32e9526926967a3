-- ===== src/KeyStore/Accepted.antt =====
-- What `gpg_store_sign_with` of src/gpg.c signs, `verify_item_data` of src/ledger.c accepts.
use gtk4_kee.Prelude.{
  true, [], ◌∷◌, not, ℕ, ◌≡◌, refl, sym, ap, ◌∙◌, ◌++◌, Option, some, take, drop, length, ◌==◌,
  arith, Bool-cases, inl, inr, subst, length-append, take-append, drop-append,
}
use gtk4_kee.Prelude.Bytes.{Bytes}
use gtk4_kee.Prelude.Result.{fail_if, Result, ok, ok-injective, >>=-eq-ok}
use gtk4_kee.Prelude.Stateful.{
  >>=-succeeds, >>-succeeds, modified, replace_code-succeeds, replace_code,
}
use gtk4_kee.Prelude.Memory.{put_at, side_by_side}
use gtk4_kee.Crypto.{calculate_digest_algo, gpg_store_verify, point_length}
use gtk4_kee.Crypto.Library.{sha512}
use gtk4_kee.Ledger.Types.{World, signature_length}
use gtk4_kee.Ledger.Verify.{verify_item_data}
use gtk4_kee.Ledger.SignVerify.{IsSoundFor}
use gtk4_kee.KeyStore.Library.{public_key, point, r, s, Around}
use gtk4_kee.KeyStore.File.{Session}
use gtk4_kee.KeyStore.Load.{gpg_key_load}
use gtk4_kee.KeyStore.Sign.{
  write_digest, sign_digest, write_point, gpg_store_sign_with, store_signer, find_mode,
}
use gtk4_kee.KeyStore.Sound.{
  IsSigning, IsKept, is_shortest, point_written, digest_written, loaded_key, signed_digest,
}

take_whole : (bs : Bytes) → take (length bs) bs ≡ bs
take_whole [] = refl
take_whole (b ∷ bs) = ap (λ r. b ∷ r) (take_whole bs)

pub take_all : (bs : Bytes) {n : ℕ} → length bs ≡ n → take n bs ≡ bs
take_all bs e = subst (λ n. take n bs ≡ bs) e (take_whole bs)

halves :
    (p_r p_s : Bytes)
    → length p_r ≡ 32
    → length p_s ≡ 32
    → (take 32 (p_r ++ p_s) ≡ p_r) × (take 32 (drop 32 (p_r ++ p_s)) ≡ p_s)
halves p_r p_s len_r len_s = (
  subst (λ n. take n (p_r ++ p_s) ≡ p_r) len_r (take-append p_r p_s),
  ap (take 32) (subst (λ n. drop n (p_r ++ p_s) ≡ p_s) len_r (drop-append p_r p_s))
      ∙ take_all p_s len_s,
)

module _ {Sexp Mpi Files : Type 0} (w : Around Sexp Mpi Files) (law : IsSigning w.gcry w.keys) where
  digest_long : (data' d : Bytes) → calculate_digest_algo w.gcry data' sha512 ≡ ok d → length d ≡ 64
  unfolding calculate_digest_algo
  digest_long data' d h =
      let (_, _, h') =
        >>=-eq-ok (fail_if (not (w.gcry.md_open sha512)) 1)
          (λ _.
            let r : Result Bytes = ok (take (w.gcry.algo_dlen sha512) (w.gcry.hash sha512 data')) in
            r)
          h in
      ap length (sym (ok-injective h')) ∙ law.digest_size data'

  verified :
      (msg sig part_r part_s data' part : Sexp) (key : Option Sexp) (p_r p_s q d : Bytes)
      → w.gcry.build_msg d ≡ some msg
      → w.keys.pk_sign msg key ≡ some sig
      → w.keys.find_token (some sig) r ≡ some part_r
      → w.keys.nth_data part_r ≡ some p_r
      → w.keys.find_token (some sig) s ≡ some part_s
      → w.keys.nth_data part_s ≡ some p_s
      → w.keys.find_token key public_key ≡ some data'
      → w.keys.find_token (some data') point ≡ some part
      → w.keys.nth_data part ≡ some q
      → is_shortest p_r ≡ true
      → is_shortest p_s ≡ true
      → gpg_store_verify w.gcry (p_r ++ p_s) d (take 32 q) ≡ ok tt
  unfolding gpg_store_verify
  verified msg sig part_r part_s data' part key p_r p_s q d m e fr nr fs ns fk fp nq kr ks =
      let (pubkey, sig', m_r, m_s, a, b, c, f, g) =
        law.accepted msg sig part_r part_s data' part key p_r p_s q e fr nr fs ns fk fp nq kr ks in
      rw (a, first, b, second, c, f, m, g) refl
    where
      parts : (take 32 (p_r ++ p_s) ≡ p_r) × (take 32 (drop 32 (p_r ++ p_s)) ≡ p_s)
      parts =
          halves p_r p_s (law.r_long msg sig part_r key p_r e fr nr)
            (law.s_long msg sig part_s key p_s e fs ns)

      first : take 32 (p_r ++ p_s) ≡ p_r
      first = parts.0

      second : take 32 (drop 32 (p_r ++ p_s)) ≡ p_s
      second = parts.1

  module _ {Node : Type 0} (l : World Node Sexp Mpi) (same : l.gcry ≡ w.gcry) where
    digest_verified :
        (data' sig key d : Bytes)
        → calculate_digest_algo w.gcry data' sha512 ≡ ok d
        → gpg_store_verify w.gcry sig d key ≡ ok tt
        → verify_item_data l data' sig key ≡ ok tt
    unfolding verify_item_data
    digest_verified data' sig key d h h' = elim (Bool-cases (length data' == 0)) [
      | inl e ↦ rw e refl
      | inr e ↦ rw (e, same, h, h') refl
    ]

    -- A signature that `gpg_store_sign_with` makes, `verify_item_data` accepts for the data that was
    -- signed and the public key that the store holds then, where its parts are the shortest texts of
    -- their integers, libgcrypt is as documented and the ledger calls the same one.
    pub gpg_store_sign_with-verify_item_data :
        (data' passphrase : Bytes) (fingerprint : Option Bytes) (g after : Session Sexp Files)
        → gpg_store_sign_with w data' passphrase fingerprint g ≡ (ok tt, after)
        → IsKept (take signature_length after.store.last_signature)
        → verify_item_data l data'
            (take signature_length after.store.last_signature)
            after.store.public_key
          ≡ ok tt
    unfolding gpg_store_sign_with
    gpg_store_sign_with-verify_item_data data' passphrase fingerprint g after h kept_sig =
        let (g1, h1, h) = >>-succeeds (write_digest w data') _ h in
        let (g2, h2, h) =
          >>-succeeds (replace_code 1 (gpg_key_load w passphrase (find_mode fingerprint))) _ h in
        let (sig, g3, h3, h) = >>=-succeeds (sign_digest w) _ h in
        let (g4, h4, h) = >>-succeeds (write_point w sig r 0) _ h in
        let (g5, h5, h) = >>-succeeds (write_point w sig s point_length) _ h in
        let (d, digest, last) = digest_written w data' g g1 h1 in
        let (key, key_data, part, q, fk, fp, nq, k, pub_q, kept) =
          loaded_key w passphrase (find_mode fingerprint) g1 g2
            (replace_code-succeeds 1 (gpg_key_load w passphrase (find_mode fingerprint)) h2) in
        let (msg, key', m, k', e, signed) = signed_digest w g2 g3 sig h3 in
        let (part_r, p_r, fr, nr, at_r, pub_r) = point_written w sig r 0 g3 g4 h4 in
        let (part_s, p_s, fs, ns, at_s, pub_s) = point_written w sig s point_length g4 g5 h5 in
        let after_store = modified _ h in
        let len_r = law.r_long msg sig part_r key' p_r e fr nr in
        let len_s = law.s_long msg sig part_s key' p_s e fs ns in
        let at_s' =
          subst (λ n. put_at n p_s g4.store.last_signature ≡ ok g5.store.last_signature) (sym len_r)
            at_s in
        let len : length (p_r ++ p_s) ≡ 64 = omega (arith, len_r, len_s, length-append p_r p_s) in
        let sig_bytes : take 64 g5.store.last_signature ≡ p_r ++ p_s =
          subst (λ n. take n g5.store.last_signature ≡ p_r ++ p_s) len
            (side_by_side p_r p_s g3.store.last_signature g4.store.last_signature
              g5.store.last_signature at_r at_s') in
        let (take_r, take_s) = halves p_r p_s len_r len_s in
        let whole : take 64 after.store.last_signature ≡ p_r ++ p_s =
          ap (λ (g : Session Sexp Files). take 64 g.store.last_signature) (sym after_store)
          ∙ sig_bytes in
        let kept_parts : IsKept (p_r ++ p_s) = subst IsKept whole kept_sig in
        let kr = subst (λ p. is_shortest p ≡ true) take_r kept_parts.0 in
        let ks = subst (λ p. is_shortest p ≡ true) take_s kept_parts.1 in
        let same_key : key ≡ key' = ok-injective (sym k ∙ k') in
        let msg_of : w.gcry.build_msg d ≡ some msg =
          ap w.gcry.build_msg (
            sym (
              ap (take 64) kept
              ∙ subst (λ n. take n g1.store.last_data ≡ d) (digest_long data' d digest) last))
          ∙ m in
        let public_bytes : g5.store.public_key ≡ take 32 q =
          pub_s
          ∙ pub_r
          ∙ ap (λ (g : Session Sexp Files). g.store.public_key) (sym signed)
          ∙ pub_q in
        subst
          (λ (g : Session Sexp Files).
            verify_item_data l data' (take signature_length g.store.last_signature)
              g.store.public_key
            ≡ ok tt)
          after_store
          (subst (λ key. verify_item_data l data' (take 64 g5.store.last_signature) key ≡ ok tt)
            (sym public_bytes)
            (subst (λ sig. verify_item_data l data' sig (take 32 q) ≡ ok tt) (sym sig_bytes)
              (digest_verified data' (p_r ++ p_s) (take 32 q) d digest (
                verified msg sig part_r part_s key_data part key' p_r p_s q d msg_of e fr nr fs ns
                  (subst (λ key. w.keys.find_token key public_key ≡ some key_data) same_key fk) fp
                  nq kr ks))))

    -- The interface that src/ledger.c signs through
    pub store_signer-IsSoundFor : IsSoundFor l (store_signer w) IsKept
    store_signer-IsSoundFor g after data' passphrase fingerprint h k =
        gpg_store_sign_with-verify_item_data data' passphrase (some fingerprint) g after h k
