-- ===== src/Examples/Keyring.antt =====
-- Executable stand-ins for what src/gpg.c calls: a key is its own text, a cipher leaves a block as it
-- is, and the files are a function of their names.
use gtk4_kee.Prelude.{
  ◌≤◌, ◌≡◌, refl, sym, ap, ◌∙◌, [], ◌++◌, Option, none, some, leb, ◌==◌, ◌&&◌, if◌then◌else◌, take,
  drop, length, replicate, arith, true, length-append, length-take, length-drop, length-replicate,
  Bool-cases, inl, inr,
}
use gtk4_kee.Prelude.Bytes.{Bytes, same_bytes, same_bytes_iff}
use gtk4_kee.KeyStore.Library.{Token, public_key, point, r, s, Keys, Disk, Around}
use gtk4_kee.KeyStore.Accepted.{take_all}
use gtk4_kee.KeyStore.Sound.{IsSigning}
use gtk4_kee.KeyStore.Stored.{IsDisk, IsCipher, take-drop}
use gtk4_kee.Examples.Surroundings.{crypto_library}

abbrev pub alice_key : Bytes
alice_key = replicate 32 7

abbrev pub token_of : Bytes → Token → Bytes
token_of bs public_key = bs
token_of bs point = bs
token_of bs r = take 32 bs
token_of bs s = drop 32 bs

abbrev pub find : Option Bytes → Token → Option Bytes
find none t = none
find (some bs) t = some (token_of bs t)

abbrev pub sign : Bytes → Option Bytes → Option Bytes
sign msg none = none
sign msg (some k) =
    if (length k == 32) && leb 32 (length msg) then some (take 64 (k ++ msg)) else none

abbrev pub keys : Keys Bytes
keys = record {
  check_version = true;
  sexp_new = some;
  sprint = λ key. key;
  find_token = find;
  nth_data = some;
  genkey = λ param. some alice_key;
  keygrip = λ key. some (replicate 20 5);
  pk_sign = sign;
  cipher_open = true;
  setkey = λ k. true;
  setiv = λ n. true;
  encrypt = λ k n m. some m;
  decrypt = λ k n c. some c;
  randomize = λ n. replicate n 3;
  create_nonce = λ n. replicate n 4;
}

abbrev pub Files : Type 0
Files = Bytes → Option Bytes

abbrev pub longer : Bytes → Option Bytes → Option Bytes
longer bs none = none
longer bs (some old) = some (old ++ bs)

abbrev pub disk : Disk Files
disk = record {
  content = λ f path. f path;
  create = λ f path. some (λ q. if same_bytes path q then some [] else f q);
  append = λ f path bs. (true, λ q. if same_bytes path q then longer bs (f q) else f q);
  unlink = λ f path. (true, f);
  symlink = λ f path link. (true, f);
}

abbrev pub around : Around Bytes Bytes Files
around = record {
  gcry = crypto_library;
  keys = keys;
  disk = disk;
  is_le = true;
  hex = λ bs. bs;
  stack = λ size. [];
}

some_same : {a b : Bytes} → some a ≡ some b → a ≡ b
some_same e = cc

same : (path : Bytes) → same_bytes path path ≡ true
same path = (same_bytes_iff path path).1 refl

pub disk-IsDisk : IsDisk disk
disk-IsDisk = record {
  created = λ f f' path e.
      let e' : (λ q. if same_bytes path q then some [] else f q) ≡ f' = cc in
      ap (λ (f : Files). f path) (sym e') ∙ rw (same path) refl;
  has_room = λ f path bs. refl;
  appended = λ f path bs old e. rw (same path, e) refl;
}

pub keys-IsCipher : IsCipher keys
keys-IsCipher = record {
  undone = λ k n m c e. sym e;
  same_length = λ k n m c e. sym (ap length (some_same e));
  random_length = λ n. length-replicate n 3;
  nonce_long = λ n. length-replicate n 4;
  reads = λ key. refl;
}

-- What the signature of a message with a key is
some_parts :
    (msg k sig : Bytes)
    → sign msg (some k) ≡ some sig
    → (length k ≡ 32) × (sig ≡ take 64 (k ++ msg)) × (length sig ≡ 64)
some_parts msg k sig e = elim (Bool-cases ((length k == 32) && leb 32 (length msg))) [
  | inl fits ↦
      let e' : take 64 (k ++ msg) ≡ sig = some_same (rw fits at e) in
      let key_long : length k ≡ 32 = ground arith in
      let msg_long : 32 ≤ length msg = ground arith in
      (
        key_long,
        sym e',
        omega (
          arith,
          ap length e',
          key_long,
          msg_long,
          length-append k msg,
          length-take 64 (k ++ msg),
        ),
      )
  | inr bad ↦ absurd (let e' = rw bad at e in cc)
]

halves : (msg sig : Bytes) (key : Option Bytes) → sign msg key ≡ some sig → length sig ≡ 64
halves msg sig none e = absurd (cc)
halves msg sig (some k) e = (some_parts msg k sig e).2

verifies :
    (msg sig q : Bytes) (key : Option Bytes)
    → sign msg key ≡ some sig
    → find key public_key ≡ some q
    → same_bytes (take 32 sig ++ drop 32 sig) (take 64 (take 32 q ++ msg)) ≡ true
verifies msg sig q none e f = absurd (cc)
verifies msg sig q (some k) e f =
    let (key_long, made, _) = some_parts msg k sig e in
    let one : k ≡ q = some_same f in
    rw (take-drop 32 sig, ← one, take_all k key_long, made) (same (take 64 (k ++ msg)))

pub keys-IsSigning : IsSigning crypto_library keys
keys-IsSigning = record {
  digest_size = λ input. refl;
  r_long = λ msg sig part key p e f g. omega (
    arith,
    halves msg sig key e,
    ap length (some_same f),
    ap length (some_same g),
    length-take 32 sig,
  );
  s_long = λ msg sig part key p e f g. omega (
    arith,
    halves msg sig key e,
    ap length (some_same f),
    ap length (some_same g),
    length-drop 32 sig,
  );
  accepted = λ msg sig part_r part_s data' part key p_r p_s q e fr nr fs ns fk fp nq kr ks.
      let one_r : take 32 sig ≡ p_r = some_same fr ∙ some_same nr in
      let one_s : drop 32 sig ≡ p_s = some_same fs ∙ some_same ns in
      let one_q : data' ≡ q = some_same fp ∙ some_same nq in
      let ok_r : length p_r ≡ 32 =
        omega (arith, halves msg sig key e, ap length one_r, length-take 32 sig) in
      let ok_s : length p_s ≡ 32 =
        omega (arith, halves msg sig key e, ap length one_s, length-drop 32 sig) in
      (
        take 32 q,
        p_r ++ p_s,
        p_r,
        p_s,
        refl,
        ap (λ n. some (p_r, n)) ok_r,
        ap (λ n. some (p_s, n)) ok_s,
        refl,
        rw (← one_r, ← one_s) (verifies msg sig q key e (fk ∙ ap some one_q)),
      );
}
