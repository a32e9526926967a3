-- ===== src/Entry/Load/Named.antt =====
-- src/gtk/kee-entry.c: what is known of an entry that has taken up a ledger.
use gtk4_kee.Prelude.{
  ℕ, ◌≡◌, ◌≢◌, refl, sym, ap, ◌∙◌, subst, true, List, [], ◌∷◌, ◌++◌, Option, none, some, leb,
  length, inl, inr,
}
use mathlib.Core.Logic.{◌⊎◌}
use mathlib.Core.Option.{some-injective}
use gtk4_kee.Prelude.Bytes.{Bytes, c_string}
use gtk4_kee.Prelude.Memory.{put_at}
use gtk4_kee.Prelude.Result.{Result, ok, fault, fault_if, from_option, or_code, ok-injective}
use gtk4_kee.Prelude.Stateful.{
  Stateful, ◌>>=◌, call, current, modify, replace_code, attempt, proceed, replace_code-succeeds,
  >>-succeeds, >>=-succeeds, tested, called, looked, modified,
}
use gtk4_kee.Crypto.{calculate_digest_algo}
use gtk4_kee.Crypto.Library.{sha512}
use gtk4_kee.Content.Resolve.{Resolver, content_resolve}
use gtk4_kee.Database.{Ctx, null, free}
use gtk4_kee.Database.Library.{Lmdb}
use gtk4_kee.Database.Browse.{db_rewind}
use gtk4_kee.DistinguishedName.{
  Dn, Str2Dn, dn_from_str, put_attribute, put_attributes, point, lowered,
}
use gtk4_kee.DistinguishedName.Reading.{named_after}
use gtk4_kee.Ledger.Types.{World, Ledger}
use gtk4_kee.Ledger.Parse.{ledger_parse}
use gtk4_kee.Entry.Load.{
  Entry, bob_name, uid_text, on_db, on_dn, on_ledger, user_id, name_by_key, process_entry_ledger,
  entry_from_ledger, entry_deserialize,
}

abbrev uid_type : Bytes
uid_type = b'u' ∷ b'i' ∷ b'd' ∷ []

-- The LDAP library finds one attribute in the text of a key, of the type `uid`.
abbrev pub FindsUid : Str2Dn → (Bytes → Bytes) → Type 0
FindsUid str2dn b2h =
    (key text : Bytes)
    → c_string (uid_text b2h key ++ 0 ∷ []) ≡ some text
    → (v : Bytes) × (str2dn text ≡ some ((uid_type, v) ∷ []))

-- The steps of `kee_dn_from_str` that succeeds
dn_from_str-steps :
    (str2dn : Str2Dn) (s : Bytes) (d d' : Dn)
    → dn_from_str str2dn s d ≡ (ok tt, d')
    → (text : Bytes) × (attrs : List (Bytes × Bytes)) × (c_string (s ++ 0 ∷ []) ≡ some text)
      × (str2dn text ≡ some attrs)
      × (put_attributes attrs d ≡ (ok tt, d'))
      × (d'.cn ≢ none)
unfolding dn_from_str
dn_from_str-steps str2dn s d d' h =
    let (_, h) = tested (fault_if (leb 1024 (length s))) _ h in
    let (text, e, h) =
      called (elim (c_string (s ++ 0 ∷ [])) [ none ↦ fault | some t ↦ ok t ]) _ h in
    let (attrs, e', h) = called (from_option 1 (str2dn text)) _ h in
    let (d1, put, h) = >>-succeeds (put_attributes attrs) _ h in
    let (same, named) = named_after d1 h in
    (
      text,
      attrs,
      text_of (c_string (s ++ 0 ∷ [])) e,
      found_of (str2dn text) e',
      subst (λ d'. put_attributes attrs d ≡ (ok tt, d')) same put,
      subst (λ (d : Dn). d.cn ≢ none) same named,
    )
  where
    text_of :
        (o : Option Bytes) {t : Bytes}
        → (elim o [ none ↦ fault | some t ↦ ok t ]) ≡ ok t
        → o ≡ some t
    text_of none h = cc
    text_of (some t) h = cc

    found_of : {A : Type 0} (o : Option A) {a : A} → from_option 1 o ≡ ok a → o ≡ some a
    found_of none h = cc
    found_of (some a) h = cc

put_uid :
    (v : Bytes) (d d' : Dn)
    → put_attributes ((uid_type, v) ∷ []) d ≡ (ok tt, d')
    → d'.uid ≡ some d.p
unfolding put_attributes put_attribute point lowered call
put_uid v d d' h =
    let (d1, h, e) = >>-succeeds (put_attribute (uid_type, v)) _ h in
    let (_, h) = tested (fault_if (leb 1024 (length uid_type))) _ h in
    let (d2, e2, h) = called (point (lowered uid_type) d) _ (looked _ h) in
    let (d3, e3, h) = >>-succeeds (modify (λ _. d2)) _ h in
    let (mem, _, h) = called (put_at d2.p (v ++ 0 ∷ []) d2.mem) _ h in
    let e4 = modified _ h in
    let e5 = modified _ e3 in
    ap (λ (d : Dn). d.uid) (sym (ap (λ o. o.1) e) ∙ sym e4)
    ∙ ap (λ (d : Dn). d.uid) (sym e5)
    ∙ ap (λ (d : Dn). d.uid) (sym (ok-injective e2))

module _ {Env Tx Cursor : Type 0} where
  -- An entry with a name for Bob and for his key, where no transaction is open
  pub record IsNamed (o : Entry Env Tx Cursor) : Type 0 where
    pub common : o.bob_dn.cn ≢ none
    pub user : o.bob_dn.uid ≢ none
    pub closed : o.ctx.tx ≡ null

  on_dn-succeeds :
      {A : Type 0} (m : Stateful Dn A) (o o' : Entry Env Tx Cursor) {a : A}
      → on_dn m o ≡ (ok a, o')
      → (m o.bob_dn ≡ (ok a, o'.bob_dn)) × (o'.ctx ≡ o.ctx)
  unfolding on_dn
  on_dn-succeeds {A} m o o' {a} h = parts (m o.bob_dn) h
    where
      parts :
          (r : Result A × Dn)
          → (let u : Result A × Entry Env Tx Cursor = (r.0, record o { bob_dn = r.1 }) in u)
            ≡ (ok a, o')
          → (r ≡ (ok a, o'.bob_dn)) × (o'.ctx ≡ o.ctx)
      parts (r, dn) h =
          let same : record o { bob_dn = dn } ≡ o' = ap (λ p. p.1) h in
          let res : r ≡ ok a = ap (λ p. p.0) h in (rw (res, ← same) refl, rw (← same) refl)

  db_rewind-closes :
      (db : Lmdb Env Tx Cursor) (o o' : Entry Env Tx Cursor)
      → on_db (db_rewind db) o ≡ (ok tt, o')
      → (o'.ctx.tx ≡ null) × (o'.bob_dn ≡ o.bob_dn)
  unfolding db_rewind
  db_rewind-closes db o o' h =
      let same : record o { ctx = (db_rewind db o.ctx).1 } ≡ o' = ap (λ p. p.1) h in
      let res : db_rewind db o.ctx ≡ (ok tt, (db_rewind db o.ctx).1) =
        ap (λ p. (p.0, (db_rewind db o.ctx).1)) h in
      let (_, _, h') = called (free o.ctx.tx) _ (looked _ res) in
      let done = modified _ h' in
      (
        ap (λ (o : Entry Env Tx Cursor). o.ctx.tx) (sym same)
            ∙ ap (λ (c : Ctx Env Tx Cursor). c.tx) (sym done),
        ap (λ (o : Entry Env Tx Cursor). o.bob_dn) (sym same),
      )

  name_by_key-IsNamed :
      (str2dn : Str2Dn) (b2h : Bytes → Bytes) (o o' : Entry Env Tx Cursor)
      → FindsUid str2dn b2h
      → o.bob_dn.cn ≢ none
      → o.ctx.tx ≡ null
      → name_by_key str2dn b2h o ≡ (ok tt, o')
      → IsNamed o'
  unfolding name_by_key user_id call ◌>>=◌ proceed current
  name_by_key-IsNamed str2dn b2h o o' finds named shut h = branch o.bob_dn.uid refl h
    where
      s : Bytes
      s = uid_text b2h o.ledger.pubkey_bob

      branch :
          (u : Option ℕ)
          → o.bob_dn.uid ≡ u
          → user_id str2dn b2h o.ledger.pubkey_bob u o ≡ (ok tt, o')
          → IsNamed o'
      branch none e h =
          let (run, same) =
            on_dn-succeeds (dn_from_str str2dn s) o o'
              (replace_code-succeeds 1 (on_dn (dn_from_str str2dn s)) h) in
          let (text, attrs, e, e', put, cn) = dn_from_str-steps str2dn s o.bob_dn o'.bob_dn run in
          let (v, found) = finds o.ledger.pubkey_bob text e in
          let attrs_are : attrs ≡ (uid_type, v) ∷ [] = some-injective _ _ (sym e' ∙ found) in
          let put' = subst (λ a. put_attributes a o.bob_dn ≡ (ok tt, o'.bob_dn)) attrs_are put in
          let set = put_uid v o.bob_dn o'.bob_dn put' in
          record {
            common = cn;
            user = λ n. let n' = sym set ∙ n in cc;
            closed = ap (λ (c : Ctx Env Tx Cursor). c.tx) same ∙ shut;
          }
      branch (some at) e h =
          let same : o ≡ o' = ap (λ p. p.1) h in
          subst IsNamed same
            (record { common = named; user = λ n. let n' = sym e ∙ n in cc; closed = shut })

module _ {Node Sexp Mpi Env Tx Cursor : Type 0} (w : World Node Sexp Mpi) (r : Resolver)
    (db : Lmdb Env Tx Cursor) (str2dn : Str2Dn) (b2h : Bytes → Bytes)
    (finds : FindsUid str2dn b2h) where
  process_entry_ledger-IsNamed :
      (mem : Bytes) (o o' : Entry Env Tx Cursor)
      → process_entry_ledger w r db str2dn b2h mem o ≡ (ok tt, o')
      → IsNamed o' × (o'.is_loaded ≡ true)
  unfolding process_entry_ledger
  process_entry_ledger-IsNamed mem o o' h =
      let (content, _, h) = called (content_resolve r o.ledger.content) _ (looked _ h) in
      let (o0, _, h) = >>-succeeds (modify _) _ h in
      let (o1, _, h) = >>-succeeds (on_db (db_rewind db)) _ h in
      let h = looked _ h in
      let (found, o2, _, h) = >>=-succeeds (attempt _) _ h in
      let (name, _, h) = called (bob_name found) _ h in
      let (o3, dn, h) = >>-succeeds (replace_code 1 (on_dn (dn_from_str str2dn name))) _ h in
      let (run, _) =
        on_dn-succeeds (dn_from_str str2dn name) o2 o3 (replace_code-succeeds 1 _ dn) in
      let (text, attrs, _, _, _, cn) = dn_from_str-steps str2dn name o2.bob_dn o3.bob_dn run in
      let (o4, back, h) = >>-succeeds (on_db (db_rewind db)) _ h in
      let (shut, same) = db_rewind-closes db o3 o4 back in
      let (o5, by_key, h) = >>-succeeds (name_by_key str2dn b2h) _ h in
      let cn' = subst (λ (d : Dn). d.cn ≢ none) (sym same) cn in
      let named = name_by_key-IsNamed str2dn b2h o4 o5 finds cn' shut by_key in
      let end = modified _ h in
      (
        subst IsNamed end
            (record { common = named.common; user = named.user; closed = named.closed }),
        ap (λ (o : Entry Env Tx Cursor). o.is_loaded) (sym end),
      )

  from_ledger-IsNamed :
      (l : Ledger) (mem : Bytes) (o o' : Entry Env Tx Cursor)
      → entry_from_ledger w r db str2dn b2h l mem o ≡ (ok tt, o')
      → IsNamed o' × (o'.is_loaded ≡ true)
  unfolding entry_from_ledger
  from_ledger-IsNamed l mem o o' h =
      let (o1, _, h) = >>-succeeds (modify _) _ h in
      let (o2, run, h) =
        >>-succeeds (replace_code 1 (process_entry_ledger w r db str2dn b2h mem)) _ h in
      let (named, loaded) =
        process_entry_ledger-IsNamed mem o1 o2 (replace_code-succeeds 1 _ run) in
      let end = modified _ h in
      (
        subst IsNamed end
            (record { common = named.common; user = named.user; closed = named.closed }),
        ap (λ (o : Entry Env Tx Cursor). o.is_loaded) (sym end) ∙ loaded,
      )

  deserialize-IsNamed :
      (input mem : Bytes) (o o' : Entry Env Tx Cursor)
      → entry_deserialize w r db str2dn b2h input mem o ≡ (ok tt, o')
      → IsNamed o' × (o'.is_loaded ≡ true)
  unfolding entry_deserialize
  deserialize-IsNamed input mem o o' h =
      let (o1, _, h) = >>-succeeds (replace_code 1 (on_ledger (ledger_parse w input))) _ h in
      let (digest, _, h) = called (or_code 1 (calculate_digest_algo w.gcry input sha512)) _ h in
      let (o2, _, h) = >>-succeeds (modify _) _ h in
      process_entry_ledger-IsNamed mem o2 o' (replace_code-succeeds 1 _ h)

  -- An entry that has taken up a ledger, one that is handed over or the encoding of one, is marked as
  -- loaded, there are a common name and a user id for Bob, and no transaction is open. The LDAP library
  -- finds one attribute in the text of a key, of the type `uid`.
  pub entry_load-IsNamed :
      (l : Ledger) (input mem : Bytes) (o o' : Entry Env Tx Cursor)
      → (entry_from_ledger w r db str2dn b2h l mem o ≡ (ok tt, o'))
        ⊎ (entry_deserialize w r db str2dn b2h input mem o ≡ (ok tt, o'))
      → IsNamed o' × (o'.is_loaded ≡ true)
  entry_load-IsNamed l input mem o o' (inl h) = from_ledger-IsNamed l mem o o' h
  entry_load-IsNamed l input mem o o' (inr h) = deserialize-IsNamed input mem o o' h
