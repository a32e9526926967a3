-- ===== src/Ledger/Stored/Steps.antt =====
-- src/ledger.c and src/db.c: the steps of `kee_ledger_put` where they succeed, and what is put for the
-- items.
use gtk4_kee.Prelude.{
  ℕ, ◌≡◌, refl, sym, ap, ◌∙◌, false, true, List, [], ◌∷◌, none, some, Option-cases, inl, inr,
}
use gtk4_kee.Prelude.Bytes.{Bytes}
use gtk4_kee.Prelude.Result.{
  Result, ok, err, fault, or_code, from_option, from_option-eq-ok, >>=-eq-ok, or_code-eq-ok,
  ok-injective,
}
use gtk4_kee.Prelude.Stateful.{
  >>-succeeds, called, looked, modified, modify, call, current, ◌>>=◌, proceed,
}
use gtk4_kee.Database.{Ctx, null, opened, free, deref}
use gtk4_kee.Database.Library.{Lmdb}
use gtk4_kee.Database.Write.{db_start, db_add, db_finish, err_fail}
use gtk4_kee.Database.Browse.{db_rewind}
use gtk4_kee.Ledger.Types.{World, Ledger, Item}
use gtk4_kee.Ledger.Keys.{put_item, item_key}
use gtk4_kee.Ledger.Serialize.{item_serialize_db}
use gtk4_kee.Ledger.Store.{put_items, add, state_of, go_on}

module _ {Env Tx Cursor : Type 0} (db : Lmdb Env Tx Cursor) where
  pub rewound : (s s' : Ctx Env Tx Cursor) → db_rewind db s ≡ (ok tt, s') → s'.browsing ≡ false
  unfolding db_rewind
  rewound s s' h =
      let (tx, _, h) = called (free s.tx) _ (looked _ h) in
      ap (λ (s : Ctx Env Tx Cursor). s.browsing) (sym (modified _ h))

  -- `db_start`, `db_add` and `db_finish` where they succeed
  pub begun :
      (s s' : Ctx Env Tx Cursor)
      → db_start db s ≡ (ok tt, s')
      → (t : Tx) × (db.txn_begin s.env ≡ some t) × (record s { tx = opened t } ≡ s')
  unfolding db_start call
  begun s s' h =
      let (tx, e, h) = called (from_option err_fail (db.txn_begin s.env)) _ (looked _ h) in
      let (s1, h1, h) =
        >>-succeeds (modify (λ (s : Ctx Env Tx Cursor). record s { tx = opened tx })) _ h in
      (tx, from_option-eq-ok err_fail (db.txn_begin s.env) e, modified _ h1 ∙ ap (λ o. o.1) h)

  pub added :
      (key v : Bytes) (t : Tx) (s s' : Ctx Env Tx Cursor)
      → s.tx ≡ opened t
      → db_add db key v s ≡ (ok tt, s')
      → (t' : Tx) × (db.put true (some t) key v ≡ some t') × (record s { tx = opened t' } ≡ s')
  unfolding db_add
  added key v t s s' has_tx h =
      let (tx, d, h) = called (deref s.tx) _ (looked _ h) in
      let tx_is : some t ≡ tx = ok-injective (rw has_tx at d) in
      let (tx', e, h) = called (from_option err_fail (db.put true tx key v)) _ h in
      (tx', rw tx_is (from_option-eq-ok err_fail (db.put true tx key v) e), modified _ h)

  pub finished :
      (t : Tx) (s s' : Ctx Env Tx Cursor)
      → s.tx ≡ opened t
      → db_finish db s ≡ (ok tt, s')
      → (s'.tx ≡ null) × (s'.browsing ≡ s.browsing) × (db.commit s.env (some t) ≡ some s'.env)
  unfolding db_finish
  finished t s s' has_tx h =
      let (tx, e, h) = called (deref s.tx) _ (looked _ h) in
      let tx_is : some t ≡ tx = ok-injective (rw has_tx at e) in
      let (s1, h1, h) = >>-succeeds _ _ h in
      let (env, committed, h) = called (from_option err_fail (db.commit s.env tx)) _ h in
      let one = modified _ h1 in
      let two = modified _ h in
      (
        ap (λ (s : Ctx Env Tx Cursor). s.tx) (sym two),
        ap (λ (s : Ctx Env Tx Cursor). s.browsing) (sym two)
            ∙ ap (λ (s : Ctx Env Tx Cursor). s.browsing) (sym one),
        rw tx_is (
            from_option-eq-ok err_fail (db.commit s.env tx) committed
            ∙ ap (λ (s : Ctx Env Tx Cursor). some (s.env)) two),
      )

module _ {Node Sexp Mpi Env Tx Cursor : Type 0} (w : World Node Sexp Mpi)
    (db : Lmdb Env Tx Cursor) where
  -- What is put in a transaction for the items of a ledger, the last one first: each under its key, up
  -- to the first that has no encoding or is not taken
  pub data ItemsPut (l : Ledger) (k : Bytes) : List Item → Tx → Tx → Type 0 where
    ended : {t : Tx} → ItemsPut l k [] t t
    put :
        {item : Item} {prev : List Item} {t t' t'' : Tx} (key v : Bytes)
        → item_key w l item k ≡ ok key
        → item_serialize_db w item prev 2048 ≡ ok v
        → db.put true (some t) key v ≡ some t'
        → ItemsPut l k prev t' t''
        → ItemsPut l k (item ∷ prev) t t''
    refused :
        {item : Item} {prev : List Item} {t : Tx}
        → ((key v : Bytes)
            → item_key w l item k ≡ ok key
            → item_serialize_db w item prev 2048 ≡ ok v
            → db.put true (some t) key v ≡ none)
        → ItemsPut l k (item ∷ prev) t t

  pub tx_of :
      {t : Tx} (a : Ctx Env Tx Cursor) {b : Ctx Env Tx Cursor}
      → record a { tx = opened t } ≡ b
      → b.tx ≡ opened t
  tx_of a e = ap (λ (s : Ctx Env Tx Cursor). s.tx) (sym e)

  same_tx : (t : Tx) (s : Ctx Env Tx Cursor) → s.tx ≡ opened t → record s { tx = opened t } ≡ s
  same_tx t s has_tx = ap (λ tx. let c : Ctx Env Tx Cursor = record s { tx = tx } in c) (sym has_tx)

  state_of-ok :
      {S : Type 0} (o : Result (Unit {0}) × S) {s' : S} → state_of o ≡ ok s' → o ≡ (ok tt, s')
  state_of-ok (ok _, s) h =
      ap (λ s. let o : Result (Unit {0}) × _ = (ok tt, s) in o) (ok-injective h)
  state_of-ok (err c, s) h = absurd (cc)
  state_of-ok (fault, s) h = absurd (cc)

  item_added :
      (l : Ledger) (item : Item) (prev : List Item) (k : Bytes) (t : Tx) (s s' : Ctx Env Tx Cursor)
      → s.tx ≡ opened t
      → put_item w (add w db) l (item ∷ prev) k s ≡ ok s'
      → (key v : Bytes) × (t' : Tx) × (item_key w l item k ≡ ok key)
        × (item_serialize_db w item prev 2048 ≡ ok v)
        × (db.put true (some t) key v ≡ some t')
        × (record s { tx = opened t' } ≡ s')
  unfolding put_item
  item_added l item prev k t s s' has_tx h =
      let (key, ek, h) = >>=-eq-ok (item_key w l item k) _ h in
      let (v, ev, h) = >>=-eq-ok (or_code 1 (item_serialize_db w item prev 2048)) _ h in
      let (t', e, same) =
        added db key v t s s' has_tx
          (state_of-ok (db_add db key v s) (or_code-eq-ok 1 (add w db s key v) h)) in
      (key, v, t', ek, or_code-eq-ok 1 (item_serialize_db w item prev 2048) ev, e, same)

  item_refused :
      (l : Ledger) (item : Item) (prev : List Item) (k : Bytes) (t : Tx) (s : Ctx Env Tx Cursor)
      {c : ℕ}
      → s.tx ≡ opened t
      → put_item w (add w db) l (item ∷ prev) k s ≡ err c
      → (key v : Bytes) → item_key w l item k ≡ ok key
      → item_serialize_db w item prev 2048 ≡ ok v
      → db.put true (some t) key v ≡ none
  unfolding put_item db_add ◌>>=◌ proceed call current modify
  item_refused l item prev k t s has_tx h key v ek ev =
      elim (Option-cases (db.put true (some t) key v)) [
        | inl n ↦ n
        | inr (t', e) ↦ absurd (let h' = rw (put_item, ek, ev, db_add, has_tx, e) at h in cc)
      ]

  pub items_added :
      (l : Ledger) (items : List Item) (k : Bytes) (t : Tx) (s s' : Ctx Env Tx Cursor)
      → s.tx ≡ opened t
      → put_items w db l items k s ≡ (ok tt, s')
      → (t' : Tx) × ItemsPut l k items t t' × (record s { tx = opened t' } ≡ s')
  unfolding put_items
  items_added l [] k t s s' has_tx h = (t, ItemsPut.ended, same_tx t s has_tx ∙ ap (λ o. o.1) h)
  items_added l (item ∷ prev) k t s s' has_tx h =
      round (put_item w (add w db) l (item ∷ prev) k s)
        (λ t1 s1 open1 h. items_added l prev k t1 s1 s' open1 h) refl h
    where
      round :
          (r : Result (Ctx Env Tx Cursor))
          → ((t1 : Tx) (s1 : Ctx Env Tx Cursor)
              → s1.tx ≡ opened t1
              → put_items w db l prev k s1 ≡ (ok tt, s')
              → (t' : Tx) × ItemsPut l k prev t1 t' × (record s1 { tx = opened t' } ≡ s'))
          → put_item w (add w db) l (item ∷ prev) k s ≡ r
          → go_on w db r s (put_items w db l prev k) ≡ (ok tt, s')
          → (t' : Tx) × ItemsPut l k (item ∷ prev) t t' × (record s { tx = opened t' } ≡ s')
      round (ok s1) rest e h =
          let (key, v, t1, ek, ev, p, same) = item_added l item prev k t s s1 has_tx e in
          let (t', more, same') = rest t1 s1 (ap (λ (s : Ctx Env Tx Cursor). s.tx) (sym same)) h in
          (
            t',
            ItemsPut.put key v ek ev p more,
            ap (λ (s : Ctx Env Tx Cursor). record s { tx = opened t' }) same ∙ same',
          )
      round (err c) rest e h = (
        t,
        ItemsPut.refused (item_refused l item prev k t s has_tx e),
        same_tx t s has_tx ∙ ap (λ o. o.1) h,
      )
      round fault rest e h = absurd (cc)
