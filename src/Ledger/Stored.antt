-- ===== src/Ledger/Stored.antt =====
-- How `kee_ledger_put` of src/ledger.c leaves the database where it succeeds.
pub mod Steps
use gtk4_kee.Prelude.{
  ℕ, ◌≡◌, refl, sym, ap, ◌∙◌, false, true, List, [], ◌∷◌, Option, none, some, take, drop, subst,
  Option-cases, inl, inr,
}
use gtk4_kee.Prelude.Bytes.{Bytes}
use gtk4_kee.Prelude.Result.{
  Result, ok, err, fault, or_code, from_option, from_option-eq-ok, >>=-eq-ok, or_code-eq-ok,
  ok-injective,
}
use gtk4_kee.Prelude.Stateful.{
  Stateful, >>=-succeeds, >>-succeeds, called, looked, modified, modify, replace_code-succeeds,
  replace_code, attempt, call, current, ◌>>=◌, proceed,
}
use gtk4_kee.Database.{Ctx, null, opened, free, deref}
use gtk4_kee.Database.Library.{Lmdb}
use gtk4_kee.Database.Write.{db_start, db_add, db_finish, err_fail}
use gtk4_kee.Database.Browse.{db_next, db_rewind}
use gtk4_kee.Database.Frames.{
  Frames, >>=-Frames, >>-Frames, call-Frames, attempt-Frames, db_rewind-Frames, db_next-Frames,
}
use gtk4_kee.Ledger.Types.{World, Ledger, Item, buffer}
use gtk4_kee.Ledger.Keys.{db_key, put_item, item_key}
use gtk4_kee.Ledger.Serialize.{ledger_serialize, item_serialize_db}
use gtk4_kee.Ledger.Store.{
  ledger_put, put_items, reverse_key, reverse_found, head_found, add, state_of, go_on,
  key_ledger_head, key_reverse,
}
use gtk4_kee.Ledger.Stored.Steps.{ItemsPut, rewound, begun, added, finished, tx_of, items_added}

module _ {Node Sexp Mpi Env Tx Cursor : Type 0} (w : World Node Sexp Mpi)
    (db : Lmdb Env Tx Cursor) where
  -- What `kee_ledger_put` leaves: one transaction on the environment of before was begun, the head of the
  -- ledger was put under a key with the time, the time under the digest, then the items, and that
  -- transaction was committed.
  pub record Committed (time : ℕ × ℕ) (l : Ledger) (s s' : Ctx Env Tx Cursor) : Type 0 where
    pub buf : Bytes
    pub key : Bytes
    pub size : ℕ
    pub head : Bytes
    pub buf' : Bytes
    pub t0 : Tx
    pub t1 : Tx
    pub t2 : Tx
    pub t3 : Tx
    pub key_is : db_key w key_ledger_head time.0 time.1 buf 0 ≡ ok (key, size)
    pub head_is : ledger_serialize w l 2048 ≡ ok head
    pub reverse_is : reverse_key w db l key ≡ ok buf'
    pub begins : db.txn_begin s.env ≡ some t0
    pub puts_head : db.put true (some t0) (take size key) head ≡ some t1
    pub puts_reverse : db.put true (some t1) (take 65 buf') (drop 1 (take size key)) ≡ some t2
    pub puts_items : ItemsPut w db l buf' l.items t2 t3
    pub commits : db.commit s.env (some t3) ≡ some s'.env
    pub closed : s'.tx ≡ null
    pub anew : s'.browsing ≡ false

  head_found-Frames : {A : Type 0} (r : Result A) (k : Bytes) → Frames (head_found w db r k)
  unfolding head_found
  head_found-Frames (ok _) k = call-Frames fault
  head_found-Frames (err c) k = call-Frames (ok k)
  head_found-Frames fault k = call-Frames fault

  reverse_found-Frames :
      (r : Result (Bytes × ℕ × Bytes × ℕ)) (k : Bytes) → Frames (reverse_found w db r k)
  unfolding reverse_found
  reverse_found-Frames (ok (k', _, v, c)) k = >>=-Frames _ _ (call-Frames _) (λ k.
      >>-Frames _ _ (db_rewind-Frames db) (
        >>=-Frames _ _
          (attempt-Frames (db_next db key_ledger_head k c v)
            (db_next-Frames db key_ledger_head k c v))
          (λ r. head_found-Frames r k)))
  reverse_found-Frames (err c) k = call-Frames (ok k)
  reverse_found-Frames fault k = call-Frames fault

  kept :
      {A : Type 0} (m : Stateful (Ctx Env Tx Cursor) A) (s : Ctx Env Tx Cursor)
      {s' : Ctx Env Tx Cursor} {r : Result A}
      → Frames m
      → m s ≡ (r, s')
      → s'.env ≡ s.env
  kept m s h e = ap (λ o. o.1.env) (sym e) ∙ h s

  env_kept :
      {t : Tx} (a : Ctx Env Tx Cursor) {b : Ctx Env Tx Cursor}
      → record a { tx = opened t } ≡ b
      → (b.env ≡ a.env) × (b.browsing ≡ a.browsing)
  env_kept a e = (
    ap (λ (s : Ctx Env Tx Cursor). s.env) (sym e),
    ap (λ (s : Ctx Env Tx Cursor). s.browsing) (sym e),
  )

  written :
      (time : ℕ × ℕ) (l : Ledger) (buf key head buf' : Bytes) (size : ℕ)
      (s s3 s4 s5 s6 s7 s' : Ctx Env Tx Cursor)
      → db_key w key_ledger_head time.0 time.1 buf 0 ≡ ok (key, size)
      → ledger_serialize w l 2048 ≡ ok head
      → reverse_key w db l key ≡ ok buf'
      → s3.env ≡ s.env
      → s3.browsing ≡ false
      → db_start db s3 ≡ (ok tt, s4)
      → db_add db (take size key) head s4 ≡ (ok tt, s5)
      → db_add db (take 65 buf') (drop 1 (take size key)) s5 ≡ (ok tt, s6)
      → put_items w db l l.items buf' s6 ≡ (ok tt, s7)
      → db_finish db s7 ≡ (ok tt, s')
      → Committed time l s s'
  written time l buf key head buf' size s s3 s4 s5 s6 s7 s' ek eh er env3 anew3 h4 h5 h6 h7 h8 =
      let (t0, b0, e4) = begun db s3 s4 h4 in
      let (t1, b1, e5) = added db (take size key) head t0 s4 s5 (tx_of w db s3 e4) h5 in
      let (t2, b2, e6) =
        added db (take 65 buf') (drop 1 (take size key)) t1 s5 s6 (tx_of w db s4 e5) h6 in
      let (t3, puts, e7) = items_added w db l l.items buf' t2 s6 s7 (tx_of w db s5 e6) h7 in
      let (none_left, same, committed) = finished db t3 s7 s' (tx_of w db s6 e7) h8 in
      let (v4, w4) = env_kept s3 e4 in
      let (v5, w5) = env_kept s4 e5 in
      let (v6, w6) = env_kept s5 e6 in
      let (v7, w7) = env_kept s6 e7 in
      let env7 : s7.env ≡ s.env = v7 ∙ v6 ∙ v5 ∙ v4 ∙ env3 in
      record {
        buf = buf;
        key = key;
        size = size;
        head = head;
        buf' = buf';
        t0 = t0;
        t1 = t1;
        t2 = t2;
        t3 = t3;
        key_is = ek;
        head_is = eh;
        reverse_is = er;
        begins = subst (λ e. db.txn_begin e ≡ some t0) env3 b0;
        puts_head = b1;
        puts_reverse = b2;
        puts_items = puts;
        commits = subst (λ e. db.commit e (some t3) ≡ some s'.env) env7 committed;
        closed = none_left;
        anew = same ∙ w7 ∙ w6 ∙ w5 ∙ w4 ∙ anew3;
      }

  -- Where `kee_ledger_put` succeeds, it began one transaction on the environment of before and committed
  -- that one as the last step, with what it put there: the head of the ledger under a key with the time
  -- of the clock, that time under the digest of the ledger, and the items under their keys, the last one
  -- first, up to the first that has no key or encoding or that the database does not take. None is left
  -- has_tx, and the next `db_next` begins anew.
  pub ledger_put-Committed :
      (clock : Option (ℕ × ℕ)) (l : Ledger) (s s' : Ctx Env Tx Cursor)
      → ledger_put w db clock l s ≡ (ok tt, s')
      → (time : ℕ × ℕ) × (clock ≡ some time) × Committed time l s s'
  unfolding ledger_put
  ledger_put-Committed clock l s s' h =
      let (k0, _, h) = called (reverse_key w db l (take 2048 (buffer w 4096))) _ h in
      let search = db_next db key_reverse k0 65 (drop 2048 (buffer w 4096)) in
      let first = attempt search in
      let (r, s1, h1, h) = >>=-succeeds first _ h in
      let (k, s2, h2, h) = >>=-succeeds (reverse_found w db r k0) _ h in
      let (s3, h3, h) = >>-succeeds (db_rewind db) _ h in
      let (time, given, h) = called (from_option 1 clock) _ h in
      let ((key, size), key_is, h) = called (db_key w key_ledger_head time.0 time.1 k 0) _ h in
      let (head, head_is, h) = called (or_code 1 (ledger_serialize w l 2048)) _ h in
      let (s4, h4, h) = >>-succeeds (replace_code 1 (db_start db)) _ h in
      let (s5, h5, h) = >>-succeeds (replace_code 1 (db_add db (take size key) head)) _ h in
      let (k', reverse_is, h) = called (reverse_key w db l key) _ h in
      let v = drop 1 (take size key) in
      let (s6, h6, h) = >>-succeeds (replace_code 1 (db_add db (take 65 k') v)) _ h in
      let (s7, h7, h) = >>-succeeds (put_items w db l l.items k') _ h in
      let env3 : s3.env ≡ s.env =
        kept (db_rewind db) s2 (db_rewind-Frames db) h3
        ∙ kept (reverse_found w db r k0) s1 (reverse_found-Frames r k0) h2
        ∙ kept first s
            (attempt-Frames search
              (db_next-Frames db key_reverse k0 65 (drop 2048 (buffer w 4096))))
            h1 in
      (
        time,
        from_option-eq-ok 1 clock given,
        written time l k key head k' size s s3 s4 s5 s6 s7 s' key_is
            (or_code-eq-ok 1 (ledger_serialize w l 2048) head_is) reverse_is env3
            (rewound db s2 s3 h3) (replace_code-succeeds 1 (db_start db) h4)
            (replace_code-succeeds 1 (db_add db (take size key) head) h5)
            (replace_code-succeeds 1 (db_add db (take 65 k') v) h6) h7
            (replace_code-succeeds 1 (db_finish db) h),
      )
