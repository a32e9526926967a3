-- ===== src/Database/Listing.antt =====
-- Going through the entries under a prefix with `db_next` of src/db.c.
use gtk4_kee.Prelude.{
  ℕ, ◌%◌, ◌≤◌, ◌≡◌, refl, sym, ◌∙◌, Bool, true, false, List, [], ◌∷◌, Option, none, some, ltb, ◌==◌,
  ◌||◌, ◌&&◌, if◌then◌else◌, get_or, take, drop, length, ◌++◌, take-append, length-append,
  length-drop, Bool-cases, inl, inr, arith, subst,
}
use gtk4_kee.Prelude.Bytes.{Bytes}
use gtk4_kee.Prelude.Memory.{put_at-append}
use gtk4_kee.Prelude.Result.{Result, ok, err, from_option}
use gtk4_kee.Prelude.Stateful.{◌>>=◌, ◌>>◌, call, current, modify, proceed}
use gtk4_kee.Database.Library.{Lmdb}
use gtk4_kee.Database.{
  Ctx, Handle, opened, free, search_key, delivered, err_db_fail, err_db_nomatch,
}
use gtk4_kee.Database.Browse.{db_next, restart, forward, matched, close_old, open_new}

abbrev pub Entry : Type 0
Entry = Bytes × Bytes

-- The order of keys: by the first byte that differs, and a part of a key before it
unfoldable pub before : Bytes → Bytes → Bool
before [] [] = false
before [] (b ∷ bs) = true
before (a ∷ as') [] = false
before (a ∷ as') (b ∷ bs) = ltb a b || ((a == b) && before as' bs)

-- The entries from the first one on whose key is not before a given one
unfoldable pub from_key : Bytes → List Entry → List Entry
from_key start [] = []
from_key start ((k, v) ∷ es) = if before k start then from_key start es else (k, v) ∷ es

-- The entries under a prefix that stand first
unfoldable pub leading : ℕ → List Entry → List Entry
leading pfx [] = []
leading pfx ((k, v) ∷ es) =
    let rest = leading pfx es in if get_or k 0 0 == pfx then (k, v) ∷ rest else []

-- What a call of a cursor finds, where these entries are left
pub data Found {Cursor : Type 0} (rest : Cursor → List Entry)
    : Option (Cursor × Bytes × Bytes) → List Entry → Type 0 where
  nothing : Found rest none []
  entry :
      {c : Cursor} {k v : Bytes} {es : List Entry}
      → rest c ≡ es
      → Found rest (some (c, k, v)) ((k, v) ∷ es)

-- What the code relies on: in a transaction that was begun, a new cursor finds the first entry from a
-- key on, and each further call the one after it.
pub record IsLmdb {Env Tx Cursor : Type 0} (db : Lmdb Env Tx Cursor) : Type 0 where
  pub contents : Tx → List Entry
  pub rest : Cursor → List Entry
  pub opens : (e : Env) (t : Tx) → db.txn_begin e ≡ some t → db.dbi_open t ≡ true
  pub finds :
      (e : Env) (t : Tx)
      → db.txn_begin e ≡ some t
      → (c : Cursor) × (db.cursor_open t ≡ some c)
        × ((start : Bytes) → Found rest (db.set_range c start) (from_key start (contents t)))
  pub moves : (c : Cursor) → Found rest (db.next_nodup (some c)) (rest c)

-- Entries whose keys and values are not longer than the buffers
pub data Fits (keys values : ℕ) : List Entry → Type 0 where
  none_left : Fits keys values []
  one_fits :
      {k v : Bytes} {es : List Entry}
      → length k ≤ keys
      → length v ≤ values
      → Fits keys values es
      → Fits keys values ((k, v) ∷ es)

delivered_lem :
    (key value k v : Bytes)
    → length k ≤ length key
    → length v ≤ length value
    → (key' value' : Bytes) × (delivered key value k v ≡ ok (key', length k, value', length v))
      × (take (length k) key' ≡ k)
      × (take (length v) value' ≡ v)
      × (length key' ≡ length key)
      × (length value' ≡ length value)
unfolding delivered
delivered_lem key value k v hk hv = (
  k ++ drop (length k) key,
  v ++ drop (length v) value,
  rw (put_at-append [] k key hk, put_at-append [] v value hv) refl,
  take-append k (drop (length k) key),
  take-append v (drop (length v) value),
  omega (arith, hk, length-append k (drop (length k) key), length-drop (length k) key),
  omega (arith, hv, length-append v (drop (length v) value), length-drop (length v) value),
)

module _ {Env Tx Cursor : Type 0} (db : Lmdb Env Tx Cursor) where
  -- Calls of `db_next` up to the first that fails: what they deliver, the code of the last, and the
  -- state after it
  pub data Browses (pfx : ℕ)
      : Ctx Env Tx Cursor → Bytes → ℕ → Bytes → List Entry → ℕ → Ctx Env Tx Cursor → Type 0 where
    ended :
        {s s' : Ctx Env Tx Cursor} {key value : Bytes} {key_len code : ℕ}
        → db_next db pfx key key_len value s ≡ (err code, s')
        → Browses pfx s key key_len value [] code s'
    listed :
        {s s' s'' : Ctx Env Tx Cursor} {key value key' value' k v : Bytes}
        {key_len key_len' value_len code : ℕ} {es : List Entry}
        → db_next db pfx key key_len value s ≡ (ok (key', key_len', value', value_len), s')
        → take key_len' key' ≡ k
        → take value_len value' ≡ v
        → Browses pfx s' key' key_len' value' es code s''
        → Browses pfx s key key_len value ((k, v) ∷ es) code s''

  -- `db_next` behind the two branches
  unfoldable step :
      Option (Cursor × Bytes × Bytes)
      → Bytes
      → Bytes
      → Ctx Env Tx Cursor
      → Result (Bytes × ℕ × Bytes × ℕ) × Ctx Env Tx Cursor
  step o key value = call (from_option err_db_fail o) >>= λ (c, k, v).
      matched db c k >> call (delivered key value k v)

  going_on :
      (pfx key_len : ℕ) (key value : Bytes) (s : Ctx Env Tx Cursor) (c : Cursor)
      → (pfx % 256 == 0) ≡ false
      → s.browsing ≡ true
      → s.crsr ≡ opened c
      → db_next db pfx key key_len value s ≡ step (db.next_nodup (some c)) key value s
  unfolding db_next forward step ◌>>=◌ ◌>>◌ proceed call current
  going_on pfx key_len key value s c valid b h = rw (valid, b, h) refl

  found_step :
      (pfx : ℕ) (s : Ctx Env Tx Cursor) (c : Cursor) (key value key' value' k v : Bytes)
      → s.current_key ≡ pfx
      → (get_or k 0 0 == pfx) ≡ true
      → delivered key value k v ≡ ok (key', length k, value', length v)
      → step (some (c, k, v)) key value s
        ≡ (ok (key', length k, value', length v), record s { crsr = opened c; started = true })
  unfolding step matched ◌>>=◌ ◌>>◌ proceed call current modify
  found_step pfx s c key value key' value' k v cur match d = rw (cur, match, d) refl

  mismatch_step :
      (pfx : ℕ) (s : Ctx Env Tx Cursor) (c : Cursor) (key value k v : Bytes)
      → s.current_key ≡ pfx
      → (get_or k 0 0 == pfx) ≡ false
      → step (some (c, k, v)) key value s
        ≡ (err err_db_nomatch, record s { crsr = opened c; started = true; browsing = false })
  unfolding step matched ◌>>=◌ ◌>>◌ proceed call current modify
  mismatch_step pfx s c key value k v cur match = rw (cur, match) refl

  module _ (law : IsLmdb db) (pfx : ℕ) (valid : (pfx % 256 == 0) ≡ false) where
    browse_from :
        (es : List Entry) (o : Option (Cursor × Bytes × Bytes)) (s0 s : Ctx Env Tx Cursor)
        (key value : Bytes) (key_len : ℕ)
        → Found law.rest o es
        → Fits (length key) (length value) es
        → s.current_key ≡ pfx
        → s.browsing ≡ true
        → db_next db pfx key key_len value s0 ≡ step o key value s
        → (code : ℕ) × (s' : Ctx Env Tx Cursor) × Browses pfx s0 key key_len value
            (leading pfx es)
            code
            s'
    unfolding leading step ◌>>=◌ proceed call
    browse_from [] none s0 s key value key_len Found.nothing fits cur b h =
        (err_db_fail, s, Browses.ended h)
    browse_from [] (some o) s0 s key value key_len found fits cur b h = elim found [ ]
    browse_from ((k, v) ∷ es) none s0 s key value key_len found fits cur b h = elim found [ ]
    browse_from ((k, v) ∷ es) (some (c, k', v')) s0 s key value key_len (Found.entry left)
          (Fits.one_fits hk hv fits) cur b h =
        elim (Bool-cases (get_or k 0 0 == pfx)) [
          | inl m ↦
              let (key', value', d, tk, tv, lk, lv) = delivered_lem key value k v hk hv in
              let s1 = record s { crsr = opened c; started = true } in
              let found = subst (Found law.rest (db.next_nodup (some c))) left (law.moves c) in
              let fits' =
                subst (λ n. Fits n (length value') es) (sym lk)
                  (subst (λ n. Fits (length key) n es) (sym lv) fits) in
              let (code, s', bs) =
                browse_from es (db.next_nodup (some c)) s1 s1 key' value' (length k) found fits' cur
                  b (going_on pfx (length k) key' value' s1 c valid b refl) in
              rw m (
                code,
                s',
                Browses.listed (h ∙ found_step pfx s c key value key' value' k v cur m d) tk tv bs,
              )
          | inr m ↦ rw m (
            err_db_nomatch,
            record s { crsr = opened c; started = true; browsing = false },
            Browses.ended (h ∙ mismatch_step pfx s c key value k v cur m),
          )
        ]

    begun :
        (key start value : Bytes) (key_len : ℕ) (s : Ctx Env Tx Cursor) (t : Tx) (c : Cursor)
        {x : Handle Cursor} {y : Handle Tx}
        → s.browsing ≡ false
        → free s.crsr ≡ ok x
        → free s.tx ≡ ok y
        → db.txn_begin s.env ≡ some t
        → db.cursor_open t ≡ some c
        → search_key pfx key key_len ≡ ok start
        → db_next db pfx key key_len value s
          ≡ step
              (db.set_range c start)
              key
              value
              (record s { tx = opened t; crsr = opened c; current_key = pfx; browsing = true })
    unfolding db_next restart close_old open_new step ◌>>=◌ ◌>>◌ proceed call current modify
    begun key start value key_len s t c idle hx hy ht hc hs = elim (Bool-cases s.started) [
      | inl again ↦ rw (valid, idle, again, hx, hy, ht, law.opens s.env t ht, hc, hs) refl
      | inr new ↦ rw (valid, idle, new, ht, law.opens s.env t ht, hc, hs) refl
    ]

    -- The calls of `db_next` after a rewind deliver, one after the other, the entries under the prefix
    -- that stand first from the given key on, and then fail: where LMDB is as documented and a
    -- transaction can begin, what the state points to was not freed before, and the buffers have room
    -- for the keys and values from there on.
    pub db_next-lists :
        (key start value : Bytes) (key_len : ℕ) (s : Ctx Env Tx Cursor) (t : Tx) {x : Handle Cursor}
        {y : Handle Tx}
        → s.browsing ≡ false
        → free s.crsr ≡ ok x
        → free s.tx ≡ ok y
        → db.txn_begin s.env ≡ some t
        → search_key pfx key key_len ≡ ok start
        → Fits (length key) (length value) (from_key start (law.contents t))
        → (code : ℕ) × (s' : Ctx Env Tx Cursor) × Browses pfx s key key_len value
            (leading pfx (from_key start (law.contents t)))
            code
            s'
    db_next-lists key start value key_len s t idle hx hy ht hs fits =
        let (c, hc, finds) = law.finds s.env t ht in
        browse_from (from_key start (law.contents t)) (db.set_range c start) s
          (record s { tx = opened t; crsr = opened c; current_key = pfx; browsing = true }) key
          value key_len (finds start) fits refl refl
          (begun key start value key_len s t c idle hx hy ht hc hs)
