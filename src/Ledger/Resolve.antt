-- ===== src/Ledger/Resolve.antt =====
-- `kee_ledger_resolve` of src/ledger.c. Its calls of `kee_content_resolve` return ERR_OK always.
use gtk4_kee.Prelude.{
  ℕ, ◌≡◌, refl, sym, ap, ◌∙◌, ◌+◌, length, List, [], ◌∷◌, map, Option, none, some, leb, Bool-cases,
  inl, inr, take, ◌==◌,
}
use gtk4_kee.Prelude.Bytes.{Bytes, same_bytes}
use gtk4_kee.Prelude.Result.{Result, ok, ◌>>=◌, >>=-eq-ok, ok-injective, fault_if}
use gtk4_kee.Content.{Content, blank, zero_content}
use gtk4_kee.Content.Resolve.{
  Resolver, content_resolve, take_data, take_subject, put_subject, copy_to, text_in,
}
use gtk4_kee.Ledger.Types.{World, Ledger, Item}
use gtk4_kee.Ledger.Serialize.{ledger_digest, ledger_serialize}

module _ (r : Resolver) where
  unfoldable pub resolve_items : List Item → Result (List Item)
  resolve_items [] = ok []
  resolve_items (item ∷ prev) =
      let rest = resolve_items prev in
      do
        content ← content_resolve r item.content
        prev ← rest
        ok (record item { content = content } ∷ prev)

  unfoldable pub ledger_resolve : Ledger → Result Ledger
  unfolding resolve_items
  ledger_resolve l = do
    content ← content_resolve r l.content
    items ← resolve_items l.items
    ok (record l { content = content; items = items })

-- An item without what resolving its content writes
abbrev pub unresolved : Item → Item
unresolved item = record item { content = record blank { key = item.content.key } }

put_subject-key :
    (at : ℕ) (subject : Bytes) (c c' : Content) → put_subject at subject c ≡ ok c' → c'.key ≡ c.key
unfolding put_subject
put_subject-key at subject c c' h = elim (Bool-cases (leb (length subject + 1) c.mem_size)) [
  | inl room ↦
      let (mem, _, h') = >>=-eq-ok (copy_to at subject c.mem) _ (rw room at h) in
      ap (λ (c : Content). c.key) (sym (ok-injective h'))
  | inr full ↦ ap (λ (c : Content). c.key) (sym (ok-injective (rw full at h)))
]

take_subject-key :
    (subject : Option Bytes) (at : ℕ) (c c' : Content)
    → take_subject subject at c ≡ ok c'
    → c'.key ≡ c.key
unfolding take_subject
take_subject-key none at c c' h = ap (λ (c : Content). c.key) (sym (ok-injective h))
take_subject-key (some subject) at c c' h =
    let (c1, e, h') = >>=-eq-ok (put_subject at subject c) _ h in
    ap (λ (c : Content). c.key) (sym (ok-injective h')) ∙ put_subject-key at subject c c1 e

module _ (r : Resolver) where
  take_data-key :
      (data' : Option Bytes) (c c' : Content) → take_data r data' c ≡ ok c' → c'.key ≡ c.key
  unfolding take_data
  take_data-key none c c' h = ap (λ (c : Content). c.key) (sym (ok-injective h))
  take_data-key (some data') c c' h =
      let (mem, _, h) = >>=-eq-ok (copy_to 0 data' c.mem) _ h in
      let (text, _, h) = >>=-eq-ok (text_in mem) _ h in
      let (c1, e, h) = >>=-eq-ok (take_subject (r.subject_of text) _ _) _ h in
      ap (λ (c : Content). c.key) (sym (ok-injective h))
      ∙ take_subject-key (r.subject_of text) _ _ c1 e

  content_resolve-key : (c c' : Content) → content_resolve r c ≡ ok c' → c'.key ≡ c.key
  unfolding content_resolve
  content_resolve-key c c' h = elim (Bool-cases (same_bytes (take 64 c.key) zero_content)) [
    | inl none_set ↦ ap (λ (c : Content). c.key) (sym (ok-injective (rw none_set at h)))
    | inr set ↦
        let (_, _, h') = >>=-eq-ok (fault_if (c.mem_size == 0)) _ (rw set at h) in
        take_data-key _ c c' h'
  ]

  resolve_items-same :
      (items items' : List Item)
      → resolve_items r items ≡ ok items'
      → map unresolved items' ≡ map unresolved items
  unfolding resolve_items
  resolve_items-same [] items' h = ap (map unresolved) (sym (ok-injective h))
  resolve_items-same (item ∷ prev) items' h =
      let (c, e, h) = >>=-eq-ok (content_resolve r item.content) _ h in
      let (prev', e', h) = >>=-eq-ok (resolve_items r prev) _ h in
      ap (map unresolved) (sym (ok-injective h))
      ∙ ap
          (λ k.
            let xs : List Item =
              record item { content = record blank { key = k } } ∷ map unresolved prev' in
            xs)
          (content_resolve-key item.content c e)
      ∙ ap (λ xs. unresolved item ∷ xs) (resolve_items-same prev prev' e')

  -- What `kee_ledger_resolve` leaves as it was: the digest of the ledger, and of every item all but
  -- what is known of its content, whose key stays too.
  pub ledger_resolve-same :
      {Node Sexp Mpi : Type 0} (w : World Node Sexp Mpi) (l l' : Ledger)
      → ledger_resolve r l ≡ ok l'
      → (ledger_digest w l' ≡ ledger_digest w l)
        × (map unresolved l'.items ≡ map unresolved l.items)
  unfolding ledger_resolve ledger_digest ledger_serialize
  ledger_resolve-same w l l' h =
      let (c, e, h) = >>=-eq-ok (content_resolve r l.content) _ h in
      let (items, e', h) = >>=-eq-ok (resolve_items r l.items) _ h in
      let same = sym (ok-injective h) in
      (
        ap (ledger_digest w) same ∙ digest_of l c items (content_resolve-key l.content c e),
        ap (λ (l : Ledger). map unresolved l.items) same ∙ resolve_items-same l.items items e',
      )
    where
      digest_of :
          (l : Ledger) (c : Content) (items : List Item)
          → c.key ≡ l.content.key
          → ledger_digest w (record l { content = c; items = items }) ≡ ledger_digest w l
      digest_of l c items e = rw e refl
