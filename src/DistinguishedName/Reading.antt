-- ===== src/DistinguishedName/Reading.antt =====
-- src/dn.c: the texts that the pointers of a name lead to.
use gtk4_kee.Prelude.{
  ◌≢◌, ◌+◌, ◌≤◌, ◌≡◌, sym, ap, ◌∙◌, subst, List, [], ◌∷◌, ◌++◌, Option, none, some, if◌then◌else◌,
  leb, length, Bool-cases, Option-cases, inl, inr,
}
use gtk4_kee.Prelude.Bytes.{Bytes, NoNul, c_string, same_bytes, same_bytes_iff}
use gtk4_kee.Prelude.Memory.{put_at}
use gtk4_kee.Prelude.Result.{fault, from_option, fault_if, ok, ok-injective}
use gtk4_kee.Prelude.Stateful.{
  ◌>>=◌, proceed, current, call, modify, >>-succeeds, tested, called, looked, modified,
}
use gtk4_kee.DistinguishedName.Pointers.{Leads, Leads-kept, Leads-new, Leads-some, put-takes}
use gtk4_kee.DistinguishedName.{
  Dn, Str2Dn, lowered, point, put_attribute, put_attributes, require_cn, dn_from_str,
}

-- The texts of a name
pub record Reads (d : Dn) (cn o uid : Option Bytes) : Type 0 where
  pub room : d.p ≤ length d.mem
  pub reads_cn : Leads d.p d.mem d.cn cn
  pub reads_o : Leads d.p d.mem d.o o
  pub reads_uid : Leads d.p d.mem d.uid uid

-- The value of the last attribute of a type, or what was there before
abbrev pub latest : Bytes → Option Bytes → List (Bytes × Bytes) → Option Bytes
latest t v [] = v
latest t v ((attr, v') ∷ attrs) =
    latest t (if same_bytes (lowered attr) t then some v' else v) attrs

abbrev pub AllTexts : List (Bytes × Bytes) → Type 0
AllTexts [] = Unit
AllTexts ((attr, v) ∷ attrs) = NoNul v × AllTexts attrs

abbrev cn_type : Bytes
cn_type = b'c' ∷ b'n' ∷ []

abbrev o_type : Bytes
o_type = b'o' ∷ []

abbrev uid_type : Bytes
uid_type = b'u' ∷ b'i' ∷ b'd' ∷ []

-- What an attribute of the type `t'` makes of the value of a type
abbrev taken : Bytes → Bytes → Bytes → Option Bytes → Option Bytes
taken t t' v x = if same_bytes t' t then some v else x

-- The name after a text was put behind the others
abbrev filled : Dn → Bytes → Bytes → Dn
filled d v mem = record d { mem = mem; p = d.p + (length v + 1) }

point-Reads :
    (t v : Bytes) (d : Dn) {d' : Dn} (mem : Bytes) (cn o uid : Option Bytes)
    → NoNul v
    → point t d ≡ ok d'
    → put_at d'.p (v ++ 0 ∷ []) d'.mem ≡ ok mem
    → Reads d cn o uid
    → Reads (filled d' v mem) (taken cn_type t v cn) (taken o_type t v o) (taken uid_type t v uid)
unfolding point
point-Reads t v d {d'} mem cn o uid n h e r = elim (Bool-cases (same_bytes t cn_type)) [
  | inl c ↦
      let c' = (same_bytes_iff t cn_type).0 c in
      let same = ok-injective (rw (point, c) at h) in
      rw c' (
        subst
          (λ d'. put_at d'.p (v ++ 0 ∷ []) d'.mem ≡ ok mem → Reads (filled d' v mem) (some v) o uid)
          same
          (λ e. record {
            room = (put-takes d.p v d.mem r.room e).1;
            reads_cn = Leads-new d.p v d.mem r.room n e;
            reads_o = Leads-kept d.p v d.mem d.o o r.room e r.reads_o;
            reads_uid = Leads-kept d.p v d.mem d.uid uid r.room e r.reads_uid;
          })
          e)
  | inr c ↦ elim (Bool-cases (same_bytes t o_type)) [
    | inl c2 ↦
        let c' = (same_bytes_iff t o_type).0 c2 in
        let same = ok-injective (rw (point, c, c2) at h) in
        rw c' (
          subst
            (λ d'.
              put_at d'.p (v ++ 0 ∷ []) d'.mem ≡ ok mem → Reads (filled d' v mem) cn (some v) uid)
            same
            (λ e. record {
              room = (put-takes d.p v d.mem r.room e).1;
              reads_cn = Leads-kept d.p v d.mem d.cn cn r.room e r.reads_cn;
              reads_o = Leads-new d.p v d.mem r.room n e;
              reads_uid = Leads-kept d.p v d.mem d.uid uid r.room e r.reads_uid;
            })
            e)
    | inr c2 ↦ elim (Bool-cases (same_bytes t uid_type)) [
      | inl c3 ↦
          let c' = (same_bytes_iff t uid_type).0 c3 in
          let same = ok-injective (rw (point, c, c2, c3) at h) in
          rw c' (
            subst
              (λ d'.
                put_at d'.p (v ++ 0 ∷ []) d'.mem ≡ ok mem → Reads (filled d' v mem) cn o (some v))
              same
              (λ e. record {
                room = (put-takes d.p v d.mem r.room e).1;
                reads_cn = Leads-kept d.p v d.mem d.cn cn r.room e r.reads_cn;
                reads_o = Leads-kept d.p v d.mem d.o o r.room e r.reads_o;
                reads_uid = Leads-new d.p v d.mem r.room n e;
              })
              e)
      | inr c3 ↦ absurd (let h' = rw (point, c, c2, c3) at h in cc)
    ]
  ]
]

put_attribute-Reads :
    (attr v : Bytes) (d d' : Dn) (cn o uid : Option Bytes)
    → NoNul v
    → put_attribute (attr, v) d ≡ (ok tt, d')
    → Reads d cn o uid
    → Reads d'
        (taken cn_type (lowered attr) v cn)
        (taken o_type (lowered attr) v o)
        (taken uid_type (lowered attr) v uid)
unfolding put_attribute
put_attribute-Reads attr v d d' cn o uid n h r =
    let (_, h) = tested (fault_if (leb 1024 (length attr))) _ h in
    let (d1, e1, h) = called (point (lowered attr) d) _ (looked _ h) in
    let (d2, e2, h) = >>-succeeds (modify (λ _. d1)) _ h in
    let (mem, e3, h) = called (put_at d1.p (v ++ 0 ∷ []) d1.mem) _ h in
    let there : filled d1 v mem ≡ d' =
      ap (λ d. filled d v mem) (modified (λ _. d1) e2)
      ∙ modified (λ d. record d { mem = mem; p = d.p + (length v + 1) }) h in
    subst
      (λ d.
        Reads d (taken cn_type (lowered attr) v cn) (taken o_type (lowered attr) v o)
          (taken uid_type (lowered attr) v uid))
      there (point-Reads (lowered attr) v d mem cn o uid n e1 e3 r)

put_attributes-Reads :
    (attrs : List (Bytes × Bytes)) (d d' : Dn) (cn o uid : Option Bytes)
    → AllTexts attrs
    → put_attributes attrs d ≡ (ok tt, d')
    → Reads d cn o uid
    → Reads d' (latest cn_type cn attrs) (latest o_type o attrs) (latest uid_type uid attrs)
unfolding put_attributes call
put_attributes-Reads [] d d' cn o uid n h r =
    let same : d ≡ d' = ap (λ o. o.1) h in subst (λ d. Reads d cn o uid) same r
put_attributes-Reads ((attr, v) ∷ attrs) d d' cn o uid (n, more) h r =
    let (d1, first, h) = >>-succeeds (put_attribute (attr, v)) _ h in
    put_attributes-Reads attrs d1 d' _ _ _ more h
      (put_attribute-Reads attr v d d1 cn o uid n first r)

pub named_after : (d : Dn) {d' : Dn} → require_cn d ≡ (ok tt, d') → (d ≡ d') × (d.cn ≢ none)
unfolding require_cn ◌>>=◌ proceed current call
named_after d h = elim (Option-cases d.cn) [
  | inl e ↦ absurd (let h' = ap (λ o. o.0) h in let h'' = rw e at h' in cc)
  | inr (at, e) ↦ (ap (λ o. o.1) h, λ e'. let e'' = sym e ∙ e' in cc)
]

-- Where `kee_dn_from_str` succeeds, each of the pointers leads to the text of the last attribute of its
-- type in the parts that the LDAP library finds, or to the text that it led to before where there is
-- none of it, and there is a common name. No value has a NUL in it.
pub dn_from_str-Reads :
    (str2dn : Str2Dn) (s text : Bytes) (attrs : List (Bytes × Bytes)) (d d' : Dn)
    (cn o uid : Option Bytes)
    → c_string (s ++ 0 ∷ []) ≡ some text
    → str2dn text ≡ some attrs
    → AllTexts attrs
    → Reads d cn o uid
    → dn_from_str str2dn s d ≡ (ok tt, d')
    → Reads d' (latest cn_type cn attrs) (latest o_type o attrs) (latest uid_type uid attrs)
      × (latest cn_type cn attrs ≢ none)
unfolding dn_from_str
dn_from_str-Reads str2dn s text attrs d d' cn o uid e e' n r h =
    let (_, h) = tested (fault_if (leb 1024 (length s))) _ h in
    let (text', e1, h) =
      called (elim (c_string (s ++ 0 ∷ [])) [ none ↦ fault | some t ↦ ok t ]) _ h in
    let same : text ≡ text' = ok-injective (rw e at e1) in
    let (attrs', e2, h) = called (from_option 1 (str2dn text')) _ h in
    let same' : attrs ≡ attrs' = ok-injective (rw (← same, e') at e2) in
    let (d1, put, h) = >>-succeeds (put_attributes attrs') _ h in
    let put' = subst (λ a. put_attributes a d ≡ (ok tt, d1)) (sym same') put in
    let done = put_attributes-Reads attrs d d1 cn o uid n put' r in
    let (stays, named) = named_after d1 h in
    (
      subst
          (λ d.
            Reads d (latest cn_type cn attrs) (latest o_type o attrs) (latest uid_type uid attrs))
          stays done,
      Leads-some d1.p d1.mem d1.cn (latest cn_type cn attrs) done.reads_cn named,
    )
