-- ===== src/Update/Apply/Acme.antt =====
-- What a key for ACME challenges (`TYPE_ACME_DNS01`) can change.
pub mod Walk
use hexdns.Common.{
  ◌↔◌, ◌⊎◌, ℕ, ◌≡◌, ◌≢◌, refl, sym, ◌∙◌, inl, inr, Bool, true, false, not, ◌==◌, ==_iff, ◌&&◌,
  if◌then◌else◌, if_both, Bool-cases, Option-cases, List, [], ◌∷◌, Option, none, some, Bytes, codes,
  bytes_eq, bytes_eq_iff, ap, ◌>>=◌, Result, ok, err, arith,
}
use hexdns.Dns.External.{External}
use hexdns.Dns.Qtype
use hexdns.Dns.Message.{Rr}
use hexdns.Dns.Store.{Row, Zone}
use hexdns.Update.Request.{class_any, class_none, Key, UpdateRr, Wire}
use hexdns.Update.Tables.{Kind, txt, Body, rows, Store, remove_row}
use hexdns.Update.Kinds.{kind_of, to_rr, new_body}
use hexdns.Update.Apply.{
  Applied, done, refused, raised, and_do, or_raise, all_kinds, can_manage, acme_manages,
  is_acme_name, check_managed, records_of, update_or_insert, conflicts, add_record, apply_add,
  remove_managed, remove_all, remove_matching, delete_type, apply_delete, same_data, delete_data,
  apply_delete_one, apply_rr, apply_rrs,
}
use hexdns.Update.Apply.OneKind.{
  OnlyKind, OnlyKind-refl, OnlyKind-trans, remove_row-OnlyKind, kind_of-txt, to_rr-txt,
  update_or_insert-OnlyKind, remove_matching-OnlyKind,
}
use hexdns.Update.Apply.Leaves.{Leaves, and_do-Leaves, or_raise-Leaves, mono-Leaves}

module _ ⦃E : External⦄ where
  -- The key may manage the type at the name.
  abbrev pub Manages : Key → ℕ → E.Label → Type 0
  Manages key rtype name = can_manage key rtype name ≡ ok true

  -- The first label of the name is `_acme-challenge`.
  abbrev pub IsChallenge : List Bytes → Type 0
  IsChallenge labels = (rest : List Bytes) × (labels ≡ codes "_acme-challenge" ∷ rest)

  pub check_managed-Manages :
      (P : Store → Type 0) (key : Key) (rtype : ℕ) (name : E.Label) (s : Store)
      (next : Store → Applied)
      → P s
      → (Manages key rtype name → Leaves P (next s))
      → Leaves P (check_managed key rtype name s next)
  unfolding check_managed
  check_managed-Manages P key rtype name s next h go = cases (can_manage key rtype name) go
    where
      cases :
          (m : Result Bool)
          → (m ≡ ok true → Leaves P (next s))
          → Leaves P (or_raise m s λ managed. if managed then next s else refused 9 s)
      cases (ok true) go' = go' refl
      cases (ok false) go' = h
      cases (err e) go' = h

  acme_name-ok :
      (labels : List Bytes) (right : Bool)
      → (is_acme_name labels >>= λ named. ok (named && right)) ≡ ok true
      → (right ≡ true) × IsChallenge labels
  unfolding is_acme_name
  acme_name-ok [] right h = cc
  acme_name-ok (l ∷ ls) right h = elim (Bool-cases (bytes_eq l (codes "_acme-challenge"))) [
    | inl same ↦ (
      cc (rw same at h),
      (ls, ap (λ (first : Bytes). first ∷ ls) ((bytes_eq_iff l (codes "_acme-challenge")).0 same)),
    )
    | inr other ↦ cc (rw other at h)
  ]

  challenge_named :
      (name : E.Label) (rtype : ℕ)
      → rtype ≡ Qtype.txt
      → IsChallenge (E.label name)
      → acme_manages rtype name ≡ ok true
  unfolding acme_manages is_acme_name
  challenge_named name rtype t (rest, e) =
      rw (e, t, (bytes_eq_iff (codes "_acme-challenge") (codes "_acme-challenge")).1 refl) refl

  d_ne_u : bytes_eq (codes "D") (codes "U") ≡ false
  unfolding bytes_eq
  d_ne_u = refl

  -- A key of type `D` manages TXT alone, at names of challenges.
  pub Manages-acme :
      (key : Key) (rtype : ℕ) (name : E.Label)
      → key.type ≡ codes "D"
      → Manages key rtype name
      → (rtype ≡ Qtype.txt) × IsChallenge (E.label name)
  unfolding can_manage acme_manages
  Manages-acme key rtype name t h =
      let not_u : bytes_eq key.type (codes "U") ≡ false = rw t d_ne_u in
      let is_d : bytes_eq key.type (codes "D") ≡ true = (bytes_eq_iff key.type (codes "D")).1 t in
      let outside =
        not (bytes_eq key.restrict_to (codes "@"))
        && not (E.match_suffix name (E.of_str key.restrict_to)) in
      elim (Bool-cases outside) [
        | inl out ↦ cc (rw (out, can_manage) at h)
        | inr within ↦
            let both =
              acme_name-ok (E.label name) (rtype == Qtype.txt)
                (rw (within, not_u, is_d, can_manage, acme_manages) at h) in
            ((==_iff rtype Qtype.txt).0 both.0, both.1)
      ]

  -- The name is the one that the key is restricted to, or below it.
  abbrev pub IsWithin : Key → E.Label → Type 0
  IsWithin key name =
      (key.restrict_to ≡ codes "@") ⊎ (E.match_suffix name (E.of_str key.restrict_to) ≡ true)

  -- What a key of either type may manage.
  abbrev pub IsEntitled : Key → ℕ → E.Label → Type 0
  IsEntitled key rtype name =
      (key.type ≡ codes "U")
      ⊎ ((key.type ≡ codes "D") × (rtype ≡ Qtype.txt) × IsChallenge (E.label name))

  -- The first guard of `can_manage` lets the name through.
  guard-IsWithin :
      (key : Key) (name : E.Label)
      → ((not (bytes_eq key.restrict_to (codes "@"))
            && not (E.match_suffix name (E.of_str key.restrict_to)))
          ≡ false)
        ↔ IsWithin key name
  guard-IsWithin key name = elim (Bool-cases (bytes_eq key.restrict_to (codes "@"))) [
    | inl at_ ↦ rw at_ (λ h. inl ((bytes_eq_iff key.restrict_to (codes "@")).0 at_), λ h. refl)
    | inr other ↦ rw other (
      λ h. inr (ground arith),
      λ h. elim h [
        | inl e ↦ cc ((bytes_eq_iff key.restrict_to (codes "@")).1 e)
        | inr m ↦ ground arith
      ],
    )
  ]

  -- A key may manage a type at a name exactly if the name lies within what the key is restricted to
  -- and the key is of type `U`, or it is of type `D`, the type is TXT and the first label of the name
  -- is `_acme-challenge`.
  pub can_manage-IsEntitled :
      (key : Key) (rtype : ℕ) (name : E.Label)
      → Manages key rtype name ↔ (IsWithin key name × IsEntitled key rtype name)
  unfolding can_manage acme_manages is_acme_name
  can_manage-IsEntitled key rtype name =
      elim (Bool-cases (
        not (bytes_eq key.restrict_to (codes "@"))
        && not (E.match_suffix name (E.of_str key.restrict_to)))) [
          | inl out ↦ rw (out, can_manage) (λ h. cc, λ h. cc ((guard-IsWithin key name).1 h.0))
          | inr within ↦
              let inside = (guard-IsWithin key name).0 within in
              elim (Bool-cases (bytes_eq key.type (codes "U"))) [
                | inl u ↦
                    rw (within, u, can_manage)
                      (λ h. (inside, inl ((bytes_eq_iff key.type (codes "U")).0 u)), λ h. refl)
                | inr not_u ↦ elim (Bool-cases (bytes_eq key.type (codes "D"))) [
                  | inl d ↦
                      let is_d = (bytes_eq_iff key.type (codes "D")).0 d in
                      (
                        λ h. (
                          inside,
                          let rights = Manages-acme key rtype name is_d h in
                              inr (is_d, rights.0, rights.1),
                        ),
                        λ h.
                            rw (within, not_u, d, can_manage, acme_manages)
                              elim h.1 [
                                | inl u ↦ cc ((bytes_eq_iff key.type (codes "U")).1 u)
                                | inr more ↦ challenge_named name rtype more.1 more.2
                              ],
                      )
                  | inr not_d ↦
                      rw (within, not_u, not_d, can_manage)
                        (
                          λ h. cc,
                          λ h. elim h.1 [
                            | inl u ↦ cc ((bytes_eq_iff key.type (codes "U")).1 u)
                            | inr more ↦ cc ((bytes_eq_iff key.type (codes "D")).1 more.0)
                          ],
                        )
                ]
              ]
        ]
