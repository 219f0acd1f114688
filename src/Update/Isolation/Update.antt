-- ===== src/Update/Isolation/Update.antt =====
-- An update changes only rows of its zone, whatever it comes to.
use hexdns.Common.{
  ℕ, ◌≡◌, inl, inr, Bool, ◌==◌, ◌&&◌, if◌then◌else◌, if_both, Option-cases, List, [], ◌∷◌,
}
use hexdns.Dns.External.{External}
use hexdns.Dns.Qtype
use hexdns.Dns.Message.{Rr}
use hexdns.Dns.Store.{Row, Zone}
use hexdns.Update.Request.{class_any, class_none, Key, UpdateRr, Wire}
use hexdns.Update.Tables.{Kind, Body, rows, Store, remove_row}
use hexdns.Update.Kinds.{kind_of, to_rr}
use hexdns.Update.Apply.{
  all_kinds, records_of, apply_add, remove_managed, remove_all, remove_matching, apply_delete,
  same_data, apply_delete_one, apply_rr, apply_rrs, delete_type, delete_data,
}
use hexdns.Common.{sym, ◌∙◌}
use mathlib.Core.Path.{subst}
use hexdns.Update.Apply.Additions.{IsAddition, apply_add-Leaves}
use hexdns.Update.Apply.Leaves.{Leaves, and_do-Leaves, mono-Leaves, check_managed-Leaves}
use hexdns.Update.Isolation.{
  Stays, Stays-refl, Stays-trans, IsWellKeyed, enqueue-Stays, save_row-Stays, insert_row-Stays,
  remove_row-Stays,
}
use hexdns.Update.Isolation.Rows.{OwnsKey}
use hexdns.Update.Isolation.Records.{OfZone, records_of-OfZone}

module _ ⦃E : External⦄ ⦃W : Wire⦄ where
  Stays-IsAddition :
      (k : Kind) (zone : ℕ) (s : Store)
      → IsAddition k zone (λ r. (r.zone ≡ zone) × OwnsKey r.pk zone (rows k s.db)) s (Stays zone s)
  Stays-IsAddition k zone s = record {
    same = Stays-refl zone s;
    queued = enqueue-Stays zone s;
    queued_row = λ r h. rw h.0 (enqueue-Stays zone s);
    saved = λ r new p z h.
        save_row-Stays zone k new s (z ∙ h.0)
          (subst (λ (pk : ℕ). OwnsKey pk zone (rows k s.db)) (sym p) h.1);
    inserted = λ new z. insert_row-Stays zone k new s z;
  }

  apply_add-Stays :
      (key : Key) (zone : Zone) (name : E.Label) (rr : UpdateRr) (s : Store)
      → IsWellKeyed s
      → Leaves (Stays zone.id s) (apply_add key zone name rr s)
  apply_add-Stays key zone name rr s keyed =
      apply_add-Leaves (Stays zone.id s) key zone name rr s (Stays-refl zone.id s)
        λ k known. (_, Stays-IsAddition k zone.id s, records_of-OfZone k s name zone (keyed k))

  -- What the rows still to be gone through satisfy after a write.
  OfZone-Stays :
      (k : Kind) (zone : ℕ) (s t : Store) (records : List (Row (Body k)))
      → Stays zone s t
      → OfZone zone (rows k s.db) records
      → OfZone zone (rows k t.db) records
  OfZone-Stays k zone s t [] st h = tt
  OfZone-Stays k zone s t (r ∷ records) st h =
      ((h.0.0, st.owned k r.pk h.0.1), OfZone-Stays k zone s t records st h.1)

  remove_managed-Stays :
      (k : Kind) (key : Key) (zone : ℕ) (rname name : E.Label) (records : List (Row (Body k)))
      (s : Store)
      → OfZone zone (rows k s.db) records
      → Leaves (Stays zone s) (remove_managed k key rname name records s)
  unfolding remove_managed
  remove_managed-Stays k key zone rname name [] s h = Stays-refl zone s
  remove_managed-Stays k key zone rname name (r ∷ records) s h =
      let s' = remove_row k r s in
      let once = remove_row-Stays zone k r s h.0.0 h.0.1 in
      let rest =
        remove_managed-Stays k key zone rname name records s'
          (OfZone-Stays k zone s s' records once h.1) in
      elim (Option-cases (to_rr k rname r)) [
        | inl missing ↦ rw (missing, remove_managed) (Stays-refl zone s)
        | inr (record_rr, found) ↦
            rw (found, remove_managed)
              (check_managed-Leaves (Stays zone s) key record_rr.rtype name s
                (λ (t : Store). remove_managed k key rname name records (remove_row k r t))
                (Stays-refl zone s)
                (mono-Leaves (remove_managed k key rname name records s')
                  (λ t more. Stays-trans once more) rest))
      ]

  remove_all-Stays :
      (ks : List Kind) (key : Key) (zone : Zone) (rname name : E.Label) (s : Store)
      → IsWellKeyed s
      → Leaves (Stays zone.id s) (remove_all ks key zone rname name s)
  unfolding remove_all
  remove_all-Stays [] key zone rname name s keyed = Stays-refl zone.id s
  remove_all-Stays (k ∷ ks) key zone rname name s keyed =
      and_do-Leaves {P = Stays zone.id s}
        (remove_managed k key rname name (records_of k s.db name zone) s) _
        (remove_managed-Stays k key zone.id rname name (records_of k s.db name zone) s
          (records_of-OfZone k s name zone (keyed k)))
        (λ t h. h)
        λ t h.
          mono-Leaves (remove_all ks key zone rname name t) (λ u more. Stays-trans h more)
            (remove_all-Stays ks key zone rname name t (h.keyed keyed))

  remove_matching-Stays :
      (k : Kind) (test : Rr → Bool) (zone : ℕ) (rname : E.Label) (records : List (Row (Body k)))
      (s : Store)
      → OfZone zone (rows k s.db) records
      → Leaves (Stays zone s) (remove_matching k test rname records s)
  unfolding remove_matching
  remove_matching-Stays k test zone rname [] s h = Stays-refl zone s
  remove_matching-Stays k test zone rname (r ∷ records) s h =
      elim (Option-cases (to_rr k rname r)) [
        | inl missing ↦ rw (missing, remove_matching) (Stays-refl zone s)
        | inr (record_rr, found) ↦
            let s' = if test record_rr then remove_row k r s else s in
            let once : Stays zone s s' =
              if_both (Stays zone s) (test record_rr) (remove_row-Stays zone k r s h.0.0 h.0.1)
                (Stays-refl zone s) in
            rw (found, remove_matching)
              (mono-Leaves (remove_matching k test rname records s')
                (λ t more. Stays-trans once more)
                (remove_matching-Stays k test zone rname records s'
                  (OfZone-Stays k zone s s' records once h.1)))
      ]

  apply_delete-Stays :
      (key : Key) (zone : Zone) (name : E.Label) (rr : UpdateRr) (s : Store)
      → IsWellKeyed s
      → Leaves (Stays zone.id s) (apply_delete key zone name rr s)
  unfolding apply_delete delete_type
  apply_delete-Stays key zone name rr s keyed =
      let same = Stays-refl zone.id s in
      if_both (Leaves (Stays zone.id s)) (rr.rtype == Qtype.any)
        (remove_all-Stays all_kinds key zone rr.rname name s keyed)
        (check_managed-Leaves (Stays zone.id s) key rr.rtype name s (delete_type zone name rr) same
          elim (Option-cases (kind_of rr.rtype)) [
            | inl unknown ↦ rw (unknown, delete_type) same
            | inr (k, known) ↦
                rw (known, delete_type)
                  (remove_matching-Stays k (λ r. r.rtype == rr.rtype) zone.id rr.rname
                    (records_of k s.db name zone) s (records_of-OfZone k s name zone (keyed k)))
          ])

  apply_delete_one-Stays :
      (key : Key) (zone : Zone) (name : E.Label) (rr : UpdateRr) (s : Store)
      → IsWellKeyed s
      → Leaves (Stays zone.id s) (apply_delete_one key zone name rr s)
  unfolding apply_delete_one delete_data
  apply_delete_one-Stays key zone name rr s keyed =
      let same = Stays-refl zone.id s in
      elim (Option-cases (kind_of rr.rtype)) [
        | inl unknown ↦ rw (unknown, apply_delete_one) same
        | inr (k, known) ↦
            rw (known, apply_delete_one)
              (check_managed-Leaves (Stays zone.id s) key rr.rtype name s
                (delete_data k zone name rr) same
                (remove_matching-Stays k (λ r. same_data rr.rdata r.rdata && r.rtype == rr.rtype)
                  zone.id rr.rname (records_of k s.db name zone) s
                  (records_of-OfZone k s name zone (keyed k))))
      ]

  apply_rr-Stays :
      (key : Key) (zone_name : E.Label) (zone : Zone) (qclass : ℕ) (rr : UpdateRr) (s : Store)
      → IsWellKeyed s
      → Leaves (Stays zone.id s) (apply_rr key zone_name zone qclass rr s)
  unfolding apply_rr
  apply_rr-Stays key zone_name zone qclass rr s keyed =
      let name = E.strip_suffix rr.rname zone_name in
      let P = Leaves (Stays zone.id s) in
      if_both P (rr.rclass == qclass) (apply_add-Stays key zone name rr s keyed) (
        if_both P (rr.rclass == class_any) (apply_delete-Stays key zone name rr s keyed) (
          if_both P (rr.rclass == class_none) (apply_delete_one-Stays key zone name rr s keyed)
            (Stays-refl zone.id s)))

  pub apply_rrs-Stays :
      (key : Key) (zone_name : E.Label) (zone : Zone) (qclass : ℕ) (rrs : List UpdateRr) (s : Store)
      → IsWellKeyed s
      → Leaves (Stays zone.id s) (apply_rrs key zone_name zone qclass rrs s)
  unfolding apply_rrs
  apply_rrs-Stays key zone_name zone qclass [] s keyed = Stays-refl zone.id s
  apply_rrs-Stays key zone_name zone qclass (rr ∷ rrs) s keyed =
      and_do-Leaves {P = Stays zone.id s} (apply_rr key zone_name zone qclass rr s) _
        (apply_rr-Stays key zone_name zone qclass rr s keyed) (λ t h. h)
        λ t h.
          mono-Leaves (apply_rrs key zone_name zone qclass rrs t) (λ u more. Stays-trans h more)
            (apply_rrs-Stays key zone_name zone qclass rrs t (h.keyed keyed))
