-- ===== src/Update/Apply/Steps.antt =====
-- A relation between the tables before and after that holds of every single write holds of the whole
-- update section.
use hexdns.Common.{
  ℕ, inl, inr, Bool, ◌==◌, ◌&&◌, if◌then◌else◌, if_both, Option-cases, List, [], ◌∷◌,
}
use hexdns.Dns.External.{External}
use hexdns.Dns.Qtype
use hexdns.Dns.Message.{Rr}
use hexdns.Dns.Store.{Row, Zone}
use hexdns.Update.Request.{class_any, class_none, Key, UpdateRr, Wire}
use hexdns.Update.Tables.{Kind, Body, Store, save_row, insert_row, remove_row, enqueue}
use hexdns.Update.Kinds.{kind_of, to_rr}
use hexdns.Update.Apply.{
  all_kinds, records_of, apply_add, remove_managed, remove_all, remove_matching, apply_delete,
  same_data, apply_delete_one, apply_rr, apply_rrs, delete_type, delete_data,
}
use hexdns.Update.Apply.Additions.{All-Unit, apply_add-Leaves}
use hexdns.Update.Apply.Leaves.{Leaves, and_do-Leaves, mono-Leaves, check_managed-Leaves}

-- The relation holds of the writes, and of what follows one another.
pub record IsStep (R : Store → Store → Type 0) : Type 0 where
  pub same : (s : Store) → R s s
  pub trans : {s t u : Store} → R s t → R t u → R s u
  pub queue : (zone : ℕ) (s : Store) → R s (enqueue zone s)
  pub saved : (k : Kind) (r : Row (Body k)) (s : Store) → R s (save_row k r s)
  pub inserted : (k : Kind) (r : Row (Body k)) (s : Store) → R s (insert_row k r s)
  pub removed : (k : Kind) (r : Row (Body k)) (s : Store) → R s (remove_row k r s)

module _ ⦃E : External⦄ ⦃W : Wire⦄ (R : Store → Store → Type 0) (step : IsStep R) where
  apply_add-IsStep :
      (key : Key) (zone : Zone) (name : E.Label) (rr : UpdateRr) (s : Store)
      → Leaves (R s) (apply_add key zone name rr s)
  apply_add-IsStep key zone name rr s =
      apply_add-Leaves (R s) key zone name rr s (step.same s) λ k known. (
        λ r. Unit,
        record {
          same = step.same s;
          queued = step.queue zone.id s;
          queued_row = λ r h. step.queue r.zone s;
          saved = λ r new p z h. step.saved k new s;
          inserted = λ new z. step.inserted k new s;
        },
        All-Unit (records_of k s.db name zone),
      )

  remove_managed-IsStep :
      (k : Kind) (key : Key) (rname name : E.Label) (records : List (Row (Body k))) (s : Store)
      → Leaves (R s) (remove_managed k key rname name records s)
  unfolding remove_managed
  remove_managed-IsStep k key rname name [] s = step.same s
  remove_managed-IsStep k key rname name (r ∷ records) s =
      let s' = remove_row k r s in
      elim (Option-cases (to_rr k rname r)) [
        | inl missing ↦ rw (missing, remove_managed) (step.same s)
        | inr (record_rr, found) ↦
            rw (found, remove_managed)
              (check_managed-Leaves (R s) key record_rr.rtype name s
                (λ (t : Store). remove_managed k key rname name records (remove_row k r t))
                (step.same s)
                (mono-Leaves (remove_managed k key rname name records s')
                  (λ t more. step.trans (step.removed k r s) more)
                  (remove_managed-IsStep k key rname name records s')))
      ]

  remove_all-IsStep :
      (ks : List Kind) (key : Key) (zone : Zone) (rname name : E.Label) (s : Store)
      → Leaves (R s) (remove_all ks key zone rname name s)
  unfolding remove_all
  remove_all-IsStep [] key zone rname name s = step.same s
  remove_all-IsStep (k ∷ ks) key zone rname name s =
      and_do-Leaves {P = R s} (remove_managed k key rname name (records_of k s.db name zone) s) _
        (remove_managed-IsStep k key rname name (records_of k s.db name zone) s) (λ t h. h)
        λ t h.
          mono-Leaves (remove_all ks key zone rname name t) (λ u more. step.trans h more)
            (remove_all-IsStep ks key zone rname name t)

  remove_matching-IsStep :
      (k : Kind) (test : Rr → Bool) (rname : E.Label) (records : List (Row (Body k))) (s : Store)
      → Leaves (R s) (remove_matching k test rname records s)
  unfolding remove_matching
  remove_matching-IsStep k test rname [] s = step.same s
  remove_matching-IsStep k test rname (r ∷ records) s = elim (Option-cases (to_rr k rname r)) [
    | inl missing ↦ rw (missing, remove_matching) (step.same s)
    | inr (record_rr, found) ↦
        let s' = if test record_rr then remove_row k r s else s in
        let once : R s s' = if_both (R s) (test record_rr) (step.removed k r s) (step.same s) in
        rw (found, remove_matching)
          (mono-Leaves (remove_matching k test rname records s') (λ t more. step.trans once more)
            (remove_matching-IsStep k test rname records s'))
  ]

  apply_delete-IsStep :
      (key : Key) (zone : Zone) (name : E.Label) (rr : UpdateRr) (s : Store)
      → Leaves (R s) (apply_delete key zone name rr s)
  unfolding apply_delete delete_type
  apply_delete-IsStep key zone name rr s =
      if_both (Leaves (R s)) (rr.rtype == Qtype.any)
        (remove_all-IsStep all_kinds key zone rr.rname name s)
        (check_managed-Leaves (R s) key rr.rtype name s (delete_type zone name rr) (step.same s)
          elim (Option-cases (kind_of rr.rtype)) [
            | inl unknown ↦ rw (unknown, delete_type) (step.same s)
            | inr (k, known) ↦
                rw (known, delete_type)
                  (remove_matching-IsStep k (λ r. r.rtype == rr.rtype) rr.rname
                    (records_of k s.db name zone) s)
          ])

  apply_delete_one-IsStep :
      (key : Key) (zone : Zone) (name : E.Label) (rr : UpdateRr) (s : Store)
      → Leaves (R s) (apply_delete_one key zone name rr s)
  unfolding apply_delete_one delete_data
  apply_delete_one-IsStep key zone name rr s = elim (Option-cases (kind_of rr.rtype)) [
    | inl unknown ↦ rw (unknown, apply_delete_one) (step.same s)
    | inr (k, known) ↦
        rw (known, apply_delete_one)
          (check_managed-Leaves (R s) key rr.rtype name s (delete_data k zone name rr) (step.same s)
            (remove_matching-IsStep k (λ r. same_data rr.rdata r.rdata && r.rtype == rr.rtype)
              rr.rname (records_of k s.db name zone) s))
  ]

  pub apply_rrs-IsStep :
      (key : Key) (zone_name : E.Label) (zone : Zone) (qclass : ℕ) (rrs : List UpdateRr) (s : Store)
      → Leaves (R s) (apply_rrs key zone_name zone qclass rrs s)
  unfolding apply_rrs apply_rr
  apply_rrs-IsStep key zone_name zone qclass [] s = step.same s
  apply_rrs-IsStep key zone_name zone qclass (rr ∷ rrs) s =
      let name = E.strip_suffix rr.rname zone_name in
      and_do-Leaves {P = R s} (apply_rr key zone_name zone qclass rr s) _
        (if_both (Leaves (R s)) (rr.rclass == qclass) (apply_add-IsStep key zone name rr s) (
          if_both (Leaves (R s)) (rr.rclass == class_any) (apply_delete-IsStep key zone name rr s) (
            if_both (Leaves (R s)) (rr.rclass == class_none)
              (apply_delete_one-IsStep key zone name rr s) (step.same s))))
        (λ t h. h)
        λ t h.
          mono-Leaves (apply_rrs key zone_name zone qclass rrs t) (λ u more. step.trans h more)
            (apply_rrs-IsStep key zone_name zone qclass rrs t)
