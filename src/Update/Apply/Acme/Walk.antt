-- ===== src/Update/Apply/Acme/Walk.antt =====
-- An update with a key for ACME challenges writes to the TXT table alone.
use hexdns.Common.{ℕ, ◌≡◌, inl, inr, ◌==◌, ◌&&◌, if_both, Option-cases, List, [], ◌∷◌, codes}
use hexdns.Dns.External.{External}
use hexdns.Dns.Qtype
use hexdns.Dns.Store.{Row, Zone}
use hexdns.Update.Request.{class_any, class_none, Key, UpdateRr, Wire}
use hexdns.Update.Tables.{Kind, txt, Body, Store, remove_row}
use hexdns.Update.Kinds.{kind_of, to_rr, new_body}
use hexdns.Update.Apply.{
  all_kinds, records_of, conflicts, add_record, apply_add, remove_managed, remove_all, delete_type,
  apply_delete, same_data, delete_data, apply_delete_one, apply_rr, apply_rrs,
}
use hexdns.Update.Apply.OneKind.{
  OnlyKind, OnlyKind-refl, OnlyKind-trans, remove_row-OnlyKind, kind_of-txt, to_rr-txt,
  update_or_insert-OnlyKind, remove_matching-OnlyKind,
}
use hexdns.Update.Apply.Acme.{Manages-acme, check_managed-Manages}
use hexdns.Update.Apply.Leaves.{Leaves, and_do-Leaves, or_raise-Leaves, mono-Leaves}

module _ ⦃E : External⦄ ⦃W : Wire⦄ (key : Key) (acme : key.type ≡ codes "D") where
  apply_add-OnlyKind :
      (zone : Zone) (name : E.Label) (rr : UpdateRr) (s : Store)
      → Leaves (OnlyKind txt s) (apply_add key zone name rr s)
  unfolding apply_add add_record
  apply_add-OnlyKind zone name rr s =
      let P = OnlyKind txt s in
      let same = OnlyKind-refl txt s in
      check_managed-Manages P key rr.rtype name s (add_record zone name rr) same λ may.
        elim (Option-cases (kind_of rr.rtype)) [
          | inl unknown ↦ rw (unknown, add_record) same
          | inr (k, known) ↦
              let is_txt =
                kind_of-txt rr.rtype k (Manages-acme key rr.rtype name acme may).0 known in
              rw (known, add_record)
                (or_raise-Leaves P (new_body k rr.rdata) s _ same λ body.
                  if_both (Leaves P) (conflicts s.db name zone rr.rtype) same (
                    rw (← is_txt)
                      (update_or_insert-OnlyKind k rr zone body (records_of k s.db name zone) s)))
        ]

  remove_managed-OnlyKind :
      (k : Kind) (rname name : E.Label) (records : List (Row (Body k))) (s : Store)
      → Leaves (OnlyKind txt s) (remove_managed k key rname name records s)
  unfolding remove_managed
  remove_managed-OnlyKind k rname name [] s = OnlyKind-refl txt s
  remove_managed-OnlyKind k rname name (r ∷ records) s =
      let s' = remove_row k r s in
      let same = OnlyKind-refl txt s in
      elim (Option-cases (to_rr k rname r)) [
        | inl missing ↦ rw (missing, remove_managed) same
        | inr (record_rr, found) ↦
            rw (found, remove_managed)
              (check_managed-Manages (OnlyKind txt s) key record_rr.rtype name s
                (λ (t : Store). remove_managed k key rname name records (remove_row k r t)) same
                λ may.
                  let is_txt =
                    to_rr-txt k rname r record_rr found
                      (Manages-acme key record_rr.rtype name acme may).0 in
                  let once : OnlyKind txt s s' = rw (← is_txt) (remove_row-OnlyKind k r s) in
                  mono-Leaves (remove_managed k key rname name records s')
                    (λ t more. OnlyKind-trans once more)
                    (remove_managed-OnlyKind k rname name records s'))
      ]

  remove_all-OnlyKind :
      (ks : List Kind) (zone : Zone) (rname name : E.Label) (s : Store)
      → Leaves (OnlyKind txt s) (remove_all ks key zone rname name s)
  unfolding remove_all
  remove_all-OnlyKind [] zone rname name s = OnlyKind-refl txt s
  remove_all-OnlyKind (k ∷ ks) zone rname name s =
      and_do-Leaves {P = OnlyKind txt s}
        (remove_managed k key rname name (records_of k s.db name zone) s) _
        (remove_managed-OnlyKind k rname name (records_of k s.db name zone) s) (λ t h. h)
        λ t h.
          mono-Leaves (remove_all ks key zone rname name t) (λ u more. OnlyKind-trans h more)
            (remove_all-OnlyKind ks zone rname name t)

  apply_delete-OnlyKind :
      (zone : Zone) (name : E.Label) (rr : UpdateRr) (s : Store)
      → Leaves (OnlyKind txt s) (apply_delete key zone name rr s)
  unfolding apply_delete delete_type
  apply_delete-OnlyKind zone name rr s =
      let P = OnlyKind txt s in
      let same = OnlyKind-refl txt s in
      if_both (Leaves P) (rr.rtype == Qtype.any)
        (remove_all-OnlyKind all_kinds zone rr.rname name s)
        (check_managed-Manages P key rr.rtype name s (delete_type zone name rr) same λ may.
          elim (Option-cases (kind_of rr.rtype)) [
            | inl unknown ↦ rw (unknown, delete_type) same
            | inr (k, known) ↦
                let is_txt =
                  kind_of-txt rr.rtype k (Manages-acme key rr.rtype name acme may).0 known in
                rw (known, delete_type)
                  (rw (← is_txt) (
                    remove_matching-OnlyKind k (λ r. r.rtype == rr.rtype) rr.rname
                      (records_of k s.db name zone) s))
          ])

  apply_delete_one-OnlyKind :
      (zone : Zone) (name : E.Label) (rr : UpdateRr) (s : Store)
      → Leaves (OnlyKind txt s) (apply_delete_one key zone name rr s)
  unfolding apply_delete_one delete_data
  apply_delete_one-OnlyKind zone name rr s =
      let P = OnlyKind txt s in
      let same = OnlyKind-refl txt s in
      elim (Option-cases (kind_of rr.rtype)) [
        | inl unknown ↦ rw (unknown, apply_delete_one) same
        | inr (k, known) ↦
            rw (known, apply_delete_one)
              (check_managed-Manages P key rr.rtype name s (delete_data k zone name rr) same λ may.
                let is_txt =
                  kind_of-txt rr.rtype k (Manages-acme key rr.rtype name acme may).0 known in
                rw (← is_txt) (
                  remove_matching-OnlyKind k
                    (λ r. same_data rr.rdata r.rdata && r.rtype == rr.rtype) rr.rname
                    (records_of k s.db name zone) s))
      ]

  pub apply_rrs-OnlyKind :
      (zone_name : E.Label) (zone : Zone) (qclass : ℕ) (rrs : List UpdateRr) (s : Store)
      → Leaves (OnlyKind txt s) (apply_rrs key zone_name zone qclass rrs s)
  unfolding apply_rrs apply_rr
  apply_rrs-OnlyKind zone_name zone qclass [] s = OnlyKind-refl txt s
  apply_rrs-OnlyKind zone_name zone qclass (rr ∷ rrs) s =
      let name = E.strip_suffix rr.rname zone_name in
      let P = Leaves (OnlyKind txt s) in
      and_do-Leaves {P = OnlyKind txt s} (apply_rr key zone_name zone qclass rr s) _
        (if_both P (rr.rclass == qclass) (apply_add-OnlyKind zone name rr s) (
          if_both P (rr.rclass == class_any) (apply_delete-OnlyKind zone name rr s) (
            if_both P (rr.rclass == class_none) (apply_delete_one-OnlyKind zone name rr s)
              (OnlyKind-refl txt s))))
        (λ t h. h)
        λ t h.
          mono-Leaves (apply_rrs key zone_name zone qclass rrs t) (λ u more. OnlyKind-trans h more)
            (apply_rrs-OnlyKind zone_name zone qclass rrs t)
