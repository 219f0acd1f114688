-- ===== src/Update/Apply/Additions.antt =====
-- What the part of an addition that writes leaves true of the tables.
use hexdns.Common.{
  ℕ, ◌≡◌, refl, inl, inr, if_both, Option-cases, List, [], ◌∷◌, All, some, Result, ok, err,
}
use hexdns.Dns.External.{External}
use hexdns.Dns.Message.{Rdata}
use hexdns.Dns.Store.{Row, Zone}
use hexdns.Update.Request.{Key, UpdateRr, Wire}
use hexdns.Update.Tables.{Kind, Body, Store, save_row, insert_row, enqueue}
use hexdns.Update.Kinds.{kind_of, to_rr, dns_label_to_record_name, new_body, updated_body}
use hexdns.Update.Apply.{
  done, raised, records_of, update_record, save_new, update_or_insert, conflicts, add_record,
  apply_add,
}
use hexdns.Update.Apply.Leaves.{Leaves, or_raise-Leaves, check_managed-Leaves}

-- The property holds before, and after each single write of an addition; `Ok` says which rows may
-- be saved.
pub record IsAddition (k : Kind) (zone : ℕ) (Ok : Row (Body k) → Type 0) (s : Store)
    (P : Store → Type 0) : Type 0 where
  pub same : P s
  pub queued : P (enqueue zone s)
  pub queued_row : (r : Row (Body k)) → Ok r → P (enqueue r.zone s)
  pub saved :
      (r new : Row (Body k)) → new.pk ≡ r.pk → new.zone ≡ r.zone → Ok r → P (save_row k new s)
  pub inserted : (new : Row (Body k)) → new.zone ≡ zone → P (insert_row k new s)

-- Where every row may be saved.
pub All-Unit : {A : Type 0} (xs : List A) → All {0, 0} (λ x. Unit) xs
All-Unit [] = tt
All-Unit (x ∷ xs) = (tt, All-Unit xs)

module _ ⦃E : External⦄ ⦃W : Wire⦄ (k : Kind) (zone : Zone) (Ok : Row (Body k) → Type 0) (s : Store)
    (P : Store → Type 0) (add : IsAddition k zone.id Ok s P) (rr : UpdateRr) where
  update_record-Leaves :
      (r : Row (Body k)) (content : Rdata) → Ok r → Leaves P (update_record k rr zone r content s)
  unfolding update_record
  update_record-Leaves r content fits =
      or_raise-Leaves P (updated_body k content) s _ add.same λ saved.
        elim saved
          as (λ x. Leaves P (elim x [
            | err e ↦ raised e (enqueue r.zone s)
            | ok body ↦ done (
                save_row k
                  (record r {
                    record_name = dns_label_to_record_name rr.rname zone;
                    ttl = rr.ttl;
                    body = body;
                  })
                  s)
          ])) [
            | err e ↦ add.queued_row r fits
            | ok body ↦
                add.saved r
                  (record r {
                    record_name = dns_label_to_record_name rr.rname zone;
                    ttl = rr.ttl;
                    body = body;
                  })
                  refl refl fits
          ]

  save_new-Leaves : (body : Result (Body k)) → Leaves P (save_new k rr zone body s)
  unfolding save_new
  save_new-Leaves (err e) = add.queued
  save_new-Leaves (ok body) =
      add.inserted
        (record {
          pk = 0;
          zone = zone.id;
          record_name = dns_label_to_record_name rr.rname zone;
          ttl = rr.ttl;
          body = body;
        })
        refl

  pub update_or_insert-Leaves :
      (body : Result (Body k)) (records : List (Row (Body k)))
      → All Ok records
      → Leaves P (update_or_insert k rr zone body records s)
  unfolding update_or_insert
  update_or_insert-Leaves body [] h = save_new-Leaves body
  update_or_insert-Leaves body (r ∷ records) h =
      let next = update_or_insert-Leaves body records h.1 in
      elim (Option-cases (to_rr k rr.rname r)) [
        | inl missing ↦ rw (missing, update_or_insert) add.same
        | inr (record_rr, found) ↦
            rw (found, update_or_insert)
              elim (Option-cases rr.rdata) [
                | inl nothing ↦ rw (nothing, update_or_insert) next
                | inr (content, some_) ↦
                    rw (some_, update_or_insert)
                      (if_both (Leaves P) (W.rdata_eq content record_rr.rdata)
                        (update_record-Leaves r content h.0) next)
              ]
      ]

module _ ⦃E : External⦄ ⦃W : Wire⦄ where
  pub apply_add-Leaves :
      (P : Store → Type 0) (key : Key) (zone : Zone) (name : E.Label) (rr : UpdateRr) (s : Store)
      → P s
      → ((k : Kind)
          → kind_of rr.rtype ≡ some k
          → (Ok : Row (Body k) → Type 0) × IsAddition k zone.id Ok s P
            × All Ok (records_of k s.db name zone))
      → Leaves P (apply_add key zone name rr s)
  unfolding apply_add add_record
  apply_add-Leaves P key zone name rr s same adds =
      check_managed-Leaves P key rr.rtype name s (add_record zone name rr) same
        elim (Option-cases (kind_of rr.rtype)) [
          | inl unknown ↦ rw (unknown, add_record) same
          | inr (k, known) ↦
              let (Ok, add, all) = adds k known in
              rw (known, add_record)
                (or_raise-Leaves P (new_body k rr.rdata) s _ same λ body.
                  if_both (Leaves P) (conflicts s.db name zone rr.rtype) same (
                    update_or_insert-Leaves k zone Ok s P add rr body (records_of k s.db name zone)
                      all))
        ]
