-- ===== src/ZoneFile/Import/Stays.antt =====
-- An import keeps to its zone, and an exception takes back what it wrote.
use hexdns.Common.{
  ℕ, ◌+◌, ◌≡◌, refl, sym, ◌∙◌, Bool, true, not, ◌==◌, ==_iff, ◌&&◌, if_both, List, [], ◌∷◌, ◌++◌,
  append-nil, Bytes, bytes_eq, Option, none, some, Exc, Result, ok, err, arith,
}
use hexdns.Dns.External.{External}
use hexdns.Dns.Qtype
use hexdns.Dns.Store.{Row, Zone}
use hexdns.Update.Request.{class_in, UpdateRr, Wire}
use hexdns.Update.Tables.{Kind, cname, Body, rows, set_rows, Store, enqueue}
use hexdns.Update.Kinds.{dns_label_to_record_name, new_body}
use hexdns.Update.Isolation.{
  Stays, Stays-refl, Stays-trans, set_rows-Stays, enqueue-Stays, insert_row-Stays,
}
use hexdns.Update.Isolation.Rows.{IsKeyed-suc, elsewhere}
use hexdns.ZoneFile.Lines.{Texts}
use hexdns.ZoneFile.Records.{DnskeyColumns}
use hexdns.ZoneFile.Import.{
  State, Outcome, imported, failed, and_import, overwritten, delete_where, other_rows, empty_tables,
  drop_cnames, import_kind, import_ttl, save_imported, dnskey_data, save_dnskey, save_data,
  import_as, import_record, import_records, atomic, emptied, import_zone_file,
}
use hexdns.ZoneFile.Import.Deletions.{
  delete_where-All, delete_where-IsKeyed, elsewhere-delete_where,
}

delete_where-Stays :
    (zone : ℕ) (k : Kind) (p : Row (Body k) → Bool) (s : Store)
    → ((r : Row (Body k)) → p r ≡ true → r.zone ≡ zone)
    → Stays zone s (record s { db = set_rows k (delete_where p (rows k s.db)) s.db })
delete_where-Stays zone k p s own =
    set_rows-Stays zone k _ s s.next_pk (λ j h. h)
      (record {
        keyed = delete_where-IsKeyed s.next_pk p (rows k s.db);
        owned = λ pk. delete_where-All _ p (rows k s.db);
        kept = elsewhere-delete_where zone p (rows k s.db) own;
      })

empty_tables-Stays : (zone : ℕ) (ks : List Kind) (s : Store) → Stays zone s (empty_tables zone ks s)
unfolding empty_tables other_rows
empty_tables-Stays zone [] s = Stays-refl zone s
empty_tables-Stays zone (k ∷ ks) s =
    Stays-trans
      (delete_where-Stays zone k (λ r. r.zone == zone) s λ r own. (==_iff r.zone zone).0 own)
      (empty_tables-Stays zone ks _)

and_left : (a b : Bool) → (a && b) ≡ true → a ≡ true
and_left a b h = ground arith

drop_cnames-Stays :
    (zone : ℕ) (k : Kind) (name : Bytes) (s : Store) → Stays zone s (drop_cnames k zone name s)
unfolding drop_cnames
drop_cnames-Stays zone cname name s =
    delete_where-Stays zone cname (λ r. r.zone == zone && bytes_eq r.record_name name) s
      λ r own. (==_iff r.zone zone).0 (and_left (r.zone == zone) (bytes_eq r.record_name name) own)
drop_cnames-Stays zone _ name s = Stays-refl zone s

-- From one state to the other only rows of the zone changed, and only the zone was queued.
pub record KeepsTo (zone : ℕ) (s t : State) : Type 0 where
  pub stays : Stays zone s.store t.store
  pub dnskeys : elsewhere zone t.dnskey ≡ elsewhere zone s.dnskey

KeepsTo-trans : {zone : ℕ} {s t u : State} → KeepsTo zone s t → KeepsTo zone t u → KeepsTo zone s u
KeepsTo-trans h g = record { stays = Stays-trans h.stays g.stays; dnskeys = g.dnskeys ∙ h.dnskeys }

KeepsTo-store :
    (zone : ℕ) (s : State) (t : Store)
    → Stays zone s.store t
    → KeepsTo zone s (record s { store = t })
KeepsTo-store zone s t h = record { stays = h; dnskeys = refl }

KeepsTo-refl : (zone : ℕ) (s : State) → KeepsTo zone s s
KeepsTo-refl zone s = record { stays = Stays-refl zone s.store; dnskeys = refl }

-- What holds of the tables that an import leaves.
abbrev pub Ends : (State → Type 0) → Outcome → Type 0
Ends P (imported t) = P t
Ends P (failed e t) = P t

elsewhere-own :
    {D : Type 0} (zone : ℕ) (new : Row D) (rs : List (Row D))
    → new.zone ≡ zone
    → elsewhere zone (rs ++ new ∷ []) ≡ elsewhere zone rs
elsewhere-own zone new [] h = ground arith
elsewhere-own zone new (r ∷ rs) h = ground (arith, elsewhere-own zone new rs h)

next_pk-Stays : (zone : ℕ) (s : Store) → Stays zone s (record s { next_pk = s.next_pk + 1 })
next_pk-Stays zone s =
    let same = Stays-refl zone s in
    record {
      keyed = λ h k. IsKeyed-suc s.next_pk (rows k s.db) (h k);
      owned = same.owned;
      kept = same.kept;
      rest = same.rest;
      added = [];
      queued = sym (append-nil s.queued);
      one_zone = tt;
    }

module _ ⦃E : External⦄ ⦃T : Texts⦄ ⦃W : Wire⦄ where
  save_imported-KeepsTo :
      (k : Kind) (rr : UpdateRr) (zone : Zone) (body : Result (Body k)) (s : State)
      → Ends (KeepsTo zone.id s) (save_imported k rr zone body s)
  unfolding save_imported
  save_imported-KeepsTo k rr zone (err e) s =
      KeepsTo-store zone.id s _ (enqueue-Stays zone.id s.store)
  save_imported-KeepsTo k rr zone (ok body) s = KeepsTo-store zone.id s _ (
      insert_row-Stays zone.id k
        (record {
          pk = 0;
          zone = zone.id;
          record_name = dns_label_to_record_name rr.rname zone;
          ttl = import_ttl rr.ttl;
          body = body;
        })
        s.store refl)

  save_dnskey-KeepsTo :
      (rr : UpdateRr) (zone : Zone) (s : State) (made : Result DnskeyColumns)
      → Ends (KeepsTo zone.id s) (save_dnskey rr zone s made)
  unfolding save_dnskey
  save_dnskey-KeepsTo rr zone s (err e) = KeepsTo-refl zone.id s
  save_dnskey-KeepsTo rr zone s (ok body) = record {
    stays =
        Stays-trans (enqueue-Stays zone.id s.store)
          (next_pk-Stays zone.id (enqueue zone.id s.store));
    dnskeys = elsewhere-own zone.id _ s.dnskey refl;
  }

  Ends-trans :
      {zone : ℕ} {s t : State} (o : Outcome)
      → KeepsTo zone s t
      → Ends (KeepsTo zone t) o
      → Ends (KeepsTo zone s) o
  Ends-trans (imported u) h g = KeepsTo-trans h g
  Ends-trans (failed e u) h g = KeepsTo-trans h g

  save_data-KeepsTo :
      (k : Kind) (rr : UpdateRr) (zone : Zone) (s : State) (body : Result (Result (Body k)))
      → Ends (KeepsTo zone.id s) (save_data k rr zone s body)
  unfolding save_data
  save_data-KeepsTo k rr zone s (err e) = KeepsTo-refl zone.id s
  save_data-KeepsTo k rr zone s (ok body) =
      let dropped = drop_cnames k zone.id (dns_label_to_record_name rr.rname zone) s.store in
      Ends-trans (save_imported k rr zone body (record s { store = dropped }))
        (KeepsTo-store zone.id s dropped
          (drop_cnames-Stays zone.id k (dns_label_to_record_name rr.rname zone) s.store))
        (save_imported-KeepsTo k rr zone body (record s { store = dropped }))

  import_as-KeepsTo :
      (zone : Zone) (rr : UpdateRr) (s : State) (kind : Option Kind)
      → Ends (KeepsTo zone.id s) (import_as zone rr s kind)
  unfolding import_as
  import_as-KeepsTo zone rr s none =
      if_both (Ends (KeepsTo zone.id s)) (rr.rtype == Qtype.dnskey)
        (save_dnskey-KeepsTo rr zone s (dnskey_data rr.rdata)) (KeepsTo-refl zone.id s)
  import_as-KeepsTo zone rr s (some k) = save_data-KeepsTo k rr zone s (new_body k rr.rdata)

  import_record-KeepsTo :
      (zone : Zone) (rr : UpdateRr) (s : State) → Ends (KeepsTo zone.id s) (import_record zone rr s)
  unfolding import_record
  import_record-KeepsTo zone rr s =
      if_both (Ends (KeepsTo zone.id s)) (not (rr.rclass == class_in)) (KeepsTo-refl zone.id s)
        (import_as-KeepsTo zone rr s (import_kind rr.rtype))

  and_import-KeepsTo :
      (zone : ℕ) (s : State) (o : Outcome) (next : State → Outcome)
      → Ends (KeepsTo zone s) o
      → ((t : State) → Ends (KeepsTo zone t) (next t))
      → Ends (KeepsTo zone s) (and_import o next)
  and_import-KeepsTo zone s (imported t) next h g = Ends-trans (next t) h (g t)
  and_import-KeepsTo zone s (failed e t) next h g = h

  import_records-KeepsTo :
      (zone : Zone) (rrs : List UpdateRr) (s : State)
      → Ends (KeepsTo zone.id s) (import_records zone rrs s)
  unfolding import_records
  import_records-KeepsTo zone [] s = KeepsTo-refl zone.id s
  import_records-KeepsTo zone (rr ∷ rrs) s =
      and_import-KeepsTo zone.id s (import_record zone rr s) (import_records zone rrs)
        (import_record-KeepsTo zone rr s) (import_records-KeepsTo zone rrs)

  emptied-KeepsTo :
      (overwrite : Bool) (zone : Zone) (s : State) → KeepsTo zone.id s (emptied overwrite zone s)
  unfolding emptied other_rows
  emptied-KeepsTo overwrite zone s =
      if_both (KeepsTo zone.id s) overwrite
        (record {
          stays = empty_tables-Stays zone.id overwritten s.store;
          dnskeys =
              elsewhere-delete_where zone.id (λ r. r.zone == zone.id) s.dnskey
                λ r own. (==_iff r.zone zone.id).0 own;
        })
        (KeepsTo-refl zone.id s)

  -- How an import must end: an exception leaves the tables as they were, whatever was queued.
  pub data Settles (zone : ℕ) (s : State) : Outcome → Type 0 where
    finished : {t : State} → KeepsTo zone s t → Settles zone s (imported t)
    undone :
        {e : Exc} {t : State}
        → KeepsTo zone s t
        → t.store.db ≡ s.store.db
        → t.dnskey ≡ s.dnskey
        → Settles zone s (failed e t)

  atomic-Settles :
      (zone : ℕ) (s : State) (o : Outcome) → Ends (KeepsTo zone s) o → Settles zone s (atomic s o)
  unfolding atomic
  atomic-Settles zone s (imported t) h = finished h
  atomic-Settles zone s (failed e t) h =
      let same = Stays-refl zone s.store in
      undone
        (record {
          stays = record {
            keyed = same.keyed;
            owned = same.owned;
            kept = same.kept;
            rest = same.rest;
            added = h.stays.added;
            queued = h.stays.queued;
            one_zone = h.stays.one_zone;
          };
          dnskeys = refl;
        })
        refl refl

  -- An import, whether it overwrites or not and whatever it comes to, leaves the rows of all other
  -- zones as they are and in their order, queues no other zone, leaves the zones and the tables of
  -- dynamic addresses, ANAMEs, redirects, SSHFP and HTTPS records as they are, and keeps the keys
  -- distinct, if they were; and if it ends in an exception, all tables are as they were.
  pub import_zone_file-Settles :
      (zone : Zone) (records : Option (List UpdateRr)) (overwrite : Bool) (s : State)
      → Settles zone.id s (import_zone_file zone records overwrite s)
  unfolding import_zone_file
  import_zone_file-Settles zone none overwrite s = undone (KeepsTo-refl zone.id s) refl refl
  import_zone_file-Settles zone (some records) overwrite s =
      let start = emptied overwrite zone s in
      atomic-Settles zone.id s (import_records zone records start) (
        Ends-trans (import_records zone records start) (emptied-KeepsTo overwrite zone s)
          (import_records-KeepsTo zone records start))
