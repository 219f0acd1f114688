-- ===== src/ZoneFile/Import.antt =====
-- import_zone_file of hexdns_django/dns_grpc/models.py.
pub mod Deletions
pub mod Stays
use hexdns.Common.{
  ℕ, ◌+◌, Bool, not, leb, ◌==◌, ◌&&◌, ◌||◌, if◌then◌else◌, List, [], ◌∷◌, ◌++◌, Bytes, codes,
  bytes_eq, Option, none, some, Exc, Result, ok, err, attribute_error, value_error,
}
use hexdns.Dns.External.{External}
use hexdns.Dns.Qtype
use hexdns.Dns.Message.{Rdata, dnskey_rd}
use hexdns.Dns.Store.{Row, Zone}
use hexdns.Update.Request.{class_in, UpdateRr, Wire}
use hexdns.Update.Tables.{
  Kind, address, mx, ns, txt, srv, caa, naptr, cname, Body, rows, set_rows, Store, enqueue,
  insert_row, lower,
}
use hexdns.Update.Kinds.{dns_label_to_record_name, new_body}
use hexdns.ZoneFile.Lines.{Texts}
use hexdns.ZoneFile.Records.{DnskeyColumns}

-- The tables, with that of the DNSKEY records.
pub record State : Type 0 where
  pub store : Store
  pub dnskey : List (Row DnskeyColumns)

-- How a part of the import ends, each time with the tables that it leaves.
pub data Outcome : Type 0 where
  imported : State → Outcome
  failed : Exc → State → Outcome

abbrev pub and_import : Outcome → (State → Outcome) → Outcome
and_import (imported s) next = next s
and_import (failed e s) next = failed e s

-- The tables that an import which overwrites empties, beside that of the DNSKEY records.
abbrev pub overwritten : List Kind
overwritten = address ∷ cname ∷ mx ∷ ns ∷ txt ∷ srv ∷ caa ∷ naptr ∷ []

-- `DELETE … WHERE`: a deletion of a query set calls no `delete` of the model.
unfoldable pub delete_where : {D : Type 0} → (Row D → Bool) → List (Row D) → List (Row D)
delete_where p [] = []
delete_where p (r ∷ rs) = let rest = delete_where p rs in if p r then rest else r ∷ rest

-- `self.…_set.all().delete()`
unfoldable pub other_rows : {D : Type 0} → ℕ → List (Row D) → List (Row D)
unfolding delete_where
other_rows zone table = delete_where (λ r. r.zone == zone) table

unfoldable pub empty_tables : ℕ → List Kind → Store → Store
unfolding other_rows rows set_rows
empty_tables zone [] s = s
empty_tables zone (k ∷ ks) s =
    empty_tables zone ks (record s { db = set_rows k (other_rows zone (rows k s.db)) s.db })

-- `self.cnamerecord_set.filter(record_name=…).delete()`
unfoldable pub drop_cnames : Kind → ℕ → Bytes → Store → Store
unfolding delete_where set_rows rows bytes_eq
drop_cnames cname zone name s = record s {
  db =
      set_rows cname
        (delete_where (λ r. r.zone == zone && bytes_eq r.record_name name) (rows cname s.db)) s.db;
}
drop_cnames _ zone name s = s

-- The model that a record of the type is saved as.
unfoldable pub import_kind : ℕ → Option Kind
import_kind rtype =
    if rtype == Qtype.a || rtype == Qtype.aaaa
    then some address
    else if rtype == Qtype.cname
    then some cname
    else if rtype == Qtype.mx
    then some mx
    else if rtype == Qtype.ns
    then some ns
    else if rtype == Qtype.txt
    then some txt
    else if rtype == Qtype.srv
    then some srv
    else if rtype == Qtype.caa
    then some caa
    else if rtype == Qtype.naptr
    then some naptr
    else none

-- `if r.ttl <= 1: r.ttl = 3600`
unfoldable pub import_ttl : ℕ → ℕ
import_ttl ttl = if leb ttl 1 then 3600 else ttl

module _ ⦃E : External⦄ ⦃T : Texts⦄ ⦃W : Wire⦄ where
  -- `r.save()`
  unfoldable pub save_imported : (k : Kind) → UpdateRr → Zone → Result (Body k) → State → Outcome
  unfolding insert_row enqueue dns_label_to_record_name import_ttl
  save_imported k rr zone (err e) s = failed e (record s { store = enqueue zone.id s.store })
  save_imported k rr zone (ok body) s = imported (record s {
    store =
        insert_row k
          (record {
            pk = 0;
            zone = zone.id;
            record_name = dns_label_to_record_name rr.rname zone;
            ttl = import_ttl rr.ttl;
            body = body;
          })
          s.store;
  })

  -- `DNSKEYRecord.from_rr`; the column takes `str` of the encoded bytes.
  unfoldable pub dnskey_data : Option Rdata → Result DnskeyColumns
  dnskey_data (some (dnskey_rd flags protocol algorithm key)) = ok (record {
    flags = flags;
    protocol = protocol;
    algorithm = algorithm;
    public_key = codes "b'" ++ T.b64encode key ++ codes "'";
  })
  dnskey_data _ = err attribute_error

  unfoldable pub save_dnskey : UpdateRr → Zone → State → Result DnskeyColumns → Outcome
  unfolding enqueue dns_label_to_record_name import_ttl lower
  save_dnskey rr zone s (err e) = failed e s
  save_dnskey rr zone s (ok body) =
      let queued = enqueue zone.id s.store in
      imported (record {
        store = record queued { next_pk = queued.next_pk + 1 };
        dnskey =
            s.dnskey
            ++ record {
              pk = queued.next_pk;
              zone = zone.id;
              record_name = lower (dns_label_to_record_name rr.rname zone);
              ttl = import_ttl rr.ttl;
              body = body;
            }
              ∷ [];
      })

  -- What follows `from_rr`.
  unfoldable pub save_data :
      (k : Kind) → UpdateRr → Zone → State → Result (Result (Body k)) → Outcome
  unfolding save_imported drop_cnames dns_label_to_record_name
  save_data k rr zone s (err e) = failed e s
  save_data k rr zone s (ok body) =
      save_imported k rr zone body (record s {
        store = drop_cnames k zone.id (dns_label_to_record_name rr.rname zone) s.store;
      })

  unfoldable pub import_as : Zone → UpdateRr → State → Option Kind → Outcome
  unfolding new_body save_data dnskey_data save_dnskey
  import_as zone rr s none =
      if rr.rtype == Qtype.dnskey then save_dnskey rr zone s (dnskey_data rr.rdata) else imported s
  import_as zone rr s (some k) = save_data k rr zone s (new_body k rr.rdata)

  -- One round of the loop over the records.
  unfoldable pub import_record : Zone → UpdateRr → State → Outcome
  unfolding import_kind import_as
  import_record zone rr s =
      if not (rr.rclass == class_in) then imported s else import_as zone rr s (import_kind rr.rtype)

  unfoldable pub import_records : Zone → List UpdateRr → State → Outcome
  unfolding import_record
  import_records zone [] s = imported s
  import_records zone (rr ∷ rrs) s = and_import (import_record zone rr s) (import_records zone rrs)

  -- `transaction.atomic()`: an exception takes the tables back, not what was queued.
  unfoldable pub atomic : State → Outcome → Outcome
  atomic before (imported s) = imported s
  atomic before (failed e s) =
      failed e (record before { store = record before.store { queued = s.store.queued } })

  unfoldable pub emptied : Bool → Zone → State → State
  unfolding empty_tables other_rows
  emptied overwrite zone s =
      if overwrite
      then record {
        store = empty_tables zone.id overwritten s.store;
        dnskey = other_rows zone.id s.dnskey;
      }
      else s

  -- The records are what `dnslib.ZoneParser` makes of the text; `none` is an error of it, which
  -- becomes a `ValueError`.
  unfoldable pub import_zone_file : Zone → Option (List UpdateRr) → Bool → State → Outcome
  unfolding import_records atomic emptied
  import_zone_file zone none overwrite s = failed value_error s
  import_zone_file zone (some records) overwrite s =
      atomic s (import_records zone records (emptied overwrite zone s))
