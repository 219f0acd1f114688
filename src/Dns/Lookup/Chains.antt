-- ===== src/Dns/Lookup/Chains.antt =====
-- Chains of CNAMEs across zones: how far `lookup_cname` of grpc.py follows them.
use hexdns.Common.{ℕ, zero, suc, ◌≡◌, refl, ◌∙◌, Bool, false, ◌==◌, some, Bytes, err, out_of_fuel}
use hexdns.Dns.External.{External}
use hexdns.Dns.Message.{Response, add_answer}
use hexdns.Dns.Store.{Row, Zone, Db}
use hexdns.Dns.Records.{cname_to_rr}
use hexdns.Dns.Find.{find_zone, find_records}
use hexdns.Dns.AnyRecords.{any_records}
use hexdns.Dns.Lookup.{Lookup, follow_cname, lookup_cname, Answering, lookup_with}

module _ ⦃E : External⦄ where
  -- The CNAME `r` at a name without other records leads to a name of another zone, and the names within
  -- the two zones differ (`record_name != new_record_name`).
  pub record LeadsTo (db : Db) (name : E.Label) (zone : Zone) (r : Row Bytes)
      (next : Zone × E.Label) : Type 0 where
    pub alone : any_records db name zone false ≡ false
    pub first : E.first (Row Bytes) (find_records db.cname name zone) ≡ some r
    pub lands : find_zone db (E.of_str r.body) ≡ some next
    pub elsewhere : (next.0.id == zone.id) ≡ false
    pub renamed : E.label_eq name next.1 ≡ false

  follow_cname-LeadsTo :
      (func : Lookup) (db : Db) (res : Response) (name : E.Label) (zone : Zone)
      (query_name : E.Label) (is_dnssec : Bool) (r : Row Bytes) (next : Zone × E.Label)
      → LeadsTo db name zone r next
      → follow_cname func db res name zone query_name is_dnssec r
        ≡ func (add_answer res (cname_to_rr query_name r)) next.1 next.0 (E.of_str r.body) is_dnssec
  unfolding follow_cname
  follow_cname-LeadsTo func db res name zone query_name is_dnssec r next l =
      rw (l.lands, l.elsewhere, l.renamed, follow_cname) refl

  pub lookup_cname-LeadsTo :
      (func : Lookup) (db : Db) (res : Response) (name : E.Label) (zone : Zone)
      (query_name : E.Label) (is_dnssec : Bool) (r : Row Bytes) (next : Zone × E.Label)
      → LeadsTo db name zone r next
      → lookup_cname func db res name zone query_name is_dnssec
        ≡ func (add_answer res (cname_to_rr query_name r)) next.1 next.0 (E.of_str r.body) is_dnssec
  unfolding lookup_cname
  lookup_cname-LeadsTo func db res name zone query_name is_dnssec r next l =
      rw (l.alone, l.first, lookup_cname)
        (follow_cname-LeadsTo func db res name zone query_name is_dnssec r next l)

  -- A lookup that finds nothing of its own at the name.
  abbrev pub FindsNothing : Answering → E.Label → Zone → Type 0
  FindsNothing answering name zone =
      (res : Response) (query_name : E.Label) → (answering res name zone query_name).1 ≡ false

  lookup_with-LeadsTo :
      (answering : Answering) (db : Db) (fuel : ℕ) (res : Response) (name : E.Label) (zone : Zone)
      (query_name : E.Label) (is_dnssec : Bool) (r : Row Bytes) (next : Zone × E.Label)
      → FindsNothing answering name zone
      → LeadsTo db name zone r next
      → lookup_with answering db (suc fuel) res name zone query_name is_dnssec
        ≡ lookup_with answering db fuel
            (add_answer (answering res name zone query_name).0 (cname_to_rr query_name r))
            next.1
            next.0
            (E.of_str r.body)
            is_dnssec
  unfolding lookup_with
  lookup_with-LeadsTo answering db fuel res name zone query_name is_dnssec r next n l =
      rw (n res query_name, lookup_with)
        (lookup_cname-LeadsTo (lookup_with answering db fuel) db _ name zone query_name is_dnssec r
          next l)

  -- If two names of two zones, whose names within their zones differ, have no records but CNAMEs that
  -- lead to each other, then a lookup that finds nothing of its own at either name does not end at
  -- either name, whatever the fuel: the program recurses until Python stops it. (Where the names
  -- within the zones are the same, the program stops at the first CNAME.)
  pub lookup_with-cname_cycle :
      (answering : Answering) (db : Db) (name : E.Label) (zone : Zone) (other_name : E.Label)
      (other : Zone) (r s : Row Bytes)
      → FindsNothing answering name zone
      → FindsNothing answering other_name other
      → LeadsTo db name zone r (other, other_name)
      → LeadsTo db other_name other s (zone, name)
      → (fuel : ℕ) (res : Response) (query_name : E.Label) (is_dnssec : Bool)
      → (lookup_with answering db fuel res name zone query_name is_dnssec ≡ err out_of_fuel)
        × (lookup_with answering db fuel res other_name other query_name is_dnssec
            ≡ err out_of_fuel)
  unfolding lookup_with
  lookup_with-cname_cycle answering db name zone other_name other r s n m l k zero res query_name
        is_dnssec =
      (refl, refl)
  lookup_with-cname_cycle answering db name zone other_name other r s n m l k (suc fuel) res
        query_name is_dnssec =
      let rest = lookup_with-cname_cycle answering db name zone other_name other r s n m l k fuel in
      (
        lookup_with-LeadsTo answering db fuel res name zone query_name is_dnssec r
              (other, other_name) n l
            ∙ (rest (add_answer (answering res name zone query_name).0 (cname_to_rr query_name r))
                (E.of_str r.body) is_dnssec).1,
        lookup_with-LeadsTo answering db fuel res other_name other query_name is_dnssec s
              (zone, name) m k
            ∙ (rest
                (add_answer (answering res other_name other query_name).0
                  (cname_to_rr query_name s))
                (E.of_str s.body) is_dnssec).0,
      )
