-- ===== src/Dns/Prerequisites.antt =====
-- The lookups of `handle_update_query` of grpc.py for the prerequisites that depend on values
-- (RFC 2136, section 3.2.3).
pub mod Typed
use hexdns.Common.{
  ℕ, Bool, true, false, ◌||◌, ◌==◌, if◌then◌else◌, List, [], ◌∷◌, Bytes, codes, Option, none, some,
  Result, ok, err, ◌>>=◌,
}
use hexdns.Dns.External.{External}
use hexdns.Dns.Qtype
use hexdns.Dns.Rcode
use hexdns.Dns.Message.{Rr, Response, cname_rd, add_answer}
use hexdns.Dns.Store.{Row, Zone, Db}
use hexdns.Dns.Records.{cname_to_rr}
use hexdns.Dns.Find.{find_records, name_within}
use hexdns.Dns.Lookup.{Lookup}
use hexdns.Dns.Methods.{
  lookup_addr, lookup_mx, lookup_ns, lookup_txt, lookup_srv, lookup_caa, lookup_naptr, lookup_sshfp,
  lookup_ds, lookup_loc, lookup_hinfo, lookup_rp, lookup_https, lookup_dhcid,
}

module _ ⦃E : External⦄ where
  -- `temp_dns_res`, with its question.
  abbrev pub fresh_response : ℕ → Response
  fresh_response rtype = record {
    question = rtype;
    rr = [];
    auth = [];
    ar = [];
    rcode = Rcode.noerror;
  }

  -- A type without a lookup leaves the response as it is.
  abbrev no_lookup : Lookup
  no_lookup res record_name zone query_name is_dnssec = ok res

  -- The lookup of a type, in the order of the tests of the source.
  unfoldable pub lookup_of : Db → ℕ → ℕ → Lookup
  unfolding lookup_addr
  lookup_of db fuel rtype =
      if rtype == Qtype.a
      then lookup_addr db fuel
      else if rtype == Qtype.aaaa
      then lookup_addr db fuel
      else if rtype == Qtype.mx
      then lookup_mx db fuel
      else if rtype == Qtype.ns
      then lookup_ns db fuel
      else if rtype == Qtype.txt
      then lookup_txt db fuel
      else if rtype == Qtype.srv
      then lookup_srv db fuel
      else if rtype == Qtype.caa
      then lookup_caa db fuel
      else if rtype == Qtype.naptr
      then lookup_naptr db fuel
      else if rtype == Qtype.sshfp
      then lookup_sshfp db fuel
      else if rtype == Qtype.ds
      then lookup_ds db fuel
      else if rtype == Qtype.loc
      then lookup_loc db fuel
      else if rtype == Qtype.hinfo
      then lookup_hinfo db fuel
      else if rtype == Qtype.rp
      then lookup_rp db fuel
      else if rtype == Qtype.https
      then lookup_https db fuel
      else if rtype == Qtype.dhcid
      then lookup_dhcid db fuel
      else no_lookup

  -- `elif rtype == QTYPE.CNAME: …`: the record goes to the response of the update itself.
  unfoldable pub prerequisite_cname : Db → E.Label → Zone → E.Label → Response → Response
  unfolding find_records add_answer
  prerequisite_cname db record_name zone rname dns_res =
      elim (E.first (Row Bytes) (find_records db.cname record_name zone)) [
        | none ↦ dns_res
        | some r ↦
            add_answer dns_res
              (record { rname = rname; rtype = Qtype.cname; rdata = cname_rd r.body; ttl = r.ttl })
      ]

  -- One turn of the loop over `temp_prereq_rrset`, up to the comparison: the response that was
  -- looked up, and the response of the update.
  unfoldable pub prerequisite_lookup :
      Db → ℕ → E.Label → Zone → E.Label → ℕ → Response → Result (Response × Response)
  unfolding lookup_of prerequisite_cname
  prerequisite_lookup db fuel zone_name zone rname rtype dns_res =
      let record_name = name_within rname zone_name in
      do
        temp ← lookup_of db fuel rtype (fresh_response rtype) record_name zone rname false
        ok (
          temp,
          if rtype == Qtype.cname
              then prerequisite_cname db record_name zone rname dns_res
              else dns_res,
        )
