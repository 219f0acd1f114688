-- ===== src/Dns/AnyRecords.antt =====
-- Whether a zone has records at a name: `any_records` and `any_record_type` of grpc.py.
pub mod Standing
use hexdns.Common.{
  ℕ, Bool, false, ◌&&◌, ◌||◌, ◌==◌, if◌then◌else◌, List, [], ◌∷◌, Bytes, bytes_eq, pos, eqℤ,
}
use hexdns.Dns.External.{External}
use hexdns.Dns.Find.{
  at_name, nonempty, search_name, wildcard_search_name, find_records, parse_https_record_name,
}
use hexdns.Dns.Message.{Ip, v4, v6}
use hexdns.Dns.Qtype
use hexdns.Dns.Store.{Row, Zone, Db, Https}

module _ ⦃E : External⦄ where
  -- `….filter(zone=zone).filter(Q(record_name=…) | Q(record_name=…)).count()`
  unfoldable pub any_in : {D : Type 0} → List (Row D) → Zone → Bytes → Bytes → Bool
  unfolding nonempty
  any_in {D} table zone name wildcard = nonempty (
      E.filter (Row D) (λ r. bytes_eq r.record_name name || bytes_eq r.record_name wildcard)
        (E.filter (Row D) (λ r. r.zone == zone.id) table))

  -- The last query of `any_records`, on the HTTPS records.
  unfoldable pub any_https : Db → E.Label → Zone → Bool
  unfolding parse_https_record_name wildcard_search_name search_name nonempty
  any_https db rname zone =
      let (port, scheme, name) = parse_https_record_name rname in
      nonempty (
        E.filter (Row Https) (λ r. bytes_eq r.body.scheme scheme && eqℤ (pos r.body.port) port)
          (E.filter (Row Https)
            (λ r.
              bytes_eq r.record_name (search_name name)
              || bytes_eq r.record_name (wildcard_search_name name))
            (E.filter (Row Https) (λ r. r.zone == zone.id) db.https)))

  -- `any_records`
  unfoldable pub any_records : Db → E.Label → Zone → Bool → Bool
  unfolding any_in any_https search_name wildcard_search_name
  any_records db rname zone include_cname =
      let name = search_name rname in
      let wildcard = wildcard_search_name rname in
      any_in db.address zone name wildcard
      || any_in db.dynamic zone name wildcard
      || (include_cname && any_in db.cname zone name wildcard)
      || any_in db.redirect zone name wildcard
      || any_in db.mx zone name wildcard
      || any_in db.ns zone name wildcard
      || any_in db.txt zone name wildcard
      || any_in db.srv zone name wildcard
      || any_in db.caa zone name wildcard
      || any_in db.naptr zone name wildcard
      || any_in db.sshfp zone name wildcard
      || any_in db.ds zone name wildcard
      || any_in db.aname zone name wildcard
      || any_in db.loc zone name wildcard
      || any_in db.hinfo zone name wildcard
      || any_in db.rp zone name wildcard
      || any_https db rname zone

  -- `….filter(record_name=…, zone=zone).count()`
  unfoldable pub has_record : {D : Type 0} → List (Row D) → E.Label → Zone → Bool
  unfolding search_name nonempty
  has_record {D} table rname zone =
      nonempty (E.filter (Row D) (at_name (search_name rname) zone) table)

  -- The loop of `any_record_type` over the addresses found.
  unfoldable pub any_address : ℕ → List (Row Ip) → Bool
  any_address rtype [] = false
  any_address rtype (r ∷ rs) =
      (elim r.body [ v4 text ↦ rtype == Qtype.a | v6 text ↦ rtype == Qtype.aaaa ])
      || any_address rtype rs

  unfoldable pub has_https : Db → E.Label → Zone → Bool
  unfolding parse_https_record_name search_name nonempty
  has_https db rname zone =
      let (port, scheme, name) = parse_https_record_name rname in
      nonempty (
        E.filter (Row Https)
          (λ r.
            at_name (search_name name) zone r
            && bytes_eq r.body.scheme scheme
            && eqℤ (pos r.body.port) port)
          db.https)

  -- `any_record_type`
  unfoldable pub any_record_type : Db → E.Label → Zone → ℕ → Bool
  unfolding find_records any_address has_record has_https
  any_record_type db rname zone rtype =
      if rtype == Qtype.a || rtype == Qtype.aaaa
      then any_address rtype (find_records db.address rname zone)
      else if rtype == Qtype.mx
      then has_record db.mx rname zone
      else if rtype == Qtype.ns
      then has_record db.ns rname zone
      else if rtype == Qtype.txt
      then has_record db.txt rname zone
      else if rtype == Qtype.srv
      then has_record db.srv rname zone
      else if rtype == Qtype.caa
      then has_record db.caa rname zone
      else if rtype == Qtype.naptr
      then has_record db.naptr rname zone
      else if rtype == Qtype.sshfp
      then has_record db.sshfp rname zone
      else if rtype == Qtype.ds
      then has_record db.ds rname zone
      else if rtype == Qtype.loc
      then has_record db.loc rname zone
      else if rtype == Qtype.hinfo
      then has_record db.hinfo rname zone
      else if rtype == Qtype.rp
      then has_record db.rp rname zone
      else if rtype == Qtype.https
      then has_https db rname zone
      else if rtype == Qtype.cname
      then has_record db.cname rname zone
      else false
