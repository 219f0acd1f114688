-- ===== src/Dns/Delegation.antt =====
-- Referrals: what `lookup_referral` of grpc.py adds for one name server, with
-- `lookup_additional_addr` and `ANAMERecord.to_rrs`.
use hexdns.Common.{
  ℕ, Bool, true, false, not, ◌&&◌, ◌==◌, if◌then◌else◌, List, [], ◌∷◌, ◌++◌, map, Bytes, codes, pos,
  Option, none, some, Result, ok, ◌>>=◌,
}
use hexdns.Dns.External.{External}
use hexdns.Dns.Message.{
  Ip, v4, v6, a_rd, aaaa_rd, ns_rd, rd, nsec_rd, Rr, Response, add_auth, add_ar, add_answers,
}
use hexdns.Dns.Qtype
use hexdns.Dns.Rcode
use hexdns.Dns.Store.{Row, Zone, Db, Dynamic, Aname, Ds}
use hexdns.Dns.Records.{make_rr, address_to_rr, dynamic_to_rr_v4, dynamic_to_rr_v6}
use hexdns.Dns.Find.{at_name, nonempty, join_dots, find_zone, find_records}
use hexdns.Svcb.Params.Pack.{struct_h, struct_b}

-- `f"{record_name}.{zone_root}"`
abbrev pub dotted : Bytes → Bytes → Bytes
dotted name root = name ++ codes "." ++ root

module _ ⦃E : External⦄ where
  -- One address of `ANAMERecord.to_rrs`, kept if its family is the one asked for.
  unfoldable pub aname_rr : ℕ → E.Label → ℕ → Ip → List Rr
  aname_rr qtype query_name ttl (v4 text) =
      if qtype == Qtype.a then make_rr query_name Qtype.a (a_rd text) ttl ∷ [] else []
  aname_rr qtype query_name ttl (v6 text) =
      if qtype == Qtype.aaaa then make_rr query_name Qtype.aaaa (aaaa_rd text) ttl ∷ [] else []

  unfoldable pub aname_rrs : ℕ → E.Label → ℕ → List Ip → List Rr
  unfolding aname_rr
  aname_rrs qtype query_name ttl [] = []
  aname_rrs qtype query_name ttl (ip ∷ ips) =
      aname_rr qtype query_name ttl ip ++ aname_rrs qtype query_name ttl ips

  -- `ANAMERecord.to_rrs`, of a row of the zone.
  unfoldable pub aname_to_rrs : Db → Zone → ℕ → E.Label → Row Aname → List Rr
  unfolding aname_rrs join_dots
  aname_to_rrs db zone qtype query_name r =
      let alias_label = E.of_str r.body.alias in
      let zone_label = E.of_str zone.zone_root in
      let own_name = join_dots (E.label (E.strip_suffix alias_label zone_label)) in
      let own = E.filter (Row Ip) (at_name own_name zone) db.address in
      aname_rrs qtype query_name r.ttl (
        if E.match_suffix alias_label zone_label
        then map (λ (a : Row Ip). a.body) own
        else r.body.cached)

  -- `if rr: dns_res.add_ar(rr)`
  unfoldable pub add_ar_if : Response → Option Rr → Response
  unfolding add_ar
  add_ar_if res none = res
  add_ar_if res (some rr) = add_ar res rr

  -- `lookup_additional_addr`: the loops over the three tables.
  unfoldable pub add_dynamic : E.Label → Response → List (Row Dynamic) → Response
  unfolding add_ar_if
  add_dynamic query_name res [] = res
  add_dynamic query_name res (r ∷ rs) =
      add_dynamic query_name
        (add_ar_if (add_ar_if res (dynamic_to_rr_v4 query_name r)) (dynamic_to_rr_v6 query_name r))
        rs

  unfoldable pub add_addresses : E.Label → Response → List (Row Ip) → Response
  unfolding add_ar address_to_rr
  add_addresses query_name res [] = res
  add_addresses query_name res (r ∷ rs) =
      add_addresses query_name (add_ar res (address_to_rr query_name r)) rs

  unfoldable pub add_anames : Db → Zone → E.Label → Response → List (Row Aname) → Response
  unfolding add_answers aname_to_rrs
  add_anames db zone query_name res [] = res
  add_anames db zone query_name res (r ∷ rs) =
      add_anames db zone query_name
        (add_answers res (aname_to_rrs db zone res.question query_name r)) rs

  unfoldable pub lookup_additional_addr : Db → Response → E.Label → Response
  unfolding add_dynamic add_addresses add_anames
  lookup_additional_addr db res query_name = elim (find_zone db query_name) [
    | none ↦ res
    | some zn ↦
        let addresses = find_records db.address zn.1 zn.0 in
        let dynamic = find_records db.dynamic zn.1 zn.0 in
        let anames = find_records db.aname zn.1 zn.0 in
        let more = add_anames db zn.0 query_name (add_dynamic query_name res dynamic) anames in
        if nonempty addresses then add_addresses query_name res addresses else more
  ]

  -- `if not record.digest_bin: …`, with what follows when there is a digest.
  unfoldable pub ds_digest :
      (Bytes → Result (Response × Bool)) → Response → Option Bytes → Result (Response × Bool)
  ds_digest next res none = ok (record res { rcode = Rcode.servfail }, false)
  ds_digest next res (some []) = ok (record res { rcode = Rcode.servfail }, false)
  ds_digest next res (some (b ∷ bs)) = next (b ∷ bs)

  -- The DS records of a delegation; the flag says that all were added, its absence that the method
  -- returned with SERVFAIL at a digest that cannot be read.
  unfoldable pub add_ds : E.Label → Response → List (Row Ds) → Result (Response × Bool)
  unfolding add_auth struct_h struct_b ds_digest
  add_ds name res [] = ok (res, true)
  add_ds name res (r ∷ rs) = do
    tag ← struct_h (pos r.body.key_tag)
    algorithm ← struct_b r.body.algorithm
    digest_type ← struct_b r.body.digest_type
    let next = λ (digest : Bytes).
        add_ds name
          (add_auth res (record {
            rname = name;
            rtype = Qtype.ds;
            rdata = rd (tag ++ algorithm ++ digest_type ++ digest);
            ttl = r.ttl;
          }))
          rs
    ds_digest next res r.body.digest_bin

  -- `if not records: …`: the NSEC record of a delegation that is not signed.
  unfoldable pub ds_absent : E.Label → E.Label → Bool → Response × Bool → Response × Bool
  unfolding add_auth
  ds_absent name next found added =
      if added.1 && not found
      then (
        add_auth added.0 (record {
          rname = name;
          rtype = Qtype.nsec;
          rdata =
              nsec_rd (join_dots (E.label next)) (codes "NS" ∷ codes "RRSIG" ∷ codes "NSEC" ∷ []);
          ttl = 86400;
        }),
        true,
      )
      else added

  -- `if is_dnssec:` for one name server.
  unfoldable pub delegation_dnssec : Db → Zone → Response → Row Bytes → Result (Response × Bool)
  unfolding add_ds ds_absent
  delegation_dnssec db zone res nameserver =
      let name = E.of_str (dotted nameserver.record_name zone.zone_root) in
      let next = E.of_str (dotted (nameserver.record_name ++ 0 ∷ []) zone.zone_root) in
      let records = find_records db.ds (E.of_str nameserver.record_name) zone in
      do added ← add_ds name res records; ok (ds_absent name next (nonempty records) added)

  -- The body of the loop of `lookup_referral` for a name server whose name fits.
  unfoldable pub add_delegation : Db → Zone → Bool → Response → Row Bytes → Result (Response × Bool)
  unfolding add_auth delegation_dnssec lookup_additional_addr
  add_delegation db zone is_dnssec res nameserver =
      let with_ns = add_auth res (record {
        rname = E.of_str (dotted nameserver.record_name zone.zone_root);
        rtype = Qtype.ns;
        rdata = ns_rd nameserver.body;
        ttl = nameserver.ttl;
      }) in
      do
        checked ←
            (if is_dnssec then delegation_dnssec db zone with_ns nameserver else ok (with_ns, true))
        ok (
            if checked.1
            then (lookup_additional_addr db checked.0 (E.of_str nameserver.body), true)
            else checked)
