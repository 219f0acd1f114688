-- ===== src/Dns/Methods.antt =====
-- The answers of each `lookup_…` method of grpc.py, and the methods themselves.
pub mod Types
pub mod HttpsChain
use hexdns.Common.{
  ℕ, zero, suc, Bool, true, false, not, ◌&&◌, ◌||◌, ◌==◌, if◌then◌else◌, List, [], ◌∷◌, ◌++◌, map,
  length, Bytes, codes, bytes_eq, ℤ, pos, eqℤ, Option, none, some, Result, ok, err, out_of_fuel,
  ◌>>=◌,
}
use hexdns.Dns.External.{External}
use hexdns.Dns.Message.{Ip, v4, v6, ns_rd, Rr, Response, add_answer, add_answers}
use hexdns.Dns.Qtype
use hexdns.Dns.Store.{Row, Zone, Db, Dynamic, Aname, Redirect, Ds, Https, Sshfp}
use hexdns.Dns.Records.{
  make_rr, address_to_rr, dynamic_to_rr_v4, dynamic_to_rr_v6, redirect_to_rr_v4, redirect_to_rr_v6,
  redirect_to_rr_caa, mx_to_rr, ns_to_rr, txt_to_rr, srv_to_rr, caa_to_rr, naptr_to_rr,
  sshfp_to_rrs, ds_to_rr, loc_to_rr, hinfo_to_rr, rp_to_rr, https_to_rr, dhcid_to_rr,
}
use hexdns.Dns.Find.{nonempty, find_records, parse_https_record_name}
use hexdns.Dns.Delegation.{aname_to_rrs}
use hexdns.Dns.Lookup.{
  nameservers, at_root, Lookup, Answering, lookup_cname, lookup_with, add_rows, answer_rows,
}

module _ ⦃E : External⦄ where
  abbrev pub one : {D : Type 0} → (E.Label → Row D → Rr) → E.Label → Row D → List Rr
  one to_rr query_name r = to_rr query_name r ∷ []

  -- The answer that an address row gives to a question of its family.
  unfoldable pub address_answer : ℕ → E.Label → Row Ip → List Rr
  address_answer qtype query_name r = elim r.body [
    | v4 text ↦ if qtype == Qtype.a then address_to_rr query_name r ∷ [] else []
    | v6 text ↦ if qtype == Qtype.aaaa then address_to_rr query_name r ∷ [] else []
  ]

  abbrev listed : Option Rr → List Rr
  listed none = []
  listed (some rr) = rr ∷ []

  unfoldable pub dynamic_answer : ℕ → E.Label → Row Dynamic → List Rr
  dynamic_answer qtype query_name r =
      if qtype == Qtype.a
      then listed (dynamic_to_rr_v4 query_name r)
      else if qtype == Qtype.aaaa
      then listed (dynamic_to_rr_v6 query_name r)
      else []

  unfoldable pub redirect_answer : ℕ → E.Label → Row Redirect → List Rr
  redirect_answer qtype query_name r =
      if qtype == Qtype.a
      then redirect_to_rr_v4 query_name r ∷ []
      else if qtype == Qtype.aaaa
      then redirect_to_rr_v6 query_name r ∷ []
      else []

  -- `addr_found` after a loop: some row gave an answer.
  unfoldable pub any_answer : {D : Type 0} → (Row D → List Rr) → List (Row D) → Bool
  unfolding nonempty
  any_answer rrs [] = false
  any_answer rrs (r ∷ rs) = nonempty (rrs r) || any_answer rrs rs

  -- `if not addr_found:` before a loop over the rows of one table.
  unfoldable pub try_rows :
      {D : Type 0} → (Row D → List Rr) → List (Row D) → Response × Bool → Response × Bool
  unfolding add_rows any_answer
  try_rows rrs records (res, addr_found) =
      if not addr_found
      then (add_rows rrs res records, any_answer rrs records)
      else (res, addr_found)

  abbrev pub first_of_rows : {D : Type 0} → List (Row D) → List (Row D)
  first_of_rows {D} records = elim (E.first (Row D) records) [ none ↦ [] | some r ↦ r ∷ [] ]

  -- `lookup_addr` before its call of `lookup_cname`.
  unfoldable pub addr_answers : Db → Answering
  unfolding try_rows address_answer dynamic_answer redirect_answer find_records
  addr_answers db res record_name zone query_name =
      let qtype = res.question in
      let s1 =
        try_rows (address_answer qtype query_name) (find_records db.address record_name zone)
          (res, false) in
      let s2 =
        try_rows (dynamic_answer qtype query_name) (find_records db.dynamic record_name zone) s1 in
      let s3 =
        try_rows (aname_to_rrs db zone qtype query_name) (find_records db.aname record_name zone)
          s2 in
      try_rows (redirect_answer qtype query_name)
        (first_of_rows (find_records db.redirect record_name zone)) s3

  unfoldable pub lookup_addr : Db → ℕ → Lookup
  unfolding lookup_with addr_answers
  lookup_addr db = lookup_with (addr_answers db) db

  -- The name servers that `lookup_ns` adds at the zone's root.
  unfoldable pub apex_ns : E.Label → Zone → List Rr
  apex_ns query_name zone =
      map (λ ns. make_rr query_name Qtype.ns (ns_rd ns) 86400)
        (if nonempty zone.custom_ns then zone.custom_ns else nameservers)

  unfoldable pub ns_answers : Db → Answering
  unfolding answer_rows apex_ns add_answers
  ns_answers db res record_name zone query_name =
      let (answered, found) = answer_rows (one ns_to_rr) db.ns res record_name zone query_name in
      (
        (if at_root record_name then add_answers answered (apex_ns query_name zone) else answered),
        found,
      )

  unfoldable pub lookup_ns : Db → ℕ → Lookup
  unfolding lookup_with ns_answers
  lookup_ns db = lookup_with (ns_answers db) db

  -- The redirect record that answers for its name where there is no CAA record.
  unfoldable pub caa_answers : Db → Answering
  unfolding answer_rows add_rows
  caa_answers db res record_name zone query_name =
      let (answered, found) = answer_rows (one caa_to_rr) db.caa res record_name zone query_name in
      let redirect = first_of_rows (find_records db.redirect record_name zone) in
      if found
      then (answered, true)
      else (add_rows (one redirect_to_rr_caa query_name) answered redirect, nonempty redirect)

  unfoldable pub lookup_caa : Db → ℕ → Lookup
  unfolding lookup_with caa_answers
  lookup_caa db = lookup_with (caa_answers db) db

  unfoldable pub lookup_mx : Db → ℕ → Lookup
  unfolding lookup_with answer_rows
  lookup_mx db = lookup_with (answer_rows (one mx_to_rr) db.mx) db

  unfoldable pub lookup_txt : Db → ℕ → Lookup
  unfolding lookup_with answer_rows
  lookup_txt db = lookup_with (answer_rows (one txt_to_rr) db.txt) db

  unfoldable pub lookup_srv : Db → ℕ → Lookup
  unfolding lookup_with answer_rows
  lookup_srv db = lookup_with (answer_rows (one srv_to_rr) db.srv) db

  unfoldable pub lookup_naptr : Db → ℕ → Lookup
  unfolding lookup_with answer_rows
  lookup_naptr db = lookup_with (answer_rows (one naptr_to_rr) db.naptr) db

  unfoldable pub lookup_loc : Db → ℕ → Lookup
  unfolding lookup_with answer_rows
  lookup_loc db = lookup_with (answer_rows (one loc_to_rr) db.loc) db

  unfoldable pub lookup_hinfo : Db → ℕ → Lookup
  unfolding lookup_with answer_rows
  lookup_hinfo db = lookup_with (answer_rows (one hinfo_to_rr) db.hinfo) db

  unfoldable pub lookup_rp : Db → ℕ → Lookup
  unfolding lookup_with answer_rows
  lookup_rp db = lookup_with (answer_rows (one rp_to_rr) db.rp) db

  unfoldable pub lookup_dhcid : Db → ℕ → Lookup
  unfolding lookup_with answer_rows
  lookup_dhcid db = lookup_with (answer_rows (one dhcid_to_rr) db.dhcid) db

  unfoldable pub lookup_sshfp : Db → ℕ → Lookup
  unfolding lookup_with answer_rows
  lookup_sshfp db = lookup_with (answer_rows sshfp_to_rrs db.sshfp) db

  -- A DS record whose digest cannot be read is found, and gives no answer.
  unfoldable pub ds_answer : E.Label → Row Ds → List Rr
  ds_answer query_name r = listed (ds_to_rr query_name r)

  unfoldable pub lookup_ds : Db → ℕ → Lookup
  unfolding lookup_with answer_rows ds_answer
  lookup_ds db = lookup_with (answer_rows ds_answer db.ds) db

  -- The rows of the scheme and port asked for.
  unfoldable pub https_matching : Bytes → ℤ → List (Row Https) → List (Row Https)
  https_matching scheme port [] = []
  https_matching scheme port (r ∷ rs) =
      let rest = https_matching scheme port rs in
      if bytes_eq r.body.scheme scheme && eqℤ (pos r.body.port) port then r ∷ rest else rest

  -- The rows that answer a question for the service that the name spells.
  unfoldable pub https_rows : Db → E.Label → Zone → List (Row Https)
  unfolding https_matching parse_https_record_name find_records
  https_rows db record_name zone =
      let (port, scheme, new_name) = parse_https_record_name record_name in
      https_matching scheme port (find_records db.https new_name zone)

  unfoldable pub https_answers : Db → Answering
  unfolding https_rows add_rows nonempty
  https_answers db res record_name zone query_name =
      let records = https_rows db record_name zone in
      (add_rows (one https_to_rr query_name) res records, nonempty records)

  -- `lookup_https` hands `lookup_sshfp` to `lookup_cname`.
  unfoldable pub lookup_https : Db → ℕ → Lookup
  unfolding lookup_cname lookup_sshfp https_answers
  lookup_https db fuel res record_name zone query_name is_dnssec =
      let step = https_answers db res record_name zone query_name in
      elim step.1 [
        | true ↦ ok step.0
        | false ↦
            lookup_cname (lookup_sshfp db fuel) db step.0 record_name zone query_name is_dnssec
      ]
