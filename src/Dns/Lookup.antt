-- ===== src/Dns/Lookup.antt =====
-- Answering a question from the tables: the `lookup_…` methods of grpc.py. They follow a CNAME into
-- another zone by calling themselves, with no bound of their own: the fuel stands for Python's
-- recursion limit, and `out_of_fuel` for its `RecursionError`.
pub mod Answers
pub mod Bounds
pub mod Chains
pub mod Ends
pub mod Referral
use hexdns.Common.{
  ℕ, zero, suc, Bool, true, false, not, ◌&&◌, ◌||◌, ◌==◌, if◌then◌else◌, List, [], ◌∷◌, ◌++◌, map,
  length, Bytes, codes, bytes_eq, ℤ, pos, eqℤ, Option, none, some, Result, ok, err, out_of_fuel,
  ◌>>=◌,
}
use hexdns.Dns.External.{External}
use hexdns.Dns.Message.{Ip, v4, v6, ns_rd, Rr, Response, add_answer, add_answers}
use hexdns.Dns.Qtype
use hexdns.Dns.Rcode
use hexdns.Dns.Store.{Row, Zone, Db, Dynamic, Aname, Redirect, Ds, Https, Sshfp}
use hexdns.Dns.Records.{
  make_rr, address_to_rr, dynamic_to_rr_v4, dynamic_to_rr_v6, cname_to_rr, redirect_to_rr_v4,
  redirect_to_rr_v6, redirect_to_rr_caa, mx_to_rr, ns_to_rr, txt_to_rr, srv_to_rr, caa_to_rr,
  naptr_to_rr, sshfp_to_rrs, ds_to_rr, loc_to_rr, hinfo_to_rr, rp_to_rr, https_to_rr, dhcid_to_rr,
}
use hexdns.Dns.Find.{nonempty, find_zone, find_records, parse_https_record_name}
use hexdns.Dns.AnyRecords.{any_records}
use hexdns.Dns.Delegation.{aname_to_rrs, add_delegation}

-- `NAMESERVERS`
abbrev pub nameservers : List Bytes
nameservers =
    codes "ns1.as207960.net"
    ∷ codes "ns2.as207960.net"
    ∷ codes "ns3.as207960.net"
    ∷ codes "ns4.as207960.net"
    ∷ []

module _ ⦃E : External⦄ where
  -- A name as it is compared with `"@"`.
  abbrev pub at_root : E.Label → Bool
  at_root record_name = E.label_eq record_name (E.of_str (codes "@"))

  -- The name servers that the loop of `lookup_referral` goes through.
  unfoldable pub referral_servers : Db → Zone → List (Row Bytes)
  referral_servers db zone =
      E.filter (Row Bytes) (λ r. r.zone == zone.id)
        (E.order_by_desc (Row Bytes) (λ r. length r.record_name) db.ns)

  -- The next turn of that loop, or its `return` at a digest that cannot be read.
  unfoldable pub referral_next :
      (Response → Result (Response × Option Bool))
      → Response × Bool
      → Result (Response × Option Bool)
  referral_next next (res, true) = next res
  referral_next next (res, false) = ok (res, none)

  -- The loop of `lookup_referral`. The result's `ns_found` is `none` where the method returned
  -- inside the loop.
  unfoldable pub referral_loop :
      Db
      → E.Label
      → Zone
      → Bool
      → Bool
      → Response
      → List (Row Bytes)
      → Result (Response × Option Bool)
  unfolding add_delegation referral_next
  referral_loop db record_name zone is_dnssec ns_found res [] = ok (res, some ns_found)
  referral_loop db record_name zone is_dnssec ns_found res (r ∷ rs) =
      let skipped = referral_loop db record_name zone is_dnssec ns_found res rs in
      let taken : Result (Response × Option Bool) = do
        added ← add_delegation db zone is_dnssec res r
        referral_next (λ more. referral_loop db record_name zone is_dnssec true more rs) added
      in if E.match_suffix record_name (E.of_str r.record_name) then taken else skipped

  -- `if not ns_found and record_name != "@": …`
  unfoldable pub referral_end : Db → E.Label → Zone → Response × Option Bool → Response
  referral_end db record_name zone (res, none) = res
  referral_end db record_name zone (res, some ns_found) =
      if not ns_found && not (at_root record_name)
      then (if not (any_records db record_name zone true)
          then record res { rcode = Rcode.nxdomain }
          else res)
      else res

  unfoldable pub lookup_referral : Db → Response → E.Label → Zone → Bool → Result Response
  unfolding referral_loop referral_end referral_servers
  lookup_referral db res record_name zone is_dnssec = do
    looped ← referral_loop db record_name zone is_dnssec false res (referral_servers db zone)
    ok (referral_end db record_name zone looped)

  -- The arguments that all `lookup_…` methods share.
  abbrev pub Lookup : Type 0
  Lookup = Response → E.Label → Zone → E.Label → Bool → Result Response

  -- A CNAME that was found: its answer, and the question put again where it leads into another
  -- zone.
  unfoldable pub follow_cname :
      Lookup → Db → Response → E.Label → Zone → E.Label → Bool → Row Bytes → Result Response
  unfolding cname_to_rr add_answer
  follow_cname func db res record_name zone query_name is_dnssec r =
      let answered = add_answer res (cname_to_rr query_name r) in
      elim (find_zone db (E.of_str r.body)) [
        | none ↦ ok answered
        | some zn ↦
            if not (zn.0.id == zone.id) && not (E.label_eq record_name zn.1)
            then func answered zn.1 zn.0 (E.of_str r.body) is_dnssec
            else ok answered
      ]

  unfoldable pub lookup_cname : Lookup → Db → Lookup
  unfolding follow_cname lookup_referral
  lookup_cname func db res record_name zone query_name is_dnssec =
      if not (any_records db record_name zone false)
      then elim (E.first (Row Bytes) (find_records db.cname record_name zone)) [
        | none ↦ lookup_referral db res record_name zone is_dnssec
        | some r ↦ follow_cname func db res record_name zone query_name is_dnssec r
      ]
      else lookup_referral db res record_name zone is_dnssec

  -- The part of a `lookup_…` method before its call of `lookup_cname`: the response, and whether
  -- that call is left out.
  abbrev pub Answering : Type 0
  Answering = Response → E.Label → Zone → E.Label → Response × Bool

  -- A `lookup_…` method that hands itself to `lookup_cname`.
  unfoldable pub lookup_with : Answering → Db → ℕ → Lookup
  unfolding lookup_cname
  lookup_with answering db zero res record_name zone query_name is_dnssec = err out_of_fuel
  lookup_with answering db (suc fuel) res record_name zone query_name is_dnssec =
      let step = answering res record_name zone query_name in
      elim step.1 [
        | true ↦ ok step.0
        | false ↦
            lookup_cname (lookup_with answering db fuel) db step.0 record_name zone query_name
              is_dnssec
      ]

  -- `for record in records: …`, with what each row adds.
  unfoldable pub add_rows : {D : Type 0} → (Row D → List Rr) → Response → List (Row D) → Response
  unfolding add_answers
  add_rows rrs res [] = res
  add_rows rrs res (r ∷ rs) = add_rows rrs (add_answers res (rrs r)) rs

  -- The rows found at the name, each with its answers.
  unfoldable pub answer_rows : {D : Type 0} → (E.Label → Row D → List Rr) → List (Row D) → Answering
  unfolding find_records nonempty add_rows
  answer_rows rrs table res record_name zone query_name =
      let records = find_records table record_name zone in
      (add_rows (rrs query_name) res records, nonempty records)
