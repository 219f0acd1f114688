-- ===== src/Dns/Tests.antt =====
-- Runs of the lookups on sample tables, and each theorem at an input that meets its hypotheses.
use hexdns.Common.{
  ℕ, true, false, ◌==◌, if◌then◌else◌, ◌≡◌, refl, List, [], ◌∷◌, Bytes, codes, bytes_eq, eqℤ, All,
  none, some, ok, err, out_of_fuel, arith,
}
use mathlib.Core.List.{Memᴰ}
use hexdns.Dns.Sample.{sample, runs}
use hexdns.Dns.Qtype
use hexdns.Dns.Message.{Ip, Response, add_answer, v4}
use hexdns.Dns.Store.{Row, Zone, Db, Sshfp}
use hexdns.Dns.Records.{mx_to_rr, cname_to_rr, sshfp_to_rrs}
use hexdns.Dns.Find.{search_name, wildcard_search_name, find_zone, find_records, name_within}
use hexdns.Dns.Find.Rows.{IsAt, IsSelection, find_records-IsSelection}
use hexdns.Dns.Find.Zones.{Found, find_zone-Found}
use hexdns.Dns.AnyRecords.{any_records}
use hexdns.Dns.Lookup.{Answering, answer_rows, lookup_with, add_rows}
use hexdns.Dns.Lookup.Answers.{Answer}
use hexdns.Dns.Lookup.Chains.{LeadsTo, lookup_with-cname_cycle}
use hexdns.Dns.Lookup.Ends.{lookup_with-Returns, Returns, Falls}
use hexdns.Dns.Methods.{one, https_rows, lookup_https}
use hexdns.Dns.Methods.HttpsChain.{lookup_https-sshfp}
use hexdns.Dns.Prerequisites.{fresh_response, prerequisite_lookup}
use hexdns.Dns.Prerequisites.Typed.{prerequisite_lookup-Typed}

abbrev pub row : {D : Type 0} → ℕ → ℕ → Bytes → D → Row D
row pk zone name body = record { pk = pk; zone = zone; record_name = name; ttl = 300; body = body }

abbrev pub zone_of : ℕ → Bytes → Zone
zone_of id root = record { id = id; zone_root = root; custom_ns = [] }

abbrev pub outer : Zone
outer = zone_of 1 (codes "ex.com")

abbrev pub inner : Zone
inner = zone_of 2 (codes "in.ex.com")

abbrev to_inner : Row Bytes
to_inner = row 1 1 (codes "a") (codes "b.in.ex.com")

abbrev to_outer : Row Bytes
to_outer = row 2 2 (codes "b") (codes "a.ex.com")

abbrev service : Row Bytes
service = row 3 1 (codes "w") (codes "h.in.ex.com")

abbrev host_key : Row Sshfp
host_key = row 4 2 (codes "h") (record { key_type = codes "ssh-rsa"; decoded_key = [] })

-- The tables without rows.
abbrev pub empty : List Zone → Db
empty zones = record {
  zones = zones;
  address = [];
  dynamic = [];
  aname = [];
  cname = [];
  redirect = [];
  mx = [];
  ns = [];
  txt = [];
  srv = [];
  caa = [];
  naptr = [];
  sshfp = [];
  ds = [];
  loc = [];
  hinfo = [];
  rp = [];
  https = [];
  dhcid = [];
}

abbrev db : Db
db = record (empty (outer ∷ inner ∷ zone_of 9 (codes "off.ex.com") ∷ [])) {
  cname = to_inner ∷ to_outer ∷ service ∷ [];
  sshfp = host_key ∷ [];
  address = row 5 1 (codes "*.m") (v4 (codes "192.0.2.1")) ∷ [];
}

abbrev label_a : List Bytes
label_a = codes "a" ∷ []

abbrev label_m : List Bytes
label_m = codes "x" ∷ codes "m" ∷ []

abbrev label_b : List Bytes
label_b = codes "b" ∷ []

-- All that a run of the lookups computes with.
unfoldable pub lookups : Unit {0}
unfolding runs find_zone find_records any_records https_rows lookup_with name_within search_name
    answer_rows wildcard_search_name bytes_eq eqℤ
lookups = tt

find_zone_tests :
    (find_zone ⦃E = sample⦄ db (codes "b" ∷ codes "in" ∷ codes "ex" ∷ codes "com" ∷ [])
      ≡ some (inner, label_b))
    × (find_zone ⦃E = sample⦄ db (codes "x" ∷ codes "off" ∷ codes "ex" ∷ codes "com" ∷ []) ≡ none)
unfolding lookups
find_zone_tests = (refl, refl)

find_zone-Found_example : Found ⦃E = sample⦄ label_a db.zones (find_zone ⦃E = sample⦄ db label_a)
find_zone-Found_example = find_zone-Found ⦃E = sample⦄ db label_a

wildcard-IsAt : IsAt (codes "*.m") outer (row 5 1 (codes "*.m") (v4 (codes "192.0.2.1")))
wildcard-IsAt = record { named = refl; owned = refl }

find_records-IsSelection_example :
    ((r : Row Ip)
      → Memᴰ r db.address
      → IsAt (search_name ⦃E = sample⦄ label_m) outer r
      → IsSelection ⦃E = sample⦄ db.address outer
          (search_name ⦃E = sample⦄ label_m)
          (find_records ⦃E = sample⦄ db.address label_m outer))
    × (((r : Row Ip) → Memᴰ r db.address → IsAt (search_name ⦃E = sample⦄ label_m) outer r → ⊥)
        → IsSelection ⦃E = sample⦄ db.address outer
            (wildcard_search_name ⦃E = sample⦄ label_m)
            (find_records ⦃E = sample⦄ db.address label_m outer))
find_records-IsSelection_example = find_records-IsSelection ⦃E = sample⦄ db.address outer label_m

mx_rows : Answering ⦃E = sample⦄
mx_rows = answer_rows ⦃E = sample⦄ (one ⦃E = sample⦄ (mx_to_rr ⦃E = sample⦄)) db.mx

to_inner_leads : LeadsTo ⦃E = sample⦄ db label_a outer to_inner (inner, label_b)
unfolding lookups
to_inner_leads = record {
  alone = refl;
  first = refl;
  lands = refl;
  elsewhere = refl;
  renamed = refl;
}

to_outer_leads : LeadsTo ⦃E = sample⦄ db label_b inner to_outer (outer, label_a)
unfolding lookups
to_outer_leads = record {
  alone = refl;
  first = refl;
  lands = refl;
  elsewhere = refl;
  renamed = refl;
}

lookup_with-cname_cycle_example :
    (lookup_with ⦃E = sample⦄ mx_rows db 2
        (fresh_response ⦃E = sample⦄ Qtype.mx)
        label_a
        outer
        label_a
        true
      ≡ err out_of_fuel)
    × (lookup_with ⦃E = sample⦄ mx_rows db 2
          (fresh_response ⦃E = sample⦄ Qtype.mx)
          label_b
          inner
          label_a
          true
        ≡ err out_of_fuel)
unfolding mx_rows lookups
lookup_with-cname_cycle_example =
    lookup_with-cname_cycle ⦃E = sample⦄ mx_rows db label_a outer label_b inner to_inner to_outer
      (λ res q. refl) (λ res q. refl) to_inner_leads to_outer_leads 2
      (fresh_response ⦃E = sample⦄ Qtype.mx) label_a true

-- One CNAME, from the outer zone into the inner one.
abbrev chain : Db
chain = record db { cname = to_inner ∷ [] }

depth : List Bytes → Zone → ℕ
depth name zone = if zone.id == 1 then 1 else 0

chain_rows :
    (r : Row Bytes) (name : List Bytes) (zone : Zone)
    → sample.first (Row Bytes) (find_records ⦃E = sample⦄ chain.cname name zone) ≡ some r
    → (r ≡ to_inner) × (zone.id ≡ 1)
unfolding lookups
chain_rows r name zone h = ground arith

chain-Falls : Falls ⦃E = sample⦄ chain depth
unfolding depth lookups
chain-Falls name zone r next leads =
    let (same, home) = chain_rows r name zone leads.first in
    let lands = rw same at leads.lands in ground arith

lookup_with-Returns_example : Returns (
    lookup_with ⦃E = sample⦄ mx_rows chain 2
      (fresh_response ⦃E = sample⦄ Qtype.mx)
      label_a
      outer
      label_a
      false)
unfolding depth
lookup_with-Returns_example =
    lookup_with-Returns ⦃E = sample⦄ mx_rows chain depth chain-Falls 2
      (fresh_response ⦃E = sample⦄ Qtype.mx) label_a outer label_a (omega arith)

abbrev name_w : List Bytes
name_w = codes "w" ∷ []

abbrev name_h : List Bytes
name_h = codes "h" ∷ []

service_leads : LeadsTo ⦃E = sample⦄ db name_w outer service (inner, name_h)
unfolding lookups
service_leads = record {
  alone = refl;
  first = refl;
  lands = refl;
  elsewhere = refl;
  renamed = refl;
}

lookup_https-sshfp_example :
    lookup_https ⦃E = sample⦄ db 1
      (fresh_response ⦃E = sample⦄ Qtype.https)
      name_w
      outer
      name_w
      true
    ≡ ok (
        add_rows ⦃E = sample⦄
          (sshfp_to_rrs ⦃E = sample⦄ (codes "h" ∷ codes "in" ∷ codes "ex" ∷ codes "com" ∷ []))
          (add_answer ⦃E = sample⦄
            (fresh_response ⦃E = sample⦄ Qtype.https)
            (cname_to_rr ⦃E = sample⦄ name_w service))
          (host_key ∷ []))
unfolding lookups
lookup_https-sshfp_example =
    lookup_https-sshfp ⦃E = sample⦄ db 0 (fresh_response ⦃E = sample⦄ Qtype.https) name_w outer
      name_w true service (inner, name_h) refl service_leads refl

abbrev pub ex_com : List Bytes
ex_com = codes "ex" ∷ codes "com" ∷ []

abbrev a_ex_com : List Bytes
a_ex_com = codes "a" ∷ ex_com

prerequisite_lookup-Typed_example :
    (r : Response ⦃E = sample⦄ × Response ⦃E = sample⦄) × (prerequisite_lookup ⦃E = sample⦄ chain 2
        ex_com outer a_ex_com Qtype.mx
        (fresh_response ⦃E = sample⦄ 6)
      ≡ ok r)
    × All (Answer ⦃E = sample⦄ Qtype.mx) r.0.rr
unfolding depth
prerequisite_lookup-Typed_example =
    prerequisite_lookup-Typed ⦃E = sample⦄ chain depth chain-Falls 2 ex_com outer a_ex_com Qtype.mx
      (fresh_response ⦃E = sample⦄ 6) (omega arith) (omega arith)
