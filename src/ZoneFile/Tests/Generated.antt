-- ===== src/ZoneFile/Tests/Generated.antt =====
-- Runs of generate_fzone and generate_rzone on sample tables, and their theorems there.
use mathlib.Core.List.{Memᴰ}
use hexdns.Common.{
  ℕ, ◌==◌, ◌+◌, ◌≡◌, refl, true, false, [], ◌∷◌, ◌++◌, Bytes, codes, some, Result, ok, pos,
}
use hexdns.Dns.Message.{v4}
use hexdns.Dns.Store.{Row, Zone, Db, Mx}
use hexdns.Dns.Find.{join_dots}
use hexdns.Dns.Records.{mx_to_rr}
use hexdns.Dns.Sample.{sample, runs}
use hexdns.Dns.Tests.{row, outer, inner, empty, ex_com}
use hexdns.Tsig.Tests.{lists}
use hexdns.ZoneFile.Strings.{show}
use hexdns.ZoneFile.Lines.{idna_label}
use hexdns.ZoneFile.Loc.{Floats}
use hexdns.ZoneFile.Forward.{Extra, generate_fzone}
use hexdns.ZoneFile.Forward.Presented.{Infix, presented}
use hexdns.ZoneFile.Forward.Serves.{of_mx, generate_fzone-Serves}
use hexdns.ZoneFile.Reverse.{ReverseZone, AutoReverse, generate_rzone}
use hexdns.ZoneFile.Reverse.Accounts.{rzone_with, auto_texts, owned, generate_rzone-owned}
use hexdns.ZoneFile.Tests.{packing, texts, header_zone, host, net, ascii_only}

-- There are no LOC records here, and so no floats.
abbrev floats : Floats
floats = record {
  Float = ℕ;
  trunc = λ x. pos x;
  of_int = λ i. 0;
  sub = λ a b. a;
  mul = λ a b. a;
  div = λ a b. a;
  abs_float = λ a. a;
  round3 = λ a. a;
  is_negative = λ a. false;
  str_float = λ a. show a;
}

abbrev mail : Row Mx
mail = row 3 1 (codes "m") (record { exchange = codes "mx.ex.com"; priority = 10 })

abbrev db : Db
db = record (empty (outer ∷ [])) {
  mx = mail ∷ [];
  address = row 4 1 (codes "@") (v4 (codes "192.0.2.1")) ∷ [];
  txt = row 5 1 (codes "t") (codes "a\"b") ∷ row 6 2 (codes "t") (codes "x") ∷ [];
}

abbrev extra : Extra ⦃F = floats⦄
extra = record {
  auto_reverse = λ pk. true;
  ds_digest = λ pk. [];
  github = [];
  dnskey = [];
  loc = [];
  reverse_zones = λ ip. 7 ∷ [];
}

unfoldable pub zone_files : Unit {0}
unfolding generate_fzone runs ascii_only
zone_files = tt

abbrev made : Bytes
made =
    codes
      "$ORIGIN ex.com.\n@ 86400 IN SOA ns.ex.com. noc.as207960.net. 1700000000 86400 3600 86400 3600\n"
    ++ codes "@ 86400 IN NS ns.ex.com.\n@ 86400 IN CDS 0 0 0 00\n@ 86400 IN CDNSKEY 0 3 0 AA==\n"
    ++ codes "; Address record hexdns_zoneaddressrecord4\n@ 300 IN A 192.0.2.1\n"
    ++ codes "; MX record hexdns_zonemxrecord3\nm 300 IN MX 10 mx.ex.com.\n"
    ++ codes "; TXT record hexdns_zonetxtrecord5\nt 300 IN TXT \"a\\\"b\"\n"

fzone_test :
    (generate_fzone ⦃F = floats⦄ ⦃E = sample⦄ ⦃T = texts⦄ ⦃O = lists⦄ ⦃P = packing⦄ db extra
      header_zone outer)
    ≡ record { zone_file = ok made; queued = 7 ∷ [] }
unfolding zone_files
fzone_test = refl

fzone_made :
    (generate_fzone ⦃F = floats⦄ ⦃E = sample⦄ ⦃T = texts⦄ ⦃O = lists⦄ ⦃P = packing⦄ db extra
      header_zone outer).zone_file
    ≡ ok made
unfolding zone_files
fzone_made = refl

label_m : idna_label ⦃E = sample⦄ ⦃T = texts⦄ (codes "m") ≡ some (codes "m")
unfolding idna_label ascii_only
label_m = refl

mail-mem : Memᴰ mail (sample.filter (Row Mx) (λ r. r.zone == 1) (mail ∷ []))
unfolding runs
mail-mem = Memᴰ.head refl

generate_fzone-Serves_example :
    Infix
      (presented ⦃E = sample⦄ ⦃T = texts⦄ (codes "m") (mx_to_rr ⦃E = sample⦄ ex_com mail ∷ []))
      made
generate_fzone-Serves_example =
    generate_fzone-Serves ⦃E = sample⦄ ⦃T = texts⦄ ⦃F = floats⦄ ⦃O = lists⦄ ⦃P = packing⦄ db extra
      header_zone outer ex_com made (codes "m") (mx_to_rr ⦃E = sample⦄ ex_com mail ∷ []) b'm' []
      fzone_made (of_mx mail mail-mem) label_m

-- Zone 1 belongs to account 5, and zone 2 to account 6.
abbrev owner : ℕ → ℕ
owner id = id + 4

abbrev lies_in : Zone → ℕ → Row AutoReverse
lies_in zone pk = record {
  pk = pk;
  zone = zone.id;
  record_name = codes "@";
  ttl = 60;
  body = record { zone_root = zone.zone_root; address = host };
}

abbrev reverse_zone : ReverseZone
reverse_zone = record {
  network = record { network_address = net; prefixlen = 24 };
  header = header_zone;
  ptr = [];
  ns = [];
  auto = lies_in outer 1 ∷ lies_in inner 2 ∷ lies_in outer 3 ∷ [];
}

abbrev rzone : Result Bytes
rzone =
    generate_rzone ⦃E = sample⦄ ⦃T = texts⦄ ⦃O = lists⦄ ⦃P = packing⦄ (ok 5) (λ n id. ok (owner id))
      reverse_zone

rzone_test :
    rzone
    ≡ ok (
        codes "$ORIGIN 2.0.192.in-addr.arpa.\n"
        ++ codes "@ 86400 IN SOA ns.ex.com. noc.as207960.net. 1700000000 86400 3600 86400 3600\n"
        ++ codes
            "@ 86400 IN NS ns.ex.com.\n@ 86400 IN CDS 0 0 0 00\n@ 86400 IN CDNSKEY 0 3 0 AA==\n"
        ++ codes
            "; Address record hexdns_zoneaddressrecord1\n1.2.0.192.in-addr.arpa. 60 IN PTR ex.com.\n"
        ++ codes
            "; Address record hexdns_zoneaddressrecord3\n1.2.0.192.in-addr.arpa. 60 IN PTR ex.com.\n")
unfolding generate_rzone runs join_dots
rzone_test = refl

generate_rzone-owned_example :
    rzone
    ≡ rzone_with ⦃E = sample⦄ ⦃T = texts⦄ ⦃O = lists⦄ ⦃P = packing⦄ (ok 5) reverse_zone (λ account.
      ok (
        auto_texts ⦃E = sample⦄ ⦃T = texts⦄
          (owned ⦃E = sample⦄ ⦃T = texts⦄ owner account reverse_zone.auto)))
generate_rzone-owned_example =
    generate_rzone-owned ⦃E = sample⦄ ⦃T = texts⦄ ⦃O = lists⦄ ⦃P = packing⦄ (ok 5)
      (λ n id. ok (owner id)) reverse_zone owner (λ n id. refl)
