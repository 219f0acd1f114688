-- ===== src/ZoneFile/Tests.antt =====
-- Runs of the zone files on sample tables, and each theorem at an input that meets its hypotheses.
-- Names are encoded to themselves if they are ASCII, and labels are written with dots between them.
pub mod Generated
pub mod Imported
pub mod Listed
use mathlib.Core.List.{Memᴰ}
use mathlib.Core.List.Memᴰ
use hexdns.Common.{
  ℕ, ◌+◌, ◌%◌, ◌<◌, ◌≡◌, refl, ltb, true, false, if◌then◌else◌, List, [], ◌∷◌, ◌++◌, map, Bytes,
  codes, All, Option, none, some, Result, ok, err, attribute_error, ◌>>=◌, ◌↔◌, pos, ℤ, negsuc,
  zero, suc, arith, ◌≢◌,
}
use hexdns.Dns.Message.{Ip, v4, v6, Rr}
use hexdns.Dns.Store.{Row, Zone, Db, Mx}
use hexdns.Dns.Find.{join_dots}
use hexdns.Utf8.{encode_text}
use hexdns.Dns.Records.{mx_to_rr}
use hexdns.Dns.Sample.{sample, runs}
use hexdns.Dns.Tests.{row, outer, inner, empty, ex_com}
use hexdns.Tsig.{be, bound}
use hexdns.Tsig.Tests.{lists}
use hexdns.ZoneFile.Strings.{show, encode_str}
use hexdns.ZoneFile.Strings.RoundTrip.{plain, read_quoted, IsPlain, read_quoted-encode_str}
use hexdns.ZoneFile.Keys.{Packing, PublicNumbers, make_key_tag}
use hexdns.ZoneFile.Keys.Tag.{rfc_tag, make_key_tag-rfc_tag}
use hexdns.ZoneFile.Arpa.{v4_address, Address, network_labels, address_labels, network_to_apra}
use hexdns.ZoneFile.Arpa.Below.{IsIn, address_labels-below}
use hexdns.ZoneFile.Lines.{Texts, all_chars, concat, newline, idna_label}
use hexdns.ZoneFile.Header.{
  HeaderZone, ns_names, ns_line, soa_line, trust_text, generate_zone_header,
}
use hexdns.ZoneFile.Header.Authority.{generate_zone_header-primary}
use hexdns.ZoneFile.Loc.{Floats}
use hexdns.ZoneFile.Forward.{Extra, generate_fzone}
use hexdns.ZoneFile.Forward.Presented.{Infix, presented}
use hexdns.ZoneFile.Forward.Serves.{of_mx, generate_fzone-Serves}
use hexdns.ZoneFile.Reverse.{ReverseZone, AutoReverse, generate_rzone}
use hexdns.ZoneFile.Reverse.Accounts.{rzone_with, auto_texts, owned, generate_rzone-owned}

say_test : encode_str (codes "say \"hi\"") ≡ codes "say \\\"hi\\\""
unfolding encode_str
say_test = refl

-- An e with an acute accent is the bytes 195 and 169.
accent_test : encode_str (233 ∷ []) ≡ codes "\\195\\169"
unfolding encode_str
accent_test = refl

read_quoted-encode_str_example :
    read_quoted plain (encode_str (34 ∷ 233 ∷ []) ++ b'"' ∷ newline)
    ≡ some (encode_text (34 ∷ 233 ∷ []), newline)
read_quoted-encode_str_example =
    read_quoted-encode_str (34 ∷ 233 ∷ []) newline
      ((ground arith, omega arith), ((ground arith, omega arith), tt))

abbrev pub packing : Packing ⦃E = sample⦄ ⦃O = lists⦄
packing = record {
  pack_dnskey = λ k b. b ++ (be 2 k.flags ++ k.protocol ∷ k.algorithm ∷ k.key);
  encode_name = λ b name. b;
  contents-pack_dnskey = λ k b. refl;
}

abbrev pub nums : PublicNumbers
nums = record { x = 5; y = 6 }

five_fits : 5 < bound 32
unfolding bound
five_fits = omega arith

six_fits : 6 < bound 32
unfolding bound
six_fits = omega arith

abbrev key_data : Bytes
key_data = be 2 257 ++ 3 ∷ 13 ∷ (be 32 5 ++ be 32 6)

-- 257 + (3 * 256 + 13) + 5 + 6
tag_test : make_key_tag ⦃E = sample⦄ ⦃O = lists⦄ ⦃P = packing⦄ nums 257 ≡ ok 1049
unfolding make_key_tag
tag_test = refl

make_key_tag-rfc_tag_example :
    (make_key_tag ⦃E = sample⦄ ⦃O = lists⦄ ⦃P = packing⦄ nums 257 ≡ ok (rfc_tag key_data))
    × (rfc_tag key_data < 65536)
make_key_tag-rfc_tag_example =
    make_key_tag-rfc_tag ⦃E = sample⦄ ⦃O = lists⦄ ⦃P = packing⦄ nums 257 five_fits six_fits

-- 192.0.2.1 and 192.0.2.0
abbrev pub host : Address
host = v4_address 3221225985

abbrev pub net : Address
net = v4_address 3221225984

apra_test :
    address_labels host
    ≡ codes "1" ∷ codes "2" ∷ codes "0" ∷ codes "192" ∷ codes "in-addr" ∷ codes "arpa" ∷ []
unfolding address_labels
apra_test = refl

-- The prefix of 23 bits is rounded up to that of 24: 192.0.3.1 is of the network, and not below its name.
rounded_test : network_labels net 23 ≡ network_labels net 24
unfolding network_labels
rounded_test = refl

host-IsIn : IsIn host net 24
unfolding IsIn
host-IsIn = refl

address_labels-below_example :
    (front : List Bytes) × (address_labels host ≡ front ++ network_labels net 24)
address_labels-below_example = address_labels-below host net 3 (omega arith) host-IsIn

unfoldable pub ascii_only : Bytes → Option Bytes
unfolding all_chars
ascii_only text = if all_chars (λ c. ltb c 128) text then some text else none

abbrev pub texts : Texts ⦃E = sample⦄
texts = record {
  str_label = λ name. join_dots name ++ codes ".";
  str_id = λ prefix pk. prefix ++ (48 + pk) ∷ [];
  idna_encode = ascii_only;
  b64encode = λ bs. map (λ b. 65 + b % 26) bs;
  now = 1700000000;
  pubkey = nums;
  elements = λ added. added;
  mem-elements = λ n added. (λ m. m, λ m. m);
}

abbrev pub header_zone : HeaderZone
header_zone = record {
  cds_prefix = codes "cds";
  cdnskey_prefix = codes "cdnskey";
  custom_ns = codes "ns.ex.com" ∷ [];
  cds_disable = true;
  additional_cds = [];
  additional_cdnskey = [];
}

generate_zone_header-primary_example :
    (primary : Bytes) × (trust : Bytes) × Memᴰ primary
      (ns_names ⦃E = sample⦄ ⦃O = lists⦄ ⦃P = packing⦄ ⦃T = texts⦄ header_zone.custom_ns)
    × (trust_text ⦃E = sample⦄ ⦃O = lists⦄ ⦃P = packing⦄ ⦃T = texts⦄ header_zone ex_com ≡ ok trust)
    × (generate_zone_header ⦃E = sample⦄ ⦃O = lists⦄ ⦃P = packing⦄ ⦃T = texts⦄ header_zone ex_com
        ≡ ok (
            codes "$ORIGIN "
            ++ (texts.str_label ex_com
                ++ (newline
                    ++ (soa_line ⦃E = sample⦄ ⦃O = lists⦄ ⦃P = packing⦄ ⦃T = texts⦄ primary
                        ++ (concat (
                              map (ns_line ⦃E = sample⦄ ⦃O = lists⦄ ⦃P = packing⦄ ⦃T = texts⦄) (
                                ns_names ⦃E = sample⦄ ⦃O = lists⦄ ⦃P = packing⦄ ⦃T = texts⦄
                                  header_zone.custom_ns))
                            ++ trust))))))
generate_zone_header-primary_example =
    generate_zone_header-primary ⦃E = sample⦄ ⦃O = lists⦄ ⦃P = packing⦄ ⦃T = texts⦄ header_zone
      ex_com five_fits six_fits
