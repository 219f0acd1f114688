-- ===== src/ZoneFile/Header.antt =====
-- generate_zone_header of tasks.py.
pub mod Authority
use hexdns.Common.{
  ℕ, Bool, if◌then◌else◌, List, [], ◌∷◌, ◌++◌, map, Bytes, codes, Option, none, some, Result, ok,
  err, attribute_error, ◌>>=◌,
}
use hexdns.Dns.External.{External}
use hexdns.Tsig.{Outside}
use hexdns.ZoneFile.Strings.{show}
use hexdns.ZoneFile.Keys.{Packing, get_dnskey, make_zone_digest}
use hexdns.ZoneFile.Lines.{Texts, concat, newline, rr_line, words, hex, comment}

-- `NAMESERVERS`
abbrev pub nameservers : List Bytes
nameservers =
    codes "ns1.as207960.net."
    ∷ codes "ns2.as207960.net."
    ∷ codes "ns3.as207960.net."
    ∷ codes "ns4.as207960.net."
    ∷ []

-- `DNSZoneAdditionalCDS`
pub record Cds : Type 0 where
  pub pk : ℕ
  pub key_tag : ℕ
  pub algorithm : ℕ
  pub digest_type : ℕ
  pub digest : Bytes

-- `DNSZoneAdditionalCDNSKEY`
pub record Cdnskey : Type 0 where
  pub pk : ℕ
  pub flags : ℕ
  pub protocol : ℕ
  pub algorithm : ℕ
  pub public_key : Bytes

-- What the header reads of a zone, forward or reverse, with the prefixes of the keys of its rows.
pub record HeaderZone : Type 0 where
  pub cds_prefix : Bytes
  pub cdnskey_prefix : Bytes
  pub custom_ns : List Bytes
  pub cds_disable : Bool
  pub additional_cds : List Cds
  pub additional_cdnskey : List Cdnskey

abbrev apex : Bytes
apex = codes "@"

module _ ⦃E : External⦄ ⦃O : Outside⦄ ⦃P : Packing⦄ ⦃T : Texts⦄ where
  -- `primary_ns`, and the names of the NS records.
  unfoldable pub primary_ns : List Bytes → Result Bytes
  primary_ns [] = ok (codes "ns1.as207960.net.")
  primary_ns (n ∷ ns) = elim (E.first Bytes (n ∷ ns)) [
    | none ↦ err attribute_error
    | some first ↦ ok (T.str_label (E.of_str first))
  ]

  unfoldable pub ns_names : List Bytes → List Bytes
  ns_names [] = nameservers
  ns_names (n ∷ ns) = map (λ name. T.str_label (E.of_str name)) (n ∷ ns)

  unfoldable pub ns_line : Bytes → Bytes
  unfolding rr_line
  ns_line name = rr_line apex 86400 (codes "NS") name

  unfoldable pub soa_line : Bytes → Bytes
  unfolding rr_line words show
  soa_line primary = rr_line apex 86400 (codes "SOA") (
      words (
        primary
        ∷ codes "noc.as207960.net."
        ∷ show T.now
        ∷ codes "86400"
        ∷ codes "3600"
        ∷ codes "86400"
        ∷ codes "3600"
        ∷ []))

  unfoldable pub cds_text : Bytes → Cds → Bytes
  unfolding rr_line words show comment
  cds_text prefix cds =
      comment (codes "Additional CDS") prefix cds.pk
      ++ rr_line apex 86400 (codes "CDS")
          (words (show cds.key_tag ∷ show cds.algorithm ∷ show cds.digest_type ∷ cds.digest ∷ []))

  unfoldable pub cdnskey_text : Bytes → Cdnskey → Bytes
  unfolding rr_line words show comment
  cdnskey_text prefix key =
      comment (codes "Additional CDNSKEY") prefix key.pk
      ++ rr_line apex 86400 (codes "CDNSKEY")
          (words (show key.flags ∷ show key.protocol ∷ show key.algorithm ∷ key.public_key ∷ []))

  -- The records that tell the parent zone which keys to trust.
  unfoldable pub key_text : HeaderZone → E.Label → Result Bytes
  unfolding rr_line words show hex concat cds_text cdnskey_text get_dnskey make_zone_digest
  key_text zone zone_root = do
    (digest, tag) ← make_zone_digest T.pubkey zone_root
    dnskey ← get_dnskey T.pubkey
    ok (
        rr_line apex 86400 (codes "CDS")
          (words (show tag ∷ codes "13" ∷ codes "2" ∷ hex digest ∷ []))
        ++ (concat (map (cds_text zone.cds_prefix) zone.additional_cds)
            ++ (rr_line apex 86400 (codes "CDNSKEY")
                  (words (codes "257" ∷ codes "3" ∷ codes "13" ∷ T.b64encode dnskey.key ∷ []))
                ++ concat (map (cdnskey_text zone.cdnskey_prefix) zone.additional_cdnskey))))

  unfoldable pub trust_text : HeaderZone → E.Label → Result Bytes
  unfolding rr_line key_text
  trust_text zone zone_root =
      if zone.cds_disable
      then ok (
          rr_line apex 86400 (codes "CDS") (codes "0 0 0 00")
          ++ rr_line apex 86400 (codes "CDNSKEY") (codes "0 3 0 AA=="))
      else key_text zone zone_root

  unfoldable pub generate_zone_header : HeaderZone → E.Label → Result Bytes
  unfolding primary_ns ns_names ns_line soa_line concat trust_text
  generate_zone_header zone zone_root = do
    primary ← primary_ns zone.custom_ns
    trust ← trust_text zone zone_root
    ok (
        codes "$ORIGIN "
        ++ (T.str_label zone_root
            ++ (newline
                ++ (soa_line primary
                    ++ (concat (map ns_line (ns_names zone.custom_ns)) ++ trust)))))
