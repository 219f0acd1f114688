-- ===== src/ZoneFile/Records.antt =====
-- The lines of the tables that generate_fzone of tasks.py writes behind the addresses.
use hexdns.Common.{ℕ, [], ◌∷◌, ◌++◌, Bytes, codes, none, some}
use hexdns.Dns.External.{External}
use hexdns.Dns.Store.{Row, Mx, Srv, Caa, Naptr, Sshfp, Ds, Hinfo, Rp}
use hexdns.Dns.Records.{sshfp_algo}
use hexdns.ZoneFile.Strings.{show}
use hexdns.ZoneFile.Lines.{Texts, rr_line, quoted, words, hex, idna_label, comment, with_name}

-- `DNSKEYRecord`
pub record DnskeyColumns : Type 0 where
  pub flags : ℕ
  pub protocol : ℕ
  pub algorithm : ℕ
  pub public_key : Bytes

module _ ⦃E : External⦄ ⦃T : Texts⦄ where
  -- f"{dnslib.DNSLabel(name)}"
  abbrev pub label_text : Bytes → Bytes
  label_text name = T.str_label (E.of_str name)

  unfoldable pub mx_text : Row Mx → Bytes
  unfolding with_name idna_label comment rr_line words show
  mx_text r = with_name (idna_label r.record_name) λ name.
      comment (codes "MX record") (codes "hexdns_zonemxrecord") r.pk
      ++ rr_line name r.ttl (codes "MX")
          (words (show r.body.priority ∷ label_text r.body.exchange ∷ []))

  unfoldable pub ns_text : Row Bytes → Bytes
  unfolding with_name idna_label comment rr_line
  ns_text r = with_name (idna_label r.record_name) λ name.
      comment (codes "NS record") (codes "hexdns_zonensrecord") r.pk
      ++ rr_line name r.ttl (codes "NS") (label_text r.body)

  unfoldable pub txt_text : Row Bytes → Bytes
  unfolding with_name idna_label comment rr_line quoted
  txt_text r = with_name (idna_label r.record_name) λ name.
      comment (codes "TXT record") (codes "hexdns_zonetxtrecord") r.pk
      ++ rr_line name r.ttl (codes "TXT") (quoted r.body)

  unfoldable pub srv_text : Row Srv → Bytes
  unfolding with_name idna_label comment rr_line words show
  srv_text r = with_name (idna_label r.record_name) λ name.
      comment (codes "SRV record") (codes "hexdns_zonesrvrecord") r.pk
      ++ rr_line name r.ttl (codes "SRV") (
          words (
            show r.body.priority
            ∷ show r.body.weight
            ∷ show r.body.port
            ∷ label_text r.body.target
            ∷ []))

  unfoldable pub caa_text : Row Caa → Bytes
  unfolding with_name idna_label comment rr_line words show quoted
  caa_text r = with_name (idna_label r.record_name) λ name.
      comment (codes "CAA record") (codes "hexdns_zonecaarecord") r.pk
      ++ rr_line name r.ttl (codes "CAA")
          (words (show r.body.flag ∷ quoted r.body.tag ∷ quoted r.body.value ∷ []))

  unfoldable pub naptr_text : Row Naptr → Bytes
  unfolding with_name idna_label comment rr_line words show quoted
  naptr_text r = with_name (idna_label r.record_name) λ name.
      comment (codes "NAPTR record") (codes "hexdns_zonenaptrrecord") r.pk
      ++ rr_line name r.ttl (codes "NAPTR") (
          words (
            show r.body.order
            ∷ show r.body.preference
            ∷ quoted r.body.flags
            ∷ quoted r.body.service
            ∷ quoted r.body.regexp
            ∷ label_text r.body.replacement
            ∷ []))

  unfoldable pub sshfp_text : Row Sshfp → Bytes
  unfolding with_name idna_label comment rr_line words show hex sshfp_algo
  sshfp_text r = with_name (idna_label r.record_name) λ name. elim (sshfp_algo r.body.key_type) [
    | none ↦ []
    | some algo ↦
        comment (codes "SSHFP record") (codes "hexdns_zonesshfprecord") r.pk
        ++ (rr_line name r.ttl (codes "SSHFP")
              (words (show algo ∷ codes "1" ∷ hex (E.sha1 r.body.decoded_key) ∷ []))
            ++ rr_line name r.ttl (codes "SSHFP")
                (words (show algo ∷ codes "2" ∷ hex (E.sha256 r.body.decoded_key) ∷ [])))
  ]

  -- The digest column as it stands, by the row's key.
  unfoldable pub ds_text : (ℕ → Bytes) → Row Ds → Bytes
  unfolding with_name idna_label comment rr_line words show
  ds_text digest r = with_name (idna_label r.record_name) λ name.
      comment (codes "DS record") (codes "hexdns_zonedsrecord") r.pk
      ++ rr_line name r.ttl (codes "DS") (
          words (
            show r.body.key_tag
            ∷ show r.body.algorithm
            ∷ show r.body.digest_type
            ∷ digest r.pk
            ∷ []))

  unfoldable pub dnskey_text : Row DnskeyColumns → Bytes
  unfolding with_name idna_label comment rr_line words show
  dnskey_text r = with_name (idna_label r.record_name) λ name.
      comment (codes "DNSKEY record") (codes "hexdns_zonednskeyrecord") r.pk
      ++ rr_line name r.ttl (codes "DNSKEY") (
          words (
            show r.body.flags
            ∷ show r.body.protocol
            ∷ show r.body.algorithm
            ∷ r.body.public_key
            ∷ []))

  unfoldable pub hinfo_text : Row Hinfo → Bytes
  unfolding with_name idna_label comment rr_line words quoted
  hinfo_text r = with_name (idna_label r.record_name) λ name.
      comment (codes "HINFO record") (codes "hexdns_zonehinforecord") r.pk
      ++ rr_line name r.ttl (codes "HINFO") (words (quoted r.body.cpu ∷ quoted r.body.os ∷ []))

  unfoldable pub rp_text : Row Rp → Bytes
  unfolding with_name idna_label comment rr_line words
  rp_text r = with_name (idna_label r.record_name) λ name.
      comment (codes "RP record") (codes "hexdns_zonerprecord") r.pk
      ++ rr_line name r.ttl (codes "RP")
          (words (label_text r.body.mailbox ∷ label_text r.body.txt ∷ []))

  unfoldable pub dhcid_text : Row Bytes → Bytes
  unfolding with_name idna_label comment rr_line
  dhcid_text r = with_name (idna_label r.record_name) λ name.
      comment (codes "DHCID record") (codes "hexdns_zonedhcidrecord") r.pk
      ++ rr_line name r.ttl (codes "DHCID") (T.b64encode r.body)
