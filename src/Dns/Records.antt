-- ===== src/Dns/Records.antt =====
-- The `to_rr` methods of the rows of models.py. An `RR` takes the name that was asked for, the type,
-- the data and the row's time to live.
use hexdns.Common.{
  ℕ, zero, suc, Bool, true, false, ◌==◌, ◌&&◌, if◌then◌else◌, List, [], ◌∷◌, ◌++◌, map, Bytes,
  codes, bytes_eq, Option, none, some,
}
use hexdns.Utf8.{encode_text}
use hexdns.Dns.External.{External}
use hexdns.Dns.Qtype
use hexdns.Dns.Message.{
  Ip, v4, v6, Rdata, a_rd, aaaa_rd, cname_rd, ns_rd, dhcid_rd, txt_rd, mx_rd, srv_rd, caa_rd,
  naptr_rd, sshfp_rd, ds_rd, loc_rd, rp_rd, https_rd, Rr,
}
use hexdns.Dns.Store.{Row, Dynamic, Redirect, Mx, Srv, Caa, Naptr, Sshfp, Ds, Hinfo, Rp, Https}

-- `[data[i: i + 255].encode() for i in range(0, len(data), 255)]`: the count is what still fits
-- the current slice, and `slice` what stands in it so far.
unfoldable pub slices : ℕ → Bytes → Bytes → List Bytes
slices room slice [] = elim slice [ [] ↦ [] | c ∷ cs ↦ (c ∷ cs) ∷ [] ]
slices zero slice (c ∷ cs) = slice ∷ slices 254 (c ∷ []) cs
slices (suc room) slice (c ∷ cs) = slices room (slice ++ c ∷ []) cs

unfoldable pub txt_chunks : Bytes → List Bytes
unfolding slices encode_text
txt_chunks text = map encode_text (slices 255 [] text)

-- `key_type.startswith(b"ecdsa-sha")`
unfoldable pub is_prefix : Bytes → Bytes → Bool
is_prefix [] text = true
is_prefix (p ∷ ps) [] = false
is_prefix (p ∷ ps) (c ∷ cs) = p == c && is_prefix ps cs

-- The algorithm number of an SSH key, if its type has one.
unfoldable pub sshfp_algo : Bytes → Option ℕ
unfolding is_prefix
sshfp_algo key_type =
    if bytes_eq key_type (codes "ssh-rsa")
    then some 1
    else if bytes_eq key_type (codes "ssh-dsa")
    then some 2
    else if is_prefix (codes "ecdsa-sha") key_type
    then some 3
    else if bytes_eq key_type (codes "ssh-ed25519")
    then some 4
    else none

module _ ⦃E : External⦄ where
  abbrev pub make_rr : E.Label → ℕ → Rdata → ℕ → Rr
  make_rr rname rtype rdata ttl = record { rname = rname; rtype = rtype; rdata = rdata; ttl = ttl }

  -- `AddressRecord.to_rr`
  unfoldable pub address_to_rr : E.Label → Row Ip → Rr
  address_to_rr query_name r = elim r.body [
    | v4 text ↦ make_rr query_name Qtype.a (a_rd text) r.ttl
    | v6 text ↦ make_rr query_name Qtype.aaaa (aaaa_rd text) r.ttl
  ]

  -- `DynamicAddressRecord.to_rr_v4` and `to_rr_v6`
  unfoldable pub dynamic_to_rr_v4 : E.Label → Row Dynamic → Option Rr
  dynamic_to_rr_v4 query_name r = elim r.body.current_ipv4 [
    | none ↦ none
    | some text ↦ some (make_rr query_name Qtype.a (a_rd text) r.ttl)
  ]

  unfoldable pub dynamic_to_rr_v6 : E.Label → Row Dynamic → Option Rr
  dynamic_to_rr_v6 query_name r = elim r.body.current_ipv6 [
    | none ↦ none
    | some text ↦ some (make_rr query_name Qtype.aaaa (aaaa_rd text) r.ttl)
  ]

  -- `CNAMERecord.to_rr`
  unfoldable pub cname_to_rr : E.Label → Row Bytes → Rr
  cname_to_rr query_name r = make_rr query_name Qtype.cname (cname_rd r.body) r.ttl

  -- `RedirectRecord.to_rr_v4`, `to_rr_v6` and `to_rr_caa`
  unfoldable pub redirect_to_rr_v4 : E.Label → Row Redirect → Rr
  redirect_to_rr_v4 query_name r = make_rr query_name Qtype.a (a_rd (codes "45.129.95.254")) r.ttl

  unfoldable pub redirect_to_rr_v6 : E.Label → Row Redirect → Rr
  redirect_to_rr_v6 query_name r =
      make_rr query_name Qtype.aaaa (aaaa_rd (codes "2a0e:1cc1:1::1:7")) r.ttl

  unfoldable pub redirect_to_rr_caa : E.Label → Row Redirect → Rr
  redirect_to_rr_caa query_name r =
      make_rr query_name Qtype.caa (caa_rd 0 (codes "issue") (codes "letsencrypt.org")) r.ttl

  -- `MXRecord.to_rr`
  unfoldable pub mx_to_rr : E.Label → Row Mx → Rr
  mx_to_rr query_name r = make_rr query_name Qtype.mx (mx_rd r.body.exchange r.body.priority) r.ttl

  -- `NSRecord.to_rr`
  unfoldable pub ns_to_rr : E.Label → Row Bytes → Rr
  ns_to_rr query_name r = make_rr query_name Qtype.ns (ns_rd r.body) r.ttl

  -- `TXTRecord.to_rr`
  unfoldable pub txt_to_rr : E.Label → Row Bytes → Rr
  unfolding txt_chunks
  txt_to_rr query_name r = make_rr query_name Qtype.txt (txt_rd (txt_chunks r.body)) r.ttl

  -- `SRVRecord.to_rr`
  unfoldable pub srv_to_rr : E.Label → Row Srv → Rr
  srv_to_rr query_name r =
      make_rr query_name Qtype.srv (srv_rd r.body.priority r.body.weight r.body.port r.body.target)
        r.ttl

  -- `CAARecord.to_rr`
  unfoldable pub caa_to_rr : E.Label → Row Caa → Rr
  caa_to_rr query_name r =
      make_rr query_name Qtype.caa (caa_rd r.body.flag r.body.tag r.body.value) r.ttl

  -- `NAPTRRecord.to_rr`
  unfoldable pub naptr_to_rr : E.Label → Row Naptr → Rr
  naptr_to_rr query_name r =
      make_rr query_name Qtype.naptr
        (naptr_rd r.body.order r.body.preference r.body.flags r.body.service r.body.regexp
          r.body.replacement)
        r.ttl

  -- `SSHFPRecord.to_rrs`
  unfoldable pub sshfp_to_rrs : E.Label → Row Sshfp → List Rr
  unfolding sshfp_algo
  sshfp_to_rrs query_name r = elim (sshfp_algo r.body.key_type) [
    | none ↦ []
    | some algo ↦
        make_rr query_name Qtype.sshfp (sshfp_rd algo 1 (E.sha1 r.body.decoded_key)) r.ttl
        ∷ make_rr query_name Qtype.sshfp (sshfp_rd algo 2 (E.sha256 r.body.decoded_key)) r.ttl
        ∷ []
  ]

  -- `DSRecord.to_rr`: `None` where the digest cannot be read, or is empty.
  unfoldable pub ds_to_rr : E.Label → Row Ds → Option Rr
  ds_to_rr query_name r = elim r.body.digest_bin [
    | none ↦ none
    | some [] ↦ none
    | some (b ∷ bs) ↦ some (
        make_rr query_name Qtype.ds
          (ds_rd r.body.key_tag r.body.algorithm r.body.digest_type (b ∷ bs)) r.ttl)
  ]

  -- `LOCRecord.to_rr`
  unfoldable pub loc_to_rr : E.Label → Row (List Bytes) → Rr
  loc_to_rr query_name r = make_rr query_name Qtype.loc (loc_rd r.body) r.ttl

  -- `HINFORecord.to_rr`
  unfoldable pub hinfo_to_rr : E.Label → Row Hinfo → Rr
  hinfo_to_rr query_name r =
      make_rr query_name Qtype.hinfo (txt_rd (r.body.cpu ∷ r.body.os ∷ [])) r.ttl

  -- `RPRecord.to_rr`
  unfoldable pub rp_to_rr : E.Label → Row Rp → Rr
  rp_to_rr query_name r = make_rr query_name Qtype.rp (rp_rd r.body.mailbox r.body.txt) r.ttl

  -- `HTTPSRecord.to_rr`
  unfoldable pub https_to_rr : E.Label → Row Https → Rr
  https_to_rr query_name r =
      make_rr query_name Qtype.https
        (https_rd r.body.svcb_priority r.body.svcb_target r.body.svcb_params) r.ttl

  -- `DHCIDRecord.to_rr`
  unfoldable pub dhcid_to_rr : E.Label → Row Bytes → Rr
  dhcid_to_rr query_name r = make_rr query_name Qtype.dhcid (dhcid_rd r.body) r.ttl
