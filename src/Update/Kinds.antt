-- ===== src/Update/Kinds.antt =====
-- The methods of the models that an update calls: `to_rr`, `from_rr` and `update_from_rr` of
-- models.py, and the choice of the model by a type. The result of a method is what `save` then
-- finds, since some values are refused only there.
use hexdns.Common.{
  ℕ, ◌+◌, ◌*◌, ◌==◌, ◌||◌, if◌then◌else◌, List, [], ◌∷◌, ◌++◌, map, Bytes, codes, Option, none,
  some, Result, ok, err, type_error, attribute_error, integrity_error, index_error, struct_error,
  ◌>>=◌,
}
use hexdns.Dns.External.{External}
use hexdns.Dns.Qtype
use hexdns.Dns.Message.{
  Ip, v4, v6, Rdata, a_rd, aaaa_rd, cname_rd, ns_rd, rd, txt_rd, mx_rd, srv_rd, caa_rd, naptr_rd,
  Rr,
}
use hexdns.Dns.Store.{Row, Zone, Mx, Srv, Caa, Naptr, Ds, Hinfo, Rp}
use hexdns.Dns.Records.{
  address_to_rr, cname_to_rr, mx_to_rr, ns_to_rr, txt_to_rr, srv_to_rr, caa_to_rr, naptr_to_rr,
  ds_to_rr, loc_to_rr, hinfo_to_rr, rp_to_rr, dhcid_to_rr,
}
use hexdns.Dns.Find.{join_dots}
use hexdns.Update.Request.{Wire}
use hexdns.Update.Tables.{
  Kind, address, mx, ns, txt, srv, caa, naptr, ds, loc, hinfo, rp, cname, dhcid, Body, lower,
}

-- The model of a type, as `get_record_models` and the calls of `from_rr` choose it.
unfoldable pub kind_of : ℕ → Option Kind
kind_of rtype =
    if rtype == Qtype.a || rtype == Qtype.aaaa
    then some address
    else if rtype == Qtype.mx
    then some mx
    else if rtype == Qtype.ns
    then some ns
    else if rtype == Qtype.txt
    then some txt
    else if rtype == Qtype.srv
    then some srv
    else if rtype == Qtype.caa
    then some caa
    else if rtype == Qtype.naptr
    then some naptr
    else if rtype == Qtype.ds
    then some ds
    else if rtype == Qtype.loc
    then some loc
    else if rtype == Qtype.hinfo
    then some hinfo
    else if rtype == Qtype.rp
    then some rp
    else if rtype == Qtype.dhcid
    then some dhcid
    else if rtype == Qtype.cname
    then some cname
    else none

-- `rr.rdata.label`
unfoldable pub label_text : Rdata → Result Bytes
label_text (cname_rd name) = ok name
label_text (ns_rd name) = ok name
label_text (mx_rd name preference) = ok name
label_text _ = err attribute_error

-- `struct.unpack("!HBB", data)`: the data must have exactly four bytes, so that the digest behind
-- them is empty.
unfoldable pub unpack_ds : Bytes → Result Ds
unpack_ds (a ∷ b ∷ algorithm ∷ digest_type ∷ []) = ok (record {
  key_tag = a * 256 + b;
  algorithm = algorithm;
  digest_type = digest_type;
  digest_bin = some [];
})
unpack_ds _ = err struct_error

-- `from_rr` of each model: what it reads off the data.
unfoldable pub mx_data : Rdata → Result Mx
mx_data (mx_rd name preference) = ok (record { exchange = name; priority = preference })
mx_data _ = err attribute_error

unfoldable pub srv_data : Rdata → Result Srv
srv_data (srv_rd p w port target) =
    ok (record { priority = p; weight = w; port = port; target = target })
srv_data _ = err attribute_error

unfoldable pub caa_data : Rdata → Result Caa
caa_data (caa_rd flags tag value) = ok (record { flag = flags; tag = tag; value = value })
caa_data _ = err attribute_error

unfoldable pub naptr_data : Rdata → Result Naptr
naptr_data (naptr_rd order preference flags service regexp replacement) = ok (record {
  order = order;
  preference = preference;
  flags = flags;
  service = service;
  regexp = regexp;
  replacement = replacement;
})
naptr_data _ = err attribute_error

unfoldable pub ds_data : Rdata → Result Ds
unfolding unpack_ds
ds_data (rd content) = unpack_ds content
ds_data _ = err attribute_error

-- `_dec_size` is given the bytes that `_dec_rdata` should have: `bytes & int` is a `TypeError`.
unfoldable pub loc_data : Rdata → Result (List Bytes)
loc_data (rd content) = err type_error
loc_data _ = err attribute_error

unfoldable pub dhcid_data : Rdata → Result Bytes
dhcid_data (rd content) = ok content
dhcid_data _ = err attribute_error

-- The two first strings of `dnslib.TXT.parse`.
unfoldable pub two_strings : (Bytes → Bytes) → Option (List Bytes) → Result Hinfo
two_strings decode none = err struct_error
two_strings decode (some (cpu ∷ os ∷ rest)) = ok (record { cpu = decode cpu; os = decode os })
two_strings decode (some _) = err index_error

module _ ⦃E : External⦄ where
  -- `to_rr`: only that of a DS record can give `None`.
  unfoldable pub to_rr : (k : Kind) → E.Label → Row (Body k) → Option Rr
  unfolding address_to_rr cname_to_rr mx_to_rr ns_to_rr txt_to_rr srv_to_rr caa_to_rr naptr_to_rr
      ds_to_rr loc_to_rr hinfo_to_rr rp_to_rr dhcid_to_rr
  to_rr address name r = some (address_to_rr name r)
  to_rr mx name r = some (mx_to_rr name r)
  to_rr ns name r = some (ns_to_rr name r)
  to_rr txt name r = some (txt_to_rr name r)
  to_rr srv name r = some (srv_to_rr name r)
  to_rr caa name r = some (caa_to_rr name r)
  to_rr naptr name r = some (naptr_to_rr name r)
  to_rr ds name r = ds_to_rr name r
  to_rr loc name r = some (loc_to_rr name r)
  to_rr hinfo name r = some (hinfo_to_rr name r)
  to_rr rp name r = some (rp_to_rr name r)
  to_rr cname name r = some (cname_to_rr name r)
  to_rr dhcid name r = some (dhcid_to_rr name r)

  -- `DNSZoneRecord.dns_label_to_record_name`
  unfoldable pub dns_label_to_record_name : E.Label → Zone → Bytes
  unfolding join_dots lower
  dns_label_to_record_name rname zone =
      let zone_name = E.of_str zone.zone_root in
      if E.label_eq zone_name rname
      then codes "@"
      else join_dots (map lower (E.label (E.strip_suffix rname zone_name)))

  module _ ⦃W : Wire⦄ where
    -- `str(rr.rdata)`; a text that is no address is refused by the database.
    unfoldable pub address_data : Option Rdata → Result Ip
    address_data (some (a_rd text)) = ok (v4 text)
    address_data (some (aaaa_rd text)) = ok (v6 text)
    address_data _ = err integrity_error

    unfoldable pub txt_data : Rdata → Result Bytes
    txt_data (txt_rd []) = ok []
    txt_data (txt_rd (s ∷ ss)) = do rest ← txt_data (txt_rd ss); ok (W.decode_replace s ++ rest)
    txt_data _ = err attribute_error

    -- Two calls of `DNSBuffer.decode_name`.
    unfoldable pub two_names : Bytes → Result Rp
    two_names text = elim (W.decode_name text) [
      | none ↦ err struct_error
      | some (mailbox, rest) ↦ elim (W.decode_name rest) [
        | none ↦ err struct_error
        | some (name, rest') ↦ ok (record { mailbox = mailbox; txt = name })
      ]
    ]

    unfoldable pub hinfo_data : Rdata → Result Hinfo
    unfolding two_strings
    hinfo_data (rd content) = two_strings W.decode_replace (W.parse_strings content)
    hinfo_data _ = err attribute_error

    unfoldable pub rp_data : Rdata → Result Rp
    unfolding two_names
    rp_data (rd content) = two_names content
    rp_data _ = err attribute_error

    -- The columns that `from_rr` reads off the data.
    unfoldable pub from_data : (k : Kind) → Rdata → Result (Body k)
    unfolding label_text mx_data srv_data caa_data naptr_data ds_data loc_data dhcid_data hinfo_data
        rp_data txt_data address_data
    from_data address content = address_data (some content)
    from_data mx content = mx_data content
    from_data ns content = label_text content
    from_data txt content = txt_data content
    from_data srv content = srv_data content
    from_data caa content = caa_data content
    from_data naptr content = naptr_data content
    from_data ds content = ds_data content
    from_data loc content = loc_data content
    from_data hinfo content = hinfo_data content
    from_data rp content = rp_data content
    from_data cname content = label_text content
    from_data dhcid content = dhcid_data content

    -- The body of a new row: an error inside is the one that its `save` raises.
    unfoldable pub new_body : (k : Kind) → Option Rdata → Result (Result (Body k))
    unfolding from_data
    new_body address content = ok (address_data content)
    new_body _ none = err attribute_error
    new_body k (some content) = do body ← from_data k content; ok (ok body)

    -- `update_from_rr`: that of a NAPTR record assigns tuples to four columns, which `save` refuses.
    unfoldable pub updated_body : (k : Kind) → Rdata → Result (Result (Body k))
    unfolding new_body
    updated_body naptr content = do body ← from_data naptr content; ok (err type_error)
    updated_body k content = new_body k (some content)
