-- ===== src/ZoneFile/Forward.antt =====
-- generate_fzone of tasks.py.
pub mod Presented
pub mod Rows
pub mod Serves
use hexdns.Common.{
  ℕ, Bool, true, false, ◌==◌, ◌&&◌, if◌then◌else◌, List, [], ◌∷◌, ◌++◌, Bytes, Option, none, some,
  Result, ok, err, ◌>>=◌,
}
use hexdns.Dns.External.{External}
use hexdns.Dns.Message.{Ip, v4, v6}
use hexdns.Dns.Store.{Row, Zone, Db}
use hexdns.Tsig.{Outside}
use hexdns.ZoneFile.Keys.{Packing}
use hexdns.ZoneFile.Lines.{Texts, concat, idna_label, section}
use hexdns.ZoneFile.Header.{HeaderZone, generate_zone_header}
use hexdns.ZoneFile.Addresses.{
  address_text, dynamic_text, aname_text, github_text, cname_text, redirect_text,
}
use hexdns.ZoneFile.Records.{
  DnskeyColumns, mx_text, ns_text, txt_text, srv_text, caa_text, naptr_text, sshfp_text, ds_text,
  dnskey_text, hinfo_text, rp_text, dhcid_text,
}
use hexdns.ZoneFile.Loc.{Floats, LocColumns, loc_text}
use hexdns.ZoneFile.Services.{https_section}

-- `zone.…_set.all()`
abbrev pub set_all : {D : Type 0} ⦃E : External⦄ → Zone → List (Row D) → List (Row D)
set_all {D} ⦃E⦄ zone table = E.filter (Row D) (λ r. r.zone == zone.id) table

-- The tables and columns that only tasks.py reads: `auto_reverse` of an address and `digest` of a DS
-- record by the row's key, and the reverse zones that an address lies in.
pub record Extra ⦃F : Floats⦄ : Type 0 where
  pub auto_reverse : ℕ → Bool
  pub ds_digest : ℕ → Bytes
  pub github : List (Row (Unit {0}))
  pub dnskey : List (Row DnskeyColumns)
  pub loc : List (Row LocColumns)
  pub reverse_zones : Ip → List ℕ

-- What generate_fzone comes to: the text or an exception, and the reverse zones queued until then to
-- be written out.
pub record Generated : Type 0 where
  pub zone_file : Result Bytes
  pub queued : List ℕ

-- `if record_name: …`
unfoldable pub is_written : Option Bytes → Bool
is_written none = false
is_written (some []) = false
is_written (some (c ∷ cs)) = true

module _ ⦃F : Floats⦄ ⦃E : External⦄ ⦃T : Texts⦄ where
  -- What the loop over the addresses adds to `rzones`.
  unfoldable pub reverse_ids : Extra → List (Row Ip) → List ℕ
  unfolding is_written idna_label
  reverse_ids extra [] = []
  reverse_ids extra (r ∷ rs) =
      let rest = reverse_ids extra rs in
      if is_written (idna_label r.record_name) && extra.auto_reverse r.pk
      then extra.reverse_zones r.body ++ rest
      else rest

  -- The sections up to the redirects.
  unfoldable pub address_sections : Db → Extra → Zone → List Bytes
  unfolding section address_text dynamic_text aname_text github_text cname_text redirect_text
  address_sections db extra zone =
      let zone_root = E.of_str zone.zone_root in
      section address_text (set_all zone db.address)
      ∷ section dynamic_text (set_all zone db.dynamic)
      ∷ section (aname_text zone_root (set_all zone db.address)) (set_all zone db.aname)
      ∷ section github_text (set_all zone extra.github)
      ∷ section (cname_text zone_root) (set_all zone db.cname)
      ∷ section redirect_text (set_all zone db.redirect)
      ∷ []

  -- The sections from the MX records to the NAPTR records.
  unfoldable pub service_sections : Db → Zone → List Bytes
  unfolding section mx_text ns_text txt_text srv_text caa_text naptr_text
  service_sections db zone =
      section mx_text (set_all zone db.mx)
      ∷ section ns_text (set_all zone db.ns)
      ∷ section txt_text (set_all zone db.txt)
      ∷ section srv_text (set_all zone db.srv)
      ∷ section caa_text (set_all zone db.caa)
      ∷ section naptr_text (set_all zone db.naptr)
      ∷ []

  -- The sections from the SSHFP records to the RP records.
  unfoldable pub key_sections : Db → Extra → Zone → List Bytes
  unfolding section sshfp_text ds_text dnskey_text loc_text hinfo_text rp_text
  key_sections db extra zone =
      section sshfp_text (set_all zone db.sshfp)
      ∷ section (ds_text extra.ds_digest) (set_all zone db.ds)
      ∷ section dnskey_text (set_all zone extra.dnskey)
      ∷ section loc_text (set_all zone extra.loc)
      ∷ section hinfo_text (set_all zone db.hinfo)
      ∷ section rp_text (set_all zone db.rp)
      ∷ []

  module _ ⦃O : Outside⦄ ⦃P : Packing⦄ where
    -- What follows the header.
    unfoldable pub after_header : Db → Extra → Zone → Result Bytes → Generated
    unfolding reverse_ids address_sections service_sections key_sections https_section section
        dhcid_text concat
    after_header db extra zone (err e) = record { zone_file = err e; queued = [] }
    after_header db extra zone (ok header) = record {
      zone_file = do
        https ← https_section (set_all zone db.https)
        ok (
            concat (
              header
              ∷ concat (address_sections db extra zone)
              ∷ concat (service_sections db zone)
              ∷ concat (key_sections db extra zone)
              ∷ https
              ∷ section dhcid_text (set_all zone db.dhcid)
              ∷ []));
      queued = T.elements (reverse_ids extra (set_all zone db.address));
    }

    unfoldable pub generate_fzone : Db → Extra → HeaderZone → Zone → Generated
    unfolding generate_zone_header after_header
    generate_fzone db extra header_zone zone =
        after_header db extra zone (generate_zone_header header_zone (E.of_str zone.zone_root))
