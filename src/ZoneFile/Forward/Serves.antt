-- ===== src/ZoneFile/Forward/Serves.antt =====
-- A zone file serves what the `to_rr` methods make of the zone's rows.
use mathlib.Core.List.{Memᴰ}
use mathlib.Core.List.Memᴰ
use hexdns.Common.{ℕ, ◌≡◌, refl, List, [], ◌∷◌, Bytes, some, Result, ok, err, >>=-eq-ok}
use hexdns.Dns.External.{External}
use hexdns.Dns.Message.{Ip, Rr}
use hexdns.Dns.Store.{Row, Zone, Db, Mx, Srv, Caa, Naptr, Sshfp, Rp}
use hexdns.Dns.Records.{
  address_to_rr, mx_to_rr, ns_to_rr, srv_to_rr, caa_to_rr, naptr_to_rr, sshfp_to_rrs, rp_to_rr,
}
use hexdns.Tsig.{Outside}
use hexdns.ZoneFile.Keys.{Packing}
use hexdns.ZoneFile.Lines.{Texts, concat, idna_label, section}
use hexdns.ZoneFile.Header.{HeaderZone, generate_zone_header}
use hexdns.ZoneFile.Addresses.{address_text}
use hexdns.ZoneFile.Records.{
  dhcid_text, mx_text, ns_text, srv_text, caa_text, naptr_text, sshfp_text, rp_text,
}
use hexdns.ZoneFile.Loc.{Floats}
use hexdns.ZoneFile.Services.{https_section}
use hexdns.ZoneFile.Forward.{
  set_all, Extra, address_sections, service_sections, key_sections, after_header, generate_fzone,
}
use hexdns.ZoneFile.Forward.Presented.{Infix, Infix-left, Infix-right, presented}
use hexdns.ZoneFile.Forward.Rows.{
  mx_text-presented, ns_text-presented, srv_text-presented, caa_text-presented,
  naptr_text-presented, rp_text-presented, address_text-presented, sshfp_text-presented,
}

ok_inj : {a b : Bytes} → ◌≡◌ {A = Result Bytes} (ok a) (ok b) → a ≡ b
ok_inj h = cc h

module _ ⦃E : External⦄ ⦃T : Texts⦄ where
  -- The rows of the zone, with the records that their to_rr makes for a name.
  pub data Serves (db : Db) (zone : Zone) (query_name : E.Label) : Bytes → List Rr → Type 0 where
    of_address :
        (r : Row Ip)
        → Memᴰ r (set_all zone db.address)
        → Serves db zone query_name r.record_name (address_to_rr query_name r ∷ [])
    of_mx :
        (r : Row Mx)
        → Memᴰ r (set_all zone db.mx)
        → Serves db zone query_name r.record_name (mx_to_rr query_name r ∷ [])
    of_ns :
        (r : Row Bytes)
        → Memᴰ r (set_all zone db.ns)
        → Serves db zone query_name r.record_name (ns_to_rr query_name r ∷ [])
    of_srv :
        (r : Row Srv)
        → Memᴰ r (set_all zone db.srv)
        → Serves db zone query_name r.record_name (srv_to_rr query_name r ∷ [])
    of_caa :
        (r : Row Caa)
        → Memᴰ r (set_all zone db.caa)
        → Serves db zone query_name r.record_name (caa_to_rr query_name r ∷ [])
    of_naptr :
        (r : Row Naptr)
        → Memᴰ r (set_all zone db.naptr)
        → Serves db zone query_name r.record_name (naptr_to_rr query_name r ∷ [])
    of_sshfp :
        (r : Row Sshfp)
        → Memᴰ r (set_all zone db.sshfp)
        → Serves db zone query_name r.record_name (sshfp_to_rrs query_name r)
    of_rp :
        (r : Row Rp)
        → Memᴰ r (set_all zone db.rp)
        → Serves db zone query_name r.record_name (rp_to_rr query_name r ∷ [])

  -- What a row writes stands in the text of its table.
  section-Infix :
      {D : Type 0} (write : Row D → Bytes) (r : Row D) (rows : List (Row D)) (part : Bytes)
      → Memᴰ r rows
      → Infix part (write r)
      → Infix part (section write rows)
  unfolding section
  section-Infix write r [] part m h = absurd (Memᴰ.not-nil m)
  section-Infix write r (s ∷ rows) part (Memᴰ.head e) h =
      Infix-left part (write s) (section write rows) (rw e at h)
  section-Infix write r (s ∷ rows) part (Memᴰ.tail m) h =
      Infix-right part (write s) (section write rows) (section-Infix write r rows part m h)

  -- What stands in a section stands in the text of them all.
  concat-Infix :
      (part text : Bytes) (texts : List Bytes)
      → Memᴰ text texts
      → Infix part text
      → Infix part (concat texts)
  unfolding concat
  concat-Infix part text [] m h = absurd (Memᴰ.not-nil m)
  concat-Infix part text (t ∷ texts) (Memᴰ.head e) h = Infix-left part t (concat texts) (rw e at h)
  concat-Infix part text (t ∷ texts) (Memᴰ.tail m) h =
      Infix-right part t (concat texts) (concat-Infix part text texts m h)

  module _ ⦃F : Floats⦄ where
    sections-Infix :
        (db : Db) (extra : Extra) (zone : Zone) (query_name : E.Label) (record_name : Bytes)
        (rrs : List Rr) (c : ℕ) (cs : Bytes)
        → Serves db zone query_name record_name rrs
        → idna_label record_name ≡ some (c ∷ cs)
        → (header : Bytes) (rest : List Bytes)
        → Infix (presented (c ∷ cs) rrs) (
            concat (
              header
              ∷ concat (address_sections db extra zone)
              ∷ concat (service_sections db zone)
              ∷ concat (key_sections db extra zone)
              ∷ rest))
    unfolding address_sections service_sections key_sections
    sections-Infix db extra zone q record_name rrs c cs (of_address r m) h before rest =
        concat-Infix _ _ _ (Memᴰ.tail (Memᴰ.head refl)) (
          concat-Infix _ _ _ (Memᴰ.head refl) (
            section-Infix address_text r (set_all zone db.address) _ m
              (address_text-presented r q c cs h)))
    sections-Infix db extra zone q record_name rrs c cs (of_mx r m) h before rest =
        concat-Infix _ _ _ (Memᴰ.tail (Memᴰ.tail (Memᴰ.head refl))) (
          concat-Infix _ _ _ (Memᴰ.head refl)
            (section-Infix mx_text r (set_all zone db.mx) _ m (mx_text-presented r q c cs h)))
    sections-Infix db extra zone q record_name rrs c cs (of_ns r m) h before rest =
        concat-Infix _ _ _ (Memᴰ.tail (Memᴰ.tail (Memᴰ.head refl))) (
          concat-Infix _ _ _ (Memᴰ.tail (Memᴰ.head refl))
            (section-Infix ns_text r (set_all zone db.ns) _ m (ns_text-presented r q c cs h)))
    sections-Infix db extra zone q record_name rrs c cs (of_srv r m) h before rest =
        concat-Infix _ _ _ (Memᴰ.tail (Memᴰ.tail (Memᴰ.head refl))) (
          concat-Infix _ _ _ (Memᴰ.tail (Memᴰ.tail (Memᴰ.tail (Memᴰ.head refl))))
            (section-Infix srv_text r (set_all zone db.srv) _ m (srv_text-presented r q c cs h)))
    sections-Infix db extra zone q record_name rrs c cs (of_caa r m) h before rest =
        concat-Infix _ _ _ (Memᴰ.tail (Memᴰ.tail (Memᴰ.head refl))) (
          concat-Infix _ _ _ (Memᴰ.tail (Memᴰ.tail (Memᴰ.tail (Memᴰ.tail (Memᴰ.head refl)))))
            (section-Infix caa_text r (set_all zone db.caa) _ m (caa_text-presented r q c cs h)))
    sections-Infix db extra zone q record_name rrs c cs (of_naptr r m) h before rest =
        concat-Infix _ _ _ (Memᴰ.tail (Memᴰ.tail (Memᴰ.head refl))) (
          concat-Infix _ _ _
            (Memᴰ.tail (Memᴰ.tail (Memᴰ.tail (Memᴰ.tail (Memᴰ.tail (Memᴰ.head refl))))))
            (section-Infix naptr_text r (set_all zone db.naptr) _ m
              (naptr_text-presented r q c cs h)))
    sections-Infix db extra zone q record_name rrs c cs (of_sshfp r m) h before rest =
        concat-Infix _ _ _ (Memᴰ.tail (Memᴰ.tail (Memᴰ.tail (Memᴰ.head refl)))) (
          concat-Infix _ _ _ (Memᴰ.head refl) (
            section-Infix sshfp_text r (set_all zone db.sshfp) _ m
              (sshfp_text-presented r q c cs h)))
    sections-Infix db extra zone q record_name rrs c cs (of_rp r m) h before rest =
        concat-Infix _ _ _ (Memᴰ.tail (Memᴰ.tail (Memᴰ.tail (Memᴰ.head refl)))) (
          concat-Infix _ _ _
            (Memᴰ.tail (Memᴰ.tail (Memᴰ.tail (Memᴰ.tail (Memᴰ.tail (Memᴰ.head refl))))))
            (section-Infix rp_text r (set_all zone db.rp) _ m (rp_text-presented r q c cs h)))

    module _ ⦃O : Outside⦄ ⦃P : Packing⦄ where
      -- When a zone file is written, then each row of the zone's tables of addresses, MX, NS, SRV, CAA,
      -- NAPTR, SSHFP and RP records whose name can be encoded has in it the lines of the records that
      -- its to_rr makes, under that name.
      pub generate_fzone-Serves :
          (db : Db) (extra : Extra) (header : HeaderZone) (zone : Zone) (query_name : E.Label)
          (text : Bytes) (record_name : Bytes) (rrs : List Rr) (c : ℕ) (cs : Bytes)
          → (generate_fzone db extra header zone).zone_file ≡ ok text
          → Serves db zone query_name record_name rrs
          → idna_label record_name ≡ some (c ∷ cs)
          → Infix (presented (c ∷ cs) rrs) text
      unfolding generate_fzone
      generate_fzone-Serves db extra header zone query_name text record_name rrs c cs is serves
            named =
          by_header (generate_zone_header header (E.of_str zone.zone_root)) is
        where
          by_header :
              (made : Result Bytes)
              → (after_header db extra zone made).zone_file ≡ ok text
              → Infix (presented (c ∷ cs) rrs) text
          by_header (err e) is_text = cc
          by_header (ok made) is_text =
              let (https, written, same) =
                >>=-eq-ok (https_section (set_all zone db.https)) _ is_text in
              rw (ok_inj same) at (
                sections-Infix db extra zone query_name record_name rrs c cs serves named made
                  (https ∷ section dhcid_text (set_all zone db.dhcid) ∷ []))
