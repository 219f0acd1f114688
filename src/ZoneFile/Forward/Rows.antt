-- ===== src/ZoneFile/Forward/Rows.antt =====
-- What tasks.py writes for a row is what its `to_rr` makes.
use hexdns.Common.{
  ℕ, ◌≡◌, refl, inl, inr, [], ◌∷◌, ◌++◌, append-nil, Bytes, codes, Option, some, Option-cases,
}
use hexdns.Dns.External.{External}
use hexdns.Dns.Qtype
use hexdns.Dns.Message.{Ip, v4, v6, sshfp_rd, Rr}
use hexdns.Dns.Store.{Row, Mx, Srv, Caa, Naptr, Sshfp, Rp}
use hexdns.Dns.Records.{
  make_rr, address_to_rr, mx_to_rr, ns_to_rr, srv_to_rr, caa_to_rr, naptr_to_rr, sshfp_to_rrs,
  rp_to_rr, sshfp_algo,
}
use hexdns.ZoneFile.Strings.{show}
use hexdns.ZoneFile.Lines.{Texts, rr_line, words, quoted, idna_label, comment, with_name}
use hexdns.ZoneFile.Addresses.{address_text, ip_line}
use hexdns.ZoneFile.Records.{
  label_text, mx_text, ns_text, srv_text, caa_text, naptr_text, sshfp_text, rp_text,
}
use hexdns.ZoneFile.Forward.Presented.{Infix, Infix-tail, none-Infix, type_name, present, presented}

module _ ⦃E : External⦄ ⦃T : Texts⦄ where
  with_name-some :
      (label : Option Bytes) (c : ℕ) (cs : Bytes) (write : Bytes → Bytes)
      → label ≡ some (c ∷ cs)
      → with_name label write ≡ write (c ∷ cs)
  unfolding with_name
  with_name-some label c cs write e = rw e refl

  -- The line of a record behind its comment.
  one-Infix :
      (label : Option Bytes) (c : ℕ) (cs : Bytes) (note : Bytes) (line : Bytes → Bytes) (rr : Rr)
      → label ≡ some (c ∷ cs)
      → line (c ∷ cs) ≡ rr_line (c ∷ cs) rr.ttl (type_name rr.rtype) (present rr.rdata)
      → Infix (presented (c ∷ cs) (rr ∷ [])) (with_name label (λ name. note ++ line name))
  unfolding presented
  one-Infix label c cs note line rr h same =
      rw
        (
          with_name-some label c cs (λ name. note ++ line name) h,
          same,
          append-nil (rr_line (c ∷ cs) rr.ttl (type_name rr.rtype) (present rr.rdata)),
        )
        (Infix-tail (rr_line (c ∷ cs) rr.ttl (type_name rr.rtype) (present rr.rdata)) note)

  pub mx_text-presented :
      (r : Row Mx) (query_name : E.Label) (c : ℕ) (cs : Bytes)
      → idna_label r.record_name ≡ some (c ∷ cs)
      → Infix (presented (c ∷ cs) (mx_to_rr query_name r ∷ [])) (mx_text r)
  unfolding mx_text mx_to_rr type_name present
  mx_text-presented r query_name c cs h =
      one-Infix (idna_label r.record_name) c cs
        (comment (codes "MX record") (codes "hexdns_zonemxrecord") r.pk)
        (λ name.
          rr_line name r.ttl (codes "MX")
            (words (show r.body.priority ∷ label_text r.body.exchange ∷ [])))
        (mx_to_rr query_name r) h refl

  pub ns_text-presented :
      (r : Row Bytes) (query_name : E.Label) (c : ℕ) (cs : Bytes)
      → idna_label r.record_name ≡ some (c ∷ cs)
      → Infix (presented (c ∷ cs) (ns_to_rr query_name r ∷ [])) (ns_text r)
  unfolding ns_text ns_to_rr type_name present
  ns_text-presented r query_name c cs h =
      one-Infix (idna_label r.record_name) c cs
        (comment (codes "NS record") (codes "hexdns_zonensrecord") r.pk)
        (λ name. rr_line name r.ttl (codes "NS") (label_text r.body)) (ns_to_rr query_name r) h refl

  pub srv_text-presented :
      (r : Row Srv) (query_name : E.Label) (c : ℕ) (cs : Bytes)
      → idna_label r.record_name ≡ some (c ∷ cs)
      → Infix (presented (c ∷ cs) (srv_to_rr query_name r ∷ [])) (srv_text r)
  unfolding srv_text srv_to_rr type_name present
  srv_text-presented r query_name c cs h =
      one-Infix (idna_label r.record_name) c cs
        (comment (codes "SRV record") (codes "hexdns_zonesrvrecord") r.pk)
        (λ name. rr_line name r.ttl (codes "SRV") (
          words (
            show r.body.priority
            ∷ show r.body.weight
            ∷ show r.body.port
            ∷ label_text r.body.target
            ∷ [])))
        (srv_to_rr query_name r) h refl

  pub caa_text-presented :
      (r : Row Caa) (query_name : E.Label) (c : ℕ) (cs : Bytes)
      → idna_label r.record_name ≡ some (c ∷ cs)
      → Infix (presented (c ∷ cs) (caa_to_rr query_name r ∷ [])) (caa_text r)
  unfolding caa_text caa_to_rr type_name present
  caa_text-presented r query_name c cs h =
      one-Infix (idna_label r.record_name) c cs
        (comment (codes "CAA record") (codes "hexdns_zonecaarecord") r.pk)
        (λ name.
          rr_line name r.ttl (codes "CAA")
            (words (show r.body.flag ∷ quoted r.body.tag ∷ quoted r.body.value ∷ [])))
        (caa_to_rr query_name r) h refl

  pub naptr_text-presented :
      (r : Row Naptr) (query_name : E.Label) (c : ℕ) (cs : Bytes)
      → idna_label r.record_name ≡ some (c ∷ cs)
      → Infix (presented (c ∷ cs) (naptr_to_rr query_name r ∷ [])) (naptr_text r)
  unfolding naptr_text naptr_to_rr type_name present
  naptr_text-presented r query_name c cs h =
      one-Infix (idna_label r.record_name) c cs
        (comment (codes "NAPTR record") (codes "hexdns_zonenaptrrecord") r.pk)
        (λ name. rr_line name r.ttl (codes "NAPTR") (
          words (
            show r.body.order
            ∷ show r.body.preference
            ∷ quoted r.body.flags
            ∷ quoted r.body.service
            ∷ quoted r.body.regexp
            ∷ label_text r.body.replacement
            ∷ [])))
        (naptr_to_rr query_name r) h refl

  pub rp_text-presented :
      (r : Row Rp) (query_name : E.Label) (c : ℕ) (cs : Bytes)
      → idna_label r.record_name ≡ some (c ∷ cs)
      → Infix (presented (c ∷ cs) (rp_to_rr query_name r ∷ [])) (rp_text r)
  unfolding rp_text rp_to_rr type_name present
  rp_text-presented r query_name c cs h =
      one-Infix (idna_label r.record_name) c cs
        (comment (codes "RP record") (codes "hexdns_zonerprecord") r.pk)
        (λ name.
          rr_line name r.ttl (codes "RP")
            (words (label_text r.body.mailbox ∷ label_text r.body.txt ∷ [])))
        (rp_to_rr query_name r) h refl

  pub address_text-presented :
      (r : Row Ip) (query_name : E.Label) (c : ℕ) (cs : Bytes)
      → idna_label r.record_name ≡ some (c ∷ cs)
      → Infix (presented (c ∷ cs) (address_to_rr query_name r ∷ [])) (address_text r)
  unfolding address_text address_to_rr type_name present
  address_text-presented r query_name c cs h =
      one-Infix (idna_label r.record_name) c cs
        (comment (codes "Address record") (codes "hexdns_zoneaddressrecord") r.pk)
        (λ name. ip_line name r.ttl r.body) (address_to_rr query_name r) h (same r.body)
    where
      same :
          (ip : Ip)
          → ip_line (c ∷ cs) r.ttl ip
            ≡ rr_line
                (c ∷ cs)
                (address_to_rr query_name (record r { body = ip })).ttl
                (type_name (address_to_rr query_name (record r { body = ip })).rtype)
                (present (address_to_rr query_name (record r { body = ip })).rdata)
      same (v4 text) = refl
      same (v6 text) = refl

  abbrev line_of : Bytes → Rr → Bytes
  line_of name rr = rr_line name rr.ttl (type_name rr.rtype) (present rr.rdata)

  two-Infix :
      (name : Bytes) (a b : Rr) (note : Bytes)
      → Infix (presented name (a ∷ b ∷ [])) (note ++ (line_of name a ++ line_of name b))
  unfolding presented
  two-Infix name a b note =
      rw (append-nil (line_of name b)) (Infix-tail (line_of name a ++ line_of name b) note)

  pub sshfp_text-presented :
      (r : Row Sshfp) (query_name : E.Label) (c : ℕ) (cs : Bytes)
      → idna_label r.record_name ≡ some (c ∷ cs)
      → Infix (presented (c ∷ cs) (sshfp_to_rrs query_name r)) (sshfp_text r)
  unfolding sshfp_text sshfp_to_rrs type_name present
  sshfp_text-presented r query_name c cs h = elim (Option-cases (sshfp_algo r.body.key_type)) [
    | inl unknown ↦ rw (h, unknown, with_name, sshfp_to_rrs) (none-Infix (c ∷ cs))
    | inr (algo, known) ↦
        rw (h, known, with_name, sshfp_to_rrs)
          (two-Infix (c ∷ cs)
            (make_rr query_name Qtype.sshfp (sshfp_rd algo 1 (E.sha1 r.body.decoded_key)) r.ttl)
            (make_rr query_name Qtype.sshfp (sshfp_rd algo 2 (E.sha256 r.body.decoded_key)) r.ttl)
            (comment (codes "SSHFP record") (codes "hexdns_zonesshfprecord") r.pk))
  ]
