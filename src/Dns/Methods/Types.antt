-- ===== src/Dns/Methods/Types.antt =====
-- The types of the records that each lookup of grpc.py adds to the answer section.
use hexdns.Common.{
  if_eq_both, ℕ, refl, sym, ◌∙◌, inl, Bool, true, false, if◌then◌else◌, if_both, List, [], ◌∷◌, All,
  Bytes, arith, map,
}
use hexdns.Dns.External.{External}
use hexdns.Dns.Qtype
use hexdns.Dns.Message.{Ip, Rr, Response, ns_rd}
use hexdns.Dns.Store.{Row, Zone, Db, Aname, Dynamic, Redirect, Ds, Sshfp}
use hexdns.Dns.Records.{
  make_rr, ns_to_rr, caa_to_rr, redirect_to_rr_caa, mx_to_rr, txt_to_rr, srv_to_rr, naptr_to_rr,
  loc_to_rr, hinfo_to_rr, rp_to_rr, dhcid_to_rr, sshfp_to_rrs, ds_to_rr, address_to_rr,
  dynamic_to_rr_v4, dynamic_to_rr_v6, redirect_to_rr_v4, redirect_to_rr_v6,
}
use hexdns.Dns.Find.{find_records, nonempty}
use hexdns.Dns.Delegation.{aname_to_rrs}
use hexdns.Dns.Lookup.{nameservers, at_root, answer_rows}
use hexdns.Dns.Lookup.Answers.{
  Answer, IsAnswered, IsAnswered-refl, IsAnswered-trans, add_rows-IsAnswered,
  add_answers-IsAnswered, aname_rrs-Answer,
}
use hexdns.Dns.Lookup.Bounds.{AnswersWell, lookup_with-IsAnswered, answer_rows-AnswersFirst}
use hexdns.Dns.Methods.{
  first_of_rows, apex_ns, ns_answers, caa_answers, ds_answer, lookup_ns, lookup_caa, lookup_mx,
  lookup_txt, lookup_srv, lookup_naptr, lookup_loc, lookup_hinfo, lookup_rp, lookup_dhcid,
  lookup_sshfp, lookup_ds, addr_answers, lookup_addr, try_rows, redirect_answer, dynamic_answer,
  address_answer, one,
}

module _ ⦃E : External⦄ where
  try_rows-IsAnswered :
      {D : Type 0} (res : Response) (rrs : Row D → List Rr) (rows : List (Row D))
      (state : Response × Bool)
      → IsAnswered res state.0
      → ((r : Row D) → All (Answer res.question) (rrs r))
      → IsAnswered res (try_rows rrs rows state).0
  unfolding try_rows
  try_rows-IsAnswered res rrs rows (more, true) done h = done
  try_rows-IsAnswered res rrs rows (more, false) done h =
      IsAnswered-trans done (add_rows-IsAnswered rrs more rows (λ r. rw done.question (h r)))

  address_answer-Answer :
      (q : ℕ) (name : E.Label) (r : Row Ip) → All (Answer q) (address_answer q name r)
  unfolding address_answer address_to_rr
  address_answer-Answer q name r = ground arith

  dynamic_answer-Answer :
      (q : ℕ) (name : E.Label) (r : Row Dynamic) → All (Answer q) (dynamic_answer q name r)
  unfolding dynamic_answer dynamic_to_rr_v4 dynamic_to_rr_v6
  dynamic_answer-Answer q name r = ground arith

  redirect_answer-Answer :
      (q : ℕ) (name : E.Label) (r : Row Redirect) → All (Answer q) (redirect_answer q name r)
  unfolding redirect_answer redirect_to_rr_v4 redirect_to_rr_v6
  redirect_answer-Answer q name r =
      if_eq_both (All (Answer q)) q Qtype.a (λ e. (inl (sym e), tt))
        (if_eq_both (All (Answer q)) q Qtype.aaaa (λ e. (inl (sym e), tt)) tt)

  aname_to_rrs-Answer :
      (db : Db) (zone : Zone) (q : ℕ) (name : E.Label) (r : Row Aname)
      → All (Answer q) (aname_to_rrs db zone q name r)
  unfolding aname_to_rrs
  aname_to_rrs-Answer db zone q name r = aname_rrs-Answer q name r.ttl _

  pub lookup_addr-AnswersWell : (q : ℕ) (db : Db) (fuel : ℕ) → AnswersWell q (lookup_addr db fuel)
  unfolding lookup_addr addr_answers
  lookup_addr-AnswersWell q db fuel =
      lookup_with-IsAnswered q (addr_answers db) db
        (λ res name zone query_name e.
          let qtype = res.question in
          let addresses = find_records db.address name zone in
          let dynamic = find_records db.dynamic name zone in
          let anames = find_records db.aname name zone in
          let redirects = first_of_rows (find_records db.redirect name zone) in
          let s1 = try_rows (address_answer qtype query_name) addresses (res, false) in
          let s2 = try_rows (dynamic_answer qtype query_name) dynamic s1 in
          let s3 = try_rows (aname_to_rrs db zone qtype query_name) anames s2 in
          let h1 =
            try_rows-IsAnswered res (address_answer qtype query_name) addresses (res, false)
              (IsAnswered-refl res) (address_answer-Answer qtype query_name) in
          let h2 =
            try_rows-IsAnswered res (dynamic_answer qtype query_name) dynamic s1 h1
              (dynamic_answer-Answer qtype query_name) in
          let h3 =
            try_rows-IsAnswered res (aname_to_rrs db zone qtype query_name) anames s2 h2
              (aname_to_rrs-Answer db zone qtype query_name) in
          try_rows-IsAnswered res (redirect_answer qtype query_name) redirects s3 h3
            (redirect_answer-Answer qtype query_name))
        fuel

  apex_ns-Answer : (name : E.Label) (zone : Zone) → All (Answer Qtype.ns) (apex_ns name zone)
  unfolding apex_ns
  apex_ns-Answer name zone = names (if nonempty zone.custom_ns then zone.custom_ns else nameservers)
    where
      names :
          (ns : List Bytes)
          → All (Answer Qtype.ns) (map (λ n. make_rr name Qtype.ns (ns_rd n) 86400) ns)
      names [] = tt
      names (n ∷ ns) = (inl refl, names ns)

  pub lookup_ns-AnswersWell : (db : Db) (fuel : ℕ) → AnswersWell Qtype.ns (lookup_ns db fuel)
  unfolding lookup_ns ns_answers ns_to_rr
  lookup_ns-AnswersWell db fuel =
      lookup_with-IsAnswered Qtype.ns (ns_answers db) db
        (λ res name zone query_name e.
          let rows = answer_rows (one ns_to_rr) db.ns in
          let first =
            answer_rows-AnswersFirst Qtype.ns (one ns_to_rr) db.ns (λ n r. (inl refl, tt)) res name
              zone query_name e in
          let answered = (rows res name zone query_name).0 in
          if_both (IsAnswered res) (at_root name)
            (IsAnswered-trans first (
              add_answers-IsAnswered answered (apex_ns query_name zone)
                (rw first.question (rw e (apex_ns-Answer query_name zone)))))
            first)
        fuel

  pub lookup_caa-AnswersWell : (db : Db) (fuel : ℕ) → AnswersWell Qtype.caa (lookup_caa db fuel)
  unfolding lookup_caa caa_answers caa_to_rr redirect_to_rr_caa
  lookup_caa-AnswersWell db fuel =
      lookup_with-IsAnswered Qtype.caa (caa_answers db) db
        (λ res name zone query_name e.
          let rows = answer_rows (one caa_to_rr) db.caa in
          let first =
            answer_rows-AnswersFirst Qtype.caa (one caa_to_rr) db.caa (λ n r. (inl refl, tt)) res
              name zone query_name e in
          let answered = (rows res name zone query_name).0 in
          let redirects = first_of_rows (find_records db.redirect name zone) in
          if_both (λ (s : Response × Bool). IsAnswered res s.0) (rows res name zone query_name).1
            first
            (IsAnswered-trans first (
              add_rows-IsAnswered (one redirect_to_rr_caa query_name) answered redirects
                (λ r. (inl (sym (first.question ∙ e)), tt)))))
        fuel

  pub lookup_mx-AnswersWell : (db : Db) (fuel : ℕ) → AnswersWell Qtype.mx (lookup_mx db fuel)
  unfolding lookup_mx mx_to_rr
  lookup_mx-AnswersWell db fuel =
      lookup_with-IsAnswered Qtype.mx (answer_rows (one mx_to_rr) db.mx) db
        (answer_rows-AnswersFirst Qtype.mx (one mx_to_rr) db.mx (λ n r. (inl refl, tt))) fuel

  pub lookup_txt-AnswersWell : (db : Db) (fuel : ℕ) → AnswersWell Qtype.txt (lookup_txt db fuel)
  unfolding lookup_txt txt_to_rr
  lookup_txt-AnswersWell db fuel =
      lookup_with-IsAnswered Qtype.txt (answer_rows (one txt_to_rr) db.txt) db
        (answer_rows-AnswersFirst Qtype.txt (one txt_to_rr) db.txt (λ n r. (inl refl, tt))) fuel

  pub lookup_srv-AnswersWell : (db : Db) (fuel : ℕ) → AnswersWell Qtype.srv (lookup_srv db fuel)
  unfolding lookup_srv srv_to_rr
  lookup_srv-AnswersWell db fuel =
      lookup_with-IsAnswered Qtype.srv (answer_rows (one srv_to_rr) db.srv) db
        (answer_rows-AnswersFirst Qtype.srv (one srv_to_rr) db.srv (λ n r. (inl refl, tt))) fuel

  pub lookup_naptr-AnswersWell :
      (db : Db) (fuel : ℕ) → AnswersWell Qtype.naptr (lookup_naptr db fuel)
  unfolding lookup_naptr naptr_to_rr
  lookup_naptr-AnswersWell db fuel =
      lookup_with-IsAnswered Qtype.naptr (answer_rows (one naptr_to_rr) db.naptr) db
        (answer_rows-AnswersFirst Qtype.naptr (one naptr_to_rr) db.naptr (λ n r. (inl refl, tt)))
        fuel

  pub lookup_loc-AnswersWell : (db : Db) (fuel : ℕ) → AnswersWell Qtype.loc (lookup_loc db fuel)
  unfolding lookup_loc loc_to_rr
  lookup_loc-AnswersWell db fuel =
      lookup_with-IsAnswered Qtype.loc (answer_rows (one loc_to_rr) db.loc) db
        (answer_rows-AnswersFirst Qtype.loc (one loc_to_rr) db.loc (λ n r. (inl refl, tt))) fuel

  pub lookup_hinfo-AnswersWell :
      (db : Db) (fuel : ℕ) → AnswersWell Qtype.hinfo (lookup_hinfo db fuel)
  unfolding lookup_hinfo hinfo_to_rr
  lookup_hinfo-AnswersWell db fuel =
      lookup_with-IsAnswered Qtype.hinfo (answer_rows (one hinfo_to_rr) db.hinfo) db
        (answer_rows-AnswersFirst Qtype.hinfo (one hinfo_to_rr) db.hinfo (λ n r. (inl refl, tt)))
        fuel

  pub lookup_rp-AnswersWell : (db : Db) (fuel : ℕ) → AnswersWell Qtype.rp (lookup_rp db fuel)
  unfolding lookup_rp rp_to_rr
  lookup_rp-AnswersWell db fuel =
      lookup_with-IsAnswered Qtype.rp (answer_rows (one rp_to_rr) db.rp) db
        (answer_rows-AnswersFirst Qtype.rp (one rp_to_rr) db.rp (λ n r. (inl refl, tt))) fuel

  pub lookup_dhcid-AnswersWell :
      (db : Db) (fuel : ℕ) → AnswersWell Qtype.dhcid (lookup_dhcid db fuel)
  unfolding lookup_dhcid dhcid_to_rr
  lookup_dhcid-AnswersWell db fuel =
      lookup_with-IsAnswered Qtype.dhcid (answer_rows (one dhcid_to_rr) db.dhcid) db
        (answer_rows-AnswersFirst Qtype.dhcid (one dhcid_to_rr) db.dhcid (λ n r. (inl refl, tt)))
        fuel

  sshfp_to_rrs-Answer :
      (name : E.Label) (r : Row Sshfp) → All (Answer Qtype.sshfp) (sshfp_to_rrs name r)
  unfolding sshfp_to_rrs
  sshfp_to_rrs-Answer name r = ground arith

  pub lookup_sshfp-AnswersWell :
      (db : Db) (fuel : ℕ) → AnswersWell Qtype.sshfp (lookup_sshfp db fuel)
  unfolding lookup_sshfp
  lookup_sshfp-AnswersWell db fuel =
      lookup_with-IsAnswered Qtype.sshfp (answer_rows sshfp_to_rrs db.sshfp) db
        (answer_rows-AnswersFirst Qtype.sshfp sshfp_to_rrs db.sshfp sshfp_to_rrs-Answer) fuel

  ds_answer-Answer : (name : E.Label) (r : Row Ds) → All (Answer Qtype.ds) (ds_answer name r)
  unfolding ds_answer ds_to_rr
  ds_answer-Answer name r = ground arith

  pub lookup_ds-AnswersWell : (db : Db) (fuel : ℕ) → AnswersWell Qtype.ds (lookup_ds db fuel)
  unfolding lookup_ds
  lookup_ds-AnswersWell db fuel =
      lookup_with-IsAnswered Qtype.ds (answer_rows ds_answer db.ds) db
        (answer_rows-AnswersFirst Qtype.ds ds_answer db.ds ds_answer-Answer) fuel
