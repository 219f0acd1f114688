-- ===== src/Dns/Prerequisites/Typed.antt =====
-- What the lookup of a prerequisite finds.
use hexdns.Common.{false, ℕ, ◌≡◌, refl, ◌≢◌, All, ok, if_both, if_eq_both, ◌==◌}
use hexdns.Dns.External.{External}
use hexdns.Dns.Qtype
use hexdns.Dns.Message.{Response}
use hexdns.Dns.Store.{Zone, Db}
use hexdns.Dns.Lookup.Answers.{Answer, IsAnswered, IsAnswered-refl}
use hexdns.Dns.Lookup.Bounds.{AnswersWell}
use hexdns.Dns.Lookup.Ends.{Returns, Falls, lookup_cname-Returns, lookup_with-Returns}
use hexdns.Dns.Lookup.{Answering, Lookup}
use hexdns.Dns.Methods.{
  https_answers, lookup_https, lookup_mx, lookup_ns, lookup_txt, lookup_srv, lookup_caa,
  lookup_naptr, lookup_sshfp, lookup_ds, lookup_loc, lookup_hinfo, lookup_rp, lookup_dhcid,
}
use hexdns.Common.{if◌then◌else◌, inl, inr, Bool-cases, ◌<◌, arith}
use hexdns.Dns.Find.{name_within}
use hexdns.Dns.Prerequisites.{fresh_response, lookup_of, prerequisite_cname, prerequisite_lookup}
use hexdns.Dns.Methods.Types.{
  lookup_addr-AnswersWell, lookup_mx-AnswersWell, lookup_ns-AnswersWell, lookup_txt-AnswersWell,
  lookup_srv-AnswersWell, lookup_caa-AnswersWell, lookup_naptr-AnswersWell,
  lookup_sshfp-AnswersWell, lookup_ds-AnswersWell, lookup_loc-AnswersWell, lookup_hinfo-AnswersWell,
  lookup_rp-AnswersWell, lookup_dhcid-AnswersWell,
}

module _ ⦃E : External⦄ where
  lookup_of-AnswersWell :
      (db : Db) (fuel rtype : ℕ) → rtype ≢ Qtype.https → AnswersWell rtype (lookup_of db fuel rtype)
  unfolding lookup_of
  lookup_of-AnswersWell db fuel rtype other =
      let P = AnswersWell rtype in
      if_both P (rtype == Qtype.a) (lookup_addr-AnswersWell rtype db fuel) (
        if_both P (rtype == Qtype.aaaa) (lookup_addr-AnswersWell rtype db fuel) (
          if_eq_both P rtype Qtype.mx (λ e. rw e (lookup_mx-AnswersWell db fuel))
            (if_eq_both P rtype Qtype.ns (λ e. rw e (lookup_ns-AnswersWell db fuel))
              (if_eq_both P rtype Qtype.txt (λ e. rw e (lookup_txt-AnswersWell db fuel))
                (if_eq_both P rtype Qtype.srv (λ e. rw e (lookup_srv-AnswersWell db fuel))
                  (if_eq_both P rtype Qtype.caa (λ e. rw e (lookup_caa-AnswersWell db fuel))
                    (if_eq_both P rtype Qtype.naptr (λ e. rw e (lookup_naptr-AnswersWell db fuel))
                      (if_eq_both P rtype Qtype.sshfp (λ e. rw e (lookup_sshfp-AnswersWell db fuel))
                        (if_eq_both P rtype Qtype.ds (λ e. rw e (lookup_ds-AnswersWell db fuel))
                          (if_eq_both P rtype Qtype.loc (λ e. rw e (lookup_loc-AnswersWell db fuel))
                            (if_eq_both P rtype Qtype.hinfo
                              (λ e. rw e (lookup_hinfo-AnswersWell db fuel))
                              (if_eq_both P rtype Qtype.rp
                                (λ e. rw e (lookup_rp-AnswersWell db fuel))
                                (if_eq_both P rtype Qtype.https (λ e. absurd (other e))
                                  (if_eq_both P rtype Qtype.dhcid
                                    (λ e. rw e (lookup_dhcid-AnswersWell db fuel))
                                    (λ res name zone query_name is_dnssec e.
                                      IsAnswered-refl res)))))))))))))))

  lookup_https-Returns :
      (db : Db) (rank : E.Label → Zone → ℕ)
      → Falls db rank
      → (fuel : ℕ) (res : Response) (name : E.Label) (zone : Zone) (query_name : E.Label)
      → rank name zone < fuel
      → Returns (lookup_https db fuel res name zone query_name false)
  unfolding lookup_https lookup_sshfp
  lookup_https-Returns db rank falls fuel res name zone query_name h =
      let step = https_answers db res name zone query_name in
      elim (Bool-cases step.1) [
        | inl found ↦ rw (found, lookup_https) (_, refl)
        | inr missing ↦
            rw (missing, lookup_https)
              (lookup_cname-Returns (lookup_sshfp db fuel) db rank fuel falls
                (λ res' name' zone' query'.
                  lookup_with-Returns _ db rank falls fuel res' name' zone' query')
                step.0 name zone query_name (omega arith))
      ]

  -- The lookup of any type returns at a name whose CNAMEs come to an end.
  lookup_of-Returns :
      (db : Db) (rank : E.Label → Zone → ℕ)
      → Falls db rank
      → (fuel rtype : ℕ) (res : Response) (name : E.Label) (zone : Zone) (query_name : E.Label)
      → rank name zone < fuel
      → Returns (lookup_of db fuel rtype res name zone query_name false)
  unfolding lookup_of lookup_mx lookup_ns lookup_txt lookup_srv lookup_caa lookup_naptr lookup_sshfp
      lookup_ds lookup_loc lookup_hinfo lookup_rp lookup_dhcid
  lookup_of-Returns db rank falls fuel rtype res name zone query_name h =
      let P = λ (func : Lookup). Returns (func res name zone query_name false) in
      let ends = λ (answering : Answering).
        lookup_with-Returns answering db rank falls fuel res name zone query_name h in
      if_both P (rtype == Qtype.a) (ends _) (
        if_both P (rtype == Qtype.aaaa) (ends _) (
          if_both P (rtype == Qtype.mx) (ends _) (
            if_both P (rtype == Qtype.ns) (ends _) (
              if_both P (rtype == Qtype.txt) (ends _) (
                if_both P (rtype == Qtype.srv) (ends _) (
                  if_both P (rtype == Qtype.caa) (ends _) (
                    if_both P (rtype == Qtype.naptr) (ends _) (
                      if_both P (rtype == Qtype.sshfp) (ends _) (
                        if_both P (rtype == Qtype.ds) (ends _) (
                          if_both P (rtype == Qtype.loc) (ends _) (
                            if_both P (rtype == Qtype.hinfo) (ends _) (
                              if_both P (rtype == Qtype.rp) (ends _) (
                                if_both P (rtype == Qtype.https)
                                  (lookup_https-Returns db rank falls fuel res name zone query_name
                                    h)
                                  (if_both P (rtype == Qtype.dhcid) (ends _)
                                    (res, refl)))))))))))))))

  -- If some number falls with every CNAME that leads into another zone, then for every type but
  -- HTTPS the lookup of a prerequisite, with more fuel than the number of its name, returns, and
  -- all the records that it finds are of that type or CNAMEs.
  pub prerequisite_lookup-Typed :
      (db : Db) (rank : E.Label → Zone → ℕ)
      → Falls db rank
      → (fuel : ℕ) (zone_name : E.Label) (zone : Zone) (rname : E.Label) (rtype : ℕ)
        (dns_res : Response)
      → rank (name_within rname zone_name) zone < fuel
      → rtype ≢ Qtype.https
      → (r : Response × Response) × (prerequisite_lookup db fuel zone_name zone rname rtype dns_res
          ≡ ok r)
        × All (Answer rtype) r.0.rr
  unfolding prerequisite_lookup
  prerequisite_lookup-Typed db rank falls fuel zone_name zone rname rtype dns_res h other =
      let record_name = name_within rname zone_name in
      let fresh = fresh_response rtype in
      let (temp, returned) =
        lookup_of-Returns db rank falls fuel rtype fresh record_name zone rname h in
      let well =
        lookup_of-AnswersWell db fuel rtype other fresh record_name zone rname false refl in
      let found : IsAnswered fresh temp = rw returned at well in
      let answers =
        if rtype == Qtype.cname
        then prerequisite_cname db record_name zone rname dns_res
        else dns_res in
      ((temp, answers), rw (returned, prerequisite_lookup) refl, rw found.appended found.typed)

  -- Of type CNAME no record is looked up; what stands in the table goes to the update's own response.
  pub prerequisite_lookup-cname :
      (db : Db) (fuel : ℕ) (zone_name : E.Label) (zone : Zone) (rname : E.Label)
      (dns_res : Response)
      → prerequisite_lookup db fuel zone_name zone rname Qtype.cname dns_res
        ≡ ok (
          fresh_response Qtype.cname,
          prerequisite_cname db (name_within rname zone_name) zone rname dns_res,
        )
  unfolding prerequisite_lookup lookup_of
  prerequisite_lookup-cname db fuel zone_name zone rname dns_res = refl
