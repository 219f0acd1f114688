-- ===== src/Dns/Lookup/Referral.antt =====
-- A referral of grpc.py leaves the answer section as it is, but for the addresses that stand behind an
-- ANAME of a name server.
use hexdns.Common.{
  refl, ◌∙◌, inl, inr, Bool, true, false, not, ◌&&◌, if◌then◌else◌, if_both, List, [], ◌∷◌, ◌++◌,
  Option, none, some, Bytes, Result, ok, err, Ensures, bind-Ensures, mono-Ensures, Option-cases,
  pos,
}
use hexdns.Svcb.Params.Pack.{struct_h, struct_b}
use hexdns.Dns.External.{External}
use hexdns.Dns.Message.{rd, Ip, Rr, Response, add_auth, add_ar, add_answers}
use hexdns.Dns.Qtype
use hexdns.Dns.Rcode
use hexdns.Dns.Store.{Row, Zone, Db, Aname, Dynamic, Ds}
use hexdns.Dns.Records.{dynamic_to_rr_v4, dynamic_to_rr_v6, address_to_rr}
use hexdns.Dns.Find.{find_zone, find_records, nonempty}
use hexdns.Dns.AnyRecords.{any_records}
use hexdns.Dns.Delegation.{
  ds_absent, dotted, ds_digest, aname_to_rrs, add_dynamic, add_addresses, add_anames, add_ar_if,
  lookup_additional_addr, add_ds, delegation_dnssec, add_delegation,
}
use hexdns.Dns.Lookup.{
  referral_next, referral_servers, ns_rd, at_root, referral_loop, referral_end, lookup_referral,
}
use hexdns.Dns.Lookup.Answers.{
  IsAnswered, SameAnswers, IsAnswered-of_SameAnswers, IsAnswered-refl, IsAnswered-trans,
  add_answers-IsAnswered, aname_rrs-Answer,
}

abbrev Anything {ℓ} : {A : Type ℓ} → A → Type 0
Anything a = Unit

anything {ℓ} : {A : Type ℓ} (m : Result A) → Ensures Anything m
anything (ok a) = tt
anything (err e) = tt

module _ ⦃E : External⦄ where
  add_anames-IsAnswered :
      (db : Db) (zone : Zone) (name : E.Label) (res : Response) (rows : List (Row Aname))
      → IsAnswered res (add_anames db zone name res rows)
  unfolding add_anames aname_to_rrs
  add_anames-IsAnswered db zone name res [] = IsAnswered-refl res
  add_anames-IsAnswered db zone name res (r ∷ rows) =
      IsAnswered-trans
        (add_answers-IsAnswered res (aname_to_rrs db zone res.question name r)
          (aname_rrs-Answer res.question name r.ttl _))
        (add_anames-IsAnswered db zone name
          (add_answers res (aname_to_rrs db zone res.question name r)) rows)

  add_addresses-SameAnswers :
      (name : E.Label) (res : Response) (rows : List (Row Ip))
      → SameAnswers res (add_addresses name res rows)
  unfolding add_addresses add_ar
  add_addresses-SameAnswers name res [] = (refl, refl)
  add_addresses-SameAnswers name res (r ∷ rows) =
      add_addresses-SameAnswers name (add_ar res (address_to_rr name r)) rows

  add_ar_if-SameAnswers : (res : Response) (r : Option Rr) → SameAnswers res (add_ar_if res r)
  unfolding add_ar_if
  add_ar_if-SameAnswers res none = (refl, refl)
  add_ar_if-SameAnswers res (some r) = (refl, refl)

  add_dynamic-IsAnswered :
      (name : E.Label) (res : Response) (rows : List (Row Dynamic))
      → IsAnswered res (add_dynamic name res rows)
  unfolding add_dynamic
  add_dynamic-IsAnswered name res [] = IsAnswered-refl res
  add_dynamic-IsAnswered name res (r ∷ rows) =
      let one = add_ar_if res (dynamic_to_rr_v4 name r) in
      let two = add_ar_if one (dynamic_to_rr_v6 name r) in
      IsAnswered-trans {b = one}
        (IsAnswered-of_SameAnswers (add_ar_if-SameAnswers res (dynamic_to_rr_v4 name r)))
        (IsAnswered-trans {b = two}
          (IsAnswered-of_SameAnswers (add_ar_if-SameAnswers one (dynamic_to_rr_v6 name r)))
          (add_dynamic-IsAnswered name two rows))

  lookup_additional_addr-IsAnswered :
      (db : Db) (res : Response) (name : E.Label)
      → IsAnswered res (lookup_additional_addr db res name)
  unfolding lookup_additional_addr
  lookup_additional_addr-IsAnswered db res name = elim (Option-cases (find_zone db name)) [
    | inl missing ↦ rw (missing, lookup_additional_addr) (IsAnswered-refl res)
    | inr (zn, found) ↦
        let addresses = find_records db.address zn.1 zn.0 in
        let dynamic = find_records db.dynamic zn.1 zn.0 in
        let anames = find_records db.aname zn.1 zn.0 in
        let with_dynamic = add_dynamic name res dynamic in
        rw (found, lookup_additional_addr)
          (if_both (IsAnswered res) (nonempty addresses)
            (IsAnswered-of_SameAnswers {b = add_addresses name res addresses}
              (add_addresses-SameAnswers name res addresses))
            (IsAnswered-trans {b = with_dynamic} (add_dynamic-IsAnswered name res dynamic)
              (add_anames-IsAnswered db zn.0 name with_dynamic anames)))
  ]

  -- The response behind a step of a referral.
  abbrev StepAnswered : Response → Response × Bool → Type 0
  StepAnswered before r = SameAnswers before r.0

  ds_digest-Ensures :
      (P : Response × Bool → Type 0) (next : Bytes → Result (Response × Bool)) (res : Response)
      (digest : Option Bytes)
      → P (record res { rcode = Rcode.servfail }, false)
      → ((bytes : Bytes) → Ensures P (next bytes))
      → Ensures P (ds_digest next res digest)
  unfolding ds_digest
  ds_digest-Ensures P next res none stop go = stop
  ds_digest-Ensures P next res (some []) stop go = stop
  ds_digest-Ensures P next res (some (b ∷ bs)) stop go = go (b ∷ bs)

  add_ds-SameAnswers :
      (name : E.Label) (res : Response) (rows : List (Row Ds))
      → Ensures (StepAnswered res) (add_ds name res rows)
  unfolding add_ds add_auth
  add_ds-SameAnswers name res [] = (refl, refl)
  add_ds-SameAnswers name res (r ∷ rows) =
      bind-Ensures Anything (StepAnswered res) (struct_h (pos r.body.key_tag)) _ (anything _)
        λ tag _.
          bind-Ensures Anything (StepAnswered res) (struct_b r.body.algorithm) _ (anything _)
            λ algorithm _.
              bind-Ensures Anything (StepAnswered res) (struct_b r.body.digest_type) _ (anything _)
                λ digest_type _.
                  ds_digest-Ensures (StepAnswered res) _ res r.body.digest_bin (refl, refl)
                    λ digest.
                      add_ds-SameAnswers name
                        (add_auth res (record {
                          rname = name;
                          rtype = Qtype.ds;
                          rdata = rd (tag ++ algorithm ++ digest_type ++ digest);
                          ttl = r.ttl;
                        }))
                        rows

  ds_absent-SameAnswers :
      (name next : E.Label) (found : Bool) (added : Response × Bool)
      → SameAnswers added.0 (ds_absent name next found added).0
  unfolding ds_absent add_auth
  ds_absent-SameAnswers name next true (res, false) = (refl, refl)
  ds_absent-SameAnswers name next true (res, true) = (refl, refl)
  ds_absent-SameAnswers name next false (res, false) = (refl, refl)
  ds_absent-SameAnswers name next false (res, true) = (refl, refl)

  delegation_dnssec-SameAnswers :
      (db : Db) (zone : Zone) (res : Response) (r : Row Bytes)
      → Ensures (StepAnswered res) (delegation_dnssec db zone res r)
  unfolding delegation_dnssec
  delegation_dnssec-SameAnswers db zone res r =
      let name = E.of_str (dotted r.record_name zone.zone_root) in
      let next = E.of_str (dotted (r.record_name ++ 0 ∷ []) zone.zone_root) in
      let records = find_records db.ds (E.of_str r.record_name) zone in
      bind-Ensures (StepAnswered res) (StepAnswered res) (add_ds name res records)
        (λ added. ok (ds_absent name next (nonempty records) added))
        (add_ds-SameAnswers name res records)
        λ added same.
          let more = ds_absent-SameAnswers name next (nonempty records) added in
          (more.0 ∙ same.0, more.1 ∙ same.1)

  abbrev StepIsAnswered {ℓ} : {A : Type ℓ} → Response → Response × A → Type 0
  StepIsAnswered before r = IsAnswered before r.0

  add_delegation-IsAnswered :
      (db : Db) (zone : Zone) (is_dnssec : Bool) (res : Response) (r : Row Bytes)
      → Ensures (StepIsAnswered res) (add_delegation db zone is_dnssec res r)
  unfolding add_delegation add_auth
  add_delegation-IsAnswered db zone is_dnssec res r =
      let with_ns = add_auth res (record {
        rname = E.of_str (dotted r.record_name zone.zone_root);
        rtype = Qtype.ns;
        rdata = ns_rd r.body;
        ttl = r.ttl;
      }) in
      bind-Ensures (StepAnswered res) (StepIsAnswered res)
        (if is_dnssec then delegation_dnssec db zone with_ns r else ok (with_ns, true)) _
        (if_both (Ensures (StepAnswered res)) is_dnssec
          (delegation_dnssec-SameAnswers db zone with_ns r) (refl, refl))
        λ checked same.
          if_both (StepIsAnswered res) checked.1
            (IsAnswered-trans (IsAnswered-of_SameAnswers same)
              (lookup_additional_addr-IsAnswered db checked.0 (E.of_str r.body)))
            (IsAnswered-of_SameAnswers same)

  referral_next-IsAnswered :
      (res : Response) (next : Response → Result (Response × Option Bool)) (added : Response × Bool)
      → IsAnswered res added.0
      → ((more : Response) → Ensures (StepIsAnswered more) (next more))
      → Ensures (StepIsAnswered res) (referral_next next added)
  unfolding referral_next
  referral_next-IsAnswered res next (more, false) answered h = answered
  referral_next-IsAnswered res next (more, true) answered h =
      mono-Ensures (StepIsAnswered more) (StepIsAnswered res) (next more)
        (λ end rest. IsAnswered-trans answered rest) (h more)

  referral_loop-IsAnswered :
      (db : Db) (name : E.Label) (zone : Zone) (is_dnssec ns_found : Bool) (res : Response)
      (rows : List (Row Bytes))
      → Ensures (StepIsAnswered res) (referral_loop db name zone is_dnssec ns_found res rows)
  unfolding referral_loop
  referral_loop-IsAnswered db name zone is_dnssec ns_found res [] = IsAnswered-refl res
  referral_loop-IsAnswered db name zone is_dnssec ns_found res (r ∷ rows) =
      if_both (Ensures (StepIsAnswered res)) (E.match_suffix name (E.of_str r.record_name))
        (bind-Ensures (StepIsAnswered res) (StepIsAnswered res)
          (add_delegation db zone is_dnssec res r) _
          (add_delegation-IsAnswered db zone is_dnssec res r)
          λ added answered.
            referral_next-IsAnswered res
              (λ more. referral_loop db name zone is_dnssec true more rows) added answered
              λ more. referral_loop-IsAnswered db name zone is_dnssec true more rows)
        (referral_loop-IsAnswered db name zone is_dnssec ns_found res rows)

  referral_end-SameAnswers :
      (db : Db) (name : E.Label) (zone : Zone) (r : Response × Option Bool)
      → SameAnswers r.0 (referral_end db name zone r)
  unfolding referral_end
  referral_end-SameAnswers db name zone (res, none) = (refl, refl)
  referral_end-SameAnswers db name zone (res, some ns_found) =
      if_both (SameAnswers res) (not ns_found && not (at_root name))
        (if_both (SameAnswers res) (not (any_records db name zone true)) (refl, refl) (refl, refl))
        (refl, refl)

  pub lookup_referral-IsAnswered :
      (db : Db) (res : Response) (name : E.Label) (zone : Zone) (is_dnssec : Bool)
      → Ensures (IsAnswered res) (lookup_referral db res name zone is_dnssec)
  unfolding lookup_referral
  lookup_referral-IsAnswered db res name zone is_dnssec =
      let servers = referral_servers db zone in
      bind-Ensures (StepIsAnswered res) (IsAnswered res)
        (referral_loop db name zone is_dnssec false res servers)
        (λ looped. ok (referral_end db name zone looped))
        (referral_loop-IsAnswered db name zone is_dnssec false res servers)
        λ looped answered. IsAnswered-trans answered (
          IsAnswered-of_SameAnswers {b = referral_end db name zone looped}
            (referral_end-SameAnswers db name zone looped))
