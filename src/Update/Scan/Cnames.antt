-- ===== src/Update/Scan/Cnames.antt =====
-- Prerequisites of type CNAME with a value, in the second loop over the prerequisites.
use mathlib.Core.List.{Memᴰ, Perm}
use mathlib.Core.List.Memᴰ
use mathlib.Core.List.Perm
use mathlib.Core.Path.{subst}
use hexdns.Common.{
  ℕ, ◌≡◌, ◌≢◌, sym, ◌∙◌, inl, inr, Option-cases, List, [], ◌∷◌, ok, >>=-eq-ok, if◌then◌else◌,
}
use hexdns.Dns.External.{External}
use hexdns.Dns.Qtype
use hexdns.Dns.Rcode
use hexdns.Dns.Message.{Response}
use hexdns.Dns.Store.{Zone, Db}
use hexdns.Dns.Prerequisites.Typed.{prerequisite_lookup-cname}
use hexdns.Update.Request.{UpdateRr, Wire}
use hexdns.Update.Scan.{
  Checked, refuse, pass, RrSets, sort_checked, same_rrs, check_rrset, continue_checked,
  check_rrsets,
}

module _ ⦃E : External⦄ ⦃W : Wire⦄ where
  sort_checked-perm : (rrs sorted : List UpdateRr) → sort_checked rrs ≡ ok sorted → Perm sorted rrs
  unfolding sort_checked
  sort_checked-perm rrs sorted h = elim (Option-cases (W.sort_rrs rrs)) [
    | inl missing ↦ cc (rw (missing, sort_checked) at h)
    | inr (found, is) ↦ W.sort_rrs-perm rrs sorted (is ∙ cc (rw (is, sort_checked) at h))
  ]

  -- One set of CNAMEs is compared with no record at all.
  check_rrset-cname :
      (db : Db) (fuel : ℕ) (zone_name : E.Label) (zone : Zone) (rname : E.Label)
      (values : List UpdateRr) (dns_res res : Response)
      → values ≢ []
      → check_rrset db fuel zone_name zone (rname, Qtype.cname, values) dns_res ≢ ok (pass res)
  unfolding check_rrset same_rrs
  check_rrset-cname db fuel zone_name zone rname values dns_res res some_ h =
      let (wanted, is_wanted, h1) =
        >>=-eq-ok (sort_checked values) _ (rw prerequisite_lookup-cname at h) in
      let (found, is_found, h2) = >>=-eq-ok (sort_checked []) _ h1 in
      differ wanted found _ (sort_checked-perm values wanted is_wanted)
        (Perm.eq-nil (sort_checked-perm [] found is_found)) h2
    where
      differ :
          (wanted found : List UpdateRr) (more : Response)
          → Perm wanted values
          → found ≡ []
          → ok (if same_rrs wanted found then pass more else refuse Rcode.yxrrset) ≢ ok (pass res)
      differ [] found more p e h = absurd (some_ (sym (Perm.nil-eq p)))
      differ (w ∷ wanted) (f ∷ found) more p e h = cc e
      differ (w ∷ wanted) [] more p e h = cc h

  -- Where a CNAME is among the prerequisites that depend on values, the second loop lets no update
  -- pass, whatever stands in the tables: it refuses, or ends in an exception.
  pub check_rrsets-cname :
      (db : Db) (fuel : ℕ) (zone_name : E.Label) (zone : Zone) (sets : RrSets) (rname : E.Label)
      (values : List UpdateRr)
      → Memᴰ (rname, Qtype.cname, values) sets
      → values ≢ []
      → (dns_res res : Response) → check_rrsets db fuel zone_name zone sets dns_res ≢ ok (pass res)
  unfolding check_rrsets continue_checked
  check_rrsets-cname db fuel zone_name zone [] rname values m some_ dns_res res h =
      absurd (Memᴰ.not-nil m)
  check_rrsets-cname db fuel zone_name zone (set_ ∷ sets) rname values m some_ dns_res res h =
      let (checked, is, later) = >>=-eq-ok (check_rrset db fuel zone_name zone set_ dns_res) _ h in
      next m checked is later λ other more.
        check_rrsets-cname db fuel zone_name zone sets rname values other some_ more res
    where
      next :
          Memᴰ (rname, Qtype.cname, values) (set_ ∷ sets)
          → (checked : Checked Response)
          → check_rrset db fuel zone_name zone set_ dns_res ≡ ok checked
          → continue_checked (λ more. check_rrsets db fuel zone_name zone sets more) checked
            ≡ ok (pass res)
          → (Memᴰ (rname, Qtype.cname, values) sets
              → (more : Response) → check_rrsets db fuel zone_name zone sets more ≢ ok (pass res))
          → ⊥
      next m (refuse rcode) is later rest = cc later
      next (Memᴰ.head e) (pass more) is later rest =
          subst (λ one. check_rrset db fuel zone_name zone one dns_res ≢ ok (pass more)) e
            (check_rrset-cname db fuel zone_name zone rname values dns_res more some_) is
      next (Memᴰ.tail m) (pass more) is later rest = rest m more later
