-- ===== src/Update/Scan.antt =====
-- The checks of handle_update_query before it writes: the prerequisites (RFC 2136, section 3.2) and
-- the prescan of the update section (section 3.4.1).
pub mod Acceptable
pub mod Prerequisites
pub mod Cnames
use hexdns.Common.{
  ℕ, Bool, true, false, not, ◌==◌, ◌&&◌, ◌||◌, if◌then◌else◌, List, [], ◌∷◌, ◌++◌, map, Option,
  none, some, Result, ok, err, type_error, ◌>>=◌,
}
use hexdns.Dns.External.{External}
use hexdns.Dns.Qtype
use hexdns.Dns.Rcode
use hexdns.Dns.Message.{Rdata, Rr, Response}
use hexdns.Dns.Store.{Zone, Db}
use hexdns.Dns.Find.{name_within}
use hexdns.Dns.AnyRecords.{any_records, any_record_type}
use hexdns.Dns.Prerequisites.{prerequisite_lookup}
use hexdns.Update.Request.{class_in, class_none, class_any, UpdateRr, Wire}

-- The handler goes on with a value, or returns with a response code.
pub data Checked {ℓ} (A : Type ℓ) : Type ℓ where
  refuse : ℕ → Checked A
  pass : A → Checked A

abbrev pub and_then {ℓ κ} : {A : Type ℓ} {B : Type κ} → Checked A → (A → Checked B) → Checked B
and_then (refuse rcode) next = refuse rcode
and_then (pass value) next = next value

-- `rr.rdata != ''`
abbrev pub has_data : Option Rdata → Bool
has_data none = false
has_data (some content) = true

abbrev pub member : ℕ → List ℕ → Bool
member n [] = false
member n (m ∷ ms) = n == m || member n ms

-- `supported_types`
abbrev pub supported_types : List ℕ
supported_types =
    Qtype.a ∷ Qtype.aaaa ∷ Qtype.mx ∷ Qtype.ns ∷ Qtype.txt ∷ Qtype.srv ∷ Qtype.caa ∷ Qtype.naptr
    ∷ Qtype.ds ∷ Qtype.loc ∷ Qtype.hinfo ∷ Qtype.rp ∷ Qtype.cname ∷ Qtype.dhcid ∷ []

-- `rr.rtype in supported_types`, and with ANY beside them.
unfoldable pub is_supported : ℕ → Bool
is_supported rtype = member rtype supported_types

unfoldable pub is_deletable : ℕ → Bool
is_deletable rtype = member rtype (supported_types ++ Qtype.any ∷ [])

module _ ⦃E : External⦄ where
  -- `temp_prereq_rrset`: the records of each name and type, in the order of their first one.
  abbrev pub RrSets : Type 0
  RrSets = List (E.Label × ℕ × List UpdateRr)

  unfoldable pub add_value : RrSets → UpdateRr → RrSets
  add_value [] rr = (rr.rname, rr.rtype, rr ∷ []) ∷ []
  add_value ((name, rtype, values) ∷ sets) rr =
      let later = (name, rtype, values) ∷ add_value sets rr in
      if E.label_eq name rr.rname && rtype == rr.rtype
      then (name, rtype, values ++ rr ∷ []) ∷ sets
      else later

  -- A prerequisite of the classes ANY and NONE: records exist at the name, or do not.
  unfoldable pub check_exists : Db → Zone → E.Label → ℕ → RrSets → Checked RrSets
  check_exists db zone record_name rtype sets =
      if rtype == Qtype.any
      then if any_records db record_name zone true then pass sets else refuse Rcode.nxdomain
      else if any_record_type db record_name zone rtype
      then pass sets
      else refuse Rcode.nxrrset

  unfoldable pub check_missing : Db → Zone → E.Label → ℕ → RrSets → Checked RrSets
  check_missing db zone record_name rtype sets =
      if rtype == Qtype.any
      then if any_records db record_name zone true then refuse Rcode.yxdomain else pass sets
      else if any_record_type db record_name zone rtype
      then refuse Rcode.yxrrset
      else pass sets

  -- One turn of the loop over the prerequisites.
  unfoldable pub check_prerequisite : Db → E.Label → Zone → ℕ → RrSets → UpdateRr → Checked RrSets
  unfolding check_exists check_missing add_value
  check_prerequisite db zone_name zone qclass sets rr =
      if not (rr.ttl == 0)
      then refuse Rcode.formerr
      else if not (E.match_suffix rr.rname zone_name)
      then refuse Rcode.notzone
      else if rr.rclass == class_any
      then if has_data rr.rdata
        then refuse Rcode.formerr
        else check_exists db zone (name_within rr.rname zone_name) rr.rtype sets
      else if rr.rclass == class_none
      then if has_data rr.rdata
        then refuse Rcode.formerr
        else check_missing db zone (name_within rr.rname zone_name) rr.rtype sets
      else if rr.rclass == qclass
      then pass (add_value sets rr)
      else refuse Rcode.formerr

  unfoldable pub check_prerequisites :
      Db → E.Label → Zone → ℕ → RrSets → List UpdateRr → Checked RrSets
  unfolding check_prerequisite
  check_prerequisites db zone_name zone qclass sets [] = pass sets
  check_prerequisites db zone_name zone qclass sets (rr ∷ rrs) =
      and_then (check_prerequisite db zone_name zone qclass sets rr)
        λ more. check_prerequisites db zone_name zone qclass more rrs

  -- `rr.ttl = 0` on a record that was found; `dnslib.RR` has the class IN of its own.
  unfoldable pub zero_ttl : Rr → UpdateRr
  zero_ttl r = record {
    rname = r.rname;
    rtype = r.rtype;
    rclass = class_in;
    ttl = 0;
    rdata = some r.rdata;
  }

  module _ ⦃W : Wire⦄ where
    -- `!=` on two lists, negated.
    unfoldable pub same_rrs : List UpdateRr → List UpdateRr → Bool
    same_rrs [] [] = true
    same_rrs (r ∷ rs) (s ∷ ss) = W.rr_eq r s && same_rrs rs ss
    same_rrs _ _ = false

    unfoldable pub sort_checked : List UpdateRr → Result (List UpdateRr)
    sort_checked rrs = elim (W.sort_rrs rrs) [ none ↦ err type_error | some sorted ↦ ok sorted ]

    -- One turn of the loop over `temp_prereq_rrset`.
    unfoldable pub check_rrset :
        Db → ℕ → E.Label → Zone → E.Label × ℕ × List UpdateRr → Response → Result (Checked Response)
    unfolding sort_checked same_rrs zero_ttl
    check_rrset db fuel zone_name zone (rname, rtype, values) dns_res = do
      looked ← prerequisite_lookup db fuel zone_name zone rname rtype dns_res
      wanted ← sort_checked values
      found ← sort_checked (map zero_ttl looked.0.rr)
      ok (if same_rrs wanted found then pass looked.1 else refuse Rcode.yxrrset)

    -- The next turn of that loop, if there is one.
    unfoldable pub continue_checked :
        (Response → Result (Checked Response)) → Checked Response → Result (Checked Response)
    continue_checked next (refuse rcode) = ok (refuse rcode)
    continue_checked next (pass dns_res) = next dns_res

    unfoldable pub check_rrsets :
        Db → ℕ → E.Label → Zone → RrSets → Response → Result (Checked Response)
    unfolding check_rrset continue_checked
    check_rrsets db fuel zone_name zone [] dns_res = ok (pass dns_res)
    check_rrsets db fuel zone_name zone (rrset ∷ sets) dns_res = do
      checked ← check_rrset db fuel zone_name zone rrset dns_res
      continue_checked (λ more. check_rrsets db fuel zone_name zone sets more) checked

  -- One turn of the loop of the prescan; `none` is the next turn.
  unfoldable pub prescan_rr : E.Label → ℕ → UpdateRr → Option ℕ
  prescan_rr zone_name qclass rr =
      if not (member rr.rclass (class_any ∷ class_none ∷ qclass ∷ []))
      then some Rcode.yxrrset
      else if not (E.match_suffix rr.rname zone_name)
      then some Rcode.notzone
      else if rr.rclass == qclass
      then if is_supported rr.rtype then none else some Rcode.formerr
      else if rr.rclass == class_any
      then if has_data rr.rdata || not (is_deletable rr.rtype) || not (rr.ttl == 0)
        then some Rcode.formerr
        else none
      else if rr.rclass == class_none
      then if not (rr.ttl == 0) || not (is_supported rr.rtype) then some Rcode.formerr else none
      else some Rcode.formerr

  unfoldable pub prescan : E.Label → ℕ → List UpdateRr → Option ℕ
  unfolding prescan_rr
  prescan zone_name qclass [] = none
  prescan zone_name qclass (rr ∷ rrs) = elim (prescan_rr zone_name qclass rr) [
    | none ↦ prescan zone_name qclass rrs
    | some rcode ↦ some rcode
  ]
