-- ===== src/Update/Scan/Prerequisites.antt =====
-- Which prerequisites pass the first loop (for RFC 2136, sections 3.2.1 and 3.2.2), by the rows of the
-- tables.
use hexdns.Common.{
  ◌≡◌, ◌≢◌, refl, ◌↔◌, inl, inr, Bool, true, false, ◌==◌, Bool-cases, List, [], ◌∷◌, All, none,
  arith,
}
use hexdns.Dns.External.{External}
use hexdns.Dns.Qtype
use hexdns.Dns.Store.{Zone, Db}
use hexdns.Dns.Find.{name_within}
use hexdns.Dns.AnyRecords.{any_records, any_record_type}
use hexdns.Dns.AnyRecords.Standing.{
  NameInUse, TypeInUse, any_records_iff, any_record_type_iff, iff_not,
}
use hexdns.Update.Request.{class_in, class_none, class_any, UpdateRr}
use hexdns.Update.Scan.{
  Checked, refuse, pass, and_then, RrSets, check_prerequisite, check_prerequisites,
}

-- The check passed.
abbrev pub Passes {ℓ} : {A : Type ℓ} → Checked A → Type ℓ
Passes {A} c = (a : A) × (c ≡ pass a)

-- Whether it passes does not depend on the value.
abbrev passes {ℓ} : {A : Type ℓ} → Checked A → Bool
passes (refuse rcode) = false
passes (pass a) = true

Passes-iff {ℓ} : {A : Type ℓ} (c : Checked A) → Passes c ↔ (passes c ≡ true)
Passes-iff (refuse rcode) = (λ h. cc h.1, λ h. cc)
Passes-iff (pass a) = (λ h. refl, λ h. (a, refl))

module _ ⦃E : External⦄ (db : Db) (zone_name : E.Label) (zone : Zone) where
  -- The name within the zone, as the queries take it.
  abbrev pub name_of : UpdateRr → E.Label
  name_of rr = name_within rr.rname zone_name

  -- What a prerequisite of a class says of the tables; one of class IN is compared later.
  pub data Says (rr : UpdateRr) : Type 0 where
    name_in_use :
        rr.rclass ≡ class_any
        → rr.rdata ≡ none
        → rr.rtype ≡ Qtype.any
        → NameInUse db (name_of rr) zone
        → Says rr
    set_exists :
        rr.rclass ≡ class_any
        → rr.rdata ≡ none
        → rr.rtype ≢ Qtype.any
        → TypeInUse db (name_of rr) zone rr.rtype
        → Says rr
    name_free :
        rr.rclass ≡ class_none
        → rr.rdata ≡ none
        → rr.rtype ≡ Qtype.any
        → (NameInUse db (name_of rr) zone → ⊥)
        → Says rr
    set_missing :
        rr.rclass ≡ class_none
        → rr.rdata ≡ none
        → rr.rtype ≢ Qtype.any
        → (TypeInUse db (name_of rr) zone rr.rtype → ⊥)
        → Says rr
    valued : rr.rclass ≡ class_in → Says rr

  -- What the two queries tell of the tables.
  name_used :
      (rr : UpdateRr)
      → (any_records db (name_of rr) zone true ≡ true) ↔ NameInUse db (name_of rr) zone
  name_used rr = any_records_iff db (name_of rr) zone

  type_used :
      (rr : UpdateRr)
      → (any_record_type db (name_of rr) zone rr.rtype ≡ true)
        ↔ TypeInUse db (name_of rr) zone rr.rtype
  type_used rr = any_record_type_iff db (name_of rr) zone rr.rtype

  -- A prerequisite in good form, in the zone, that holds.
  pub record Holds (rr : UpdateRr) : Type 0 where
    pub no_ttl : rr.ttl ≡ 0
    pub in_zone : E.match_suffix rr.rname zone_name ≡ true
    pub says : Says rr

  check_prerequisite-Holds :
      (sets : RrSets) (rr : UpdateRr)
      → passes (check_prerequisite db zone_name zone class_in sets rr) ≡ true
      → Holds rr
  unfolding check_prerequisite
  check_prerequisite-Holds sets rr h = elim (Bool-cases (rr.rclass == class_any)) [
    | inl every ↦ record {
      no_ttl = ground arith;
      in_zone = ground arith;
      says = elim (Bool-cases (rr.rtype == Qtype.any)) [
        | inl all_types ↦
            name_in_use (ground arith) (ground arith) (ground arith)
              ((name_used rr).0 (ground arith))
        | inr one_type ↦
            set_exists (ground arith) (ground arith) (ground arith)
              ((type_used rr).0 (ground arith))
      ];
    }
    | inr other ↦ elim (Bool-cases (rr.rclass == class_none)) [
      | inl absent ↦ record {
        no_ttl = ground arith;
        in_zone = ground arith;
        says = elim (Bool-cases (rr.rtype == Qtype.any)) [
          | inl all_types ↦
              name_free (ground arith) (ground arith) (ground arith)
                ((iff_not (name_used rr)).0 (ground arith))
          | inr one_type ↦
              set_missing (ground arith) (ground arith) (ground arith)
                ((iff_not (type_used rr)).0 (ground arith))
        ];
      }
      | inr rest ↦ record {
        no_ttl = ground arith;
        in_zone = ground arith;
        says = valued (ground arith);
      }
    ]
  ]

  check_prerequisite_of_Says :
      (sets : RrSets) (rr : UpdateRr)
      → rr.ttl ≡ 0
      → E.match_suffix rr.rname zone_name ≡ true
      → Says rr
      → passes (check_prerequisite db zone_name zone class_in sets rr) ≡ true
  unfolding check_prerequisite
  check_prerequisite_of_Says sets rr t m (name_in_use c d any_ found) =
      let used = (name_used rr).1 found in ground arith
  check_prerequisite_of_Says sets rr t m (set_exists c d one found) =
      let used = (type_used rr).1 found in ground arith
  check_prerequisite_of_Says sets rr t m (name_free c d any_ free) =
      let used = (iff_not (name_used rr)).1 free in ground arith
  check_prerequisite_of_Says sets rr t m (set_missing c d one free) =
      let used = (iff_not (type_used rr)).1 free in ground arith
  check_prerequisite_of_Says sets rr t m (valued c) = ground arith

  check_prerequisites_step :
      (sets : RrSets) (rr : UpdateRr) (rrs : List UpdateRr)
      → ((more : RrSets)
          → (passes (check_prerequisites db zone_name zone class_in more rrs) ≡ true)
            ↔ All Holds rrs)
      → (passes (check_prerequisites db zone_name zone class_in sets (rr ∷ rrs)) ≡ true)
        ↔ All Holds (rr ∷ rrs)
  unfolding check_prerequisites
  check_prerequisites_step sets rr rrs rest =
      let first = check_prerequisite db zone_name zone class_in sets rr in
      let one = check_prerequisite-Holds sets rr in
      let back = λ (h : Holds rr). check_prerequisite_of_Says sets rr h.no_ttl h.in_zone h.says in
      go first one back
    where
      go :
          (c : Checked RrSets)
          → (passes c ≡ true → Holds rr)
          → (Holds rr → passes c ≡ true)
          → (passes (and_then c λ more. check_prerequisites db zone_name zone class_in more rrs)
              ≡ true)
            ↔ All Holds (rr ∷ rrs)
      go (refuse rcode) one back = (λ h. cc, λ h. cc (back h.0))
      go (pass more) one back = (λ h. (one refl, (rest more).0 h), λ h. (rest more).1 h.1)

  passes_iff-Holds :
      (sets : RrSets) (rrs : List UpdateRr)
      → (passes (check_prerequisites db zone_name zone class_in sets rrs) ≡ true) ↔ All Holds rrs
  unfolding check_prerequisites
  passes_iff-Holds sets [] = (λ h. tt, λ h. refl)
  passes_iff-Holds sets (rr ∷ rrs) =
      check_prerequisites_step sets rr rrs (λ more. passes_iff-Holds more rrs)

  -- In an update of class IN the prerequisites pass the first loop exactly if each has no time to
  -- live, lies in the zone and is of one of five kinds: without data, of class ANY, and of a name or a
  -- type in use; without data, of class NONE, and of a name or a type that is not in use; or of class
  -- IN. A name is in use if some table but that of the DHCID records has a row of the zone at it or at
  -- its wildcard (the HTTPS table: of the port and scheme that the name gives). A type is in use if
  -- its table has a row at exactly the name, or for A and AAAA if find_records gives an address of
  -- that family; DHCID and the types without a table never are.
  pub check_prerequisites-Holds :
      (sets : RrSets) (rrs : List UpdateRr)
      → Passes (check_prerequisites db zone_name zone class_in sets rrs) ↔ All Holds rrs
  check_prerequisites-Holds sets rrs =
      let c = check_prerequisites db zone_name zone class_in sets rrs in
      let both = passes_iff-Holds sets rrs in
      (λ h. both.0 ((Passes-iff c).0 h), λ h. (Passes-iff c).1 (both.1 h))
