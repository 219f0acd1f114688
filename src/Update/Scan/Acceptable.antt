-- ===== src/Update/Scan/Acceptable.antt =====
-- Which update sections pass the prescan, against RFC 2136, section 3.4.1.
use hexdns.Common.{
  ℕ, ◌≡◌, refl, ◌∙◌, ◌↔◌, ◌⊎◌, inl, inr, true, ◌==◌, ==_iff, ◌||◌, Bool-cases, Option-cases, List,
  [], ◌∷◌, ◌++◌, All, none, arith,
}
use hexdns.Dns.External.{External}
use hexdns.Dns.Qtype
use hexdns.Update.Request.{class_in, class_none, class_any, UpdateRr}
use hexdns.Update.Scan.{member, supported_types, is_supported, is_deletable, prescan_rr, prescan}

-- One of the numbers of a list.
abbrev pub OneOf : ℕ → List ℕ → Type 0
OneOf n [] = ⊥
OneOf n (m ∷ ms) = (n ≡ m) ⊎ OneOf n ms

member_iff : (n : ℕ) (ms : List ℕ) → (member n ms ≡ true) ↔ OneOf n ms
member_iff n [] = (λ h. cc, λ h. absurd h)
member_iff n (m ∷ ms) = elim (Bool-cases (n == m)) [
  | inl same ↦ rw same (λ h. inl ((==_iff n m).0 same), λ h. refl)
  | inr other ↦ rw other (
    λ h. inr ((member_iff n ms).0 h),
    λ h. elim h [ inl e ↦ cc ((==_iff n m).1 e) | inr rest ↦ (member_iff n ms).1 rest ],
  )
]

is_supported_iff : (n : ℕ) → (is_supported n ≡ true) ↔ OneOf n supported_types
unfolding is_supported
is_supported_iff n = member_iff n supported_types

member-append : (n k : ℕ) (ms : List ℕ) → member n (ms ++ k ∷ []) ≡ (member n ms || n == k)
member-append n k [] = ground arith
member-append n k (m ∷ ms) = ground (arith, member-append n k ms)

is_deletable_lem : (n : ℕ) → is_deletable n ≡ (is_supported n || n == Qtype.any)
unfolding is_deletable is_supported
is_deletable_lem n = member-append n Qtype.any supported_types

is_deletable_iff : (n : ℕ) → (is_deletable n ≡ true) ↔ (OneOf n supported_types ⊎ (n ≡ Qtype.any))
is_deletable_iff n = elim (Bool-cases (is_supported n)) [
  | inl known ↦ (λ h. inl ((is_supported_iff n).0 known), λ h. is_deletable_lem n ∙ rw known refl)
  | inr unknown ↦ (
    λ h. inr (ground (arith, is_deletable_lem n)),
    λ h. elim h [
      | inl one ↦ cc ((is_supported_iff n).1 one)
      | inr any_ ↦ is_deletable_lem n ∙ rw (unknown, any_) refl
    ],
  )
]

module _ ⦃E : External⦄ where
  -- The three forms of a record of the update section.
  pub data Form (rr : UpdateRr) : Type 0 where
    addition : rr.rclass ≡ class_in → OneOf rr.rtype supported_types → Form rr
    deletion_of_set :
        rr.rclass ≡ class_any
        → rr.rdata ≡ none
        → rr.ttl ≡ 0
        → OneOf rr.rtype supported_types ⊎ (rr.rtype ≡ Qtype.any)
        → Form rr
    deletion_of_record :
        rr.rclass ≡ class_none → rr.ttl ≡ 0 → OneOf rr.rtype supported_types → Form rr

  -- The record lies in the zone and has one of the forms.
  abbrev pub Acceptable : E.Label → UpdateRr → Type 0
  Acceptable zone_name rr = (E.match_suffix rr.rname zone_name ≡ true) × Form rr

  prescan_rr-Acceptable :
      (zone_name : E.Label) (rr : UpdateRr)
      → prescan_rr zone_name class_in rr ≡ none
      → Acceptable zone_name rr
  unfolding prescan_rr
  prescan_rr-Acceptable zone_name rr h = elim (Bool-cases (rr.rclass == class_in)) [
    | inl add ↦
        (ground arith, addition (ground arith) ((is_supported_iff rr.rtype).0 (ground arith)))
    | inr other ↦ elim (Bool-cases (rr.rclass == class_any)) [
      | inl every ↦ (
        ground arith,
        deletion_of_set (ground arith) (ground arith) (ground arith)
            ((is_deletable_iff rr.rtype).0 (ground arith)),
      )
      | inr rest ↦ (
        ground arith,
        deletion_of_record (ground arith) (ground arith)
            ((is_supported_iff rr.rtype).0 (ground arith)),
      )
    ]
  ]

  prescan_rr-none :
      (zone_name : E.Label) (rr : UpdateRr)
      → Acceptable zone_name rr
      → prescan_rr zone_name class_in rr ≡ none
  unfolding prescan_rr
  prescan_rr-none zone_name rr (m, addition c t) =
      let known = (is_supported_iff rr.rtype).1 t in ground arith
  prescan_rr-none zone_name rr (m, deletion_of_set c d z t) =
      let known = (is_deletable_iff rr.rtype).1 t in ground arith
  prescan_rr-none zone_name rr (m, deletion_of_record c z t) =
      let known = (is_supported_iff rr.rtype).1 t in ground arith

  -- The prescan of an update of class IN finds nothing wrong exactly if every record of the section
  -- lies in the zone and is an addition of a supported type, a deletion of a set of a supported type
  -- or of all with no data and no time to live, or a deletion of a record of a supported type with
  -- no time to live.
  pub prescan-Acceptable :
      (zone_name : E.Label) (rrs : List UpdateRr)
      → (prescan zone_name class_in rrs ≡ none) ↔ All (Acceptable zone_name) rrs
  unfolding prescan
  prescan-Acceptable zone_name [] = (λ h. tt, λ h. refl)
  prescan-Acceptable zone_name (rr ∷ rrs) = elim (Option-cases (prescan_rr zone_name class_in rr)) [
    | inl clean ↦
        rw (clean, prescan)
          (
            λ h. (prescan_rr-Acceptable zone_name rr clean, (prescan-Acceptable zone_name rrs).0 h),
            λ h. (prescan-Acceptable zone_name rrs).1 h.1,
          )
    | inr (rcode, bad) ↦ rw (bad, prescan) (λ h. cc, λ h. cc (prescan_rr-none zone_name rr h.0))
  ]
