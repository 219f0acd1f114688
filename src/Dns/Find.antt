-- ===== src/Dns/Find.antt =====
-- Finding the zone of a name and the rows of a record name: `find_zone`, `find_records` and
-- `parse_https_record_name` of grpc.py. A label of a name is
-- taken to be ASCII, so that `decode` keeps its bytes.
pub mod Zones
pub mod Rows
use hexdns.Common.{
  ℕ, Bool, true, false, not, ◌&&◌, ◌||◌, ◌==◌, ltb, if◌then◌else◌, List, [], ◌∷◌, ◌++◌, map, length,
  Bytes, codes, bytes_eq, ℤ, pos, eqℤ, Option, none, some,
}
use hexdns.Dns.External.{External}
use hexdns.Dns.Message.{Ip, v4, v6}
use hexdns.Dns.Qtype
use hexdns.Dns.Store.{Row, Zone, Db, Https}
use hexdns.Dns.IntText.{int_text}

-- `".".join(labels)`
unfoldable pub join_dots : List Bytes → Bytes
join_dots [] = []
join_dots (l ∷ []) = l
join_dots (l ∷ m ∷ ls) = l ++ codes "." ++ join_dots (m ∷ ls)

-- `labels[0] = b"*"`, if there is a label.
unfoldable pub wildcard_labels : List Bytes → List Bytes
wildcard_labels [] = []
wildcard_labels (l ∷ ls) = codes "*" ∷ ls

-- The test of `filter(record_name=name, zone=zone)` on a row.
abbrev pub at_name : {D : Type 0} → Bytes → Zone → Row D → Bool
at_name name zone r = bytes_eq r.record_name name && r.zone == zone.id

-- Some row, as `count()` in a condition.
unfoldable pub nonempty : {A : Type 0} → List A → Bool
nonempty [] = false
nonempty (x ∷ xs) = true

-- `startswith(b"_")` and the rest behind it.
unfoldable pub after_underscore : Bytes → Option Bytes
after_underscore [] = none
after_underscore (c ∷ cs) = if c == b'_' then some cs else none

-- The port and the scheme that the two first labels name.
unfoldable pub port_and_scheme : Bytes → Bytes → Option (ℤ × Bytes)
unfolding int_text after_underscore
port_and_scheme first second = elim (after_underscore first) [
  | none ↦ none
  | some digits ↦ elim (after_underscore second) [
    | none ↦ none
    | some scheme ↦ elim (int_text digits) [ none ↦ none | some port ↦ some (port, scheme) ]
  ]
]

-- The account is active, or could not be asked for a `RequestException`.
unfoldable pub active_or : Option Bool → Bool
active_or none = true
active_or (some active) = active

module _ ⦃E : External⦄ where
  -- `if len(record_name.label) == 0: record_name = DNSLabel("@")`, by the labels.
  unfoldable pub name_or_root : List Bytes → E.Label → E.Label
  name_or_root [] record_name = E.of_str (codes "@")
  name_or_root (l ∷ ls) record_name = record_name

  -- The name within a zone.
  unfoldable pub name_within : E.Label → E.Label → E.Label
  unfolding name_or_root
  name_within qname zone_root =
      let stripped = E.strip_suffix qname zone_root in name_or_root (E.label stripped) stripped

  -- `find_zone`: what one zone of the loop comes to; `none` is the next round.
  unfoldable pub zone_match : E.Label → Zone → Option (Option (Zone × E.Label))
  unfolding name_within active_or
  zone_match qname zone =
      let zone_root = E.of_str zone.zone_root in
      if E.match_suffix qname zone_root
      then (if active_or (E.subscription_active zone.id)
          then some (some (zone, name_within qname zone_root))
          else some none)
      else none

  unfoldable pub find_zone_in : E.Label → List Zone → Option (Zone × E.Label)
  unfolding zone_match
  find_zone_in qname [] = none
  find_zone_in qname (zone ∷ zones) = elim (zone_match qname zone) [
    | none ↦ find_zone_in qname zones
    | some result ↦ result
  ]

  unfoldable pub find_zone : Db → E.Label → Option (Zone × E.Label)
  unfolding find_zone_in
  find_zone db qname = find_zone_in qname (E.order_by_desc Zone (λ z. length z.zone_root) db.zones)

  -- The names that a record name is searched by: its own, and the wildcard's.
  unfoldable pub search_name : E.Label → Bytes
  unfolding join_dots
  search_name rname = join_dots (E.label rname)

  unfoldable pub wildcard_search_name : E.Label → Bytes
  unfolding join_dots wildcard_labels
  wildcard_search_name rname = join_dots (wildcard_labels (E.label rname))

  -- `find_records`
  unfoldable pub find_records : {D : Type 0} → List (Row D) → E.Label → Zone → List (Row D)
  unfolding search_name wildcard_search_name nonempty
  find_records {D} table rname zone =
      let records = E.filter (Row D) (at_name (search_name rname) zone) table in
      if nonempty records
      then records
      else E.filter (Row D) (at_name (wildcard_search_name rname) zone) table

  -- `parse_https_record_name`
  unfoldable pub parse_https_record_name : E.Label → ℤ × Bytes × E.Label
  unfolding port_and_scheme
  parse_https_record_name record_name = elim (E.label record_name) [
    | first ∷ second ∷ rest ↦ elim (port_and_scheme first second) [
      | none ↦ (pos 443, codes "https", record_name)
      | some ps ↦
          (ps.0, ps.1, elim rest [ [] ↦ E.of_str (codes "@") | l ∷ ls ↦ E.of_labels (l ∷ ls) ])
    ]
    | _ ↦ (pos 443, codes "https", record_name)
  ]
