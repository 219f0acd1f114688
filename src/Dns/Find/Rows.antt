-- ===== src/Dns/Find/Rows.antt =====
-- Which rows `find_records` gives.
use mathlib.Core.List.{Memᴰ}
use mathlib.Core.List.Memᴰ
use hexdns.Common.{
  true, ◌≡◌, refl, inl, inr, List, [], ◌∷◌, Bytes, bytes_eq, bytes_eq_iff, ==_iff, Bool-cases, ◌↔◌,
}
use hexdns.Dns.External.{External}
use hexdns.Dns.Find.{at_name, nonempty, search_name, wildcard_search_name, find_records}
use hexdns.Dns.Store.{Row, Zone}

-- The row belongs to the zone and has the name.
pub record IsAt {D : Type 0} (name : Bytes) (zone : Zone) (r : Row D) : Type 0 where
  pub named : r.record_name ≡ name
  pub owned : r.zone ≡ zone.id

pub at_name-IsAt :
    {D : Type 0} (name : Bytes) (zone : Zone) (r : Row D)
    → at_name name zone r ≡ true
    → IsAt name zone r
at_name-IsAt name zone r h = elim (Bool-cases (bytes_eq r.record_name name)) [
  | inl same ↦ record {
    named = (bytes_eq_iff _ _).0 same;
    owned = (==_iff r.zone zone.id).0 (rw same at h);
  }
  | inr other ↦ cc (rw other at h)
]

pub at_name_of_IsAt :
    {D : Type 0} (name : Bytes) (zone : Zone) (r : Row D)
    → IsAt name zone r
    → at_name name zone r ≡ true
at_name_of_IsAt name zone r h =
    rw ((bytes_eq_iff r.record_name name).1 h.named) ((==_iff r.zone zone.id).1 h.owned)

pub nonempty_of_mem : {A : Type 0} (xs : List A) {x : A} → Memᴰ x xs → nonempty xs ≡ true
unfolding nonempty
nonempty_of_mem (y ∷ ys) m = refl
nonempty_of_mem [] m = absurd (Memᴰ.not-nil m)

pub mem_of_nonempty : {A : Type 0} (xs : List A) → nonempty xs ≡ true → (x : A) × Memᴰ x xs
unfolding nonempty
mem_of_nonempty [] h = cc
mem_of_nonempty (x ∷ xs) h = (x, Memᴰ.head refl)

module _ ⦃E : External⦄ {D : Type 0} (table : List (Row D)) (zone : Zone) where
  -- The rows given are those of the table that belong to the zone and have the name.
  abbrev pub IsSelection : Bytes → List (Row D) → Type 0
  IsSelection name rows = (r : Row D) → Memᴰ r rows ↔ (Memᴰ r table × IsAt name zone r)

  filter-IsSelection :
      (name : Bytes) → IsSelection name (E.filter (Row D) (at_name name zone) table)
  filter-IsSelection name r = (
    λ m.
        let (t, p) = E.mem_of_mem-filter (Row D) (at_name name zone) table r m in
        (t, at_name-IsAt name zone r p),
    λ h.
        E.mem-filter_of_mem (Row D) (at_name name zone) table r h.0
          (at_name_of_IsAt name zone r h.1),
  )

  -- If the zone has a row of exactly the name asked for, `find_records` gives the rows of that name
  -- and the zone, and no other; if it has none, it gives the zone's rows of the wildcard that
  -- stands in place of the name's first label, and no other.
  pub find_records-IsSelection :
      (rname : E.Label)
      → ((r : Row D)
          → Memᴰ r table
          → IsAt (search_name rname) zone r
          → IsSelection (search_name rname) (find_records table rname zone))
        × (((r : Row D) → Memᴰ r table → IsAt (search_name rname) zone r → ⊥)
            → IsSelection (wildcard_search_name rname) (find_records table rname zone))
  unfolding find_records
  find_records-IsSelection rname =
      let exact = E.filter (Row D) (at_name (search_name rname) zone) table in
      (
        λ r m at.
            rw (nonempty_of_mem exact ((filter-IsSelection (search_name rname) r).1 (m, at)))
              (filter-IsSelection (search_name rname)),
        λ none_. elim (Bool-cases (nonempty exact)) [
          | inl some_ ↦
              let (r, m) = mem_of_nonempty exact some_ in
              let (t, at) = (filter-IsSelection (search_name rname) r).0 m in absurd (none_ r t at)
          | inr empty ↦ rw empty (filter-IsSelection (wildcard_search_name rname))
        ],
      )
