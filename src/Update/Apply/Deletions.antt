-- ===== src/Update/Apply/Deletions.antt =====
-- Which rows a deletion takes away, and what that means for the zone's own name.
pub mod Handlers
use mathlib.Core.List.{Memᴰ}
use mathlib.Core.List.Memᴰ
use mathlib.Core.Path.{subst}
use hexdns.Common.{
  ℕ, ◌≡◌, ◌≢◌, refl, sym, ◌∙◌, ◌↔◌, inl, inr, Bool, true, false, ◌==◌, ==_iff, ◌&&◌, Bool-cases,
  Option-cases, List, [], ◌∷◌, ap, Option, some, Bytes, codes, arith,
}
use hexdns.Dns.External.{External}
use hexdns.Dns.Qtype
use hexdns.Dns.Message.{Rr}
use hexdns.Dns.Store.{Row, Zone, Db}
use hexdns.Dns.Find.{search_name, wildcard_search_name, find_records, wildcard_labels, join_dots}
use hexdns.Dns.Find.Rows.{IsAt, find_records-IsSelection}
use hexdns.Update.Request.{Key, UpdateRr, Wire}
use hexdns.Update.Tables.{
  Kind, address, ds, Body, rows, set_rows, Store, delete_row, remove_row, queues_delete,
}
use hexdns.Update.Kinds.{kind_of, to_rr}
use hexdns.Update.Apply.{
  Applied, done, records_of, remove_matching, delete_type, apply_delete, same_data, delete_data,
  apply_delete_one, check_managed,
}
use hexdns.Update.Apply.Acme.{Manages}
use hexdns.Update.Isolation.{IsWellKeyed}
use hexdns.Update.Isolation.Rows.{IsKeyed}

module _ {D : Type 0} where
  -- A row of the table with the key of one of the records is that record.
  abbrev pub Known : List (Row D) → Row D → Type 0
  Known table q = (p : Row D) → Memᴰ p table → p.pk ≡ q.pk → p ≡ q

  mem-delete_row :
      (pk : ℕ) (table : List (Row D)) (r : Row D)
      → Memᴰ r (delete_row pk table) ↔ (Memᴰ r table × (r.pk ≢ pk))
  unfolding delete_row
  mem-delete_row pk [] r = (λ m. absurd (Memᴰ.not-nil m), λ h. absurd (Memᴰ.not-nil h.0))
  mem-delete_row pk (q ∷ qs) r = elim (Bool-cases (q.pk == pk)) [
    | inl same ↦
        rw (same, delete_row)
          (
            λ m. let rest = (mem-delete_row pk qs r).0 m in (Memᴰ.tail rest.0, rest.1),
            λ h. elim (Memᴰ.cases_cons h.0) [
              | inl e ↦ absurd (h.1 (rw e ((==_iff q.pk pk).0 same)))
              | inr m ↦ (mem-delete_row pk qs r).1 (m, h.1)
            ],
          )
    | inr other ↦
        rw (other, delete_row)
          (
            λ m. elim (Memᴰ.cases_cons m) [
              | inl e ↦ (Memᴰ.head e, λ same. cc ((==_iff q.pk pk).1 (rw e at same)))
              | inr m' ↦ let rest = (mem-delete_row pk qs r).0 m' in (Memᴰ.tail rest.0, rest.1)
            ],
            λ h. elim (Memᴰ.cases_cons h.0) [
              | inl e ↦ Memᴰ.head e
              | inr m ↦ Memᴰ.tail ((mem-delete_row pk qs r).1 (m, h.1))
            ],
          )
  ]

-- The rows of the table without those of a list that satisfy a predicate.
abbrev pub Spared : {D : Type 0} → (Row D → Type 0) → List (Row D) → List (Row D) → Row D → Type 0
Spared P table records r = Memᴰ r table × ((Memᴰ r records × P r) → ⊥)

module _ {D : Type 0} (P : Row D → Type 0) (table qs : List (Row D)) (q r : Row D) where
  Spared-delete_row :
      Known table q → P q → Spared P (delete_row q.pk table) qs r ↔ Spared P table (q ∷ qs) r
  Spared-delete_row known goes = (
    λ h.
        let kept = (mem-delete_row q.pk table r).0 h.0 in
        (
          kept.0,
          λ gone. elim (Memᴰ.cases_cons gone.0) [
            | inl e ↦ kept.1 (ap (λ (p : Row D). p.pk) e)
            | inr m ↦ h.1 (m, gone.1)
          ],
        ),
    λ h. (
      (mem-delete_row q.pk table r).1
          (h.0, λ same. let e = known r h.0 same in h.1 (Memᴰ.head e, subst P (sym e) goes)),
      λ gone. h.1 (Memᴰ.tail gone.0, gone.1),
    ),
  )

  Spared-stays : (P q → ⊥) → Spared P table qs r ↔ Spared P table (q ∷ qs) r
  Spared-stays stays = (
    λ h. (
      h.0,
      λ gone. elim (Memᴰ.cases_cons gone.0) [
        | inl e ↦ stays (subst P e gone.1)
        | inr m ↦ h.1 (m, gone.1)
      ],
    ),
    λ h. (h.0, λ gone. h.1 (Memᴰ.tail gone.0, gone.1)),
  )

rows-set_rows : (k : Kind) (l : List (Row (Body k))) (db : Db) → rows k (set_rows k l db) ≡ l
unfolding rows set_rows
rows-set_rows address l db = refl
rows-set_rows _ l db = refl

rows-remove_row :
    (k : Kind) (r : Row (Body k)) (s : Store)
    → rows k (remove_row k r s).db ≡ delete_row r.pk (rows k s.db)
unfolding remove_row
rows-remove_row k r s = elim (Bool-cases (queues_delete k)) [
  | inl queues ↦ rw (queues, remove_row) (rows-set_rows k _ s.db)
  | inr silent ↦ rw (silent, remove_row) (rows-set_rows k _ s.db)
]

module _ ⦃E : External⦄ where
  -- The test holds of what the row is turned into.
  abbrev pub Passing : (k : Kind) → (Rr → Bool) → E.Label → Row (Body k) → Type 0
  Passing k test rname r = (found : Rr) × (to_rr k rname r ≡ some found) × (test found ≡ true)

  -- The tables of the kind after the rows of a list that pass a test were deleted: no more and no
  -- less than these are gone.
  pub record Removed (k : Kind) (test : Rr → Bool) (rname : E.Label) (records : List (Row (Body k)))
      (s : Store) (m : Applied) : Type 0 where
    pub after : Store
    pub returns : m ≡ done after
    pub left :
        (r : Row (Body k))
        → Memᴰ r (rows k after.db) ↔ Spared (Passing k test rname) (rows k s.db) records r

  module _ ⦃W : Wire⦄ (k : Kind) (test : Rr → Bool) (rname : E.Label)
      (turns : (q : Row (Body k)) → (found : Rr) × (to_rr k rname q ≡ some found)) where
    pub remove_matching-Removed :
        (records : List (Row (Body k))) (s : Store)
        → ((q : Row (Body k)) → Memᴰ q records → Known (rows k s.db) q)
        → Removed k test rname records s (remove_matching k test rname records s)
    unfolding remove_matching
    remove_matching-Removed [] s known = record {
      after = s;
      returns = refl;
      left = λ r. (λ m. (m, λ h. Memᴰ.not-nil h.0), λ h. h.0);
    }
    remove_matching-Removed (q ∷ qs) s known =
        let P = Passing k test rname in
        let (found, turned) = turns q in
        elim (Bool-cases (test found)) [
          | inl goes ↦
              let rest = remove_matching-Removed qs (remove_row k q s) (λ p m.
                subst (λ (table : List (Row (Body k))). Known table p) (sym (rows-remove_row k q s))
                  (λ o there.
                    known p (Memᴰ.tail m) o ((mem-delete_row q.pk (rows k s.db) o).0 there).0)) in
              rw (turned, goes, remove_matching)
                (record {
                  after = rest.after;
                  returns = rest.returns;
                  left = λ r.
                      let step =
                        Spared-delete_row P (rows k s.db) qs q r (known q (Memᴰ.head refl))
                          (found, turned, goes) in
                      let last =
                        subst
                          (λ (table : List (Row (Body k))).
                            Memᴰ r (rows k rest.after.db) ↔ Spared P table qs r)
                          (rows-remove_row k q s) (rest.left r) in
                      (λ m. step.0 (last.0 m), λ h. last.1 (step.1 h));
                })
          | inr stays ↦
              let rest = remove_matching-Removed qs s (λ p m. known p (Memᴰ.tail m)) in
              rw (turned, stays, remove_matching)
                (record {
                  after = rest.after;
                  returns = rest.returns;
                  left = λ r.
                      let step =
                        Spared-stays P (rows k s.db) qs q r
                          λ passing. cc (turned, stays, passing.1, passing.2) in
                      (λ m. step.0 ((rest.left r).0 m), λ h. (rest.left r).1 (step.1 h));
                })
        ]
