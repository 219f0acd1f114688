-- ===== src/Update/Apply/Deletions/Handlers.antt =====
-- What the deletions of the update section take away: section 3.4.2.3 for one type, and section
-- 3.4.2.4.
use mathlib.Core.List.{Memᴰ}
use mathlib.Core.List.Memᴰ
use hexdns.Common.{
  ℕ, ◌≡◌, ◌≢◌, refl, sym, ◌∙◌, inl, inr, Bool, ◌==◌, ◌&&◌, Bool-cases, List, [], ◌∷◌, some, ap, ◌⊎◌,
  ==_iff, ◌↔◌,
}
use hexdns.Dns.External.{External}
use hexdns.Dns.Qtype
use hexdns.Dns.Message.{Rr}
use hexdns.Dns.Store.{Row, Zone}
use hexdns.Dns.Find.{at_name, nonempty, search_name, wildcard_search_name, find_records}
use hexdns.Dns.Find.Rows.{at_name-IsAt}
use hexdns.Update.Request.{Key, UpdateRr, Wire}
use hexdns.Update.Tables.{Kind, address, ds, Body, rows, Store}
use hexdns.Update.Kinds.{kind_of, to_rr}
use hexdns.Update.Apply.{
  done, records_of, remove_matching, delete_type, apply_delete, same_data, delete_data,
  apply_delete_one, check_managed,
}
use hexdns.Update.Apply.Acme.{Manages}
use hexdns.Update.Apply.Deletions.{Known, Removed, remove_matching-Removed}
use hexdns.Update.Isolation.{IsWellKeyed}
use hexdns.Update.Isolation.Rows.{IsKeyed}
use hexdns.Update.Isolation.Records.{ne_of_mem}

Known-of_IsKeyed :
    {D : Type 0} (next : ℕ) (table : List (Row D)) (q : Row D)
    → IsKeyed next table
    → Memᴰ q table
    → Known table q
Known-of_IsKeyed {D} next [] q keyed m = absurd (Memᴰ.not-nil m)
Known-of_IsKeyed {D} next (r ∷ rs) q keyed m = λ p n same. elim (Memᴰ.cases_cons m) [
  | inl e ↦ elim (Memᴰ.cases_cons n) [
    | inl e' ↦ e' ∙ sym e
    | inr n' ↦ absurd (ne_of_mem r.pk p rs keyed.1 n' (same ∙ ap (λ (x : Row D). x.pk) e))
  ]
  | inr m' ↦ elim (Memᴰ.cases_cons n) [
    | inl e' ↦ absurd (ne_of_mem r.pk q rs keyed.1 m' (sym same ∙ ap (λ (x : Row D). x.pk) e'))
    | inr n' ↦ Known-of_IsKeyed next rs q keyed.2 m' p n' same
  ]
]

module _ ⦃E : External⦄ where
  -- Every row but one of a DS record becomes a resource record.
  to_rr-some :
      (k : Kind) (rname : E.Label) (q : Row (Body k))
      → k ≢ ds
      → (found : Rr) × (to_rr k rname q ≡ some found)
  unfolding to_rr
  to_rr-some ds rname q other = absurd (other refl)
  to_rr-some address rname q other = (_, refl)
  to_rr-some _ rname q other = (_, refl)

  -- What `find_records` gives stands in the table, at the name or at its wildcard.
  mem-find_records :
      {D : Type 0} (table : List (Row D)) (name : E.Label) (zone : Zone) (q : Row D)
      → Memᴰ q (find_records table name zone)
      → Memᴰ q table
        × ((q.record_name ≡ search_name name) ⊎ (q.record_name ≡ wildcard_search_name name))
  unfolding find_records
  mem-find_records {D} table name zone q m =
      elim (Bool-cases (nonempty (E.filter (Row D) (at_name (search_name name) zone) table))) [
        | inl some_ ↦
            let (t, at) =
              E.mem_of_mem-filter (Row D) (at_name (search_name name) zone) table q
                (rw some_ at m) in
            (t, inl (at_name-IsAt (search_name name) zone q at).named)
        | inr empty ↦
            let (t, at) =
              E.mem_of_mem-filter (Row D) (at_name (wildcard_search_name name) zone) table q
                (rw empty at m) in
            (t, inr (at_name-IsAt (wildcard_search_name name) zone q at).named)
      ]

  -- A name without labels is searched as the empty text, and so is its wildcard.
  apex_empty :
      {D : Type 0} {q : Row D} (zone : Zone) (name : E.Label) (table : List (Row D))
      → E.label name ≡ []
      → ((r : Row D) → Memᴰ r table → r.record_name ≢ [])
      → Memᴰ q (find_records table name zone)
      → ⊥
  unfolding search_name wildcard_search_name
  apex_empty {D} {q} zone name table apex named m =
      let (there, at) = mem-find_records table name zone q m in
      elim at [ inl e ↦ named q there (rw apex at e) | inr e ↦ named q there (rw apex at e) ]

  module _ ⦃W : Wire⦄ (key : Key) (zone : Zone) (name : E.Label) (rr : UpdateRr) (s : Store)
      (k : Kind) (keyed : IsWellKeyed s) (known : kind_of rr.rtype ≡ some k) (other : k ≢ ds)
      (may : Manages key rr.rtype name) where
    selected-Removed :
        (test : Rr → Bool)
        → Removed k test rr.rname
            (records_of k s.db name zone)
            s
            (remove_matching k test rr.rname (records_of k s.db name zone) s)
    unfolding records_of
    selected-Removed test =
        remove_matching-Removed k test rr.rname (λ q. to_rr-some k rr.rname q other)
          (records_of k s.db name zone) s
          λ q m.
            Known-of_IsKeyed s.next_pk (rows k s.db) q (keyed k)
              (mem-find_records (rows k s.db) name zone q m).0

    -- If the keys of every table are distinct, the deletion of a type other than ANY and DS at a
    -- name where the key may manage it returns, and takes away exactly the rows that `find_records`
    -- gives and that become records of that type.
    pub apply_delete-Removed :
        rr.rtype ≢ Qtype.any
        → Removed k
            (λ r. r.rtype == rr.rtype)
            rr.rname
            (records_of k s.db name zone)
            s
            (apply_delete key zone name rr s)
    unfolding apply_delete check_managed delete_type
    apply_delete-Removed typed = elim (Bool-cases (rr.rtype == Qtype.any)) [
      | inl any_ ↦ absurd (typed ((==_iff rr.rtype Qtype.any).0 any_))
      | inr one ↦
          rw (one, may, known, apply_delete, check_managed, delete_type)
            (selected-Removed (λ r. r.rtype == rr.rtype))
    ]

    -- If the keys of every table are distinct, the deletion of one record, whose type is not DS, at
    -- a name where the key may manage it returns, and takes away exactly the rows that
    -- `find_records` gives and that become records of that type with the same data.
    pub apply_delete_one-Removed :
        Removed k
          (λ r. same_data rr.rdata r.rdata && r.rtype == rr.rtype)
          rr.rname
          (records_of k s.db name zone)
          s
          (apply_delete_one key zone name rr s)
    unfolding apply_delete_one check_managed delete_data
    apply_delete_one-Removed =
        rw (known, may, apply_delete_one, check_managed, delete_data)
          (selected-Removed (λ r. same_data rr.rdata r.rdata && r.rtype == rr.rtype))

    -- A deletion of one type at the zone's own name, at which no label is left, takes away nothing
    -- if no row has an empty name: the rows of that name are stored under `@`, and it is the empty
    -- name that is searched.
    pub apply_delete-apex :
        rr.rtype ≢ Qtype.any
        → E.label name ≡ []
        → ((r : Row (Body k)) → Memᴰ r (rows k s.db) → r.record_name ≢ [])
        → (t : Store) × (apply_delete key zone name rr s ≡ done t)
          × ((r : Row (Body k)) → Memᴰ r (rows k t.db) ↔ Memᴰ r (rows k s.db))
    unfolding records_of
    apply_delete-apex typed apex named =
        let gone = apply_delete-Removed typed in
        (
          gone.after,
          gone.returns,
          λ r. (
            λ m. ((gone.left r).0 m).0,
            λ m. (gone.left r).1 (m, λ h. apex_empty zone name (rows k s.db) apex named h.0),
          ),
        )
