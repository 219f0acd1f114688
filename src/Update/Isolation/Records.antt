-- ===== src/Update/Isolation/Records.antt =====
-- The rows that `find_records` gives belong to the zone, and so do their keys.
use mathlib.Core.List.{Memᴰ}
use mathlib.Core.List.Memᴰ
use hexdns.Common.{ℕ, ◌≡◌, ◌≢◌, refl, sym, if_both, List, [], ◌∷◌, All, Bytes}
use hexdns.Dns.External.{External}
use hexdns.Dns.Store.{Row, Zone}
use hexdns.Dns.Find.{at_name, nonempty, search_name, wildcard_search_name, find_records}
use hexdns.Dns.Find.Rows.{at_name-IsAt}
use hexdns.Update.Tables.{Kind, rows, Store}
use hexdns.Update.Apply.{records_of}
use hexdns.Update.Isolation.Rows.{IsKeyed, OwnsKey}

All-of_mem : {A : Type 0} (P : A → Type 0) (xs : List A) → ((x : A) → Memᴰ x xs → P x) → All P xs
All-of_mem P [] h = tt
All-of_mem P (x ∷ xs) h = (h x (Memᴰ.head refl), All-of_mem P xs (λ y m. h y (Memᴰ.tail m)))

module _ {D : Type 0} where
  pub ne_of_mem :
      (pk : ℕ) (r : Row D) (rs : List (Row D)) → All (λ q. q.pk ≢ pk) rs → Memᴰ r rs → r.pk ≢ pk
  ne_of_mem pk r [] h m = absurd (Memᴰ.not-nil m)
  ne_of_mem pk r (q ∷ qs) h (Memᴰ.head e) = rw e h.0
  ne_of_mem pk r (q ∷ qs) h (Memᴰ.tail m) = ne_of_mem pk r qs h.1 m

  OwnsKey-of_ne : (pk zone : ℕ) (rs : List (Row D)) → All (λ q. q.pk ≢ pk) rs → OwnsKey pk zone rs
  OwnsKey-of_ne pk zone [] h = tt
  OwnsKey-of_ne pk zone (r ∷ rs) h = (λ e. absurd (h.0 e), OwnsKey-of_ne pk zone rs h.1)

  -- A row of the zone has its key to itself.
  OwnsKey-of_mem :
      (next zone : ℕ) (r : Row D) (rs : List (Row D))
      → IsKeyed next rs
      → Memᴰ r rs
      → r.zone ≡ zone
      → OwnsKey r.pk zone rs
  OwnsKey-of_mem next zone r [] h m z = tt
  OwnsKey-of_mem next zone r (q ∷ qs) h (Memᴰ.head e) z =
      (λ same. rw (← e) z, OwnsKey-of_ne r.pk zone qs (rw e h.1))
  OwnsKey-of_mem next zone r (q ∷ qs) h (Memᴰ.tail m) z =
      (λ same. absurd (ne_of_mem q.pk r qs h.1 m (sym same)), OwnsKey-of_mem next zone r qs h.2 m z)

  -- The rows belong to the zone, and no row of another zone has the key of one of them.
  abbrev pub OfZone : ℕ → List (Row D) → List (Row D) → Type 0
  OfZone zone table = All (λ r. (r.zone ≡ zone) × OwnsKey r.pk zone table)

module _ ⦃E : External⦄ where
  find_records-OfZone :
      {D : Type 0} (next : ℕ) (table : List (Row D)) (name : E.Label) (zone : Zone)
      → IsKeyed next table
      → OfZone zone.id table (find_records table name zone)
  unfolding find_records
  find_records-OfZone {D} next table name zone keyed =
      let selected = λ (wanted : Bytes).
        All-of_mem (λ (r : Row D). (r.zone ≡ zone.id) × OwnsKey r.pk zone.id table)
          (E.filter (Row D) (at_name wanted zone) table)
          λ r m.
            let (t, p) = E.mem_of_mem-filter (Row D) (at_name wanted zone) table r m in
            let owned = (at_name-IsAt wanted zone r p).owned in
            (owned, OwnsKey-of_mem next zone.id r table keyed t owned) in
      if_both (OfZone zone.id table)
        (nonempty (E.filter (Row D) (at_name (search_name name) zone) table))
        (selected (search_name name)) (selected (wildcard_search_name name))

  pub records_of-OfZone :
      (k : Kind) (s : Store) (name : E.Label) (zone : Zone)
      → IsKeyed s.next_pk (rows k s.db)
      → OfZone zone.id (rows k s.db) (records_of k s.db name zone)
  unfolding records_of
  records_of-OfZone k s name zone keyed =
      find_records-OfZone s.next_pk (rows k s.db) name zone keyed
