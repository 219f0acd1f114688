-- ===== src/ZoneFile/Import/Deletions.antt =====
-- Rows under a deletion of a query set: `delete_where`.
use hexdns.Common.{
  ℕ, ◌≡◌, refl, inl, inr, Bool, true, ◌==◌, ==_iff, Bool-cases, if_both, List, [], ◌∷◌, All,
}
use hexdns.Dns.Store.{Row}
use hexdns.Update.Isolation.Rows.{IsKeyed, elsewhere}
use hexdns.ZoneFile.Import.{delete_where}

module _ {D : Type 0} where
  pub delete_where-All :
      (P : Row D → Type 0) (p : Row D → Bool) (rs : List (Row D))
      → All P rs
      → All P (delete_where p rs)
  unfolding delete_where
  delete_where-All P p [] h = tt
  delete_where-All P p (r ∷ rs) h =
      if_both (All P) (p r) (delete_where-All P p rs h.1) (h.0, delete_where-All P p rs h.1)

  pub delete_where-IsKeyed :
      (next : ℕ) (p : Row D → Bool) (rs : List (Row D))
      → IsKeyed next rs
      → IsKeyed next (delete_where p rs)
  unfolding delete_where
  delete_where-IsKeyed next p [] h = tt
  delete_where-IsKeyed next p (r ∷ rs) h =
      if_both (IsKeyed next) (p r) (delete_where-IsKeyed next p rs h.2)
        (h.0, delete_where-All _ p rs h.1, delete_where-IsKeyed next p rs h.2)

  pub elsewhere-delete_where :
      (zone : ℕ) (p : Row D → Bool) (rs : List (Row D))
      → ((r : Row D) → p r ≡ true → r.zone ≡ zone)
      → elsewhere zone (delete_where p rs) ≡ elsewhere zone rs
  unfolding delete_where
  elsewhere-delete_where zone p [] h = refl
  elsewhere-delete_where zone p (r ∷ rs) h = elim (Bool-cases (p r)) [
    | inl gone ↦
        let own : (r.zone == zone) ≡ true = (==_iff r.zone zone).1 (h r gone) in
        rw (gone, own) (elsewhere-delete_where zone p rs h)
    | inr left ↦ rw left (rw (elsewhere-delete_where zone p rs h) refl)
  ]
