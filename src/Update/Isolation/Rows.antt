-- ===== src/Update/Isolation/Rows.antt =====
-- Rows of a table by their keys and by their zones, under the writes of an update.
use hexdns.Common.{
  ℕ, ◌+◌, ◌<◌, ◌≡◌, ◌≢◌, refl, inl, inr, ◌==◌, ==_iff, if◌then◌else◌, Bool-cases, List, [], ◌∷◌,
  ◌++◌, All, arith,
}
use hexdns.Dns.Store.{Row}
use hexdns.Update.Tables.{replace_row, delete_row}

module _ {D : Type 0} where
  -- The keys are distinct, and below the one that the next new row takes.
  abbrev pub IsKeyed : ℕ → List (Row D) → Type 0
  IsKeyed next [] = Unit
  IsKeyed next (r ∷ rs) = (r.pk < next) × All (λ q. q.pk ≢ r.pk) rs × IsKeyed next rs

  -- Only rows of the zone have the key.
  abbrev pub OwnsKey : ℕ → ℕ → List (Row D) → Type 0
  OwnsKey pk zone = All (λ q. q.pk ≡ pk → q.zone ≡ zone)

  -- The rows of all other zones, in their order.
  abbrev pub elsewhere : ℕ → List (Row D) → List (Row D)
  elsewhere zone [] = []
  elsewhere zone (r ∷ rs) = if r.zone == zone then elsewhere zone rs else r ∷ elsewhere zone rs

  pub IsKeyed-suc : (next : ℕ) (rs : List (Row D)) → IsKeyed next rs → IsKeyed (next + 1) rs
  IsKeyed-suc next [] h = tt
  IsKeyed-suc next (r ∷ rs) h = (omega arith, h.1, IsKeyed-suc next rs h.2)

  -- Every key but one stands for another row after a replacement too.
  replace_row-All_ne :
      (pk : ℕ) (new : Row D) (rs : List (Row D))
      → All (λ q. q.pk ≢ pk) rs
      → All (λ q. q.pk ≢ pk) (replace_row new rs)
  unfolding replace_row
  replace_row-All_ne pk new [] h = tt
  replace_row-All_ne pk new (r ∷ rs) h = (ground (arith, h.0), replace_row-All_ne pk new rs h.1)

  pub replace_row-IsKeyed :
      (next : ℕ) (new : Row D) (rs : List (Row D))
      → IsKeyed next rs
      → IsKeyed next (replace_row new rs)
  unfolding replace_row
  replace_row-IsKeyed next new [] h = tt
  replace_row-IsKeyed next new (r ∷ rs) h = elim (Bool-cases (r.pk == new.pk)) [
    | inl same ↦
        let e = (==_iff r.pk new.pk).0 same in
        rw same (
          rw (← e) h.0,
          rw (← e) (replace_row-All_ne r.pk new rs h.1),
          replace_row-IsKeyed next new rs h.2,
        )
    | inr other ↦
        rw other (h.0, replace_row-All_ne r.pk new rs h.1, replace_row-IsKeyed next new rs h.2)
  ]

  pub replace_row-OwnsKey :
      (pk zone : ℕ) (new : Row D) (rs : List (Row D))
      → new.zone ≡ zone
      → OwnsKey pk zone rs
      → OwnsKey pk zone (replace_row new rs)
  unfolding replace_row
  replace_row-OwnsKey pk zone new [] z h = tt
  replace_row-OwnsKey pk zone new (r ∷ rs) z h = elim (Bool-cases (r.pk == new.pk)) [
    | inl same ↦ rw same (λ e. z, replace_row-OwnsKey pk zone new rs z h.1)
    | inr other ↦ rw other (h.0, replace_row-OwnsKey pk zone new rs z h.1)
  ]

  pub elsewhere-replace_row :
      (zone : ℕ) (new : Row D) (rs : List (Row D))
      → new.zone ≡ zone
      → OwnsKey new.pk zone rs
      → elsewhere zone (replace_row new rs) ≡ elsewhere zone rs
  unfolding replace_row
  elsewhere-replace_row zone new [] z h = refl
  elsewhere-replace_row zone new (r ∷ rs) z h =
      ground (arith, h.0, elsewhere-replace_row zone new rs z h.1)

  delete_row-All :
      (P : Row D → Type 0) (pk : ℕ) (rs : List (Row D)) → All P rs → All P (delete_row pk rs)
  unfolding delete_row
  delete_row-All P pk [] h = tt
  delete_row-All P pk (r ∷ rs) h = elim (Bool-cases (r.pk == pk)) [
    | inl same ↦ rw same (delete_row-All P pk rs h.1)
    | inr other ↦ rw other (h.0, delete_row-All P pk rs h.1)
  ]

  pub delete_row-IsKeyed :
      (next pk : ℕ) (rs : List (Row D)) → IsKeyed next rs → IsKeyed next (delete_row pk rs)
  unfolding delete_row
  delete_row-IsKeyed next pk [] h = tt
  delete_row-IsKeyed next pk (r ∷ rs) h = elim (Bool-cases (r.pk == pk)) [
    | inl same ↦ rw same (delete_row-IsKeyed next pk rs h.2)
    | inr other ↦ rw other (h.0, delete_row-All _ pk rs h.1, delete_row-IsKeyed next pk rs h.2)
  ]

  pub delete_row-OwnsKey :
      (pk zone gone : ℕ) (rs : List (Row D))
      → OwnsKey pk zone rs
      → OwnsKey pk zone (delete_row gone rs)
  delete_row-OwnsKey pk zone gone rs h = delete_row-All _ gone rs h

  pub elsewhere-delete_row :
      (zone pk : ℕ) (rs : List (Row D))
      → OwnsKey pk zone rs
      → elsewhere zone (delete_row pk rs) ≡ elsewhere zone rs
  unfolding delete_row
  elsewhere-delete_row zone pk [] h = refl
  elsewhere-delete_row zone pk (r ∷ rs) h = ground (arith, h.0, elsewhere-delete_row zone pk rs h.1)

  insert-All_ne :
      (pk : ℕ) (new : Row D) (rs : List (Row D))
      → new.pk ≢ pk
      → All (λ q. q.pk ≢ pk) rs
      → All (λ q. q.pk ≢ pk) (rs ++ new ∷ [])
  insert-All_ne pk new [] n h = (n, tt)
  insert-All_ne pk new (r ∷ rs) n h = (h.0, insert-All_ne pk new rs n h.1)

  pub insert-IsKeyed :
      (next : ℕ) (new : Row D) (rs : List (Row D))
      → new.pk ≡ next
      → IsKeyed next rs
      → IsKeyed (next + 1) (rs ++ new ∷ [])
  insert-IsKeyed next new [] e h = (omega arith, tt, tt)
  insert-IsKeyed next new (r ∷ rs) e h =
      (omega arith, insert-All_ne r.pk new rs (omega arith) h.1, insert-IsKeyed next new rs e h.2)

  pub insert-OwnsKey :
      (pk zone : ℕ) (new : Row D) (rs : List (Row D))
      → new.zone ≡ zone
      → OwnsKey pk zone rs
      → OwnsKey pk zone (rs ++ new ∷ [])
  insert-OwnsKey pk zone new [] z h = (λ e. z, tt)
  insert-OwnsKey pk zone new (r ∷ rs) z h = (h.0, insert-OwnsKey pk zone new rs z h.1)

  pub elsewhere-insert :
      (zone : ℕ) (new : Row D) (rs : List (Row D))
      → new.zone ≡ zone
      → elsewhere zone (rs ++ new ∷ []) ≡ elsewhere zone rs
  elsewhere-insert zone new [] z = ground arith
  elsewhere-insert zone new (r ∷ rs) z = ground (arith, elsewhere-insert zone new rs z)
