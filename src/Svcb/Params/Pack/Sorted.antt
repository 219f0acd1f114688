-- ===== src/Svcb/Params/Pack/Sorted.antt =====
-- The order in which the parameters are packed.
use mathlib.Core.List.{Perm}
use mathlib.Core.List.Perm
use hexdns.Common.{
  true, if_both, List, [], ◌∷◌, All, ◌≡◌, lebℤ, lebℤ_total, lebℤ_trans, Bool-cases, inl, inr,
}
use hexdns.Svcb.Params.{SvcbParam}
use hexdns.Svcb.Params.Pack.{insert_sorted, sorted}

-- Each key is at most every later one.
abbrev pub IsSorted : List SvcbParam → Type 0
IsSorted [] = Unit
IsSorted (p ∷ ps) = All (λ (q : SvcbParam). lebℤ p.key q.key ≡ true) ps × IsSorted ps

pub All-insert_sorted :
    (P : SvcbParam → Type 0) (p : SvcbParam) (ps : List SvcbParam)
    → P p
    → All P ps
    → All P (insert_sorted p ps)
unfolding insert_sorted
All-insert_sorted P p [] h a = (h, tt)
All-insert_sorted P p (q ∷ qs) h a =
    if_both (All P) (lebℤ p.key q.key) (h, a) (a.0, All-insert_sorted P p qs h a.1)

pub All-sorted : (P : SvcbParam → Type 0) (ps : List SvcbParam) → All P ps → All P (sorted ps)
unfolding sorted
All-sorted P [] a = tt
All-sorted P (p ∷ ps) a = All-insert_sorted P p (sorted ps) a.0 (All-sorted P ps a.1)

below_trans :
    (p q : SvcbParam) (qs : List SvcbParam)
    → lebℤ p.key q.key ≡ true
    → All (λ (r : SvcbParam). lebℤ q.key r.key ≡ true) qs
    → All (λ (r : SvcbParam). lebℤ p.key r.key ≡ true) qs
below_trans p q [] h a = tt
below_trans p q (r ∷ qs) h a = (lebℤ_trans p.key q.key r.key h a.0, below_trans p q qs h a.1)

insert_sorted-IsSorted :
    (p : SvcbParam) (ps : List SvcbParam) → IsSorted ps → IsSorted (insert_sorted p ps)
unfolding insert_sorted
insert_sorted-IsSorted p [] s = (tt, tt)
insert_sorted-IsSorted p (q ∷ qs) s = elim (Bool-cases (lebℤ p.key q.key)) [
  | inl le ↦ rw (le, insert_sorted) ((le, below_trans p q qs le s.0), s)
  | inr gt ↦
      rw (gt, insert_sorted)
        (
          All-insert_sorted (λ r. lebℤ q.key r.key ≡ true) p qs (lebℤ_total p.key q.key gt) s.0,
          insert_sorted-IsSorted p qs s.1,
        )
]

-- The sorted list ascends by key.
pub sorted-IsSorted : (ps : List SvcbParam) → IsSorted (sorted ps)
unfolding sorted
sorted-IsSorted [] = tt
sorted-IsSorted (p ∷ ps) = insert_sorted-IsSorted p (sorted ps) (sorted-IsSorted ps)

insert_sorted-perm : (p : SvcbParam) (ps : List SvcbParam) → Perm (insert_sorted p ps) (p ∷ ps)
unfolding insert_sorted
insert_sorted-perm p [] = Perm.refl (p ∷ [])
insert_sorted-perm p (q ∷ qs) =
    if_both (λ l. Perm l (p ∷ q ∷ qs)) (lebℤ p.key q.key) (Perm.refl (p ∷ q ∷ qs))
      (Perm.trans (Perm.cons q (insert_sorted-perm p qs)) (Perm.swap p q qs))

-- Sorting loses no parameter and adds none.
pub sorted-perm : (ps : List SvcbParam) → Perm (sorted ps) ps
unfolding sorted
sorted-perm [] = Perm.refl []
sorted-perm (p ∷ ps) = Perm.trans (insert_sorted-perm p (sorted ps)) (Perm.cons p (sorted-perm ps))
