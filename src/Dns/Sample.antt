-- ===== src/Dns/Sample.antt =====
-- Concrete functions with the behaviour that the model assumes of `dnslib` and of query sets: names
-- are lists of labels, query sets are lists. The runs and the examples use them.
use hexdns.Common.{
  ℕ, ◌≤◌, Bool, true, false, ◌&&◌, ◌==◌, leb, if◌then◌else◌, ◌≡◌, refl, inl, inr, List, [], ◌∷◌,
  ◌++◌, Bytes, bytes_eq, bytes_eq_iff, All, Option, none, some, Bool-cases, arith,
}
use mathlib.Core.List.{Memᴰ, Perm}
use mathlib.Core.List.Memᴰ
use mathlib.Core.List.Perm
use hexdns.Dns.External.{Descends, External}

-- The labels of a dotted name; a dot at the end adds none.
pub split_dots : Bytes → Bytes → List Bytes
split_dots [] [] = []
split_dots (c ∷ part) [] = (c ∷ part) ∷ []
split_dots part (c ∷ cs) =
    let cut = part ∷ split_dots [] cs in
    let on = split_dots (part ++ c ∷ []) cs in if c == b'.' then cut else on

pub labels_eq : List Bytes → List Bytes → Bool
labels_eq [] [] = true
labels_eq (a ∷ as_) (b ∷ bs) = bytes_eq a b && labels_eq as_ bs
labels_eq _ _ = false

pub labels_eq_refl : (a : List Bytes) → labels_eq a a ≡ true
unfolding labels_eq
labels_eq_refl [] = refl
labels_eq_refl (a ∷ rest) = ground (arith, bytes_eq_iff a a, labels_eq_refl rest)

-- The name without the suffix, if it ends in it.
without_suffix : List Bytes → List Bytes → Option (List Bytes)
unfolding labels_eq
without_suffix [] suffix = if labels_eq [] suffix then some [] else none
without_suffix (l ∷ ls) suffix =
    let rest = without_suffix ls suffix in
    if labels_eq (l ∷ ls) suffix
    then some []
    else elim rest [ none ↦ none | some head ↦ some (l ∷ head) ]

pub match_suffix : List Bytes → List Bytes → Bool
unfolding without_suffix
match_suffix name suffix = elim (without_suffix name suffix) [ none ↦ false | some head ↦ true ]

pub strip_suffix : List Bytes → List Bytes → List Bytes
unfolding without_suffix
strip_suffix name suffix = elim (without_suffix name suffix) [ none ↦ name | some head ↦ head ]

pub filter : (A : Type 0) → (A → Bool) → List A → List A
filter A p [] = []
filter A p (x ∷ xs) = let rest = filter A p xs in if p x then x ∷ rest else rest

pub first : (A : Type 0) → List A → Option A
first A [] = none
first A (x ∷ xs) = some x

insert_desc : (A : Type 0) → (A → ℕ) → A → List A → List A
insert_desc A size x [] = x ∷ []
insert_desc A size x (y ∷ ys) =
    let later = y ∷ insert_desc A size x ys in if leb (size y) (size x) then x ∷ y ∷ ys else later

pub order_by_desc : (A : Type 0) → (A → ℕ) → List A → List A
unfolding insert_desc
order_by_desc A size [] = []
order_by_desc A size (x ∷ xs) = insert_desc A size x (order_by_desc A size xs)

pub mem-filter_of_mem :
    (A : Type 0) (p : A → Bool) (rows : List A) (x : A)
    → Memᴰ x rows
    → p x ≡ true
    → Memᴰ x (filter A p rows)
unfolding filter
mem-filter_of_mem A p [] x m h = absurd (Memᴰ.not-nil m)
mem-filter_of_mem A p (y ∷ ys) x (Memᴰ.head e) h = rw (rw e at h, filter) (Memᴰ.head e)
mem-filter_of_mem A p (y ∷ ys) x (Memᴰ.tail m) h = elim (Bool-cases (p y)) [
  | inl kept ↦ rw (kept, filter) (Memᴰ.tail (mem-filter_of_mem A p ys x m h))
  | inr left ↦ rw (left, filter) (mem-filter_of_mem A p ys x m h)
]

pub mem_of_mem-filter :
    (A : Type 0) (p : A → Bool) (rows : List A) (x : A)
    → Memᴰ x (filter A p rows)
    → Memᴰ x rows × (p x ≡ true)
unfolding filter
mem_of_mem-filter A p [] x m = absurd (Memᴰ.not-nil m)
mem_of_mem-filter A p (y ∷ ys) x m = elim (Bool-cases (p y)) [
  | inr left ↦ let old = mem_of_mem-filter A p ys x (rw left at m) in (Memᴰ.tail old.0, old.1)
  | inl kept ↦ elim (Memᴰ.cases_cons (rw kept at m)) [
    | inl e ↦ (Memᴰ.head e, rw e kept)
    | inr rest ↦ let old = mem_of_mem-filter A p ys x rest in (Memᴰ.tail old.0, old.1)
  ]
]

insert_desc-perm :
    (A : Type 0) (size : A → ℕ) (x : A) (rows : List A)
    → Perm (insert_desc A size x rows) (x ∷ rows)
unfolding insert_desc
insert_desc-perm A size x [] = Perm.refl _
insert_desc-perm A size x (y ∷ ys) = elim (Bool-cases (leb (size y) (size x))) [
  | inl here ↦ rw (here, insert_desc) (Perm.refl _)
  | inr later ↦
      rw (later, insert_desc)
        (Perm.trans (Perm.cons y (insert_desc-perm A size x ys)) (Perm.swap x y ys))
]

pub order_by_desc-perm :
    (A : Type 0) (size : A → ℕ) (rows : List A) → Perm (order_by_desc A size rows) rows
unfolding order_by_desc
order_by_desc-perm A size [] = Perm.refl _
order_by_desc-perm A size (x ∷ xs) =
    Perm.trans (insert_desc-perm A size x (order_by_desc A size xs))
      (Perm.cons x (order_by_desc-perm A size xs))

All-insert_desc :
    (A : Type 0) (size : A → ℕ) (n : ℕ) (x : A) (rows : List A)
    → size x ≤ n
    → All (λ y. size y ≤ n) rows
    → All (λ y. size y ≤ n) (insert_desc A size x rows)
unfolding insert_desc
All-insert_desc A size n x [] h a = (h, tt)
All-insert_desc A size n x (y ∷ ys) h a = elim (Bool-cases (leb (size y) (size x))) [
  | inl here ↦ rw (here, insert_desc) (h, a)
  | inr later ↦ rw (later, insert_desc) (a.0, All-insert_desc A size n x ys h a.1)
]

All-le_of_le :
    (A : Type 0) (size : A → ℕ) (m n : ℕ) (rows : List A)
    → m ≤ n
    → All (λ y. size y ≤ m) rows
    → All (λ y. size y ≤ n) rows
All-le_of_le A size m n [] h a = tt
All-le_of_le A size m n (x ∷ xs) h a = (omega arith, All-le_of_le A size m n xs h a.1)

insert_desc-Descends :
    (A : Type 0) (size : A → ℕ) (x : A) (rows : List A)
    → Descends size rows
    → Descends size (insert_desc A size x rows)
unfolding insert_desc
insert_desc-Descends A size x [] d = (tt, tt)
insert_desc-Descends A size x (y ∷ ys) d = elim (Bool-cases (leb (size y) (size x))) [
  | inl here ↦
      let below : size y ≤ size x = ground arith in
      rw (here, insert_desc) ((below, All-le_of_le A size (size y) (size x) ys below d.0), d)
  | inr later ↦
      rw (later, insert_desc)
        (
          All-insert_desc A size (size y) x ys (ground arith) d.0,
          insert_desc-Descends A size x ys d.1,
        )
]

pub order_by_desc-Descends :
    (A : Type 0) (size : A → ℕ) (rows : List A) → Descends size (order_by_desc A size rows)
unfolding order_by_desc
order_by_desc-Descends A size [] = tt
order_by_desc-Descends A size (x ∷ xs) =
    insert_desc-Descends A size x (order_by_desc A size xs) (order_by_desc-Descends A size xs)

pub first-cons :
    (A : Type 0) (x : A) (rows : List A)
    → (y : A) × (first A (x ∷ rows) ≡ some y) × Memᴰ y (x ∷ rows)
unfolding first
first-cons A x rows = (x, refl, Memᴰ.head refl)

pub first-nil : (A : Type 0) → first A [] ≡ none
unfolding first
first-nil A = refl

-- The account of zone 9 is inactive, and that of zone 8 cannot be asked.
pub sample_active : ℕ → Option Bool
sample_active id = if id == 9 then some false else if id == 8 then none else some true

abbrev pub sample : External
sample = record {
  Label = List Bytes;
  label = λ name. name;
  of_str = split_dots [];
  of_labels = λ labels. labels;
  label_eq = labels_eq;
  match_suffix = match_suffix;
  strip_suffix = strip_suffix;
  filter = filter;
  first = first;
  order_by_desc = order_by_desc;
  subscription_active = sample_active;
  sha1 = λ key. 1 ∷ [];
  sha256 = λ key. 2 ∷ [];
  label_eq_refl = labels_eq_refl;
  mem-filter_of_mem = mem-filter_of_mem;
  mem_of_mem-filter = mem_of_mem-filter;
  first-nil = first-nil;
  first-cons = first-cons;
  order_by_desc-perm = order_by_desc-perm;
  order_by_desc-Descends = order_by_desc-Descends;
}

-- All that a run with these functions computes with.
unfoldable pub runs : Unit {0}
unfolding split_dots labels_eq without_suffix match_suffix strip_suffix filter first order_by_desc
    sample_active
runs = tt
