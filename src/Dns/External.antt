-- ===== src/Dns/External.antt =====
-- What grpc.py takes from code outside the repository: `dnslib.DNSLabel`, Django's query sets, the
-- account service and the hash functions. The fields are used through their laws alone.
use hexdns.Common.{ℕ, ◌≤◌, Bool, true, ◌≡◌, List, [], ◌∷◌, Bytes, All, Option, none, some}
use mathlib.Core.List.{Memᴰ, Perm}

-- Each element's measure is at least that of every later one.
abbrev pub Descends : {A : Type 0} → (A → ℕ) → List A → Type 0
Descends size [] = Unit
Descends size (x ∷ xs) = All (λ y. size y ≤ size x) xs × Descends size xs

pub record External : Type 1 where
  -- `DNSLabel`: its `label` tuple, its constructors on a `str` and on a list, `==`, `matchSuffix`
  -- and `stripSuffix`.
  pub Label : Type 0
  pub label : Label → List Bytes
  pub of_str : Bytes → Label
  pub of_labels : List Bytes → Label
  pub label_eq : Label → Label → Bool
  pub match_suffix : Label → Label → Bool
  pub strip_suffix : Label → Label → Label
  -- Query sets: `filter`, `first` and `order_by(Length(…).desc())`.
  pub filter : (A : Type 0) → (A → Bool) → List A → List A
  pub first : (A : Type 0) → List A → Option A
  pub order_by_desc : (A : Type 0) → (A → ℕ) → List A → List A
  -- `zone.get_user().account.subscription_active` by the zone's id; `none` for a
  -- `RequestException`.
  pub subscription_active : ℕ → Option Bool
  -- `hashlib`
  pub sha1 : Bytes → Bytes
  pub sha256 : Bytes → Bytes
  -- Documented behaviour.
  pub label_eq_refl : (a : Label) → label_eq a a ≡ true
  pub mem-filter_of_mem :
      (A : Type 0) (p : A → Bool) (rows : List A) (x : A)
      → Memᴰ x rows
      → p x ≡ true
      → Memᴰ x (filter A p rows)
  pub mem_of_mem-filter :
      (A : Type 0) (p : A → Bool) (rows : List A) (x : A)
      → Memᴰ x (filter A p rows)
      → Memᴰ x rows × (p x ≡ true)
  pub first-nil : (A : Type 0) → first A [] ≡ none
  pub first-cons :
      (A : Type 0) (x : A) (rows : List A)
      → (y : A) × (first A (x ∷ rows) ≡ some y) × Memᴰ y (x ∷ rows)
  pub order_by_desc-perm :
      (A : Type 0) (size : A → ℕ) (rows : List A) → Perm (order_by_desc A size rows) rows
  pub order_by_desc-Descends :
      (A : Type 0) (size : A → ℕ) (rows : List A) → Descends size (order_by_desc A size rows)
