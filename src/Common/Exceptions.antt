-- ===== src/Common/Exceptions.antt =====
-- Python's exceptions as results.
use mathlib.Core.Path.{◌≡◌, refl}

-- The exceptions that the modelled code raises. `out_of_fuel` belongs to the model: it stands for
-- a loop that has not ended within its fuel.
pub data Exc : Type 0 where
  validation_error index_error value_error struct_error type_error attribute_error integrity_error
        buffer_error overflow_error out_of_fuel :
      Exc

-- What a call comes to: an exception that it raised, or the value that it returned.
pub data Result {ℓ} (A : Type ℓ) : Type ℓ where
  err : Exc → Result A
  ok : A → Result A

infixl 5 ◌>>=◌
abbrev pub ◌>>=◌ {ℓ κ} : {A : Type ℓ} {B : Type κ} → Result A → (A → Result B) → Result B
err raised >>= next = err raised
ok value >>= next = next value

-- A sequence returns only if its first call does.
pub >>=-eq-ok {ℓ κ} :
    {A : Type ℓ} {B : Type κ} (first : Result A) (next : A → Result B) {b : B}
    → (first >>= next) ≡ ok b
    → (value : A) × (first ≡ ok value) × (next value ≡ ok b)
>>=-eq-ok (err raised) next e = cc
>>=-eq-ok (ok value) next e = (value, refl, e)

-- `P` holds of the value if the call returns one.
abbrev pub Ensures {ℓ κ} : {A : Type ℓ} → (A → Type κ) → Result A → Type κ
Ensures P (ok value) = P value
Ensures P (err raised) = Unit

pub bind-Ensures {ℓ κ μ ν} :
    {A : Type ℓ} {B : Type κ} (P : A → Type μ) (Q : B → Type ν) (first : Result A)
    (next : A → Result B)
    → Ensures P first
    → ((value : A) → P value → Ensures Q (next value))
    → Ensures Q (first >>= next)
bind-Ensures P Q (err raised) next h k = tt
bind-Ensures P Q (ok value) next h k = k value h

pub mono-Ensures {ℓ κ μ} :
    {A : Type ℓ} (P : A → Type κ) (Q : A → Type μ) (m : Result A)
    → ((value : A) → P value → Q value)
    → Ensures P m
    → Ensures Q m
mono-Ensures P Q (err raised) h k = tt
mono-Ensures P Q (ok value) h k = h value k
