-- ===== src/Svcb/Params/Names.antt =====
-- Parameter names and numbers: what `param_id_to_name` prints, `SVCBParam` reads back.
use Prim.Native.Nat.{◌/◌, ◌%◌}
use hexdns.Common.{
  ◌⊎◌, ℕ, zero, suc, ◌+◌, ◌*◌, ◌-◌, ◌<◌, true, false, ◌==◌, ltb, [], ◌∷◌, ◌++◌, Bytes, codes, All,
  All-append, ◌≡◌, ◌≢◌, refl, ◌∙◌, inl, inr, Bool-cases, Option-cases, some, ok, arith, ℤ, pos,
  negsuc,
}
use hexdns.Svcb.Chars.{is_digit_char}
use hexdns.Svcb.Decode.{is_key_char}
use hexdns.Svcb.Params.{
  int_digits, python_int, key_id, decimal, python_str, mapping_name, param_id_to_name,
  param_mapping,
}

abbrev IsDigit : ℕ → Type 0
IsDigit c = is_digit_char c ≡ true

int_digits-append :
    (acc m : ℕ) (xs ys : Bytes)
    → int_digits acc xs ≡ some m
    → int_digits acc (xs ++ ys) ≡ int_digits m ys
unfolding int_digits
int_digits-append acc m [] ys h = ground arith
int_digits-append acc m (x ∷ xs) ys h = elim (Bool-cases (is_digit_char x)) [
  | inl d ↦ rw d (int_digits-append (acc * 10 + (x - 0x30)) m xs ys (rw d at h))
  | inr n ↦ cc (rw n at h)
]

int_digits-decimal : (fuel n : ℕ) → n < fuel → int_digits 0 (decimal fuel n) ≡ some n
unfolding decimal int_digits
int_digits-decimal zero n h = absurd (omega arith)
int_digits-decimal (suc fuel) n h = elim (Bool-cases (ltb n 10)) [
  | inl small ↦ rw small (ground arith)
  | inr big ↦ rw big (
      int_digits-append 0 (n / 10) (decimal fuel (n / 10)) ((48 + n % 10) ∷ [])
        (int_digits-decimal fuel (n / 10) (ground arith))
      ∙ ground arith)
]

decimal-IsDigit : (fuel n : ℕ) → All IsDigit (decimal fuel n)
unfolding decimal is_digit_char
decimal-IsDigit zero n = tt
decimal-IsDigit (suc fuel) n = elim (Bool-cases (ltb n 10)) [
  | inl small ↦ rw small (ground arith, tt)
  | inr big ↦ rw big (
      All-append IsDigit (decimal fuel (n / 10)) ((48 + n % 10) ∷ [])
        (decimal-IsDigit fuel (n / 10)) (ground arith, tt))
]

concat-cons : (xs : Bytes) (x : ℕ) → (c : ℕ) × (cs : Bytes) × (xs ++ x ∷ [] ≡ c ∷ cs)
concat-cons [] x = (x, [], refl)
concat-cons (y ∷ xs) x = (y, xs ++ x ∷ [], refl)

decimal-cons : (fuel n : ℕ) → (c : ℕ) × (cs : Bytes) × (decimal (suc fuel) n ≡ c ∷ cs)
unfolding decimal
decimal-cons fuel n = elim (Bool-cases (ltb n 10)) [
  | inl small ↦ (48 + n, [], rw small)
  | inr big ↦ rw big (concat-cons (decimal fuel (n / 10)) (48 + n % 10))
]

python_int-IsDigit :
    (c : ℕ) (cs : Bytes) (n : ℕ)
    → All IsDigit (c ∷ cs)
    → int_digits 0 (c ∷ cs) ≡ some n
    → python_int (c ∷ cs) ≡ some (pos n)
unfolding python_int is_digit_char
python_int-IsDigit c [] n a h = rw (h, python_int)
python_int-IsDigit c (d ∷ cs) n a h =
    let other : (c == b'-') ≡ false = ground arith in rw (other, python_int) (rw (h, python_int))

python_int-negative :
    (c : ℕ) (cs : Bytes) (n : ℕ)
    → int_digits 0 (c ∷ cs) ≡ some (suc n)
    → python_int (b'-' ∷ c ∷ cs) ≡ some (negsuc n)
unfolding python_int
python_int-negative c cs n h = rw h

-- What `str` prints of an integer, `int` reads.
python_int-python_str : (z : ℤ) → python_int (python_str z) ≡ some z
unfolding python_str
python_int-python_str (pos n) =
    let (c, cs, e) = decimal-cons n n in
    rw e (
      python_int-IsDigit c cs n (rw e at (decimal-IsDigit (suc n) n))
        (rw e at (int_digits-decimal (suc n) n (omega arith))))
python_int-python_str (negsuc n) =
    let (c, cs, e) = decimal-cons (suc n) (suc n) in
    rw e (
      python_int-negative c cs n (rw e at (int_digits-decimal (suc (suc n)) (suc n) (omega arith))))

-- A name found for a number is a key of the mapping, with that number.
mapping_get-mapping_name :
    (z : ℤ) (k : Bytes) → mapping_name z param_mapping ≡ some k → key_id k ≡ ok z
unfolding mapping_name key_id
mapping_get-mapping_name (pos n) k h = ground arith
mapping_get-mapping_name (negsuc n) k h = ground arith

key_id-key :
    (digits : Bytes) (z : ℤ) → python_int digits ≡ some z → key_id (codes "key" ++ digits) ≡ ok z
unfolding key_id
key_id-key digits z h = rw (h, key_id)

-- Every key number, also one with no name of its own, is printed as a name that reads back as the
-- same number.
pub key_id-param_id_to_name : (z : ℤ) → key_id (param_id_to_name z) ≡ ok z
unfolding param_id_to_name
key_id-param_id_to_name z = elim (Option-cases (mapping_name z param_mapping)) [
  | inl unnamed ↦
      rw (unnamed, param_id_to_name) (key_id-key (python_str z) z (python_int-python_str z))
  | inr (k, found) ↦ rw (found, param_id_to_name) (mapping_get-mapping_name z k found)
]

abbrev pub IsKeyChar : ℕ → Type 0
IsKeyChar c = is_key_char c ≡ true

IsKeyChar-of_IsDigit : (xs : Bytes) → All IsDigit xs → All IsKeyChar xs
unfolding is_digit_char
IsKeyChar-of_IsDigit [] a = tt
IsKeyChar-of_IsDigit (x ∷ xs) a = (ground arith, IsKeyChar-of_IsDigit xs a.1)

python_str-IsKeyChar : (z : ℤ) → All IsKeyChar (python_str z)
unfolding python_str
python_str-IsKeyChar (pos n) = IsKeyChar-of_IsDigit _ (decimal-IsDigit (suc n) n)
python_str-IsKeyChar (negsuc n) =
    (unfold is_digit_char in refl, IsKeyChar-of_IsDigit _ (decimal-IsDigit (suc (suc n)) (suc n)))

mapping_name-IsKeyChar :
    (z : ℤ) (k : Bytes) → mapping_name z param_mapping ≡ some k → All IsKeyChar k × (k ≢ [])
unfolding mapping_name is_digit_char
mapping_name-IsKeyChar z k h = ground arith

param_id_to_name-cases :
    (z : ℤ)
    → (param_id_to_name z ≡ codes "key" ++ python_str z)
      ⊎ ((k : Bytes) × (mapping_name z param_mapping ≡ some k) × (param_id_to_name z ≡ k))
unfolding param_id_to_name
param_id_to_name-cases z = elim (Option-cases (mapping_name z param_mapping)) [
  | inl unnamed ↦ inl (rw (unnamed, param_id_to_name))
  | inr (k, found) ↦ inr (k, found, rw (found, param_id_to_name))
]

-- A printed name is made of the characters that a key may have, and is not empty.
pub param_id_to_name-IsKeyChar :
    (z : ℤ) → All IsKeyChar (param_id_to_name z) × (param_id_to_name z ≢ [])
param_id_to_name-IsKeyChar z = elim (param_id_to_name-cases z) [
  | inl e ↦ rw e (
    All-append IsKeyChar (codes "key") (python_str z)
        (unfold is_digit_char in (refl, (refl, (refl, tt)))) (python_str-IsKeyChar z),
    ground arith,
  )
  | inr (k, found, e) ↦ rw e (mapping_name-IsKeyChar z k found)
]
