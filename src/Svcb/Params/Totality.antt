-- ===== src/Svcb/Params/Totality.antt =====
-- `decode_svcb_param_list` ends on every text; which exceptions it lets out.
use hexdns.Common.{
  Option-cases, ℤ, ◌-◌, ℕ, zero, suc, ◌<◌, ◌≤◌, true, ◌==◌, if_both, [], ◌∷◌, ◌++◌, length, Bytes,
  All, ◌≡◌, refl, Result, ok, err, validation_error, index_error, value_error, ◌>>=◌, arith, inl,
  inr, ◌⊎◌, Bool-cases, leb, false, List,
}
use hexdns.Utf8.{is_surrogate, any_surrogate, encode_text, encode_utf8}
use hexdns.Svcb.Chars.{is_wsp}
use hexdns.Svcb.Decode.{is_key_char, param_key_loop, decode_svcb_param_key, decode_char_str}
use hexdns.Svcb.Decode.Totality.{Leaves, decode_char_str-Leaves}
use hexdns.Svcb.Params.{
  python_int, strip_key, param_mapping, mapping_get, SvcbParam, octet_data, dict_set, ParamData,
  param_list_round, key_id, svcb_param, as_validation, skip_wsp, param_value, param_round,
  param_list_loop, build_params, decode_param_data, decode_svcb_param_list,
}

-- The call returns a value of which `P` holds, or raises a `ValidationError` or an `IndexError`.
abbrev pub Raises {ℓ} : {A : Type ℓ} → (A → Type 0) → Result A → Type 0
Raises P (ok a) = P a
Raises P (err validation_error) = Unit
Raises P (err index_error) = Unit
Raises P (err _) = ⊥

pub bind-Raises {ℓ κ} :
    {A : Type ℓ} {B : Type κ} (P : A → Type 0) (Q : B → Type 0) (m : Result A) (f : A → Result B)
    → Raises P m
    → ((a : A) → P a → Raises Q (f a))
    → Raises Q (m >>= f)
bind-Raises P Q (ok a) f h g = g a h
bind-Raises P Q (err validation_error) f h g = tt
bind-Raises P Q (err index_error) f h g = tt
bind-Raises P Q (err _) f h g = elim h [ ]

Raises-of_Leaves :
    {A : Type 0} (n k : ℕ) (m : Result (A × Bytes))
    → Leaves n m
    → n ≤ k
    → Raises (λ (r : A × Bytes). length r.1 ≤ k) m
Raises-of_Leaves n k (ok r) h le = omega arith
Raises-of_Leaves n k (err validation_error) h le = tt
Raises-of_Leaves n k (err _) h le = elim h [ ]

abbrev IsRest : ℕ → Bytes → Type 0
IsRest n r = (length r ≤ n) × (0 < length r)

skip_wsp-Raises : (d : Bytes) (n : ℕ) → length d ≤ n → Raises (IsRest n) (skip_wsp d)
unfolding skip_wsp
skip_wsp-Raises [] n le = tt
skip_wsp-Raises (c ∷ d) n le =
    if_both (Raises (IsRest n)) (is_wsp c) (skip_wsp-Raises d n (omega arith)) (omega arith)

length-param_key_loop : (out d : Bytes) → length (param_key_loop out d).1 ≤ length d
unfolding param_key_loop
length-param_key_loop out [] = omega arith
length-param_key_loop out (c ∷ d) =
    if_both (λ (r : Bytes × Bytes). length r.1 ≤ suc (length d)) (is_key_char c)
      (omega (arith, length-param_key_loop (out ++ c ∷ []) d)) (omega arith)

abbrev LeavesAtMost : {A : Type 0} → ℕ → A × Bytes → Type 0
LeavesAtMost n r = length r.1 ≤ n

decode_char_str-Raises : (d : Bytes) → Raises (LeavesAtMost (length d)) (decode_char_str d)
unfolding decode_char_str
decode_char_str-Raises [] = tt
decode_char_str-Raises (c ∷ d) =
    Raises-of_Leaves (suc (length d)) (suc (length d)) (decode_char_str (c ∷ d))
      (decode_char_str-Leaves c d) (omega arith)

param_value-Raises : (d : Bytes) → Raises (LeavesAtMost (length d - 1)) (param_value d)
unfolding param_value
param_value-Raises [] = omega arith
param_value-Raises (c ∷ d) =
    let rest : suc (length d) - 1 ≡ length d = omega arith in
    rw rest (
      if_both (Raises (LeavesAtMost (length d))) (c == 61) (decode_char_str-Raises d)
        (if_both (Raises (LeavesAtMost (length d))) (is_wsp c) (omega arith) tt))

abbrev Shorter : ℕ → Bytes × Bytes × Bytes → Type 0
Shorter n r = length r.2 < n

param_round-Raises : (d : Bytes) → Raises (Shorter (length d)) (param_round d)
unfolding param_round decode_svcb_param_key
param_round-Raises d =
    bind-Raises (IsRest (length d)) (Shorter (length d)) (skip_wsp d) _
      (skip_wsp-Raises d (length d) (omega arith))
      λ d1 h.
        let keyed = param_key_loop [] d1 in
        bind-Raises (LeavesAtMost (length keyed.1 - 1)) (Shorter (length d)) (param_value keyed.1) _
          (param_value-Raises keyed.1) λ r le. omega (arith, length-param_key_loop [] d1)

abbrev pub Returned {ℓ} : {A : Type ℓ} → A → Type 0
Returned a = Unit

param_list_round-Raises :
    (n : ℕ) (r : Bytes × Bytes × Bytes) (params : List (Bytes × Bytes))
    (next : Bytes → Result (List (Bytes × Bytes)))
    → length r.2 < n
    → ((d : Bytes) → length d < n → Raises Returned (next d))
    → Raises Returned (param_list_round next params r.2)
unfolding param_list_round
param_list_round-Raises n (k, v, []) params next lt h = tt
param_list_round-Raises n (k, v, c ∷ d) params next lt h = h (c ∷ d) lt

param_list_loop-Raises :
    (fuel : ℕ) (params : List (Bytes × Bytes)) (d : Bytes)
    → length d < fuel
    → Raises Returned (param_list_loop fuel params d)
unfolding param_list_loop
param_list_loop-Raises zero params d h = absurd (omega arith)
param_list_loop-Raises (suc fuel) params d h =
    bind-Raises (Shorter (length d)) Returned (param_round d) _ (param_round-Raises d) λ r lt.
      param_list_round-Raises (length d) r (dict_set r.0 r.1 params)
        (param_list_loop fuel (dict_set r.0 r.1 params)) lt
        λ rest le. param_list_loop-Raises fuel (dict_set r.0 r.1 params) rest (omega arith)

abbrev RaisesValue {ℓ} : {A : Type ℓ} → Result A → Type 0
RaisesValue (ok a) = Unit
RaisesValue (err value_error) = Unit
RaisesValue (err _) = ⊥

key_id-RaisesValue : (k : Bytes) → RaisesValue (key_id k)
unfolding key_id
key_id-RaisesValue k = elim (Option-cases (mapping_get k param_mapping)) [
  | inr (n, known) ↦ rw (known, key_id) tt
  | inl unknown ↦ elim (Option-cases (strip_key k)) [
    | inl bare ↦ rw (unknown, key_id) (rw (bare, key_id) tt)
    | inr (digits, prefixed) ↦ elim (Option-cases (python_int digits)) [
      | inl bad ↦ rw (unknown, key_id) (rw (prefixed, key_id) (rw (bad, key_id) tt))
      | inr (n, good) ↦ rw (unknown, key_id) (rw (prefixed, key_id) (rw (good, key_id) tt))
    ]
  ]
]

abbrev numbered_param : ParamData → ℤ → Result SvcbParam
numbered_param v n = ok (record { key = n; value = v })

as_validation-Raises :
    (m : Result ℤ) (v : ParamData)
    → RaisesValue m
    → Raises Returned (as_validation (m >>= numbered_param v))
unfolding as_validation
as_validation-Raises (ok n) v h = tt
as_validation-Raises (err value_error) v h = tt
as_validation-Raises (err _) v h = elim h [ ]

svcb_param-Raises : (k : Bytes) (v : ParamData) → Raises Returned (as_validation (svcb_param k v))
unfolding svcb_param
svcb_param-Raises k v = as_validation-Raises (key_id k) v (key_id-RaisesValue k)

build_params-Raises : (params : List (Bytes × Bytes)) → Raises Returned (build_params params)
unfolding build_params
build_params-Raises [] = tt
build_params-Raises ((k, v) ∷ params) =
    bind-Raises Returned Returned (as_validation (svcb_param k (octet_data v))) _
      (svcb_param-Raises k (octet_data v))
      λ p _.
        bind-Raises Returned Returned (build_params params) _ (build_params-Raises params)
          λ ps _. tt

decode_param_data-Raises : (d : Bytes) → Raises Returned (decode_param_data d)
unfolding decode_param_data
decode_param_data-Raises d =
    bind-Raises Returned Returned (param_list_loop (suc (length d)) [] d) _
      (param_list_loop-Raises (suc (length d)) [] d (omega arith))
      λ params _. build_params-Raises params

-- A code point that UTF-8 encodes, and a text with one that it does not.
abbrev pub IsScalar : ℕ → Type 0
IsScalar c = (c < 55296) ⊎ (57343 < c)

pub data HasSurrogate : List ℕ → Type 0 where
  here : {c : ℕ} {cs : List ℕ} → 55296 ≤ c → c ≤ 57343 → HasSurrogate (c ∷ cs)
  later : {c : ℕ} {cs : List ℕ} → HasSurrogate cs → HasSurrogate (c ∷ cs)

is_surrogate-false : (c : ℕ) → is_surrogate c ≡ false → IsScalar c
is_surrogate-false c h = elim (Bool-cases (leb 55296 c)) [
  | inl high ↦ inr (ground arith)
  | inr low ↦ inl (ground arith)
]

surrogates :
    (text : List ℕ)
    → ((any_surrogate text ≡ true) × HasSurrogate text)
      ⊎ ((any_surrogate text ≡ false) × All IsScalar text)
unfolding any_surrogate
surrogates [] = inr (refl, tt)
surrogates (c ∷ cs) = elim (Bool-cases (is_surrogate c)) [
  | inl found ↦ inl (rw (found, any_surrogate) refl, here (ground arith) (ground arith))
  | inr good ↦ elim (surrogates cs) [
    | inl (more, h) ↦ inl (rw (good, any_surrogate) more, later h)
    | inr (none_, h) ↦ inr (rw (good, any_surrogate) none_, (is_surrogate-false c good, h))
  ]
]

-- `decode_svcb_param_list` ends on every text, within its fuel. On a text with a surrogate it raises
-- a `ValueError`; on every other text it returns a list, or raises a `ValidationError` or an
-- `IndexError`, and nothing else.
pub decode_svcb_param_list-Raises :
    (text : List ℕ)
    → (HasSurrogate text × (decode_svcb_param_list text ≡ err value_error))
      ⊎ (All IsScalar text × Raises Returned (decode_svcb_param_list text))
unfolding decode_svcb_param_list encode_utf8
decode_svcb_param_list-Raises text = elim (surrogates text) [
  | inl (found, h) ↦ inl (h, rw (found, decode_svcb_param_list, encode_utf8) refl)
  | inr (clear, h) ↦ inr (
    h,
    rw (clear, decode_svcb_param_list, encode_utf8) (decode_param_data-Raises (encode_text text)),
  )
]

skip_wsp-blank : (d : Bytes) → All (λ c. is_wsp c ≡ true) d → skip_wsp d ≡ err index_error
unfolding skip_wsp
skip_wsp-blank [] a = refl
skip_wsp-blank (c ∷ d) a = rw a.0 (skip_wsp-blank d a.1)

-- The empty text, and every text of spaces and tabs alone, makes `decode_svcb_param_list` raise an
-- `IndexError`, not a `ValidationError`.
pub decode_param_data-blank :
    (d : Bytes) → All (λ c. is_wsp c ≡ true) d → decode_param_data d ≡ err index_error
unfolding decode_param_data param_list_loop param_round
decode_param_data-blank d a = rw (skip_wsp-blank d a)
