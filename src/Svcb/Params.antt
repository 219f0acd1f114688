-- ===== src/Svcb/Params.antt =====
-- The parameters of a service binding: `SVCBParam`, its data classes, `SVCBParamList`, and
-- `decode_svcb_param_list`.
pub mod Pack
pub mod Names
pub mod RoundTrip
pub mod Totality
pub mod Alpn
use hexdns.Common.{
  ◌%◌, ◌/◌, ℕ, zero, suc, ◌+◌, ◌-◌, ◌*◌, Bool, true, false, ◌==◌, if◌then◌else◌, ltb, Option, none,
  some, List, [], ◌∷◌, ◌++◌, length, Bytes, codes, bytes_eq, ℤ, pos, negsuc, eqℤ, Result, ok, err,
  validation_error, index_error, value_error, out_of_fuel, ◌>>=◌,
}
use hexdns.Utf8.{encode_utf8}
use hexdns.Svcb.Chars.{is_digit_char, is_wsp}
use hexdns.Svcb.Decode.{decode_char_str, decode_svcb_param_key, decode_svcb_comma_list}

-- The data classes. An address is kept as its packed bytes.
pub data ParamData : Type 0 where
  null_data : ParamData
  octet_data : Bytes → ParamData
  integer_data : ℕ → ParamData
  mandatory_data : List ℤ → ParamData
  alpn_data : List Bytes → ParamData
  ipv4_data : List Bytes → ParamData
  ipv6_data : List Bytes → ParamData

pub record SvcbParam : Type 0 where
  pub key : ℤ
  pub value : ParamData

-- `SVCBParam.PARAM_MAPPING`
abbrev pub param_mapping : List (Bytes × ℕ)
param_mapping =
    (codes "mandatory", 0)
    ∷ (codes "alpn", 1)
    ∷ (codes "no-default-alpn", 2)
    ∷ (codes "port", 3)
    ∷ (codes "ipv4hint", 4)
    ∷ (codes "ech", 5)
    ∷ (codes "ipv6hint", 6)
    ∷ []

-- `PARAM_MAPPING[key]`, `none` where the key is missing.
unfoldable pub mapping_get : Bytes → List (Bytes × ℕ) → Option ℕ
unfolding bytes_eq
mapping_get key [] = none
mapping_get key ((k, v) ∷ m) = if bytes_eq k key then some v else mapping_get key m

-- `int()` of a text over the letters, digits and dashes that a key is made of.
unfoldable pub int_digits : ℕ → Bytes → Option ℕ
unfolding is_digit_char
int_digits acc [] = some acc
int_digits acc (c ∷ cs) =
    let more = int_digits (acc * 10 + (c - 0x30)) cs in if is_digit_char c then more else none

abbrev negate : ℕ → ℤ
negate zero = pos zero
negate (suc n) = negsuc n

unfoldable pub python_int : Bytes → Option ℤ
unfolding int_digits
python_int [] = none
python_int (c ∷ []) = elim (int_digits 0 (c ∷ [])) [ none ↦ none | some n ↦ some (pos n) ]
python_int (c ∷ d ∷ cs) =
    if c == b'-'
    then (elim (int_digits 0 (d ∷ cs)) [ none ↦ none | some n ↦ some (negate n) ])
    else (elim (int_digits 0 (c ∷ d ∷ cs)) [ none ↦ none | some n ↦ some (pos n) ])

-- `key.startswith("key")` and `key[3:]`: the rest behind the prefix, if it is there.
unfoldable pub strip_key : Bytes → Option Bytes
strip_key (a ∷ b ∷ c ∷ rest) = if bytes_eq (a ∷ b ∷ c ∷ []) (codes "key") then some rest else none
strip_key _ = none

-- `SVCBParam.__init__` on a `str` key: its number.
unfoldable pub key_id : Bytes → Result ℤ
unfolding mapping_get python_int strip_key bytes_eq
key_id key = elim (mapping_get key param_mapping) [
  | some n ↦ ok (pos n)
  | none ↦ elim (strip_key key) [
    | none ↦ err value_error
    | some digits ↦ elim (python_int digits) [ none ↦ err value_error | some n ↦ ok n ]
  ]
]

unfoldable pub svcb_param : Bytes → ParamData → Result SvcbParam
unfolding key_id
svcb_param key value = do n ← key_id key; ok (record { key = n; value = value })

-- `str()` of a number, by its decimal digits; the fuel is one more than the number.
unfoldable pub decimal : ℕ → ℕ → Bytes
decimal zero n = []
decimal (suc fuel) n =
    let more = decimal fuel (n / 10) ++ (48 + n % 10) ∷ [] in
    if ltb n 10 then (48 + n) ∷ [] else more

unfoldable pub python_str : ℤ → Bytes
unfolding decimal
python_str (pos n) = decimal (suc n) n
python_str (negsuc n) = b'-' ∷ decimal (suc (suc n)) (suc n)

-- The loop of `param_id_to_name`.
unfoldable pub mapping_name : ℤ → List (Bytes × ℕ) → Option Bytes
unfolding eqℤ
mapping_name param [] = none
mapping_name param ((k, v) ∷ m) = if eqℤ (pos v) param then some k else mapping_name param m

-- `SVCBParam.param_id_to_name`
unfoldable pub param_id_to_name : ℤ → Bytes
unfolding mapping_name python_str
param_id_to_name param = elim (mapping_name param param_mapping) [
  | some k ↦ k
  | none ↦ codes "key" ++ python_str param
]

-- `params[key] = value` on the dictionary, which keeps the order of first insertion.
unfoldable pub dict_set : Bytes → Bytes → List (Bytes × Bytes) → List (Bytes × Bytes)
unfolding bytes_eq
dict_set key value [] = (key, value) ∷ []
dict_set key value ((k, v) ∷ params) =
    if bytes_eq k key then (k, value) ∷ params else (k, v) ∷ dict_set key value params

-- `while is_wsp(data[0]): data.pop(0)`
unfoldable pub skip_wsp : Bytes → Result Bytes
unfolding is_wsp
skip_wsp [] = err index_error
skip_wsp (c ∷ data') = let more = skip_wsp data' in if is_wsp c then more else ok (c ∷ data')

-- What follows a key: the value, and what is left.
unfoldable pub param_value : Bytes → Result (Bytes × Bytes)
unfolding decode_char_str is_wsp
param_value [] = ok ([], [])
param_value (c ∷ data') =
    if c == 61
    then decode_char_str data'
    else if is_wsp c
    then ok ([], data')
    else err validation_error

-- One round of the outer loop: the key, its value and what is left.
unfoldable pub param_round : Bytes → Result (Bytes × Bytes × Bytes)
unfolding skip_wsp param_value decode_svcb_param_key
param_round data' = do
  data1 ← skip_wsp data'
  let keyed = decode_svcb_param_key data1
  valued ← param_value keyed.1
  ok (keyed.0, valued.0, valued.1)

-- `if not len(data): break`; the first argument is the loop's next round.
unfoldable pub param_list_round :
    (Bytes → Result (List (Bytes × Bytes)))
    → List (Bytes × Bytes)
    → Bytes
    → Result (List (Bytes × Bytes))
param_list_round next params [] = ok params
param_list_round next params (c ∷ rest) = next (c ∷ rest)

-- The outer loop of `decode_svcb_param_list`.
unfoldable pub param_list_loop : ℕ → List (Bytes × Bytes) → Bytes → Result (List (Bytes × Bytes))
unfolding param_round dict_set param_list_round
param_list_loop zero params data' = err out_of_fuel
param_list_loop (suc fuel) params data' = do
  r ← param_round data'
  let params' = dict_set r.0 r.1 params
  param_list_round (param_list_loop fuel params') params' r.2

-- `except ValueError`
unfoldable pub as_validation {ℓ} : {A : Type ℓ} → Result A → Result A
as_validation (err value_error) = err validation_error
as_validation r = r

-- The loop over `params.items()`.
unfoldable pub build_params : List (Bytes × Bytes) → Result (List SvcbParam)
unfolding svcb_param as_validation
build_params [] = ok []
build_params ((key, value) ∷ params) = do
  p ← as_validation (svcb_param key (octet_data value))
  ps ← build_params params
  ok (p ∷ ps)

-- `decode_svcb_param_list` from its first loop on, on the bytes of the text.
unfoldable pub decode_param_data : Bytes → Result (List SvcbParam)
unfolding param_list_loop build_params
decode_param_data data' = do
  params ← param_list_loop (suc (length data')) [] data'
  build_params params

unfoldable pub decode_svcb_param_list : List ℕ → Result (List SvcbParam)
unfolding encode_utf8 decode_param_data
decode_svcb_param_list value = do data' ← encode_utf8 value; decode_param_data data'

-- No value of the list is longer than 255 bytes.
unfoldable pub all_short : List Bytes → Bool
all_short [] = true
all_short (v ∷ vs) = if ltb 255 (length v) then false else all_short vs

-- `ALPNData.__init__`
unfoldable pub alpn_init : List Bytes → Result ParamData
unfolding all_short
alpn_init alpns = elim (all_short alpns) [
  | true ↦ ok (alpn_data alpns)
  | false ↦ err validation_error
]

-- `ALPNData.from_str`, on the encoded text.
unfoldable pub alpn_from_str : Bytes → Result ParamData
unfolding alpn_init
alpn_from_str data' = do
  r ← decode_char_str data'
  elim r.1 [ [] ↦ decode_svcb_comma_list r.0 >>= alpn_init | c ∷ rest ↦ err validation_error ]
