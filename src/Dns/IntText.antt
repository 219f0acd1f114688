-- ===== src/Dns/IntText.antt =====
-- Python's `int()` on an ASCII text, as `parse_https_record_name` of grpc.py applies it to a label:
-- spaces around the number, a sign, and single underscores between two digits are allowed.
use hexdns.Common.{
  ℕ, zero, suc, ◌+◌, ◌-◌, ◌*◌, Bool, ◌||◌, ◌&&◌, ◌==◌, leb, if◌then◌else◌, [], ◌∷◌, Bytes, ℤ, pos,
  negsuc, Option, none, some,
}
use mathlib.Core.List.{reverse}

abbrev is_digit : ℕ → Bool
is_digit c = leb b'0' c && leb c b'9'

-- `str.isspace` of an ASCII character.
abbrev is_space : ℕ → Bool
is_space c = c == 32 || (leb 9 c && leb c 13) || (leb 28 c && leb c 31)

unfoldable pub trim_start : Bytes → Bytes
trim_start [] = []
trim_start (c ∷ cs) = let more = trim_start cs in if is_space c then more else c ∷ cs

-- The digits behind the first one.
unfoldable pub more_digits : ℕ → Bytes → Option ℕ
more_digits acc [] = some acc
more_digits acc (c ∷ []) = if is_digit c then some (acc * 10 + (c - b'0')) else none
more_digits acc (c ∷ d ∷ cs) =
    let plain = more_digits (acc * 10 + (c - b'0')) (d ∷ cs) in
    let joined = more_digits (acc * 10 + (d - b'0')) cs in
    if is_digit c then plain else if c == b'_' && is_digit d then joined else none

unfoldable pub digits_value : Bytes → Option ℕ
unfolding more_digits
digits_value [] = none
digits_value (c ∷ cs) = if is_digit c then more_digits (c - b'0') cs else none

abbrev negative : ℕ → ℤ
negative zero = pos zero
negative (suc n) = negsuc n

unfoldable pub signed_value : Bytes → Option ℤ
unfolding digits_value
signed_value [] = none
signed_value (c ∷ cs) =
    if c == b'-'
    then elim (digits_value cs) [ none ↦ none | some n ↦ some (negative n) ]
    else if c == b'+'
    then elim (digits_value cs) [ none ↦ none | some n ↦ some (pos n) ]
    else elim (digits_value (c ∷ cs)) [ none ↦ none | some n ↦ some (pos n) ]

unfoldable pub int_text : Bytes → Option ℤ
unfolding trim_start signed_value
int_text text = signed_value (reverse (trim_start (reverse (trim_start text))))
