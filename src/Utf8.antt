-- ===== src/Utf8.antt =====
-- `str.encode()`: the UTF-8 bytes of a text. A text is the list of its code points; one that comes out
-- of the database has no surrogates, which its columns cannot hold.
use hexdns.Common.{
  ℕ, ◌+◌, ◌/◌, ◌%◌, Bool, false, ltb, leb, ◌&&◌, ◌||◌, if◌then◌else◌, List, [], ◌∷◌, ◌++◌, Bytes,
  Result, ok, err, value_error,
}

-- The UTF-8 bytes of a code point that is no surrogate, and of a text of them.
unfoldable pub encode_char : ℕ → Bytes
encode_char c =
    if ltb c 128
    then c ∷ []
    else if ltb c 2048
    then (192 + c / 64) ∷ (128 + c % 64) ∷ []
    else if ltb c 65536
    then (224 + c / 4096) ∷ (128 + (c / 64) % 64) ∷ (128 + c % 64) ∷ []
    else (240 + c / 262144) ∷ (128 + (c / 4096) % 64) ∷ (128 + (c / 64) % 64) ∷ (128 + c % 64) ∷ []

unfoldable pub encode_text : Bytes → Bytes
unfolding encode_char
encode_text [] = []
encode_text (c ∷ cs) = encode_char c ++ encode_text cs

-- A code point that UTF-8 has no bytes for.
abbrev pub is_surrogate : ℕ → Bool
is_surrogate c = leb 55296 c && leb c 57343

unfoldable pub any_surrogate : List ℕ → Bool
any_surrogate [] = false
any_surrogate (c ∷ cs) = is_surrogate c || any_surrogate cs

-- `value.encode("utf8")`: its `UnicodeEncodeError` is a `ValueError`.
unfoldable pub encode_utf8 : List ℕ → Result Bytes
unfolding any_surrogate encode_text
encode_utf8 text = if any_surrogate text then err value_error else ok (encode_text text)
