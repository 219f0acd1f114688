-- ===== src/ZoneFile/Strings.antt =====
-- `encode_str` of tasks.py: a text between the quotes of a zone file.
pub mod RoundTrip
use hexdns.Common.{ℕ, suc, Bool, ltb, ◌==◌, if◌then◌else◌, [], ◌∷◌, ◌++◌, Bytes}
use hexdns.Utf8.{encode_char}
use hexdns.Svcb.Params.{decimal}

-- `str()` of a natural number.
unfoldable pub show : ℕ → Bytes
unfolding decimal
show n = decimal (suc n) n

-- `data.replace("\"", "\\\"")`
unfoldable pub escape_quotes : Bytes → Bytes
escape_quotes [] = []
escape_quotes (c ∷ cs) =
    let rest = escape_quotes cs in if c == b'"' then b'\\' ∷ c ∷ rest else c ∷ rest

-- `"".join(f'\\{b}' for b in …)`
unfoldable pub encode_bytes : Bytes → Bytes
unfolding show
encode_bytes [] = []
encode_bytes (b ∷ bs) = b'\\' ∷ show b ++ encode_bytes bs

unfoldable pub encode_one : ℕ → Bytes
unfolding encode_bytes encode_char
encode_one c = if ltb c 128 then c ∷ [] else encode_bytes (encode_char c)

unfoldable pub encode_all : Bytes → Bytes
unfolding encode_one
encode_all [] = []
encode_all (c ∷ cs) = encode_one c ++ encode_all cs

unfoldable pub encode_str : Bytes → Bytes
unfolding escape_quotes encode_all
encode_str text = encode_all (escape_quotes text)
