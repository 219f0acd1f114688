-- ===== src/ZoneFile/Strings/RoundTrip.antt =====
-- What a name server reads between the quotes is the text that was stored.
use hexdns.Common.{
  ℕ, zero, suc, ◌+◌, ◌-◌, ◌*◌, ◌/◌, ◌%◌, ◌≤◌, ◌<◌, ◌≡◌, ◌≢◌, refl, ap, inl, inr, Bool, true, false,
  ◌==◌, ==_iff, ◌&&◌, ltb, leb, if◌then◌else◌, Bool-cases, [], ◌∷◌, ◌++◌, append_assoc, append-nil,
  Bytes, All, Option, none, some, arith,
}
use hexdns.Utf8.{encode_char, encode_text}
use hexdns.Svcb.Params.{decimal}
use hexdns.ZoneFile.Strings.{show, escape_quotes, encode_bytes, encode_one, encode_all, encode_str}

-- Where the reader of a quoted string stands (RFC 1035, section 5.1): behind a backslash a digit
-- begins the three digits of a byte, and any other character stands for itself.
pub data Place : Type 0 where
  plain escape : Place
  one_digit two_digits : ℕ → Place

abbrev is_digit : ℕ → Bool
is_digit c = leb b'0' c && leb c b'9'

unfoldable pub push : ℕ → Option (Bytes × Bytes) → Option (Bytes × Bytes)
push c none = none
push c (some (text, rest)) = some (c ∷ text, rest)

-- The text up to the closing quote, and what follows it.
unfoldable pub read_quoted : Place → Bytes → Option (Bytes × Bytes)
unfolding push
read_quoted place [] = none
read_quoted plain (c ∷ cs) =
    let escaped = read_quoted escape cs in
    let on = push c (read_quoted plain cs) in
    if c == b'"' then some ([], cs) else if c == b'\\' then escaped else on
read_quoted escape (c ∷ cs) =
    let digit = read_quoted (one_digit (c - 48)) cs in
    let on = push c (read_quoted plain cs) in if is_digit c then digit else on
read_quoted (one_digit n) (c ∷ cs) =
    let digit = read_quoted (two_digits (n * 10 + (c - 48))) cs in
    if is_digit c then digit else none
read_quoted (two_digits n) (c ∷ cs) =
    let on = push (n * 10 + (c - 48)) (read_quoted plain cs) in
    if is_digit c && ltb (n * 10 + (c - 48)) 256 then on else none

decimal-digit : (fuel n : ℕ) → n < 10 → decimal (suc fuel) n ≡ (48 + n) ∷ []
unfolding decimal
decimal-digit fuel n h = ground arith

decimal-more :
    (fuel n : ℕ) → 10 ≤ n → decimal (suc fuel) n ≡ decimal fuel (n / 10) ++ (48 + n % 10) ∷ []
unfolding decimal
decimal-more fuel n h = ground arith

show-byte :
    (b : ℕ) → 128 ≤ b → b < 256 → show b ≡ (48 + b / 100) ∷ (48 + b / 10 % 10) ∷ (48 + b % 10) ∷ []
unfolding show
show-byte zero low high = absurd (omega arith)
show-byte (suc zero) low high = absurd (omega arith)
show-byte (suc (suc n)) low high =
    let b = suc (suc n) in
    let hundreds : b / 10 / 10 ≡ b / 100 = omega arith in
    rw (decimal-more b b (omega arith), decimal-more (suc n) (b / 10) (omega arith))
      (rw (hundreds, decimal-digit n (b / 100) (omega arith)) refl)

-- A byte written behind a backslash is read back.
read_quoted-byte :
    (b : ℕ) (rest : Bytes)
    → 128 ≤ b
    → b < 256
    → read_quoted plain (b'\\' ∷ show b ++ rest) ≡ push b (read_quoted plain rest)
unfolding read_quoted
read_quoted-byte b rest low high =
    let a : is_digit (48 + b / 100) ≡ true = ground arith in
    let t : is_digit (48 + b / 10 % 10) ≡ true = ground arith in
    let u : is_digit (48 + b % 10) ≡ true = ground arith in
    let value : ((48 + b / 100 - 48) * 10 + (48 + b / 10 % 10 - 48)) * 10 + (48 + b % 10 - 48) ≡ b =
      omega arith in
    let below : ltb b 256 ≡ true = ground arith in
    rw (show-byte b low high) (rw (a, t, u, value, below) refl)

abbrev IsByte : ℕ → Type 0
IsByte b = (128 ≤ b) × (b < 256)

push_all : Bytes → Option (Bytes × Bytes) → Option (Bytes × Bytes)
unfolding push
push_all [] r = r
push_all (b ∷ bs) r = push b (push_all bs r)

read_quoted-encode_bytes :
    (bs rest : Bytes)
    → All IsByte bs
    → read_quoted plain (encode_bytes bs ++ rest) ≡ push_all bs (read_quoted plain rest)
unfolding encode_bytes push_all
read_quoted-encode_bytes [] rest h = refl
read_quoted-encode_bytes (b ∷ bs) rest ((low, high), h) =
    rw
      (
        append_assoc (show b) (encode_bytes bs) rest,
        read_quoted-byte b (encode_bytes bs ++ rest) low high,
        read_quoted-encode_bytes bs rest h,
      )
      refl

encode_char-IsByte : (c : ℕ) → 128 ≤ c → c < 1114112 → All IsByte (encode_char c)
unfolding encode_char
encode_char-IsByte c low high = ground arith

push_all-some : (bs text rest : Bytes) → push_all bs (some (text, rest)) ≡ some (bs ++ text, rest)
unfolding push_all push
push_all-some [] text rest = refl
push_all-some (b ∷ bs) text rest = rw (push_all-some bs text rest) refl

push_all-append :
    (xs ys : Bytes) (r : Option (Bytes × Bytes))
    → push_all (xs ++ ys) r ≡ push_all xs (push_all ys r)
unfolding push_all
push_all-append [] ys r = refl
push_all-append (x ∷ xs) ys r = rw (push_all-append xs ys r) refl

encode_char-ascii : (c : ℕ) → ltb c 128 ≡ true → encode_char c ≡ c ∷ []
unfolding encode_char
encode_char-ascii c h = rw h refl

encode_one-ascii : (c : ℕ) → ltb c 128 ≡ true → encode_one c ≡ c ∷ []
unfolding encode_one
encode_one-ascii c h = rw h refl

encode_one-wide : (c : ℕ) → ltb c 128 ≡ false → encode_one c ≡ encode_bytes (encode_char c)
unfolding encode_one
encode_one-wide c h = rw h refl

read_quoted-plain :
    (c : ℕ) (rest : Bytes)
    → c ≢ b'"'
    → c ≢ b'\\'
    → read_quoted plain (c ∷ rest) ≡ push c (read_quoted plain rest)
unfolding read_quoted
read_quoted-plain c rest no_quote no_slash =
    let quote : (c == b'"') ≡ false = ground arith in
    let slash : (c == b'\\') ≡ false = ground arith in rw (quote, slash) refl

read_quoted-encode_one :
    (c : ℕ) (rest : Bytes)
    → c ≢ b'"'
    → c ≢ b'\\'
    → c < 1114112
    → read_quoted plain (encode_one c ++ rest) ≡ push_all (encode_char c) (read_quoted plain rest)
unfolding push_all
read_quoted-encode_one c rest no_quote no_slash high = elim (Bool-cases (ltb c 128)) [
  | inl ascii ↦
      rw (encode_one-ascii c ascii, encode_char-ascii c ascii)
        (read_quoted-plain c rest no_quote no_slash)
  | inr wide ↦
      rw (encode_one-wide c wide)
        (read_quoted-encode_bytes (encode_char c) rest (encode_char-IsByte c (ground arith) high))
]

-- The characters that a text may consist of: no backslash.
abbrev pub IsPlain : ℕ → Type 0
IsPlain c = (c ≢ b'\\') × (c < 1114112)

escape_quotes-quote : (cs : Bytes) → escape_quotes (b'"' ∷ cs) ≡ b'\\' ∷ b'"' ∷ escape_quotes cs
unfolding escape_quotes
escape_quotes-quote cs = refl

escape_quotes-nil : escape_quotes [] ≡ []
unfolding escape_quotes
escape_quotes-nil = refl

escape_quotes-other :
    (c : ℕ) (cs : Bytes) → (c == b'"') ≡ false → escape_quotes (c ∷ cs) ≡ c ∷ escape_quotes cs
unfolding escape_quotes
escape_quotes-other c cs h = rw h refl

read_quoted-escaped_quote :
    (cs rest : Bytes)
    → read_quoted plain (encode_all (escape_quotes cs) ++ rest)
      ≡ push_all (encode_text cs) (read_quoted plain rest)
    → read_quoted plain (encode_all (escape_quotes (b'"' ∷ cs)) ++ rest)
      ≡ push_all (encode_text (b'"' ∷ cs)) (read_quoted plain rest)
unfolding escape_quotes encode_all encode_one encode_text push_all read_quoted
read_quoted-escaped_quote cs rest h = ap (push b'"') h

read_quoted-encode_all :
    (text rest : Bytes)
    → All IsPlain text
    → read_quoted plain (encode_all (escape_quotes text) ++ rest)
      ≡ push_all (encode_text text) (read_quoted plain rest)
unfolding encode_all push_all encode_text
read_quoted-encode_all [] rest h = rw escape_quotes-nil refl
read_quoted-encode_all (c ∷ cs) rest ((plain_, high), h) = elim (Bool-cases (c == b'"')) [
  | inl quote ↦
      rw ((==_iff c b'"').0 quote)
        (read_quoted-escaped_quote cs rest (read_quoted-encode_all cs rest h))
  | inr other ↦
      rw
        (
          escape_quotes-other c cs other,
          append_assoc (encode_one c) (encode_all (escape_quotes cs)) rest,
          read_quoted-encode_one c (encode_all (escape_quotes cs) ++ rest) (ground arith) plain_
              high,
          read_quoted-encode_all cs rest h,
          push_all-append (encode_char c) (encode_text cs) (read_quoted plain rest),
        )
        refl
]

-- A text without backslashes is read back, as its UTF-8 bytes, from between the quotes.
pub read_quoted-encode_str :
    (text rest : Bytes)
    → All IsPlain text
    → read_quoted plain (encode_str text ++ b'"' ∷ rest) ≡ some (encode_text text, rest)
unfolding encode_str read_quoted
read_quoted-encode_str text rest h =
    rw
      (
        read_quoted-encode_all text (b'"' ∷ rest) h,
        read_quoted,
        push_all-some (encode_text text) [] rest,
        append-nil (encode_text text),
      )
      refl
