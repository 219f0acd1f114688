-- ===== src/Svcb/Decode/Escapes.antt =====
-- Escaped character strings are read back: a reference encoder in the presentation format of
-- RFC 9460, and what the decoders make of its output.
use Prim.Native.Nat.{◌/◌, ◌%◌}
use hexdns.Common.{
  All-append, >>=-eq-ok, ℕ, zero, suc, ◌+◌, ◌<◌, ◌≤◌, Bool, true, false, ◌&&◌, ◌||◌, ◌==◌,
  if◌then◌else◌, [], ◌∷◌, ◌++◌, length, Bytes, All, ◌≡◌, refl, ◌∙◌, inl, inr, Bool-cases,
  append_assoc, append-nil, length-append, ok, arith,
}
use hexdns.Svcb.Chars.{is_non_special_char, is_digit_char, is_non_digit_char}
use hexdns.Svcb.Decode.{
  decode_escaped, contiguous_loop, decode_contiguous_str, close_quote, decode_char_str,
}

abbrev pub IsByte : ℕ → Type 0
IsByte b = b < 256

-- The byte itself where the format allows it bare, else a backslash and three digits.
unfoldable pub encode_byte : Bool → ℕ → Bytes
encode_byte allow_space b =
    if is_non_special_char b || (b == 32 && allow_space)
    then b ∷ []
    else 92 ∷ (48 + b / 100) ∷ (48 + (b / 10) % 10) ∷ (48 + b % 10) ∷ []

unfoldable pub encode : Bool → Bytes → Bytes
unfolding encode_byte
encode allow_space [] = []
encode allow_space (b ∷ bs) = encode_byte allow_space b ++ encode allow_space bs

-- A string between double quotes.
unfoldable pub quote : Bytes → Bytes
unfolding encode
quote bs = 34 ∷ (encode true bs ++ 34 ∷ [])

-- What follows cannot be read as part of the string.
abbrev pub Stops : Bool → Bytes → Type 0
Stops allow_space [] = Unit
Stops allow_space (c ∷ d) =
    ((c == 92) ≡ false) × ((is_non_special_char c || (c == 32 && allow_space)) ≡ false)

decode_escaped-digits :
    (b : ℕ) (d : Bytes)
    → IsByte b
    → decode_escaped ((48 + b / 100) ∷ (48 + (b / 10) % 10) ∷ (48 + b % 10) ∷ d) ≡ ok (b, d)
unfolding decode_escaped is_digit_char is_non_digit_char
decode_escaped-digits b d h = ground arith

contiguous_loop-plain :
    (fuel : ℕ) (allow_space : Bool) (out : Bytes) (c : ℕ) (d : Bytes)
    → (is_non_special_char c || (c == 32 && allow_space)) ≡ true
    → contiguous_loop (suc fuel) allow_space out (c ∷ d)
      ≡ contiguous_loop fuel allow_space (out ++ c ∷ []) d
unfolding contiguous_loop is_non_special_char
contiguous_loop-plain fuel allow_space out c d h = ground arith

contiguous_loop-escaped :
    (fuel : ℕ) (allow_space : Bool) (out : Bytes) (b : ℕ) (d : Bytes)
    → IsByte b
    → contiguous_loop
        (suc fuel)
        allow_space
        out
        (92 ∷ (48 + b / 100) ∷ (48 + (b / 10) % 10) ∷ (48 + b % 10) ∷ d)
      ≡ contiguous_loop fuel allow_space (out ++ b ∷ []) d
unfolding contiguous_loop
contiguous_loop-escaped fuel allow_space out b d h = rw (decode_escaped-digits b d h)

contiguous_loop-encode_byte :
    (fuel : ℕ) (allow_space : Bool) (out : Bytes) (b : ℕ) (d : Bytes)
    → IsByte b
    → contiguous_loop (suc fuel) allow_space out (encode_byte allow_space b ++ d)
      ≡ contiguous_loop fuel allow_space (out ++ b ∷ []) d
unfolding encode_byte
contiguous_loop-encode_byte fuel allow_space out b d h =
    elim (Bool-cases (is_non_special_char b || (b == 32 && allow_space))) [
      | inl bare ↦ rw bare (contiguous_loop-plain fuel allow_space out b d bare)
      | inr special ↦ rw special (contiguous_loop-escaped fuel allow_space out b d h)
    ]

contiguous_loop-Stops :
    (fuel : ℕ) (allow_space : Bool) (out d : Bytes)
    → Stops allow_space d
    → contiguous_loop (suc fuel) allow_space out d ≡ ok (out, d)
unfolding contiguous_loop
contiguous_loop-Stops fuel allow_space out [] s = refl
contiguous_loop-Stops fuel allow_space out (c ∷ d) s = rw s.0 (rw s.1)

contiguous_loop-encode :
    (fuel : ℕ) (allow_space : Bool) (out bs d : Bytes)
    → length bs < fuel
    → All IsByte bs
    → Stops allow_space d
    → contiguous_loop fuel allow_space out (encode allow_space bs ++ d) ≡ ok (out ++ bs, d)
unfolding encode
contiguous_loop-encode zero allow_space out bs d h a s = absurd (omega arith)
contiguous_loop-encode (suc fuel) allow_space out [] d h a s =
    rw append-nil (contiguous_loop-Stops fuel allow_space out d s)
contiguous_loop-encode (suc fuel) allow_space out (b ∷ bs) d h a s =
    rw append_assoc (contiguous_loop-encode_byte fuel allow_space out b _ a.0)
    ∙ contiguous_loop-encode fuel allow_space (out ++ b ∷ []) bs d (omega arith) a.1 s
    ∙ rw append_assoc

length-encode : (allow_space : Bool) (bs : Bytes) → length bs ≤ length (encode allow_space bs)
unfolding encode encode_byte
length-encode allow_space [] = omega arith
length-encode allow_space (b ∷ bs) = ground (
  arith,
  length-append (encode_byte allow_space b) (encode allow_space bs),
  length-encode allow_space bs,
)

decode_contiguous_str-encode :
    (allow_space : Bool) (bs d : Bytes)
    → All IsByte bs
    → Stops allow_space d
    → decode_contiguous_str allow_space (encode allow_space bs ++ d) ≡ ok (bs, d)
unfolding decode_contiguous_str
decode_contiguous_str-encode allow_space bs d a s =
    contiguous_loop-encode (suc (length (encode allow_space bs ++ d))) allow_space [] bs d
      (omega (arith, length-append (encode allow_space bs) d, length-encode allow_space bs)) a s

-- A quoted string with every special byte escaped decodes to the bytes that were encoded, and
-- what stands behind the closing quote is left.
pub decode_char_str-quote :
    (bs d : Bytes) → All IsByte bs → decode_char_str (quote bs ++ d) ≡ ok (bs, d)
unfolding decode_char_str quote close_quote
decode_char_str-quote bs d a = rw append_assoc (
    rw (
      decode_contiguous_str-encode true bs (34 ∷ d) a (unfold is_non_special_char in (refl, refl))))

IsByte-decode_escaped :
    (d : Bytes) (b : ℕ) (rest : Bytes)
    → All IsByte d
    → decode_escaped d ≡ ok (b, rest)
    → IsByte b × All IsByte rest
unfolding decode_escaped
IsByte-decode_escaped [] b rest a e = cc
IsByte-decode_escaped (c ∷ []) b rest a e = ground arith
IsByte-decode_escaped (c ∷ c2 ∷ []) b rest a e = ground arith
IsByte-decode_escaped (c ∷ c2 ∷ c3 ∷ d) b rest a e = ground arith

contiguous_loop-IsByte :
    (fuel : ℕ) (allow_space : Bool) (out d v rest : Bytes)
    → All IsByte out
    → All IsByte d
    → contiguous_loop fuel allow_space out d ≡ ok (v, rest)
    → All IsByte v × All IsByte rest
unfolding contiguous_loop
contiguous_loop-IsByte zero allow_space out d v rest o a e = cc
contiguous_loop-IsByte (suc fuel) allow_space out [] v rest o a e = ground arith
contiguous_loop-IsByte (suc fuel) allow_space out (c ∷ d) v rest o a e =
    elim (Bool-cases (c == 92)) [
      | inl slash ↦
          let (r, escaped, later) = >>=-eq-ok (decode_escaped d) _ (rw slash at e) in
          let (b, ds) = IsByte-decode_escaped d r.0 r.1 a.1 escaped in
          contiguous_loop-IsByte fuel allow_space (out ++ r.0 ∷ []) r.1 v rest
            (All-append IsByte out (r.0 ∷ []) o (b, tt)) ds later
      | inr bare ↦ elim (Bool-cases (is_non_special_char c || (c == 32 && allow_space))) [
        | inl plain ↦
            contiguous_loop-IsByte fuel allow_space (out ++ c ∷ []) d v rest
              (All-append IsByte out (c ∷ []) o (a.0, tt)) a.1 (rw bare at (rw plain at e))
        | inr stop ↦ ground arith
      ]
    ]

close_quote-IsByte :
    (r : Bytes × Bytes) (v rest : Bytes)
    → All IsByte r.0
    → All IsByte r.1
    → close_quote r ≡ ok (v, rest)
    → All IsByte v × All IsByte rest
unfolding close_quote
close_quote-IsByte (out, []) v rest a b e = cc
close_quote-IsByte (out, c ∷ d) v rest a b e = ground arith

-- Only byte values are decoded: whatever `decode_char_str` returns, and what it leaves, is within
-- 0 to 255 if the array was.
pub decode_char_str-IsByte :
    (d v rest : Bytes)
    → All IsByte d
    → decode_char_str d ≡ ok (v, rest)
    → All IsByte v × All IsByte rest
unfolding decode_char_str decode_contiguous_str
decode_char_str-IsByte [] v rest a e = cc
decode_char_str-IsByte (c ∷ d) v rest a e = elim (Bool-cases (c == 34)) [
  | inl quoted ↦
      let (r, inside, closed) =
        >>=-eq-ok (decode_contiguous_str true d) close_quote (rw quoted at e) in
      let (vs, ds) = contiguous_loop-IsByte (suc (length d)) true [] d r.0 r.1 tt a.1 inside in
      close_quote-IsByte r v rest vs ds closed
  | inr bare ↦
      contiguous_loop-IsByte (suc (suc (length d))) false [] (c ∷ d) v rest tt a (rw bare at e)
]
