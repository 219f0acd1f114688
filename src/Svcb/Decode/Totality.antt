-- ===== src/Svcb/Decode/Totality.antt =====
-- The decoders' loops end, what they raise, and what they leave of the array.
use hexdns.Common.{
  ℕ, zero, suc, ◌<◌, ◌≤◌, Bool, true, false, ◌&&◌, ◌||◌, ◌==◌, List, [], ◌∷◌, ◌++◌, length, Bytes,
  if_both, Result, ok, err, validation_error, ◌>>=◌, arith,
}
use hexdns.Svcb.Chars.{is_non_special_char, is_item_allowed_char}
use hexdns.Svcb.Decode.{
  decode_escaped, contiguous_loop, decode_contiguous_str, close_quote, decode_char_str,
  escaped_item_loop, decode_escaped_item, comma_list_loop, comma_list_round, decode_svcb_comma_list,
}

-- The call returns with at most `n` bytes left, or raises a `ValidationError`.
abbrev pub Leaves : {A : Type 0} → ℕ → Result (A × Bytes) → Type 0
Leaves n (ok r) = length r.1 ≤ n
Leaves n (err validation_error) = Unit
Leaves n (err _) = ⊥

pub bind-Leaves :
    {A B : Type 0} (n k : ℕ) (m : Result (A × Bytes)) (f : A × Bytes → Result (B × Bytes))
    → Leaves n m
    → ((r : A × Bytes) → length r.1 ≤ n → Leaves k (f r))
    → Leaves k (m >>= f)
bind-Leaves n k (ok r) f h g = g r h
bind-Leaves n k (err validation_error) f h g = tt
bind-Leaves n k (err _) f h g = elim h [ ]

pub Leaves-mono : {A : Type 0} {n k : ℕ} (m : Result (A × Bytes)) → Leaves n m → n ≤ k → Leaves k m
Leaves-mono (ok r) h le = omega arith
Leaves-mono (err validation_error) h le = tt
Leaves-mono (err _) h le = elim h [ ]

decode_escaped-Leaves : (d : Bytes) → Leaves (length d) (decode_escaped d)
unfolding decode_escaped
decode_escaped-Leaves [] = tt
decode_escaped-Leaves (c ∷ []) = ground arith
decode_escaped-Leaves (c ∷ d2 ∷ []) = ground arith
decode_escaped-Leaves (c ∷ d2 ∷ d3 ∷ d) = ground arith

contiguous_loop-Leaves :
    (fuel : ℕ) (allow_space : Bool) (out d : Bytes)
    → length d < fuel
    → Leaves (length d) (contiguous_loop fuel allow_space out d)
unfolding contiguous_loop
contiguous_loop-Leaves zero allow_space out d h = absurd (omega arith)
contiguous_loop-Leaves (suc fuel) allow_space out [] h = omega arith
contiguous_loop-Leaves (suc fuel) allow_space out (c ∷ d) h =
    if_both (Leaves (suc (length d))) (c == 92)
      (bind-Leaves (length d) (suc (length d)) (decode_escaped d) _ (decode_escaped-Leaves d)
        λ r le.
          Leaves-mono _
            (contiguous_loop-Leaves fuel allow_space (out ++ r.0 ∷ []) r.1 (omega arith))
            (omega arith))
      (if_both (Leaves (suc (length d))) (is_non_special_char c || (c == 32 && allow_space))
        (Leaves-mono _ (contiguous_loop-Leaves fuel allow_space (out ++ c ∷ []) d (omega arith))
          (omega arith))
        (omega arith))

decode_contiguous_str-Leaves :
    (allow_space : Bool) (d : Bytes) → Leaves (length d) (decode_contiguous_str allow_space d)
unfolding decode_contiguous_str
decode_contiguous_str-Leaves allow_space d =
    contiguous_loop-Leaves (suc (length d)) allow_space [] d (omega arith)

close_quote-Leaves : (r : Bytes × Bytes) (n : ℕ) → length r.1 ≤ n → Leaves n (close_quote r)
unfolding close_quote
close_quote-Leaves (out, []) n h = tt
close_quote-Leaves (out, c ∷ d) n h = if_both (Leaves n) (c == 34) (omega arith) tt

-- On a nonempty array `decode_char_str` returns with no more bytes left than it got, or raises a
-- `ValidationError`; it does not run forever and raises nothing else.
pub decode_char_str-Leaves : (c : ℕ) (d : Bytes) → Leaves (suc (length d)) (decode_char_str (c ∷ d))
unfolding decode_char_str
decode_char_str-Leaves c d =
    if_both (Leaves (suc (length d))) (c == 34)
      (bind-Leaves (length d) (suc (length d)) (decode_contiguous_str true d) _
        (decode_contiguous_str-Leaves true d)
        λ r le. close_quote-Leaves r (suc (length d)) (omega arith))
      (decode_contiguous_str-Leaves false (c ∷ d))

escaped_item_loop-Leaves : (out d : Bytes) → Leaves (length d) (escaped_item_loop out d)
unfolding escaped_item_loop
escaped_item_loop-Leaves out [] = omega arith
escaped_item_loop-Leaves out (c ∷ []) = ground arith
escaped_item_loop-Leaves out (c ∷ e ∷ d) =
    let n = suc (suc (length d)) in
    if_both (Leaves n) (is_item_allowed_char c)
      (Leaves-mono _ (escaped_item_loop-Leaves (out ++ c ∷ []) (e ∷ d)) (omega arith))
      (if_both (Leaves n) (c == 92)
        (if_both (Leaves n) (e == 92 || e == 44)
          (Leaves-mono _ (escaped_item_loop-Leaves (out ++ e ∷ []) d) (omega arith)) tt)
        (omega arith))

-- The call returns, or raises a `ValidationError`.
abbrev pub Settles {ℓ} : {A : Type ℓ} → Result A → Type 0
Settles (ok r) = Unit
Settles (err validation_error) = Unit
Settles (err _) = ⊥

pub bind-Settles {ℓ} :
    {A : Type 0} {B : Type ℓ} (n : ℕ) (m : Result (A × Bytes)) (f : A × Bytes → Result B)
    → Leaves n m
    → ((r : A × Bytes) → length r.1 ≤ n → Settles (f r))
    → Settles (m >>= f)
bind-Settles n (ok r) f h g = g r h
bind-Settles n (err validation_error) f h g = tt
bind-Settles n (err _) f h g = elim h [ ]

comma_list_round-Settles :
    (next : List Bytes → Bytes → Result (List Bytes)) (out : List Bytes) (r : Bytes × Bytes) (n : ℕ)
    → length r.1 ≤ n
    → ((out' : List Bytes) (rest : Bytes) → length rest < n → Settles (next out' rest))
    → Settles (comma_list_round next out r)
unfolding comma_list_round
comma_list_round-Settles next out (item, []) n le h = tt
comma_list_round-Settles next out (item, c ∷ rest) n le h =
    if_both Settles (c == 44) (h (out ++ item ∷ []) rest (omega arith)) tt

comma_list_loop-Settles :
    (fuel : ℕ) (out : List Bytes) (d : Bytes)
    → length d < fuel
    → Settles (comma_list_loop fuel out d)
unfolding comma_list_loop decode_escaped_item
comma_list_loop-Settles zero out d h = absurd (omega arith)
comma_list_loop-Settles (suc fuel) out d h =
    bind-Settles (length d) (escaped_item_loop [] d) _ (escaped_item_loop-Leaves [] d) λ r le.
      comma_list_round-Settles (comma_list_loop fuel) out r (length d) le
        λ out' rest lt. comma_list_loop-Settles fuel out' rest (omega arith)

-- Whatever the bytes, `decode_svcb_comma_list` ends: it returns a list or raises a
-- `ValidationError`.
pub decode_svcb_comma_list-Settles : (d : Bytes) → Settles (decode_svcb_comma_list d)
unfolding decode_svcb_comma_list
decode_svcb_comma_list-Settles d = comma_list_loop-Settles (suc (length d)) [] d (omega arith)
