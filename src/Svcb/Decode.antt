-- ===== src/Svcb/Decode.antt =====
-- The decoders of svcb.py. A decoder takes the `bytearray` it works on and returns what it decoded
-- with what is left of the array; a `while True` loop takes fuel.
pub mod Totality
pub mod Escapes
pub mod Commas
use hexdns.Common.{
  ℕ, zero, suc, ◌+◌, ◌-◌, ◌*◌, Bool, true, false, not, ◌&&◌, ◌||◌, ltb, ◌==◌, if◌then◌else◌, List,
  [], ◌∷◌, ◌++◌, length, Bytes, Result, ok, err, validation_error, index_error, out_of_fuel, ◌>>=◌,
}
use hexdns.Svcb.Chars.{
  between, is_item_allowed_char, is_non_special_char, is_non_digit_char, is_digit_char,
}

-- The value of the three digits, and its test.
abbrev pub escape_value : ℕ → ℕ → ℕ → ℕ
escape_value f d2 d3 = (f - 0x30) * 100 + (d2 - 0x30) * 10 + (d3 - 0x30)

-- An `IndexError` of `pop` is turned into a `ValidationError`.
unfoldable pub decode_escaped : Bytes → Result (ℕ × Bytes)
decode_escaped [] = err validation_error
decode_escaped (f ∷ []) = if is_non_digit_char f then ok (f, []) else err validation_error
decode_escaped (f ∷ d2 ∷ []) = if is_non_digit_char f then ok (f, d2 ∷ []) else err validation_error
decode_escaped (f ∷ d2 ∷ d3 ∷ data') =
    if is_non_digit_char f
    then ok (f, d2 ∷ d3 ∷ data')
    else if not (is_digit_char f && is_digit_char d2 && is_digit_char d3)
    then err validation_error
    else if ltb 255 (escape_value f d2 d3)
    then err validation_error
    else ok (escape_value f d2 d3, data')

-- The loop of `decode_contiguous_str`; `out` grows at its end.
unfoldable pub contiguous_loop : ℕ → Bool → Bytes → Bytes → Result (Bytes × Bytes)
contiguous_loop zero allow_space out data' = err out_of_fuel
contiguous_loop (suc fuel) allow_space out [] = ok (out, [])
contiguous_loop (suc fuel) allow_space out (c ∷ data') =
    let escaped : Result (Bytes × Bytes) = do
      r ← decode_escaped data'
      contiguous_loop fuel allow_space (out ++ r.0 ∷ []) r.1
    in let plain = contiguous_loop fuel allow_space (out ++ c ∷ []) data' in
      if c == 92
      then escaped
      else if is_non_special_char c || (c == 32 && allow_space)
      then plain
      else ok (out, c ∷ data')

unfoldable pub decode_contiguous_str : Bool → Bytes → Result (Bytes × Bytes)
unfolding contiguous_loop
decode_contiguous_str allow_space data' = contiguous_loop (suc (length data')) allow_space [] data'

-- `if not len(data) or data.pop(0) != 34`
unfoldable pub close_quote : Bytes × Bytes → Result (Bytes × Bytes)
close_quote (out, []) = err validation_error
close_quote (out, c ∷ data') = if c == 34 then ok (out, data') else err validation_error

-- `data[0]` of an empty array raises an `IndexError`, which nothing here catches.
unfoldable pub decode_char_str : Bytes → Result (Bytes × Bytes)
unfolding decode_contiguous_str close_quote
decode_char_str [] = err index_error
decode_char_str (c ∷ data') =
    if c == 34
    then (decode_contiguous_str true data' >>= close_quote)
    else decode_contiguous_str false (c ∷ data')

abbrev pub is_key_char : ℕ → Bool
is_key_char c = between 0x61 c 0x7a || is_digit_char c || c == 45

-- The loop of `decode_svcb_param_key`.
unfoldable pub param_key_loop : Bytes → Bytes → Bytes × Bytes
param_key_loop out [] = (out, [])
param_key_loop out (c ∷ data') =
    let more = param_key_loop (out ++ c ∷ []) data' in
    if is_key_char c then more else (out, c ∷ data')

unfoldable pub decode_svcb_param_key : Bytes → Bytes × Bytes
unfolding param_key_loop
decode_svcb_param_key = param_key_loop []

-- The loop of `decode_escaped_item`, whose one step takes two bytes at a backslash.
unfoldable pub escaped_item_loop : Bytes → Bytes → Result (Bytes × Bytes)
escaped_item_loop out [] = ok (out, [])
escaped_item_loop out (c ∷ []) =
    if is_item_allowed_char c
    then ok (out ++ c ∷ [], [])
    else if c == 92
    then err validation_error
    else ok (out, c ∷ [])
escaped_item_loop out (c ∷ d ∷ data') =
    let plain = escaped_item_loop (out ++ c ∷ []) (d ∷ data') in
    let escaped = escaped_item_loop (out ++ d ∷ []) data' in
    if is_item_allowed_char c
    then plain
    else if c == 92
    then (if d == 92 || d == 44 then escaped else err validation_error)
    else ok (out, c ∷ d ∷ data')

unfoldable pub decode_escaped_item : Bytes → Result (Bytes × Bytes)
unfolding escaped_item_loop
decode_escaped_item = escaped_item_loop []

-- What one round of the list's loop does with the item decoded and the rest of the array: the
-- first argument is the loop's next round.
unfoldable pub comma_list_round :
    (List Bytes → Bytes → Result (List Bytes)) → List Bytes → Bytes × Bytes → Result (List Bytes)
comma_list_round next out (item, []) = ok (out ++ item ∷ [])
comma_list_round next out (item, c ∷ rest) =
    if c == 44 then next (out ++ item ∷ []) rest else err validation_error

-- The loop of `decode_svcb_comma_list`.
unfoldable pub comma_list_loop : ℕ → List Bytes → Bytes → Result (List Bytes)
unfolding comma_list_round
comma_list_loop zero out data' = err out_of_fuel
comma_list_loop (suc fuel) out data' = do
  r ← decode_escaped_item data'
  comma_list_round (comma_list_loop fuel) out r

unfoldable pub decode_svcb_comma_list : Bytes → Result (List Bytes)
unfolding comma_list_loop
decode_svcb_comma_list data' = comma_list_loop (suc (length data')) [] data'
