-- ===== src/Svcb/Tests.antt =====
-- Runs of the codec, and each theorem at an input that meets its hypotheses.
use hexdns.Common.{
  ◌≡◌, ◌≢◌, refl, List, [], ◌∷◌, ◌++◌, length, Bytes, codes, All, pos, negsuc, map, ok, err,
  validation_error, value_error, ◌⊎◌, arith,
}
use hexdns.Svcb.Chars.{is_non_digit_char, is_digit_char, is_non_special_char, is_item_allowed_char}
use hexdns.Svcb.Decode.{
  decode_escaped, decode_escaped_item, decode_char_str, decode_svcb_comma_list,
}
use hexdns.Svcb.Decode.Escapes.{IsByte, quote, decode_char_str-quote, decode_char_str-IsByte}
use hexdns.Svcb.Decode.Commas.{join_items, decode_svcb_comma_list-join_items}
use hexdns.Svcb.Params.{
  SvcbParam, alpn_data, decode_param_data, decode_svcb_param_list, alpn_from_str,
}
use hexdns.Svcb.Params.Alpn.{alpn_from_str-quote}
use hexdns.Svcb.Params.RoundTrip.{Entry, to_param, print_entries, decode_param_data-print_entries}
use hexdns.Svcb.Params.Totality.{
  Raises, Returned, IsScalar, HasSurrogate, decode_svcb_param_list-Raises,
}
use hexdns.Svcb.Params.Pack.{DnsBuffer, pack_params}
use hexdns.Svcb.Params.Pack.Wire.{Fits, is_octets, IsPacked, pack_params-IsPacked}
use hexdns.Svcb.Params.Pack.Negative.{decode-pack_params_negative}

-- All that a run of the codec computes with.
codec : Unit {0}
unfolding decode_char_str decode_svcb_comma_list decode_escaped decode_escaped_item
    is_non_digit_char is_digit_char is_non_special_char is_item_allowed_char
codec = tt

-- `é "` in UTF-8.
abbrev accented : Bytes
accented = 195 ∷ 169 ∷ 32 ∷ 34 ∷ []

decode_tests :
    (decode_char_str (codes "\"\\195\\169 \\\"\" x") ≡ ok (accented, codes " x"))
    × (decode_char_str (codes "\\256") ≡ err validation_error)
    × (decode_char_str (codes "\"ab") ≡ err validation_error)
    × (decode_svcb_comma_list (codes "h2,h\\,3") ≡ ok (codes "h2" ∷ codes "h,3" ∷ []))
unfolding codec
decode_tests = (refl, refl, refl, refl)

accented-IsByte : All IsByte accented
accented-IsByte = omega arith

decode_char_str-quote_example :
    decode_char_str (quote accented ++ codes " x") ≡ ok (accented, codes " x")
decode_char_str-quote_example = decode_char_str-quote accented (codes " x") accented-IsByte

decode_char_str-IsByte_example : All IsByte accented × All IsByte (codes " x")
decode_char_str-IsByte_example =
    decode_char_str-IsByte (codes "\"\\195\\169 \\\"\" x") accented (codes " x") (omega arith)
      decode_tests.0

decode_svcb_comma_list-join_items_example :
    decode_svcb_comma_list (join_items (codes "h2") (codes "h,3" ∷ []))
    ≡ ok (codes "h2" ∷ codes "h,3" ∷ [])
decode_svcb_comma_list-join_items_example =
    decode_svcb_comma_list-join_items (codes "h2") (codes "h,3" ∷ []) (omega arith) (omega arith)

alpn_from_str-quote_example :
    alpn_from_str (quote (join_items (codes "h2") (codes "h3" ∷ [])))
    ≡ ok (alpn_data (codes "h2" ∷ codes "h3" ∷ []))
alpn_from_str-quote_example =
    alpn_from_str-quote (codes "h2") (codes "h3" ∷ []) (omega arith) (omega arith) (omega arith)

abbrev two_entries : List Entry
two_entries = (pos 3, codes "8443") ∷ (pos 65, accented) ∷ []

decode_param_data-print_entries_example :
    decode_param_data (print_entries (pos 1, codes "h2") two_entries)
    ≡ ok (map to_param ((pos 1, codes "h2") ∷ two_entries))
decode_param_data-print_entries_example =
    decode_param_data-print_entries (pos 1, codes "h2") two_entries
      (omega arith, (omega arith, (omega arith, tt)))
      (((λ e. cc), ((λ e. cc), tt)), (((λ e. cc), tt), (tt, tt)))

decode_svcb_param_list-Raises_example :
    (HasSurrogate (codes "port=") × (decode_svcb_param_list (codes "port=") ≡ err value_error))
    ⊎ (All IsScalar (codes "port=") × Raises Returned (decode_svcb_param_list (codes "port=")))
decode_svcb_param_list-Raises_example = decode_svcb_param_list-Raises (codes "port=")

-- A buffer that is the list of its bytes.
abbrev list_buffer : DnsBuffer
list_buffer = record {
  Buffer = Bytes;
  new = [];
  contents = λ b. b;
  len = λ b. length b;
  append = λ b bs. b ++ bs;
  pack_packed = λ b bs. b ++ bs;
  contents-new = refl;
  len-contents = λ b. refl;
  contents-append = λ b bs. refl;
  contents-pack_packed = λ b bs. refl;
}

abbrev two_params : List SvcbParam
two_params = map to_param two_entries

port-Fits : Fits (to_param (pos 3, codes "8443"))
port-Fits = record {
  number = 3;
  bytes = codes "8443";
  key_fits = refl;
  number_fits = omega arith;
  value_is = is_octets (codes "8443");
  bytes_fit = omega arith;
}

other-Fits : Fits (to_param (pos 65, accented))
other-Fits = record {
  number = 65;
  bytes = accented;
  key_fits = refl;
  number_fits = omega arith;
  value_is = is_octets accented;
  bytes_fit = omega arith;
}

pack_params-IsPacked_example :
    IsPacked list_buffer two_params (0 ∷ []) (pack_params list_buffer two_params (0 ∷ []))
pack_params-IsPacked_example =
    pack_params-IsPacked list_buffer two_params (port-Fits, (other-Fits, tt)) (0 ∷ [])

decode-pack_params_negative_example :
    (decode_param_data (print_entries (negsuc 4, codes "x") [])
      ≡ ok (to_param (negsuc 4, codes "x") ∷ []))
    × ((buf buf' : Bytes)
        → pack_params list_buffer (to_param (negsuc 4, codes "x") ∷ []) buf ≢ ok buf')
decode-pack_params_negative_example =
    decode-pack_params_negative list_buffer 4 (codes "x") (omega arith)
