-- ===== src/Svcb/Params/RoundTrip.antt =====
-- Parameter lists are read back: a reference printer of `name="value"` pairs, and what
-- `decode_svcb_param_list` makes of its output.
use mathlib.Core.List.{map-append}
use hexdns.Common.{
  zero, length-append, ◌<◌, ◌≤◌, ℕ, suc, All-append, length, List, [], ◌∷◌, ◌++◌, map, Bytes, All,
  bytes_eq, bytes_eq_iff, ◌≡◌, ◌≢◌, refl, sym, ap, ◌∙◌, append_assoc, append-nil, ok, arith, ℤ,
  Bool-cases, inl, inr,
}
use hexdns.Svcb.Chars.{is_digit_char}
use hexdns.Svcb.Decode.{param_key_loop, decode_svcb_param_key}
use hexdns.Svcb.Decode.Escapes.{IsByte, quote, decode_char_str-quote}
use hexdns.Svcb.Params.{
  build_params, param_list_loop, decode_param_data, SvcbParam, octet_data, dict_set, skip_wsp,
  param_round, param_id_to_name,
}
use hexdns.Svcb.Params.Names.{IsKeyChar, key_id-param_id_to_name, param_id_to_name-IsKeyChar}

-- A parameter by its number and the octets of its value.
abbrev pub Entry : Type 0
Entry = ℤ × Bytes

abbrev pub to_param : Entry → SvcbParam
to_param e = record { key = e.0; value = octet_data e.1 }

unfoldable pub print_entry : Entry → Bytes
print_entry e = param_id_to_name e.0 ++ 61 ∷ quote e.1

-- The entries behind one another, a space between two.
unfoldable pub print_entries : Entry → List Entry → Bytes
unfolding print_entry
print_entries e [] = print_entry e
print_entries e (f ∷ es) = print_entry e ++ 32 ∷ print_entries f es

-- No two entries have one number.
abbrev pub HasDistinctKeys : List Entry → Type 0
HasDistinctKeys [] = Unit
HasDistinctKeys (e ∷ es) = All (λ (f : Entry). f.0 ≢ e.0) es × HasDistinctKeys es

param_key_loop-IsKeyChar :
    (out key d : Bytes)
    → All IsKeyChar key
    → param_key_loop out (key ++ 61 ∷ d) ≡ (out ++ key, 61 ∷ d)
unfolding param_key_loop is_digit_char
param_key_loop-IsKeyChar out [] d a = rw append-nil
param_key_loop-IsKeyChar out (c ∷ key) d a =
    rw a.0 (param_key_loop-IsKeyChar (out ++ c ∷ []) key d a.1 ∙ rw append_assoc)

skip_wsp-IsKeyChar :
    (key d : Bytes) → All IsKeyChar key → key ≢ [] → skip_wsp (key ++ d) ≡ ok (key ++ d)
unfolding skip_wsp is_digit_char
skip_wsp-IsKeyChar [] d a ne = absurd (ne refl)
skip_wsp-IsKeyChar (c ∷ key) d a ne = ground arith

skip_wsp-space : (d : Bytes) → skip_wsp (32 ∷ d) ≡ skip_wsp d
unfolding skip_wsp
skip_wsp-space d = refl

param_round-print_entry :
    (e : Entry) (d d' : Bytes)
    → All IsByte e.1
    → skip_wsp d ≡ skip_wsp (print_entry e ++ d')
    → param_round d ≡ ok (param_id_to_name e.0, e.1, d')
unfolding param_round print_entry decode_svcb_param_key
param_round-print_entry e d d' a same =
    let (chars, ne) = param_id_to_name-IsKeyChar e.0 in
    rw (same, append_assoc)
      (rw (skip_wsp-IsKeyChar (param_id_to_name e.0) (61 ∷ (quote e.1 ++ d')) chars ne) (
        rw (param_key_loop-IsKeyChar [] (param_id_to_name e.0) (quote e.1 ++ d') chars)
          (rw (decode_char_str-quote e.1 d' a))))

-- The dictionary that the entries make.
abbrev named : Entry → Bytes × Bytes
named e = (param_id_to_name e.0, e.1)

name-injective : (a b : ℤ) → param_id_to_name a ≡ param_id_to_name b → a ≡ b
name-injective a b h = cc (key_id-param_id_to_name a, key_id-param_id_to_name b)

dict_set-new :
    (e : Entry) (es : List Entry)
    → All (λ (f : Entry). e.0 ≢ f.0) es
    → dict_set (param_id_to_name e.0) e.1 (map named es) ≡ map named es ++ named e ∷ []
unfolding dict_set
dict_set-new e [] a = refl
dict_set-new e (f ∷ es) a =
    elim (Bool-cases (bytes_eq (param_id_to_name f.0) (param_id_to_name e.0))) [
      | inl same ↦ absurd (a.0 (sym (name-injective f.0 e.0 ((bytes_eq_iff _ _).0 same))))
      | inr other ↦ rw other (ap (◌∷◌ (named f)) (dict_set-new e es a.1))
    ]

-- No entry of the one list has a number of the other.
abbrev Apart : List Entry → List Entry → Type 0
Apart es seen = All (λ (e : Entry). All (λ (f : Entry). e.0 ≢ f.0) seen) es

Apart-concat :
    (es seen : List Entry) (e : Entry)
    → Apart es seen
    → All (λ (f : Entry). f.0 ≢ e.0) es
    → Apart es (seen ++ e ∷ [])
Apart-concat [] seen e a b = tt
Apart-concat (f ∷ es) seen e a b = (
  All-append (λ (g : Entry). f.0 ≢ g.0) seen (e ∷ []) a.0 (b.0, tt),
  Apart-concat es seen e a.1 b.1,
)

param_list_loop-print_entries :
    (fuel : ℕ) (seen : List Entry) (d : Bytes) (e : Entry) (es : List Entry)
    → length es < fuel
    → skip_wsp d ≡ skip_wsp (print_entries e es)
    → All (λ (f : Entry). All IsByte f.1) (e ∷ es)
    → HasDistinctKeys (e ∷ es)
    → Apart (e ∷ es) seen
    → param_list_loop fuel (map named seen) d ≡ ok (map named (seen ++ e ∷ es))
unfolding param_list_loop print_entries
param_list_loop-print_entries zero seen d e es h same a k apart = absurd (omega arith)
param_list_loop-print_entries (suc fuel) seen d e [] h same a k apart =
    let once = param_round-print_entry e d [] a.0 (same ∙ rw append-nil) in
    rw once (rw (dict_set-new e seen apart.0) (rw map-append))
param_list_loop-print_entries (suc fuel) seen d e (f ∷ es) h same a k apart =
    let grown : map named seen ++ named e ∷ [] ≡ map named (seen ++ e ∷ []) = rw map-append in
    let once = param_round-print_entry e d (32 ∷ print_entries f es) a.0 same in
    rw once (
      rw (dict_set-new e seen apart.0) (
        rw grown (
          param_list_loop-print_entries fuel (seen ++ e ∷ []) (32 ∷ print_entries f es) f es
            (omega arith) (skip_wsp-space (print_entries f es)) a.1 k.1
            (Apart-concat (f ∷ es) seen e apart.1 k.0)
          ∙ rw append_assoc)))

build_params-named : (es : List Entry) → build_params (map named es) ≡ ok (map to_param es)
unfolding build_params
build_params-named [] = refl
build_params-named (e ∷ es) = rw (key_id-param_id_to_name e.0) (rw (build_params-named es))

length-print_entries : (e : Entry) (es : List Entry) → length es ≤ length (print_entries e es)
unfolding print_entries
length-print_entries e [] = omega arith
length-print_entries e (f ∷ es) =
    omega
      (arith, length-print_entries f es, length-append (print_entry e) (32 ∷ print_entries f es))

Apart-nil : (es : List Entry) → Apart es []
Apart-nil [] = tt
Apart-nil (e ∷ es) = (tt, Apart-nil es)

-- Parameters with distinct numbers, printed by their names with quoted values and one space between
-- two, are decoded from these bytes, behind the encoding of the text, to the same parameters in the
-- same order, whatever octets the values hold.
pub decode_param_data-print_entries :
    (e : Entry) (es : List Entry)
    → All (λ (f : Entry). All IsByte f.1) (e ∷ es)
    → HasDistinctKeys (e ∷ es)
    → decode_param_data (print_entries e es) ≡ ok (map to_param (e ∷ es))
unfolding decode_param_data
decode_param_data-print_entries e es a k =
    let d = print_entries e es in
    rw
      (param_list_loop-print_entries (suc (length d)) [] d e es
        (omega (arith, length-print_entries e es)) refl a k (Apart-nil (e ∷ es)))
      (build_params-named (e ∷ es))
