-- ===== src/Svcb/Decode/Commas.antt =====
-- Comma lists are read back: a reference encoder of the value lists of RFC 9460, appendix A.1, and
-- what `decode_svcb_comma_list` makes of its output.
use hexdns.Common.{
  ℕ, zero, suc, ◌<◌, ◌≤◌, true, false, ◌||◌, ◌==◌, if◌then◌else◌, List, [], ◌∷◌, ◌++◌, length,
  Bytes, All, ◌≡◌, refl, ◌∙◌, inl, inr, Bool-cases, append_assoc, append-nil, length-append, ok,
  arith,
}
use hexdns.Svcb.Chars.{is_item_allowed_char}
use hexdns.Svcb.Decode.{
  escaped_item_loop, decode_escaped_item, comma_list_loop, decode_svcb_comma_list,
}
use hexdns.Svcb.Decode.Escapes.{IsByte}

-- A backslash stands before a backslash and before a comma.
unfoldable pub encode_item : Bytes → Bytes
encode_item [] = []
encode_item (b ∷ bs) = (if b == 92 || b == 44 then 92 ∷ b ∷ [] else b ∷ []) ++ encode_item bs

unfoldable pub join_items : Bytes → List Bytes → Bytes
unfolding encode_item
join_items v [] = encode_item v
join_items v (w ∷ vs) = encode_item v ++ 44 ∷ join_items w vs

escaped_item_loop-plain :
    (out : Bytes) (c : ℕ) (d : Bytes)
    → is_item_allowed_char c ≡ true
    → escaped_item_loop out (c ∷ d) ≡ escaped_item_loop (out ++ c ∷ []) d
unfolding escaped_item_loop
escaped_item_loop-plain out c [] h = rw h
escaped_item_loop-plain out c (e ∷ d) h = rw h

escaped_item_loop-escaped :
    (out : Bytes) (c : ℕ) (d : Bytes)
    → (c == 92 || c == 44) ≡ true
    → escaped_item_loop out (92 ∷ c ∷ d) ≡ escaped_item_loop (out ++ c ∷ []) d
unfolding escaped_item_loop is_item_allowed_char
escaped_item_loop-escaped out c d h = rw h

allowed_of_plain : (b : ℕ) → IsByte b → (b == 92 || b == 44) ≡ false → is_item_allowed_char b ≡ true
unfolding is_item_allowed_char
allowed_of_plain b h e = ground arith

escaped_item_loop-encode_item :
    (out bs d : Bytes)
    → All IsByte bs
    → escaped_item_loop out (encode_item bs ++ d) ≡ escaped_item_loop (out ++ bs) d
unfolding encode_item
escaped_item_loop-encode_item out [] d a = rw append-nil
escaped_item_loop-encode_item out (b ∷ bs) d a = elim (Bool-cases (b == 92 || b == 44)) [
  | inl special ↦ rw special (
      escaped_item_loop-escaped out b _ special
      ∙ escaped_item_loop-encode_item (out ++ b ∷ []) bs d a.1
      ∙ rw append_assoc)
  | inr plain ↦ rw plain (
      escaped_item_loop-plain out b _ (allowed_of_plain b a.0 plain)
      ∙ escaped_item_loop-encode_item (out ++ b ∷ []) bs d a.1
      ∙ rw append_assoc)
]

decode_escaped_item-last :
    (bs : Bytes) → All IsByte bs → decode_escaped_item (encode_item bs) ≡ ok (bs, [])
unfolding decode_escaped_item escaped_item_loop
decode_escaped_item-last bs a =
    rw (← append-nil (encode_item bs)) (escaped_item_loop-encode_item [] bs [] a)

escaped_item_loop-comma : (out d : Bytes) → escaped_item_loop out (44 ∷ d) ≡ ok (out, 44 ∷ d)
unfolding escaped_item_loop is_item_allowed_char
escaped_item_loop-comma out [] = refl
escaped_item_loop-comma out (c ∷ d) = refl

decode_escaped_item-comma :
    (bs d : Bytes)
    → All IsByte bs
    → decode_escaped_item (encode_item bs ++ 44 ∷ d) ≡ ok (bs, 44 ∷ d)
unfolding decode_escaped_item
decode_escaped_item-comma bs d a =
    escaped_item_loop-encode_item [] bs (44 ∷ d) a ∙ escaped_item_loop-comma bs d

comma_list_loop-join_items :
    (fuel : ℕ) (out : List Bytes) (v : Bytes) (vs : List Bytes)
    → length vs < fuel
    → All IsByte v
    → All (All IsByte) vs
    → comma_list_loop fuel out (join_items v vs) ≡ ok (out ++ v ∷ vs)
unfolding comma_list_loop join_items
comma_list_loop-join_items zero out v vs h a as' = absurd (omega arith)
comma_list_loop-join_items (suc fuel) out v [] h a as' = rw (decode_escaped_item-last v a)
comma_list_loop-join_items (suc fuel) out v (w ∷ vs) h a as' =
    rw (decode_escaped_item-comma v (join_items w vs) a) (
      comma_list_loop-join_items fuel (out ++ v ∷ []) w vs (omega arith) as'.0 as'.1
      ∙ rw append_assoc)

length-join_items : (v : Bytes) (vs : List Bytes) → length vs ≤ length (join_items v vs)
unfolding join_items
length-join_items v [] = omega arith
length-join_items v (w ∷ vs) =
    omega (arith, length-join_items w vs, length-append (encode_item v) (44 ∷ join_items w vs))

-- A list of byte strings, at least one, each escaped and joined by commas, decodes to that list.
pub decode_svcb_comma_list-join_items :
    (v : Bytes) (vs : List Bytes)
    → All IsByte v
    → All (All IsByte) vs
    → decode_svcb_comma_list (join_items v vs) ≡ ok (v ∷ vs)
unfolding decode_svcb_comma_list
decode_svcb_comma_list-join_items v vs a as' =
    comma_list_loop-join_items (suc (length (join_items v vs))) [] v vs
      (omega (arith, length-join_items v vs)) a as'
