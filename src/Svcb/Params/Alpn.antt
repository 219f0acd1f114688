-- ===== src/Svcb/Params/Alpn.antt =====
-- `ALPNData.from_str`: a quoted comma list of protocol names is read back, if no name is too long.
use hexdns.Common.{
  ◌≤◌, ◌≡◌, refl, true, false, ltb, List, [], ◌∷◌, length, Bytes, All, All-append, append-nil, ok,
  arith, Bool-cases, inl, inr, ◌==◌, ◌||◌,
}
use hexdns.Svcb.Decode.Escapes.{IsByte, quote, decode_char_str-quote}
use hexdns.Svcb.Decode.Commas.{encode_item, join_items, decode_svcb_comma_list-join_items}
use hexdns.Svcb.Params.{alpn_data, all_short, alpn_init, alpn_from_str}

encode_item-IsByte : (bs : Bytes) → All IsByte bs → All IsByte (encode_item bs)
unfolding encode_item
encode_item-IsByte [] a = tt
encode_item-IsByte (b ∷ bs) a = elim (Bool-cases (b == 92 || b == 44)) [
  | inl special ↦ rw special (omega arith, (a.0, encode_item-IsByte bs a.1))
  | inr plain ↦ rw plain (a.0, encode_item-IsByte bs a.1)
]

join_items-IsByte :
    (v : Bytes) (vs : List Bytes)
    → All IsByte v
    → All (All IsByte) vs
    → All IsByte (join_items v vs)
unfolding join_items
join_items-IsByte v [] a b = encode_item-IsByte v a
join_items-IsByte v (w ∷ vs) a b =
    All-append IsByte (encode_item v) (44 ∷ join_items w vs) (encode_item-IsByte v a)
      (omega arith, join_items-IsByte w vs b.0 b.1)

-- What `from_str` makes of a decoded list.
alpn_from_str-join_items :
    (v : Bytes) (vs : List Bytes)
    → All IsByte v
    → All (All IsByte) vs
    → alpn_from_str (quote (join_items v vs)) ≡ alpn_init (v ∷ vs)
unfolding alpn_from_str
alpn_from_str-join_items v vs a b =
    let list = join_items v vs in
    rw (← append-nil (quote list)) (
      rw (decode_char_str-quote list [] (join_items-IsByte v vs a b))
        (rw (decode_svcb_comma_list-join_items v vs a b)))

all_short-of_All : (vs : List Bytes) → All (λ v. length v ≤ 255) vs → all_short vs ≡ true
unfolding all_short
all_short-of_All [] a = refl
all_short-of_All (v ∷ vs) a =
    let small : ltb 255 (length v) ≡ false = ground arith in rw small (all_short-of_All vs a.1)

All-of_all_short : (vs : List Bytes) → all_short vs ≡ true → All (λ v. length v ≤ 255) vs
unfolding all_short
All-of_all_short [] h = tt
All-of_all_short (v ∷ vs) h = elim (Bool-cases (ltb 255 (length v))) [
  | inl long ↦ absurd (cc (rw long at h))
  | inr short ↦ (ground arith, All-of_all_short vs (rw short at h))
]

-- A quoted comma list of protocol names, at least one, is read back as the same names, if none is
-- longer than 255 bytes.
pub alpn_from_str-quote :
    (v : Bytes) (vs : List Bytes)
    → All IsByte v
    → All (All IsByte) vs
    → All (λ w. length w ≤ 255) (v ∷ vs)
    → alpn_from_str (quote (join_items v vs)) ≡ ok (alpn_data (v ∷ vs))
unfolding alpn_init
alpn_from_str-quote v vs a b short =
    rw (alpn_from_str-join_items v vs a b) (rw (all_short-of_All (v ∷ vs) short, alpn_init))
