-- ===== src/ZoneFile/Keys/Tag.antt =====
-- The key tag is that of RFC 4034, appendix B.
use hexdns.Common.{
  ℕ, ◌+◌, ◌*◌, ◌/◌, ◌%◌, ◌<◌, ◌≡◌, refl, Bool, true, false, [], ◌∷◌, ◌++◌, Bytes, ok, arith,
}
use hexdns.Dns.External.{External}
use hexdns.Tsig.{Outside, be, bound}
use hexdns.ZoneFile.Keys.{
  PublicNumbers, to_bytes, make_dnskey, sum_words, fold_tag, Packing, make_key_tag,
}

-- The sum of the appendix, byte by byte: `ac += (i & 1) ? key[i] : key[i] << 8`.
unfoldable pub rfc_sum : Bool → ℕ → Bytes → ℕ
rfc_sum odd ac [] = ac
rfc_sum true ac (b ∷ bs) = rfc_sum false (ac + b) bs
rfc_sum false ac (b ∷ bs) = rfc_sum true (ac + b * 256) bs

unfoldable pub rfc_tag : Bytes → ℕ
unfolding rfc_sum
rfc_tag data_ = (rfc_sum false 0 data_ + rfc_sum false 0 data_ / 65536 % 65536) % 65536

sum_words-rfc_sum : (bs : Bytes) (ac : ℕ) → sum_words ac bs ≡ rfc_sum false ac bs
unfolding sum_words rfc_sum
sum_words-rfc_sum [] ac = refl
sum_words-rfc_sum (a ∷ []) ac = refl
sum_words-rfc_sum (a ∷ b ∷ rest) ac =
    let sums : ac + (a * 256 + b) ≡ ac + a * 256 + b = omega arith in
    rw (sums, sum_words-rfc_sum rest (ac + a * 256 + b)) refl

pub to_bytes-ok : (size n : ℕ) → n < bound size → to_bytes size n ≡ ok (be size n)
unfolding to_bytes
to_bytes-ok size n h = ground arith

module _ ⦃E : External⦄ ⦃O : Outside⦄ ⦃P : Packing⦄ where
  -- For coordinates of at most 32 bytes, the tag is that of the appendix for the key's record data,
  -- and fits 16 bits.
  pub make_key_tag-rfc_tag :
      (nums : PublicNumbers) (flags : ℕ)
      → nums.x < bound 32
      → nums.y < bound 32
      → (make_key_tag nums flags
          ≡ ok (rfc_tag (be 2 flags ++ 3 ∷ 13 ∷ (be 32 nums.x ++ be 32 nums.y))))
        × (rfc_tag (be 2 flags ++ 3 ∷ 13 ∷ (be 32 nums.x ++ be 32 nums.y)) < 65536)
  unfolding make_key_tag make_dnskey fold_tag rfc_tag
  make_key_tag-rfc_tag nums flags hx hy = (
    rw (to_bytes-ok 32 nums.x hx, to_bytes-ok 32 nums.y hy)
        (rw (P.contents-pack_dnskey _ O.new, O.contents-new, sum_words-rfc_sum _ 0) refl),
    omega arith,
  )
