-- ===== src/ZoneFile/Keys.antt =====
-- The zone's key: make_key_tag of tasks.py, get_dnskey and make_zone_digest of utils.py.
pub mod Tag
use hexdns.Common.{
  ℕ, ◌+◌, ◌*◌, ◌/◌, ◌%◌, [], ◌∷◌, ◌++◌, Bytes, ◌≡◌, if◌then◌else◌, ltb, Result, ok, err,
  overflow_error, ◌>>=◌,
}
use hexdns.Dns.External.{External}
use hexdns.Tsig.{Outside, be, bound}

-- `public_key.public_numbers()`
pub record PublicNumbers : Type 0 where
  pub x : ℕ
  pub y : ℕ

-- `dnslib.DNSKEY`
pub record Dnskey : Type 0 where
  pub flags : ℕ
  pub protocol : ℕ
  pub algorithm : ℕ
  pub key : Bytes

-- `int.to_bytes(n, byteorder="big")`
unfoldable pub to_bytes : ℕ → ℕ → Result Bytes
unfolding be bound
to_bytes size n = if ltb n (bound size) then ok (be size n) else err overflow_error

unfoldable pub make_dnskey : ℕ → PublicNumbers → Result Dnskey
unfolding to_bytes
make_dnskey flags nums = do
  x ← to_bytes 32 nums.x
  y ← to_bytes 32 nums.y
  ok (record { flags = flags; protocol = 3; algorithm = 13; key = x ++ y })

-- `for i in range(len(buffer.data) // 2)`, and the byte that is left over.
unfoldable pub sum_words : ℕ → Bytes → ℕ
sum_words tag [] = tag
sum_words tag (a ∷ []) = tag + a * 256
sum_words tag (a ∷ b ∷ rest) = sum_words (tag + (a * 256 + b)) rest

-- `tag += (tag >> 16) & 0xFFFF` and `tag & 0xFFFF`
unfoldable pub fold_tag : ℕ → ℕ
fold_tag tag = (tag + tag / 65536 % 65536) % 65536

-- What the key's functions take from outside: the packing of a `DNSKEY`, and that of a name.
pub record Packing ⦃E : External⦄ ⦃O : Outside⦄ : Type 1 where
  pub pack_dnskey : Dnskey → O.Buffer → O.Buffer
  pub encode_name : O.Buffer → E.Label → O.Buffer
  -- Documented behaviour (RFC 4034, section 2.1).
  pub contents-pack_dnskey :
      (k : Dnskey) (b : O.Buffer)
      → O.contents (pack_dnskey k b)
        ≡ O.contents b ++ (be 2 k.flags ++ k.protocol ∷ k.algorithm ∷ k.key)

module _ ⦃E : External⦄ ⦃O : Outside⦄ ⦃P : Packing⦄ where
  unfoldable pub make_key_tag : PublicNumbers → ℕ → Result ℕ
  unfolding make_dnskey sum_words fold_tag
  make_key_tag nums flags = do
    rd ← make_dnskey flags nums
    ok (fold_tag (sum_words 0 (O.contents (P.pack_dnskey rd O.new))))

  unfoldable pub get_dnskey : PublicNumbers → Result Dnskey
  unfolding make_dnskey
  get_dnskey nums = make_dnskey 257 nums

  -- The digest, before `hexdigest` writes it out, and the tag.
  unfoldable pub make_zone_digest : PublicNumbers → E.Label → Result (Bytes × ℕ)
  unfolding get_dnskey make_key_tag
  make_zone_digest nums zone_name = do
    rd ← get_dnskey nums
    tag ← make_key_tag nums 257
    ok (E.sha256 (O.contents (P.pack_dnskey rd (P.encode_name O.new zone_name))), tag)
