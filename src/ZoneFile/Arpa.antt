-- ===== src/ZoneFile/Arpa.antt =====
-- The names of addresses and networks below arpa: network_to_apra and address_to_apra of tasks.py. An
-- address is the number that `ipaddress` keeps.
pub mod Below
use hexdns.Common.{
  ℕ, zero, suc, ◌+◌, ◌/◌, ◌%◌, ltb, if◌then◌else◌, List, [], ◌∷◌, ◌++◌, map, Bytes, codes,
}
use mathlib.Core.List.{reverse}
use hexdns.Dns.External.{External}
use hexdns.ZoneFile.Strings.{show}

pub data Address : Type 0 where
  v4_address v6_address : ℕ → Address

pub record Network : Type 0 where
  pub network_address : Address
  pub prefixlen : ℕ

-- The digits of a number, the high one first.
unfoldable pub digits : ℕ → ℕ → ℕ → List ℕ
digits base zero n = []
digits base (suc size) n = digits base size (n / base) ++ n % base ∷ []

unfoldable pub hex_digit : ℕ → ℕ
hex_digit n = if ltb n 10 then 48 + n else 87 + n

-- `network.network_address.exploded.replace(":", "")`, as its characters.
unfoldable pub exploded6 : ℕ → List Bytes
unfolding digits hex_digit
exploded6 n = map (λ d. hex_digit d ∷ []) (digits 16 32 n)

-- `network.network_address.exploded.split(".")`
unfoldable pub exploded4 : ℕ → List Bytes
unfolding digits show
exploded4 n = map show (digits 256 4 n)

-- `…[: n]`
unfoldable pub take {ℓ} : {A : Type ℓ} → ℕ → List A → List A
take zero xs = []
take (suc n) [] = []
take (suc n) (x ∷ xs) = x ∷ take n xs

-- The labels that network_to_apra makes a name of.
unfoldable pub network_labels : Address → ℕ → List Bytes
unfolding exploded4 exploded6 take
network_labels (v6_address n) prefixlen =
    reverse (take ((prefixlen + 3) / 4) (exploded6 n)) ++ codes "ip6" ∷ codes "arpa" ∷ []
network_labels (v4_address n) prefixlen =
    reverse (take ((prefixlen + 7) / 8) (exploded4 n)) ++ codes "in-addr" ∷ codes "arpa" ∷ []

unfoldable pub address_labels : Address → List Bytes
unfolding exploded4 exploded6
address_labels (v6_address n) = reverse (exploded6 n) ++ codes "ip6" ∷ codes "arpa" ∷ []
address_labels (v4_address n) = reverse (exploded4 n) ++ codes "in-addr" ∷ codes "arpa" ∷ []

module _ ⦃E : External⦄ where
  unfoldable pub network_to_apra : Network → E.Label
  unfolding network_labels
  network_to_apra network = E.of_labels (network_labels network.network_address network.prefixlen)

  unfoldable pub address_to_apra : Address → E.Label
  unfolding address_labels
  address_to_apra address = E.of_labels (address_labels address)
