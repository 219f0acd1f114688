-- ===== src/ZoneFile/Reverse/Accounts.antt =====
-- Whose addresses generate_rzone writes, although it asks for the account of a zone only once.
use hexdns.Common.{
  ℕ, suc, ◌==◌, ==_iff, if◌then◌else◌, Bool-cases, Option-cases, inl, inr, List, [], ◌∷◌, ◌++◌,
  Bytes, some, Result, ok, ◌>>=◌, ◌≡◌, refl, ap,
}
use mathlib.Core.Path.{fun_ext}
use hexdns.Dns.External.{External}
use hexdns.Dns.Store.{Row}
use hexdns.Tsig.{Outside}
use hexdns.ZoneFile.Keys.{Packing}
use hexdns.ZoneFile.Arpa.{network_to_apra}
use hexdns.ZoneFile.Lines.{Texts}
use hexdns.ZoneFile.Header.{generate_zone_header}
use hexdns.ZoneFile.Reverse.{
  AutoReverse, ReverseZone, zones_get, auto_text, own_text, auto_section, ptr_section,
  reverse_ns_section, generate_rzone,
}

-- What is kept is the account that owns the zone.
Keeps : (ℕ → ℕ) → List (ℕ × ℕ) → Type 0
Keeps owner zones = (id account : ℕ) → zones_get id zones ≡ some account → account ≡ owner id

Keeps-cons :
    (owner : ℕ → ℕ) (zones : List (ℕ × ℕ)) (k : ℕ)
    → Keeps owner zones
    → Keeps owner ((k, owner k) ∷ zones)
unfolding Keeps zones_get
Keeps-cons owner zones k keeps id found h = elim (Bool-cases (k == id)) [
  | inl same ↦ cc (rw same at h, (==_iff k id).0 same)
  | inr other ↦ keeps id found (rw other at h)
]

Keeps-nil : (owner : ℕ → ℕ) → Keeps owner []
unfolding Keeps zones_get
Keeps-nil owner id account h = cc h

module _ ⦃E : External⦄ ⦃T : Texts⦄ where
  -- The rows whose zone the account owns.
  unfoldable pub owned : (ℕ → ℕ) → ℕ → List (Row AutoReverse) → List (Row AutoReverse)
  owned owner account [] = []
  owned owner account (r ∷ rs) =
      let rest = owned owner account rs in if owner r.zone == account then r ∷ rest else rest

  unfoldable pub auto_texts : List (Row AutoReverse) → Bytes
  unfolding auto_text
  auto_texts [] = []
  auto_texts (r ∷ rs) = auto_text r ++ auto_texts rs

  owned-nil : (owner : ℕ → ℕ) (account : ℕ) → [] ≡ auto_texts (owned owner account [])
  unfolding owned auto_texts
  owned-nil owner account = refl

  -- One row in front of the loop's rest.
  own_text-owned :
      (owner : ℕ → ℕ) (account : ℕ) (r : Row AutoReverse) (rs : List (Row AutoReverse))
      → own_text account (owner r.zone) r ++ auto_texts (owned owner account rs)
        ≡ auto_texts (owned owner account (r ∷ rs))
  unfolding own_text owned auto_texts
  own_text-owned owner account r rs = elim (Bool-cases (owner r.zone == account)) [
    | inl own ↦ rw (own, own_text, owned, auto_texts) refl
    | inr other ↦ rw (other, own_text, owned) refl
  ]

  auto_section-owned :
      (account_of : ℕ → ℕ → Result ℕ) (owner : ℕ → ℕ) (request account : ℕ) (zones : List (ℕ × ℕ))
      (rows : List (Row AutoReverse))
      → ((n id : ℕ) → account_of n id ≡ ok (owner id))
      → Keeps owner zones
      → auto_section account_of request account zones rows
        ≡ ok (auto_texts (owned owner account rows))
  unfolding auto_section Keeps
  auto_section-owned account_of owner request account zones [] h keeps =
      ap (λ (t : Bytes). ok t) (owned-nil owner account)
  auto_section-owned account_of owner request account zones (r ∷ rs) h keeps =
      let front = own_text-owned owner account r rs in
      elim (Option-cases (zones_get r.zone zones)) [
        | inr (account2, kept) ↦
            rw
              (
                kept,
                auto_section,
                keeps r.zone account2 kept,
                auto_section-owned account_of owner request account zones rs h keeps,
              )
              (ap (λ (t : Bytes). ok t) front)
        | inl new ↦
            rw
              (
                new,
                auto_section,
                h request r.zone,
                auto_section-owned account_of owner (suc request) account
                    ((r.zone, owner r.zone) ∷ zones) rs h (Keeps-cons owner zones r.zone keeps),
              )
              (ap (λ (t : Bytes). ok t) front)
      ]

  module _ ⦃O : Outside⦄ ⦃P : Packing⦄ where
    -- generate_rzone with another last loop, which is given the account of the reverse zone.
    unfoldable pub rzone_with : Result ℕ → ReverseZone → (ℕ → Result Bytes) → Result Bytes
    unfolding generate_zone_header network_to_apra ptr_section reverse_ns_section
    rzone_with own_account zone auto_loop = do
      let zone_root = network_to_apra zone.network
      header ← generate_zone_header zone.header zone_root
      account ← own_account
      auto ← auto_loop account
      ok (
          header
          ++ (ptr_section zone_root zone.ptr ++ (reverse_ns_section zone_root zone.ns ++ auto)))

    -- Where the account of every zone can be told, and the answers to two requests for one zone are the
    -- same, the file of a reverse zone has of the addresses those, and all those, whose zone belongs to
    -- the account of the reverse zone.
    pub generate_rzone-owned :
        (own_account : Result ℕ) (account_of : ℕ → ℕ → Result ℕ) (zone : ReverseZone)
        (owner : ℕ → ℕ)
        → ((n id : ℕ) → account_of n id ≡ ok (owner id))
        → generate_rzone own_account account_of zone
          ≡ rzone_with own_account zone (λ account. ok (auto_texts (owned owner account zone.auto)))
    unfolding generate_rzone rzone_with
    generate_rzone-owned own_account account_of zone owner h = ap (rzone_with own_account zone) (
        fun_ext
          λ account. auto_section-owned account_of owner 0 account [] zone.auto h (Keeps-nil owner))
