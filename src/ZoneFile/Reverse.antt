-- ===== src/ZoneFile/Reverse.antt =====
-- generate_rzone and generate_szone of tasks.py.
pub mod Accounts
use hexdns.Common.{
  ℕ, suc, ◌==◌, if◌then◌else◌, List, [], ◌∷◌, ◌++◌, Bytes, codes, bytes_eq, Option, none, some,
  Result, ok, err, ◌>>=◌,
}
use hexdns.Dns.External.{External}
use hexdns.Dns.Store.{Row}
use hexdns.Tsig.{Outside}
use hexdns.ZoneFile.Strings.{show}
use hexdns.ZoneFile.Keys.{Packing}
use hexdns.ZoneFile.Arpa.{Address, Network, network_to_apra, address_to_apra}
use hexdns.ZoneFile.Lines.{Texts, concat, newline, rr_line, comment}
use hexdns.ZoneFile.Header.{HeaderZone, generate_zone_header}

-- `PTRRecord`
pub record Ptr : Type 0 where
  pub pk : ℕ
  pub ttl : ℕ
  pub record_address : Address
  pub pointer : Bytes

-- `ReverseNSRecord`
pub record ReverseNs : Type 0 where
  pub pk : ℕ
  pub ttl : ℕ
  pub record_prefix : ℕ
  pub nameserver : Bytes

-- What generate_rzone reads of an address and its zone.
pub record AutoReverse : Type 0 where
  pub zone_root : Bytes
  pub address : Address

-- `ReverseDNSZone`, with its rows and the addresses with `auto_reverse` that lie in it.
pub record ReverseZone : Type 0 where
  pub network : Network
  pub header : HeaderZone
  pub ptr : List Ptr
  pub ns : List ReverseNs
  pub auto : List (Row AutoReverse)

-- `zones[id]`
unfoldable pub zones_get : ℕ → List (ℕ × ℕ) → Option ℕ
zones_get id [] = none
zones_get id ((k, account) ∷ zones) =
    let later = zones_get id zones in if k == id then some account else later

module _ ⦃E : External⦄ ⦃T : Texts⦄ where
  unfoldable pub ptr_text : E.Label → Ptr → Bytes
  unfolding comment rr_line address_to_apra bytes_eq
  ptr_text zone_root r =
      comment (codes "PTR record") (codes "hexdns_rzoneptrrecord") r.pk
      ++ rr_line (T.str_label (address_to_apra r.record_address)) r.ttl (codes "PTR")
          (T.str_label (if bytes_eq r.pointer (codes "@") then zone_root else E.of_str r.pointer))

  unfoldable pub ptr_section : E.Label → List Ptr → Bytes
  unfolding ptr_text
  ptr_section zone_root [] = []
  ptr_section zone_root (r ∷ rs) = ptr_text zone_root r ++ ptr_section zone_root rs

  unfoldable pub reverse_ns_text : E.Label → ReverseNs → Bytes
  unfolding comment rr_line show
  reverse_ns_text zone_root r =
      comment (codes "NS record") (codes "hexdns_rzonensrecord") r.pk
      ++ rr_line (show r.record_prefix ++ codes "." ++ T.str_label zone_root) r.ttl (codes "NS")
          (T.str_label (E.of_str r.nameserver))

  unfoldable pub reverse_ns_section : E.Label → List ReverseNs → Bytes
  unfolding reverse_ns_text
  reverse_ns_section zone_root [] = []
  reverse_ns_section zone_root (r ∷ rs) =
      reverse_ns_text zone_root r ++ reverse_ns_section zone_root rs

  unfoldable pub auto_text : Row AutoReverse → Bytes
  unfolding comment rr_line address_to_apra bytes_eq
  auto_text r =
      comment (codes "Address record") (codes "hexdns_zoneaddressrecord") r.pk
      ++ rr_line (T.str_label (address_to_apra r.body.address)) r.ttl (codes "PTR") (
          T.str_label (
            if bytes_eq r.record_name (codes "@")
            then E.of_str r.body.zone_root
            else E.of_str (r.record_name ++ codes "." ++ r.body.zone_root)))

  -- `if account2 == account: …`
  unfoldable pub own_text : ℕ → ℕ → Row AutoReverse → Bytes
  unfolding auto_text
  own_text account account2 r = if account2 == account then auto_text r else []

  -- The last loop: the account of each zone is asked for once, and kept in `zones`. The account service
  -- may answer every request in another way: `account_of` takes the number of the request.
  unfoldable pub auto_section :
      (ℕ → ℕ → Result ℕ) → ℕ → ℕ → List (ℕ × ℕ) → List (Row AutoReverse) → Result Bytes
  unfolding zones_get own_text
  auto_section account_of request account zones [] = ok []
  auto_section account_of request account zones (r ∷ rs) = elim (zones_get r.zone zones) [
    | some account2 ↦ do
      rest ← auto_section account_of request account zones rs
      ok (own_text account account2 r ++ rest)
    | none ↦ do
      account2 ← account_of request r.zone
      rest ← auto_section account_of (suc request) account ((r.zone, account2) ∷ zones) rs
      ok (own_text account account2 r ++ rest)
  ]

  -- `for record in zone.secondarydnszonerecord_set.all(): …`
  unfoldable pub secondary_section : List (ℕ × Bytes) → Bytes
  unfolding comment
  secondary_section [] = []
  secondary_section ((pk, record_text) ∷ records) =
      comment (codes "Record") (codes "hexdns_szonerecord") pk
      ++ (record_text ++ (newline ++ secondary_section records))

  unfoldable pub generate_szone : Bytes → List (ℕ × Bytes) → Bytes
  unfolding secondary_section
  generate_szone zone_root records =
      codes "$ORIGIN "
      ++ (T.str_label (E.of_str zone_root) ++ (newline ++ secondary_section records))

  module _ ⦃O : Outside⦄ ⦃P : Packing⦄ where
    -- `zone.get_user().account` of the zone, and of the addresses' zones by the requests that follow,
    -- are arguments.
    unfoldable pub generate_rzone : Result ℕ → (ℕ → ℕ → Result ℕ) → ReverseZone → Result Bytes
    unfolding generate_zone_header network_to_apra ptr_section reverse_ns_section auto_section
    generate_rzone own_account account_of zone = do
      let zone_root = network_to_apra zone.network
      header ← generate_zone_header zone.header zone_root
      account ← own_account
      auto ← auto_section account_of 0 account [] zone.auto
      ok (
          header
          ++ (ptr_section zone_root zone.ptr ++ (reverse_ns_section zone_root zone.ns ++ auto)))
