-- ===== src/Update/Request.antt =====
-- What an update asks for, the key that signed it, and what the handler takes from `dnslib` and from
-- Python beside the names: the comparison, the sorting and the decoding of data.
use mathlib.Core.List.{Perm}
use hexdns.Common.{ℕ, Bool, List, Bytes, Option, some, ◌≡◌}
use hexdns.Dns.External.{External}
use hexdns.Dns.Message.{Rdata}

-- `CLASS.IN`, `CLASS.None` and `CLASS.*`
abbrev pub class_in : ℕ
class_in = 1

abbrev pub class_none : ℕ
class_none = 254

abbrev pub class_any : ℕ
class_any = 255

-- `DNSZoneUpdateSecrets`: `type` is `U` or `D`.
pub record Key : Type 0 where
  pub zone : ℕ
  pub type : Bytes
  pub restrict_to : Bytes

module _ ⦃E : External⦄ where
  -- A resource record of the request: `none` is the `''` that `dnslib` gives for no data.
  pub record UpdateRr : Type 0 where
    pub rname : E.Label
    pub rtype : ℕ
    pub rclass : ℕ
    pub ttl : ℕ
    pub rdata : Option Rdata

  -- The question's class, the prerequisites and the updates.
  pub record UpdateRequest : Type 0 where
    pub qclass : ℕ
    pub prset : List UpdateRr
    pub upset : List UpdateRr

  pub record Wire : Type 0 where
    -- `==` on the data of two records, and on two records.
    pub rdata_eq : Rdata → Rdata → Bool
    pub rr_eq : UpdateRr → UpdateRr → Bool
    -- `list.sort` by name and data; `none` is its `TypeError`.
    pub sort_rrs : List UpdateRr → Option (List UpdateRr)
    pub sort_rrs-perm : (rrs sorted : List UpdateRr) → sort_rrs rrs ≡ some sorted → Perm sorted rrs
    -- `bytes.decode(errors='replace')`, `dnslib.TXT.parse` and `DNSBuffer.decode_name`, which gives
    -- the rest too.
    pub decode_replace : Bytes → Bytes
    pub parse_strings : Bytes → Option (List Bytes)
    pub decode_name : Bytes → Option (Bytes × Bytes)
