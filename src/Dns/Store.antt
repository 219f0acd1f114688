-- ===== src/Dns/Store.antt =====
-- The tables of models.py that grpc.py reads. A column that
-- the program parses at each use (an address, a DS digest, an SSH key, the parts of a service
-- binding) is kept as what it parses to.
use hexdns.Common.{ℕ, Bool, List, Bytes, Option}
use hexdns.Dns.Message.{Ip}

-- A row of a subclass of `DNSZoneRecord`: the inherited columns, and `D` for its own.
pub record Row (D : Type 0) : Type 0 where
  pub pk : ℕ
  pub zone : ℕ
  pub record_name : Bytes
  pub ttl : ℕ
  pub body : D

pub record Dynamic : Type 0 where
  pub current_ipv4 : Option Bytes
  pub current_ipv6 : Option Bytes

pub record Aname : Type 0 where
  pub alias : Bytes
  pub cached : List Ip

pub record Redirect : Type 0 where
  pub target : Bytes
  pub include_path : Bool

pub record Mx : Type 0 where
  pub exchange : Bytes
  pub priority : ℕ

pub record Srv : Type 0 where
  pub priority : ℕ
  pub weight : ℕ
  pub port : ℕ
  pub target : Bytes

pub record Caa : Type 0 where
  pub flag : ℕ
  pub tag : Bytes
  pub value : Bytes

pub record Naptr : Type 0 where
  pub order : ℕ
  pub preference : ℕ
  pub flags : Bytes
  pub service : Bytes
  pub regexp : Bytes
  pub replacement : Bytes

pub record Sshfp : Type 0 where
  pub key_type : Bytes
  pub decoded_key : Bytes

pub record Ds : Type 0 where
  pub key_tag : ℕ
  pub algorithm : ℕ
  pub digest_type : ℕ
  pub digest_bin : Option Bytes

pub record Hinfo : Type 0 where
  pub cpu : Bytes
  pub os : Bytes

pub record Rp : Type 0 where
  pub mailbox : Bytes
  pub txt : Bytes

pub record Https : Type 0 where
  pub scheme : Bytes
  pub port : ℕ
  pub svcb_priority : ℕ
  pub svcb_target : Bytes
  pub svcb_params : Bytes

-- `DNSZone`
pub record Zone : Type 0 where
  pub id : ℕ
  pub zone_root : Bytes
  pub custom_ns : List Bytes

-- The tables, each as `objects.all()` gives it.
pub record Db : Type 0 where
  pub zones : List Zone
  pub address : List (Row Ip)
  pub dynamic : List (Row Dynamic)
  pub aname : List (Row Aname)
  pub cname : List (Row Bytes)
  pub redirect : List (Row Redirect)
  pub mx : List (Row Mx)
  pub ns : List (Row Bytes)
  pub txt : List (Row Bytes)
  pub srv : List (Row Srv)
  pub caa : List (Row Caa)
  pub naptr : List (Row Naptr)
  pub sshfp : List (Row Sshfp)
  pub ds : List (Row Ds)
  pub loc : List (Row (List Bytes))
  pub hinfo : List (Row Hinfo)
  pub rp : List (Row Rp)
  pub https : List (Row Https)
  pub dhcid : List (Row Bytes)
