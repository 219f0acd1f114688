-- ===== src/Dns/Message.antt =====
-- Resource records and responses: the parts of `dnslib`'s messages that grpc.py builds, with
-- their sections.
use hexdns.Common.{ℕ, List, [], ◌∷◌, ◌++◌, Bytes}
use hexdns.Dns.External.{External}

-- An address as `ipaddress.ip_address` tells it apart, with its text.
pub data Ip : Type 0 where
  v4 v6 : Bytes → Ip

-- The arguments of the `dnslib` data class of each record type; `rd` is raw data, and `opt_rd` the list of
-- options of an OPT record.
pub data Rdata : Type 0 where
  a_rd aaaa_rd cname_rd ns_rd dhcid_rd rd : Bytes → Rdata
  txt_rd loc_rd opt_rd : List Bytes → Rdata
  mx_rd : Bytes → ℕ → Rdata
  srv_rd : ℕ → ℕ → ℕ → Bytes → Rdata
  caa_rd : ℕ → Bytes → Bytes → Rdata
  naptr_rd : ℕ → ℕ → Bytes → Bytes → Bytes → Bytes → Rdata
  sshfp_rd : ℕ → ℕ → Bytes → Rdata
  ds_rd : ℕ → ℕ → ℕ → Bytes → Rdata
  rp_rd : Bytes → Bytes → Rdata
  https_rd : ℕ → Bytes → Bytes → Rdata
  nsec_rd : Bytes → List Bytes → Rdata
  soa_rd : Bytes → Bytes → List ℕ → Rdata
  dnskey_rd : ℕ → ℕ → ℕ → Bytes → Rdata

module _ ⦃E : External⦄ where
  pub record Rr : Type 0 where
    pub rname : E.Label
    pub rtype : ℕ
    pub rdata : Rdata
    pub ttl : ℕ

  -- The response under construction: the question's type, the three sections and the code.
  pub record Response : Type 0 where
    pub question : ℕ
    pub rr : List Rr
    pub auth : List Rr
    pub ar : List Rr
    pub rcode : ℕ

  unfoldable pub add_answer : Response → Rr → Response
  add_answer res r = record res { rr = res.rr ++ r ∷ [] }

  unfoldable pub add_auth : Response → Rr → Response
  add_auth res r = record res { auth = res.auth ++ r ∷ [] }

  unfoldable pub add_ar : Response → Rr → Response
  add_ar res r = record res { ar = res.ar ++ r ∷ [] }

  -- `for …: dns_res.add_answer(…)`
  unfoldable pub add_answers : Response → List Rr → Response
  unfolding add_answer
  add_answers res [] = res
  add_answers res (r ∷ rs) = add_answers (add_answer res r) rs
