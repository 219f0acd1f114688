-- ===== src/ZoneFile/Addresses.antt =====
-- The lines of addresses and of what stands for them: the first tables of generate_fzone of tasks.py.
use hexdns.Common.{
  ℕ, if◌then◌else◌, List, [], ◌∷◌, ◌++◌, Bytes, codes, bytes_eq, Option, none, some,
}
use hexdns.Dns.External.{External}
use hexdns.Dns.Message.{Ip, v4, v6}
use hexdns.Dns.Store.{Row, Dynamic, Aname, Redirect}
use hexdns.Dns.Find.{join_dots}
use hexdns.ZoneFile.Lines.{Texts, rr_line, all_chars, is_printable, idna_label, comment, with_name}

module _ ⦃E : External⦄ ⦃T : Texts⦄ where
  -- The line of an address.
  unfoldable pub ip_line : Bytes → ℕ → Ip → Bytes
  unfolding rr_line
  ip_line name ttl (v4 text) = rr_line name ttl (codes "A") text
  ip_line name ttl (v6 text) = rr_line name ttl (codes "AAAA") text

  unfoldable pub address_text : Row Ip → Bytes
  unfolding with_name idna_label comment ip_line
  address_text r = with_name (idna_label r.record_name) λ name.
      comment (codes "Address record") (codes "hexdns_zoneaddressrecord") r.pk
      ++ ip_line name r.ttl r.body

  -- `if record.current_ipv4: …`
  unfoldable pub current_line : Bytes → ℕ → Bytes → Option Bytes → Bytes
  unfolding rr_line
  current_line name ttl rtype none = []
  current_line name ttl rtype (some address) = rr_line name ttl rtype address

  unfoldable pub dynamic_text : Row Dynamic → Bytes
  unfolding with_name idna_label comment current_line
  dynamic_text r = with_name (idna_label r.record_name) λ name.
      comment (codes "Dynamic address record") (codes "hexdns_zonedynamicaddressrecord") r.pk
      ++ (current_line name r.ttl (codes "A") r.body.current_ipv4
          ++ current_line name r.ttl (codes "AAAA") r.body.current_ipv6)

  unfoldable pub ip_lines : Bytes → ℕ → List Ip → Bytes
  unfolding ip_line
  ip_lines name ttl [] = []
  ip_lines name ttl (a ∷ as_) = ip_line name ttl a ++ ip_lines name ttl as_

  unfoldable pub row_ips : List (Row Ip) → List Ip
  row_ips [] = []
  row_ips (r ∷ rs) = r.body ∷ row_ips rs

  -- The addresses that an ANAME stands for: those of the zone's own rows, or those kept for it.
  unfoldable pub aname_ips : E.Label → List (Row Ip) → Aname → List Ip
  unfolding join_dots row_ips
  aname_ips zone_root addresses record_ =
      let alias_label = E.of_str record_.alias in
      let search_name = join_dots (E.label (E.strip_suffix alias_label zone_root)) in
      if E.match_suffix alias_label zone_root
      then row_ips (E.filter (Row Ip) (λ r. bytes_eq r.record_name search_name) addresses)
      else record_.cached

  unfoldable pub aname_text : E.Label → List (Row Ip) → Row Aname → Bytes
  unfolding with_name idna_label comment ip_lines aname_ips
  aname_text zone_root addresses r = with_name (idna_label r.record_name) λ name.
      comment (codes "ANAME record") (codes "hexdns_zoneanamerecord") r.pk
      ++ ip_lines name r.ttl (aname_ips zone_root addresses r.body)

  unfoldable pub github_text : Row (Unit {0}) → Bytes
  unfolding with_name idna_label comment ip_lines
  github_text r = with_name (idna_label r.record_name) λ name.
      comment (codes "Github pages record") (codes "hexdns_githubpagesrecord") r.pk
      ++ ip_lines name r.ttl (
          v4 (codes "185.199.108.153")
          ∷ v4 (codes "185.199.109.153")
          ∷ v4 (codes "185.199.110.153")
          ∷ v4 (codes "185.199.111.153")
          ∷ v6 (codes "2606:50c0:8000::153")
          ∷ v6 (codes "2606:50c0:8001::153")
          ∷ v6 (codes "2606:50c0:8002::153")
          ∷ v6 (codes "2606:50c0:8003::153")
          ∷ [])

  -- The name that a CNAME stands for; `none` goes on to the next row.
  unfoldable pub cname_alias : E.Label → Bytes → Option E.Label
  unfolding all_chars
  cname_alias zone_root alias =
      let encoded = T.idna_encode alias in
      if bytes_eq alias (codes "@") then some zone_root else elim encoded [
        | some name ↦ some (E.of_str name)
        | none ↦ if all_chars is_printable alias then some (E.of_str alias) else none
      ]

  unfoldable pub cname_text : E.Label → Row Bytes → Bytes
  unfolding with_name idna_label comment rr_line cname_alias
  cname_text zone_root r = with_name (idna_label r.record_name) λ name.
      elim (cname_alias zone_root r.body) [
        | none ↦ []
        | some alias ↦
            comment (codes "CNAME record") (codes "hexdns_zonecnamerecord") r.pk
            ++ rr_line name r.ttl (codes "CNAME") (T.str_label alias)
      ]

  unfoldable pub redirect_text : Row Redirect → Bytes
  unfolding with_name idna_label comment rr_line
  redirect_text r = with_name (idna_label r.record_name) λ name.
      comment (codes "Redirect record") (codes "hexdns_zoneredirectrecord") r.pk
      ++ (rr_line name r.ttl (codes "A") (codes "45.129.95.254")
          ++ (rr_line name r.ttl (codes "AAAA") (codes "2a0e:1cc1:1::1:7")
              ++ (rr_line name r.ttl (codes "CAA") (codes "0 iodef \"mailto:noc@as207960.net\"")
                  ++ (rr_line name r.ttl (codes "CAA") (codes "0 issue \"pki.goog\"")
                      ++ rr_line name r.ttl (codes "CAA") (codes "0 issue \"letsencrypt.org\"")))))
