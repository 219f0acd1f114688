-- ===== src/Axfr.antt =====
-- Zone transfers: handle_axfr_query of hexdns_django/dns_grpc/grpc.py. It yields its responses.
use hexdns.Common.{
  ℕ, ◌==◌, not, if◌then◌else◌, List, [], ◌∷◌, length, codes, Option, none, some, ◌≡◌, refl, All,
  if_both,
}
use hexdns.Dns.External.{External}
use hexdns.Dns.Qtype
use hexdns.Dns.Rcode
use hexdns.Dns.Message.{soa_rd, Rr, Response, add_answer}
use hexdns.Dns.Store.{Zone, Db}
use hexdns.Update.Handler.{exact_zone}
use hexdns.Update.Signature.{lower_label}

-- `OPCODE.QUERY`
abbrev pub opcode_query : ℕ
opcode_query = 0

module _ ⦃E : External⦄ where
  -- `dns_req.reply(ra=False)`
  abbrev pub reply : ℕ → Response
  reply qtype = record { question = qtype; rr = []; auth = []; ar = []; rcode = Rcode.noerror }

  -- The SOA record of a zone, given its `int(zone.last_modified.timestamp())`.
  unfoldable pub soa_rr : Zone → ℕ → Rr
  soa_rr zone modified = record {
    rname = E.of_str zone.zone_root;
    rtype = Qtype.soa;
    rdata =
        soa_rd (codes "ns1.as207960.net") (codes "noc.as207960.net")
          (modified ∷ 86400 ∷ 7200 ∷ 3600000 ∷ 172800 ∷ []);
    ttl = 86400;
  }

  unfoldable pub transfer : ℕ → (Zone → ℕ) → Option Zone → List Response
  unfolding soa_rr add_answer
  transfer qtype modified none = record (reply qtype) { rcode = Rcode.refused } ∷ []
  transfer qtype modified (some zone) =
      let soa_dns_res = add_answer (reply qtype) (soa_rr zone (modified zone)) in
      soa_dns_res ∷ reply qtype ∷ soa_dns_res ∷ []

  unfoldable pub handle_axfr_query : Db → (Zone → ℕ) → ℕ → ℕ → E.Label → List Response
  unfolding transfer exact_zone lower_label
  handle_axfr_query db modified opcode qtype qname =
      if not (opcode == opcode_query)
      then record (reply qtype) { rcode = Rcode.refused } ∷ []
      else transfer qtype modified (
          exact_zone (lower_label qname) none
            (E.order_by_desc Zone (λ z. length z.zone_root) db.zones))

  -- A response without records, or with a SOA record alone.
  abbrev pub HasOnlySoa : Response → Type 0
  HasOnlySoa res = All (λ rr. rr.rtype ≡ Qtype.soa) res.rr

  transfer-HasOnlySoa :
      (qtype : ℕ) (modified : Zone → ℕ) (zone : Option Zone)
      → All HasOnlySoa (transfer qtype modified zone)
  unfolding transfer
  transfer-HasOnlySoa qtype modified none = (tt, tt)
  transfer-HasOnlySoa qtype modified (some zone) = ((refl, tt), (tt, ((refl, tt), tt)))

  -- Whatever the zone holds, a transfer has no records but its SOA record.
  pub handle_axfr_query-HasOnlySoa :
      (db : Db) (modified : Zone → ℕ) (opcode qtype : ℕ) (qname : E.Label)
      → All HasOnlySoa (handle_axfr_query db modified opcode qtype qname)
  unfolding handle_axfr_query
  handle_axfr_query-HasOnlySoa db modified opcode qtype qname =
      if_both (All HasOnlySoa) (not (opcode == opcode_query)) (tt, tt)
        (transfer-HasOnlySoa qtype modified (
          exact_zone (lower_label qname) none
            (E.order_by_desc Zone (λ z. length z.zone_root) db.zones)))
