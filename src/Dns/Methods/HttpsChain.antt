-- ===== src/Dns/Methods/HttpsChain.antt =====
-- Where `lookup_https` of grpc.py leads when a CNAME stands at the name.
use hexdns.Common.{ap, ℕ, suc, ◌≡◌, refl, ◌∙◌, Bool, true, false, List, [], Bytes, Result, ok}
use hexdns.Dns.External.{External}
use hexdns.Dns.Message.{Response, add_answer}
use hexdns.Dns.Store.{Row, Https, Zone, Db}
use hexdns.Dns.Records.{https_to_rr, cname_to_rr, sshfp_to_rrs}
use hexdns.Dns.Find.{find_records, nonempty}
use hexdns.Dns.Lookup.{lookup_cname, lookup_with, add_rows, answer_rows}
use hexdns.Dns.Lookup.Chains.{LeadsTo, lookup_cname-LeadsTo}
use hexdns.Dns.Methods.{one, https_rows, https_answers, lookup_sshfp, lookup_https}

module _ ⦃E : External⦄ where
  lookup_sshfp-found :
      (db : Db) (fuel : ℕ) (res : Response) (name : E.Label) (zone : Zone) (query_name : E.Label)
      (is_dnssec : Bool)
      → nonempty (find_records db.sshfp name zone) ≡ true
      → lookup_sshfp db (suc fuel) res name zone query_name is_dnssec
        ≡ ok (add_rows (sshfp_to_rrs query_name) res (find_records db.sshfp name zone))
  unfolding lookup_sshfp lookup_with answer_rows
  lookup_sshfp-found db fuel res name zone query_name is_dnssec some_ =
      rw (some_, lookup_sshfp, lookup_with, answer_rows) refl

  lookup_https-none :
      (db : Db) (fuel : ℕ) (res : Response) (name : E.Label) (zone : Zone) (query_name : E.Label)
      (is_dnssec : Bool)
      → https_rows db name zone ≡ []
      → lookup_https db fuel res name zone query_name is_dnssec
        ≡ lookup_cname (lookup_sshfp db fuel) db res name zone query_name is_dnssec
  unfolding lookup_https https_answers add_rows nonempty
  lookup_https-none db fuel res name zone query_name is_dnssec no_rows =
      ap
        (λ (rows : List (Row Https)). elim (nonempty rows) as (λ x. Result Response) [
          | true ↦ ok (add_rows (one https_to_rr query_name) res rows)
          | false ↦
              lookup_cname (lookup_sshfp db fuel) db
                (add_rows (one https_to_rr query_name) res rows) name zone query_name is_dnssec
        ])
        no_rows

  -- If no HTTPS record is found at a name, any_records finds no record but CNAMEs at it, its CNAME
  -- leads to a name of another zone, the names within the two zones differ, and SSHFP records are
  -- found at the name it leads to, then a question for HTTPS is answered with the CNAME and then with
  -- those SSHFP records.
  pub lookup_https-sshfp :
      (db : Db) (fuel : ℕ) (res : Response) (name : E.Label) (zone : Zone) (query_name : E.Label)
      (is_dnssec : Bool) (r : Row Bytes) (next : Zone × E.Label)
      → https_rows db name zone ≡ []
      → LeadsTo db name zone r next
      → nonempty (find_records db.sshfp next.1 next.0) ≡ true
      → lookup_https db (suc fuel) res name zone query_name is_dnssec
        ≡ ok (
            add_rows
              (sshfp_to_rrs (E.of_str r.body))
              (add_answer res (cname_to_rr query_name r))
              (find_records db.sshfp next.1 next.0))
  lookup_https-sshfp db fuel res name zone query_name is_dnssec r next no_rows l some_ =
      lookup_https-none db (suc fuel) res name zone query_name is_dnssec no_rows
      ∙ lookup_cname-LeadsTo (lookup_sshfp db (suc fuel)) db res name zone query_name is_dnssec r
          next l
      ∙ lookup_sshfp-found db fuel (add_answer res (cname_to_rr query_name r)) next.1 next.0
          (E.of_str r.body) is_dnssec some_
