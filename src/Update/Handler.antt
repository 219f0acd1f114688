-- ===== src/Update/Handler.antt =====
-- handle_update_query behind the check of the signature, and what UpdateQuery makes of it. Of a
-- refusal only the response code is kept, and the signature of the response is left out.
pub mod Gate
use hexdns.Common.{
  ℕ, Bool, true, false, not, ◌==◌, if◌then◌else◌, List, [], ◌∷◌, Option, none, some, Result, ok,
  err, length,
}
use hexdns.Dns.External.{External}
use hexdns.Dns.Qtype
use hexdns.Dns.Rcode
use hexdns.Dns.Message.{Rr, Response}
use hexdns.Dns.Store.{Zone, Db}
use hexdns.Dns.Prerequisites.{fresh_response}
use hexdns.Update.Request.{Key, UpdateRr, UpdateRequest, Wire}
use hexdns.Update.Tables.{Store}
use hexdns.Update.Scan.{Checked, refuse, pass, check_prerequisites, check_rrsets, prescan}
use hexdns.Update.Apply.{Applied, done, refused, raised, apply_rrs}

-- The response code and the tables behind a request.
pub record Reply : Type 0 where
  pub rcode : ℕ
  pub store : Store

module _ ⦃E : External⦄ where
  -- `for z in zones: if zone_name == zone_root: zone = z`: the last one that fits.
  unfoldable pub exact_zone : E.Label → Option Zone → List Zone → Option Zone
  exact_zone zone_name found [] = found
  exact_zone zone_name found (z ∷ zs) =
      exact_zone zone_name (if E.label_eq zone_name (E.of_str z.zone_root) then some z else found)
        zs

  module _ ⦃W : Wire⦄ where
    -- The prescan and the updates.
    unfoldable pub update_zone : Key → E.Label → Zone → UpdateRequest → Store → Applied
    unfolding prescan apply_rrs
    update_zone key zone_name zone request s =
        elim (prescan zone_name request.qclass request.upset) [
          | some rcode ↦ refused rcode s
          | none ↦ apply_rrs key zone_name zone request.qclass request.upset s
        ]

    -- What follows the loop over the prerequisites that depend on values.
    unfoldable pub after_rrsets :
        Key → E.Label → Zone → UpdateRequest → Store → Result (Checked Response) → Applied
    unfolding update_zone
    after_rrsets key zone_name zone request s (err e) = raised e s
    after_rrsets key zone_name zone request s (ok (refuse rcode)) = refused rcode s
    after_rrsets key zone_name zone request s (ok (pass dns_res)) =
        update_zone key zone_name zone request s

    -- The prerequisites, then the rest.
    unfoldable pub update_checked : ℕ → Key → E.Label → Zone → UpdateRequest → Store → Applied
    unfolding check_prerequisites check_rrsets after_rrsets
    update_checked fuel key zone_name zone request s =
        elim (check_prerequisites s.db zone_name zone request.qclass [] request.prset) [
          | refuse rcode ↦ refused rcode s
          | pass sets ↦
              after_rrsets key zone_name zone request s
                (check_rrsets s.db fuel zone_name zone sets (fresh_response Qtype.soa))
        ]

    -- `handle_update_query` from its search for the zone.
    unfoldable pub handle_signed : ℕ → Key → E.Label → UpdateRequest → Store → Applied
    unfolding exact_zone update_checked
    handle_signed fuel key zone_name request s =
        elim (exact_zone zone_name none
          (E.order_by_desc Zone (λ z. length z.zone_root) s.db.zones)) [
            | none ↦ refused Rcode.notauth s
            | some zone ↦
                if not (key.zone == zone.id)
                then refused Rcode.notauth s
                else update_checked fuel key zone_name zone request s
          ]

    -- `UpdateQuery`: an exception becomes SERVFAIL.
    unfoldable pub reply_of : Applied → Reply
    reply_of (done s) = record { rcode = Rcode.noerror; store = s }
    reply_of (refused rcode s) = record { rcode = rcode; store = s }
    reply_of (raised e s) = record { rcode = Rcode.servfail; store = s }

    unfoldable pub update_query : ℕ → Key → E.Label → UpdateRequest → Store → Reply
    unfolding handle_signed reply_of
    update_query fuel key zone_name request s =
        reply_of (handle_signed fuel key zone_name request s)
