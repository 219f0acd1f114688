-- ===== src/Update/Isolation/Query.antt =====
-- What every record's change leaves true of the tables, a whole query leaves true; so a query changes
-- only rows of the zone of its key, and with a key for ACME challenges only TXT rows.
use hexdns.Common.{
  ℕ, ◌≡◌, sym, inl, inr, ◌==◌, ==_iff, Bool-cases, Option-cases, [], none, Result, ok, err, length,
}
use hexdns.Dns.External.{External}
use hexdns.Dns.Qtype
use hexdns.Dns.Message.{Response}
use hexdns.Dns.Prerequisites.{fresh_response}
use hexdns.Dns.Store.{Zone}
use hexdns.Update.Request.{Key, UpdateRequest, Wire}
use hexdns.Update.Tables.{Store}
use hexdns.Update.Scan.{Checked, refuse, pass, check_prerequisites, check_rrsets, prescan}
use hexdns.Update.Apply.{Applied, done, refused, raised}
use hexdns.Update.Handler.{
  exact_zone, update_zone, after_rrsets, update_checked, handle_signed, reply_of, update_query,
}
use hexdns.Update.Isolation.{Stays, Stays-refl, IsWellKeyed}
use hexdns.Update.Isolation.Update.{apply_rrs-Stays}
use hexdns.Update.Apply.Leaves.{Leaves}
use hexdns.Update.Tables.{txt}
use hexdns.Update.Apply.{apply_rrs}
use hexdns.Update.Apply.OneKind.{OnlyKind, OnlyKind-refl}
use hexdns.Update.Apply.Acme.Walk.{apply_rrs-OnlyKind}
use hexdns.Common.{codes}
use mathlib.Core.Path.{subst}

module _ ⦃E : External⦄ ⦃W : Wire⦄ where
  reply_of-Leaves : (P : Store → Type 0) (m : Applied) → Leaves P m → P (reply_of m).store
  unfolding reply_of
  reply_of-Leaves P (done s) h = h
  reply_of-Leaves P (refused rcode s) h = h
  reply_of-Leaves P (raised e s) h = h

module _ ⦃E : External⦄ ⦃W : Wire⦄ (P : Store → Type 0) (fuel : ℕ) (key : Key) (zone_name : E.Label)
    (request : UpdateRequest) (s : Store) (same : P s)
    (writes : (zone : Zone)
      → zone.id ≡ key.zone
      → Leaves P (apply_rrs key zone_name zone request.qclass request.upset s)) where
  update_zone-Leaves :
      (zone : Zone) → zone.id ≡ key.zone → Leaves P (update_zone key zone_name zone request s)
  unfolding update_zone
  update_zone-Leaves zone own =
      elim (Option-cases (prescan zone_name request.qclass request.upset)) [
        | inl clean ↦ rw (clean, update_zone) (writes zone own)
        | inr (rcode, bad) ↦ rw (bad, update_zone) same
      ]

  after_rrsets-Leaves :
      (zone : Zone) (checked : Result (Checked Response))
      → zone.id ≡ key.zone
      → Leaves P (after_rrsets key zone_name zone request s checked)
  unfolding after_rrsets
  after_rrsets-Leaves zone (err e) own = same
  after_rrsets-Leaves zone (ok (refuse rcode)) own = same
  after_rrsets-Leaves zone (ok (pass dns_res)) own = update_zone-Leaves zone own

  update_checked-Leaves :
      (zone : Zone)
      → zone.id ≡ key.zone
      → Leaves P (update_checked fuel key zone_name zone request s)
  unfolding update_checked
  update_checked-Leaves zone own =
      elim (check_prerequisites s.db zone_name zone request.qclass [] request.prset)
        as (λ x. Leaves P (elim x [
          | refuse rcode ↦ refused rcode s
          | pass sets ↦
              after_rrsets key zone_name zone request s
                (check_rrsets s.db fuel zone_name zone sets (fresh_response Qtype.soa))
        ])) [ refuse rcode ↦ same | pass sets ↦ after_rrsets-Leaves zone _ own ]

  handle_signed-Leaves : Leaves P (handle_signed fuel key zone_name request s)
  unfolding handle_signed
  handle_signed-Leaves =
      let zones = E.order_by_desc Zone (λ z. length z.zone_root) s.db.zones in
      elim (Option-cases (exact_zone zone_name none zones)) [
        | inl missing ↦ rw (missing, handle_signed) same
        | inr (zone, found) ↦
            rw (found, handle_signed)
              elim (Bool-cases (key.zone == zone.id)) [
                | inr other ↦ rw other same
                | inl own ↦
                    rw own (update_checked-Leaves zone (sym ((==_iff key.zone zone.id).0 own)))
              ]
      ]

  pub update_query-Leaves : P (update_query fuel key zone_name request s).store
  unfolding update_query
  update_query-Leaves =
      reply_of-Leaves P (handle_signed fuel key zone_name request s) handle_signed-Leaves

module _ ⦃E : External⦄ ⦃W : Wire⦄ where
  -- If the keys of every table are distinct, then whatever a signed update query comes to, refusals
  -- and exceptions included, it leaves the rows of all zones but its key's as they are and in their
  -- order, leaves the tables that no update writes to as they are, queues no zone but its key's, and
  -- keeps the keys distinct.
  pub update_query-Stays :
      (fuel : ℕ) (key : Key) (zone_name : E.Label) (request : UpdateRequest) (s : Store)
      → IsWellKeyed s
      → Stays key.zone s (update_query fuel key zone_name request s).store
        × IsWellKeyed (update_query fuel key zone_name request s).store
  update_query-Stays fuel key zone_name request s keyed =
      let stays =
        update_query-Leaves (Stays key.zone s) fuel key zone_name request s (Stays-refl key.zone s)
          λ zone own.
            subst
              (λ id.
                Leaves (Stays id s) (apply_rrs key zone_name zone request.qclass request.upset s))
              own (apply_rrs-Stays key zone_name zone request.qclass request.upset s keyed) in
      (stays, stays.keyed keyed)

  -- With a key of type `D` (TYPE_ACME_DNS01), whatever a signed update query comes to, refusals and
  -- exceptions included, all tables but that of the TXT records are left as they were, the zones and
  -- the tables that no update writes to (dynamic addresses, ANAME, redirects, SSHFP, HTTPS) included.
  pub update_query-OnlyKind :
      (fuel : ℕ) (key : Key) (zone_name : E.Label) (request : UpdateRequest) (s : Store)
      → key.type ≡ codes "D"
      → OnlyKind txt s (update_query fuel key zone_name request s).store
  update_query-OnlyKind fuel key zone_name request s acme =
      update_query-Leaves (OnlyKind txt s) fuel key zone_name request s (OnlyKind-refl txt s)
        λ zone own. apply_rrs-OnlyKind key acme zone_name zone request.qclass request.upset s
