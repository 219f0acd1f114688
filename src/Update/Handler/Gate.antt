-- ===== src/Update/Handler/Gate.antt =====
-- An update writes only behind all checks.
use mathlib.Core.Path.{subst, sym}
use hexdns.Common.{
  ℕ, ◌≡◌, refl, inl, inr, ◌==◌, ==_iff, Bool-cases, Option-cases, [], All, Option, none, some,
  Result, ok, err, length,
}
use hexdns.Dns.External.{External}
use hexdns.Dns.Qtype
use hexdns.Dns.Message.{Response}
use hexdns.Dns.Prerequisites.{fresh_response}
use hexdns.Dns.Store.{Zone}
use hexdns.Update.Request.{class_in, Key, UpdateRequest, Wire}
use hexdns.Update.Tables.{Store}
use hexdns.Update.Scan.{Checked, refuse, pass, RrSets, check_prerequisites, check_rrsets, prescan}
use hexdns.Update.Scan.Acceptable.{Acceptable, prescan-Acceptable}
use hexdns.Update.Scan.Prerequisites.{Holds, check_prerequisites-Holds}
use hexdns.Update.Apply.{Applied, done, refused, raised, apply_rrs}
use hexdns.Update.Handler.{exact_zone, update_zone, after_rrsets, update_checked, handle_signed}

-- The handler went out by a refusal or an exception, and wrote nothing.
abbrev pub Rejected : Store → Applied → Type 0
Rejected s (done t) = ⊥
Rejected s (refused rcode t) = t ≡ s
Rejected s (raised e t) = t ≡ s

-- The zone of the name, as the handler's loop finds it.
abbrev pub zone_at : ⦃E : External⦄ → E.Label → Store → Option Zone
zone_at ⦃E⦄ zone_name s =
    exact_zone zone_name none (E.order_by_desc Zone (λ z. length z.zone_root) s.db.zones)

module _ ⦃E : External⦄ ⦃W : Wire⦄ (fuel : ℕ) (key : Key) (zone_name : E.Label)
    (request : UpdateRequest) (s : Store) where
  -- All that a request must meet before the first write.
  pub record Cleared (zone : Zone) : Type 0 where
    pub found : zone_at zone_name s ≡ some zone
    pub of_key : key.zone ≡ zone.id
    pub hold : All (Holds s.db zone_name zone) request.prset
    pub sets : RrSets
    pub grouped : check_prerequisites s.db zone_name zone class_in [] request.prset ≡ pass sets
    pub answer : Response
    pub equal :
        check_rrsets s.db fuel zone_name zone sets (fresh_response Qtype.soa) ≡ ok (pass answer)
    pub acceptable : All (Acceptable zone_name) request.upset

  -- What the handler comes to.
  pub data Gated : Applied → Type 0 where
    rejected : {m : Applied} → Rejected s m → Gated m
    cleared :
        {m : Applied} (zone : Zone)
        → Cleared zone
        → m ≡ apply_rrs key zone_name zone class_in request.upset s
        → Gated m

  module _ (in_class : request.qclass ≡ class_in) (zone : Zone)
      (found : zone_at zone_name s ≡ some zone) (of_key : key.zone ≡ zone.id) where
    update_zone-Gated :
        (hold : All (Holds s.db zone_name zone) request.prset) (sets : RrSets)
        → check_prerequisites s.db zone_name zone class_in [] request.prset ≡ pass sets
        → (answer : Response)
        → check_rrsets s.db fuel zone_name zone sets (fresh_response Qtype.soa) ≡ ok (pass answer)
        → Gated (update_zone key zone_name zone request s)
    unfolding update_zone
    update_zone-Gated hold sets grouped answer equal =
        rw in_class elim (Option-cases (prescan zone_name class_in request.upset)) [
          | inr (rcode, bad) ↦ rw (bad, update_zone) (rejected refl)
          | inl clean ↦
              rw (clean, update_zone)
                (cleared zone
                  (record {
                    found = found;
                    of_key = of_key;
                    hold = hold;
                    sets = sets;
                    grouped = grouped;
                    answer = answer;
                    equal = equal;
                    acceptable = (prescan-Acceptable zone_name request.upset).0 clean;
                  })
                  refl)
        ]

    after_rrsets-Gated :
        (hold : All (Holds s.db zone_name zone) request.prset) (sets : RrSets)
        → check_prerequisites s.db zone_name zone class_in [] request.prset ≡ pass sets
        → (checked : Result (Checked Response))
        → check_rrsets s.db fuel zone_name zone sets (fresh_response Qtype.soa) ≡ checked
        → Gated (after_rrsets key zone_name zone request s checked)
    unfolding after_rrsets
    after_rrsets-Gated hold sets grouped (err e) equal = rejected refl
    after_rrsets-Gated hold sets grouped (ok (refuse rcode)) equal = rejected refl
    after_rrsets-Gated hold sets grouped (ok (pass answer)) equal =
        update_zone-Gated hold sets grouped answer equal

    update_checked-Gated : Gated (update_checked fuel key zone_name zone request s)
    unfolding update_checked
    update_checked-Gated =
        subst
          (λ (qclass : ℕ).
            Gated (elim (check_prerequisites s.db zone_name zone qclass [] request.prset) [
              | refuse rcode ↦ refused rcode s
              | pass sets ↦
                  after_rrsets key zone_name zone request s
                    (check_rrsets s.db fuel zone_name zone sets (fresh_response Qtype.soa))
            ]))
          (sym in_class)
          (go (check_prerequisites s.db zone_name zone class_in [] request.prset) refl)
      where
        go :
            (c : Checked RrSets)
            → check_prerequisites s.db zone_name zone class_in [] request.prset ≡ c
            → Gated (elim c [
              | refuse rcode ↦ refused rcode s
              | pass sets ↦
                  after_rrsets key zone_name zone request s
                    (check_rrsets s.db fuel zone_name zone sets (fresh_response Qtype.soa))
            ])
        go (refuse rcode) e = rejected refl
        go (pass sets) e =
            after_rrsets-Gated
              ((check_prerequisites-Holds s.db zone_name zone [] request.prset).0 (sets, e)) sets e
              _ refl

  -- For a signed request of class IN the handler either goes out by a refusal or an exception with
  -- the tables as they were, or the zone exists and is the key's, every prerequisite holds, every
  -- record of the update section is acceptable, and the outcome is that of the update section.
  pub handle_signed-Gated :
      request.qclass ≡ class_in → Gated (handle_signed fuel key zone_name request s)
  unfolding handle_signed
  handle_signed-Gated in_class = elim (Option-cases (zone_at zone_name s)) [
    | inl missing ↦ rw (missing, handle_signed) (rejected refl)
    | inr (zone, found) ↦
        rw (found, handle_signed)
          elim (Bool-cases (key.zone == zone.id)) [
            | inr other ↦ rw other (rejected refl)
            | inl same ↦
                rw same
                  (update_checked-Gated in_class zone found ((==_iff key.zone zone.id).0 same))
          ]
  ]
