-- ===== src/Dns/Lookup/Ends.antt =====
-- When the lookups of grpc.py return: a chain of CNAMEs across zones that has an end is followed to it.
use hexdns.Common.{
  ℕ, zero, suc, ◌<◌, ◌≤◌, ◌≡◌, refl, inl, inr, Bool, true, false, ◌==◌, if_both, Bool-cases,
  Option-cases, List, [], ◌∷◌, some, Option, Bytes, Result, ok, ◌>>=◌, arith,
}
use hexdns.Dns.External.{External}
use hexdns.Dns.Message.{Response, add_answer}
use hexdns.Dns.Store.{Row, Zone, Db}
use hexdns.Dns.Records.{cname_to_rr}
use hexdns.Dns.Find.{find_zone, find_records}
use hexdns.Dns.AnyRecords.{any_records}
use hexdns.Dns.Delegation.{add_delegation}
use hexdns.Dns.Lookup.{
  referral_servers, referral_loop, referral_next, lookup_referral, Lookup, follow_cname,
  lookup_cname, Answering, lookup_with,
}
use hexdns.Dns.Lookup.Chains.{LeadsTo}

-- The call returned a value.
abbrev pub Returns {ℓ} : {A : Type ℓ} → Result A → Type ℓ
Returns {A} m = (a : A) × (m ≡ ok a)

pub bind-Returns {ℓ κ} :
    {A : Type ℓ} {B : Type κ} (m : Result A) (next : A → Result B)
    → Returns m
    → ((a : A) → Returns (next a))
    → Returns (m >>= next)
bind-Returns m next (a, e) h = rw e (h a)

module _ ⦃E : External⦄ where
  add_delegation-Returns :
      (db : Db) (zone : Zone) (res : Response) (r : Row Bytes)
      → Returns (add_delegation db zone false res r)
  unfolding add_delegation
  add_delegation-Returns db zone res r = (_, refl)

  referral_next-Returns :
      (next : Response → Result (Response × Option Bool)) (added : Response × Bool)
      → ((more : Response) → Returns (next more))
      → Returns (referral_next next added)
  unfolding referral_next
  referral_next-Returns next (res, true) h = h res
  referral_next-Returns next (res, false) h = (_, refl)

  referral_loop-Returns :
      (db : Db) (name : E.Label) (zone : Zone) (ns_found : Bool) (res : Response)
      (rows : List (Row Bytes))
      → Returns (referral_loop db name zone false ns_found res rows)
  unfolding referral_loop
  referral_loop-Returns db name zone ns_found res [] = (_, refl)
  referral_loop-Returns db name zone ns_found res (r ∷ rows) =
      if_both Returns (E.match_suffix name (E.of_str r.record_name))
        (bind-Returns (add_delegation db zone false res r) _ (add_delegation-Returns db zone res r)
          λ added.
            referral_next-Returns (λ more. referral_loop db name zone false true more rows) added
              λ more. referral_loop-Returns db name zone true more rows)
        (referral_loop-Returns db name zone ns_found res rows)

  lookup_referral-Returns :
      (db : Db) (res : Response) (name : E.Label) (zone : Zone)
      → Returns (lookup_referral db res name zone false)
  unfolding lookup_referral
  lookup_referral-Returns db res name zone =
      bind-Returns (referral_loop db name zone false false res (referral_servers db zone)) _
        (referral_loop-Returns db name zone false res (referral_servers db zone))
        λ looped. (_, refl)

  -- A number that falls with every CNAME that leads into another zone.
  abbrev pub Falls : Db → (E.Label → Zone → ℕ) → Type 0
  Falls db rank =
      (name : E.Label) (zone : Zone) (r : Row Bytes) (next : Zone × E.Label)
      → LeadsTo db name zone r next
      → rank next.1 next.0 < rank name zone

  -- The lookup returns at every name of a lesser rank.
  abbrev pub ReturnsBelow : ℕ → (E.Label → Zone → ℕ) → Lookup → Type 0
  ReturnsBelow bound rank func =
      (res : Response) (name : E.Label) (zone : Zone) (query_name : E.Label)
      → rank name zone < bound
      → Returns (func res name zone query_name false)

  follow_cname-Returns :
      (func : Lookup) (db : Db) (rank : E.Label → Zone → ℕ) (bound : ℕ)
      → Falls db rank
      → ReturnsBelow bound rank func
      → (res : Response) (name : E.Label) (zone : Zone) (query_name : E.Label) (r : Row Bytes)
      → rank name zone ≤ bound
      → any_records db name zone false ≡ false
      → E.first (Row Bytes) (find_records db.cname name zone) ≡ some r
      → Returns (follow_cname func db res name zone query_name false r)
  unfolding follow_cname
  follow_cname-Returns func db rank bound falls below res name zone query_name r h alone one =
      elim (Option-cases (find_zone db (E.of_str r.body))) [
        | inl missing ↦ rw (missing, follow_cname) (_, refl)
        | inr (zn, lands) ↦
            rw (lands, follow_cname)
              elim (Bool-cases (zn.0.id == zone.id)) [
                | inl same ↦ rw same (_, refl)
                | inr elsewhere ↦ rw elsewhere elim (Bool-cases (E.label_eq name zn.1)) [
                  | inl named ↦ rw named (_, refl)
                  | inr renamed ↦
                      let leads : LeadsTo db name zone r zn = record {
                        alone = alone;
                        first = one;
                        lands = lands;
                        elsewhere = elsewhere;
                        renamed = renamed;
                      } in
                      let less = falls name zone r zn leads in
                      rw renamed (
                        below (add_answer res (cname_to_rr query_name r)) zn.1 zn.0
                          (E.of_str r.body) (omega arith))
                ]
              ]
      ]

  pub lookup_cname-Returns :
      (func : Lookup) (db : Db) (rank : E.Label → Zone → ℕ) (bound : ℕ)
      → Falls db rank
      → ReturnsBelow bound rank func
      → (res : Response) (name : E.Label) (zone : Zone) (query_name : E.Label)
      → rank name zone ≤ bound
      → Returns (lookup_cname func db res name zone query_name false)
  unfolding lookup_cname
  lookup_cname-Returns func db rank bound falls below res name zone query_name h =
      elim (Bool-cases (any_records db name zone false)) [
        | inl others ↦ rw (others, lookup_cname) (lookup_referral-Returns db res name zone)
        | inr alone ↦
            rw (alone, lookup_cname)
              elim (Option-cases (E.first (Row Bytes) (find_records db.cname name zone))) [
                | inl missing ↦
                    rw (missing, lookup_cname) (lookup_referral-Returns db res name zone)
                | inr (r, one) ↦
                    rw (one, lookup_cname)
                      (follow_cname-Returns func db rank bound falls below res name zone query_name
                        r h alone one)
              ]
      ]

  -- Without DNSSEC, if some number falls with every CNAME that leads into another zone, then a
  -- lookup whose fuel exceeds the number of its name returns a response.
  pub lookup_with-Returns :
      (answering : Answering) (db : Db) (rank : E.Label → Zone → ℕ)
      → Falls db rank
      → (fuel : ℕ) (res : Response) (name : E.Label) (zone : Zone) (query_name : E.Label)
      → rank name zone < fuel
      → Returns (lookup_with answering db fuel res name zone query_name false)
  unfolding lookup_with
  lookup_with-Returns answering db rank falls zero res name zone query_name h = absurd (omega arith)
  lookup_with-Returns answering db rank falls (suc fuel) res name zone query_name h =
      let step = answering res name zone query_name in
      elim (Bool-cases step.1) [
        | inl found ↦ rw (found, lookup_with) (_, refl)
        | inr missing ↦
            rw (missing, lookup_with)
              (lookup_cname-Returns (lookup_with answering db fuel) db rank fuel falls
                (λ res' name' zone' query'.
                  lookup_with-Returns answering db rank falls fuel res' name' zone' query')
                step.0 name zone query_name (omega arith))
      ]
