-- ===== src/Dns/Lookup/Bounds.antt =====
-- A CNAME of grpc.py and the lookups that follow it: what they add to the answer section.
use hexdns.Common.{
  ℕ, zero, suc, ◌≡◌, refl, ◌∙◌, inl, inr, Bool, true, false, not, ◌&&◌, ◌==◌, if_both, List, [],
  ◌∷◌, All, none, some, Bytes, ok, Ensures, mono-Ensures, Option-cases,
}
use hexdns.Dns.External.{External}
use hexdns.Dns.Message.{Rr, Response, add_answer}
use hexdns.Dns.Store.{Row, Zone, Db}
use hexdns.Dns.Records.{cname_to_rr}
use hexdns.Dns.Find.{find_zone, find_records}
use hexdns.Dns.AnyRecords.{any_records}
use hexdns.Dns.Lookup.{
  answer_rows, lookup_referral, Lookup, follow_cname, lookup_cname, Answering, lookup_with,
}
use hexdns.Dns.Lookup.Answers.{add_rows-IsAnswered, Answer, IsAnswered, IsAnswered-trans}
use hexdns.Dns.Lookup.Referral.{lookup_referral-IsAnswered}

module _ ⦃E : External⦄ where
  -- A lookup for a type adds only answers of that type, and CNAMEs.
  abbrev pub AnswersWell : ℕ → Lookup → Type 0
  AnswersWell q func =
      (res : Response) (name : E.Label) (zone : Zone) (query_name : E.Label) (is_dnssec : Bool)
      → res.question ≡ q
      → Ensures (IsAnswered res) (func res name zone query_name is_dnssec)

  follow_cname-IsAnswered :
      (q : ℕ) (func : Lookup) (db : Db) (res : Response) (name : E.Label) (zone : Zone)
      (query_name : E.Label) (is_dnssec : Bool) (r : Row Bytes)
      → AnswersWell q func
      → res.question ≡ q
      → Ensures (IsAnswered res) (follow_cname func db res name zone query_name is_dnssec r)
  unfolding follow_cname cname_to_rr add_answer
  follow_cname-IsAnswered q func db res name zone query_name is_dnssec r well e =
      let answered = add_answer res (cname_to_rr query_name r) in
      let added : IsAnswered res answered = record {
        question = refl;
        added = cname_to_rr query_name r ∷ [];
        appended = refl;
        typed = (inr refl, tt);
      } in
      elim (Option-cases (find_zone db (E.of_str r.body))) [
        | inl missing ↦ rw (missing, follow_cname) added
        | inr (zn, found) ↦
            rw (found, follow_cname)
              (if_both (Ensures (IsAnswered res))
                (not (zn.0.id == zone.id) && not (E.label_eq name zn.1))
                (mono-Ensures (IsAnswered answered) (IsAnswered res)
                  (func answered zn.1 zn.0 (E.of_str r.body) is_dnssec)
                  (λ end more. IsAnswered-trans added more)
                  (well answered zn.1 zn.0 (E.of_str r.body) is_dnssec e))
                added)
      ]

  pub lookup_cname-IsAnswered :
      (q : ℕ) (func : Lookup) (db : Db) → AnswersWell q func → AnswersWell q (lookup_cname func db)
  unfolding lookup_cname
  lookup_cname-IsAnswered q func db well res name zone query_name is_dnssec e =
      if_both (Ensures (IsAnswered res)) (not (any_records db name zone false))
        (elim (E.first (Row Bytes) (find_records db.cname name zone))
          as (λ x. Ensures (IsAnswered res) (elim x [
            | none ↦ lookup_referral db res name zone is_dnssec
            | some r ↦ follow_cname func db res name zone query_name is_dnssec r
          ])) [
            | none ↦ lookup_referral-IsAnswered db res name zone is_dnssec
            | some r ↦ follow_cname-IsAnswered q func db res name zone query_name is_dnssec r well e
          ])
        (lookup_referral-IsAnswered db res name zone is_dnssec)

  -- What stands before the call of `lookup_cname` adds only answers of the type.
  abbrev pub AnswersFirst : ℕ → Answering → Type 0
  AnswersFirst q answering =
      (res : Response) (name : E.Label) (zone : Zone) (query_name : E.Label)
      → res.question ≡ q
      → IsAnswered res (answering res name zone query_name).0

  pub lookup_with-IsAnswered :
      (q : ℕ) (answering : Answering) (db : Db)
      → AnswersFirst q answering
      → (fuel : ℕ) → AnswersWell q (lookup_with answering db fuel)
  unfolding lookup_with
  lookup_with-IsAnswered q answering db first zero res name zone query_name is_dnssec e = tt
  lookup_with-IsAnswered q answering db first (suc fuel) res name zone query_name is_dnssec e =
      let step = answering res name zone query_name in
      let done = first res name zone query_name e in
      elim step.1
        as (λ x. Ensures (IsAnswered res) (elim x [
          | true ↦ ok step.0
          | false ↦
              lookup_cname (lookup_with answering db fuel) db step.0 name zone query_name is_dnssec
        ])) [
          | true ↦ done
          | false ↦
              mono-Ensures (IsAnswered step.0) (IsAnswered res)
                (lookup_cname (lookup_with answering db fuel) db step.0 name zone query_name
                  is_dnssec)
                (λ end more. IsAnswered-trans done more)
                (lookup_cname-IsAnswered q (lookup_with answering db fuel) db
                  (lookup_with-IsAnswered q answering db first fuel) step.0 name zone query_name
                  is_dnssec (done.question ∙ e))
        ]

  pub answer_rows-AnswersFirst :
      {D : Type 0} (q : ℕ) (rrs : E.Label → Row D → List Rr) (table : List (Row D))
      → ((query_name : E.Label) (r : Row D) → All (Answer q) (rrs query_name r))
      → AnswersFirst q (answer_rows rrs table)
  unfolding answer_rows
  answer_rows-AnswersFirst q rrs table h res name zone query_name e =
      add_rows-IsAnswered (rrs query_name) res (find_records table name zone)
        (λ r. rw e (h query_name r))
