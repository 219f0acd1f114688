-- ===== src/Update/Signature/Decided.antt =====
-- handle_update_query, the whole of it: an update is carried out only if it is signed.
use hexdns.Common.{
  ℕ, ◌≡◌, refl, inl, inr, not, ◌==◌, ==_iff, ◌||◌, Bool-cases, Option-cases, List, [], ◌∷◌, ◌++◌,
  map, none, some, Result, ok, err, arith, ◌∙◌,
}
use hexdns.Dns.External.{External}
use hexdns.Dns.Qtype
use hexdns.Dns.Rcode
use hexdns.Tsig.{Outside}
use hexdns.Tsig.Canon.{Wires}
use hexdns.Update.Request.{class_in, UpdateRr, Wire}
use hexdns.Update.Tables.{Store}
use hexdns.Update.Apply.{Applied, refused}
use hexdns.Update.Handler.{handle_signed}
use hexdns.Update.Handler.Gate.{Rejected}
use hexdns.Update.Digest.{opcode_update, Secret, Query, Signing}
use hexdns.Update.Signature.{
  split_last, Verdict, rejected, accepted, lower_label, without_empty, authenticate, after_verdict,
  handle_question, handle_update_query,
}
use hexdns.Update.Signature.Authentic.{Names, IsSignature, authenticate-accepted}

split_last-append :
    {A : Type 0} (xs ys : List A) (y : A) → split_last xs ≡ some (ys, y) → xs ≡ ys ++ y ∷ []
unfolding split_last
split_last-append [] ys y h = cc
split_last-append {A = A} (x ∷ xs) ys y h = elim (Option-cases (split_last xs)) [
  | inl last ↦ cc (rw (last, split_last) at h, split_last_nil xs last)
  | inr ((zs, z), more) ↦ cc (rw (more, split_last) at h, split_last-append xs zs z more)
]
  where
    split_last_nil : (l : List A) → split_last l ≡ none → l ≡ []
    split_last_nil [] e = refl
    split_last_nil (w ∷ ws) e = ground arith

module _ ⦃E : External⦄ ⦃O : Outside⦄ ⦃C : Wires⦄ ⦃S : Signing⦄ ⦃W : Wire⦄ (fuel : ℕ)
    (secrets : List Secret) (q : Query) (s : Store) where
  -- The query is an update of a zone of class IN whose last additional record is a valid TSIG record
  -- of the key.
  pub record IsSigned (qname : E.Label) (k : Secret) : Type 0 where
    pub others : List (E.Label × ℕ × ℕ)
    pub rest : List UpdateRr
    pub req_tsig : UpdateRr
    pub is_update : q.opcode ≡ opcode_update
    pub asks : q.questions ≡ (qname, Qtype.soa, class_in) ∷ others
    pub last : q.ar ≡ rest ++ req_tsig ∷ []
    pub is_tsig : req_tsig.rtype ≡ Qtype.tsig
    pub names : Names secrets (lower_label qname) req_tsig k
    pub signature : IsSignature k req_tsig (record q { ar = rest })

  -- What the handler comes to.
  pub data Decided : Applied → Type 0 where
    turned_away : {m : Applied} → Rejected s m → Decided m
    carried_out :
        {m : Applied} (qname : E.Label) (k : Secret)
        → IsSigned qname k
        → m
          ≡ handle_signed fuel k.key
              (lower_label qname)
              (record {
                qclass = class_in;
                prset = map without_empty q.prset;
                upset = map without_empty q.upset;
              })
              s
        → Decided m

  handle_question-Decided :
      (qname : E.Label) (qtype qclass : ℕ) (others : List (E.Label × ℕ × ℕ)) (rest : List UpdateRr)
      (req_tsig : UpdateRr)
      → q.questions ≡ (qname, qtype, qclass) ∷ others
      → q.ar ≡ rest ++ req_tsig ∷ []
      → Decided (handle_question fuel secrets q s (qname, qtype, qclass) (rest, req_tsig))
  unfolding handle_question after_verdict
  handle_question-Decided qname qtype qclass others rest req_tsig asks last =
      elim (Bool-cases
        (not (q.opcode == opcode_update) || not (qclass == class_in) || not (qtype == Qtype.soa))) [
          | inl other ↦ rw (other, handle_question) (turned_away refl)
          | inr update ↦ elim (Bool-cases (req_tsig.rtype == Qtype.tsig)) [
            | inr unsigned ↦ rw (update, unsigned, handle_question) (turned_away refl)
            | inl signed ↦
                let is_update : q.opcode ≡ opcode_update = ground arith in
                let is_in : qclass ≡ class_in = ground arith in
                let is_soa : qtype ≡ Qtype.soa = ground arith in
                rw (update, signed, handle_question)
                  (verdicts is_update (asks ∙ rw (is_in, is_soa) refl)
                    ((==_iff req_tsig.rtype Qtype.tsig).0 signed)
                    (authenticate secrets (lower_label qname) req_tsig (record q { ar = rest }))
                    refl)
          ]
        ]
    where
      verdicts :
          q.opcode ≡ opcode_update
          → q.questions ≡ (qname, Qtype.soa, class_in) ∷ others
          → req_tsig.rtype ≡ Qtype.tsig
          → (v : Result Verdict)
          → authenticate secrets (lower_label qname) req_tsig (record q { ar = rest }) ≡ v
          → Decided (after_verdict fuel (lower_label qname) q s v)
      verdicts is_update asks' is_tsig (err e) h = turned_away refl
      verdicts is_update asks' is_tsig (ok (rejected rcode error)) h = turned_away refl
      verdicts is_update asks' is_tsig (ok (accepted k)) h =
          let (names, signature) =
            authenticate-accepted secrets (lower_label qname) req_tsig (record q { ar = rest }) k
              h in
          carried_out qname k
            (record {
              others = others;
              rest = rest;
              req_tsig = req_tsig;
              is_update = is_update;
              asks = asks';
              last = last;
              is_tsig = is_tsig;
              names = names;
              signature = signature;
            })
            refl

  -- The handler either goes out by a refusal or an exception with the tables as they were, or the
  -- query is an update of class IN whose last additional record is a TSIG record that names a key
  -- of the table below the zone, was made with that key's secret over this message or its
  -- canonical form, and was signed within its fudge of now; then the outcome is that of the update
  -- with the rights of that key.
  pub handle_update_query-Decided : Decided (handle_update_query fuel secrets q s)
  unfolding handle_update_query
  handle_update_query-Decided = by_questions q.questions refl
    where
      by_questions :
          (questions : List (E.Label × ℕ × ℕ))
          → q.questions ≡ questions
          → Decided (elim questions [
            | [] ↦ refused Rcode.refused s
            | question ∷ others ↦ elim (split_last q.ar) [
              | none ↦ refused Rcode.refused s
              | some last ↦ handle_question fuel secrets q s question last
            ]
          ])
      by_questions [] h = turned_away refl
      by_questions ((qname, qtype, qclass) ∷ others) h = elim (Option-cases (split_last q.ar)) [
        | inl no_ar ↦ rw no_ar (turned_away refl)
        | inr ((rest, req_tsig), last) ↦ rw last (
            handle_question-Decided qname qtype qclass others rest req_tsig h
              (split_last-append q.ar rest req_tsig last))
      ]
