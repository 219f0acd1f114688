-- ===== src/Dns/Lookup/Answers.antt =====
-- What a lookup may add to the answer section.
use hexdns.Common.{
  ℕ, ◌≡◌, refl, sym, ◌∙◌, ◌⊎◌, List, [], ◌∷◌, ◌++◌, All, All-append, append_assoc, append-nil,
  arith,
}
use hexdns.Dns.External.{External}
use hexdns.Dns.Message.{Ip, v4, v6, Rr, Response, add_answer, add_answers}
use hexdns.Dns.Qtype
use hexdns.Dns.Store.{Row}
use hexdns.Dns.Delegation.{aname_rr, aname_rrs}
use hexdns.Dns.Lookup.{add_rows}

module _ ⦃E : External⦄ where
  -- The record is of the type asked for, or a CNAME.
  abbrev pub Answer : ℕ → Rr → Type 0
  Answer q r = (r.rtype ≡ q) ⊎ (r.rtype ≡ Qtype.cname)

  -- Only answers of the type asked for and CNAMEs stand behind the answers that stood there.
  pub record IsAnswered (before after : Response) : Type 0 where
    pub question : after.question ≡ before.question
    pub added : List Rr
    pub appended : after.rr ≡ before.rr ++ added
    pub typed : All (Answer before.question) added

  -- The answer section and the question are as they were.
  abbrev pub SameAnswers : Response → Response → Type 0
  SameAnswers before after = (after.question ≡ before.question) × (after.rr ≡ before.rr)

  pub IsAnswered-of_SameAnswers : {a b : Response} → SameAnswers a b → IsAnswered a b
  IsAnswered-of_SameAnswers s = record {
    question = s.0;
    added = [];
    appended = s.1 ∙ sym (append-nil _);
    typed = tt;
  }

  pub IsAnswered-refl : (a : Response) → IsAnswered a a
  IsAnswered-refl a = IsAnswered-of_SameAnswers (refl, refl)

  pub IsAnswered-trans : {a b c : Response} → IsAnswered a b → IsAnswered b c → IsAnswered a c
  IsAnswered-trans {a} {b} {c} h k = record {
    question = k.question ∙ h.question;
    added = h.added ++ k.added;
    appended = k.appended ∙ rw (h.appended, append_assoc);
    typed = All-append (Answer a.question) h.added k.added h.typed (rw h.question at k.typed);
  }

  pub add_answers-IsAnswered :
      (res : Response) (rs : List Rr)
      → All (Answer res.question) rs
      → IsAnswered res (add_answers res rs)
  unfolding add_answers add_answer
  add_answers-IsAnswered res [] a = IsAnswered-refl res
  add_answers-IsAnswered res (r ∷ rs) a =
      IsAnswered-trans {b = add_answer res r}
        (record { question = refl; added = r ∷ []; appended = refl; typed = (a.0, tt) })
        (add_answers-IsAnswered (add_answer res r) rs a.1)

  pub add_rows-IsAnswered :
      {D : Type 0} (rrs : Row D → List Rr) (res : Response) (rows : List (Row D))
      → ((r : Row D) → All (Answer res.question) (rrs r))
      → IsAnswered res (add_rows rrs res rows)
  unfolding add_rows
  add_rows-IsAnswered rrs res [] h = IsAnswered-refl res
  add_rows-IsAnswered rrs res (r ∷ rows) h =
      let once = add_answers-IsAnswered res (rrs r) (h r) in
      IsAnswered-trans once
        (add_rows-IsAnswered rrs (add_answers res (rrs r)) rows (λ x. rw once.question (h x)))

  pub aname_rrs-Answer :
      (q : ℕ) (name : E.Label) (ttl : ℕ) (ips : List Ip) → All (Answer q) (aname_rrs q name ttl ips)
  unfolding aname_rrs aname_rr
  aname_rrs-Answer q name ttl [] = tt
  aname_rrs-Answer q name ttl (v4 t ∷ ips) = ground (arith, aname_rrs-Answer q name ttl ips)
  aname_rrs-Answer q name ttl (v6 t ∷ ips) = ground (arith, aname_rrs-Answer q name ttl ips)
