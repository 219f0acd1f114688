-- ===== src/Update/Apply/OneKind.antt =====
-- The writes of an update to the table of one model leave the others as they are.
use hexdns.Common.{
  ℕ, ◌≡◌, ◌≢◌, refl, ◌∙◌, inl, inr, Bool, if◌then◌else◌, if_both, Bool-cases, Option-cases, List,
  [], ◌∷◌, some, Result, arith,
}
use hexdns.Dns.External.{External}
use hexdns.Dns.Qtype
use hexdns.Dns.Message.{Rr}
use hexdns.Dns.Store.{Row, Zone, Db}
use hexdns.Update.Request.{UpdateRr, Wire}
use hexdns.Update.Tables.{
  Kind, address, txt, Body, rows, set_rows, Store, save_row, insert_row, remove_row, enqueue,
  queues_delete,
}
use hexdns.Update.Kinds.{kind_of, to_rr}
use hexdns.Update.Apply.{update_or_insert, remove_matching}
use hexdns.Update.Isolation.{
  rows-set_rows, SameRest, SameRest-refl, SameRest-trans, set_rows-SameRest,
}
use hexdns.Update.Apply.Additions.{All-Unit, update_or_insert-Leaves}
use hexdns.Update.Apply.Leaves.{Leaves, mono-Leaves}

-- All tables but that of one kind are as they were, those that no update writes to included.
pub record OnlyKind (k : Kind) (s t : Store) : Type 0 where
  pub others : (j : Kind) → j ≢ k → rows j t.db ≡ rows j s.db
  pub rest : SameRest s.db t.db

pub OnlyKind-refl : (k : Kind) (s : Store) → OnlyKind k s s
OnlyKind-refl k s = record { others = λ j other. refl; rest = SameRest-refl s.db }

pub OnlyKind-trans : {k : Kind} {s t u : Store} → OnlyKind k s t → OnlyKind k t u → OnlyKind k s u
OnlyKind-trans h g = record {
  others = λ j other. g.others j other ∙ h.others j other;
  rest = SameRest-trans h.rest g.rest;
}

rows-set_rows_ne :
    (k : Kind) (l : List (Row (Body k))) (db : Db) (j : Kind)
    → j ≢ k
    → rows j (set_rows k l db) ≡ rows j db
rows-set_rows_ne k l db =
    rows-set_rows (λ i table. i ≢ k → table ≡ rows i db) k l db (λ other. absurd (other refl))
      (λ i other. refl)

save_row-OnlyKind : (k : Kind) (r : Row (Body k)) (s : Store) → OnlyKind k s (save_row k r s)
unfolding save_row
save_row-OnlyKind k r s = record {
  others = rows-set_rows_ne k _ s.db;
  rest = set_rows-SameRest k _ s.db;
}

insert_row-OnlyKind : (k : Kind) (r : Row (Body k)) (s : Store) → OnlyKind k s (insert_row k r s)
unfolding insert_row
insert_row-OnlyKind k r s = record {
  others = rows-set_rows_ne k _ s.db;
  rest = set_rows-SameRest k _ s.db;
}

pub remove_row-OnlyKind :
    (k : Kind) (r : Row (Body k)) (s : Store) → OnlyKind k s (remove_row k r s)
unfolding remove_row
remove_row-OnlyKind k r s = elim (Bool-cases (queues_delete k)) [
  | inl queues ↦
      rw (queues, remove_row)
        (record { others = rows-set_rows_ne k _ s.db; rest = set_rows-SameRest k _ s.db })
  | inr silent ↦
      rw (silent, remove_row)
        (record { others = rows-set_rows_ne k _ s.db; rest = set_rows-SameRest k _ s.db })
]

pub kind_of-txt : (rtype : ℕ) (k : Kind) → rtype ≡ Qtype.txt → kind_of rtype ≡ some k → k ≡ txt
unfolding kind_of
kind_of-txt rtype k e h = cc (rw e at h)

module _ ⦃E : External⦄ where
  -- Only TXT rows have the type TXT.
  pub to_rr-txt :
      (k : Kind) (name : E.Label) (r : Row (Body k)) (found : Rr)
      → to_rr k name r ≡ some found
      → found.rtype ≡ Qtype.txt
      → k ≡ txt
  unfolding to_rr
  to_rr-txt address name r found e t = ground arith
  to_rr-txt txt name r found e t = refl
  to_rr-txt _ name r found e t = ground arith

  module _ ⦃W : Wire⦄ where
    pub update_or_insert-OnlyKind :
        (k : Kind) (rr : UpdateRr) (zone : Zone) (body : Result (Body k))
        (records : List (Row (Body k))) (s : Store)
        → Leaves (OnlyKind k s) (update_or_insert k rr zone body records s)
    unfolding enqueue
    update_or_insert-OnlyKind k rr zone body records s =
        update_or_insert-Leaves k zone (λ r. Unit) s (OnlyKind k s)
          (record {
            same = OnlyKind-refl k s;
            queued = record { others = λ j other. refl; rest = SameRest-refl s.db };
            queued_row = λ r h. record { others = λ j other. refl; rest = SameRest-refl s.db };
            saved = λ r new p z h. save_row-OnlyKind k new s;
            inserted = λ new z. insert_row-OnlyKind k new s;
          })
          rr body records (All-Unit records)

    pub remove_matching-OnlyKind :
        (k : Kind) (test : Rr → Bool) (rname : E.Label) (records : List (Row (Body k))) (s : Store)
        → Leaves (OnlyKind k s) (remove_matching k test rname records s)
    unfolding remove_matching
    remove_matching-OnlyKind k test rname [] s = OnlyKind-refl k s
    remove_matching-OnlyKind k test rname (r ∷ records) s = elim (Option-cases (to_rr k rname r)) [
      | inl missing ↦ rw (missing, remove_matching) (OnlyKind-refl k s)
      | inr (record_rr, found) ↦
          let s' = if test record_rr then remove_row k r s else s in
          let once : OnlyKind k s s' =
            if_both (OnlyKind k s) (test record_rr) (remove_row-OnlyKind k r s)
              (OnlyKind-refl k s) in
          rw (found, remove_matching)
            (mono-Leaves (remove_matching k test rname records s')
              (λ t more. OnlyKind-trans once more)
              (remove_matching-OnlyKind k test rname records s'))
    ]
