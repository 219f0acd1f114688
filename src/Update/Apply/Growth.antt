-- ===== src/Update/Apply/Growth.antt =====
-- No addition takes a row away, and none adds more than one.
use hexdns.Common.{ℕ, ◌≡◌, refl, ap, ◌⊎◌, inl, inr, ◌==◌, ==_iff, Bool-cases, List, [], ◌∷◌, ◌++◌}
use hexdns.Dns.External.{External}
use hexdns.Dns.Store.{Row, Zone}
use hexdns.Update.Request.{Key, UpdateRr, Wire}
use hexdns.Update.Tables.{
  Kind, Body, rows, Store, save_row, insert_row, enqueue, replace_row, lower_row,
}
use hexdns.Update.Apply.{apply_add, records_of}
use hexdns.Update.Apply.Leaves.{Leaves}
use hexdns.Update.Apply.Additions.{All-Unit, apply_add-Leaves}
use hexdns.Update.Isolation.{rows-set_rows}

-- The keys of the rows of a table, in their order.
abbrev pub keys : {D : Type 0} → List (Row D) → List ℕ
keys [] = []
keys (r ∷ rs) = r.pk ∷ keys rs

keys-append : {D : Type 0} (xs ys : List (Row D)) → keys (xs ++ ys) ≡ keys xs ++ keys ys
keys-append [] ys = refl
keys-append (x ∷ xs) ys = ap (λ (l : List ℕ). x.pk ∷ l) (keys-append xs ys)

keys-replace_row :
    {D : Type 0} (new : Row D) (rs : List (Row D)) → keys (replace_row new rs) ≡ keys rs
unfolding replace_row
keys-replace_row new [] = refl
keys-replace_row new (r ∷ rs) = elim (Bool-cases (r.pk == new.pk)) [
  | inl same ↦ rw (same, keys-replace_row new rs, (==_iff r.pk new.pk).0 same) refl
  | inr other ↦ rw (other, keys-replace_row new rs) refl
]

-- Each table has the keys that it had, and at most the next new one behind them.
abbrev pub Grows : Store → Store → Type 0
Grows s t =
    (k : Kind)
    → (keys (rows k t.db) ≡ keys (rows k s.db))
      ⊎ (keys (rows k t.db) ≡ keys (rows k s.db) ++ s.next_pk ∷ [])

module _ (k : Kind) (new : Row (Body k)) (s : Store) where
  save_row-Grows : Grows s (save_row k new s)
  unfolding save_row enqueue lower_row
  save_row-Grows =
      rows-set_rows
        (λ j table.
          (keys table ≡ keys (rows j s.db)) ⊎ (keys table ≡ keys (rows j s.db) ++ s.next_pk ∷ []))
        k _ s.db (inl (keys-replace_row (lower_row k new) (rows k s.db))) (λ j. inl refl)

  insert_row-Grows : Grows s (insert_row k new s)
  unfolding insert_row enqueue
  insert_row-Grows =
      rows-set_rows
        (λ j table.
          (keys table ≡ keys (rows j s.db)) ⊎ (keys table ≡ keys (rows j s.db) ++ s.next_pk ∷ []))
        k _ s.db (inr (keys-append (rows k s.db) _)) (λ j. inl refl)

module _ ⦃E : External⦄ ⦃W : Wire⦄ where
  -- Whatever an addition comes to, each table keeps its rows by their keys and in their order, and
  -- has at most one new row behind them, with the next new key.
  pub apply_add-Grows :
      (key : Key) (zone : Zone) (name : E.Label) (rr : UpdateRr) (s : Store)
      → Leaves (Grows s) (apply_add key zone name rr s)
  unfolding enqueue
  apply_add-Grows key zone name rr s =
      apply_add-Leaves (Grows s) key zone name rr s (λ k. inl refl)
        λ k known. (
          λ r. Unit,
          record {
            same = λ j. inl refl;
            queued = λ j. inl refl;
            queued_row = λ r h j. inl refl;
            saved = λ r new p z h. save_row-Grows k new s;
            inserted = λ new z. insert_row-Grows k new s;
          },
          All-Unit (records_of k s.db name zone),
        )
