-- ===== src/Update/Isolation.antt =====
-- What stays as it is when an update writes to one zone: the relation between the tables before and
-- after, for the primitive writes.
pub mod Rows
pub mod Records
pub mod Update
pub mod Query
pub mod Published
use hexdns.Common.{
  ℕ, suc, ◌+◌, ◌<◌, ◌≡◌, ◌≢◌, refl, sym, ◌∙◌, ap, Bool, true, false, ◌==◌, if◌then◌else◌, if_both,
  List, [], ◌∷◌, ◌++◌, All, All-append, append-nil, append_assoc, Bytes, arith,
}
use hexdns.Common.{Bool-cases, inl, inr}
use hexdns.Dns.Store.{Row, Zone, Db, Dynamic, Aname, Redirect, Sshfp, Https}
use hexdns.Update.Tables.{
  Kind, address, mx, ns, txt, srv, caa, naptr, ds, loc, hinfo, rp, cname, dhcid, Body, rows,
  set_rows, Store, enqueue, save_row, insert_row, remove_row, lower_row, queues_delete, delete_row,
}
use Rows.{
  IsKeyed, OwnsKey, elsewhere, IsKeyed-suc, replace_row-IsKeyed, replace_row-OwnsKey,
  elsewhere-replace_row, delete_row-IsKeyed, delete_row-OwnsKey, elsewhere-delete_row,
  insert-IsKeyed, insert-OwnsKey, elsewhere-insert,
}

-- The tables that an update never writes to.
pub record SameRest (a b : Db) : Type 0 where
  pub zones : b.zones ≡ a.zones
  pub dynamic : b.dynamic ≡ a.dynamic
  pub aname : b.aname ≡ a.aname
  pub redirect : b.redirect ≡ a.redirect
  pub sshfp : b.sshfp ≡ a.sshfp
  pub https : b.https ≡ a.https

-- The keys of every table are distinct, and below the next one.
abbrev pub IsWellKeyed : Store → Type 0
IsWellKeyed s = (k : Kind) → IsKeyed s.next_pk (rows k s.db)

-- From `s` to `t` only rows of the zone changed, and only the zone was queued.
pub record Stays (zone : ℕ) (s t : Store) : Type 0 where
  pub keyed : IsWellKeyed s → IsWellKeyed t
  pub owned : (k : Kind) (pk : ℕ) → OwnsKey pk zone (rows k s.db) → OwnsKey pk zone (rows k t.db)
  pub kept : (k : Kind) → elsewhere zone (rows k t.db) ≡ elsewhere zone (rows k s.db)
  pub rest : SameRest s.db t.db
  pub added : List ℕ
  pub queued : t.queued ≡ s.queued ++ added
  pub one_zone : All (λ z. z ≡ zone) added

pub SameRest-refl : (db : Db) → SameRest db db
SameRest-refl db = record {
  zones = refl;
  dynamic = refl;
  aname = refl;
  redirect = refl;
  sshfp = refl;
  https = refl;
}

pub SameRest-trans : {a b c : Db} → SameRest a b → SameRest b c → SameRest a c
SameRest-trans h g = record {
  zones = g.zones ∙ h.zones;
  dynamic = g.dynamic ∙ h.dynamic;
  aname = g.aname ∙ h.aname;
  redirect = g.redirect ∙ h.redirect;
  sshfp = g.sshfp ∙ h.sshfp;
  https = g.https ∙ h.https;
}

pub Stays-refl : (zone : ℕ) (s : Store) → Stays zone s s
Stays-refl zone s = record {
  keyed = λ h. h;
  owned = λ k pk h. h;
  kept = λ k. refl;
  rest = SameRest-refl s.db;
  added = [];
  queued = sym (append-nil s.queued);
  one_zone = tt;
}

pub Stays-trans : {zone : ℕ} {s t u : Store} → Stays zone s t → Stays zone t u → Stays zone s u
Stays-trans {zone} {s} {t} {u} h g = record {
  keyed = λ k. g.keyed (h.keyed k);
  owned = λ k pk o. g.owned k pk (h.owned k pk o);
  kept = λ k. g.kept k ∙ h.kept k;
  rest = SameRest-trans h.rest g.rest;
  added = h.added ++ g.added;
  queued =
      g.queued ∙ ap (λ (q : List ℕ). q ++ g.added) h.queued ∙ append_assoc s.queued h.added g.added;
  one_zone = All-append (λ z. z ≡ zone) h.added g.added h.one_zone g.one_zone;
}

-- What holds of the new table and of all the old ones holds of all tables after the write.
pub rows-set_rows :
    (P : (j : Kind) → List (Row (Body j)) → Type 0) (k : Kind) (l : List (Row (Body k))) (db : Db)
    → P k l
    → ((j : Kind) → P j (rows j db))
    → (j : Kind) → P j (rows j (set_rows k l db))
unfolding rows set_rows
rows-set_rows P address l db h g address = h
rows-set_rows P mx l db h g mx = h
rows-set_rows P ns l db h g ns = h
rows-set_rows P txt l db h g txt = h
rows-set_rows P srv l db h g srv = h
rows-set_rows P caa l db h g caa = h
rows-set_rows P naptr l db h g naptr = h
rows-set_rows P ds l db h g ds = h
rows-set_rows P loc l db h g loc = h
rows-set_rows P hinfo l db h g hinfo = h
rows-set_rows P rp l db h g rp = h
rows-set_rows P cname l db h g cname = h
rows-set_rows P dhcid l db h g dhcid = h
rows-set_rows P _ l db h g j = g j

pub set_rows-SameRest :
    (k : Kind) (l : List (Row (Body k))) (db : Db) → SameRest db (set_rows k l db)
unfolding set_rows
set_rows-SameRest address l db = record {
  zones = refl;
  dynamic = refl;
  aname = refl;
  redirect = refl;
  sshfp = refl;
  https = refl;
}
set_rows-SameRest _ l db = record {
  zones = refl;
  dynamic = refl;
  aname = refl;
  redirect = refl;
  sshfp = refl;
  https = refl;
}

-- What a new table must satisfy in place of the old one of the kind.
pub record Fits (zone next next' : ℕ) (k : Kind) (old new : List (Row (Body k))) : Type 0 where
  pub keyed : IsKeyed next old → IsKeyed next' new
  pub owned : (pk : ℕ) → OwnsKey pk zone old → OwnsKey pk zone new
  pub kept : elsewhere zone new ≡ elsewhere zone old

-- The write of one table.
pub set_rows-Stays :
    (zone : ℕ) (k : Kind) (l : List (Row (Body k))) (s : Store) (next : ℕ)
    → ((j : Kind) → IsKeyed s.next_pk (rows j s.db) → IsKeyed next (rows j s.db))
    → Fits zone s.next_pk next k (rows k s.db) l
    → Stays zone s (record s { db = set_rows k l s.db; next_pk = next })
set_rows-Stays zone k l s next more fits = record {
  keyed = λ h.
      rows-set_rows (λ j table. IsKeyed next table) k l s.db (fits.keyed (h k)) (λ j. more j (h j));
  owned = λ j pk.
      rows-set_rows (λ i table. OwnsKey pk zone (rows i s.db) → OwnsKey pk zone table) k l s.db
        (fits.owned pk) (λ i h. h) j;
  kept =
      rows-set_rows (λ j table. elsewhere zone table ≡ elsewhere zone (rows j s.db)) k l s.db
        fits.kept (λ j. refl);
  rest = set_rows-SameRest k l s.db;
  added = [];
  queued = sym (append-nil s.queued);
  one_zone = tt;
}

pub enqueue-Stays : (zone : ℕ) (s : Store) → Stays zone s (enqueue zone s)
unfolding enqueue
enqueue-Stays zone s = record {
  keyed = λ h. h;
  owned = λ k pk h. h;
  kept = λ k. refl;
  rest = (Stays-refl zone s).rest;
  added = zone ∷ [];
  queued = refl;
  one_zone = (refl, tt);
}

pub save_row-Stays :
    (zone : ℕ) (k : Kind) (r : Row (Body k)) (s : Store)
    → r.zone ≡ zone
    → OwnsKey r.pk zone (rows k s.db)
    → Stays zone s (save_row k r s)
unfolding save_row lower_row
save_row-Stays zone k r s z own =
    let queued = enqueue r.zone s in
    let new = lower_row k r in
    Stays-trans (rw (← z) (enqueue-Stays r.zone s)) (
      set_rows-Stays zone k _ queued s.next_pk (λ j h. h)
        (record {
          keyed = replace_row-IsKeyed s.next_pk new (rows k s.db);
          owned = λ pk. replace_row-OwnsKey pk zone new (rows k s.db) z;
          kept = elsewhere-replace_row zone new (rows k s.db) z own;
        }))

pub insert_row-Stays :
    (zone : ℕ) (k : Kind) (r : Row (Body k)) (s : Store)
    → r.zone ≡ zone
    → Stays zone s (insert_row k r s)
unfolding insert_row lower_row
insert_row-Stays zone k r s z =
    let queued = enqueue r.zone s in
    let new = record (lower_row k r) { pk = s.next_pk } in
    Stays-trans (rw (← z) (enqueue-Stays r.zone s)) (
      set_rows-Stays zone k _ queued (s.next_pk + 1) (λ j. IsKeyed-suc s.next_pk (rows j s.db))
        (record {
          keyed = insert-IsKeyed s.next_pk new (rows k s.db) refl;
          owned = λ pk. insert-OwnsKey pk zone new (rows k s.db) z;
          kept = elsewhere-insert zone new (rows k s.db) z;
        }))

pub remove_row-Stays :
    (zone : ℕ) (k : Kind) (r : Row (Body k)) (s : Store)
    → r.zone ≡ zone
    → OwnsKey r.pk zone (rows k s.db)
    → Stays zone s (remove_row k r s)
unfolding remove_row
remove_row-Stays zone k r s z own =
    let fits : Fits zone s.next_pk s.next_pk k (rows k s.db) (delete_row r.pk (rows k s.db)) =
      record {
        keyed = delete_row-IsKeyed s.next_pk r.pk (rows k s.db);
        owned = λ pk. delete_row-OwnsKey pk zone r.pk (rows k s.db);
        kept = elsewhere-delete_row zone r.pk (rows k s.db) own;
      } in
    elim (Bool-cases (queues_delete k)) [
      | inl queues ↦
          rw (queues, remove_row)
            (Stays-trans (rw (← z) (enqueue-Stays r.zone s))
              (set_rows-Stays zone k _ (enqueue r.zone s) s.next_pk (λ j h. h) fits))
      | inr silent ↦ rw (silent, remove_row) (set_rows-Stays zone k _ s s.next_pk (λ j h. h) fits)
    ]
