-- ===== src/Update/Tests/Deletions.antt =====
-- Deletions, and additions that fail, at inputs that meet the hypotheses of their theorems.
use hexdns.Common.{◌==◌, ◌&&◌, ◌≡◌, refl, List, [], ◌∷◌, Bytes, codes, none, some, arith, ◌↔◌}
use hexdns.Dns.Qtype
use hexdns.Dns.Message.{rd, txt_rd}
use hexdns.Dns.Store.{Row}
use hexdns.Dns.Sample.{sample}
use hexdns.Dns.Tests.{row, outer, empty, ex_com}
use hexdns.Update.Request.{class_in, class_none, class_any, UpdateRr}
use hexdns.Update.Tables.{txt, ds, Store, rows}
use hexdns.Update.Isolation.{IsWellKeyed}
use hexdns.Update.Apply.Acme.{Manages}
use hexdns.Update.Kinds.{kind_of}
use hexdns.Update.Apply.{done, records_of, same_data, apply_add, apply_delete, apply_delete_one}
use hexdns.Update.Apply.Deletions.{Removed}
use hexdns.Update.Apply.Deletions.Handlers.{
  apply_delete-Removed, apply_delete_one-Removed, apply_delete-apex,
}
use hexdns.Update.Apply.Failures.{location, apply_add-Rejected}
use hexdns.Update.Handler.Gate.{Rejected}
use mathlib.Core.List.{Memᴰ}
use mathlib.Core.List.Memᴰ
use hexdns.Update.Tests.{wire, store, store-IsWellKeyed, full_key, updates}

abbrev name_t : List Bytes
name_t = codes "t" ∷ []

-- The deletions of all TXT records at a name, and of one.
abbrev wipe : UpdateRr ⦃E = sample⦄
wipe = record {
  rname = codes "t" ∷ ex_com;
  rtype = Qtype.txt;
  rclass = class_any;
  ttl = 0;
  rdata = none;
}

abbrev wipe_one : UpdateRr ⦃E = sample⦄
wipe_one = record wipe { rclass = class_none; rdata = some (txt_rd (codes "ours" ∷ [])) }

txt_ne_ds : txt ≡ ds → ⊥
txt_ne_ds = λ e. cc

known_txt : kind_of Qtype.txt ≡ some txt
unfolding kind_of
known_txt = refl

may_txt : (name : List Bytes) → Manages ⦃E = sample⦄ full_key Qtype.txt name
unfolding updates
may_txt name = refl

apply_delete-Removed_example :
    Removed ⦃E = sample⦄ txt
      (λ r. r.rtype == Qtype.txt)
      wipe.rname
      (records_of ⦃E = sample⦄ txt store.db name_t outer)
      store
      (apply_delete ⦃E = sample⦄ ⦃W = wire⦄ full_key outer name_t wipe store)
apply_delete-Removed_example =
    apply_delete-Removed ⦃E = sample⦄ ⦃W = wire⦄ full_key outer name_t wipe store txt
      store-IsWellKeyed known_txt txt_ne_ds (may_txt name_t) (omega arith)

apply_delete_one-Removed_example :
    Removed ⦃E = sample⦄ txt
      (λ r. same_data ⦃E = sample⦄ ⦃W = wire⦄ wipe_one.rdata r.rdata && r.rtype == Qtype.txt)
      wipe_one.rname
      (records_of ⦃E = sample⦄ txt store.db name_t outer)
      store
      (apply_delete_one ⦃E = sample⦄ ⦃W = wire⦄ full_key outer name_t wipe_one store)
apply_delete_one-Removed_example =
    apply_delete_one-Removed ⦃E = sample⦄ ⦃W = wire⦄ full_key outer name_t wipe_one store txt
      store-IsWellKeyed known_txt txt_ne_ds (may_txt name_t)

-- A TXT record of the zone's own name.
abbrev at_root : Store
at_root = record store {
  db = record (empty (outer ∷ [])) { txt = row 0 1 (codes "@") (codes "root") ∷ [] };
}

at_root-IsWellKeyed : IsWellKeyed at_root
unfolding rows
at_root-IsWellKeyed txt = (omega arith, tt, tt)
at_root-IsWellKeyed _ = tt

at_root-named : (r : Row Bytes) → Memᴰ r at_root.db.txt → r.record_name ≡ [] → ⊥
at_root-named r (Memᴰ.head e) = λ h. cc (rw e at h)
at_root-named r (Memᴰ.tail m) = λ h. Memᴰ.not-nil m

apply_delete-apex_example :
    (t : Store) × (apply_delete ⦃E = sample⦄ ⦃W = wire⦄ full_key outer [] wipe at_root ≡ done t)
    × ((r : Row Bytes) → Memᴰ r (rows txt t.db) ↔ Memᴰ r (rows txt at_root.db))
unfolding rows
apply_delete-apex_example =
    apply_delete-apex ⦃E = sample⦄ ⦃W = wire⦄ full_key outer [] wipe at_root txt at_root-IsWellKeyed
      known_txt txt_ne_ds (may_txt []) (omega arith) refl at_root-named

abbrev located : UpdateRr ⦃E = sample⦄
located = record wipe {
  rtype = Qtype.loc;
  rclass = class_in;
  rdata = some (rd (codes "0123456789abcdef"));
}

apply_add-Rejected_example :
    Rejected store (apply_add ⦃E = sample⦄ ⦃W = wire⦄ full_key outer name_t located store)
apply_add-Rejected_example =
    apply_add-Rejected ⦃E = sample⦄ ⦃W = wire⦄ full_key outer name_t located store (location refl)
