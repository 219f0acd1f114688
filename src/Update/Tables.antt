-- ===== src/Update/Tables.antt =====
-- The tables that an update writes to, and how rows are saved and deleted. Every save and delete
-- asks for the zone to be written out again (`tasks.update_fzone.delay`).
use hexdns.Common.{
  ℕ, ◌+◌, Bool, true, false, ◌==◌, ◌&&◌, leb, if◌then◌else◌, List, [], ◌∷◌, ◌++◌, map, Bytes,
}
use hexdns.Dns.Message.{Ip}
use hexdns.Dns.Store.{Row, Mx, Srv, Caa, Naptr, Ds, Hinfo, Rp, Db}

-- The models in the order of the list that a deletion of all types goes through.
pub data Kind : Type 0 where
  address mx ns txt srv caa naptr ds loc hinfo rp cname dhcid : Kind

-- The columns of each model beside those of every record.
abbrev pub Body : Kind → Type 0
Body address = Ip
Body mx = Mx
Body ns = Bytes
Body txt = Bytes
Body srv = Srv
Body caa = Caa
Body naptr = Naptr
Body ds = Ds
Body loc = List Bytes
Body hinfo = Hinfo
Body rp = Rp
Body cname = Bytes
Body dhcid = Bytes

-- `Model.objects.all()`
unfoldable pub rows : (k : Kind) → Db → List (Row (Body k))
rows address db = db.address
rows mx db = db.mx
rows ns db = db.ns
rows txt db = db.txt
rows srv db = db.srv
rows caa db = db.caa
rows naptr db = db.naptr
rows ds db = db.ds
rows loc db = db.loc
rows hinfo db = db.hinfo
rows rp db = db.rp
rows cname db = db.cname
rows dhcid db = db.dhcid

unfoldable pub set_rows : (k : Kind) → List (Row (Body k)) → Db → Db
set_rows address table db = record db { address = table }
set_rows mx table db = record db { mx = table }
set_rows ns table db = record db { ns = table }
set_rows txt table db = record db { txt = table }
set_rows srv table db = record db { srv = table }
set_rows caa table db = record db { caa = table }
set_rows naptr table db = record db { naptr = table }
set_rows ds table db = record db { ds = table }
set_rows loc table db = record db { loc = table }
set_rows hinfo table db = record db { hinfo = table }
set_rows rp table db = record db { rp = table }
set_rows cname table db = record db { cname = table }
set_rows dhcid table db = record db { dhcid = table }

-- The database, the key that the next new row takes, and the zones queued to be written out.
pub record Store : Type 0 where
  pub db : Db
  pub next_pk : ℕ
  pub queued : List ℕ

-- `UPDATE … WHERE id = …` and `DELETE … WHERE id = …`
unfoldable pub replace_row : {D : Type 0} → Row D → List (Row D) → List (Row D)
replace_row new [] = []
replace_row new (r ∷ rs) = (if r.pk == new.pk then new else r) ∷ replace_row new rs

unfoldable pub delete_row : {D : Type 0} → ℕ → List (Row D) → List (Row D)
delete_row pk [] = []
delete_row pk (r ∷ rs) = let rest = delete_row pk rs in if r.pk == pk then rest else r ∷ rest

-- `str.lower`, on ASCII text.
unfoldable pub lower_char : ℕ → ℕ
lower_char c = if leb b'A' c && leb c b'Z' then c + 32 else c

unfoldable pub lower : Bytes → Bytes
unfolding lower_char
lower text = map lower_char text

-- The columns that `save` brings to lower case.
unfoldable pub lower_body : (k : Kind) → Body k → Body k
unfolding lower
lower_body mx body = record body { exchange = lower body.exchange }
lower_body ns body = lower body
lower_body rp body = record body { mailbox = lower body.mailbox; txt = lower body.txt }
lower_body cname body = lower body
lower_body address body = body
lower_body txt body = body
lower_body srv body = body
lower_body caa body = body
lower_body naptr body = body
lower_body ds body = body
lower_body loc body = body
lower_body hinfo body = body
lower_body dhcid body = body

unfoldable pub lower_row : (k : Kind) → Row (Body k) → Row (Body k)
unfolding lower lower_body
lower_row k r = record r { record_name = lower r.record_name; body = lower_body k r.body }

-- The models that override `delete`: all but `DHCIDRecord`.
unfoldable pub queues_delete : Kind → Bool
queues_delete dhcid = false
queues_delete _ = true

unfoldable pub enqueue : ℕ → Store → Store
enqueue zone s = record s { queued = s.queued ++ zone ∷ [] }

-- `record.save()` of a row that stands in its table.
unfoldable pub save_row : (k : Kind) → Row (Body k) → Store → Store
unfolding enqueue lower_row replace_row set_rows rows
save_row k r s =
    let queued = enqueue r.zone s in
    record queued { db = set_rows k (replace_row (lower_row k r) (rows k queued.db)) queued.db }

-- `save()` of a new row, which takes its key then.
unfoldable pub insert_row : (k : Kind) → Row (Body k) → Store → Store
unfolding enqueue lower_row set_rows rows
insert_row k r s =
    let queued = enqueue r.zone s in
    record queued {
      db =
          set_rows k (rows k queued.db ++ record (lower_row k r) { pk = queued.next_pk } ∷ [])
            queued.db;
      next_pk = queued.next_pk + 1;
    }

-- `record.delete()`
unfoldable pub remove_row : (k : Kind) → Row (Body k) → Store → Store
unfolding enqueue delete_row set_rows rows queues_delete
remove_row k r s =
    let queued = if queues_delete k then enqueue r.zone s else s in
    record queued { db = set_rows k (delete_row r.pk (rows k queued.db)) queued.db }
