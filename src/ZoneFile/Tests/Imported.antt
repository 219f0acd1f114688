-- ===== src/ZoneFile/Tests/Imported.antt =====
-- Runs of import_zone_file on sample tables.
use hexdns.Common.{◌≡◌, refl, Bool, true, false, List, [], ◌∷◌, codes, none, some, attribute_error}
use hexdns.Dns.Qtype
use hexdns.Dns.Message.{dnskey_rd}
use hexdns.Dns.Sample.{sample}
use hexdns.Dns.Tests.{row, outer, ex_com}
use hexdns.Update.Request.{class_in, UpdateRr}
use hexdns.Update.Tests.{wire, store, updates, token}
use hexdns.ZoneFile.Import.{State, Outcome, imported, failed, import_zone_file}
use hexdns.ZoneFile.Import.Stays.{Settles, import_zone_file-Settles}
use hexdns.ZoneFile.Tests.{texts}

-- A row of another zone, and one of the zone.
abbrev before : State
before = record { store = store; dnskey = [] }

abbrev key_rr : UpdateRr ⦃E = sample⦄
key_rr = record {
  rname = ex_com;
  rtype = Qtype.dnskey;
  rclass = class_in;
  ttl = 0;
  rdata = some (dnskey_rd 257 3 13 (0 ∷ 1 ∷ []));
}

abbrev import_of : List (UpdateRr ⦃E = sample⦄) → Bool → Outcome
import_of records overwrite =
    import_zone_file ⦃E = sample⦄ ⦃T = texts⦄ ⦃W = wire⦄ outer (some records) overwrite before

unfoldable pub imports : Unit {0}
unfolding updates import_zone_file
imports = tt

-- The zone's TXT row is replaced, and the time to live of 0 with it.
overwrite_test :
    import_of (token class_in 0 (codes "tok") ∷ []) true
    ≡ imported (record {
      store = record store {
        db = record store.db {
          txt =
              row 0 2 (codes "_acme-challenge") (codes "theirs")
              ∷ record (row 5 1 (codes "_acme-challenge") (codes "tok")) { ttl = 3600 }
              ∷ [];
        };
        next_pk = 6;
        queued = 1 ∷ [];
      };
      dnskey = [];
    })
unfolding imports
overwrite_test = refl

-- Without records, the rows are gone and the zone is not queued.
nothing_test :
    import_of [] true
    ≡ imported (record {
      store = record store {
        db = record store.db { txt = row 0 2 (codes "_acme-challenge") (codes "theirs") ∷ [] };
      };
      dnskey = [];
    })
unfolding imports
nothing_test = refl

-- The column of an imported key holds the text of a bytes literal.
dnskey_test :
    import_of (key_rr ∷ []) false
    ≡ imported (record {
      store = record store { next_pk = 6; queued = 1 ∷ [] };
      dnskey =
          record (row 5 1
            (codes "@")
            (record { flags = 257; protocol = 3; algorithm = 13; public_key = codes "b'AB'" })) {
              ttl = 3600;
            }
          ∷ [];
    })
unfolding imports
dnskey_test = refl

-- The second record has no data: the first is taken back, and the zone stays queued.
undone_test :
    import_of (token class_in 60 (codes "tok") ∷ record key_rr { rdata = none } ∷ []) true
    ≡ failed attribute_error (record { store = record store { queued = 1 ∷ [] }; dnskey = [] })
unfolding imports
undone_test = refl

import_zone_file-Settles_example :
    Settles ⦃E = sample⦄ ⦃T = texts⦄ ⦃W = wire⦄ 1 before
      (import_of (token class_in 0 (codes "tok") ∷ []) true)
import_zone_file-Settles_example =
    import_zone_file-Settles ⦃E = sample⦄ ⦃T = texts⦄ ⦃W = wire⦄ outer
      (some (token class_in 0 (codes "tok") ∷ [])) true before
