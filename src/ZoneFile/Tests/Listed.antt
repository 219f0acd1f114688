-- ===== src/ZoneFile/Tests/Listed.antt =====
-- A run of update_catalog.
use hexdns.Common.{
  ℕ, ◌+◌, ◌==◌, ◌≡◌, refl, true, false, if◌then◌else◌, List, [], ◌∷◌, ◌++◌, Bytes, codes, none,
  some, ok, err, value_error,
}
use hexdns.Dns.Sample.{sample, runs}
use hexdns.Dns.Find.{join_dots}
use hexdns.ZoneFile.Arpa.{Network}
use hexdns.ZoneFile.Tests.{texts, net}
use hexdns.ZoneFile.Catalog.{Users, CatalogZone, Catalog, update_catalog, preamble}
use hexdns.ZoneFile.Catalog.Members.{
  member_texts, active_of, inactive_of, all_members, update_catalog-members,
}

-- User 1 is active, user 2 is not, and the others have no account.
abbrev users : Users
users = record {
  User = ℕ;
  username = λ n. 117 ∷ (48 + n) ∷ [];
  subscription_active = λ n. if n == 1 then some true else if n == 2 then some false else none;
}

abbrev forward : List (CatalogZone ⦃U = users⦄ Bytes)
forward =
    record { id = codes "z1"; zone_root = codes "ex.com"; cds_disable = false; owner = ok (some 1) }
    ∷ record {
      id = codes "z2";
      zone_root = codes "in.com";
      cds_disable = false;
      owner = ok (some 2);
    }
    ∷ record {
      id = codes "z3";
      zone_root = codes "no.com";
      cds_disable = false;
      owner = err value_error;
    }
    ∷ record { id = codes "z4"; zone_root = codes "a b"; cds_disable = false; owner = ok (some 1) }
    ∷ []

abbrev reverse : List (CatalogZone ⦃U = users⦄ Network)
reverse =
    record {
      id = codes "r1";
      zone_root = record { network_address = net; prefixlen = 24 };
      cds_disable = true;
      owner = ok (some 1);
    }
    ∷ []

abbrev catalog : Catalog ⦃U = users⦄
catalog = update_catalog ⦃U = users⦄ ⦃E = sample⦄ ⦃T = texts⦄ forward reverse []

catalog_test :
    (catalog.zone_file
      ≡ preamble ⦃U = users⦄ ⦃E = sample⦄ ⦃T = texts⦄
        ++ codes "z1.zones 0 IN PTR ex.com.\ngroup.z1.zones 0 IN TXT \"zone\"\n"
        ++ codes
            "r1.zones 0 IN PTR 2.0.192.in-addr.arpa.\ngroup.r1.zones 0 IN TXT \"zone-cds-disable\"\n")
    × (catalog.active_zones
        ≡ (codes "ex.com.", codes "u1") ∷ (codes "2.0.192.in-addr.arpa.", codes "u1") ∷ [])
    × (catalog.inactive_zones ≡ codes "in.com." ∷ codes "no.com." ∷ [])
unfolding update_catalog runs join_dots
catalog_test = (refl, refl, refl)

update_catalog-members_example : catalog ≡ record {
  zone_file =
      preamble ⦃U = users⦄ ⦃E = sample⦄ ⦃T = texts⦄
      ++ member_texts ⦃U = users⦄ ⦃E = sample⦄ ⦃T = texts⦄
          (all_members ⦃U = users⦄ ⦃E = sample⦄ ⦃T = texts⦄ forward reverse []);
  active_zones =
      active_of ⦃U = users⦄ ⦃E = sample⦄ ⦃T = texts⦄
        (all_members ⦃U = users⦄ ⦃E = sample⦄ ⦃T = texts⦄ forward reverse []);
  inactive_zones =
      inactive_of ⦃U = users⦄ ⦃E = sample⦄ ⦃T = texts⦄
        (all_members ⦃U = users⦄ ⦃E = sample⦄ ⦃T = texts⦄ forward reverse []);
}
update_catalog-members_example =
    update_catalog-members ⦃U = users⦄ ⦃E = sample⦄ ⦃T = texts⦄ forward reverse []
