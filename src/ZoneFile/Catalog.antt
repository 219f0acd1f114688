-- ===== src/ZoneFile/Catalog.antt =====
-- update_catalog of tasks.py: the zone of all zones that the name servers read.
pub mod Members
use hexdns.Common.{
  ℕ, Bool, true, false, leb, ◌==◌, ◌&&◌, ◌||◌, if◌then◌else◌, List, [], ◌∷◌, ◌++◌, Bytes, codes,
  bytes_eq, Option, none, some, Result, ok, err,
}
use hexdns.Dns.External.{External}
use hexdns.ZoneFile.Strings.{show}
use hexdns.ZoneFile.Arpa.{Network, network_to_apra}
use hexdns.ZoneFile.Lines.{Texts, concat}

-- `re.compile("^[a-zA-Z0-9-.]+$").match`, whose `$` lets a newline at the end pass.
abbrev pub is_name_char : ℕ → Bool
is_name_char c =
    (leb b'a' c && leb c b'z')
    || (leb b'A' c && leb c b'Z')
    || (leb b'0' c && leb c b'9')
    || c == b'-'
    || c == b'.'

unfoldable pub is_zone_name : Bytes → Bool
unfolding bytes_eq
is_zone_name [] = false
is_zone_name (c ∷ cs) =
    is_name_char c && (bytes_eq cs [] || bytes_eq cs (10 ∷ []) || is_zone_name cs)

-- The owner of a zone, from the account service, and `user.account.subscription_active`: `none` is an
-- `Account.DoesNotExist`.
pub record Users : Type 1 where
  pub User : Type 0
  pub username : User → Bytes
  pub subscription_active : User → Option Bool

module _ ⦃U : Users⦄ where
  -- `get_user`: the exceptions of the service are caught.
  unfoldable pub get_user : Result (Option U.User) → Option U.User
  get_user (err e) = none
  get_user (ok user) = user

  unfoldable pub is_active : Option U.User → Bool
  is_active none = false
  is_active (some user) = elim (U.subscription_active user) [ none ↦ false | some active ↦ active ]

  -- What the task reads of a zone: `zone.id`, what `zone.get_user()` comes to, and the rest.
  pub record CatalogZone (Root : Type 0) : Type 0 where
    pub id : Bytes
    pub zone_root : Root
    pub cds_disable : Bool
    pub owner : Result (Option U.User)

  -- The text, and the arguments of `sync_netnod_zones`.
  pub record Catalog : Type 0 where
    pub zone_file : Bytes
    pub active_zones : List (Bytes × Bytes)
    pub inactive_zones : List Bytes

  module _ ⦃E : External⦄ ⦃T : Texts⦄ where
    unfoldable pub member_text : Bytes → Bytes → Bytes → Bytes
    member_text id zone_root group =
        id
        ++ (codes ".zones 0 IN PTR "
            ++ (zone_root
                ++ (codes "\ngroup."
                    ++ (id ++ (codes ".zones 0 IN TXT \"" ++ (group ++ codes "\"\n"))))))

    -- The body of the three loops, given the owner.
    unfoldable pub list_zone : Bytes → E.Label → Bytes → Option U.User → Catalog → Catalog
    unfolding member_text is_active
    list_zone id zone_root group none c = record c {
      inactive_zones = c.inactive_zones ++ T.str_label zone_root ∷ [];
    }
    list_zone id zone_root group (some owner) c =
        if is_active (some owner)
        then record c {
          zone_file = c.zone_file ++ member_text id (T.str_label zone_root) group;
          active_zones = c.active_zones ++ (T.str_label zone_root, U.username owner) ∷ [];
        }
        else record c { inactive_zones = c.inactive_zones ++ T.str_label zone_root ∷ [] }

    abbrev pub group_of : Bool → Bytes
    group_of cds_disable = if cds_disable then codes "zone-cds-disable" else codes "zone"

    unfoldable pub list_fzones : List (CatalogZone Bytes) → Catalog → Catalog
    unfolding is_zone_name list_zone get_user
    list_fzones [] c = c
    list_fzones (z ∷ zs) c = list_fzones zs (
        if is_zone_name z.zone_root
        then list_zone z.id (E.of_str z.zone_root) (group_of z.cds_disable) (get_user z.owner) c
        else c)

    unfoldable pub list_rzones : List (CatalogZone Network) → Catalog → Catalog
    unfolding network_to_apra list_zone get_user
    list_rzones [] c = c
    list_rzones (z ∷ zs) c =
        list_rzones zs (
          list_zone z.id (network_to_apra z.zone_root) (group_of z.cds_disable) (get_user z.owner)
            c)

    unfoldable pub list_szones : List (CatalogZone Bytes) → Catalog → Catalog
    unfolding is_zone_name list_zone get_user
    list_szones [] c = c
    list_szones (z ∷ zs) c = list_szones zs (
        if is_zone_name z.zone_root
        then list_zone z.id (E.of_str z.zone_root) (codes "zone-secondary") (get_user z.owner) c
        else c)

    -- `for i, ns in enumerate(NAMESERVERS)`
    unfoldable pub signal_text : List (ℕ × Bytes) → Bytes
    unfolding show
    signal_text [] = []
    signal_text ((i, ns) ∷ rest) =
        codes "signal"
        ++ (show i
            ++ (codes ".zones 0 IN PTR _signal."
                ++ (ns
                    ++ (codes "\ngroup.signal"
                        ++ (show i ++ (codes ".zones 0 IN TXT \"zone\"\n" ++ signal_text rest))))))

    -- The lines that are the same each time but for the clock.
    unfoldable pub preamble : Bytes
    unfolding show signal_text concat
    preamble = concat (
        codes "$ORIGIN catalog.dns.as207960.ltd.uk.\n"
        ∷ codes "@ 0 IN SOA invalid. noc.as207960.net "
        ∷ show T.now
        ∷ codes " 3600 600 2147483646 0\n"
        ∷ codes "@ 0 IN NS invalid.\n"
        ∷ codes "version 0 IN TXT \"2\"\n"
        ∷ signal_text (
            (0, codes "ns1.as207960.net.")
            ∷ (1, codes "ns2.as207960.net.")
            ∷ (2, codes "ns3.as207960.net.")
            ∷ (3, codes "ns4.as207960.net.")
            ∷ [])
        ∷ codes "kube-cluster-fwd.zones 0 IN PTR kube-cluster.as207960.net.\n"
        ∷ codes "group.kube-cluster-fwd1.zones 0 IN TXT \"zone\"\n"
        ∷ codes "kube-cluster-rvs1.zones 0 IN PTR 0.0.0.8.c.f.0.8.7.6.0.1.0.0.2.ip6.arpa.\n"
        ∷ codes "group.kube-cluster-rvs1.zones 0 IN TXT \"zone\"\n"
        ∷ codes "kube-cluster-rvs2.zones 0 IN PTR 0.0.0.0.1.0.0.0.1.c.c.1.e.0.a.2.ip6.arpa.\n"
        ∷ codes "group.kube-cluster-rvs2.zones 0 IN TXT \"zone\"\n"
        ∷ [])

    unfoldable pub update_catalog :
        List (CatalogZone Bytes) → List (CatalogZone Network) → List (CatalogZone Bytes) → Catalog
    unfolding preamble list_fzones list_rzones list_szones
    update_catalog fzones rzones szones = list_szones szones (
        list_rzones rzones (
          list_fzones fzones
            (record { zone_file = preamble; active_zones = []; inactive_zones = [] })))
