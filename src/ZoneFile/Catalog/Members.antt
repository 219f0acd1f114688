-- ===== src/ZoneFile/Catalog/Members.antt =====
-- The catalog has the zones of active owners, and the others are reported as inactive.
use hexdns.Common.{
  ℕ, arith, ◌==◌, ==_iff, ◌⊎◌, true, false, not, ◌&&◌, ◌||◌, Option-cases, Result, ok, err,
  bytes_eq, ◌≡◌, refl, sym, ◌∙◌, ap, Bool, Bool-cases, inl, inr, if◌then◌else◌, List, [], ◌∷◌, ◌++◌,
  append_assoc, append-nil, Bytes, codes, Option, none, some,
}
use hexdns.Dns.External.{External}
use hexdns.ZoneFile.Arpa.{Network, network_to_apra}
use hexdns.ZoneFile.Lines.{Texts, concat}
use hexdns.ZoneFile.Catalog.{
  is_name_char, is_zone_name, Users, get_user, is_active, CatalogZone, Catalog, member_text,
  list_zone, group_of, list_fzones, list_rzones, list_szones, preamble, update_catalog,
}

-- A root without the newline that `$` lets pass at its end.
unfoldable pub without_newline : Bytes → Bytes
without_newline [] = []
without_newline (c ∷ []) = if c == 10 then [] else c ∷ []
without_newline (c ∷ d ∷ ds) = c ∷ without_newline (d ∷ ds)

unfoldable pub all_name_chars : Bytes → Bool
all_name_chars [] = true
all_name_chars (c ∷ cs) = is_name_char c && all_name_chars cs

-- Some letters, digits, dashes and dots, and perhaps a newline behind them.
unfoldable pub is_name : Bytes → Bool
unfolding without_newline all_name_chars
is_name root = not (bytes_eq (without_newline root) []) && all_name_chars (without_newline root)

newline-or_more :
    (d : ℕ) (ds : Bytes)
    → (bytes_eq (d ∷ ds) (10 ∷ []) ≡ true) × (without_newline (d ∷ ds) ≡ [])
      ⊎ (bytes_eq (d ∷ ds) (10 ∷ []) ≡ false) × (bytes_eq (without_newline (d ∷ ds)) [] ≡ false)
unfolding without_newline bytes_eq
newline-or_more d [] = elim (Bool-cases (d == 10)) [
  | inl newline ↦ inl (ground arith, rw newline refl)
  | inr other ↦ inr (ground arith, rw other refl)
]
newline-or_more d (e ∷ es) = inr (ground arith, refl)

is_zone_name-name : (root : Bytes) → is_zone_name root ≡ is_name root
unfolding is_zone_name is_name without_newline all_name_chars
is_zone_name-name [] = refl
is_zone_name-name (c ∷ []) = elim (Bool-cases (c == 10)) [
  | inl newline ↦ rw ((==_iff c 10).0 newline) refl
  | inr other ↦ rw (other, is_name, without_newline) refl
]
is_zone_name-name (c ∷ d ∷ ds) = elim (newline-or_more d ds) [
  | inl (newline, nothing) ↦ rw (newline, nothing) refl
  | inr (other, more) ↦
      let rest = is_zone_name-name (d ∷ ds) in
      ap (λ t. is_name_char c && (t || is_zone_name (d ∷ ds))) other
      ∙ ap (λ t. is_name_char c && t)
          (rest ∙ ap (λ t. not t && all_name_chars (without_newline (d ∷ ds))) more)
]

module _ ⦃U : Users⦄ ⦃E : External⦄ ⦃T : Texts⦄ where
  -- A zone that can be listed, with its group and what the account service says of its owner.
  pub record Member : Type 0 where
    pub id : Bytes
    pub name : Bytes
    pub group : Bytes
    pub owner : Result (Option U.User)

  -- The owner, if there is one who has an account and whose subscription is active.
  unfoldable pub active_owner : Result (Option U.User) → Option U.User
  active_owner (err e) = none
  active_owner (ok none) = none
  active_owner (ok (some user)) = elim (U.subscription_active user) [
    | none ↦ none
    | some active ↦ if active then some user else none
  ]

  -- The forward or secondary zones whose root is a name.
  unfoldable pub named_members : (Bool → Bytes) → List (CatalogZone Bytes) → List Member
  unfolding is_name
  named_members group [] = []
  named_members group (z ∷ zs) =
      let rest = named_members group zs in
      if is_name z.zone_root
      then record {
        id = z.id;
        name = T.str_label (E.of_str z.zone_root);
        group = group z.cds_disable;
        owner = z.owner;
      }
        ∷ rest
      else rest

  unfoldable pub reverse_members : List (CatalogZone Network) → List Member
  reverse_members [] = []
  reverse_members (z ∷ zs) =
      record {
        id = z.id;
        name = T.str_label (network_to_apra z.zone_root);
        group = group_of z.cds_disable;
        owner = z.owner;
      }
      ∷ reverse_members zs

  -- The two lines of a member: its name, and its group.
  unfoldable pub member_lines : Member → Bytes
  unfolding concat
  member_lines m =
      concat (m.id ∷ codes ".zones 0 IN PTR " ∷ m.name ∷ codes "\n" ∷ [])
      ++ concat (codes "group." ∷ m.id ∷ codes ".zones 0 IN TXT \"" ∷ m.group ∷ codes "\"\n" ∷ [])

  -- The lines of the members with an active owner, their names and owners, and the names of the other
  -- members.
  unfoldable pub member_texts : List Member → Bytes
  unfolding active_owner member_lines
  member_texts [] = []
  member_texts (m ∷ ms) =
      elim (active_owner m.owner) [ none ↦ [] | some user ↦ member_lines m ] ++ member_texts ms

  unfoldable pub active_of : List Member → List (Bytes × Bytes)
  unfolding active_owner
  active_of [] = []
  active_of (m ∷ ms) =
      elim (active_owner m.owner) [ none ↦ [] | some user ↦ (m.name, U.username user) ∷ [] ]
      ++ active_of ms

  unfoldable pub inactive_of : List Member → List Bytes
  unfolding active_owner
  inactive_of [] = []
  inactive_of (m ∷ ms) =
      elim (active_owner m.owner) [ none ↦ m.name ∷ [] | some user ↦ [] ] ++ inactive_of ms

  abbrev extended : Catalog → List Member → Catalog
  extended c ms = record {
    zone_file = c.zone_file ++ member_texts ms;
    active_zones = c.active_zones ++ active_of ms;
    inactive_zones = c.inactive_zones ++ inactive_of ms;
  }

  extended-nil : (c : Catalog) → extended c [] ≡ c
  unfolding member_texts active_of inactive_of
  extended-nil c =
      rw (append-nil c.zone_file, append-nil c.active_zones, append-nil c.inactive_zones) refl

  member_texts-append :
      (ms ns : List Member) → member_texts (ms ++ ns) ≡ member_texts ms ++ member_texts ns
  unfolding member_texts
  member_texts-append [] ns = refl
  member_texts-append (m ∷ ms) ns =
      rw (member_texts-append ms ns) (sym (append_assoc _ (member_texts ms) (member_texts ns)))

  active_of-append : (ms ns : List Member) → active_of (ms ++ ns) ≡ active_of ms ++ active_of ns
  unfolding active_of
  active_of-append [] ns = refl
  active_of-append (m ∷ ms) ns =
      rw (active_of-append ms ns) (sym (append_assoc _ (active_of ms) (active_of ns)))

  inactive_of-append :
      (ms ns : List Member) → inactive_of (ms ++ ns) ≡ inactive_of ms ++ inactive_of ns
  unfolding inactive_of
  inactive_of-append [] ns = refl
  inactive_of-append (m ∷ ms) ns =
      rw (inactive_of-append ms ns) (sym (append_assoc _ (inactive_of ms) (inactive_of ns)))

  extended-append :
      (c : Catalog) (ms ns : List Member) → extended (extended c ms) ns ≡ extended c (ms ++ ns)
  extended-append c ms ns =
      rw
        (
          member_texts-append ms ns,
          active_of-append ms ns,
          inactive_of-append ms ns,
          append_assoc c.zone_file (member_texts ms) (member_texts ns),
          append_assoc c.active_zones (active_of ms) (active_of ns),
          append_assoc c.inactive_zones (inactive_of ms) (inactive_of ns),
        )
        refl

  -- The catalog behind one member.
  abbrev member_of : Bytes → E.Label → Bytes → Result (Option U.User) → Member
  member_of id root group owner = record {
    id = id;
    name = T.str_label root;
    group = group;
    owner = owner;
  }

  member_lines-text :
      (id : Bytes) (root : E.Label) (group : Bytes) (owner : Result (Option U.User))
      → member_text id (T.str_label root) group ≡ member_lines (member_of id root group owner)
  unfolding member_text member_lines concat
  member_lines-text id root group owner = simp append_assoc

  list_zone-extended :
      (id : Bytes) (root : E.Label) (group : Bytes) (owner : Result (Option U.User)) (c : Catalog)
      → list_zone id root group (get_user owner) c ≡ extended c (member_of id root group owner ∷ [])
  unfolding list_zone get_user is_active member_texts active_of inactive_of active_owner
  list_zone-extended id root group (err e) c =
      rw (append-nil c.zone_file, append-nil c.active_zones) refl
  list_zone-extended id root group (ok none) c =
      rw (append-nil c.zone_file, append-nil c.active_zones) refl
  list_zone-extended id root group (ok (some user)) c =
      elim (Option-cases (U.subscription_active user)) [
        | inl no_account ↦
            rw (no_account, is_active, active_owner)
              (rw (append-nil c.zone_file, append-nil c.active_zones) refl)
        | inr (active, answered) ↦ elim (Bool-cases active) [
          | inl is_so ↦
              rw (answered, is_active, active_owner)
                (rw is_so (
                  rw
                    (
                      member_lines-text id root group (ok (some user)),
                      append-nil (member_lines (member_of id root group (ok (some user)))),
                      append-nil c.inactive_zones,
                    )
                    refl))
          | inr not_so ↦
              rw (answered, is_active, active_owner)
                (rw not_so (rw (append-nil c.zone_file, append-nil c.active_zones) refl))
        ]
      ]

  named_members-extended :
      (loop : List (CatalogZone Bytes) → Catalog → Catalog) (group : Bool → Bytes)
      → ((c : Catalog) → loop [] c ≡ c)
      → ((z : CatalogZone Bytes) (zs : List (CatalogZone Bytes)) (c : Catalog)
          → loop (z ∷ zs) c
            ≡ loop zs (
                if is_zone_name z.zone_root
                then list_zone z.id
                    (E.of_str z.zone_root)
                    (group z.cds_disable)
                    (get_user z.owner)
                    c
                else c))
      → (zones : List (CatalogZone Bytes)) (c : Catalog)
      → loop zones c ≡ extended c (named_members group zones)
  unfolding named_members
  named_members-extended loop group stop step [] c = stop c ∙ sym (extended-nil c)
  named_members-extended loop group stop step (z ∷ zs) c =
      step z zs c ∙ elim (Bool-cases (is_name z.zone_root)) [
        | inl named ↦
            rw
              (
                is_zone_name-name z.zone_root,
                named,
                list_zone-extended z.id (E.of_str z.zone_root) (group z.cds_disable) z.owner c,
              )
              (named_members-extended loop group stop step zs _ ∙ extended-append c _ _)
        | inr other ↦
            rw (is_zone_name-name z.zone_root, other)
              (named_members-extended loop group stop step zs c)
      ]

  reverse_members-extended :
      (zones : List (CatalogZone Network)) (c : Catalog)
      → list_rzones zones c ≡ extended c (reverse_members zones)
  unfolding list_rzones reverse_members
  reverse_members-extended [] c = sym (extended-nil c)
  reverse_members-extended (z ∷ zs) c =
      rw (list_zone-extended z.id (network_to_apra z.zone_root) (group_of z.cds_disable) z.owner c)
        (reverse_members-extended zs _ ∙ extended-append c _ _)

  -- The zones that the catalog decides on: the forward and secondary ones whose root is a name, and
  -- all reverse ones.
  unfoldable pub all_members :
      List (CatalogZone Bytes) → List (CatalogZone Network) → List (CatalogZone Bytes) → List Member
  unfolding named_members reverse_members
  all_members fzones rzones szones =
      named_members group_of fzones
      ++ (reverse_members rzones ++ named_members (λ cds_disable. codes "zone-secondary") szones)

  -- Listed are the forward zones, the reverse zones and the secondary zones, in this order, but for the
  -- forward and secondary ones whose root is no zone name (letters, digits, dashes and dots, and
  -- perhaps a newline behind them), which are in no list. Behind its preamble the catalog has the two
  -- lines of each listed zone whose owner could be told, has an account and an active subscription,
  -- and no other; these are reported as active with their owners, and the other listed zones as
  -- inactive.
  pub update_catalog-members :
      (fzones : List (CatalogZone Bytes)) (rzones : List (CatalogZone Network))
      (szones : List (CatalogZone Bytes))
      → update_catalog fzones rzones szones ≡ record {
        zone_file = preamble ++ member_texts (all_members fzones rzones szones);
        active_zones = active_of (all_members fzones rzones szones);
        inactive_zones = inactive_of (all_members fzones rzones szones);
      }
  unfolding update_catalog all_members list_fzones list_szones
  update_catalog-members fzones rzones szones =
      let none_yet : Catalog = record {
        zone_file = preamble;
        active_zones = [];
        inactive_zones = [];
      } in
      let forward = named_members group_of fzones in
      let backward = reverse_members rzones in
      let last =
        named_members-extended list_szones (λ cds_disable. codes "zone-secondary") (λ c. refl)
          (λ z zs c. refl) szones (list_rzones rzones (list_fzones fzones none_yet)) in
      last
      ∙ ap (λ c. extended c (named_members (λ cds_disable. codes "zone-secondary") szones))
          (reverse_members-extended rzones (list_fzones fzones none_yet)
            ∙ ap (λ c. extended c backward)
                (named_members-extended list_fzones group_of (λ c. refl) (λ z zs c. refl) fzones
                  none_yet)
            ∙ extended-append none_yet forward backward)
      ∙ extended-append none_yet (forward ++ backward) _
      ∙ ap (λ ms. extended none_yet ms) (append_assoc forward backward _)
