-- ===== src/Dns/AnyRecords/Standing.antt =====
-- What any_records and any_record_type tell of the rows of the tables.
use mathlib.Core.List.{Memᴰ}
use mathlib.Core.List.Memᴰ
use hexdns.Common.{
  ℕ, Bool, true, false, ◌&&◌, ◌||◌, ◌==◌, ==_iff, if◌then◌else◌, List, [], ◌∷◌, Bytes, bytes_eq,
  bytes_eq_iff, pos, eqℤ, ◌≡◌, refl, ◌↔◌, ◌⊎◌, inl, inr,
}
use hexdns.Dns.External.{External}
use hexdns.Dns.Find.{
  at_name, nonempty, search_name, wildcard_search_name, find_records, parse_https_record_name,
}
use hexdns.Dns.Find.Rows.{IsAt, at_name-IsAt, at_name_of_IsAt, nonempty_of_mem, mem_of_nonempty}
use hexdns.Dns.Message.{Ip, v4, v6}
use hexdns.Dns.Qtype
use hexdns.Dns.Store.{Row, Zone, Db, Https}
use hexdns.Dns.AnyRecords.{
  any_in, any_https, any_records, has_record, any_address, has_https, any_record_type,
}

or_iff : {a b : Bool} {A B : Type 0} → (a ≡ true) ↔ A → (b ≡ true) ↔ B → ((a || b) ≡ true) ↔ (A ⊎ B)
or_iff {a = true} h g = (λ e. inl (h.0 refl), λ x. refl)
or_iff {a = false} h g = (λ e. inr (g.0 e), λ x. elim x [ inl a ↦ cc (h.1 a) | inr b ↦ g.1 b ])

and_iff :
    {a b : Bool} {A B : Type 0} → (a ≡ true) ↔ A → (b ≡ true) ↔ B → ((a && b) ≡ true) ↔ (A × B)
and_iff {a = true} h g = (λ e. (h.0 refl, g.0 e), λ x. g.1 x.1)
and_iff {a = false} h g = (λ e. cc e, λ x. h.1 x.0)

-- The one where the condition holds, the other where it does not.
abbrev pub InCase : Type 0 → Type 0 → Type 0 → Type 0
InCase C X Y = (C × X) ⊎ ((C → ⊥) × Y)

if_iff :
    {c x y : Bool} {C X Y : Type 0}
    → (c ≡ true) ↔ C
    → (x ≡ true) ↔ X
    → (y ≡ true) ↔ Y
    → ((if c then x else y) ≡ true) ↔ InCase C X Y
if_iff {c = true} h g k = (
  λ e. inl (h.0 refl, g.0 e),
  λ s. elim s [ inl (c, x) ↦ g.1 x | inr (not_, y) ↦ absurd (not_ (h.0 refl)) ],
)
if_iff {c = false} h g k = (
  λ e. inr (λ c. cc (h.1 c), k.0 e),
  λ s. elim s [ inl (c, x) ↦ cc (h.1 c) | inr (not_, y) ↦ k.1 y ],
)

false_iff : (false ≡ true) ↔ ⊥
false_iff = (λ e. cc e, λ x. absurd x)

pub iff_not : {b : Bool} {A : Type 0} → (b ≡ true) ↔ A → (b ≡ false) ↔ (A → ⊥)
iff_not {b = true} h = (λ e. cc e, λ not_. absurd (not_ (h.0 refl)))
iff_not {b = false} h = (λ e a. cc (h.1 a), λ not_. refl)

module _ ⦃E : External⦄ where
  filter_iff :
      (A : Type 0) (p : A → Bool) (rows : List A)
      → (nonempty (E.filter A p rows) ≡ true) ↔ ((x : A) × Memᴰ x rows × (p x ≡ true))
  filter_iff A p rows = (
    λ h.
        let (x, m) = mem_of_nonempty (E.filter A p rows) h in
        let (t, e) = E.mem_of_mem-filter A p rows x m in (x, t, e),
    λ h. nonempty_of_mem (E.filter A p rows) (E.mem-filter_of_mem A p rows h.0 h.1 h.2),
  )

  -- The row belongs to the zone and has one of two names.
  pub record IsAtEither {D : Type 0} (name wildcard : Bytes) (zone : Zone) (r : Row D)
      : Type 0 where
    pub owned : r.zone ≡ zone.id
    pub named : (r.record_name ≡ name) ⊎ (r.record_name ≡ wildcard)

  -- The table has a row of the zone at the name, or at the wildcard in place of its first label.
  abbrev pub RowOf : {D : Type 0} → List (Row D) → E.Label → Zone → Type 0
  RowOf {D} table rname zone =
      (r : Row D) × Memᴰ r table
      × IsAtEither (search_name rname) (wildcard_search_name rname) zone r

  either_iff :
      {D : Type 0} (name wildcard : Bytes) (r : Row D)
      → ((bytes_eq r.record_name name || bytes_eq r.record_name wildcard) ≡ true)
        ↔ ((r.record_name ≡ name) ⊎ (r.record_name ≡ wildcard))
  either_iff name wildcard r =
      or_iff (bytes_eq_iff r.record_name name) (bytes_eq_iff r.record_name wildcard)

  any_in_iff :
      {D : Type 0} (table : List (Row D)) (rname : E.Label) (zone : Zone)
      → (any_in table zone (search_name rname) (wildcard_search_name rname) ≡ true)
        ↔ RowOf table rname zone
  unfolding any_in
  any_in_iff {D} table rname zone =
      let name = search_name rname in
      let wildcard = wildcard_search_name rname in
      let in_zone = λ (r : Row D). r.zone == zone.id in
      let named = λ (r : Row D). bytes_eq r.record_name name || bytes_eq r.record_name wildcard in
      let both = filter_iff (Row D) named (E.filter (Row D) in_zone table) in
      (
        λ h.
            let (r, m, n) = both.0 h in
            let (t, z) = E.mem_of_mem-filter (Row D) in_zone table r m in
            (
              r,
              t,
              record {
                owned = (==_iff r.zone zone.id).0 z;
                named = (either_iff name wildcard r).0 n;
              },
            ),
        λ h.
            let (r, t, at) = h in
            both.1 (
              r,
              E.mem-filter_of_mem (Row D) in_zone table r t ((==_iff r.zone zone.id).1 at.owned),
              (either_iff name wildcard r).1 at.named,
            ),
      )

  -- The HTTPS table has such a row, with the port and the scheme that the name gives.
  abbrev pub HttpsOf : Db → E.Label → Zone → Type 0
  HttpsOf db rname zone =
      let (port, scheme, name) = parse_https_record_name rname in
      (r : Row Https) × Memᴰ r db.https
      × IsAtEither (search_name name) (wildcard_search_name name) zone r
      × ((r.body.scheme ≡ scheme) × (eqℤ (pos r.body.port) port ≡ true))

  any_https_iff :
      (db : Db) (rname : E.Label) (zone : Zone)
      → (any_https db rname zone ≡ true) ↔ HttpsOf db rname zone
  unfolding any_https
  any_https_iff db rname zone =
      let (port, scheme, label) = parse_https_record_name rname in
      let name = search_name label in
      let wildcard = wildcard_search_name label in
      let in_zone = λ (r : Row Https). r.zone == zone.id in
      let named =
        λ (r : Row Https). bytes_eq r.record_name name || bytes_eq r.record_name wildcard in
      let served = λ (r : Row Https). bytes_eq r.body.scheme scheme && eqℤ (pos r.body.port) port in
      let in_rows = E.filter (Row Https) in_zone db.https in
      let both = filter_iff (Row Https) served (E.filter (Row Https) named in_rows) in
      let split = λ (r : Row Https).
        and_iff (bytes_eq_iff r.body.scheme scheme)
          (λ (h : eqℤ (pos r.body.port) port ≡ true). h, λ h. h) in
      (
        λ h.
            let (r, m, s) = both.0 h in
            let (k, n) = E.mem_of_mem-filter (Row Https) named in_rows r m in
            let (t, z) = E.mem_of_mem-filter (Row Https) in_zone db.https r k in
            (
              r,
              t,
              record {
                owned = (==_iff r.zone zone.id).0 z;
                named = (either_iff name wildcard r).0 n;
              },
              (split r).0 s,
            ),
        λ h.
            let (r, t, at, s) = h in
            both.1 (
              r,
              E.mem-filter_of_mem (Row Https) named in_rows r
                  (E.mem-filter_of_mem (Row Https) in_zone db.https r t
                    ((==_iff r.zone zone.id).1 at.owned))
                  ((either_iff name wildcard r).1 at.named),
              (split r).1 s,
            ),
      )

  -- Some table but that of the DHCID records has a row at the name or its wildcard.
  unfoldable pub NameInUse : Db → E.Label → Zone → Type 0
  NameInUse db rname zone =
      ((((((((((((((((RowOf db.address rname zone) ⊎ RowOf db.dynamic rname zone)
                                  ⊎ RowOf db.cname rname zone)
                                ⊎ RowOf db.redirect rname zone)
                              ⊎ RowOf db.mx rname zone)
                            ⊎ RowOf db.ns rname zone)
                          ⊎ RowOf db.txt rname zone)
                        ⊎ RowOf db.srv rname zone)
                      ⊎ RowOf db.caa rname zone)
                    ⊎ RowOf db.naptr rname zone)
                  ⊎ RowOf db.sshfp rname zone)
                ⊎ RowOf db.ds rname zone)
              ⊎ RowOf db.aname rname zone)
            ⊎ RowOf db.loc rname zone)
          ⊎ RowOf db.hinfo rname zone)
        ⊎ RowOf db.rp rname zone)
      ⊎ HttpsOf db rname zone

  pub any_records_iff :
      (db : Db) (rname : E.Label) (zone : Zone)
      → (any_records db rname zone true ≡ true) ↔ NameInUse db rname zone
  unfolding any_records NameInUse
  any_records_iff db rname zone =
      or_iff
        (or_iff
          (or_iff
            (or_iff
              (or_iff
                (or_iff
                  (or_iff
                    (or_iff
                      (or_iff
                        (or_iff
                          (or_iff
                            (or_iff
                              (or_iff
                                (or_iff
                                  (or_iff
                                    (or_iff (any_in_iff db.address rname zone)
                                      (any_in_iff db.dynamic rname zone))
                                    (any_in_iff db.cname rname zone))
                                  (any_in_iff db.redirect rname zone))
                                (any_in_iff db.mx rname zone))
                              (any_in_iff db.ns rname zone))
                            (any_in_iff db.txt rname zone))
                          (any_in_iff db.srv rname zone))
                        (any_in_iff db.caa rname zone))
                      (any_in_iff db.naptr rname zone))
                    (any_in_iff db.sshfp rname zone))
                  (any_in_iff db.ds rname zone))
                (any_in_iff db.aname rname zone))
              (any_in_iff db.loc rname zone))
            (any_in_iff db.hinfo rname zone))
          (any_in_iff db.rp rname zone))
        (any_https_iff db rname zone)

  -- The table has a row of the zone at exactly the name.
  abbrev pub RowAt : {D : Type 0} → List (Row D) → E.Label → Zone → Type 0
  RowAt {D} table rname zone = (r : Row D) × Memᴰ r table × IsAt (search_name rname) zone r

  has_record_iff :
      {D : Type 0} (table : List (Row D)) (rname : E.Label) (zone : Zone)
      → (has_record table rname zone ≡ true) ↔ RowAt table rname zone
  unfolding has_record
  has_record_iff {D} table rname zone =
      let both = filter_iff (Row D) (at_name (search_name rname) zone) table in
      (
        λ h. let (r, m, at) = both.0 h in (r, m, at_name-IsAt (search_name rname) zone r at),
        λ h. let (r, m, at) = h in both.1 (r, m, at_name_of_IsAt (search_name rname) zone r at),
      )

  abbrev pub HttpsAt : Db → E.Label → Zone → Type 0
  HttpsAt db rname zone =
      let (port, scheme, name) = parse_https_record_name rname in
      (r : Row Https) × Memᴰ r db.https
      × ((IsAt (search_name name) zone r × (r.body.scheme ≡ scheme))
          × (eqℤ (pos r.body.port) port ≡ true))

  has_https_iff :
      (db : Db) (rname : E.Label) (zone : Zone)
      → (has_https db rname zone ≡ true) ↔ HttpsAt db rname zone
  unfolding has_https
  has_https_iff db rname zone =
      let (port, scheme, label) = parse_https_record_name rname in
      let name = search_name label in
      let split = λ (r : Row Https).
        and_iff
          (and_iff (at_name-IsAt name zone r, at_name_of_IsAt name zone r)
            (bytes_eq_iff r.body.scheme scheme))
          (λ (h : eqℤ (pos r.body.port) port ≡ true). h, λ h. h) in
      let both = filter_iff (Row Https) _ db.https in
      (
        λ h. let (r, m, s) = both.0 h in (r, m, (split r).0 s),
        λ h. let (r, m, s) = h in both.1 (r, m, (split r).1 s),
      )

  -- An address of the family that the type asks for.
  abbrev pub IsFamily : ℕ → Ip → Type 0
  IsFamily rtype (v4 text) = rtype ≡ Qtype.a
  IsFamily rtype (v6 text) = rtype ≡ Qtype.aaaa

  abbrev pub AddressAmong : ℕ → List (Row Ip) → Type 0
  AddressAmong rtype found = (r : Row Ip) × Memᴰ r found × IsFamily rtype r.body

  IsFamily-iff :
      (rtype : ℕ) (ip : Ip)
      → ((elim ip as (λ x. Bool) [ v4 text ↦ rtype == Qtype.a | v6 text ↦ rtype == Qtype.aaaa ])
          ≡ true)
        ↔ IsFamily rtype ip
  IsFamily-iff rtype (v4 text) = ==_iff rtype Qtype.a
  IsFamily-iff rtype (v6 text) = ==_iff rtype Qtype.aaaa

  any_address_iff :
      (rtype : ℕ) (found : List (Row Ip))
      → (any_address rtype found ≡ true) ↔ AddressAmong rtype found
  unfolding any_address
  any_address_iff rtype [] = (λ e. cc e, λ h. absurd (Memᴰ.not-nil h.1))
  any_address_iff rtype (r ∷ rs) =
      let both = or_iff (IsFamily-iff rtype r.body) (any_address_iff rtype rs) in
      (
        λ h. elim (both.0 h) [
          | inl family ↦ (r, Memᴰ.head refl, family)
          | inr (x, m, family) ↦ (x, Memᴰ.tail m, family)
        ],
        λ h. let (x, m, family) = h in both.1 (among x m family),
      )
    where
      among :
          (x : Row Ip)
          → Memᴰ x (r ∷ rs)
          → IsFamily rtype x.body
          → IsFamily rtype r.body ⊎ AddressAmong rtype rs
      among x (Memᴰ.head e) family = inl (rw (← e) family)
      among x (Memᴰ.tail m) family = inr (x, m, family)

  -- There is a row of the type at the name: of an address table the rows that find_records gives, with
  -- the wildcard's where the name has none; of the others those at exactly the name. DHCID and all
  -- other types have none.
  unfoldable pub TypeInUse : Db → E.Label → Zone → ℕ → Type 0
  TypeInUse db rname zone rtype =
      InCase ((rtype ≡ Qtype.a) ⊎ (rtype ≡ Qtype.aaaa))
        (AddressAmong rtype (find_records db.address rname zone))
        (InCase (rtype ≡ Qtype.mx) (RowAt db.mx rname zone) (
          InCase (rtype ≡ Qtype.ns) (RowAt db.ns rname zone) (
            InCase (rtype ≡ Qtype.txt) (RowAt db.txt rname zone) (
              InCase (rtype ≡ Qtype.srv) (RowAt db.srv rname zone) (
                InCase (rtype ≡ Qtype.caa) (RowAt db.caa rname zone) (
                  InCase (rtype ≡ Qtype.naptr) (RowAt db.naptr rname zone) (
                    InCase (rtype ≡ Qtype.sshfp) (RowAt db.sshfp rname zone) (
                      InCase (rtype ≡ Qtype.ds) (RowAt db.ds rname zone) (
                        InCase (rtype ≡ Qtype.loc) (RowAt db.loc rname zone) (
                          InCase (rtype ≡ Qtype.hinfo) (RowAt db.hinfo rname zone) (
                            InCase (rtype ≡ Qtype.rp) (RowAt db.rp rname zone) (
                              InCase (rtype ≡ Qtype.https) (HttpsAt db rname zone) (
                                InCase (rtype ≡ Qtype.cname) (RowAt db.cname rname zone)
                                  (⊥))))))))))))))

  pub any_record_type_iff :
      (db : Db) (rname : E.Label) (zone : Zone) (rtype : ℕ)
      → (any_record_type db rname zone rtype ≡ true) ↔ TypeInUse db rname zone rtype
  unfolding any_record_type TypeInUse
  any_record_type_iff db rname zone rtype =
      if_iff (or_iff (==_iff rtype Qtype.a) (==_iff rtype Qtype.aaaa))
        (any_address_iff rtype (find_records db.address rname zone))
        (if_iff (==_iff rtype Qtype.mx) (has_record_iff db.mx rname zone) (
          if_iff (==_iff rtype Qtype.ns) (has_record_iff db.ns rname zone) (
            if_iff (==_iff rtype Qtype.txt) (has_record_iff db.txt rname zone) (
              if_iff (==_iff rtype Qtype.srv) (has_record_iff db.srv rname zone) (
                if_iff (==_iff rtype Qtype.caa) (has_record_iff db.caa rname zone) (
                  if_iff (==_iff rtype Qtype.naptr) (has_record_iff db.naptr rname zone) (
                    if_iff (==_iff rtype Qtype.sshfp) (has_record_iff db.sshfp rname zone) (
                      if_iff (==_iff rtype Qtype.ds) (has_record_iff db.ds rname zone) (
                        if_iff (==_iff rtype Qtype.loc) (has_record_iff db.loc rname zone) (
                          if_iff (==_iff rtype Qtype.hinfo) (has_record_iff db.hinfo rname zone) (
                            if_iff (==_iff rtype Qtype.rp) (has_record_iff db.rp rname zone) (
                              if_iff (==_iff rtype Qtype.https) (has_https_iff db rname zone) (
                                if_iff (==_iff rtype Qtype.cname)
                                  (has_record_iff db.cname rname zone) (false_iff))))))))))))))
