-- ===== src/Dns/Find/Zones.antt =====
-- `find_zone` picks the most specific zone that holds the name.
use hexdns.Common.{
  ap, ℕ, ◌≤◌, true, false, ◌≡◌, refl, ◌∙◌, ◌⊎◌, inl, inr, List, [], ◌∷◌, length, All, Option, none,
  some, Bool-cases, Option-cases,
}
use mathlib.Core.List.{not-mem-nil, Mem, Perm}
use mathlib.Core.List.{mem-cons, mem-cons_self}
use mathlib.Core.List.Perm
use mathlib.Core.Logic.Or
use native.Mathlib.Bridge.{le_prop}
use hexdns.Common.{arith}
use hexdns.Dns.External.{External, Descends}
use hexdns.Dns.Find.{name_within, zone_match, find_zone_in, find_zone}
use hexdns.Dns.Store.{Zone, Db}

module _ ⦃E : External⦄ where
  abbrev pub Holds : E.Label → Zone → Type 0
  Holds qname z = E.match_suffix qname (E.of_str z.zone_root) ≡ true

  -- The account of the zone is active, or cannot be asked.
  abbrev pub IsActive : Zone → Type 0
  IsActive z = (E.subscription_active z.id ≡ some true) ⊎ (E.subscription_active z.id ≡ none)

  -- `z` is in the list and holds the name, and no zone of the list that holds it has a longer root.
  pub record IsLongest (qname : E.Label) (zones : List Zone) (z : Zone) : Type 0 where
    pub listed : Mem z zones
    pub holds : Holds qname z
    pub longest : (w : Zone) → Mem w zones → Holds qname w → length w.zone_root ≤ length z.zone_root

  -- What `find_zone` comes to, by the zones that hold the name.
  pub data Found (qname : E.Label) (zones : List Zone) : Option (Zone × E.Label) → Type 0 where
    no_zone :
        ((w : Zone) → Mem w zones → E.match_suffix qname (E.of_str w.zone_root) ≡ false)
        → Found qname zones none
    inactive :
        (z : Zone)
        → IsLongest qname zones z
        → E.subscription_active z.id ≡ some false
        → Found qname zones none
    found :
        (z : Zone) (n : E.Label)
        → IsLongest qname zones z
        → IsActive z
        → n ≡ name_within qname (E.of_str z.zone_root)
        → Found qname zones (some (z, n))

  data Matched (qname : E.Label) (z : Zone) : Option (Option (Zone × E.Label)) → Type 0 where
    passed : E.match_suffix qname (E.of_str z.zone_root) ≡ false → Matched qname z none
    closed : Holds qname z → E.subscription_active z.id ≡ some false → Matched qname z (some none)
    open_zone :
        (n : E.Label)
        → Holds qname z
        → IsActive z
        → n ≡ name_within qname (E.of_str z.zone_root)
        → Matched qname z (some (some (z, n)))

  zone_match-Matched : (qname : E.Label) (z : Zone) → Matched qname z (zone_match qname z)
  unfolding zone_match
  zone_match-Matched qname z = elim (Bool-cases (E.match_suffix qname (E.of_str z.zone_root))) [
    | inr other ↦ rw (other, zone_match) (passed other)
    | inl holds ↦ elim (Option-cases (E.subscription_active z.id)) [
      | inl unknown ↦
          rw (holds, zone_match) (rw (unknown, zone_match) (open_zone _ holds (inr unknown) refl))
      | inr (b, known) ↦ elim (Bool-cases b) [
        | inl yes_ ↦
            rw (holds, zone_match)
              (rw (known ∙ ap some yes_, zone_match)
                (open_zone _ holds (inl (known ∙ ap some yes_)) refl))
        | inr no_ ↦
            rw (holds, zone_match)
              (rw (known ∙ ap some no_, zone_match) (closed holds (known ∙ ap some no_)))
      ]
    ]
  ]

  All-le_of_mem :
      (n : ℕ) (zones : List Zone) (w : Zone)
      → All (λ (v : Zone). length v.zone_root ≤ n) zones
      → Mem w zones
      → length w.zone_root ≤ n
  All-le_of_mem n [] w a m = absurd (not-mem-nil m)
  All-le_of_mem n (v ∷ zones) w a m =
      Or.elim le_prop (mem-cons.0 m) (λ e. rw e a.0) (All-le_of_mem n zones w a.1)

  IsLongest-head :
      (qname : E.Label) (z : Zone) (zones : List Zone)
      → Holds qname z
      → All (λ (w : Zone). length w.zone_root ≤ length z.zone_root) zones
      → IsLongest qname (z ∷ zones) z
  IsLongest-head qname z zones h a = record {
    listed = mem-cons_self;
    holds = h;
    longest = λ w m _. All-le_of_mem (length z.zone_root) (z ∷ zones) w (omega arith, a) m;
  }

  IsLongest-cons :
      (qname : E.Label) (v z : Zone) (zones : List Zone)
      → E.match_suffix qname (E.of_str v.zone_root) ≡ false
      → IsLongest qname zones z
      → IsLongest qname (v ∷ zones) z
  IsLongest-cons qname v z zones h l = record {
    listed = mem-cons.1 (Or.inr l.listed);
    holds = l.holds;
    longest = λ w m k.
        Or.elim le_prop (mem-cons.0 m) (λ e. absurd (cc (rw e at k))) (λ t. l.longest w t k);
  }

  Found-cons :
      (qname : E.Label) (v : Zone) (zones : List Zone) {r : Option (Zone × E.Label)}
      → E.match_suffix qname (E.of_str v.zone_root) ≡ false
      → Found qname zones r
      → Found qname (v ∷ zones) r
  Found-cons qname v zones h (no_zone all) =
      no_zone (λ w m. Or.elim (hlevel) (mem-cons.0 m) (λ e. rw e h) (all w))
  Found-cons qname v zones h (inactive z l a) = inactive z (IsLongest-cons qname v z zones h l) a
  Found-cons qname v zones h (found z n l a e) = found z n (IsLongest-cons qname v z zones h l) a e

  find_zone_in-step :
      (qname : E.Label) (z : Zone) (zones : List Zone) {m : Option (Option (Zone × E.Label))}
      → All (λ (w : Zone). length w.zone_root ≤ length z.zone_root) zones
      → Matched qname z m
      → zone_match qname z ≡ m
      → Found qname zones (find_zone_in qname zones)
      → Found qname (z ∷ zones) (find_zone_in qname (z ∷ zones))
  unfolding find_zone_in
  find_zone_in-step qname z zones a (passed other) e f =
      rw (e, find_zone_in) (Found-cons qname z zones other f)
  find_zone_in-step qname z zones a (closed holds off) e f =
      rw (e, find_zone_in) (inactive z (IsLongest-head qname z zones holds a) off)
  find_zone_in-step qname z zones a (open_zone n holds on same) e f =
      rw (e, find_zone_in) (found z n (IsLongest-head qname z zones holds a) on same)

  find_zone_in-Found :
      (qname : E.Label) (zones : List Zone)
      → Descends (λ (z : Zone). length z.zone_root) zones
      → Found qname zones (find_zone_in qname zones)
  unfolding find_zone_in
  find_zone_in-Found qname [] d = no_zone (λ w m. absurd (not-mem-nil m))
  find_zone_in-Found qname (z ∷ zones) d =
      find_zone_in-step qname z zones d.0 (zone_match-Matched qname z) refl
        (find_zone_in-Found qname zones d.1)

  IsLongest-perm :
      (qname : E.Label) (xs ys : List Zone) (z : Zone)
      → Perm xs ys
      → IsLongest qname xs z
      → IsLongest qname ys z
  IsLongest-perm qname xs ys z p l = record {
    listed = (Perm.mem_iff p).0 l.listed;
    holds = l.holds;
    longest = λ w m. l.longest w ((Perm.mem_iff p).1 m);
  }

  Found-perm :
      (qname : E.Label) (xs ys : List Zone) {r : Option (Zone × E.Label)}
      → Perm xs ys
      → Found qname xs r
      → Found qname ys r
  Found-perm qname xs ys p (no_zone all) = no_zone (λ w m. all w ((Perm.mem_iff p).1 m))
  Found-perm qname xs ys p (inactive z l a) = inactive z (IsLongest-perm qname xs ys z p l) a
  Found-perm qname xs ys p (found z n l a e) = found z n (IsLongest-perm qname xs ys z p l) a e

  -- Among the zones that hold a name `find_zone` decides by one with the longest root: it gives
  -- that zone with the name within it if its account is active or cannot be asked, and nothing if
  -- the account is inactive, even where a shorter zone holds the name too. It gives nothing as well
  -- if no zone holds the name, and in no other case.
  pub find_zone-Found : (db : Db) (qname : E.Label) → Found qname db.zones (find_zone db qname)
  unfolding find_zone
  find_zone-Found db qname =
      Found-perm qname (E.order_by_desc Zone (λ z. length z.zone_root) db.zones) db.zones
        (E.order_by_desc-perm Zone (λ z. length z.zone_root) db.zones)
        (find_zone_in-Found qname (E.order_by_desc Zone (λ z. length z.zone_root) db.zones)
          (E.order_by_desc-Descends Zone (λ z. length z.zone_root) db.zones))
