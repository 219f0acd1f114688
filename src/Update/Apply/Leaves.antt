-- ===== src/Update/Apply/Leaves.antt =====
-- What is true of the tables on each way out of a part of the handler.
use hexdns.Common.{ℕ, Result, ok, err, if_both}
use hexdns.Dns.External.{External}
use hexdns.Update.Request.{Key}
use hexdns.Update.Tables.{Store}
use hexdns.Update.Apply.{
  Applied, done, refused, raised, and_do, or_raise, can_manage, check_managed,
}

-- The tables that are left have the property, on each of the three ways out.
abbrev pub Leaves {ℓ} : (Store → Type ℓ) → Applied → Type ℓ
Leaves P (done s) = P s
Leaves P (refused rcode s) = P s
Leaves P (raised e s) = P s

pub and_do-Leaves :
    {P Q : Store → Type 0} (m : Applied) (next : Store → Applied)
    → Leaves P m
    → ((s : Store) → P s → Q s)
    → ((s : Store) → P s → Leaves Q (next s))
    → Leaves Q (and_do m next)
and_do-Leaves (done s) next h weaken go = go s h
and_do-Leaves (refused rcode s) next h weaken go = weaken s h
and_do-Leaves (raised e s) next h weaken go = weaken s h

pub or_raise-Leaves {ℓ} :
    {A : Type ℓ} (P : Store → Type 0) (m : Result A) (s : Store) (next : A → Applied)
    → P s
    → ((a : A) → Leaves P (next a))
    → Leaves P (or_raise m s next)
or_raise-Leaves P (ok a) s next h go = go a
or_raise-Leaves P (err e) s next h go = h

pub mono-Leaves :
    {P Q : Store → Type 0} (m : Applied) → ((s : Store) → P s → Q s) → Leaves P m → Leaves Q m
mono-Leaves (done s) weaken h = weaken s h
mono-Leaves (refused rcode s) weaken h = weaken s h
mono-Leaves (raised e s) weaken h = weaken s h

module _ ⦃E : External⦄ where
  pub check_managed-Leaves :
      (P : Store → Type 0) (key : Key) (rtype : ℕ) (name : E.Label) (s : Store)
      (next : Store → Applied)
      → P s
      → Leaves P (next s)
      → Leaves P (check_managed key rtype name s next)
  unfolding check_managed
  check_managed-Leaves P key rtype name s next h go =
      or_raise-Leaves P (can_manage key rtype name) s _ h λ managed. if_both (Leaves P) managed go h
