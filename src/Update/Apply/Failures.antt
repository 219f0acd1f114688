-- ===== src/Update/Apply/Failures.antt =====
-- Additions that no key can make, for the way in which `from_rr` reads the data.
use hexdns.Common.{
  ◌≡◌, refl, inl, inr, Bool, true, false, ◌∷◌, Bytes, some, Result, ok, err, Exc, type_error,
  attribute_error, Option-cases, if◌then◌else◌, ℕ,
}
use hexdns.Dns.External.{External}
use hexdns.Dns.Qtype
use hexdns.Dns.Rcode
use hexdns.Dns.Message.{Rdata, rd, a_rd}
use hexdns.Dns.Store.{Zone}
use hexdns.Update.Request.{Key, UpdateRr, Wire}
use hexdns.Update.Tables.{Store}
use hexdns.Update.Kinds.{kind_of, new_body, from_data, loc_data, ds_data, unpack_ds}
use hexdns.Update.Apply.{
  Applied, refused, add_record, apply_add, can_manage, check_managed, or_raise,
}
use hexdns.Update.Handler.Gate.{Rejected}

-- The record is a LOC record, or a DS record with a digest.
pub data IsUnreadable ⦃E : External⦄ (rr : UpdateRr) : Type 0 where
  location : rr.rtype ≡ Qtype.loc → IsUnreadable rr
  digested :
      (a b c d e : ℕ) (digest : Bytes)
      → rr.rtype ≡ Qtype.ds
      → rr.rdata ≡ some (rd (a ∷ b ∷ c ∷ d ∷ e ∷ digest))
      → IsUnreadable rr

loc_data-err : (content : Rdata) → (e : Exc) × (loc_data content ≡ err e)
unfolding loc_data
loc_data-err (rd content) = (type_error, refl)
loc_data-err (a_rd t) = (attribute_error, refl)
loc_data-err _ = (attribute_error, refl)

module _ ⦃E : External⦄ ⦃W : Wire⦄ where
  check_managed-Rejected :
      (key : Key) (rtype : ℕ) (name : E.Label) (s : Store) (next : Store → Applied)
      → Rejected s (next s)
      → Rejected s (check_managed key rtype name s next)
  unfolding check_managed
  check_managed-Rejected key rtype name s next h = cases (can_manage key rtype name)
    where
      cases :
          (m : Result Bool)
          → Rejected s (or_raise m s λ managed. if managed then next s else refused Rcode.notauth s)
      cases (ok true) = h
      cases (ok false) = refl
      cases (err e) = refl

  -- No LOC record can be added, whatever its data, and no DS record whose data goes on behind the
  -- four bytes before the digest: whatever the key, the handler goes out by a refusal or an
  -- exception, and writes nothing.
  pub apply_add-Rejected :
      (key : Key) (zone : Zone) (name : E.Label) (rr : UpdateRr) (s : Store)
      → IsUnreadable rr
      → Rejected s (apply_add key zone name rr s)
  unfolding apply_add add_record kind_of new_body from_data ds_data unpack_ds
  apply_add-Rejected key zone name rr s h =
      check_managed-Rejected key rr.rtype name s (add_record zone name rr) elim h [
        | location t ↦ elim (Option-cases rr.rdata) [
          | inl missing ↦ rw (t, missing) refl
          | inr (content, has) ↦ rw (t, has, (loc_data-err content).1) refl
        ]
        | digested a b c d e digest t content ↦ rw (t, content) refl
      ]
