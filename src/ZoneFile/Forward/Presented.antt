-- ===== src/ZoneFile/Forward/Presented.antt =====
-- The records of the `to_rr` methods in the format of zone files.
use hexdns.Common.{
  ℕ, ◌==◌, ◌≡◌, refl, sym, ◌∙◌, ap, List, [], ◌∷◌, ◌++◌, append_assoc, append-nil, Bytes, codes,
  if◌then◌else◌,
}
use hexdns.Dns.External.{External}
use hexdns.Dns.Qtype
use hexdns.Dns.Message.{
  Rdata, a_rd, aaaa_rd, ns_rd, mx_rd, srv_rd, caa_rd, naptr_rd, sshfp_rd, rp_rd, Rr,
}
use hexdns.ZoneFile.Strings.{show}
use hexdns.ZoneFile.Lines.{Texts, rr_line, words, quoted, hex}
use hexdns.ZoneFile.Records.{label_text}

-- The text stands in the other.
pub Infix : Bytes → Bytes → Type 0
Infix part whole = (before : Bytes) × (after : Bytes) × (whole ≡ before ++ (part ++ after))

pub Infix-left : (part a b : Bytes) → Infix part a → Infix part (a ++ b)
unfolding Infix
Infix-left part a b (before, after, e) = (
  before,
  after ++ b,
  rw e (append_assoc before (part ++ after) b ∙ ap (λ t. before ++ t) (append_assoc part after b)),
)

pub Infix-right : (part a b : Bytes) → Infix part b → Infix part (a ++ b)
unfolding Infix
Infix-right part a b (before, after, e) =
    (a ++ before, after, rw e (sym (append_assoc a before (part ++ after))))

pub Infix-tail : (part first : Bytes) → Infix part (first ++ part)
unfolding Infix
Infix-tail part first = (first, [], ap (λ t. first ++ t) (sym (append-nil part)))

-- The presentation format of the types of record below (RFC 1035, section 5, and the RFCs of the
-- types).
unfoldable pub type_name : ℕ → Bytes
type_name t =
    if t == Qtype.a
    then codes "A"
    else if t == Qtype.aaaa
    then codes "AAAA"
    else if t == Qtype.ns
    then codes "NS"
    else if t == Qtype.mx
    then codes "MX"
    else if t == Qtype.srv
    then codes "SRV"
    else if t == Qtype.caa
    then codes "CAA"
    else if t == Qtype.naptr
    then codes "NAPTR"
    else if t == Qtype.sshfp
    then codes "SSHFP"
    else if t == Qtype.rp
    then codes "RP"
    else []

module _ ⦃E : External⦄ ⦃T : Texts⦄ where
  unfoldable pub present : Rdata → Bytes
  unfolding words show quoted hex
  present (a_rd text) = text
  present (aaaa_rd text) = text
  present (ns_rd name) = label_text name
  present (mx_rd name preference) = words (show preference ∷ label_text name ∷ [])
  present (srv_rd priority weight port target) =
      words (show priority ∷ show weight ∷ show port ∷ label_text target ∷ [])
  present (caa_rd flag tag value) = words (show flag ∷ quoted tag ∷ quoted value ∷ [])
  present (naptr_rd order preference flags service regexp replacement) = words (
      show order
      ∷ show preference
      ∷ quoted flags
      ∷ quoted service
      ∷ quoted regexp
      ∷ label_text replacement
      ∷ [])
  present (sshfp_rd algorithm type digest) = words (show algorithm ∷ show type ∷ hex digest ∷ [])
  present (rp_rd mailbox txt) = words (label_text mailbox ∷ label_text txt ∷ [])
  present _ = []

  -- The lines of the records, under the name that the zone file gives them.
  unfoldable pub presented : Bytes → List Rr → Bytes
  unfolding rr_line type_name present
  presented name [] = []
  presented name (rr ∷ rrs) =
      rr_line name rr.ttl (type_name rr.rtype) (present rr.rdata) ++ presented name rrs

  pub none-Infix : (name : Bytes) → Infix (presented name []) []
  unfolding presented Infix
  none-Infix name = ([], [], refl)
