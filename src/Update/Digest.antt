-- ===== src/Update/Digest.antt =====
-- What an update's signature is the digest of: the message or its canonical form, with the variables
-- of the TSIG record (handle_update_query).
use hexdns.Common.{
  ℕ, ◌+◌, Bool, true, ◌||◌, if◌then◌else◌, List, [], ◌∷◌, ◌++◌, map, Bytes, codes, bytes_eq, Option,
  none, some, Result, ok, ◌>>=◌, ◌≡◌, ◌↔◌, ◌<◌, ◌*◌,
}
use hexdns.Dns.External.{External}
use hexdns.Dns.Find.{join_dots}
use hexdns.Tsig.{Outside, Tsig, struct_pack, make_variables}
use hexdns.Tsig.Canon.{Wires, pack_rr_canon}
use hexdns.Update.Request.{class_any, Key, UpdateRr}
use hexdns.Update.Tables.{lower}

-- `OPCODE.UPDATE`
abbrev pub opcode_update : ℕ
opcode_update = 5

-- A row of `DNSZoneUpdateSecrets` with its secret.
pub record Secret : Type 0 where
  pub id : ℕ
  pub key : Key
  pub secret : Bytes

-- `HMAC_NAMES`
abbrev pub hmac_names : List (Bytes × Bytes)
hmac_names =
    (codes "hmac-md5.sig-alg.reg.int", codes "md5")
    ∷ (codes "hmac-sha1", codes "sha1")
    ∷ (codes "hmac-sha256", codes "sha256")
    ∷ (codes "hmac-sha384", codes "sha384")
    ∷ (codes "hmac-sha512", codes "sha512")
    ∷ []

unfoldable pub name_get : Bytes → List (Bytes × Bytes) → Option Bytes
name_get name [] = none
name_get name ((n, v) ∷ rest) =
    let later = name_get name rest in if bytes_eq name n then some v else later

-- The request as `dnslib` parses it: each question with its type and class.
pub record Query ⦃E : External⦄ : Type 0 where
  pub id : ℕ
  pub opcode : ℕ
  pub questions : List (E.Label × ℕ × ℕ)
  pub prset : List UpdateRr
  pub upset : List UpdateRr
  pub ar : List UpdateRr

-- What the check takes from outside: `str` of a label, the column type of the keys' ids, `hmac`, the
-- packing of a whole message, and times.
pub record Signing ⦃E : External⦄ ⦃O : Outside⦄ : Type 1 where
  pub text : E.Label → Bytes
  -- `none` is a `ValidationError`.
  pub parse_id : Bytes → Option ℕ
  pub hmac : Bytes → Bytes → Bytes → Bytes
  pub pack_message : Query → Result Bytes
  pub pack_header : Query → O.Buffer → O.Buffer
  pub encode_name : O.Buffer → E.Label → O.Buffer
  -- `datetime.utcnow()`, `-` and `+` with a `timedelta` of seconds (`none` is an `OverflowError`), `<`.
  pub now : O.Time
  pub earlier : O.Time → ℕ → Option O.Time
  pub later : O.Time → ℕ → Option O.Time
  pub lt : O.Time → O.Time → Bool
  -- Documented behaviour, by the microseconds since `datetime.min`.
  pub instant : O.Time → ℕ
  pub earlier-instant :
      (t u : O.Time) (n : ℕ) → earlier t n ≡ some u → instant u + n * 1000000 ≡ instant t
  pub later-instant :
      (t u : O.Time) (n : ℕ) → later t n ≡ some u → instant u ≡ instant t + n * 1000000
  pub lt_iff : (t u : O.Time) → (lt t u ≡ true) ↔ (instant t < instant u)

module _ ⦃E : External⦄ where
  -- `tsig_alg_label not in HMAC_NAMES`, and the method.
  unfoldable pub digest_method : E.Label → Option Bytes
  unfolding name_get lower join_dots
  digest_method alg_name = name_get (join_dots (map lower (E.label alg_name))) hmac_names

  module _ ⦃O : Outside⦄ ⦃C : Wires⦄ ⦃S : Signing⦄ where
    unfoldable pub pack_questions : List (E.Label × ℕ × ℕ) → O.Buffer → Result O.Buffer
    unfolding struct_pack
    pack_questions [] b = ok b
    pack_questions ((qname, qtype, qclass) ∷ questions) b = do
      t ← struct_pack 2 qtype
      c ← struct_pack 2 qclass
      pack_questions questions (O.pack_packed (S.encode_name b qname) (t ++ c))

    unfoldable pub pack_rrs : List UpdateRr → O.Buffer → Result O.Buffer
    unfolding pack_rr_canon
    pack_rrs [] b = ok b
    pack_rrs (rr ∷ rrs) b = do b' ← pack_rr_canon rr b; pack_rrs rrs b'

    -- `d2`: the message with all names uncompressed.
    unfoldable pub canonical : Query → Result Bytes
    unfolding pack_questions pack_rrs
    canonical q = do
      b1 ← pack_questions q.questions (S.pack_header q O.new)
      b2 ← pack_rrs q.prset b1
      b3 ← pack_rrs q.upset b2
      b4 ← pack_rrs q.ar b3
      ok (O.contents b4)

    -- What both messages are followed by: the record's name, class and time to live, and the
    -- variables of the signature.
    unfoldable pub signed_suffix : UpdateRr → Tsig → Result Bytes
    unfolding struct_pack make_variables
    signed_suffix req_tsig tsig = do
      c ← struct_pack 2 class_any
      t ← struct_pack 4 0
      variables ← make_variables tsig
      ok (
          O.contents (O.pack_packed (O.encode_name_nocompress O.new req_tsig.rname) (c ++ t))
          ++ variables)

    -- The digest is that of the message as packed, or of its canonical form. The query is that
    -- without the TSIG record, under the id that it names.
    unfoldable pub is_signed : Secret → Bytes → UpdateRr → Tsig → Query → Result Bool
    unfolding canonical signed_suffix bytes_eq
    is_signed k method req_tsig tsig q = do
      d ← S.pack_message q
      d2 ← canonical q
      suffix ← signed_suffix req_tsig tsig
      ok (
          bytes_eq (S.hmac method k.secret (d ++ suffix)) tsig.mac
          || bytes_eq (S.hmac method k.secret (d2 ++ suffix)) tsig.mac)
