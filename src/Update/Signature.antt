-- ===== src/Update/Signature.antt =====
-- The check of an update's signature (RFC 2845), with which handle_update_query begins, and the whole
-- of the handler. Of a response only the code is kept, and the signature of the response is left out.
pub mod Authentic
pub mod Decided
use hexdns.Common.{
  ℕ, ◌+◌, Bool, true, false, not, ◌==◌, ◌&&◌, ◌||◌, if◌then◌else◌, List, [], ◌∷◌, ◌++◌, map, Bytes,
  codes, bytes_eq, Option, none, some, Result, ok, err, attribute_error, overflow_error, ◌>>=◌, ◌≡◌,
  ◌↔◌, ◌<◌, ◌*◌,
}
use hexdns.Dns.External.{External}
use hexdns.Dns.Qtype
use hexdns.Dns.Rcode
use hexdns.Dns.Message.{Rdata, rd}
use hexdns.Dns.Find.{join_dots}
use hexdns.Tsig.{Outside, Tsig, struct_pack, make_variables, decode_tsig}
use hexdns.Tsig.Canon.{Wires, pack_rr_canon}
use hexdns.Update.Request.{class_in, class_any, Key, UpdateRr, UpdateRequest, Wire}
use hexdns.Update.Tables.{Store, lower}
use hexdns.Update.Apply.{Applied, done, refused, raised, or_raise}
use hexdns.Update.Handler.{handle_signed}
use hexdns.Update.Digest.{opcode_update, Secret, Query, Signing, digest_method, is_signed}

-- `str.strip(".")`
unfoldable pub lstrip_dots : Bytes → Bytes
lstrip_dots [] = []
lstrip_dots (c ∷ cs) = let rest = lstrip_dots cs in if c == b'.' then rest else c ∷ cs

unfoldable pub rstrip_dots : Bytes → Bytes
rstrip_dots [] = []
rstrip_dots (c ∷ cs) = elim (rstrip_dots cs) [
  | [] ↦ if c == b'.' then [] else c ∷ []
  | d ∷ ds ↦ c ∷ d ∷ ds
]

unfoldable pub split_last {ℓ} : {A : Type ℓ} → List A → Option (List A × A)
split_last [] = none
split_last (x ∷ xs) = elim (split_last xs) [ none ↦ some ([], x) | some r ↦ some (x ∷ r.0, r.1) ]

-- What the check comes to: a refusal with the TSIG error of its response, 0 for none, or the key.
pub data Verdict : Type 0 where
  rejected : ℕ → ℕ → Verdict
  accepted : Secret → Verdict

-- `TSIG_BADSIG`, `TSIG_BADKEY` and `TSIG_BADTIME`
abbrev pub badsig : ℕ
badsig = 16

abbrev pub badkey : ℕ
badkey = 17

abbrev pub badtime : ℕ
badtime = 18

unfoldable pub or_overflow : {A : Type 0} → Option A → Result A
or_overflow none = err overflow_error
or_overflow (some a) = ok a

-- `req_tsig.rdata.data`
unfoldable pub raw_data : Option Rdata → Result Bytes
raw_data (some (rd content)) = ok content
raw_data _ = err attribute_error

-- `if type(r.rdata) == dnslib.RD and r.rdata.data == b'': r.rdata = ''`
unfoldable pub drop_empty : Option Rdata → Option Rdata
drop_empty (some (rd [])) = none
drop_empty content = content

module _ ⦃E : External⦄ where
  -- `DNSLabel(list(map(lambda n: n.decode().lower().encode(), zone_name.label)))`
  unfoldable pub lower_label : E.Label → E.Label
  unfolding lower
  lower_label name = E.of_labels (map lower (E.label name))

  unfoldable pub without_empty : UpdateRr → UpdateRr
  unfolding drop_empty
  without_empty rr = record rr { rdata = drop_empty rr.rdata }

  module _ ⦃O : Outside⦄ ⦃C : Wires⦄ ⦃S : Signing⦄ where
    -- The key that the record's name tells, below the zone's.
    unfoldable pub find_key : List Secret → E.Label → UpdateRr → Option Secret
    unfolding lstrip_dots rstrip_dots
    find_key secrets zone_name req_tsig =
        let id =
          S.parse_id
            (rstrip_dots (lstrip_dots (S.text (E.strip_suffix req_tsig.rname zone_name)))) in
        if E.match_suffix req_tsig.rname zone_name
        then elim id [
          | none ↦ none
          | some i ↦ E.first Secret (E.filter Secret (λ k. k.id == i) secrets)
        ]
        else none

    -- RFC 2845, section 4.5.2
    unfoldable pub is_stale : Tsig → Result Bool
    unfolding or_overflow
    is_stale tsig = do
      min_time ← or_overflow (S.earlier tsig.time_signed tsig.fudge)
      max_time ← or_overflow (S.later tsig.time_signed tsig.fudge)
      ok (S.lt S.now min_time || S.lt max_time S.now)

    -- The check behind the search for the key.
    unfoldable pub check_times : Secret → Tsig → Result Verdict
    unfolding is_stale
    check_times k tsig = do
      stale ← is_stale tsig
      ok (if stale then rejected Rcode.notauth badtime else accepted k)

    unfoldable pub check_digest : Secret → Bytes → UpdateRr → Tsig → Query → Result Verdict
    unfolding is_signed check_times
    check_digest k method req_tsig tsig q = do
      signed ← is_signed k method req_tsig tsig q
      if signed then check_times k tsig else ok (rejected Rcode.notauth badsig)

    unfoldable pub check_tsig : Secret → UpdateRr → Query → Result Verdict
    unfolding raw_data decode_tsig digest_method check_digest
    check_tsig k req_tsig q = do
      content ← raw_data req_tsig.rdata
      tsig ← decode_tsig content
      elim (digest_method tsig.alg_name) [
        | none ↦ ok (rejected Rcode.notauth badsig)
        | some method ↦ check_digest k method req_tsig tsig (record q { id = tsig.original_id })
      ]

    -- `handle_update_query` up to its search for the zone, given the zone's name and the TSIG record.
    unfoldable pub authenticate : List Secret → E.Label → UpdateRr → Query → Result Verdict
    unfolding find_key check_tsig
    authenticate secrets zone_name req_tsig q = elim (find_key secrets zone_name req_tsig) [
      | none ↦ ok (rejected Rcode.notauth badkey)
      | some k ↦ check_tsig k req_tsig q
    ]

    module _ ⦃W : Wire⦄ where
      -- What is left to do once the check has come to something.
      unfoldable pub after_verdict : ℕ → E.Label → Query → Store → Result Verdict → Applied
      unfolding handle_signed without_empty
      after_verdict fuel zone_name q s (err e) = raised e s
      after_verdict fuel zone_name q s (ok (rejected rcode error)) = refused rcode s
      after_verdict fuel zone_name q s (ok (accepted k)) =
          handle_signed fuel k.key zone_name
            (record {
              qclass = class_in;
              prset = map without_empty q.prset;
              upset = map without_empty q.upset;
            })
            s

      -- The query has the form of an update: its first question is for the SOA of a zone of class IN.
      unfoldable pub handle_question :
          ℕ → List Secret → Query → Store → E.Label × ℕ × ℕ → List UpdateRr × UpdateRr → Applied
      unfolding lower_label authenticate after_verdict
      handle_question fuel secrets q s (qname, qtype, qclass) (rest, req_tsig) =
          if not (q.opcode == opcode_update) || not (qclass == class_in) || not (qtype == Qtype.soa)
          then refused Rcode.refused s
          else if not (req_tsig.rtype == Qtype.tsig)
          then refused Rcode.refused s
          else after_verdict fuel (lower_label qname) q s
              (authenticate secrets (lower_label qname) req_tsig (record q { ar = rest }))

      -- `handle_update_query`
      unfoldable pub handle_update_query : ℕ → List Secret → Query → Store → Applied
      unfolding handle_question split_last
      handle_update_query fuel secrets q s = elim q.questions [
        | [] ↦ refused Rcode.refused s
        | question ∷ questions ↦ elim (split_last q.ar) [
          | none ↦ refused Rcode.refused s
          | some last ↦ handle_question fuel secrets q s question last
        ]
      ]
