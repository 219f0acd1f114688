-- ===== src/Update/Tests/Signature.antt =====
-- A signed update on sample tables: the digest is the secret before the message, a message is packed
-- as its id and its code, and times are seconds.
use hexdns.Common.{
  ℕ, ◌+◌, ◌*◌, ◌-◌, ◌<◌, ltb, ◌≡◌, refl, List, [], ◌∷◌, ◌++◌, Bytes, codes, none, some, Option,
  arith, ◌↔◌, Result, ok, err, if◌then◌else◌, true,
}
use hexdns.Dns.Qtype
use hexdns.Dns.Find.{join_dots}
use hexdns.Dns.Message.{rd}
use hexdns.Dns.Sample.{sample}
use hexdns.Dns.Tests.{ex_com}
use hexdns.Update.Request.{class_in, class_any, UpdateRr}
use hexdns.Update.Apply.{Applied, done, refused}
use hexdns.Update.Digest.{Secret, Query, Signing, opcode_update, signed_suffix}
use hexdns.Update.Signature.{handle_update_query}
use hexdns.Update.Signature.Decided.{Decided, handle_update_query-Decided}
use hexdns.Update.Tests.{wire, store, full_key, updates, token}
use hexdns.Update.Response.{outgoing_tsig}
use hexdns.Update.Response.Signed.{answer}
use hexdns.Tsig.{Tsig, make_tsig}
use hexdns.Tsig.Tests.{lists, signed, labels_wire, count_labels, decode_name}
use hexdns.Tsig.Tests.Canon.{plain, write, text_of}

-- A key's id is one digit.
unfoldable pub digit : Bytes → Option ℕ
digit (c ∷ []) = if ltb c 48 then none else some (c - 48)
digit _ = none

unfoldable pub back : ℕ → ℕ → Option ℕ
back t n = if ltb t n then none else some (t - n)

back-instant : (t u n : ℕ) → back t n ≡ some u → u * 1000000 + n * 1000000 ≡ t * 1000000
unfolding back
back-instant t u n h = ground arith

ltb-instant : (t u : ℕ) → (ltb t u ≡ true) ↔ (t * 1000000 < u * 1000000)
ltb-instant t u = ground arith

later-instant :
    (t u n : ℕ)
    → ◌≡◌ {A = Option ℕ} (some (t + n)) (some u)
    → u * 1000000 ≡ t * 1000000 + n * 1000000
later-instant t u n h = ground arith

abbrev clock : ℕ → Signing ⦃E = sample⦄ ⦃O = lists⦄
clock now = record {
  text = join_dots;
  parse_id = digit;
  hmac = λ method secret message. secret ++ message;
  pack_message = λ q. ok (q.id ∷ q.opcode ∷ []);
  pack_header = λ q b. b ++ q.id ∷ q.opcode ∷ [];
  encode_name = λ b n. b ++ count_labels n ∷ labels_wire n;
  now = now;
  earlier = back;
  later = λ t n. some (t + n);
  lt = ltb;
  instant = λ t. t * 1000000;
  earlier-instant = λ t u n h. back-instant t u n h;
  later-instant = λ t u n h. later-instant t u n h;
  lt_iff = ltb-instant;
}

abbrev content_of : Result Bytes → Bytes
content_of (ok bs) = bs
content_of (err e) = []

abbrev secret : Secret
secret = record { id = 7; key = full_key; secret = 42 ∷ [] }

abbrev unsigned : UpdateRr ⦃E = sample⦄
unsigned = record {
  rname = codes "7" ∷ ex_com;
  rtype = Qtype.tsig;
  rclass = class_any;
  ttl = 0;
  rdata = none;
}

-- The addition of a token, under the id that the signature names.
abbrev asked : Query ⦃E = sample⦄
asked = record {
  id = 4660;
  opcode = opcode_update;
  questions = (ex_com, Qtype.soa, class_in) ∷ [];
  prset = [];
  upset = token class_in 60 (codes "tok") ∷ [];
  ar = [];
}

abbrev mac : Bytes
mac =
    (42 ∷ [])
    ++ ((4660 ∷ opcode_update ∷ [])
        ++ content_of
            (signed_suffix ⦃E = sample⦄ ⦃O = lists⦄ ⦃C = plain⦄ ⦃S = clock 0⦄ unsigned signed))

abbrev signed_query : Query ⦃E = sample⦄
signed_query = record asked {
  ar =
      record unsigned {
        rdata =
            some
              (rd (content_of (make_tsig ⦃E = sample⦄ ⦃O = lists⦄ (record signed { mac = mac }))));
      }
      ∷ [];
}

abbrev run : ℕ → List Secret → Applied
run now secrets =
    handle_update_query ⦃E = sample⦄ ⦃O = lists⦄ ⦃C = plain⦄ ⦃S = clock now⦄ ⦃W = wire⦄ 3 secrets
      signed_query store

unfoldable pub queries : Unit {0}
unfolding updates digit back handle_update_query labels_wire count_labels decode_name write
    make_tsig text_of
queries = tt

abbrev code_of : Applied → ℕ
code_of (done s) = 0
code_of (refused rcode s) = rcode
code_of _ = 2

-- The signature is taken 300 seconds after it was made, and no later; without the key there is none.
times_test :
    (code_of (run 1700000300 (secret ∷ [])) ≡ 0)
    × (code_of (run 1699999700 (secret ∷ [])) ≡ 0)
    × (code_of (run 1700000301 (secret ∷ [])) ≡ 9)
    × (code_of (run 1699999699 (secret ∷ [])) ≡ 9)
    × (code_of (run 1700000000 []) ≡ 9)
unfolding queries
times_test = (refl, refl, refl, refl, refl)

handle_update_query-Decided_example :
    Decided ⦃E = sample⦄ ⦃O = lists⦄ ⦃C = plain⦄ ⦃S = clock 1700000000⦄ ⦃W = wire⦄ 3
      (secret ∷ [])
      signed_query
      store
      (run 1700000000 (secret ∷ []))
handle_update_query-Decided_example =
    handle_update_query-Decided ⦃E = sample⦄ ⦃O = lists⦄ ⦃C = plain⦄ ⦃S = clock 1700000000⦄
      ⦃W = wire⦄ 3 (secret ∷ []) signed_query store

-- The response to the query, packed as two bytes.
abbrev response : Bytes
response = 36 ∷ 52 ∷ []

abbrev response_suffix : Bytes
response_suffix = content_of (
    signed_suffix ⦃E = sample⦄ ⦃O = lists⦄ ⦃C = plain⦄ ⦃S = clock 1700000000⦄ unsigned (
      outgoing_tsig ⦃E = sample⦄ ⦃O = lists⦄ ⦃C = plain⦄ ⦃S = clock 1700000000⦄ signed 4660 0 []
        1700000000))

abbrev answered : Tsig ⦃E = sample⦄ ⦃O = lists⦄
answered =
    answer ⦃E = sample⦄ ⦃O = lists⦄ ⦃C = plain⦄ ⦃S = clock 1700000000⦄ secret (codes "sha256")
      signed response response_suffix 4660 0 [] 1700000000
