-- ===== src/Update/Signature/Authentic.antt =====
-- An update is carried out only if it is signed: what the check of the signature establishes.
use mathlib.Core.List.{Memᴰ}
use hexdns.Common.{
  ℕ, ◌+◌, ◌*◌, ◌≤◌, ◌<◌, ◌≡◌, refl, sym, ◌⊎◌, inl, inr, Bool, true, false, ◌==◌, ==_iff, ◌||◌,
  Bool-cases, Option-cases, if◌then◌else◌, List, [], ◌∷◌, ◌++◌, Bytes, bytes_eq, bytes_eq_iff,
  Option, none, some, Result, ok, >>=-eq-ok, arith, ap, ◌∙◌,
}
use hexdns.Dns.External.{External}
use hexdns.Dns.Rcode
use hexdns.Tsig.{Outside, Tsig, decode_tsig}
use hexdns.Tsig.Canon.{Wires}
use hexdns.Update.Request.{UpdateRr}
use hexdns.Update.Digest.{
  Secret, Query, Signing, digest_method, canonical, signed_suffix, is_signed,
}
use hexdns.Update.Signature.{
  Verdict, rejected, accepted, badtime, raw_data, find_key, is_stale, check_times, check_digest,
  check_tsig, authenticate, lstrip_dots, rstrip_dots, or_overflow,
}

module _ ⦃E : External⦄ ⦃O : Outside⦄ ⦃C : Wires⦄ ⦃S : Signing⦄ where
  -- The key stands in the table, and the record's name tells its id below the zone's name.
  pub record Names (secrets : List Secret) (zone_name : E.Label) (req_tsig : UpdateRr) (k : Secret)
      : Type 0 where
    pub below : E.match_suffix req_tsig.rname zone_name ≡ true
    pub known : Memᴰ k secrets
    pub named :
        S.parse_id (rstrip_dots (lstrip_dots (S.text (E.strip_suffix req_tsig.rname zone_name))))
        ≡ some k.id

  -- The signature is by the key, of the message or of its canonical form, and of this time.
  pub record IsSignature (k : Secret) (req_tsig : UpdateRr) (q : Query) : Type 0 where
    pub content : Bytes
    pub tsig : Tsig
    pub method : Bytes
    pub message : Bytes
    pub suffix : Bytes
    pub raw : raw_data req_tsig.rdata ≡ ok content
    pub decoded : decode_tsig content ≡ ok tsig
    pub known_method : digest_method tsig.alg_name ≡ some method
    pub suffixed : signed_suffix req_tsig tsig ≡ ok suffix
    pub of_request :
        (S.pack_message (record q { id = tsig.original_id }) ≡ ok message)
        ⊎ (canonical (record q { id = tsig.original_id }) ≡ ok message)
    pub digest : S.hmac method k.secret (message ++ suffix) ≡ tsig.mac
    pub not_early : S.instant tsig.time_signed ≤ S.instant S.now + tsig.fudge * 1000000
    pub not_late : S.instant S.now ≤ S.instant tsig.time_signed + tsig.fudge * 1000000

  find_key-Names :
      (secrets : List Secret) (zone_name : E.Label) (req_tsig : UpdateRr) (k : Secret)
      → find_key secrets zone_name req_tsig ≡ some k
      → Names secrets zone_name req_tsig k
  unfolding find_key
  find_key-Names secrets zone_name req_tsig k h =
      elim (Bool-cases (E.match_suffix req_tsig.rname zone_name)) [
        | inr out ↦ cc (rw (out, find_key) at h)
        | inl below ↦
            elim (Option-cases (
              S.parse_id
                (rstrip_dots (lstrip_dots (S.text (E.strip_suffix req_tsig.rname zone_name)))))) [
                  | inl no_id ↦ cc (rw (below, no_id, find_key) at h)
                  | inr (i, id) ↦
                      let first = rw (below, id, find_key) at h in
                      let (m, same) = first_of_filter secrets i k first in
                      record {
                        below = below;
                        known = m;
                        named = id ∙ ap (λ (n : ℕ). some n) (sym same);
                      }
                ]
      ]
    where
      first_of_filter :
          (rows : List Secret) (i : ℕ) (x : Secret)
          → E.first Secret (E.filter Secret (λ s. s.id == i) rows) ≡ some x
          → Memᴰ x rows × (x.id ≡ i)
      first_of_filter rows i x e = go (E.filter Secret (λ s. s.id == i) rows) refl e
        where
          go :
              (kept : List Secret)
              → E.filter Secret (λ s. s.id == i) rows ≡ kept
              → E.first Secret kept ≡ some x
              → Memᴰ x rows × (x.id ≡ i)
          go [] f g = cc (E.first-nil Secret)
          go (y ∷ ys) f g =
              let (z, is_first, m) = E.first-cons Secret y ys in
              let same : z ≡ x = cc in
              let (there, test) =
                E.mem_of_mem-filter Secret (λ s. s.id == i) rows x (rw (f, ← same) m) in
              (there, (==_iff x.id i).0 test)

  or_overflow-ok : {A : Type 0} (m : Option A) (a : A) → or_overflow m ≡ ok a → m ≡ some a
  unfolding or_overflow
  or_overflow-ok none a h = cc
  or_overflow-ok (some b) a h = cc h

  le_of_lt_false : (t u : O.Time) → S.lt t u ≡ false → S.instant u ≤ S.instant t
  le_of_lt_false t u h = omega (arith, λ (less : S.instant t < S.instant u). below less)
    where
      below : S.instant t < S.instant u → ⊥
      below less = cc ((S.lt_iff t u).1 less)

  verdict_of :
      (early late stale : Bool) (k k' : Secret)
      → ◌≡◌ {A = Result Bool} (ok (early || late)) (ok stale)
      → ◌≡◌ {A = Result Verdict}
          (ok (if stale then rejected Rcode.notauth badtime else accepted k))
          (ok (accepted k'))
      → (early ≡ false) × (late ≡ false) × (k' ≡ k)
  verdict_of early late true k k' e v = cc
  verdict_of true late false k k' e v = cc
  verdict_of false true false k k' e v = cc
  verdict_of false false false k k' e v = (refl, refl, cc)

  check_times-accepted :
      (k k' : Secret) (tsig : Tsig)
      → check_times k tsig ≡ ok (accepted k')
      → (k' ≡ k)
        × (S.instant tsig.time_signed ≤ S.instant S.now + tsig.fudge * 1000000)
        × (S.instant S.now ≤ S.instant tsig.time_signed + tsig.fudge * 1000000)
  unfolding check_times is_stale
  check_times-accepted k k' tsig h =
      let (stale, is, verdict) = >>=-eq-ok (is_stale tsig) _ h in
      let (least, before, more) =
        >>=-eq-ok (or_overflow (S.earlier tsig.time_signed tsig.fudge)) _ is in
      let (most, after, last) =
        >>=-eq-ok (or_overflow (S.later tsig.time_signed tsig.fudge)) _ more in
      let low =
        S.earlier-instant tsig.time_signed least tsig.fudge (or_overflow-ok _ least before) in
      let high = S.later-instant tsig.time_signed most tsig.fudge (or_overflow-ok _ most after) in
      let (early, late, same) =
        verdict_of (S.lt S.now least) (S.lt most S.now) stale k k' last verdict in
      let not_early = le_of_lt_false S.now least early in
      let not_late = le_of_lt_false most S.now late in
      (same, omega (arith, low, not_early), omega (arith, high, not_late))

  -- The digest that fits is of one of the two messages.
  digest_of :
      (k : Secret) (method : Bytes) (req_tsig : UpdateRr) (tsig : Tsig) (q : Query)
      → is_signed k method req_tsig tsig q ≡ ok true
      → (message : Bytes) × (suffix : Bytes) × (signed_suffix req_tsig tsig ≡ ok suffix)
        × ((S.pack_message q ≡ ok message) ⊎ (canonical q ≡ ok message))
        × (S.hmac method k.secret (message ++ suffix) ≡ tsig.mac)
  unfolding is_signed
  digest_of k method req_tsig tsig q h =
      let (d, is_d, more) = >>=-eq-ok (S.pack_message q) _ h in
      let (d2, is_d2, more2) = >>=-eq-ok (canonical q) _ more in
      let (suffix, is_suffix, test) = >>=-eq-ok (signed_suffix req_tsig tsig) _ more2 in
      elim (Bool-cases (bytes_eq (S.hmac method k.secret (d ++ suffix)) tsig.mac)) [
        | inl plain ↦ (d, suffix, is_suffix, inl is_d, (bytes_eq_iff _ _).0 plain)
        | inr not_plain ↦
            elim (Bool-cases (bytes_eq (S.hmac method k.secret (d2 ++ suffix)) tsig.mac)) [
              | inl canon ↦ (d2, suffix, is_suffix, inr is_d2, (bytes_eq_iff _ _).0 canon)
              | inr neither ↦ cc (test, not_plain, neither)
            ]
      ]

  check_tsig-accepted :
      (k k' : Secret) (req_tsig : UpdateRr) (q : Query)
      → check_tsig k req_tsig q ≡ ok (accepted k')
      → (k' ≡ k) × IsSignature k req_tsig q
  unfolding check_tsig check_digest
  check_tsig-accepted k k' req_tsig q h =
      let (content, raw, more) = >>=-eq-ok (raw_data req_tsig.rdata) _ h in
      let (tsig, decoded, checked) = >>=-eq-ok (decode_tsig content) _ more in
      elim (Option-cases (digest_method tsig.alg_name)) [
        | inl unknown ↦ cc (rw unknown at checked)
        | inr (method, known) ↦
            let (signed, is_signed_, verdict) =
              >>=-eq-ok (is_signed k method req_tsig tsig (record q { id = tsig.original_id })) _
                (rw known at checked) in
            elim (Bool-cases signed) [
              | inr forged ↦ cc (rw forged at verdict)
              | inl genuine ↦
                  let (message, suffix, suffixed, of_request, digest) =
                    digest_of k method req_tsig tsig (record q { id = tsig.original_id })
                      (is_signed_ ∙ ap (λ (b : Bool). ok b) genuine) in
                  let (same, not_early, not_late) =
                    check_times-accepted k k' tsig (rw genuine at verdict) in
                  (
                    same,
                    record {
                      content = content;
                      tsig = tsig;
                      method = method;
                      message = message;
                      suffix = suffix;
                      raw = raw;
                      decoded = decoded;
                      known_method = known;
                      suffixed = suffixed;
                      of_request = of_request;
                      digest = digest;
                      not_early = not_early;
                      not_late = not_late;
                    },
                  )
            ]
      ]

  pub authenticate-accepted :
      (secrets : List Secret) (zone_name : E.Label) (req_tsig : UpdateRr) (q : Query) (k : Secret)
      → authenticate secrets zone_name req_tsig q ≡ ok (accepted k)
      → Names secrets zone_name req_tsig k × IsSignature k req_tsig q
  unfolding authenticate
  authenticate-accepted secrets zone_name req_tsig q k h =
      elim (Option-cases (find_key secrets zone_name req_tsig)) [
        | inl missing ↦ cc (rw (missing, authenticate) at h)
        | inr (k', found) ↦
            let (same, signature) =
              check_tsig-accepted k' k req_tsig q (rw (found, authenticate) at h) in
            rw same (find_key-Names secrets zone_name req_tsig k' found, signature)
      ]
