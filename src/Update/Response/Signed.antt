-- ===== src/Update/Response/Signed.antt =====
-- The signature of a response, as its receiver reads it.
use hexdns.Common.{ℕ, ◌++◌, length, Bytes}
use hexdns.Dns.External.{External}
use hexdns.Tsig.{Outside, Tsig, be}
use hexdns.Tsig.Canon.{Wires}
use hexdns.Update.Digest.{Secret, Signing}
use hexdns.Update.Response.{outgoing_tsig}

module _ ⦃E : External⦄ ⦃O : Outside⦄ ⦃C : Wires⦄ ⦃S : Signing⦄ where
  -- What the digest is of (RFC 2845, section 4.2): the request's digest behind its length, the
  -- response, and the variables.
  abbrev pub answer : Secret → Bytes → Tsig → Bytes → Bytes → ℕ → ℕ → Bytes → O.Time → Tsig
  answer k method incoming response suffix response_id error other_data time_now =
      record (outgoing_tsig incoming response_id error other_data time_now) {
        mac =
            S.hmac method k.secret
              (be 2 (length incoming.mac) ++ (incoming.mac ++ (response ++ suffix)));
      }
