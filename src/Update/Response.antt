-- ===== src/Update/Response.antt =====
-- The signature of the response to an update: sign_resp and tsig_unsigned_error of
-- handle_update_query. Each comes to the data of the TSIG record that it adds.
pub mod Signed
use hexdns.Common.{ℕ, ◌/◌, ◌%◌, [], ◌++◌, length, Bytes, codes, Result, ok, ◌>>=◌}
use hexdns.Dns.External.{External}
use hexdns.Tsig.{Outside, Tsig, struct_pack, make_tsig}
use hexdns.Tsig.Canon.{Wires}
use hexdns.Update.Request.{UpdateRr}
use hexdns.Update.Digest.{Secret, Signing, signed_suffix}

module _ ⦃E : External⦄ ⦃O : Outside⦄ ⦃C : Wires⦄ ⦃S : Signing⦄ where
  unfoldable pub tsig_unsigned_error : ℕ → ℕ → Result Bytes
  unfolding make_tsig
  tsig_unsigned_error response_id error = make_tsig (record {
    alg_name = E.of_str (codes ".");
    time_signed = S.now;
    fudge = 300;
    mac = [];
    original_id = response_id;
    error = error;
    other_data = [];
  })

  -- `outgoing_tsig`, before it is signed.
  unfoldable pub outgoing_tsig : Tsig → ℕ → ℕ → Bytes → O.Time → Tsig
  outgoing_tsig incoming response_id error other_data time_now = record {
    alg_name = incoming.alg_name;
    time_signed = time_now;
    fudge = 300;
    mac = [];
    original_id = response_id;
    error = error;
    other_data = other_data;
  }

  -- Given the response as packed, its id, the error, the other data and the time.
  unfoldable pub sign_resp :
      Secret → Bytes → UpdateRr → Tsig → Bytes → ℕ → ℕ → Bytes → O.Time → Result Bytes
  unfolding outgoing_tsig struct_pack signed_suffix make_tsig
  sign_resp k method req_tsig incoming response response_id error other_data time_now = do
    let outgoing = outgoing_tsig incoming response_id error other_data time_now
    mac_len ← struct_pack 2 (length incoming.mac)
    suffix ← signed_suffix req_tsig outgoing
    make_tsig (record outgoing {
      mac = S.hmac method k.secret (mac_len ++ (incoming.mac ++ (response ++ suffix)));
    })

  -- The other data of a BADTIME response: the server's time in 6 bytes.
  unfoldable pub badtime_other : Result Bytes
  unfolding struct_pack
  badtime_other = do
    let server_timestamp = O.timestamp S.now
    upper ← struct_pack 2 (server_timestamp / 4294967296 % 65536)
    lower ← struct_pack 4 (server_timestamp % 4294967296)
    ok (upper ++ lower)
