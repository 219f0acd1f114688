-- ===== src/Svcb/Params/Pack/Negative.antt =====
-- A parameter with a negative number is decoded, and cannot be packed.
use hexdns.Common.{
  ℕ, ◌≡◌, ◌≢◌, refl, [], ◌∷◌, Bytes, All, negsuc, ok, >>=-eq-ok, Bool-cases, inl, inr, ltb,
}
use hexdns.Svcb.Decode.Escapes.{IsByte}
use hexdns.Svcb.Params.{SvcbParam, decode_param_data}
use hexdns.Svcb.Params.RoundTrip.{print_entries, to_param, decode_param_data-print_entries}
use hexdns.Svcb.Params.Pack.{DnsBuffer, pack_data, pack_header, pack_param, pack_each, pack_params}

module _ (B : DnsBuffer) where
  open B use {Buffer, len}

  pack_header-ne-ok :
      (n : ℕ) (buf packed buf' : Buffer) → pack_header B (negsuc n) buf packed ≢ ok buf'
  unfolding pack_header
  pack_header-ne-ok n buf packed buf' h = elim (Bool-cases (ltb 65535 (len packed))) [
    | inl long ↦ cc (rw (long, pack_header) at h)
    | inr short ↦ cc (rw (short, pack_header) at h)
  ]

  pack_param-ne-ok :
      (n : ℕ) (p : SvcbParam) (buf buf' : Buffer) → p.key ≡ negsuc n → pack_param B p buf ≢ ok buf'
  unfolding pack_param
  pack_param-ne-ok n p buf buf' e h =
      let (packed, _, later) = >>=-eq-ok (pack_data B p.value B.new) (pack_header B p.key buf) h in
      pack_header-ne-ok n buf packed buf' (rw e at later)

  -- For every negative number and every value the bytes of `key-5="…"` are accepted and decoded, and
  -- packing what was decoded raises an exception, whatever the buffer.
  pub decode-pack_params_negative :
      (n : ℕ) (v : Bytes)
      → All IsByte v
      → (decode_param_data (print_entries (negsuc n, v) []) ≡ ok (to_param (negsuc n, v) ∷ []))
        × ((buf buf' : Buffer) → pack_params B (to_param (negsuc n, v) ∷ []) buf ≢ ok buf')
  unfolding pack_params pack_each
  decode-pack_params_negative n v a = (
    decode_param_data-print_entries (negsuc n, v) [] (a, tt) (tt, tt),
    λ buf buf' h.
        let p = to_param (negsuc n, v) in
        let (b, packed, _) = >>=-eq-ok (pack_param B p buf) (λ b. pack_each B [] b) h in
        pack_param-ne-ok n p buf b refl packed,
  )
