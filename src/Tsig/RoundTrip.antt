-- ===== src/Tsig/RoundTrip.antt =====
-- A TSIG record that was encoded is decoded again.
use Prim.Native.Nat.{◌/◌, ◌%◌}
use hexdns.Common.{
  ℕ, zero, suc, ◌+◌, ◌*◌, ◌<◌, [], ◌∷◌, ◌++◌, length, Bytes, ◌≡◌, refl, sym, ◌∙◌, ap, ok,
  append_assoc, append-nil, length-append, arith,
}
use hexdns.Dns.External.{External}
use hexdns.Common.{some}
use hexdns.Tsig.{
  Outside, Tsig, be, of_be, bound, struct_pack, or_buffer_error, or_value_error, stamp, make_tsig,
  unpack, decode_tsig,
}

of_be-append : (high : ℕ) (xs : Bytes) (b : ℕ) → of_be high (xs ++ b ∷ []) ≡ of_be high xs * 256 + b
unfolding of_be
of_be-append high [] b = refl
of_be-append high (x ∷ xs) b = of_be-append (high * 256 + x) xs b

pub length-be : (k n : ℕ) → length (be k n) ≡ k
unfolding be
length-be zero n = refl
length-be (suc k) n =
    omega (arith, length-append (be k (n / 256)) (n % 256 ∷ []), length-be k (n / 256))

of_be-be : (k n : ℕ) → n < bound k → of_be 0 (be k n) ≡ n
unfolding be of_be bound
of_be-be zero n h = omega arith
of_be-be (suc k) n h =
    let smaller : n / 256 < bound k = omega arith in
    of_be-append 0 (be k (n / 256)) (n % 256) ∙ rw (of_be-be k (n / 256) smaller) (omega arith)

pub struct_pack-ok : (k n : ℕ) → n < bound k → struct_pack k n ≡ ok (be k n)
unfolding struct_pack
struct_pack-ok k n h = ground arith

pub half : (n : ℕ) → n < 65536 → n < bound 2
unfolding bound
half n h = h

pub struct_pack-half : (n : ℕ) → n < 65536 → struct_pack 2 n ≡ ok (be 2 n)
struct_pack-half n h = struct_pack-ok 2 n (half n h)

module _ ⦃E : External⦄ ⦃O : Outside⦄ where
  unpack-be :
      (k n : ℕ) (r : O.Reader) (ys : Bytes)
      → n < bound k
      → O.left r ≡ be k n ++ ys
      → (r' : O.Reader) × (unpack k r ≡ ok (n, r')) × (O.left r' ≡ ys)
  unfolding unpack or_buffer_error
  unpack-be k n r ys h e =
      let (r', got, rest) = O.get-left r (be k n) ys e in
      (r', rw (rw (length-be k n) at got, of_be-be k n h) refl, rest)

  -- The bytes of a record, in the layout of RFC 2845, section 2.3.
  abbrev fields : Tsig → Bytes
  fields t =
      be 8 (stamp t)
      ++ (be 2 (length t.mac)
          ++ (t.mac
              ++ (be 2 t.original_id
                  ++ (be 2 t.error ++ (be 2 (length t.other_data) ++ t.other_data)))))

  abbrev wire : Tsig → Bytes
  wire t = O.wire_name t.alg_name ++ fields t

  contents_chain :
      (n : E.Label) (time mac_len mac id error other_len other : Bytes)
      → O.contents (
          O.append
            (O.pack_packed
              (O.append (O.pack_packed (O.encode_name_nocompress O.new n) (time ++ mac_len)) mac)
              (id ++ error ++ other_len))
            other)
        ≡ O.wire_name n ++ (time ++ (mac_len ++ (mac ++ (id ++ (error ++ (other_len ++ other))))))
  contents_chain n time mac_len mac id error other_len other = simp (
    O.contents-append, O.contents-pack_packed, O.contents-encode_name, O.contents-new, append_assoc,
  )

  -- The record fits its layout.
  pub record Fits (t : Tsig) : Type 0 where
    pub time : O.timestamp t.time_signed < 281474976710656
    pub mac : length t.mac < 65536
    pub id : t.original_id < 65536
    pub error : t.error < 65536
    pub other : length t.other_data < 65536

  stamp-bound : (t : Tsig) → Fits t → stamp t < bound 8
  unfolding stamp bound
  stamp-bound t f = omega (arith, f.time)

  make_tsig-wire : (t : Tsig) → Fits t → make_tsig t ≡ ok (wire t)
  unfolding make_tsig
  make_tsig-wire t f =
      rw
        (
          struct_pack-ok 8 (stamp t) (stamp-bound t f),
          struct_pack-half (length t.mac) f.mac,
          struct_pack-half t.original_id f.id,
          struct_pack-half t.error f.error,
          struct_pack-half (length t.other_data) f.other,
          make_tsig,
        )
        (ap ok (
          contents_chain t.alg_name (be 8 (stamp t)) (be 2 (length t.mac)) t.mac
            (be 2 t.original_id) (be 2 t.error) (be 2 (length t.other_data)) t.other_data))

  -- What a decoder gives back: the low 16 bits of the fudge, and the time that it makes of the
  -- seconds.
  abbrev pub rounded : Tsig → O.Time → Tsig
  rounded t time = record t { time_signed = time; fudge = t.fudge % 65536 }

  stamp_time : (t : Tsig) → stamp t / 65536 ≡ O.timestamp t.time_signed
  unfolding stamp
  stamp_time t = omega arith

  stamp_fudge : (t : Tsig) → stamp t % 65536 ≡ t.fudge % 65536
  unfolding stamp
  stamp_fudge t = omega arith

  decode_tsig-wire :
      (t : Tsig) (signed : O.Time)
      → Fits t
      → O.from_timestamp (O.timestamp t.time_signed) ≡ some signed
      → decode_tsig (wire t) ≡ ok (rounded t signed)
  unfolding decode_tsig or_buffer_error or_value_error
  decode_tsig-wire t signed f back =
      let tail5 = be 2 (length t.other_data) ++ t.other_data in
      let tail4 = be 2 t.error ++ tail5 in
      let tail3 = be 2 t.original_id ++ tail4 in
      let tail2 = t.mac ++ tail3 in
      let tail1 = be 2 (length t.mac) ++ tail2 in
      let (r1, name, e1) =
        O.decode_name-left (O.of_bytes (wire t)) t.alg_name (fields t) (O.left-of_bytes (wire t)) in
      let (r2, time, e2) = unpack-be 8 (stamp t) r1 tail1 (stamp-bound t f) e1 in
      let (r3, mac_len, e3) = unpack-be 2 (length t.mac) r2 tail2 (half (length t.mac) f.mac) e2 in
      let (r4, mac, e4) = O.get-left r3 t.mac tail3 e3 in
      let (r5, id, e5) = unpack-be 2 t.original_id r4 tail4 (half t.original_id f.id) e4 in
      let (r6, error, e6) = unpack-be 2 t.error r5 tail5 (half t.error f.error) e5 in
      let (r7, other_len, e7) =
        unpack-be 2 (length t.other_data) r6 t.other_data (half (length t.other_data) f.other) e6 in
      let (r8, other, e8) = O.get-left r7 t.other_data [] (e7 ∙ sym (append-nil t.other_data)) in
      rw (name, time, mac_len, mac, id, error, other_len, other, stamp_time t, back, stamp_fudge t)
        refl

  -- A record whose time, error, identifier and lengths fit their fields is encoded, and if a time can
  -- be made of its whole seconds, the encoding is decoded to the same record with that time and the
  -- low 16 bits of its fudge.
  pub decode_tsig-make_tsig :
      (t : Tsig) (signed : O.Time)
      → Fits t
      → O.from_timestamp (O.timestamp t.time_signed) ≡ some signed
      → (bs : Bytes) × (make_tsig t ≡ ok bs) × (decode_tsig bs ≡ ok (rounded t signed))
  decode_tsig-make_tsig t signed f back =
      (wire t, make_tsig-wire t f, decode_tsig-wire t signed f back)
