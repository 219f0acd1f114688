-- ===== src/Tsig.antt =====
-- The TSIG record of hexdns_django/dns_grpc/grpc.py: the class `TSIG`, its encoding and decoding.
-- `dnslib.DNSBuffer` and the conversions of `datetime` are not part of the program: they are the
-- record `Outside`, with the laws that their methods are documented by.
pub mod Canon
pub mod RoundTrip
pub mod Tests
use Prim.Native.Nat.{◌/◌, ◌%◌}
use hexdns.Common.{
  ℕ, zero, suc, ◌+◌, ◌*◌, ltb, if◌then◌else◌, List, [], ◌∷◌, ◌++◌, length, Bytes, ◌≡◌, Option, none,
  some, Result, ok, err, struct_error, buffer_error, value_error, ◌>>=◌,
}
use hexdns.Dns.External.{External}

pub record Outside ⦃E : External⦄ : Type 1 where
  -- A `DNSBuffer` that is written, with what stands in it.
  pub Buffer : Type 0
  pub new : Buffer
  pub contents : Buffer → Bytes
  pub append : Buffer → Bytes → Buffer
  pub pack_packed : Buffer → Bytes → Buffer
  pub encode_name_nocompress : Buffer → E.Label → Buffer
  -- One that is read, with what is left of it; `none` is a `BufferError`.
  pub Reader : Type 0
  pub of_bytes : Bytes → Reader
  pub left : Reader → Bytes
  pub get : Reader → ℕ → Option (Bytes × Reader)
  pub decode_name : Reader → Option (E.Label × Reader)
  -- `int(time.timestamp())` and `datetime.utcfromtimestamp`; `none` is the `ValueError` of a time
  -- beyond the year 9999.
  pub Time : Type 0
  pub timestamp : Time → ℕ
  pub from_timestamp : ℕ → Option Time
  -- Documented behaviour.
  pub wire_name : E.Label → Bytes
  pub contents-new : contents new ≡ []
  pub contents-append : (b : Buffer) (bs : Bytes) → contents (append b bs) ≡ contents b ++ bs
  pub contents-pack_packed :
      (b : Buffer) (bs : Bytes) → contents (pack_packed b bs) ≡ contents b ++ bs
  pub contents-encode_name :
      (b : Buffer) (n : E.Label) → contents (encode_name_nocompress b n) ≡ contents b ++ wire_name n
  pub left-of_bytes : (bs : Bytes) → left (of_bytes bs) ≡ bs
  pub get-left :
      (r : Reader) (xs ys : Bytes)
      → left r ≡ xs ++ ys
      → (r' : Reader) × (get r (length xs) ≡ some (xs, r')) × (left r' ≡ ys)
  pub decode_name-left :
      (r : Reader) (n : E.Label) (ys : Bytes)
      → left r ≡ wire_name n ++ ys
      → (r' : Reader) × (decode_name r ≡ some (n, r')) × (left r' ≡ ys)

-- The bytes of a number, the high one first, and back.
unfoldable pub be : ℕ → ℕ → Bytes
be zero n = []
be (suc k) n = be k (n / 256) ++ n % 256 ∷ []

unfoldable pub of_be : ℕ → Bytes → ℕ
of_be high [] = high
of_be high (b ∷ bs) = of_be (high * 256 + b) bs

-- The numbers of so many bytes lie below it.
unfoldable pub bound : ℕ → ℕ
bound zero = 1
bound (suc k) = bound k * 256

-- `struct.pack` of one number: of 8 bytes for `Q`, of 2 for `H`.
unfoldable pub struct_pack : ℕ → ℕ → Result Bytes
unfolding be bound
struct_pack k n = if ltb n (bound k) then ok (be k n) else err struct_error

unfoldable pub or_buffer_error : {A : Type 0} → Option A → Result A
or_buffer_error none = err buffer_error
or_buffer_error (some a) = ok a

unfoldable pub or_value_error : {A : Type 0} → Option A → Result A
or_value_error none = err value_error
or_value_error (some a) = ok a

module _ ⦃E : External⦄ ⦃O : Outside⦄ where
  pub record Tsig : Type 0 where
    pub alg_name : E.Label
    pub time_signed : O.Time
    pub fudge : ℕ
    pub mac : Bytes
    pub original_id : ℕ
    pub error : ℕ
    pub other_data : Bytes

  -- `(int(self.time_signed.timestamp()) << 16) | (self.fudge & 0xFFFF)`
  unfoldable pub stamp : Tsig → ℕ
  stamp t = O.timestamp t.time_signed * 65536 + t.fudge % 65536

  unfoldable pub make_tsig : Tsig → Result Bytes
  unfolding stamp struct_pack
  make_tsig t = do
    time ← struct_pack 8 (stamp t)
    mac_len ← struct_pack 2 (length t.mac)
    id ← struct_pack 2 t.original_id
    error ← struct_pack 2 t.error
    other_len ← struct_pack 2 (length t.other_data)
    ok (
        O.contents (
          O.append
            (O.pack_packed
              (O.append
                (O.pack_packed (O.encode_name_nocompress O.new t.alg_name) (time ++ mac_len)) t.mac)
              (id ++ error ++ other_len))
            t.other_data))

  unfoldable pub make_variables : Tsig → Result Bytes
  unfolding stamp struct_pack
  make_variables t = do
    time ← struct_pack 8 (stamp t)
    error ← struct_pack 2 t.error
    other_len ← struct_pack 2 (length t.other_data)
    ok (
        O.contents (
          O.append
            (O.pack_packed (O.encode_name_nocompress O.new t.alg_name) (time ++ error ++ other_len))
            t.other_data))

  -- `unpack` of one number of so many bytes; the format of several reads one after the other.
  unfoldable pub unpack : ℕ → O.Reader → Result (ℕ × O.Reader)
  unfolding or_buffer_error of_be
  unpack k r = do got ← or_buffer_error (O.get r k); ok (of_be 0 got.0, got.1)

  unfoldable pub decode_tsig : Bytes → Result Tsig
  unfolding or_buffer_error or_value_error unpack
  decode_tsig contents = do
    name ← or_buffer_error (O.decode_name (O.of_bytes contents))
    time ← unpack 8 name.1
    mac_len ← unpack 2 time.1
    mac ← or_buffer_error (O.get mac_len.1 mac_len.0)
    id ← unpack 2 mac.1
    error ← unpack 2 id.1
    other_len ← unpack 2 error.1
    other ← or_buffer_error (O.get other_len.1 other_len.0)
    signed ← or_value_error (O.from_timestamp (time.0 / 65536))
    ok (record {
      alg_name = name.0;
      time_signed = signed;
      fudge = time.0 % 65536;
      mac = mac.0;
      original_id = id.0;
      error = error.0;
      other_data = other.0;
    })
