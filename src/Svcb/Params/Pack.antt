-- ===== src/Svcb/Params/Pack.antt =====
-- The wire form of the parameters: the `pack` methods of svcb.py. `dnslib.DNSBuffer` is not part
-- of the program: it is the record `DnsBuffer`, with the laws that its methods are documented by.
pub mod Sorted
pub mod Wire
pub mod Negative
use hexdns.Common.{
  ℕ, ◌/◌, ◌%◌, Bool, true, false, if◌then◌else◌, ltb, List, [], ◌∷◌, ◌++◌, length, Bytes, ◌≡◌, ℤ,
  pos, negsuc, lebℤ, eqℤ, Option, none, some, Result, ok, err, struct_error, value_error, ◌>>=◌,
}
use hexdns.Svcb.Params.{
  ParamData, null_data, octet_data, integer_data, mandatory_data, alpn_data, ipv4_data, ipv6_data,
  SvcbParam, param_mapping, mapping_get,
}

pub record DnsBuffer : Type 1 where
  pub Buffer : Type 0
  pub new : Buffer
  pub contents : Buffer → Bytes
  pub len : Buffer → ℕ
  -- `append(bytes)`, and `pack(fmt, …)` given what `struct.pack` made of its arguments.
  pub append : Buffer → Bytes → Buffer
  pub pack_packed : Buffer → Bytes → Buffer
  pub contents-new : contents new ≡ []
  pub len-contents : (b : Buffer) → len b ≡ length (contents b)
  pub contents-append : (b : Buffer) (bs : Bytes) → contents (append b bs) ≡ contents b ++ bs
  pub contents-pack_packed :
      (b : Buffer) (bs : Bytes) → contents (pack_packed b bs) ≡ contents b ++ bs

-- `struct.pack("!H", n)` and `struct.pack("!B", n)`.
unfoldable pub struct_h : ℤ → Result Bytes
struct_h (pos n) = if ltb n 65536 then ok (n / 256 ∷ n % 256 ∷ []) else err struct_error
struct_h (negsuc n) = err struct_error

unfoldable pub struct_b : ℕ → Result Bytes
struct_b n = if ltb n 256 then ok (n ∷ []) else err struct_error

-- `sorted(params, key=lambda p: p.key)`: Python's sort is stable.
unfoldable pub insert_sorted : SvcbParam → List SvcbParam → List SvcbParam
unfolding lebℤ
insert_sorted p [] = p ∷ []
insert_sorted p (q ∷ qs) = if lebℤ p.key q.key then p ∷ q ∷ qs else q ∷ insert_sorted p qs

unfoldable pub sorted : List SvcbParam → List SvcbParam
unfolding insert_sorted
sorted [] = []
sorted (p ∷ ps) = insert_sorted p (sorted ps)

-- The argument of `__contains__` and `__getitem__`: a `str` or an `int`.
pub data KeyRef : Type 0 where
  named : Bytes → KeyRef
  numbered : ℤ → KeyRef

-- `if key in PARAM_MAPPING: key = PARAM_MAPPING[key]`; a name with no number equals no key.
unfoldable pub resolve_key : KeyRef → Option ℤ
unfolding mapping_get
resolve_key (numbered n) = some n
resolve_key (named k) = elim (mapping_get k param_mapping) [ none ↦ none | some n ↦ some (pos n) ]

unfoldable pub find_key : ℤ → List SvcbParam → Option SvcbParam
unfolding eqℤ
find_key key [] = none
find_key key (v ∷ params) = if eqℤ v.key key then some v else find_key key params

-- `__getitem__`, which returns `None` where no parameter has the key.
unfoldable pub get_item : KeyRef → List SvcbParam → Option SvcbParam
unfolding resolve_key find_key
get_item key params = elim (resolve_key key) [ none ↦ none | some n ↦ find_key n params ]

unfoldable pub has_key : ℤ → List SvcbParam → Bool
unfolding eqℤ
has_key key [] = false
has_key key (v ∷ params) = if eqℤ v.key key then true else has_key key params

-- `__contains__`
unfoldable pub contains : KeyRef → List SvcbParam → Bool
unfolding resolve_key has_key
contains key params = elim (resolve_key key) [ none ↦ false | some n ↦ has_key n params ]

module _ (B : DnsBuffer) where
  open B use {Buffer, new, contents, len, append, pack_packed}

  -- `buf.pack("!H", n)`
  unfoldable pub pack_h : ℤ → Buffer → Result Buffer
  unfolding struct_h
  pack_h n buf = do bs ← struct_h n; ok (pack_packed buf bs)

  -- The loops of `MandatoryData.pack`, `ALPNData.pack`, and of the two address classes.
  unfoldable pub pack_keys : List ℤ → Buffer → Result Buffer
  unfolding pack_h
  pack_keys [] buf = ok buf
  pack_keys (p ∷ ps) buf = do buf' ← pack_h p buf; pack_keys ps buf'

  unfoldable pub pack_alpns : List Bytes → Buffer → Result Buffer
  unfolding struct_b
  pack_alpns [] buf = ok buf
  pack_alpns (p ∷ ps) buf = do
    bs ← struct_b (length p)
    pack_alpns ps (append (pack_packed buf bs) p)

  unfoldable pub pack_addrs : List Bytes → Buffer → Buffer
  pack_addrs [] buf = buf
  pack_addrs (a ∷ addrs) buf = pack_addrs addrs (append buf a)

  unfoldable pub pack_data : ParamData → Buffer → Result Buffer
  unfolding pack_keys pack_alpns pack_addrs struct_h
  pack_data null_data buf = ok buf
  pack_data (octet_data bs) buf = ok (append buf bs)
  pack_data (integer_data n) buf = do bs ← struct_h (pos n); ok (append buf bs)
  pack_data (mandatory_data ps) buf = pack_keys ps buf
  pack_data (alpn_data vs) buf = pack_alpns vs buf
  pack_data (ipv4_data addrs) buf = ok (pack_addrs addrs buf)
  pack_data (ipv6_data addrs) buf = ok (pack_addrs addrs buf)

  -- `SVCBParam.pack` behind the packing of its data.
  unfoldable pub pack_header : ℤ → Buffer → Buffer → Result Buffer
  unfolding struct_h
  pack_header key buffer packed = elim (ltb 65535 (len packed)) [
    | true ↦ err value_error
    | false ↦ do
      k ← struct_h key
      n ← struct_h (pos (len packed))
      ok (append (pack_packed buffer (k ++ n)) (contents packed))
  ]

  -- `SVCBParam.pack`
  unfoldable pub pack_param : SvcbParam → Buffer → Result Buffer
  unfolding pack_data pack_header
  pack_param p buffer = do packed ← pack_data p.value new; pack_header p.key buffer packed

  unfoldable pub pack_each : List SvcbParam → Buffer → Result Buffer
  unfolding pack_param
  pack_each [] buffer = ok buffer
  pack_each (p ∷ ps) buffer = do buffer' ← pack_param p buffer; pack_each ps buffer'

  -- `SVCBParamList.pack`
  unfoldable pub pack_params : List SvcbParam → Buffer → Result Buffer
  unfolding pack_each sorted
  pack_params params buffer = pack_each (sorted params) buffer
