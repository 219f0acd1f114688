-- ===== src/Svcb/Params/Pack/Wire.antt =====
-- The bytes that `SVCBParamList.pack` appends, and that they can be read back.
use Prim.Native.Nat.{suc, ◌/◌, ◌%◌}
use mathlib.Core.List.{Perm}
use hexdns.Svcb.Params.Pack.Sorted.{IsSorted, All-sorted, sorted-IsSorted, sorted-perm}
use hexdns.Common.{
  ◌+◌, zero, refl, ◌*◌, none, Option, All, some, ◌>>=◌, false, ltb, ap, ℕ, ◌<◌, List, [], ◌∷◌, ◌++◌,
  length, ◌≡◌, Bytes, ℤ, pos, Result, ok, err, arith, append_assoc, append-nil, ◌∙◌,
}
use hexdns.Svcb.Params.{
  SvcbParam, ParamData, null_data, octet_data, integer_data, mandatory_data, alpn_data, ipv4_data,
  ipv6_data,
}
use hexdns.Svcb.Params.Pack.{
  sorted, pack_each, pack_params, pack_param, pack_header, DnsBuffer, struct_h, struct_b, pack_h,
  pack_data,
}

-- Two bytes, the high one first.
abbrev pub be16 : ℕ → Bytes
be16 n = n / 256 ∷ n % 256 ∷ []

-- `bs` is the wire form of the value.
pub data IsValueOf : ParamData → Bytes → Type 0 where
  is_null : IsValueOf null_data []
  is_octets : (bs : Bytes) → IsValueOf (octet_data bs) bs
  is_integer : (n : ℕ) → n < 65536 → IsValueOf (integer_data n) (be16 n)
  no_keys : IsValueOf (mandatory_data []) []
  more_keys :
      (n : ℕ) (ps : List ℤ) (bs : Bytes)
      → n < 65536
      → IsValueOf (mandatory_data ps) bs
      → IsValueOf (mandatory_data (pos n ∷ ps)) (be16 n ++ bs)
  no_alpns : IsValueOf (alpn_data []) []
  more_alpns :
      (v : Bytes) (vs : List Bytes) (bs : Bytes)
      → length v < 256
      → IsValueOf (alpn_data vs) bs
      → IsValueOf (alpn_data (v ∷ vs)) (length v ∷ (v ++ bs))
  no_ipv4 : IsValueOf (ipv4_data []) []
  more_ipv4 :
      (a : Bytes) (addrs : List Bytes) (bs : Bytes)
      → IsValueOf (ipv4_data addrs) bs
      → IsValueOf (ipv4_data (a ∷ addrs)) (a ++ bs)
  no_ipv6 : IsValueOf (ipv6_data []) []
  more_ipv6 :
      (a : Bytes) (addrs : List Bytes) (bs : Bytes)
      → IsValueOf (ipv6_data addrs) bs
      → IsValueOf (ipv6_data (a ∷ addrs)) (a ++ bs)

-- The parameter fits the wire, as the key `n` and the value `bs`.
pub record Fits (p : SvcbParam) : Type 0 where
  pub number : ℕ
  pub bytes : Bytes
  pub key_fits : p.key ≡ pos number
  pub number_fits : number < 65536
  pub value_is : IsValueOf p.value bytes
  pub bytes_fit : length bytes < 65536

struct_h-ok : (n : ℕ) → n < 65536 → struct_h (pos n) ≡ ok (be16 n)
unfolding struct_h
struct_h-ok n h = ground arith

struct_b-ok : (n : ℕ) → n < 256 → struct_b n ≡ ok (n ∷ [])
unfolding struct_b
struct_b-ok n h = ground arith

-- The wire form of one parameter, and of a list.
abbrev pub entry_bytes : ℕ × Bytes → Bytes
entry_bytes e = be16 e.0 ++ (be16 (length e.1) ++ e.1)

abbrev pub wire : List (ℕ × Bytes) → Bytes
wire [] = []
wire (e ∷ es) = entry_bytes e ++ wire es

-- The numbers and value bytes of parameters that fit.
abbrev pub entries : (ps : List SvcbParam) → All Fits ps → List (ℕ × Bytes)
entries [] a = []
entries (p ∷ ps) a = (a.0.number, a.0.bytes) ∷ entries ps a.1

-- The order on the wire, parameter by parameter, and what stands there.
abbrev pub Matches : List SvcbParam → List (ℕ × Bytes) → Type 0
Matches [] [] = Unit
Matches (p ∷ ps) (e ∷ es) = (p.key ≡ pos e.0) × IsValueOf p.value e.1 × Matches ps es
Matches _ _ = ⊥

Matches-entries : (ps : List SvcbParam) (a : All Fits ps) → Matches ps (entries ps a)
Matches-entries [] a = tt
Matches-entries (p ∷ ps) a = (a.0.key_fits, a.0.value_is, Matches-entries ps a.1)

-- The first `n` bytes and the rest, if there are so many.
abbrev pub split_at : ℕ → Bytes → Option (Bytes × Bytes)
split_at zero d = some ([], d)
split_at (suc n) [] = none
split_at (suc n) (x ∷ d) = elim (split_at n d) [ none ↦ none | some r ↦ some (x ∷ r.0, r.1) ]

split_at-append : (xs ys : Bytes) → split_at (length xs) (xs ++ ys) ≡ some (xs, ys)
split_at-append [] ys = refl
split_at-append (x ∷ xs) ys = rw (split_at-append xs ys)

-- A reader of the wire format of RFC 9460, section 2.2; the fuel is one more than the entries.
abbrev pub read_wire : ℕ → Bytes → Option (List (ℕ × Bytes))
read_wire zero d = none
read_wire (suc fuel) [] = some []
read_wire (suc fuel) (a ∷ b ∷ c ∷ e ∷ d) = elim (split_at (c * 256 + e) d) [
  | none ↦ none
  | some r ↦ elim (read_wire fuel r.1) [ none ↦ none | some es ↦ some ((a * 256 + b, r.0) ∷ es) ]
]
read_wire (suc fuel) _ = none

be16_value : (n : ℕ) → (n / 256) * 256 + n % 256 ≡ n
be16_value n = omega arith

read_wire-step :
    (fuel a b c e : ℕ) (d xs ys : Bytes) (es : List (ℕ × Bytes))
    → split_at (c * 256 + e) d ≡ some (xs, ys)
    → read_wire fuel ys ≡ some es
    → read_wire (suc fuel) (a ∷ b ∷ c ∷ e ∷ d) ≡ some ((a * 256 + b, xs) ∷ es)
read_wire-step fuel a b c e d xs ys es h k = rw (h, read_wire) (rw (k, read_wire))

read_wire-wire :
    (ps : List SvcbParam) (a : All Fits ps)
    → read_wire (suc (length (entries ps a))) (wire (entries ps a)) ≡ some (entries ps a)
read_wire-wire [] a = refl
read_wire-wire (p ∷ ps) a =
    let n = length a.0.bytes in
    let split : split_at (n / 256 * 256 + n % 256) (a.0.bytes ++ wire (entries ps a.1))
        ≡ some (a.0.bytes, wire (entries ps a.1)) =
      rw (be16_value n) (split_at-append a.0.bytes (wire (entries ps a.1))) in
    read_wire-step (suc (length (entries ps a.1))) (a.0.number / 256) (a.0.number % 256) (n / 256)
      (n % 256) (a.0.bytes ++ wire (entries ps a.1)) a.0.bytes (wire (entries ps a.1))
      (entries ps a.1) split (read_wire-wire ps a.1)
    ∙ rw (be16_value a.0.number)

module _ (B : DnsBuffer) where
  open B use {
    Buffer, new, contents, len, contents-new, len-contents, contents-append, contents-pack_packed,
  }

  -- The call returns a buffer with `bs` behind what stood in `buf`.
  abbrev pub Appends : Buffer → Bytes → Result Buffer → Type 0
  Appends buf bs (ok buf') = contents buf' ≡ contents buf ++ bs
  Appends buf bs (err _) = ⊥

  Appends-after :
      (buf b : Buffer) (xs ys : Bytes) (m : Result Buffer)
      → contents b ≡ contents buf ++ xs
      → Appends b ys m
      → Appends buf (xs ++ ys) m
  Appends-after buf b xs ys (ok buf') e h = h ∙ rw (e, append_assoc)
  Appends-after buf b xs ys (err x) e h = elim h [ ]

  Appends-bind :
      (buf buf' : Buffer) (xs ys : Bytes) (m : Result Buffer) (k : Buffer → Result Buffer)
      → Appends buf xs m
      → ((b : Buffer) → contents b ≡ contents buf ++ xs → Appends buf' ys (k b))
      → Appends buf' ys (m >>= k)
  Appends-bind buf buf' xs ys (ok b) k h g = g b h
  Appends-bind buf buf' xs ys (err x) k h g = elim h [ ]

  pack_data-Appends :
      (v : ParamData) (bs : Bytes) (buf : Buffer)
      → IsValueOf v bs
      → Appends buf bs (pack_data B v buf)
  unfolding pack_data
  pack_data-Appends v bs buf is_null = rw append-nil
  pack_data-Appends v bs buf (is_octets bs') = contents-append buf bs'
  pack_data-Appends v bs buf (is_integer n h) = rw (struct_h-ok n h) (contents-append buf (be16 n))
  pack_data-Appends v bs buf no_keys = rw append-nil
  pack_data-Appends v bs buf (more_keys n ps bs' h t) =
      rw (struct_h-ok n h, pack_h)
        (Appends-after buf (B.pack_packed buf (be16 n)) (be16 n) bs' _
          (contents-pack_packed buf (be16 n)) (pack_data-Appends (mandatory_data ps) bs' _ t))
  pack_data-Appends v bs buf no_alpns = rw append-nil
  pack_data-Appends v bs buf (more_alpns w vs bs' h t) = rw (struct_b-ok (length w) h) (
      Appends-after buf (B.append (B.pack_packed buf (length w ∷ [])) w) (length w ∷ w) bs' _
        (contents-append _ w ∙ rw (contents-pack_packed buf (length w ∷ []), append_assoc))
        (pack_data-Appends (alpn_data vs) bs' _ t))
  pack_data-Appends v bs buf no_ipv4 = rw append-nil
  pack_data-Appends v bs buf (more_ipv4 a addrs bs' t) =
      Appends-after buf (B.append buf a) a bs' (pack_data B (ipv4_data addrs) (B.append buf a))
        (contents-append buf a) (pack_data-Appends (ipv4_data addrs) bs' (B.append buf a) t)
  pack_data-Appends v bs buf no_ipv6 = rw append-nil
  pack_data-Appends v bs buf (more_ipv6 a addrs bs' t) =
      Appends-after buf (B.append buf a) a bs' (pack_data B (ipv6_data addrs) (B.append buf a))
        (contents-append buf a) (pack_data-Appends (ipv6_data addrs) bs' (B.append buf a) t)

  pack_header-Appends :
      (key : ℤ) (n : ℕ) (bs : Bytes) (buf packed : Buffer)
      → key ≡ pos n
      → n < 65536
      → length bs < 65536
      → contents packed ≡ bs
      → Appends buf (entry_bytes (n, bs)) (pack_header B key buf packed)
  unfolding pack_header
  pack_header-Appends key n bs buf packed e h k c =
      let size : len packed ≡ length bs = len-contents packed ∙ ap length c in
      let small : ltb 65535 (length bs) ≡ false = ground arith in
      rw (size, pack_header)
        (rw (small, pack_header)
          (rw (e, pack_header)
            (rw (struct_h-ok n h) (
              rw size (
                rw (struct_h-ok (length bs) k) (
                  contents-append _ _
                  ∙ rw
                      (contents-pack_packed buf (be16 n ++ be16 (length bs)), c, append_assoc)))))))

  pack_param-Appends :
      (p : SvcbParam) (f : Fits p) (buf : Buffer)
      → Appends buf (entry_bytes (f.number, f.bytes)) (pack_param B p buf)
  unfolding pack_param
  pack_param-Appends p f buf =
      Appends-bind new buf f.bytes (entry_bytes (f.number, f.bytes)) (pack_data B p.value new)
        (pack_header B p.key buf) (pack_data-Appends p.value f.bytes new f.value_is)
        λ packed c.
          pack_header-Appends p.key f.number f.bytes buf packed f.key_fits f.number_fits f.bytes_fit
            (c ∙ rw contents-new)

  pack_each-Appends :
      (ps : List SvcbParam) (a : All Fits ps) (buf : Buffer)
      → Appends buf (wire (entries ps a)) (pack_each B ps buf)
  unfolding pack_each
  pack_each-Appends [] a buf = rw append-nil
  pack_each-Appends (p ∷ ps) a buf =
      Appends-bind buf buf (entry_bytes (a.0.number, a.0.bytes)) (wire (entries (p ∷ ps) a))
        (pack_param B p buf) (pack_each B ps) (pack_param-Appends p a.0 buf)
        λ b e.
          Appends-after buf b (entry_bytes (a.0.number, a.0.bytes)) (wire (entries ps a.1))
            (pack_each B ps b) e (pack_each-Appends ps a.1 b)

  -- How parameters that fit are packed: `order` is the order on the wire, `fields` what stands
  -- there, and `read` says that a reader of the wire format gets it back.
  pub record IsPacked (ps : List SvcbParam) (buf : Buffer) (r : Result Buffer) : Type 0 where
    pub order : List SvcbParam
    pub same_params : Perm order ps
    pub ascending : IsSorted order
    pub fields : List (ℕ × Bytes)
    pub fields_of : Matches order fields
    pub appended : Appends buf (wire fields) r
    pub read : read_wire (suc (length fields)) (wire fields) ≡ some fields

  -- Parameters that fit the wire are packed without an exception: behind what stood in the buffer
  -- come the same parameters in ascending order of their keys, each as its key, the length of its
  -- value and the value, and a reader of that format gets all keys and values back.
  pub pack_params-IsPacked :
      (ps : List SvcbParam) → All Fits ps → (buf : Buffer) → IsPacked ps buf (pack_params B ps buf)
  unfolding pack_params
  pack_params-IsPacked ps a buf =
      let fit = All-sorted Fits ps a in
      record {
        order = sorted ps;
        same_params = sorted-perm ps;
        ascending = sorted-IsSorted ps;
        fields = entries (sorted ps) fit;
        fields_of = Matches-entries (sorted ps) fit;
        appended = pack_each-Appends (sorted ps) fit buf;
        read = read_wire-wire (sorted ps) fit;
      }
