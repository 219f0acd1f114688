-- ===== src/Tsig/Tests.antt =====
-- A run of the encoding and the decoding, with buffers that are lists of bytes and names of one
-- label, and the round trip at a record that fits.
pub mod Canon
use hexdns.Common.{
  ℕ, zero, suc, [], ◌∷◌, ◌++◌, length, Bytes, codes, ◌≡◌, refl, Option, none, some, ok, arith,
}
use hexdns.Common.{append_assoc, List}
use hexdns.Dns.Sample.{sample}
use hexdns.Tsig.{Outside, Tsig, make_tsig, decode_tsig}
use hexdns.Tsig.RoundTrip.{Fits, rounded, decode_tsig-make_tsig}

unfoldable pub get : Bytes → ℕ → Option (Bytes × Bytes)
get bs zero = some ([], bs)
get [] (suc n) = none
get (b ∷ bs) (suc n) = elim (get bs n) [ none ↦ none | some r ↦ some (b ∷ r.0, r.1) ]

-- The number of labels, then each behind its length.
unfoldable pub labels_wire : List Bytes → Bytes
labels_wire [] = []
labels_wire (l ∷ ls) = length l ∷ (l ++ labels_wire ls)

unfoldable pub read_labels : ℕ → Bytes → Option (List Bytes × Bytes)
unfolding get
read_labels zero bs = some ([], bs)
read_labels (suc n) [] = none
read_labels (suc n) (k ∷ bs) = elim (get bs k) [
  | none ↦ none
  | some (l, rest) ↦ elim (read_labels n rest) [
    | none ↦ none
    | some (ls, rest') ↦ some (l ∷ ls, rest')
  ]
]

unfoldable pub count_labels : List Bytes → ℕ
count_labels [] = 0
count_labels (l ∷ ls) = suc (count_labels ls)

unfoldable pub decode_name : Bytes → Option (List Bytes × Bytes)
unfolding read_labels
decode_name [] = none
decode_name (n ∷ bs) = read_labels n bs

pub get-append : (xs ys : Bytes) → get (xs ++ ys) (length xs) ≡ some (xs, ys)
unfolding get
get-append [] ys = refl
get-append (x ∷ xs) ys = rw (get-append xs ys) refl

read_labels-append :
    (ls : List Bytes) (ys : Bytes)
    → read_labels (count_labels ls) (labels_wire ls ++ ys) ≡ some (ls, ys)
unfolding read_labels labels_wire count_labels
read_labels-append [] ys = refl
read_labels-append (l ∷ ls) ys = rw (append_assoc l (labels_wire ls) ys) (
    rw (get-append l (labels_wire ls ++ ys), read_labels)
      (rw (read_labels-append ls ys, read_labels) refl))

pub decode_name-append :
    (ls : List Bytes) (ys : Bytes)
    → decode_name (count_labels ls ∷ (labels_wire ls ++ ys)) ≡ some (ls, ys)
unfolding decode_name
decode_name-append ls ys = read_labels-append ls ys

abbrev pub lists : Outside ⦃E = sample⦄
lists = record {
  Buffer = Bytes;
  new = [];
  contents = λ b. b;
  append = λ b bs. b ++ bs;
  pack_packed = λ b bs. b ++ bs;
  encode_name_nocompress = λ b n. b ++ count_labels n ∷ labels_wire n;
  Reader = Bytes;
  of_bytes = λ bs. bs;
  left = λ r. r;
  get = get;
  decode_name = decode_name;
  Time = ℕ;
  timestamp = λ t. t;
  from_timestamp = λ n. some n;
  wire_name = λ n. count_labels n ∷ labels_wire n;
  contents-new = refl;
  contents-append = λ b bs. refl;
  contents-pack_packed = λ b bs. refl;
  contents-encode_name = λ b n. refl;
  left-of_bytes = λ bs. refl;
  get-left = λ r xs ys e. (ys, rw e (get-append xs ys), refl);
  decode_name-left = λ r n ys e. (ys, rw e (decode_name-append n ys), refl);
}

abbrev pub signed : Tsig ⦃E = sample⦄ ⦃O = lists⦄
signed = record {
  alg_name = codes "hmac-sha256" ∷ [];
  time_signed = 1700000000;
  fudge = 300;
  mac = 1 ∷ 2 ∷ 3 ∷ [];
  original_id = 4660;
  error = 18;
  other_data = 0 ∷ 0 ∷ [];
}

wire_test :
    make_tsig ⦃E = sample⦄ ⦃O = lists⦄ signed
    ≡ ok (
        1
        ∷ 11
        ∷ (codes "hmac-sha256"
            ++ (0 ∷ 0 ∷ 101 ∷ 83 ∷ 241 ∷ 0 ∷ 1 ∷ 44 ∷ 0 ∷ 3 ∷ 1 ∷ 2 ∷ 3 ∷ 18 ∷ 52 ∷ 0 ∷ 18 ∷ 0 ∷ 2
                ∷ 0 ∷ 0 ∷ [])))
unfolding make_tsig labels_wire count_labels
wire_test = refl

signed-Fits : Fits ⦃E = sample⦄ ⦃O = lists⦄ signed
signed-Fits = record {
  time = omega arith;
  mac = omega arith;
  id = omega arith;
  error = omega arith;
  other = omega arith;
}

decode_tsig-make_tsig_example :
    (bs : Bytes) × (make_tsig ⦃E = sample⦄ ⦃O = lists⦄ signed ≡ ok bs)
    × (decode_tsig ⦃E = sample⦄ ⦃O = lists⦄ bs
        ≡ ok (rounded ⦃E = sample⦄ ⦃O = lists⦄ signed 1700000000))
decode_tsig-make_tsig_example =
    decode_tsig-make_tsig ⦃E = sample⦄ ⦃O = lists⦄ signed 1700000000 signed-Fits refl
