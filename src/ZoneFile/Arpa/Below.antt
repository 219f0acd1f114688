-- ===== src/ZoneFile/Arpa/Below.antt =====
-- The addresses of a network stand below its name.
use hexdns.Common.{
  ℕ, zero, suc, ◌+◌, ◌*◌, ◌-◌, ◌/◌, ◌%◌, ◌≤◌, ◌≡◌, refl, sym, ap, ◌∙◌, List, [], ◌∷◌, ◌++◌, map,
  Bytes, append_assoc, arith, length, length-append,
}
use mathlib.Core.List.{reverse}
use mathlib.Core.List
use hexdns.ZoneFile.Strings.{show}
use hexdns.ZoneFile.Arpa.{
  hex_digit, Address, v4_address, v6_address, digits, exploded4, exploded6, take, network_labels,
  address_labels,
}

-- `n >> size`
unfoldable pub shift_right : ℕ → ℕ → ℕ
shift_right zero n = n
shift_right (suc size) n = shift_right size (n / 2)

-- The address agrees with the network's on the bits of the prefix.
unfoldable pub IsIn : Address → Address → ℕ → Type 0
unfolding shift_right
IsIn (v6_address a) (v6_address n) prefixlen =
    shift_right (128 - prefixlen) a ≡ shift_right (128 - prefixlen) n
IsIn (v4_address a) (v4_address n) prefixlen =
    shift_right (32 - prefixlen) a ≡ shift_right (32 - prefixlen) n
IsIn _ _ prefixlen = ⊥

-- The digits of an address that a label holds, and how many bits each has.
abbrev pub label_bits : Address → ℕ
label_bits (v6_address n) = 4
label_bits (v4_address n) = 8

-- The number without its last digits.
unfoldable pub without : ℕ → ℕ → ℕ → ℕ
without base zero n = n
without base (suc count) n = without base count (n / base)

length-digits : (base size n : ℕ) → length (digits base size n) ≡ size
unfolding digits
length-digits base zero n = refl
length-digits base (suc size) n = omega (
  arith,
  length-digits base size (n / base),
  length-append (digits base size (n / base)) (n % base ∷ []),
)

take-append {ℓ} :
    {A : Type ℓ} (n : ℕ) (xs ys : List A) → n ≤ length xs → take n (xs ++ ys) ≡ take n xs
unfolding take
take-append zero xs ys h = refl
take-append (suc n) [] ys h = absurd (omega arith)
take-append (suc n) (x ∷ xs) ys h = rw (take-append n xs ys (omega arith)) refl

take_all {ℓ} : {A : Type ℓ} (n : ℕ) (xs : List A) → length xs ≡ n → take n xs ≡ xs
unfolding take
take_all zero [] h = refl
take_all zero (x ∷ xs) h = absurd (omega arith)
take_all (suc n) [] h = refl
take_all (suc n) (x ∷ xs) h = rw (take_all n xs (omega arith)) refl

digits-suc :
    (base size n : ℕ) → digits base (suc size) n ≡ digits base size (n / base) ++ n % base ∷ []
unfolding digits
digits-suc base size n = refl

take-digits :
    (base kept count n : ℕ)
    → take kept (digits base (count + kept) n) ≡ digits base kept (without base count n)
unfolding without
take-digits base kept zero n =
    let same : 0 + kept ≡ kept = omega arith in
    rw same (take_all kept (digits base kept n) (length-digits base kept n))
take-digits base kept (suc count) n =
    let same : suc count + kept ≡ suc (count + kept) = omega arith in
    let long : kept ≤ length (digits base (count + kept) (n / base)) =
      omega (arith, length-digits base (count + kept) (n / base)) in
    rw
      (
        same,
        digits-suc base (count + kept) n,
        take-append kept (digits base (count + kept) (n / base)) (n % base ∷ []) long,
      )
      (take-digits base kept count (n / base))

without-hex : (count n : ℕ) → without 16 count n ≡ shift_right (count * 4) n
unfolding without shift_right
without-hex zero n = refl
without-hex (suc count) n =
    let more : suc count * 4 ≡ suc (suc (suc (suc (count * 4)))) = omega arith in
    let same : n / 2 / 2 / 2 / 2 ≡ n / 16 = omega arith in
    rw more (rw (shift_right, same) (without-hex count (n / 16)))

without-byte : (count n : ℕ) → without 256 count n ≡ shift_right (count * 8) n
unfolding without shift_right
without-byte zero n = refl
without-byte (suc count) n =
    let more : suc count * 8 ≡ suc (suc (suc (suc (suc (suc (suc (suc (count * 8)))))))) =
      omega arith in
    let same : n / 2 / 2 / 2 / 2 / 2 / 2 / 2 / 2 ≡ n / 256 = omega arith in
    rw more (rw (shift_right, same) (without-byte count (n / 256)))

take-map : {A B : Type 0} (f : A → B) (n : ℕ) (xs : List A) → take n (map f xs) ≡ map f (take n xs)
unfolding take
take-map f zero xs = refl
take-map f (suc n) [] = refl
take-map f (suc n) (x ∷ xs) = rw (take-map f n xs) refl

drop {ℓ} : {A : Type ℓ} → ℕ → List A → List A
drop zero xs = xs
drop (suc n) [] = []
drop (suc n) (x ∷ xs) = drop n xs

take-append-drop {ℓ} : {A : Type ℓ} (n : ℕ) (xs : List A) → take n xs ++ drop n xs ≡ xs
unfolding take drop
take-append-drop zero xs = refl
take-append-drop (suc n) [] = refl
take-append-drop (suc n) (x ∷ xs) = rw (take-append-drop n xs) refl

-- The labels of all digits end in those of the first.
labels-below :
    {A : Type 0} (n : ℕ) (xs ys suffix : List A)
    → take n xs ≡ take n ys
    → (front : List A) × (reverse xs ++ suffix ≡ front ++ (reverse (take n ys) ++ suffix))
labels-below n xs ys suffix same = (
  reverse (drop n xs),
  ap (λ l. reverse l ++ suffix) (sym (take-append-drop n xs))
      ∙ rw (List.reverse-append (take n xs) (drop n xs), same) (append_assoc _ _ suffix),
)

take-digits-same :
    (base kept size count a n : ℕ)
    → count + kept ≡ size
    → without base count a ≡ without base count n
    → take kept (digits base size a) ≡ take kept (digits base size n)
take-digits-same base kept size count a n sizes same =
    rw (← sizes, take-digits base kept count a, take-digits base kept count n, same) refl

-- The bits of an address.
abbrev pub width : Address → ℕ
width (v6_address n) = 128
width (v4_address n) = 32

-- If a whole number of labels holds the prefix, then the name of an address of the network ends in
-- the name of the network.
pub address_labels-below :
    (a n : Address) (kept : ℕ)
    → kept * label_bits n ≤ width n
    → IsIn a n (kept * label_bits n)
    → (front : List Bytes) × (address_labels a ≡ front ++ network_labels n (kept * label_bits n))
unfolding address_labels network_labels IsIn
address_labels-below (v6_address a) (v6_address n) kept h agree =
    let labels : (kept * 4 + 3) / 4 ≡ kept = omega arith in
    let bits : 128 - kept * 4 ≡ (32 - kept) * 4 = omega arith in
    let same : without 16 (32 - kept) a ≡ without 16 (32 - kept) n =
      without-hex (32 - kept) a ∙ rw bits at agree ∙ sym (without-hex (32 - kept) n) in
    rw labels (
      labels-below kept (exploded6 a) (exploded6 n) _ (
        take-map _ kept (digits 16 32 a)
        ∙ ap (map (λ d. hex_digit d ∷ []))
            (take-digits-same 16 kept 32 (32 - kept) a n (omega arith) same)
        ∙ sym (take-map _ kept (digits 16 32 n))))
address_labels-below (v4_address a) (v4_address n) kept h agree =
    let labels : (kept * 8 + 7) / 8 ≡ kept = omega arith in
    let bits : 32 - kept * 8 ≡ (4 - kept) * 8 = omega arith in
    let same : without 256 (4 - kept) a ≡ without 256 (4 - kept) n =
      without-byte (4 - kept) a ∙ rw bits at agree ∙ sym (without-byte (4 - kept) n) in
    rw labels (
      labels-below kept (exploded4 a) (exploded4 n) _ (
        take-map _ kept (digits 256 4 a)
        ∙ ap (map show) (take-digits-same 256 kept 4 (4 - kept) a n (omega arith) same)
        ∙ sym (take-map _ kept (digits 256 4 n))))
address_labels-below (v6_address a) (v4_address n) kept h agree = absurd agree
address_labels-below (v4_address a) (v6_address n) kept h agree = absurd agree
