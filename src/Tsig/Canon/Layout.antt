-- ===== src/Tsig/Canon/Layout.antt =====
-- The layout of the canonical form: each record's data stands behind its own length.
use hexdns.Common.{
  ℕ, ◌-◌, ◌<◌, ◌==◌, ltb, if◌then◌else◌, Bool-cases, inl, inr, List, [], ◌∷◌, ◌++◌, length, Bytes,
  ◌≡◌, refl, sym, ◌∙◌, ap, Result, ok, err, ◌>>=◌, append_assoc, append-nil, length-append, arith,
  Ensures, if_both,
}
use hexdns.Dns.External.{External}
use hexdns.Dns.Qtype
use hexdns.Dns.Message.{Rdata, mx_rd, cname_rd, ns_rd, soa_rd, srv_rd, opt_rd, a_rd}
use hexdns.Update.Request.{UpdateRr}
use hexdns.Tsig.{Outside, be, bound, struct_pack}
use hexdns.Tsig.RoundTrip.{length-be, struct_pack-ok, struct_pack-half}
use hexdns.Tsig.Canon.{
  Wires, pack_options, pack_times, pack_named, pack_opt, data_or_empty, pack_canon_data,
  pack_rr_canon,
}

word : (n : ℕ) → n < 4294967296 → n < bound 4
unfolding bound
word n h = h

module _ ⦃E : External⦄ ⦃O : Outside⦄ ⦃C : Wires⦄ where
  -- The times of a SOA record as the fields of five 32-bit numbers.
  unfoldable pub times_bytes : List ℕ → Bytes
  times_bytes [] = []
  times_bytes (t ∷ ts) = be 4 t ++ times_bytes ts

  unfoldable pub options_bytes : List Bytes → Bytes
  options_bytes [] = []
  options_bytes (o ∷ os) = C.option_bytes o ++ options_bytes os

  -- The canonical form of data (RFC 4034, section 6.2), field by field: the names of MX, CNAME, NS, SOA
  -- and SRV data stand uncompressed, other data as dnslib packs it behind what stands in the buffer.
  unfoldable pub canon_bytes : Rdata → O.Buffer → Bytes
  unfolding times_bytes options_bytes
  canon_bytes (mx_rd name preference) b = be 2 preference ++ O.wire_name (C.label_of name)
  canon_bytes (cname_rd name) b = O.wire_name (C.label_of name)
  canon_bytes (ns_rd name) b = O.wire_name (C.label_of name)
  canon_bytes (soa_rd mname rname times) b =
      O.wire_name (C.label_of mname) ++ (O.wire_name (C.label_of rname) ++ times_bytes times)
  canon_bytes (srv_rd priority weight port target) b =
      be 2 priority ++ (be 2 weight ++ (be 2 port ++ O.wire_name (C.label_of target)))
  canon_bytes content b = C.rdata_bytes content b

  -- An OPT record has its options, behind one another.
  unfoldable pub data_bytes : ℕ → Rdata → O.Buffer → Bytes
  unfolding canon_bytes
  data_bytes rtype (opt_rd os) b =
      if rtype == Qtype.opt then options_bytes os else C.rdata_bytes (opt_rd os) b
  data_bytes rtype content b = canon_bytes content b

  -- The second buffer has the bytes behind what the first has.
  abbrev pub Adds : O.Buffer → Bytes → O.Buffer → Type 0
  Adds b added b' = O.contents b' ≡ O.contents b ++ added

  Adds-trans : (a b c : O.Buffer) (xs ys : Bytes) → Adds a xs b → Adds b ys c → Adds a (xs ++ ys) c
  Adds-trans a b c xs ys e f = f ∙ rw (e, append_assoc (O.contents a) xs ys) refl

  packed_name-Adds :
      (b : O.Buffer) (bs : Bytes) (n : E.Label)
      → Adds b (bs ++ O.wire_name n) (O.encode_name_nocompress (O.pack_packed b bs) n)
  packed_name-Adds b bs n =
      Adds-trans b _ _ bs (O.wire_name n) (O.contents-pack_packed b bs)
        (O.contents-encode_name (O.pack_packed b bs) n)

  pack_options-Adds :
      (os : List Bytes) (b : O.Buffer) → Adds b (options_bytes os) (pack_options os b)
  unfolding pack_options options_bytes
  pack_options-Adds [] b = sym (append-nil (O.contents b))
  pack_options-Adds (o ∷ os) b =
      Adds-trans b _ _ (C.option_bytes o) (options_bytes os) (C.contents-pack_option o b)
        (pack_options-Adds os (C.pack_option o b))

  -- What follows a call may use what the call ensures of its value.
  after :
      {A B : Type 0} (Q : A → Type 0) (P : B → Type 0) (first : Result A) (next : A → Result B)
      → Ensures Q first
      → ((a : A) → Q a → Ensures P (next a))
      → Ensures P (first >>= next)
  after Q P (ok a) next q h = h a q
  after Q P (err e) next q h = tt

  abbrev IsNumber : ℕ → ℕ → Bytes → Type 0
  IsNumber width n bs = bs ≡ be width n

  struct_pack-IsNumber : (width n : ℕ) → Ensures (IsNumber width n) (struct_pack width n)
  unfolding struct_pack
  struct_pack-IsNumber width n = if_both (Ensures (IsNumber width n)) (ltb n (bound width)) refl tt

  pack_times-times_bytes : (ts : List ℕ) → Ensures (λ bs. bs ≡ times_bytes ts) (pack_times ts)
  unfolding pack_times times_bytes
  pack_times-times_bytes [] = refl
  pack_times-times_bytes (t ∷ ts) =
      let P = λ (bs : Bytes). bs ≡ times_bytes (t ∷ ts) in
      after (IsNumber 4 t) P (struct_pack 4 t) _ (struct_pack-IsNumber 4 t) λ first is_first.
        after (λ bs. bs ≡ times_bytes ts) P (pack_times ts) _ (pack_times-times_bytes ts)
          λ rest is_rest. rw (is_first, is_rest) refl

  -- Whatever data is packed, its canonical form stands behind what was there.
  abbrev AddsData : Rdata → O.Buffer → O.Buffer → Type 0
  AddsData content b = Adds b (canon_bytes content b)

  pack_named-AddsData :
      (content : Rdata) (b : O.Buffer) → Ensures (AddsData content b) (pack_named content b)
  unfolding pack_named canon_bytes
  pack_named-AddsData (mx_rd name preference) b =
      after (IsNumber 2 preference) _ (struct_pack 2 preference) _
        (struct_pack-IsNumber 2 preference)
        λ p is. rw is (packed_name-Adds b (be 2 preference) (C.label_of name))
  pack_named-AddsData (cname_rd name) b = O.contents-encode_name b (C.label_of name)
  pack_named-AddsData (ns_rd name) b = O.contents-encode_name b (C.label_of name)
  pack_named-AddsData (soa_rd mname rname times) b =
      let m = C.label_of mname in
      let r = C.label_of rname in
      let b1 = O.encode_name_nocompress b m in
      let b2 = O.encode_name_nocompress b1 r in
      after (λ bs. bs ≡ times_bytes times) _ (pack_times times) _ (pack_times-times_bytes times)
        λ ts is. rw is (
          Adds-trans b b1 _ (O.wire_name m) _ (O.contents-encode_name b m) (
            Adds-trans b1 b2 _ (O.wire_name r) (times_bytes times) (O.contents-encode_name b1 r)
              (O.contents-pack_packed b2 (times_bytes times))))
  pack_named-AddsData (srv_rd priority weight port target) b =
      after (IsNumber 2 priority) _ (struct_pack 2 priority) _ (struct_pack-IsNumber 2 priority)
        λ p is_p.
          after (IsNumber 2 weight) _ (struct_pack 2 weight) _ (struct_pack-IsNumber 2 weight)
            λ w is_w.
              after (IsNumber 2 port) _ (struct_pack 2 port) _ (struct_pack-IsNumber 2 port)
                λ o is_o.
                  packed_name-Adds b (p ++ w ++ o) (C.label_of target)
                  ∙ rw (is_p, is_w, is_o) (simp append_assoc)
  pack_named-AddsData (a_rd t) b = C.contents-pack_rdata (a_rd t) b
  pack_named-AddsData content b = C.contents-pack_rdata content b

  -- Of data that OPT takes or that other types take, the bytes of its own.
  pack_canon_data-Adds :
      (rtype : ℕ) (content : Rdata) (b : O.Buffer)
      → Ensures (Adds b (data_bytes rtype content b)) (pack_canon_data rtype content b)
  unfolding pack_canon_data pack_opt data_bytes pack_named canon_bytes
  pack_canon_data-Adds rtype (opt_rd os) b = elim (Bool-cases (rtype == Qtype.opt)) [
    | inl opt ↦ rw (opt, pack_canon_data, data_bytes) (pack_options-Adds os b)
    | inr other ↦ rw (other, pack_canon_data, data_bytes) (C.contents-pack_rdata (opt_rd os) b)
  ]
  pack_canon_data-Adds rtype (a_rd t) b =
      if_both (Ensures (AddsData (a_rd t) b)) (rtype == Qtype.opt) tt
        (pack_named-AddsData (a_rd t) b)
  pack_canon_data-Adds rtype content b =
      if_both (Ensures (AddsData content b)) (rtype == Qtype.opt) tt (pack_named-AddsData content b)

  -- The buffer with the fields before the length, and with the place of the length.
  abbrev pub head : UpdateRr → O.Buffer → O.Buffer
  head rr b =
      O.pack_packed (O.encode_name_nocompress b rr.rname)
        (be 2 rr.rtype ++ be 2 rr.rclass ++ be 4 rr.ttl)

  abbrev pub start : UpdateRr → O.Buffer → O.Buffer
  start rr b = O.pack_packed (head rr b) (be 2 0)

  -- The fields of the record fit, its data is packed, and fits its length.
  pub record IsPackable (rr : UpdateRr) (b packed : O.Buffer) : Type 0 where
    pub type_fits : rr.rtype < 65536
    pub class_fits : rr.rclass < 65536
    pub ttl_fits : rr.ttl < 4294967296
    pub data_packed : pack_canon_data rr.rtype (data_or_empty rr.rdata) (start rr b) ≡ ok packed
    pub size_fits : C.offset packed - C.offset (start rr b) < 65536

  contents-head :
      (rr : UpdateRr) (b : O.Buffer)
      → O.contents (head rr b)
        ≡ O.contents b
          ++ (O.wire_name rr.rname ++ (be 2 rr.rtype ++ (be 2 rr.rclass ++ be 4 rr.ttl)))
  contents-head rr b = simp (O.contents-pack_packed, O.contents-encode_name, append_assoc)

  offset-added :
      (b c : O.Buffer) (added : Bytes)
      → O.contents c ≡ O.contents b ++ added
      → C.offset c - C.offset b ≡ length added
  offset-added b c added e = omega (
    arith,
    C.offset-contents b,
    C.offset-contents c,
    ap length e,
    length-append (O.contents b) added,
  )

  -- The canonical form of a record's data.
  abbrev pub rr_data : UpdateRr → O.Buffer → Bytes
  rr_data rr b = data_bytes rr.rtype (data_or_empty rr.rdata) (start rr b)

  data_of :
      (rr : UpdateRr) (b packed : O.Buffer)
      → IsPackable rr b packed
      → (O.contents packed ≡ O.contents (head rr b) ++ (be 2 0 ++ rr_data rr b))
        × (C.offset packed - C.offset (start rr b) ≡ length (rr_data rr b))
  data_of rr b packed h =
      let e : Adds (start rr b) (rr_data rr b) packed =
        rw h.data_packed at (pack_canon_data-Adds rr.rtype (data_or_empty rr.rdata) (start rr b)) in
      (
        e
            ∙ rw
                (
                  O.contents-pack_packed (head rr b) (be 2 0),
                  append_assoc (O.contents (head rr b)) (be 2 0) (rr_data rr b),
                )
                refl,
        offset-added (start rr b) packed (rr_data rr b) e,
      )

  -- A record whose fields fit and whose data is packed is packed: behind what stood in the buffer
  -- come its name uncompressed, its type, class and time to live, the length of its data, and the
  -- canonical form of its data.
  pub pack_rr_canon-layout :
      (rr : UpdateRr) (b packed : O.Buffer)
      → IsPackable rr b packed
      → (b' : O.Buffer) × (pack_rr_canon rr b ≡ ok b')
        × (O.contents b'
            ≡ O.contents b
              ++ (O.wire_name rr.rname
                  ++ (be 2 rr.rtype
                      ++ (be 2 rr.rclass
                          ++ (be 4 rr.ttl ++ (be 2 (length (rr_data rr b)) ++ rr_data rr b))))))
  unfolding pack_rr_canon
  pack_rr_canon-layout rr b packed h =
      let data_ = rr_data rr b in
      let (e, size) = data_of rr b packed h in
      let head_ = head rr b in
      let b' = C.update packed (C.offset head_) (be 2 (length data_)) in
      let written : O.contents b' ≡ O.contents head_ ++ (be 2 (length data_) ++ data_) =
        rw (C.offset-contents head_) (
          C.contents-update packed (O.contents head_) (be 2 0) (be 2 (length data_)) data_ e
            (length-be 2 0 ∙ sym (length-be 2 (length data_)))) in
      (
        b',
        rw
            (
              struct_pack-half rr.rtype h.type_fits,
              struct_pack-half rr.rclass h.class_fits,
              struct_pack-ok 4 rr.ttl (word rr.ttl h.ttl_fits),
              h.data_packed,
              size,
              struct_pack-half (length data_) (rw (← size) h.size_fits),
              pack_rr_canon,
            )
            refl,
        written ∙ rw (contents-head rr b) (simp append_assoc),
      )
