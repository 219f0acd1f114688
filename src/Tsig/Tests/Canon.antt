-- ===== src/Tsig/Tests/Canon.antt =====
-- A run of the canonical form, in buffers that are lists of bytes.
use hexdns.Common.{ℕ, zero, suc, [], ◌∷◌, ◌++◌, length, Bytes, codes, ◌≡◌, refl, some, ok, arith}
use hexdns.Dns.Qtype
use hexdns.Dns.Message.{Rdata, mx_rd, a_rd, aaaa_rd, rd}
use hexdns.Dns.Sample.{sample}
use hexdns.Update.Request.{UpdateRr}
use hexdns.Tsig.{be}
use hexdns.Tsig.Canon.{Wires, data_or_empty, pack_rr_canon}
use hexdns.Tsig.Canon.Layout.{IsPackable, start, data_bytes, canon_bytes, pack_rr_canon-layout}
use hexdns.Tsig.Tests.{lists, labels_wire, count_labels}

unfoldable pub drop : Bytes → ℕ → Bytes
drop bs zero = bs
drop [] (suc n) = []
drop (b ∷ bs) (suc n) = drop bs n

-- The new bytes stand in the place of as many old ones.
unfoldable pub write : Bytes → ℕ → Bytes → Bytes
unfolding drop
write bs zero new = new ++ drop bs (length new)
write [] (suc n) new = []
write (b ∷ bs) (suc n) new = b ∷ write bs n new

drop-append : (old ys : Bytes) → drop (old ++ ys) (length old) ≡ ys
unfolding drop
drop-append [] ys = refl
drop-append (o ∷ old) ys = drop-append old ys

pub write-append :
    (xs old new ys : Bytes)
    → length old ≡ length new
    → write (xs ++ (old ++ ys)) (length xs) new ≡ xs ++ (new ++ ys)
unfolding write
write-append [] old new ys e = rw (← e, drop-append old ys) refl
write-append (x ∷ xs) old new ys e = rw (write-append xs old new ys e) refl

-- Text as it stands.
unfoldable pub text_of : Rdata → Bytes
text_of (rd t) = t
text_of (a_rd t) = t
text_of (aaaa_rd t) = t
text_of _ = []

abbrev pub plain : Wires ⦃E = sample⦄ ⦃O = lists⦄
plain = record {
  offset = λ b. length b;
  update = write;
  label_of = λ text. text ∷ [];
  pack_option = λ o b. b ++ o;
  pack_rdata = λ d b. b ++ text_of d;
  option_bytes = λ o. o;
  rdata_bytes = λ d b. text_of d;
  offset-contents = λ b. refl;
  contents-update = λ b xs old new ys e same. rw e (write-append xs old new ys same);
  contents-pack_option = λ o b. refl;
  contents-pack_rdata = λ d b. refl;
}

abbrev mail : UpdateRr ⦃E = sample⦄
mail = record {
  rname = codes "a" ∷ [];
  rtype = Qtype.mx;
  rclass = 1;
  ttl = 60;
  rdata = some (mx_rd (codes "b") 10);
}

canon_test :
    pack_rr_canon ⦃E = sample⦄ ⦃O = lists⦄ ⦃C = plain⦄ mail (7 ∷ [])
    ≡ ok (7 ∷ 1 ∷ 1 ∷ 97 ∷ 0 ∷ 15 ∷ 0 ∷ 1 ∷ 0 ∷ 0 ∷ 0 ∷ 60 ∷ 0 ∷ 5 ∷ 0 ∷ 10 ∷ 1 ∷ 1 ∷ 98 ∷ [])
unfolding pack_rr_canon labels_wire count_labels write
canon_test = refl

abbrev packed_mail : Bytes
packed_mail = start ⦃E = sample⦄ ⦃O = lists⦄ ⦃C = plain⦄ mail (7 ∷ []) ++ 0 ∷ 10 ∷ 1 ∷ 1 ∷ 98 ∷ []

mail-IsPackable : IsPackable ⦃E = sample⦄ ⦃O = lists⦄ ⦃C = plain⦄ mail (7 ∷ []) packed_mail
unfolding pack_rr_canon labels_wire count_labels
mail-IsPackable = record {
  type_fits = omega arith;
  class_fits = omega arith;
  ttl_fits = omega arith;
  data_packed = refl;
  size_fits = omega arith;
}

pack_rr_canon-layout_example :
    (b' : Bytes) × (pack_rr_canon ⦃E = sample⦄ ⦃O = lists⦄ ⦃C = plain⦄ mail (7 ∷ []) ≡ ok b')
    × (b'
        ≡ (7 ∷ [])
          ++ ((1 ∷ labels_wire mail.rname)
              ++ (be 2 15 ++ (be 2 1 ++ (be 4 60 ++ (be 2 5 ++ (0 ∷ 10 ∷ 1 ∷ 1 ∷ 98 ∷ [])))))))
unfolding count_labels data_bytes canon_bytes be labels_wire data_or_empty
pack_rr_canon-layout_example =
    pack_rr_canon-layout ⦃E = sample⦄ ⦃O = lists⦄ ⦃C = plain⦄ mail (7 ∷ []) packed_mail
      mail-IsPackable
