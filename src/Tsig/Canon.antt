-- ===== src/Tsig/Canon.antt =====
-- The canonical form of a record that an update's digest is made of: `pack_rr_canon` of
-- handle_update_query.
pub mod Layout
use hexdns.Common.{
  ℕ, ◌+◌, ◌-◌, ◌<◌, ◌==◌, Bool, true, false, if◌then◌else◌, List, [], ◌∷◌, ◌++◌, length, Bytes, ◌≡◌,
  refl, sym, ◌∙◌, ap, Option, none, some, Result, ok, err, type_error, ◌>>=◌, append_assoc,
  append-nil, length-append, arith, Bool-cases, inl, inr, >>=-eq-ok,
}
use hexdns.Dns.External.{External}
use hexdns.Dns.Qtype
use hexdns.Dns.Message.{Rdata, mx_rd, cname_rd, ns_rd, soa_rd, srv_rd, opt_rd, rd}
use hexdns.Update.Request.{UpdateRr}
use hexdns.Tsig.{Outside, be, struct_pack}

-- What else the program takes from `DNSBuffer`, and the packing of data that has no names of its own.
pub record Wires ⦃E : External⦄ ⦃O : Outside⦄ : Type 1 where
  pub offset : O.Buffer → ℕ
  pub update : O.Buffer → ℕ → Bytes → O.Buffer
  -- The name that a `dnslib` data class holds, from its text.
  pub label_of : Bytes → E.Label
  pub pack_option : Bytes → O.Buffer → O.Buffer
  pub pack_rdata : Rdata → O.Buffer → O.Buffer
  -- Documented behaviour: `offset` stands at the end, `update` writes over what stands at the place,
  -- and the rest appends.
  pub option_bytes : Bytes → Bytes
  pub rdata_bytes : Rdata → O.Buffer → Bytes
  pub offset-contents : (b : O.Buffer) → offset b ≡ length (O.contents b)
  pub contents-update :
      (b : O.Buffer) (xs old new ys : Bytes)
      → O.contents b ≡ xs ++ (old ++ ys)
      → length old ≡ length new
      → O.contents (update b (length xs) new) ≡ xs ++ (new ++ ys)
  pub contents-pack_option :
      (o : Bytes) (b : O.Buffer) → O.contents (pack_option o b) ≡ O.contents b ++ option_bytes o
  pub contents-pack_rdata :
      (d : Rdata) (b : O.Buffer) → O.contents (pack_rdata d b) ≡ O.contents b ++ rdata_bytes d b

module _ ⦃E : External⦄ ⦃O : Outside⦄ ⦃C : Wires⦄ where
  -- `for opt in rd.rdata: opt.pack(buffer)`
  unfoldable pub pack_options : List Bytes → O.Buffer → O.Buffer
  pack_options [] b = b
  pack_options (o ∷ os) b = pack_options os (C.pack_option o b)

  -- `buffer.pack("!IIIII", *times)`, given the bytes packed so far.
  unfoldable pub pack_times : List ℕ → Result Bytes
  unfolding struct_pack
  pack_times [] = ok []
  pack_times (t ∷ ts) = do first ← struct_pack 4 t; rest ← pack_times ts; ok (first ++ rest)

  -- The branches on the class of the data; `NS` is a subclass of `CNAME`.
  unfoldable pub pack_named : Rdata → O.Buffer → Result O.Buffer
  unfolding pack_times struct_pack
  pack_named (mx_rd name preference) b = do
    p ← struct_pack 2 preference
    ok (O.encode_name_nocompress (O.pack_packed b p) (C.label_of name))
  pack_named (cname_rd name) b = ok (O.encode_name_nocompress b (C.label_of name))
  pack_named (ns_rd name) b = ok (O.encode_name_nocompress b (C.label_of name))
  pack_named (soa_rd mname rname times) b = do
    ts ← pack_times times
    ok (
        O.pack_packed
          (O.encode_name_nocompress (O.encode_name_nocompress b (C.label_of mname))
            (C.label_of rname))
          ts)
  pack_named (srv_rd priority weight port target) b = do
    p ← struct_pack 2 priority
    w ← struct_pack 2 weight
    o ← struct_pack 2 port
    ok (O.encode_name_nocompress (O.pack_packed b (p ++ w ++ o)) (C.label_of target))
  pack_named content b = ok (C.pack_rdata content b)

  -- `for opt in rd.rdata`: other data cannot be gone through.
  unfoldable pub pack_opt : Rdata → O.Buffer → Result O.Buffer
  unfolding pack_options
  pack_opt (opt_rd os) b = ok (pack_options os b)
  pack_opt _ b = err type_error

  -- The data of one record.
  unfoldable pub pack_canon_data : ℕ → Rdata → O.Buffer → Result O.Buffer
  unfolding pack_named pack_opt
  pack_canon_data rtype content b =
      if rtype == Qtype.opt then pack_opt content b else pack_named content b

  -- `if r.rdata == '': r.rdata = dnslib.RD(data=b'')`
  unfoldable pub data_or_empty : Option Rdata → Rdata
  data_or_empty none = rd []
  data_or_empty (some content) = content

  -- `pack_rr_canon`
  unfoldable pub pack_rr_canon : UpdateRr → O.Buffer → Result O.Buffer
  unfolding pack_canon_data struct_pack data_or_empty
  pack_rr_canon rr b = do
    type_ ← struct_pack 2 rr.rtype
    class_ ← struct_pack 2 rr.rclass
    ttl ← struct_pack 4 rr.ttl
    zeros ← struct_pack 2 0
    let head = O.pack_packed (O.encode_name_nocompress b rr.rname) (type_ ++ class_ ++ ttl)
    let start = O.pack_packed head zeros
    packed ← pack_canon_data rr.rtype (data_or_empty rr.rdata) start
    size ← struct_pack 2 (C.offset packed - C.offset start)
    ok (C.update packed (C.offset head) size)
