-- ===== src/Update/Tests.antt =====
-- Runs of update queries on sample tables, and each theorem at an input that meets its hypotheses.
pub mod Deletions
pub mod Signature
use hexdns.Common.{
  ℕ, Bool, true, false, ◌==◌, ◌&&◌, ◌≡◌, refl, List, [], ◌∷◌, ◌++◌, Bytes, codes, All, Option, none,
  some, arith, ◌↔◌, ◌≢◌, ok,
}
use hexdns.Dns.Qtype
use hexdns.Dns.Message.{
  Response, Rdata, a_rd, aaaa_rd, cname_rd, ns_rd, dhcid_rd, rd, txt_rd, loc_rd, opt_rd, soa_rd,
  mx_rd, srv_rd, caa_rd, naptr_rd, sshfp_rd, ds_rd, rp_rd, https_rd, nsec_rd, dnskey_rd,
}
use hexdns.Dns.Store.{Row}
use hexdns.Dns.Prerequisites.{fresh_response}
use hexdns.Dns.Sample.{sample, labels_eq}
use hexdns.Dns.Tests.{row, outer, inner, empty, ex_com, lookups}
use hexdns.Update.Request.{class_in, class_none, class_any, Key, UpdateRr, UpdateRequest, Wire}
use hexdns.Update.Tables.{txt, ds, Store, rows}
use hexdns.Update.Handler.{Reply, handle_signed, update_query}
use hexdns.Update.Isolation.{Stays, IsWellKeyed}
use hexdns.Update.Isolation.Query.{update_query-Stays, update_query-OnlyKind}
use hexdns.Update.Apply.OneKind.{OnlyKind}
use hexdns.Update.Apply.Acme.{Manages, IsWithin, IsEntitled, can_manage-IsEntitled}
use hexdns.Update.Handler.Gate.{Gated, handle_signed-Gated}
use hexdns.Update.Scan.{
  prescan, check_prerequisites, check_rrsets, pass, is_supported, is_deletable,
}
use hexdns.Update.Scan.Acceptable.{Acceptable, prescan-Acceptable}
use hexdns.Update.Scan.Prerequisites.{Holds, Passes, check_prerequisites-Holds}
use hexdns.Update.Kinds.{kind_of}
use hexdns.Update.Apply.{done, records_of, same_data, apply_add, apply_delete, apply_delete_one}
use hexdns.Update.Apply.Deletions.{Removed}
use hexdns.Update.Apply.Deletions.Handlers.{
  apply_delete-Removed, apply_delete_one-Removed, apply_delete-apex,
}
use hexdns.Update.Apply.Failures.{location, apply_add-Rejected}
use hexdns.Update.Handler.Gate.{Rejected}
use mathlib.Core.List.{Memᴰ, Perm}
use mathlib.Core.Path.{subst}
use mathlib.Core.List.Perm
use mathlib.Core.Option.{some-injective}
use hexdns.Update.Scan.Cnames.{check_rrsets-cname}
use mathlib.Core.List.Memᴰ
use hexdns.Update.Isolation.Published.{Published, update_query-Published}
use hexdns.Update.Apply.Leaves.{Leaves}
use hexdns.Update.Apply.Growth.{Grows, apply_add-Grows}

-- The constructor's name and the arguments: equal data has equal parts.
unfoldable pub parts : Rdata → List Bytes
parts (a_rd t) = codes "a" ∷ t ∷ []
parts (aaaa_rd t) = codes "aaaa" ∷ t ∷ []
parts (cname_rd t) = codes "cname" ∷ t ∷ []
parts (ns_rd t) = codes "ns" ∷ t ∷ []
parts (dhcid_rd t) = codes "dhcid" ∷ t ∷ []
parts (rd t) = codes "rd" ∷ t ∷ []
parts (txt_rd ts) = codes "txt" ∷ ts
parts (loc_rd ts) = codes "loc" ∷ ts
parts (opt_rd ts) = codes "opt" ∷ ts
parts (soa_rd t u ns) = codes "soa" ∷ t ∷ u ∷ ns ∷ []
parts (mx_rd t n) = codes "mx" ∷ t ∷ (n ∷ []) ∷ []
parts (srv_rd a b c t) = codes "srv" ∷ (a ∷ b ∷ c ∷ []) ∷ t ∷ []
parts (caa_rd a t u) = codes "caa" ∷ (a ∷ []) ∷ t ∷ u ∷ []
parts (naptr_rd a b t u v w) = codes "naptr" ∷ (a ∷ b ∷ []) ∷ t ∷ u ∷ v ∷ w ∷ []
parts (sshfp_rd a b t) = codes "sshfp" ∷ (a ∷ b ∷ []) ∷ t ∷ []
parts (ds_rd a b c t) = codes "ds" ∷ (a ∷ b ∷ c ∷ []) ∷ t ∷ []
parts (rp_rd t u) = codes "rp" ∷ t ∷ u ∷ []
parts (https_rd a t u) = codes "https" ∷ (a ∷ []) ∷ t ∷ u ∷ []
parts (dnskey_rd a b c t) = codes "dnskey" ∷ (a ∷ b ∷ c ∷ []) ∷ t ∷ []
parts (nsec_rd t ts) = codes "nsec" ∷ t ∷ ts

unfoldable pub rdata_eq : Rdata → Rdata → Bool
rdata_eq a b = labels_eq (parts a) (parts b)

unfoldable pub option_eq : Option Rdata → Option Rdata → Bool
option_eq none none = true
option_eq (some a) (some b) = rdata_eq a b
option_eq _ _ = false

unfoldable pub rr_eq : UpdateRr ⦃E = sample⦄ → UpdateRr ⦃E = sample⦄ → Bool
rr_eq r s =
    labels_eq r.rname s.rname
    && r.rtype == s.rtype
    && r.rclass == s.rclass
    && option_eq r.rdata s.rdata

-- Names here are not compressed and data is ASCII; strings and names are not taken apart.
abbrev pub wire : Wire ⦃E = sample⦄
wire = record {
  rdata_eq = rdata_eq;
  rr_eq = rr_eq;
  sort_rrs = λ rrs. some rrs;
  sort_rrs-perm =
      λ rrs sorted e. subst (λ l. Perm l rrs) (some-injective rrs sorted e) (Perm.refl rrs);
  decode_replace = λ text. text;
  parse_strings = λ text. none;
  decode_name = λ text. none;
}

abbrev pub challenge : List Bytes
challenge = codes "_acme-challenge" ∷ ex_com

-- A TXT record of the given class at the challenge's name.
abbrev pub token : ℕ → ℕ → Bytes → UpdateRr ⦃E = sample⦄
token rclass ttl text = record {
  rname = challenge;
  rtype = Qtype.txt;
  rclass = rclass;
  ttl = ttl;
  rdata = some (txt_rd (text ∷ []));
}

abbrev address_rr : UpdateRr ⦃E = sample⦄
address_rr = record (token class_in 60 (codes "")) {
  rtype = Qtype.a;
  rdata = some (a_rd (codes "192.0.2.7"));
}

abbrev request :
    List (UpdateRr ⦃E = sample⦄) → List (UpdateRr ⦃E = sample⦄) → UpdateRequest ⦃E = sample⦄
request prset upset = record { qclass = class_in; prset = prset; upset = upset }

abbrev acme_key : Key
acme_key = record { zone = 1; type = codes "D"; restrict_to = codes "@" }

abbrev pub full_key : Key
full_key = record { zone = 1; type = codes "U"; restrict_to = codes "@" }

abbrev pub store : Store
store = record {
  db = record (empty (outer ∷ inner ∷ [])) {
    txt =
        row 0 2 (codes "_acme-challenge") (codes "theirs")
        ∷ row 1 1 (codes "t") (codes "ours")
        ∷ [];
  };
  next_pk = 5;
  queued = [];
}

-- All that a run of an update computes with.
unfoldable pub updates : Unit {0}
unfolding lookups parts rdata_eq option_eq rr_eq is_supported is_deletable update_query
updates = tt

pub store-IsWellKeyed : IsWellKeyed store
unfolding rows
store-IsWellKeyed txt = (omega arith, (omega arith, tt), (omega arith, tt, tt))
store-IsWellKeyed _ = tt

-- The token is added, and then the address is refused: the zone's rows are changed, and the zone is
-- queued, all the same.
abbrev half : UpdateRequest ⦃E = sample⦄
half = request [] (token class_in 60 (codes "tok") ∷ address_rr ∷ [])

abbrev after_half : Reply
after_half = update_query ⦃E = sample⦄ ⦃W = wire⦄ 3 acme_key ex_com half store

half_test :
    (after_half.rcode ≡ 9)
    × (after_half.store.queued ≡ 1 ∷ [])
    × (after_half.store.db.txt
        ≡ store.db.txt
          ++ record (row 5 1 (codes "_acme-challenge") (codes "tok")) { ttl = 60 } ∷ [])
    × (after_half.store.db.address ≡ [])
unfolding updates
half_test = (refl, refl, refl, refl)

-- The token is added and deleted again.
round_test :
    (update_query ⦃E = sample⦄ ⦃W = wire⦄ 3 acme_key ex_com
      (request [] (token class_in 60 (codes "tok") ∷ token class_none 0 (codes "tok") ∷ []))
      store)
    ≡ record { rcode = 0; store = record store { next_pk = 6; queued = 1 ∷ 1 ∷ [] } }
unfolding updates
round_test = refl

update_query-Stays_example : Stays 1 store after_half.store × IsWellKeyed after_half.store
update_query-Stays_example =
    update_query-Stays ⦃E = sample⦄ ⦃W = wire⦄ 3 acme_key ex_com half store store-IsWellKeyed

update_query-OnlyKind_example : OnlyKind txt store after_half.store
update_query-OnlyKind_example =
    update_query-OnlyKind ⦃E = sample⦄ ⦃W = wire⦄ 3 acme_key ex_com half store refl

can_manage-IsEntitled_example :
    Manages ⦃E = sample⦄ acme_key Qtype.txt (codes "_acme-challenge" ∷ []) ↔ (
      IsWithin ⦃E = sample⦄ acme_key (codes "_acme-challenge" ∷ [])
      × IsEntitled ⦃E = sample⦄ acme_key Qtype.txt (codes "_acme-challenge" ∷ []))
can_manage-IsEntitled_example =
    can_manage-IsEntitled ⦃E = sample⦄ acme_key Qtype.txt (codes "_acme-challenge" ∷ [])

handle_signed-Gated_example :
    Gated ⦃E = sample⦄ ⦃W = wire⦄ 3 acme_key ex_com half store
      (handle_signed ⦃E = sample⦄ ⦃W = wire⦄ 3 acme_key ex_com half store)
handle_signed-Gated_example =
    handle_signed-Gated ⦃E = sample⦄ ⦃W = wire⦄ 3 acme_key ex_com half store refl

prescan-Acceptable_example :
    (prescan ⦃E = sample⦄ ex_com class_in half.upset ≡ none)
    ↔ All (Acceptable ⦃E = sample⦄ ex_com) half.upset
prescan-Acceptable_example = prescan-Acceptable ⦃E = sample⦄ ex_com half.upset

-- The set of tokens exists, and there is no address.
abbrev wanted : List (UpdateRr ⦃E = sample⦄)
wanted =
    token class_in 0 (codes "ours")
    ∷ record (token class_none 0 (codes "")) { rtype = Qtype.a; rdata = none }
    ∷ []

check_prerequisites-Holds_example :
    Passes (check_prerequisites ⦃E = sample⦄ store.db ex_com outer class_in [] wanted)
    ↔ All (Holds ⦃E = sample⦄ store.db ex_com outer) wanted
check_prerequisites-Holds_example =
    check_prerequisites-Holds ⦃E = sample⦄ store.db ex_com outer [] wanted

update_query-Published_example : Published 1 store after_half.store
update_query-Published_example =
    update_query-Published ⦃E = sample⦄ ⦃W = wire⦄ 3 acme_key ex_com half store store-IsWellKeyed

apply_add-Grows_example : Leaves (Grows store) (
    apply_add ⦃E = sample⦄ ⦃W = wire⦄ full_key outer challenge
      (token class_in 60 (codes "tok"))
      store)
apply_add-Grows_example =
    apply_add-Grows ⦃E = sample⦄ ⦃W = wire⦄ full_key outer challenge
      (token class_in 60 (codes "tok")) store

-- A CNAME at the name, as a prerequisite with its value.
abbrev alias : UpdateRr ⦃E = sample⦄
alias = record {
  rname = ex_com;
  rtype = Qtype.cname;
  rclass = class_in;
  ttl = 0;
  rdata = some (cname_rd (codes "other."));
}

abbrev no_answer : Response ⦃E = sample⦄
no_answer = fresh_response ⦃E = sample⦄ Qtype.soa

check_rrsets-cname_example :
    check_rrsets ⦃E = sample⦄ ⦃W = wire⦄ store.db 3 ex_com outer
      ((ex_com, Qtype.cname, alias ∷ []) ∷ [])
      no_answer
    ≢ ok (pass no_answer)
check_rrsets-cname_example =
    check_rrsets-cname ⦃E = sample⦄ ⦃W = wire⦄ store.db 3 ex_com outer
      ((ex_com, Qtype.cname, alias ∷ []) ∷ []) ex_com (alias ∷ []) (Memᴰ.head refl) (λ e. cc e)
      no_answer no_answer
