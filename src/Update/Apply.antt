-- ===== src/Update/Apply.antt =====
-- The update section of handle_update_query (RFC 2136, section 3.4.2): what each record does to the
-- tables. An exception or a refusal leaves what was written before it.
pub mod Acme
pub mod Additions
pub mod Deletions
pub mod Failures
pub mod Growth
pub mod Leaves
pub mod OneKind
pub mod Steps
use hexdns.Common.{
  ℕ, Bool, true, false, not, ◌==◌, ◌&&◌, ◌||◌, if◌then◌else◌, List, [], ◌∷◌, Bytes, codes, bytes_eq,
  Option, none, some, Result, ok, err, Exc, index_error, attribute_error, ◌>>=◌,
}
use hexdns.Dns.External.{External}
use hexdns.Dns.Qtype
use hexdns.Dns.Rcode
use hexdns.Dns.Message.{Rdata, Rr}
use hexdns.Dns.Store.{Row, Zone, Db}
use hexdns.Dns.Find.{find_records}
use hexdns.Dns.AnyRecords.{any_records, any_record_type}
use hexdns.Update.Request.{class_in, class_none, class_any, Key, UpdateRr, Wire}
use hexdns.Update.Tables.{
  Kind, address, mx, ns, txt, srv, caa, naptr, ds, loc, hinfo, rp, cname, dhcid, Body, rows, Store,
  save_row, insert_row, remove_row, enqueue,
}
use hexdns.Update.Kinds.{kind_of, to_rr, dns_label_to_record_name, new_body, updated_body}

-- What a part of the handler comes to, each time with the tables that it leaves.
pub data Applied : Type 0 where
  done : Store → Applied
  refused : ℕ → Store → Applied
  raised : Exc → Store → Applied

abbrev pub and_do : Applied → (Store → Applied) → Applied
and_do (done s) next = next s
and_do (refused rcode s) next = refused rcode s
and_do (raised e s) next = raised e s

-- A pure call in between.
abbrev pub or_raise {ℓ} : {A : Type ℓ} → Result A → Store → (A → Applied) → Applied
or_raise (ok value) s next = next value
or_raise (err e) s next = raised e s

-- The models that a deletion of all types goes through.
abbrev pub all_kinds : List Kind
all_kinds = address ∷ mx ∷ ns ∷ txt ∷ srv ∷ caa ∷ naptr ∷ ds ∷ loc ∷ hinfo ∷ rp ∷ cname ∷ dhcid ∷ []

-- `record_name.label[0] == b"_acme-challenge"`
unfoldable pub is_acme_name : List Bytes → Result Bool
is_acme_name [] = err index_error
is_acme_name (l ∷ ls) = ok (bytes_eq l (codes "_acme-challenge"))

module _ ⦃E : External⦄ where
  -- The rights of a key of type `D`.
  unfoldable pub acme_manages : ℕ → E.Label → Result Bool
  unfolding is_acme_name
  acme_manages rtype record_name =
      is_acme_name (E.label record_name) >>= λ named. ok (named && rtype == Qtype.txt)

  -- `can_manage`
  unfoldable pub can_manage : Key → ℕ → E.Label → Result Bool
  unfolding acme_manages
  can_manage key rtype record_name =
      if not (bytes_eq key.restrict_to (codes "@"))
        && not (E.match_suffix record_name (E.of_str key.restrict_to))
      then ok false
      else if bytes_eq key.type (codes "U")
      then ok true
      else if bytes_eq key.type (codes "D")
      then acme_manages rtype record_name
      else ok false

  -- `if not can_manage(…): return`
  unfoldable pub check_managed : Key → ℕ → E.Label → Store → (Store → Applied) → Applied
  unfolding can_manage
  check_managed key rtype record_name s next =
      or_raise (can_manage key rtype record_name) s
        λ managed. if managed then next s else refused Rcode.notauth s

  -- `get_record_models`
  unfoldable pub records_of : (k : Kind) → Db → E.Label → Zone → List (Row (Body k))
  unfolding find_records rows
  records_of k db record_name zone = find_records (rows k db) record_name zone

module _ ⦃E : External⦄ ⦃W : Wire⦄ where
  -- `record.update_from_rr(rr)` and `record.save()`
  unfoldable pub update_record :
      (k : Kind) → UpdateRr → Zone → Row (Body k) → Rdata → Store → Applied
  unfolding updated_body dns_label_to_record_name save_row enqueue
  update_record k rr zone record_ content s = or_raise (updated_body k content) s λ saved.
      elim saved [
        | err e ↦ raised e (enqueue record_.zone s)
        | ok body ↦ done (
            save_row k
              (record record_ {
                record_name = dns_label_to_record_name rr.rname zone;
                ttl = rr.ttl;
                body = body;
              })
              s)
      ]

  -- `new_record.save()`
  unfoldable pub save_new : (k : Kind) → UpdateRr → Zone → Result (Body k) → Store → Applied
  unfolding dns_label_to_record_name insert_row enqueue
  save_new k rr zone (err e) s = raised e (enqueue zone.id s)
  save_new k rr zone (ok body) s = done (
      insert_row k
        (record {
          pk = 0;
          zone = zone.id;
          record_name = dns_label_to_record_name rr.rname zone;
          ttl = rr.ttl;
          body = body;
        })
        s)

  -- The loop of `_try_update` over the records found, then `new_record.save()` if none had the same
  -- data.
  unfoldable pub update_or_insert :
      (k : Kind) → UpdateRr → Zone → Result (Body k) → List (Row (Body k)) → Store → Applied
  unfolding update_record save_new to_rr
  update_or_insert k rr zone body [] s = save_new k rr zone body s
  update_or_insert k rr zone body (record_ ∷ records) s =
      let next = update_or_insert k rr zone body records s in
      elim (to_rr k rr.rname record_) [
        | none ↦ raised attribute_error s
        | some record_rr ↦ elim rr.rdata [
          | none ↦ next
          | some content ↦
              if W.rdata_eq content record_rr.rdata
              then update_record k rr zone record_ content s
              else next
        ]
      ]

  -- `_try_update` gives up before its loop at a CNAME beside other records.
  unfoldable pub conflicts : Db → E.Label → Zone → ℕ → Bool
  unfolding any_records any_record_type
  conflicts db record_name zone rtype =
      if rtype == Qtype.cname
      then any_records db record_name zone false
      else any_record_type db record_name zone Qtype.cname

  -- RFC 2136, section 3.4.2.2: an addition, once the key may make it.
  unfoldable pub add_record : Zone → E.Label → UpdateRr → Store → Applied
  unfolding kind_of new_body conflicts update_or_insert records_of
  add_record zone record_name rr s = elim (kind_of rr.rtype) [
    | none ↦ done s
    | some k ↦ or_raise (new_body k rr.rdata) s λ body.
        if conflicts s.db record_name zone rr.rtype
        then done s
        else update_or_insert k rr zone body (records_of k s.db record_name zone) s
  ]

  unfoldable pub apply_add : Key → Zone → E.Label → UpdateRr → Store → Applied
  unfolding check_managed add_record
  apply_add key zone record_name rr s =
      check_managed key rr.rtype record_name s (add_record zone record_name rr)

  -- One model's turn of section 3.4.2.3 for all types.
  unfoldable pub remove_managed :
      (k : Kind) → Key → E.Label → E.Label → List (Row (Body k)) → Store → Applied
  unfolding check_managed to_rr remove_row
  remove_managed k key rname record_name [] s = done s
  remove_managed k key rname record_name (record_ ∷ records) s =
      let next =
        λ (s' : Store). remove_managed k key rname record_name records (remove_row k record_ s') in
      elim (to_rr k rname record_) [
        | none ↦ raised attribute_error s
        | some record_rr ↦ check_managed key record_rr.rtype record_name s next
      ]

  unfoldable pub remove_all : List Kind → Key → Zone → E.Label → E.Label → Store → Applied
  unfolding remove_managed records_of
  remove_all [] key zone rname record_name s = done s
  remove_all (k ∷ ks) key zone rname record_name s =
      and_do (remove_managed k key rname record_name (records_of k s.db record_name zone) s)
        λ s'. remove_all ks key zone rname record_name s'

  -- The loop that deletes the records of a list that pass a test.
  unfoldable pub remove_matching :
      (k : Kind) → (Rr → Bool) → E.Label → List (Row (Body k)) → Store → Applied
  unfolding to_rr remove_row
  remove_matching k test rname [] s = done s
  remove_matching k test rname (record_ ∷ records) s =
      let next = λ (s' : Store). remove_matching k test rname records s' in
      elim (to_rr k rname record_) [
        | none ↦ raised attribute_error s
        | some record_rr ↦ next (if test record_rr then remove_row k record_ s else s)
      ]

  -- RFC 2136, section 3.4.2.3: a deletion of all types, or of one.
  unfoldable pub delete_type : Zone → E.Label → UpdateRr → Store → Applied
  unfolding remove_matching kind_of records_of
  delete_type zone record_name rr s = elim (kind_of rr.rtype) [
    | none ↦ done s
    | some k ↦
        remove_matching k (λ r. r.rtype == rr.rtype) rr.rname (records_of k s.db record_name zone) s
  ]

  unfoldable pub apply_delete : Key → Zone → E.Label → UpdateRr → Store → Applied
  unfolding remove_all delete_type check_managed
  apply_delete key zone record_name rr s =
      if rr.rtype == Qtype.any
      then remove_all all_kinds key zone rr.rname record_name s
      else check_managed key rr.rtype record_name s (delete_type zone record_name rr)

  -- `rr.rdata == record_rr.rdata`
  unfoldable pub same_data : Option Rdata → Rdata → Bool
  same_data none found = false
  same_data (some content) found = W.rdata_eq content found

  -- RFC 2136, section 3.4.2.4: a deletion of one record.
  unfoldable pub delete_data : (k : Kind) → Zone → E.Label → UpdateRr → Store → Applied
  unfolding remove_matching records_of same_data
  delete_data k zone record_name rr s =
      remove_matching k (λ r. same_data rr.rdata r.rdata && r.rtype == rr.rtype) rr.rname
        (records_of k s.db record_name zone) s

  unfoldable pub apply_delete_one : Key → Zone → E.Label → UpdateRr → Store → Applied
  unfolding kind_of check_managed delete_data
  apply_delete_one key zone record_name rr s = elim (kind_of rr.rtype) [
    | none ↦ done s
    | some k ↦ check_managed key rr.rtype record_name s (delete_data k zone record_name rr)
  ]

  unfoldable pub apply_rr : Key → E.Label → Zone → ℕ → UpdateRr → Store → Applied
  unfolding apply_add apply_delete apply_delete_one
  apply_rr key zone_name zone qclass rr s =
      let record_name = E.strip_suffix rr.rname zone_name in
      if rr.rclass == qclass
      then apply_add key zone record_name rr s
      else if rr.rclass == class_any
      then apply_delete key zone record_name rr s
      else if rr.rclass == class_none
      then apply_delete_one key zone record_name rr s
      else done s

  unfoldable pub apply_rrs : Key → E.Label → Zone → ℕ → List UpdateRr → Store → Applied
  unfolding apply_rr
  apply_rrs key zone_name zone qclass [] s = done s
  apply_rrs key zone_name zone qclass (rr ∷ rrs) s =
      and_do (apply_rr key zone_name zone qclass rr s)
        λ s'. apply_rrs key zone_name zone qclass rrs s'
