-- ===== src/ZoneFile/Services.antt =====
-- The lines of HTTPS records: the end of generate_fzone of tasks.py, with svcb_record_name of models.py
-- and SVCB.pack of svcb.py.
use hexdns.Common.{
  ◌==◌, ◌&&◌, if◌then◌else◌, List, [], ◌∷◌, ◌++◌, length, Bytes, codes, bytes_eq, Option, none,
  some, Result, ok, ◌>>=◌,
}
use hexdns.Dns.External.{External}
use hexdns.Dns.Store.{Row, Https}
use hexdns.Tsig.{Outside, struct_pack}
use hexdns.ZoneFile.Strings.{show}
use hexdns.ZoneFile.Lines.{Texts, rr_line, words, hex, is_apex, idna_label, comment}

module _ ⦃E : External⦄ ⦃T : Texts⦄ where
  -- A text in an f-string: `None` where there is none.
  unfoldable pub or_none : Option Bytes → Bytes
  or_none none = codes "None"
  or_none (some text) = text

  -- `HTTPSRecord.svcb_record_name`, with 0 and the empty text for columns without a value.
  unfoldable pub svcb_record_name : Row Https → Bytes
  unfolding or_none idna_label is_apex show
  svcb_record_name r =
      let service = codes "_" ++ show r.body.port ++ codes "._" ++ r.body.scheme in
      let label = or_none (idna_label r.record_name) in
      if r.body.port == 443 && bytes_eq r.body.scheme (codes "https")
      then r.record_name
      else if r.body.port == 0 && bytes_eq r.body.scheme []
      then label
      else if is_apex r.record_name
      then service
      else service ++ codes "." ++ label

  module _ ⦃O : Outside⦄ where
    -- `SVCB.pack` into a new buffer, given its parameters as packed.
    unfoldable pub pack_svcb : Https → Result Bytes
    unfolding struct_pack
    pack_svcb https = do
      priority ← struct_pack 2 https.svcb_priority
      ok (
          O.contents (
            O.append
              (O.encode_name_nocompress (O.pack_packed O.new priority) (E.of_str https.svcb_target))
              https.svcb_params))

    unfoldable pub https_text : Row Https → Result Bytes
    unfolding pack_svcb svcb_record_name comment rr_line words show hex
    https_text r = do
      data_ ← pack_svcb r.body
      ok (
          comment (codes "HTTPS record") (codes "hexdns_zonehttpsrecord") r.pk
          ++ rr_line (svcb_record_name r) r.ttl (codes "TYPE65")
              (words (codes "\\#" ∷ show (length data_) ∷ hex data_ ∷ [])))

    unfoldable pub https_section : List (Row Https) → Result Bytes
    unfolding https_text
    https_section [] = ok []
    https_section (r ∷ rs) = do text ← https_text r; rest ← https_section rs; ok (text ++ rest)
