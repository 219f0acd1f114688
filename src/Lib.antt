-- ===== src/Lib.antt =====
-- Verification library of HexDNS, the DNS hosting service under hexdns_django/.
--
-- The program is a Django project: its models hold zones and records, its web views edit them, its
-- gRPC service answers zone transfers and RFC 2136 updates from them, and its tasks write them out
-- as zone files. svcb.py is the codec of the parameters of SVCB and HTTPS records. A key
-- (DNSZoneUpdateSecrets) belongs to one zone and signs updates of it; the prerequisites of an
-- update are looked up with the same methods that answered queries, and every save and delete
-- queues the zone to be written out again.
--
-- Files:
-- - Common and its children: Boolean tests, lists, exceptions as results, integers.
-- - Utf8: str.encode, of svcb.py, models.py and tasks.py.
-- - Svcb: hexdns_django/dns_grpc/svcb.py. Svcb.Chars has the character classes, Svcb.Decode the
--   decoders of strings and lists, Svcb.Params the parameters and decode_svcb_param_list,
--   Svcb.Params.Pack the pack methods. The children hold the proofs; Svcb.Tests the examples.
-- - Dns: the lookups of hexdns_django/dns_grpc/grpc.py and what they read of models.py there.
--   Dns.Store has the tables (a row of a model is Row with the columns of its own), Dns.Records the
--   to_rr methods, Dns.Find find_zone, find_records and parse_https_record_name, Dns.AnyRecords
--   any_records and any_record_type (Standing what they tell of the rows), Dns.Delegation
--   lookup_referral, Dns.Lookup lookup_cname and the shape that the lookups share, Dns.Methods a
--   lookup for each type, Dns.Prerequisites the lookups that handle_update_query makes.
--   Dns.External is what they take from dnslib, Django and the account service, Dns.Sample an
--   instance of it, Dns.Tests the examples.
-- - Tsig: the class TSIG of grpc.py, the record that carries an update's signature, over dnslib's
--   buffers and the conversions of datetime, which are its record Outside. Times before 1970 are
--   left out. Tsig.Canon has pack_rr_canon, the canonical form of a record, over what else it takes
--   from dnslib's buffers (Wires).
-- - Update: handle_update_query of grpc.py and UpdateQuery. Update.Digest has what the signature is
--   the digest of, over hmac and datetime (its record Signing), Update.Signature the check of the
--   signature and the whole handler, Update.Response the signature of a response; the others have
--   the handler from its search for the zone on. Update.Request has the request, the key and what
--   is taken from dnslib, Update.Tables save and delete of the models, Update.Kinds from_rr and
--   update_from_rr, Update.Scan the prerequisites and the prescan, Update.Apply can_manage and the
--   update section, Update.Handler the composition. Update.Isolation holds the proof that an update
--   keeps to its zone, the children of Apply what keys may change, what deletions take away and
--   which additions fail; Update.Tests the examples.
-- - Axfr: handle_axfr_query of grpc.py, whose responses it lists.
-- - ZoneFile: hexdns_django/dns_grpc/tasks.py, which writes zones out as files for the name
--   servers. ZoneFile.Strings has encode_str, Keys the key tag and the digest (with those of
--   utils.py), Arpa the names of addresses and networks, Lines idna_label of models.py and the
--   parts of a line, over what is taken from idna, Base64 and the clock (Texts), Header
--   generate_zone_header, Addresses, Records, Loc and Services the lines of each table, Forward
--   generate_fzone, Reverse generate_rzone and generate_szone, Import import_zone_file of
--   models.py, Catalog update_catalog. The children hold the proofs, with an independent reader of
--   quoted strings (Strings.RoundTrip), key tag (Keys.Tag) and presentation format
--   (Forward.Presented).
--
-- Conventions: `ALPNData.from_str` takes the UTF-8 bytes of its text, decode_svcb_param_list the
-- text, which it may fail to encode. The account service may answer each request of generate_rzone
-- in another way. A bytearray that a function works on is an argument, and what is left of it a
-- result. An exception is a constructor of Common's Exc. A `while True` loop over an array takes
-- one more round of fuel than the array has bytes, which is enough since every round but the last
-- takes a byte; Svcb.Decode.Totality and Svcb.Params.Totality prove it. `int()` is modelled on the
-- letters, digits and dashes that a key consists of, with no limit on the number of digits. dnslib
-- is not part of the repository: its DNSBuffer is the record DnsBuffer, with its methods and their
-- documented laws, and its DNSLabel is a type of External. The recursion of the lookups through
-- CNAMEs has no bound in the program: it takes fuel, whose end stands for Python's limit on
-- recursion. Dns.Lookup.Ends says how much is enough, and Dns.Lookup.Chains when none is. Labels
-- are ASCII, so that `decode` keeps their bytes. A column that the program parses at each use (an
-- address, a DS digest, an SSH key) is kept as what it parses to. An update passes the tables from
-- call to call, together with the zones queued; Applied says whether the handler is done, returns
-- with a response code or ends in an exception, each time with the tables that it leaves, since no
-- transaction takes them back. The key of a new row is the next one that no row had, in place of a
-- random one. Of a refusal only the response code is kept.
--
-- Not modelled: the other records of the response to an update, the storing of zone files and the
-- signal zones (tasks.py), the parser of zone files, which is dnslib's, the validation in
-- models.py, forms.py and api/, the limits of database columns; the web views and the commands,
-- which are glue; the Rust servers beside the Django project.
pub mod Common
pub mod Dns
pub mod Svcb
pub mod Tsig
pub mod Update
pub mod Utf8
pub mod Axfr
pub mod ZoneFile
