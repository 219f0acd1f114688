-- ===== src/ZoneFile.antt =====
-- Zone files: hexdns_django/dns_grpc/tasks.py, which writes zones out, and import_zone_file of
-- models.py, which reads them in.
pub mod Strings
pub mod Keys
pub mod Lines
pub mod Header
pub mod Addresses
pub mod Records
pub mod Loc
pub mod Services
pub mod Forward
pub mod Reverse
pub mod Arpa
pub mod Import
pub mod Catalog
pub mod Tests
