-- ===== src/Dns.antt =====
-- The gRPC service of hexdns_django/dns_grpc/grpc.py over the tables of models.py.
pub mod External
pub mod Qtype
pub mod Rcode
pub mod Message
pub mod Store
pub mod Records
pub mod IntText
pub mod Find
pub mod AnyRecords
pub mod Delegation
pub mod Lookup
pub mod Methods
pub mod Prerequisites
pub mod Sample
pub mod Tests
