-- ===== src/Update.antt =====
-- Dynamic updates (RFC 2136): handle_update_query of hexdns_django/dns_grpc/grpc.py behind the check
-- of the signature, with the methods of models.py that it calls.
pub mod Request
pub mod Tables
pub mod Kinds
pub mod Scan
pub mod Apply
pub mod Handler
pub mod Digest
pub mod Signature
pub mod Response
pub mod Isolation
pub mod Tests
