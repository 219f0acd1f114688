-- ===== src/Svcb.antt =====
-- The SVCB and HTTPS parameter codec, hexdns_django/dns_grpc/svcb.py.
pub mod Chars
pub mod Decode
pub mod Params
mod Tests
