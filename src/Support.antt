-- ===== src/Support.antt =====
-- packages/rsocket-core/src/RSocketSupport.ts: leases, and keeping a connection alive.
pub mod Leases
pub mod KeepAlive
