-- ===== src/RequestResponse.antt =====
-- packages/rsocket-core/src/RequestResponseStream.ts: both sides of a REQUEST_RESPONSE.
pub mod Requester
pub mod Responder
pub mod Safety
pub mod ResponderSafety
