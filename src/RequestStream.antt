-- ===== src/RequestStream.antt =====
-- packages/rsocket-core/src/RequestStreamStream.ts: both sides of a REQUEST_STREAM.
pub mod Requester
pub mod Responder
pub mod Safety
pub mod BehindClose
pub mod ResponderSafety
pub mod Delivery
