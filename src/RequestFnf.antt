-- ===== src/RequestFnf.antt =====
-- packages/rsocket-core/src/RequestFnFStream.ts: both sides of a REQUEST_FNF, which has no answer.
pub mod Requester
pub mod Responder
pub mod Once
pub mod Delivery
pub mod Handled
pub mod Received
