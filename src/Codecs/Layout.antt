-- ===== src/Codecs/Layout.antt =====
-- The bytes of each frame as the protocol lays them out, and the frames whose fields fit their places.
-- An independent description of what packages/rsocket-core/src/Codecs.ts writes.
pub mod Parts
pub mod Frames
pub mod Connection
pub mod Requests
pub mod Serialize
