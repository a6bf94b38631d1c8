-- ===== src/Examples.antt =====
-- Small frames and payloads on which the theorems are applied.
pub mod Codecs
pub mod Fragments
pub mod Multiplexer
pub mod Resume
pub mod Routing
pub mod Sendable
pub mod Streams
pub mod Support
pub mod Tcp
use rsocket_js.Common.{[], ◌∷◌, none}
use rsocket_js.Node.{Buffer, Runtime, pos, buffer}
use rsocket_js.Frames.{Frame}

-- One byte for each code unit, fresh memory full of sevens, and no global `length`.
abbrev pub small_runtime : Runtime
small_runtime = record {
  utf8_encode = λ text. text;
  utf8_decode = λ bytes. bytes;
  memory = λ n. 7;
  global_length = none;
}

-- Flags NEXT and METADATA.
abbrev pub small_payload : Frame
small_payload = Frame.payload (record {
  flags = 0x120;
  data_ref = buffer (1 ∷ 2 ∷ 3 ∷ []);
  metadata = buffer (9 ∷ []);
  stream_id = pos 5;
})

abbrev pub small_request_n : Frame
small_request_n = Frame.request_n (record { flags = 0; request_n = pos 300; stream_id = pos 5 })

abbrev pub five_bytes : Buffer
five_bytes = 1 ∷ 2 ∷ 3 ∷ 4 ∷ 5 ∷ []
