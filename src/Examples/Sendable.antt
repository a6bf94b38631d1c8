-- ===== src/Examples/Sendable.antt =====
-- Two frames that can be sent.
use rsocket_js.Common.{[], ◌∷◌, List, arith}
use mathlib.Core.Option.{some-injective}
use rsocket_js.Frames.{Frame}
use rsocket_js.Frames.Flags
use rsocket_js.Codecs.{size_of_frame}
use rsocket_js.Codecs.Requests
use rsocket_js.Codecs.Payload
use rsocket_js.Codecs.Framing.Streams.{IsSendable, AllSendable}
use rsocket_js.Examples.{small_runtime, small_payload, small_request_n}

small_payload-IsSendable : IsSendable small_runtime small_payload
unfolding size_of_frame Requests.size_of_payload_frame Payload.get_payload_length Flags.has_metadata
small_payload-IsSendable = record {
  writable = (omega arith, omega arith, omega arith);
  readable = tt;
  short = λ n e. omega (arith, some-injective _ _ e);
}

small_request_n-IsSendable : IsSendable small_runtime small_request_n
unfolding size_of_frame Requests.size_of_request_n_frame
small_request_n-IsSendable = record {
  writable = (omega arith, omega arith, omega arith);
  readable = tt;
  short = λ n e. omega (arith, some-injective _ _ e);
}

abbrev pub two_frames : List Frame
two_frames = small_payload ∷ small_request_n ∷ []

pub two_frames-AllSendable : AllSendable small_runtime two_frames
two_frames-AllSendable = (small_payload-IsSendable, (small_request_n-IsSendable, tt))
