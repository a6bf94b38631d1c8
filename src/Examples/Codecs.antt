-- ===== src/Examples/Codecs.antt =====
-- The theorems on packages/rsocket-core/src/Codecs.ts, applied.
use rsocket_js.Common.{◌≡◌, refl, sym, ap, ◌∙◌, [], ◌∷◌, ◌++◌, length, some, none, arith}
use rsocket_js.Node.{Buffer, ok}
use rsocket_js.Frames.{type_code}
use rsocket_js.Codecs.{
  serialize_frame, serialize_frame_with_length, size_of_frame, deserialize_frame,
  deserialize_frame_with_length, deserialize_frames,
}
use rsocket_js.Codecs.Layout.Frames.{frame_bytes}
use rsocket_js.Codecs.Layout.Serialize.{serialize_frame-frame_bytes}
use rsocket_js.Codecs.RoundTrip.{received_frame, deserialize_frame-serialize_frame}
use rsocket_js.Codecs.Framing.{
  framed, frames_of, split_frame, deserialize_frames-frames_of, serialize_frame_with_length-framed,
  deserialize_frame_with_length-framed,
}
use rsocket_js.Codecs.Framing.Streams.{
  Ends, Sent, IsReceived, deserialize_frames-Ends, deserialize_frames-Sent,
}
use rsocket_js.Examples.Sendable.{two_frames, two_frames-AllSendable}
use rsocket_js.Codecs.RoundTrip.Failures.{deserialize_frame-metadata_push}
use rsocket_js.Node.{throw, reference_error, buffer}
use rsocket_js.Frames.{Frame, MetadataPushFrame}
use rsocket_js.Examples.{small_runtime, small_payload, small_request_n, five_bytes}

serialize_frame-frame_bytes_example :
    (bytes : Buffer) × (frame_bytes small_runtime small_payload ≡ some bytes)
    × (serialize_frame small_runtime small_payload ≡ ok (some bytes))
    × (size_of_frame small_runtime small_payload ≡ some (length bytes))
serialize_frame-frame_bytes_example =
    serialize_frame-frame_bytes small_runtime small_payload (omega arith, omega arith, omega arith)

deserialize_frame-serialize_frame_example :
    (bytes : Buffer) × (serialize_frame small_runtime small_payload ≡ ok (some bytes))
    × (deserialize_frame small_runtime bytes ≡ ok (some (received_frame small_payload)))
deserialize_frame-serialize_frame_example =
    deserialize_frame-serialize_frame small_runtime small_payload
      (omega arith, omega arith, omega arith) tt

two_bytes-partial : split_frame (0 ∷ 0 ∷ []) ≡ none
unfolding split_frame
two_bytes-partial = refl

deserialize_frames-Sent_example :
    (stream : Buffer) × Sent small_runtime two_frames stream
    × IsReceived two_frames (deserialize_frames small_runtime (stream ++ (0 ∷ 0 ∷ [])))
deserialize_frames-Sent_example =
    deserialize_frames-Sent small_runtime two_frames (0 ∷ 0 ∷ []) two_frames-AllSendable
      two_bytes-partial

deserialize_frames-Ends_example : Ends (deserialize_frames small_runtime five_bytes)
deserialize_frames-Ends_example = deserialize_frames-Ends small_runtime five_bytes

deserialize_frames-frames_of_example :
    deserialize_frames small_runtime five_bytes ≡ frames_of small_runtime 6 five_bytes 0
deserialize_frames-frames_of_example = deserialize_frames-frames_of small_runtime five_bytes

deserialize_frame_with_length-framed_example :
    deserialize_frame_with_length small_runtime (framed five_bytes ++ (8 ∷ []))
    ≡ deserialize_frame small_runtime five_bytes
deserialize_frame_with_length-framed_example =
    deserialize_frame_with_length-framed small_runtime five_bytes (8 ∷ [])

-- The bytes of `small_request_n`.
abbrev request_n_bytes : Buffer
request_n_bytes = 0 ∷ 0 ∷ 0 ∷ 5 ∷ 32 ∷ 0 ∷ 0 ∷ 0 ∷ 1 ∷ 44 ∷ []

serialize-small_request_n :
    serialize_frame small_runtime small_request_n ≡ ok (some request_n_bytes)
unfolding frame_bytes type_code
serialize-small_request_n =
    let (bytes, laid_out, written, size) =
      serialize_frame-frame_bytes small_runtime small_request_n
        (omega arith, omega arith, omega arith) in
    written ∙ ap ok (sym laid_out)

serialize_frame_with_length-framed_example :
    serialize_frame_with_length small_runtime small_request_n ≡ ok (framed request_n_bytes)
serialize_frame_with_length-framed_example =
    serialize_frame_with_length-framed small_runtime small_request_n request_n_bytes
      serialize-small_request_n (omega arith)

abbrev small_metadata_push : MetadataPushFrame
small_metadata_push = record { metadata = buffer five_bytes; flags = 0x100 }

deserialize_frame-metadata_push_example :
    (bytes : Buffer) × (serialize_frame small_runtime (Frame.metadata_push small_metadata_push)
      ≡ ok (some bytes))
    × (deserialize_frame small_runtime bytes ≡ throw reference_error)
deserialize_frame-metadata_push_example =
    deserialize_frame-metadata_push small_runtime small_metadata_push (omega arith) refl
