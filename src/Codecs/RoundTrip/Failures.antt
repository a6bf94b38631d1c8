-- ===== src/Codecs/RoundTrip/Failures.antt =====
-- What packages/rsocket-core/src/Codecs.ts writes and does not read back.
use rsocket_js.Common.{◌<◌, ◌≡◌, refl, none, some, arith, ◌++◌}
use rsocket_js.Node.{Buffer, Runtime, ok, throw, reference_error, pos}
use rsocket_js.Frames.{Frame, FrameType, MetadataPushFrame, type_code}
use rsocket_js.Codecs.{serialize_frame, deserialize_frame, deserialize_body}
use rsocket_js.Codecs.Connection.{deserialize_metadata_push_frame}
use rsocket_js.Codecs.Layout.Parts.{header_bytes, bytes_of}
use rsocket_js.Codecs.Layout.Connection.{serialize_metadata_push_lem}
use rsocket_js.Codecs.RoundTrip.Parts.{deserialize_frame-header_bytes}

-- Where there is no global variable `length`, a METADATA_PUSH frame whose flags fit is written, and
-- reading its bytes throws a ReferenceError.
pub deserialize_frame-metadata_push :
    (rt : Runtime) (f : MetadataPushFrame)
    → f.flags < 1024
    → rt.global_length ≡ none
    → (bytes : Buffer) × (serialize_frame rt (Frame.metadata_push f) ≡ ok (some bytes))
      × (deserialize_frame rt bytes ≡ throw reference_error)
unfolding serialize_frame deserialize_body type_code deserialize_metadata_push_frame
deserialize_frame-metadata_push rt f h no_global = (
  header_bytes FrameType.metadata_push f.flags (pos 0) ++ bytes_of f.metadata,
  rw (serialize_metadata_push_lem rt f h) refl,
  rw
      (deserialize_frame-header_bytes rt FrameType.metadata_push f.flags (pos 0)
        (bytes_of f.metadata) h (omega arith))
      (rw no_global refl),
)
