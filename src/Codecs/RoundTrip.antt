-- ===== src/Codecs/RoundTrip.antt =====
-- What packages/rsocket-core/src/Codecs.ts reads from the bytes of a frame is the frame.
pub mod Parts
pub mod Requests
pub mod Connection
pub mod Failures
use mathlib.Core.Path.{subst}
use rsocket_js.Common.{arith, ℕ, ◌+◌, ◌<◌, ◌≡◌, refl, ap, [], ◌++◌, length, Option, none, some}
use mathlib.Core.Option.{some-injective}
use rsocket_js.Node.{Buffer, BufferRef, byte_length, ok, Runtime, ℤ, pos, u16, u32, bits32}
use rsocket_js.Frames.{Frame, FrameType, type_code}
use rsocket_js.Codecs.{serialize_frame, deserialize_frame, deserialize_body}
use rsocket_js.Codecs.Layout.Parts.{u64, bytes_of, payload_bytes}
use rsocket_js.Codecs.Layout.Frames.{frame_bytes, IsWritable, setup_bytes}
use rsocket_js.Codecs.Layout.Serialize.{serialize_frame-frame_bytes}
use Parts.{received, received_metadata, deserialize_frame-header_bytes}
use Requests.{
  deserialize_request_fnf_lem, deserialize_request_response_lem, deserialize_payload_lem,
  deserialize_request_stream_lem, deserialize_request_channel_lem, deserialize_request_n_lem,
  deserialize_cancel_lem, deserialize_error_lem,
}
use Connection.{
  IsAscii, deserialize_keepalive_lem, deserialize_lease_lem, deserialize_resume_lem,
  deserialize_resume_ok_lem, deserialize_setup_lem,
}

-- The frame as the other side has it: what is undefined or empty arrives as null, and metadata
-- arrive only under their flag.
abbrev pub received_frame : Frame → Frame
received_frame (Frame.keepalive f) = Frame.keepalive (record f { data_ref = received f.data_ref })
received_frame (Frame.lease f) = Frame.lease (record f { metadata = received f.metadata })
received_frame (Frame.payload f) =
    Frame.payload
      (record f { data_ref = received f.data_ref; metadata = received_metadata f.flags f.metadata })
received_frame (Frame.request_channel f) =
    Frame.request_channel
      (record f { data_ref = received f.data_ref; metadata = received_metadata f.flags f.metadata })
received_frame (Frame.request_fnf f) =
    Frame.request_fnf
      (record f { data_ref = received f.data_ref; metadata = received_metadata f.flags f.metadata })
received_frame (Frame.request_response f) =
    Frame.request_response
      (record f { data_ref = received f.data_ref; metadata = received_metadata f.flags f.metadata })
received_frame (Frame.request_stream f) =
    Frame.request_stream
      (record f { data_ref = received f.data_ref; metadata = received_metadata f.flags f.metadata })
received_frame (Frame.setup f) = Frame.setup (record f {
  data_ref = received f.data_ref;
  metadata = received_metadata f.flags f.metadata;
  resume_token = received f.resume_token;
})
received_frame f = f

-- What reading asks for beyond the places of the fields: a message that UTF-8 keeps, MIME types in
-- ASCII, and tokens whose length is below 2 ^ 15. A METADATA_PUSH frame is not read back.
abbrev pub IsReadable : Runtime → Frame → Type 0
IsReadable rt (Frame.error f) =
    (rt.utf8_decode [] ≡ []) × (rt.utf8_decode (rt.utf8_encode f.message) ≡ f.message)
IsReadable rt (Frame.resume f) = length f.resume_token < 32768
IsReadable rt (Frame.setup f) =
    (byte_length f.resume_token < 32768) × IsAscii f.metadata_mime_type × IsAscii f.data_mime_type
IsReadable rt (Frame.metadata_push f) = ⊥
IsReadable rt _ = Unit {0}

-- Reading the bytes gives the frame as it is received.
abbrev Reads : Runtime → Frame → Buffer → Type 0
Reads rt f bytes = deserialize_frame rt bytes ≡ ok (some (received_frame f))

deserialize-frame_bytes :
    (rt : Runtime) (f : Frame) (bytes : Buffer)
    → IsWritable f
    → IsReadable rt f
    → frame_bytes rt f ≡ some bytes
    → Reads rt f bytes
unfolding frame_bytes deserialize_body setup_bytes
deserialize-frame_bytes rt (Frame.cancel f) bytes h r e =
    subst (Reads rt (Frame.cancel f)) (some-injective _ _ e) (
      rw (deserialize_frame-header_bytes rt FrameType.cancel f.flags f.stream_id _ h.0 h.1)
        (rw (deserialize_cancel_lem f _)))
deserialize-frame_bytes rt (Frame.error f) bytes h r e =
    subst (Reads rt (Frame.error f)) (some-injective _ _ e) (
      rw (deserialize_frame-header_bytes rt FrameType.error f.flags f.stream_id _ h.0 h.1)
        (rw (deserialize_error_lem rt f h.2 r.0 r.1)))
deserialize-frame_bytes rt (Frame.keepalive f) bytes h r e =
    subst (Reads rt (Frame.keepalive f)) (some-injective _ _ e) (
      rw (deserialize_frame-header_bytes rt FrameType.keepalive f.flags (pos 0) _ h.0 (omega arith))
        (rw (deserialize_keepalive_lem f)))
deserialize-frame_bytes rt (Frame.lease f) bytes h r e =
    subst (Reads rt (Frame.lease f)) (some-injective _ _ e) (
      rw (deserialize_frame-header_bytes rt FrameType.lease f.flags (pos 0) _ h.0 (omega arith))
        (rw (deserialize_lease_lem f)))
deserialize-frame_bytes rt (Frame.payload f) bytes h r e =
    subst (Reads rt (Frame.payload f)) (some-injective _ _ e) (
      rw (deserialize_frame-header_bytes rt FrameType.payload f.flags f.stream_id _ h.0 h.1)
        (rw (deserialize_payload_lem f.flags f.stream_id f.data_ref f.metadata)))
deserialize-frame_bytes rt (Frame.metadata_push f) bytes h r e = absurd r
deserialize-frame_bytes rt (Frame.request_channel f) bytes h r e =
    subst (Reads rt (Frame.request_channel f)) (some-injective _ _ e) (
      rw
        (deserialize_frame-header_bytes rt FrameType.request_channel f.flags f.stream_id _ h.0.0
          h.0.1)
        (rw (
          deserialize_request_channel_lem f.flags f.stream_id f.request_n f.data_ref f.metadata
            h.1)))
deserialize-frame_bytes rt (Frame.request_stream f) bytes h r e =
    subst (Reads rt (Frame.request_stream f)) (some-injective _ _ e) (
      rw
        (deserialize_frame-header_bytes rt FrameType.request_stream f.flags f.stream_id _ h.0.0
          h.0.1)
        (rw (
          deserialize_request_stream_lem f.flags f.stream_id f.request_n f.data_ref f.metadata
            h.1)))
deserialize-frame_bytes rt (Frame.request_fnf f) bytes h r e =
    subst (Reads rt (Frame.request_fnf f)) (some-injective _ _ e) (
      rw (deserialize_frame-header_bytes rt FrameType.request_fnf f.flags f.stream_id _ h.0 h.1)
        (rw (deserialize_request_fnf_lem f.flags f.stream_id f.data_ref f.metadata)))
deserialize-frame_bytes rt (Frame.request_response f) bytes h r e =
    subst (Reads rt (Frame.request_response f)) (some-injective _ _ e) (
      rw
        (deserialize_frame-header_bytes rt FrameType.request_response f.flags f.stream_id _ h.0 h.1)
        (rw (deserialize_request_response_lem f.flags f.stream_id f.data_ref f.metadata)))
deserialize-frame_bytes rt (Frame.request_n f) bytes h r e =
    subst (Reads rt (Frame.request_n f)) (some-injective _ _ e) (
      rw (deserialize_frame-header_bytes rt FrameType.request_n f.flags f.stream_id _ h.0 h.1)
        (rw (deserialize_request_n_lem f h.2)))
deserialize-frame_bytes rt (Frame.resume f) bytes h r e =
    subst (Reads rt (Frame.resume f)) (some-injective _ _ e) (
      rw (deserialize_frame-header_bytes rt FrameType.resume f.flags (pos 0) _ h.0 (omega arith))
        (rw (deserialize_resume_lem f r)))
deserialize-frame_bytes rt (Frame.resume_ok f) bytes h r e =
    subst (Reads rt (Frame.resume_ok f)) (some-injective _ _ e) (
      rw (deserialize_frame-header_bytes rt FrameType.resume_ok f.flags (pos 0) _ h.0 (omega arith))
        (rw (deserialize_resume_ok_lem f)))
deserialize-frame_bytes rt (Frame.setup f) bytes h r e =
    subst (Reads rt (Frame.setup f)) (some-injective _ _ e) (
      rw
        (deserialize_frame-header_bytes rt FrameType.setup f.flags (pos 0) _ h.flags_fit
          (omega arith))
        (rw (deserialize_setup_lem f h r.0 r.1 r.2)))
deserialize-frame_bytes rt (Frame.ext f) bytes h r e = absurd h
deserialize-frame_bytes rt (Frame.unsupported f) bytes h r e = absurd h

-- A frame whose fields fit, and that can be read (not METADATA_PUSH), is written, and reading the
-- bytes gives the frame as it is received.
pub deserialize_frame-serialize_frame :
    (rt : Runtime) (f : Frame)
    → IsWritable f
    → IsReadable rt f
    → (bytes : Buffer) × (serialize_frame rt f ≡ ok (some bytes))
      × (deserialize_frame rt bytes ≡ ok (some (received_frame f)))
deserialize_frame-serialize_frame rt f h r =
    let (bytes, laid_out, written, _) = serialize_frame-frame_bytes rt f h in
    (bytes, written, deserialize-frame_bytes rt f bytes h r laid_out)
