-- ===== src/Codecs/Layout/Requests.antt =====
-- packages/rsocket-core/src/Codecs.ts writes the frames of a stream in their layout.
use rsocket_js.Common.{ℕ, ◌^◌, ◌<◌, ◌≡◌, refl, ◌++◌, arith}
use rsocket_js.Node.{BufferRef, byte_length, ok, Runtime, ℤ, u32, bits32}
use rsocket_js.Node.Write.{IsInt32, >>-Writes, write_text-Writes, write_all_lem}
use rsocket_js.Frames.{Frame, FrameType, CancelFrame, ErrorFrame, PayloadFrame, RequestNFrame}
use rsocket_js.Codecs.Requests.{
  serialize_error_frame, serialize_request_frame, serialize_request_many_frame,
  serialize_request_n_frame, serialize_cancel_frame, serialize_payload_frame,
}
use rsocket_js.Codecs.Layout.Parts.{
  header_bytes, write_header-Writes, payload_bytes, write_payload-Writes, length-payload_bytes,
}
use rsocket_js.Codecs.Layout.Frames.{IsUint31, IsUint31-Writes, IsWritable}

pub serialize_error_lem :
    (rt : Runtime) (f : ErrorFrame)
    → IsWritable (Frame.error f)
    → serialize_error_frame rt f
      ≡ ok (
          header_bytes FrameType.error f.flags f.stream_id
          ++ (u32 (bits32 f.code) ++ rt.utf8_encode f.message))
unfolding serialize_error_frame
serialize_error_lem rt f h =
    write_all_lem rt.memory _
      (>>-Writes (write_header-Writes FrameType.error f.flags f.stream_id h.0 h.1)
        (>>-Writes (IsUint31-Writes f.code h.2) (write_text-Writes (rt.utf8_encode f.message))))
      (omega arith)

pub serialize_request_lem :
    (rt : Runtime) (type : FrameType) (data_ref : BufferRef) (flags : ℕ) (metadata : BufferRef)
    (stream_id : ℤ)
    → (flags < 1024) × IsInt32 stream_id × (byte_length metadata < 2 ^ 24)
    → serialize_request_frame rt type data_ref flags metadata stream_id
      ≡ ok (header_bytes type flags stream_id ++ payload_bytes data_ref flags metadata)
unfolding serialize_request_frame
serialize_request_lem rt type data_ref flags metadata stream_id h =
    write_all_lem rt.memory _
      (>>-Writes (write_header-Writes type flags stream_id h.0 h.1)
        (write_payload-Writes data_ref flags metadata h.2))
      (omega (arith, length-payload_bytes data_ref flags metadata))

pub serialize_request_many_lem :
    (rt : Runtime) (type : FrameType) (data_ref : BufferRef) (flags : ℕ) (metadata : BufferRef)
    (request_n stream_id : ℤ)
    → (flags < 1024) × IsInt32 stream_id × (byte_length metadata < 2 ^ 24)
    → IsUint31 request_n
    → serialize_request_many_frame rt type data_ref flags metadata request_n stream_id
      ≡ ok (
          header_bytes type flags stream_id
          ++ (u32 (bits32 request_n) ++ payload_bytes data_ref flags metadata))
unfolding serialize_request_many_frame
serialize_request_many_lem rt type data_ref flags metadata request_n stream_id h hn =
    write_all_lem rt.memory _
      (>>-Writes (write_header-Writes type flags stream_id h.0 h.1) (
        >>-Writes (IsUint31-Writes request_n hn)
          (write_payload-Writes data_ref flags metadata h.2)))
      (omega (arith, length-payload_bytes data_ref flags metadata))

pub serialize_request_n_lem :
    (rt : Runtime) (f : RequestNFrame)
    → IsWritable (Frame.request_n f)
    → serialize_request_n_frame rt f
      ≡ ok (header_bytes FrameType.request_n f.flags f.stream_id ++ u32 (bits32 f.request_n))
unfolding serialize_request_n_frame
serialize_request_n_lem rt f h =
    write_all_lem rt.memory _
      (>>-Writes (write_header-Writes FrameType.request_n f.flags f.stream_id h.0 h.1)
        (IsUint31-Writes f.request_n h.2))
      refl

pub serialize_cancel_lem :
    (rt : Runtime) (f : CancelFrame)
    → IsWritable (Frame.cancel f)
    → serialize_cancel_frame rt f ≡ ok (header_bytes FrameType.cancel f.flags f.stream_id)
unfolding serialize_cancel_frame
serialize_cancel_lem rt f h =
    write_all_lem rt.memory _ (write_header-Writes FrameType.cancel f.flags f.stream_id h.0 h.1)
      refl

pub serialize_payload_lem :
    (rt : Runtime) (f : PayloadFrame)
    → IsWritable (Frame.payload f)
    → serialize_payload_frame rt f
      ≡ ok (
          header_bytes FrameType.payload f.flags f.stream_id
          ++ payload_bytes f.data_ref f.flags f.metadata)
unfolding serialize_payload_frame
serialize_payload_lem rt f h =
    write_all_lem rt.memory _
      (>>-Writes (write_header-Writes FrameType.payload f.flags f.stream_id h.0 h.1)
        (write_payload-Writes f.data_ref f.flags f.metadata h.2))
      (omega (arith, length-payload_bytes f.data_ref f.flags f.metadata))
