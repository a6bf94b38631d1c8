-- ===== src/Codecs/Layout/Serialize.antt =====
-- packages/rsocket-core/src/Codecs.ts writes each frame in its layout, and measures it right.
use rsocket_js.Common.{◌≡◌, refl, sym, ap, [], ◌++◌, length, some, arith}
use rsocket_js.Node.{Buffer, ok, Runtime}
use rsocket_js.Frames.{Frame, FrameType}
use rsocket_js.Codecs.{serialize_frame, size_of_frame}
use rsocket_js.Codecs.Connection.{
  size_of_keepalive_frame, size_of_lease_frame, size_of_metadata_push_frame, size_of_resume_frame,
  size_of_resume_ok_frame,
}
use rsocket_js.Codecs.Requests.{
  size_of_error_frame, size_of_request_frame, size_of_request_many_frame, size_of_request_n_frame,
  size_of_cancel_frame, size_of_payload_frame,
}
use rsocket_js.Codecs.Layout.Parts.{u64, length-bytes_of, length-payload_bytes}
use rsocket_js.Codecs.Layout.Frames.{frame_bytes, IsWritable}
use rsocket_js.Codecs.Layout.Connection.{
  length-setup_bytes, serialize_setup_lem, serialize_keepalive_lem, serialize_lease_lem,
  serialize_metadata_push_lem, serialize_resume_lem, serialize_resume_ok_lem, resume_bytes-length,
}
use rsocket_js.Codecs.Layout.Requests.{
  serialize_error_lem, serialize_request_lem, serialize_request_many_lem, serialize_request_n_lem,
  serialize_cancel_lem, serialize_payload_lem,
}

-- A frame whose fields fit is written as its layout, byte for byte, whatever stood in the memory
-- before, and `sizeOfFrame` is the number of those bytes.
pub serialize_frame-frame_bytes :
    (rt : Runtime) (f : Frame)
    → IsWritable f
    → (bytes : Buffer) × (frame_bytes rt f ≡ some bytes)
      × (serialize_frame rt f ≡ ok (some bytes))
      × (size_of_frame rt f ≡ some (length bytes))
unfolding serialize_frame size_of_frame frame_bytes
serialize_frame-frame_bytes rt (Frame.cancel f) h =
    (_, refl, rw (serialize_cancel_lem rt f h), unfold size_of_cancel_frame in refl)
serialize_frame-frame_bytes rt (Frame.error f) h =
    (_, refl, rw (serialize_error_lem rt f h), unfold size_of_error_frame in ap some (omega arith))
serialize_frame-frame_bytes rt (Frame.keepalive f) h = (
  _,
  refl,
  rw (serialize_keepalive_lem rt f h),
  unfold size_of_keepalive_frame in ap some (omega (arith, length-bytes_of f.data_ref)),
)
serialize_frame-frame_bytes rt (Frame.lease f) h = (
  _,
  refl,
  rw (serialize_lease_lem rt f h),
  unfold size_of_lease_frame in ap some (omega (arith, length-bytes_of f.metadata)),
)
serialize_frame-frame_bytes rt (Frame.payload f) h = (
  _,
  refl,
  rw (serialize_payload_lem rt f h),
  unfold size_of_payload_frame in
      ap some (omega (arith, length-payload_bytes f.data_ref f.flags f.metadata)),
)
serialize_frame-frame_bytes rt (Frame.metadata_push f) h = (
  _,
  refl,
  rw (serialize_metadata_push_lem rt f h),
  unfold size_of_metadata_push_frame in ap some (omega (arith, length-bytes_of f.metadata)),
)
serialize_frame-frame_bytes rt (Frame.request_channel f) h = (
  _,
  refl,
  rw (
      serialize_request_many_lem rt FrameType.request_channel f.data_ref f.flags f.metadata
        f.request_n f.stream_id h.0 h.1),
  unfold size_of_request_many_frame in
      ap some (omega (arith, length-payload_bytes f.data_ref f.flags f.metadata)),
)
serialize_frame-frame_bytes rt (Frame.request_fnf f) h = (
  _,
  refl,
  rw (serialize_request_lem rt FrameType.request_fnf f.data_ref f.flags f.metadata f.stream_id h),
  unfold size_of_request_frame in
      ap some (omega (arith, length-payload_bytes f.data_ref f.flags f.metadata)),
)
serialize_frame-frame_bytes rt (Frame.request_n f) h =
    (_, refl, rw (serialize_request_n_lem rt f h), unfold size_of_request_n_frame in refl)
serialize_frame-frame_bytes rt (Frame.request_response f) h = (
  _,
  refl,
  rw (
      serialize_request_lem rt FrameType.request_response f.data_ref f.flags f.metadata f.stream_id
        h),
  unfold size_of_request_frame in
      ap some (omega (arith, length-payload_bytes f.data_ref f.flags f.metadata)),
)
serialize_frame-frame_bytes rt (Frame.request_stream f) h = (
  _,
  refl,
  rw (
      serialize_request_many_lem rt FrameType.request_stream f.data_ref f.flags f.metadata
        f.request_n f.stream_id h.0 h.1),
  unfold size_of_request_many_frame in
      ap some (omega (arith, length-payload_bytes f.data_ref f.flags f.metadata)),
)
serialize_frame-frame_bytes rt (Frame.resume f) h = (
  _,
  refl,
  rw (serialize_resume_lem rt f h),
  unfold size_of_resume_frame in
      ap some
        (omega (arith, resume_bytes-length f [] (u64 f.server_position ++ u64 f.client_position))),
)
serialize_frame-frame_bytes rt (Frame.resume_ok f) h =
    (_, refl, rw (serialize_resume_ok_lem rt f h), unfold size_of_resume_ok_frame in refl)
serialize_frame-frame_bytes rt (Frame.setup f) h =
    (_, refl, rw (serialize_setup_lem rt f h), ap some (sym (length-setup_bytes f h)))
serialize_frame-frame_bytes rt (Frame.ext f) h = absurd h
serialize_frame-frame_bytes rt (Frame.unsupported f) h = absurd h
