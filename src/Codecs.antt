-- ===== src/Codecs.antt =====
-- packages/rsocket-core/src/Codecs.ts: frames to bytes and back. `none` stands for the `undefined` that a
-- switch without a matching case returns.
pub mod Numbers
pub mod Payload
pub mod Connection
pub mod Requests
pub mod Layout
pub mod RoundTrip
pub mod Framing
use rsocket_js.Common.{
  ℕ, zero, suc, ◌+◌, ◌/◌, ◌%◌, ◌^◌, ◌==◌, ltb, length, if◌then◌else◌, Option, none, some,
}
use rsocket_js.Node.{
  Buffer, Result, ok, throw, Error, type_error, Runtime, ◌>>=◌, ◌>>◌, copy, write_all, ℤ,
  read_uint16, read_int32, slice,
}
use rsocket_js.Frames.{Frame, FrameType, type_code}
use Numbers.{read_uint24, write_uint24}
use Payload.{uint24_size}
use Connection
use Requests

abbrev returned {ℓ} : {A : Type ℓ} → (A → Frame) → Result A → Result (Option Frame)
returned make r = r >>= λ frame. ok (some (make frame))

-- The switch of `deserializeFrame`, over what the header holds.
unfoldable pub deserialize_body : Runtime → Buffer → ℤ → ℕ → ℕ → Result (Option Frame)
unfolding type_code
deserialize_body rt buf stream_id type flags =
    if type == type_code FrameType.setup
    then returned Frame.setup (Connection.deserialize_setup_frame buf flags)
    else if type == type_code FrameType.payload
    then returned Frame.payload (Requests.deserialize_payload_frame buf stream_id flags)
    else if type == type_code FrameType.error
    then returned Frame.error (Requests.deserialize_error_frame rt buf stream_id flags)
    else if type == type_code FrameType.keepalive
    then returned Frame.keepalive (Connection.deserialize_keepalive_frame buf flags)
    else if type == type_code FrameType.request_fnf
    then returned Frame.request_fnf (Requests.deserialize_request_fnf_frame buf stream_id flags)
    else if type == type_code FrameType.request_response
    then returned Frame.request_response
        (Requests.deserialize_request_response_frame buf stream_id flags)
    else if type == type_code FrameType.request_stream
    then returned Frame.request_stream
        (Requests.deserialize_request_stream_frame buf stream_id flags)
    else if type == type_code FrameType.request_channel
    then returned Frame.request_channel
        (Requests.deserialize_request_channel_frame buf stream_id flags)
    else if type == type_code FrameType.metadata_push
    then returned Frame.metadata_push (Connection.deserialize_metadata_push_frame rt buf flags)
    else if type == type_code FrameType.request_n
    then returned Frame.request_n (Requests.deserialize_request_n_frame buf stream_id flags)
    else if type == type_code FrameType.resume
    then returned Frame.resume (Connection.deserialize_resume_frame buf flags)
    else if type == type_code FrameType.resume_ok
    then returned Frame.resume_ok (Connection.deserialize_resume_ok_frame buf flags)
    else if type == type_code FrameType.cancel
    then returned Frame.cancel (Requests.deserialize_cancel_frame buf stream_id flags)
    else if type == type_code FrameType.lease
    then returned Frame.lease (Connection.deserialize_lease_frame buf flags)
    else ok none

unfoldable pub deserialize_frame : Runtime → Buffer → Result (Option Frame)
deserialize_frame rt buf = do
  stream_id ← read_int32 buf 0
  type_and_flags ← read_uint16 buf 4
  deserialize_body rt buf stream_id (type_and_flags / 2 ^ 10) (type_and_flags % 2 ^ 10)

abbrev some_buffer : Result Buffer → Result (Option Buffer)
some_buffer r = r >>= λ buf. ok (some buf)

unfoldable pub serialize_frame : Runtime → Frame → Result (Option Buffer)
serialize_frame rt (Frame.setup f) = some_buffer (Connection.serialize_setup_frame rt f)
serialize_frame rt (Frame.payload f) = some_buffer (Requests.serialize_payload_frame rt f)
serialize_frame rt (Frame.error f) = some_buffer (Requests.serialize_error_frame rt f)
serialize_frame rt (Frame.keepalive f) = some_buffer (Connection.serialize_keepalive_frame rt f)
serialize_frame rt (Frame.request_fnf f) = some_buffer (
    Requests.serialize_request_frame rt FrameType.request_fnf f.data_ref f.flags f.metadata
      f.stream_id)
serialize_frame rt (Frame.request_response f) = some_buffer (
    Requests.serialize_request_frame rt FrameType.request_response f.data_ref f.flags f.metadata
      f.stream_id)
serialize_frame rt (Frame.request_stream f) = some_buffer (
    Requests.serialize_request_many_frame rt FrameType.request_stream f.data_ref f.flags f.metadata
      f.request_n f.stream_id)
serialize_frame rt (Frame.request_channel f) = some_buffer (
    Requests.serialize_request_many_frame rt FrameType.request_channel f.data_ref f.flags f.metadata
      f.request_n f.stream_id)
serialize_frame rt (Frame.metadata_push f) =
    some_buffer (Connection.serialize_metadata_push_frame rt f)
serialize_frame rt (Frame.request_n f) = some_buffer (Requests.serialize_request_n_frame rt f)
serialize_frame rt (Frame.resume f) = some_buffer (Connection.serialize_resume_frame rt f)
serialize_frame rt (Frame.resume_ok f) = some_buffer (Connection.serialize_resume_ok_frame rt f)
serialize_frame rt (Frame.cancel f) = some_buffer (Requests.serialize_cancel_frame rt f)
serialize_frame rt (Frame.lease f) = some_buffer (Connection.serialize_lease_frame rt f)
serialize_frame rt (Frame.ext f) = ok none
serialize_frame rt (Frame.unsupported f) = ok none

unfoldable pub size_of_frame : Runtime → Frame → Option ℕ
size_of_frame rt (Frame.setup f) = some (Connection.size_of_setup_frame f)
size_of_frame rt (Frame.payload f) = some (Requests.size_of_payload_frame f)
size_of_frame rt (Frame.error f) = some (Requests.size_of_error_frame rt f)
size_of_frame rt (Frame.keepalive f) = some (Connection.size_of_keepalive_frame f)
size_of_frame rt (Frame.request_fnf f) =
    some (Requests.size_of_request_frame f.data_ref f.flags f.metadata)
size_of_frame rt (Frame.request_response f) =
    some (Requests.size_of_request_frame f.data_ref f.flags f.metadata)
size_of_frame rt (Frame.request_stream f) =
    some (Requests.size_of_request_many_frame f.data_ref f.flags f.metadata)
size_of_frame rt (Frame.request_channel f) =
    some (Requests.size_of_request_many_frame f.data_ref f.flags f.metadata)
size_of_frame rt (Frame.metadata_push f) = some (Connection.size_of_metadata_push_frame f)
size_of_frame rt (Frame.request_n f) = some (Requests.size_of_request_n_frame f)
size_of_frame rt (Frame.resume f) = some (Connection.size_of_resume_frame f)
size_of_frame rt (Frame.resume_ok f) = some (Connection.size_of_resume_ok_frame f)
size_of_frame rt (Frame.cancel f) = some (Requests.size_of_cancel_frame f)
size_of_frame rt (Frame.lease f) = some (Connection.size_of_lease_frame f)
size_of_frame rt (Frame.ext f) = none
size_of_frame rt (Frame.unsupported f) = none

unfoldable pub deserialize_frame_with_length : Runtime → Buffer → Result (Option Frame)
deserialize_frame_with_length rt buf = do
  frame_length ← read_uint24 buf 0
  deserialize_frame rt (slice buf uint24_size (uint24_size + frame_length))

-- `buffer.length` throws where `serializeFrame` returned undefined.
unfoldable pub serialize_frame_with_length : Runtime → Frame → Result Buffer
serialize_frame_with_length rt frame = serialize_frame rt frame >>= elim [
  | none ↦ throw type_error
  | some buf ↦
      write_all rt.memory (length buf + uint24_size) (write_uint24 (length buf) >> copy buf)
]

-- What a generator yields, and how it ends. `stuck` is no run of the code: the fuel ran out.
pub data Yields {ℓ} (A : Type ℓ) : Type ℓ where
  finished stuck : Yields A
  failed : Error → Yields A
  yield : A → Yields A → Yields A

-- What is done with the frame, or with the error that was thrown in its place.
abbrev pub yield_or_fail {ℓ κ} : {A : Type ℓ} {B : Type κ} → Result A → (A → Yields B) → Yields B
yield_or_fail (ok a) k = k a
yield_or_fail (throw e) k = failed e

-- The loop of `deserializeFrames`; every round but the last moves the offset on.
unfoldable pub deserialize_frames_from : Runtime → ℕ → Buffer → ℕ → Yields (Option Frame × ℕ)
deserialize_frames_from rt zero buf offset = stuck
deserialize_frames_from rt (suc fuel) buf offset =
    let round : Yields (Option Frame × ℕ) = yield_or_fail (read_uint24 buf offset) (λ frame_length.
      let start = offset + uint24_size in
      let end = start + frame_length in
      let next : Yields (Option Frame × ℕ) =
        yield_or_fail (deserialize_frame rt (slice buf start end))
          (λ frame. yield (frame, end) (deserialize_frames_from rt fuel buf end)) in
      if ltb (length buf) end then finished else next) in
    if ltb (offset + uint24_size) (length buf) then round else finished

unfoldable pub deserialize_frames : Runtime → Buffer → Yields (Option Frame × ℕ)
unfolding deserialize_frames_from
deserialize_frames rt buf = deserialize_frames_from rt (suc (length buf)) buf 0
