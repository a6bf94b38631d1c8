-- ===== src/Codecs/Requests.antt =====
-- packages/rsocket-core/src/Codecs.ts: writing, measuring and reading the frames of a stream.
use rsocket_js.Common.{List, ℕ, ◌+◌, ◌-◌, [], ltb, length, if◌then◌else◌}
use rsocket_js.Node.{
  Buffer, BufferRef, Result, ok, Runtime, ◌>>=◌, ◌>>◌, write_text, ℤ, write_uint32, write_all,
  read_int32, slice,
}
use rsocket_js.Frames.{
  FrameType, CancelFrame, ErrorFrame, PayloadFrame, RequestChannelFrame, RequestFnfFrame,
  RequestNFrame, RequestResponseFrame, RequestStreamFrame,
}
use rsocket_js.Codecs.Payload.{
  frame_header_size, write_header, get_payload_length, write_payload, read_payload,
}

abbrev pub error_fixed_size : ℕ
error_fixed_size = 4

unfoldable pub size_of_error_frame : Runtime → ErrorFrame → ℕ
size_of_error_frame rt frame =
    frame_header_size + error_fixed_size + length (rt.utf8_encode frame.message)

unfoldable pub serialize_error_frame : Runtime → ErrorFrame → Result Buffer
serialize_error_frame rt frame =
    write_all rt.memory
      (frame_header_size + error_fixed_size + length (rt.utf8_encode frame.message))
      (write_header FrameType.error frame.flags frame.stream_id
        >> write_uint32 frame.code
        >> write_text (rt.utf8_encode frame.message)
            (λ offset. offset + length (rt.utf8_encode frame.message)))

-- The text of the bytes from an offset to the end.
unfoldable pub read_message : Runtime → Buffer → ℕ → List ℕ
read_message rt buf offset =
    let message_length = length buf - offset in
    if ltb 0 message_length then rt.utf8_decode (slice buf offset (offset + message_length)) else []

unfoldable pub deserialize_error_frame : Runtime → Buffer → ℤ → ℕ → Result ErrorFrame
deserialize_error_frame rt buf stream_id flags = do
  code ← read_int32 buf 6
  ok (record {
    flags = flags;
    code = code;
    message = read_message rt buf 10;
    stream_id = stream_id;
  })

-- REQUEST_FNF and REQUEST_RESPONSE frames differ in their type only.
unfoldable pub size_of_request_frame : BufferRef → ℕ → BufferRef → ℕ
size_of_request_frame data_ref flags metadata =
    frame_header_size + get_payload_length data_ref flags metadata

unfoldable pub serialize_request_frame :
    Runtime → FrameType → BufferRef → ℕ → BufferRef → ℤ → Result Buffer
serialize_request_frame rt type data_ref flags metadata stream_id =
    write_all rt.memory (frame_header_size + get_payload_length data_ref flags metadata)
      (write_header type flags stream_id >> write_payload data_ref flags metadata)

unfoldable pub deserialize_request_fnf_frame : Buffer → ℤ → ℕ → Result RequestFnfFrame
deserialize_request_fnf_frame buf stream_id flags = do
  (data_ref, metadata) ← read_payload buf flags frame_header_size
  ok (record { data_ref = data_ref; metadata = metadata; flags = flags; stream_id = stream_id })

unfoldable pub deserialize_request_response_frame : Buffer → ℤ → ℕ → Result RequestResponseFrame
deserialize_request_response_frame buf stream_id flags = do
  (data_ref, metadata) ← read_payload buf flags frame_header_size
  ok (record { data_ref = data_ref; metadata = metadata; flags = flags; stream_id = stream_id })

abbrev pub request_many_header : ℕ
request_many_header = 4

-- REQUEST_STREAM and REQUEST_CHANNEL frames differ in their type only.
unfoldable pub size_of_request_many_frame : BufferRef → ℕ → BufferRef → ℕ
size_of_request_many_frame data_ref flags metadata =
    frame_header_size + request_many_header + get_payload_length data_ref flags metadata

unfoldable pub serialize_request_many_frame :
    Runtime → FrameType → BufferRef → ℕ → BufferRef → ℤ → ℤ → Result Buffer
serialize_request_many_frame rt type data_ref flags metadata request_n stream_id =
    write_all rt.memory
      (frame_header_size + request_many_header + get_payload_length data_ref flags metadata)
      (write_header type flags stream_id
        >> write_uint32 request_n
        >> write_payload data_ref flags metadata)

unfoldable pub deserialize_request_stream_frame : Buffer → ℤ → ℕ → Result RequestStreamFrame
deserialize_request_stream_frame buf stream_id flags = do
  request_n ← read_int32 buf 6
  (data_ref, metadata) ← read_payload buf flags 10
  ok (record {
    data_ref = data_ref;
    metadata = metadata;
    flags = flags;
    request_n = request_n;
    stream_id = stream_id;
  })

unfoldable pub deserialize_request_channel_frame : Buffer → ℤ → ℕ → Result RequestChannelFrame
deserialize_request_channel_frame buf stream_id flags = do
  request_n ← read_int32 buf 6
  (data_ref, metadata) ← read_payload buf flags 10
  ok (record {
    data_ref = data_ref;
    metadata = metadata;
    flags = flags;
    request_n = request_n;
    stream_id = stream_id;
  })

abbrev pub request_n_header : ℕ
request_n_header = 4

unfoldable pub size_of_request_n_frame : RequestNFrame → ℕ
size_of_request_n_frame frame = frame_header_size + request_n_header

unfoldable pub serialize_request_n_frame : Runtime → RequestNFrame → Result Buffer
serialize_request_n_frame rt frame =
    write_all rt.memory (frame_header_size + request_n_header)
      (write_header FrameType.request_n frame.flags frame.stream_id >> write_uint32 frame.request_n)

unfoldable pub deserialize_request_n_frame : Buffer → ℤ → ℕ → Result RequestNFrame
deserialize_request_n_frame buf stream_id flags = do
  request_n ← read_int32 buf frame_header_size
  ok (record { flags = flags; request_n = request_n; stream_id = stream_id })

unfoldable pub size_of_cancel_frame : CancelFrame → ℕ
size_of_cancel_frame frame = frame_header_size

unfoldable pub serialize_cancel_frame : Runtime → CancelFrame → Result Buffer
serialize_cancel_frame rt frame =
    write_all rt.memory frame_header_size
      (write_header FrameType.cancel frame.flags frame.stream_id)

unfoldable pub deserialize_cancel_frame : Buffer → ℤ → ℕ → Result CancelFrame
deserialize_cancel_frame buf stream_id flags = ok (record { flags = flags; stream_id = stream_id })

unfoldable pub size_of_payload_frame : PayloadFrame → ℕ
size_of_payload_frame frame =
    frame_header_size + get_payload_length frame.data_ref frame.flags frame.metadata

unfoldable pub serialize_payload_frame : Runtime → PayloadFrame → Result Buffer
serialize_payload_frame rt frame =
    write_all rt.memory
      (frame_header_size + get_payload_length frame.data_ref frame.flags frame.metadata)
      (write_header FrameType.payload frame.flags frame.stream_id
        >> write_payload frame.data_ref frame.flags frame.metadata)

unfoldable pub deserialize_payload_frame : Buffer → ℤ → ℕ → Result PayloadFrame
deserialize_payload_frame buf stream_id flags = do
  (data_ref, metadata) ← read_payload buf flags frame_header_size
  ok (record { flags = flags; data_ref = data_ref; metadata = metadata; stream_id = stream_id })
