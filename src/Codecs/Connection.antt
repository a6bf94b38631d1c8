-- ===== src/Codecs/Connection.antt =====
-- packages/rsocket-core/src/Codecs.ts: writing, measuring and reading the frames of a connection.
use rsocket_js.Common.{
  ℕ, ◌+◌, ◌%◌, ◌==◌, List, map, length, if◌then◌else◌, bit_and, Bool, not, none, some,
}
use rsocket_js.Node.{
  Buffer, BufferRef, null, buffer, byte_length, Writer, Result, ok, throw, reference_error, Runtime,
  ◌>>=◌, ◌>>◌, skip, copy, write_text, pos, write_uint8, write_uint16, write_uint32, write_all,
  read_uint8, read_uint16, read_uint32, read_int16, read_int32, slice, slice_to, advance, checked,
}
use rsocket_js.Frames.{
  FrameType, SetupFrame, KeepAliveFrame, LeaseFrame, MetadataPushFrame, ResumeFrame, ResumeOkFrame,
}
use rsocket_js.Frames.Flags
use rsocket_js.Codecs.Numbers.{read_uint64, write_uint64}
use rsocket_js.Codecs.Payload.{
  frame_header_size, write_header, copy_ref, get_payload_length, write_payload, read_data,
  read_payload,
}

abbrev pub setup_fixed_size : ℕ
setup_fixed_size = 14

abbrev pub resume_token_length_size : ℕ
resume_token_length_size = 2

-- The encoding "ascii" writes the low byte of each code unit, and reads the low seven bits.
abbrev pub ascii_bytes : List ℕ → Buffer
ascii_bytes = map (λ c. c % 256)

abbrev pub ascii_text : Buffer → List ℕ
ascii_text = map (λ b. b % 128)

-- `flags & Flags.RESUME_ENABLE` as a condition.
unfoldable pub resume_enabled : ℕ → Bool
resume_enabled flags = not (bit_and flags Flags.resume_enable == 0)

unfoldable pub size_of_setup_frame : SetupFrame → ℕ
size_of_setup_frame frame =
    frame_header_size
    + setup_fixed_size
    + (if byte_length frame.resume_token == 0
        then 0
        else resume_token_length_size + byte_length frame.resume_token)
    + length frame.metadata_mime_type
    + length frame.data_mime_type
    + get_payload_length frame.data_ref frame.flags frame.metadata

unfoldable pub write_resume_token : SetupFrame → Writer
write_resume_token frame =
    if resume_enabled frame.flags
    then write_uint16 (byte_length frame.resume_token) >> copy_ref frame.resume_token
    else skip

unfoldable pub write_mime_type : List ℕ → Writer
write_mime_type text =
    write_uint8 (length text) >> write_text (ascii_bytes text) (λ offset. offset + length text)

unfoldable pub serialize_setup_frame : Runtime → SetupFrame → Result Buffer
serialize_setup_frame rt frame = write_all rt.memory (size_of_setup_frame frame) (
    write_header FrameType.setup frame.flags (pos 0)
    >> write_uint16 frame.major_version
    >> write_uint16 frame.minor_version
    >> write_uint32 frame.keep_alive
    >> write_uint32 frame.lifetime
    >> write_resume_token frame
    >> write_mime_type frame.metadata_mime_type
    >> write_mime_type frame.data_mime_type
    >> write_payload frame.data_ref frame.flags frame.metadata)

-- The token and the offset behind it.
unfoldable pub read_resume_token : Buffer → ℕ → ℕ → Result (BufferRef × ℕ)
read_resume_token buf flags offset =
    if resume_enabled flags
    then (do
      token_length ← read_int16 buf offset
      let end = advance (offset + 2) token_length
      next ← checked end
      ok (buffer (slice_to buf (offset + 2) end), next))
    else ok (null, offset)

-- The text and the offset behind it.
unfoldable pub read_mime_type : Buffer → ℕ → Result (List ℕ × ℕ)
read_mime_type buf offset = do
  size ← read_uint8 buf offset
  ok (ascii_text (slice buf (offset + 1) (offset + 1 + size)), offset + 1 + size)

unfoldable pub deserialize_setup_frame : Buffer → ℕ → Result SetupFrame
deserialize_setup_frame buf flags = do
  major ← read_uint16 buf 6
  minor ← read_uint16 buf 8
  keep_alive ← read_int32 buf 10
  lifetime ← read_int32 buf 14
  (token, after_token) ← read_resume_token buf flags 18
  (metadata_mime_type, after_metadata_mime_type) ← read_mime_type buf after_token
  (data_mime_type, offset) ← read_mime_type buf after_metadata_mime_type
  (data_ref, metadata) ← read_payload buf flags offset
  ok (record {
    data_mime_type = data_mime_type;
    data_ref = data_ref;
    flags = flags;
    keep_alive = keep_alive;
    lifetime = lifetime;
    metadata = metadata;
    metadata_mime_type = metadata_mime_type;
    resume_token = token;
    major_version = major;
    minor_version = minor;
  })

abbrev pub keepalive_fixed_size : ℕ
keepalive_fixed_size = 8

unfoldable pub size_of_keepalive_frame : KeepAliveFrame → ℕ
size_of_keepalive_frame frame =
    frame_header_size + keepalive_fixed_size + byte_length frame.data_ref

unfoldable pub serialize_keepalive_frame : Runtime → KeepAliveFrame → Result Buffer
serialize_keepalive_frame rt frame =
    write_all rt.memory (frame_header_size + keepalive_fixed_size + byte_length frame.data_ref) (
      write_header FrameType.keepalive frame.flags (pos 0)
      >> write_uint64 frame.last_received_position
      >> copy_ref frame.data_ref)

unfoldable pub deserialize_keepalive_frame : Buffer → ℕ → Result KeepAliveFrame
deserialize_keepalive_frame buf flags = do
  position ← read_uint64 buf 6
  ok (record { flags = flags; data_ref = read_data buf 14; last_received_position = position })

abbrev pub lease_fixed_size : ℕ
lease_fixed_size = 8

unfoldable pub size_of_lease_frame : LeaseFrame → ℕ
size_of_lease_frame frame = frame_header_size + lease_fixed_size + byte_length frame.metadata

unfoldable pub serialize_lease_frame : Runtime → LeaseFrame → Result Buffer
serialize_lease_frame rt frame =
    write_all rt.memory (frame_header_size + lease_fixed_size + byte_length frame.metadata) (
      write_header FrameType.lease frame.flags (pos 0)
      >> write_uint32 (pos frame.ttl)
      >> write_uint32 (pos frame.request_count)
      >> copy_ref frame.metadata)

unfoldable pub deserialize_lease_frame : Buffer → ℕ → Result LeaseFrame
deserialize_lease_frame buf flags = do
  ttl ← read_uint32 buf 6
  request_count ← read_uint32 buf 10
  ok (record {
    flags = flags;
    ttl = ttl;
    request_count = request_count;
    metadata = read_data buf 14;
  })

unfoldable pub size_of_metadata_push_frame : MetadataPushFrame → ℕ
size_of_metadata_push_frame frame = frame_header_size + byte_length frame.metadata

-- Both branches allocate the header and the metadata, if there is any.
unfoldable pub serialize_metadata_push_frame : Runtime → MetadataPushFrame → Result Buffer
serialize_metadata_push_frame rt frame =
    write_all rt.memory (frame_header_size + byte_length frame.metadata)
      (write_header FrameType.metadata_push frame.flags (pos 0) >> copy_ref frame.metadata)

-- The function declares no `length`: the name is the global variable's, where there is one, and
-- reading it throws where there is none.
unfoldable pub deserialize_metadata_push_frame : Runtime → Buffer → ℕ → Result MetadataPushFrame
deserialize_metadata_push_frame rt buf flags = elim rt.global_length [
  | none ↦ throw reference_error
  | some n ↦ ok (record {
    metadata = if n == frame_header_size then null else buffer (slice buf frame_header_size n);
    flags = flags;
  })
]

abbrev pub resume_fixed_size : ℕ
resume_fixed_size = 22

unfoldable pub size_of_resume_frame : ResumeFrame → ℕ
size_of_resume_frame frame = frame_header_size + resume_fixed_size + length frame.resume_token

unfoldable pub serialize_resume_frame : Runtime → ResumeFrame → Result Buffer
serialize_resume_frame rt frame =
    write_all rt.memory (frame_header_size + resume_fixed_size + length frame.resume_token) (
      write_header FrameType.resume frame.flags (pos 0)
      >> write_uint16 frame.major_version
      >> write_uint16 frame.minor_version
      >> write_uint16 (length frame.resume_token)
      >> copy frame.resume_token
      >> write_uint64 frame.server_position
      >> write_uint64 frame.client_position)

unfoldable pub deserialize_resume_frame : Buffer → ℕ → Result ResumeFrame
deserialize_resume_frame buf flags = do
  major ← read_uint16 buf 6
  minor ← read_uint16 buf 8
  token_length ← read_int16 buf 10
  let end = advance 12 token_length
  offset ← checked end
  server_position ← read_uint64 buf offset
  client_position ← read_uint64 buf (offset + 8)
  ok (record {
    client_position = client_position;
    flags = flags;
    major_version = major;
    minor_version = minor;
    resume_token = slice_to buf 12 end;
    server_position = server_position;
  })

abbrev pub resume_ok_fixed_size : ℕ
resume_ok_fixed_size = 8

unfoldable pub size_of_resume_ok_frame : ResumeOkFrame → ℕ
size_of_resume_ok_frame frame = frame_header_size + resume_ok_fixed_size

unfoldable pub serialize_resume_ok_frame : Runtime → ResumeOkFrame → Result Buffer
serialize_resume_ok_frame rt frame =
    write_all rt.memory (frame_header_size + resume_ok_fixed_size)
      (write_header FrameType.resume_ok frame.flags (pos 0) >> write_uint64 frame.client_position)

unfoldable pub deserialize_resume_ok_frame : Buffer → ℕ → Result ResumeOkFrame
deserialize_resume_ok_frame buf flags = do
  client_position ← read_uint64 buf 6
  ok (record { client_position = client_position; flags = flags })
