-- ===== src/Codecs/Layout/Frames.antt =====
-- The layout of each frame, and that packages/rsocket-core/src/Codecs.ts writes it.
use rsocket_js.Common.{
  ℕ, ◌^◌, ◌<◌, ◌≡◌, [], ◌++◌, length, not, arith, if◌then◌else◌, ◌==◌, Option, none, some,
}
use rsocket_js.Node.{
  Buffer, BufferRef, byte_length, Runtime, ℤ, pos, negsuc, u16, u32, bits32, write_uint32,
}
use rsocket_js.Node.Write.{IsInt32, Writes, write_uint32-Writes}
use rsocket_js.Frames.{Frame, FrameType, SetupFrame}
use rsocket_js.Codecs.Connection
use rsocket_js.Codecs.Layout.Parts.{u64, header_bytes, bytes_of, payload_bytes, mime_type_bytes}

-- A number of 31 bits, as the protocol has them for request counts, error codes and times.
abbrev pub IsUint31 : ℤ → Type 0
IsUint31 (pos v) = v < 2147483648
IsUint31 (negsuc v) = ⊥

pub IsUint31-Writes : (z : ℤ) → IsUint31 z → Writes (write_uint32 z) (u32 (bits32 z))
IsUint31-Writes (pos v) h = write_uint32-Writes v (omega arith)
IsUint31-Writes (negsuc v) h = absurd h

abbrev pub setup_token_bytes : SetupFrame → Buffer
setup_token_bytes f =
    if Connection.resume_enabled f.flags
    then u16 (byte_length f.resume_token) ++ bytes_of f.resume_token
    else []

unfoldable pub setup_bytes : SetupFrame → Buffer
setup_bytes f =
    header_bytes FrameType.setup f.flags (pos 0)
    ++ (u16 f.major_version
        ++ (u16 f.minor_version
            ++ (u32 (bits32 f.keep_alive)
                ++ (u32 (bits32 f.lifetime)
                    ++ (setup_token_bytes f
                        ++ (mime_type_bytes f.metadata_mime_type
                            ++ (mime_type_bytes f.data_mime_type
                                ++ payload_bytes f.data_ref f.flags f.metadata)))))))

-- The layout of a frame; none for the two kinds that the code does not write.
unfoldable pub frame_bytes : Runtime → Frame → Option Buffer
frame_bytes rt (Frame.cancel f) = some (header_bytes FrameType.cancel f.flags f.stream_id)
frame_bytes rt (Frame.error f) = some (
    header_bytes FrameType.error f.flags f.stream_id
    ++ (u32 (bits32 f.code) ++ rt.utf8_encode f.message))
frame_bytes rt (Frame.keepalive f) = some (
    header_bytes FrameType.keepalive f.flags (pos 0)
    ++ (u64 f.last_received_position ++ bytes_of f.data_ref))
frame_bytes rt (Frame.lease f) = some (
    header_bytes FrameType.lease f.flags (pos 0)
    ++ (u32 f.ttl ++ (u32 f.request_count ++ bytes_of f.metadata)))
frame_bytes rt (Frame.payload f) = some (
    header_bytes FrameType.payload f.flags f.stream_id
    ++ payload_bytes f.data_ref f.flags f.metadata)
frame_bytes rt (Frame.metadata_push f) =
    some (header_bytes FrameType.metadata_push f.flags (pos 0) ++ bytes_of f.metadata)
frame_bytes rt (Frame.request_channel f) = some (
    header_bytes FrameType.request_channel f.flags f.stream_id
    ++ (u32 (bits32 f.request_n) ++ payload_bytes f.data_ref f.flags f.metadata))
frame_bytes rt (Frame.request_fnf f) = some (
    header_bytes FrameType.request_fnf f.flags f.stream_id
    ++ payload_bytes f.data_ref f.flags f.metadata)
frame_bytes rt (Frame.request_n f) =
    some (header_bytes FrameType.request_n f.flags f.stream_id ++ u32 (bits32 f.request_n))
frame_bytes rt (Frame.request_response f) = some (
    header_bytes FrameType.request_response f.flags f.stream_id
    ++ payload_bytes f.data_ref f.flags f.metadata)
frame_bytes rt (Frame.request_stream f) = some (
    header_bytes FrameType.request_stream f.flags f.stream_id
    ++ (u32 (bits32 f.request_n) ++ payload_bytes f.data_ref f.flags f.metadata))
frame_bytes rt (Frame.resume f) = some (
    header_bytes FrameType.resume f.flags (pos 0)
    ++ (u16 f.major_version
        ++ (u16 f.minor_version
            ++ (u16 (length f.resume_token)
                ++ (f.resume_token ++ (u64 f.server_position ++ u64 f.client_position))))))
frame_bytes rt (Frame.resume_ok f) =
    some (header_bytes FrameType.resume_ok f.flags (pos 0) ++ u64 f.client_position)
frame_bytes rt (Frame.setup f) = some (setup_bytes f)
frame_bytes rt (Frame.ext f) = none
frame_bytes rt (Frame.unsupported f) = none

abbrev FitsPayload : ℕ → ℤ → BufferRef → Type 0
FitsPayload flags stream_id metadata =
    (flags < 1024) × IsInt32 stream_id × (byte_length metadata < 2 ^ 24)

-- A token is there just if the flags say so.
pub record IsWritableSetup (f : SetupFrame) : Type 0 where
  pub flags_fit : f.flags < 1024
  pub versions_fit : (f.major_version < 65536) × (f.minor_version < 65536)
  pub times_fit : IsUint31 f.keep_alive × IsUint31 f.lifetime
  pub token_fits : byte_length f.resume_token < 65536
  pub token_flagged : (byte_length f.resume_token == 0) ≡ not (Connection.resume_enabled f.flags)
  pub mime_types_fit : (length f.metadata_mime_type < 256) × (length f.data_mime_type < 256)
  pub metadata_fits : byte_length f.metadata < 2 ^ 24

-- Every field of the frame fits the place that the protocol gives it.
abbrev pub IsWritable : Frame → Type 0
IsWritable (Frame.cancel f) = (f.flags < 1024) × IsInt32 f.stream_id
IsWritable (Frame.error f) = (f.flags < 1024) × IsInt32 f.stream_id × IsUint31 f.code
IsWritable (Frame.keepalive f) = (f.flags < 1024) × (f.last_received_position < 2 ^ 63)
IsWritable (Frame.lease f) = (f.flags < 1024) × (f.ttl < 2 ^ 32) × (f.request_count < 2 ^ 32)
IsWritable (Frame.payload f) = FitsPayload f.flags f.stream_id f.metadata
IsWritable (Frame.metadata_push f) = f.flags < 1024
IsWritable (Frame.request_channel f) =
    FitsPayload f.flags f.stream_id f.metadata × IsUint31 f.request_n
IsWritable (Frame.request_fnf f) = FitsPayload f.flags f.stream_id f.metadata
IsWritable (Frame.request_n f) = (f.flags < 1024) × IsInt32 f.stream_id × IsUint31 f.request_n
IsWritable (Frame.request_response f) = FitsPayload f.flags f.stream_id f.metadata
IsWritable (Frame.request_stream f) =
    FitsPayload f.flags f.stream_id f.metadata × IsUint31 f.request_n
IsWritable (Frame.resume f) =
    (f.flags < 1024)
    × (f.major_version < 65536)
    × (f.minor_version < 65536)
    × (length f.resume_token < 65536)
    × (f.server_position < 2 ^ 63)
    × (f.client_position < 2 ^ 63)
IsWritable (Frame.resume_ok f) = (f.flags < 1024) × (f.client_position < 2 ^ 63)
IsWritable (Frame.setup f) = IsWritableSetup f
IsWritable (Frame.ext f) = ⊥
IsWritable (Frame.unsupported f) = ⊥
