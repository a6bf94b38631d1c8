-- ===== src/Frames.antt =====
-- packages/rsocket-core/src/Frames.ts: the frame types of the protocol, their flags, and the frames. A field
-- `type` or `streamId: 0` that the type of a frame fixes has no place in its record.
pub mod Flags
pub mod Lengths
use rsocket_js.Common.{ℕ, ◌==◌, leb, Bool, true, false, ◌&&◌, List}
use rsocket_js.Node.{ℤ, pos, negsuc, Buffer, BufferRef}

pub data FrameType : Type 0 where
  reserved setup lease keepalive request_response request_fnf request_stream request_channel :
      FrameType
  request_n cancel payload error metadata_push resume resume_ok ext : FrameType

unfoldable pub type_code : FrameType → ℕ
type_code FrameType.reserved = 0x00
type_code FrameType.setup = 0x01
type_code FrameType.lease = 0x02
type_code FrameType.keepalive = 0x03
type_code FrameType.request_response = 0x04
type_code FrameType.request_fnf = 0x05
type_code FrameType.request_stream = 0x06
type_code FrameType.request_channel = 0x07
type_code FrameType.request_n = 0x08
type_code FrameType.cancel = 0x09
type_code FrameType.payload = 0x0a
type_code FrameType.error = 0x0b
type_code FrameType.metadata_push = 0x0c
type_code FrameType.resume = 0x0d
type_code FrameType.resume_ok = 0x0e
type_code FrameType.ext = 0x3f

pub record CancelFrame : Type 0 where
  pub flags : ℕ
  pub stream_id : ℤ

-- A text is the list of its code units.
pub record ErrorFrame : Type 0 where
  pub flags : ℕ
  pub code : ℤ
  pub message : List ℕ
  pub stream_id : ℤ

pub record KeepAliveFrame : Type 0 where
  pub flags : ℕ
  pub data_ref : BufferRef
  pub last_received_position : ℕ

pub record LeaseFrame : Type 0 where
  pub flags : ℕ
  pub ttl : ℕ
  pub request_count : ℕ
  pub metadata : BufferRef

pub record PayloadFrame : Type 0 where
  pub flags : ℕ
  pub data_ref : BufferRef
  pub metadata : BufferRef
  pub stream_id : ℤ

pub record MetadataPushFrame : Type 0 where
  pub metadata : BufferRef
  pub flags : ℕ

pub record RequestChannelFrame : Type 0 where
  pub data_ref : BufferRef
  pub metadata : BufferRef
  pub flags : ℕ
  pub request_n : ℤ
  pub stream_id : ℤ

pub record RequestFnfFrame : Type 0 where
  pub data_ref : BufferRef
  pub metadata : BufferRef
  pub flags : ℕ
  pub stream_id : ℤ

pub record RequestNFrame : Type 0 where
  pub flags : ℕ
  pub request_n : ℤ
  pub stream_id : ℤ

pub record RequestResponseFrame : Type 0 where
  pub data_ref : BufferRef
  pub metadata : BufferRef
  pub flags : ℕ
  pub stream_id : ℤ

pub record RequestStreamFrame : Type 0 where
  pub data_ref : BufferRef
  pub metadata : BufferRef
  pub flags : ℕ
  pub request_n : ℤ
  pub stream_id : ℤ

pub record ResumeFrame : Type 0 where
  pub client_position : ℕ
  pub flags : ℕ
  pub major_version : ℕ
  pub minor_version : ℕ
  pub resume_token : Buffer
  pub server_position : ℕ

pub record ResumeOkFrame : Type 0 where
  pub client_position : ℕ
  pub flags : ℕ

pub record SetupFrame : Type 0 where
  pub data_mime_type : List ℕ
  pub data_ref : BufferRef
  pub flags : ℕ
  pub keep_alive : ℤ
  pub lifetime : ℤ
  pub metadata : BufferRef
  pub metadata_mime_type : List ℕ
  pub resume_token : BufferRef
  pub major_version : ℕ
  pub minor_version : ℕ

pub record ExtFrame : Type 0 where
  pub flags : ℕ
  pub stream_id : ℤ
  pub extended_type : ℕ
  pub extended_content : BufferRef

pub record UnsupportedFrame : Type 0 where
  pub flags : ℕ

pub data Frame : Type 0 where
  cancel : CancelFrame → Frame
  error : ErrorFrame → Frame
  keepalive : KeepAliveFrame → Frame
  lease : LeaseFrame → Frame
  payload : PayloadFrame → Frame
  metadata_push : MetadataPushFrame → Frame
  request_channel : RequestChannelFrame → Frame
  request_fnf : RequestFnfFrame → Frame
  request_n : RequestNFrame → Frame
  request_response : RequestResponseFrame → Frame
  request_stream : RequestStreamFrame → Frame
  resume : ResumeFrame → Frame
  resume_ok : ResumeOkFrame → Frame
  setup : SetupFrame → Frame
  ext : ExtFrame → Frame
  unsupported : UnsupportedFrame → Frame

unfoldable pub frame_type : Frame → FrameType
frame_type (Frame.cancel f) = FrameType.cancel
frame_type (Frame.error f) = FrameType.error
frame_type (Frame.keepalive f) = FrameType.keepalive
frame_type (Frame.lease f) = FrameType.lease
frame_type (Frame.payload f) = FrameType.payload
frame_type (Frame.metadata_push f) = FrameType.metadata_push
frame_type (Frame.request_channel f) = FrameType.request_channel
frame_type (Frame.request_fnf f) = FrameType.request_fnf
frame_type (Frame.request_n f) = FrameType.request_n
frame_type (Frame.request_response f) = FrameType.request_response
frame_type (Frame.request_stream f) = FrameType.request_stream
frame_type (Frame.resume f) = FrameType.resume
frame_type (Frame.resume_ok f) = FrameType.resume_ok
frame_type (Frame.setup f) = FrameType.setup
frame_type (Frame.ext f) = FrameType.ext
frame_type (Frame.unsupported f) = FrameType.reserved

unfoldable pub stream_id_of : Frame → ℤ
stream_id_of (Frame.cancel f) = f.stream_id
stream_id_of (Frame.error f) = f.stream_id
stream_id_of (Frame.payload f) = f.stream_id
stream_id_of (Frame.request_channel f) = f.stream_id
stream_id_of (Frame.request_fnf f) = f.stream_id
stream_id_of (Frame.request_n f) = f.stream_id
stream_id_of (Frame.request_response f) = f.stream_id
stream_id_of (Frame.request_stream f) = f.stream_id
stream_id_of (Frame.ext f) = f.stream_id
stream_id_of _ = pos 0

abbrev is_zero : ℤ → Bool
is_zero (pos n) = n == 0
is_zero (negsuc n) = false

unfoldable pub is_connection : Frame → Bool
unfolding stream_id_of
is_connection frame = is_zero (stream_id_of frame)

unfoldable pub is_request : Frame → Bool
unfolding type_code frame_type
is_request frame =
    leb (type_code FrameType.request_response) (type_code (frame_type frame))
    && leb (type_code (frame_type frame)) (type_code FrameType.request_channel)
