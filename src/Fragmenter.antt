-- ===== src/Fragmenter.antt =====
-- packages/rsocket-core/src/Fragmenter.ts: cutting a payload into frames of a limited size. The two
-- generators share the text of their two loops. A loop runs on fuel; `stuck` says that it ran out.
pub mod Assembly
pub mod Metadata
pub mod RoundTrip
pub mod Requests
pub mod Limits
pub mod Fits
pub mod Sizes
pub mod Carried
pub mod Marks
pub mod Flagged
pub mod Opening
use rsocket_js.Common.{
  ℕ, zero, suc, ◌+◌, ltb, leb, ◌==◌, Bool, true, false, ◌&&◌, ◌||◌, length, if◌then◌else◌, bit_or,
  [], ◌∷◌,
}
use rsocket_js.Node.{
  ℤ, pos, negsuc, Buffer, BufferRef, undefined, null, buffer, byte_length, Result, ok, throw,
  type_error,
}
use rsocket_js.Node.Signed.{minus, plus, below, min_of, equals, slice_signed}
use rsocket_js.Frames.{Frame, FrameType}
use rsocket_js.Frames.Flags
use rsocket_js.Frames.Lengths
use rsocket_js.Codecs.{Yields, finished, stuck, failed, yield}
use rsocket_js.Reassembler.{Payload}

-- The kinds of frame that carry a payload, with what only some of them have.
pub data Carrier : Type 0 where
  payload request_fnf request_response : Carrier
  request_stream request_channel : (request_n : ℤ) → Carrier

abbrev pub is_request_many : Carrier → Bool
is_request_many (request_stream n) = true
is_request_many (request_channel n) = true
is_request_many _ = false

abbrev pub truthy : BufferRef → Bool
truthy (buffer b) = true
truthy _ = false

-- A data field that is null or undefined has no `byteLength`: the read throws.
unfoldable pub is_fragmentable : Payload → ℕ → Carrier → Result Bool
is_fragmentable p fragment_size carrier = if fragment_size == 0 then ok false else elim p.data_ref [
  | buffer d ↦ ok (
      ltb fragment_size (
        length d
        + (if truthy p.metadata then byte_length p.metadata + Lengths.metadata else 0)
        + (if is_request_many carrier then Lengths.request else 0)))
  | _ ↦ throw type_error
]

unfoldable pub make_frame : Carrier → ℕ → BufferRef → BufferRef → ℤ → Frame
make_frame payload flags data_ref metadata stream_id =
    Frame.payload
      (record { flags = flags; data_ref = data_ref; metadata = metadata; stream_id = stream_id })
make_frame request_fnf flags data_ref metadata stream_id =
    Frame.request_fnf
      (record { data_ref = data_ref; metadata = metadata; flags = flags; stream_id = stream_id })
make_frame request_response flags data_ref metadata stream_id =
    Frame.request_response
      (record { data_ref = data_ref; metadata = metadata; flags = flags; stream_id = stream_id })
make_frame (request_stream n) flags data_ref metadata stream_id = Frame.request_stream (record {
  data_ref = data_ref;
  metadata = metadata;
  flags = flags;
  request_n = n;
  stream_id = stream_id;
})
make_frame (request_channel n) flags data_ref metadata stream_id = Frame.request_channel (record {
  data_ref = data_ref;
  metadata = metadata;
  flags = flags;
  request_n = n;
  stream_id = stream_id;
})

-- What stays the same during one call of a generator.
pub record Job : Type 0 where
  pub stream_id : ℤ
  pub payload_data : BufferRef
  pub fragment_size : ℕ
  pub is_complete : Bool

-- `while (dataPosition < dataLength)`
unfoldable pub data_loop : ℕ → Job → Buffer → ℤ → ℤ → BufferRef → Yields Frame
data_loop zero job d position remaining metadata = stuck
data_loop (suc fuel) job d position remaining metadata =
    let next = min_of (length d) (plus position remaining) in
    let last = equals next (length d) in
    let marks = bit_or Flags.next (if truthy metadata then Flags.metadata else 0) in
    let flags =
      bit_or
        (if last then (if job.is_complete then Flags.complete else Flags.none) else Flags.follows)
        marks in
    let frame =
      make_frame payload flags (buffer (slice_signed d position next)) metadata job.stream_id in
    let round : Yields Frame =
      yield frame (data_loop fuel job d next (pos job.fragment_size) undefined) in
    if below position (length d) then round else finished

-- `while (metadataPosition < metadataLength)`; `go_on` is the code behind the loop, over the metadata
-- that are still to be sent and the room that remains.
unfoldable pub metadata_loop :
    ℕ → Job → Buffer → ℤ → ℤ → BufferRef → (BufferRef → ℤ → Yields Frame) → Yields Frame
metadata_loop zero job m position remaining metadata go_on = stuck
metadata_loop (suc fuel) job m position remaining metadata go_on =
    let room = minus remaining Lengths.metadata in
    let next = min_of (length m) (plus position room) in
    let piece = slice_signed m position next in
    let left = minus room (length piece) in
    let no_data = byte_length job.payload_data == 0 in
    let flags = bit_or (bit_or Flags.next Flags.metadata) (
      if equals next (length m) && job.is_complete && no_data
      then Flags.complete
      else Flags.follows) in
    let frame = make_frame payload flags undefined (buffer piece) job.stream_id in
    let sent : Yields Frame =
      yield frame (metadata_loop fuel job m next (pos job.fragment_size) undefined go_on) in
    let kept : Yields Frame = metadata_loop fuel job m next left (buffer piece) go_on in
    let round : Yields Frame = if equals left 0 || no_data then sent else kept in
    if below position (length m) then round else go_on metadata remaining

-- The part behind the metadata where the first frame is still to be sent.
unfoldable pub first_data_from : ℕ → Job → Carrier → BufferRef → BufferRef → ℤ → Yields Frame
first_data_from fuel job carrier (buffer d) metadata remaining =
    let next = min_of (length d) (plus (pos 0) remaining) in
    let flags = bit_or Flags.follows (if truthy metadata then Flags.metadata else Flags.none) in
    yield (make_frame carrier flags (buffer (slice_signed d (pos 0) next)) metadata job.stream_id)
      (data_loop fuel job d next (pos job.fragment_size) undefined)
first_data_from fuel job carrier _ metadata remaining = failed type_error

unfoldable pub first_data_frame : ℕ → Job → Carrier → BufferRef → ℤ → Yields Frame
first_data_frame fuel job carrier metadata remaining =
    first_data_from fuel job carrier job.payload_data metadata remaining

-- The part behind the metadata where it is not: without data the loop does not run.
unfoldable pub rest_from : ℕ → Job → BufferRef → BufferRef → ℤ → Yields Frame
rest_from fuel job (buffer d) metadata remaining = data_loop fuel job d (pos 0) remaining metadata
rest_from fuel job _ metadata remaining = finished

unfoldable pub rest_of_data : ℕ → Job → BufferRef → ℤ → Yields Frame
rest_of_data fuel job metadata remaining = rest_from fuel job job.payload_data metadata remaining

-- The metadata of the first frame: `room` is what it leaves for them.
unfoldable pub first_metadata_frame :
    ℕ → Job → Carrier → Buffer → ℤ → (BufferRef → ℤ → Yields Frame) → Yields Frame
first_metadata_frame fuel job carrier m room first_data =
    let next = min_of (length m) (plus (pos 0) room) in
    let piece = slice_signed m (pos 0) next in
    let left = minus room (length piece) in
    if equals left 0
    then yield
        (make_frame carrier (bit_or Flags.follows Flags.metadata) undefined (buffer piece)
          job.stream_id)
        (metadata_loop fuel job m next (pos job.fragment_size) undefined (rest_of_data fuel job))
    else metadata_loop fuel job m next left (buffer piece) first_data

abbrev is_payload : Carrier → Bool
is_payload payload = true
is_payload _ = false

-- `fragment`, for the frame types PAYLOAD, REQUEST_FNF and REQUEST_RESPONSE.
unfoldable pub fragment : ℕ → ℤ → Payload → ℕ → Carrier → Bool → Yields Frame
fragment fuel stream_id p fragment_size carrier is_complete =
    let job : Job = record {
      stream_id = stream_id;
      payload_data = p.data_ref;
      fragment_size = fragment_size;
      is_complete = is_complete;
    } in
    let size = pos fragment_size in
    let behind : BufferRef → ℤ → Yields Frame =
      if is_payload carrier then rest_of_data fuel job else first_data_frame fuel job carrier in
    elim p.metadata [
      | buffer [] ↦ behind (buffer []) (minus size Lengths.metadata)
      | buffer (b ∷ bytes) ↦
          if is_payload carrier
          then metadata_loop fuel job (b ∷ bytes) (pos 0) size undefined (rest_of_data fuel job)
          else first_metadata_frame fuel job carrier (b ∷ bytes) (minus size Lengths.metadata)
              (first_data_frame fuel job carrier)
      | _ ↦ behind undefined size
    ]

-- `fragmentWithRequestN`, for the frame types REQUEST_STREAM and REQUEST_CHANNEL. The room for the
-- request count is taken off before the first data, whether or not the metadata did it before.
unfoldable pub fragment_with_request_n : ℕ → ℤ → Payload → ℕ → Carrier → Bool → Yields Frame
fragment_with_request_n fuel stream_id p fragment_size carrier is_complete =
    let job : Job = record {
      stream_id = stream_id;
      payload_data = p.data_ref;
      fragment_size = fragment_size;
      is_complete = is_complete;
    } in
    let size = pos fragment_size in
    let first_data : BufferRef → ℤ → Yields Frame = λ metadata remaining.
      first_data_frame fuel job carrier metadata (minus remaining Lengths.request) in
    elim p.metadata [
      | buffer [] ↦ first_data (buffer []) (minus size Lengths.metadata)
      | buffer (b ∷ bytes) ↦
          first_metadata_frame fuel job carrier (b ∷ bytes)
            (minus size (Lengths.metadata + Lengths.request)) first_data
      | _ ↦ first_data undefined size
    ]
