-- ===== src/Codecs/RoundTrip/Requests.antt =====
-- The frames of a stream, read back from their layout.
use rsocket_js.Common.{
  ℕ, ◌≡◌, refl, [], ◌∷◌, ◌++◌, arith, length, if◌then◌else◌, ltb, List, append-nil,
}
use mathlib.Core.Path.{sym}
use rsocket_js.Node.{Buffer, BufferRef, ok, Runtime, ℤ, pos, negsuc, u32, bits32}
use rsocket_js.Node.Write.{IsInt32}
use rsocket_js.Node.Read.{At, read_int32-At, slice-At, length-At}
use rsocket_js.Frames.{FrameType, CancelFrame, ErrorFrame, RequestNFrame}
use rsocket_js.Codecs.Requests.{
  read_message, deserialize_error_frame, deserialize_request_fnf_frame,
  deserialize_request_response_frame, deserialize_request_stream_frame,
  deserialize_request_channel_frame, deserialize_request_n_frame, deserialize_cancel_frame,
  deserialize_payload_frame,
}
use rsocket_js.Codecs.Layout.Parts.{header_bytes, payload_bytes}
use rsocket_js.Codecs.Layout.Frames.{IsUint31}
use rsocket_js.Codecs.RoundTrip.Parts.{received, received_metadata, read_payload-At}

pub IsUint31-IsInt32 : (z : ℤ) → IsUint31 z → IsInt32 z
IsUint31-IsInt32 (pos v) h = h
IsUint31-IsInt32 (negsuc v) h = absurd h

module _ (flags : ℕ) (stream_id : ℤ) (data_ref metadata : BufferRef) where
  abbrev plain : FrameType → Buffer
  plain type = header_bytes type flags stream_id ++ payload_bytes data_ref flags metadata

  pub deserialize_request_fnf_lem :
      deserialize_request_fnf_frame (plain FrameType.request_fnf) stream_id flags
      ≡ ok (record {
        data_ref = received data_ref;
        metadata = received_metadata flags metadata;
        flags = flags;
        stream_id = stream_id;
      })
  unfolding deserialize_request_fnf_frame
  deserialize_request_fnf_lem =
      rw (read_payload-At data_ref flags metadata (record { found = refl }))

  pub deserialize_request_response_lem :
      deserialize_request_response_frame (plain FrameType.request_response) stream_id flags
      ≡ ok (record {
        data_ref = received data_ref;
        metadata = received_metadata flags metadata;
        flags = flags;
        stream_id = stream_id;
      })
  unfolding deserialize_request_response_frame
  deserialize_request_response_lem =
      rw (read_payload-At data_ref flags metadata (record { found = refl }))

  pub deserialize_payload_lem :
      deserialize_payload_frame (plain FrameType.payload) stream_id flags
      ≡ ok (record {
        flags = flags;
        data_ref = received data_ref;
        metadata = received_metadata flags metadata;
        stream_id = stream_id;
      })
  unfolding deserialize_payload_frame
  deserialize_payload_lem = rw (read_payload-At data_ref flags metadata (record { found = refl }))

module _ (flags : ℕ) (stream_id request_n : ℤ) (data_ref metadata : BufferRef)
    (fits : IsUint31 request_n) where
  abbrev counted : FrameType → Buffer
  counted type =
      header_bytes type flags stream_id
      ++ (u32 (bits32 request_n) ++ payload_bytes data_ref flags metadata)

  pub deserialize_request_stream_lem :
      deserialize_request_stream_frame (counted FrameType.request_stream) stream_id flags
      ≡ ok (record {
        data_ref = received data_ref;
        metadata = received_metadata flags metadata;
        flags = flags;
        request_n = request_n;
        stream_id = stream_id;
      })
  unfolding deserialize_request_stream_frame
  deserialize_request_stream_lem = rw (
    read_int32-At request_n (IsUint31-IsInt32 request_n fits) (record { found = refl }),
    read_payload-At data_ref flags metadata (record { found = refl }),
  )

  pub deserialize_request_channel_lem :
      deserialize_request_channel_frame (counted FrameType.request_channel) stream_id flags
      ≡ ok (record {
        data_ref = received data_ref;
        metadata = received_metadata flags metadata;
        flags = flags;
        request_n = request_n;
        stream_id = stream_id;
      })
  unfolding deserialize_request_channel_frame
  deserialize_request_channel_lem = rw (
    read_int32-At request_n (IsUint31-IsInt32 request_n fits) (record { found = refl }),
    read_payload-At data_ref flags metadata (record { found = refl }),
  )

pub deserialize_request_n_lem :
    (f : RequestNFrame)
    → IsUint31 f.request_n
    → deserialize_request_n_frame
        (header_bytes FrameType.request_n f.flags f.stream_id ++ u32 (bits32 f.request_n))
        f.stream_id
        f.flags
      ≡ ok f
unfolding deserialize_request_n_frame
deserialize_request_n_lem f h = rw (
    read_int32-At f.request_n {rest = []} (IsUint31-IsInt32 f.request_n h)
      (record { found = refl }))

pub deserialize_cancel_lem :
    (f : CancelFrame) (buf : Buffer) → deserialize_cancel_frame buf f.stream_id f.flags ≡ ok f
unfolding deserialize_cancel_frame
deserialize_cancel_lem f buf = refl

-- The message that is read from the bytes behind the code.
message_of : Runtime → Buffer → List ℕ
message_of rt bytes = if ltb 0 (length bytes) then rt.utf8_decode bytes else []

message_of_lem :
    (rt : Runtime) (bytes : Buffer)
    → rt.utf8_decode [] ≡ []
    → message_of rt bytes ≡ rt.utf8_decode bytes
unfolding message_of
message_of_lem rt [] h = sym h
message_of_lem rt (b ∷ bytes) h = ground arith

read_message-At :
    {buf : Buffer} {offset : ℕ} (rt : Runtime) (bytes : Buffer)
    → At buf offset bytes
    → rt.utf8_decode [] ≡ []
    → read_message rt buf offset ≡ rt.utf8_decode bytes
unfolding read_message message_of
read_message-At {buf} {offset} rt bytes a h =
    let whole : At buf offset (bytes ++ []) = rw append-nil a in
    rw (← length-At a, slice-At bytes [] whole) (message_of_lem rt bytes h)

pub deserialize_error_lem :
    (rt : Runtime) (f : ErrorFrame)
    → IsUint31 f.code
    → rt.utf8_decode [] ≡ []
    → rt.utf8_decode (rt.utf8_encode f.message) ≡ f.message
    → deserialize_error_frame rt
        (header_bytes FrameType.error f.flags f.stream_id
          ++ (u32 (bits32 f.code) ++ rt.utf8_encode f.message))
        f.stream_id
        f.flags
      ≡ ok f
unfolding deserialize_error_frame
deserialize_error_lem rt f h empty decodes = rw (
  read_int32-At f.code (IsUint31-IsInt32 f.code h) (record { found = refl }),
  read_message-At rt (rt.utf8_encode f.message) (record { found = refl }) empty,
  decodes,
)
