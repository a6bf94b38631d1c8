-- ===== src/Codecs/Payload.antt =====
-- packages/rsocket-core/src/Codecs.ts: the header of a frame, and its payload, which is metadata behind
-- a length of 24 bits, if the flags say so, and then data up to the end.
use rsocket_js.Common.{ℕ, ◌+◌, ◌*◌, ◌%◌, ◌^◌, ltb, length, if◌then◌else◌, bit_or}
use rsocket_js.Node.{
  Buffer, BufferRef, undefined, null, buffer, byte_length, Writer, Result, ok, ◌>>=◌, ◌>>◌, skip,
  copy, ℤ, write_int32, write_uint16, slice,
}
use rsocket_js.Frames.{FrameType, type_code}
use rsocket_js.Frames.Flags
use rsocket_js.Codecs.Numbers.{read_uint24, write_uint24}

abbrev pub flags_mask : ℕ
flags_mask = 0x3ff

abbrev pub frame_header_size : ℕ
frame_header_size = 6

abbrev pub uint24_size : ℕ
uint24_size = 3

-- The mask of the ten low bits is the remainder by 2 ^ 10.
unfoldable pub write_header : FrameType → ℕ → ℤ → Writer
write_header type flags stream_id =
    write_int32 stream_id >> write_uint16 (bit_or (type_code type * 2 ^ 10) (flags % 2 ^ 10))

-- `if (ref != null) offset += ref.copy(buffer, offset)`
unfoldable pub copy_ref : BufferRef → Writer
copy_ref undefined = skip
copy_ref null = skip
copy_ref (buffer b) = copy b

unfoldable pub get_payload_length : BufferRef → ℕ → BufferRef → ℕ
get_payload_length data_ref flags metadata =
    if Flags.has_metadata flags
    then byte_length data_ref + (uint24_size + byte_length metadata)
    else byte_length data_ref

unfoldable pub write_metadata : BufferRef → Writer
write_metadata undefined = write_uint24 0
write_metadata null = write_uint24 0
write_metadata (buffer b) = write_uint24 (length b) >> copy b

unfoldable pub write_payload : BufferRef → ℕ → BufferRef → Writer
write_payload data_ref flags metadata =
    (if Flags.has_metadata flags then write_metadata metadata else skip) >> copy_ref data_ref

unfoldable pub read_data : Buffer → ℕ → BufferRef
read_data buf offset =
    if ltb offset (length buf) then buffer (slice buf offset (length buf)) else null

-- The data and the metadata that are read from a payload with metadata.
unfoldable pub read_metadata_and_data : Buffer → ℕ → Result (BufferRef × BufferRef)
read_metadata_and_data buf offset = do
  meta_length ← read_uint24 buf offset
  let start = offset + uint24_size
  ok (
      if ltb 0 meta_length
      then (read_data buf (start + meta_length), buffer (slice buf start (start + meta_length)))
      else (read_data buf start, null))

-- The data and the metadata that are read; both are null before.
unfoldable pub read_payload : Buffer → ℕ → ℕ → Result (BufferRef × BufferRef)
unfolding read_metadata_and_data
read_payload buf flags offset =
    if Flags.has_metadata flags
    then read_metadata_and_data buf offset
    else ok (read_data buf offset, null)
