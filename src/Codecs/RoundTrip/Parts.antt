-- ===== src/Codecs/RoundTrip/Parts.antt =====
-- Reading headers, payloads and numbers back from their layout.
use rsocket_js.Common.{
  ℕ, ◌+◌, ◌*◌, ◌/◌, ◌%◌, ◌^◌, ◌<◌, ◌≡◌, refl, ap, ◌∙◌, [], ◌∷◌, ◌++◌, arith, length, if◌then◌else◌,
  bit_or, bit_or_disjoint, Bool-cases, inl, inr, ltb, lt→ltb,
}
use mathlib.Core.Path.{ap₂}
use rsocket_js.Node.{Buffer, BufferRef, undefined, null, buffer, ok, Runtime, ℤ, u16, u32, bits32}
use rsocket_js.Node.Write.{IsInt32}
use rsocket_js.Node.Read.{
  At, At-skip, length-At, read_uint8-At, read_uint16-At, read_uint32-At, read_int32-At, slice-At,
  slice_rest-At,
}
use rsocket_js.Frames.{FrameType, type_code}
use rsocket_js.Frames.Flags
use rsocket_js.Codecs.{deserialize_frame, deserialize_body}
use rsocket_js.Codecs.Numbers.{read_uint24, read_uint64}
use rsocket_js.Codecs.Payload.{read_data, read_metadata_and_data, read_payload}
use rsocket_js.Codecs.Layout.Parts.{u24, u64, header_bytes, bytes_of, payload_bytes, metadata_bytes}

pub joined_bytes :
    (a b c : ℕ)
    → b < 256
    → c < 256
    → bit_or (bit_or (a * 2 ^ 16) (b * 2 ^ 8)) c ≡ a * 65536 + b * 256 + c
joined_bytes a b c hb hc =
    rw (bit_or_disjoint 16 a (b * 2 ^ 8) (omega arith), regroup)
      (bit_or_disjoint 8 (a * 256 + b) c hc ∙ omega arith)
  where
    regroup : a * 2 ^ 16 + b * 2 ^ 8 ≡ (a * 256 + b) * 2 ^ 8
    regroup = omega arith

pub read_uint24-At :
    {buf : Buffer} {offset : ℕ} (v : ℕ) {rest : Buffer}
    → At buf offset (u24 v ++ rest)
    → read_uint24 buf offset ≡ ok v
unfolding read_uint24
read_uint24-At v {rest} a =
    rw
      (
        read_uint8-At a,
        read_uint8-At (At-skip ((v / 65536) ∷ []) a),
        read_uint8-At (At-skip ((v / 65536) ∷ (v / 256 % 256) ∷ []) a),
      )
      (ap ok (
        joined_bytes (v / 65536) (v / 256 % 256) (v % 256) (omega arith) (omega arith)
        ∙ omega arith))

pub read_uint64-At :
    {buf : Buffer} {offset : ℕ} (v : ℕ) {rest : Buffer}
    → At buf offset (u64 v ++ rest)
    → read_uint64 buf offset ≡ ok v
unfolding read_uint64
read_uint64-At v a =
    rw
      (
        read_uint32-At (v / 4294967296) a,
        read_uint32-At (v % 4294967296) (At-skip (u32 (v / 4294967296)) a),
      )
      (ap ok (omega arith))

-- What arrives of a reference: an empty buffer cannot be told from none.
abbrev pub received : BufferRef → BufferRef
received undefined = null
received null = null
received (buffer []) = null
received (buffer (b ∷ bytes)) = buffer (b ∷ bytes)

abbrev pub received_metadata : ℕ → BufferRef → BufferRef
received_metadata flags metadata = if Flags.has_metadata flags then received metadata else null

unless_empty : Buffer → BufferRef
unless_empty bytes = if ltb 0 (length bytes) then buffer bytes else null

received_lem : (ref : BufferRef) → unless_empty (bytes_of ref) ≡ received ref
unfolding unless_empty
received_lem undefined = refl
received_lem null = refl
received_lem (buffer []) = refl
received_lem (buffer (b ∷ bytes)) = ground arith

pub read_data-At :
    {buf : Buffer} {offset : ℕ} (ref : BufferRef)
    → At buf offset (bytes_of ref)
    → read_data buf offset ≡ received ref
unfolding read_data
read_data-At {buf} {offset} ref a = rw (slice_rest-At a) (rest_if ∙ received_lem ref)
  where
    rest_if :
        (if ltb offset (length buf) then buffer (bytes_of ref) else null)
        ≡ unless_empty (bytes_of ref)
    rest_if = unfold unless_empty in ground (arith, length-At a)

-- With the flag: the length, the metadata of that length, and then the data.
read_flagged-At :
    {buf : Buffer} {offset : ℕ} (data_ref metadata : BufferRef)
    → At buf offset (metadata_bytes metadata ++ bytes_of data_ref)
    → read_metadata_and_data buf offset ≡ ok (received data_ref, received metadata)
unfolding read_metadata_and_data
read_flagged-At data_ref undefined a =
    rw (read_uint24-At 0 a) (ap (λ d. ok (d, null)) (read_data-At data_ref (At-skip (u24 0) a)))
read_flagged-At data_ref null a =
    rw (read_uint24-At 0 a) (ap (λ d. ok (d, null)) (read_data-At data_ref (At-skip (u24 0) a)))
read_flagged-At data_ref (buffer []) a =
    rw (read_uint24-At 0 a) (ap (λ d. ok (d, null)) (read_data-At data_ref (At-skip (u24 0) a)))
read_flagged-At data_ref (buffer (b ∷ bytes)) a =
    let size = length (b ∷ bytes) in
    let behind = At-skip (u24 size) a in
    rw (read_uint24-At size a, lt→ltb 0 size (omega arith))
      (ap₂ (λ d m. ok (d, buffer m)) (read_data-At data_ref (At-skip (b ∷ bytes) behind))
        (slice-At (b ∷ bytes) (bytes_of data_ref) behind))

pub read_payload-At :
    {buf : Buffer} {offset : ℕ} (data_ref : BufferRef) (flags : ℕ) (metadata : BufferRef)
    → At buf offset (payload_bytes data_ref flags metadata)
    → read_payload buf flags offset ≡ ok (received data_ref, received_metadata flags metadata)
unfolding read_payload payload_bytes
read_payload-At {buf} {offset} data_ref flags metadata a =
    elim (Bool-cases (Flags.has_metadata flags)) [
      | inl e ↦ rw e (read_flagged-At data_ref metadata (rw e at a))
      | inr e ↦ rw e (ap (λ d. ok (d, null)) (read_data-At data_ref (rw e at a)))
    ]

-- `deserializeFrame` finds the stream id, the type and the flags of the header.
pub deserialize_frame-header_bytes :
    (rt : Runtime) (type : FrameType) (flags : ℕ) (stream_id : ℤ) (rest : Buffer)
    → flags < 1024
    → IsInt32 stream_id
    → deserialize_frame rt (header_bytes type flags stream_id ++ rest)
      ≡ deserialize_body rt
          (header_bytes type flags stream_id ++ rest)
          stream_id
          (type_code type)
          flags
unfolding deserialize_frame
deserialize_frame-header_bytes rt type flags stream_id rest hf hs =
    let frame = header_bytes type flags stream_id ++ rest in
    let word = type_code type * 1024 + flags in
    let id_bytes : At frame 0 (u32 (bits32 stream_id) ++ (u16 word ++ rest)) = record {
      found = refl;
    } in
    rw
      (
        read_int32-At stream_id hs id_bytes,
        read_uint16-At word (At-skip (u32 (bits32 stream_id)) id_bytes),
      )
      (ap₂ (deserialize_body rt frame stream_id) (omega arith) (omega arith))
