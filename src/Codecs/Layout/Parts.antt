-- ===== src/Codecs/Layout/Parts.antt =====
-- The layout of numbers, headers, payloads and texts, and that the code writes it.
use rsocket_js.Common.{
  ℕ, suc, ◌+◌, ◌*◌, ◌/◌, ◌%◌, ◌^◌, ◌<◌, ◌≡◌, refl, ap, [], ◌∷◌, ◌++◌, arith, length, List,
  if◌then◌else◌, length-append, bit_or_disjoint, Bool-cases, inl, inr, bit_or,
}
use mathlib.Core.Path.{subst}
use rsocket_js.Node.{
  Buffer, BufferRef, undefined, null, buffer, byte_length, Writer, ℤ, pos, u16, u32, bits32, skip,
  to_int32,
}
use rsocket_js.Node.Write.{
  Writes, IsInt32, skip-Writes, >>-Writes, copy-Writes, write_text-Writes, write_uint8-Writes,
  write_uint16-Writes, write_uint32-Writes, write_int32-Writes,
}
use rsocket_js.Frames.{FrameType, type_code}
use rsocket_js.Frames.Flags
use rsocket_js.Codecs.Numbers.{write_uint24, write_uint64}
use rsocket_js.Codecs.Payload.{
  write_header, copy_ref, get_payload_length, write_metadata, write_payload,
}
use rsocket_js.Codecs.Connection.{ascii_bytes, write_mime_type}

abbrev pub u24 : ℕ → Buffer
u24 v = (v / 65536) ∷ (v / 256 % 256) ∷ (v % 256) ∷ []

abbrev pub u64 : ℕ → Buffer
u64 v = u32 (v / 4294967296) ++ u32 (v % 4294967296)

Writes-eq : {m : Writer} {xs ys : Buffer} → Writes m xs → xs ≡ ys → Writes m ys
Writes-eq {m} w e = subst (Writes m) e w

u24_bytes :
    (v : ℕ)
    → v < 2 ^ 24
    → ((v % 2 ^ 32 / 2 ^ 16) ∷ []) ++ (((v % 2 ^ 32 / 2 ^ 8 % 256) ∷ []) ++ ((v % 256) ∷ []))
      ≡ u24 v
u24_bytes v h = ground arith

pub write_uint24-Writes : (v : ℕ) → v < 2 ^ 24 → Writes (write_uint24 v) (u24 v)
unfolding write_uint24
write_uint24-Writes v h =
    Writes-eq
      (>>-Writes (write_uint8-Writes _ (omega arith))
        (>>-Writes (write_uint8-Writes _ (omega arith)) (write_uint8-Writes _ (omega arith))))
      (u24_bytes v h)

-- A position below 2 ^ 63: the upper half is a positive int32.
pub write_uint64-Writes : (v : ℕ) → v < 2 ^ 63 → Writes (write_uint64 v) (u64 v)
unfolding write_uint64
write_uint64-Writes v h = rw (high_word v h) (
    >>-Writes (write_uint32-Writes (v / 4294967296) (omega arith))
      (write_uint32-Writes (v % 4294967296) (omega arith)))
  where
    high_word :
        (v : ℕ) → v < 2 ^ 63 → to_int32 (v / 0x100000000 % 0x100000000) ≡ pos (v / 4294967296)
    high_word v h = ground arith

-- The stream id, and the type over the ten bits of the flags.
abbrev pub header_bytes : FrameType → ℕ → ℤ → Buffer
header_bytes type flags stream_id = u32 (bits32 stream_id) ++ u16 (type_code type * 1024 + flags)

type_code-lt : (type : FrameType) → type_code type < 64
unfolding type_code
type_code-lt FrameType.setup = omega arith
type_code-lt _ = omega arith

pub write_header-Writes :
    (type : FrameType) (flags : ℕ) (stream_id : ℤ)
    → flags < 1024
    → IsInt32 stream_id
    → Writes (write_header type flags stream_id) (header_bytes type flags stream_id)
unfolding write_header
write_header-Writes type flags stream_id hf hs =
    >>-Writes (write_int32-Writes stream_id hs)
      (rw (word (type_code type)) (write_uint16-Writes _ (omega (arith, type_code-lt type))))
  where
    word : (t : ℕ) → bit_or (t * 2 ^ 10) (flags % 2 ^ 10) ≡ t * 1024 + flags
    word t = omega (arith, bit_or_disjoint 10 t (flags % 2 ^ 10))

-- The bytes behind a reference; none if there is no buffer.
abbrev pub bytes_of : BufferRef → Buffer
bytes_of undefined = []
bytes_of null = []
bytes_of (buffer b) = b

pub length-bytes_of : (ref : BufferRef) → length (bytes_of ref) ≡ byte_length ref
length-bytes_of undefined = refl
length-bytes_of null = refl
length-bytes_of (buffer b) = refl

pub copy_ref-Writes : (ref : BufferRef) → Writes (copy_ref ref) (bytes_of ref)
unfolding copy_ref
copy_ref-Writes undefined = skip-Writes
copy_ref-Writes null = skip-Writes
copy_ref-Writes (buffer b) = copy-Writes b

abbrev pub metadata_bytes : BufferRef → Buffer
metadata_bytes metadata = u24 (byte_length metadata) ++ bytes_of metadata

write_metadata-Writes :
    (metadata : BufferRef)
    → byte_length metadata < 2 ^ 24
    → Writes (write_metadata metadata) (metadata_bytes metadata)
unfolding write_metadata
write_metadata-Writes undefined h = write_uint24-Writes 0 h
write_metadata-Writes null h = write_uint24-Writes 0 h
write_metadata-Writes (buffer b) h = >>-Writes (write_uint24-Writes (length b) h) (copy-Writes b)

-- The metadata stand in the frame only if the flags say so; the data fill what is left.
unfoldable pub payload_bytes : BufferRef → ℕ → BufferRef → Buffer
payload_bytes data_ref flags metadata =
    (if Flags.has_metadata flags then metadata_bytes metadata else []) ++ bytes_of data_ref

pub write_payload-Writes :
    (data_ref : BufferRef) (flags : ℕ) (metadata : BufferRef)
    → byte_length metadata < 2 ^ 24
    → Writes (write_payload data_ref flags metadata) (payload_bytes data_ref flags metadata)
unfolding write_payload payload_bytes
write_payload-Writes data_ref flags metadata h = >>-Writes front (copy_ref-Writes data_ref)
  where
    front :
        Writes
          (if Flags.has_metadata flags then write_metadata metadata else skip)
          (if Flags.has_metadata flags then metadata_bytes metadata else [])
    front = elim (Bool-cases (Flags.has_metadata flags)) [
      | inl e ↦ rw e (write_metadata-Writes metadata h)
      | inr e ↦ rw e skip-Writes
    ]

pub length-payload_bytes :
    (data_ref : BufferRef) (flags : ℕ) (metadata : BufferRef)
    → length (payload_bytes data_ref flags metadata) ≡ get_payload_length data_ref flags metadata
unfolding payload_bytes get_payload_length
length-payload_bytes data_ref flags metadata = elim (Bool-cases (Flags.has_metadata flags)) [
  | inl e ↦ rw e (
      omega (
        arith,
        length-append (metadata_bytes metadata) (bytes_of data_ref),
        length-bytes_of data_ref,
        length-bytes_of metadata,
      ))
  | inr e ↦ rw e (length-bytes_of data_ref)
]

abbrev pub mime_type_bytes : List ℕ → Buffer
mime_type_bytes text = length text ∷ ascii_bytes text

pub length-ascii_bytes : (text : List ℕ) → length (ascii_bytes text) ≡ length text
length-ascii_bytes [] = refl
length-ascii_bytes (c ∷ text) = ap suc (length-ascii_bytes text)

pub write_mime_type-Writes :
    (text : List ℕ) → length text < 256 → Writes (write_mime_type text) (mime_type_bytes text)
unfolding write_mime_type
write_mime_type-Writes text h =
    >>-Writes (write_uint8-Writes (length text) h)
      (rw (length-ascii_bytes text) at (write_text-Writes (ascii_bytes text)))
