-- ===== src/Codecs/RoundTrip/Connection.antt =====
-- The frames of a connection, read back from their layout.
use rsocket_js.Common.{
  ℕ, ◌+◌, ◌/◌, ◌*◌, ◌%◌, ◌<◌, ◌≡◌, refl, sym, ap, ◌∙◌, [], ◌∷◌, ◌++◌, arith, length, List, ◌==◌,
  Bool-cases, ==→eq, inl, inr, not, true, false,
}
use mathlib.Core.Path.{ap₂}
use rsocket_js.Node.{
  Buffer, BufferRef, undefined, null, buffer, byte_length, ok, pos, u16, u32, to_int16, slice_to,
  advance, checked, read_int16,
}
use rsocket_js.Node.Read.{
  At, At-skip, read_uint8-At, read_uint16-At, read_uint32-At, read_int32-At, slice-At,
}
use rsocket_js.Frames.{
  FrameType, SetupFrame, KeepAliveFrame, LeaseFrame, ResumeFrame, ResumeOkFrame,
}
use rsocket_js.Codecs.Connection.{
  resume_enabled, ascii_bytes, ascii_text, read_resume_token, read_mime_type,
  deserialize_setup_frame, deserialize_keepalive_frame, deserialize_lease_frame,
  deserialize_resume_frame, deserialize_resume_ok_frame,
}
use rsocket_js.Codecs.Layout.Parts.{
  u64, header_bytes, bytes_of, length-bytes_of, payload_bytes, mime_type_bytes, length-ascii_bytes,
}
use rsocket_js.Codecs.Layout.Frames.{setup_token_bytes, setup_bytes, IsWritableSetup}
use rsocket_js.Codecs.RoundTrip.Parts.{
  received, received_metadata, read_data-At, read_payload-At, read_uint64-At,
}
use rsocket_js.Codecs.RoundTrip.Requests.{IsUint31-IsInt32}

pub deserialize_keepalive_lem :
    (f : KeepAliveFrame)
    → deserialize_keepalive_frame
        (header_bytes FrameType.keepalive f.flags (pos 0)
          ++ (u64 f.last_received_position ++ bytes_of f.data_ref))
        f.flags
      ≡ ok (record f { data_ref = received f.data_ref })
unfolding deserialize_keepalive_frame
deserialize_keepalive_lem f = rw (
  read_uint64-At f.last_received_position (record { found = refl }),
  read_data-At f.data_ref (record { found = refl }),
)

pub deserialize_lease_lem :
    (f : LeaseFrame)
    → deserialize_lease_frame
        (header_bytes FrameType.lease f.flags (pos 0)
          ++ (u32 f.ttl ++ (u32 f.request_count ++ bytes_of f.metadata)))
        f.flags
      ≡ ok (record f { metadata = received f.metadata })
unfolding deserialize_lease_frame
deserialize_lease_lem f = rw (
  read_uint32-At f.ttl (record { found = refl }),
  read_uint32-At f.request_count (record { found = refl }),
  read_data-At f.metadata (record { found = refl }),
)

pub deserialize_resume_ok_lem :
    (f : ResumeOkFrame)
    → deserialize_resume_ok_frame
        (header_bytes FrameType.resume_ok f.flags (pos 0) ++ u64 f.client_position)
        f.flags
      ≡ ok f
unfolding deserialize_resume_ok_frame
deserialize_resume_ok_lem f =
    rw (read_uint64-At f.client_position {rest = []} (record { found = refl }))

-- A length that is read as a signed number is right below 2 ^ 15.
read_int16-At :
    {buf : Buffer} {offset : ℕ} (v : ℕ) {rest : Buffer}
    → v < 32768
    → At buf offset (u16 v ++ rest)
    → read_int16 buf offset ≡ ok (pos v)
unfolding read_int16
read_int16-At v h a = rw a.found (ap ok (short v h))
  where
    short : (v : ℕ) → v < 32768 → to_int16 (v / 256 * 256 + v % 256) ≡ pos v
    short v h = ground arith

pub deserialize_resume_lem :
    (f : ResumeFrame)
    → length f.resume_token < 32768
    → deserialize_resume_frame
        (header_bytes FrameType.resume f.flags (pos 0)
          ++ (u16 f.major_version
              ++ (u16 f.minor_version
                  ++ (u16 (length f.resume_token)
                      ++ (f.resume_token ++ (u64 f.server_position ++ u64 f.client_position))))))
        f.flags
      ≡ ok f
unfolding deserialize_resume_frame advance checked slice_to
deserialize_resume_lem f h =
    let positions = u64 f.server_position ++ u64 f.client_position in
    let buf =
      header_bytes FrameType.resume f.flags (pos 0)
      ++ (u16 f.major_version
          ++ (u16 f.minor_version
              ++ (u16 (length f.resume_token) ++ (f.resume_token ++ positions)))) in
    let token : At buf 12 (f.resume_token ++ positions) = record { found = refl } in
    let behind = At-skip f.resume_token token in
    rw (
      read_uint16-At {buf = buf} {offset = 6} f.major_version (record { found = refl }),
      read_uint16-At {buf = buf} {offset = 8} f.minor_version (record { found = refl }),
      read_int16-At {buf = buf} {offset = 10} (length f.resume_token) h (record { found = refl }),
      read_uint64-At f.server_position behind,
      read_uint64-At f.client_position {rest = []} (At-skip (u64 f.server_position) behind),
      slice-At f.resume_token positions token,
    )

-- Code units that "ascii" keeps.
abbrev pub IsAscii : List ℕ → Type 0
IsAscii [] = Unit {0}
IsAscii (c ∷ text) = (c < 128) × IsAscii text

ascii_text-ascii_bytes : (text : List ℕ) → IsAscii text → ascii_text (ascii_bytes text) ≡ text
ascii_text-ascii_bytes [] h = refl
ascii_text-ascii_bytes (c ∷ text) h = ap₂ ◌∷◌ (omega arith) (ascii_text-ascii_bytes text h.1)

read_mime_type-At :
    {buf : Buffer} {offset : ℕ} (text : List ℕ) (rest : Buffer)
    → IsAscii text
    → At buf offset (length text ∷ (ascii_bytes text ++ rest))
    → read_mime_type buf offset ≡ ok (text, offset + 1 + length text)
unfolding read_mime_type
read_mime_type-At {offset} text rest h a =
    let behind = At-skip (length text ∷ []) a in
    rw (read_uint8-At a) (
      ap (λ t. ok (t, offset + 1 + length text))
        (ap ascii_text (rw (length-ascii_bytes text) at (slice-At (ascii_bytes text) rest behind))
          ∙ ascii_text-ascii_bytes text h))

At-behind_mime_type :
    {buf : Buffer} {offset : ℕ} (text : List ℕ) {rest : Buffer}
    → At buf offset (length text ∷ (ascii_bytes text ++ rest))
    → At buf (offset + 1 + length text) rest
At-behind_mime_type text a =
    rw (length-ascii_bytes text) at (At-skip (ascii_bytes text) (At-skip (length text ∷ []) a))

-- A token that the flags announce, and none where they do not.
read_announced-At :
    {buf : Buffer} {offset : ℕ} (flags : ℕ) (token : BufferRef) (rest : Buffer)
    → resume_enabled flags ≡ true
    → (byte_length token == 0) ≡ false
    → byte_length token < 32768
    → At buf offset (u16 (byte_length token) ++ (bytes_of token ++ rest))
    → read_resume_token buf flags offset ≡ ok (received token, offset + 2 + byte_length token)
unfolding read_resume_token advance checked slice_to
read_announced-At flags undefined rest e n h a = cc
read_announced-At flags null rest e n h a = cc
read_announced-At flags (buffer []) rest e n h a = cc
read_announced-At {buf} {offset} flags (buffer (b ∷ bytes)) rest e n h a =
    let size : ℕ = length (b ∷ bytes) in
    rw (e, read_int16-At {buf = buf} {offset = offset} size h a)
      (ap (λ t. ok (buffer t, offset + 2 + size))
        (slice-At (b ∷ bytes) rest (At-skip (u16 size) a)))

received-null : (ref : BufferRef) → (byte_length ref == 0) ≡ true → received ref ≡ null
received-null undefined h = refl
received-null null h = refl
received-null (buffer []) h = refl
received-null (buffer (b ∷ bytes)) h = absurd (omega (arith, ==→eq (length (b ∷ bytes)) 0 h))

read_resume_token-At :
    {buf : Buffer} {offset : ℕ} (f : SetupFrame) (rest : Buffer)
    → IsWritableSetup f
    → byte_length f.resume_token < 32768
    → At buf offset (setup_token_bytes f ++ rest)
    → read_resume_token buf f.flags offset
      ≡ ok (received f.resume_token, offset + length (setup_token_bytes f))
read_resume_token-At {buf} {offset} f rest h short a = elim (Bool-cases (resume_enabled f.flags)) [
  | inl e ↦ rw e (
      read_announced-At f.flags f.resume_token rest e (h.token_flagged ∙ ap not e) short (rw e at a)
      ∙ ap (λ k. ok (received f.resume_token, k)) (omega (arith, length-bytes_of f.resume_token)))
  | inr e ↦
      unfold read_resume_token in
      rw e (
        ap₂ (λ t k. ok (t, k)) (sym (received-null f.resume_token (h.token_flagged ∙ ap not e)))
          (omega arith))
]

pub deserialize_setup_lem :
    (f : SetupFrame)
    → IsWritableSetup f
    → byte_length f.resume_token < 32768
    → IsAscii f.metadata_mime_type
    → IsAscii f.data_mime_type
    → deserialize_setup_frame (setup_bytes f) f.flags
      ≡ ok (record f {
        data_ref = received f.data_ref;
        metadata = received_metadata f.flags f.metadata;
        resume_token = received f.resume_token;
      })
unfolding deserialize_setup_frame setup_bytes
deserialize_setup_lem f h short metadata_ascii data_ascii =
    let payload : Buffer = payload_bytes f.data_ref f.flags f.metadata in
    let data_part : Buffer = mime_type_bytes f.data_mime_type ++ payload in
    let text_part : Buffer = mime_type_bytes f.metadata_mime_type ++ data_part in
    let buf = setup_bytes f in
    let token : At buf 18 (setup_token_bytes f ++ text_part) = record { found = refl } in
    let texts = At-skip (setup_token_bytes f) token in
    let behind_text = At-behind_mime_type f.metadata_mime_type texts in
    let behind_texts = At-behind_mime_type f.data_mime_type behind_text in
    rw (
      read_uint16-At {buf = buf} {offset = 6} f.major_version (record { found = refl }),
      read_uint16-At {buf = buf} {offset = 8} f.minor_version (record { found = refl }),
      read_int32-At {buf = buf} {offset = 10} f.keep_alive
          (IsUint31-IsInt32 f.keep_alive h.times_fit.0) (record { found = refl }),
      read_int32-At {buf = buf} {offset = 14} f.lifetime (IsUint31-IsInt32 f.lifetime h.times_fit.1)
          (record { found = refl }),
      read_resume_token-At f text_part h short token,
      read_mime_type-At f.metadata_mime_type data_part metadata_ascii texts,
      read_mime_type-At f.data_mime_type payload data_ascii behind_text,
      read_payload-At f.data_ref f.flags f.metadata behind_texts,
    )
