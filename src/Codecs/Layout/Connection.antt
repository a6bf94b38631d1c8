-- ===== src/Codecs/Layout/Connection.antt =====
-- packages/rsocket-core/src/Codecs.ts writes the frames of a connection in their layout.
use rsocket_js.Common.{
  ◌+◌, ◌≡◌, refl, [], ◌++◌, arith, length, length-append, Bool-cases, inl, inr, ◌==◌, if◌then◌else◌,
}
use rsocket_js.Node.{Buffer, byte_length, ok, Runtime, pos, u16, u32}
use rsocket_js.Node.Write.{
  Writes, skip-Writes, >>-Writes, copy-Writes, write_uint16-Writes, write_uint32-Writes,
  write_all_lem,
}
use rsocket_js.Frames.{
  Frame, FrameType, SetupFrame, KeepAliveFrame, LeaseFrame, MetadataPushFrame, ResumeFrame,
  ResumeOkFrame,
}
use rsocket_js.Codecs.Connection.{
  resume_enabled, write_resume_token, serialize_setup_frame, serialize_keepalive_frame,
  serialize_lease_frame, serialize_metadata_push_frame, serialize_resume_frame,
  serialize_resume_ok_frame, size_of_setup_frame,
}
use rsocket_js.Codecs.Layout.Parts.{
  u64, write_uint64-Writes, header_bytes, write_header-Writes, bytes_of, length-bytes_of,
  copy_ref-Writes, payload_bytes, write_payload-Writes, length-payload_bytes, mime_type_bytes,
  length-ascii_bytes, write_mime_type-Writes,
}
use rsocket_js.Codecs.Layout.Frames.{
  IsUint31-Writes, setup_token_bytes, setup_bytes, IsWritableSetup, IsWritable,
}

-- The token, with its length, just if the flags say so.
setup_token-Writes :
    (f : SetupFrame) → IsWritableSetup f → Writes (write_resume_token f) (setup_token_bytes f)
unfolding write_resume_token
setup_token-Writes f h = elim (Bool-cases (resume_enabled f.flags)) [
  | inl e ↦ rw e (>>-Writes (write_uint16-Writes _ h.token_fits) (copy_ref-Writes f.resume_token))
  | inr e ↦ rw e skip-Writes
]

length-setup_token_bytes :
    (f : SetupFrame)
    → IsWritableSetup f
    → length (setup_token_bytes f)
      ≡ (if byte_length f.resume_token == 0 then 0 else 2 + byte_length f.resume_token)
length-setup_token_bytes f h = ground (arith, h.token_flagged, length-bytes_of f.resume_token)

pub length-setup_bytes :
    (f : SetupFrame) → IsWritableSetup f → length (setup_bytes f) ≡ size_of_setup_frame f
unfolding setup_bytes size_of_setup_frame
length-setup_bytes f h =
    let payload : Buffer = payload_bytes f.data_ref f.flags f.metadata in
    let mime : Buffer = mime_type_bytes f.data_mime_type in
    omega (
      arith,
      length-append (setup_token_bytes f)
          (mime_type_bytes f.metadata_mime_type ++ (mime ++ payload)),
      length-append (mime_type_bytes f.metadata_mime_type) (mime ++ payload),
      length-append mime payload,
      length-setup_token_bytes f h,
      length-ascii_bytes f.metadata_mime_type,
      length-ascii_bytes f.data_mime_type,
      length-payload_bytes f.data_ref f.flags f.metadata,
    )

pub serialize_setup_lem :
    (rt : Runtime) (f : SetupFrame)
    → IsWritableSetup f
    → serialize_setup_frame rt f ≡ ok (setup_bytes f)
unfolding serialize_setup_frame setup_bytes
serialize_setup_lem rt f h =
    write_all_lem rt.memory _
      (>>-Writes (write_header-Writes FrameType.setup f.flags (pos 0) h.flags_fit (omega arith)) (
        >>-Writes (write_uint16-Writes _ h.versions_fit.0) (
          >>-Writes (write_uint16-Writes _ h.versions_fit.1) (
            >>-Writes (IsUint31-Writes _ h.times_fit.0) (
              >>-Writes (IsUint31-Writes _ h.times_fit.1) (
                >>-Writes (setup_token-Writes f h) (
                  >>-Writes (write_mime_type-Writes _ h.mime_types_fit.0) (
                    >>-Writes (write_mime_type-Writes _ h.mime_types_fit.1)
                      (write_payload-Writes _ _ _ h.metadata_fits)))))))))
      (unfold setup_bytes in length-setup_bytes f h)

pub serialize_keepalive_lem :
    (rt : Runtime) (f : KeepAliveFrame)
    → IsWritable (Frame.keepalive f)
    → serialize_keepalive_frame rt f
      ≡ ok (
          header_bytes FrameType.keepalive f.flags (pos 0)
          ++ (u64 f.last_received_position ++ bytes_of f.data_ref))
unfolding serialize_keepalive_frame
serialize_keepalive_lem rt f h =
    write_all_lem rt.memory _
      (>>-Writes (write_header-Writes FrameType.keepalive f.flags (pos 0) h.0 (omega arith))
        (>>-Writes (write_uint64-Writes _ h.1) (copy_ref-Writes f.data_ref)))
      (omega (arith, length-bytes_of f.data_ref))

pub serialize_lease_lem :
    (rt : Runtime) (f : LeaseFrame)
    → IsWritable (Frame.lease f)
    → serialize_lease_frame rt f
      ≡ ok (
          header_bytes FrameType.lease f.flags (pos 0)
          ++ (u32 f.ttl ++ (u32 f.request_count ++ bytes_of f.metadata)))
unfolding serialize_lease_frame
serialize_lease_lem rt f h =
    write_all_lem rt.memory _
      (>>-Writes (write_header-Writes FrameType.lease f.flags (pos 0) h.0 (omega arith)) (
        >>-Writes (write_uint32-Writes _ h.1)
          (>>-Writes (write_uint32-Writes _ h.2) (copy_ref-Writes f.metadata))))
      (omega (arith, length-bytes_of f.metadata))

pub serialize_metadata_push_lem :
    (rt : Runtime) (f : MetadataPushFrame)
    → IsWritable (Frame.metadata_push f)
    → serialize_metadata_push_frame rt f
      ≡ ok (header_bytes FrameType.metadata_push f.flags (pos 0) ++ bytes_of f.metadata)
unfolding serialize_metadata_push_frame
serialize_metadata_push_lem rt f h =
    write_all_lem rt.memory _
      (>>-Writes (write_header-Writes FrameType.metadata_push f.flags (pos 0) h (omega arith))
        (copy_ref-Writes f.metadata))
      (omega (arith, length-bytes_of f.metadata))

pub resume_bytes-length :
    (f : ResumeFrame) (front back : Buffer)
    → length (front ++ (f.resume_token ++ back))
      ≡ length front + (length f.resume_token + length back)
resume_bytes-length f front back =
    omega (arith, length-append front (f.resume_token ++ back), length-append f.resume_token back)

pub serialize_resume_lem :
    (rt : Runtime) (f : ResumeFrame)
    → IsWritable (Frame.resume f)
    → serialize_resume_frame rt f
      ≡ ok (
          header_bytes FrameType.resume f.flags (pos 0)
          ++ (u16 f.major_version
              ++ (u16 f.minor_version
                  ++ (u16 (length f.resume_token)
                      ++ (f.resume_token ++ (u64 f.server_position ++ u64 f.client_position))))))
unfolding serialize_resume_frame
serialize_resume_lem rt f h =
    write_all_lem rt.memory _
      (>>-Writes (write_header-Writes FrameType.resume f.flags (pos 0) h.0 (omega arith)) (
        >>-Writes (write_uint16-Writes _ h.1) (
          >>-Writes (write_uint16-Writes _ h.2) (
            >>-Writes (write_uint16-Writes _ h.3) (
              >>-Writes (copy-Writes f.resume_token)
                (>>-Writes (write_uint64-Writes _ h.4) (write_uint64-Writes _ h.5)))))))
      (omega (arith, resume_bytes-length f [] (u64 f.server_position ++ u64 f.client_position)))

pub serialize_resume_ok_lem :
    (rt : Runtime) (f : ResumeOkFrame)
    → IsWritable (Frame.resume_ok f)
    → serialize_resume_ok_frame rt f
      ≡ ok (header_bytes FrameType.resume_ok f.flags (pos 0) ++ u64 f.client_position)
unfolding serialize_resume_ok_frame
serialize_resume_ok_lem rt f h =
    write_all_lem rt.memory _
      (>>-Writes (write_header-Writes FrameType.resume_ok f.flags (pos 0) h.0 (omega arith))
        (write_uint64-Writes _ h.1))
      refl
