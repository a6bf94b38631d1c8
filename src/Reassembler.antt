-- ===== src/Reassembler.antt =====
-- packages/rsocket-core/src/Reassembler.ts: the fragments that a stream holds back, and the payload that
-- they make up.
pub mod Held
use rsocket_js.Common.{Bool, true, false, ◌++◌}
use rsocket_js.Node.{BufferRef, undefined, buffer, Result, ok, throw, type_error, ◌>>=◌}

-- packages/rsocket-core/src/RSocket.ts
pub record Payload : Type 0 where
  pub data_ref : BufferRef
  pub metadata : BufferRef

pub record FragmentsHolder : Type 0 where
  pub has_fragments : Bool
  pub data_ref : BufferRef
  pub metadata : BufferRef

-- A stream before its first frame.
abbrev pub no_fragments : FragmentsHolder
no_fragments = record { has_fragments = false; data_ref = undefined; metadata = undefined }

-- `held ? Buffer.concat([held, fragment]) : fragment`; concat throws if it is not given buffers.
unfoldable pub extend_data : BufferRef → BufferRef → Result BufferRef
extend_data (buffer held) (buffer fragment) = ok (buffer (held ++ fragment))
extend_data (buffer held) _ = throw type_error
extend_data _ fragment = ok fragment

-- `held && fragment ? Buffer.concat([held, fragment]) : held`
unfoldable pub extend_metadata : BufferRef → BufferRef → BufferRef
extend_metadata (buffer held) (buffer fragment) = buffer (held ++ fragment)
extend_metadata held _ = held

-- `if (fragment) held = fragment`
unfoldable pub first_metadata : BufferRef → BufferRef → BufferRef
first_metadata held (buffer fragment) = buffer fragment
first_metadata held _ = held

add_to : Bool → FragmentsHolder → BufferRef → BufferRef → Result FragmentsHolder
add_to false holder data_fragment metadata_fragment = ok (record {
  has_fragments = true;
  data_ref = data_fragment;
  metadata = first_metadata holder.metadata metadata_fragment;
})
add_to true holder data_fragment metadata_fragment = do
  data_ref ← extend_data holder.data_ref data_fragment
  ok (record holder {
    data_ref = data_ref;
    metadata = extend_metadata holder.metadata metadata_fragment;
  })

-- The holder after it; the function returns true whenever it returns.
unfoldable pub add : FragmentsHolder → BufferRef → BufferRef → Result FragmentsHolder
unfolding add_to
add holder data_fragment metadata_fragment =
    add_to holder.has_fragments holder data_fragment metadata_fragment

-- The metadata of the payload, and what the holder keeps.
whole_metadata : BufferRef → BufferRef → BufferRef × BufferRef
unfolding extend_metadata
whole_metadata (buffer held) fragment = (extend_metadata (buffer held) fragment, undefined)
whole_metadata held fragment = (undefined, held)

-- The holder after it and the payload.
unfoldable pub reassemble :
    FragmentsHolder → BufferRef → BufferRef → FragmentsHolder × Result Payload
unfolding whole_metadata
reassemble holder data_fragment metadata_fragment =
    elim (extend_data holder.data_ref data_fragment) [
      | throw e ↦ (record holder { has_fragments = false }, throw e)
      | ok data_ref ↦
          let (metadata, kept) = whole_metadata holder.metadata metadata_fragment in
          (
            record { has_fragments = false; data_ref = undefined; metadata = kept },
            ok (record { data_ref = data_ref; metadata = metadata }),
          )
    ]

unfoldable pub cancel : FragmentsHolder → FragmentsHolder
cancel holder = record { has_fragments = false; data_ref = undefined; metadata = undefined }
