-- ===== src/Fragmenter/Requests.antt =====
-- packages/rsocket-core/src/Fragmenter.ts: the fragments of a request, whose first frame has the request's
-- own type and says that more follows.
use rsocket_js.Common.{
  ℕ, suc, ◌+◌, ◌-◌, ◌≤◌, ◌<◌, ◌≡◌, ◌≢◌, refl, ap, ◌∙◌, [], arith, length, take, Bool, true, false,
  some, bit_or, if◌then◌else◌, length-take,
}
use mathlib.Core.Path.{ap₂}
use rsocket_js.Node.{ℤ, pos, Buffer, BufferRef, undefined, null, buffer}
use rsocket_js.Node.Signed.{plus, min_of, equals, slice_signed}
use rsocket_js.Frames.{Frame}
use rsocket_js.Frames.Flags
use rsocket_js.Codecs.{Yields, yield}
use rsocket_js.Reassembler.{no_fragments, add, first_metadata}
use rsocket_js.Fragmenter.{
  Carrier, payload, request_fnf, request_response, request_stream, request_channel, Job, make_frame,
  truthy, first_data_from, first_data_frame, first_metadata_frame,
}
use rsocket_js.Fragmenter.Assembly.{assemble, holding, assemble-data_loop, cut-append}
use rsocket_js.Fragmenter.Metadata.{metadata_loop-end, minus-pos, min_of-pos, slice-to_end}
use rsocket_js.Fragmenter.RoundTrip.{assemble-metadata_loop, first_joined}

-- The receiver holds what the first frame of a request carries.
assemble-first_frame :
    (carrier : Carrier) (with_metadata : Bool) (data_ref metadata : BufferRef) (stream_id : ℤ)
    (rest : Yields Frame)
    → assemble no_fragments (
        yield
          (make_frame carrier
            (bit_or Flags.follows (if with_metadata then Flags.metadata else 0))
            data_ref
            metadata
            stream_id)
          rest)
      ≡ assemble (holding data_ref (first_metadata undefined metadata)) rest
unfolding assemble make_frame add Flags.has_follows
assemble-first_frame payload true d m sid rest = refl
assemble-first_frame payload false d m sid rest = refl
assemble-first_frame request_fnf true d m sid rest = refl
assemble-first_frame request_fnf false d m sid rest = refl
assemble-first_frame request_response true d m sid rest = refl
assemble-first_frame request_response false d m sid rest = refl
assemble-first_frame (request_stream n) true d m sid rest = refl
assemble-first_frame (request_stream n) false d m sid rest = refl
assemble-first_frame (request_channel n) true d m sid rest = refl
assemble-first_frame (request_channel n) false d m sid rest = refl

first_piece :
    (d : Buffer) (r : ℕ)
    → r < length d
    → slice_signed d (pos 0) (min_of (length d) (plus (pos 0) (pos r))) ≡ take r d
unfolding slice_signed min_of plus
first_piece d r h = ground arith

first_next :
    (d : Buffer) (r : ℕ) → r < length d → min_of (length d) (plus (pos 0) (pos r)) ≡ pos (0 + r)
unfolding min_of plus
first_next d r h = ground arith

-- The first data frame does not hold all of the data: the rest of them follow.
pub assemble-first_data :
    (fuel : ℕ) (job : Job) (carrier : Carrier) (d : Buffer) (metadata : BufferRef) (r : ℕ)
    → job.payload_data ≡ buffer d
    → r < length d
    → 0 < job.fragment_size
    → length d < fuel
    → metadata ≢ null
    → assemble no_fragments (first_data_frame fuel job carrier metadata (pos r))
      ≡ some (record { data_ref = buffer d; metadata = metadata })
unfolding first_data_frame first_data_from
assemble-first_data fuel job carrier d metadata r ed hr hs hf hm =
    ap (λ ref. assemble no_fragments (first_data_from fuel job carrier ref metadata (pos r))) ed
    ∙ rw (first_piece d r hr, first_next d r hr)
        (assemble-first_frame carrier (truthy metadata) (buffer (take r d)) metadata job.stream_id _
          ∙ assemble-data_loop fuel job d (0 + r) job.fragment_size (buffer (take r d))
              (first_metadata undefined metadata) undefined (omega arith) hs hs (omega arith)
          ∙ ap₂ (λ x y. some (record { data_ref = buffer x; metadata = y })) (cut-append 0 r [] d)
              (first_joined metadata hm))

-- So many metadata that they fill the first frame.
pub assemble-full_metadata :
    (fuel : ℕ) (job : Job) (carrier : Carrier) (m d : Buffer) (room : ℕ)
    (first_data : BufferRef → ℤ → Yields Frame)
    → job.payload_data ≡ buffer d
    → 0 < length d
    → 4 ≤ job.fragment_size
    → length d < fuel
    → length m < fuel
    → 0 < room
    → room ≤ length m
    → assemble no_fragments (first_metadata_frame fuel job carrier m (pos room) first_data)
      ≡ some (record { data_ref = buffer d; metadata = buffer m })
unfolding first_metadata_frame
assemble-full_metadata fuel job carrier m d room first_data ed hd hs hf hm hr full =
    let size : length (take room m) ≡ room = omega (arith, length-take room m) in
    rw (full_next, full_piece, size, minus-pos room room (omega arith))
      (rw (none_left room) (
        assemble-first_frame carrier true undefined (buffer (take room m)) job.stream_id _
        ∙ unfold first_metadata in
          assemble-metadata_loop fuel job m d (take room m) (0 + room) fuel ed hd hs hf
            (omega arith) (omega arith)
          ∙ ap (λ x. some (record { data_ref = buffer d; metadata = buffer x }))
              (cut-append 0 room [] m)))
  where
    full_next : min_of (length m) (plus (pos 0) (pos room)) ≡ pos (0 + room)
    full_next = unfold min_of plus in ground arith

    full_piece : slice_signed m (pos 0) (pos (0 + room)) ≡ take room m
    full_piece = unfold slice_signed in ap (λ n. take n m) (omega arith)

    none_left : (r : ℕ) → equals (pos (r - r)) 0 ≡ true
    none_left r = unfold equals in ground arith

-- So few metadata that data follow them in the first frame.
pub few_metadata :
    (fuel : ℕ) (job : Job) (carrier : Carrier) (m : Buffer) (room : ℕ)
    (first_data : BufferRef → ℤ → Yields Frame)
    → length m < room
    → first_metadata_frame (suc fuel) job carrier m (pos room) first_data
      ≡ first_data (buffer m) (pos (room - length m))
unfolding first_metadata_frame plus equals
few_metadata fuel job carrier m room first_data h =
    rw
      (
        min_of-pos (length m) (0 + room) (omega arith),
        slice-to_end m 0,
        minus-pos room (length m) (omega arith),
      )
      (ground (arith, metadata_loop-end fuel job m (buffer m) (pos (room - length m)) first_data))
