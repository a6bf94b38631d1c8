-- ===== src/Fragmenter/Metadata.antt =====
-- packages/rsocket-core/src/Fragmenter.ts: what the loop over the metadata sends, and what the receiver
-- holds after it.
use rsocket_js.Common.{
  ℕ, suc, ◌+◌, ◌-◌, ◌≤◌, ◌<◌, ◌≡◌, refl, ◌++◌, arith, length, take, drop, bit_or, take-all,
  length-drop, length-take,
}
use rsocket_js.Node.{ℤ, pos, Buffer, BufferRef, undefined, buffer, byte_length}
use rsocket_js.Node.Signed.{minus, plus, below, min_of, equals, slice_signed}
use rsocket_js.Frames.{Frame}
use rsocket_js.Frames.Flags
use rsocket_js.Codecs.{Yields, yield}
use rsocket_js.Reassembler.{no_fragments, add, extend_data, extend_metadata, first_metadata}
use rsocket_js.Fragmenter.{Job, make_frame, payload, metadata_loop}
use rsocket_js.Fragmenter.Assembly.{assemble, holding}

unfoldable pub metadata_frame : Job → Buffer → Frame
metadata_frame job piece =
    make_frame payload (bit_or (bit_or Flags.next Flags.metadata) Flags.follows) undefined
      (buffer piece) job.stream_id

-- One round with as many metadata as a frame holds.
pub metadata_loop-full :
    (fuel : ℕ) (job : Job) (m : Buffer) (q : ℕ) (go_on : BufferRef → ℤ → Yields Frame)
    → 4 ≤ job.fragment_size
    → 0 < byte_length job.payload_data
    → q + (job.fragment_size - 3) ≤ length m
    → metadata_loop (suc fuel) job m (pos q) (pos job.fragment_size) undefined go_on
      ≡ yield (metadata_frame job (take (job.fragment_size - 3) (drop q m))) (
          metadata_loop fuel job m
            (pos (q + (job.fragment_size - 3)))
            (pos job.fragment_size)
            undefined
            go_on)
unfolding metadata_loop metadata_frame slice_signed plus minus min_of below equals
metadata_loop-full fuel job m q go_on hs hd h =
    ground (arith, length-take (job.fragment_size - 3) (drop q m), length-drop q m)

pub minus-pos : (a n : ℕ) → n ≤ a → minus (pos a) n ≡ pos (a - n)
unfolding minus
minus-pos a n h = ground arith

pub min_of-pos : (n a : ℕ) → n ≤ a → min_of n (pos a) ≡ pos n
unfolding min_of
min_of-pos n a h = ground arith

pub slice-to_end : (m : Buffer) (q : ℕ) → slice_signed m (pos q) (pos (length m)) ≡ drop q m
unfolding slice_signed
slice-to_end m q = take-all (length m - q) (drop q m) (omega (arith, length-drop q m))

pub metadata_loop-end :
    (fuel : ℕ) (job : Job) (m : Buffer) (metadata : BufferRef) (r : ℤ)
    (go_on : BufferRef → ℤ → Yields Frame)
    → metadata_loop (suc fuel) job m (pos (length m)) r metadata go_on ≡ go_on metadata r
unfolding metadata_loop below
metadata_loop-end fuel job m metadata r go_on = ground arith

-- The last round with fewer: they stay for the next frame, which has room for data.
pub metadata_loop-partial :
    (fuel : ℕ) (job : Job) (m : Buffer) (q : ℕ) (go_on : BufferRef → ℤ → Yields Frame)
    → 4 ≤ job.fragment_size
    → 0 < byte_length job.payload_data
    → q < length m
    → length m < q + (job.fragment_size - 3)
    → metadata_loop (suc (suc fuel)) job m (pos q) (pos job.fragment_size) undefined go_on
      ≡ go_on (buffer (drop q m)) (pos (job.fragment_size - 3 - (length m - q)))
unfolding metadata_loop plus below equals
metadata_loop-partial fuel job m q go_on hs hd hq h =
    rw
      (
        minus-pos job.fragment_size 3 (omega arith),
        min_of-pos (length m) (q + (job.fragment_size - 3)) (omega arith),
        slice-to_end m q,
        length-drop q m,
        minus-pos (job.fragment_size - 3) (length m - q) (omega arith),
      )
      (ground (
        arith,
        metadata_loop-end fuel job m (buffer (drop q m))
            (pos (job.fragment_size - 3 - (length m - q))) go_on,
      ))

pub assemble-metadata_frame :
    (job : Job) (a piece : Buffer) (rest : Yields Frame)
    → assemble (holding undefined (buffer a)) (yield (metadata_frame job piece) rest)
      ≡ assemble (holding undefined (buffer (a ++ piece))) rest
unfolding assemble metadata_frame make_frame add extend_data extend_metadata Flags.has_follows
assemble-metadata_frame job a piece rest = refl

pub assemble-first_metadata_frame :
    (job : Job) (piece : Buffer) (rest : Yields Frame)
    → assemble no_fragments (yield (metadata_frame job piece) rest)
      ≡ assemble (holding undefined (buffer piece)) rest
unfolding assemble metadata_frame make_frame add first_metadata Flags.has_follows
assemble-first_metadata_frame job piece rest = refl
