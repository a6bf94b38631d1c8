-- ===== src/Fragmenter/Opening.antt =====
-- packages/rsocket-core/src/Fragmenter.ts: of what frames the fragments of a request are.
use rsocket_js.Common.{
  ℕ, suc, zero, ◌+◌, ◌-◌, ◌≤◌, ◌<◌, ◌≡◌, ◌≢◌, refl, ap, sym, [], ◌∷◌, arith, length, take, Bool,
  true, false, bit_or, if◌then◌else◌, length-take,
}
use mathlib.Core.Path.{subst}
use native.Mathlib.Decide.{dec_le}
use rsocket_js.Node.{ℤ, pos, Buffer, BufferRef, undefined, null, buffer}
use rsocket_js.Node.Signed.{minus, plus, min_of, equals, slice_signed}
use rsocket_js.Frames.{Frame}
use rsocket_js.Frames.Flags
use rsocket_js.Codecs.{Yields, yield}
use rsocket_js.Fragmenter.{
  Carrier, is_payload, Job, make_frame, truthy, first_data_from, first_data_frame,
  first_metadata_frame, fragment,
}
use rsocket_js.Fragmenter.Carried.{Every}
use rsocket_js.Fragmenter.Flagged.{
  IsFlagged, data_loop-AllFlagged, metadata_loop-AllFlagged, rest_of_data-AllFlagged,
}
use rsocket_js.Fragmenter.Metadata.{minus-pos}
use rsocket_js.Fragmenter.Requests.{few_metadata}

pub record Opening (carrier : Carrier) (id : ℤ) (frames : Yields Frame) : Type 0 where
  pub flags : ℕ
  pub data_ref : BufferRef
  pub metadata : BufferRef
  pub rest : Yields Frame
  pub opens : frames ≡ yield (make_frame carrier flags data_ref metadata id) rest
  pub follows : Flags.has_follows flags ≡ true
  pub flagged : Every (IsFlagged false) rest

opening_flag :
    (t : Bool)
    → Flags.has_follows (bit_or Flags.follows (if t then Flags.metadata else Flags.none)) ≡ true
unfolding Flags.has_follows
opening_flag true = refl
opening_flag false = refl

job_of : ℤ → Buffer → ℕ → Job
job_of id d size = record {
  stream_id = id;
  payload_data = buffer d;
  fragment_size = size;
  is_complete = false;
}

first_data-Opening :
    (fuel : ℕ) (id : ℤ) (d : Buffer) (size : ℕ) (carrier : Carrier) (metadata : BufferRef) (r : ℤ)
    → Opening carrier id (first_data_frame fuel (job_of id d size) carrier metadata r)
unfolding first_data_frame first_data_from job_of
first_data-Opening fuel id d size carrier metadata r = record {
  flags = _;
  data_ref = _;
  metadata = metadata;
  rest = _;
  opens = refl;
  follows = opening_flag (truthy metadata);
  flagged = data_loop-AllFlagged (job_of id d size) fuel d _ _ _;
}

-- Metadata that fill the room leave nothing of it.
full_room :
    (m : Buffer) (room : ℕ)
    → room ≤ length m
    → equals
        (minus
          (pos room)
          (length (slice_signed m (pos 0) (min_of (length m) (plus (pos 0) (pos room))))))
        0
      ≡ true
full_room m room full =
    let size : length (take room m) ≡ room = omega (arith, length-take room m) in
    rw (full_next, full_piece, size, minus-pos room room (omega arith)) (none_left room)
  where
    full_next : min_of (length m) (plus (pos 0) (pos room)) ≡ pos (0 + room)
    full_next = unfold min_of plus in ground arith

    full_piece : slice_signed m (pos 0) (pos (0 + room)) ≡ take room m
    full_piece = unfold slice_signed in ap (λ n. take n m) (omega arith)

    none_left : (r : ℕ) → equals (pos (r - r)) 0 ≡ true
    none_left r = unfold equals in ground arith

full_metadata-Opening :
    (fuel : ℕ) (id : ℤ) (d m : Buffer) (size : ℕ) (carrier : Carrier) (room : ℕ)
    (first_data : BufferRef → ℤ → Yields Frame)
    → room ≤ length m
    → Opening carrier id
        (first_metadata_frame fuel (job_of id d size) carrier m (pos room) first_data)
unfolding first_metadata_frame job_of
full_metadata-Opening fuel id d m size carrier room first_data full =
    rw (full_room m room full) record {
      flags = _;
      data_ref = _;
      metadata = _;
      rest = _;
      opens = refl;
      follows = opening_flag true;
      flagged =
          metadata_loop-AllFlagged (job_of id d size) fuel m _ _ _ _
            (rest_of_data-AllFlagged (job_of id d size) fuel);
    }

few_metadata-Opening :
    (fuel : ℕ) (id : ℤ) (d m : Buffer) (size : ℕ) (carrier : Carrier) (room : ℕ)
    → length m < room
    → Opening carrier id (
        first_metadata_frame
          (suc fuel)
          (job_of id d size)
          carrier
          m
          (pos room)
          (first_data_frame (suc fuel) (job_of id d size) carrier))
few_metadata-Opening fuel id d m size carrier room few =
    subst (Opening carrier id)
      (sym (
        few_metadata fuel (job_of id d size) carrier m room
          (first_data_frame (suc fuel) (job_of id d size) carrier) few))
      (first_data-Opening (suc fuel) id d size carrier (buffer m) (pos (room - length m)))

-- The first fragment of a request has its type, and says that more follows; the others are PAYLOAD frames
-- with the flag NEXT, of which none is complete.
pub fragment-Opening :
    (fuel : ℕ) (id : ℤ) (d : Buffer) (metadata : BufferRef) (size : ℕ) (carrier : Carrier)
    → is_payload carrier ≡ false
    → metadata ≢ null
    → 4 ≤ size
    → 0 < fuel
    → Opening carrier id
        (fragment fuel id (record { data_ref = buffer d; metadata = metadata }) size carrier false)
unfolding fragment job_of
fragment-Opening fuel id d undefined size carrier hc hn hs hf =
    rw hc (first_data-Opening fuel id d size carrier undefined _)
fragment-Opening fuel id d null size carrier hc hn hs hf = absurd (hn refl)
fragment-Opening fuel id d (buffer []) size carrier hc hn hs hf =
    rw hc (first_data-Opening fuel id d size carrier (buffer []) _)
fragment-Opening zero id d (buffer (b ∷ m)) size carrier hc hn hs hf = absurd (omega arith)
fragment-Opening (suc fuel) id d (buffer (b ∷ m)) size carrier hc hn hs hf =
    rw (hc, minus-pos size 3 (omega arith))
      (elim (dec_le (size - 3) (length (b ∷ m))) [
        | yes full ↦ full_metadata-Opening (suc fuel) id d (b ∷ m) size carrier (size - 3) _ full
        | no few ↦ few_metadata-Opening fuel id d (b ∷ m) size carrier (size - 3) (omega arith)
      ])
