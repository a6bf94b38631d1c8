-- ===== src/Fragmenter/Carried.antt =====
-- packages/rsocket-core/src/Fragmenter.ts: what frames the fragments are, and of which stream.
use rsocket_js.Common.{
  ℕ, zero, suc, Bool, ◌≡◌, refl, [], ◌∷◌, Bool-cases, inl, inr, length, ◌||◌, ◌==◌,
}
use rsocket_js.Node.{ℤ, pos, Buffer, BufferRef, undefined, null, buffer, byte_length}
use rsocket_js.Node.Signed.{below, equals, minus, plus, min_of, slice_signed}
use rsocket_js.Frames.{Frame}
use rsocket_js.Frames.Lengths
use rsocket_js.Codecs.{Yields, finished, stuck, failed, yield}
use rsocket_js.Reassembler.{Payload}
use rsocket_js.Fragmenter.{
  Carrier, payload, request_fnf, request_response, request_stream, request_channel, make_frame, Job,
  data_loop, metadata_loop, first_data_from, first_data_frame, rest_from, rest_of_data,
  first_metadata_frame, is_payload, fragment, fragment_with_request_n,
}

-- What holds of all frames that a generator yields, however it ends.
abbrev pub Every : (Frame → Type 0) → Yields Frame → Type 0
Every P finished = Unit {0}
Every P stuck = Unit {0}
Every P (failed e) = Unit {0}
Every P (yield frame rest) = P frame × Every P rest

-- A frame that carries a payload of the stream.
abbrev pub IsCarried : ℤ → Frame → Type 0
IsCarried id (Frame.payload f) = f.stream_id ≡ id
IsCarried id (Frame.request_fnf f) = f.stream_id ≡ id
IsCarried id (Frame.request_response f) = f.stream_id ≡ id
IsCarried id (Frame.request_stream f) = f.stream_id ≡ id
IsCarried id (Frame.request_channel f) = f.stream_id ≡ id
IsCarried id _ = ⊥

make_frame-IsCarried :
    (c : Carrier) (flags : ℕ) (d m : BufferRef) (id : ℤ) → IsCarried id (make_frame c flags d m id)
unfolding make_frame
make_frame-IsCarried payload flags d m id = refl
make_frame-IsCarried request_fnf flags d m id = refl
make_frame-IsCarried request_response flags d m id = refl
make_frame-IsCarried (request_stream n) flags d m id = refl
make_frame-IsCarried (request_channel n) flags d m id = refl

module _ (job : Job) where
  AllCarried : Yields Frame → Type 0
  AllCarried frames = Every (IsCarried job.stream_id) frames

  data_loop-AllCarried :
      (fuel : ℕ) (d : Buffer) (p r : ℤ) (metadata : BufferRef)
      → AllCarried (data_loop fuel job d p r metadata)
  unfolding AllCarried data_loop
  data_loop-AllCarried zero d p r metadata = tt
  data_loop-AllCarried (suc fuel) d p r metadata = elim (Bool-cases (below p (length d))) [
    | inl e ↦ rw e (make_frame-IsCarried payload _ _ _ _, data_loop-AllCarried fuel d _ _ _)
    | inr e ↦ rw e tt
  ]

  metadata_loop-AllCarried :
      (fuel : ℕ) (m : Buffer) (p r : ℤ) (metadata : BufferRef)
      (go_on : BufferRef → ℤ → Yields Frame)
      → ((ref : BufferRef) (z : ℤ) → AllCarried (go_on ref z))
      → AllCarried (metadata_loop fuel job m p r metadata go_on)
  unfolding AllCarried metadata_loop
  metadata_loop-AllCarried zero m p r metadata go_on h = tt
  metadata_loop-AllCarried (suc fuel) m p r metadata go_on h =
      let room = minus r Lengths.metadata in
      let next = min_of (length m) (plus p room) in
      let piece = slice_signed m p next in
      let left = minus room (length piece) in
      let no_data = byte_length job.payload_data == 0 in
      elim (Bool-cases (below p (length m))) [
        | inl e ↦ rw e (elim (Bool-cases (equals left 0 || no_data)) [
          | inl sent ↦ rw sent (
            make_frame-IsCarried payload _ _ _ _,
            metadata_loop-AllCarried fuel m next (pos job.fragment_size) undefined go_on h,
          )
          | inr kept ↦ rw kept (metadata_loop-AllCarried fuel m next left (buffer piece) go_on h)
        ])
        | inr e ↦ rw e (h metadata r)
      ]

  first_data_from-AllCarried :
      (fuel : ℕ) (carrier : Carrier) (ref metadata : BufferRef) (r : ℤ)
      → AllCarried (first_data_from fuel job carrier ref metadata r)
  unfolding AllCarried first_data_from
  first_data_from-AllCarried fuel carrier (buffer d) metadata r =
      (make_frame-IsCarried carrier _ _ _ _, data_loop-AllCarried fuel d _ _ _)
  first_data_from-AllCarried fuel carrier undefined metadata r = tt
  first_data_from-AllCarried fuel carrier null metadata r = tt

  first_data_frame-AllCarried :
      (fuel : ℕ) (carrier : Carrier) (metadata : BufferRef) (r : ℤ)
      → AllCarried (first_data_frame fuel job carrier metadata r)
  unfolding first_data_frame
  first_data_frame-AllCarried fuel carrier metadata r =
      first_data_from-AllCarried fuel carrier job.payload_data metadata r

  rest_from-AllCarried :
      (fuel : ℕ) (ref metadata : BufferRef) (r : ℤ) → AllCarried (rest_from fuel job ref metadata r)
  unfolding AllCarried rest_from
  rest_from-AllCarried fuel (buffer d) metadata r = data_loop-AllCarried fuel d _ _ _
  rest_from-AllCarried fuel undefined metadata r = tt
  rest_from-AllCarried fuel null metadata r = tt

  rest_of_data-AllCarried :
      (fuel : ℕ) (metadata : BufferRef) (r : ℤ) → AllCarried (rest_of_data fuel job metadata r)
  unfolding rest_of_data
  rest_of_data-AllCarried fuel metadata r = rest_from-AllCarried fuel job.payload_data metadata r

  first_metadata_frame-AllCarried :
      (fuel : ℕ) (carrier : Carrier) (m : Buffer) (room : ℤ)
      (first_data : BufferRef → ℤ → Yields Frame)
      → ((ref : BufferRef) (z : ℤ) → AllCarried (first_data ref z))
      → AllCarried (first_metadata_frame fuel job carrier m room first_data)
  unfolding AllCarried first_metadata_frame
  first_metadata_frame-AllCarried fuel carrier m room first_data h =
      elim (Bool-cases (equals (left m room) 0)) [
        | inl e ↦ rw e (
          make_frame-IsCarried carrier _ _ _ _,
          metadata_loop-AllCarried fuel m _ _ _ _ (rest_of_data-AllCarried fuel),
        )
        | inr e ↦ rw e (metadata_loop-AllCarried fuel m _ _ _ first_data h)
      ]
    where
      left : Buffer → ℤ → ℤ
      left m room =
          minus room (length (slice_signed m (pos 0) (min_of (length m) (plus (pos 0) room))))

fragment-AllCarried :
    (fuel : ℕ) (id : ℤ) (d m : BufferRef) (size : ℕ) (carrier : Carrier) (is_complete : Bool)
    → Every
        (IsCarried id)
        (fragment fuel id (record { data_ref = d; metadata = m }) size carrier is_complete)
unfolding fragment AllCarried
fragment-AllCarried fuel id d (buffer (b ∷ bytes)) size carrier c =
    elim (Bool-cases (is_payload carrier)) [
      | inl e ↦ rw e (metadata_loop-AllCarried _ fuel _ _ _ _ _ (rest_of_data-AllCarried _ fuel))
      | inr e ↦ rw e (
          first_metadata_frame-AllCarried _ fuel carrier _ _ _
            (first_data_frame-AllCarried _ fuel carrier))
    ]
fragment-AllCarried fuel id d (buffer []) size carrier c = elim (Bool-cases (is_payload carrier)) [
  | inl e ↦ rw e (rest_of_data-AllCarried _ fuel _ _)
  | inr e ↦ rw e (first_data_frame-AllCarried _ fuel carrier _ _)
]
fragment-AllCarried fuel id d undefined size carrier c = elim (Bool-cases (is_payload carrier)) [
  | inl e ↦ rw e (rest_of_data-AllCarried _ fuel _ _)
  | inr e ↦ rw e (first_data_frame-AllCarried _ fuel carrier _ _)
]
fragment-AllCarried fuel id d null size carrier c = elim (Bool-cases (is_payload carrier)) [
  | inl e ↦ rw e (rest_of_data-AllCarried _ fuel _ _)
  | inr e ↦ rw e (first_data_frame-AllCarried _ fuel carrier _ _)
]

-- All fragments of a payload are frames of its stream that carry a payload.
pub fragment-IsCarried :
    (fuel : ℕ) (id : ℤ) (p : Payload) (size : ℕ) (carrier : Carrier) (is_complete : Bool)
    → Every (IsCarried id) (fragment fuel id p size carrier is_complete)
fragment-IsCarried fuel id p size carrier c =
    fragment-AllCarried fuel id p.data_ref p.metadata size carrier c

fragment_with_request_n-AllCarried :
    (fuel : ℕ) (id : ℤ) (d m : BufferRef) (size : ℕ) (carrier : Carrier) (is_complete : Bool)
    → Every (IsCarried id) (
        fragment_with_request_n fuel id
          (record { data_ref = d; metadata = m })
          size
          carrier
          is_complete)
unfolding fragment_with_request_n AllCarried
fragment_with_request_n-AllCarried fuel id d (buffer (b ∷ bytes)) size carrier c =
    first_metadata_frame-AllCarried _ fuel carrier _ _ _
      (λ ref z. first_data_frame-AllCarried _ fuel carrier ref _)
fragment_with_request_n-AllCarried fuel id d (buffer []) size carrier c =
    first_data_frame-AllCarried _ fuel carrier _ _
fragment_with_request_n-AllCarried fuel id d undefined size carrier c =
    first_data_frame-AllCarried _ fuel carrier _ _
fragment_with_request_n-AllCarried fuel id d null size carrier c =
    first_data_frame-AllCarried _ fuel carrier _ _

pub fragment_with_request_n-IsCarried :
    (fuel : ℕ) (id : ℤ) (p : Payload) (size : ℕ) (carrier : Carrier) (is_complete : Bool)
    → Every (IsCarried id) (fragment_with_request_n fuel id p size carrier is_complete)
fragment_with_request_n-IsCarried fuel id p size carrier c =
    fragment_with_request_n-AllCarried fuel id p.data_ref p.metadata size carrier c
