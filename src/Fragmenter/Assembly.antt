-- ===== src/Fragmenter/Assembly.antt =====
-- The receiver of fragments, as the streams of packages/rsocket-core/src have it: a frame that says that
-- more follows is added to what is held, the first other frame completes the payload.
use rsocket_js.Common.{
  ℕ, zero, suc, ◌+◌, ◌-◌, ◌≤◌, ◌<◌, ◌≡◌, refl, sym, ap, ◌∙◌, ◌++◌, arith, length, take, drop, Bool,
  true, false, Option, none, some, if◌then◌else◌, bit_or, take-append-drop, drop-drop, take-all,
  length-drop, append_assoc,
}
use mathlib.Core.Path.{ap₂}
use native.Mathlib.Decide.{dec_le}
use rsocket_js.Node.{pos, Buffer, BufferRef, undefined, null, buffer, ok, throw}
use rsocket_js.Node.Signed.{plus, below, min_of, equals, slice_signed}
use rsocket_js.Frames.{Frame}
use rsocket_js.Frames.Flags
use rsocket_js.Codecs.{Yields, finished, stuck, failed, yield}
use rsocket_js.Codecs.Layout.Parts.{bytes_of}
use rsocket_js.Reassembler.{Payload, FragmentsHolder, extend_data, extend_metadata, add, reassemble}
use rsocket_js.Fragmenter.{Job, make_frame, payload, data_loop, truthy}

-- The flags, the data and the metadata of a frame that carries a payload.
abbrev pub parts : Frame → Option (ℕ × BufferRef × BufferRef)
parts (Frame.payload f) = some (f.flags, f.data_ref, f.metadata)
parts (Frame.request_fnf f) = some (f.flags, f.data_ref, f.metadata)
parts (Frame.request_response f) = some (f.flags, f.data_ref, f.metadata)
parts (Frame.request_stream f) = some (f.flags, f.data_ref, f.metadata)
parts (Frame.request_channel f) = some (f.flags, f.data_ref, f.metadata)
parts _ = none

-- `hasFragments ? reassemble(…) : { data: frame.data, metadata: frame.metadata }`
unfoldable pub last_payload : FragmentsHolder → BufferRef → BufferRef → Option Payload
last_payload h data_ref metadata =
    if h.has_fragments
    then (elim (reassemble h data_ref metadata).1 [ ok p ↦ some p | throw e ↦ none ])
    else some (record { data_ref = data_ref; metadata = metadata })

-- The payload that the frames make up; none if they end early, or go on behind the last one.
unfoldable pub assemble : FragmentsHolder → Yields Frame → Option Payload
assemble h finished = none
assemble h stuck = none
assemble h (failed e) = none
assemble h (yield frame rest) = elim (parts frame) [
  | none ↦ none
  | some (flags, data_ref, metadata) ↦
      let more : Option Payload = elim (add h data_ref metadata) [
        | ok h' ↦ assemble h' rest
        | throw e ↦ none
      ] in
      let done : Option Payload = elim rest [
        | finished ↦ last_payload h data_ref metadata
        | _ ↦ none
      ] in
      if Flags.has_follows flags then more else done
]

abbrev pub holding : BufferRef → BufferRef → FragmentsHolder
holding data_ref metadata = record {
  has_fragments = true;
  data_ref = data_ref;
  metadata = metadata;
}

-- Metadata that are held, with what comes last.
abbrev pub joined : BufferRef → BufferRef → BufferRef
joined (buffer a) (buffer b) = buffer (a ++ b)
joined (buffer a) _ = buffer a
joined _ _ = undefined

abbrev pub data_flags : Bool → Bool → Bool → ℕ
data_flags last complete with_metadata =
    bit_or (if last then (if complete then Flags.complete else Flags.none) else Flags.follows)
      (bit_or Flags.next (if with_metadata then Flags.metadata else 0))

pub follows_flag :
    (last complete with_metadata : Bool)
    → Flags.has_follows (data_flags last complete with_metadata) ≡ (if last then false else true)
unfolding Flags.has_follows
follows_flag true true true = refl
follows_flag true true false = refl
follows_flag true false true = refl
follows_flag true false false = refl
follows_flag false true true = refl
follows_flag false true false = refl
follows_flag false false true = refl
follows_flag false false false = refl

unfoldable pub data_frame : Job → Bool → Buffer → BufferRef → Frame
data_frame job last piece metadata =
    make_frame payload (data_flags last job.is_complete (truthy metadata)) (buffer piece) metadata
      job.stream_id

-- One round of the loop, where it does not reach the end of the data.
pub data_loop-inner :
    (fuel : ℕ) (job : Job) (d : Buffer) (p r : ℕ) (metadata : BufferRef)
    → p + r < length d
    → data_loop (suc fuel) job d (pos p) (pos r) metadata
      ≡ yield
          (data_frame job false (take r (drop p d)) metadata)
          (data_loop fuel job d (pos (p + r)) (pos job.fragment_size) undefined)
unfolding data_loop data_frame slice_signed plus min_of below equals
data_loop-inner fuel job d p r metadata h = ground arith

-- And where it does.
pub data_loop-end :
    (fuel : ℕ) (job : Job) (d : Buffer) (p r : ℕ) (metadata : BufferRef)
    → p < length d
    → length d ≤ p + r
    → data_loop (suc (suc fuel)) job d (pos p) (pos r) metadata
      ≡ yield (data_frame job true (drop p d) metadata) finished
unfolding data_loop data_frame slice_signed plus min_of below equals
data_loop-end fuel job d p r metadata h e =
    ground (arith, take-all (length d - p) (drop p d), length-drop p d)

pub assemble-more :
    (job : Job) (held metadata piece_metadata : BufferRef) (piece : Buffer) (rest : Yields Frame)
    → assemble (holding held metadata) (yield (data_frame job false piece piece_metadata) rest)
      ≡ assemble
          (holding (buffer (bytes_of held ++ piece)) (extend_metadata metadata piece_metadata))
          rest
unfolding assemble data_frame make_frame add extend_data
assemble-more job undefined m pm piece rest = rw (follows_flag false job.is_complete (truthy pm))
assemble-more job null m pm piece rest = rw (follows_flag false job.is_complete (truthy pm))
assemble-more job (buffer b) m pm piece rest = rw (follows_flag false job.is_complete (truthy pm))

last_payload-holding :
    (held metadata piece_metadata : BufferRef) (piece : Buffer)
    → last_payload (holding held metadata) (buffer piece) piece_metadata
      ≡ some (record {
        data_ref = buffer (bytes_of held ++ piece);
        metadata = joined metadata piece_metadata;
      })
unfolding last_payload reassemble extend_data extend_metadata
last_payload-holding held metadata piece_metadata piece = ground arith

pub assemble-last :
    (job : Job) (held metadata piece_metadata : BufferRef) (piece : Buffer)
    → assemble (holding held metadata) (yield (data_frame job true piece piece_metadata) finished)
      ≡ some (record {
        data_ref = buffer (bytes_of held ++ piece);
        metadata = joined metadata piece_metadata;
      })
unfolding assemble data_frame make_frame
assemble-last job held metadata pm piece =
    rw (follows_flag true job.is_complete (truthy pm)) (last_payload-holding held metadata pm piece)

joined-extend : (m pm : BufferRef) → joined (extend_metadata m pm) undefined ≡ joined m pm
unfolding extend_metadata
joined-extend m pm = ground arith

pub cut-append :
    (p r : ℕ) (held d : Buffer) → (held ++ take r (drop p d)) ++ drop (p + r) d ≡ held ++ drop p d
cut-append p r held d =
    append_assoc held (take r (drop p d)) (drop (p + r) d)
    ∙ ap (◌++◌ held)
        (ap (◌++◌ (take r (drop p d))) (sym (drop-drop p r d)) ∙ take-append-drop r (drop p d))

-- The loop sends what is left of the data, and with what is held it makes up the payload.
pub assemble-data_loop :
    (fuel : ℕ) (job : Job) (d : Buffer) (p r : ℕ) (held metadata piece_metadata : BufferRef)
    → p < length d
    → 0 < r
    → 0 < job.fragment_size
    → length d < p + fuel
    → assemble (holding held metadata) (data_loop fuel job d (pos p) (pos r) piece_metadata)
      ≡ some (record {
        data_ref = buffer (bytes_of held ++ drop p d);
        metadata = joined metadata piece_metadata;
      })
assemble-data_loop zero job d p r held m pm hp hr hs hf = absurd (omega arith)
assemble-data_loop (suc zero) job d p r held m pm hp hr hs hf = absurd (omega arith)
assemble-data_loop (suc (suc fuel)) job d p r held m pm hp hr hs hf =
    elim (dec_le (length d) (p + r)) [
      | yes e ↦ rw (data_loop-end fuel job d p r pm hp e) (assemble-last job held m pm (drop p d))
      | no e ↦ rw (data_loop-inner (suc fuel) job d p r pm (omega arith)) (
          assemble-more job held m pm (take r (drop p d)) _
          ∙ assemble-data_loop (suc fuel) job d (p + r) job.fragment_size
              (buffer (bytes_of held ++ take r (drop p d))) (extend_metadata m pm) undefined
              (omega arith) hs hs (omega arith)
          ∙ ap₂ (λ x y. some (record { data_ref = buffer x; metadata = y }))
              (cut-append p r (bytes_of held) d) (joined-extend m pm))
    ]
