-- ===== src/Fragmenter/Sizes.antt =====
-- packages/rsocket-core/src/Fragmenter.ts: no fragment is larger than it may be.
use rsocket_js.Common.{
  ℕ, zero, suc, ◌+◌, ◌-◌, ◌≤◌, ◌<◌, ◌≡◌, refl, sym, [], ◌∷◌, arith, length, take, drop, Bool, true,
  false, length-take, length-drop,
}
use mathlib.Core.Path.{subst}
use native.Mathlib.Decide.{dec_le}
use rsocket_js.Node.{ℤ, pos, Buffer, BufferRef, undefined, null, buffer, byte_length}
use rsocket_js.Frames.{Frame}
use rsocket_js.Frames.Flags
use rsocket_js.Codecs.{Yields, finished, stuck, failed, yield}
use rsocket_js.Codecs.Payload.{get_payload_length}
use rsocket_js.Fragmenter.{
  payload, Job, make_frame, data_loop, metadata_loop, rest_of_data, rest_from, fragment,
}
use rsocket_js.Fragmenter.Assembly.{data_frame, data_flags, data_loop-inner, data_loop-end}
use rsocket_js.Fragmenter.Metadata.{
  metadata_frame, metadata_loop-full, metadata_loop-partial, metadata_loop-end, minus-pos,
}
use rsocket_js.Fragmenter.Limits.{metadata_size}

-- A PAYLOAD frame whose payload is written in as many bytes at most.
abbrev pub IsSmall : ℕ → Frame → Type 0
IsSmall size (Frame.payload f) = get_payload_length f.data_ref f.flags f.metadata ≤ size
IsSmall size _ = ⊥

-- The generator finishes, and yields small frames only.
abbrev pub AllSmall : ℕ → Yields Frame → Type 0
AllSmall size finished = Unit {0}
AllSmall size stuck = ⊥
AllSmall size (failed e) = ⊥
AllSmall size (yield frame rest) = IsSmall size frame × AllSmall size rest

metadata_flag :
    (last complete with_metadata : Bool)
    → Flags.has_metadata (data_flags last complete with_metadata) ≡ with_metadata
unfolding Flags.has_metadata
metadata_flag true true true = refl
metadata_flag true true false = refl
metadata_flag true false true = refl
metadata_flag true false false = refl
metadata_flag false true true = refl
metadata_flag false true false = refl
metadata_flag false false true = refl
metadata_flag false false false = refl

data_frame-IsSmall :
    (size : ℕ) (job : Job) (last : Bool) (piece : Buffer) (metadata : BufferRef)
    → length piece + metadata_size metadata ≤ size
    → IsSmall size (data_frame job last piece metadata)
unfolding data_frame make_frame get_payload_length
data_frame-IsSmall size job last piece undefined h =
    rw (metadata_flag last job.is_complete false) (omega arith)
data_frame-IsSmall size job last piece null h =
    rw (metadata_flag last job.is_complete false) (omega arith)
data_frame-IsSmall size job last piece (buffer m) h =
    rw (metadata_flag last job.is_complete true) (omega arith)

metadata_frame-IsSmall :
    (size : ℕ) (job : Job) (piece : Buffer)
    → 3 + length piece ≤ size
    → IsSmall size (metadata_frame job piece)
unfolding metadata_frame make_frame get_payload_length Flags.has_metadata
metadata_frame-IsSmall size job piece h = omega arith

data_loop-AllSmall :
    (fuel : ℕ) (job : Job) (d : Buffer) (p r : ℕ) (metadata : BufferRef)
    → p < length d
    → 0 < r
    → 0 < job.fragment_size
    → r + metadata_size metadata ≤ job.fragment_size
    → length d < p + fuel
    → AllSmall job.fragment_size (data_loop fuel job d (pos p) (pos r) metadata)
data_loop-AllSmall zero job d p r metadata hp hr hs room hf = absurd (omega arith)
data_loop-AllSmall (suc zero) job d p r metadata hp hr hs room hf = absurd (omega arith)
data_loop-AllSmall (suc (suc fuel)) job d p r metadata hp hr hs room hf =
    elim (dec_le (length d) (p + r)) [
      | yes e ↦ rw (data_loop-end fuel job d p r metadata hp e) (
        data_frame-IsSmall job.fragment_size job true (drop p d) metadata
            (omega (arith, length-drop p d)),
        tt,
      )
      | no e ↦ rw (data_loop-inner (suc fuel) job d p r metadata (omega arith)) (
        data_frame-IsSmall job.fragment_size job false (take r (drop p d)) metadata
            (omega (arith, length-take r (drop p d))),
        data_loop-AllSmall (suc fuel) job d (p + r) job.fragment_size undefined (omega arith) hs hs
            (omega arith) (omega arith),
      )
    ]

rest_of_data-AllSmall :
    (fuel : ℕ) (job : Job) (d : Buffer) (r : ℕ) (metadata : BufferRef)
    → job.payload_data ≡ buffer d
    → 0 < length d
    → 0 < r
    → 0 < job.fragment_size
    → r + metadata_size metadata ≤ job.fragment_size
    → length d < fuel
    → AllSmall job.fragment_size (rest_of_data fuel job metadata (pos r))
unfolding rest_of_data rest_from
rest_of_data-AllSmall fuel job d r metadata ed hd hr hs room hf =
    subst (λ ref. AllSmall job.fragment_size (rest_from fuel job ref metadata (pos r))) (sym ed)
      (data_loop-AllSmall fuel job d 0 r metadata hd hr hs room (omega arith))

metadata_loop-AllSmall :
    (fuel : ℕ) (job : Job) (m d : Buffer) (q data_fuel : ℕ)
    → job.payload_data ≡ buffer d
    → 0 < length d
    → 4 ≤ job.fragment_size
    → length d < data_fuel
    → q ≤ length m
    → length m < q + fuel
    → AllSmall job.fragment_size (
        metadata_loop fuel job m
          (pos q)
          (pos job.fragment_size)
          undefined
          (rest_of_data data_fuel job))
metadata_loop-AllSmall zero job m d q df ed hd hs hdf hq hf = absurd (omega arith)
metadata_loop-AllSmall (suc fuel) job m d q df ed hd hs hdf hq hf =
    let size : ℕ = job.fragment_size - 3 in
    let some_data : 0 < byte_length job.payload_data = rw ed hd in
    elim (dec_le (q + size) (length m)) [
      | yes full ↦ rw (metadata_loop-full fuel job m q (rest_of_data df job) hs some_data full) (
        metadata_frame-IsSmall job.fragment_size job (take size (drop q m))
            (omega (arith, length-take size (drop q m))),
        metadata_loop-AllSmall fuel job m d (q + size) df ed hd hs hdf full (omega arith),
      )
      | no part ↦ last_metadata fuel (omega arith) hf some_data (dec_le (length m) q)
    ]
  where
    last_metadata :
        (fuel : ℕ)
        → length m < q + (job.fragment_size - 3)
        → length m < q + suc fuel
        → 0 < byte_length job.payload_data
        → Dec (length m ≤ q)
        → AllSmall job.fragment_size (
            metadata_loop
              (suc fuel)
              job
              m
              (pos q)
              (pos job.fragment_size)
              undefined
              (rest_of_data df job))
    last_metadata fuel part hf some_data (yes e) =
        let all : q ≡ length m = omega arith in
        rw
          (
            all,
            metadata_loop-end fuel job m undefined (pos job.fragment_size) (rest_of_data df job),
          )
          (rest_of_data-AllSmall df job d job.fragment_size undefined ed hd (omega arith)
            (omega arith) (omega arith) hdf)
    last_metadata zero part hf some_data (no e) = absurd (omega arith)
    last_metadata (suc fuel) part hf some_data (no e) =
        rw
          (metadata_loop-partial fuel job m q (rest_of_data df job) hs some_data (omega arith) part)
          (rest_of_data-AllSmall df job d (job.fragment_size - 3 - (length m - q))
            (buffer (drop q m)) ed hd (omega arith) (omega arith) (omega (arith, length-drop q m))
            hdf)

-- A payload with data, cut into fragments of at least four bytes, gives PAYLOAD frames whose payloads
-- are written in no more bytes than the fragment size, and the generator finishes; fuel above the two
-- lengths is enough.
pub fragment-AllSmall :
    (fuel : ℕ) (stream_id : ℤ) (d : Buffer) (metadata : BufferRef) (fragment_size : ℕ)
    (is_complete : Bool)
    → 0 < length d
    → 4 ≤ fragment_size
    → length d < fuel
    → byte_length metadata < fuel
    → AllSmall fragment_size (
        fragment fuel stream_id
          (record { data_ref = buffer d; metadata = metadata })
          fragment_size
          payload
          is_complete)
unfolding fragment
fragment-AllSmall fuel sid d undefined fs c hd hs hf hm =
    rest_of_data-AllSmall fuel _ d fs undefined refl hd (omega arith) (omega arith) (omega arith) hf
fragment-AllSmall fuel sid d null fs c hd hs hf hm =
    rest_of_data-AllSmall fuel _ d fs undefined refl hd (omega arith) (omega arith) (omega arith) hf
fragment-AllSmall fuel sid d (buffer []) fs c hd hs hf hm = rw (minus-pos fs 3 (omega arith)) (
    rest_of_data-AllSmall fuel _ d (fs - 3) (buffer []) refl hd (omega arith) (omega arith)
      (omega arith) hf)
fragment-AllSmall fuel sid d (buffer (b ∷ bytes)) fs c hd hs hf hm =
    metadata_loop-AllSmall fuel _ (b ∷ bytes) d 0 fuel refl hd hs hf (omega arith) (omega arith)
