-- ===== src/Fragmenter/Marks.antt =====
-- packages/rsocket-core/src/Fragmenter.ts: where the fragments of a payload have the flag COMPLETE.
use rsocket_js.Common.{
  ℕ, zero, suc, Bool, true, false, if◌then◌else◌, ◌≡◌, refl, sym, ◌∙◌, [], ◌∷◌, Bool-cases, inl,
  inr, length, ◌||◌, ◌&&◌, ◌==◌, arith, bit_or,
}
use rsocket_js.Node.{ℤ, pos, negsuc, Buffer, BufferRef, undefined, null, buffer, byte_length}
use rsocket_js.Node.Signed.{below, equals, minus, plus, min_of, slice_signed}
use rsocket_js.Frames.{Frame}
use rsocket_js.Frames.Flags
use rsocket_js.Frames.Lengths
use rsocket_js.Codecs.{Yields, finished, stuck, yield}
use rsocket_js.Reassembler.{Payload}
use rsocket_js.Fragmenter.{
  payload, make_frame, Job, data_loop, metadata_loop, rest_from, rest_of_data, fragment, truthy,
}

-- A frame that is the last one of its stream's direction.
abbrev pub is_last : Frame → Bool
is_last (Frame.payload f) = Flags.has_complete f.flags
is_last (Frame.error f) = true
is_last _ = false

abbrev pub Silent : Yields Frame → Type 0
Silent finished = Unit {0}
Silent stuck = Unit {0}
Silent _ = ⊥

-- A last frame comes only where it is allowed, and no frame comes behind it.
abbrev pub Settled : Bool → Yields Frame → Type 0
Settled c (yield frame rest) = (is_last frame ≡ true → (c ≡ true) × Silent rest) × Settled c rest
Settled c _ = Unit {0}

pub complete_flag :
    (last c t : Bool)
    → Flags.has_complete (
        bit_or
          (if last then (if c then Flags.complete else Flags.none) else Flags.follows)
          (bit_or Flags.next (if t then Flags.metadata else 0)))
      ≡ (last && c)
unfolding Flags.has_complete
complete_flag true true true = refl
complete_flag true true false = refl
complete_flag true false true = refl
complete_flag true false false = refl
complete_flag false true true = refl
complete_flag false true false = refl
complete_flag false false true = refl
complete_flag false false false = refl

metadata_flag :
    (last : Bool)
    → Flags.has_complete
        (bit_or (bit_or Flags.next Flags.metadata) (if last then Flags.complete else Flags.follows))
      ≡ last
unfolding Flags.has_complete
metadata_flag true = refl
metadata_flag false = refl

equals-not_below : (x : ℤ) (n : ℕ) → equals x n ≡ true → below x n ≡ false
unfolding equals below
equals-not_below (pos k) n h = ground arith
equals-not_below (negsuc k) n h = ground arith

and-both : (a b : Bool) → (a && b) ≡ true → (a ≡ true) × (b ≡ true)
and-both true b h = (refl, h)
and-both false b h = cc

module _ (job : Job) where
  abbrev Ordered : Yields Frame → Type 0
  Ordered frames = Settled job.is_complete frames

  data_loop-Silent :
      (fuel : ℕ) (d : Buffer) (p r : ℤ) (metadata : BufferRef)
      → below p (length d) ≡ false
      → Silent (data_loop fuel job d p r metadata)
  unfolding data_loop
  data_loop-Silent zero d p r metadata h = tt
  data_loop-Silent (suc fuel) d p r metadata h = rw h tt

  data_loop-Ordered :
      (fuel : ℕ) (d : Buffer) (p r : ℤ) (metadata : BufferRef)
      → Ordered (data_loop fuel job d p r metadata)
  unfolding data_loop make_frame
  data_loop-Ordered zero d p r metadata = tt
  data_loop-Ordered (suc fuel) d p r metadata = elim (Bool-cases (below p (length d))) [
    | inl e ↦ rw e (
      (λ h.
          let next = min_of (length d) (plus p r) in
          let (last, c) =
            and-both (equals next (length d)) job.is_complete (
              sym (complete_flag (equals next (length d)) job.is_complete (truthy metadata)) ∙ h) in
          (c, data_loop-Silent fuel d next _ _ (equals-not_below next (length d) last))),
      data_loop-Ordered fuel d _ _ _,
    )
    | inr e ↦ rw e tt
  ]

  module _ (go_on : BufferRef → ℤ → Yields Frame)
      (ordered : (ref : BufferRef) (z : ℤ) → Ordered (go_on ref z))
      (silent : (byte_length job.payload_data == 0) ≡ true
        → (ref : BufferRef) (z : ℤ) → Silent (go_on ref z)) where
    metadata_loop-Silent :
        (fuel : ℕ) (m : Buffer) (p r : ℤ) (metadata : BufferRef)
        → below p (length m) ≡ false
        → (byte_length job.payload_data == 0) ≡ true
        → Silent (metadata_loop fuel job m p r metadata go_on)
    unfolding metadata_loop
    metadata_loop-Silent zero m p r metadata h e = tt
    metadata_loop-Silent (suc fuel) m p r metadata h e = rw h (silent e metadata r)

    metadata_loop-Ordered :
        (fuel : ℕ) (m : Buffer) (p r : ℤ) (metadata : BufferRef)
        → Ordered (metadata_loop fuel job m p r metadata go_on)
    unfolding metadata_loop make_frame
    metadata_loop-Ordered zero m p r metadata = tt
    metadata_loop-Ordered (suc fuel) m p r metadata =
        let room = minus r Lengths.metadata in
        let next = min_of (length m) (plus p room) in
        let piece = slice_signed m p next in
        let left = minus room (length piece) in
        let no_data = byte_length job.payload_data == 0 in
        elim (Bool-cases (below p (length m))) [
          | inl e ↦ rw e (elim (Bool-cases (equals left 0 || no_data)) [
            | inl sent ↦ rw sent (
              (λ h.
                  let (both, none_left) =
                    and-both (equals next (length m) && job.is_complete) no_data (
                      sym (metadata_flag (equals next (length m) && job.is_complete && no_data))
                      ∙ h) in
                  let (at_end, c) = and-both (equals next (length m)) job.is_complete both in
                  (
                    c,
                    metadata_loop-Silent fuel m next _ _ (equals-not_below next (length m) at_end)
                        none_left,
                  )),
              metadata_loop-Ordered fuel m next (pos job.fragment_size) undefined,
            )
            | inr kept ↦ rw kept (metadata_loop-Ordered fuel m next left (buffer piece))
          ])
          | inr e ↦ rw e (ordered metadata r)
        ]

  rest_from-Ordered :
      (fuel : ℕ) (ref metadata : BufferRef) (r : ℤ) → Ordered (rest_from fuel job ref metadata r)
  unfolding rest_from
  rest_from-Ordered fuel (buffer d) metadata r = data_loop-Ordered fuel d _ _ _
  rest_from-Ordered fuel undefined metadata r = tt
  rest_from-Ordered fuel null metadata r = tt

  rest_from-Silent :
      (fuel : ℕ) (ref metadata : BufferRef) (r : ℤ)
      → (byte_length ref == 0) ≡ true
      → Silent (rest_from fuel job ref metadata r)
  unfolding rest_from below
  rest_from-Silent fuel (buffer []) metadata r h = data_loop-Silent fuel [] (pos 0) r metadata refl
  rest_from-Silent fuel (buffer (b ∷ d)) metadata r h = absurd (ground arith)
  rest_from-Silent fuel undefined metadata r h = tt
  rest_from-Silent fuel null metadata r h = tt

  rest_of_data-Ordered :
      (fuel : ℕ) (metadata : BufferRef) (r : ℤ) → Ordered (rest_of_data fuel job metadata r)
  unfolding rest_of_data
  rest_of_data-Ordered fuel metadata r = rest_from-Ordered fuel job.payload_data metadata r

  rest_of_data-Silent :
      (fuel : ℕ)
      → (byte_length job.payload_data == 0) ≡ true
      → (metadata : BufferRef) (r : ℤ) → Silent (rest_of_data fuel job metadata r)
  unfolding rest_of_data
  rest_of_data-Silent fuel e metadata r = rest_from-Silent fuel job.payload_data metadata r e

fragment-Ordered :
    (fuel : ℕ) (id : ℤ) (d m : BufferRef) (size : ℕ) (c : Bool)
    → Settled c (fragment fuel id (record { data_ref = d; metadata = m }) size payload c)
unfolding fragment
fragment-Ordered fuel id d (buffer (b ∷ bytes)) size c =
    metadata_loop-Ordered _ _ (rest_of_data-Ordered _ fuel) (rest_of_data-Silent _ fuel) fuel _ _ _
      _
fragment-Ordered fuel id d (buffer []) size c = rest_of_data-Ordered _ fuel _ _
fragment-Ordered fuel id d undefined size c = rest_of_data-Ordered _ fuel _ _
fragment-Ordered fuel id d null size c = rest_of_data-Ordered _ fuel _ _

-- Among the PAYLOAD frames of a payload, one that is complete is the last, and there is none unless the
-- payload completes the stream.
pub fragment-Settled :
    (fuel : ℕ) (id : ℤ) (p : Payload) (size : ℕ) (c : Bool)
    → Settled c (fragment fuel id p size payload c)
fragment-Settled fuel id p size c = fragment-Ordered fuel id p.data_ref p.metadata size c
