-- ===== src/Fragmenter/Flagged.antt =====
-- packages/rsocket-core/src/Fragmenter.ts: the flags that tell the receiver of fragments what to do.
use rsocket_js.Common.{
  ℕ, zero, suc, Bool, true, false, if◌then◌else◌, ◌≡◌, refl, [], ◌∷◌, Bool-cases, inl, inr, length,
  ◌||◌, ◌&&◌, ◌==◌, bit_or,
}
use rsocket_js.Node.{ℤ, pos, Buffer, BufferRef, undefined, null, buffer, byte_length}
use rsocket_js.Node.Signed.{below, equals, minus, plus, min_of, slice_signed}
use rsocket_js.Frames.{Frame}
use rsocket_js.Frames.Flags
use rsocket_js.Frames.Lengths
use rsocket_js.Codecs.{Yields}
use rsocket_js.Reassembler.{Payload}
use rsocket_js.Fragmenter.{
  payload, make_frame, Job, data_loop, metadata_loop, rest_from, rest_of_data, fragment, truthy,
}
use rsocket_js.Fragmenter.Assembly.{data_flags}
use rsocket_js.Fragmenter.Carried.{Every}

-- Flags of a payload: more follows, or it is complete just if `c` says so.
pub record AreFlagged (c : Bool) (flags : ℕ) : Type 0 where
  pub with_next : Flags.has_next flags ≡ true
  pub complete_last : Flags.has_complete flags ≡ (if Flags.has_follows flags then false else c)

abbrev pub IsFlagged : Bool → Frame → Type 0
IsFlagged c (Frame.payload f) = AreFlagged c f.flags
IsFlagged c _ = ⊥

data_flags-AreFlagged : (last c t : Bool) → AreFlagged c (data_flags last c t)
unfolding Flags.has_next Flags.has_complete Flags.has_follows
data_flags-AreFlagged true true true = record { with_next = refl; complete_last = refl }
data_flags-AreFlagged true true false = record { with_next = refl; complete_last = refl }
data_flags-AreFlagged true false true = record { with_next = refl; complete_last = refl }
data_flags-AreFlagged true false false = record { with_next = refl; complete_last = refl }
data_flags-AreFlagged false true true = record { with_next = refl; complete_last = refl }
data_flags-AreFlagged false true false = record { with_next = refl; complete_last = refl }
data_flags-AreFlagged false false true = record { with_next = refl; complete_last = refl }
data_flags-AreFlagged false false false = record { with_next = refl; complete_last = refl }

metadata_flags-AreFlagged :
    (at_end c no_data : Bool)
    → AreFlagged c (
        bit_or
          (bit_or Flags.next Flags.metadata)
          (if at_end && c && no_data then Flags.complete else Flags.follows))
unfolding Flags.has_next Flags.has_complete Flags.has_follows
metadata_flags-AreFlagged true true true = record { with_next = refl; complete_last = refl }
metadata_flags-AreFlagged true true false = record { with_next = refl; complete_last = refl }
metadata_flags-AreFlagged true false t = record { with_next = refl; complete_last = refl }
metadata_flags-AreFlagged false c t = record { with_next = refl; complete_last = refl }

module _ (job : Job) where
  abbrev AllFlagged : Yields Frame → Type 0
  AllFlagged frames = Every (IsFlagged job.is_complete) frames

  pub data_loop-AllFlagged :
      (fuel : ℕ) (d : Buffer) (p r : ℤ) (metadata : BufferRef)
      → AllFlagged (data_loop fuel job d p r metadata)
  unfolding data_loop make_frame
  data_loop-AllFlagged zero d p r metadata = tt
  data_loop-AllFlagged (suc fuel) d p r metadata = elim (Bool-cases (below p (length d))) [
    | inl e ↦ rw e (
      data_flags-AreFlagged (equals (min_of (length d) (plus p r)) (length d)) job.is_complete
          (truthy metadata),
      data_loop-AllFlagged fuel d _ _ _,
    )
    | inr e ↦ rw e tt
  ]

  pub metadata_loop-AllFlagged :
      (fuel : ℕ) (m : Buffer) (p r : ℤ) (metadata : BufferRef)
      (go_on : BufferRef → ℤ → Yields Frame)
      → ((ref : BufferRef) (z : ℤ) → AllFlagged (go_on ref z))
      → AllFlagged (metadata_loop fuel job m p r metadata go_on)
  unfolding metadata_loop make_frame
  metadata_loop-AllFlagged zero m p r metadata go_on h = tt
  metadata_loop-AllFlagged (suc fuel) m p r metadata go_on h =
      let room = minus r Lengths.metadata in
      let next = min_of (length m) (plus p room) in
      let piece = slice_signed m p next in
      let left = minus room (length piece) in
      let no_data = byte_length job.payload_data == 0 in
      elim (Bool-cases (below p (length m))) [
        | inl e ↦ rw e (elim (Bool-cases (equals left 0 || no_data)) [
          | inl sent ↦ rw sent (
            metadata_flags-AreFlagged (equals next (length m)) job.is_complete no_data,
            metadata_loop-AllFlagged fuel m next (pos job.fragment_size) undefined go_on h,
          )
          | inr kept ↦ rw kept (metadata_loop-AllFlagged fuel m next left (buffer piece) go_on h)
        ])
        | inr e ↦ rw e (h metadata r)
      ]

  rest_from-AllFlagged :
      (fuel : ℕ) (ref metadata : BufferRef) (r : ℤ) → AllFlagged (rest_from fuel job ref metadata r)
  unfolding rest_from
  rest_from-AllFlagged fuel (buffer d) metadata r = data_loop-AllFlagged fuel d _ _ _
  rest_from-AllFlagged fuel undefined metadata r = tt
  rest_from-AllFlagged fuel null metadata r = tt

  pub rest_of_data-AllFlagged :
      (fuel : ℕ) (metadata : BufferRef) (r : ℤ) → AllFlagged (rest_of_data fuel job metadata r)
  unfolding rest_of_data
  rest_of_data-AllFlagged fuel metadata r = rest_from-AllFlagged fuel job.payload_data metadata r

fragment-AllFlagged :
    (fuel : ℕ) (id : ℤ) (d m : BufferRef) (size : ℕ) (c : Bool)
    → Every (IsFlagged c) (fragment fuel id (record { data_ref = d; metadata = m }) size payload c)
unfolding fragment
fragment-AllFlagged fuel id d (buffer (b ∷ bytes)) size c =
    metadata_loop-AllFlagged _ fuel _ _ _ _ _ (rest_of_data-AllFlagged _ fuel)
fragment-AllFlagged fuel id d (buffer []) size c = rest_of_data-AllFlagged _ fuel _ _
fragment-AllFlagged fuel id d undefined size c = rest_of_data-AllFlagged _ fuel _ _
fragment-AllFlagged fuel id d null size c = rest_of_data-AllFlagged _ fuel _ _

-- Each PAYLOAD frame of a payload has the flag NEXT; one that more follows is not complete, another one
-- just if the payload completes the stream.
pub fragment-IsFlagged :
    (fuel : ℕ) (id : ℤ) (p : Payload) (size : ℕ) (c : Bool)
    → Every (IsFlagged c) (fragment fuel id p size payload c)
fragment-IsFlagged fuel id p size c = fragment-AllFlagged fuel id p.data_ref p.metadata size c

-- And so has the only frame of a payload that is not cut.
pub single-AreFlagged :
    (c t : Bool)
    → AreFlagged c (
        bit_or
          (bit_or Flags.next (if c then Flags.complete else Flags.none))
          (if t then Flags.metadata else Flags.none))
unfolding Flags.has_next Flags.has_complete Flags.has_follows
single-AreFlagged true true = record { with_next = refl; complete_last = refl }
single-AreFlagged true false = record { with_next = refl; complete_last = refl }
single-AreFlagged false true = record { with_next = refl; complete_last = refl }
single-AreFlagged false false = record { with_next = refl; complete_last = refl }

pub single-follows :
    (c t : Bool)
    → Flags.has_follows (
        bit_or
          (bit_or Flags.next (if c then Flags.complete else Flags.none))
          (if t then Flags.metadata else Flags.none))
      ≡ false
unfolding Flags.has_follows
single-follows true true = refl
single-follows true false = refl
single-follows false true = refl
single-follows false false = refl
