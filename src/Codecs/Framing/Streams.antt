-- ===== src/Codecs/Framing/Streams.antt =====
-- A buffer of many frames: the loop of `deserializeFrames` ends, and reads back what was written.
use rsocket_js.Common.{
  ℕ, zero, suc, ◌+◌, ◌^◌, ◌<◌, ◌≡◌, refl, sym, ap, ◌∙◌, [], ◌∷◌, ◌++◌, arith, List, length, Option,
  none, some, length-append, append_assoc, Option-cases, inl, inr,
}
use mathlib.Core.Option.{some-injective}
use rsocket_js.Node.{Buffer, Result, ok, throw, Runtime}
use rsocket_js.Frames.{Frame}
use rsocket_js.Codecs.{
  deserialize_frame, deserialize_frames, size_of_frame, serialize_frame_with_length, Yields,
  finished, stuck, failed, yield, yield_or_fail,
}
use rsocket_js.Codecs.Framing.{
  framed, split_frame, frames_of, deserialize_frames-frames_of, serialize_frame_with_length-framed,
}
use rsocket_js.Codecs.Framing.Split.{split_frame-length, split_frame-framed}
use rsocket_js.Codecs.Layout.Frames.{IsWritable, frame_bytes, setup_bytes}
use rsocket_js.Codecs.Layout.Serialize.{serialize_frame-frame_bytes}
use rsocket_js.Codecs.RoundTrip.{received_frame, IsReadable, deserialize_frame-serialize_frame}

-- A generator that comes to an end: it yields some values, and then finishes or fails.
abbrev pub Ends {ℓ} : {A : Type ℓ} → Yields A → Type 0
Ends finished = Unit {0}
Ends stuck = ⊥
Ends (failed e) = Unit {0}
Ends (yield a rest) = Ends rest

yield_or_fail-Ends :
    (r : Result (Option Frame)) (offset : ℕ) (rest : Yields (Option Frame × ℕ))
    → Ends rest
    → Ends (yield_or_fail r (λ frame. yield (frame, offset) rest))
yield_or_fail-Ends (ok a) offset rest h = h
yield_or_fail-Ends (throw e) offset rest h = tt

frames_of-Ends :
    (rt : Runtime) (fuel : ℕ) (buf : Buffer) (offset : ℕ)
    → length buf < fuel
    → Ends (frames_of rt fuel buf offset)
unfolding frames_of
frames_of-Ends rt zero buf offset h = elim h [ ]
frames_of-Ends rt (suc fuel) buf offset h = elim (Option-cases (split_frame buf)) [
  | inl e ↦ rw e tt
  | inr ((body, rest), e) ↦ rw e (
      yield_or_fail-Ends (deserialize_frame rt body) _ _ (
        frames_of-Ends rt fuel rest (offset + 3 + length body)
          (omega (arith, split_frame-length buf body rest e))))
]

-- On every buffer, well formed or not, the loop of `deserializeFrames` comes to an end.
pub deserialize_frames-Ends : (rt : Runtime) (buf : Buffer) → Ends (deserialize_frames rt buf)
deserialize_frames-Ends rt buf =
    rw (deserialize_frames-frames_of rt buf)
      (frames_of-Ends rt (suc (length buf)) buf 0 (omega arith))

-- A frame that can be sent: its fields fit, it can be read, and its length fits 24 bits.
pub record IsSendable (rt : Runtime) (f : Frame) : Type 0 where
  pub writable : IsWritable f
  pub readable : IsReadable rt f
  pub short : (n : ℕ) → size_of_frame rt f ≡ some n → n < 2 ^ 24

abbrev pub AllSendable : Runtime → List Frame → Type 0
AllSendable rt [] = Unit {0}
AllSendable rt (f ∷ fs) = IsSendable rt f × AllSendable rt fs

-- The bytes of the frames, each written with its length, are `stream`.
pub data Sent (rt : Runtime) : List Frame → Buffer → Type 0 where
  nothing : Sent rt [] []
  one_more :
      (f : Frame) (fs : List Frame) (bytes stream : Buffer)
      → serialize_frame_with_length rt f ≡ ok bytes
      → Sent rt fs stream
      → Sent rt (f ∷ fs) (bytes ++ stream)

-- The frames as they arrive, each with the offset behind it.
abbrev pub IsReceived : List Frame → Yields (Option Frame × ℕ) → Type 0
IsReceived [] finished = Unit {0}
IsReceived (f ∷ fs) (yield (frame, offset) rest) =
    (frame ≡ some (received_frame f)) × IsReceived fs rest
IsReceived _ _ = ⊥

pub ok-injective : (x y : Buffer) → ok x ≡ ok y → x ≡ y
ok-injective x y e = cc

ok_some-injective : (x y : Buffer) → ok (some x) ≡ ok (some y) → x ≡ y
ok_some-injective x y e = cc

frame_bytes-nonempty :
    (rt : Runtime) (f : Frame) (bytes : Buffer) → frame_bytes rt f ≡ some bytes → 0 < length bytes
unfolding frame_bytes setup_bytes
frame_bytes-nonempty rt (Frame.ext f) bytes e = cc
frame_bytes-nonempty rt (Frame.unsupported f) bytes e = cc
frame_bytes-nonempty rt _ bytes e = omega (arith, ap length (some-injective _ _ e))

-- What a sendable frame is written as: the number of its bytes, and bytes that are read back.
pub record Written (rt : Runtime) (f : Frame) : Type 0 where
  pub body : Buffer
  pub nonempty : 0 < length body
  pub fits : length body < 2 ^ 24
  pub sent : serialize_frame_with_length rt f ≡ ok (framed body)
  pub read : deserialize_frame rt body ≡ ok (some (received_frame f))

pub IsSendable-Written : (rt : Runtime) (f : Frame) → IsSendable rt f → Written rt f
IsSendable-Written rt f h =
    let (body, laid_out, written, size) = serialize_frame-frame_bytes rt f h.writable in
    let (body', written', read) = deserialize_frame-serialize_frame rt f h.writable h.readable in
    let fits = h.short (length body) size in
    record {
      body = body;
      nonempty = frame_bytes-nonempty rt f body laid_out;
      fits = fits;
      sent = serialize_frame_with_length-framed rt f body written fits;
      read = rw (ok_some-injective body body' (sym written ∙ written')) read;
    }

pub AllSendable-Sent :
    (rt : Runtime) (fs : List Frame) → AllSendable rt fs → (stream : Buffer) × Sent rt fs stream
AllSendable-Sent rt [] h = ([], nothing)
AllSendable-Sent rt (f ∷ fs) h =
    let w = IsSendable-Written rt f h.0 in
    let (stream, s) = AllSendable-Sent rt fs h.1 in
    (framed w.body ++ stream, one_more f fs (framed w.body) stream w.sent s)

frames_of-IsReceived :
    (rt : Runtime) (fuel : ℕ) (fs : List Frame) (stream rest : Buffer) (offset : ℕ)
    → Sent rt fs stream
    → AllSendable rt fs
    → split_frame rest ≡ none
    → length (stream ++ rest) < fuel
    → IsReceived fs (frames_of rt fuel (stream ++ rest) offset)
unfolding frames_of
frames_of-IsReceived rt zero fs stream rest offset s h partial less = elim less [ ]
frames_of-IsReceived rt (suc fuel) [] stream rest offset nothing h partial less = rw partial tt
frames_of-IsReceived rt (suc fuel) (f ∷ fs) _ rest offset (one_more f' fs' bytes stream e s) h
      partial less =
    let w = IsSendable-Written rt f h.0 in
    let same : bytes ≡ framed w.body = ok-injective bytes (framed w.body) (sym e ∙ w.sent) in
    rw
      (
        same,
        append_assoc (framed w.body) stream rest,
        split_frame-framed w.body (stream ++ rest) w.nonempty w.fits,
        w.read,
      )
      (
        refl,
        frames_of-IsReceived rt fuel fs stream rest (offset + 3 + length w.body) s h.1 partial (
            omega (
              arith,
              less,
              ap length (append_assoc bytes stream rest),
              length-append bytes (stream ++ rest),
              ap length same,
            )),
      )

-- Sendable frames are written with their lengths one after the other, and `deserializeFrames` on
-- these bytes, with part of a further frame behind them, yields them all in order and finishes.
pub deserialize_frames-Sent :
    (rt : Runtime) (fs : List Frame) (rest : Buffer)
    → AllSendable rt fs
    → split_frame rest ≡ none
    → (stream : Buffer) × Sent rt fs stream × IsReceived fs (deserialize_frames rt (stream ++ rest))
deserialize_frames-Sent rt fs rest h partial =
    let (stream, s) = AllSendable-Sent rt fs h in
    (
      stream,
      s,
      rw (deserialize_frames-frames_of rt (stream ++ rest)) (
          frames_of-IsReceived rt (suc (length (stream ++ rest))) fs stream rest 0 s h partial
            (omega arith)),
    )
