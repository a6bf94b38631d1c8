-- ===== src/Codecs/Framing.antt =====
-- packages/rsocket-core/src/Codecs.ts: frames with a length in front, one after the other in a buffer.
pub mod Split
pub mod Streams
use rsocket_js.Common.{
  ℕ, zero, suc, ◌+◌, ◌≤◌, ◌<◌, ◌^◌, ◌≡◌, refl, [], ◌∷◌, ◌++◌, arith, length, Option, none, some,
  ltb, leb, if◌then◌else◌, true, false, drop, take, length-take, take-append-drop, bit_or, ◌*◌,
}
use rsocket_js.Node.{Buffer, ok, Runtime, slice}
use native.Mathlib.Decide.{dec_le}
use rsocket_js.Node.Write.{>>-Writes, copy-Writes, write_all_lem}
use rsocket_js.Node.Read.{read_uint8-At, At, At-drop, At-skip, length-At, slice-At}
use rsocket_js.Frames.{Frame}
use rsocket_js.Codecs.{
  serialize_frame, serialize_frame_with_length, deserialize_frame, deserialize_frame_with_length,
  Yields, finished, stuck, yield, yield_or_fail, deserialize_frames_from, deserialize_frames,
}
use rsocket_js.Codecs.Numbers.{read_uint24}
use rsocket_js.Codecs.Layout.Parts.{u24, write_uint24-Writes}
use rsocket_js.Codecs.RoundTrip.Parts.{read_uint24-At}

-- A frame's bytes behind their number.
abbrev pub framed : Buffer → Buffer
framed bytes = u24 (length bytes) ++ bytes

pub serialize_frame_with_length-framed :
    (rt : Runtime) (f : Frame) (bytes : Buffer)
    → serialize_frame rt f ≡ ok (some bytes)
    → length bytes < 2 ^ 24
    → serialize_frame_with_length rt f ≡ ok (framed bytes)
unfolding serialize_frame_with_length
serialize_frame_with_length-framed rt f bytes e h = rw (e) (
    write_all_lem rt.memory _ (>>-Writes (write_uint24-Writes (length bytes) h) (copy-Writes bytes))
      (omega arith))

pub deserialize_frame_with_length-framed :
    (rt : Runtime) (bytes rest : Buffer)
    → deserialize_frame_with_length rt (framed bytes ++ rest) ≡ deserialize_frame rt bytes
unfolding deserialize_frame_with_length
deserialize_frame_with_length-framed rt bytes rest =
    let start : At (framed bytes ++ rest) 0 (u24 (length bytes) ++ (bytes ++ rest)) = record {
      found = refl;
    } in
    rw (
      read_uint24-At (length bytes) start,
      slice-At bytes rest (At-skip (u24 (length bytes)) start),
    )

-- A frame's bytes and what follows them, where a buffer holds more than the length of a frame, and
-- the frame is there whole.
unfoldable pub split_body : ℕ → Buffer → Option (Buffer × Buffer)
split_body n [] = none
split_body n (b ∷ rest) =
    if leb n (length (b ∷ rest)) then some (take n (b ∷ rest), drop n (b ∷ rest)) else none

unfoldable pub split_frame : Buffer → Option (Buffer × Buffer)
unfolding split_body
split_frame (a ∷ b ∷ c ∷ rest) = split_body (bit_or (bit_or (a * 2 ^ 16) (b * 2 ^ 8)) c) rest
split_frame _ = none

-- The frames of a buffer without the offsets into it that the code keeps; `more` goes on behind one.
abbrev next_frame :
    Runtime
    → (Buffer → ℕ → Yields (Option Frame × ℕ))
    → ℕ
    → Option (Buffer × Buffer)
    → Yields (Option Frame × ℕ)
next_frame rt more offset none = finished
next_frame rt more offset (some (body, rest)) =
    let end = offset + 3 + length body in
    yield_or_fail (deserialize_frame rt body) (λ frame. yield (frame, end) (more rest end))

unfoldable pub frames_of : Runtime → ℕ → Buffer → ℕ → Yields (Option Frame × ℕ)
frames_of rt zero buf offset = stuck
frames_of rt (suc fuel) buf offset = next_frame rt (frames_of rt fuel) offset (split_frame buf)

split_body-some :
    (n : ℕ) (buf : Buffer)
    → 0 < length buf
    → n ≤ length buf
    → split_body n buf ≡ some (take n buf, drop n buf)
unfolding split_body
split_body-some n [] h le = absurd (omega arith)
split_body-some n (b ∷ rest) h le = ground arith

split_body-none : (n : ℕ) (buf : Buffer) → length buf < n → split_body n buf ≡ none
unfolding split_body
split_body-none n [] h = refl
split_body-none n (b ∷ rest) h = ground arith

read_uint24-bytes :
    {buf : Buffer} {offset : ℕ} (a b c : ℕ) {rest : Buffer}
    → At buf offset (a ∷ b ∷ c ∷ rest)
    → read_uint24 buf offset ≡ ok (bit_or (bit_or (a * 2 ^ 16) (b * 2 ^ 8)) c)
unfolding read_uint24
read_uint24-bytes a b c h =
    rw (read_uint8-At h, read_uint8-At (At-skip (a ∷ []) h), read_uint8-At (At-skip (a ∷ b ∷ []) h))

-- Three bytes or less are no frame.
too_short :
    (rt : Runtime) (fuel : ℕ) {buf : Buffer} (offset : ℕ) (rest : Buffer)
    → At buf offset rest
    → length rest ≤ 3
    → deserialize_frames_from rt (suc fuel) buf offset ≡ finished
unfolding deserialize_frames_from
too_short rt fuel {buf} offset rest h short =
    let closed : ltb (offset + 3) (length buf) ≡ false = ground (arith, length-At h) in rw closed

-- One round behind the length of a frame.
one_frame :
    (rt : Runtime) (fuel : ℕ) {buf : Buffer} (offset n : ℕ) (body : Buffer)
    → At buf (offset + 3) body
    → 0 < length body
    → (deserialize_frames_from rt fuel buf (offset + 3 + n)
        ≡ frames_of rt fuel (drop n body) (offset + 3 + n))
    → (if ltb (length buf) (offset + 3 + n)
        then finished
        else yield_or_fail
            (deserialize_frame rt (slice buf (offset + 3) (offset + 3 + n)))
            (λ frame.
              yield (frame, offset + 3 + n) (deserialize_frames_from rt fuel buf (offset + 3 + n))))
      ≡ next_frame rt (frames_of rt fuel) offset (split_body n body)
one_frame rt fuel {buf} offset n body h pos_length ih = elim (dec_le n (length body)) [
  | yes le ↦
      let here : ltb (length buf) (offset + 3 + n) ≡ false = ground (arith, length-At h) in
      let size : length (take n body) ≡ n = omega (arith, length-take n body) in
      let cut : slice buf (offset + 3) (offset + 3 + n) ≡ take n body = rw size at (
        slice-At {buf = buf} {offset = offset + 3} (take n body) (drop n body)
          (rw (take-append-drop n body) h)) in
      rw (here, cut, ih, split_body-some n body pos_length le, size)
  | no gt ↦
      let beyond : ltb (length buf) (offset + 3 + n) ≡ true = ground (arith, length-At h) in
      rw (beyond, split_body-none n body (omega arith))
]

-- The code and the description without offsets go through the same frames.
frames_from-frames_of :
    (rt : Runtime) (fuel : ℕ) {buf : Buffer} (offset : ℕ) (rest : Buffer)
    → At buf offset rest
    → deserialize_frames_from rt fuel buf offset ≡ frames_of rt fuel rest offset
unfolding deserialize_frames_from frames_of split_frame
frames_from-frames_of rt zero offset rest h = refl
frames_from-frames_of rt (suc fuel) offset [] h = too_short rt fuel offset [] h (omega arith)
frames_from-frames_of rt (suc fuel) offset (a ∷ []) h =
    too_short rt fuel offset (a ∷ []) h (omega arith)
frames_from-frames_of rt (suc fuel) offset (a ∷ b ∷ []) h =
    too_short rt fuel offset (a ∷ b ∷ []) h (omega arith)
frames_from-frames_of rt (suc fuel) offset (a ∷ b ∷ c ∷ []) h =
    too_short rt fuel offset (a ∷ b ∷ c ∷ []) h (omega arith)
frames_from-frames_of rt (suc fuel) {buf} offset (a ∷ b ∷ c ∷ d ∷ rest) h =
    let n : ℕ = bit_or (bit_or (a * 2 ^ 16) (b * 2 ^ 8)) c in
    let body : Buffer = d ∷ rest in
    let more : ltb (offset + 3) (length buf) ≡ true = ground (arith, length-At h) in
    let behind : At buf (offset + 3) body = At-skip (a ∷ b ∷ c ∷ []) h in
    rw (more, read_uint24-bytes a b c h)
      (one_frame rt fuel offset n body behind (omega arith)
        (frames_from-frames_of rt fuel (offset + 3 + n) (drop n body) (At-drop n behind)))

-- `deserializeFrames` yields the frames of the buffer, split by split.
pub deserialize_frames-frames_of :
    (rt : Runtime) (buf : Buffer)
    → deserialize_frames rt buf ≡ frames_of rt (suc (length buf)) buf 0
unfolding deserialize_frames
deserialize_frames-frames_of rt buf =
    frames_from-frames_of rt (suc (length buf)) 0 buf (record { found = refl })
