-- ===== src/Resume.antt =====
-- packages/rsocket-core/src/Resume.ts: the frames that were sent and may have to be sent again, and the
-- positions of both directions, which count the bytes of frames.
pub mod Link
pub mod Sizes
pub mod Delivery
use rsocket_js.Common.{
  ℕ, zero, ◌+◌, ltb, ◌==◌, Bool, true, false, Option, none, some, List, [], ◌∷◌, ◌++◌,
  if◌then◌else◌,
}
use rsocket_js.Node.{ℤ, pos, Runtime}
use rsocket_js.Node.Signed.{minus, equals}
use rsocket_js.Errors.{ErrorCodes, error_code}
use rsocket_js.Frames.{Frame}
use rsocket_js.Codecs.{size_of_frame}

-- A position is `none` where it is NaN: `sizeOfFrame` returns undefined for an EXT frame.
pub record FrameStore : Type 0 where
  pub stored_frames : List Frame
  pub last_received_frame_position : Option ℕ
  pub first_available_frame_position : ℕ
  pub last_sent_frame_position : Option ℕ

abbrev pub new_frame_store : FrameStore
new_frame_store = record {
  stored_frames = [];
  last_received_frame_position = some 0;
  first_available_frame_position = 0;
  last_sent_frame_position = some 0;
}

-- What is thrown, with the two numbers of its message.
pub record Inconsistency : Type 0 where
  pub code : ℤ
  pub expected : ℤ
  pub actual : Option ℤ

abbrev pub plus_size : Option ℕ → Option ℕ → Option ℕ
plus_size (some n) (some size) = some (n + size)
plus_size _ _ = none

abbrev pub minus_size : ℤ → Option ℕ → Option ℤ
minus_size z (some size) = some (minus z size)
minus_size z none = none

abbrev pub is_positive : ℤ → Bool
is_positive (pos n) = ltb 0 n
is_positive _ = false

module _ (rt : Runtime) where
  unfoldable pub store : Frame → FrameStore → FrameStore
  store frame s = record s {
    last_sent_frame_position = plus_size s.last_sent_frame_position (size_of_frame rt frame);
    stored_frames = s.stored_frames ++ frame ∷ [];
  }

  unfoldable pub record_frame : Frame → FrameStore → FrameStore
  record_frame frame s = record s {
    last_received_frame_position =
        plus_size s.last_received_frame_position (size_of_frame rt frame);
  }

  -- `while (bytesToDrop > 0 && this.storedFrames.length > 0)`; NaN is not above 0.
  unfoldable pub drop_frames : Option ℤ → List Frame → Option ℤ × List Frame
  drop_frames none frames = (none, frames)
  drop_frames (some bytes) [] = (some bytes, [])
  drop_frames (some bytes) (frame ∷ frames) =
      if is_positive bytes
      then drop_frames (minus_size bytes (size_of_frame rt frame)) frames
      else (some bytes, frame ∷ frames)

  abbrev pub after_drop :
      ℕ → ℤ → FrameStore → Option ℤ × List Frame → FrameStore × Option Inconsistency
  after_drop position bytes s (some (pos zero), frames) =
      (record s { stored_frames = frames; first_available_frame_position = position }, none)
  after_drop position bytes s (rest, frames) = (
    record s { stored_frames = frames },
    some
        (record { code = error_code ErrorCodes.connection_error; expected = bytes; actual = rest }),
  )

  -- The frames are gone also where it throws.
  unfoldable pub drop_to : ℕ → FrameStore → FrameStore × Option Inconsistency
  drop_to position s =
      let bytes = minus (pos position) s.first_available_frame_position in
      after_drop position bytes s (drop_frames (some bytes) s.stored_frames)

-- The frames that are given to the consumer.
unfoldable pub drain : FrameStore → List Frame
drain s = s.stored_frames
