-- ===== src/Streams.antt =====
-- packages/rsocket-core/src: what the streams of the four interactions have in common. An operation of a
-- stream gives the stream after it, what it did on the way, and how it ended. What it calls of others,
-- the connection's or the application's, is such an action.
pub mod Traces
pub mod Requester
pub mod RequesterSafety
pub mod Responder
pub mod ResponderSafety
use rsocket_js.Common.{ℕ, suc, ◌+◌, Bool, Option, List, [], ◌∷◌, ◌++◌, length}
use rsocket_js.Node.{ℤ, BufferRef, Error, byte_length}
use rsocket_js.Errors.{RSocketError, text, digits_of}
use rsocket_js.Frames.{Frame, FrameType, frame_type, type_code}
use rsocket_js.Codecs.{Yields, finished, stuck, failed, yield}
use rsocket_js.Reassembler.{Payload}

-- `connect`, `disconnect` and `send` are the connection's, `cancel_request` the lease manager's,
-- `accept` calls the responder's handler, and the others are the receiver's.
pub data Action : Type 0 where
  connect : ℤ → Action
  disconnect : Action
  send : Frame → Action
  accept : Payload → Option ℤ → Action
  on_next : Payload → Bool → Action
  on_complete : Action
  on_error : RSocketError → Action
  on_extension : ℕ → BufferRef → Bool → Action
  request : ℤ → Action
  cancel : Action
  cancel_request : Action

-- An operation that does not end is one that sends fragments for ever.
pub data Ending : Type 0 where
  returned : Ending
  threw : Error → Ending
  endless : Ending

pub record Step (S : Type 0) : Type 0 where
  pub stream : S
  pub actions : List Action
  pub ending : Ending

abbrev pub step : {S : Type 0} → S → List Action → Step S
step stream actions = record { stream = stream; actions = actions; ending = Ending.returned }

abbrev pub prepend : {S : Type 0} → Action → Step S → Step S
prepend action s = record s { actions = action ∷ s.actions }

-- An operation that goes on with another; what threw does not go on.
abbrev pub and_then : {S : Type 0} → Step S → (S → Step S) → Step S
and_then s more = elim s.ending [
  | Ending.returned ↦
      let s' = more s.stream in
      record { stream = s'.stream; actions = s.actions ++ s'.actions; ending = s'.ending }
  | _ ↦ s
]

-- `for (const frame of frames) stream.send(frame)`
unfoldable pub send_all : {S : Type 0} → Yields Frame → S → Step S
send_all finished stream = step stream []
send_all stuck stream = record { stream = stream; actions = []; ending = Ending.endless }
send_all (failed e) stream = record { stream = stream; actions = []; ending = Ending.threw e }
send_all (yield frame rest) stream = prepend (send frame) (send_all rest stream)

-- Enough rounds for the loops of the fragmenter, whose fragments take a byte at least.
abbrev pub fuel_for : Payload → ℕ
fuel_for p = suc (byte_length p.data_ref + byte_length p.metadata)

unfoldable pub unexpected_frame_type : Frame → List ℕ
unexpected_frame_type frame =
    text "Unexpected frame type [" ++ digits_of (type_code (frame_type frame)) ++ text "]"

unfoldable pub unexpected_during_reassembly : Frame → List ℕ
unexpected_during_reassembly frame = unexpected_frame_type frame ++ text " during reassembly"
