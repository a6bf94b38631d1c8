-- ===== src/Streams/ResponderSafety.antt =====
-- What the responding side of a stream may do, as a monitor, and the events that it meets.
pub mod Calls
pub mod Frames
pub mod Runs
use rsocket_js.Common.{
  ℕ, Bool, true, false, if◌then◌else◌, Option, none, some, List, [], ◌∷◌, ◌≡◌, ◌++◌,
}
use rsocket_js.Node.{ℤ}
use rsocket_js.Errors.{RSocketError}
use rsocket_js.Frames.{Frame, stream_id_of}
use rsocket_js.Fragmenter.Marks.{is_last}
use rsocket_js.Multiplexer.{same}
use rsocket_js.Reassembler.{Payload}
use rsocket_js.Streams.{Action, connect, disconnect, send, accept, Step, step, Ending}
use rsocket_js.Streams.Traces.{watch, Live, continued, run}
use rsocket_js.Streams.RequesterSafety.{link}
use rsocket_js.Streams.Responder
use rsocket_js.Streams.Responder.{Responder, HandlerRun, Call, perform_call}

-- Before it is connected; connected under an id; with its last frame sent; and disconnected.
pub data Phase : Type 0 where
  unserved : Phase
  serving : ℤ → Phase
  last_sent : Phase
  ended : Phase

abbrev pub after_send : Bool → ℤ → Phase
after_send true id = Phase.last_sent
after_send false id = Phase.serving id

-- Frames carry the id of the stream. Behind one that is complete, or an ERROR, the stream only
-- disconnects; behind that it does nothing.
abbrev pub observe : Action → Phase → Option Phase
observe (connect id) Phase.unserved = some (Phase.serving id)
observe (send frame) (Phase.serving id) =
    if same (stream_id_of frame) id then some (after_send (is_last frame) id) else none
observe disconnect (Phase.serving id) = some Phase.ended
observe disconnect Phase.last_sent = some Phase.ended
observe (accept p n) (Phase.serving id) = some (Phase.serving id)
observe (Action.request n) (Phase.serving id) = some (Phase.serving id)
observe (Action.on_extension type content ignored) (Phase.serving id) = some (Phase.serving id)
observe Action.cancel (Phase.serving id) = some (Phase.serving id)
observe _ _ = none

abbrev pub Agrees : Responder → Bool → Phase → Type 0
Agrees s connected (Phase.serving id) = s.stream_id ≡ id
Agrees s connected Phase.ended = (s.done ≡ true) × (connected ≡ false)
Agrees s connected _ = ⊥

pub record Fits (result : Step Responder) (connected : Bool) (phase : Phase) : Type 0 where
  pub after : Phase
  pub watched : watch observe result.actions phase ≡ some after
  pub agrees : Live result.ending (Agrees result.stream (link result.actions connected) after)

-- The events that a responding stream meets. The multiplexer passes frames on while the stream is
-- connected; when the connection closes, it closes the stream, which stays connected. The others are calls
-- of the application. With a frame comes what the handler would do.
pub data Event : Type 0 where
  frame : Frame → HandlerRun → Event
  call : Call → Event
  close : Option RSocketError → Event

pub record Linked : Type 0 where
  pub responder : Responder
  pub connected : Bool

abbrev pub lift : Bool → Step Responder → Step Linked
lift connected result = record {
  stream = record { responder = result.stream; connected = link result.actions connected };
  actions = result.actions;
  ending = result.ending;
}

-- A class of responding streams: what differs between them.
pub record ResponderClass : Type 0 where
  pub on_next : Payload → Bool → Responder → Step Responder
  pub handle : Frame → HandlerRun → Responder → Step Responder

module _ (k : ResponderClass) where
  unfoldable pub perform : Event → Linked → Step Linked
  perform (frame f handler) t = elim t.connected [
    | true ↦ lift t.connected (k.handle f handler t.responder)
    | false ↦ step t []
  ]
  perform (call c) t = lift t.connected (perform_call k.on_next c t.responder)
  perform (close e) t = lift t.connected (Responder.close e t.responder)

  -- The stream is made, and then meets the events.
  unfoldable pub serve : Step Responder → List Event → Step Linked
  serve made events =
      let first = lift false made in continued first.ending first (run perform events first.stream)
