-- ===== src/Streams/RequesterSafety.antt =====
-- What the requesting side of a stream may do, as a monitor, and the events that it meets.
pub mod Operations
pub mod Ready
pub mod Runs
use rsocket_js.Common.{
  ℕ, suc, Bool, true, false, if◌then◌else◌, Option, none, some, List, [], ◌∷◌, ◌≡◌, refl, arith,
  Bool-cases, inl, inr,
}
use rsocket_js.Node.{ℤ, pos, BufferRef}
use rsocket_js.Errors.{RSocketError}
use rsocket_js.Frames.{Frame, stream_id_of}
use rsocket_js.Multiplexer.{same}
use rsocket_js.Streams.{
  Action, connect, disconnect, send, accept, on_next, on_complete, on_error, cancel_request, Step,
  step,
}
use rsocket_js.Streams.Traces.{watch}
use rsocket_js.Streams.Requester
use rsocket_js.Streams.Requester.{Requester}

-- Before it is connected; connected under an id; disconnected and about to tell its receiver; with the
-- receiver told first; when all is told; and cancelled.
pub data Phase : Type 0 where
  waiting : Phase
  active : ℤ → Phase
  leaving : Phase
  closing : ℤ → Phase
  ended cancelled : Phase

-- Frames carry the id of the stream; behind CANCEL there is none.
abbrev pub observe_send : Frame → ℤ → Option Phase
observe_send (Frame.cancel f) id = if same f.stream_id id then some Phase.cancelled else none
observe_send frame id = if same (stream_id_of frame) id then some (Phase.active id) else none

abbrev pub observe_last : Phase → Option Phase
observe_last Phase.waiting = some Phase.ended
observe_last (Phase.active id) = some (Phase.closing id)
observe_last Phase.leaving = some Phase.ended
observe_last _ = none

abbrev pub observe_signal : Phase → Option Phase
observe_signal (Phase.active id) = some (Phase.active id)
observe_signal _ = none

-- Behind the last signal to the receiver there is no signal, and no frame but one CANCEL; behind CANCEL
-- there is neither.
abbrev pub observe : Action → Phase → Option Phase
observe (connect id) Phase.waiting = some (Phase.active id)
observe disconnect (Phase.active id) = some Phase.leaving
observe disconnect Phase.cancelled = some Phase.cancelled
observe (send frame) (Phase.active id) = observe_send frame id
observe (send (Frame.cancel f)) (Phase.closing id) =
    if same f.stream_id id then some Phase.cancelled else none
observe cancel_request Phase.waiting = some Phase.cancelled
observe on_complete phase = observe_last phase
observe (on_error e) phase = observe_last phase
observe (on_next payload true) Phase.leaving = some Phase.ended
observe (on_next payload false) phase = observe_signal phase
observe (Action.on_extension type content ignored) phase = observe_signal phase
observe _ _ = none

-- Whether the connection passes frames on to the stream.
abbrev pub link_by : Action → Bool → Bool
link_by (connect id) connected = true
link_by disconnect connected = false
link_by _ connected = connected

abbrev pub link : List Action → Bool → Bool
link [] connected = connected
link (action ∷ actions) connected = link actions (link_by action connected)

-- Between the events of a stream whose connection has not closed it. Only that leaves a stream `closing`.
abbrev pub Agrees : Requester → Bool → Phase → Type 0
Agrees s connected Phase.waiting = (connected ≡ false) × (s.stream_id ≡ none)
Agrees s connected (Phase.active id) = (s.done ≡ false) × (s.stream_id ≡ some id)
Agrees s connected (Phase.closing id) = ⊥
Agrees s connected _ = (connected ≡ false) × (s.done ≡ true)

pub record Fits (result : Step Requester) (connected : Bool) (phase : Phase) : Type 0 where
  pub after : Phase
  pub watched : watch observe result.actions phase ≡ some after
  pub agrees : Agrees result.stream (link result.actions connected) after

pub same_refl : (id : ℤ) → same id id ≡ true
same_refl (pos n) = ground arith
same_refl _ = ground arith

-- The events that a requesting stream meets. The multiplexer gives it an id or rejects it, once; it passes
-- frames on while the stream is connected; when the connection closes, it closes the stream, which stays
-- connected. The others are calls of the application.
pub data Event : Type 0 where
  ready : ℤ → Event
  reject : RSocketError → Event
  frame : Frame → Event
  request : ℤ → Event
  cancel : Event
  extension : ℕ → BufferRef → Bool → Event
  close : Option RSocketError → Event

abbrev pub NotFrame : Event → Type 0
NotFrame (frame f) = ⊥
NotFrame _ = Unit {0}

abbrev pub NoFrame : List Event → Type 0
NoFrame [] = Unit {0}
NoFrame (e ∷ events) = NotFrame e × NoFrame events

-- No frame is passed on behind the closing. The multiplexer does pass frames on there, those of a chunk of
-- which an earlier frame closed the connection.
abbrev pub NoFrameBehindClose : List Event → Type 0
NoFrameBehindClose [] = Unit {0}
NoFrameBehindClose (close e ∷ events) = NoFrame events
NoFrameBehindClose (_ ∷ events) = NoFrameBehindClose events

pub record Linked : Type 0 where
  pub requester : Requester
  pub connected : Bool

-- A stream that its connection has closed is done; it may be connected.
abbrev pub AgreesLinked : Linked → Phase → Type 0
AgreesLinked t (Phase.closing id) = t.requester.done ≡ true
AgreesLinked t phase = Agrees t.requester t.connected phase

abbrev pub lift : Bool → Step Requester → Step Linked
lift connected result = record {
  stream = record { requester = result.stream; connected = link result.actions connected };
  actions = result.actions;
  ending = result.ending;
}

-- A class of requesting streams: what differs between them.
pub record RequesterClass : Type 0 where
  -- Whether it has `request`.
  pub has_request : Bool
  pub handle_ready : ℤ → Requester → Bool × Step Requester
  pub handle : Frame → Requester → Step Requester

module _ (c : RequesterClass) where
  -- A stream that has an id is neither rejected nor given another one.
  abbrev pub given_id : Option ℤ → Step Linked → Linked → Step Linked
  given_id none result t = result
  given_id (some id) result t = step t []

  unfoldable pub perform : Event → Linked → Step Linked
  perform (ready id) t =
      given_id t.requester.stream_id (lift t.connected (c.handle_ready id t.requester).1) t
  perform (reject e) t =
      given_id t.requester.stream_id (lift t.connected (Requester.handle_reject e t.requester)) t
  perform (frame f) t = elim t.connected [
    | true ↦ lift t.connected (c.handle f t.requester)
    | false ↦ step t []
  ]
  perform (request n) t = elim c.has_request [
    | true ↦ lift t.connected (Requester.request n t.requester)
    | false ↦ step t []
  ]
  perform cancel t = lift t.connected (Requester.cancel t.requester)
  perform (extension type content ignored) t =
      lift t.connected (Requester.on_extension type content ignored t.requester)
  perform (close e) t = lift t.connected (Requester.close e t.requester)
