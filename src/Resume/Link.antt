-- ===== src/Resume/Link.antt =====
-- Two peers and the frames between them, with the stores of packages/rsocket-core/src/Resume.ts.
use rsocket_js.Common.{ℕ, Bool, ◌&&◌, true, false, Option, none, some, List, [], ◌∷◌, ◌++◌}
use rsocket_js.Node.{Runtime}
use rsocket_js.Frames.{Frame}
use rsocket_js.Resume.{
  FrameStore, new_frame_store, Inconsistency, store, record_frame, drop_to, drain,
}

-- One direction: the sender's store, the receiver's, the frames on their way, those that were received in
-- their order, and whether no dropping has thrown.
pub record Link : Type 0 where
  pub sender : FrameStore
  pub receiver : FrameStore
  pub flight : List Frame
  pub received : List Frame
  pub consistent : Bool

abbrev pub new_link : Link
new_link = record {
  sender = new_frame_store;
  receiver = new_frame_store;
  flight = [];
  received = [];
  consistent = true;
}

-- The sender sends a frame; the next frame arrives; the sender learns the receiver's position; the
-- connection is lost with the frames on it, and resumed: the sender learns the receiver's position and
-- sends what it has left.
pub data Event : Type 0 where
  transmit : Frame → Event
  arrive acknowledge resume : Event

abbrev pub judged : FrameStore × Option Inconsistency → FrameStore × Bool
judged (sender, none) = (sender, true)
judged (sender, some e) = (sender, false)

-- A position that is NaN is none that a peer can tell.
abbrev pub dropped : Runtime → Option ℕ → FrameStore → FrameStore × Bool
dropped rt none sender = (sender, false)
dropped rt (some position) sender = judged (drop_to rt position sender)

module _ (rt : Runtime) where
  abbrev pub arrived : List Frame → Link → Link
  arrived [] l = l
  arrived (frame ∷ frames) l = record l {
    receiver = record_frame rt frame l.receiver;
    flight = frames;
    received = l.received ++ frame ∷ [];
  }

  unfoldable pub happen : Event → Link → Link
  happen (transmit frame) l = record l {
    sender = store rt frame l.sender;
    flight = l.flight ++ frame ∷ [];
  }
  happen arrive l = arrived l.flight l
  happen acknowledge l =
      let (sender', fine) = dropped rt l.receiver.last_received_frame_position l.sender in
      record l { sender = sender'; consistent = l.consistent && fine }
  happen resume l =
      let (sender', fine) = dropped rt l.receiver.last_received_frame_position l.sender in
      record l { sender = sender'; flight = drain sender'; consistent = l.consistent && fine }

  unfoldable pub happen_all : List Event → Link → Link
  happen_all [] l = l
  happen_all (e ∷ events) l = happen_all events (happen e l)

-- All frames that the sender sends for the first time.
abbrev pub transmitted : List Event → List Frame
transmitted [] = []
transmitted (transmit frame ∷ events) = frame ∷ transmitted events
transmitted (_ ∷ events) = transmitted events
