-- ===== src/Resume/Delivery.antt =====
-- packages/rsocket-core/src/Resume.ts: what a link keeps while frames come and go.
use rsocket_js.Common.{
  ◌+◌, ◌≡◌, refl, ap, sym, ◌∙◌, arith, ◌&&◌, true, some, List, [], ◌∷◌, ◌++◌, append_assoc,
  append-nil,
}
use mathlib.Core.Path.{subst}
use rsocket_js.Node.{Runtime}
use rsocket_js.Frames.{Frame}
use rsocket_js.Resume.{FrameStore, store, record_frame, drain}
use rsocket_js.Resume.Sizes.{IsSized, AllSized, total, AllSized-append, drop_to-untold, recorded}
use rsocket_js.Resume.Link.{
  Link, arrived, dropped, judged, new_link, Event, transmit, arrive, acknowledge, resume, happen,
  happen_all, transmitted,
}

module _ (rt : Runtime) where
  -- What holds of a link at all times: the sender has kept the frames that the receiver has and has not
  -- told of, and behind them those that are on their way.
  record Whole (l : Link) (sent : List Frame) : Type 0 where
    untold : List Frame
    stored : l.sender.stored_frames ≡ untold ++ l.flight
    all_sized : AllSized rt untold
    flight_sized : AllSized rt l.flight
    position :
        l.receiver.last_received_frame_position
        ≡ some (l.sender.first_available_frame_position + total rt untold)
    log : l.received ++ l.flight ≡ sent
    fine : l.consistent ≡ true

  abbrev pub IsSizedEvent : Event → Type 0
  IsSizedEvent (transmit frame) = IsSized rt frame
  IsSizedEvent _ = Unit {0}

  abbrev pub AllSizedEvents : List Event → Type 0
  AllSizedEvents [] = Unit {0}
  AllSizedEvents (e ∷ events) = IsSizedEvent e × AllSizedEvents events

  transmit-Whole :
      (frame : Frame) (l : Link) (sent : List Frame)
      → IsSized rt frame
      → Whole l sent
      → Whole (happen rt (transmit frame) l) (sent ++ frame ∷ [])
  unfolding happen store
  transmit-Whole frame l sent h w = record {
    untold = w.untold;
    stored = ap (λ fs. fs ++ frame ∷ []) w.stored ∙ append_assoc w.untold l.flight (frame ∷ []);
    all_sized = w.all_sized;
    flight_sized = AllSized-append rt l.flight (frame ∷ []) w.flight_sized (h, tt);
    position = w.position;
    log = sym (append_assoc l.received l.flight (frame ∷ [])) ∙ ap (λ fs. fs ++ frame ∷ []) w.log;
    fine = w.fine;
  }

  arrive-Whole :
      (l : Link) (sent flight : List Frame)
      → l.flight ≡ flight
      → Whole l sent
      → Whole (arrived rt flight l) sent
  unfolding record_frame
  arrive-Whole l sent [] e w = w
  arrive-Whole l sent (frame ∷ frames) e w =
      let (hf, hs) = subst (AllSized rt) e w.flight_sized in
      record {
        untold = w.untold ++ frame ∷ [];
        stored =
            w.stored
            ∙ ap (λ fs. w.untold ++ fs) e
            ∙ sym (append_assoc w.untold (frame ∷ []) frames);
        all_sized = AllSized-append rt w.untold (frame ∷ []) w.all_sized (hf, tt);
        flight_sized = hs;
        position =
            recorded rt frame w.untold l.receiver.last_received_frame_position
              l.sender.first_available_frame_position hf w.position;
        log =
            append_assoc l.received (frame ∷ []) frames
            ∙ ap (λ fs. l.received ++ fs) (sym e)
            ∙ w.log;
        fine = w.fine;
      }

  -- The store once the receiver has told its position.
  told : Link → List Frame → FrameStore
  told l untold = record (l.sender) {
    stored_frames = l.flight;
    first_available_frame_position = l.sender.first_available_frame_position + total rt untold;
  }

  dropped-Whole :
      (l : Link) (sent : List Frame) (w : Whole l sent)
      → dropped rt l.receiver.last_received_frame_position l.sender ≡ (told l w.untold, true)
  unfolding told
  dropped-Whole l sent w =
      ap (λ p. dropped rt p l.sender) w.position
      ∙ ap judged (drop_to-untold rt l.sender w.untold l.flight w.stored w.all_sized)

  told-Whole :
      (l : Link) (sent : List Frame) (w : Whole l sent)
      → Whole (record l { sender = told l w.untold; consistent = l.consistent && true }) sent
  unfolding told total
  told-Whole l sent w = record {
    untold = [];
    stored = refl;
    all_sized = tt;
    flight_sized = w.flight_sized;
    position = w.position ∙ ap some (omega arith);
    log = w.log;
    fine = ap (λ b. b && true) w.fine;
  }

  acknowledge-Whole :
      (l : Link) (sent : List Frame) → Whole l sent → Whole (happen rt acknowledge l) sent
  unfolding happen
  acknowledge-Whole l sent w =
      subst (λ r. Whole (record l { sender = r.0; consistent = l.consistent && r.1 }) sent)
        (sym (dropped-Whole l sent w)) (told-Whole l sent w)

  resume-Whole : (l : Link) (sent : List Frame) → Whole l sent → Whole (happen rt resume l) sent
  unfolding happen told drain
  resume-Whole l sent w =
      subst
        (λ r.
          Whole (record l { sender = r.0; flight = drain r.0; consistent = l.consistent && r.1 })
            sent)
        (sym (dropped-Whole l sent w)) (told-Whole l sent w)

  happen-Whole :
      (e : Event) (l : Link) (sent : List Frame)
      → IsSizedEvent e
      → Whole l sent
      → Whole (happen rt e l) (sent ++ transmitted (e ∷ []))
  unfolding happen
  happen-Whole (transmit frame) l sent h w = transmit-Whole frame l sent h w
  happen-Whole arrive l sent h w =
      subst (Whole (happen rt arrive l)) (sym (append-nil sent))
        (arrive-Whole l sent l.flight refl w)
  happen-Whole acknowledge l sent h w =
      subst (Whole (happen rt acknowledge l)) (sym (append-nil sent)) (acknowledge-Whole l sent w)
  happen-Whole resume l sent h w =
      subst (Whole (happen rt resume l)) (sym (append-nil sent)) (resume-Whole l sent w)

  transmitted-cons :
      (e : Event) (events : List Event)
      → transmitted (e ∷ []) ++ transmitted events ≡ transmitted (e ∷ events)
  transmitted-cons (transmit frame) events = refl
  transmitted-cons arrive events = refl
  transmitted-cons acknowledge events = refl
  transmitted-cons resume events = refl

  happen_all-Whole :
      (events : List Event) (l : Link) (sent : List Frame)
      → AllSizedEvents events
      → Whole l sent
      → Whole (happen_all rt events l) (sent ++ transmitted events)
  unfolding happen_all
  happen_all-Whole [] l sent h w = subst (Whole l) (sym (append-nil sent)) w
  happen_all-Whole (e ∷ events) l sent (he, hs) w =
      subst (Whole (happen_all rt events (happen rt e l)))
        (append_assoc sent (transmitted (e ∷ [])) (transmitted events)
          ∙ ap (λ fs. sent ++ fs) (transmitted-cons e events))
        (happen_all-Whole events (happen rt e l) (sent ++ transmitted (e ∷ [])) hs
          (happen-Whole e l sent he w))

  new_link-Whole : Whole new_link []
  unfolding total
  new_link-Whole = record {
    untold = [];
    stored = refl;
    all_sized = tt;
    flight_sized = tt;
    position = refl;
    log = refl;
    fine = refl;
  }

  -- Over a link on which frames of known sizes are sent, arrive, are acknowledged, and are lost with the
  -- connection and sent again when it is resumed, in any order, the frames that were received, and behind
  -- them those that are on their way, are at all times those that were transmitted, each once and in
  -- their order; and no dropping of frames throws.
  pub happen_all-transmitted :
      (events : List Event)
      → AllSizedEvents events
      → let l = happen_all rt events new_link in
        (l.received ++ l.flight ≡ transmitted events) × (l.consistent ≡ true)
  happen_all-transmitted events h =
      let w = happen_all-Whole events new_link [] h new_link-Whole in (w.log, w.fine)

  abbrev pub arrivals : List Frame → List Event
  arrivals [] = []
  arrivals (frame ∷ frames) = arrive ∷ arrivals frames

  all_arrive :
      (flight : List Frame) (l : Link)
      → l.flight ≡ flight
      → (happen_all rt (arrivals flight) l).received ≡ l.received ++ flight
  unfolding happen_all happen
  all_arrive [] l e = sym (append-nil l.received)
  all_arrive (frame ∷ frames) l e =
      ap (λ f. (happen_all rt (arrivals frames) (arrived rt f l)).received) e
      ∙ all_arrive frames (arrived rt (frame ∷ frames) l) refl
      ∙ append_assoc l.received (frame ∷ []) frames

  -- Whatever has happened on a link with frames of known sizes, once it is resumed, and what is on its way
  -- then arrives, the receiver has received all that was transmitted, each frame once and in order.
  pub resume-transmitted :
      (events : List Event)
      → AllSizedEvents events
      → let l = happen rt resume (happen_all rt events new_link) in
        (happen_all rt (arrivals l.flight) l).received ≡ transmitted events
  resume-transmitted events h =
      let before = happen_all rt events new_link in
      let l = happen rt resume before in
      let w =
        resume-Whole before (transmitted events)
          (happen_all-Whole events new_link [] h new_link-Whole) in
      all_arrive l.flight l refl ∙ w.log
