-- ===== src/Streams/ResponderSafety/Runs.antt =====
-- packages/rsocket-core/src: runs of the responding streams, and the laws that a class of them has to keep.
use rsocket_js.Common.{Bool, true, false, List, [], ◌≡◌, refl, sym}
use mathlib.Core.Path.{subst}
use rsocket_js.Frames.{Frame}
use rsocket_js.Reassembler.{Payload}
use rsocket_js.Streams.{Step, step}
use rsocket_js.Streams.Traces.{Accepted, continued-Accepted, run, run-Accepted}
use rsocket_js.Streams.Responder
use rsocket_js.Streams.Responder.{Responder, HandlerRun}
use rsocket_js.Streams.ResponderSafety.{
  Phase, observe, Agrees, Fits, Event, frame, call, close, Linked, lift, ResponderClass, perform,
  serve,
}
use rsocket_js.Streams.ResponderSafety.Frames.{call-Fits, close-serving, done-close}

abbrev pub AgreesLinked : Linked → Phase → Type 0
AgreesLinked t phase = Agrees t.responder t.connected phase

-- What a class has to show for its own operations.
pub record ResponderLaws (k : ResponderClass) : Type 0 where
  pub next_serving :
      (p : Payload) (b : Bool) (s : Responder) (c : Bool)
      → Fits (k.on_next p b s) c (Phase.serving s.stream_id)
  pub next_done :
      (p : Payload) (b : Bool) (s : Responder) → s.done ≡ true → k.on_next p b s ≡ step s []
  pub handle_serving :
      (f : Frame) (handler : HandlerRun) (s : Responder)
      → Fits (k.handle f handler s) true (Phase.serving s.stream_id)

module _ (k : ResponderClass) (laws : ResponderLaws k) where
  abbrev Keeps : Step Linked → Phase → Type 0
  Keeps result phase = Accepted (perform k) observe AgreesLinked result phase

  lifted :
      {connected : Bool} {result : Step Responder} {phase : Phase}
      → Fits result connected phase
      → Keeps (lift connected result) phase
  lifted f = record { after = f.after; watched = f.watched; agrees = f.agrees }

  event-Keeps :
      (e : Event) (s : Responder) (connected : Bool) (phase : Phase)
      → Agrees s connected phase
      → Keeps (perform k e (record { responder = s; connected = connected })) phase
  unfolding perform
  event-Keeps (frame f handler) s true (Phase.serving id) h =
      subst (λ i. Keeps (lift true (k.handle f handler s)) (Phase.serving i)) h
        (lifted (laws.handle_serving f handler s))
  event-Keeps (frame f handler) s true Phase.ended (hd, hc) = absurd cc
  event-Keeps (frame f handler) s true Phase.unserved h = elim h [ ]
  event-Keeps (frame f handler) s true Phase.last_sent h = elim h [ ]
  event-Keeps (frame f handler) s false phase h = record {
    after = phase;
    watched = refl;
    agrees = h;
  }
  event-Keeps (call c) s connected phase h =
      lifted (call-Fits k.on_next laws.next_serving laws.next_done c s connected phase h)
  event-Keeps (close e) s connected (Phase.serving id) h =
      subst (λ i. Keeps (lift connected (Responder.close e s)) (Phase.serving i)) h
        (lifted (close-serving e s connected))
  event-Keeps (close e) s connected Phase.ended (hd, hc) =
      subst (λ r. Keeps (lift connected r) Phase.ended) (sym (done-close e s hd))
        (record { after = Phase.ended; watched = refl; agrees = (hd, hc) })
  event-Keeps (close e) s connected Phase.unserved h = elim h [ ]
  event-Keeps (close e) s connected Phase.last_sent h = elim h [ ]

  -- Whatever happens to a stream that was made as the monitor allows, the monitor accepts it.
  pub serve-Accepted :
      (made : Step Responder) (events : List Event)
      → Fits made false Phase.unserved
      → Accepted (perform k) observe AgreesLinked (serve k made events) Phase.unserved
  unfolding serve
  serve-Accepted made events f =
      let first = lift false made in
      continued-Accepted (perform k) observe AgreesLinked AgreesLinked first.stream first.actions
        first.ending (run (perform k) events) (lifted f)
        (λ after agrees.
          run-Accepted (perform k) observe AgreesLinked
            (λ e t phase h. event-Keeps e t.responder t.connected phase h) events first.stream after
            agrees)
