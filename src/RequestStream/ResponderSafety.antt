-- ===== src/RequestStream/ResponderSafety.antt =====
-- packages/rsocket-core/src/RequestStreamStream.ts: what a RequestStreamResponderStream sends, over whole
-- runs.
use rsocket_js.Common.{ℕ, Bool, true, false, some, List, [], ◌∷◌, refl, ◌||◌, not, if◌then◌else◌}
use rsocket_js.Frames.{Frame, RequestStreamFrame}
use rsocket_js.Frames.Flags
use rsocket_js.Streams.{connect, unexpected_frame_type, unexpected_during_reassembly}
use rsocket_js.Streams.Traces.{Accepted}
use rsocket_js.Streams.Responder
use rsocket_js.Streams.Responder.{Responder, HandlerRun, new_responder, hold, start}
use rsocket_js.Streams.ResponderSafety.{Phase, observe, Fits, Event, ResponderClass, perform, serve}
use rsocket_js.Streams.ResponderSafety.Calls.{joined-Fits, on_next-serving}
use rsocket_js.Streams.ResponderSafety.Frames.{
  hold-serving, refuse-serving, start-serving, handle_fragment-serving, done-on_next,
}
use rsocket_js.Streams.ResponderSafety.Runs.{AgreesLinked, ResponderLaws, serve-Accepted}
use rsocket_js.RequestStream.Responder.{construct, handle_request, handle_rest, handle}

handle_request-serving :
    (f : Frame) (handler : HandlerRun) (s : Responder)
    → Fits (handle_request f handler s) true (Phase.serving s.stream_id)
unfolding handle_request
handle_request-serving (Frame.payload f) handler s =
    handle_fragment-serving Responder.on_next on_next-serving done-on_next f handler s true
handle_request-serving f handler s = refuse-serving f (unexpected_during_reassembly f) s true

handle_rest-serving :
    (f : Frame) (s : Responder) → Fits (handle_rest f s) true (Phase.serving s.stream_id)
unfolding handle_rest
handle_rest-serving (Frame.request_n f) s = record {
  after = Phase.serving s.stream_id;
  watched = refl;
  agrees = refl;
}
handle_rest-serving (Frame.ext f) s = record {
  after = Phase.serving s.stream_id;
  watched = refl;
  agrees = refl;
}
handle_rest-serving f s = refuse-serving f (unexpected_frame_type f) s true

handle-serving :
    (f : Frame) (handler : HandlerRun) (s : Responder)
    → Fits (handle f handler s) true (Phase.serving s.stream_id)
unfolding handle
handle-serving f handler s = go (not s.receiver || s.holder.has_fragments)
  where
    go :
        (requesting : Bool)
        → Fits
            (if requesting then handle_request f handler s else handle_rest f s)
            true
            (Phase.serving s.stream_id)
    go true = handle_request-serving f handler s
    go false = handle_rest-serving f s

construct-Fits :
    (size : ℕ) (f : RequestStreamFrame) (handler : HandlerRun)
    → Fits (construct size f handler) false Phase.unserved
unfolding construct
construct-Fits size f handler =
    joined-Fits (connect f.stream_id ∷ []) _ false (Phase.serving f.stream_id) refl
      (go (Flags.has_follows f.flags))
  where
    go :
        (follows : Bool)
        → Fits
            (elim follows [
              | true ↦
                  hold f.data_ref f.metadata (record (new_responder f.stream_id size) {
                    initial_request_n = some f.request_n;
                  })
              | false ↦
                  start Responder.on_next
                    (some f.request_n)
                    (record { data_ref = f.data_ref; metadata = f.metadata })
                    handler
                    (new_responder f.stream_id size)
            ])
            true
            (Phase.serving f.stream_id)
    go true = hold-serving f.data_ref f.metadata _ true
    go false =
        start-serving Responder.on_next on_next-serving done-on_next _ _ handler
          (new_responder f.stream_id size) true

abbrev pub stream_responder : ResponderClass
stream_responder = record { on_next = Responder.on_next; handle = handle }

stream_responder-Laws : ResponderLaws stream_responder
stream_responder-Laws = record {
  next_serving = on_next-serving;
  next_done = done-on_next;
  handle_serving = handle-serving;
}

-- From the frame of the request on, whatever the handler does when it is called, and over any sequence of
-- frames, calls of the application and closing, the frames that a responder sends carry the stream's id;
-- behind a frame that is complete, or an ERROR, it only disconnects, and behind that it does nothing;
-- unless it sends fragments for ever, it is done when it has disconnected.
pub stream_responder-Accepted :
    (size : ℕ) (f : RequestStreamFrame) (handler : HandlerRun) (events : List Event)
    → Accepted
        (perform stream_responder)
        observe
        AgreesLinked
        (serve stream_responder (construct size f handler) events)
        Phase.unserved
stream_responder-Accepted size f handler events =
    serve-Accepted stream_responder stream_responder-Laws (construct size f handler) events
      (construct-Fits size f handler)
