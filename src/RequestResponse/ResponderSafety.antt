-- ===== src/RequestResponse/ResponderSafety.antt =====
-- packages/rsocket-core/src/RequestResponseStream.ts: what a RequestResponseResponderStream sends, over whole
-- runs.
use rsocket_js.Common.{
  ℕ, Bool, true, false, none, List, [], ◌∷◌, ◌≡◌, refl, ◌||◌, not, if◌then◌else◌,
}
use rsocket_js.Frames.{Frame, RequestResponseFrame}
use rsocket_js.Frames.Flags
use rsocket_js.Reassembler.{Payload}
use rsocket_js.Streams.{connect, step, unexpected_frame_type, unexpected_during_reassembly}
use rsocket_js.Streams.Traces.{Accepted}
use rsocket_js.Streams.Responder.{Responder, HandlerRun, new_responder, hold, start}
use rsocket_js.Streams.ResponderSafety.{Phase, observe, Fits, Event, ResponderClass, perform, serve}
use rsocket_js.Streams.ResponderSafety.Calls.{joined-Fits, on_next-serving}
use rsocket_js.Streams.ResponderSafety.Frames.{
  hold-serving, refuse-serving, start-serving, handle_fragment-serving, done-on_next,
}
use rsocket_js.Streams.ResponderSafety.Runs.{AgreesLinked, ResponderLaws, serve-Accepted}
use rsocket_js.RequestResponse.Responder.{on_next, construct, handle_request, handle_rest, handle}

next-serving :
    (p : Payload) (k : Bool) (s : Responder) (c : Bool)
    → Fits (on_next p k s) c (Phase.serving s.stream_id)
unfolding on_next
next-serving p k s c = on_next-serving p true s c

next-done : (p : Payload) (k : Bool) (s : Responder) → s.done ≡ true → on_next p k s ≡ step s []
unfolding on_next
next-done p k s h = done-on_next p true s h

handle_request-serving :
    (f : Frame) (handler : HandlerRun) (s : Responder)
    → Fits (handle_request f handler s) true (Phase.serving s.stream_id)
unfolding handle_request
handle_request-serving (Frame.payload f) handler s =
    handle_fragment-serving on_next next-serving next-done f handler s true
handle_request-serving f handler s = refuse-serving f (unexpected_during_reassembly f) s true

handle_rest-serving :
    (f : Frame) (s : Responder) → Fits (handle_rest f s) true (Phase.serving s.stream_id)
unfolding handle_rest
handle_rest-serving (Frame.ext f) s = record {
  after = Phase.serving s.stream_id;
  watched = refl;
  agrees = refl;
}
handle_rest-serving f s = refuse-serving f (unexpected_frame_type f) s true

handle-serving :
    (f : Frame) (handler : HandlerRun) (s : Responder)
    → Fits (handle f handler s) true (Phase.serving s.stream_id)
unfolding handle
handle-serving f handler s = go (not s.receiver || s.holder.has_fragments)
  where
    go :
        (requesting : Bool)
        → Fits
            (if requesting then handle_request f handler s else handle_rest f s)
            true
            (Phase.serving s.stream_id)
    go true = handle_request-serving f handler s
    go false = handle_rest-serving f s

construct-Fits :
    (size : ℕ) (f : RequestResponseFrame) (handler : HandlerRun)
    → Fits (construct size f handler) false Phase.unserved
unfolding construct
construct-Fits size f handler =
    joined-Fits (connect f.stream_id ∷ []) _ false (Phase.serving f.stream_id) refl
      (go (Flags.has_follows f.flags))
  where
    go :
        (follows : Bool)
        → Fits
            (elim follows [
              | true ↦ hold f.data_ref f.metadata (new_responder f.stream_id size)
              | false ↦
                  start on_next none
                    (record { data_ref = f.data_ref; metadata = f.metadata })
                    handler
                    (new_responder f.stream_id size)
            ])
            true
            (Phase.serving f.stream_id)
    go true = hold-serving f.data_ref f.metadata _ true
    go false =
        start-serving on_next next-serving next-done _ _ handler (new_responder f.stream_id size)
          true

abbrev pub response_responder : ResponderClass
response_responder = record { on_next = on_next; handle = handle }

response_responder-Laws : ResponderLaws response_responder
response_responder-Laws = record {
  next_serving = next-serving;
  next_done = next-done;
  handle_serving = handle-serving;
}

-- From the frame of the request on, whatever the handler does when it is called, and over any sequence of
-- frames, calls of the application and closing, the frames that a responder sends carry the stream's id;
-- behind a frame that is complete, or an ERROR, it only disconnects, and behind that it does nothing;
-- unless it sends fragments for ever, it is done when it has disconnected.
pub response_responder-Accepted :
    (size : ℕ) (f : RequestResponseFrame) (handler : HandlerRun) (events : List Event)
    → Accepted
        (perform response_responder)
        observe
        AgreesLinked
        (serve response_responder (construct size f handler) events)
        Phase.unserved
response_responder-Accepted size f handler events =
    serve-Accepted response_responder response_responder-Laws (construct size f handler) events
      (construct-Fits size f handler)
