-- ===== src/Examples/Streams.antt =====
-- The theorems on the streams of packages/rsocket-core/src, applied.
use rsocket_js.Common.{◌≡◌, refl, [], ◌∷◌, List, some, none, true, false, arith}
use rsocket_js.Node.{pos, buffer, undefined}
use rsocket_js.Frames.Flags
use rsocket_js.Frames.{Frame, PayloadFrame, RequestStreamFrame, RequestResponseFrame}
use rsocket_js.Reassembler.{Payload, no_fragments}
use rsocket_js.Streams.{step}
use rsocket_js.Streams.Traces.{Accepted, run}
use rsocket_js.Streams.Requester
use rsocket_js.Streams.Requester.{Requester}
use rsocket_js.Streams.Responder.{Responder, HandlerRun, emit, finish, new_responder, perform_call}
use rsocket_js.Streams.Responder
use rsocket_js.Streams.RequesterSafety
use rsocket_js.Streams.ResponderSafety
use rsocket_js.Streams.ResponderSafety.Runs as ServedRuns
use rsocket_js.RequestStream.Safety.{stream_requester, stream_requester-Accepted}
use rsocket_js.RequestResponse.Requester as ResponseRequester
use rsocket_js.RequestResponse.Safety.{response_requester, response_requester-Accepted}
use rsocket_js.RequestStream.Requester.{handle}
use rsocket_js.RequestStream.Responder as StreamResponder
use rsocket_js.RequestResponse.Responder as ResponseResponder
use rsocket_js.RequestStream.ResponderSafety.{stream_responder, stream_responder-Accepted}
use rsocket_js.RequestResponse.ResponderSafety.{response_responder, response_responder-Accepted}
use rsocket_js.RequestStream.Delivery.Emitted.{sent, Deliverable, cut}
use rsocket_js.RequestStream.Delivery.Payloads.{script, heard, handle-sent}
use rsocket_js.RequestFnf.Requester as FnfStream
use rsocket_js.RequestFnf.Requester.{FnfRequester}
use rsocket_js.RequestFnf.Received.{receive, outcome}
use rsocket_js.RequestFnf.Handled.{told, outcome-handle_ready}
use rsocket_js.RequestFnf.Once
use rsocket_js.RequestFnf.Once.{perform, run-first}
use rsocket_js.Streams.{Ending, on_complete, on_next}
use rsocket_js.RequestStream.BehindClose.{run-frame_behind_close}
use rsocket_js.Examples.{small_payload}

abbrev words : Payload
words = record { data_ref = buffer (1 ∷ 2 ∷ 3 ∷ 4 ∷ 5 ∷ 6 ∷ []); metadata = buffer (9 ∷ []) }

-- A payload, an extension, a frame that completes, and the closing of the connection.
abbrev met : List RequesterSafety.Event
met =
    RequesterSafety.ready (pos 5)
    ∷ RequesterSafety.request (pos 3)
    ∷ RequesterSafety.frame small_payload
    ∷ RequesterSafety.extension 7 (buffer (1 ∷ [])) true
    ∷ RequesterSafety.frame (Responder.complete_frame (pos 5))
    ∷ RequesterSafety.close none
    ∷ RequesterSafety.cancel
    ∷ []

abbrev fresh : Requester → RequesterSafety.Linked
fresh r = record { requester = r; connected = false }

stream_requester-Accepted_example :
    Accepted
      (RequesterSafety.perform stream_requester)
      RequesterSafety.observe
      RequesterSafety.AgreesLinked
      (run
        (RequesterSafety.perform stream_requester)
        met
        (fresh (Requester.new_requester words 4 (pos 2) false)))
      RequesterSafety.Phase.waiting
stream_requester-Accepted_example = stream_requester-Accepted met words 4 (pos 2) false (tt, tt)

response_requester-Accepted_example :
    Accepted
      (RequesterSafety.perform response_requester)
      RequesterSafety.observe
      RequesterSafety.AgreesLinked
      (run
        (RequesterSafety.perform response_requester)
        met
        (fresh (ResponseRequester.new_requester words 4 true)))
      RequesterSafety.Phase.waiting
response_requester-Accepted_example = response_requester-Accepted met words 4 true (tt, tt)

abbrev answering : HandlerRun
answering = record { calls = emit words false ∷ finish ∷ []; thrown = none }

abbrev asked : List ResponderSafety.Event
asked =
    ResponderSafety.call (emit words true)
    ∷ ResponderSafety.frame small_payload answering
    ∷ ResponderSafety.close none
    ∷ []

abbrev stream_request : RequestStreamFrame
stream_request = record {
  data_ref = buffer (1 ∷ []);
  metadata = undefined;
  flags = 0;
  request_n = pos 2;
  stream_id = pos 5;
}

abbrev response_request : RequestResponseFrame
response_request = record {
  data_ref = buffer (1 ∷ []);
  metadata = undefined;
  flags = 0x80;
  stream_id = pos 5;
}

stream_responder-Accepted_example :
    Accepted
      (ResponderSafety.perform stream_responder)
      ResponderSafety.observe
      ServedRuns.AgreesLinked
      (ResponderSafety.serve stream_responder
        (StreamResponder.construct 4 stream_request answering)
        asked)
      ResponderSafety.Phase.unserved
stream_responder-Accepted_example = stream_responder-Accepted 4 stream_request answering asked

response_responder-Accepted_example :
    Accepted
      (ResponderSafety.perform response_responder)
      ResponderSafety.observe
      ServedRuns.AgreesLinked
      (ResponderSafety.serve response_responder
        (ResponseResponder.construct 4 response_request answering)
        asked)
      ResponderSafety.Phase.unserved
response_responder-Accepted_example = response_responder-Accepted 4 response_request answering asked

abbrev server : Responder
server = record (new_responder (pos 5) 4) { receiver = true }

abbrev client : Requester
client = record (Requester.new_requester words 4 (pos 2) false) { stream_id = some (pos 5) }

words-Deliverable : Deliverable 4 words
words-Deliverable = cut _ _ (omega arith) (λ e. cc) (omega arith)

handle-sent_example :
    run handle
      (sent
        (run
          (perform_call Responder.on_next)
          (script (words ∷ words ∷ []) (some words))
          server).actions)
      client
    ≡ step
        (record client { done = true; holder = no_fragments })
        (heard (words ∷ words ∷ []) (some words))
handle-sent_example =
    handle-sent (words ∷ words ∷ []) (some words) server client
      (words-Deliverable, (words-Deliverable, words-Deliverable)) refl refl refl

abbrev fnf : FnfRequester
fnf = FnfStream.new_requester words 4 true

outcome-handle_ready_example :
    (outcome (receive false (sent (FnfStream.handle_ready (pos 5) fnf).1.actions))
      ≡ some (fnf.payload ∷ [], Ending.returned))
    × ((FnfStream.handle_ready (pos 5) fnf).1.ending ≡ Ending.returned)
    × (told (FnfStream.handle_ready (pos 5) fnf).1.actions ≡ on_complete ∷ [])
    × ((FnfStream.handle_ready (pos 5) fnf).1.stream.done ≡ true)
outcome-handle_ready_example = outcome-handle_ready (pos 5) fnf false refl words-Deliverable

run-first_example :
    run perform (Once.ready (pos 5) ∷ Once.cancel ∷ Once.ready (pos 7) ∷ []) fnf
    ≡ perform (Once.ready (pos 5)) fnf
run-first_example =
    run-first (Once.ready (pos 5)) (Once.cancel ∷ Once.ready (pos 7) ∷ []) fnf refl
      words-Deliverable

abbrev active_stream : RequesterSafety.Linked
active_stream = record {
  requester = record (Requester.new_requester words 4 (pos 2) false) { stream_id = some (pos 5) };
  connected = true;
}

abbrev last_words : PayloadFrame
last_words = record {
  flags = 0x20;
  stream_id = pos 5;
  data_ref = buffer (1 ∷ []);
  metadata = undefined;
}

run-frame_behind_close_example :
    (run
      (RequesterSafety.perform stream_requester)
      (RequesterSafety.close none ∷ RequesterSafety.frame (Frame.payload last_words) ∷ [])
      active_stream).actions
    ≡ on_complete ∷ on_next (record { data_ref = buffer (1 ∷ []); metadata = undefined }) false ∷ []
unfolding Flags.has_complete Flags.has_follows
run-frame_behind_close_example =
    run-frame_behind_close active_stream none last_words refl refl refl refl
