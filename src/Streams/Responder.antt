-- ===== src/Streams/Responder.antt =====
-- packages/rsocket-core/src: the responding side of a REQUEST_STREAM and of a REQUEST_RESPONSE: what the
-- two classes have in common.
use rsocket_js.Common.{
  ℕ, Bool, true, false, Option, none, some, List, [], ◌∷◌, ◌++◌, if◌then◌else◌, bit_or,
}
use rsocket_js.Node.{ℤ, BufferRef, null, Result, ok, throw, ◌>>=◌}
use rsocket_js.Errors.{RSocketError, ErrorCodes, error_code, code_of}
use rsocket_js.Frames.{Frame, PayloadFrame}
use rsocket_js.Frames.Flags
use rsocket_js.Codecs.{Yields, finished, yield}
use rsocket_js.Fragmenter.{Carrier, is_fragmentable, fragment, truthy}
use rsocket_js.Reassembler
use rsocket_js.Reassembler.{Payload, FragmentsHolder, no_fragments}
use rsocket_js.Streams.{
  Action, accept, disconnect, send, Step, step, prepend, and_then, send_all, Ending, fuel_for,
}
use rsocket_js.Streams.Traces.{run}
use rsocket_js.Streams.Requester.{ext_frame, ignore_flags}

-- `receiver` says whether the handler has given one.
pub record Responder : Type 0 where
  pub stream_id : ℤ
  pub fragment_size : ℕ
  pub initial_request_n : Option ℤ
  pub receiver : Bool
  pub done : Bool
  pub holder : FragmentsHolder

abbrev pub new_responder : ℤ → ℕ → Responder
new_responder stream_id fragment_size = record {
  stream_id = stream_id;
  fragment_size = fragment_size;
  initial_request_n = none;
  receiver = false;
  done = false;
  holder = no_fragments;
}

-- What the application calls: `onError`, `onNext`, `onComplete` and `onExtension`.
pub data Call : Type 0 where
  raise : RSocketError → Call
  emit : Payload → Bool → Call
  finish : Call
  extend : ℕ → BufferRef → Bool → Call

-- One run of the handler, which is the application's: what it called in turn, going on where a call threw,
-- and what it threw itself if it did not return a receiver.
pub record HandlerRun : Type 0 where
  pub calls : List Call
  pub thrown : Option RSocketError

abbrev pub error_frame : ℤ → ℤ → List ℕ → Frame
error_frame id code message =
    Frame.error (record { flags = Flags.none; code = code; message = message; stream_id = id })

unfoldable pub on_error : RSocketError → Responder → Step Responder
on_error e s = elim s.done [
  | true ↦ step s []
  | false ↦
      step (record s { done = true })
        (send (error_frame s.stream_id (code_of e.code) e.message) ∷ disconnect ∷ [])
]

-- `payload.metadata ? Flags.METADATA : Flags.NONE`
abbrev pub payload_frame : ℤ → Payload → Bool → Frame
payload_frame id p is_completion = Frame.payload (record {
  flags =
      bit_or (bit_or Flags.next (if is_completion then Flags.complete else Flags.none))
        (if truthy p.metadata then Flags.metadata else Flags.none);
  data_ref = p.data_ref;
  metadata = p.metadata;
  stream_id = id;
})

unfoldable pub payload_frames : Payload → Bool → Responder → Result (Yields Frame)
payload_frames p is_completion s = is_fragmentable p s.fragment_size Carrier.payload >>= elim [
  | true ↦ ok (fragment (fuel_for p) s.stream_id p s.fragment_size Carrier.payload is_completion)
  | false ↦ ok (yield (payload_frame s.stream_id p is_completion) finished)
]

abbrev pub leave_if : Bool → Responder → Step Responder
leave_if is_completion s = step s (if is_completion then disconnect ∷ [] else [])

unfoldable pub on_next : Payload → Bool → Responder → Step Responder
on_next p is_completion s = elim s.done [
  | true ↦ step s []
  | false ↦
      let s' = record s { done = is_completion } in
      elim (payload_frames p is_completion s) [
        | throw e ↦ record { stream = s'; actions = []; ending = Ending.threw e }
        | ok frames ↦ and_then (send_all frames s') (leave_if is_completion)
      ]
]

abbrev pub complete_frame : ℤ → Frame
complete_frame id =
    Frame.payload
      (record { flags = Flags.complete; data_ref = null; metadata = null; stream_id = id })

unfoldable pub on_complete : Responder → Step Responder
on_complete s = elim s.done [
  | true ↦ step s []
  | false ↦ step (record s { done = true }) (send (complete_frame s.stream_id) ∷ disconnect ∷ [])
]

unfoldable pub on_extension : ℕ → BufferRef → Bool → Responder → Step Responder
on_extension extended_type content can_be_ignored s = elim s.done [
  | true ↦ step s []
  | false ↦ step s (
      send (
        ext_frame s.stream_id (record {
          extended_type = extended_type;
          extended_content = content;
          flags = ignore_flags can_be_ignored;
        }))
      ∷ [])
]

-- `this.receiver?.cancel()`
abbrev pub cancel_receiver : Bool → List Action
cancel_receiver true = Action.cancel ∷ []
cancel_receiver false = []

-- It does not set `done`.
unfoldable pub close : Option RSocketError → Responder → Step Responder
close e s = elim s.done [
  | true ↦ step s []
  | false ↦ step (record s { holder = Reassembler.cancel s.holder }) (cancel_receiver s.receiver)
]

-- Behind the branches of `handle`: a frame that did not fit, or the end that the peer gave.
abbrev pub answer : Frame → ℤ → List ℕ → List Action
answer (Frame.cancel f) id message = []
answer (Frame.error f) id message = []
answer _ id message = send (error_frame id (error_code ErrorCodes.canceled) message) ∷ []

unfoldable pub refuse : Frame → List ℕ → Responder → Step Responder
refuse frame message s =
    step (record s { done = true; holder = Reassembler.cancel s.holder })
      (cancel_receiver s.receiver ++ answer frame s.stream_id message ++ disconnect ∷ [])

unfoldable pub hold : BufferRef → BufferRef → Responder → Step Responder
hold data_ref metadata s = elim (Reassembler.add s.holder data_ref metadata) [
  | ok holder ↦ step (record s { holder = holder }) []
  | throw e ↦ record { stream = s; actions = []; ending = Ending.threw e }
]

-- The two classes have an `onNext` of their own.
module _ (next : Payload → Bool → Responder → Step Responder) where
  unfoldable pub perform_call : Call → Responder → Step Responder
  perform_call (raise e) s = on_error e s
  perform_call (emit p is_completion) s = next p is_completion s
  perform_call finish s = on_complete s
  perform_call (extend type content ignored) s = on_extension type content ignored s

  -- `try { this.receiver = handler(…) } catch (error) { this.onError(error) }`
  abbrev pub settle : Option RSocketError → Responder → Step Responder
  settle none s = step (record s { receiver = true }) []
  settle (some e) s = on_error e s

  unfoldable pub start : Option ℤ → Payload → HandlerRun → Responder → Step Responder
  start request_n p handler s =
      prepend (accept p request_n)
        (and_then (run perform_call handler.calls s) (settle handler.thrown))

  -- The payload that the fragments make up goes to the handler.
  abbrev pub start_with : HandlerRun → Responder → FragmentsHolder × Result Payload → Step Responder
  start_with handler s (holder, ok p) =
      start s.initial_request_n p handler (record s { holder = holder })
  start_with handler s (holder, throw e) = record {
    stream = record s { holder = holder };
    actions = [];
    ending = Ending.threw e;
  }

  -- A fragment of the request: more follow, or it is the last one.
  unfoldable pub handle_fragment : PayloadFrame → HandlerRun → Responder → Step Responder
  handle_fragment f handler s = elim (Flags.has_follows f.flags) [
    | true ↦ hold f.data_ref f.metadata s
    | false ↦ start_with handler s (Reassembler.reassemble s.holder f.data_ref f.metadata)
  ]
