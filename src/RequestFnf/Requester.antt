-- ===== src/RequestFnf/Requester.antt =====
-- packages/rsocket-core/src/RequestFnFStream.ts: RequestFnFRequesterStream.
use rsocket_js.Common.{ℕ, Bool, true, false, Option, none, some, [], ◌∷◌, if◌then◌else◌}
use rsocket_js.Node.{ℤ, Result, ok, throw, ◌>>=◌}
use rsocket_js.Errors.{RSocketError, ErrorCodes, error_code, new_rsocket_error, text}
use rsocket_js.Frames.{Frame}
use rsocket_js.Frames.Flags
use rsocket_js.Codecs.{Yields, finished, yield}
use rsocket_js.Fragmenter.{Carrier, is_fragmentable, fragment, truthy}
use rsocket_js.Reassembler.{Payload}
use rsocket_js.Streams.{
  on_complete, on_error, cancel_request, Step, step, and_then, send_all, Ending, fuel_for,
}

pub record FnfRequester : Type 0 where
  pub payload : Payload
  pub fragment_size : ℕ
  pub has_lease_manager : Bool
  pub done : Bool
  pub stream_id : Option ℤ

abbrev pub new_requester : Payload → ℕ → Bool → FnfRequester
new_requester payload fragment_size has_lease_manager = record {
  payload = payload;
  fragment_size = fragment_size;
  has_lease_manager = has_lease_manager;
  done = false;
  stream_id = none;
}

abbrev pub request_frame : ℤ → Payload → Frame
request_frame id p = Frame.request_fnf (record {
  data_ref = p.data_ref;
  metadata = p.metadata;
  flags = if truthy p.metadata then Flags.metadata else 0;
  stream_id = id;
})

unfoldable pub request_frames : ℤ → FnfRequester → Result (Yields Frame)
request_frames id s = is_fragmentable s.payload s.fragment_size Carrier.request_fnf >>= elim [
  | true ↦ ok (fragment (fuel_for s.payload) id s.payload s.fragment_size Carrier.request_fnf false)
  | false ↦ ok (yield (request_frame id s.payload) finished)
]

-- It is done when the request is sent.
abbrev pub completed : FnfRequester → Step FnfRequester
completed s = step (record s { done = true }) (on_complete ∷ [])

abbrev pub send_request : FnfRequester → Result (Yields Frame) → Step FnfRequester
send_request s (throw e) = record { stream = s; actions = []; ending = Ending.threw e }
send_request s (ok frames) = and_then (send_all frames s) completed

unfoldable pub handle_ready : ℤ → FnfRequester → Bool × Step FnfRequester
handle_ready id s = elim s.done [
  | true ↦ (false, step s [])
  | false ↦ (true, send_request (record s { stream_id = some id }) (request_frames id s))
]

unfoldable pub handle_reject : RSocketError → FnfRequester → Step FnfRequester
handle_reject e s = elim s.done [
  | true ↦ step s []
  | false ↦ step (record s { done = true }) (on_error e ∷ [])
]

unfoldable pub cancel : FnfRequester → Step FnfRequester
cancel s = elim s.done [
  | true ↦ step s []
  | false ↦
      step (record s { done = true }) (if s.has_lease_manager then cancel_request ∷ [] else [])
]

-- It does not set `done`.
unfoldable pub close : Option RSocketError → FnfRequester → Step FnfRequester
close e s = elim s.done [
  | true ↦ step s []
  | false ↦ step s (elim e [ some error ↦ on_error error ∷ [] | none ↦ on_complete ∷ [] ])
]

unfoldable pub handle : Frame → FnfRequester → Step FnfRequester
handle (Frame.error f) s = close (some (new_rsocket_error f.code f.message)) s
handle frame s =
    close
      (some (new_rsocket_error (error_code ErrorCodes.canceled) (text "Received invalid frame"))) s
