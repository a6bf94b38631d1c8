-- ===== src/RequestResponse/Requester.antt =====
-- packages/rsocket-core/src/RequestResponseStream.ts: RequestResponseRequesterStream.
use rsocket_js.Common.{ℕ, Bool, true, false, Option, [], ◌∷◌, if◌then◌else◌, ◌||◌, not}
use rsocket_js.Node.{ℤ, pos, BufferRef, buffer, Result, ok, ◌>>=◌}
use rsocket_js.Errors.{RSocketError}
use rsocket_js.Frames.{Frame, PayloadFrame, ErrorFrame, ExtFrame}
use rsocket_js.Frames.Flags
use rsocket_js.Codecs.{Yields, finished, yield}
use rsocket_js.Fragmenter.{Carrier, is_fragmentable, fragment}
use rsocket_js.Reassembler.{Payload}
use rsocket_js.Streams.{
  disconnect, on_complete, Step, step, prepend, fuel_for, unexpected_frame_type,
}
use rsocket_js.Streams.Requester
use rsocket_js.Streams.Requester.{Requester, handle_ready_with, deliver, hold, refuse}

-- It has no initial count of requests.
abbrev pub new_requester : Payload → ℕ → Bool → Requester
new_requester payload fragment_size has_lease_manager =
    Requester.new_requester payload fragment_size (pos 0) has_lease_manager

-- `payload.metadata ? Flags.METADATA : 0`
abbrev pub truthy_flag : BufferRef → ℕ
truthy_flag (buffer bytes) = Flags.metadata
truthy_flag _ = 0

abbrev pub request_frame : ℤ → Requester → Frame
request_frame id s = Frame.request_response (record {
  data_ref = s.payload.data_ref;
  metadata = s.payload.metadata;
  flags = truthy_flag s.payload.metadata;
  stream_id = id;
})

unfoldable pub request_frames : ℤ → Requester → Result (Yields Frame)
request_frames id s =
    let carrier = Carrier.request_response in
    is_fragmentable s.payload s.fragment_size carrier >>= elim [
      | true ↦ ok (fragment (fuel_for s.payload) id s.payload s.fragment_size carrier false)
      | false ↦ ok (yield (request_frame id s) finished)
    ]

unfoldable pub handle_ready : ℤ → Requester → Bool × Step Requester
unfolding handle_ready_with
handle_ready id s = handle_ready_with (request_frames id s) id s

-- The reassembler's `add` never returns false.
unfoldable pub handle_payload : PayloadFrame → Requester → Step Requester
handle_payload f s =
    if Flags.has_complete f.flags || not (Flags.has_follows f.flags)
    then prepend disconnect (
        if Flags.has_next f.flags
        then deliver f true (record s { done = true })
        else step (record s { done = true }) (on_complete ∷ []))
    else hold f s

-- What follows is word for word as in RequestStreamRequesterStream.
abbrev pub handle_error : ErrorFrame → Requester → Step Requester
handle_error = Requester.handle_error

abbrev pub handle_ext : ExtFrame → Requester → Step Requester
handle_ext = Requester.handle_ext

unfoldable pub handle : Frame → Requester → Step Requester
handle (Frame.payload f) s = handle_payload f s
handle (Frame.error f) s = handle_error f s
handle (Frame.ext f) s = handle_ext f s
handle frame s = refuse (unexpected_frame_type frame) s

abbrev pub handle_reject : RSocketError → Requester → Step Requester
handle_reject = Requester.handle_reject

abbrev pub cancel : Requester → Step Requester
cancel = Requester.cancel

abbrev pub on_extension : ℕ → BufferRef → Bool → Requester → Step Requester
on_extension = Requester.on_extension

abbrev pub close : Option RSocketError → Requester → Step Requester
close = Requester.close
