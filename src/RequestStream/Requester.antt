-- ===== src/RequestStream/Requester.antt =====
-- packages/rsocket-core/src/RequestStreamStream.ts: RequestStreamRequesterStream.
use rsocket_js.Common.{ℕ, Bool, true, false, [], ◌∷◌, if◌then◌else◌}
use rsocket_js.Node.{ℤ, BufferRef, undefined, Result, ok, ◌>>=◌}
use rsocket_js.Frames.{Frame, PayloadFrame}
use rsocket_js.Frames.Flags
use rsocket_js.Codecs.{Yields, finished, yield}
use rsocket_js.Fragmenter.{Carrier, is_fragmentable, fragment_with_request_n}
use rsocket_js.Streams.{
  disconnect, on_complete, Step, step, prepend, fuel_for, unexpected_frame_type,
}
use rsocket_js.Streams.Requester.{
  Requester, handle_ready_with, deliver, hold, handle_error, handle_ext, refuse,
}

-- `payload.metadata !== undefined ? Flags.METADATA : 0`
abbrev pub defined_flag : BufferRef → ℕ
defined_flag undefined = 0
defined_flag _ = Flags.metadata

abbrev pub request_frame : ℤ → Requester → Frame
request_frame id s = Frame.request_stream (record {
  data_ref = s.payload.data_ref;
  metadata = s.payload.metadata;
  flags = defined_flag s.payload.metadata;
  request_n = s.initial_request_n;
  stream_id = id;
})

unfoldable pub request_frames : ℤ → Requester → Result (Yields Frame)
request_frames id s =
    let carrier = Carrier.request_stream s.initial_request_n in
    is_fragmentable s.payload s.fragment_size carrier >>= elim [
      | true ↦
          ok (
            fragment_with_request_n (fuel_for s.payload) id s.payload s.fragment_size carrier false)
      | false ↦ ok (yield (request_frame id s) finished)
    ]

unfoldable pub handle_ready : ℤ → Requester → Bool × Step Requester
unfolding handle_ready_with
handle_ready id s = handle_ready_with (request_frames id s) id s

-- The reassembler's `add` never returns false.
unfoldable pub handle_payload : PayloadFrame → Requester → Step Requester
handle_payload f s =
    if Flags.has_complete f.flags
    then prepend disconnect (
        if Flags.has_next f.flags
        then deliver f true (record s { done = true })
        else step (record s { done = true }) (on_complete ∷ []))
    else if Flags.has_follows f.flags
    then hold f s
    else deliver f false s

unfoldable pub handle : Frame → Requester → Step Requester
handle (Frame.payload f) s = handle_payload f s
handle (Frame.error f) s = handle_error f s
handle (Frame.ext f) s = handle_ext f s
handle frame s = refuse (unexpected_frame_type frame) s
