-- ===== src/RequestResponse/Responder.antt =====
-- packages/rsocket-core/src/RequestResponseStream.ts: RequestResponseResponderStream.
use rsocket_js.Common.{ℕ, Bool, true, false, Option, none, [], ◌∷◌, if◌then◌else◌, ◌||◌, not}
use rsocket_js.Node.{BufferRef}
use rsocket_js.Errors.{RSocketError}
use rsocket_js.Frames.{Frame, RequestResponseFrame}
use rsocket_js.Frames.Flags
use rsocket_js.Reassembler.{Payload}
use rsocket_js.Streams.{
  Action, connect, Step, step, prepend, unexpected_frame_type, unexpected_during_reassembly,
}
use rsocket_js.Streams.Responder
use rsocket_js.Streams.Responder.{
  Responder, HandlerRun, new_responder, hold, refuse, start, handle_fragment,
}

-- The first payload completes the stream, whatever the application says.
unfoldable pub on_next : Payload → Bool → Responder → Step Responder
on_next p is_completion s = Responder.on_next p true s

-- The constructor; the handler gets no count.
unfoldable pub construct : ℕ → RequestResponseFrame → HandlerRun → Step Responder
construct fragment_size f handler =
    let s = new_responder f.stream_id fragment_size in
    prepend (connect f.stream_id) (elim (Flags.has_follows f.flags) [
      | true ↦ hold f.data_ref f.metadata s
      | false ↦
          start on_next none (record { data_ref = f.data_ref; metadata = f.metadata }) handler s
    ])

-- `!this.receiver || this.hasFragments`
unfoldable pub handle_request : Frame → HandlerRun → Responder → Step Responder
handle_request (Frame.payload f) handler s = handle_fragment on_next f handler s
handle_request frame handler s = refuse frame (unexpected_during_reassembly frame) s

unfoldable pub handle_rest : Frame → Responder → Step Responder
handle_rest (Frame.ext f) s =
    step s (Action.on_extension f.extended_type f.extended_content (Flags.has_ignore f.flags) ∷ [])
handle_rest frame s = refuse frame (unexpected_frame_type frame) s

unfoldable pub handle : Frame → HandlerRun → Responder → Step Responder
handle frame handler s =
    if not s.receiver || s.holder.has_fragments
    then handle_request frame handler s
    else handle_rest frame s

-- What follows is word for word as in RequestStreamResponderStream.
abbrev pub on_error : RSocketError → Responder → Step Responder
on_error = Responder.on_error

abbrev pub on_complete : Responder → Step Responder
on_complete = Responder.on_complete

abbrev pub on_extension : ℕ → BufferRef → Bool → Responder → Step Responder
on_extension = Responder.on_extension

abbrev pub close : Option RSocketError → Responder → Step Responder
close = Responder.close
