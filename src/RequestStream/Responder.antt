-- ===== src/RequestStream/Responder.antt =====
-- packages/rsocket-core/src/RequestStreamStream.ts: RequestStreamResponderStream.
use rsocket_js.Common.{ℕ, true, false, some, [], ◌∷◌, if◌then◌else◌, ◌||◌, not}
use rsocket_js.Frames.{Frame, RequestStreamFrame}
use rsocket_js.Frames.Flags
use rsocket_js.Streams.{
  Action, connect, Step, step, prepend, unexpected_frame_type, unexpected_during_reassembly,
}
use rsocket_js.Streams.Responder
use rsocket_js.Streams.Responder.{
  Responder, HandlerRun, new_responder, hold, refuse, start, handle_fragment,
}

-- The constructor.
unfoldable pub construct : ℕ → RequestStreamFrame → HandlerRun → Step Responder
construct fragment_size f handler =
    let s = new_responder f.stream_id fragment_size in
    prepend (connect f.stream_id) (elim (Flags.has_follows f.flags) [
      | true ↦ hold f.data_ref f.metadata (record s { initial_request_n = some f.request_n })
      | false ↦
          start Responder.on_next (some f.request_n)
            (record { data_ref = f.data_ref; metadata = f.metadata }) handler s
    ])

-- `!this.receiver || this.hasFragments`
unfoldable pub handle_request : Frame → HandlerRun → Responder → Step Responder
handle_request (Frame.payload f) handler s = handle_fragment Responder.on_next f handler s
handle_request frame handler s = refuse frame (unexpected_during_reassembly frame) s

unfoldable pub handle_rest : Frame → Responder → Step Responder
handle_rest (Frame.request_n f) s = step s (Action.request f.request_n ∷ [])
handle_rest (Frame.ext f) s =
    step s (Action.on_extension f.extended_type f.extended_content (Flags.has_ignore f.flags) ∷ [])
handle_rest frame s = refuse frame (unexpected_frame_type frame) s

unfoldable pub handle : Frame → HandlerRun → Responder → Step Responder
handle frame handler s =
    if not s.receiver || s.holder.has_fragments
    then handle_request frame handler s
    else handle_rest frame s
