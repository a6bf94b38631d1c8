-- ===== src/Multiplexer/Routing.antt =====
-- packages/rsocket-core/src/ClientServerMultiplexerDemultiplexer.ts: to whom a frame goes, before and
-- after a stream is connected or disconnected.
use rsocket_js.Common.{◌||◌, not, if◌then◌else◌, Option, ◌≡◌, refl, Bool-cases, inl, inr}
use rsocket_js.Node.{ℤ, Result, ok}
use rsocket_js.Frames.{Frame, stream_id_of, is_connection, is_request}
use rsocket_js.Multiplexer.{
  same, Multiplexer, Call, nobody, request_frames_handler, stream_handler, installed,
  handle_request, handle_stream, handle_connection, handle, connect, disconnect,
}
use rsocket_js.Multiplexer.Registry.{find-put, find-remove}

module _ {H : Type 0} where
  -- The answer of `handle` from what the registry finds.
  routed : Frame → Multiplexer H → Option H → Result (Call H)
  routed frame m found =
      if is_request frame
      then handle_request frame m.has_request_frames_handler found
      else handle_stream frame found

  -- With a stream connected under an id, frames of the connection and of other streams go where they
  -- went before; a request for this stream is dropped, and its other frames go to the stream.
  pub handle-connect :
      (frame : Frame) (id : ℤ) (handler : H) (m : Multiplexer H)
      → handle frame (connect id handler m) ≡ (
          if is_connection frame || not (same (stream_id_of frame) id)
          then handle frame m
          else if is_request frame
          then ok nobody
          else ok (stream_handler handler frame))
  unfolding handle connect handle_connection
  handle-connect frame id handler m = elim (Bool-cases (is_connection frame)) [
    | inl e ↦ rw e refl
    | inr e ↦
        rw (e, find-put (stream_id_of frame) id handler m.registry)
          (elim (Bool-cases (same (stream_id_of frame) id)) [
            | inl here ↦
                rw here
                  (elim (Bool-cases (is_request frame)) [ inl r ↦ rw r refl | inr r ↦ rw r refl ])
            | inr there ↦ rw there refl
          ])
  ]

  -- With a stream disconnected, frames of the connection and of other streams go where they went
  -- before; a request for this stream goes to the handler of requests, or throws where none is
  -- installed, and its other frames are dropped.
  pub handle-disconnect :
      (frame : Frame) (id : ℤ) (m : Multiplexer H)
      → handle frame (disconnect id m) ≡ (
          if is_connection frame || not (same (stream_id_of frame) id)
          then handle frame m
          else if is_request frame
          then installed m.has_request_frames_handler (request_frames_handler frame)
          else ok nobody)
  unfolding handle disconnect handle_connection
  handle-disconnect frame id m = elim (Bool-cases (is_connection frame)) [
    | inl e ↦ rw e refl
    | inr e ↦
        rw (e, find-remove (stream_id_of frame) id m.registry)
          (elim (Bool-cases (same (stream_id_of frame) id)) [
            | inl here ↦ rw here refl
            | inr there ↦ rw there refl
          ])
  ]
