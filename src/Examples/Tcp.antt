-- ===== src/Examples/Tcp.antt =====
-- The theorems on packages/rsocket-tcp-client/src/TcpDuplexConnection.ts, applied.
use rsocket_js.Common.{
  ℕ, true, ◌≡◌, refl, sym, [], ◌∷◌, ◌++◌, List, Option, none, false, take, drop, append-nil,
  take-append-drop,
}
use mathlib.Core.Path.{subst}
use rsocket_js.Node.{Buffer}
use rsocket_js.Frames.{Frame}
use rsocket_js.Codecs.Framing.Streams.{Sent, AllSendable-Sent}
use rsocket_js.Codecs.{Yields, finished, stuck, failed, yield, deserialize_frames}
use rsocket_js.Tcp.{
  Core, core_of, handle_with, handle_frames, closes, all_handled, close_core, Surroundings,
  TcpDuplexConnection, returns, data_event, data_events,
}
use rsocket_js.Tcp.Chunks.{join, LeavesOpen, ClosedByNoFrame, visible, settle, visible-data_events}
use rsocket_js.Tcp.Delivery.{handle_each, data_events-Sent}
use rsocket_js.Tcp.Sending.{send_all, write_each, send_all-Sent}
use rsocket_js.Node.{ok}
use rsocket_js.Examples.{small_runtime, five_bytes}
use rsocket_js.Examples.Sendable.{two_frames, two_frames-AllSendable}

-- A multiplexer that keeps the frames, and never closes the connection.
abbrev recorder : Surroundings (List (Option Frame))
recorder = record {
  handle = λ frame s. returns (frame ∷ s);
  socket_write = λ buf s. s;
  socket_end = λ s. s;
  close_callbacks = λ e s. s;
}

abbrev fresh : TcpDuplexConnection (List (Option Frame))
fresh = record { done = false; closed_by = none; error = none; remaining_buffer = []; around = [] }

handle_frames-LeavesOpen :
    (frames : Yields (Option Frame × ℕ)) (last : ℕ) (core : Core (List (Option Frame)))
    → core.done ≡ false
    → LeavesOpen small_runtime recorder (handle_frames small_runtime recorder frames last core)
unfolding handle_frames handle_with
handle_frames-LeavesOpen finished last core h = h
handle_frames-LeavesOpen stuck last core h = h
handle_frames-LeavesOpen (failed e) last core h = tt
handle_frames-LeavesOpen (yield (frame, offset) rest) last core h =
    handle_frames-LeavesOpen rest offset _ h

fresh-ClosedByNoFrame :
    (chunk next : Buffer) → ClosedByNoFrame small_runtime recorder fresh chunk (next ∷ [])
fresh-ClosedByNoFrame chunk next =
    (handle_frames-LeavesOpen (deserialize_frames small_runtime chunk) 0 (core_of fresh) refl, tt)

visible-data_events_example :
    visible (
      data_events small_runtime recorder
        (data_event small_runtime recorder fresh five_bytes)
        (five_bytes ∷ []))
    ≡ visible (data_event small_runtime recorder fresh (five_bytes ++ join (five_bytes ∷ [])))
visible-data_events_example =
    visible-data_events small_runtime recorder fresh five_bytes (five_bytes ∷ [])
      (fresh-ClosedByNoFrame five_bytes five_bytes)

abbrev stream : Buffer
stream = (AllSendable-Sent small_runtime two_frames two_frames-AllSendable).0

cut_stream-Sent : Sent small_runtime two_frames (take 4 stream ++ join (drop 4 stream ∷ []))
cut_stream-Sent =
    let whole : take 4 stream ++ join (drop 4 stream ∷ []) ≡ stream =
      rw (append-nil (drop 4 stream)) (take-append-drop 4 stream) in
    subst (λ b. Sent small_runtime two_frames b) (sym whole)
      (AllSendable-Sent small_runtime two_frames two_frames-AllSendable).1

data_events-Sent_example :
    visible (
      data_events small_runtime recorder
        (data_event small_runtime recorder fresh (take 4 stream))
        (drop 4 stream ∷ []))
    ≡ visible (
        settle small_runtime recorder
          (handle_each small_runtime recorder two_frames (core_of fresh))
          fresh)
data_events-Sent_example =
    data_events-Sent small_runtime recorder fresh two_frames (take 4 stream) (drop 4 stream ∷ [])
      refl refl two_frames-AllSendable cut_stream-Sent
      (fresh-ClosedByNoFrame (take 4 stream) (drop 4 stream))

send_all-Sent_example :
    (pieces : List Buffer) × (send_all small_runtime recorder two_frames fresh
      ≡ ok (record fresh { around = write_each small_runtime recorder pieces [] }))
    × Sent small_runtime two_frames (join pieces)
send_all-Sent_example =
    send_all-Sent small_runtime recorder two_frames fresh refl two_frames-AllSendable

-- A multiplexer that keeps the frames, and closes the connection at each.
abbrev closer : Surroundings (List (Option Frame))
closer = record recorder { handle = λ frame s. closes none (frame ∷ s) (λ s'. returns s') }

-- The connection is closed by the first of two frames of a chunk, and the second one is handled.
handle_frames-closer :
    handle_frames small_runtime closer
      (yield (none, 4) (yield (none, 8) finished))
      0
      (core_of fresh)
    ≡ all_handled 8 (record { done = true; closed_by = none; around = none ∷ none ∷ [] })
unfolding handle_frames handle_with close_core
handle_frames-closer = refl
