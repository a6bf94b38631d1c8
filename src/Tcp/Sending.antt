-- ===== src/Tcp/Sending.antt =====
-- packages/rsocket-tcp-client/src/TcpDuplexConnection.ts: what `send` hands to the socket.
use rsocket_js.Common.{◌≡◌, refl, ap, ◌∙◌, [], ◌∷◌, List, false}
use rsocket_js.Node.{Buffer, Runtime, Result, ok, ◌>>=◌}
use rsocket_js.Frames.{Frame}
use rsocket_js.Codecs.{serialize_frame_with_length}
use rsocket_js.Codecs.Framing.{framed}
use rsocket_js.Codecs.Framing.Streams.{AllSendable, Sent, nothing, one_more, IsSendable-Written}
use rsocket_js.Tcp.{Surroundings, TcpDuplexConnection, write_out, send}
use rsocket_js.Tcp.Chunks.{join}

module _ {S : Type 0} (rt : Runtime) (env : Surroundings S) where
  unfoldable pub send_all : List Frame → TcpDuplexConnection S → Result (TcpDuplexConnection S)
  send_all [] c = ok c
  send_all (frame ∷ frames) c = send rt env frame c >>= send_all frames

  unfoldable pub write_each : List Buffer → S → S
  write_each [] s = s
  write_each (piece ∷ pieces) s = write_each pieces (env.socket_write piece s)

  send-open :
      (frame : Frame) (buf : Buffer) (c : TcpDuplexConnection S)
      → c.done ≡ false
      → serialize_frame_with_length rt frame ≡ ok buf
      → send rt env frame c ≡ ok (record c { around = env.socket_write buf c.around })
  unfolding send
  send-open frame buf c open_ e =
      rw open_ (ap (λ r. write_out rt env r (record c { done = false })) e)

-- Sendable frames, sent one by one on an open connection, are all written to its socket, in order and
-- with nothing else, and nothing throws; the bytes are what the frames are sent as.
pub send_all-Sent :
    {S : Type 0} (rt : Runtime) (env : Surroundings S) (frames : List Frame)
    (c : TcpDuplexConnection S)
    → c.done ≡ false
    → AllSendable rt frames
    → (pieces : List Buffer) × (send_all rt env frames c
        ≡ ok (record c { around = write_each rt env pieces c.around }))
      × Sent rt frames (join pieces)
unfolding send_all write_each
send_all-Sent rt env [] c open_ h = ([], refl, nothing)
send_all-Sent rt env (f ∷ fs) c open_ h =
    let w = IsSendable-Written rt f h.0 in
    let buf : Buffer = framed w.body in
    let (pieces, run, sent) =
      send_all-Sent rt env fs (record c { around = env.socket_write buf c.around }) open_ h.1 in
    (
      buf ∷ pieces,
      ap (λ r. r >>= send_all rt env fs) (send-open rt env f buf c open_ w.sent) ∙ run,
      one_more f fs buf (join pieces) w.sent sent,
    )
